-- ===== src/Coordination/Stale.antt =====
-- Retry and stale-agent cleanup: src/coordination/stale.ts.
pub mod Retry
pub mod Cleanup
use agent_working_memory.Base.{
  ℕ, suc, ◌+◌, ◌-◌, ◌*◌, Bool, true, false, not, ◌&&◌, ◌||◌, Option, none, some, List, [], ◌∷◌,
  ◌++◌, Text, codes, decimal, if◌then◌else◌, ltb, leb, ◌==◌, or_else, is_some, holds, any, find?,
  select, update_where, delete_where, count_where, length, map,
}
use agent_working_memory.Coordination.Schema.{
  AgentId, AssignmentId, AgentStatus, dead, is_dead, pending, assigned, failed, is_active,
  AssignmentStatus, Mode, known, Agent, Assignment, Db, datetime, log, has_agent, assignment_row,
  assignment_retry, assignment_failed, stale_cleanup, heartbeat, EventType, Event, Command,
}
use agent_working_memory.Coordination.FailureModes.{classify_failure, hint_of}
use agent_working_memory.Coordination.Circuit.{record_failure}

-- `(julianday('now') - julianday(last_seen)) * 86400 > ?` at a clock of `now` milliseconds.
abbrev pub is_stale : ℕ → ℕ → Agent → Bool
is_stale now threshold r =
    not (is_dead r.status) && ltb (threshold * 1000) (now - r.last_seen * 1000)

unfoldable pub detect_stale : ℕ → ℕ → Db → List Agent
detect_stale now threshold db = select (is_stale now threshold) db.agents

abbrev pub max_retry_attempts : ℕ
max_retry_attempts = 3

pub data Outcome : Type 0 where
  retried failed_for_good : Outcome

abbrev newline : Text
newline = 10 ∷ []

-- The block that a retry appends to the description.
pub hint_block : ℕ → Mode → Text
hint_block attempt mode =
    newline
    ++ newline
    ++ codes "--- RETRY HINT (attempt "
    ++ decimal attempt
    ++ codes ") ---"
    ++ newline
    ++ hint_of mode

abbrev attempts_of : Option Assignment → ℕ
attempts_of none = 0
attempts_of (some r) = r.attempt_count

abbrev description_of : Option Assignment → Text
description_of none = []
description_of (some r) = or_else r.description []

-- The row after a retry.
abbrev pub returned : ℕ → Mode → Text → Assignment → Assignment
returned attempt mode description r = record r {
  status = pending;
  agent_id = none;
  started_at = none;
  result = none;
  attempt_count = attempt;
  last_failure_mode = some mode;
  description = some description;
}

-- The row after the last attempt.
abbrev pub abandoned : ℕ → Mode → Text → Assignment → Assignment
abandoned now mode reason r = record r {
  status = failed;
  result = some reason;
  last_failure_mode = some mode;
  completed_at = some (datetime now);
}

abbrev mode_or : Option Mode → Text → Mode
mode_or none reason = known (classify_failure (some reason))
mode_or (some m) reason = m

-- `retryOrFailAssignment`. The agent is `none` where the caller passes 'unknown': it is only logged.
unfoldable pub retry_or_fail :
    ℕ → AssignmentId → Option AgentId → Text → Option Mode → Db → Db × Outcome
unfolding hint_block
retry_or_fail now i agent reason given db =
    let row = assignment_row i db in
    let attempts = attempts_of row in
    let mode = mode_or given reason in
    if ltb attempts max_retry_attempts
    then (
      log now agent assignment_retry (record db {
        assignments =
            update_where (λ r. r.id == i)
              (returned (attempts + 1) mode (description_of row ++ hint_block (attempts + 1) mode))
              db.assignments;
      }),
      retried,
    )
    else (
      log now agent assignment_failed (record db {
        assignments = update_where (λ r. r.id == i) (abandoned now mode reason) db.assignments;
      }),
      failed_for_good,
    )

abbrev stale_reason : Text
stale_reason = codes "agent disconnected (stale)"

-- The loop over the rows that a stale agent leaves behind.
unfoldable pub retry_all : ℕ → AgentId → List AssignmentId → Db → Db
retry_all now a [] db = db
retry_all now a (i ∷ is) db =
    retry_all now a is (retry_or_fail now i (some a) stale_reason none db).0

abbrev pub is_orphan : AgentId → Assignment → Bool
is_orphan a r = holds r.agent_id a && is_active r.status

abbrev pub release_locks : AgentId → Db → Db
release_locks a db = record db { locks = delete_where (λ l. l.agent_id == a) db.locks }

abbrev pub mark_dead : AgentId → Db → Db
mark_dead a db = record db {
  agents =
      update_where (λ r. r.id == a) (λ r. record r { status = dead; current_task = none })
        db.agents;
}

-- One round of `cleanupStale`, with what it adds to `cleaned`.
unfoldable pub cleanup_agent : ℕ → AgentId → Db → Db × ℕ
cleanup_agent now a db =
    let orphans = map (λ (r : Assignment). r.id) (select (is_orphan a) db.assignments) in
    let db1 = retry_all now a orphans db in
    let some_left = ltb 0 (length orphans) in
    let db2 =
      if some_left then record_failure now a (log now (some a) assignment_failed db1) else db1 in
    let released = count_where (λ l. l.agent_id == a) db2.locks in
    let db3 = mark_dead a (release_locks a db2) in
    let db4 = if some_left || ltb 0 released then log now (some a) stale_cleanup db3 else db3 in
    (db4, length orphans + released)

unfoldable pub cleanup_all : ℕ → List Agent → Db → ℕ → Db × ℕ
cleanup_all now [] db cleaned = (db, cleaned)
cleanup_all now (a ∷ rest) db cleaned =
    let (db', n) = cleanup_agent now a.id db in cleanup_all now rest db' (cleaned + n)

unfoldable pub cleanup_stale : ℕ → ℕ → Db → Db × ℕ
cleanup_stale now threshold db = cleanup_all now (detect_stale now threshold db) db 0

abbrev is_heartbeat : EventType → Bool
is_heartbeat heartbeat = true
is_heartbeat _ = false

-- `created_at < datetime('now', '-1 hour')`.
unfoldable pub prune_old_heartbeats : ℕ → Db → Db
prune_old_heartbeats now db = record db {
  events =
      delete_where (λ e. is_heartbeat e.event_type && ltb (e.created_at + 3600) (datetime now))
        db.events;
}

-- Whether a row of a table with a foreign key to `coord_agents` names the agent.
abbrev pub is_referenced : AgentId → Db → Bool
is_referenced a db =
    any (λ r. holds r.agent_id a) db.assignments
    || any (λ r. r.agent_id == a) db.locks
    || any (λ r. r.agent_id == a) db.sessions
    || any (λ r. r.agent_id == a) db.circuits
    || any (λ r. r.agent_id == a) db.findings
    || any (λ r. r.author_id == a) db.decisions

abbrev pub is_old_dead : ℕ → ℕ → Agent → Bool
is_old_dead now max_age_hours r =
    is_dead r.status && ltb (r.last_seen + max_age_hours * 3600) (datetime now)

-- `purgeDeadAgents`: one DELETE statement, which the foreign keys refuse as a whole, with an
-- exception (`none`), if a row that it would delete is referenced.
unfoldable pub purge_dead_agents : ℕ → ℕ → Db → Option (Db × ℕ)
purge_dead_agents now max_age_hours db =
    let old = is_old_dead now max_age_hours in
    if any (λ r. is_referenced r.id db) (select old db.agents)
    then none
    else some (record db { agents = delete_where old db.agents }, count_where old db.agents)

abbrev pub is_cleared : Command → Bool
is_cleared c = is_some c.cleared_at

-- Each agent is marked dead, and its locks are deleted.
unfoldable pub clear_agents : List Agent → Db → Db
clear_agents [] db = db
clear_agents (a ∷ rest) db = clear_agents rest (release_locks a.id (mark_dead a.id db))

-- `cleanSlate`, on startup.
unfoldable pub clean_slate : ℕ → Db → Db
clean_slate now db =
    let cleared : Db = record db {
      commands =
          update_where (λ c. not (is_cleared c))
            (λ c. record c { cleared_at = some (datetime now) }) db.commands;
    } in
    clear_agents (select (λ r. not (is_dead r.status)) db.agents) cleared
