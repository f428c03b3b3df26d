-- ===== src/Coordination/Reassign.antt =====
-- Taking an assignment back: POST /reassign and POST /assignment/:id/fail of
-- src/coordination/routes.ts.
pub mod Rows
use agent_working_memory.Base.{
  ℕ, Bool, true, false, not, ◌&&◌, ◌||◌, Option, none, some, List, [], ◌∷◌, ◌++◌, Text, codes,
  text_eq, if◌then◌else◌, leb, ltb, ◌==◌, or_else, is_some, any, find?, select, update_where,
}
use mathlib.Core.Option
use agent_working_memory.Coordination.Schema.{
  AgentId, AssignmentId, pending, assigned, is_finished, is_dead, Agent, Assignment, Mode, Db,
  datetime, log, has_agent, assignment_row, reassignment,
}
use agent_working_memory.Coordination.Circuit.{record_failure}
use agent_working_memory.Coordination.Stale.{retry_or_fail, Outcome, release_locks}
use agent_working_memory.Coordination.Assignments.{
  Reply, done, missing, bad_request, set_working, set_idle, handed_to,
}

-- `ORDER BY last_seen DESC LIMIT 1`: the row seen last, the first of those where several are.
abbrev later_seen : Agent → Option Agent → Option Agent
later_seen r none = some r
later_seen r (some s) = if leb s.last_seen r.last_seen then some r else some s

abbrev pub seen_last : List Agent → Option Agent
seen_last [] = none
seen_last (r ∷ rs) = later_seen r (seen_last rs)

abbrev pub named : Text → Agent → Bool
named name r = text_eq r.name name && not (is_dead r.status)

-- The target as the request gives it: an id, else a worker's name, else nothing.
target_of : Option AgentId → Option Text → Db → Option (Option AgentId)
target_of (some a) name db = if has_agent a db then some (some a) else none
target_of none none db = some none
target_of none (some name) db =
    Option.map (λ (r : Agent). some r.id) (seen_last (select (named name) db.agents))

-- The old agent is set idle and loses its locks.
abbrev pub release_agent : Option AgentId → Db → Db
release_agent none db = db
release_agent (some a) db = release_locks a (set_idle a db)

abbrev pub back_to_pending : Assignment → Assignment
back_to_pending r = record r { agent_id = none; status = pending; started_at = none }

hand_over : ℕ → AssignmentId → Option AgentId → Db → Db
hand_over now i (some a) db =
    set_working a i
      (record db { assignments = update_where (λ r. r.id == i) (handed_to now a) db.assignments })
hand_over now i none db = record db {
  assignments = update_where (λ r. r.id == i) back_to_pending db.assignments;
}

-- The target is resolved, or none was found.
reassign_to : ℕ → AssignmentId → Option (Option AgentId) → Assignment → Db → Db × Reply
unfolding hand_over
reassign_to now i none r db = (db, missing)
reassign_to now i (some to) r db =
    (log now r.agent_id reassignment (hand_over now i to (release_agent r.agent_id db)), done)

reassign_found :
    ℕ → AssignmentId → Option AgentId → Option Text → Option Assignment → Db → Db × Reply
unfolding target_of reassign_to
reassign_found now i target name none db = (db, missing)
reassign_found now i target name (some r) db =
    if is_finished r.status
    then (db, bad_request)
    else reassign_to now i (target_of target name db) r db

-- POST /reassign.
unfoldable pub reassign : ℕ → AssignmentId → Option AgentId → Option Text → Db → Db × Reply
unfolding reassign_found
reassign now i target name db = reassign_found now i target name (assignment_row i db) db

abbrev record_failure_of : ℕ → Option AgentId → Db → Db
record_failure_of now none db = db
record_failure_of now (some a) db = record_failure now a db

fail_found : ℕ → AssignmentId → Option Text → Option Mode → Option Assignment → Db → Db × Reply
fail_found now i reason mode none db = (db, missing)
fail_found now i reason mode (some r) db =
    if is_finished r.status
    then (db, bad_request)
    else let text = or_else reason (codes "worker-initiated failure") in
      (record_failure_of now r.agent_id (retry_or_fail now i r.agent_id text mode db).0, done)

-- POST /assignment/:id/fail. The body's `mode` is passed on as it came.
unfoldable pub fail_voluntarily : ℕ → AssignmentId → Option Text → Option Mode → Db → Db × Reply
unfolding fail_found
fail_voluntarily now i reason mode db = fail_found now i reason mode (assignment_row i db) db
