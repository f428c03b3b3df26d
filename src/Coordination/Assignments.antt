-- ===== src/Coordination/Assignments.antt =====
-- The assignment handlers of src/coordination/routes.ts: claim, update, reassign and voluntary
-- failure. A request has passed its schema; a refusal leaves the tables as they were.

pub mod Updates
pub mod Final
pub mod Completion
pub mod Claims
use agent_working_memory.Base.{
  trim, is_space, ℕ, suc, Bool, true, false, not, ◌&&◌, ◌||◌, Option, none, some, List, [], ◌∷◌,
  ◌++◌, Text, codes, if◌then◌else◌, leb, ltb, ◌==◌, or_else, is_some, holds, holds_text, any, find?,
  select, update_where, delete_where, length, map, text_eq, to_lower,
}
use agent_working_memory.Coordination.Schema.{
  AgentId, AssignmentId, AssignmentStatus, pending, assigned, in_progress, completed, failed,
  blocked, is_pending, is_active, is_finished, is_completed, is_blocked, is_dead, AgentStatus, idle,
  working, Agent, Assignment, Mode, Db, datetime, log, has_agent, assignment_row,
  assignment_claimed, assignment_update, assignment_unblocked, reassignment,
}
use agent_working_memory.Coordination.Tokens.{Request, session_token_ok}
use agent_working_memory.Coordination.Circuit.{record_failure, record_success}
use agent_working_memory.Coordination.Stale.{retry_or_fail, Outcome, release_locks}

pub data Reply : Type 0 where
  done forbidden thrown : Reply
  conflict : Reply  -- 409
  missing : Reply  -- 404
  bad_request : Reply  -- 400

-- `UPDATE coord_agents SET status = 'working', current_task = ? WHERE id = ?`.
abbrev pub set_working : AgentId → AssignmentId → Db → Db
set_working a i db = record db {
  agents =
      update_where (λ r. r.id == a) (λ r. record r { status = working; current_task = some i })
        db.agents;
}

abbrev pub set_idle : AgentId → Db → Db
set_idle a db = record db {
  agents =
      update_where (λ r. r.id == a) (λ r. record r { status = idle; current_task = none })
        db.agents;
}

abbrev pub is_open : AssignmentId → Assignment → Bool
is_open i r = (r.id == i) && is_pending r.status

abbrev pub handed_to : ℕ → AgentId → Assignment → Assignment
handed_to now a r = record r {
  agent_id = some a;
  status = assigned;
  started_at = some (datetime now);
}

-- `UPDATE coord_assignments SET agent_id = ?, status = 'assigned', … WHERE id = ? AND status = 'pending'`.
abbrev pub take_pending : ℕ → AgentId → AssignmentId → Db → Db
take_pending now a i db = record db {
  assignments = update_where (is_open i) (handed_to now a) db.assignments;
}

-- POST /assignment/:id/claim. An agent that is not registered is refused by the foreign key.
unfoldable pub claim : Request → AgentId → AssignmentId → Db → Db × Reply
claim req a i db =
    if not (session_token_ok a req db)
    then (db, forbidden)
    else if not (any (is_open i) db.assignments)
    then (db, conflict)
    else if not (has_agent a db)
    then (db, thrown)
    else (
      log req.now (some a) assignment_claimed (set_working a i (take_pending req.now a i db)),
      done,
    )

-- `VALID_TRANSITIONS`: the statuses allowed after one, `none` where the table has no entry.
abbrev pub valid_transitions : AssignmentStatus → Option (AssignmentStatus → Bool)
valid_transitions assigned = some (λ s. elim s [ in_progress ↦ true | failed ↦ true | _ ↦ false ])
valid_transitions in_progress =
    some (λ s. elim s [ completed ↦ true | failed ↦ true | blocked ↦ true | _ ↦ false ])
valid_transitions blocked = some (λ s. elim s [ in_progress ↦ true | failed ↦ true | _ ↦ false ])
valid_transitions pending = none
valid_transitions completed = none
valid_transitions failed = none

-- Whether the check of the transition lets the update pass.
abbrev pub transition_ok : AssignmentStatus → AssignmentStatus → Bool
transition_ok current next = elim (valid_transitions current) [
  | some allowed ↦ allowed next
  | none ↦ not (is_finished current)
]

-- `\w`.
abbrev is_word_char : ℕ → Bool
is_word_char c =
    leb b'a' c && leb c b'z' || leb b'A' c && leb c b'Z' || leb b'0' c && leb c b'9' || c == b'_'

-- The maximal runs of word characters, which are what `\b…\b` encloses.
words_from : Text → Text → List Text
words_from cur [] = cur ∷ []
words_from cur (c ∷ s) =
    let longer = words_from (cur ++ c ∷ []) s in
    let next = words_from [] s in if is_word_char c then longer else cur ∷ next

abbrev is_hex : ℕ → Bool
is_hex c = leb b'0' c && leb c b'9' || leb b'a' c && leb c b'f'

all_hex : Text → Bool
all_hex [] = true
all_hex (c ∷ s) = is_hex c && all_hex s

-- The words of `actionWords`, its optional letters written out.
action_words : List Text
action_words =
    codes "committe"
    ∷ codes "committed"
    ∷ codes "sha"
    ∷ codes "build"
    ∷ codes "builds"
    ∷ codes "audit"
    ∷ codes "audite"
    ∷ codes "auditd"
    ∷ codes "audited"
    ∷ codes "test"
    ∷ codes "teste"
    ∷ codes "testd"
    ∷ codes "tested"
    ∷ codes "verified"
    ∷ codes "fix"
    ∷ codes "fixe"
    ∷ codes "fixd"
    ∷ codes "fixed"
    ∷ codes "create"
    ∷ codes "created"
    ∷ codes "update"
    ∷ codes "updated"
    ∷ codes "implemente"
    ∷ codes "implemented"
    ∷ codes "added"
    ∷ codes "refactore"
    ∷ codes "refactored"
    ∷ codes "documente"
    ∷ codes "documented"
    ∷ codes "resolved"
    ∷ codes "merged"
    ∷ codes "deployed"
    ∷ codes "removed"
    ∷ codes "migrated"
    ∷ codes "wrote"
    ∷ codes "reviewed"
    ∷ []

is_action_word : Text → Bool
unfolding all_hex action_words
is_action_word w =
    any (text_eq w) action_words || leb 7 (length w) && (leb (length w) 40 && all_hex w)

-- `actionWords.test(result)`; the expression ignores case.
unfoldable pub mentions_action : Text → Bool
unfolding words_from is_action_word
mentions_action result = any is_action_word (words_from [] (to_lower result))

-- The verification gate of a completion.
abbrev pub result_ok : Option Text → Bool
result_ok none = false
result_ok (some result) = leb 20 (length (trim result)) && mentions_action result

-- The UPDATE of the row.
abbrev pub updated : ℕ → AssignmentStatus → Option Text → Option Text → Assignment → Assignment
updated now next result commit_sha r =
    if is_finished next
    then record r {
      status = next;
      result = result;
      commit_sha = commit_sha;
      completed_at = some (datetime now);
    }
    else record r { status = next; result = result }

abbrev pub agent_of : Option Assignment → Option AgentId
agent_of none = none
agent_of (some r) = r.agent_id

abbrev idle_if : Bool → Option AgentId → Db → Db
idle_if finished none db = db
idle_if finished (some a) db = if finished then set_idle a db else db

-- The transaction of the update.
update_tx : ℕ → AssignmentId → AssignmentStatus → Option Text → Option Text → Db → Db
update_tx now i next result commit_sha db =
    let who = agent_of (assignment_row i db) in
    let db1 : Db = record db {
      assignments =
          update_where (λ r. r.id == i) (updated now next result commit_sha) db.assignments;
    } in
    log now who assignment_update (idle_if (is_finished next) who db1)

-- The circuit of the worker counts the outcome.
abbrev record_outcome : ℕ → AssignmentStatus → Option AgentId → Db → Db
record_outcome now next none db = db
record_outcome now completed (some a) db = record_success now a db
record_outcome now failed (some a) db = record_failure now a db
record_outcome now _ (some a) db = db

abbrev pub waits_for : AssignmentId → Assignment → Bool
waits_for i r = holds r.blocked_by i && is_blocked r.status

abbrev pub unblocked : Assignment → Assignment
unblocked r = record r { blocked_by = none; status = assigned }

log_unblocked : ℕ → List Assignment → Db → Db
log_unblocked now [] db = db
log_unblocked now (r ∷ rs) db = log_unblocked now rs (log now r.agent_id assignment_unblocked db)

-- The auto-unblock of the assignments that wait for a completed one. The loop updates each by its
-- key, which comes to one UPDATE.
unblock : ℕ → AssignmentId → Db → Db
unfolding log_unblocked
unblock now i db =
    log_unblocked now (select (waits_for i) db.assignments)
      (record db { assignments = update_where (waits_for i) unblocked db.assignments })

-- An update that has passed the checks, on the row `r`.
pub passed_update :
    ℕ → AssignmentId → AssignmentStatus → Option Text → Option Text → Assignment → Db → Db
unfolding update_tx unblock
passed_update now i next result commit_sha r db =
    let db1 = record_outcome now next r.agent_id (update_tx now i next result commit_sha db) in
    if is_completed next then unblock now i db1 else db1

update_found :
    ℕ
    → AssignmentId
    → AssignmentStatus
    → Option Text
    → Option Text
    → Option Assignment
    → Db
    → Db × Reply
unfolding passed_update
update_found now i next result commit_sha none db = (db, bad_request)
update_found now i next result commit_sha (some r) db =
    if not (transition_ok r.status next)
    then (db, bad_request)
    else if is_completed next && not (result_ok result)
    then (db, bad_request)
    else (passed_update now i next result commit_sha r db, done)

-- `handleAssignmentUpdate`, behind PATCH and PUT /assignment/:id and POST /assignment/:id/update.
unfoldable pub handle_update :
    ℕ → AssignmentId → AssignmentStatus → Option Text → Option Text → Db → Db × Reply
unfolding update_found
handle_update now i next result commit_sha db =
    update_found now i next result commit_sha (assignment_row i db) db
