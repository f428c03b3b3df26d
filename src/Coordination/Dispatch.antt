-- ===== src/Coordination/Dispatch.antt =====
-- Handing out work: the choice of an assignment in POST /next and GET /assignment of
-- src/coordination/routes.ts.
pub mod Choice
pub mod Handed
use agent_working_memory.Base.{
  ℕ, ◌+◌, Bool, true, false, not, ◌&&◌, ◌||◌, Option, none, some, List, [], ◌∷◌, ◌++◌, Text,
  text_eq, if◌then◌else◌, leb, ltb, ◌==◌, or_else, coalesce, is_some, holds, holds_text, any, find?,
  select, update_where, sort, take, map,
}
use agent_working_memory.Coordination.Schema.{
  AgentId, AssignmentId, AgentStatus, working, is_dead, is_completed, is_pending, Agent, Assignment,
  Mail, Command, Db, datetime, log, has_agent, agent_row, assignment_row, assignment_claimed,
  reconnected, heartbeat, registered,
}
use agent_working_memory.Coordination.Circuit.{is_available}
use agent_working_memory.Coordination.Stale.{is_orphan}
use agent_working_memory.Coordination.Assignments.{is_open, set_working, take_pending}

-- The workspace of a request or of a row, none where it is empty: the code tests it for truth.
abbrev pub truthy : Option Text → Option Text
truthy none = none
truthy (some []) = none
truthy (some (c ∷ w)) = some (c ∷ w)

-- `ORDER BY created_at DESC LIMIT 1`.
abbrev pub later_made : Assignment → Option Assignment → Option Assignment
later_made r none = some r
later_made r (some s) = if leb s.created_at r.created_at then some r else some s

abbrev pub made_last : List Assignment → Option Assignment
made_last [] = none
made_last (r ∷ rs) = later_made r (made_last rs)

-- The assignment that an agent has in hand.
unfoldable pub own_active : AgentId → Db → Option Assignment
own_active a db = made_last (select (is_orphan a) db.assignments)

abbrev pub is_alias : Text → AgentId → Agent → Bool
is_alias name a r = text_eq r.name name && (not (r.id == a) && not (is_dead r.status))

-- The loop over the other UUIDs of the same name: the first that has an assignment in hand.
unfoldable pub alias_active : List Agent → Db → Option Assignment
alias_active [] db = none
alias_active (r ∷ rs) db = coalesce (own_active r.id db) (alias_active rs db)

-- That assignment passes to the UUID in use.
unfoldable pub migrate : AgentId → Assignment → Db → Db
migrate a r db = set_working a r.id (record db {
  assignments =
      update_where (λ x. x.id == r.id) (λ x. record x { agent_id = some a }) db.assignments;
})

-- `blockedFilter`: not blocked, or by a completed assignment.
abbrev pub is_ready : Db → Assignment → Bool
is_ready db r = elim r.blocked_by [
  | none ↦ true
  | some i ↦ any (λ x. (x.id == i) && is_completed x.status) db.assignments
]

abbrev pub is_reserved : AgentId → Db → Assignment → Bool
is_reserved a db r = is_pending r.status && (holds r.agent_id a && is_ready db r)

abbrev pub workspace_fits : Option Text → Assignment → Bool
workspace_fits none r = true
workspace_fits (some w) r = holds_text r.workspace w || not (is_some r.workspace)

abbrev pub is_unassigned : Option Text → Db → Assignment → Bool
is_unassigned workspace db r =
    is_pending r.status
    && (not (is_some r.agent_id) && (workspace_fits workspace r && is_ready db r))

-- `ORDER BY priority DESC, created_at ASC`: whether the first is to come no later than the second.
abbrev pub goes_first : Assignment → Assignment → Bool
goes_first r s =
    ltb s.priority r.priority || ((r.priority == s.priority) && leb r.created_at s.created_at)

abbrev pub better : Assignment → Option Assignment → Option Assignment
better r none = some r
better r (some s) = if goes_first r s then some r else some s

unfoldable pub first_in_order : List Assignment → Option Assignment
first_in_order [] = none
first_in_order (r ∷ rs) = better r (first_in_order rs)

-- A task reserved for the agent, else an unassigned one; a workspace that is empty does not restrict.
unfoldable pub pick_pending : AgentId → Option Text → Db → Option Assignment
pick_pending a workspace db =
    coalesce (first_in_order (select (is_reserved a db) db.assignments))
      (first_in_order (select (is_unassigned (truthy workspace) db) db.assignments))

pub data Taken : Type 0 where
  in_hand : Assignment → Taken
  nothing circuit_open thrown : Taken

abbrev pub in_hand_or_nothing : Option Assignment → Taken
in_hand_or_nothing none = nothing
in_hand_or_nothing (some r) = in_hand r

-- The claim of the chosen assignment, if the worker's circuit lets it: the reading of the circuit may
-- change its row.
claim_chosen : ℕ → AgentId → Option Assignment → Db → Db × Taken
claim_chosen now a none db = (db, nothing)
claim_chosen now a (some r) db =
    let (available, db1) = is_available now a db in
    if not available
    then (db1, circuit_open)
    else if not (any (is_open r.id) db1.assignments)
    then (db1, nothing)
    else if not (has_agent a db1)
    then (db1, thrown)
    else let db2 =
        log now (some a) assignment_claimed (set_working a r.id (take_pending now a r.id db1)) in
      (db2, in_hand_or_nothing (assignment_row r.id db2))

-- What both handlers do to find an agent its assignment: the one in hand, one in hand of the same
-- name's other UUIDs, or a pending one that it claims.
unfoldable pub take_assignment : ℕ → AgentId → Text → Option Text → Db → Db × Taken
unfolding claim_chosen
take_assignment now a name workspace db = elim (own_active a db) [
  | some r ↦ (db, in_hand r)
  | none ↦ elim (alias_active (select (is_alias name a) db.agents) db) [
    | some r ↦ (migrate a r db, in_hand (record r { agent_id = some a }))
    | none ↦ claim_chosen now a (pick_pending a workspace db) db
  ]
]

-- GET /assignment for a known agent id: the row gives the name and the workspace; without a row the
-- aliases are skipped and no workspace restricts.
unfoldable pub get_assignment : ℕ → AgentId → Db → Db × Taken
unfolding claim_chosen
get_assignment now a db = elim (own_active a db) [
  | some r ↦ (db, in_hand r)
  | none ↦ elim (agent_row a db) [
    | some g ↦ take_assignment now a g.name g.workspace db
    | none ↦ claim_chosen now a (pick_pending a none db) db
  ]
]

-- `UPDATE … SET status = 'working', current_task = ? WHERE id = ? AND status != 'working'`.
abbrev pub is_working : AgentStatus → Bool
is_working working = true
is_working _ = false

abbrev pub ensure_working : AgentId → Taken → Db → Db
ensure_working a (in_hand r) db = record db {
  agents =
      update_where (λ x. (x.id == a) && not (is_working x.status))
        (λ x. record x { status = working; current_task = some r.id }) db.agents;
}
ensure_working a _ db = db

abbrev pub mail_for : Text → Option Text → Mail → Bool
mail_for name workspace m =
    text_eq m.worker_name name
    && (not (is_some m.delivered_at)
        && (not (is_some m.workspace)
            || elim workspace [ none ↦ false | some w ↦ holds_text m.workspace w ]))

-- The ten oldest messages that wait for a worker.
unfoldable pub waiting_mail : Text → Option Text → Db → List Mail
waiting_mail name workspace db =
    take 10
      (sort (λ m n. ltb n.created_at m.created_at) (select (mail_for name workspace) db.mailbox))

unfoldable pub deliver_mail : ℕ → List Mail → Db → Db
deliver_mail now mail db = record db {
  mailbox =
      update_where (λ m. any (λ n. m.id == n.id) mail)
        (λ m. record m { delivered_at = some (datetime now) }) db.mailbox;
}
