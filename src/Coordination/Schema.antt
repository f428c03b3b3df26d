-- ===== src/Coordination/Schema.antt =====
-- The tables of src/coordination/schema.ts as records, and the enumerations of
-- src/coordination/schemas.ts. A UUID is only compared, so it is a number; a time is what the code
-- stores: seconds for `datetime('now')`, milliseconds for `Date.now()`.
use agent_working_memory.Base.{
  ℕ, ◌/◌, Bool, true, false, Option, List, [], ◌∷◌, ◌++◌, Text, ◌==◌, any, find?,
}

abbrev pub AgentId : Type 0
AgentId = ℕ

abbrev pub AssignmentId : Type 0
AssignmentId = ℕ

pub data Role : Type 0 where
  worker orchestrator coordinator dev_lead : Role

pub data AgentStatus : Type 0 where
  idle working dead : AgentStatus

abbrev pub is_dead : AgentStatus → Bool
is_dead dead = true
is_dead _ = false

pub data AssignmentStatus : Type 0 where
  pending assigned in_progress completed failed blocked : AssignmentStatus

abbrev pub is_pending : AssignmentStatus → Bool
is_pending pending = true
is_pending _ = false

-- `status IN ('assigned', 'in_progress')`.
abbrev pub is_active : AssignmentStatus → Bool
is_active assigned = true
is_active in_progress = true
is_active _ = false

-- `['completed', 'failed'].includes(status)`.
abbrev pub is_finished : AssignmentStatus → Bool
is_finished completed = true
is_finished failed = true
is_finished _ = false

abbrev pub is_completed : AssignmentStatus → Bool
is_completed completed = true
is_completed _ = false

abbrev pub is_blocked : AssignmentStatus → Bool
is_blocked blocked = true
is_blocked _ = false

pub data FailureMode : Type 0 where
  agent_stale timeout output_invalid test_fail lint_fail merge_conflict unknown : FailureMode

-- A mode that the code has computed, or one that a request's body gave, which nothing checks.
pub data Mode : Type 0 where
  known : FailureMode → Mode
  unchecked : Text → Mode

pub record Agent : Type 0 where
  pub id : AgentId
  pub name : Text
  pub role : Role
  pub status : AgentStatus
  pub pid : Option ℕ
  pub last_seen : ℕ  -- seconds
  pub current_task : Option AssignmentId
  pub metadata : Option Text
  pub capabilities : Option Text
  pub workspace : Option Text
  pub session_token : Option ℕ

pub record Assignment : Type 0 where
  pub id : AssignmentId
  pub agent_id : Option AgentId
  pub task : Text
  pub description : Option Text
  pub status : AssignmentStatus
  pub priority : ℕ
  pub blocked_by : Option AssignmentId
  pub created_at : ℕ
  pub started_at : Option ℕ
  pub completed_at : Option ℕ
  pub result : Option Text
  pub commit_sha : Option Text
  pub workspace : Option Text
  pub context : Option Text
  pub attempt_count : ℕ
  pub last_failure_mode : Option Mode

pub record Lock : Type 0 where
  pub file_path : Text
  pub agent_id : AgentId
  pub locked_at : ℕ
  pub reason : Option Text

pub data CommandKind : Type 0 where
  build_freeze pause resume shutdown : CommandKind

pub record Command : Type 0 where
  pub id : ℕ
  pub command : CommandKind
  pub reason : Option Text
  pub issued_by : Option AgentId  -- text that is only stored, here and in the audit trail
  pub issued_at : ℕ
  pub cleared_at : Option ℕ
  pub workspace : Option Text

pub data CircuitState : Type 0 where
  closed opened half_open : CircuitState

pub record CircuitRow : Type 0 where
  pub agent_id : AgentId
  pub state : CircuitState
  pub consecutive_failures : ℕ
  pub opened_at : Option ℕ  -- seconds
  pub last_transition_at : ℕ

pub record Session : Type 0 where
  pub agent_id : AgentId
  pub channel_id : Text
  pub connected_at : ℕ
  pub last_push_at : Option ℕ
  pub push_count : ℕ
  pub connected : Bool  -- `status` is 'connected' or 'disconnected'

pub record Mail : Type 0 where
  pub id : ℕ
  pub worker_name : Text
  pub workspace : Option Text
  pub message : Text
  pub created_at : ℕ
  pub delivered_at : Option ℕ

pub record Finding : Type 0 where
  pub id : ℕ
  pub agent_id : AgentId
  pub category : Text
  pub severity : Text
  pub file_path : Option Text
  pub line_number : Option ℕ
  pub description : Text
  pub suggestion : Option Text
  pub status : Text
  pub created_at : ℕ
  pub resolved_at : Option ℕ

pub record Decision : Type 0 where
  pub id : ℕ
  pub author_id : AgentId
  pub assignment_id : Option AssignmentId
  pub tags : Option Text
  pub summary : Text
  pub created_at : ℕ

pub data EventType : Type 0 where
  registered reconnected heartbeat shut_down checkout : EventType
  assignment_created assignment_claimed assignment_update assignment_unblocked : EventType
  assignment_retry assignment_failed stale_cleanup reassignment agent_killed : EventType
  lock_acquired lock_released command : EventType
  channel_push channel_register channel_deregister mailbox_queued : EventType

-- A row of the audit trail, without its text for the reader (`detail`).
pub record Event : Type 0 where
  pub agent_id : Option AgentId
  pub event_type : EventType
  pub created_at : ℕ

pub record Db : Type 0 where
  pub agents : List Agent
  pub assignments : List Assignment
  pub locks : List Lock
  pub commands : List Command
  pub circuits : List CircuitRow
  pub sessions : List Session
  pub mailbox : List Mail
  pub findings : List Finding
  pub decisions : List Decision
  pub events : List Event

-- `datetime('now')` at a clock of `now` milliseconds.
abbrev pub datetime : ℕ → ℕ
datetime now = now / 1000

-- `INSERT INTO coord_events`.
abbrev pub log : ℕ → Option AgentId → EventType → Db → Db
log now who kind db = record db {
  events =
      db.events ++ record { agent_id = who; event_type = kind; created_at = datetime now } ∷ [];
}

-- The row of an agent, of an assignment.
abbrev pub agent_row : AgentId → Db → Option Agent
agent_row a db = find? (λ r. r.id == a) db.agents

abbrev pub assignment_row : AssignmentId → Db → Option Assignment
assignment_row i db = find? (λ r. r.id == i) db.assignments

-- What a foreign key to `coord_agents` asks for; the store sets `foreign_keys = ON`.
abbrev pub has_agent : AgentId → Db → Bool
has_agent a db = any (λ r. r.id == a) db.agents
