-- ===== src/Coordination/Examples.antt =====
-- The tables of a small session, at which the coordination's operations are run.
mod Locking
mod Work
mod Workers
mod Orders
mod Rates
use agent_working_memory.Base.{ℕ, suc, Option, none, some, List, [], ◌∷◌, Text, codes, true}
use agent_working_memory.Coordination.Schema.{
  Role, worker, AgentStatus, idle, working, dead, AssignmentStatus, pending, assigned, in_progress,
  completed, Agent, Assignment, Lock, Command, build_freeze, CircuitRow, CircuitState, closed,
  opened, half_open, Session, Db,
}
use agent_working_memory.Coordination.Tokens.{Request}
use mathlib.Core.Bool.{false}

abbrev pub agent : ℕ → AgentStatus → ℕ → Agent
agent i status seen = record {
  id = i;
  name = i ∷ [];
  role = worker;
  status = status;
  pid = none;
  last_seen = seen;
  current_task = none;
  metadata = none;
  capabilities = none;
  workspace = some (codes "w");
  session_token = none;
}

abbrev pub task : ℕ → Option ℕ → AssignmentStatus → Assignment
task i who status = record {
  id = i;
  agent_id = who;
  task = codes "task";
  description = none;
  status = status;
  priority = i;
  blocked_by = none;
  created_at = 0;
  started_at = none;
  completed_at = none;
  result = none;
  commit_sha = none;
  workspace = none;
  context = none;
  attempt_count = 0;
  last_failure_mode = none;
}

abbrev pub path : Text
path = codes "src/index.ts"

abbrev pub lock_of : ℕ → Lock
lock_of a = record { file_path = path; agent_id = a; locked_at = 1; reason = none }

abbrev pub circuit : ℕ → CircuitState → Option ℕ → CircuitRow
circuit a state at = record {
  agent_id = a;
  state = state;
  consecutive_failures = 5;
  opened_at = at;
  last_transition_at = 1;
}

abbrev pub freeze : Command
freeze = record {
  id = 1;
  command = build_freeze;
  reason = none;
  issued_by = none;
  issued_at = 1;
  cleared_at = none;
  workspace = some (codes "w");
}

abbrev pub session : Session
session = record {
  agent_id = 1;
  channel_id = codes "c";
  connected_at = 1;
  last_push_at = none;
  push_count = 0;
  connected = true;
}

-- Two workers: the first works on 10 and holds a lock, the second is idle; 11 is finished, 12 and 13
-- are pending; the circuit of the second is open since second 1.
abbrev pub db : Db
db = record {
  agents = agent 1 working 5 ∷ agent 2 idle 5 ∷ [];
  assignments =
      task 10 (some 1) in_progress
      ∷ task 11 (some 2) completed
      ∷ task 12 none pending
      ∷ task 13 none pending
      ∷ [];
  locks = lock_of 1 ∷ [];
  commands = freeze ∷ [];
  circuits = circuit 2 opened (some 1) ∷ circuit 3 half_open (some 1) ∷ [];
  sessions = session ∷ [];
  mailbox = [];
  findings = [];
  decisions = [];
  events = [];
}

abbrev pub request : Request
request = record { now = 10000; token = none; require_tokens = false }
