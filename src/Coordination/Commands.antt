-- ===== src/Coordination/Commands.antt =====
-- The commands of src/coordination/routes.ts (POST, GET and DELETE /command, GET /command/wait).
pub mod Clearing
use agent_working_memory.Base.{
  ℕ, suc, Bool, true, false, not, ◌&&◌, ◌||◌, Option, none, some, List, [], ◌∷◌, ◌++◌, Text,
  text_eq, text_lt, if◌then◌else◌, ltb, ◌==◌, any, select, update_where, is_some, sort, holds_text,
}
use agent_working_memory.Coordination.Schema.{
  AgentId, Role, orchestrator, coordinator, AgentStatus, idle, working, dead, is_dead, Agent,
  CommandKind, build_freeze, pause, resume, shutdown, Command, Db, datetime, log, command,
}
use agent_working_memory.Coordination.Dispatch.{truthy}

-- The body of POST /command.
pub record Order : Type 0 where
  pub kind : CommandKind
  pub reason : Option Text
  pub issued_by : Option AgentId
  pub workspace : Option Text

-- `cleared_at IS NULL`, and where a workspace is given `(workspace = ? OR workspace IS NULL)`.
abbrev pub applies_to : Option Text → Option Text → Bool
applies_to none v = true
applies_to (some w) none = true
applies_to (some w) (some v) = text_eq v w

abbrev pub is_active_for : Option Text → Command → Bool
is_active_for w c = not (is_some c.cleared_at) && applies_to (truthy w) c.workspace

abbrev pub cleared : ℕ → Command → Command
cleared now c = record c { cleared_at = some (datetime now) }

abbrev is_resume : CommandKind → Bool
is_resume resume = true
is_resume _ = false

abbrev pub new_command : ℕ → ℕ → Order → Command
new_command now id o = record {
  id = id;
  command = o.kind;
  reason = o.reason;
  issued_by = o.issued_by;
  issued_at = datetime now;
  cleared_at = none;
  workspace = o.workspace;
}

-- POST /command, with the id that a new row gets.
unfoldable pub post_command : ℕ → ℕ → Order → Db → Db
post_command now id o db =
    if is_resume o.kind
    then log now o.issued_by command (record db {
      commands = update_where (is_active_for o.workspace) (cleared now) db.commands;
    })
    else log now o.issued_by command
        (record db { commands = db.commands ++ new_command now id o ∷ [] })

abbrev pub urgency : CommandKind → ℕ
urgency shutdown = 3
urgency build_freeze = 2
urgency pause = 1
urgency resume = 0

-- The comparators of the statement and of the reply.
abbrev pub older : Command → Command → Bool
older c d = ltb c.issued_at d.issued_at

abbrev pub less_urgent : Command → Command → Bool
less_urgent c d = ltb (urgency c.command) (urgency d.command)

-- GET /command: the commands of the reply, the first of which is the one in force. Rows of one second
-- are in the order in which they were made, which the statement leaves open.
unfoldable pub commands_in_force : Option Text → Db → List Command
commands_in_force w db = sort less_urgent (sort older (select (is_active_for w) db.commands))

pub data Reply : Type 0 where
  ok not_found : Reply

abbrev pub is_open_command : ℕ → Command → Bool
is_open_command id c = (c.id == id) && not (is_some c.cleared_at)

-- DELETE /command/:id, for a positive integer.
unfoldable pub delete_command : ℕ → ℕ → Db → Db × Reply
delete_command now id db =
    if any (is_open_command id) db.commands
    then (
      log now none command
          (record db { commands = update_where (is_open_command id) (cleared now) db.commands }),
      ok,
    )
    else (db, not_found)

abbrev same_status : AgentStatus → AgentStatus → Bool
same_status idle idle = true
same_status working working = true
same_status dead dead = true
same_status _ _ = false

-- `a.status === targetStatus`, where a text that is no status equals none.
abbrev is_status : Option AgentStatus → AgentStatus → Bool
is_status none s = false
is_status (some t) s = same_status s t

abbrev leads : Role → Bool
leads orchestrator = true
leads coordinator = true
leads _ = false

pub record Readiness : Type 0 where
  pub all_ready : Bool
  pub ready : List Agent
  pub waiting : List Agent

abbrev pub is_in : Option Text → Agent → Bool
is_in none r = true
is_in (some w) r = holds_text r.workspace w

abbrev pub is_ready : Option AgentStatus → Agent → Bool
is_ready target r = is_status target r.status || leads r.role

abbrev pub is_not_ready : Option AgentStatus → Agent → Bool
is_not_ready target r = not (is_status target r.status) && not (leads r.role)

abbrev pub is_empty {ℓ} : {A : Type ℓ} → List A → Bool
is_empty [] = true
is_empty (x ∷ xs) = false

-- GET /command/wait.
unfoldable pub command_wait : Option AgentStatus → Option Text → Db → Readiness
command_wait target w db =
    let agents =
      sort (λ a b. text_lt b.name a.name)
        (select (λ r. not (is_dead r.status) && is_in (truthy w) r) db.agents) in
    record {
      all_ready = is_empty (select (is_not_ready target) agents);
      ready = select (is_ready target) agents;
      waiting = select (is_not_ready target) agents;
    }
