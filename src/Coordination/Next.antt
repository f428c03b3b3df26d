-- ===== src/Coordination/Next.antt =====
-- POST /next and POST /assign of src/coordination/routes.ts.
pub mod Single
use agent_working_memory.Base.{
  ℕ, ◌+◌, Bool, true, false, not, ◌&&◌, ◌||◌, Option, none, some, List, [], ◌∷◌, ◌++◌, Text,
  text_eq, if◌then◌else◌, ltb, ◌==◌, or_else, coalesce, is_some, any, find?, select, update_where,
}
use mathlib.Core.Option
use agent_working_memory.Coordination.Schema.{
  AgentId, AssignmentId, assigned, pending, AgentStatus, idle, dead, working, is_dead, Role, worker,
  Agent, Assignment, Mail, Command, Session, Db, datetime, log, has_agent, agent_row, reconnected,
  heartbeat, registered, assignment_created, channel_push,
}
use agent_working_memory.Coordination.Stale.{is_orphan}
use agent_working_memory.Coordination.Assignments.{set_working}
use agent_working_memory.Coordination.Reassign.{seen_last}
use agent_working_memory.Coordination.Agents.{
  Checkin, find_existing, token_for, revive, new_agent, auto_register, in_workspace,
}
use agent_working_memory.Coordination.Dispatch.{
  truthy, Taken, in_hand, nothing, circuit_open, take_assignment, ensure_working, waiting_mail,
  deliver_mail, is_working,
}

-- The UPDATE of a returning agent's row: unlike a checkin it leaves the role and the process id.
abbrev pub polled_row : ℕ → ℕ → Checkin → Agent → Agent
polled_row now token c r = record r {
  last_seen = datetime now;
  status = revive r.status;
  capabilities = coalesce c.capabilities r.capabilities;
  workspace = coalesce c.workspace r.workspace;
  session_token = some token;
}

-- Step 1: the agent's row is updated or made.
upsert_agent : ℕ → AgentId → ℕ → Checkin → Db → Db × AgentId × ℕ
upsert_agent now fresh_id fresh_token c db = elim (find_existing c.name c.workspace db.agents) [
  | some r ↦
      let token = token_for fresh_token r in
      (
        log now (some r.id) (if is_dead r.status then reconnected else heartbeat) (record db {
          agents = update_where (λ x. x.id == r.id) (polled_row now token c) db.agents;
        }),
        r.id,
        token,
      )
  | none ↦ (
    log now (some fresh_id) registered (record db {
      agents =
          db.agents
          ++ record (new_agent now fresh_id fresh_token c) { pid = none; metadata = none } ∷ [];
    }),
    fresh_id,
    fresh_token,
  )
]

-- Step 2: the commands that have not been cleared, of the workspace or of none.
active_commands : Option Text → Db → List Command
active_commands workspace db = elim (truthy workspace) [
  | none ↦ select (λ c. not (is_some c.cleared_at)) db.commands
  | some w ↦
      select
        (λ c.
          not (is_some c.cleared_at) && (elim c.workspace [ none ↦ true | some v ↦ text_eq v w ]))
        db.commands
]

pub data NextReply : Type 0 where
  refused thrown : NextReply  -- 423: the worker's circuit is open; an exception of the store
  sent : AgentId → ℕ → Option Assignment → List Command → List Mail → NextReply

-- Step 3 and the rest of the reply.
finish_next : ℕ → AgentId → ℕ → Checkin → List Command → Db × Taken → Db × NextReply
finish_next now a token c commands (db, circuit_open) = (db, refused)
finish_next now a token c commands (db, Taken.thrown) = (db, NextReply.thrown)
finish_next now a token c commands (db, nothing) =
    let mail = waiting_mail c.name c.workspace db in
    (deliver_mail now mail db, sent a token none commands mail)
finish_next now a token c commands (db, in_hand r) =
    let db1 = ensure_working a (in_hand r) db in
    let mail = waiting_mail c.name c.workspace db1 in
    (deliver_mail now mail db1, sent a token (some r) commands mail)

-- POST /next.
unfoldable pub next : ℕ → AgentId → ℕ → Checkin → Db → Db × NextReply
unfolding upsert_agent active_commands finish_next
next now fresh_id fresh_token c db =
    let (db1, a, token) = upsert_agent now fresh_id fresh_token c db in
    let db2 = auto_register now a c.channel_url db1 in
    let commands = active_commands c.workspace db2 in
    finish_next now a token c commands (take_assignment now a c.name c.workspace db2)

-- The body of POST /assign; its priority is from 0 to 10.
pub record Order : Type 0 where
  pub agent : Option AgentId
  pub worker_name : Option Text
  pub task : Text
  pub description : Option Text
  pub workspace : Option Text
  pub priority : ℕ
  pub blocked_by : Option AssignmentId
  pub context : Option Text

-- The agent that the order is for, `none` where a worker's name finds none.
resolve_worker : Order → Db → Option (Option AgentId)
resolve_worker o db = elim o.agent [
  | some a ↦ some (some a)
  | none ↦ elim o.worker_name [
    | none ↦ some none
    | some name ↦
        let named = λ (r : Agent). text_eq r.name name && not (is_dead r.status) in
        Option.map (λ (r : Agent). some r.id)
          (coalesce (seen_last (select (λ r. named r && in_workspace o.workspace r) db.agents))
            (seen_last (select named db.agents)))
  ]
]

abbrev pub is_busy : Option AgentId → Db → Bool
is_busy none db = false
is_busy (some a) db = any (is_orphan a) db.assignments

abbrev pub new_assignment : ℕ → AssignmentId → Option AgentId → Order → Assignment
new_assignment now id who o = record {
  id = id;
  agent_id = who;
  task = o.task;
  description = o.description;
  status = if is_some who then assigned else pending;
  priority = o.priority;
  blocked_by = o.blocked_by;
  created_at = datetime now;
  started_at = if is_some who then some (datetime now) else none;
  completed_at = none;
  result = none;
  commit_sha = none;
  workspace = o.workspace;
  context = o.context;
  attempt_count = 0;
  last_failure_mode = none;
}

-- The foreign keys of the new row.
abbrev pub keys_hold : Option AgentId → Option AssignmentId → Db → Bool
keys_hold who blocker db =
    (elim who [ none ↦ true | some a ↦ has_agent a db ])
    && (elim blocker [ none ↦ true | some i ↦ any (λ r. r.id == i) db.assignments ])

abbrev pub has_session : AgentId → Db → Bool
has_session a db = any (λ s. (s.agent_id == a) && s.connected) db.sessions

-- The transaction of the order, with whether a push is due.
assign_tx : ℕ → AssignmentId → Option AgentId → Order → Db → Db × Bool
assign_tx now id who o db =
    let db1 : Db = record db { assignments = db.assignments ++ new_assignment now id who o ∷ [] } in
    elim who [
      | none ↦ (log now none assignment_created db1, false)
      | some a ↦
          let db2 = log now (some a) assignment_created (set_working a id db1) in
          if has_session a db2 then (log now (some a) channel_push db2, true) else (db2, false)
    ]

-- What the worker's channel does with a push: it takes it, answers with an error, or cannot be reached.
pub data Delivery : Type 0 where
  delivered http_error unreachable : Delivery

-- `deliverToChannel` and the count of a delivered push.
unfoldable pub push : ℕ → AgentId → Delivery → Db → Db × Bool
push now a delivered db = (
  record db {
    sessions =
        update_where (λ s. s.agent_id == a)
          (λ s. record s { last_push_at = some (datetime now); push_count = s.push_count + 1 })
          db.sessions;
  },
  true,
)
push now a http_error db = (db, false)
push now a unreachable db = (
  record db {
    sessions =
        update_where (λ s. s.agent_id == a) (λ s. record s { connected = false }) db.sessions;
  },
  false,
)

-- The message that waits for a worker whose push failed, under the row's name and workspace.
unfoldable pub queue_mail : ℕ → ℕ → AgentId → Text → Db → Db
queue_mail now mail_id a message db = elim (agent_row a db) [
  | none ↦ db
  | some r ↦ record db {
    mailbox =
        db.mailbox
        ++ record {
          id = mail_id;
          worker_name = r.name;
          workspace = r.workspace;
          message = message;
          created_at = datetime now;
          delivered_at = none;
        }
          ∷ [];
  }
]

announce : ℕ → ℕ → Delivery → Option AgentId → Text → Db × Bool → Db × Bool
announce now mail_id channel none message (db, due) = (db, false)
announce now mail_id channel (some a) message (db, due) =
    let (db1, got) = if due then push now a channel db else (db, false) in
    (if got then db1 else queue_mail now mail_id a message db1, got)

pub data AssignReply : Type 0 where
  worker_not_found busy thrown : AssignReply  -- 404, 409, an exception of the store
  created : AssignmentId → AssignReply

assign_for :
    ℕ → AssignmentId → ℕ → Text → Delivery → Order → Option (Option AgentId) → Db → Db × AssignReply
unfolding assign_tx push queue_mail announce
assign_for now id mail_id message channel o none db = (db, worker_not_found)
assign_for now id mail_id message channel o (some who) db =
    if is_busy who db
    then (db, busy)
    else if not (keys_hold who o.blocked_by db)
    then (db, AssignReply.thrown)
    else ((announce now mail_id channel who message (assign_tx now id who o db)).0, created id)

-- POST /assign, with the ids that are drawn, the message for the mailbox and what the channel does.
-- The engram made of the context is not part of these tables.
unfoldable pub assign : ℕ → AssignmentId → ℕ → Text → Delivery → Order → Db → Db × AssignReply
unfolding resolve_worker assign_for
assign now id mail_id message channel o db =
    assign_for now id mail_id message channel o (resolve_worker o db) db
