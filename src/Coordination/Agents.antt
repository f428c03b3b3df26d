-- ===== src/Coordination/Agents.antt =====
-- The life of an agent: checkin, checkout, pulse, shutdown and removal, in
-- src/coordination/routes.ts.
pub mod Ending
use agent_working_memory.Base.{
  ℕ, ◌-◌, Bool, true, false, not, ◌&&◌, ◌||◌, Option, none, some, List, [], ◌∷◌, ◌++◌, Text, codes,
  text_eq, if◌then◌else◌, leb, ltb, ◌==◌, or_else, coalesce, is_some, holds, holds_text, any, find?,
  select, update_where, delete_where, count_where,
}
use mathlib.Core.Option
use agent_working_memory.Coordination.Schema.{
  AgentId, AgentStatus, idle, dead, is_dead, Role, Agent, Assignment, failed, Session, Db, datetime,
  log, agent_row, EventType, registered, reconnected, heartbeat, shut_down,
  checkout as checkout_event, assignment_failed, agent_killed,
}
use agent_working_memory.Coordination.Tokens.{Request, session_token_ok}
use agent_working_memory.Coordination.Stale.{release_locks, mark_dead, is_orphan}
use agent_working_memory.Coordination.Reassign.{seen_last}

-- The body of POST /checkin; capabilities and metadata are their JSON texts.
pub record Checkin : Type 0 where
  pub name : Text
  pub role : Role
  pub pid : Option ℕ
  pub metadata : Option Text
  pub capabilities : Option Text
  pub workspace : Option Text
  pub channel_url : Option Text

-- `workspace = ?`, or `workspace IS NULL` where the request's workspace is missing or empty.
abbrev pub in_workspace : Option Text → Agent → Bool
in_workspace none r = not (is_some r.workspace)
in_workspace (some []) r = not (is_some r.workspace)
in_workspace (some (c ∷ w)) r = holds_text r.workspace (c ∷ w)

-- The row that a name and a workspace find: in that workspace, else under the name alone.
unfoldable pub find_existing : Text → Option Text → List Agent → Option Agent
find_existing name workspace agents =
    coalesce (seen_last (select (λ r. text_eq r.name name && in_workspace workspace r) agents))
      (seen_last (select (λ r. text_eq r.name name) agents))

-- A dead agent gets a fresh token; a live one keeps the one it has.
abbrev pub token_for : ℕ → Agent → ℕ
token_for fresh r = if is_dead r.status then fresh else or_else r.session_token fresh

abbrev pub revive : AgentStatus → AgentStatus
revive dead = idle
revive s = s

-- The UPDATE of a returning agent's row.
abbrev pub refreshed_row : ℕ → ℕ → Checkin → Agent → Agent
refreshed_row now token c r = record r {
  last_seen = datetime now;
  status = revive r.status;
  role = c.role;
  pid = coalesce c.pid r.pid;
  capabilities = coalesce c.capabilities r.capabilities;
  workspace = coalesce c.workspace r.workspace;
  session_token = some token;
}

abbrev pub new_agent : ℕ → AgentId → ℕ → Checkin → Agent
new_agent now id token c = record {
  id = id;
  name = c.name;
  role = c.role;
  status = idle;
  pid = c.pid;
  last_seen = datetime now;
  current_task = none;
  metadata = c.metadata;
  capabilities = c.capabilities;
  workspace = c.workspace;
  session_token = some token;
}

abbrev new_session : ℕ → AgentId → Text → Session
new_session now a url = record {
  agent_id = a;
  channel_id = url;
  connected_at = datetime now;
  last_push_at = none;
  push_count = 0;
  connected = true;
}

-- The upsert of a channel session, also behind POST /channel/register.
unfoldable pub register_channel : ℕ → AgentId → Text → Db → Db
register_channel now a url db = record db {
  sessions =
      if any (λ s. s.agent_id == a) db.sessions
      then update_where (λ s. s.agent_id == a) (λ s. new_session now a url) db.sessions
      else db.sessions ++ new_session now a url ∷ [];
}

abbrev pub auto_register : ℕ → AgentId → Option Text → Db → Db
auto_register now a none db = db
auto_register now a (some []) db = db
auto_register now a (some (c ∷ url)) db = register_channel now a (c ∷ url) db

-- POST /checkin, with the two UUIDs that the code may draw; the reply is the agent and its token.
unfoldable pub checkin : ℕ → AgentId → ℕ → Checkin → Db → Db × AgentId × ℕ
unfolding find_existing register_channel
checkin now fresh_id fresh_token c db = elim (find_existing c.name c.workspace db.agents) [
  | some r ↦
      let token = token_for fresh_token r in
      let db1 : Db = record db {
        agents = update_where (λ x. x.id == r.id) (refreshed_row now token c) db.agents;
      } in
      (
        auto_register now r.id c.channel_url
            (log now (some r.id) (if is_dead r.status then reconnected else heartbeat) db1),
        r.id,
        token,
      )
  | none ↦ (
    auto_register now fresh_id c.channel_url (
        log now (some fresh_id) registered
          (record db { agents = db.agents ++ new_agent now fresh_id fresh_token c ∷ [] })),
    fresh_id,
    fresh_token,
  )
]

abbrev pub shutdown_each : ℕ → List Agent → Db → Db
shutdown_each now [] db = db
shutdown_each now (r ∷ rs) db =
    shutdown_each now rs (log now (some r.id) shut_down (mark_dead r.id (release_locks r.id db)))

-- POST /shutdown.
unfoldable pub shutdown : ℕ → Db → Db
shutdown now db = shutdown_each now (select (λ r. not (is_dead r.status)) db.agents) db

-- POST /checkout; `false` is the refusal of the token.
unfoldable pub checkout : Request → AgentId → Db → Db × Bool
checkout req a db = if not (session_token_ok a req db) then (db, false) else (
  log req.now (some a) checkout_event (record (release_locks a db) {
    sessions = delete_where (λ s. s.agent_id == a) db.sessions;
    agents =
        update_where (λ r. r.id == a)
          (λ r. record r { status = dead; last_seen = datetime req.now }) db.agents;
  }),
  true,
)

-- PATCH /pulse, with the time of the agent's last pulse that reached the table (0 if there is none);
-- `none` is the refusal of the token. The result has the new time of the last pulse.
unfoldable pub pulse : Request → AgentId → ℕ → Db → Option (Db × ℕ)
pulse req a last db =
    if not (session_token_ok a req db)
    then none
    else if ltb (req.now - last) 10000
    then some (db, last)
    else some (
      record db {
        agents =
            update_where (λ r. r.id == a) (λ r. record r { last_seen = datetime req.now })
              db.agents;
      },
      req.now,
    )

abbrev killed_assignment : ℕ → Assignment → Assignment
killed_assignment now r = record r {
  status = failed;
  result = some (codes "agent killed by coordinator");
  completed_at = some (datetime now);
}

pub data KillReply : Type 0 where
  not_found already_dead : KillReply
  killed : (failed_assignments released_locks : ℕ) → KillReply

-- DELETE /agent/:id.
unfoldable pub kill_agent : ℕ → AgentId → Db → Db × KillReply
kill_agent now a db = elim (agent_row a db) [
  | none ↦ (db, not_found)
  | some r ↦
      if is_dead r.status
      then (db, already_dead)
      else let changes = count_where (is_orphan a) db.assignments in
        let released = count_where (λ l. l.agent_id == a) db.locks in
        let db1 : Db = record db {
          assignments = update_where (is_orphan a) (killed_assignment now) db.assignments;
        } in
        let db2 = if ltb 0 changes then log now (some a) assignment_failed db1 else db1 in
        (log now (some a) agent_killed (mark_dead a (release_locks a db2)), killed changes released)
]
