-- ===== src/Coordination/Locks.antt =====
-- The file locks of src/coordination/routes.ts (POST and DELETE /lock).
pub mod Laws
pub mod Refinement
use agent_working_memory.Base.{
  ℕ, suc, Bool, true, false, not, ◌&&◌, Option, none, some, List, [], ◌∷◌, ◌++◌, Text, text_eq,
  if◌then◌else◌, ◌==◌, any, find?, update_where, delete_where,
}
use mathlib.Core.Option
use agent_working_memory.Coordination.Schema.{
  AgentId, Lock, Db, datetime, log, has_agent, lock_acquired, lock_released,
}
use agent_working_memory.Coordination.Tokens.{Request, session_token_ok}

-- The replies; `thrown` is an exception of the store, a foreign key that names no agent.
pub data Reply : Type 0 where
  acquired refreshed released forbidden not_found thrown : Reply
  locked_by : Option AgentId → Reply

abbrev pub on_path : Text → Lock → Bool
on_path p l = text_eq l.file_path p

-- The holder of a path.
abbrev pub holder : Text → Db → Option AgentId
holder p db = Option.map (λ (l : Lock). l.agent_id) (find? (on_path p) db.locks)

abbrev pub new_lock : ℕ → AgentId → Text → Option Text → Lock
new_lock now a p reason = record {
  file_path = p;
  agent_id = a;
  locked_at = datetime now;
  reason = reason;
}

abbrev pub is_holder : AgentId → Option AgentId → Bool
is_holder a none = false
is_holder a (some b) = b == a

-- The branch in which the row was there already, so that the INSERT was ignored.
contend : ℕ → AgentId → Text → Db → Db × Reply
contend now a p db =
    if is_holder a (holder p db)
    then (
      record db {
        locks = update_where (on_path p) (λ l. record l { locked_at = datetime now }) db.locks;
      },
      refreshed,
    )
    else (db, locked_by (holder p db))

-- POST /lock.
unfoldable pub acquire_lock : Request → AgentId → Text → Option Text → Db → Db × Reply
unfolding contend
acquire_lock req a p reason db =
    if not (session_token_ok a req db)
    then (db, forbidden)
    else if any (on_path p) db.locks
    then contend req.now a p db
    else if has_agent a db
    then (
      log req.now (some a) lock_acquired
          (record db { locks = db.locks ++ new_lock req.now a p reason ∷ [] }),
      acquired,
    )
    else (db, thrown)

-- DELETE /lock.
unfoldable pub release_lock : Request → AgentId → Text → Db → Db × Reply
release_lock req a p db =
    if not (session_token_ok a req db)
    then (db, forbidden)
    else if any (λ l. on_path p l && (l.agent_id == a)) db.locks
    then (
      log req.now (some a) lock_released
          (record db { locks = delete_where (λ l. on_path p l && (l.agent_id == a)) db.locks }),
      released,
    )
    else (db, not_found)
