-- ===== src/Coordination/Locks/Refinement.antt =====
-- The lock handlers of src/coordination/routes.ts as the detailed form of a map from paths to holders.
use agent_working_memory.Base.{
  ◌≡◌, refl, ◌∙◌, Bool, not, ◌&&◌, Option, none, some, List, [], ◌∷◌, Text, text_eq, is_some, arith,
  Option-cases, inl, inr, if◌then◌else◌,
}
use agent_working_memory.Coordination.Schema.{AgentId, Db, has_agent}
use agent_working_memory.Coordination.Tokens.{Request, session_token_ok}
use agent_working_memory.Coordination.Locks.{acquire_lock, release_lock, holder, is_holder}
use agent_working_memory.Coordination.Locks.Laws.{
  holder-acquire_lock, holder-release_lock, IsKeyed, Call, acquires, releases, step, run,
  step-IsKeyed,
}

abbrev pub LockMap : Type 0
LockMap = Text → Option AgentId

-- What the locks promise: who may ask and who is registered are fixed, a free path is taken by who asks for it, and
-- a path is freed by its holder.
module _ (may_ask : AgentId → Request → Bool) (registered : AgentId → Bool) where
  unfoldable pub spec_step : Call → LockMap → LockMap
  spec_step (acquires req a p reason) m q =
      if text_eq p q && (may_ask a req && (registered a && not (is_some (m p))))
      then some a
      else m q
  spec_step (releases req a p) m q =
      if text_eq p q && (may_ask a req && is_holder a (m q)) then none else m q

  unfoldable pub spec_run : List Call → LockMap → LockMap
  unfolding spec_step
  spec_run [] m = m
  spec_run (c ∷ cs) m = spec_run cs (spec_step c m)

step-agents : (c : Call) (db : Db) → (step c db).agents ≡ db.agents
unfolding acquire_lock release_lock
step-agents (acquires req a p reason) db = ground arith
step-agents (releases req a p) db = ground arith

session_token_ok-step :
    (c : Call) (db : Db) (a : AgentId) (req : Request)
    → session_token_ok a req (step c db) ≡ session_token_ok a req db
unfolding session_token_ok
session_token_ok-step c db a req = elim (Option-cases req.token) [
  | inl e ↦ rw (session_token_ok, e) refl
  | inr (t, e) ↦ rw (session_token_ok, e, step-agents c db) refl
]

has_agent-step : (c : Call) (db : Db) (a : AgentId) → has_agent a (step c db) ≡ has_agent a db
has_agent-step c db a = rw (step-agents c db) refl

step-refines :
    (c : Call) (db : Db) (m : LockMap) (ok : AgentId → Request → Bool) (registered : AgentId → Bool)
    → IsKeyed db
    → ((a : AgentId) (req : Request) → session_token_ok a req db ≡ ok a req)
    → ((a : AgentId) → has_agent a db ≡ registered a)
    → ((q : Text) → holder q db ≡ m q)
    → (q : Text) → holder q (step c db) ≡ spec_step ok registered c m q
unfolding spec_step
step-refines (acquires req a p reason) db m ok registered k t r h q =
    rw (holder-acquire_lock req a p q reason db, t a req, r a, h p, h q) refl
step-refines (releases req a p) db m ok registered k t r h q =
    rw (holder-release_lock req a p q db k, t a req, h q) refl

run-refines :
    (cs : List Call) (db : Db) (m : LockMap) (ok : AgentId → Request → Bool)
    (registered : AgentId → Bool)
    → IsKeyed db
    → ((a : AgentId) (req : Request) → session_token_ok a req db ≡ ok a req)
    → ((a : AgentId) → has_agent a db ≡ registered a)
    → ((q : Text) → holder q db ≡ m q)
    → (q : Text) → holder q (run cs db) ≡ spec_run ok registered cs m q
unfolding spec_run
run-refines [] db m ok registered k t r h q = h q
run-refines (c ∷ cs) db m ok registered k t r h q =
    run-refines cs (step c db) (spec_step ok registered c m) ok registered (step-IsKeyed c db k)
      (λ a req. session_token_ok-step c db a req ∙ t a req) (λ a. has_agent-step c db a ∙ r a)
      (step-refines c db m ok registered k t r h) q

-- The lock table refines a map from paths to holders: from a table with one row at most for a path, whatever
-- acquisitions and releases arrive, the holder of every path is what the map has for it after the same requests,
-- where a free path is taken by a registered agent that may ask, a path is freed by its holder, and nothing else
-- changes. Who may ask and who is registered are the token check and the table of agents at the start.
pub holder-run :
    (cs : List Call) (db : Db) (q : Text)
    → IsKeyed db
    → holder q (run cs db)
      ≡ spec_run (λ a req. session_token_ok a req db) (λ a. has_agent a db) cs (λ p. holder p db) q
holder-run cs db q k =
    run-refines cs db (λ p. holder p db) (λ a req. session_token_ok a req db) (λ a. has_agent a db)
      k (λ a req. refl) (λ a. refl) (λ p. refl) q
