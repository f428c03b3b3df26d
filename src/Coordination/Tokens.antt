-- ===== src/Coordination/Tokens.antt =====
-- The session-token check of src/coordination/routes.ts.
use agent_working_memory.Base.{ℕ, Bool, true, not, Option, none, some, ◌==◌}
use agent_working_memory.Coordination.Schema.{AgentId, Agent, Db, agent_row}

-- What a request brings with it: its clock in milliseconds, the token header if it is there (and not
-- empty), and whether AWM_COORD_REQUIRE_TOKENS is 1.
pub record Request : Type 0 where
  pub now : ℕ
  pub token : Option ℕ
  pub require_tokens : Bool

abbrev token_matches : ℕ → Option Agent → Bool
token_matches provided none = true
token_matches provided (some r) = elim r.session_token [ none ↦ true | some t ↦ t == provided ]

-- `sessionTokenOk`: a header that is absent passes unless tokens are required; one that is present is
-- compared with the stored token, if there is one.
unfoldable pub session_token_ok : AgentId → Request → Db → Bool
session_token_ok a req db = elim req.token [
  | none ↦ not req.require_tokens
  | some provided ↦ token_matches provided (agent_row a db)
]
