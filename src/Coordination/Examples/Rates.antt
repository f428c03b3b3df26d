-- ===== src/Coordination/Examples/Rates.antt =====
-- The rate limiter at a few requests.
use agent_working_memory.Base.{ℕ, ◌≤◌, none, some, List, [], ◌∷◌, codes, arith}
use agent_working_memory.Coordination.RateLimit.{rate_limit, Incoming}
use agent_working_memory.Coordination.RateLimit.Window.{
  Event, requests, sweeps, IsInOrder, passed, rate_limit_kept,
}

abbrev incoming : ℕ → Incoming
incoming now = record {
  now = now;
  url = codes "/next";
  body_name = some (codes "worker");
  body_agent_id = none;
  query_agent_id = none;
  query_name = none;
  ip = codes "local";
}

abbrev events : List Event
events =
    requests (incoming 1000)
    ∷ requests (incoming 1500)
    ∷ sweeps 300000
    ∷ requests (incoming 300500)
    ∷ []

in_order : IsInOrder 0 events
in_order = ground arith

rate_limit_kept_example : passed (codes "worker") 1000 events [] ≤ rate_limit
rate_limit_kept_example = rate_limit_kept (codes "worker") 1000 0 events in_order
