-- ===== src/Coordination/Examples/Workers.antt =====
-- The circuits, the end of a session and the purge at concrete inputs.
use agent_working_memory.Base.{
  ℕ, ◌+◌, ◌<◌, ◌≡◌, ◌↔◌, refl, inl, inr, false, none, List, [], ◌∷◌, arith, if◌then◌else◌, All, any,
  length, select, text_eq, find?, Bool-cases, ◌==◌,
}
use agent_working_memory.Coordination.Schema.{AgentId, CircuitRow, closed}
use agent_working_memory.Coordination.Circuit.{circuit_row, record_success, get_state, is_available}
use agent_working_memory.Coordination.Circuit.Laws.{
  IsSoundTable, IsSound, IsSoundRow, fail_at, trips_at_threshold, failures,
}
use agent_working_memory.Coordination.Stale.{is_orphan, cleanup_agent}
use agent_working_memory.Coordination.Stale.Cleanup.{failures-cleanup_agent}
use agent_working_memory.Coordination.Agents.Ending.{}
use agent_working_memory.Coordination.Dispatch.{own_active, alias_active, is_alias}
use agent_working_memory.Coordination.Examples.{db}

find?-IsSound :
    (b : AgentId) (rs : List CircuitRow)
    → All IsSound rs
    → IsSoundRow (find? (λ r. r.agent_id == b) rs)
find?-IsSound b [] h = tt
find?-IsSound b (r ∷ rs) h = elim (Bool-cases (r.agent_id == b)) [
  | inl e ↦ rw e h.0
  | inr e ↦ rw e (find?-IsSound b rs h.1)
]

sound : IsSoundTable db
sound b = find?-IsSound b db.circuits (
  record {
    closed_low = λ h. ground arith;
    tripped_high = λ h. ground arith;
    tripped_time = λ h. refl;
  },
  (
    record {
      closed_low = λ h. ground arith;
      tripped_high = λ h. ground arith;
      tripped_time = λ h. refl;
    },
    tt,
  ),
)

abbrev times : List ℕ
times = 1000 ∷ 2000 ∷ 3000 ∷ 4000 ∷ 5000 ∷ []

trips_at_threshold_example :
    ((get_state 6000 1 (fail_at 1 times (record_success 500 1 db))).0 ≡ closed) ↔ (length times < 5)
trips_at_threshold_example = trips_at_threshold 1 500 6000 times db sound

failures-cleanup_agent_example :
    failures (circuit_row 1 (cleanup_agent 9000 1 db).0)
    ≡ failures (circuit_row 1 db) + (if any (is_orphan 1) db.assignments then 1 else 0)
failures-cleanup_agent_example = failures-cleanup_agent 9000 1 db

none_of_own : own_active 2 db ≡ none
unfolding own_active
none_of_own = refl

no_alias : alias_active (select (is_alias (2 ∷ []) 2) db.agents) db ≡ none
unfolding alias_active own_active text_eq
no_alias = refl

refused : (is_available 9000 2 db).0 ≡ false
unfolding is_available get_state
refused = refl
