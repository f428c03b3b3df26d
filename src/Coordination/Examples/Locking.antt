-- ===== src/Coordination/Examples/Locking.antt =====
-- Requests on the locks, and the write mutex, at concrete inputs.
use agent_working_memory.Base.{
  ℕ, ◌≡◌, ◌≢◌, refl, inl, true, none, some, List, [], ◌∷◌, text_eq, arith,
}
use agent_working_memory.Coordination.Schema.{has_agent}
use agent_working_memory.Coordination.Tokens.{session_token_ok}
use agent_working_memory.Coordination.Locks.{holder}
use agent_working_memory.Coordination.Locks.Laws.{
  lock_exclusive, IsKeyed, Call, acquires, releases, run,
}
use agent_working_memory.Coordination.Locks.Refinement.{spec_run, holder-run}
use agent_working_memory.Coordination.Mutex.{acquire, create}
use agent_working_memory.Coordination.Mutex.Fair.{
  Reach, start, next, arrives, ends, arrived, ended, World, IsFair, Reach-IsFair,
}
use agent_working_memory.Coordination.Examples.{db, path, request}

keyed : IsKeyed db
keyed q = ground arith

abbrev calls : List Call
calls = acquires request 2 path none ∷ releases request 2 path ∷ acquires request 1 path none ∷ []

abbrev other : ℕ
other = 2

differs : other ≢ 1
differs = ground arith

lock_exclusive_example : (holder path (run calls db) ≡ some 1) × IsKeyed (run calls db)
unfolding text_eq
lock_exclusive_example = lock_exclusive calls 1 path db keyed (tt, (inl differs, (tt, tt))) refl

token_ok : session_token_ok 2 request db ≡ true
unfolding session_token_ok
token_ok = refl

holder-run_example :
    holder path (run calls db)
    ≡ spec_run
        (λ a req. session_token_ok a req db)
        (λ a. has_agent a db)
        calls
        (λ p. holder p db)
        path
holder-run_example = holder-run calls db path keyed

-- Two requests arrive, and the first one's response ends.
abbrev world : World
world = record { mutex = create; holders = []; served = []; asked = [] }

both : World
both = arrived (arrived world 1) 2

both_arrived : (both.holders ≡ 1 ∷ []) × (both.mutex.queue ≡ 2 ∷ [])
unfolding both acquire create
both_arrived = (refl, refl)

passed : Reach (ended both [])
unfolding both
passed =
    next (next (next start (arrives world 1)) (arrives (arrived world 1) 2))
      (ends both [] 1 [] both_arrived.0)

Reach-IsFair_example : IsFair (ended both [])
Reach-IsFair_example = Reach-IsFair passed
