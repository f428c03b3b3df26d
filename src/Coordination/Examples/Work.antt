-- ===== src/Coordination/Examples/Work.antt =====
-- Claims, updates, retries and the choice of work at concrete inputs.
use agent_working_memory.Base.{
  trim, ℕ, ◌+◌, ◌≤◌, ◌<◌, ◌≡◌, ◌≢◌, ◌⊎◌, refl, true, false, Option, none, some, List, [], ◌∷◌, Text,
  text_eq, codes, arith, All, any, length, count_where, starts_with, includes, to_lower,
}
use agent_working_memory.Coordination.Schema.{
  Db, idle, pending, in_progress, completed, failed, Assignment, assignment_row,
}
use agent_working_memory.Coordination.Tokens.{session_token_ok}
use agent_working_memory.Coordination.Circuit.{record_success}
use agent_working_memory.Coordination.Stale.{is_orphan, retry_or_fail, detect_stale, cleanup_stale}
use agent_working_memory.Coordination.Stale.Retry.{
  Failure, fail_all, IsReturned, HasStatus, four_failures,
}
use agent_working_memory.Coordination.Stale.Cleanup.{IsCleared, cleanup_stale-IsCleared}
use agent_working_memory.Coordination.Assignments.{
  claim, handle_update, done, is_open, waits_for, result_ok, mentions_action,
}
use agent_working_memory.Coordination.Assignments.Final.{
  Call, claims, updates, gives_up, run, IsFinishedAs, finished_is_final,
}
use agent_working_memory.Coordination.Assignments.Completion.{completion_checked, pending_unguarded}
use agent_working_memory.Coordination.Assignments.Claims.{claim_once, claim_adds, grants, returns}
use agent_working_memory.Coordination.Dispatch.{truthy, pick_pending, is_reserved, is_unassigned}
use agent_working_memory.Coordination.Dispatch.Choice.{IsBest, pick_pending-IsBest}
use agent_working_memory.Base.{◌==◌}
use agent_working_memory.Coordination.Dispatch.{take_assignment, in_hand, own_active, alias_active}
use agent_working_memory.Coordination.Reassign.{fail_voluntarily}
use agent_working_memory.Coordination.Circuit.{record_failure}
use agent_working_memory.Coordination.Dispatch.Handed.{IsHanded, take_assignment-IsHanded}
use agent_working_memory.Coordination.Examples.{db, request, agent, task}

abbrev calls : List Call
calls =
    claims request 2 11 ∷ updates 9000 11 in_progress none none ∷ gives_up 9000 11 none none ∷ []

finished_is_final_example : IsFinishedAs 11 completed (run calls db).assignments
finished_is_final_example = finished_is_final calls 11 completed db (_, refl, refl, refl)

-- The assignment is claimed, given up, claimed again, and a last claim is refused.
abbrev claimants : List Call
claimants =
    claims request 1 12
    ∷ claims request 2 12
    ∷ gives_up 9000 12 none none
    ∷ claims request 2 12
    ∷ claims request 1 12
    ∷ []

twice : grants 12 claimants db ≡ 2
unfolding claim fail_voluntarily session_token_ok retry_or_fail record_failure
twice = refl

claim_once_example : grants 12 claimants db ≤ 1 + returns 12 claimants
claim_once_example = claim_once claimants 12 db

-- An agent that has the tenth assignment in hand claims the twelfth.
in_hand_already : count_where (is_orphan 1) db.assignments ≡ 1
in_hand_already = refl

token_right : session_token_ok 1 request db ≡ true
unfolding session_token_ok
token_right = refl

claim_adds_example :
    ((claim request 1 12 db).1 ≡ done)
    × (count_where (is_orphan 1) (claim request 1 12 db).0.assignments
        ≡ count_where (is_orphan 1) db.assignments + count_where (is_open 12) db.assignments)
claim_adds_example = claim_adds request 1 12 db token_right refl refl

abbrev report : Option Text
report = some (codes "commit: fixed the parser and tested it")

accepted : (handle_update 9000 10 completed report none db).1 ≡ done
unfolding handle_update record_success trim mentions_action to_lower text_eq starts_with includes
accepted = refl

completion_checked_example :
    (r : Assignment) × (assignment_row 10 db ≡ some r)
    × ((r.status ≡ in_progress) ⊎ (r.status ≡ pending))
    × (result_ok report ≡ true)
    × (any (waits_for 10) (handle_update 9000 10 completed report none db).0.assignments ≡ false)
completion_checked_example = completion_checked 9000 10 report none db accepted

not_completed : failed ≢ completed
not_completed = ground arith

pending_unguarded_example :
    (s : Assignment) × ((handle_update 9000 12 failed none none db).1 ≡ done)
    × (assignment_row 12 (handle_update 9000 12 failed none none db).0 ≡ some s)
    × (s.status ≡ failed)
    × (s.agent_id ≡ none)
pending_unguarded_example =
    pending_unguarded 9000 12 failed none none db refl refl refl not_completed

abbrev failure : ℕ → Failure
failure t = record { time = t; agent = some 1; reason = codes "timeout"; given = none }

abbrev failures : List Failure
failures = failure 1000 ∷ failure 2000 ∷ failure 3000 ∷ []

four_failures_example :
    (0 < length failures
      → length failures ≤ 3
      → IsReturned (length failures) (assignment_row 10 (fail_all 10 failures db)))
    × (length failures ≡ 3
        → HasStatus failed (
            assignment_row 10
              (retry_or_fail 4000 10 (some 1) (codes "timeout") none (fail_all 10 failures db)).0))
four_failures_example = four_failures 10 failures (failure 4000) db refl refl

cleanup_stale-IsCleared_example :
    All (λ a. IsCleared a.id (cleanup_stale 900000 120 db).0) (detect_stale 900000 120 db)
cleanup_stale-IsCleared_example = cleanup_stale-IsCleared 900000 120 db

pick_pending-IsBest_example :
    ((r : Assignment)
      → pick_pending 2 none db ≡ some r
      → IsBest (is_reserved 2 db) db.assignments r
        ⊎ ((any (is_reserved 2 db) db.assignments ≡ false)
            × IsBest (is_unassigned (truthy none) db) db.assignments r))
    × (pick_pending 2 none db ≡ none
        → (any (is_reserved 2 db) db.assignments ≡ false)
          × (any (is_unassigned (truthy none) db) db.assignments ≡ false))
pick_pending-IsBest_example = pick_pending-IsBest 2 none db

-- The first worker has registered anew, as 3 under the old name; its assignment passes to the new UUID.
abbrev anew : Db
anew = record db { agents = record (agent 3 idle 5) { name = 1 ∷ [] } ∷ db.agents }

ids_differ : (i : ℕ) → count_where (λ r. r.id == i) anew.assignments ≤ 1
ids_differ i = ground arith

taken : (take_assignment 9000 3 (1 ∷ []) none anew).1 ≡ in_hand (task 10 (some 3) in_progress)
unfolding take_assignment own_active alias_active text_eq
taken = refl

take_assignment-IsHanded_example :
    IsHanded 3
      (take_assignment 9000 3 (1 ∷ []) none anew).0
      (take_assignment 9000 3 (1 ∷ []) none anew).1
take_assignment-IsHanded_example = take_assignment-IsHanded 9000 3 (1 ∷ []) none anew ids_differ
