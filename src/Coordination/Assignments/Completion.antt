-- ===== src/Coordination/Assignments/Completion.antt =====
-- What it takes to complete an assignment, and what a completion sets free.
use agent_working_memory.Base.{
  ℕ, ◌≡◌, refl, ap, ◌∙◌, ◌⊎◌, ◌≢◌, inl, inr, true, false, Option, none, some, List, [], ◌∷◌, Text,
  arith, ◌==◌, any, find?, find?-update_where_self, update_where,
}
use agent_working_memory.Coordination.Schema.{
  AssignmentId, AssignmentStatus, pending, in_progress, completed, Assignment, Db, assignment_row,
}
use agent_working_memory.Coordination.Assignments.{
  Reply, done, handle_update, updated, waits_for, unblocked, transition_ok, result_ok,
  passed_update, update_found,
}
use agent_working_memory.Coordination.Assignments.Updates.{
  handle_update_cases, rows_after, updated-id, passed-rows,
}

any-unblocked :
    (i : AssignmentId) (rs : List Assignment)
    → any (waits_for i) (update_where (waits_for i) unblocked rs) ≡ false
any-unblocked i [] = refl
any-unblocked i (r ∷ rs) = ground (arith, any-unblocked i rs)

completing-from :
    (s : AssignmentStatus) → transition_ok s completed ≡ true → (s ≡ in_progress) ⊎ (s ≡ pending)
completing-from s h = ground arith

-- A completion is accepted only from a row in progress or still pending and with a result that names
-- the work done; after it no assignment is left blocked by the completed one.
pub completion_checked :
    (now : ℕ) (i : AssignmentId) (result sha : Option Text) (db : Db)
    → (handle_update now i completed result sha db).1 ≡ done
    → (r : Assignment) × (assignment_row i db ≡ some r)
      × ((r.status ≡ in_progress) ⊎ (r.status ≡ pending))
      × (result_ok result ≡ true)
      × (any (waits_for i) (handle_update now i completed result sha db).0.assignments ≡ false)
completion_checked now i result sha db e =
    elim (handle_update_cases now i completed result sha db) [
      | inl refused ↦ cc
      | inr p ↦ (
        p.row,
        p.found,
        completing-from p.row.status p.allowed,
        p.proven,
        ap (any (waits_for i)) p.rows
            ∙ any-unblocked i
                (update_where (λ r. r.id == i) (updated now completed result sha) db.assignments),
      )
    ]

pending-passes :
    (now : ℕ) (i : AssignmentId) (next : AssignmentStatus) (result sha : Option Text) (db : Db)
    (r : Assignment)
    → r.status ≡ pending
    → next ≢ completed
    → update_found now i next result sha (some r) db
      ≡ (passed_update now i next result sha r db, done)
unfolding update_found
pending-passes now i next result sha db r waiting other = ground arith

uncompleted-rows :
    (now : ℕ) (i : AssignmentId) (next : AssignmentStatus) (result sha : Option Text) (db : Db)
    → next ≢ completed
    → rows_after now i next result sha db
      ≡ update_where (λ r. r.id == i) (updated now next result sha) db.assignments
uncompleted-rows now i next result sha db other = ground arith

-- The transition table has no entry for a pending assignment, so that every status passes: an update
-- to `in_progress`, `failed` or `blocked` is accepted on an assignment that nobody has claimed, and
-- leaves it in that status with no agent.
pub pending_unguarded :
    (now : ℕ) (i : AssignmentId) (next : AssignmentStatus) (result sha : Option Text) (db : Db)
    {r : Assignment}
    → assignment_row i db ≡ some r
    → r.status ≡ pending
    → r.agent_id ≡ none
    → next ≢ completed
    → (s : Assignment) × ((handle_update now i next result sha db).1 ≡ done)
      × (assignment_row i (handle_update now i next result sha db).0 ≡ some s)
      × (s.status ≡ next)
      × (s.agent_id ≡ none)
unfolding handle_update
pending_unguarded now i next result sha db {r} e waiting free other =
    let is =
      ap (λ o. update_found now i next result sha o db) e
      ∙ pending-passes now i next result sha db r waiting other in
    let rows =
      ap (λ (x : Db × Reply). x.0.assignments) is ∙ passed-rows now i next result sha db r in
    (
      updated now next result sha r,
      ap (λ (x : Db × Reply). x.1) is,
      ap (find? (λ x. x.id == i)) (rows ∙ uncompleted-rows now i next result sha db other)
          ∙ find?-update_where_self (λ x. x.id == i) (updated now next result sha)
              (λ x h. rw (updated-id now next result sha x) h) db.assignments e,
      ground arith,
      ground arith,
    )
