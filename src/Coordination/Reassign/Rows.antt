-- ===== src/Coordination/Reassign/Rows.antt =====
-- What a reassignment and a voluntary failure do to the assignments.
use agent_working_memory.Base.{
  ℕ, ◌≡◌, refl, ap, ◌∙◌, ◌⊎◌, inl, inr, false, Option, none, some, Text, ◌==◌, update_where,
  Bool-cases, or_else, codes,
}
use agent_working_memory.Coordination.Schema.{
  AgentId, AssignmentId, is_finished, Assignment, Mode, Db, assignment_row,
}
use agent_working_memory.Coordination.Circuit.{record_failure}
use agent_working_memory.Coordination.Stale.{retry_or_fail}
use agent_working_memory.Coordination.Stale.Retry.{retry_cases}
use agent_working_memory.Coordination.Assignments.{handed_to}
use agent_working_memory.Coordination.Reassign.{
  reassign, fail_voluntarily, hand_over, release_agent, back_to_pending, target_of, reassign_to,
  reassign_found, fail_found, record_failure_of,
}

-- The rows stay, or an UPDATE by key of an assignment that is not finished has made them.
abbrev pub IsKeyedUpdate : AssignmentId → Db → Db → Type 0
IsKeyedUpdate j db db' =
    (db'.assignments ≡ db.assignments)
    ⊎ ((r : Assignment) × (f : Assignment → Assignment) × (assignment_row j db ≡ some r)
        × (is_finished r.status ≡ false)
        × ((x : Assignment) → (f x).id ≡ x.id)
        × (db'.assignments ≡ update_where (λ x. x.id == j) f db.assignments))

module _ (now : ℕ) (j : AssignmentId) (db : Db) where
  release-rows : (who : Option AgentId) → (release_agent who db).assignments ≡ db.assignments
  release-rows none = refl
  release-rows (some a) = refl

  reassign_to_cases :
      (to : Option (Option AgentId)) (r : Assignment)
      → assignment_row j db ≡ some r
      → is_finished r.status ≡ false
      → IsKeyedUpdate j db (reassign_to now j to r db).0
  unfolding reassign_to hand_over
  reassign_to_cases none r e going = inl refl
  reassign_to_cases (some none) r e going = inr (
    r,
    back_to_pending,
    e,
    going,
    λ x. refl,
    ap (update_where (λ x. x.id == j) back_to_pending) (release-rows r.agent_id),
  )
  reassign_to_cases (some (some a)) r e going = inr (
    r,
    handed_to now a,
    e,
    going,
    λ x. refl,
    ap (update_where (λ x. x.id == j) (handed_to now a)) (release-rows r.agent_id),
  )

  reassign_found_cases :
      (target : Option AgentId) (name : Option Text) (o : Option Assignment)
      → assignment_row j db ≡ o
      → IsKeyedUpdate j db (reassign_found now j target name o db).0
  unfolding reassign_found
  reassign_found_cases target name none e = inl refl
  reassign_found_cases target name (some r) e = elim (Bool-cases (is_finished r.status)) [
    | inl fin ↦ rw fin (inl refl)
    | inr going ↦ rw going (reassign_to_cases (target_of target name db) r e going)
  ]

  pub reassign_cases :
      (target : Option AgentId) (name : Option Text)
      → IsKeyedUpdate j db (reassign now j target name db).0
  unfolding reassign
  reassign_cases target name = reassign_found_cases target name (assignment_row j db) refl

  record_failure_of-rows :
      (who : Option AgentId) (d : Db) → (record_failure_of now who d).assignments ≡ d.assignments
  unfolding record_failure
  record_failure_of-rows none d = refl
  record_failure_of-rows (some a) d = refl

  retry-IsKeyedUpdate :
      (who : Option AgentId) (text : Text) (mode : Option Mode) (r : Assignment)
      → assignment_row j db ≡ some r
      → is_finished r.status ≡ false
      → IsKeyedUpdate j db (retry_or_fail now j who text mode db).0
  retry-IsKeyedUpdate who text mode r e going = elim (retry_cases now j who text mode db) [
    | inl (few, rows) ↦ inr (r, _, e, going, λ x. refl, rows)
    | inr (many, rows) ↦ inr (r, _, e, going, λ x. refl, rows)
  ]

  same_rows :
      (d d' : Db) → d'.assignments ≡ d.assignments → IsKeyedUpdate j db d → IsKeyedUpdate j db d'
  same_rows d d' e (inl stay) = inl (e ∙ stay)
  same_rows d d' e (inr (r, f, found, going, keep, rows)) = inr (r, f, found, going, keep, e ∙ rows)

  fail_found_cases :
      (reason : Option Text) (mode : Option Mode) (o : Option Assignment)
      → assignment_row j db ≡ o
      → IsKeyedUpdate j db (fail_found now j reason mode o db).0
  unfolding fail_found
  fail_found_cases reason mode none e = inl refl
  fail_found_cases reason mode (some r) e = elim (Bool-cases (is_finished r.status)) [
    | inl fin ↦ rw fin (inl refl)
    | inr going ↦
        let text = or_else reason (codes "worker-initiated failure") in
        let d = (retry_or_fail now j r.agent_id text mode db).0 in
        rw going (
          same_rows d (record_failure_of now r.agent_id d) (record_failure_of-rows r.agent_id d)
            (retry-IsKeyedUpdate r.agent_id text mode r e going))
  ]

  pub fail_cases :
      (reason : Option Text) (mode : Option Mode)
      → IsKeyedUpdate j db (fail_voluntarily now j reason mode db).0
  unfolding fail_voluntarily
  fail_cases reason mode = fail_found_cases reason mode (assignment_row j db) refl
