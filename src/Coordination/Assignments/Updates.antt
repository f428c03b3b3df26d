-- ===== src/Coordination/Assignments/Updates.antt =====
-- What an update does to the assignments, on each of its branches.
use agent_working_memory.Base.{
  ℕ, ◌≡◌, refl, ap, ◌∙◌, ◌⊎◌, true, false, not, ◌||◌, Option, some, List, [], ◌∷◌, Text, arith,
  if◌then◌else◌, ◌==◌, select, update_where, Bool-cases, Option-cases, inl, inr,
}
use agent_working_memory.Coordination.Schema.{
  AgentId, AssignmentId, AssignmentStatus, pending, assigned, in_progress, completed, failed,
  blocked, is_finished, is_completed, Assignment, Db, assignment_row,
}
use agent_working_memory.Coordination.Circuit.{record_failure, record_success}
use agent_working_memory.Coordination.Tokens.{Request}
use agent_working_memory.Coordination.Assignments.{
  Reply, done, bad_request, transition_ok, result_ok, is_open, claim, handle_update, updated,
  waits_for, unblocked, handed_to, update_tx, unblock, record_outcome, passed_update, update_found,
  log_unblocked,
}

pub updated-id :
    (now : ℕ) (next : AssignmentStatus) (result sha : Option Text) (r : Assignment)
    → (updated now next result sha r).id ≡ r.id
updated-id now next result sha r = ground arith

log_unblocked-assignments :
    (now : ℕ) (rs : List Assignment) (db : Db)
    → (log_unblocked now rs db).assignments ≡ db.assignments
unfolding log_unblocked
log_unblocked-assignments now [] db = refl
log_unblocked-assignments now (r ∷ rs) db = log_unblocked-assignments now rs _

module _ (now : ℕ) (j : AssignmentId) (next : AssignmentStatus) (result sha : Option Text)
    (db : Db) where
  -- The rows after an update that passed.
  abbrev pub rows_after : List Assignment
  rows_after =
      let rows = update_where (λ r. r.id == j) (updated now next result sha) db.assignments in
      if is_completed next then update_where (waits_for j) unblocked rows else rows

  -- An update is refused and changes nothing, or its row and its result passed the checks.
  pub record Passes : Type 0 where
    pub row : Assignment
    pub found : assignment_row j db ≡ some row
    pub allowed : transition_ok row.status next ≡ true
    pub proven : (not (is_completed next) || result_ok result) ≡ true
    pub rows : (handle_update now j next result sha db).0.assignments ≡ rows_after
    pub reply : (handle_update now j next result sha db).1 ≡ done

  unblock-rows :
      (d : Db) → (unblock now j d).assignments ≡ update_where (waits_for j) unblocked d.assignments
  unfolding unblock
  unblock-rows d = log_unblocked-assignments now (select (waits_for j) d.assignments) _

  update-rows :
      (r : Assignment)
      → (record_outcome now next r.agent_id (update_tx now j next result sha db)).assignments
        ≡ update_where (λ r. r.id == j) (updated now next result sha) db.assignments
  unfolding update_tx record_success record_failure
  update-rows r = ground arith

  pub passed-rows :
      (r : Assignment) → (passed_update now j next result sha r db).assignments ≡ rows_after
  unfolding passed_update
  passed-rows r =
      let d = record_outcome now next r.agent_id (update_tx now j next result sha db) in
      elim (Bool-cases (is_completed next)) [
        | inl e ↦ rw e (unblock-rows d ∙ ap (update_where (waits_for j) unblocked) (update-rows r))
        | inr e ↦ rw e (update-rows r)
      ]

  update_found_cases :
      (r : Assignment)
      → (update_found now j next result sha (some r) db ≡ (db, bad_request))
        ⊎ ((transition_ok r.status next ≡ true)
            × ((not (is_completed next) || result_ok result) ≡ true)
            × (update_found now j next result sha (some r) db
                ≡ (passed_update now j next result sha r db, done)))
  unfolding update_found
  update_found_cases r = ground arith

  pub handle_update_cases : (handle_update now j next result sha db ≡ (db, bad_request)) ⊎ Passes
  unfolding handle_update
  handle_update_cases = elim (Option-cases (assignment_row j db)) [
    | inl e ↦ inl (ap (λ o. update_found now j next result sha o db) e)
    | inr (r, e) ↦
        let open_call = ap (λ o. update_found now j next result sha o db) e in
        elim (update_found_cases r) [
          | inl refused ↦ inl (open_call ∙ refused)
          | inr (ok, proof, is) ↦ inr (record {
            row = r;
            found = e;
            allowed = ok;
            proven = proof;
            rows = ap (λ (x : Db × Reply). x.0.assignments) (open_call ∙ is) ∙ passed-rows r;
            reply = ap (λ (x : Db × Reply). x.1) (open_call ∙ is);
          })
        ]
  ]

pub transition-unfinished :
    (s t : AssignmentStatus) → transition_ok s t ≡ true → is_finished s ≡ false
transition-unfinished pending t h = refl
transition-unfinished assigned t h = refl
transition-unfinished in_progress t h = refl
transition-unfinished blocked t h = refl
transition-unfinished completed t h = cc
transition-unfinished failed t h = cc

pub claim_cases :
    (req : Request) (a : AgentId) (j : AssignmentId) (db : Db)
    → ((claim req a j db).0.assignments ≡ db.assignments)
      ⊎ ((claim req a j db).0.assignments
          ≡ update_where (is_open j) (handed_to req.now a) db.assignments)
unfolding claim
claim_cases req a j db = ground arith
