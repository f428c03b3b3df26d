-- ===== src/Coordination/Assignments/Final.antt =====
-- Finished assignments under claims, updates, reassignments and voluntary failures.
use agent_working_memory.Base.{
  ℕ, ◌≡◌, refl, ap, sym, subst, ◌∙◌, Bool, true, false, Option, some, List, [], ◌∷◌, Text, arith,
  ◌==◌, find?, update_where, Bool-cases, inl, inr,
}
use agent_working_memory.Coordination.Schema.{
  AgentId, AssignmentId, AssignmentStatus, is_finished, is_completed, Assignment, Mode, Db,
}
use agent_working_memory.Coordination.Stale.Retry.{find?-update_other}
use agent_working_memory.Coordination.Reassign.{reassign, fail_voluntarily}
use agent_working_memory.Coordination.Tokens.{Request}
use agent_working_memory.Coordination.Reassign.Rows.{reassign_cases, fail_cases}
use agent_working_memory.Coordination.Assignments.Updates.{
  handle_update_cases, rows_after, updated-id, transition-unfinished, claim_cases,
}
use agent_working_memory.Coordination.Assignments.{
  Reply, is_open, claim, handle_update, updated, waits_for, unblocked, handed_to,
}

-- The row of `i` is there and finished, with this status.
abbrev pub IsFinishedAs : AssignmentId → AssignmentStatus → List Assignment → Type 0
IsFinishedAs i s rows =
    (r : Assignment) × (find? (λ x. x.id == i) rows ≡ some r)
    × (r.status ≡ s)
    × (is_finished s ≡ true)

-- An UPDATE that leaves every finished row leaves the row of `i`.
find?-update_unfinished :
    (i : AssignmentId) (p : Assignment → Bool) (f : Assignment → Assignment)
    → ((r : Assignment) → p r ≡ true → is_finished r.status ≡ false)
    → ((r : Assignment) → (f r).id ≡ r.id)
    → (rs : List Assignment) {r : Assignment} → find? (λ x. x.id == i) rs ≡ some r
    → is_finished r.status ≡ true
    → find? (λ x. x.id == i) (update_where p f rs) ≡ some r
find?-update_unfinished i p f safe keep [] e h = cc
find?-update_unfinished i p f safe keep (x ∷ xs) {r} e h =
    ground (arith, safe x, keep x, find?-update_unfinished i p f safe keep xs {r = r})

module _ (i : AssignmentId) (s : AssignmentStatus) (rows : List Assignment) where
  update-finished :
      (p : Assignment → Bool) (f : Assignment → Assignment)
      → ((r : Assignment) → p r ≡ true → is_finished r.status ≡ false)
      → ((r : Assignment) → (f r).id ≡ r.id)
      → IsFinishedAs i s rows
      → IsFinishedAs i s (update_where p f rows)
  update-finished p f safe keep (r, at, status, fin) =
      (r, find?-update_unfinished i p f safe keep rows at (rw status fin), status, fin)

  other-finished :
      (j : AssignmentId) (f : Assignment → Assignment)
      → ((r : Assignment) → (f r).id ≡ r.id)
      → (j == i) ≡ false
      → IsFinishedAs i s rows
      → IsFinishedAs i s (update_where (λ r. r.id == j) f rows)
  other-finished j f keep ne (r, at, status, fin) =
      (r, find?-update_other j i f keep ne rows ∙ at, status, fin)

  -- An assignment whose row is not finished is another one.
  not_same :
      (j : AssignmentId) (r : Assignment)
      → find? (λ x. x.id == j) rows ≡ some r
      → is_finished r.status ≡ false
      → IsFinishedAs i s rows
      → (j == i) ≡ false
  not_same j r found going (t, at, status, fin) = elim (Bool-cases (j == i)) [
    | inr ne ↦ ne
    | inl same ↦
        let e : j ≡ i = ground arith in
        let q : find? (λ x. x.id == i) rows ≡ some r =
          ap (λ k. find? (λ x. x.id == k) rows) (sym e) ∙ found in
        ground arith
  ]

claim-finished :
    (req : Request) (a : AgentId) (j i : AssignmentId) (s : AssignmentStatus) (db : Db)
    → IsFinishedAs i s db.assignments
    → IsFinishedAs i s (claim req a j db).0.assignments
claim-finished req a j i s db v = elim (claim_cases req a j db) [
  | inl e ↦ subst (IsFinishedAs i s) (sym e) v
  | inr e ↦ subst (IsFinishedAs i s) (sym e) (
      update-finished i s db.assignments (is_open j) (handed_to req.now a) (λ r h. ground arith)
        (λ r. refl) v)
]

rows_after-finished :
    (now : ℕ) (j i : AssignmentId) (next : AssignmentStatus) (result sha : Option Text)
    (s : AssignmentStatus) (db : Db)
    → (j == i) ≡ false
    → IsFinishedAs i s db.assignments
    → IsFinishedAs i s (rows_after now j next result sha db)
rows_after-finished now j i next result sha s db ne v =
    let rows = update_where (λ r. r.id == j) (updated now next result sha) db.assignments in
    let w : IsFinishedAs i s rows =
      other-finished i s db.assignments j (updated now next result sha)
        (λ r. updated-id now next result sha r) ne v in
    elim (Bool-cases (is_completed next)) [
      | inl e ↦
          rw e
            (update-finished i s rows (waits_for j) unblocked (λ r h. ground arith) (λ r. refl) w)
      | inr e ↦ rw e w
    ]

handle_update-finished :
    (now : ℕ) (j i : AssignmentId) (next : AssignmentStatus) (result sha : Option Text)
    (s : AssignmentStatus) (db : Db)
    → IsFinishedAs i s db.assignments
    → IsFinishedAs i s (handle_update now j next result sha db).0.assignments
handle_update-finished now j i next result sha s db v =
    elim (handle_update_cases now j next result sha db) [
      | inl refused ↦
          subst (IsFinishedAs i s) (sym (ap (λ (x : Db × Reply). x.0.assignments) refused)) v
      | inr p ↦
          let going = transition-unfinished p.row.status next p.allowed in
          subst (IsFinishedAs i s) (sym p.rows) (
            rows_after-finished now j i next result sha s db
              (not_same i s db.assignments j p.row p.found going v) v)
    ]

pub data Call : Type 0 where
  claims : Request → AgentId → AssignmentId → Call
  updates : ℕ → AssignmentId → AssignmentStatus → Option Text → Option Text → Call
  reassigns : ℕ → AssignmentId → Option AgentId → Option Text → Call
  gives_up : ℕ → AssignmentId → Option Text → Option Mode → Call

abbrev pub step : Call → Db → Db
step (claims req a i) db = (claim req a i db).0
step (updates now i next result sha) db = (handle_update now i next result sha db).0
step (reassigns now i target name) db = (reassign now i target name db).0
step (gives_up now i reason mode) db = (fail_voluntarily now i reason mode db).0

abbrev pub run : List Call → Db → Db
run [] db = db
run (c ∷ cs) db = run cs (step c db)

step-finished :
    (c : Call) (i : AssignmentId) (s : AssignmentStatus) (db : Db)
    → IsFinishedAs i s db.assignments
    → IsFinishedAs i s (step c db).assignments
step-finished (claims req a j) i s db v = claim-finished req a j i s db v
step-finished (updates now j next result sha) i s db v =
    handle_update-finished now j i next result sha s db v
step-finished (reassigns now j target name) i s db v = elim (reassign_cases now j db target name) [
  | inl e ↦ subst (IsFinishedAs i s) (sym e) v
  | inr (r, f, found, going, keep, e) ↦
      subst (IsFinishedAs i s) (sym e) (
        other-finished i s db.assignments j f keep (not_same i s db.assignments j r found going v)
          v)
]
step-finished (gives_up now j reason mode) i s db v = elim (fail_cases now j db reason mode) [
  | inl e ↦ subst (IsFinishedAs i s) (sym e) v
  | inr (r, f, found, going, keep, e) ↦
      subst (IsFinishedAs i s) (sym e) (
        other-finished i s db.assignments j f keep (not_same i s db.assignments j r found going v)
          v)
]

-- An assignment that is completed or failed keeps that status, whatever claims, updates, reassignments
-- and voluntary failures of any assignments follow.
pub finished_is_final :
    (cs : List Call) (i : AssignmentId) (s : AssignmentStatus) (db : Db)
    → IsFinishedAs i s db.assignments
    → IsFinishedAs i s (run cs db).assignments
finished_is_final [] i s db v = v
finished_is_final (c ∷ cs) i s db v =
    finished_is_final cs i s (step c db) (step-finished c i s db v)
