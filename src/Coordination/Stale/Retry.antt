-- ===== src/Coordination/Stale/Retry.antt =====
-- How often an assignment is retried.
use agent_working_memory.Base.{
  ℕ, suc, ◌+◌, ◌≤◌, ◌<◌, ◌≡◌, refl, false, Option, none, some, List, [], ◌∷◌, ◌++◌, Text, arith,
  ltb, ◌==◌, All, length, find?, update_where, Bool-cases, ◌⊎◌, All-update_where,
  find?-update_where_self, find?-update_where_other, inl, inr,
}
use agent_working_memory.Coordination.Schema.{
  AgentId, AssignmentId, Assignment, Mode, Db, assignment_row, pending, failed, AssignmentStatus,
}
use agent_working_memory.Coordination.Stale.{
  max_retry_attempts, returned, abandoned, retry_or_fail, attempts_of, description_of, hint_block,
  mode_or,
}

module _ (now : ℕ) (i : AssignmentId) (agent : Option AgentId) (reason : Text) (given : Option Mode)
    (db : Db) where
  -- The row that a retry writes.
  abbrev retried_row : Assignment → Assignment
  retried_row =
      let n = attempts_of (assignment_row i db) + 1 in
      let mode = mode_or given reason in
      returned n mode (description_of (assignment_row i db) ++ hint_block n mode)

  abbrev failed_row : Assignment → Assignment
  failed_row = abandoned now (mode_or given reason) reason

  -- The two branches, as UPDATEs of the assignments.
  pub retry_cases :
      ((attempts_of (assignment_row i db) ≤ 2)
        × ((retry_or_fail now i agent reason given db).0.assignments
            ≡ update_where (λ r. r.id == i) retried_row db.assignments))
      ⊎ ((3 ≤ attempts_of (assignment_row i db))
          × ((retry_or_fail now i agent reason given db).0.assignments
              ≡ update_where (λ r. r.id == i) failed_row db.assignments))
  unfolding retry_or_fail
  retry_cases = elim (Bool-cases (ltb (attempts_of (assignment_row i db)) max_retry_attempts)) [
    | inl e ↦ inl (ground arith, rw e)
    | inr e ↦ inr (ground arith, rw e)
  ]

abbrev pub IsWithinRetries : Assignment → Type 0
IsWithinRetries r = r.attempt_count ≤ max_retry_attempts

-- If no row's attempt count is above three, none is after a failure of any assignment.
pub retry_or_fail_bounded :
    (now : ℕ) (i : AssignmentId) (agent : Option AgentId) (reason : Text) (given : Option Mode)
    (db : Db)
    → All IsWithinRetries db.assignments
    → All IsWithinRetries (retry_or_fail now i agent reason given db).0.assignments
retry_or_fail_bounded now i agent reason given db v =
    elim (retry_cases now i agent reason given db) [
      | inl (few, e) ↦ rw e (
          All-update_where IsWithinRetries (λ r. r.id == i)
            (retried_row now i agent reason given db) (λ r w _. omega arith) db.assignments v)
      | inr (many, e) ↦ rw e (
          All-update_where IsWithinRetries (λ r. r.id == i) (failed_row now i agent reason given db)
            (λ r w _. w) db.assignments v)
    ]

pub find?-update_other :
    (i j : AssignmentId) (f : Assignment → Assignment)
    → ((r : Assignment) → (f r).id ≡ r.id)
    → (i == j) ≡ false
    → (rs : List Assignment)
    → find? (λ r. r.id == j) (update_where (λ r. r.id == i) f rs) ≡ find? (λ r. r.id == j) rs
find?-update_other i j f keep ne rs =
    find?-update_where_other (λ r. r.id == j) (λ r. r.id == i) f (λ r h. ground arith)
      (λ r h. ground (arith, keep r)) rs

-- The other assignments' rows stay.
pub retry_or_fail_other :
    (now : ℕ) (i j : AssignmentId) (agent : Option AgentId) (reason : Text) (given : Option Mode)
    (db : Db)
    → (i == j) ≡ false
    → assignment_row j (retry_or_fail now i agent reason given db).0 ≡ assignment_row j db
retry_or_fail_other now i j agent reason given db ne =
    elim (retry_cases now i agent reason given db) [
      | inl (few, e) ↦ rw e (find?-update_other i j _ (λ r. refl) ne db.assignments)
      | inr (many, e) ↦ rw e (find?-update_other i j _ (λ r. refl) ne db.assignments)
    ]

pub record Failure : Type 0 where
  pub time : ℕ
  pub agent : Option AgentId
  pub reason : Text
  pub given : Option Mode

-- The assignment fails again and again, handed out or not between the failures.
abbrev pub fail_all : AssignmentId → List Failure → Db → Db
fail_all i [] db = db
fail_all i (f ∷ fs) db = fail_all i fs (retry_or_fail f.time i f.agent f.reason f.given db).0

-- What a failure makes of a row with attempts left, and of one with none.
abbrev pub IsReturned : ℕ → Option Assignment → Type 0
IsReturned n none = ⊥
IsReturned n (some r) = (r.status ≡ pending) × (r.agent_id ≡ none) × (r.attempt_count ≡ n)

abbrev IsFailed : Option Assignment → Type 0
IsFailed none = ⊥
IsFailed (some r) = r.status ≡ failed

retry_or_fail_row :
    (f : Failure) (i : AssignmentId) (db : Db) {r : Assignment}
    → assignment_row i db ≡ some r
    → (s : Assignment) × (assignment_row i (retry_or_fail f.time i f.agent f.reason f.given db).0
        ≡ some s)
      × (r.attempt_count < 3 → IsReturned (suc r.attempt_count) (some s))
      × (3 ≤ r.attempt_count → s.status ≡ failed)
retry_or_fail_row f i db {r} e = elim (retry_cases f.time i f.agent f.reason f.given db) [
  | inl (few, u) ↦ (
    retried_row f.time i f.agent f.reason f.given db r,
    rw u (find?-update_where_self _ _ (λ x h. h) db.assignments e),
    λ h. (refl, refl, ground arith),
    λ h. absurd (ground arith),
  )
  | inr (many, u) ↦ (
    failed_row f.time i f.agent f.reason f.given db r,
    rw u (find?-update_where_self _ _ (λ x h. h) db.assignments e),
    λ h. absurd (ground arith),
    λ h. refl,
  )
]

abbrev IsFree : Assignment → Type 0
IsFree r = (r.status ≡ pending) × (r.agent_id ≡ none)

fail_all_row :
    (i : AssignmentId) (fs : List Failure) (db : Db) {r : Assignment}
    → assignment_row i db ≡ some r
    → r.attempt_count + length fs ≤ 3
    → (s : Assignment) × (assignment_row i (fail_all i fs db) ≡ some s)
      × (s.attempt_count ≡ r.attempt_count + length fs)
      × ((0 < length fs) ⊎ IsFree r → IsFree s)
fail_all_row i [] db {r} e h =
    (r, e, omega arith, λ z. elim z [ inl l ↦ absurd (omega arith) | inr free ↦ free ])
fail_all_row i (f ∷ fs) db {r} e h =
    let (s, at, early, late) = retry_or_fail_row f i db e in
    let (p, q, n) = early (omega arith) in
    let (t, at', m, free) =
      fail_all_row i fs (retry_or_fail f.time i f.agent f.reason f.given db).0 at (omega arith) in
    (t, at', omega arith, λ _. free (inr (p, q)))

abbrev pub HasStatus : AssignmentStatus → Option Assignment → Type 0
HasStatus s none = ⊥
HasStatus s (some r) = r.status ≡ s

-- An assignment without an attempt is handed back three times and no more: after one to three failures it is pending,
-- of no agent, with that many attempts counted, and at the fourth it has failed. What the failures say, whose
-- they are and when they come does not matter.
pub four_failures :
    (i : AssignmentId) (fs : List Failure) (last : Failure) (db : Db) {r : Assignment}
    → assignment_row i db ≡ some r
    → r.attempt_count ≡ 0
    → (0 < length fs → length fs ≤ 3 → IsReturned (length fs) (assignment_row i (fail_all i fs db)))
      × (length fs ≡ 3
          → HasStatus failed (
              assignment_row i
                (retry_or_fail last.time i last.agent last.reason last.given (fail_all i fs db)).0))
four_failures i fs last db {r} e z = (
  λ h k.
      let (s, at, n, free) = fail_all_row i fs db e (omega arith) in
      rw at ((free (inl h)).0, (free (inl h)).1, omega arith),
  λ h.
      let (s, at, n, free) = fail_all_row i fs db e (omega arith) in
      let (t, at', early, late) = retry_or_fail_row last i (fail_all i fs db) at in
      rw at' (late (omega arith)),
)
