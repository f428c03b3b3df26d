-- ===== src/Base/Tables.antt =====
-- A table is the list of its rows in insertion order; the statements of SQL that the code uses.
use Prim.Native.Nat.{ℕ, suc, ◌≤◌, ◌<◌}
use mathlib.Core.Path.{◌≡◌, refl}
use mathlib.Core.Logic.{inl, inr}
use mathlib.Core.Bool.{Bool, true, false, ◌&&◌, ◌||◌}
use mathlib.Core.List.{List, [], ◌∷◌, ◌++◌}
use mathlib.Core.Option.{Option, none, some}
use native.Mathlib.Omega.{arith}
use agent_working_memory.Base.Tests.{if◌then◌else◌, Bool-cases}
use agent_working_memory.Base.Lists.{All}

module _ {ℓ} {A : Type ℓ} where
  -- `SELECT … WHERE p`.
  abbrev pub select : (A → Bool) → List A → List A
  select p [] = []
  select p (x ∷ xs) = if p x then x ∷ select p xs else select p xs

  -- `SELECT … WHERE p LIMIT 1`, in the order of the rows.
  abbrev pub find? : (A → Bool) → List A → Option A
  find? p [] = none
  find? p (x ∷ xs) = if p x then some x else find? p xs

  abbrev pub any : (A → Bool) → List A → Bool
  any p [] = false
  any p (x ∷ xs) = p x || any p xs

  -- `UPDATE … SET f WHERE p`.
  abbrev pub update_where : (A → Bool) → (A → A) → List A → List A
  update_where p f [] = []
  update_where p f (x ∷ xs) = (if p x then f x else x) ∷ update_where p f xs

  -- `DELETE … WHERE p`.
  abbrev pub delete_where : (A → Bool) → List A → List A
  delete_where p [] = []
  delete_where p (x ∷ xs) = if p x then delete_where p xs else x ∷ delete_where p xs

  -- The number of rows at which a statement applies: `changes`, or `COUNT(*)`.
  abbrev pub count_where : (A → Bool) → List A → ℕ
  count_where p [] = 0
  count_where p (x ∷ xs) = if p x then suc (count_where p xs) else count_where p xs

  -- No row that a DELETE names is left.
  pub any-delete_where : (p : A → Bool) (xs : List A) → any p (delete_where p xs) ≡ false
  any-delete_where p [] = refl
  any-delete_where p (x ∷ xs) = ground (arith, any-delete_where p xs)

  pub find?-sound : (p : A → Bool) (xs : List A) {a : A} → find? p xs ≡ some a → p a ≡ true
  find?-sound p [] h = cc
  find?-sound p (x ∷ xs) {a} h = ground (arith, find?-sound p xs {a = a})

  pub All-find? {κ} :
      (P : A → Type κ) (p : A → Bool) (xs : List A) {a : A} → All P xs → find? p xs ≡ some a → P a
  All-find? P p [] h e = cc
  All-find? P p (x ∷ xs) {a} h e = elim (Bool-cases (p x)) [
    | inl t ↦ let s : x ≡ a = ground arith in rw (← s) h.0
    | inr f ↦ All-find? P p xs h.1 (ground arith)
  ]

  -- An UPDATE that neither changes which rows a test names nor touches those rows leaves the test's
  -- first row.
  pub find?-update_where_other :
      (q p : A → Bool) (f : A → A)
      → ((x : A) → p x ≡ true → q x ≡ false)
      → ((x : A) → p x ≡ true → q (f x) ≡ false)
      → (xs : List A) → find? q (update_where p f xs) ≡ find? q xs
  find?-update_where_other q p f h k [] = refl
  find?-update_where_other q p f h k (x ∷ xs) =
      ground (arith, h x, k x, find?-update_where_other q p f h k xs)

  -- What holds of all rows holds after an UPDATE that keeps it.
  pub All-update_where {κ} :
      (P : A → Type κ) (p : A → Bool) (f : A → A)
      → ((x : A) → P x → p x ≡ true → P (f x))
      → (xs : List A) → All P xs
      → All P (update_where p f xs)
  All-update_where P p f keep [] h = tt
  All-update_where P p f keep (x ∷ xs) h = elim (Bool-cases (p x)) [
    | inl e ↦ (rw e (keep x h.0 e), All-update_where P p f keep xs h.1)
    | inr e ↦ (rw e h.0, All-update_where P p f keep xs h.1)
  ]

  pub All-delete_where {κ} :
      (P : A → Type κ) (p : A → Bool) (xs : List A) → All P xs → All P (delete_where p xs)
  All-delete_where P p [] h = tt
  All-delete_where P p (x ∷ xs) h = elim (Bool-cases (p x)) [
    | inl e ↦ rw e (All-delete_where P p xs h.1)
    | inr e ↦ rw e (h.0, All-delete_where P p xs h.1)
  ]

  -- An UPDATE takes a property of all rows to another one, if it does so at the rows that it changes
  -- and at those that it leaves.
  pub All-update_where_to {κ μ} :
      (P : A → Type κ) (Q : A → Type μ) (p : A → Bool) (f : A → A)
      → ((x : A) → P x → p x ≡ true → Q (f x))
      → ((x : A) → P x → p x ≡ false → Q x)
      → (xs : List A) → All P xs
      → All Q (update_where p f xs)
  All-update_where_to P Q p f yes_case no_case [] h = tt
  All-update_where_to P Q p f yes_case no_case (x ∷ xs) h = elim (Bool-cases (p x)) [
    | inl e ↦ (rw e (yes_case x h.0 e), All-update_where_to P Q p f yes_case no_case xs h.1)
    | inr e ↦ (rw e (no_case x h.0 e), All-update_where_to P Q p f yes_case no_case xs h.1)
  ]

  -- The first row that a test names, where the UPDATE keeps what the test reads.
  pub find?-update_where_self :
      (p : A → Bool) (f : A → A)
      → ((x : A) → p x ≡ true → p (f x) ≡ true)
      → (xs : List A) {r : A} → find? p xs ≡ some r
      → find? p (update_where p f xs) ≡ some (f r)
  find?-update_where_self p f h [] e = cc
  find?-update_where_self p f h (x ∷ xs) {r} e =
      ground (arith, h x, find?-update_where_self p f h xs {r = r})

  pub any_of_All-false : (p : A → Bool) (xs : List A) → All (λ x. p x ≡ false) xs → any p xs ≡ false
  any_of_All-false p [] h = refl
  any_of_All-false p (x ∷ xs) h = ground (arith, any_of_All-false p xs h.1)

  pub All-of_any-false : (p : A → Bool) (xs : List A) → any p xs ≡ false → All (λ x. p x ≡ false) xs
  All-of_any-false p [] h = tt
  All-of_any-false p (x ∷ xs) h = (ground arith, All-of_any-false p xs (ground arith))

  pub All-trivial {κ} : (P : A → Type κ) → ((x : A) → P x) → (xs : List A) → All P xs
  All-trivial P f [] = tt
  All-trivial P f (x ∷ xs) = (f x, All-trivial P f xs)

  pub any-append_false :
      (p : A → Bool) (xs : List A) (x : A)
      → any p xs ≡ false
      → p x ≡ false
      → any p (xs ++ x ∷ []) ≡ false
  any-append_false p [] x h k = ground arith
  any-append_false p (y ∷ ys) x h k = ground (arith, any-append_false p ys x)

  pub any-select : (q p : A → Bool) (xs : List A) → any q (select p xs) ≡ any (λ x. p x && q x) xs
  any-select q p [] = refl
  any-select q p (x ∷ xs) = ground (arith, any-select q p xs)

  -- A DELETE never adds to a count, and takes from it where it names a row that counts.
  pub count_where-delete_where-le :
      (p q : A → Bool) (xs : List A) → count_where p (delete_where q xs) ≤ count_where p xs
  count_where-delete_where-le p q [] = omega arith
  count_where-delete_where-le p q (x ∷ xs) = ground (arith, count_where-delete_where-le p q xs)

  pub count_where-delete_where-lt :
      (p q : A → Bool) (xs : List A)
      → any (λ x. p x && q x) xs ≡ true
      → count_where p (delete_where q xs) < count_where p xs
  count_where-delete_where-lt p q [] h = cc
  count_where-delete_where-lt p q (x ∷ xs) h =
      ground (arith, count_where-delete_where-lt p q xs, count_where-delete_where-le p q xs)

  pub count_where-none : (p : A → Bool) (xs : List A) → select p xs ≡ [] → count_where p xs ≡ 0
  count_where-none p [] h = refl
  count_where-none p (x ∷ xs) h = ground (arith, count_where-none p xs)
