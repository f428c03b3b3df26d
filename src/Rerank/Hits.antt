-- ===== src/Rerank/Hits.antt =====
-- Where the terms of a query occur, in src/core/rerank-window.ts, and that the search for them ends.
use agent_working_memory.Base.{
  ℕ, zero, suc, ◌+◌, ◌-◌, ◌≤◌, ◌<◌, ◌≡◌, refl, sym, ap, ◌∙◌, subst, Bool, true, false, none, some,
  List, [], ◌∷◌, ◌++◌, length, drop, any, All, All-append, All-map, length-drop, select, Text,
  starts_with, includes, Bool-cases, Option-cases, inl, inr, arith, is_some, text_eq,
}
use agent_working_memory.Rerank.{index_of, index_of_from, occurrences, hits_of, terms, once, words}

starts_with-length : (t s : Text) → starts_with t s ≡ true → length t ≤ length s
unfolding starts_with
starts_with-length [] s h = omega arith
starts_with-length (a ∷ t) [] h = cc
starts_with-length (a ∷ t) (c ∷ s) h = ground (arith, starts_with-length t s)

index_of_sound :
    (t s : Text) {i : ℕ}
    → index_of t s ≡ some i
    → (starts_with t (drop i s) ≡ true) × (i + length t ≤ length s)
unfolding index_of
index_of_sound t [] {i} h = elim (Bool-cases (starts_with t [])) [
  | inl e ↦ let z : 0 ≡ i = ground arith in rw (← z) (e, omega (arith, starts_with-length t [] e))
  | inr e ↦ absurd (ground arith)
]
index_of_sound t (c ∷ s) {i} h = elim (Bool-cases (starts_with t (c ∷ s))) [
  | inl e ↦
      let z : 0 ≡ i = ground arith in rw (← z) (e, omega (arith, starts_with-length t (c ∷ s) e))
  | inr e ↦ elim (Option-cases (index_of t s)) [
    | inl n ↦ absurd (ground arith)
    | inr (j, f) ↦
        let z : suc j ≡ i = ground arith in
        let (g, l) = index_of_sound t s f in rw (← z) (g, omega arith)
  ]
]

index_of-includes : (t s : Text) → is_some (index_of t s) ≡ includes t s
unfolding index_of includes
index_of-includes t [] = ground arith
index_of-includes t (c ∷ s) = ground (arith, index_of-includes t s)

drop-nil : (n : ℕ) → drop {A = ℕ} n [] ≡ []
drop-nil zero = refl
drop-nil (suc n) = refl

drop-drop : (n i : ℕ) (s : Text) → drop i (drop n s) ≡ drop (n + i) s
drop-drop zero i s = let z : i ≡ 0 + i = omega arith in ap (λ (k : ℕ). drop k s) z
drop-drop (suc n) i [] = drop-nil i ∙ sym (drop-nil (suc n + i))
drop-drop (suc n) i (c ∷ s) =
    let z : suc (n + i) ≡ suc n + i = omega arith in
    drop-drop n i s ∙ ap (λ (k : ℕ). drop k (c ∷ s)) z

index_of_from_sound :
    (t s : Text) (from : ℕ) {i : ℕ}
    → from ≤ length s
    → index_of_from t s from ≡ some i
    → (starts_with t (drop i s) ≡ true) × (i + length t ≤ length s) × (from ≤ i)
unfolding index_of_from
index_of_from_sound t s from {i} b h = elim (Option-cases (index_of t (drop from s))) [
  | inl n ↦ absurd (ground arith)
  | inr (j, f) ↦
      let z : from + j ≡ i = ground arith in
      let (g, l) = index_of_sound t (drop from s) f in
      rw (← z) (
        subst (λ u. starts_with t u ≡ true) (drop-drop from j s) g,
        omega (arith, length-drop from s),
        omega arith,
      )
]

occurrences-found :
    (fuel : ℕ) (t s : Text) (from : ℕ) {i : ℕ} {is : List ℕ}
    → index_of_from t s from ≡ some i
    → occurrences fuel t s (i + length t) ≡ some is
    → occurrences (suc fuel) t s from ≡ some (i ∷ is)
unfolding occurrences
occurrences-found fuel t s from f e = rw (occurrences, f, e) refl

occurrences_end :
    (fuel : ℕ) (t s : Text) (from : ℕ)
    → index_of_from t s from ≡ none
    → occurrences (suc fuel) t s from ≡ some []
unfolding occurrences
occurrences_end fuel t s from n = rw (occurrences, n) refl

hits_of-found :
    (fuel : ℕ) (t : Text) (ts : List Text) (s : Text) {is js : List ℕ}
    → occurrences fuel t s 0 ≡ some is
    → hits_of fuel ts s ≡ some js
    → hits_of fuel (t ∷ ts) s ≡ some (is ++ js)
unfolding hits_of
hits_of-found fuel t ts s e f = rw (hits_of, e, f) refl

-- The loop ends, and every position that it finds is one at which the term stands.
occurrences_total :
    (fuel : ℕ) (t s : Text) (from : ℕ)
    → 0 < length t
    → from ≤ length s
    → length s - from < fuel
    → (is : List ℕ) × (occurrences fuel t s from ≡ some is)
      × All (λ i. starts_with t (drop i s) ≡ true) is
unfolding occurrences
occurrences_total zero t s from p b l = absurd (omega arith)
occurrences_total (suc fuel) t s from p b l = elim (Option-cases (index_of_from t s from)) [
  | inl n ↦ ([], occurrences_end fuel t s from n, tt)
  | inr (i, f) ↦
      let (g, k, m) = index_of_from_sound t s from b f in
      let (is, e, a) = occurrences_total fuel t s (i + length t) p (omega arith) (omega arith) in
      (i ∷ is, occurrences-found fuel t s from f e, (g, a))
]

-- No term stands anywhere exactly if nothing is found.
occurrences-none : (fuel : ℕ) (t s : Text) → occurrences fuel t s 0 ≡ some [] → includes t s ≡ false
unfolding occurrences index_of_from
occurrences-none zero t s h = absurd (cc)
occurrences-none (suc fuel) t s h = elim (Option-cases (index_of t s)) [
  | inl n ↦ ground (arith, index_of-includes t s)
  | inr (i, f) ↦ elim (Option-cases (occurrences fuel t s (0 + i + length t))) [
    | inl m ↦ absurd (ground arith)
    | inr (is, m) ↦ absurd (ground arith)
  ]
]

abbrev pub stands : List Text → Text → ℕ → Bool
stands ts s i = any (λ t. starts_with t (drop i s)) ts

pub hits_of_total :
    (fuel : ℕ) (ts : List Text) (s : Text)
    → All (λ t. 0 < length t) ts
    → length s < fuel
    → (is : List ℕ) × (hits_of fuel ts s ≡ some is) × All (λ i. stands ts s i ≡ true) is
unfolding hits_of
hits_of_total fuel [] s p l = ([], refl, tt)
hits_of_total fuel (t ∷ ts) s p l =
    let (is, e, a) = occurrences_total fuel t s 0 p.0 (omega arith) (omega arith) in
    let (js, f, b) = hits_of_total fuel ts s p.1 l in
    (
      is ++ js,
      hits_of-found fuel t ts s e f,
      All-append (λ i. stands (t ∷ ts) s i ≡ true) is js
          (All-map (λ i. starts_with t (drop i s) ≡ true) (λ i. stands (t ∷ ts) s i ≡ true)
            (λ i h. ground arith) is a)
          (All-map (λ i. stands ts s i ≡ true) (λ i. stands (t ∷ ts) s i ≡ true)
            (λ i h. ground arith) js b),
    )

append_empty : (is js : List ℕ) → is ++ js ≡ [] → (is ≡ []) × (js ≡ [])
append_empty [] js h = (refl, h)
append_empty (i ∷ is) js h = absurd (cc)

pub hits_of-none :
    (fuel : ℕ) (ts : List Text) (s : Text)
    → hits_of fuel ts s ≡ some []
    → any (λ t. includes t s) ts ≡ false
unfolding hits_of
hits_of-none fuel [] s h = refl
hits_of-none fuel (t ∷ ts) s h = elim (Option-cases (occurrences fuel t s 0)) [
  | inl m ↦ absurd (ground arith)
  | inr (is, m) ↦ elim (Option-cases (hits_of fuel ts s)) [
    | inl n ↦ absurd (ground arith)
    | inr (js, n) ↦
        let (p, q) = append_empty is js (ground arith) in
        ground
          (arith, occurrences-none fuel t s (m ∙ ap some p), hits_of-none fuel ts s (n ∙ ap some q))
  ]
]

All-select :
    (P : Text → Type 0) (p : Text → Bool)
    → ((t : Text) → p t ≡ true → P t)
    → (ts : List Text) → All P (select p ts)
All-select P p f [] = tt
All-select P p f (t ∷ ts) = elim (Bool-cases (p t)) [
  | inl e ↦ rw e (f t e, All-select P p f ts)
  | inr e ↦ rw e (All-select P p f ts)
]

All-once : (P : Text → Type 0) (seen ts : List Text) → All P ts → All P (once seen ts)
unfolding once
All-once P seen [] h = tt
All-once P seen (t ∷ ts) h = elim (Bool-cases (any (λ u. text_eq u t) seen)) [
  | inl e ↦ rw e (All-once P (t ∷ seen) ts h.1)
  | inr e ↦ rw e (h.0, All-once P (t ∷ seen) ts h.1)
]

-- A term is not empty.
pub All-terms : (lower : Text → Text) (query : Text) → All (λ t. 0 < length t) (terms lower query)
unfolding terms
All-terms lower query =
    All-once (λ t. 0 < length t) [] _
      (All-select (λ t. 0 < length t) _ (λ t h. ground arith) (words zero (lower query)))
