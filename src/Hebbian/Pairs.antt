-- ===== src/Hebbian/Pairs.antt =====
-- When two pairs of src/core/hebbian.ts are the same, and what their keys say of it.
use agent_working_memory.Base.{
  ◌≡◌, ◌⊎◌, refl, sym, ap, ◌∙◌, Bool, true, false, ◌&&◌, ◌||◌, [], ◌∷◌, ◌++◌, any, Text, text_eq,
  text_eq_iff, text_eq_refl, text_lt, ◌==◌, Bool-cases, inl, inr, arith,
}
use agent_working_memory.Hebbian.{Pair, key}

-- The same two engrams, in either direction.
abbrev pub same_pair : Pair → Pair → Bool
same_pair (a, b) (c, d) = (text_eq a c && text_eq b d) || (text_eq a d && text_eq b c)

-- A UUID has no colon.
abbrev pub has_colon : Text → Bool
has_colon s = any (λ c. c == b':') s

abbrev pub IsPlain : Pair → Type 0
IsPlain p = (has_colon p.0 ≡ false) × (has_colon p.1 ≡ false)

text_lt_asym : (s t : Text) → text_lt s t ≡ true → text_lt t s ≡ false
unfolding text_lt
text_lt_asym s [] h = cc
text_lt_asym [] (b ∷ t) h = refl
text_lt_asym (a ∷ s) (b ∷ t) h = ground (arith, text_lt_asym s t)

text_lt_connex : (s t : Text) → text_lt s t ≡ false → text_lt t s ≡ false → s ≡ t
unfolding text_lt
text_lt_connex [] [] h k = refl
text_lt_connex [] (b ∷ t) h k = cc
text_lt_connex (a ∷ s) [] h k = cc
text_lt_connex (a ∷ s) (b ∷ t) h k = ground (arith, text_lt_connex s t)

key_swap : (a b : Text) → key (a, b) ≡ key (b, a)
key_swap a b = elim (Bool-cases (text_lt a b)) [
  | inl e ↦ rw (e, text_lt_asym a b e) refl
  | inr e ↦ elim (Bool-cases (text_lt b a)) [
    | inl f ↦ rw (e, f) refl
    | inr f ↦ let same = text_lt_connex a b e f in rw same refl
  ]
]

-- A pair and its reverse have one key.
pub same_pair-key : (p q : Pair) → same_pair p q ≡ true → key p ≡ key q
same_pair-key (a, b) (c, d) h = elim (Bool-cases (text_eq a c && text_eq b d)) [
  | inl e ↦
      let x : a ≡ c = (text_eq_iff a c).0 (ground arith) in
      let y : b ≡ d = (text_eq_iff b d).0 (ground arith) in
      ap (λ (k : Text). key (k, b)) x ∙ ap (λ (k : Text). key (c, k)) y
  | inr f ↦
      let x : a ≡ d = (text_eq_iff a d).0 (ground arith) in
      let y : b ≡ c = (text_eq_iff b c).0 (ground arith) in
      key_swap a b ∙ ap (λ (k : Text). key (k, a)) y ∙ ap (λ (k : Text). key (c, k)) x
]

-- A text before its first colon, and the text behind it.
colon_cut :
    (a b c d : Text)
    → has_colon a ≡ false
    → has_colon c ≡ false
    → a ++ b':' ∷ b ≡ c ++ b':' ∷ d
    → (a ≡ c) × (b ≡ d)
colon_cut [] b [] d h k e = (refl, ground arith)
colon_cut [] b (y ∷ c) d h k e = absurd (ground arith)
colon_cut (x ∷ a) b [] d h k e = absurd (ground arith)
colon_cut (x ∷ a) b (y ∷ c) d h k e =
    let r = colon_cut a b c d (ground arith) (ground arith) (ground arith) in
    (ground (arith, r.0), r.1)

-- The key with its parts in order.
key_cases : (a b : Text) → (key (a, b) ≡ a ++ b':' ∷ b) ⊎ (key (a, b) ≡ b ++ b':' ∷ a)
key_cases a b = elim (Bool-cases (text_lt a b)) [
  | inl e ↦ inl (rw e refl)
  | inr e ↦ inr (rw e refl)
]

straight : (a b c d : Text) → (a ≡ c) × (b ≡ d) → same_pair (a, b) (c, d) ≡ true
straight a b c d (x, y) = rw (x, y, text_eq_refl c, text_eq_refl d) refl

crossed : (a b c d : Text) → (a ≡ d) × (b ≡ c) → same_pair (a, b) (c, d) ≡ true
crossed a b c d (x, y) =
    let u = text_eq_refl d in let v = text_eq_refl c in rw (x, y) (ground (arith, u, v))

-- Pairs of one key are the same, if no id has a colon.
pub key-same_pair : (p q : Pair) → IsPlain p → IsPlain q → key p ≡ key q → same_pair p q ≡ true
key-same_pair (a, b) (c, d) (pa, pb) (pc, pd) e = elim (key_cases a b) [
  | inl x ↦ elim (key_cases c d) [
    | inl y ↦ straight a b c d (colon_cut a b c d pa pc (sym x ∙ e ∙ y))
    | inr y ↦ crossed a b c d (colon_cut a b d c pa pd (sym x ∙ e ∙ y))
  ]
  | inr x ↦ elim (key_cases c d) [
    | inl y ↦ let r = colon_cut b a c d pb pc (sym x ∙ e ∙ y) in crossed a b c d (r.1, r.0)
    | inr y ↦ let r = colon_cut b a d c pb pd (sym x ∙ e ∙ y) in straight a b c d (r.1, r.0)
  ]
]
