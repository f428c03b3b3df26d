-- ===== src/Hebbian/Unique.antt =====
-- What the loop of src/core/hebbian.ts that keeps the first pair of each key keeps.
use agent_working_memory.Base.{
  ◌≡◌, refl, Bool, true, false, ◌||◌, List, [], ◌∷◌, any, All, All-map, Text, text_eq, text_eq_iff,
  text_eq_refl, Bool-cases, inl, inr, arith, sym, subst,
}
use agent_working_memory.Hebbian.{Pair, has_id, key, unique}

-- No two of the pairs have the same key.
abbrev pub IsUnique : List Pair → Type 0
IsUnique [] = Unit
IsUnique (p ∷ ps) = All (λ q. text_eq (key q) (key p) ≡ false) ps × IsUnique ps

unique_seen :
    (seen : List Text) (p : Pair) (ps : List Pair)
    → has_id (key p) seen ≡ true
    → unique seen (p ∷ ps) ≡ unique seen ps
unfolding unique
unique_seen seen p ps e = rw e refl

unique_new :
    (seen : List Text) (p : Pair) (ps : List Pair)
    → has_id (key p) seen ≡ false
    → unique seen (p ∷ ps) ≡ p ∷ unique (key p ∷ seen) ps
unfolding unique
unique_new seen p ps e = rw e refl

unique_end : (seen : List Text) → unique seen [] ≡ []
unfolding unique
unique_end seen = refl

unseen_differs :
    (seen : List Text) (s t : Text)
    → has_id t seen ≡ true
    → has_id s seen ≡ false
    → text_eq s t ≡ false
unseen_differs seen s t h e = elim (Bool-cases (text_eq s t)) [
  | inl same ↦ let k = (text_eq_iff s t).0 same in cc (h, e, k)
  | inr other ↦ other
]

-- A key that was seen does not come again.
unique_unseen :
    (t : Text) (seen : List Text) (ps : List Pair)
    → has_id t seen ≡ true
    → All (λ q. text_eq (key q) t ≡ false) (unique seen ps)
unique_unseen t seen [] h = subst (All (λ q. text_eq (key q) t ≡ false)) (sym (unique_end seen)) tt
unique_unseen t seen (p ∷ ps) h = elim (Bool-cases (has_id (key p) seen)) [
  | inl e ↦
      subst (All (λ q. text_eq (key q) t ≡ false)) (sym (unique_seen seen p ps e))
        (unique_unseen t seen ps h)
  | inr e ↦
      subst (All (λ q. text_eq (key q) t ≡ false)) (sym (unique_new seen p ps e))
        (unseen_differs seen (key p) t h e, unique_unseen t (key p ∷ seen) ps (ground arith))
]

pub unique-IsUnique : (seen : List Text) (ps : List Pair) → IsUnique (unique seen ps)
unique-IsUnique seen [] = subst IsUnique (sym (unique_end seen)) tt
unique-IsUnique seen (p ∷ ps) = elim (Bool-cases (has_id (key p) seen)) [
  | inl e ↦ subst IsUnique (sym (unique_seen seen p ps e)) (unique-IsUnique seen ps)
  | inr e ↦ subst IsUnique (sym (unique_new seen p ps e)) (
    unique_unseen (key p) (key p ∷ seen) ps (ground (arith, text_eq_refl (key p))),
    unique-IsUnique (key p ∷ seen) ps,
  )
]

-- A pair of the same key is among the pairs.
abbrev pub has_key : Pair → List Pair → Bool
has_key p qs = any (λ q. text_eq (key q) (key p)) qs

-- Nothing is lost: each pair's key was seen or is among those that are kept.
pub unique_complete :
    (seen : List Text) (ps : List Pair)
    → All (λ p. (has_id (key p) seen || has_key p (unique seen ps)) ≡ true) ps
unique_complete seen [] = tt
unique_complete seen (p ∷ ps) = elim (Bool-cases (has_id (key p) seen)) [
  | inl e ↦
      subst (λ u. All (λ q. (has_id (key q) seen || has_key q u) ≡ true) (p ∷ ps))
        (sym (unique_seen seen p ps e)) (ground arith, unique_complete seen ps)
  | inr e ↦
      subst (λ u. All (λ q. (has_id (key q) seen || has_key q u) ≡ true) (p ∷ ps))
        (sym (unique_new seen p ps e))
        (
          ground (arith, text_eq_refl (key p)),
          All-map
              (λ q. (has_id (key q) (key p ∷ seen) || has_key q (unique (key p ∷ seen) ps)) ≡ true)
              (λ q. (has_id (key q) seen || has_key q (p ∷ unique (key p ∷ seen) ps)) ≡ true)
              (λ q h. ground arith) ps (unique_complete (key p ∷ seen) ps),
        )
]

-- What holds of every pair holds of those that are kept.
pub unique-All :
    (P : Pair → Type 0) (seen : List Text) (ps : List Pair) → All P ps → All P (unique seen ps)
unique-All P seen [] h = subst (All P) (sym (unique_end seen)) tt
unique-All P seen (p ∷ ps) h = elim (Bool-cases (has_id (key p) seen)) [
  | inl e ↦ subst (All P) (sym (unique_seen seen p ps e)) (unique-All P seen ps h.1)
  | inr e ↦ subst (All P) (sym (unique_new seen p ps e)) (h.0, unique-All P (key p ∷ seen) ps h.1)
]
