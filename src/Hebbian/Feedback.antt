-- ===== src/Hebbian/Feedback.antt =====
-- What a feedback takes from the pending updates.
use agent_working_memory.Base.{
  ℕ, ◌≡◌, refl, Bool, true, false, not, ◌&&◌, List, [], ◌∷◌, select, any, All, All-map, Text,
  text_eq, text_eq_iff, text_eq_refl, Bool-cases, inl, inr, arith, ap, sym, subst, ◌+◌, ◌++◌, ◌∙◌,
  leb, All-append,
}
use mathlib.Core.List.{append_assoc}
use agent_working_memory.Hebbian.Pairs.{same_pair, IsPlain, same_pair-key, key-same_pair}
use agent_working_memory.Hebbian.{
  Pair, Update, has_id, is_expired, is_matched, matching, key, unique, resolve_feedback,
}
use agent_working_memory.Hebbian.Unique.{
  IsUnique, unique-IsUnique, has_key, unique_complete, unique-All,
}

-- No pair comes twice, in the same direction or in the other.
abbrev pub IsApart : List Pair → Type 0
IsApart [] = Unit
IsApart (p ∷ ps) = All (λ q. same_pair q p ≡ false) ps × IsApart ps

differs : (p q : Pair) → text_eq (key q) (key p) ≡ false → same_pair q p ≡ false
differs p q h = elim (Bool-cases (same_pair q p)) [
  | inr f ↦ f
  | inl t ↦ let e = (text_eq_iff (key q) (key p)).1 (same_pair-key q p t) in cc (h, e)
]

IsUnique-IsApart : (ps : List Pair) → IsUnique ps → IsApart ps
IsUnique-IsApart [] u = tt
IsUnique-IsApart (p ∷ ps) u = (
  All-map (λ q. text_eq (key q) (key p) ≡ false) (λ q. same_pair q p ≡ false) (λ q h. differs p q h)
      ps u.0,
  IsUnique-IsApart ps u.1,
)

-- The pair or its reverse is among the pairs.
abbrev pub is_among : Pair → List Pair → Bool
is_among p qs = any (λ q. same_pair q p) qs

has_key-is_among :
    (p : Pair) (qs : List Pair)
    → IsPlain p
    → All IsPlain qs
    → has_key p qs ≡ true
    → is_among p qs ≡ true
has_key-is_among p [] plain all h = cc
has_key-is_among p (q ∷ qs) plain all h = elim (Bool-cases (text_eq (key q) (key p))) [
  | inl e ↦
      let same = key-same_pair q p all.0 plain ((text_eq_iff (key q) (key p)).0 e) in rw same refl
  | inr e ↦ let rest = has_key-is_among p qs plain all.1 (rw e at h) in ground (arith, rest)
]

-- The update is of the last minute and names the engram.
abbrev pub is_meant : ℕ → Text → Update → Bool
is_meant now i u = leb now (u.timestamp + 60000) && any (λ j. text_eq j i) u.engram_ids

meant-is_matched : (now : ℕ) (i : Text) (u : Update) → is_matched now i u ≡ is_meant now i u
meant-is_matched now i u = ground arith

matching-All :
    (P : Pair → Type 0) (now : ℕ) (i : Text) (us : List Update)
    → All (λ v. All P v.pairs) us
    → All P (matching now i us)
matching-All P now i [] h = tt
matching-All P now i (u ∷ us) h = elim (Bool-cases (is_matched now i u)) [
  | inl e ↦ rw e (All-append P u.pairs (matching now i us) h.0 (matching-All P now i us h.1))
  | inr e ↦ rw e (matching-All P now i us h.1)
]

All-first : (P : Pair → Type 0) (xs ys : List Pair) → All P (xs ++ ys) → All P xs
All-first P [] ys h = tt
All-first P (x ∷ xs) ys h = (h.0, All-first P xs ys h.1)

All-second : (P : Pair → Type 0) (xs ys : List Pair) → All P (xs ++ ys) → All P ys
All-second P [] ys h = h
All-second P (x ∷ xs) ys h = All-second P xs ys h.1

-- What holds of all pairs that a feedback is about holds of those of each update that it is about.
matching-update :
    (P : Pair → Type 0) (now : ℕ) (i : Text) (before : List Update) (u : Update)
    (after : List Update)
    → is_matched now i u ≡ true
    → All P (matching now i (before ++ u ∷ after))
    → All P u.pairs
matching-update P now i [] u after e h = All-first P u.pairs (matching now i after) (rw e at h)
matching-update P now i (v ∷ before) u after e h = elim (Bool-cases (is_matched now i v)) [
  | inl f ↦
      matching-update P now i before u after e
        (All-second P v.pairs (matching now i (before ++ u ∷ after)) (rw f at h))
  | inr f ↦ matching-update P now i before u after e (rw f at h)
]

-- Both: what holds with one and with the other.
All-both :
    (P Q R : Pair → Type 0)
    → ((p : Pair) → P p → Q p → R p)
    → (ps : List Pair) → All P ps
    → All Q ps
    → All R ps
All-both P Q R f [] h k = tt
All-both P Q R f (p ∷ ps) h k = (f p h.0 k.0, All-both P Q R f ps h.1 k.1)

unique_kept : (ps : List Pair) → All IsPlain ps → All (λ p. is_among p (unique [] ps) ≡ true) ps
unique_kept ps plain =
    All-both IsPlain (λ p. has_key p (unique [] ps) ≡ true) (λ p. is_among p (unique [] ps) ≡ true)
      (λ p h k. has_key-is_among p (unique [] ps) h (unique-All IsPlain [] ps plain) k) ps plain
      (unique_complete [] ps)

-- A pending update that a feedback is about records the pair.
abbrev pub is_recorded : ℕ → Text → Pair → List Update → Bool
is_recorded now i p us = any (λ u. is_meant now i u && any (λ q. same_pair q p) u.pairs) us

same_pair_refl : (p : Pair) → same_pair p p ≡ true
same_pair_refl (a, b) = rw (text_eq_refl a, text_eq_refl b) refl

among_itself : (ps qs : List Pair) → All (λ p. is_among p (qs ++ ps) ≡ true) ps
among_itself [] qs = tt
among_itself (p ∷ ps) qs = (
  in_middle p qs ps,
  subst (λ rs. All (λ q. is_among q rs ≡ true) ps) (append_assoc qs (p ∷ []) ps)
      (among_itself ps (qs ++ p ∷ [])),
)
  where
    in_middle : (p : Pair) (qs ps : List Pair) → is_among p (qs ++ p ∷ ps) ≡ true
    in_middle p [] ps = rw (same_pair_refl p) refl
    in_middle p (q ∷ qs) ps = let rest = in_middle p qs ps in ground (arith, rest)

matching-is_recorded :
    (now : ℕ) (i : Text) (us : List Update)
    → All (λ p. is_recorded now i p us ≡ true) (matching now i us)
matching-is_recorded now i [] = tt
matching-is_recorded now i (u ∷ us) =
    let later =
      All-map (λ p. is_recorded now i p us ≡ true) (λ p. is_recorded now i p (u ∷ us) ≡ true)
        (λ p h. ground arith) (matching now i us) (matching-is_recorded now i us) in
    elim (Bool-cases (is_matched now i u)) [
      | inl e ↦
          let meant = sym (meant-is_matched now i u) ∙ e in
          rw e (
            All-append (λ p. is_recorded now i p (u ∷ us) ≡ true) u.pairs (matching now i us)
              (All-map (λ p. is_among p u.pairs ≡ true) (λ p. is_recorded now i p (u ∷ us) ≡ true)
                (λ p h. ground (arith, meant)) u.pairs (among_itself u.pairs []))
              later)
      | inr e ↦ rw e later
    ]

-- A feedback on an engram yields no pair twice, in whichever direction it was recorded; it yields only pairs of
-- updates of the last minute that name the engram; and it loses no pair of such an update, if no id has a colon.
pub resolved_pairs :
    (now : ℕ) (i : Text) (useful : Bool) (before : List Update) (u : Update) (after : List Update)
    → All (λ v. All IsPlain v.pairs) (before ++ u ∷ after)
    → is_meant now i u ≡ true
    → IsApart (resolve_feedback now i useful (before ++ u ∷ after)).1.pairs
      × All
          (λ p. is_recorded now i p (before ++ u ∷ after) ≡ true)
          (resolve_feedback now i useful (before ++ u ∷ after)).1.pairs
      × All
          (λ p. is_among p (resolve_feedback now i useful (before ++ u ∷ after)).1.pairs ≡ true)
          u.pairs
unfolding resolve_feedback
resolved_pairs now i useful before u after plain meant =
    let found = matching now i (before ++ u ∷ after) in
    (
      IsUnique-IsApart (unique [] found) (unique-IsUnique [] found),
      unique-All (λ p. is_recorded now i p (before ++ u ∷ after) ≡ true) [] found
          (matching-is_recorded now i (before ++ u ∷ after)),
      matching-update (λ p. is_among p (unique [] found) ≡ true) now i before u after
          (meant-is_matched now i u ∙ meant)
          (unique_kept found (matching-All IsPlain now i (before ++ u ∷ after) plain)),
    )

matching_none :
    (now later : ℕ) (i : Text) (us : List Update)
    → matching later i (select (λ u. not (is_expired now u) && not (has_id i u.engram_ids)) us) ≡ []
matching_none now later i [] = refl
matching_none now later i (u ∷ us) = ground (arith, matching_none now later i us)

-- A feedback consumes what it is about: a second feedback on the same engram, at any time, on the
-- updates that the first one left, finds no pair.
pub feedback_consumed :
    (now later : ℕ) (i : Text) (useful again : Bool) (pending : List Update)
    → (resolve_feedback later i again (resolve_feedback now i useful pending).0).1.pairs ≡ []
unfolding resolve_feedback unique
feedback_consumed now later i useful again pending =
    ap (unique []) (matching_none now later i pending)
