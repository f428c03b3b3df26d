-- ===== src/Vault/Handles.antt =====
-- The handles in a text: `vaultIdsIn` of src/core/vault.ts, whose pattern is written out class by class.
pub mod Matching
pub mod Reading
pub mod Refusing
use agent_working_memory.Base.{
  ℕ, zero, suc, ◌+◌, ◌-◌, ◌≤◌, ◌<◌, ◌≡◌, ◌≢◌, refl, sym, ap, ◌∙◌, subst, Bool, true, false, not,
  ◌&&◌, ◌||◌, Option, none, some, List, [], ◌∷◌, ◌++◌, length, take, drop, all, Text, codes,
  is_space, if◌then◌else◌, ltb, leb, ◌==◌, ==_refl, arith, Bool-cases, inl, inr, length-append,
  all-append, all_mono, and-true, ◌⊎◌,
}
use mathlib.Core.List.{append_assoc, append-nil}
use agent_working_memory.Vault.{ellipsis, handle_text, is_empty}

-- The text behind a prefix.
unfoldable pub strip_prefix : Text → Text → Option Text
strip_prefix [] s = some s
strip_prefix (p ∷ ps) [] = none
strip_prefix (p ∷ ps) (c ∷ s) = let rest = strip_prefix ps s in if p == c then rest else none

-- `[a-z_]`, `[^\s#\]]` and `[0-9a-f]`.
abbrev pub is_type_char : ℕ → Bool
is_type_char c = (leb b'a' c && leb c b'z') || (c == b'_')

abbrev pub is_tail_char : ℕ → Bool
is_tail_char c = not (is_space c) && (not (c == b'#') && not (c == b']'))

abbrev pub is_hex : ℕ → Bool
is_hex c = (leb b'0' c && leb c b'9') || (leb b'a' c && leb c b'f')

-- What a class with `*` leaves, and one with `{0,n}`.
unfoldable pub drop_while : (ℕ → Bool) → Text → Text
drop_while p [] = []
drop_while p (c ∷ s) = let rest = drop_while p s in if p c then rest else c ∷ s

unfoldable pub drop_up_to : ℕ → (ℕ → Bool) → Text → Text
drop_up_to zero p s = s
drop_up_to (suc n) p [] = []
drop_up_to (suc n) p (c ∷ s) = let rest = drop_up_to n p s in if p c then rest else c ∷ s

-- ` #([0-9a-f]{12})\]`: the id and what follows the bracket.
pub closes : Text → Text → Option (Text × Text)
closes id [] = none
closes id (c ∷ s) =
    if (c == b']') && (all is_hex id && (length id == 12)) then some (id, s) else none

pub match_id : Text → Option (Text × Text)
unfolding strip_prefix closes
match_id s = elim (strip_prefix (codes " #") s) [
  | none ↦ none
  | some t ↦ closes (take 12 t) (drop 12 t)
]

-- ` …[^\s#\]]{1,4}`, or nothing.
pub match_tail : Text → Option (Text × Text)
unfolding strip_prefix drop_up_to match_id
match_tail s = elim (strip_prefix (b' ' ∷ ellipsis ∷ []) s) [
  | none ↦ match_id s
  | some [] ↦ none
  | some (c ∷ t) ↦ if is_tail_char c then match_id (drop_up_to 3 is_tail_char t) else none
]

pub match_type : Text → Option (Text × Text)
unfolding drop_while match_tail
match_type [] = none
match_type (c ∷ s) = if is_type_char c then match_tail (drop_while is_type_char s) else none

-- The pattern at the head of a text: the id, and what follows the match. No class of the pattern
-- contains a character that may follow it there, so that nothing is tried twice.
unfoldable pub match_handle : Text → Option (Text × Text)
unfolding strip_prefix match_type
match_handle s = elim (strip_prefix (codes "[VAULT:") s) [ none ↦ none | some t ↦ match_type t ]

-- `matchAll`: the rest of a match is passed over.
unfoldable pub ids_from : ℕ → Text → List Text
unfolding match_handle
ids_from skip [] = []
ids_from (suc skip) (c ∷ s) = ids_from skip s
ids_from zero (c ∷ s) = elim (match_handle (c ∷ s)) [
  | none ↦ ids_from zero s
  | some (id, rest) ↦ id ∷ ids_from (length s - length rest) s
]

unfoldable pub vault_ids_in : Text → List Text
unfolding ids_from
vault_ids_in s = ids_from zero s
