-- ===== src/Vault/Handles/Refusing.antt =====
-- Handles of src/core/vault.ts in which `vaultIdsIn` finds no id.
use agent_working_memory.Base.{
  ℕ, zero, suc, ◌≤◌, ◌<◌, ◌≡◌, refl, sym, ap, ◌∙◌, Bool, true, false, none, [], ◌∷◌, ◌++◌, length,
  take, drop, all, Text, codes, arith, Bool-cases, inl, inr, all-append, all_mono,
}
use mathlib.Core.List.{append_assoc, append-nil}
use agent_working_memory.Vault.{ellipsis, handle_text, is_empty}
use agent_working_memory.Vault.Handles.{
  strip_prefix, is_type_char, is_tail_char, is_hex, drop_up_to, closes, match_id, match_tail,
  match_type, match_handle, ids_from, vault_ids_in,
}
use agent_working_memory.Vault.Handles.Matching.{match_type-append, closing}
use agent_working_memory.Vault.Handles.Reading.{is_plain, ids_from-plain}

-- Where a class stops inside a text, what is left starts with a character outside it.
drop_up_to-stops :
    (n : ℕ) (p : ℕ → Bool) (u s : Text)
    → length u ≤ n
    → all p u ≡ false
    → (y : ℕ) × (w : Text) × (drop_up_to n p (u ++ s) ≡ y ∷ w ++ s)
      × (p y ≡ false)
      × (length w < length u)
unfolding drop_up_to
drop_up_to-stops n p [] s l e = cc
drop_up_to-stops zero p (x ∷ u) s l e = absurd (omega arith)
drop_up_to-stops (suc n) p (x ∷ u) s l e = elim (Bool-cases (p x)) [
  | inr f ↦ (x, u, rw f refl, f, omega arith)
  | inl t ↦
      let (y, w, q, f, m) = drop_up_to-stops n p u s (omega arith) (ground arith) in
      (y, w, rw t q, f, omega arith)
]

closes-refused : (id s : Text) → all is_hex id ≡ false → closes id s ≡ none
unfolding closes
closes-refused id [] e = refl
closes-refused id (c ∷ s) e = ground arith

match_id-refused : (y : ℕ) (w s : Text) → length w ≤ 2 → match_id (y ∷ w ++ b' ' ∷ b'#' ∷ s) ≡ none
unfolding match_id strip_prefix
match_id-refused y [] s n = ground arith
match_id-refused y (a ∷ []) s n =
    ground (arith, closes-refused (take 12 (b' ' ∷ b'#' ∷ s)) (drop 12 (b' ' ∷ b'#' ∷ s)) refl)
match_id-refused y (a ∷ b ∷ []) s n =
    let t : Text = b ∷ b' ' ∷ b'#' ∷ s in
    ground (arith, closes-refused (take 12 t) (drop 12 t) (ground arith))
match_id-refused y (a ∷ b ∷ c ∷ w) s n = absurd (omega arith)

match_tail-refused :
    (c : ℕ) (l4 s : Text)
    → length (c ∷ l4) ≤ 4
    → all is_tail_char (c ∷ l4) ≡ false
    → match_tail (b' ' ∷ ellipsis ∷ c ∷ l4 ++ b' ' ∷ b'#' ∷ s) ≡ none
unfolding match_tail strip_prefix
match_tail-refused c l4 s n q = elim (Bool-cases (is_tail_char c)) [
  | inr f ↦ rw f refl
  | inl t ↦
      let (y, w, e, f, m) =
        drop_up_to-stops 3 is_tail_char l4 (b' ' ∷ b'#' ∷ s) (omega arith) (ground arith) in
      rw (t, e) (match_id-refused y w s (omega arith))
]

handle_text-closing :
    (ty l4 id : Text) → handle_text ty l4 id ≡ codes "[VAULT:" ++ (ty ++ closing l4 id [])
unfolding handle_text closing
handle_text-closing ty l4 id = simp append_assoc

type_char_plain : (c : ℕ) → is_type_char c ≡ true → is_plain c ≡ true
type_char_plain c h = ground arith

closing_plain :
    (l4 id : Text)
    → all is_plain l4 ≡ true
    → all is_plain id ≡ true
    → all is_plain (closing l4 id []) ≡ true
unfolding closing
closing_plain [] id p r = all-append is_plain id (codes "]") r refl
closing_plain (c ∷ l4) id p r =
    all-append is_plain (c ∷ l4 ++ codes " #") (id ++ codes "]")
      (all-append is_plain (c ∷ l4) (codes " #") p refl) (all-append is_plain id (codes "]") r refl)

-- A sealed value whose last four characters hold white space, `#` or `]` has a handle in which no id is
-- found, where these characters are one to four and hold no `[`, the type is letters and underscores and the
-- id holds no `[`.
pub vault_ids_in-unread :
    (ty l4 id : Text)
    → is_empty ty ≡ false
    → all is_type_char ty ≡ true
    → length l4 ≤ 4
    → all is_tail_char l4 ≡ false
    → all is_plain l4 ≡ true
    → all is_plain id ≡ true
    → vault_ids_in (handle_text ty l4 id) ≡ []
unfolding vault_ids_in
vault_ids_in-unread [] l4 id e t n q p r = cc
vault_ids_in-unread (k ∷ ty) [] id e t n q p r = cc
vault_ids_in-unread (k ∷ ty) (c ∷ l4) id e t n q p r =
    rw (handle_text-closing (k ∷ ty) (c ∷ l4) id) unread
  where
    behind : Text
    behind = closing (c ∷ l4) id []

    unmatched : match_type ((k ∷ ty) ++ behind) ≡ none
    unmatched =
        unfold closing in
        rw (append_assoc l4 (codes " #") (id ++ codes "]")) (
          match_type-append ty (ellipsis ∷ c ∷ l4 ++ (codes " #" ++ (id ++ codes "]"))) k t
          ∙ match_tail-refused c l4 (id ++ codes "]") n q)

    plain : all is_plain (codes "VAULT:" ++ ((k ∷ ty) ++ behind)) ≡ true
    plain =
        all-append is_plain (k ∷ ty) behind
          (all_mono is_type_char is_plain type_char_plain (k ∷ ty) t)
          (closing_plain (c ∷ l4) id p r)

    unread : ids_from zero (codes "[VAULT:" ++ ((k ∷ ty) ++ behind)) ≡ []
    unread =
        unfold match_handle in
        rw (ids_from, unmatched)
          (ap (ids_from zero) (sym (append-nil (codes "VAULT:" ++ ((k ∷ ty) ++ behind))))
            ∙ ids_from-plain (codes "VAULT:" ++ ((k ∷ ty) ++ behind)) [] plain)
