-- ===== src/Vault/Handles/Reading.antt =====
-- The ids that `vaultIdsIn` of src/core/vault.ts finds where a handle stands in a text.
use agent_working_memory.Base.{
  ℕ, zero, ◌-◌, ◌≤◌, ◌≡◌, refl, ap, ◌∙◌, Bool, true, false, not, none, some, [], ◌∷◌, ◌++◌, length,
  drop, all, Text, ◌==◌, arith, length-append,
}
use agent_working_memory.Vault.{handle_text, is_empty}
use agent_working_memory.Vault.Handles.{
  strip_prefix, is_type_char, is_tail_char, is_hex, match_handle, ids_from, vault_ids_in,
}
use agent_working_memory.Vault.Handles.Matching.{match_handle_lem}

-- The rest of a match is passed over.
ids_from-skip : (u s : Text) → ids_from (length u) (u ++ s) ≡ ids_from zero s
unfolding ids_from
ids_from-skip [] s = refl
ids_from-skip (c ∷ u) [] = ids_from-skip u []
ids_from-skip (c ∷ u) (d ∷ s) = ids_from-skip u (d ∷ s)

ids_from-match :
    (c : ℕ) (u id rest : Text)
    → match_handle (c ∷ u ++ rest) ≡ some (id, rest)
    → ids_from zero (c ∷ u ++ rest) ≡ id ∷ ids_from zero rest
unfolding ids_from
ids_from-match c u id rest e =
    let n : length (u ++ rest) - length rest ≡ length u = omega (arith, length-append {0} u rest) in
    rw (ids_from, e, n) (ap (◌∷◌ id) (ids_from-skip u rest))

abbrev pub is_plain : ℕ → Bool
is_plain c = not (c == b'[')

-- Text without an opening bracket holds no handle.
match_handle-other : (c : ℕ) (s : Text) → (c == b'[') ≡ false → match_handle (c ∷ s) ≡ none
unfolding match_handle strip_prefix
match_handle-other c s h = ground arith

pub ids_from-plain :
    (pre s : Text) → all is_plain pre ≡ true → ids_from zero (pre ++ s) ≡ ids_from zero s
unfolding ids_from
ids_from-plain [] s h = refl
ids_from-plain (c ∷ pre) s h =
    rw (ids_from, match_handle-other c (pre ++ s) (ground arith))
      (ids_from-plain pre s (ground arith))

-- The id of every handle that a sealed value's type, last characters and id make is found again, where
-- the type is letters and underscores, the last characters are none, or up to four without white
-- space, `#` and `]`, and the id is twelve hexadecimal digits: in a text without `[` before the
-- handle, whatever follows it, the ids are that id and those of what follows.
pub vault_ids_in-handle_text :
    (pre ty l4 id rest : Text)
    → all is_plain pre ≡ true
    → is_empty ty ≡ false
    → all is_type_char ty ≡ true
    → length l4 ≤ 4
    → all is_tail_char l4 ≡ true
    → length id ≡ 12
    → all is_hex id ≡ true
    → vault_ids_in (pre ++ (handle_text ty l4 id ++ rest)) ≡ id ∷ vault_ids_in rest
unfolding vault_ids_in
vault_ids_in-handle_text pre [] l4 id rest p e t n q l h = cc
vault_ids_in-handle_text pre (c ∷ ty) l4 id rest p e t n q l h =
    ids_from-plain pre (handle_text (c ∷ ty) l4 id ++ rest) p ∙ found
  where
    found : ids_from zero (handle_text (c ∷ ty) l4 id ++ rest) ≡ id ∷ ids_from zero rest
    found =
        unfold handle_text in
        ids_from-match b'[' (drop 1 (handle_text (c ∷ ty) l4 id)) id rest
          (match_handle_lem c ty l4 id rest t q n h l)
