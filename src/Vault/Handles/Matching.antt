-- ===== src/Vault/Handles/Matching.antt =====
-- What each part of the pattern of `vaultIdsIn` in src/core/vault.ts makes of the text that `handleText` writes.
use agent_working_memory.Base.{
  ℕ, zero, suc, ◌≤◌, ◌≡◌, refl, ap, Bool, true, false, some, [], ◌∷◌, ◌++◌, length, take, drop, all,
  Text, codes, if◌then◌else◌, ==_refl, arith, and-true,
}
use mathlib.Core.List.{append_assoc}
use agent_working_memory.Vault.{ellipsis, handle_text, is_empty}
use agent_working_memory.Vault.Handles.{
  strip_prefix, is_type_char, is_tail_char, is_hex, drop_while, drop_up_to, closes, match_id,
  match_tail, match_type, match_handle,
}

strip_prefix-append : (p s : Text) → strip_prefix p (p ++ s) ≡ some s
unfolding strip_prefix
strip_prefix-append [] s = refl
strip_prefix-append (c ∷ p) s = ground (arith, ==_refl c, strip_prefix-append p s)

drop_while-append :
    (p : ℕ → Bool) (u : Text) (c : ℕ) (s : Text)
    → all p u ≡ true
    → p c ≡ false
    → drop_while p (u ++ c ∷ s) ≡ c ∷ s
unfolding drop_while
drop_while-append p [] c s h e = rw e refl
drop_while-append p (x ∷ u) c s h e = ground (arith, drop_while-append p u c s)

drop_up_to-append :
    (n : ℕ) (p : ℕ → Bool) (u : Text) (c : ℕ) (s : Text)
    → length u ≤ n
    → all p u ≡ true
    → p c ≡ false
    → drop_up_to n p (u ++ c ∷ s) ≡ c ∷ s
unfolding drop_up_to
drop_up_to-append zero p [] c s l h e = refl
drop_up_to-append zero p (x ∷ u) c s l h e = absurd (omega arith)
drop_up_to-append (suc n) p [] c s l h e = rw e refl
drop_up_to-append (suc n) p (x ∷ u) c s l h e = ground (arith, drop_up_to-append n p u c s)

take-append : (n : ℕ) (id s : Text) → length id ≡ n → take n (id ++ s) ≡ id
take-append zero [] s l = refl
take-append zero (c ∷ id) s l = absurd (omega arith)
take-append (suc n) [] s l = absurd (omega arith)
take-append (suc n) (c ∷ id) s l = ap (◌∷◌ c) (take-append n id s (omega arith))

drop-append : (n : ℕ) (id s : Text) → length id ≡ n → drop n (id ++ s) ≡ s
drop-append zero [] s l = refl
drop-append zero (c ∷ id) s l = absurd (omega arith)
drop-append (suc n) [] s l = absurd (omega arith)
drop-append (suc n) (c ∷ id) s l = drop-append n id s (omega arith)

pub match_id_lem :
    (id rest : Text)
    → all is_hex id ≡ true
    → length id ≡ 12
    → match_id (codes " #" ++ id ++ b']' ∷ rest) ≡ some (id, rest)
unfolding match_id closes strip_prefix
match_id_lem id rest h l =
    rw (take-append 12 id (b']' ∷ rest) l, drop-append 12 id (b']' ∷ rest) l, h, l) refl

pub match_tail_none :
    (id rest : Text)
    → all is_hex id ≡ true
    → length id ≡ 12
    → match_tail (codes " #" ++ id ++ b']' ∷ rest) ≡ some (id, rest)
unfolding match_tail
match_tail_none id rest h l = match_id_lem id rest h l

match_tail-some :
    (l4 id rest : Text) (c : ℕ)
    → all is_tail_char (c ∷ l4) ≡ true
    → length l4 ≤ 3
    → all is_hex id ≡ true
    → length id ≡ 12
    → match_tail (b' ' ∷ ellipsis ∷ c ∷ l4 ++ (codes " #" ++ (id ++ b']' ∷ rest))) ≡ some (id, rest)
unfolding match_tail strip_prefix
match_tail-some l4 id rest c t n h l =
    let (hc, hs) = and-true (is_tail_char c) (all is_tail_char l4) t in
    rw (hc, drop_up_to-append 3 is_tail_char l4 b' ' (b'#' ∷ id ++ b']' ∷ rest) n hs refl)
      (match_id_lem id rest h l)

-- What follows the type in a handle.
unfoldable pub closing : Text → Text → Text → Text
closing last4 id rest =
    (if is_empty last4 then codes " #" else b' ' ∷ ellipsis ∷ last4 ++ codes " #")
    ++ (id ++ b']' ∷ rest)

pub match_tail-closing :
    (l4 id rest : Text)
    → all is_tail_char l4 ≡ true
    → length l4 ≤ 4
    → all is_hex id ≡ true
    → length id ≡ 12
    → match_tail (closing l4 id rest) ≡ some (id, rest)
unfolding closing
match_tail-closing [] id rest t n h l = match_tail_none id rest h l
match_tail-closing (c ∷ l4) id rest t n h l =
    rw (append_assoc l4 (codes " #") (id ++ b']' ∷ rest))
      (match_tail-some l4 id rest c t (omega arith) h l)

closing-starts : (l4 id rest : Text) → (s : Text) × (closing l4 id rest ≡ b' ' ∷ s)
unfolding closing
closing-starts [] id rest = (b'#' ∷ id ++ b']' ∷ rest, refl)
closing-starts (c ∷ l4) id rest = (ellipsis ∷ c ∷ l4 ++ codes " #" ++ (id ++ b']' ∷ rest), refl)

pub match_type-append :
    (ty s : Text) (c : ℕ)
    → all is_type_char (c ∷ ty) ≡ true
    → match_type (c ∷ ty ++ b' ' ∷ s) ≡ match_tail (b' ' ∷ s)
unfolding match_type
match_type-append ty s c t =
    let (hc, hs) = and-true (is_type_char c) (all is_type_char ty) t in
    rw (hc, drop_while-append is_type_char ty b' ' s hs refl) refl

pub handle_text-append :
    (ty l4 id rest : Text)
    → handle_text ty l4 id ++ rest ≡ codes "[VAULT:" ++ (ty ++ closing l4 id rest)
unfolding handle_text closing
handle_text-append ty l4 id rest = simp append_assoc

pub match_handle_lem :
    (c : ℕ) (ty l4 id rest : Text)
    → all is_type_char (c ∷ ty) ≡ true
    → all is_tail_char l4 ≡ true
    → length l4 ≤ 4
    → all is_hex id ≡ true
    → length id ≡ 12
    → match_handle (handle_text (c ∷ ty) l4 id ++ rest) ≡ some (id, rest)
unfolding match_handle
match_handle_lem c ty l4 id rest t q n h l =
    let (s, e) = closing-starts l4 id rest in
    rw (handle_text-append (c ∷ ty) l4 id rest, e, match_type-append ty s c t, ← e)
      (match_tail-closing l4 id rest q n h l)
