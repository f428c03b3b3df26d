-- ===== src/Vault/Opening.antt =====
-- What comes back from the vault of src/core/vault.ts: by the id of a handle, and by the ids in a text.
use agent_working_memory.Base.{
  ℕ, ◌-◌, ◌≤◌, ◌≡◌, refl, sym, ap, ◌∙◌, subst, Bool, true, false, none, some, List, [], ◌∷◌, ◌++◌,
  Text, any, all, take, length, find?, find?-sound, All-find?, text_eq_iff, text_eq_refl,
  Bool-cases, inl, inr, arith, ◌⊎◌, all-take, length-take, length-drop, leb,
}
use agent_working_memory.Vault.{
  Crypto, Row, Vault, seal, open_item, open_row, has_id, has_fingerprint, row_of, normalise_id,
  new_row, handle_of, last_four, is_empty,
}
use agent_working_memory.Vault.Handles.{is_hex, is_type_char, is_tail_char, vault_ids_in}
use agent_working_memory.Vault.Handles.Reading.{is_plain, vault_ids_in-handle_text}
use agent_working_memory.Vault.Sealing.{
  IsSound, IsValid, IsSealed, normalise_id-hex, find?-own_id, seal-cases, append-IsValid,
}

find?-append :
    (q : Row → Bool) (rs : List Row) (r : Row)
    → find? q rs ≡ none
    → q r ≡ true
    → find? q (rs ++ r ∷ []) ≡ some r
find?-append q [] r n t = rw t refl
find?-append q (x ∷ xs) r n t = ground (arith, find?-append q xs r)

length-last_four : (value : Text) → length (last_four value) ≤ 4
length-last_four value = elim (Bool-cases (leb 12 (length value))) [
  | inl e ↦ rw e (omega (arith, length-drop (length value - 4) value))
  | inr e ↦ rw e (omega arith)
]

module _ (crypto : Crypto) where
  seal-found :
      (value type label iv : Text) (now : ℕ) (v : Vault) {r : Row}
      → find? (has_fingerprint (crypto.fingerprint value)) v.items ≡ some r
      → seal crypto value type label iv now v ≡ some (v, handle_of r)
  unfolding seal
  seal-found value type label iv now v e = rw (seal, e) refl

  -- Sealing a value that is sealed already, whatever its kind, label, initial bytes and time, gives the same handle and
  -- changes nothing.
  pub seal-seal :
      (value type label iv type' label' iv' : Text) (now now' : ℕ) (v : Vault) {w : Vault}
      {h : Text}
      → seal crypto value type label iv now v ≡ some (w, h)
      → seal crypto value type' label' iv' now' w ≡ some (w, h)
  unfolding seal
  seal-seal value type label iv type' label' iv' now now' v {w} {h} e =
      elim (seal-cases crypto value type label iv now v e) [
        | inl (r, f, p, q) ↦
            seal-found value type' label' iv' now' w {r = r} (rw p f)
            ∙ ap (λ t. some (w, t)) (sym q)
        | inr (f, n, p, q) ↦
            seal-found value type' label' iv' now' w {r = new_row crypto value type label iv now} (
              rw p (
                find?-append (has_fingerprint (crypto.fingerprint value)) v.items
                  (new_row crypto value type label iv now) f
                  (text_eq_refl (crypto.fingerprint value))))
            ∙ ap (λ t. some (w, t)) (sym q)
      ]

module _ (crypto : Crypto) (sound : IsSound crypto) where
  id_of-hex : (value : Text) → all is_hex (take 12 (crypto.fingerprint value)) ≡ true
  id_of-hex value = all-take is_hex 12 (crypto.fingerprint value) (sound.hexadecimal value)

  row_of-own :
      (q : Row → Bool) (v : Vault) {r : Row}
      → IsValid crypto v
      → find? q v.items ≡ some r
      → row_of r.id v ≡ some r
  row_of-own q v {r} a e =
      let (x, o, p, d) = All-find? (IsSealed crypto) q v.items a.sealed e in
      let n : normalise_id r.id ≡ r.id =
        normalise_id-hex r.id
          (subst (λ t. all is_hex t ≡ true) (ap (take 12) p ∙ sym d) (id_of-hex x)) in
      subst (λ t. find? (has_id t) v.items ≡ some r) (sym n) (find?-own_id q v.items a.own_ids e)

  open_item-row :
      (id : Text) (v : Vault) {r : Row}
      → row_of id v ≡ some r
      → open_item crypto id v ≡ open_row crypto r
  unfolding open_item
  open_item-row id v e = rw (open_item, e) refl

  new_row-found :
      (value type label iv : Text) (now : ℕ) (v : Vault)
      → IsValid crypto v
      → find? (has_fingerprint (crypto.fingerprint value)) v.items ≡ none
      → any (has_id (take 12 (crypto.fingerprint value))) v.items ≡ false
      → row_of
          (take 12 (crypto.fingerprint value))
          (record { items = v.items ++ new_row crypto value type label iv now ∷ []; known = none })
        ≡ some (new_row crypto value type label iv now)
  new_row-found value type label iv now v a f n =
      row_of-own (has_fingerprint (crypto.fingerprint value)) _
        (append-IsValid crypto sound value type label iv now v a n)
        (find?-append (has_fingerprint (crypto.fingerprint value)) v.items
          (new_row crypto value type label iv now) f (text_eq_refl (crypto.fingerprint value)))

  -- Where `seal` does not fail, its handle is that of an item, which opens by its id to a value with the fingerprint of
  -- the sealed one, and to the value itself unless there was an item with that fingerprint before.
  pub open_item-seal :
      (value type label iv : Text) (now : ℕ) (v : Vault) {w : Vault} {h : Text}
      → IsValid crypto v
      → seal crypto value type label iv now v ≡ some (w, h)
      → (r : Row) × (x : Text) × (h ≡ handle_of r)
        × (row_of r.id w ≡ some r)
        × (open_item crypto r.id w ≡ some x)
        × (crypto.fingerprint x ≡ crypto.fingerprint value)
        × ((x ≡ value) ⊎ (find? (has_fingerprint (crypto.fingerprint value)) v.items ≡ some r))
  open_item-seal value type label iv now v {w} {h} a e =
      elim (seal-cases crypto value type label iv now v e) [
        | inl (r, f, p, q) ↦
            let (x, o, k, d) =
              All-find? (IsSealed crypto) (has_fingerprint (crypto.fingerprint value)) v.items
                a.sealed f in
            let n : row_of r.id v ≡ some r =
              row_of-own (has_fingerprint (crypto.fingerprint value)) v a f in
            (
              r,
              x,
              q,
              rw p n,
              rw p (open_item-row r.id v n ∙ o),
              k
                  ∙ (text_eq_iff r.fingerprint (crypto.fingerprint value)).0
                      (find?-sound (has_fingerprint (crypto.fingerprint value)) v.items f),
              inr f,
            )
        | inr (f, n, p, q) ↦
            let m = new_row-found value type label iv now v a f n in
            (
              new_row crypto value type label iv now,
              value,
              q,
              rw p m,
              rw p (open_item-row (take 12 (crypto.fingerprint value)) _ m ∙ sound.opens iv value),
              refl,
              inl refl,
            )
      ]

  -- A new value's handle, put into a text that has no `[` before it, leads back to the value: its id is the
  -- first that is found in the text, before those of what follows, and opens to the value. The type is letters
  -- and underscores, and the last four characters, where the value has twelve, hold no white space, `#` or `]`.
  pub vault_ids_in-seal :
      (value type label iv pre rest : Text) (now : ℕ) (v : Vault) {w : Vault} {h : Text}
      → IsValid crypto v
      → find? (has_fingerprint (crypto.fingerprint value)) v.items ≡ none
      → is_empty type ≡ false
      → all is_type_char type ≡ true
      → all is_tail_char (last_four value) ≡ true
      → all is_plain pre ≡ true
      → seal crypto value type label iv now v ≡ some (w, h)
      → (id : Text) × (vault_ids_in (pre ++ (h ++ rest)) ≡ id ∷ vault_ids_in rest)
        × (open_item crypto id w ≡ some value)
  vault_ids_in-seal value type label iv pre rest now v {w} {h} a f ne ty tl pl e =
      elim (seal-cases crypto value type label iv now v e) [
        | inl (r, g, p, q) ↦ absurd (cc)
        | inr (g, n, p, q) ↦
            let id : Text = take 12 (crypto.fingerprint value) in
            (
              id,
              rw q (
                  vault_ids_in-handle_text pre type (last_four value) id rest pl ne ty
                    (length-last_four value) tl
                    (length-take 12 (crypto.fingerprint value) (sound.long value))
                    (id_of-hex value)),
              rw p (
                  open_item-row id _ (new_row-found value type label iv now v a f n)
                  ∙ sound.opens iv value),
            )
      ]
