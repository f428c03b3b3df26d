-- ===== src/Vault/Sealing.antt =====
-- What sealing and opening of src/core/vault.ts give, over vaults whose rows were sealed and have ids of their own.
use agent_working_memory.Base.{
  ℕ, ◌≤◌, ◌≡◌, refl, sym, subst, Bool, true, false, not, none, some, List, [], ◌∷◌, ◌++◌, Text, All,
  any, all, take, length, find?, All-find?, update_where, delete_where, text_eq, text_eq_refl,
  if◌then◌else◌, Bool-cases, inl, inr, Option-cases, arith, ◌⊎◌, All-update_where, All-delete_where,
  All-append, trim-full, to_lower-full, all_mono, is_space, leb, ◌&&◌,
}
use agent_working_memory.Vault.{
  Crypto, Row, Vault, seal, open_row, known_secrets, allow_prefix, disallow_prefix, record_use,
  forget, set_allow, has_id, has_fingerprint, row_of, normalise_id, new_row, handle_of, drop_hash,
}
use agent_working_memory.Vault.Runs.{Op, kept, kept_first, step, run}
use agent_working_memory.Vault.Handles.{is_hex}

-- What the vault relies on: what is encrypted opens again, and a fingerprint is at least twelve
-- hexadecimal digits.
pub record IsSound (crypto : Crypto) : Type 0 where
  pub opens : (iv value : Text) → crypto.decrypt iv (crypto.encrypt iv value) ≡ some value
  pub hexadecimal : (value : Text) → all is_hex (crypto.fingerprint value) ≡ true
  pub long : (value : Text) → 12 ≤ length (crypto.fingerprint value)

hex_is_tight : (c : ℕ) → is_hex c ≡ true → not (is_space c) ≡ true
hex_is_tight c h = ground arith

hex_is_lower : (c : ℕ) → is_hex c ≡ true → not (leb b'A' c && leb c b'Z') ≡ true
hex_is_lower c h = ground arith

drop_hash-hex : (id : Text) → all is_hex id ≡ true → drop_hash id ≡ id
drop_hash-hex [] h = refl
drop_hash-hex (c ∷ id) h = ground arith

pub normalise_id-hex : (id : Text) → all is_hex id ≡ true → normalise_id id ≡ id
unfolding normalise_id
normalise_id-hex id h =
    rw
      (drop_hash-hex id h, trim-full id (all_mono is_hex (λ c. not (is_space c)) hex_is_tight id h))
      (to_lower-full id (all_mono is_hex (λ c. not (leb b'A' c && leb c b'Z')) hex_is_lower id h))

-- `id` is the primary key.
abbrev pub HasOwnIds : List Row → Type 0
HasOwnIds [] = Unit
HasOwnIds (r ∷ rs) = All (λ s. text_eq r.id s.id ≡ false) rs × HasOwnIds rs

pub find?-own_id :
    (q : Row → Bool) (rs : List Row) {r : Row}
    → HasOwnIds rs
    → find? q rs ≡ some r
    → find? (has_id r.id) rs ≡ some r
find?-own_id q [] o e = cc
find?-own_id q (x ∷ xs) {r} o e = elim (Bool-cases (q x)) [
  | inl t ↦ let s : x ≡ r = ground arith in rw (← s, text_eq_refl x.id) refl
  | inr f ↦
      let g : find? q xs ≡ some r = ground arith in
      rw (All-find? (λ y. text_eq x.id y.id ≡ false) q xs o.0 g) (find?-own_id q xs o.1 g)
]

module _ (crypto : Crypto) where
  -- A row opens to a value with its fingerprint, of which its id is the first twelve digits.
  abbrev pub IsSealed : Row → Type 0
  IsSealed r =
      (value : Text) × (open_row crypto r ≡ some value)
      × (crypto.fingerprint value ≡ r.fingerprint)
      × (r.id ≡ take 12 r.fingerprint)

  pub record IsValid (v : Vault) : Type 0 where
    pub sealed : All IsSealed v.items
    pub own_ids : HasOwnIds v.items

  HasOwnIds-append :
      (rs : List Row) (r : Row)
      → HasOwnIds rs
      → any (has_id r.id) rs ≡ false
      → HasOwnIds (rs ++ r ∷ [])
  HasOwnIds-append [] r o n = (tt, tt)
  HasOwnIds-append (x ∷ xs) r o n = (
    All-append (λ s. text_eq x.id s.id ≡ false) xs (r ∷ []) o.0 (ground arith, tt),
    HasOwnIds-append xs r o.1 (ground arith),
  )

  new_row-IsSealed :
      IsSound crypto
      → (value type label iv : Text) (now : ℕ) → IsSealed (new_row crypto value type label iv now)
  new_row-IsSealed c value type label iv now = (value, c.opens iv value, refl, refl)

  -- What `seal` has done where it does not fail: the value was there, or its row is new.
  pub seal-cases :
      (value type label iv : Text) (now : ℕ) (v : Vault) {w : Vault} {h : Text}
      → seal crypto value type label iv now v ≡ some (w, h)
      → ((r : Row) × (find? (has_fingerprint (crypto.fingerprint value)) v.items ≡ some r)
          × (w ≡ v)
          × (h ≡ handle_of r))
        ⊎ (find? (has_fingerprint (crypto.fingerprint value)) v.items ≡ none)
          × (any (has_id (take 12 (crypto.fingerprint value))) v.items ≡ false)
          × (w ≡ record {
            items = v.items ++ new_row crypto value type label iv now ∷ [];
            known = none;
          })
          × (h ≡ handle_of (new_row crypto value type label iv now))
  unfolding seal
  seal-cases value type label iv now v {w} {h} e =
      elim (Option-cases (find? (has_fingerprint (crypto.fingerprint value)) v.items)) [
        | inr (r, f) ↦ inl (r, f, ground arith, ground arith)
        | inl f ↦ elim (Bool-cases (any (has_id (take 12 (crypto.fingerprint value))) v.items)) [
          | inl a ↦ absurd (ground arith)
          | inr a ↦ inr (f, a, ground arith, ground arith)
        ]
      ]

  pub append-IsValid :
      IsSound crypto
      → (value type label iv : Text) (now : ℕ) (v : Vault) → IsValid v
      → any (has_id (take 12 (crypto.fingerprint value))) v.items ≡ false
      → IsValid
          (record { items = v.items ++ new_row crypto value type label iv now ∷ []; known = none })
  append-IsValid c value type label iv now v a n =
      let r : Row = new_row crypto value type label iv now in
      record {
        sealed =
            All-append IsSealed v.items (r ∷ []) a.sealed
              (new_row-IsSealed c value type label iv now, tt);
        own_ids = HasOwnIds-append v.items r a.own_ids n;
      }

  seal-IsValid :
      IsSound crypto
      → (value type label iv : Text) (now : ℕ) (v : Vault) → IsValid v
      → IsValid (kept_first v (seal crypto value type label iv now v))
  seal-IsValid c value type label iv now v a =
      elim (Option-cases (seal crypto value type label iv now v)) [
        | inl e ↦ rw (kept_first, e) a
        | inr ((w, h), e) ↦
            rw (kept_first, e)
              (elim (seal-cases value type label iv now v e) [
                | inl (r, f, p, q) ↦ rw p a
                | inr (f, n, p, q) ↦ rw p (append-IsValid c value type label iv now v a n)
              ])
      ]

  HasOwnIds-update :
      (p : Row → Bool) (f : Row → Row)
      → ((r : Row) → (f r).id ≡ r.id)
      → (rs : List Row) → HasOwnIds rs
      → HasOwnIds (update_where p f rs)
  HasOwnIds-update p f h [] o = tt
  HasOwnIds-update p f h (x ∷ xs) o =
      let e : (if p x then f x else x).id ≡ x.id = ground (arith, h x) in
      (
        subst (λ t. All (λ s. text_eq t s.id ≡ false) (update_where p f xs)) (sym e)
            (All-update_where (λ s. text_eq x.id s.id ≡ false) p f (λ y k e. rw (h y) k) xs o.0),
        HasOwnIds-update p f h xs o.1,
      )

  HasOwnIds-delete : (p : Row → Bool) (rs : List Row) → HasOwnIds rs → HasOwnIds (delete_where p rs)
  HasOwnIds-delete p [] o = tt
  HasOwnIds-delete p (x ∷ xs) o = elim (Bool-cases (p x)) [
    | inl e ↦ rw e (HasOwnIds-delete p xs o.1)
    | inr e ↦ rw e (All-delete_where _ p xs o.0, HasOwnIds-delete p xs o.1)
  ]

  -- Updates of what sealing does not read, and deletions.
  update-IsValid :
      (p : Row → Bool) (f : Row → Row)
      → ((r : Row) → IsSealed r → IsSealed (f r))
      → ((r : Row) → (f r).id ≡ r.id)
      → (v : Vault) → IsValid v
      → IsValid (record v { items = update_where p f v.items })
  update-IsValid p f k h v a = record {
    sealed = All-update_where IsSealed p f (λ r s e. k r s) v.items a.sealed;
    own_ids = HasOwnIds-update p f h v.items a.own_ids;
  }

  set_allow-IsValid :
      (id : Text) (ps : List Text) (v : Vault) → IsValid v → IsValid (set_allow id ps v)
  set_allow-IsValid id ps v a =
      update-IsValid (has_id id) (λ r. record r { allow = ps }) (λ r s. s) (λ r. refl) v a

  allow_prefix-IsValid :
      (id p : Text) (v : Vault) → IsValid v → IsValid (kept v (allow_prefix id p v))
  unfolding allow_prefix
  allow_prefix-IsValid id p v a = elim (Option-cases (row_of id v)) [
    | inl e ↦ rw (allow_prefix, e) a
    | inr (r, e) ↦ rw (allow_prefix, e) (set_allow-IsValid r.id _ v a)
  ]

  disallow_prefix-IsValid :
      (id p : Text) (v : Vault) → IsValid v → IsValid (kept v (disallow_prefix id p v))
  unfolding disallow_prefix
  disallow_prefix-IsValid id p v a = elim (Option-cases (row_of id v)) [
    | inl e ↦ rw (disallow_prefix, e) a
    | inr (r, e) ↦ rw (disallow_prefix, e) (set_allow-IsValid r.id _ v a)
  ]

  known_secrets-items : (v : Vault) → (known_secrets crypto v).0.items ≡ v.items
  unfolding known_secrets
  known_secrets-items v = ground arith

  step-IsValid : IsSound crypto → (o : Op) (v : Vault) → IsValid v → IsValid (step crypto o v)
  unfolding step record_use forget
  step-IsValid c (Op.seal_value value type label iv now) v a =
      seal-IsValid c value type label iv now v a
  step-IsValid c Op.ask_known v a = record {
    sealed = rw (known_secrets-items v) a.sealed;
    own_ids = rw (known_secrets-items v) a.own_ids;
  }
  step-IsValid c (Op.allow_use id p) v a = allow_prefix-IsValid id p v a
  step-IsValid c (Op.disallow_use id p) v a = disallow_prefix-IsValid id p v a
  step-IsValid c (Op.use_once now id) v a = update-IsValid _ _ (λ r s. s) (λ r. refl) v a
  step-IsValid c (Op.drop_item id) v a = record {
    sealed = All-delete_where IsSealed _ v.items a.sealed;
    own_ids = HasOwnIds-delete _ v.items a.own_ids;
  }

  -- Every run of the vault's operations keeps its rows sealed and their ids apart, where the cipher opens what
  -- it encrypted.
  pub run-IsValid :
      IsSound crypto → (os : List Op) (v : Vault) → IsValid v → IsValid (run crypto os v)
  unfolding run
  run-IsValid c [] v a = a
  run-IsValid c (o ∷ os) v a = run-IsValid c os (step crypto o v) (step-IsValid c o v a)
