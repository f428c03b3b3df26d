-- ===== src/Vault/Coherence.antt =====
-- The list of known values that a process keeps, against the table of src/core/vault.ts, over runs of the
-- vault's operations.
use agent_working_memory.Base.{
  ℕ, ◌≡◌, refl, Bool, Option, none, some, List, [], ◌∷◌, Text, update_where, find?, sym, take, any,
  Bool-cases, inl, inr, Option-cases, arith, ◌∙◌,
}
use agent_working_memory.Vault.{
  Crypto, Row, Known, Vault, seal, open_item, open_all, open_row, decrypt_known, known_secrets,
  allow_prefix, disallow_prefix, record_use, forget, set_allow, has_id, has_fingerprint, row_of,
  normalise_id,
}
use agent_working_memory.Vault.Runs.{Op, kept, kept_first, step, run}

-- What opening and naming a row reads of it.
abbrev sealed_part : Row → Text × Text × Text × Text × Text
sealed_part r = (r.id, r.type, r.last4, r.ciphertext, r.iv)

module _ (crypto : Crypto) where
  -- Where the values are at hand, they are those that the table holds.
  abbrev pub IsCoherent : Vault → Type 0
  IsCoherent v = (ks : List Known) → v.known ≡ some ks → decrypt_known crypto v ≡ some ks

  module _ (p : Row → Bool) (f : Row → Row)
      (h : (r : Row) → sealed_part (f r) ≡ sealed_part r) where
    open_found : Option Row → Option Text
    open_found o = elim o [ none ↦ none | some r ↦ open_row crypto r ]

    open_found-update :
        (id : Text) (xs : List Row)
        → open_found (find? (has_id id) (update_where p f xs)) ≡ open_found (find? (has_id id) xs)
    unfolding open_found
    open_found-update id [] = refl
    open_found-update id (x ∷ xs) = ground (arith, h x, open_found-update id xs)

    open_item-update :
        (id : Text) (v : Vault)
        → open_item crypto id (record v { items = update_where p f v.items })
          ≡ open_item crypto id v
    unfolding open_item open_found
    open_item-update id v = open_found-update (normalise_id id) v.items

    open_all-update :
        (rs : List Row) (v : Vault)
        → open_all crypto (update_where p f rs) (record v { items = update_where p f v.items })
          ≡ open_all crypto rs v
    unfolding open_all
    open_all-update [] v = refl
    open_all-update (r ∷ rs) v = ground (arith, h r, open_item-update r.id v, open_all-update rs v)

    decrypt_known-update :
        (v : Vault)
        → decrypt_known crypto (record v { items = update_where p f v.items })
          ≡ decrypt_known crypto v
    unfolding decrypt_known
    decrypt_known-update v = rw (decrypt_known, open_all-update v.items v) refl

  open_all-known :
      (ks : Option (List Known)) (rs : List Row) (v : Vault)
      → open_all crypto rs (record v { known = ks }) ≡ open_all crypto rs v
  unfolding open_all
  open_all-known ks [] v = refl
  open_all-known ks (r ∷ rs) v = ground (arith, open_all-known ks rs v)

  decrypt_known-known :
      (ks : Option (List Known)) (v : Vault)
      → decrypt_known crypto (record v { known = ks }) ≡ decrypt_known crypto v
  unfolding decrypt_known
  decrypt_known-known ks v = rw (decrypt_known, open_all-known ks v.items v) refl

  set_allow-IsCoherent :
      (id : Text) (ps : List Text) (v : Vault) → IsCoherent v → IsCoherent (set_allow id ps v)
  set_allow-IsCoherent id ps v c ks e =
      decrypt_known-update (has_id id) (λ r. record r { allow = ps }) (λ r. refl) v ∙ c ks e

  allow_prefix-IsCoherent :
      (id p : Text) (v : Vault) → IsCoherent v → IsCoherent (kept v (allow_prefix id p v))
  unfolding allow_prefix
  allow_prefix-IsCoherent id p v c = elim (Option-cases (row_of id v)) [
    | inl e ↦ rw (allow_prefix, e) c
    | inr (r, e) ↦ rw (allow_prefix, e) (set_allow-IsCoherent r.id _ v c)
  ]

  disallow_prefix-IsCoherent :
      (id p : Text) (v : Vault) → IsCoherent v → IsCoherent (kept v (disallow_prefix id p v))
  unfolding disallow_prefix
  disallow_prefix-IsCoherent id p v c = elim (Option-cases (row_of id v)) [
    | inl e ↦ rw (disallow_prefix, e) c
    | inr (r, e) ↦ rw (disallow_prefix, e) (set_allow-IsCoherent r.id _ v c)
  ]

  record_use-IsCoherent :
      (now : ℕ) (id : Text) (v : Vault) → IsCoherent v → IsCoherent (record_use now id v)
  unfolding record_use
  record_use-IsCoherent now id v c ks e =
      decrypt_known-update (has_id (normalise_id id)) _ (λ r. refl) v ∙ c ks e

  -- What `knownSecrets` answers, and the list that it keeps.
  known_secrets_lem :
      (v : Vault)
      → IsCoherent v
      → ((known_secrets crypto v).1 ≡ decrypt_known crypto v)
        × IsCoherent (known_secrets crypto v).0
  unfolding known_secrets
  known_secrets_lem v c = by_known v.items v.known c
    where
      by_known :
          (xs : List Row) (k : Option (List Known))
          → IsCoherent (record { items = xs; known = k })
          → ((known_secrets crypto (record { items = xs; known = k })).1
              ≡ decrypt_known crypto (record { items = xs; known = k }))
            × IsCoherent (known_secrets crypto (record { items = xs; known = k })).0
      by_known xs (some ks) c = (sym (c ks refl), c)
      by_known xs none c =
          elim (Option-cases (decrypt_known crypto (record { items = xs; known = none }))) [
            | inl d ↦ rw (known_secrets, d) (refl, λ ks e. cc)
            | inr (ks, d) ↦
                rw (known_secrets, d)
                  (
                    refl,
                    λ l e.
                        decrypt_known-known (some ks) (record { items = xs; known = none }) ∙ d ∙ e,
                  )
          ]

  seal-IsCoherent :
      (value type label iv : Text) (now : ℕ) (v : Vault)
      → IsCoherent v
      → IsCoherent (kept_first v (seal crypto value type label iv now v))
  unfolding seal
  seal-IsCoherent value type label iv now v c =
      elim (Option-cases (find? (has_fingerprint (crypto.fingerprint value)) v.items)) [
        | inr (r, e) ↦ rw (seal, e) c
        | inl e ↦ elim (Bool-cases (any (has_id (take 12 (crypto.fingerprint value))) v.items)) [
          | inl a ↦ rw (seal, e, a) c
          | inr a ↦ rw (seal, e, a) (λ ks n. cc)
        ]
      ]

  step-IsCoherent : (o : Op) (v : Vault) → IsCoherent v → IsCoherent (step crypto o v)
  unfolding step forget
  step-IsCoherent (Op.seal_value value type label iv now) v c =
      seal-IsCoherent value type label iv now v c
  step-IsCoherent Op.ask_known v c = (known_secrets_lem v c).1
  step-IsCoherent (Op.allow_use id p) v c = allow_prefix-IsCoherent id p v c
  step-IsCoherent (Op.disallow_use id p) v c = disallow_prefix-IsCoherent id p v c
  step-IsCoherent (Op.use_once now id) v c = record_use-IsCoherent now id v c
  step-IsCoherent (Op.drop_item id) v c = λ ks n. cc

  run-IsCoherent : (os : List Op) (v : Vault) → IsCoherent v → IsCoherent (run crypto os v)
  unfolding run
  run-IsCoherent [] v c = c
  run-IsCoherent (o ∷ os) v c = run-IsCoherent os (step crypto o v) (step-IsCoherent o v c)

  -- The list of known values that a process keeps never goes stale: after any run of sealings, questions,
  -- permissions, withdrawals, uses and forgettings, on any table that no list was made of yet,
  -- the list that is handed out is the one that decrypting the whole table would give.
  pub known_secrets-run :
      (os : List Op) (xs : List Row)
      → (known_secrets crypto (run crypto os (record { items = xs; known = none }))).1
        ≡ decrypt_known crypto (run crypto os (record { items = xs; known = none }))
  known_secrets-run os xs =
      (known_secrets_lem (run crypto os (record { items = xs; known = none }))
        (run-IsCoherent os (record { items = xs; known = none }) (λ ks n. cc))).0
