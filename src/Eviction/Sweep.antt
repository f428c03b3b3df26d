-- ===== src/Eviction/Sweep.antt =====
-- What the sweep of src/engine/staging.ts leaves behind.
use agent_working_memory.Base.{
  ℕ, ◌≡◌, refl, ◌∙◌, Bool, true, false, not, ◌&&◌, ◌||◌, some, List, [], ◌∷◌, ◌++◌, All, All-map,
  All-append, select, any, update_where, delete_where, any-delete_where, All-update_where_to, ◌==◌,
  ==_refl, Bool-cases, inl, inr, arith,
}
use agent_working_memory.Engrams.{
  Engram, Store, Stage, staging, active, stage_eq, is_engram, update_stage, delete_engram,
  cache_update, cache_remove,
}
use agent_working_memory.Eviction.{
  get_expired_staging, get_expired_ephemeral, ttl_over, archive_notes, sort_out, sweep_staging,
}

module _ {R B : Type 0} where
  abbrev is_expired : ℕ → Engram R B → Bool
  is_expired now e = stage_eq e.stage staging && ttl_over e.created_at e.ttl now

  -- A row that is expired is among those still to be sorted out.
  abbrev is_awaited : ℕ → List (Engram R B) → Engram R B → Bool
  is_awaited now es r = not (is_expired now r) || any (λ e. e.id == r.id) es

  update_stage-engrams :
      (now i : ℕ) (stage : Stage) (s : Store R B)
      → (update_stage now i stage s).engrams
        ≡ update_where
            (is_engram i)
            (λ e. record e { stage = stage; stage_changed_at = some now })
            s.engrams
  unfolding update_stage cache_update
  update_stage-engrams now i stage s = ground arith

  delete_engram-engrams :
      (i : ℕ) (s : Store R B) → (delete_engram i s).engrams ≡ delete_where (is_engram i) s.engrams
  unfolding delete_engram cache_remove
  delete_engram-engrams i s = ground arith

  All-delete_where_to :
      (P Q : Engram R B → Type 0) (p : Engram R B → Bool)
      → ((x : Engram R B) → P x → p x ≡ false → Q x)
      → (xs : List (Engram R B)) → All P xs
      → All Q (delete_where p xs)
  All-delete_where_to P Q p f [] h = tt
  All-delete_where_to P Q p f (x ∷ xs) h = elim (Bool-cases (p x)) [
    | inl e ↦ rw e (All-delete_where_to P Q p f xs h.1)
    | inr e ↦ rw e (f x h.0 e, All-delete_where_to P Q p f xs h.1)
  ]

  Awaited : ℕ → List (Engram R B) → List (Engram R B) → Type 0
  Awaited now es = All (λ r. is_awaited now es r ≡ true)

  awaited-other :
      (now : ℕ) (e : Engram R B) (es : List (Engram R B)) (r : Engram R B)
      → is_awaited now (e ∷ es) r ≡ true
      → (r.id == e.id) ≡ false
      → is_awaited now es r ≡ true
  awaited-other now e es r h k = ground arith

  promote-Awaited :
      (now : ℕ) (e : Engram R B) (es : List (Engram R B)) (s : Store R B)
      → Awaited now (e ∷ es) s.engrams
      → Awaited now es (update_stage now e.id active s).engrams
  unfolding Awaited stage_eq
  promote-Awaited now e es s h = rw (update_stage-engrams now e.id active s) (
      All-update_where_to (λ r. is_awaited now (e ∷ es) r ≡ true) (λ r. is_awaited now es r ≡ true)
        (is_engram e.id) _ (λ r k t. refl) (awaited-other now e es) s.engrams h)

  discard-Awaited :
      (now : ℕ) (e : Engram R B) (es : List (Engram R B)) (s : Store R B)
      → Awaited now (e ∷ es) s.engrams
      → Awaited now es (delete_engram e.id s).engrams
  unfolding Awaited
  discard-Awaited now e es s h = rw (delete_engram-engrams e.id s) (
      All-delete_where_to (λ r. is_awaited now (e ∷ es) r ≡ true) (λ r. is_awaited now es r ≡ true)
        (is_engram e.id) (awaited-other now e es) s.engrams h)

  Awaited-none :
      (now : ℕ) (xs : List (Engram R B)) → Awaited now [] xs → select (is_expired now) xs ≡ []
  unfolding Awaited
  Awaited-none now [] h = refl
  Awaited-none now (x ∷ xs) h = ground (arith, h.0, Awaited-none now xs h.1)

  Awaited-all : (now : ℕ) (xs : List (Engram R B)) → Awaited now (select (is_expired now) xs) xs
  unfolding Awaited
  Awaited-all now [] = tt
  Awaited-all now (x ∷ xs) = (
    ground (arith, ==_refl x.id),
    All-map (λ r. is_awaited now (select (is_expired now) xs) r ≡ true)
        (λ r. is_awaited now (select (is_expired now) (x ∷ xs)) r ≡ true) (λ r h. ground arith) xs
        (Awaited-all now xs),
  )

  -- The ids that name no row.
  Gone : Store R B → List ℕ → Type 0
  Gone s = All (λ i. any (is_engram i) s.engrams ≡ false)

  any-update_where :
      (i : ℕ) (p : Engram R B → Bool) (f : Engram R B → Engram R B)
      → ((e : Engram R B) → (f e).id ≡ e.id)
      → (xs : List (Engram R B)) → any (is_engram i) (update_where p f xs) ≡ any (is_engram i) xs
  any-update_where i p f h [] = refl
  any-update_where i p f h (x ∷ xs) = ground (arith, h x, any-update_where i p f h xs)

  any-delete_where_other :
      (p q : Engram R B → Bool) (xs : List (Engram R B))
      → any p xs ≡ false
      → any p (delete_where q xs) ≡ false
  any-delete_where_other p q [] h = refl
  any-delete_where_other p q (x ∷ xs) h = ground (arith, any-delete_where_other p q xs)

  promote-Gone :
      (now : ℕ) (e : Engram R B) (s : Store R B) (ids : List ℕ)
      → Gone s ids
      → Gone (update_stage now e.id active s) ids
  unfolding Gone
  promote-Gone now e s ids g = rw (update_stage-engrams now e.id active s) (
      All-map (λ i. any (is_engram i) s.engrams ≡ false) _
        (λ i h. any-update_where i (is_engram e.id) _ (λ r. refl) s.engrams ∙ h) ids g)

  discard-Gone :
      (e : Engram R B) (s : Store R B) (ids : List ℕ)
      → Gone s ids
      → Gone (delete_engram e.id s) (ids ++ e.id ∷ [])
  unfolding Gone
  discard-Gone e s ids g = rw (delete_engram-engrams e.id s) (
      All-append (λ i. any (is_engram i) (delete_where (is_engram e.id) s.engrams) ≡ false) ids
        (e.id ∷ [])
        (All-map (λ i. any (is_engram i) s.engrams ≡ false) _
          (λ i h. any-delete_where_other (is_engram i) (is_engram e.id) s.engrams h) ids g)
        (any-delete_where (is_engram e.id) s.engrams, tt))

  sort_out_lem :
      (resonates : Engram R B → Store R B → Bool) (now : ℕ) (es : List (Engram R B)) (s : Store R B)
      (promoted discarded : List ℕ)
      → Awaited now es s.engrams
      → Gone s discarded
      → (get_expired_staging now (sort_out resonates now es s promoted discarded).0 ≡ [])
        × Gone
            (sort_out resonates now es s promoted discarded).0
            (sort_out resonates now es s promoted discarded).2
  unfolding sort_out get_expired_staging Gone
  sort_out_lem resonates now [] s promoted discarded h g = (Awaited-none now s.engrams h, g)
  sort_out_lem resonates now (e ∷ es) s promoted discarded h g = elim (Bool-cases (resonates e s)) [
    | inl t ↦ rw t (
        sort_out_lem resonates now es (update_stage now e.id active s) (promoted ++ e.id ∷ [])
          discarded (promote-Awaited now e es s h) (promote-Gone now e s discarded g))
    | inr f ↦ rw f (
        sort_out_lem resonates now es (delete_engram e.id s) promoted (discarded ++ e.id ∷ [])
          (discard-Awaited now e es s h) (discard-Gone e s discarded g))
  ]

  -- After a sweep no staged engram is past its time: each was made active or deleted, whatever the recalls
  -- answered; and no engram that is reported as discarded is left.
  pub sweep_staging_lem :
      (resonates : Engram R B → Store R B → Bool) (now : ℕ) (s : Store R B)
      → (get_expired_staging now (sweep_staging resonates now s).0 ≡ [])
        × All
            (λ i. any (is_engram i) (sweep_staging resonates now s).0.engrams ≡ false)
            (sweep_staging resonates now s).2
  unfolding sweep_staging Gone
  sweep_staging_lem resonates now s =
      let t = archive_notes now (get_expired_ephemeral now s) s in
      sort_out_lem resonates now (get_expired_staging now t) t [] []
        (unfold get_expired_staging in Awaited-all now t.engrams) tt
