-- ===== src/Engrams/Mirror.antt =====
-- The slim cache of src/storage/sqlite.ts against the table of engrams, over runs of the store's operations.
use agent_working_memory.Base.{
  ℕ, ◌≡◌, refl, sym, ap, ◌∙◌, subst, Bool, true, false, none, some, List, [], ◌∷◌, ◌++◌, map,
  or_else, any, update_where, delete_where, if◌then◌else◌, ◌==◌, Bool-cases, inl, inr, Option-cases,
  arith, All, All-update_where, All-delete_where, All-append, map-update_where, map-delete_where,
  map-update_where_kept, any-map, map-append, All-trivial, any-append_false,
}
use mathlib.Core.Option
use mathlib.Core.List.{append-nil, append_assoc}
use agent_working_memory.Engrams.{
  Engram, Slim, Store, EngramCreate, Numbers, is_engram, is_slim, cache_set, cache_update,
  cache_add, update_engram, delete_engram, slim_of, fill, ensure_slim_cache_populated, engram_of,
  slim_input, create_engram,
}

-- `id` is the primary key of engrams.
abbrev pub HasOwnIds : {R B : Type 0} → List (Engram R B) → Type 0
HasOwnIds [] = Unit
HasOwnIds (e ∷ es) = All (λ x. (x.id == e.id) ≡ false) es × HasOwnIds es

module _ {R B : Type 0} (n : Numbers R B) where
  -- An entry whose vector is the one that was stored.
  unfoldable pub stored : Slim R → Slim R
  stored e = record e { embedding = Option.map (λ v. n.from_blob (n.to_blob v)) e.embedding }

  -- A filled cache has the table's rows in their order, with vectors that store to the table's.
  pub record IsMirrored (s : Store R B) : Type 0 where
    pub turned_on : s.enabled ≡ true
    pub own_ids : HasOwnIds s.engrams
    pub filled : s.populated ≡ true → map stored s.slim_cache ≡ map (slim_of n) s.engrams
    pub unfilled : s.populated ≡ false → s.slim_cache ≡ []

  HasOwnIds-update_where :
      (p : Engram R B → Bool) (f : Engram R B → Engram R B)
      → ((e : Engram R B) → (f e).id ≡ e.id)
      → (es : List (Engram R B)) → HasOwnIds es
      → HasOwnIds (update_where p f es)
  HasOwnIds-update_where p f h [] o = tt
  HasOwnIds-update_where p f h (x ∷ xs) o =
      let e : (if p x then f x else x).id ≡ x.id = ground (arith, h x) in
      (
        subst (λ (t : ℕ). All (λ y. (y.id == t) ≡ false) (update_where p f xs)) (sym e)
            (All-update_where (λ y. (y.id == x.id) ≡ false) p f (λ y k e. rw (h y) k) xs o.0),
        HasOwnIds-update_where p f h xs o.1,
      )

  HasOwnIds-delete_where :
      (p : Engram R B → Bool) (es : List (Engram R B))
      → HasOwnIds es
      → HasOwnIds (delete_where p es)
  HasOwnIds-delete_where p [] o = tt
  HasOwnIds-delete_where p (x ∷ xs) o = elim (Bool-cases (p x)) [
    | inl e ↦ rw e (HasOwnIds-delete_where p xs o.1)
    | inr e ↦ rw e (All-delete_where _ p xs o.0, HasOwnIds-delete_where p xs o.1)
  ]

  HasOwnIds-append :
      (es : List (Engram R B)) (e : Engram R B)
      → HasOwnIds es
      → any (is_engram e.id) es ≡ false
      → HasOwnIds (es ++ e ∷ [])
  HasOwnIds-append [] e o k = (tt, tt)
  HasOwnIds-append (x ∷ xs) e o k = (
    All-append (λ y. (y.id == x.id) ≡ false) xs (e ∷ []) o.0 (ground arith, tt),
    HasOwnIds-append xs e o.1 (ground arith),
  )

  -- An update of columns that the cache does not hold.
  pub update_engram-IsMirrored :
      (i : ℕ) (f : Engram R B → Engram R B)
      → ((e : Engram R B) → slim_of n (f e) ≡ slim_of n e)
      → (s : Store R B) → IsMirrored s
      → IsMirrored (update_engram i f s)
  update_engram-IsMirrored i f k s m = record {
    turned_on = m.turned_on;
    own_ids =
        HasOwnIds-update_where (is_engram i) f (λ e. ap (λ (x : Slim R). x.id) (k e)) s.engrams
          m.own_ids;
    filled = λ p. m.filled p ∙ sym (map-update_where_kept (slim_of n) (is_engram i) f k s.engrams);
    unfilled = m.unfilled;
  }

  -- An update of a column that is made on both sides.
  pub cache_update-IsMirrored :
      (i : ℕ) (f : Engram R B → Engram R B) (h g : Slim R → Slim R)
      → ((e : Engram R B) → slim_of n (f e) ≡ g (slim_of n e))
      → ((e : Slim R) → stored (h e) ≡ g (stored e))
      → ((e : Engram R B) → (f e).id ≡ e.id)
      → (s : Store R B) → IsMirrored s
      → IsMirrored (cache_update i h (update_engram i f s))
  unfolding cache_update stored
  cache_update-IsMirrored i f h g k l d s m = rw m.turned_on record {
    turned_on = refl;
    own_ids = HasOwnIds-update_where (is_engram i) f d s.engrams m.own_ids;
    filled = λ p.
        map-update_where stored (is_slim i) (is_slim i) h g (λ x. refl) l s.slim_cache
        ∙ ap (update_where (is_slim i) g) (m.filled p)
        ∙ sym (map-update_where (slim_of n) (is_engram i) (is_slim i) f g (λ x. refl) k s.engrams);
    unfilled = λ p. rw (m.unfilled p) refl;
  }

  pub delete_engram-IsMirrored :
      (i : ℕ) (s : Store R B) → IsMirrored s → IsMirrored (delete_engram i s)
  unfolding delete_engram stored
  delete_engram-IsMirrored i s m = rw m.turned_on record {
    turned_on = refl;
    own_ids = HasOwnIds-delete_where (is_engram i) s.engrams m.own_ids;
    filled = λ p.
        map-delete_where stored (is_slim i) (is_slim i) (λ x. refl) s.slim_cache
        ∙ ap (delete_where (is_slim i)) (m.filled p)
        ∙ sym (map-delete_where (slim_of n) (is_engram i) (is_slim i) (λ x. refl) s.engrams);
    unfilled = λ p. rw (m.unfilled p) refl;
  }

  is_slim-append :
      (e : Engram R B) (c : List (Slim R)) (es : List (Engram R B))
      → All (λ x. (x.id == e.id) ≡ false) es
      → All (λ x. any (is_slim x.id) c ≡ false) es
      → All (λ x. any (is_slim x.id) (c ++ slim_of n e ∷ []) ≡ false) es
  is_slim-append e c [] o k = tt
  is_slim-append e c (x ∷ xs) o k = (
    any-append_false (is_slim x.id) c (slim_of n e) k.0 (ground (arith, o.0)),
    is_slim-append e c xs o.1 k.1,
  )

  -- Reading rows into a cache that has none of their ids puts them behind it.
  fill-append :
      (es : List (Engram R B)) (c : List (Slim R))
      → HasOwnIds es
      → All (λ e. any (is_slim e.id) c ≡ false) es
      → fill n es c ≡ c ++ map (slim_of n) es
  unfolding fill
  fill-append [] c o k = sym (append-nil c)
  fill-append (e ∷ es) c o k =
      rw (fill, k.0)
        (fill-append es (c ++ slim_of n e ∷ []) o.1 (is_slim-append e c es o.0 k.1)
          ∙ append_assoc c (slim_of n e ∷ []) (map (slim_of n) es))

  pub populated_already : (s : Store R B) → s.populated ≡ true → ensure_slim_cache_populated n s ≡ s
  unfolding ensure_slim_cache_populated
  populated_already s p = ground arith

  pub populated_now :
      (s : Store R B)
      → s.populated ≡ false
      → s.enabled ≡ true
      → ensure_slim_cache_populated n s
        ≡ record s { slim_cache = fill n s.engrams s.slim_cache; populated = true }
  unfolding ensure_slim_cache_populated
  populated_now s p e = ground arith

  -- What is read from the table stores to the same bytes.
  module _ (sound : (b : B) → n.to_blob (n.from_blob b) ≡ b) where
    stored-slim_of : (e : Engram R B) → stored (slim_of n e) ≡ slim_of n e
    unfolding stored
    stored-slim_of e = elim (Option-cases e.embedding) [
      | inl q ↦ rw q refl
      | inr (b, q) ↦ rw (q, sound b) refl
    ]

    stored-map : (es : List (Engram R B)) → map stored (map (slim_of n) es) ≡ map (slim_of n) es
    stored-map [] = refl
    stored-map (e ∷ es) = ground (arith, stored-slim_of e, stored-map es)

    pub populate-IsMirrored :
        (s : Store R B) → IsMirrored s → IsMirrored (ensure_slim_cache_populated n s)
    populate-IsMirrored s m = elim (Bool-cases s.populated) [
      | inl p ↦ subst IsMirrored (sym (populated_already s p)) m
      | inr p ↦ subst IsMirrored (sym (populated_now s p m.turned_on)) record {
        turned_on = m.turned_on;
        own_ids = m.own_ids;
        filled = λ q.
            rw
              (
                m.unfilled p,
                fill-append s.engrams [] m.own_ids (All-trivial _ (λ e. refl) s.engrams),
              )
              (stored-map s.engrams);
        unfilled = λ q. cc;
      }
    ]

  create_engram-none :
      (now i : ℕ) (input : EngramCreate R) (s : Store R B)
      → any (is_engram i) s.engrams ≡ true
      → create_engram n now i input s ≡ none
  unfolding create_engram
  create_engram-none now i input s h = rw (create_engram, h) refl

  abbrev with_row : ℕ → ℕ → EngramCreate R → Store R B → Store R B
  with_row now i input s = record s { engrams = s.engrams ++ engram_of n now i input ∷ [] }

  create_engram-some :
      (now i : ℕ) (input : EngramCreate R) (s : Store R B)
      → any (is_engram i) s.engrams ≡ false
      → create_engram n now i input s
        ≡ some (
            if s.populated
            then cache_add (slim_input n i input) (with_row now i input s)
            else with_row now i input s)
  unfolding create_engram
  create_engram-some now i input s h = rw (create_engram, h) refl

  stored-slim_input :
      (now i : ℕ) (input : EngramCreate R)
      → stored (slim_input n i input) ≡ slim_of n (engram_of n now i input)
  unfolding stored
  stored-slim_input now i input = elim (Option-cases input.embedding) [
    | inl q ↦ rw q refl
    | inr (v, q) ↦ rw q refl
  ]

  cache_add-fresh :
      (e : Slim R) (s : Store R B)
      → s.enabled ≡ true
      → any (is_slim e.id) s.slim_cache ≡ false
      → cache_add e s ≡ record s { slim_cache = s.slim_cache ++ e ∷ [] }
  unfolding cache_add cache_set
  cache_add-fresh e s t f = ground arith

  is_slim-false :
      (i : ℕ) (s : Store R B)
      → IsMirrored s
      → s.populated ≡ true
      → any (is_engram i) s.engrams ≡ false
      → any (is_slim i) s.slim_cache ≡ false
  unfolding stored
  is_slim-false i s m p a =
      sym (any-map stored (is_slim i) (is_slim i) (λ x. refl) s.slim_cache)
      ∙ ap (any (is_slim i)) (m.filled p)
      ∙ any-map (slim_of n) (is_engram i) (is_slim i) (λ x. refl) s.engrams
      ∙ a

  if-IsMirrored :
      (b : Bool) (s t : Store R B)
      → (b ≡ true → IsMirrored s)
      → (b ≡ false → IsMirrored t)
      → IsMirrored (if b then s else t)
  if-IsMirrored true s t f g = f refl
  if-IsMirrored false s t f g = g refl

  added :
      (now i : ℕ) (input : EngramCreate R) (s : Store R B)
      → map stored s.slim_cache ≡ map (slim_of n) s.engrams
      → map stored (s.slim_cache ++ slim_input n i input ∷ [])
        ≡ map (slim_of n) (s.engrams ++ engram_of n now i input ∷ [])
  added now i input s h =
      map-append stored s.slim_cache (slim_input n i input ∷ [])
      ∙ rw (h, stored-slim_input now i input) refl
      ∙ sym (map-append (slim_of n) s.engrams (engram_of n now i input ∷ []))

  pub create_engram-IsMirrored :
      (now i : ℕ) (input : EngramCreate R) (s : Store R B)
      → IsMirrored s
      → IsMirrored (or_else (create_engram n now i input s) s)
  create_engram-IsMirrored now i input s m = elim (Bool-cases (any (is_engram i) s.engrams)) [
    | inl a ↦ rw (create_engram-none now i input s a) m
    | inr a ↦
        let own = HasOwnIds-append s.engrams (engram_of n now i input) m.own_ids a in
        rw (create_engram-some now i input s a) (
          if-IsMirrored s.populated (cache_add (slim_input n i input) (with_row now i input s))
            (with_row now i input s)
            (λ p.
              subst IsMirrored
                (sym (
                  cache_add-fresh (slim_input n i input) (with_row now i input s) m.turned_on
                    (is_slim-false i s m p a)))
                record {
                  turned_on = m.turned_on;
                  own_ids = own;
                  filled = λ q. added now i input s (m.filled p);
                  unfilled = λ q. cc;
                })
            (λ p. record {
              turned_on = m.turned_on;
              own_ids = own;
              filled = λ q. cc;
              unfilled = m.unfilled;
            }))
  ]
