-- ===== src/Engrams/Reads.antt =====
-- What a slim read of src/storage/sqlite.ts returns from the cache, against the same read of the table.
use agent_working_memory.Base.{
  ℕ, ◌≡◌, refl, sym, ap, ◌∙◌, Bool, true, false, ◌||◌, Option, some, List, [], ◌∷◌, map, any,
  select, ◌==◌, Bool-cases, inl, inr, arith, map-select,
}
use mathlib.Core.Option
use mathlib.Core.Path.{fun_ext}
use agent_working_memory.Engrams.{
  Stage, Engram, Slim, Store, Numbers, update_stage, update_content, update_confidence,
  touch_engram, retract_engram, supersede_engram, update_memory_class, update_tags, set_questions,
  reset_slim_cache, slim_of, ensure_slim_cache_populated, update_embedding, SlimResult, result_of,
  wanted, slim_by_sql, slim_read, get_engrams_by_agent_slim, get_engrams_by_agents_slim,
}
use agent_working_memory.Engrams.Runs.{Op, step, run}
use agent_working_memory.Engrams.Mirror.{
  HasOwnIds, stored, IsMirrored, update_engram-IsMirrored, cache_update-IsMirrored,
  delete_engram-IsMirrored, populate-IsMirrored, create_engram-IsMirrored, populated_already,
  populated_now,
}

or_false : (b : Bool) → (b || false) ≡ b
or_false b = ground arith

module _ {R B : Type 0} (n : Numbers R B) (sound : (b : B) → n.to_blob (n.from_blob b) ≡ b) where
  -- A result whose vector is as it is stored.
  abbrev pub as_stored : SlimResult n → SlimResult n
  as_stored r = (r.0, r.1, Option.map (λ v. n.from_blob (n.to_blob v)) r.2)

  slim_read-enabled :
      (agents : ℕ → Bool) (stage : Option Stage) (include_retracted : Bool) (s : Store R B)
      → s.enabled ≡ true
      → slim_read n agents stage include_retracted s ≡ (
        ensure_slim_cache_populated n s,
        map (result_of n) (
            select
              (wanted n agents stage include_retracted)
              (ensure_slim_cache_populated n s).slim_cache),
      )
  unfolding slim_read
  slim_read-enabled agents stage include_retracted s e = rw (slim_read, e) refl

  results-stored :
      (c : List (Slim R))
      → map as_stored (map (result_of n) c) ≡ map (result_of n) (map (stored n) c)
  unfolding stored
  results-stored [] = refl
  results-stored (e ∷ c) = ap (◌∷◌ (as_stored (result_of n e))) (results-stored c)

  results-slim_of :
      (es : List (Engram R B))
      → map (result_of n) (map (slim_of n) es)
        ≡ map (λ e. (e.id, e.concept, Option.map n.from_blob e.embedding)) es
  results-slim_of [] = refl
  results-slim_of (e ∷ es) = ap (◌∷◌ (result_of n (slim_of n e))) (results-slim_of es)

  -- A filled cache answers as the table does.
  mirrored_read :
      (agents : ℕ → Bool) (stage : Option Stage) (include_retracted : Bool) (s : Store R B)
      → map (stored n) s.slim_cache ≡ map (slim_of n) s.engrams
      → map as_stored
          (map (result_of n) (select (wanted n agents stage include_retracted) s.slim_cache))
        ≡ slim_by_sql n agents stage include_retracted s
  unfolding slim_by_sql stored
  mirrored_read agents stage include_retracted s h =
      let w : Slim R → Bool = wanted n agents stage include_retracted in
      results-stored (select w s.slim_cache)
      ∙ ap (map (result_of n)) (
          map-select (stored n) w w (λ x. refl) s.slim_cache
          ∙ ap (select w) h
          ∙ sym (map-select (slim_of n) (λ e. w (slim_of n e)) w (λ x. refl) s.engrams))
      ∙ results-slim_of (select (λ e. w (slim_of n e)) s.engrams)

  populated_after :
      (s : Store R B) → s.enabled ≡ true → (ensure_slim_cache_populated n s).populated ≡ true
  unfolding ensure_slim_cache_populated
  populated_after s e = ground arith

  slim_read-IsMirrored :
      (agents : ℕ → Bool) (stage : Option Stage) (include_retracted : Bool) (s : Store R B)
      → IsMirrored n s
      → IsMirrored n (slim_read n agents stage include_retracted s).0
  slim_read-IsMirrored agents stage include_retracted s m =
      rw (slim_read-enabled agents stage include_retracted s m.turned_on)
        (populate-IsMirrored n sound s m)

  -- A slim read of a mirrored store gives what the table gives.
  slim_read_lem :
      (agents : ℕ → Bool) (stage : Option Stage) (include_retracted : Bool) (s : Store R B)
      → IsMirrored n s
      → map as_stored (slim_read n agents stage include_retracted s).1
        ≡ slim_by_sql n agents stage include_retracted s
  slim_read_lem agents stage include_retracted s m =
      let t = ensure_slim_cache_populated n s in
      let k = populate-IsMirrored n sound s m in
      rw (slim_read-enabled agents stage include_retracted s m.turned_on) (
        mirrored_read agents stage include_retracted t (k.filled (populated_after s m.turned_on))
        ∙ same_rows agents stage include_retracted s m)
    where
      same_rows :
          (agents : ℕ → Bool) (stage : Option Stage) (include_retracted : Bool) (s : Store R B)
          → IsMirrored n s
          → slim_by_sql n agents stage include_retracted (ensure_slim_cache_populated n s)
            ≡ slim_by_sql n agents stage include_retracted s
      same_rows agents stage include_retracted s m =
          unfold slim_by_sql in
          elim (Bool-cases s.populated) [
            | inl p ↦ rw (populated_already n s p) refl
            | inr p ↦ rw (populated_now n s p m.turned_on) refl
          ]

  read_many-IsMirrored :
      (agents : List ℕ) (stage : Option Stage) (include_retracted : Bool) (s : Store R B)
      → IsMirrored n s
      → IsMirrored n (get_engrams_by_agents_slim n agents stage include_retracted s).0
  unfolding get_engrams_by_agents_slim
  read_many-IsMirrored [] stage include_retracted s m = m
  read_many-IsMirrored (a ∷ []) stage include_retracted s m =
      slim_read-IsMirrored _ stage include_retracted s m
  read_many-IsMirrored (a ∷ b ∷ agents) stage include_retracted s m =
      slim_read-IsMirrored _ stage include_retracted s m

  select-none :
      (p : Engram R B → Bool)
      → ((e : Engram R B) → p e ≡ false)
      → (es : List (Engram R B)) → select p es ≡ []
  select-none p h [] = refl
  select-none p h (e ∷ es) = rw (h e) (select-none p h es)

  read_many_lem :
      (agents : List ℕ) (stage : Option Stage) (include_retracted : Bool) (s : Store R B)
      → IsMirrored n s
      → map as_stored (get_engrams_by_agents_slim n agents stage include_retracted s).1
        ≡ slim_by_sql n (λ x. any (λ y. x == y) agents) stage include_retracted s
  unfolding get_engrams_by_agents_slim get_engrams_by_agent_slim
  read_many_lem [] stage include_retracted s m =
      unfold slim_by_sql in rw (select-none _ (λ e. refl) s.engrams) refl
  read_many_lem (a ∷ []) stage include_retracted s m =
      slim_read_lem (λ x. x == a) stage include_retracted s m
      ∙ ap (λ (p : ℕ → Bool). slim_by_sql n p stage include_retracted s)
          (fun_ext (λ x. sym (or_false (x == a))))
  read_many_lem (a ∷ b ∷ agents) stage include_retracted s m =
      slim_read_lem _ stage include_retracted s m

  module _ (clamp : R → R) (nudge : R → ℕ → R) where
    step-IsMirrored :
        (o : Op R) (s : Store R B) → IsMirrored n s → IsMirrored n (step n clamp nudge o s)
    unfolding step update_stage update_content update_confidence update_embedding touch_engram
        retract_engram supersede_engram update_memory_class update_tags set_questions
        reset_slim_cache get_engrams_by_agent_slim stored
    step-IsMirrored (Op.create now i input) s m = create_engram-IsMirrored n now i input s m
    step-IsMirrored (Op.set_stage now i stage) s m =
        let g : Slim R → Slim R = λ e. record e { stage = stage } in
        cache_update-IsMirrored n i _ g g (λ e. refl) (λ e. refl) (λ e. refl) s m
    step-IsMirrored (Op.set_content i content) s m = update_engram-IsMirrored n i _ (λ e. refl) s m
    step-IsMirrored (Op.set_confidence i c) s m = update_engram-IsMirrored n i _ (λ e. refl) s m
    step-IsMirrored (Op.set_embedding i v) s m =
        cache_update-IsMirrored n i _ (λ e. record e { embedding = some v })
          (λ e. record e { embedding = some (n.from_blob (n.to_blob v)) }) (λ e. refl) (λ e. refl)
          (λ e. refl) s m
    step-IsMirrored (Op.touch now i) s m = update_engram-IsMirrored n i _ (λ e. refl) s m
    step-IsMirrored (Op.retract now i by) s m =
        let g : Slim R → Slim R = λ e. record e { retracted = true } in
        cache_update-IsMirrored n i _ g g (λ e. refl) (λ e. refl) (λ e. refl) s m
    step-IsMirrored (Op.delete i) s m = delete_engram-IsMirrored n i s m
    step-IsMirrored (Op.supersede old new) s m =
        update_engram-IsMirrored n new _ (λ e. refl) _
          (update_engram-IsMirrored n old _ (λ e. refl) s m)
    step-IsMirrored (Op.set_class i c) s m = update_engram-IsMirrored n i _ (λ e. refl) s m
    step-IsMirrored (Op.set_tags i tags) s m = update_engram-IsMirrored n i _ (λ e. refl) s m
    step-IsMirrored (Op.ask i qs) s m = update_engram-IsMirrored n i _ (λ e. refl) s m
    step-IsMirrored Op.reset s m = record {
      turned_on = m.turned_on;
      own_ids = m.own_ids;
      filled = λ p. cc;
      unfilled = λ p. refl;
    }
    step-IsMirrored Op.warm s m = populate-IsMirrored n sound s m
    step-IsMirrored (Op.read_one a stage include_retracted) s m =
        slim_read-IsMirrored _ stage include_retracted s m
    step-IsMirrored (Op.read_many agents stage include_retracted) s m =
        read_many-IsMirrored agents stage include_retracted s m

    run-IsMirrored :
        (os : List (Op R)) (s : Store R B) → IsMirrored n s → IsMirrored n (run n clamp nudge os s)
    unfolding run
    run-IsMirrored [] s m = m
    run-IsMirrored (o ∷ os) s m = run-IsMirrored os (step n clamp nudge o s) (step-IsMirrored o s m)

    -- The cache answers for the table: after any run of the store's operations, on any table of engrams with ids
    -- of their own and an empty cache that is switched on, a slim read for several agents returns the rows that the
    -- same read of the table returns, in the same order, up to the rounding of vectors in their stored form, where
    -- what is read from bytes is written to the same bytes.
    pub get_engrams_by_agents_slim-run :
        (os : List (Op R)) (agents : List ℕ) (stage : Option Stage) (include_retracted : Bool)
        (s : Store R B)
        → s.enabled ≡ true
        → s.populated ≡ false
        → s.slim_cache ≡ []
        → HasOwnIds s.engrams
        → map as_stored
            (get_engrams_by_agents_slim n agents stage include_retracted (run n clamp nudge os s)).1
          ≡ slim_by_sql n
              (λ x. any (λ y. x == y) agents)
              stage
              include_retracted
              (run n clamp nudge os s)
    get_engrams_by_agents_slim-run os agents stage include_retracted s e p c o =
        read_many_lem agents stage include_retracted (run n clamp nudge os s) (
          run-IsMirrored os s
            record { turned_on = e; own_ids = o; filled = λ q. cc; unfilled = λ q. c })
