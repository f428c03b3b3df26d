-- ===== src/Retraction/Edges.antt =====
-- What a retraction of src/engine/retraction.ts does to the associations.
use agent_working_memory.Base.{
  ℕ, ◌+◌, ◌≤◌, ◌≡◌, refl, sym, ap, ◌∙◌, Bool, true, not, ◌&&◌, Option, none, some, or_else, List,
  [], ◌∷◌, ◌++◌, Text, subst, take, length, length-append, length-take-le, select, sort,
  update_where, any, ◌==◌, ==_refl, Bool-cases, Option-cases, inl, inr, arith,
}
use agent_working_memory.Engrams.{
  Engram, Association, AssociationType, connection, invalidation, Store, retract_engram,
  cache_update, create_engram, cache_add,
}
use agent_working_memory.Retraction.{
  Arithmetic, Retraction, get_engram, upsert_association, get_associations_for, neighbor_of,
  inherit_all, inherit_narrative_edges, correct, correction_input, counter, marked, inherited,
  is_candidate, heavier_first,
}

module _ {R : Type 0} where
  -- The associations that do not come from an engram.
  abbrev pub from_others : ℕ → List (Association R) → List (Association R)
  from_others c as' = select (λ a. not (a.from_engram_id == c)) as'

  from_others-update :
      (c : ℕ) (p : Association R → Bool) (f : Association R → Association R)
      → ((a : Association R) → p a ≡ true → (a.from_engram_id == c) ≡ true)
      → ((a : Association R) → (f a).from_engram_id ≡ a.from_engram_id)
      → (as' : List (Association R)) → from_others c (update_where p f as') ≡ from_others c as'
  from_others-update c p f h k [] = refl
  from_others-update c p f h k (a ∷ as') =
      ground (arith, h a, k a, from_others-update c p f h k as')

  from_others-append :
      (c : ℕ) (as' : List (Association R)) (a : Association R)
      → (a.from_engram_id == c) ≡ true
      → from_others c (as' ++ a ∷ []) ≡ from_others c as'
  from_others-append c [] a e = rw e refl
  from_others-append c (b ∷ as') a e = ground (arith, from_others-append c as' a e)

  length-update_where :
      (p : Association R → Bool) (f : Association R → Association R) (as' : List (Association R))
      → length (update_where p f as') ≡ length as'
  length-update_where p f [] = refl
  length-update_where p f (a ∷ as') = ground (arith, length-update_where p f as')

-- The second store has the associations of the first but for some of one engram, and at most n more.
abbrev pub IsAdded : {R B : Type 0} → ℕ → ℕ → Store R B → Store R B → Type 0
IsAdded c n s t =
    (from_others c t.associations ≡ from_others c s.associations)
    × (length t.associations ≤ length s.associations + n)

module _ {R B : Type 0} where
  unchanged : (c : ℕ) (s t : Store R B) → t.associations ≡ s.associations → IsAdded c 0 s t
  unchanged c s t e = rw e (refl, omega arith)

  IsAdded-trans :
      (c n m : ℕ) (s t u : Store R B) → IsAdded c n s t → IsAdded c m t u → IsAdded c (n + m) s u
  IsAdded-trans c n m s t u h k = (k.0 ∙ h.0, omega (arith, h.1, k.1))

  upsert-IsAdded :
      (now i c to : ℕ) (weight : R) (type : AssociationType) (confidence : R) (s : Store R B)
      → IsAdded c 1 s (upsert_association now i c to weight type confidence s)
  unfolding upsert_association
  upsert-IsAdded now i c to weight type confidence s =
      let is_pair : Association R → Bool = λ a. (a.from_engram_id == c) && (a.to_engram_id == to) in
      elim (Bool-cases (any is_pair s.associations)) [
        | inl e ↦
            rw (upsert_association, e)
              (
                from_others-update c is_pair _ (λ a h. ground arith) (λ a. refl) s.associations,
                omega (arith, length-update_where is_pair _ s.associations),
              )
        | inr e ↦
            rw (upsert_association, e)
              (
                from_others-append c s.associations _ (==_refl c),
                omega (arith, length-append s.associations _),
              )
      ]

  retract_engram-associations :
      (now i : ℕ) (by : Option ℕ) (s : Store R B)
      → (retract_engram now i by s).associations ≡ s.associations
  unfolding retract_engram cache_update
  retract_engram-associations now i by s = ground arith

-- How many edges a retraction may make, by the content of its correction: the correction's edge to the target,
-- and ten that it takes over.
abbrev pub edges_for : Option Text → ℕ
edges_for none = 0
edges_for (some content) = 11

module _ {R B : Type 0} (arithmetic : Arithmetic R B) where
  inherit_all-IsAdded :
      (now : ℕ) (draw : ℕ → ℕ) (retracted c : ℕ) (cs : List (Association R)) (s : Store R B) (k : ℕ)
      → IsAdded c (length cs) s (inherit_all arithmetic now draw retracted c cs s k).0
  unfolding inherit_all
  inherit_all-IsAdded now draw retracted c [] s k = unchanged c s s refl
  inherit_all-IsAdded now draw retracted c (a ∷ cs) s k =
      let i : ℕ = neighbor_of retracted a in
      let skip = inherit_all-IsAdded now draw retracted c cs s k in
      elim (Option-cases (get_engram i s)) [
        | inl e ↦ rw (inherit_all, e) (skip.0, omega (arith, skip.1))
        | inr (n, e) ↦ elim (Bool-cases n.retracted) [
          | inl t ↦ rw (inherit_all, e, t) (skip.0, omega (arith, skip.1))
          | inr f ↦
              let t =
                upsert_association now (draw k) c i (arithmetic.scaled a.weight) connection
                  a.confidence s in
              let first =
                upsert-IsAdded now (draw k) c i (arithmetic.scaled a.weight) connection a.confidence
                  s in
              let rest = inherit_all-IsAdded now draw retracted c cs t (k + 1) in
              rw (inherit_all, e, f) (rest.0 ∙ first.0, omega (arith, first.1, rest.1))
        ]
      ]

  created-associations :
      (now c : ℕ) (input : _) (s : Store R B)
      → (or_else (create_engram arithmetic.numbers now c input s) s).associations ≡ s.associations
  unfolding create_engram cache_add
  created-associations now c input s = ground arith

  correct-IsAdded :
      (now : ℕ) (draw : ℕ → ℕ) (c : ℕ) (r : Retraction) (target : Engram R B) (content : _)
      (s : Store R B)
      → IsAdded c 1 s (correct arithmetic now draw c r target content s)
  unfolding correct
  correct-IsAdded now draw c r target content s =
      let d =
        or_else
          (create_engram arithmetic.numbers now c (correction_input arithmetic r target content) s)
          s in
      let u =
        upsert_association now (draw 0) c target.id arithmetic.full invalidation arithmetic.full
          d in
      let made =
        unchanged c s d
          (created-associations now c (correction_input arithmetic r target content) s) in
      let linked =
        upsert-IsAdded now (draw 0) c target.id arithmetic.full invalidation arithmetic.full d in
      let left =
        unchanged c u (retract_engram now target.id (some c) u)
          (retract_engram-associations now target.id (some c) u) in
      IsAdded-trans c 1 0 s u (retract_engram now target.id (some c) u)
        (IsAdded-trans c 0 1 s d u made linked) left

  inherit_narrative-IsAdded :
      (now : ℕ) (draw : ℕ → ℕ) (retracted c : ℕ) (s : Store R B)
      → IsAdded c 10 s (inherit_narrative_edges arithmetic now draw retracted c s).0
  unfolding inherit_narrative_edges
  inherit_narrative-IsAdded now draw retracted c s =
      let cs =
        sort (heavier_first arithmetic)
          (select (is_candidate arithmetic retracted c) (get_associations_for retracted s)) in
      let all = inherit_all-IsAdded now draw retracted c (take 10 cs) s 0 in
      (all.0, omega (arith, all.1, length-take-le 10 cs))

  pub marked-none :
      (now : ℕ) (draw : ℕ → ℕ) (c : ℕ) (r : Retraction) (target : Engram R B) (s : Store R B)
      → counter arithmetic r ≡ none
      → marked arithmetic now draw c r target s ≡ retract_engram now target.id none s
  unfolding marked
  marked-none now draw c r target s e = rw (marked, e) refl

  pub marked-some :
      (now : ℕ) (draw : ℕ → ℕ) (c : ℕ) (r : Retraction) (target : Engram R B) (s : Store R B)
      {content : Text}
      → counter arithmetic r ≡ some content
      → marked arithmetic now draw c r target s
        ≡ correct arithmetic now draw c r target content (retract_engram now target.id none s)
  unfolding marked
  marked-some now draw c r target s e = rw (marked, e) refl

  inherited-none :
      (now : ℕ) (draw : ℕ → ℕ) (c : ℕ) (r : Retraction) (target : Engram R B) (m : Store R B)
      → counter arithmetic r ≡ none
      → (inherited arithmetic now draw c r target m).0 ≡ m
  unfolding inherited
  inherited-none now draw c r target m e = rw (inherited, e) refl

  inherited-some :
      (now : ℕ) (draw : ℕ → ℕ) (c : ℕ) (r : Retraction) (target : Engram R B) (m : Store R B)
      {content : Text}
      → counter arithmetic r ≡ some content
      → (inherited arithmetic now draw c r target m).0
        ≡ (inherit_narrative_edges arithmetic now (λ k. draw (k + 1)) target.id c m).0
  unfolding inherited
  inherited-some now draw c r target m e = rw (inherited, e) refl

  -- A retraction adds the edge of the correction and at most ten that it takes over, all of the correction.
  pub inherited-IsAdded :
      (now : ℕ) (draw : ℕ → ℕ) (c : ℕ) (r : Retraction) (target : Engram R B) (s : Store R B)
      → IsAdded c
          (edges_for (counter arithmetic r))
          s
          (inherited arithmetic now draw c r target (marked arithmetic now draw c r target s)).0
  inherited-IsAdded now draw c r target s =
      let m = marked arithmetic now draw c r target s in
      let t = retract_engram now target.id none s in
      let gone = unchanged c s t (retract_engram-associations now target.id none s) in
      elim (Option-cases (counter arithmetic r)) [
        | inl e ↦
            subst
              (λ (o : Option Text).
                IsAdded c (edges_for o) s (inherited arithmetic now draw c r target m).0)
              (sym e)
              (subst (λ (u : Store R B). IsAdded c 0 s u)
                (sym (inherited-none now draw c r target m e ∙ marked-none now draw c r target s e))
                gone)
        | inr (content, e) ↦
            let u = correct arithmetic now draw c r target content t in
            let linked =
              IsAdded-trans c 0 1 s t u gone (correct-IsAdded now draw c r target content t) in
            let after = λ (x : Store R B).
              (inherit_narrative_edges arithmetic now (λ k. draw (k + 1)) target.id c x).0 in
            subst
              (λ (o : Option Text).
                IsAdded c (edges_for o) s (inherited arithmetic now draw c r target m).0)
              (sym e)
              (subst (λ (x : Store R B). IsAdded c 11 s x)
                (sym (
                  inherited-some now draw c r target m e
                  ∙ ap after (marked-some now draw c r target s e)))
                (IsAdded-trans c 1 10 s u (after u) linked
                  (inherit_narrative-IsAdded now (λ k. draw (k + 1)) target.id c u)))
      ]
