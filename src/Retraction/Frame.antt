-- ===== src/Retraction/Frame.antt =====
-- What a retraction of src/engine/retraction.ts leaves as it is.
use agent_working_memory.Base.{
  ℕ, ◌+◌, ◌≤◌, ◌≡◌, refl, sym, ap, ◌∙◌, subst, Bool, true, false, not, ◌&&◌, any-map, All, Text,
  update_where, Option, none, some, List, [], ◌∷◌, ◌++◌, map, take, length, any, select, sort,
  ==_iff, Bool-cases, Option-cases, inl, inr, arith, length-map, map-append, map-update_where,
  map-update_where_kept, length-take-le, find?-sound,
}
use agent_working_memory.Engrams.{
  Engram, Association, Store, is_engram, update_confidence, retract_engram, cache_update,
  connection,
}
use agent_working_memory.Retraction.{
  Arithmetic, Retraction, get_engram, upsert_association, get_associations_for, neighbor_of,
  inherit_all, inherit_narrative_edges, propagate, correct, counter, marked, inherited, retract,
  is_candidate, heavier_first,
}
use agent_working_memory.Retraction.Edges.{from_others, edges_for, inherited-IsAdded}
use agent_working_memory.Retraction.Spread.{propagate-view}
use agent_working_memory.Retraction.Marks.{
  by_for, rows_for, as_retracted, upsert_association-engrams, marked-engrams,
}

module _ {R B : Type 0} (arithmetic : Arithmetic R B) (blank : R) where
  -- An engram without its confidence.
  abbrev pub besides_confidence : Engram R B → Engram R B
  besides_confidence e = record e { confidence = blank }

  abbrev pub view : Store R B → List (Engram R B)
  view s = map besides_confidence s.engrams

  update_confidence-view :
      (i : ℕ) (c : R) (s : Store R B) → view (update_confidence arithmetic.clamp i c s) ≡ view s
  unfolding update_confidence
  update_confidence-view i c s =
      map-update_where_kept besides_confidence (is_engram i) _ (λ e. refl) s.engrams

  update_confidence-associations :
      (i : ℕ) (c : R) (s : Store R B)
      → (update_confidence arithmetic.clamp i c s).associations ≡ s.associations
  unfolding update_confidence
  update_confidence-associations i c s = refl

  inherit_all-engrams :
      (now : ℕ) (draw : ℕ → ℕ) (retracted correction : ℕ) (cs : List (Association R))
      (s : Store R B) (k : ℕ)
      → (inherit_all arithmetic now draw retracted correction cs s k).0.engrams ≡ s.engrams
  unfolding inherit_all
  inherit_all-engrams now draw retracted correction [] s k = refl
  inherit_all-engrams now draw retracted correction (c ∷ cs) s k =
      let i : ℕ = neighbor_of retracted c in
      elim (Option-cases (get_engram i s)) [
        | inl e ↦ rw (inherit_all, e) (inherit_all-engrams now draw retracted correction cs s k)
        | inr (n, e) ↦ elim (Bool-cases n.retracted) [
          | inl t ↦
              rw (inherit_all, e, t) (inherit_all-engrams now draw retracted correction cs s k)
          | inr f ↦
              rw (inherit_all, e, f)
                (inherit_all-engrams now draw retracted correction cs _ (k + 1)
                  ∙ upsert_association-engrams now (draw k) correction i _ _ _ s)
        ]
      ]

  inherited-engrams :
      (now : ℕ) (draw : ℕ → ℕ) (c : ℕ) (r : Retraction) (target : Engram R B) (s : Store R B)
      → (inherited arithmetic now draw c r target s).0.engrams ≡ s.engrams
  unfolding inherited inherit_narrative_edges
  inherited-engrams now draw c r target s = elim (Option-cases (counter arithmetic r)) [
    | inl e ↦ rw (inherited, e) refl
    | inr (content, e) ↦
        rw (inherited, e) (inherit_all-engrams now (λ k. draw (k + 1)) target.id c _ s 0)
  ]

  is_live : ℕ → Engram R B → Bool
  is_live i e = is_engram i e && not e.retracted

  any-view : (i : ℕ) (s : Store R B) → any (is_live i) (view s) ≡ any (is_live i) s.engrams
  unfolding is_live
  any-view i s = any-map besides_confidence (is_live i) (is_live i) (λ e. refl) s.engrams

  retracted_rows :
      (now i : ℕ) (by : Option ℕ) (es : List (Engram R B))
      → any (is_live i) (
          update_where
            (is_engram i)
            (λ e. record e { retracted = true; retracted_by = by; retracted_at = some now })
            es)
        ≡ false
  unfolding is_live
  retracted_rows now i by [] = refl
  retracted_rows now i by (e ∷ es) = ground (arith, retracted_rows now i by es)

  retract_engram-dead :
      (now i : ℕ) (by : Option ℕ) (s : Store R B)
      → any (is_live i) (retract_engram now i by s).engrams ≡ false
  unfolding retract_engram cache_update
  retract_engram-dead now i by s = ground (arith, retracted_rows now i by s.engrams)

  marked-dead :
      (now : ℕ) (draw : ℕ → ℕ) (c : ℕ) (r : Retraction) (target : Engram R B) (s : Store R B)
      → any (is_live target.id) (marked arithmetic now draw c r target s).engrams ≡ false
  unfolding marked correct
  marked-dead now draw c r target s = elim (Option-cases (counter arithmetic r)) [
    | inl e ↦ rw (marked, e) (retract_engram-dead now target.id none s)
    | inr (content, e) ↦ rw (marked, e) (retract_engram-dead now target.id (some c) _)
  ]

  inherit_all_bounded :
      (now : ℕ) (draw : ℕ → ℕ) (retracted correction : ℕ) (cs : List (Association R))
      (s : Store R B) (k : ℕ)
      → (inherit_all arithmetic now draw retracted correction cs s k).1 ≤ k + length cs
  unfolding inherit_all
  inherit_all_bounded now draw retracted correction [] s k = omega arith
  inherit_all_bounded now draw retracted correction (c ∷ cs) s k =
      let i : ℕ = neighbor_of retracted c in
      elim (Option-cases (get_engram i s)) [
        | inl e ↦
            rw (inherit_all, e)
              (omega (arith, inherit_all_bounded now draw retracted correction cs s k))
        | inr (n, e) ↦ elim (Bool-cases n.retracted) [
          | inl t ↦
              rw (inherit_all, e, t)
                (omega (arith, inherit_all_bounded now draw retracted correction cs s k))
          | inr f ↦
              let t =
                upsert_association now (draw k) correction i (arithmetic.scaled c.weight) connection
                  c.confidence s in
              rw (inherit_all, e, f)
                (omega (arith, inherit_all_bounded now draw retracted correction cs t (k + 1)))
        ]
      ]

  inherited_bounded :
      (now : ℕ) (draw : ℕ → ℕ) (c : ℕ) (r : Retraction) (target : Engram R B) (s : Store R B)
      → (inherited arithmetic now draw c r target s).1 ≤ 10
  unfolding inherited inherit_narrative_edges
  inherited_bounded now draw c r target s = elim (Option-cases (counter arithmetic r)) [
    | inl e ↦ rw (inherited, e) (omega arith)
    | inr (content, e) ↦
        let cs =
          sort (heavier_first arithmetic)
            (select (is_candidate arithmetic target.id c) (get_associations_for target.id s)) in
        rw (inherited, e)
          (omega (
            arith,
            inherit_all_bounded now (λ k. draw (k + 1)) target.id c (take 10 cs) s 0,
            length-take-le 10 cs,
          ))
  ]

  -- What a retraction of `i` leaves of a store: no row of `i` is live; but for confidences the engrams are those of
  -- before, with `i` marked, and the correction `c` if there is one; the associations that are not the correction's are
  -- those of before, and there is at most its edge to `i` and ten that it takes over besides.
  pub record IsFramed (now c i : ℕ) (content : Option Text) (s t : Store R B) : Type 0 where
    pub dead : any (λ e. is_engram i e && not e.retracted) t.engrams ≡ false
    pub correction : List (Engram R B)
    pub at_most_one : length correction ≤ rows_for content
    pub its_id : All (λ e. e.id ≡ c) correction
    pub engrams :
        map besides_confidence t.engrams
        ≡ update_where
            (is_engram i)
            (as_retracted now (by_for c content))
            (map besides_confidence s.engrams ++ correction)
    pub associations : from_others c t.associations ≡ from_others c s.associations
    pub edges : length t.associations ≤ length s.associations + edges_for content

  All-besides :
      (c : ℕ) (es : List (Engram R B))
      → All (λ e. e.id ≡ c) es
      → All (λ e. e.id ≡ c) (map besides_confidence es)
  All-besides c [] h = tt
  All-besides c (e ∷ es) h = (h.0, All-besides c es h.1)

  length-besides : (es : List (Engram R B)) → length (map besides_confidence es) ≡ length es
  length-besides es = length-map besides_confidence es

  -- The last step, the propagation, changes confidences only.
  framed :
      (now : ℕ) (draw : ℕ → ℕ) (c : ℕ) (r : Retraction) (target : Engram R B) (s t : Store R B)
      → view t ≡ view (marked arithmetic now draw c r target s)
      → t.associations
        ≡ (inherited arithmetic now draw c r target
            (marked arithmetic now draw c r target s)).0.associations
      → IsFramed now c target.id (counter arithmetic r) s t
  unfolding is_live
  framed now draw c r target s t v w =
      let m = marked arithmetic now draw c r target s in
      let (extra, few, ids, rows) = marked-engrams arithmetic now draw c r target s in
      let by = by_for c (counter arithmetic r) in
      let added = inherited-IsAdded arithmetic now draw c r target s in
      record {
        dead =
            sym (any-view target.id t)
            ∙ ap (any (is_live target.id)) v
            ∙ any-view target.id m
            ∙ marked-dead now draw c r target s;
        correction = map besides_confidence extra;
        at_most_one = omega (arith, few, length-besides extra);
        its_id = All-besides c extra ids;
        engrams =
            v
            ∙ ap (map besides_confidence) rows
            ∙ map-update_where besides_confidence (is_engram target.id) (is_engram target.id)
                (as_retracted now by) (as_retracted now by) (λ x. refl) (λ x. refl)
                (s.engrams ++ extra)
            ∙ ap (update_where (is_engram target.id) (as_retracted now by))
                (map-append besides_confidence s.engrams extra);
        associations = ap (from_others c) w ∙ added.0;
        edges = rw w added.1;
      }

  -- The retraction of an engram that is there goes through and reports ten inherited edges at most. No row of the engram is
  -- live afterwards. But for confidences the engrams are those of before, with the retracted one marked, and one correction at
  -- most, where content for it is given. The associations of other engrams than the correction are those of before, and
  -- at most eleven are added, none without content. Both hold whatever the arithmetic.
  pub retract_frame :
      (now : ℕ) (draw : ℕ → ℕ) (c : ℕ) (r : Retraction) (s : Store R B) {target : Engram R B}
      → get_engram r.target_engram_id s ≡ some target
      → (t : Store R B) × (k : ℕ) × (l : ℕ) × (retract arithmetic now draw c r s ≡ some (t, k, l))
        × (l ≤ 10)
        × IsFramed now c r.target_engram_id (counter arithmetic r) s t
  unfolding retract
  retract_frame now draw c r s {target} e =
      let m = inherited arithmetic now draw c r target (marked arithmetic now draw c r target s) in
      let spread =
        propagate arithmetic 2 (arithmetic.cohesion target m.0) 0 target.id (m.0, [], 0) in
      let same : target.id ≡ r.target_engram_id =
        (==_iff target.id r.target_engram_id).0
          (find?-sound (is_engram r.target_engram_id) s.engrams e) in
      (
        spread.0,
        spread.2,
        m.1,
        rw (retract, e) refl,
        inherited_bounded now draw c r target (marked arithmetic now draw c r target s),
        subst (λ i. IsFramed now c i (counter arithmetic r) s spread.0) same
            (framed now draw c r target s spread.0
              (propagate-view arithmetic view update_confidence-view 2
                  (arithmetic.cohesion target m.0) 0 target.id (m.0, [], 0)
                ∙ ap (map besides_confidence) (
                    inherited-engrams now draw c r target
                      (marked arithmetic now draw c r target s)))
              (propagate-view arithmetic (λ (t : Store R B). t.associations)
                update_confidence-associations 2 (arithmetic.cohesion target m.0) 0 target.id
                (m.0, [], 0))),
      )
