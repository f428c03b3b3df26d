-- ===== src/Retraction/Spread.antt =====
-- What the propagation of a retraction in src/engine/retraction.ts leaves: whatever the change of a confidence leaves.
use agent_working_memory.Base.{
  ℕ, zero, suc, ◌+◌, ◌≡◌, refl, ◌∙◌, Bool, true, false, Option, none, some, List, [], ◌∷◌, length,
  any, if◌then◌else◌, leb, ◌==◌,
}
use agent_working_memory.Engrams.{Engram, Association, Store, update_confidence}
use agent_working_memory.Retraction.{
  Arithmetic, get_engram, get_associations_for, is_invalidation, max_affected, neighbor_of, Spread,
  spread_edges, propagate,
}

module _ {R B X : Type 0} (arithmetic : Arithmetic R B) (view : Store R B → X)
    (kept : (i : ℕ) (c : R) (s : Store R B)
      → view (update_confidence arithmetic.clamp i c s) ≡ view s) where
  if-view :
      (b : Bool) (x y : Spread arithmetic) (v : X)
      → view x.0 ≡ v
      → view y.0 ≡ v
      → view (if b then x else y).0 ≡ v
  if-view true x y v h k = h
  if-view false x y v h k = k

  elim-view :
      (o : Option (Engram R B)) (pass : Spread arithmetic) (hit : Engram R B → Spread arithmetic)
      (v : X)
      → view pass.0 ≡ v
      → ((e : Engram R B) → view (hit e).0 ≡ v)
      → view (elim o as (λ x. Spread arithmetic) [ none ↦ pass | some e ↦ hit e ]).0 ≡ v
  elim-view none pass hit v h k = h
  elim-view (some e) pass hit v h k = k e

  spread_edges-view :
      (next : ℕ → Spread arithmetic → Spread arithmetic)
      → ((i : ℕ) (st : Spread arithmetic) → view (next i st).0 ≡ view st.0)
      → (cohesion : R) (depth i : ℕ) (as' : List (Association R)) (st : Spread arithmetic)
      → view (spread_edges arithmetic next cohesion depth i as' st).0 ≡ view st.0
  unfolding spread_edges
  spread_edges-view next h cohesion depth i [] st = refl
  spread_edges-view next h cohesion depth i (a ∷ as') (s, visited, affected) =
      let n : ℕ = neighbor_of i a in
      let pass = spread_edges-view next h cohesion depth i as' (s, visited, affected) in
      if-view (is_invalidation a.type) _ _ _ pass (
        if-view (leb max_affected (length visited)) (s, visited, affected) _ _ refl
          (if-view (any (λ v. v == n) visited) _ _ _ pass (
            elim-view (get_engram n s) _ _ (view s) pass (λ e. if-view e.retracted _ _ _ pass (
              spread_edges-view next h cohesion depth i as' _
              ∙ h n _
              ∙ kept n (arithmetic.lowered e.confidence a.weight cohesion depth) s)))))

  pub propagate-view :
      (left : ℕ) (cohesion : R) (depth i : ℕ) (st : Spread arithmetic)
      → view (propagate arithmetic left cohesion depth i st).0 ≡ view st.0
  unfolding propagate
  propagate-view zero cohesion depth i st = refl
  propagate-view (suc left) cohesion depth i (s, visited, affected) =
      if-view (leb max_affected (length visited)) (s, visited, affected) _ _ refl
        (spread_edges-view (propagate arithmetic left cohesion (depth + 1))
          (λ k st. propagate-view left cohesion (depth + 1) k st) cohesion depth i
          (get_associations_for i s) _)
