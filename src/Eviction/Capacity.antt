-- ===== src/Eviction/Capacity.antt =====
-- The cap on the edges of an engram in src/engine/eviction.ts.
use agent_working_memory.Base.{
  ℕ, zero, suc, ◌+◌, ◌-◌, ◌≤◌, ◌<◌, ◌≡◌, refl, sym, ap, ◌∙◌, subst, Bool, true, ◌&&◌, Option, none,
  some, List, [], ◌∷◌, All, select, any, any-select, count_where-delete_where-le,
  count_where-delete_where-lt, count_where-none, if◌then◌else◌, ◌==◌, Option-cases, inl, inr, arith,
}
use agent_working_memory.Engrams.{Engram, Association, Store}
use agent_working_memory.Eviction.{
  Budgets, is_edge_of, count_associations_for, get_weakest_association, weakest, delete_association,
  prune, prune_one, prune_all, active_engrams, enforce_active, enforce_staging, enforce_capacity,
}

module _ {R : Type 0} (lt : R → R → Bool) where
  weakest-found :
      (a : Association R) (bs : List (Association R))
      → any (λ x. x.id == (weakest lt a bs).id) (a ∷ bs) ≡ true
  weakest-found a [] = ground arith
  weakest-found a (b ∷ bs) =
      ground (arith, weakest-found (if lt b.weight a.weight then b else a) bs)

module _ {R B : Type 0} (lt : R → R → Bool) where
  get_weakest_association-found :
      (i : ℕ) (s : Store R B) {a : Association R}
      → get_weakest_association lt i s ≡ some a
      → any (λ x. is_edge_of i x && (x.id == a.id)) s.associations ≡ true
  unfolding get_weakest_association
  get_weakest_association-found i s {a} h = found (select (is_edge_of i) s.associations) refl h
    where
      found :
          (xs : List (Association R))
          → select (is_edge_of i) s.associations ≡ xs
          → (elim xs [ [] ↦ none | b ∷ bs ↦ some (weakest lt b bs) ]) ≡ some a
          → any (λ x. is_edge_of i x && (x.id == a.id)) s.associations ≡ true
      found [] e g = absurd (cc)
      found (b ∷ bs) e g =
          let same : weakest lt b bs ≡ a = cc in
          sym (any-select (λ x. x.id == a.id) (is_edge_of i) s.associations)
          ∙ ap (any (λ x. x.id == a.id)) e
          ∙ subst (λ (c : Association R). any (λ x. x.id == c.id) (b ∷ bs) ≡ true) same
              (weakest-found lt b bs)

  get_weakest_association-none :
      (i : ℕ) (s : Store R B)
      → get_weakest_association lt i s ≡ none
      → count_associations_for i s ≡ 0
  unfolding get_weakest_association count_associations_for
  get_weakest_association-none i s h =
      count_where-none (is_edge_of i) s.associations
        (no_rows (select (is_edge_of i) s.associations) h)
    where
      no_rows :
          (xs : List (Association R))
          → (elim xs as (λ x. Option (Association R)) [
            | [] ↦ none
            | b ∷ bs ↦ some (weakest lt b bs)
          ])
            ≡ none
          → xs ≡ []
      no_rows [] g = refl
      no_rows (b ∷ bs) g = absurd (cc)

  delete_association-lt :
      (i : ℕ) (s : Store R B) (a : Association R)
      → get_weakest_association lt i s ≡ some a
      → count_associations_for i (delete_association a.id s) < count_associations_for i s
  unfolding count_associations_for delete_association
  delete_association-lt i s a e =
      count_where-delete_where-lt (is_edge_of i) (λ x. x.id == a.id) s.associations
        (get_weakest_association-found i s e)

  -- The loop ends with no more edges than the cap, if it starts with no more than the cap and its count.
  prune_bounded :
      (i cap to_remove : ℕ) (s : Store R B) (pruned : ℕ)
      → count_associations_for i s ≤ to_remove + cap
      → count_associations_for i (prune lt i to_remove s pruned).0 ≤ cap
  unfolding prune
  prune_bounded i cap zero s pruned h = omega arith
  prune_bounded i cap (suc to_remove) s pruned h =
      elim (Option-cases (get_weakest_association lt i s)) [
        | inl e ↦
            rw (prune, e)
              (prune_bounded i cap to_remove s pruned
                (omega (arith, get_weakest_association-none i s e)))
        | inr (a, e) ↦
            rw (prune, e)
              (prune_bounded i cap to_remove (delete_association a.id s) (pruned + 1)
                (omega (arith, delete_association-lt i s a e)))
      ]

  -- The other engrams' edges are at most those of before, and the engrams are the same.
  prune-le :
      (i k to_remove : ℕ) (s : Store R B) (pruned : ℕ)
      → count_associations_for k (prune lt i to_remove s pruned).0 ≤ count_associations_for k s
  unfolding prune count_associations_for delete_association
  prune-le i k zero s pruned = omega arith
  prune-le i k (suc to_remove) s pruned = elim (Option-cases (get_weakest_association lt i s)) [
    | inl e ↦ rw (prune, e) (prune-le i k to_remove s pruned)
    | inr (a, e) ↦
        rw (prune, e)
          (omega (
            arith,
            prune-le i k to_remove (delete_association a.id s) (pruned + 1),
            count_where-delete_where-le (is_edge_of k) (λ x. x.id == a.id) s.associations,
          ))
  ]

  prune-engrams :
      (i to_remove : ℕ) (s : Store R B) (pruned : ℕ)
      → (prune lt i to_remove s pruned).0.engrams ≡ s.engrams
  unfolding prune delete_association
  prune-engrams i zero s pruned = refl
  prune-engrams i (suc to_remove) s pruned = elim (Option-cases (get_weakest_association lt i s)) [
    | inl e ↦ rw (prune, e) (prune-engrams i to_remove s pruned)
    | inr (a, e) ↦
        rw (prune, e) (prune-engrams i to_remove (delete_association a.id s) (pruned + 1))
  ]

  prune_one_bounded :
      (cap i : ℕ) (s : Store R B) (pruned : ℕ)
      → count_associations_for i (prune_one lt cap i s pruned).0 ≤ cap
  unfolding prune_one
  prune_one_bounded cap i s pruned =
      ground (arith, prune_bounded i cap (count_associations_for i s - cap) s pruned)

  prune_one-le :
      (cap i k : ℕ) (s : Store R B) (pruned : ℕ)
      → count_associations_for k (prune_one lt cap i s pruned).0 ≤ count_associations_for k s
  unfolding prune_one
  prune_one-le cap i k s pruned =
      ground (arith, prune-le i k (count_associations_for i s - cap) s pruned)

  prune_one-engrams :
      (cap i : ℕ) (s : Store R B) (pruned : ℕ) → (prune_one lt cap i s pruned).0.engrams ≡ s.engrams
  unfolding prune_one
  prune_one-engrams cap i s pruned =
      ground (arith, prune-engrams i (count_associations_for i s - cap) s pruned)

  prune_all-le :
      (cap k : ℕ) (es : List (Engram R B)) (s : Store R B) (pruned : ℕ)
      → count_associations_for k (prune_all lt cap es s pruned).0 ≤ count_associations_for k s
  unfolding prune_all
  prune_all-le cap k [] s pruned = omega arith
  prune_all-le cap k (e ∷ es) s pruned =
      let after = prune_one lt cap e.id s pruned in
      omega (arith, prune_all-le cap k es after.0 after.1, prune_one-le cap e.id k s pruned)

  prune_all-engrams :
      (cap : ℕ) (es : List (Engram R B)) (s : Store R B) (pruned : ℕ)
      → (prune_all lt cap es s pruned).0.engrams ≡ s.engrams
  unfolding prune_all
  prune_all-engrams cap [] s pruned = refl
  prune_all-engrams cap (e ∷ es) s pruned =
      let after = prune_one lt cap e.id s pruned in
      prune_all-engrams cap es after.0 after.1 ∙ prune_one-engrams cap e.id s pruned

  prune_all_bounded :
      (cap : ℕ) (es : List (Engram R B)) (s : Store R B) (pruned : ℕ)
      → All (λ e. count_associations_for e.id (prune_all lt cap es s pruned).0 ≤ cap) es
  unfolding prune_all
  prune_all_bounded cap [] s pruned = tt
  prune_all_bounded cap (e ∷ es) s pruned =
      let after = prune_one lt cap e.id s pruned in
      (
        omega
            (arith, prune_all-le cap e.id es after.0 after.1, prune_one_bounded cap e.id s pruned),
        prune_all_bounded cap es after.0 after.1,
      )

  -- After a run of the capacity check, no live active engram of the agent has more outgoing edges than the cap, whatever the
  -- edges' ids and weights and whatever the comparison of weights.
  pub enforce_capacity_edges :
      (outlasts : Engram R B → Engram R B → Bool) (now agent : ℕ) (config : Budgets) (s : Store R B)
      → All
          (λ e.
            count_associations_for e.id (enforce_capacity outlasts lt now agent config s).0
            ≤ config.max_edges_per_engram)
          (active_engrams agent (enforce_capacity outlasts lt now agent config s).0)
  unfolding enforce_capacity
  enforce_capacity_edges outlasts now agent config s =
      let a = enforce_active outlasts now agent config s in
      let b = enforce_staging now agent config a.0 a.1 in
      let cap = config.max_edges_per_engram in
      let es = active_engrams agent b.0 in
      rw (prune_all-engrams cap es b.0 0) (prune_all_bounded cap es b.0 0)
