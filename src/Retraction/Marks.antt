-- ===== src/Retraction/Marks.antt =====
-- The engrams after the target of a retraction is marked and its correction made, in src/engine/retraction.ts.
use agent_working_memory.Base.{
  ℕ, ◌≤◌, ◌≡◌, refl, sym, ap, ◌∙◌, subst, true, All, Text, or_else, update_where, Option, none,
  some, List, [], ◌∷◌, ◌++◌, length, any, Bool-cases, Option-cases, inl, inr, arith,
}
use mathlib.Core.List.{append-nil}
use agent_working_memory.Engrams.{
  Engram, EngramCreate, Store, is_engram, retract_engram, cache_update, invalidation, create_engram,
  cache_add, engram_of,
}
use agent_working_memory.Retraction.{
  Arithmetic, Retraction, upsert_association, correction_input, correct, counter, marked,
}
use agent_working_memory.Retraction.Edges.{marked-none, marked-some}

-- Who is named as the one that retracts, and how many engrams are made, by the content of the correction.
abbrev pub by_for : ℕ → Option Text → Option ℕ
by_for c none = none
by_for c (some content) = some c

abbrev pub rows_for : Option Text → ℕ
rows_for none = 0
rows_for (some content) = 1

module _ {R B : Type 0} where
  abbrev pub as_retracted : ℕ → Option ℕ → Engram R B → Engram R B
  as_retracted now by e = record e { retracted = true; retracted_by = by; retracted_at = some now }

  retract_engram-engrams :
      (now i : ℕ) (by : Option ℕ) (s : Store R B)
      → (retract_engram now i by s).engrams
        ≡ update_where (is_engram i) (as_retracted now by) s.engrams
  unfolding retract_engram cache_update
  retract_engram-engrams now i by s = ground arith

  -- Of two marks the later one stays.
  marked_again :
      (now i : ℕ) (a b : Option ℕ) (xs ys : List (Engram R B))
      → update_where
          (is_engram i)
          (as_retracted now b)
          (update_where (is_engram i) (as_retracted now a) xs ++ ys)
        ≡ update_where (is_engram i) (as_retracted now b) (xs ++ ys)
  marked_again now i a b [] ys = refl
  marked_again now i a b (x ∷ xs) ys = ground (arith, marked_again now i a b xs ys)

  pub upsert_association-engrams :
      (now i from to : ℕ) (weight : R) (type : _) (confidence : R) (s : Store R B)
      → (upsert_association now i from to weight type confidence s).engrams ≡ s.engrams
  unfolding upsert_association
  upsert_association-engrams now i from to weight type confidence s = ground arith

module _ {R B : Type 0} (arithmetic : Arithmetic R B) where
  created :
      (now c : ℕ) (input : EngramCreate R) (s : Store R B)
      → (extra : List (Engram R B)) × (length extra ≤ 1)
        × All (λ e. e.id ≡ c) extra
        × ((or_else (create_engram arithmetic.numbers now c input s) s).engrams
            ≡ s.engrams ++ extra)
  unfolding create_engram cache_add
  created now c input s = elim (Bool-cases (any (is_engram c) s.engrams)) [
    | inl e ↦ ([], omega arith, tt, rw (create_engram, e) (sym (append-nil s.engrams)))
    | inr e ↦ (
      engram_of arithmetic.numbers now c input ∷ [],
      omega arith,
      (refl, tt),
      rw (create_engram, e) (ground arith),
    )
  ]

  -- The engrams that marking the target and making the correction leave.
  pub marked-engrams :
      (now : ℕ) (draw : ℕ → ℕ) (c : ℕ) (r : Retraction) (target : Engram R B) (s : Store R B)
      → (extra : List (Engram R B)) × (length extra ≤ rows_for (counter arithmetic r))
        × All (λ e. e.id ≡ c) extra
        × ((marked arithmetic now draw c r target s).engrams
            ≡ update_where
                (is_engram target.id)
                (as_retracted now (by_for c (counter arithmetic r)))
                (s.engrams ++ extra))
  unfolding correct
  marked-engrams now draw c r target s = elim (Option-cases (counter arithmetic r)) [
    | inl e ↦ (
      [],
      omega arith,
      tt,
      ap (λ (t : Store R B). t.engrams) (marked-none arithmetic now draw c r target s e)
          ∙ retract_engram-engrams now target.id none s
          ∙ ap
              (λ (o : Option Text).
                update_where (is_engram target.id) (as_retracted now (by_for c o)) s.engrams)
              (sym e)
          ∙ ap
              (update_where (is_engram target.id)
                (as_retracted now (by_for c (counter arithmetic r))))
              (sym (append-nil s.engrams)),
    )
    | inr (content, e) ↦
        let t = retract_engram now target.id none s in
        let input = correction_input arithmetic r target content in
        let (extra, few, ids, rows) = created now c input t in
        let d = or_else (create_engram arithmetic.numbers now c input t) t in
        let u =
          upsert_association now (draw 0) c target.id arithmetic.full invalidation arithmetic.full
            d in
        (
          extra,
          subst (λ (o : Option Text). length extra ≤ rows_for o) (sym e) few,
          ids,
          ap (λ (t : Store R B). t.engrams) (marked-some arithmetic now draw c r target s e)
              ∙ retract_engram-engrams now target.id (some c) u
              ∙ ap (update_where (is_engram target.id) (as_retracted now (some c))) (
                  upsert_association-engrams now (draw 0) c target.id arithmetic.full invalidation
                    arithmetic.full d
                  ∙ rows
                  ∙ ap (λ xs. xs ++ extra) (retract_engram-engrams now target.id none s))
              ∙ marked_again now target.id none (some c) s.engrams extra
              ∙ ap
                  (λ (o : Option Text).
                    update_where (is_engram target.id) (as_retracted now (by_for c o))
                      (s.engrams ++ extra))
                  (sym e),
        )
  ]
