-- ===== src/Retraction.antt =====
-- The retraction of an engram, of src/engine/retraction.ts, on the store of Engrams. The arithmetic of
-- weights and confidences is a parameter; so are the ids drawn, by the order in which they are drawn.
pub mod Frame
pub mod Edges
pub mod Marks
pub mod Spread
mod Examples
use agent_working_memory.Base.{
  ℕ, zero, suc, ◌+◌, Bool, true, false, not, ◌&&◌, ◌||◌, Option, none, some, List, [], ◌∷◌, ◌++◌,
  take, length, any, find?, select, sort, update_where, or_else, Text, codes, if◌then◌else◌, leb,
  ◌==◌,
}
use agent_working_memory.Engrams.{
  Engram, Association, AssociationType, connection, causal, temporal, invalidation, Store,
  EngramCreate, Numbers, is_engram, update_confidence, retract_engram, create_engram,
}

pub record Arithmetic (R B : Type 0) : Type 0 where
  pub numbers : Numbers R B
  -- `Math.max(0, Math.min(1, c))`, `Math.max(c, 0.6)`, 0.7 and 1.0.
  pub clamp : R → R
  pub salience_floor : R → R
  pub correction_confidence : R
  pub full : R
  -- `w < 0.4`, `a < b` and `w * 0.7`.
  pub is_weak : R → Bool
  pub lighter : R → R → Bool
  pub scaled : R → R
  -- The cohesion of an engram's neighbourhood, and the confidence that is left of one for a weight, a cohesion and a depth.
  pub cohesion : Engram R B → Store R B → R
  pub lowered : R → R → R → ℕ → R

pub record Retraction : Type 0 where
  pub target_engram_id : ℕ
  pub agent_id : ℕ
  pub counter_content : Option Text

module _ {R B : Type 0} where
  abbrev pub get_engram : ℕ → Store R B → Option (Engram R B)
  get_engram i s = find? (is_engram i) s.engrams

  -- `INSERT … ON CONFLICT(from_engram_id, to_engram_id) DO UPDATE`; both engrams are there at every call below.
  unfoldable pub upsert_association :
      ℕ → ℕ → ℕ → ℕ → R → AssociationType → R → Store R B → Store R B
  upsert_association now i from to weight type confidence s =
      let is_pair : Association R → Bool =
        λ a. (a.from_engram_id == from) && (a.to_engram_id == to) in
      if any is_pair s.associations
      then record s {
        associations =
            update_where is_pair
              (λ a. record a {
                weight = weight;
                confidence = confidence;
                last_activated = now;
                activation_count = a.activation_count + 1;
              })
              s.associations;
      }
      else record s {
        associations =
            s.associations
            ++ record {
              id = i;
              from_engram_id = from;
              to_engram_id = to;
              weight = weight;
              confidence = confidence;
              type = type;
              activation_count = 0;
              created_at = now;
              last_activated = now;
            }
              ∷ [];
      }

  unfoldable pub get_associations_for : ℕ → Store R B → List (Association R)
  get_associations_for i s =
      select (λ a. (a.from_engram_id == i) || (a.to_engram_id == i)) s.associations

-- `NARRATIVE_INHERIT_SKIP_TYPES`.
abbrev pub is_skipped : AssociationType → Bool
is_skipped invalidation = true
is_skipped causal = true
is_skipped temporal = true
is_skipped _ = false

abbrev pub is_invalidation : AssociationType → Bool
is_invalidation invalidation = true
is_invalidation _ = false

abbrev pub narrative_inherit_max : ℕ
narrative_inherit_max = 10

abbrev pub max_affected : ℕ
max_affected = 20

-- The other end of an edge.
abbrev pub neighbor_of : {R : Type 0} → ℕ → Association R → ℕ
neighbor_of i a = if a.from_engram_id == i then a.to_engram_id else a.from_engram_id

module _ {R B : Type 0} (arithmetic : Arithmetic R B) where
  abbrev pub is_candidate : ℕ → ℕ → Association R → Bool
  is_candidate retracted correction a =
      not (is_skipped a.type)
      && (not (arithmetic.is_weak a.weight) && not (neighbor_of retracted a == correction))

  abbrev pub heavier_first : Association R → Association R → Bool
  heavier_first a b = arithmetic.lighter a.weight b.weight

  -- The loop over the heaviest candidates, with the number of edges inherited.
  unfoldable pub inherit_all :
      ℕ → (ℕ → ℕ) → ℕ → ℕ → List (Association R) → Store R B → ℕ → Store R B × ℕ
  inherit_all now draw retracted correction [] s inherited = (s, inherited)
  inherit_all now draw retracted correction (c ∷ cs) s inherited =
      let i = neighbor_of retracted c in
      let skip = inherit_all now draw retracted correction cs s inherited in
      let take_over =
        inherit_all now draw retracted correction cs
          (upsert_association now (draw inherited) correction i (arithmetic.scaled c.weight)
            connection c.confidence s)
          (inherited + 1) in
      elim (get_engram i s) [ none ↦ skip | some n ↦ if n.retracted then skip else take_over ]

  unfoldable pub inherit_narrative_edges : ℕ → (ℕ → ℕ) → ℕ → ℕ → Store R B → Store R B × ℕ
  inherit_narrative_edges now draw retracted correction s =
      inherit_all now draw retracted correction
        (take narrative_inherit_max (
          sort heavier_first
            (select (is_candidate retracted correction) (get_associations_for retracted s))))
        s 0

  -- The store, the set of visited ids and the number of engrams affected.
  abbrev pub Spread : Type 0
  Spread = Store R B × List ℕ × ℕ

  -- The loop over an engram's edges, with the recursion to the next depth.
  unfoldable pub spread_edges :
      (ℕ → Spread → Spread) → R → ℕ → ℕ → List (Association R) → Spread → Spread
  spread_edges next cohesion depth i [] st = st
  spread_edges next cohesion depth i (a ∷ as') (s, visited, affected) =
      let n = neighbor_of i a in
      let pass = spread_edges next cohesion depth i as' (s, visited, affected) in
      let hit = λ (e : Engram R B). spread_edges next cohesion depth i as' (
        next n (
          update_confidence arithmetic.clamp n
              (arithmetic.lowered e.confidence a.weight cohesion depth) s,
          visited,
          affected + 1,
        )) in
      if is_invalidation a.type
      then pass
      else if leb max_affected (length visited)
      then (s, visited, affected)
      else if any (λ v. v == n) visited
      then pass
      else elim (get_engram n s) [ none ↦ pass | some e ↦ if e.retracted then pass else hit e ]

  -- By the depth that is left; `visited` is a set.
  unfoldable pub propagate : ℕ → R → ℕ → ℕ → Spread → Spread
  unfolding spread_edges
  propagate zero cohesion depth i st = st
  propagate (suc left) cohesion depth i (s, visited, affected) =
      let seen = if any (λ v. v == i) visited then visited else visited ++ i ∷ [] in
      let spread =
        spread_edges (propagate left cohesion (depth + 1)) cohesion depth i
          (get_associations_for i s) (s, seen, affected) in
      if leb max_affected (length visited) then (s, visited, affected) else spread

  abbrev pub correction_input : Retraction → Engram R B → Text → EngramCreate R
  correction_input r target content = record {
    agent_id = r.agent_id;
    concept = codes "correction:" ++ target.concept;
    content = content;
    embedding = none;
    confidence = some arithmetic.correction_confidence;
    salience = some (arithmetic.salience_floor target.salience);
    ttl = none;
    memory_class = none;
    supersedes = none;
    tags = target.tags ++ codes "correction" ∷ codes "retraction" ∷ [];
    questions = [];
  }

  -- The correction: the engram, its edge to the target, and the target's mark.
  unfoldable pub correct : ℕ → (ℕ → ℕ) → ℕ → Retraction → Engram R B → Text → Store R B → Store R B
  correct now draw c r target content s = retract_engram now target.id (some c) (
      upsert_association now (draw 0) c target.id arithmetic.full invalidation arithmetic.full
        (or_else (create_engram arithmetic.numbers now c (correction_input r target content) s) s))

  -- `!counterContent` holds of an empty text.
  abbrev pub counter : Retraction → Option Text
  counter r = elim r.counter_content [
    | none ↦ none
    | some [] ↦ none
    | some (x ∷ content) ↦ some (x ∷ content)
  ]

  unfoldable pub marked : ℕ → (ℕ → ℕ) → ℕ → Retraction → Engram R B → Store R B → Store R B
  marked now draw c r target s =
      let t = retract_engram now target.id none s in
      elim (counter r) [ none ↦ t | some content ↦ correct now draw c r target content t ]

  unfoldable pub inherited : ℕ → (ℕ → ℕ) → ℕ → Retraction → Engram R B → Store R B → Store R B × ℕ
  inherited now draw c r target s = elim (counter r) [
    | none ↦ (s, 0)
    | some content ↦ inherit_narrative_edges now (λ k. draw (k + 1)) target.id c s
  ]

  -- `retract`; `none` where there is no such engram.
  unfoldable pub retract : ℕ → (ℕ → ℕ) → ℕ → Retraction → Store R B → Option (Store R B × ℕ × ℕ)
  retract now draw c r s = elim (get_engram r.target_engram_id s) [
    | none ↦ none
    | some target ↦
        let t = inherited now draw c r target (marked now draw c r target s) in
        let spread = propagate 2 (arithmetic.cohesion target t.0) 0 target.id (t.0, [], 0) in
        some (spread.0, spread.2, t.1)
  ]
