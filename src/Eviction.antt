-- ===== src/Eviction.antt =====
-- The budgets of src/engine/eviction.ts and the sweep of src/engine/staging.ts, with the statements of
-- src/storage/sqlite.ts that they make. The score by which engrams stand for eviction, the comparison of
-- weights and the decay of a weight are parameters, and so is whether a recall finds something close.
pub mod Capacity
pub mod Sweep
mod Examples
use agent_working_memory.Base.{
  ℕ, zero, suc, ◌+◌, ◌-◌, Bool, true, false, not, ◌&&◌, Option, none, some, List, [], ◌∷◌, ◌++◌,
  take, sort, select, count_where, update_where, delete_where, if◌then◌else◌, ltb, ◌==◌,
}
use agent_working_memory.Engrams.{
  Stage, staging, active, archived, stage_eq, MemoryClass, ephemeral, Engram, Association, Store,
  update_stage, delete_engram,
}

-- `AgentConfig`'s budgets.
pub record Budgets : Type 0 where
  pub max_active_engrams : ℕ
  pub max_staging_engrams : ℕ
  pub max_edges_per_engram : ℕ

pub record Evicted : Type 0 where
  pub evicted : ℕ
  pub edges_pruned : ℕ

-- `e.ttl && createdAt + ttl < now`: a ttl of zero is no ttl.
abbrev pub ttl_over : ℕ → Option ℕ → ℕ → Bool
ttl_over created_at none now = false
ttl_over created_at (some zero) now = false
ttl_over created_at (some (suc t)) now = ltb (created_at + suc t) now

abbrev pub is_ephemeral : MemoryClass → Bool
is_ephemeral ephemeral = true
is_ephemeral _ = false

module _ {R : Type 0} where
  abbrev pub is_edge_of : ℕ → Association R → Bool
  is_edge_of i a = a.from_engram_id == i

  -- The first row of least weight.
  abbrev pub weakest : (R → R → Bool) → Association R → List (Association R) → Association R
  weakest lt a [] = a
  weakest lt a (b ∷ bs) = weakest lt (if lt b.weight a.weight then b else a) bs

module _ {R B : Type 0} where
  abbrev pub is_at : ℕ → Stage → Engram R B → Bool
  is_at agent stage e = (e.agent_id == agent) && stage_eq e.stage stage

  unfoldable pub get_active_count : ℕ → Store R B → ℕ
  get_active_count agent s = count_where (is_at agent active) s.engrams

  unfoldable pub get_staging_count : ℕ → Store R B → ℕ
  get_staging_count agent s = count_where (is_at agent staging) s.engrams

  -- `lastsLonger x y`: the score of x is greater than that of y.
  unfoldable pub get_eviction_candidates :
      (Engram R B → Engram R B → Bool) → ℕ → ℕ → Store R B → List (Engram R B)
  get_eviction_candidates outlasts agent limit s =
      take limit (sort outlasts (select (λ e. is_at agent active e && not e.retracted) s.engrams))

  unfoldable pub get_expired_staging : ℕ → Store R B → List (Engram R B)
  get_expired_staging now s =
      select (λ e. stage_eq e.stage staging && ttl_over e.created_at e.ttl now) s.engrams

  unfoldable pub get_expired_ephemeral : ℕ → Store R B → List (Engram R B)
  get_expired_ephemeral now s =
      select
        (λ e.
          stage_eq e.stage active
          && is_ephemeral e.memory_class
          && not e.retracted
          && ttl_over e.created_at e.ttl now)
        s.engrams

  unfoldable pub count_associations_for : ℕ → Store R B → ℕ
  count_associations_for i s = count_where (is_edge_of i) s.associations

  unfoldable pub get_weakest_association : (R → R → Bool) → ℕ → Store R B → Option (Association R)
  get_weakest_association lt i s = elim (select (is_edge_of i) s.associations) [
    | [] ↦ none
    | a ∷ as' ↦ some (weakest lt a as')
  ]

  unfoldable pub delete_association : ℕ → Store R B → Store R B
  delete_association i s = record s { associations = delete_where (λ a. a.id == i) s.associations }

  -- `for (const engram of candidates) { updateStage(engram.id, 'archived'); evicted++; }`
  unfoldable pub archive_all : ℕ → List (Engram R B) → Store R B → ℕ → Store R B × ℕ
  archive_all now [] s evicted = (s, evicted)
  archive_all now (e ∷ es) s evicted =
      archive_all now es (update_stage now e.id archived s) (evicted + 1)

  unfoldable pub delete_all : List (Engram R B) → Store R B → ℕ → Store R B × ℕ
  delete_all [] s evicted = (s, evicted)
  delete_all (e ∷ es) s evicted = delete_all es (delete_engram e.id s) (evicted + 1)

  -- `while (toRemove > 0)`, by the counter itself.
  unfoldable pub prune : (R → R → Bool) → ℕ → ℕ → Store R B → ℕ → Store R B × ℕ
  prune lt i zero s pruned = (s, pruned)
  prune lt i (suc to_remove) s pruned = elim (get_weakest_association lt i s) [
    | none ↦ prune lt i to_remove s pruned
    | some a ↦ prune lt i to_remove (delete_association a.id s) (pruned + 1)
  ]

  -- Down to the cap, where an engram has more edges.
  unfoldable pub prune_one : (R → R → Bool) → ℕ → ℕ → Store R B → ℕ → Store R B × ℕ
  prune_one lt cap i s pruned =
      let count = count_associations_for i s in
      if ltb cap count then prune lt i (count - cap) s pruned else (s, pruned)

  unfoldable pub prune_all : (R → R → Bool) → ℕ → List (Engram R B) → Store R B → ℕ → Store R B × ℕ
  prune_all lt cap [] s pruned = (s, pruned)
  prune_all lt cap (e ∷ es) s pruned =
      let after = prune_one lt cap e.id s pruned in prune_all lt cap es after.0 after.1

  unfoldable pub enforce_active :
      (Engram R B → Engram R B → Bool) → ℕ → ℕ → Budgets → Store R B → Store R B × ℕ
  enforce_active outlasts now agent config s =
      let count = get_active_count agent s in
      if ltb config.max_active_engrams count
      then archive_all now
          (get_eviction_candidates outlasts agent (count - config.max_active_engrams) s) s 0
      else (s, 0)

  unfoldable pub enforce_staging : ℕ → ℕ → Budgets → Store R B → ℕ → Store R B × ℕ
  enforce_staging now agent config s evicted =
      if ltb config.max_staging_engrams (get_staging_count agent s)
      then delete_all (get_expired_staging now s) s evicted
      else (s, evicted)

  -- `getEngramsByAgent(agentId, 'active')`.
  abbrev pub active_engrams : ℕ → Store R B → List (Engram R B)
  active_engrams agent s = select (λ e. is_at agent active e && not e.retracted) s.engrams

  unfoldable pub enforce_capacity :
      (Engram R B → Engram R B → Bool)
      → (R → R → Bool)
      → ℕ
      → ℕ
      → Budgets
      → Store R B
      → Store R B × Evicted
  enforce_capacity outlasts lt now agent config s =
      let a = enforce_active outlasts now agent config s in
      let b = enforce_staging now agent config a.0 a.1 in
      let c = prune_all lt config.max_edges_per_engram (active_engrams agent b.0) b.0 0 in
      (c.0, record { evicted = b.1; edges_pruned = c.1 })

  -- `sweep` of the staging buffer, the recall answering for each engram whether it finds something close.
  unfoldable pub archive_notes : ℕ → List (Engram R B) → Store R B → Store R B
  archive_notes now [] s = s
  archive_notes now (e ∷ es) s = archive_notes now es (update_stage now e.id archived s)

  unfoldable pub sort_out :
      (Engram R B → Store R B → Bool)
      → ℕ
      → List (Engram R B)
      → Store R B
      → List ℕ
      → List ℕ
      → Store R B × List ℕ × List ℕ
  sort_out resonates now [] s promoted discarded = (s, promoted, discarded)
  sort_out resonates now (e ∷ es) s promoted discarded =
      let promote =
        sort_out resonates now es (update_stage now e.id active s) (promoted ++ e.id ∷ [])
          discarded in
      let discard =
        sort_out resonates now es (delete_engram e.id s) promoted (discarded ++ e.id ∷ []) in
      if resonates e s then promote else discard

  unfoldable pub sweep_staging :
      (Engram R B → Store R B → Bool) → ℕ → Store R B → Store R B × List ℕ × List ℕ
  sweep_staging resonates now s =
      let t = archive_notes now (get_expired_ephemeral now s) s in
      sort_out resonates now (get_expired_staging now t) t [] []
