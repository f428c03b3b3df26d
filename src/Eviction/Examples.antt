-- ===== src/Eviction/Examples.antt =====
-- A capacity check and a sweep on a small store.
use agent_working_memory.Base.{
  ℕ, ◌≤◌, ◌≡◌, refl, Bool, true, false, Option, none, some, [], ◌∷◌, codes, All, any, ltb, ◌==◌,
}
use agent_working_memory.Engrams.{
  Engram, Association, Store, Stage, stage_eq, staging, active, working, hebbian, is_engram,
}
use agent_working_memory.Eviction.{
  prune_all, enforce_staging, get_staging_count, enforce_active, get_active_count, prune_one, prune,
  get_weakest_association, delete_association, sort_out, archive_notes, get_expired_ephemeral,
  Budgets, count_associations_for, active_engrams, enforce_capacity, get_expired_staging,
  sweep_staging,
}
use agent_working_memory.Eviction.Capacity.{enforce_capacity_edges}
use agent_working_memory.Eviction.Sweep.{sweep_staging_lem}

abbrev engram : ℕ → Stage → Option ℕ → Engram ℕ ℕ
engram i stage ttl = record {
  id = i;
  agent_id = 7;
  concept = codes "build";
  content = codes "the build takes a minute";
  embedding = none;
  confidence = 50;
  salience = i;
  access_count = 0;
  last_accessed = 0;
  created_at = 0;
  stage = stage;
  stage_changed_at = none;
  ttl = ttl;
  retracted = false;
  retracted_by = none;
  retracted_at = none;
  memory_class = working;
  supersedes = none;
  superseded_by = none;
  tags = [];
  questions = [];
}

abbrev edge : ℕ → ℕ → ℕ → Association ℕ
edge i to weight = record {
  id = i;
  from_engram_id = 1;
  to_engram_id = to;
  weight = weight;
  confidence = 50;
  type = hebbian;
  activation_count = 0;
  created_at = 0;
  last_activated = 0;
}

abbrev store : Store ℕ ℕ
store = record {
  engrams =
      engram 1 active none
      ∷ engram 2 active none
      ∷ engram 3 staging (some 5)
      ∷ engram 4 staging (some 90)
      ∷ engram 5 staging (some 6)
      ∷ [];
  associations = edge 21 2 9 ∷ edge 22 3 4 ∷ edge 23 4 6 ∷ [];
  retrieval_feedback = [];
  entity_mentions = [];
  staging_events = [];
  slim_cache = [];
  populated = false;
  enabled = true;
}

abbrev budgets : Budgets
budgets = record { max_active_engrams = 2; max_staging_engrams = 5; max_edges_per_engram = 1 }

abbrev outlasts : Engram ℕ ℕ → Engram ℕ ℕ → Bool
outlasts x y = ltb y.salience x.salience

enforce_capacity_edges_example :
    All
      (λ e. count_associations_for e.id (enforce_capacity outlasts ltb 10 7 budgets store).0 ≤ 1)
      (active_engrams 7 (enforce_capacity outlasts ltb 10 7 budgets store).0)
enforce_capacity_edges_example = enforce_capacity_edges ltb outlasts 10 7 budgets store

-- The heaviest edge is left.
pruned : (enforce_capacity outlasts ltb 10 7 budgets store).0.associations ≡ edge 21 2 9 ∷ []
unfolding enforce_capacity prune_all enforce_staging get_staging_count enforce_active
    get_active_count stage_eq prune_one count_associations_for prune get_weakest_association
    delete_association
pruned = refl

abbrev resonates : Engram ℕ ℕ → Store ℕ ℕ → Bool
resonates e s = e.id == 3

sweep_staging_lem_example :
    (get_expired_staging 50 (sweep_staging resonates 50 store).0 ≡ [])
    × All
        (λ i. any (is_engram i) (sweep_staging resonates 50 store).0.engrams ≡ false)
        (sweep_staging resonates 50 store).2
sweep_staging_lem_example = sweep_staging_lem resonates 50 store

swept : (sweep_staging resonates 50 store).1 ≡ 3 ∷ []
unfolding sweep_staging sort_out get_expired_staging archive_notes get_expired_ephemeral stage_eq
swept = refl
