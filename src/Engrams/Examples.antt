-- ===== src/Engrams/Examples.antt =====
-- A store whose vectors lose their last bit when they are stored.
use agent_working_memory.Base.{
  ℕ, ◌+◌, ◌*◌, ◌/◌, ◌≡◌, refl, true, false, none, some, List, [], ◌∷◌, map, any, codes, ◌==◌, arith,
}
use agent_working_memory.Engrams.{
  Numbers, Store, EngramCreate, archived, delete_engram, update_embedding, create_engram,
  update_stage, ensure_slim_cache_populated, get_engrams_by_agents_slim, slim_by_sql,
}
use agent_working_memory.Engrams.Runs.{Op, step, run}
use agent_working_memory.Engrams.Reads.{as_stored, get_engrams_by_agents_slim-run}

abbrev numbers : Numbers ℕ (List ℕ)
numbers = record { to_blob = map (λ x. x / 2); from_blob = map (λ x. x * 2); half = 50 }

halved : (x : ℕ) → x * 2 / 2 ≡ x
halved x = omega arith

numbers_sound : (b : List ℕ) → numbers.to_blob (numbers.from_blob b) ≡ b
numbers_sound [] = refl
numbers_sound (x ∷ b) = ground (arith, halved x, numbers_sound b)

abbrev empty : Store ℕ (List ℕ)
empty = record {
  engrams = [];
  associations = [];
  retrieval_feedback = [];
  entity_mentions = [];
  staging_events = [];
  slim_cache = [];
  populated = false;
  enabled = true;
}

abbrev input : ℕ → List ℕ → EngramCreate ℕ
input agent v = record {
  agent_id = agent;
  concept = codes "build";
  content = codes "the build takes a minute";
  embedding = some v;
  confidence = none;
  salience = none;
  ttl = none;
  memory_class = none;
  supersedes = none;
  tags = [];
  questions = [];
}

abbrev ops : List (Op ℕ)
ops =
    Op.create 1 10 (input 7 (3 ∷ 4 ∷ []))
    ∷ Op.warm
    ∷ Op.create 2 11 (input 8 (5 ∷ []))
    ∷ Op.set_stage 3 10 archived
    ∷ Op.create 4 12 (input 7 (9 ∷ []))
    ∷ Op.set_embedding 12 (7 ∷ 7 ∷ [])
    ∷ Op.delete 11
    ∷ []

abbrev clamp : ℕ → ℕ
clamp c = c

abbrev nudge : ℕ → ℕ → ℕ
nudge c n = c + 1

get_engrams_by_agents_slim-run_example :
    map
      (as_stored numbers numbers_sound)
      (get_engrams_by_agents_slim numbers
        (7 ∷ 8 ∷ [])
        none
        true
        (run numbers clamp nudge ops empty)).1
    ≡ slim_by_sql numbers
        (λ x. any (λ y. x == y) (7 ∷ 8 ∷ []))
        none
        true
        (run numbers clamp nudge ops empty)
get_engrams_by_agents_slim-run_example =
    get_engrams_by_agents_slim-run numbers numbers_sound clamp nudge ops (7 ∷ 8 ∷ []) none true
      empty refl refl refl tt

-- The engram that is left of agent 7, and the one that was archived.
read :
    slim_by_sql numbers
      (λ x. any (λ y. x == y) (7 ∷ 8 ∷ []))
      none
      true
      (run numbers clamp nudge ops empty)
    ≡ (10, codes "build", some (2 ∷ 4 ∷ [])) ∷ (12, codes "build", some (6 ∷ 6 ∷ [])) ∷ []
unfolding run step slim_by_sql delete_engram update_embedding create_engram update_stage
    ensure_slim_cache_populated
read = refl
