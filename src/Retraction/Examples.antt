-- ===== src/Retraction/Examples.antt =====
-- A memory is retracted with a correction that takes over its one edge.
use agent_working_memory.Base.{
  ℕ, ◌+◌, ◌-◌, ◌≤◌, ◌≡◌, refl, true, false, Option, none, some, [], ◌∷◌, codes, ltb,
}
use mathlib.Core.Option
use agent_working_memory.Engrams.{
  Engram, Association, Store, active, working, hebbian, retract_engram, create_engram,
  update_confidence,
}
use agent_working_memory.Retraction.{
  Arithmetic, Retraction, get_engram, retract, marked, inherited, correct, upsert_association,
  inherit_narrative_edges, inherit_all, propagate, get_associations_for,
}
use agent_working_memory.Retraction.Frame.{retract_frame, IsFramed}

abbrev arithmetic : Arithmetic ℕ ℕ
arithmetic = record {
  numbers = record { to_blob = λ v. 0; from_blob = λ b. []; half = 50 };
  clamp = λ c. c;
  salience_floor = λ c. c;
  correction_confidence = 70;
  full = 100;
  is_weak = λ w. ltb w 40;
  lighter = ltb;
  scaled = λ w. w - 10;
  cohesion = λ e s. 0;
  lowered = λ c w cohesion depth. c - 1;
}

abbrev engram : ℕ → Engram ℕ ℕ
engram i = record {
  id = i;
  agent_id = 7;
  concept = codes "build";
  content = codes "the build takes a minute";
  embedding = none;
  confidence = 50;
  salience = 50;
  access_count = 0;
  last_accessed = 0;
  created_at = 0;
  stage = active;
  stage_changed_at = none;
  ttl = none;
  retracted = false;
  retracted_by = none;
  retracted_at = none;
  memory_class = working;
  supersedes = none;
  superseded_by = none;
  tags = [];
  questions = [];
}

abbrev edge : Association ℕ
edge = record {
  id = 21;
  from_engram_id = 1;
  to_engram_id = 2;
  weight = 90;
  confidence = 50;
  type = hebbian;
  activation_count = 0;
  created_at = 0;
  last_activated = 0;
}

abbrev store : Store ℕ ℕ
store = record {
  engrams = engram 1 ∷ engram 2 ∷ [];
  associations = edge ∷ [];
  retrieval_feedback = [];
  entity_mentions = [];
  staging_events = [];
  slim_cache = [];
  populated = false;
  enabled = true;
}

abbrev draw : ℕ → ℕ
draw k = 30 + k

abbrev retraction : Retraction
retraction = record {
  target_engram_id = 1;
  agent_id = 7;
  counter_content = some (codes "it takes two");
}

retract_frame_example :
    (t : Store ℕ ℕ) × (k : ℕ) × (l : ℕ) × (retract arithmetic 5 draw 3 retraction store
      ≡ some (t, k, l))
    × (l ≤ 10)
    × IsFramed arithmetic 0 5 3 1 (some (codes "it takes two")) store t
retract_frame_example = retract_frame arithmetic 0 5 draw 3 retraction store refl

-- The penalty reaches the correction itself, by the edge that it has just taken over.
abbrev confidence_of : ℕ → Option (Store ℕ ℕ × ℕ × ℕ) → Option ℕ
confidence_of i none = none
confidence_of i (some r) = Option.map (λ (e : Engram ℕ ℕ). e.confidence) (get_engram i r.0)

correction_penalised : confidence_of 3 (retract arithmetic 5 draw 3 retraction store) ≡ some 69
unfolding retract marked inherited correct upsert_association inherit_narrative_edges inherit_all
    propagate get_associations_for retract_engram create_engram update_confidence
correction_penalised = refl
