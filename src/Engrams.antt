-- ===== src/Engrams.antt =====
-- The engrams of src/storage/sqlite.ts and their slim cache, an in-memory copy of the columns that the
-- first pass of a recall reads. The columns that only the text search and the tasks read are left out.
-- Ids of engrams and agents are numbers, since they are only compared. The stored form of a vector is a
-- parameter, and so is the arithmetic of the confidences.
pub mod Runs
pub mod Mirror
pub mod Reads
mod Examples
use agent_working_memory.Base.{
  ℕ, ◌+◌, Bool, true, false, not, ◌&&◌, ◌||◌, Option, none, some, List, [], ◌∷◌, ◌++◌, map, or_else,
  any, find?, select, update_where, delete_where, Text, if◌then◌else◌, ◌==◌,
}
use mathlib.Core.Option

pub data Stage : Type 0 where
  staging : Stage
  active : Stage
  consolidated : Stage
  fading : Stage
  archived : Stage

unfoldable pub stage_eq : Stage → Stage → Bool
stage_eq staging staging = true
stage_eq active active = true
stage_eq consolidated consolidated = true
stage_eq fading fading = true
stage_eq archived archived = true
stage_eq _ _ = false

pub data MemoryClass : Type 0 where
  canonical : MemoryClass
  working : MemoryClass
  ephemeral : MemoryClass
  structural : MemoryClass

pub record Engram (R B : Type 0) : Type 0 where
  pub id : ℕ
  pub agent_id : ℕ
  pub concept : Text
  pub content : Text
  pub embedding : Option B
  pub confidence : R
  pub salience : R
  pub access_count : ℕ
  pub last_accessed : ℕ
  pub created_at : ℕ
  pub stage : Stage
  pub stage_changed_at : Option ℕ
  pub ttl : Option ℕ
  pub retracted : Bool
  pub retracted_by : Option ℕ
  pub retracted_at : Option ℕ
  pub memory_class : MemoryClass
  pub supersedes : Option ℕ
  pub superseded_by : Option ℕ
  pub tags : List Text
  pub questions : List Text

pub data AssociationType : Type 0 where
  hebbian : AssociationType
  connection : AssociationType
  causal : AssociationType
  temporal : AssociationType
  invalidation : AssociationType
  bridge : AssociationType

pub record Association (R : Type 0) : Type 0 where
  pub id : ℕ
  pub from_engram_id : ℕ
  pub to_engram_id : ℕ
  pub weight : R
  pub confidence : R
  pub type : AssociationType
  pub activation_count : ℕ
  pub created_at : ℕ
  pub last_activated : ℕ

-- An entry of the cache, whose vector is the array that was handed over or read.
pub record Slim (R : Type 0) : Type 0 where
  pub id : ℕ
  pub agent_id : ℕ
  pub concept : Text
  pub embedding : Option (List R)
  pub stage : Stage
  pub retracted : Bool

-- The rows of retrieval_feedback, entity_mentions and staging_events are the engrams that they name.
pub record Store (R B : Type 0) : Type 0 where
  pub engrams : List (Engram R B)
  pub associations : List (Association R)
  pub retrieval_feedback : List ℕ
  pub entity_mentions : List ℕ
  pub staging_events : List ℕ
  pub slim_cache : List (Slim R)
  pub populated : Bool
  pub enabled : Bool

-- What `createEngram` is given.
pub record EngramCreate (R : Type 0) : Type 0 where
  pub agent_id : ℕ
  pub concept : Text
  pub content : Text
  pub embedding : Option (List R)
  pub confidence : Option R
  pub salience : Option R
  pub ttl : Option ℕ
  pub memory_class : Option MemoryClass
  pub supersedes : Option ℕ
  pub tags : List Text
  pub questions : List Text

module _ {R : Type 0} where
  abbrev pub is_slim : ℕ → Slim R → Bool
  is_slim i e = e.id == i

  -- `Map.set`: a new key stands last.
  unfoldable pub cache_set : Slim R → List (Slim R) → List (Slim R)
  cache_set e c =
      if any (is_slim e.id) c then update_where (is_slim e.id) (λ x. e) c else c ++ e ∷ []

module _ {R B : Type 0} where
  abbrev pub is_engram : ℕ → Engram R B → Bool
  is_engram i e = e.id == i

  unfoldable pub cache_update : ℕ → (Slim R → Slim R) → Store R B → Store R B
  cache_update i f s =
      if s.enabled then record s { slim_cache = update_where (is_slim i) f s.slim_cache } else s

  unfoldable pub cache_add : Slim R → Store R B → Store R B
  cache_add e s = if s.enabled then record s { slim_cache = cache_set e s.slim_cache } else s

  unfoldable pub cache_remove : ℕ → Store R B → Store R B
  cache_remove i s =
      if s.enabled then record s { slim_cache = delete_where (is_slim i) s.slim_cache } else s

  abbrev pub update_engram : ℕ → (Engram R B → Engram R B) → Store R B → Store R B
  update_engram i f s = record s { engrams = update_where (is_engram i) f s.engrams }

  unfoldable pub update_stage : ℕ → ℕ → Stage → Store R B → Store R B
  unfolding cache_update
  update_stage now i stage s =
      cache_update i (λ e. record e { stage = stage })
        (update_engram i (λ e. record e { stage = stage; stage_changed_at = some now }) s)

  unfoldable pub update_content : ℕ → Text → Store R B → Store R B
  update_content i content = update_engram i (λ e. record e { content = content })

  -- `clamp` is `Math.max(0, Math.min(1, c))`.
  unfoldable pub update_confidence : (R → R) → ℕ → R → Store R B → Store R B
  update_confidence clamp i c = update_engram i (λ e. record e { confidence = clamp c })

  -- `nudge c n` is `MIN(0.85, c + 0.02 / (1.0 + sqrt(n)))`.
  unfoldable pub touch_engram : (R → ℕ → R) → ℕ → ℕ → Store R B → Store R B
  touch_engram nudge now i = update_engram i (λ e. record e {
    access_count = e.access_count + 1;
    last_accessed = now;
    confidence = nudge e.confidence e.access_count;
  })

  unfoldable pub retract_engram : ℕ → ℕ → Option ℕ → Store R B → Store R B
  unfolding cache_update
  retract_engram now i by s =
      cache_update i (λ e. record e { retracted = true })
        (update_engram i
          (λ e. record e { retracted = true; retracted_by = by; retracted_at = some now }) s)

  -- The statements of one transaction, the foreign keys of the associations, and the cache.
  unfoldable pub delete_engram : ℕ → Store R B → Store R B
  unfolding cache_remove
  delete_engram i s = cache_remove i (record s {
    retrieval_feedback = delete_where (λ k. k == i) s.retrieval_feedback;
    entity_mentions = delete_where (λ k. k == i) s.entity_mentions;
    staging_events = delete_where (λ k. k == i) s.staging_events;
    engrams = delete_where (is_engram i) s.engrams;
    associations =
        delete_where (λ a. (a.from_engram_id == i) || (a.to_engram_id == i)) s.associations;
  })

  unfoldable pub supersede_engram : ℕ → ℕ → Store R B → Store R B
  supersede_engram old new s =
      update_engram new (λ e. record e { supersedes = some old })
        (update_engram old (λ e. record e { superseded_by = some new }) s)

  unfoldable pub update_memory_class : ℕ → MemoryClass → Store R B → Store R B
  update_memory_class i c = update_engram i (λ e. record e { memory_class = c })

  unfoldable pub update_tags : ℕ → List Text → Store R B → Store R B
  update_tags i tags = update_engram i (λ e. record e { tags = tags })

  unfoldable pub set_questions : ℕ → List Text → Store R B → Store R B
  set_questions i qs = update_engram i (λ e. record e { questions = qs })

  unfoldable pub reset_slim_cache : Store R B → Store R B
  reset_slim_cache s = record s { slim_cache = []; populated = false }

-- The bytes of a vector's single-precision numbers, and 0.5.
pub record Numbers (R B : Type 0) : Type 0 where
  pub to_blob : List R → B
  pub from_blob : B → List R
  pub half : R

module _ {R B : Type 0} (n : Numbers R B) where
  abbrev pub slim_of : Engram R B → Slim R
  slim_of e = record {
    id = e.id;
    agent_id = e.agent_id;
    concept = e.concept;
    embedding = Option.map n.from_blob e.embedding;
    stage = e.stage;
    retracted = e.retracted;
  }

  unfoldable pub fill : List (Engram R B) → List (Slim R) → List (Slim R)
  unfolding cache_set
  fill [] c = c
  fill (e ∷ es) c = fill es (cache_set (slim_of e) c)

  unfoldable pub ensure_slim_cache_populated : Store R B → Store R B
  unfolding fill
  ensure_slim_cache_populated s =
      if s.populated || not s.enabled
      then s
      else record s { slim_cache = fill s.engrams s.slim_cache; populated = true }

  unfoldable pub update_embedding : ℕ → List R → Store R B → Store R B
  unfolding cache_update
  update_embedding i v s =
      cache_update i (λ e. record e { embedding = some v })
        (update_engram i (λ e. record e { embedding = some (n.to_blob v) }) s)

  abbrev pub engram_of : ℕ → ℕ → EngramCreate R → Engram R B
  engram_of now i input = record {
    id = i;
    agent_id = input.agent_id;
    concept = input.concept;
    content = input.content;
    embedding = Option.map n.to_blob input.embedding;
    confidence = or_else input.confidence n.half;
    salience = or_else input.salience n.half;
    access_count = 0;
    last_accessed = now;
    created_at = now;
    stage = active;
    stage_changed_at = none;
    ttl = input.ttl;
    retracted = false;
    retracted_by = none;
    retracted_at = none;
    memory_class = or_else input.memory_class working;
    supersedes = input.supersedes;
    superseded_by = none;
    tags = input.tags;
    questions = input.questions;
  }

  abbrev pub slim_input : ℕ → EngramCreate R → Slim R
  slim_input i input = record {
    id = i;
    agent_id = input.agent_id;
    concept = input.concept;
    embedding = input.embedding;
    stage = active;
    retracted = false;
  }

  -- `createEngram`, with the id drawn and the time; an id that is taken makes the insertion throw.
  unfoldable pub create_engram : ℕ → ℕ → EngramCreate R → Store R B → Option (Store R B)
  unfolding cache_add
  create_engram now i input s =
      if any (is_engram i) s.engrams
      then none
      else let t = record s { engrams = s.engrams ++ engram_of now i input ∷ [] } in
        some (if s.populated then cache_add (slim_input i input) t else t)

  -- A result of a slim read: the id, the concept and the vector.
  abbrev pub SlimResult : Type 0
  SlimResult = ℕ × Text × Option (List R)

  abbrev pub result_of : Slim R → SlimResult
  result_of e = (e.id, e.concept, e.embedding)

  abbrev pub stage_ok : Option Stage → Stage → Bool
  stage_ok none stage = true
  stage_ok (some wanted) stage = stage_eq stage wanted

  abbrev pub wanted : (ℕ → Bool) → Option Stage → Bool → Slim R → Bool
  wanted agents stage include_retracted e =
      agents e.agent_id && stage_ok stage e.stage && (include_retracted || not e.retracted)

  -- The same read as a statement on the table.
  unfoldable pub slim_by_sql : (ℕ → Bool) → Option Stage → Bool → Store R B → List SlimResult
  slim_by_sql agents stage include_retracted s =
      map (λ e. (e.id, e.concept, Option.map n.from_blob e.embedding))
        (select
          (λ e.
            agents e.agent_id && stage_ok stage e.stage && (include_retracted || not e.retracted))
          s.engrams)

  unfoldable pub slim_read :
      (ℕ → Bool) → Option Stage → Bool → Store R B → Store R B × List SlimResult
  unfolding ensure_slim_cache_populated slim_by_sql
  slim_read agents stage include_retracted s =
      if s.enabled
      then (
        ensure_slim_cache_populated s,
        map result_of (
            select (wanted agents stage include_retracted)
              (ensure_slim_cache_populated s).slim_cache),
      )
      else (s, slim_by_sql agents stage include_retracted s)

  unfoldable pub get_engrams_by_agent_slim :
      ℕ → Option Stage → Bool → Store R B → Store R B × List SlimResult
  unfolding slim_read
  get_engrams_by_agent_slim agent = slim_read (λ a. a == agent)

  unfoldable pub get_engrams_by_agents_slim :
      List ℕ → Option Stage → Bool → Store R B → Store R B × List SlimResult
  unfolding slim_read get_engrams_by_agent_slim
  get_engrams_by_agents_slim [] stage include_retracted s = (s, [])
  get_engrams_by_agents_slim (a ∷ []) stage include_retracted s =
      get_engrams_by_agent_slim a stage include_retracted s
  get_engrams_by_agents_slim (a ∷ b ∷ agents) stage include_retracted s =
      slim_read (λ x. any (λ y. x == y) (a ∷ b ∷ agents)) stage include_retracted s
