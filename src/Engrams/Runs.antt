-- ===== src/Engrams/Runs.antt =====
-- Runs of the operations of src/storage/sqlite.ts on engrams, in any order.
use agent_working_memory.Base.{ℕ, Bool, Option, List, [], ◌∷◌, Text, or_else}
use agent_working_memory.Engrams.{
  Stage, MemoryClass, Store, EngramCreate, Numbers, update_stage, update_content, update_confidence,
  touch_engram, retract_engram, delete_engram, supersede_engram, update_memory_class, update_tags,
  set_questions, reset_slim_cache, ensure_slim_cache_populated, update_embedding, create_engram,
  get_engrams_by_agent_slim, get_engrams_by_agents_slim,
}

pub data Op (R : Type 0) : Type 0 where
  create : ℕ → ℕ → EngramCreate R → Op R
  set_stage : ℕ → ℕ → Stage → Op R
  set_content : ℕ → Text → Op R
  set_confidence : ℕ → R → Op R
  set_embedding : ℕ → List R → Op R
  touch : ℕ → ℕ → Op R
  retract : ℕ → ℕ → Option ℕ → Op R
  delete : ℕ → Op R
  supersede : ℕ → ℕ → Op R
  set_class : ℕ → MemoryClass → Op R
  set_tags : ℕ → List Text → Op R
  ask : ℕ → List Text → Op R
  reset : Op R
  warm : Op R
  read_one : ℕ → Option Stage → Bool → Op R
  read_many : List ℕ → Option Stage → Bool → Op R

module _ {R B : Type 0} (n : Numbers R B) (clamp : R → R) (nudge : R → ℕ → R) where
  unfoldable pub step : Op R → Store R B → Store R B
  step (Op.create now i input) s = or_else (create_engram n now i input s) s
  step (Op.set_stage now i stage) s = update_stage now i stage s
  step (Op.set_content i content) s = update_content i content s
  step (Op.set_confidence i c) s = update_confidence clamp i c s
  step (Op.set_embedding i v) s = update_embedding n i v s
  step (Op.touch now i) s = touch_engram nudge now i s
  step (Op.retract now i by) s = retract_engram now i by s
  step (Op.delete i) s = delete_engram i s
  step (Op.supersede old new) s = supersede_engram old new s
  step (Op.set_class i c) s = update_memory_class i c s
  step (Op.set_tags i tags) s = update_tags i tags s
  step (Op.ask i qs) s = set_questions i qs s
  step Op.reset s = reset_slim_cache s
  step Op.warm s = ensure_slim_cache_populated n s
  step (Op.read_one a stage include_retracted) s =
      (get_engrams_by_agent_slim n a stage include_retracted s).0
  step (Op.read_many as' stage include_retracted) s =
      (get_engrams_by_agents_slim n as' stage include_retracted s).0

  unfoldable pub run : List (Op R) → Store R B → Store R B
  run [] s = s
  run (o ∷ os) s = run os (step o s)
