-- ===== src/Vault/Runs.antt =====
-- Runs of the operations of the vault of src/core/vault.ts, in any order.
use agent_working_memory.Base.{ℕ, Option, none, some, List, [], ◌∷◌, Text}
use agent_working_memory.Vault.{
  Crypto, Vault, seal, known_secrets, allow_prefix, disallow_prefix, record_use, forget,
}

pub data Op : Type 0 where
  seal_value : Text → Text → Text → Text → ℕ → Op
  ask_known : Op
  allow_use : Text → Text → Op
  disallow_use : Text → Text → Op
  use_once : ℕ → Text → Op
  drop_item : Text → Op

-- A call that throws leaves the vault as it is.
abbrev pub kept : Vault → Option Vault → Vault
kept v none = v
kept v (some w) = w

abbrev pub kept_first : Vault → Option (Vault × Text) → Vault
kept_first v none = v
kept_first v (some w) = w.0

module _ (crypto : Crypto) where
  unfoldable pub step : Op → Vault → Vault
  step (Op.seal_value value type label iv now) v =
      kept_first v (seal crypto value type label iv now v)
  step Op.ask_known v = (known_secrets crypto v).0
  step (Op.allow_use id p) v = kept v (allow_prefix id p v)
  step (Op.disallow_use id p) v = kept v (disallow_prefix id p v)
  step (Op.use_once now id) v = record_use now id v
  step (Op.drop_item id) v = (forget id v).0

  unfoldable pub run : List Op → Vault → Vault
  run [] v = v
  run (o ∷ os) v = run os (step o v)
