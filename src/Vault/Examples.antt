-- ===== src/Vault/Examples.antt =====
-- A vault with a keyed hash and a cipher that are simple enough to follow.
use agent_working_memory.Base.{
  ℕ, ◌+◌, ◌%◌, ◌≡◌, refl, Bool, true, false, not, ◌&&◌, ◌||◌, ◌⊎◌, Option, none, some, List, [],
  ◌∷◌, ◌++◌, map, Text, codes, all, any, find?, text_eq, trim, to_lower, starts_with, arith,
  length-append, all-append,
}
use agent_working_memory.Vault.{
  Crypto, Row, Vault, seal, open_item, allow_prefix, disallow_prefix, is_allowed, has_fingerprint,
  has_prefix, normalise_id, has_shell_chaining, row_of, handle_of, handle_text, new_row,
  known_secrets, decrypt_known, is_chaining,
}
use agent_working_memory.Vault.Runs.{Op, run}
use agent_working_memory.Vault.Coherence.{known_secrets-run}
use agent_working_memory.Vault.Sealing.{IsSound, IsValid, run-IsValid}
use agent_working_memory.Vault.Opening.{open_item-seal, seal-seal, vault_ids_in-seal}
use agent_working_memory.Vault.Allowing.{
  is_allowed_sound, is_allowed-allow_prefix, is_allowed-disallow_prefix,
}
use agent_working_memory.Vault.Handles.{is_hex, vault_ids_in}
use agent_working_memory.Vault.Handles.Reading.{vault_ids_in-handle_text}
use agent_working_memory.Vault.Handles.Refusing.{vault_ids_in-unread}

abbrev digit : ℕ → ℕ
digit c = b'0' + c % 10

abbrev crypto : Crypto
crypto = record {
  fingerprint = λ value. map digit value ++ codes "000000000000";
  encrypt = λ iv value. iv ++ value;
  decrypt = decrypted;
}
  where
    decrypted : Text → Text → Option Text
    decrypted [] s = some s
    decrypted (c ∷ iv) [] = none
    decrypted (c ∷ iv) (d ∷ s) = decrypted iv s

digits-hex : (value : Text) → all is_hex (map digit value) ≡ true
digits-hex [] = refl
digits-hex (c ∷ value) = ground (arith, digits-hex value)

opened : (iv value : Text) → crypto.decrypt iv (iv ++ value) ≡ some value
opened [] value = refl
opened (c ∷ iv) value = opened iv value

crypto-IsSound : IsSound crypto
crypto-IsSound = record {
  opens = opened;
  hexadecimal =
      λ value. all-append is_hex (map digit value) (codes "000000000000") (digits-hex value) refl;
  long = λ value. omega (arith, length-append (map digit value) (codes "000000000000"));
}

abbrev empty : Vault
empty = record { items = []; known = none }

empty-IsValid : IsValid crypto empty
empty-IsValid = record { sealed = tt; own_ids = tt }

abbrev secret : Text
secret = codes "sk-live-0123456789abWz"

abbrev kind : Text
kind = codes "stripe_key"

abbrev item : Row
item = new_row crypto secret kind (codes "payments") (codes "iv") 5

abbrev filled : Vault
filled = record { items = item ∷ []; known = none }

sealing :
    seal crypto secret kind (codes "payments") (codes "iv") 5 empty ≡ some (filled, handle_of item)
unfolding seal
sealing = refl

run-IsValid_example : IsValid crypto (
    run crypto
      (Op.seal_value secret kind [] [] 5 ∷ Op.allow_use item.id (codes "npm publish") ∷ [])
      empty)
run-IsValid_example =
    run-IsValid crypto crypto-IsSound
      (Op.seal_value secret kind [] [] 5 ∷ Op.allow_use item.id (codes "npm publish") ∷ []) empty
      empty-IsValid

abbrev uses : List Op
uses =
    Op.ask_known
    ∷ Op.seal_value secret kind [] [] 5
    ∷ Op.ask_known
    ∷ Op.use_once 7 item.id
    ∷ Op.drop_item (codes "unknown")
    ∷ Op.ask_known
    ∷ []

known_secrets-run_example :
    (known_secrets crypto (run crypto uses empty)).1 ≡ decrypt_known crypto (run crypto uses empty)
known_secrets-run_example = known_secrets-run crypto uses []

open_item-seal_example :
    (r : Row) × (x : Text) × (handle_of item ≡ handle_of r)
    × (row_of r.id filled ≡ some r)
    × (open_item crypto r.id filled ≡ some x)
    × (crypto.fingerprint x ≡ crypto.fingerprint secret)
    × ((x ≡ secret) ⊎ (find? (has_fingerprint (crypto.fingerprint secret)) empty.items ≡ some r))
open_item-seal_example =
    open_item-seal crypto crypto-IsSound secret kind (codes "payments") (codes "iv") 5 empty
      empty-IsValid sealing

seal-seal_example :
    seal crypto secret (codes "password") [] (codes "other") 9 filled
    ≡ some (filled, handle_of item)
seal-seal_example =
    seal-seal crypto secret kind (codes "payments") (codes "iv") (codes "password") []
      (codes "other") 5 9 empty sealing

vault_ids_in-seal_example :
    (id : Text) × (vault_ids_in (codes "the key is " ++ (handle_of item ++ codes ", kept"))
      ≡ id ∷ vault_ids_in (codes ", kept"))
    × (open_item crypto id filled ≡ some secret)
vault_ids_in-seal_example =
    vault_ids_in-seal crypto crypto-IsSound secret kind (codes "payments") (codes "iv")
      (codes "the key is ") (codes ", kept") 5 empty empty-IsValid refl refl refl refl refl sealing

vault_ids_in-handle_text_example :
    vault_ids_in (codes "see " ++ (handle_text kind [] (codes "0123456789ab") ++ codes " #x"))
    ≡ codes "0123456789ab" ∷ vault_ids_in (codes " #x")
vault_ids_in-handle_text_example =
    vault_ids_in-handle_text (codes "see ") kind [] (codes "0123456789ab") (codes " #x") refl refl
      refl (omega arith) refl refl refl

-- A pass phrase that ends in ` me#`.
vault_ids_in-unread_example :
    vault_ids_in (handle_text (codes "password") (codes " me#") (codes "0123456789ab")) ≡ []
vault_ids_in-unread_example =
    vault_ids_in-unread (codes "password") (codes " me#") (codes "0123456789ab") refl refl
      (omega arith) refl refl refl

abbrev allowing : Vault
allowing = record { items = record item { allow = codes "npm publish" ∷ [] } ∷ []; known = none }

npm_allowed : is_allowed item.id (codes " npm publish --tag next") allowing ≡ some true
unfolding is_allowed normalise_id trim has_shell_chaining starts_with text_eq to_lower
npm_allowed = refl

is_allowed_sound_example :
    ((r : Row) × (p : Text) × (row_of item.id allowing ≡ some r)
      × (any (text_eq p) r.allow ≡ true)
      × ((trim (codes " npm publish --tag next") ≡ p)
          ⊎ ((t : Text) × (trim (codes " npm publish --tag next") ≡ p ++ b' ' ∷ t))))
    × (is_chaining b'n' ≡ false)
    × (starts_with (codes "$(") (codes "npm publish --tag next") ≡ false)
is_allowed_sound_example =
    is_allowed_sound item.id (codes " npm publish --tag next") (codes " ")
      (codes "pm publish --tag next") b'n' allowing npm_allowed refl

allowed_now : allow_prefix item.id (codes " npm publish") filled ≡ some allowing
unfolding allow_prefix normalise_id trim text_eq to_lower
allowed_now = refl

is_allowed-allow_prefix_example :
    (b : Bool) × (is_allowed item.id (codes "npm test") filled ≡ some b)
    × (is_allowed item.id (codes "npm test") allowing
        ≡ some (
            b
            || (not (has_shell_chaining (codes "npm test"))
                && has_prefix (trim (codes "npm test")) (trim (codes " npm publish")))))
is_allowed-allow_prefix_example =
    is_allowed-allow_prefix item.id (codes " npm publish") (codes "npm test") filled allowed_now

withdrawn : disallow_prefix item.id (codes "npm publish ") allowing ≡ some filled
unfolding disallow_prefix normalise_id trim text_eq to_lower
withdrawn = refl

is_allowed-disallow_prefix_example :
    (r : Row) × (row_of item.id allowing ≡ some r)
    × (is_allowed item.id (codes "npm publish") filled
        ≡ some (
            not (has_shell_chaining (codes "npm publish"))
            && any
                (λ p.
                  not (text_eq p (trim (codes "npm publish ")))
                  && has_prefix (trim (codes "npm publish")) p)
                r.allow))
is_allowed-disallow_prefix_example =
    is_allowed-disallow_prefix item.id (codes "npm publish ") (codes "npm publish") allowing
      withdrawn
