-- ===== src/Vault.antt =====
-- The vault of src/core/vault.ts: sealing, opening, the allow-list of commands, and the handles that
-- stand in a memory for a value. One process holds the vault. The keyed hash and the cipher are
-- parameters; so are the bytes drawn for each sealing. The list of allowed prefixes is kept as a list
-- and not as the JSON text of its column.
pub mod Handles
pub mod Runs
pub mod Coherence
pub mod Sealing
pub mod Opening
pub mod Allowing
mod Examples
use agent_working_memory.Base.{
  ℕ, zero, suc, ◌+◌, ◌-◌, Bool, true, false, not, ◌&&◌, ◌||◌, Option, none, some, List, [], ◌∷◌,
  ◌++◌, map, length, take, drop, all, any, find?, select, update_where, delete_where, Text, codes,
  text_eq, starts_with, trim, to_lower, is_space, sort, if◌then◌else◌, ltb, leb, ◌==◌,
}

-- `createHmac('sha256', key)` in hexadecimal, and AES-256-GCM under the same key: a value and its
-- initial bytes give a ciphertext with its tag, which open again or are refused.
pub record Crypto : Type 0 where
  pub fingerprint : Text → Text
  pub encrypt : Text → Text → Text
  pub decrypt : Text → Text → Option Text

pub record Row : Type 0 where
  pub id : Text
  pub type : Text
  pub last4 : Text
  pub label : Text
  pub ciphertext : Text
  pub iv : Text
  pub fingerprint : Text
  pub created_at : ℕ
  pub last_used_at : Option ℕ
  pub use_count : ℕ
  pub allow : List Text

pub record Known : Type 0 where
  pub value : Text
  pub handle : Text

-- The table, and the values that this process has decrypted once.
pub record Vault : Type 0 where
  pub items : List Row
  pub known : Option (List Known)

abbrev pub is_empty {ℓ} : {A : Type ℓ} → List A → Bool
is_empty [] = true
is_empty (x ∷ xs) = false

abbrev pub ellipsis : ℕ
ellipsis = 8230

unfoldable pub handle_text : Text → Text → Text → Text
handle_text type last4 id =
    codes "[VAULT:"
    ++ type
    ++ (if is_empty last4 then codes " #" else b' ' ∷ ellipsis ∷ last4 ++ codes " #")
    ++ id
    ++ codes "]"

abbrev pub drop_hash : Text → Text
drop_hash [] = []
drop_hash (c ∷ s) = if c == b'#' then s else c ∷ s

unfoldable pub normalise_id : Text → Text
normalise_id id = to_lower (trim (drop_hash id))

abbrev pub has_id : Text → Row → Bool
has_id id r = text_eq r.id id

abbrev pub has_fingerprint : Text → Row → Bool
has_fingerprint f r = text_eq r.fingerprint f

-- `get`, and the row that `open` reads.
abbrev pub row_of : Text → Vault → Option Row
row_of id v = find? (has_id (normalise_id id)) v.items

abbrev pub handle_of : Row → Text
handle_of r = handle_text r.type r.last4 r.id

-- `value.length >= 12 ? value.slice(-4) : ''`.
abbrev pub last_four : Text → Text
last_four value = if leb 12 (length value) then drop (length value - 4) value else []

-- `;`, `&`, `|`, a backtick, `<`, `>` and line ends.
abbrev pub is_chaining : ℕ → Bool
is_chaining c =
    (c == b';')
    || (c == b'&')
    || (c == b'|')
    || (c == 96)
    || (c == b'<')
    || (c == b'>')
    || (c == 10)
    || (c == 13)

unfoldable pub has_shell_chaining : Text → Bool
unfolding starts_with
has_shell_chaining [] = false
has_shell_chaining (c ∷ s) =
    is_chaining c || starts_with (b'$' ∷ b'(' ∷ []) (c ∷ s) || has_shell_chaining s

abbrev pub known_of : Row → Text → Known
known_of r value = record { value = value; handle = handle_of r }

abbrev pub is_letter : ℕ → Bool
is_letter c = (leb b'A' c && leb c b'Z') || (leb b'a' c && leb c b'z')

-- A value that can be replaced safely wherever it stands.
abbrev pub is_distinctive : Known → Bool
is_distinctive k = leb 8 (length k.value) && not (all is_letter k.value)

abbrev pub is_shorter : Known → Known → Bool
is_shorter k l = ltb (length k.value) (length l.value)

module _ (crypto : Crypto) where
  abbrev pub new_row : Text → Text → Text → Text → ℕ → Row
  new_row value type label iv now = record {
    id = take 12 (crypto.fingerprint value);
    type = type;
    last4 = last_four value;
    label = take 200 label;
    ciphertext = crypto.encrypt iv value;
    iv = iv;
    fingerprint = crypto.fingerprint value;
    created_at = now;
    last_used_at = none;
    use_count = 0;
    allow = [];
  }

  -- `seal`, with the bytes drawn and the time; `none` where the insertion is refused, because another
  -- value has the same id.
  unfoldable pub seal : Text → Text → Text → Text → ℕ → Vault → Option (Vault × Text)
  seal value type label iv now v =
      elim (find? (has_fingerprint (crypto.fingerprint value)) v.items) [
        | some r ↦ some (v, handle_of r)
        | none ↦
            let r = new_row value type label iv now in
            if any (has_id r.id) v.items
            then none
            else some (record { items = v.items ++ r ∷ []; known = none }, handle_of r)
      ]

  -- `open`; `none` where there is no item, or the cipher refuses it.
  abbrev pub open_row : Row → Option Text
  open_row r = crypto.decrypt r.iv r.ciphertext

  unfoldable pub open_item : Text → Vault → Option Text
  open_item id v = elim (row_of id v) [ none ↦ none | some r ↦ open_row r ]

  -- Every item opened by its id, or an exception.
  unfoldable pub open_all : List Row → Vault → Option (List Known)
  unfolding open_item
  open_all [] v = some []
  open_all (r ∷ rs) v = elim (open_item r.id v) [
    | none ↦ none
    | some value ↦ elim (open_all rs v) [ none ↦ none | some ks ↦ some (known_of r value ∷ ks) ]
  ]

  -- `knownSecrets` where nothing is at hand.
  unfoldable pub decrypt_known : Vault → Option (List Known)
  unfolding open_all
  decrypt_known v = elim (open_all v.items v) [
    | none ↦ none
    | some ks ↦ some (sort is_shorter (select is_distinctive ks))
  ]

  -- `knownSecrets`: the list at hand, or one that is then kept.
  unfoldable pub known_secrets : Vault → Vault × Option (List Known)
  known_secrets v = elim v.known [
    | some ks ↦ (v, some ks)
    | none ↦ elim (decrypt_known v) [
      | none ↦ (v, none)
      | some ks ↦ (record v { known = some ks }, some ks)
    ]
  ]

-- `[...new Set(xs)]`.
abbrev pub distinct_from : List Text → List Text → List Text
distinct_from seen [] = []
distinct_from seen (p ∷ ps) =
    let rest = distinct_from (p ∷ seen) ps in if any (λ q. text_eq q p) seen then rest else p ∷ rest

abbrev pub set_allow : Text → List Text → Vault → Vault
set_allow id ps v = record v {
  items = update_where (has_id id) (λ r. record r { allow = ps }) v.items;
}

-- `allow` and `disallow`; `none` where there is no such item.
unfoldable pub allow_prefix : Text → Text → Vault → Option Vault
allow_prefix id prefix v = elim (row_of id v) [
  | none ↦ none
  | some r ↦ some (set_allow r.id (distinct_from [] (r.allow ++ trim prefix ∷ [])) v)
]

unfoldable pub disallow_prefix : Text → Text → Vault → Option Vault
disallow_prefix id prefix v = elim (row_of id v) [
  | none ↦ none
  | some r ↦ some (set_allow r.id (select (λ p. not (text_eq p (trim prefix))) r.allow) v)
]

-- `c === p || c.startsWith(p + ' ')`.
abbrev pub has_prefix : Text → Text → Bool
has_prefix c p = text_eq c p || starts_with (p ++ b' ' ∷ []) c

unfoldable pub is_allowed : Text → Text → Vault → Option Bool
is_allowed id cmd v = elim (row_of id v) [
  | none ↦ none
  | some r ↦
      some (if has_shell_chaining cmd then false else any (λ p. has_prefix (trim cmd) p) r.allow)
]

unfoldable pub record_use : ℕ → Text → Vault → Vault
record_use now id v = record v {
  items =
      update_where (has_id (normalise_id id))
        (λ r. record r { use_count = r.use_count + 1; last_used_at = some now }) v.items;
}

unfoldable pub forget : Text → Vault → Vault × Bool
forget id v = (
  record { items = delete_where (has_id (normalise_id id)) v.items; known = none },
  any (has_id (normalise_id id)) v.items,
)
