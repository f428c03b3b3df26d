-- ===== src/Coordination/RateLimit.antt =====
-- The rate limiter of src/coordination/routes.ts: the hook before every handler and the sweep that a
-- timer calls. Times are in milliseconds.
pub mod Window
use agent_working_memory.Base.{
  ℕ, suc, ◌+◌, Bool, true, false, not, Option, none, some, List, [], ◌∷◌, ◌++◌, Text, text_eq,
  codes, length, if◌then◌else◌, ltb, select, update_where, any, find?, or_else, coalesce,
}

abbrev pub rate_limit : ℕ
rate_limit = 300

abbrev pub rate_window : ℕ
rate_window = 60000

-- An entry of the map from keys to the times of the requests.
pub record Bucket : Type 0 where
  pub key : Text
  pub timestamps : List ℕ

abbrev pub has_key : Text → Bucket → Bool
has_key k b = text_eq b.key k

abbrev pub times_of : Option Bucket → List ℕ
times_of none = []
times_of (some b) = b.timestamps

-- `rateBuckets.get(key) ?? []`.
abbrev pub timestamps_of : Text → List Bucket → List ℕ
timestamps_of k bs = times_of (find? (has_key k) bs)

-- `t > cutoff`, the cutoff being a window before the time.
abbrev pub is_fresh : ℕ → ℕ → Bool
is_fresh now t = ltb now (t + rate_window)

-- `rateBuckets.set(key, timestamps)`.
abbrev pub set_bucket : Text → List ℕ → List Bucket → List Bucket
set_bucket k ts bs =
    if any (has_key k) bs
    then update_where (has_key k) (λ b. record b { timestamps = ts }) bs
    else bs ++ record { key = k; timestamps = ts } ∷ []

-- What the hook reads of a request.
pub record Incoming : Type 0 where
  pub now : ℕ
  pub url : Text
  pub body_name : Option Text
  pub body_agent_id : Option Text
  pub query_agent_id : Option Text
  pub query_name : Option Text
  pub ip : Text

unfoldable pub key_of : Incoming → Text
key_of r =
    or_else
      (coalesce r.body_name (coalesce r.body_agent_id (coalesce r.query_agent_id r.query_name)))
      r.ip

pub data Verdict : Type 0 where
  exempt allowed limited : Verdict

abbrev pub is_empty : Text → Bool
is_empty [] = true
is_empty (c ∷ s) = false

-- A request under a key: its time is recorded whether it is let through or not.
unfoldable pub hit : ℕ → Text → List Bucket → List Bucket × Verdict
hit now k bs =
    let recent = select (is_fresh now) (timestamps_of k bs) ++ now ∷ [] in
    (set_bucket k recent bs, if ltb rate_limit (length recent) then limited else allowed)

-- The hook.
unfoldable pub check_rate : Incoming → List Bucket → List Bucket × Verdict
unfolding hit key_of
check_rate r bs =
    if text_eq r.url (codes "/health")
    then (bs, exempt)
    else if is_empty (key_of r)
    then (bs, exempt)
    else hit r.now (key_of r) bs

-- The timer's sweep: stale times go, and buckets without a time.
unfoldable pub sweep : ℕ → List Bucket → List Bucket
sweep now [] = []
sweep now (b ∷ bs) =
    let rest = sweep now bs in
    let fresh = select (is_fresh now) b.timestamps in
    if is_empty fresh then rest else record b { timestamps = fresh } ∷ rest
