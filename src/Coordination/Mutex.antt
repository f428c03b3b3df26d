-- ===== src/Coordination/Mutex.antt =====
-- The write mutex of src/coordination/write-mutex.ts: a lock that passes from holder to waiter, and
-- the requests that take it.
pub mod Fair
use agent_working_memory.Base.{
  ℕ, Bool, true, false, not, ◌||◌, Option, none, some, List, [], ◌∷◌, ◌++◌, Text, codes, text_eq,
  any, if◌then◌else◌, ◌==◌,
}

-- `queue` holds the resolvers of the requests that wait, each known by the request's number.
pub record Mutex : Type 0 where
  pub queue : List ℕ
  pub locked : Bool

unfoldable pub create : Mutex
create = record { queue = []; locked = false }

-- `acquire` by a request, which gets the lock at once or waits.
unfoldable pub acquire : ℕ → Mutex → Mutex × Option ℕ
acquire who m =
    if not m.locked
    then (record m { locked = true }, some who)
    else (record m { queue = m.queue ++ who ∷ [] }, none)

release_to : List ℕ → Mutex → Mutex × Option ℕ
release_to [] m = (record m { locked = false }, none)
release_to (next ∷ rest) m = (record m { queue = rest }, some next)

-- `release`, with the waiter that is handed the lock.
unfoldable pub release : Mutex → Mutex × Option ℕ
unfolding release_to
release m = release_to m.queue m

pub data Method : Type 0 where
  get head options post patch put delete : Method

abbrev pub is_write : Method → Bool
is_write get = false
is_write head = false
is_write options = false
is_write _ = true

-- `url.split('?')[0]`.
abbrev pub path_of : Text → Text
path_of [] = []
path_of (c ∷ s) = if c == b'?' then [] else c ∷ path_of s

unfoldable pub needs_write_lock : Method → Text → Bool
needs_write_lock method url =
    if not (is_write method)
    then false
    else if text_eq (path_of url) (codes "/next")
    then false
    else true
