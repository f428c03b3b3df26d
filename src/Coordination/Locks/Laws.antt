-- ===== src/Coordination/Locks/Laws.antt =====
-- The lock table as a map from paths to holders.
use mathlib.Core.Option
use agent_working_memory.Base.{
  ℕ, ◌+◌, ◌≤◌, ◌⊎◌, ◌≡◌, refl, ◌≢◌, ◌↔◌, Bool, true, false, not, ◌&&◌, Option, none, some, List, [],
  ◌∷◌, ◌++◌, Text, text_eq, text_eq_iff, text_eq_refl, arith, if◌then◌else◌, ◌==◌, any, find?,
  update_where, delete_where, count_where, All, Bool-cases, inl, inr, is_some,
}
use agent_working_memory.Coordination.Schema.{AgentId, Lock, Db, datetime, has_agent}
use agent_working_memory.Coordination.Tokens.{Request, session_token_ok}
use agent_working_memory.Coordination.Locks.{
  acquired, refreshed, locked_by, on_path, holder, acquire_lock, release_lock, new_lock, is_holder,
}

holder_of : Text → List Lock → Option AgentId
holder_of p ls = Option.map (λ (l : Lock). l.agent_id) (find? (on_path p) ls)

holder_of-snoc :
    (q : Text) (l : Lock) (ls : List Lock)
    → holder_of q (ls ++ l ∷ []) ≡ (
        if any (on_path q) ls
        then holder_of q ls
        else if on_path q l
        then some l.agent_id
        else none)
unfolding holder_of
holder_of-snoc q l [] = ground arith
holder_of-snoc q l (k ∷ ls) = ground (arith, holder_of-snoc q l ls)

holder_of-refresh :
    (now : ℕ) (p q : Text) (ls : List Lock)
    → holder_of q (update_where (on_path p) (λ l. record l { locked_at = now }) ls) ≡ holder_of q ls
unfolding holder_of
holder_of-refresh now p q [] = refl
holder_of-refresh now p q (l ∷ ls) = ground (arith, holder_of-refresh now p q ls)

any-holder_of : (p : Text) (ls : List Lock) → any (on_path p) ls ≡ is_some (holder_of p ls)
unfolding holder_of
any-holder_of p [] = refl
any-holder_of p (l ∷ ls) = ground (arith, any-holder_of p ls)

-- What an acquisition makes of the holder of every path: a free path passes to the agent, if its
-- token is good and it is registered; a held one keeps its holder, and so does every other path.
pub holder-acquire_lock :
    (req : Request) (a : AgentId) (p q : Text) (reason : Option Text) (db : Db)
    → holder q (acquire_lock req a p reason db).0 ≡ (
        if text_eq p q
          && (session_token_ok a req db && (has_agent a db && not (is_some (holder p db))))
        then some a
        else holder q db)
unfolding acquire_lock holder_of
holder-acquire_lock req a p q reason db = elim (Bool-cases (text_eq p q)) [
  | inl same ↦
      let e = (text_eq_iff p q).0 same in
      rw (← e) (
        ground (
          arith,
          text_eq_refl p,
          holder_of-snoc p (new_lock req.now a p reason) db.locks,
          holder_of-refresh (datetime req.now) p p db.locks,
          any-holder_of p db.locks,
        ))
  | inr other ↦ ground (
    arith,
    holder_of-snoc q (new_lock req.now a p reason) db.locks,
    holder_of-refresh (datetime req.now) p q db.locks,
    any-holder_of q db.locks,
  )
]

-- For a request with a good token the reply says which of the cases it was: `acquired` exactly if the
-- path was free and the agent is registered, `refreshed` exactly if the agent held it, and `locked_by`
-- another agent exactly if that agent held it.
pub acquire_lock_reply :
    (req : Request) (a : AgentId) (p : Text) (reason : Option Text) (db : Db)
    → session_token_ok a req db ≡ true
    → (((acquire_lock req a p reason db).1 ≡ acquired)
        ↔ ((holder p db ≡ none) × (has_agent a db ≡ true)))
      × (((acquire_lock req a p reason db).1 ≡ refreshed) ↔ (holder p db ≡ some a))
      × ((b : AgentId)
          → a ≢ b
          → ((acquire_lock req a p reason db).1 ≡ locked_by (some b)) ↔ (holder p db ≡ some b))
unfolding acquire_lock holder_of
acquire_lock_reply req a p reason db ok = (
  ground (arith, any-holder_of p db.locks),
  ground (arith, any-holder_of p db.locks),
  λ b ne. ground (arith, any-holder_of p db.locks),
)

holder_of_count :
    (q : Text) (ls : List Lock) → count_where (on_path q) ls ≡ 0 → holder_of q ls ≡ none
unfolding holder_of
holder_of_count q [] h = refl
holder_of_count q (l ∷ ls) h = ground (arith, holder_of_count q ls)

holder_of-delete_where :
    (a : AgentId) (p q : Text) (ls : List Lock)
    → count_where (on_path q) ls ≤ 1
    → holder_of q (delete_where (λ l. on_path p l && (l.agent_id == a)) ls)
      ≡ (if text_eq p q && is_holder a (holder_of q ls) then none else holder_of q ls)
unfolding holder_of
holder_of-delete_where a p q [] h = ground arith
holder_of-delete_where a p q (l ∷ ls) h = ground (
  arith,
  text_eq_iff l.file_path p,
  text_eq_iff l.file_path q,
  text_eq_iff p q,
  holder_of_count q ls,
  holder_of-delete_where a p q ls,
)

not_holder :
    (a : AgentId) (p q : Text) (ls : List Lock)
    → any (λ l. on_path p l && (l.agent_id == a)) ls ≡ false
    → (text_eq p q && is_holder a (holder_of q ls)) ≡ false
unfolding holder_of
not_holder a p q [] h = ground arith
not_holder a p q (l ∷ ls) h = ground (
  arith,
  text_eq_iff l.file_path p,
  text_eq_iff l.file_path q,
  text_eq_iff p q,
  not_holder a p q ls,
)

-- The primary key: one row at most for a path.
abbrev pub IsKeyed : Db → Type 0
IsKeyed db = (q : Text) → count_where (on_path q) db.locks ≤ 1

-- What a release makes of the holder of every path, in a table with one row at most for a path: a path
-- that the agent holds is free after it, if the token is good; every other holder stays.
pub holder-release_lock :
    (req : Request) (a : AgentId) (p q : Text) (db : Db)
    → IsKeyed db
    → holder q (release_lock req a p db).0 ≡ (
        if text_eq p q && (session_token_ok a req db && is_holder a (holder q db))
        then none
        else holder q db)
unfolding release_lock holder_of
holder-release_lock req a p q db keyed =
    ground (arith, not_holder a p q db.locks, holder_of-delete_where a p q db.locks (keyed q))

count-snoc :
    (q : Text) (l : Lock) (ls : List Lock)
    → count_where (on_path q) (ls ++ l ∷ [])
      ≡ count_where (on_path q) ls + (if on_path q l then 1 else 0)
count-snoc q l [] = ground arith
count-snoc q l (k ∷ ls) = ground (arith, count-snoc q l ls)

count-refresh :
    (now : ℕ) (p q : Text) (ls : List Lock)
    → count_where (on_path q) (update_where (on_path p) (λ l. record l { locked_at = now }) ls)
      ≡ count_where (on_path q) ls
count-refresh now p q [] = refl
count-refresh now p q (l ∷ ls) = ground (arith, count-refresh now p q ls)

count_of_any :
    (q : Text) (ls : List Lock) → any (on_path q) ls ≡ false → count_where (on_path q) ls ≡ 0
count_of_any q [] h = refl
count_of_any q (l ∷ ls) h = ground (arith, count_of_any q ls)

count-delete_where-le :
    (r : Lock → Bool) (q : Text) (ls : List Lock)
    → count_where (on_path q) (delete_where r ls) ≤ count_where (on_path q) ls
count-delete_where-le r q [] = omega arith
count-delete_where-le r q (l ∷ ls) = ground (arith, count-delete_where-le r q ls)

acquire_lock-IsKeyed :
    (req : Request) (a : AgentId) (p : Text) (reason : Option Text) (db : Db)
    → IsKeyed db
    → IsKeyed (acquire_lock req a p reason db).0
unfolding acquire_lock
acquire_lock-IsKeyed req a p reason db keyed q = elim (Bool-cases (text_eq p q)) [
  | inl same ↦
      let e = (text_eq_iff p q).0 same in
      rw (← e) (
        ground (
          arith,
          keyed p,
          count-snoc p (new_lock req.now a p reason) db.locks,
          count-refresh (datetime req.now) p p db.locks,
          count_of_any p db.locks,
        ))
  | inr other ↦ ground (
    arith,
    keyed q,
    count-snoc q (new_lock req.now a p reason) db.locks,
    count-refresh (datetime req.now) p q db.locks,
  )
]

release_lock-IsKeyed :
    (req : Request) (a : AgentId) (p : Text) (db : Db)
    → IsKeyed db
    → IsKeyed (release_lock req a p db).0
unfolding release_lock
release_lock-IsKeyed req a p db keyed q =
    ground
      (arith, keyed q, count-delete_where-le (λ l. on_path p l && (l.agent_id == a)) q db.locks)

-- The requests on the lock table, as they arrive.
pub data Call : Type 0 where
  acquires : Request → AgentId → Text → Option Text → Call
  releases : Request → AgentId → Text → Call

abbrev pub step : Call → Db → Db
step (acquires req a p reason) db = (acquire_lock req a p reason db).0
step (releases req a p) db = (release_lock req a p db).0

abbrev pub run : List Call → Db → Db
run [] db = db
run (c ∷ cs) db = run cs (step c db)

-- The call is no release of the path by the agent.
abbrev pub IsOther : AgentId → Text → Call → Type 0
IsOther a p (acquires req b q reason) = Unit
IsOther a p (releases req b q) = (b ≢ a) ⊎ (q ≢ p)

pub step-IsKeyed : (c : Call) (db : Db) → IsKeyed db → IsKeyed (step c db)
step-IsKeyed (acquires req a p reason) db v = acquire_lock-IsKeyed req a p reason db v
step-IsKeyed (releases req a p) db v = release_lock-IsKeyed req a p db v

step-holder :
    (c : Call) (a : AgentId) (p : Text) (db : Db)
    → IsKeyed db
    → IsOther a p c
    → holder p db ≡ some a
    → holder p (step c db) ≡ some a
step-holder (acquires req b q reason) a p db v o h =
    rw (holder-acquire_lock req b q p reason db) (elim (Bool-cases (text_eq q p)) [
      | inl same ↦ let e = (text_eq_iff q p).0 same in rw (e, h) (ground arith)
      | inr other ↦ rw (other, h) refl
    ])
step-holder (releases req b q) a p db v o h =
    rw (holder-release_lock req b q p db v) (ground (arith, text_eq_iff q p))

-- A lock is exclusive: in a table with one row at most for a path, whatever acquisitions and releases
-- arrive, in whatever order, a path stays with its holder unless the holder itself releases it, and no
-- path comes to have two rows.
pub lock_exclusive :
    (cs : List Call) (a : AgentId) (p : Text) (db : Db)
    → IsKeyed db
    → All (IsOther a p) cs
    → holder p db ≡ some a
    → (holder p (run cs db) ≡ some a) × IsKeyed (run cs db)
lock_exclusive [] a p db v o h = (h, v)
lock_exclusive (c ∷ cs) a p db v o h =
    lock_exclusive cs a p (step c db) (step-IsKeyed c db v) o.1 (step-holder c a p db v o.0 h)
