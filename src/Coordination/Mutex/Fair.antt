-- ===== src/Coordination/Mutex/Fair.antt =====
-- The states that the write mutex of src/coordination/write-mutex.ts goes through.
use agent_working_memory.Base.{
  ℕ, ◌+◌, ◌≡◌, refl, ap, sym, ◌∙◌, true, false, Option, none, some, List, [], ◌∷◌, ◌++◌, length,
  length-append, arith, if◌then◌else◌,
}
use mathlib.Core.List.{append_assoc, append-nil}
use agent_working_memory.Coordination.Mutex.{Mutex, create, acquire, release, release_to}

-- The mutex with what happens around it: the requests that hold the lock, which nothing here keeps to one,
-- those that were served in their order, and those that asked for it in theirs.
pub record World : Type 0 where
  pub mutex : Mutex
  pub holders : List ℕ
  pub served : List ℕ
  pub asked : List ℕ

abbrev pub serve : Option ℕ → List ℕ → List ℕ
serve none done = done
serve (some who) done = done ++ who ∷ []

abbrev pub arrived : World → ℕ → World
arrived w who = record {
  mutex = (acquire who w.mutex).0;
  holders = serve (acquire who w.mutex).1 w.holders;
  served = serve (acquire who w.mutex).1 w.served;
  asked = w.asked ++ who ∷ [];
}

-- The holder's response has ended; `others` are the requests that still hold the lock.
abbrev pub ended : World → List ℕ → World
ended w others = record {
  mutex = (release w.mutex).0;
  holders = serve (release w.mutex).1 others;
  served = serve (release w.mutex).1 w.served;
  asked = w.asked;
}

-- A request arrives, or the response of one that holds the lock ends. Each holder releases once.
pub data Step : World → World → Type 0 where
  arrives : (w : World) (who : ℕ) → Step w (arrived w who)
  ends :
      (w : World) (before : List ℕ) (who : ℕ) (after : List ℕ)
      → w.holders ≡ before ++ who ∷ after
      → Step w (ended w (before ++ after))

pub data Reach : World → Type 0 where
  start : Reach (record { mutex = create; holders = []; served = []; asked = [] })
  next : {w w' : World} → Reach w → Step w w' → Reach w'

-- One request holds the lock while it is taken and none while it is free, nobody waits for a free lock, and
-- the requests have been served in the order in which they asked: those served and those waiting, in this
-- order, are all that asked.
pub record IsFair (w : World) : Type 0 where
  pub held : length w.holders ≡ (if w.mutex.locked then 1 else 0)
  pub busy : w.mutex.locked ≡ false → w.mutex.queue ≡ []
  pub in_order : w.served ++ w.mutex.queue ≡ w.asked

length-serve : (who : ℕ) (xs : List ℕ) → length (xs ++ who ∷ []) ≡ length xs + 1
length-serve who xs = length-append xs (who ∷ [])

arrives-IsFair : (w : World) (who : ℕ) → IsFair w → IsFair (arrived w who)
unfolding acquire
arrives-IsFair w who v = record {
  held = ground (arith, v.held, length-serve who w.holders);
  busy = ground (arith, v.busy);
  in_order = ground (
    arith,
    v.in_order,
    append_assoc w.served w.mutex.queue (who ∷ []),
    append-nil w.served,
    append-nil (w.served ++ who ∷ []),
  );
}

release_to-in_order :
    (q : List ℕ) (m : Mutex) (served asked : List ℕ)
    → m.queue ≡ q
    → served ++ m.queue ≡ asked
    → serve (release_to q m).1 served ++ (release_to q m).0.queue ≡ asked
unfolding release_to
release_to-in_order [] m served asked e h = h
release_to-in_order (x ∷ rest) m served asked e h =
    append_assoc served (x ∷ []) rest ∙ ap (◌++◌ served) (sym e) ∙ h

-- While the lock is taken, a request that has left leaves no other behind.
nobody_else :
    (w : World) (before : List ℕ) (who : ℕ) (after : List ℕ)
    → w.holders ≡ before ++ who ∷ after
    → IsFair w
    → (length (before ++ after) ≡ 0) × (w.mutex.locked ≡ true)
nobody_else w before who after h v =
    let n : length (before ++ who ∷ after) ≡ (if w.mutex.locked then 1 else 0) =
      ap length (sym h) ∙ v.held in
    ground (arith, n, length-append before (who ∷ after), length-append before after)

release_to-held :
    (q : List ℕ) (m : Mutex) (others : List ℕ)
    → length others ≡ 0
    → m.locked ≡ true
    → length (serve (release_to q m).1 others) ≡ (if (release_to q m).0.locked then 1 else 0)
unfolding release_to
release_to-held [] m others n l = n
release_to-held (x ∷ rest) m others n l = rw l (length-serve x others ∙ ap (λ k. k + 1) n)

release_to-busy :
    (q : List ℕ) (m : Mutex)
    → m.locked ≡ true
    → m.queue ≡ q
    → (release_to q m).0.locked ≡ false
    → (release_to q m).0.queue ≡ []
unfolding release_to
release_to-busy [] m l e f = e
release_to-busy (x ∷ rest) m l e f = cc

ends-IsFair :
    (w : World) (before : List ℕ) (who : ℕ) (after : List ℕ)
    → w.holders ≡ before ++ who ∷ after
    → IsFair w
    → IsFair (ended w (before ++ after))
unfolding release
ends-IsFair w before who after h v =
    let (n, l) = nobody_else w before who after h v in
    record {
      held = release_to-held w.mutex.queue w.mutex (before ++ after) n l;
      busy = release_to-busy w.mutex.queue w.mutex l refl;
      in_order = release_to-in_order w.mutex.queue w.mutex w.served w.asked refl v.in_order;
    }

-- In every state that requests and the ends of responses lead to from a new mutex, exactly one request holds
-- the lock while it is taken and none while it is free, nobody waits while it is free, and the requests
-- served and then those that wait are, in this order, all that asked.
pub Reach-IsFair : {w : World} → Reach w → IsFair w
unfolding create
Reach-IsFair start = record { held = refl; busy = λ _. refl; in_order = refl }
Reach-IsFair (next r (arrives w who)) = arrives-IsFair w who (Reach-IsFair r)
Reach-IsFair (next r (ends w before who after h)) =
    ends-IsFair w before who after h (Reach-IsFair r)
