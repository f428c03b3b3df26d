-- ===== src/Coordination/Channel/Delivered.antt =====
-- The ends of POST /channel/push.
use agent_working_memory.Base.{
  ℕ, ◌≡◌, refl, sym, ap, subst, ◌∙◌, ◌⊎◌, inl, inr, Bool, true, false, ◌&&◌, Option, none, some,
  List, [], ◌∷◌, ◌++◌, Text, text_eq, text_eq_refl, ◌==◌, any, find?, arith, Bool-cases,
}
use agent_working_memory.Coordination.Schema.{AgentId, Agent, Mail, Db, agent_row, datetime}
use agent_working_memory.Coordination.Circuit.{is_available, get_state}
use agent_working_memory.Coordination.Dispatch.{mail_for}
use agent_working_memory.Coordination.Next.{
  Delivery, delivered, http_error, unreachable, push, queue_mail, has_session,
}
use agent_working_memory.Coordination.Channel.{
  to_agent, Reply, circuit_open, delivered_live, queued, send, channel_push_to, to_mailbox,
  after_attempt,
}

-- The message waits for the agent of a row: the next poll under its name and workspace may take it.
abbrev pub waits : Agent → Text → Db → Bool
waits r message db =
    any (λ m. text_eq m.message message && mail_for r.name r.workspace m) db.mailbox

any-snoc : (p : Mail → Bool) (ms : List Mail) (m : Mail) → p m ≡ true → any p (ms ++ m ∷ []) ≡ true
any-snoc p [] m h = ground arith
any-snoc p (k ∷ ms) m h = ground (arith, any-snoc p ms m)

own_mail :
    (now mail_id : ℕ) (name message : Text) (workspace : Option Text)
    → mail_for name workspace (record {
      id = mail_id;
      worker_name = name;
      workspace = workspace;
      message = message;
      created_at = now;
      delivered_at = none;
    })
      ≡ true
own_mail now mail_id name message none = ground (arith, text_eq_refl name)
own_mail now mail_id name message (some w) = ground (arith, text_eq_refl name, text_eq_refl w)

queue_mail-waits :
    (now mail_id : ℕ) (a : AgentId) (message : Text) (r : Agent) (db : Db)
    → agent_row a db ≡ some r
    → waits r message (queue_mail now mail_id a message db) ≡ true
unfolding queue_mail
queue_mail-waits now mail_id a message r db h =
    rw (queue_mail, h)
      (any-snoc (λ m. text_eq m.message message && mail_for r.name r.workspace m) db.mailbox
        (record {
          id = mail_id;
          worker_name = r.name;
          workspace = r.workspace;
          message = message;
          created_at = datetime now;
          delivered_at = none;
        })
        (ground (
          arith,
          text_eq_refl message,
          own_mail (datetime now) mail_id r.name message r.workspace,
        )))

available-agents : (now : ℕ) (a : AgentId) (db : Db) → (is_available now a db).1.agents ≡ db.agents
unfolding is_available get_state
available-agents now a db = ground arith

available-sessions :
    (now : ℕ) (a : AgentId) (db : Db) → (is_available now a db).1.sessions ≡ db.sessions
unfolding is_available get_state
available-sessions now a db = ground arith

push-agents :
    (now : ℕ) (a : AgentId) (channel : Delivery) (db : Db)
    → (push now a channel db).0.agents ≡ db.agents
unfolding push
push-agents now a delivered db = refl
push-agents now a http_error db = refl
push-agents now a unreachable db = refl

push-delivered :
    (now : ℕ) (a : AgentId) (channel : Delivery) (db : Db)
    → (push now a channel db).1 ≡ true
    → channel ≡ delivered
unfolding push
push-delivered now a delivered db h = refl
push-delivered now a http_error db h = cc
push-delivered now a unreachable db h = cc

-- The three ends of a push to a known agent.
abbrev pub IsEnded : ℕ → AgentId → Delivery → Agent → Text → Db → Db × Reply → Type 0
IsEnded now a channel r message db (after, reply) =
    ((reply ≡ circuit_open) × ((is_available now a db).0 ≡ false))
    ⊎ (((reply ≡ delivered_live) × (channel ≡ delivered) × (has_session a db ≡ true))
        ⊎ ((reply ≡ queued) × (waits r message after ≡ true)))

mailed :
    (now mail_id : ℕ) (a : AgentId) (channel : Delivery) (message : Text) (r : Agent)
    (before db : Db)
    → agent_row a db ≡ some r
    → IsEnded now a channel r message before (to_mailbox now mail_id a message db)
mailed now mail_id a channel message r before db h =
    inr (inr (refl, queue_mail-waits now mail_id a message r db h))

attempted :
    (now mail_id : ℕ) (a : AgentId) (channel : Delivery) (message : Text) (r : Agent) (before : Db)
    (result : Db × Bool)
    → has_session a before ≡ true
    → agent_row a result.0 ≡ some r
    → (result.1 ≡ true → channel ≡ delivered)
    → IsEnded now a channel r message before (after_attempt now mail_id a message result)
attempted now mail_id a channel message r before (db, true) s h d = inr (inl (refl, d refl, s))
attempted now mail_id a channel message r before (db, false) s h d =
    mailed now mail_id a channel message r before db h

module _ (now mail_id : ℕ) (channel : Delivery) (a : AgentId) (message : Text) (db : Db) where
  send_refused :
      (is_available now a db).0 ≡ false
      → send now mail_id channel a message db ≡ ((is_available now a db).1, circuit_open)
  unfolding send
  send_refused e = rw e refl

  send_live :
      (is_available now a db).0 ≡ true
      → has_session a (is_available now a db).1 ≡ true
      → send now mail_id channel a message db
        ≡ after_attempt now mail_id a message (push now a channel (is_available now a db).1)
  unfolding send
  send_live e k = rw (e, k) refl

  send_stored :
      (is_available now a db).0 ≡ true
      → has_session a (is_available now a db).1 ≡ false
      → send now mail_id channel a message db
        ≡ to_mailbox now mail_id a message (is_available now a db).1
  unfolding send
  send_stored e k = rw (e, k) refl

  send-IsEnded :
      (r : Agent)
      → agent_row a db ≡ some r
      → IsEnded now a channel r message db (send now mail_id channel a message db)
  send-IsEnded r h =
      let db1 = (is_available now a db).1 in
      let row : agent_row a db1 ≡ some r =
        ap (find? (λ x. x.id == a)) (available-agents now a db) ∙ h in
      elim (Bool-cases (is_available now a db).0) [
        | inr closed ↦
            subst (IsEnded now a channel r message db) (sym (send_refused closed))
              (inl (refl, closed))
        | inl free ↦ elim (Bool-cases (has_session a db1)) [
          | inl live ↦ subst (IsEnded now a channel r message db) (sym (send_live free live)) (
              attempted now mail_id a channel message r db (push now a channel db1)
                (subst (λ ss. any (λ x. (x.agent_id == a) && x.connected) ss ≡ true)
                  (available-sessions now a db) live)
                (ap (find? (λ x. x.id == a)) (push-agents now a channel db1) ∙ row)
                (push-delivered now a channel db1))
          | inr dead ↦
              subst (IsEnded now a channel r message db) (sym (send_stored free dead))
                (mailed now mail_id a channel message r db db1 row)
        ]
      ]

-- A push to a registered agent is never lost silently: it is refused because the agent's circuit is
-- open, or the worker's connected channel took it, or the message waits in the mailbox under the
-- agent's name and workspace.
pub push-IsEnded :
    (now mail_id : ℕ) (channel : Delivery) (a : AgentId) (message : Text) (r : Agent) (db : Db)
    → agent_row a db ≡ some r
    → IsEnded now a channel r message db
        (channel_push_to now mail_id channel (to_agent a) message db)
unfolding channel_push_to
push-IsEnded now mail_id channel a message r db h =
    rw (channel_push_to, h) (send-IsEnded now mail_id channel a message db r h)
