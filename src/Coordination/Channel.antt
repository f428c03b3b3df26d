-- ===== src/Coordination/Channel.antt =====
-- POST /channel/push of src/coordination/routes.ts.
pub mod Delivered
use agent_working_memory.Base.{
  ℕ, suc, Bool, true, false, not, ◌&&◌, ◌||◌, Option, none, some, List, [], ◌∷◌, ◌++◌, Text,
  text_eq, if◌then◌else◌, ◌==◌, any, select, find?, holds_text,
}
use mathlib.Core.Option
use agent_working_memory.Coordination.Schema.{
  AgentId, Role, worker, orchestrator, coordinator, dev_lead, is_dead, Agent, Db, log, agent_row,
  channel_push, mailbox_queued,
}
use agent_working_memory.Coordination.Circuit.{is_available}
use agent_working_memory.Coordination.Reassign.{seen_last}
use agent_working_memory.Coordination.Next.{Delivery, push, queue_mail, has_session}

-- To whom a message goes: an agent, or a role in a workspace.
pub data Address : Type 0 where
  to_agent : AgentId → Address
  to_role : Role → Text → Address

abbrev pub same_role : Role → Role → Bool
same_role worker worker = true
same_role orchestrator orchestrator = true
same_role coordinator coordinator = true
same_role dev_lead dev_lead = true
same_role _ _ = false

-- The agent that the address names; a role is the living agent that was seen last in it.
abbrev pub resolve : Address → Db → Option AgentId
resolve (to_agent a) db = some a
resolve (to_role role w) db =
    Option.map (λ (r : Agent). r.id)
      (seen_last (
        select (λ r. same_role r.role role && (holds_text r.workspace w && not (is_dead r.status)))
          db.agents))

pub data Reply : Type 0 where
  not_found circuit_open delivered_live queued : Reply

abbrev pub to_mailbox : ℕ → ℕ → AgentId → Text → Db → Db × Reply
to_mailbox now mail_id a message db =
    (log now (some a) mailbox_queued (queue_mail now mail_id a message db), queued)

-- What follows the attempt on the live channel.
abbrev pub after_attempt : ℕ → ℕ → AgentId → Text → Db × Bool → Db × Reply
after_attempt now mail_id a message (db, true) = (log now (some a) channel_push db, delivered_live)
after_attempt now mail_id a message (db, false) = to_mailbox now mail_id a message db

-- The circuit, then the channel, then the mailbox.
unfoldable pub send : ℕ → ℕ → Delivery → AgentId → Text → Db → Db × Reply
send now mail_id channel a message db =
    let (available, db1) = is_available now a db in
    if not available
    then (db1, circuit_open)
    else if has_session a db1
    then after_attempt now mail_id a message (push now a channel db1)
    else to_mailbox now mail_id a message db1

-- POST /channel/push, with the id of a message that is queued and what the worker's channel does.
unfoldable pub channel_push_to : ℕ → ℕ → Delivery → Address → Text → Db → Db × Reply
unfolding send
channel_push_to now mail_id channel address message db = elim (resolve address db) [
  | none ↦ (db, not_found)
  | some a ↦ elim (agent_row a db) [
    | none ↦ (db, not_found)
    | some r ↦ send now mail_id channel a message db
  ]
]
