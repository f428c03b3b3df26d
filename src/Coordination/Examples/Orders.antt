-- ===== src/Coordination/Examples/Orders.antt =====
-- Orders, commands and messages at concrete inputs.
use agent_working_memory.Base.{◌≢◌, refl, Bool, Option, none, some, [], ◌∷◌, Text, codes, arith}
use agent_working_memory.Coordination.Schema.{working, Command}
use agent_working_memory.Coordination.Next.{Order, assign, delivered, unreachable}
use agent_working_memory.Coordination.Next.Single.{IsSingle, assign-IsSingle}
use agent_working_memory.Coordination.Commands.{is_active_for}
use agent_working_memory.Coordination.Channel.{to_agent, channel_push_to}
use agent_working_memory.Coordination.Channel.Delivered.{IsEnded, push-IsEnded}
use agent_working_memory.Coordination.Examples.{db, agent}

abbrev order : Order
order = record {
  agent = some 2;
  worker_name = none;
  task = codes "task";
  description = none;
  workspace = none;
  priority = 3;
  blocked_by = none;
  context = none;
}

single : IsSingle db
single a = ground arith

assign-IsSingle_example : IsSingle (assign 9000 20 1 (codes "new") delivered order db).0
assign-IsSingle_example = assign-IsSingle 9000 20 1 (codes "new") delivered order db single

abbrev here : Option Text
here = some (codes "w")

abbrev elsewhere : Text
elsewhere = codes "v"

apart : b'u' ∷ [] ≢ codes "w"
apart = ground arith

abbrev is_freeze : Command → Bool
is_freeze c = is_active_for none c

push-IsEnded_example :
    IsEnded 9000 1 unreachable
      (agent 1 working 5)
      (codes "hello")
      db
      (channel_push_to 9000 1 unreachable (to_agent 1) (codes "hello") db)
push-IsEnded_example = push-IsEnded 9000 1 unreachable 1 (codes "hello") (agent 1 working 5) db refl
