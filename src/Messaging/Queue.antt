-- ===== src/Messaging/Queue.antt =====
-- `messaging::queue` of message_base.h and `sender::send` of sender.h.
use concurrency_in_action.Common.{Option, none, some, List, [], ◌∷◌, ◌++◌}
use concurrency_in_action.Messaging.Message.{
  QueueId, at_atm, at_bank, at_interface, Sender, Message,
}

-- The `std::queue` inside, front first. A push is at the back.
abbrev pub Queue : Type 0
Queue = List Message

abbrev pub push : Message → Queue → Queue
push msg q = q ++ (msg ∷ [])

-- `wait_and_pop`: `none` means that the thread stays blocked on the condition variable.
abbrev pub wait_and_pop : Queue → Option (Message × Queue)
wait_and_pop [] = none
wait_and_pop (res ∷ q) = some (res, q)

-- The queues of the three receivers, which the threads share.
pub record Queues : Type 0 where
  pub atm : Queue
  pub bank : Queue
  pub interface : Queue

abbrev pub push_to : QueueId → Message → Queues → Queues
push_to at_atm msg qs = record qs { atm = push msg qs.atm }
push_to at_bank msg qs = record qs { bank = push msg qs.bank }
push_to at_interface msg qs = record qs { interface = push msg qs.interface }

-- A sender with no queue drops the message.
abbrev pub send_via : Option QueueId → Message → Queues → Queues
send_via none msg qs = qs
send_via (some i) msg qs = push_to i msg qs

abbrev pub send : Sender → Message → Queues → Queues
send s = send_via s.q

-- A `send` that a handler has still to make.
abbrev pub Outgoing : Type 0
Outgoing = Sender × Message
