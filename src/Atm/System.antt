-- ===== src/Atm/System.antt =====
-- The four threads of driver.cpp over their three queues, interleaved in any order. One step of a
-- machine is one message taken from its queue, one `send` of a handler, or what stands from the last
-- `send` of a handler to the next wait: the subtraction in the bank, and the part of a state function of
-- the ATM before its wait. What else a handler does with its object, the step that takes the message does:
-- only the object's own thread reads it.
pub mod Keeps
use concurrency_in_action.Common.{ℕ, Option, none, some, List, [], ◌∷◌}
use concurrency_in_action.Messaging.Message.{QueueId, at_atm, at_bank, at_interface, Message}
use concurrency_in_action.Messaging.Queue.{Queue, Queues, Outgoing, send, wait_and_pop}
use concurrency_in_action.Messaging.Dispatcher.{
  Dispatcher, Dispatched, handled, not_handled, closed, dispatch,
}
use concurrency_in_action.Atm.Machine.{
  Atm, new_atm, Phase, calling, waiting, stopped, on_entry, dispatcher_of,
}
use concurrency_in_action.Atm.Bank.{Bank, new_bank, finish_withdraw, bank_dispatcher}
use concurrency_in_action.Atm.Screen.{Screen, new_screen, screen_dispatcher}
use concurrency_in_action.Atm.Driver.{Driver, reading, driver_step}

-- A thread that runs a machine, with the sends that its handler has still to make.
pub record Thread (S : Type 0) : Type 0 where
  pub object : S
  pub phase : Phase
  pub pending : List Outgoing

-- The queue that a receiver owns, and the same with another content.
abbrev pub queue_at : QueueId → Queues → Queue
queue_at at_atm qs = qs.atm
queue_at at_bank qs = qs.bank
queue_at at_interface qs = qs.interface

abbrev pub set_queue_at : QueueId → Queue → Queues → Queues
set_queue_at at_atm q qs = record qs { atm = q }
set_queue_at at_bank q qs = record qs { bank = q }
set_queue_at at_interface q qs = record qs { interface = q }

-- What the code of a machine is made of.
pub record Code (S : Type 0) : Type 0 where
  pub entry : S → S × Phase × List Outgoing
  pub dispatcher_for : S → Dispatcher S
  pub receiver : QueueId

module _ {S : Type 0} where
  abbrev pub after_dispatch : Thread S → Dispatched S → Thread S
  after_dispatch t (handled s out) = record { object = s; phase = calling; pending = out }
  after_dispatch t not_handled = t
  after_dispatch t closed = record t { phase = stopped }

  abbrev pub enter : S × Phase × List Outgoing → Thread S
  enter (s, p, out) = record { object = s; phase = p; pending = out }

  abbrev pub receive :
      Code S → Thread S → Queues → Option (Message × Queue) → Option (Thread S × Queues)
  receive code t qs none = none
  receive code t qs (some (msg, rest)) = some (
    after_dispatch t (dispatch (code.dispatcher_for t.object) msg t.object),
    set_queue_at code.receiver rest qs,
  )

  abbrev pub advance : Code S → Thread S → Phase → Queues → Option (Thread S × Queues)
  advance code t calling qs = some (enter (code.entry t.object), qs)
  advance code t waiting qs = receive code t qs (wait_and_pop (queue_at code.receiver qs))
  advance code t stopped qs = none

  abbrev pub flush : Code S → Thread S → List Outgoing → Queues → Option (Thread S × Queues)
  flush code t [] qs = advance code t t.phase qs
  flush code t ((to, msg) ∷ rest) qs = some (record t { pending = rest }, send to msg qs)

  unfoldable pub thread_step : Code S → Thread S → Queues → Option (Thread S × Queues)
  thread_step code t qs = flush code t t.pending qs

  abbrev pub started : S → Thread S
  started s = record { object = s; phase = calling; pending = [] }

-- `atm::run`, `bank_machine::run` and `interface_machine::run`.
abbrev pub atm_code : Code Atm
atm_code = record {
  entry = on_entry;
  dispatcher_for = λ a. dispatcher_of a.state;
  receiver = at_atm;
}

abbrev pub bank_code : Code Bank
bank_code = record {
  entry = λ b. (finish_withdraw b, waiting, []);
  dispatcher_for = λ _. bank_dispatcher;
  receiver = at_bank;
}

abbrev pub screen_code : Code Screen
screen_code = record {
  entry = λ s. (s, waiting, []);
  dispatcher_for = λ _. screen_dispatcher;
  receiver = at_interface;
}

pub record System : Type 0 where
  pub atm : Thread Atm
  pub bank : Thread Bank
  pub screen : Thread Screen
  pub driver : Driver
  pub queues : Queues

-- `mainAtm` after it has started the threads, for the keys that will be pressed.
abbrev pub initial : ℕ → List ℕ → System
initial uninitialised keys = record {
  atm = started (new_atm uninitialised);
  bank = started new_bank;
  screen = started new_screen;
  driver = reading keys;
  queues = record { atm = []; bank = []; interface = [] };
}

pub data ThreadId : Type 0 where
  atm_thread bank_thread if_thread main_thread : ThreadId

-- A step of one thread. One that is blocked or has ended leaves the system as it is.
abbrev pub put_atm : System → Option (Thread Atm × Queues) → System
put_atm s none = s
put_atm s (some (t, qs)) = record s { atm = t; queues = qs }

abbrev pub put_bank : System → Option (Thread Bank × Queues) → System
put_bank s none = s
put_bank s (some (t, qs)) = record s { bank = t; queues = qs }

abbrev pub put_screen : System → Option (Thread Screen × Queues) → System
put_screen s none = s
put_screen s (some (t, qs)) = record s { screen = t; queues = qs }

abbrev pub put_driver : System → Option (Driver × Queues) → System
put_driver s none = s
put_driver s (some (d, qs)) = record s { driver = d; queues = qs }

unfoldable pub step : ThreadId → System → System
unfolding thread_step driver_step
step atm_thread s = put_atm s (thread_step atm_code s.atm s.queues)
step bank_thread s = put_bank s (thread_step bank_code s.bank s.queues)
step if_thread s = put_screen s (thread_step screen_code s.screen s.queues)
step main_thread s = put_driver s (driver_step s.driver s.queues)

unfoldable pub run : List ThreadId → System → System
unfolding step
run [] s = s
run (t ∷ ts) s = run ts (step t s)
