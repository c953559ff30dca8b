-- ===== src/Messaging/Message.antt =====
-- atm_messages.h, sender.h, sender.cpp, and `close_queue` of dispatcher.h. A queue is named by the
-- receiver that owns it; a sender holds a pointer to a queue, or none.
use concurrency_in_action.Common.{ℕ, List, Option, none, some}

-- `std::string`, as its bytes.
abbrev pub Text : Type 0
Text = List ℕ

-- The three receivers of the program: `atm::incoming`, `bank_machine::incoming` and
-- `interface_machine::incoming`.
pub data QueueId : Type 0 where
  at_atm at_bank at_interface : QueueId

pub record Sender : Type 0 where
  pub q : Option QueueId

-- `sender()` and `sender(queue *)`.
abbrev pub no_sender : Sender
no_sender = record { q = none }

abbrev pub sender_to : QueueId → Sender
sender_to i = record { q = some i }

pub data Message : Type 0 where
  withdraw : (account : Text) (amount : ℕ) (atm_queue : Sender) → Message
  withdraw_ok : Message
  withdraw_denied : Message
  cancel_withdrawal : (account : Text) (amount : ℕ) → Message
  withdrawal_processed : (account : Text) (amount : ℕ) → Message
  card_inserted : (account : Text) → Message
  digit_pressed : (digit : ℕ) → Message
  clear_last_pressed : Message
  eject_card : Message
  withdraw_pressed : (amount : ℕ) → Message
  cancel_pressed : Message
  issue_money : (amount : ℕ) → Message
  verify_pin : (account : Text) (pin : Text) (atm_queue : Sender) → Message
  pin_verified : Message
  pin_incorrect : Message
  display_enter_pin : Message
  display_enter_card : Message
  display_insufficient_funds : Message
  display_withdrawal_cancelled : Message
  display_pin_incorrect_message : Message
  display_withdrawal_options : Message
  get_balance : (account : Text) (atm_queue : Sender) → Message
  balance : (amount : ℕ) → Message
  display_balance : (amount : ℕ) → Message
  balance_pressed : Message
  close_queue : Message
