-- ===== src/Atm/Driver.antt =====
-- `mainAtm` of driver.cpp: the main thread, which turns key presses into messages.
use concurrency_in_action.Common.{
  ℕ, ◌==◌, leb, ◌&&◌, if◌then◌else◌, Option, none, some, List, [], ◌∷◌,
}
use concurrency_in_action.Messaging.Message.{
  Text, QueueId, at_atm, at_bank, at_interface, sender_to, Message,
}
use concurrency_in_action.Messaging.Queue.{Queues, Outgoing, send}

-- "acc1234"
abbrev pub account_text : Text
account_text = b'a' ∷ b'c' ∷ b'c' ∷ b'1' ∷ b'2' ∷ b'3' ∷ b'4' ∷ []

abbrev pub withdrawal_unit : ℕ
withdrawal_unit = 50

-- The `switch`, but for the digits and the case 'q': the message that a key sends to the ATM.
unfoldable pub command_message : ℕ → Option Message
command_message c =
    if c == b'b'
    then some Message.balance_pressed
    else if c == b'w'
    then some (Message.withdraw_pressed withdrawal_unit)
    else if c == b'c'
    then some Message.cancel_pressed
    else if c == b'i'
    then some (Message.card_inserted account_text)
    else none

unfoldable pub key_message : ℕ → Option Message
unfolding command_message
key_message c =
    if leb b'0' c && leb c b'9' then some (Message.digit_pressed c) else command_message c

-- The keys that are still to come, or the sends that are still to make after the loop. At the end
-- of the input `getchar` makes no more messages, and the loop goes on for ever.
pub data Driver : Type 0 where
  reading : (keys : List ℕ) → Driver
  leaving : (pending : List Outgoing) → Driver

-- The member function `done` of the three machines.
abbrev pub done : QueueId → Outgoing
done i = (sender_to i, Message.close_queue)

abbrev pub closing : List Outgoing
closing = done at_bank ∷ done at_atm ∷ done at_interface ∷ []

abbrev pub send_key : Option Message → Queues → Queues
send_key none qs = qs
send_key (some msg) qs = send (sender_to at_atm) msg qs

unfoldable pub driver_step : Driver → Queues → Option (Driver × Queues)
driver_step (reading []) qs = none
driver_step (reading (c ∷ keys)) qs =
    if c == b'q'
    then some (leaving closing, qs)
    else some (reading keys, send_key (key_message c) qs)
driver_step (leaving []) qs = none
driver_step (leaving ((to, msg) ∷ pending)) qs = some (leaving pending, send to msg qs)
