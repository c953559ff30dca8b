-- ===== src/Atm/Machine.antt =====
-- The class `atm` of atm.h and atm.cpp. A state function is split where it waits: `on_entry` is
-- what it does before, and `handlers` are the handlers of its dispatcher.
use concurrency_in_action.Common.{
  ℕ, ◌++◌, ◌==◌, if◌then◌else◌, length, drop_last, none, some, List, [], ◌∷◌,
}
use concurrency_in_action.Messaging.Message.{
  Text, at_atm, at_bank, at_interface, Sender, sender_to, Message,
}
use concurrency_in_action.Messaging.Queue.{Outgoing}
use concurrency_in_action.Messaging.Dispatcher.{Handler, Dispatcher, handle_all}

-- The values of the member function pointer `state`.
pub data AtmState : Type 0 where
  process_withdrawal process_balance wait_for_action verifying_pin getting_pin : AtmState
  waiting_for_card done_processing : AtmState

pub record Atm : Type 0 where
  pub incoming : Sender  -- what `incoming` converts to
  pub bank : Sender
  pub interface_hardware : Sender
  pub state : AtmState
  pub account : Text
  pub withdrawal_amount : ℕ
  pub pin : Text

-- The constructor, as the driver calls it. It leaves `withdrawal_amount` uninitialised.
abbrev pub new_atm : ℕ → Atm
new_atm uninitialised = record {
  incoming = sender_to at_atm;
  bank = sender_to at_bank;
  interface_hardware = sender_to at_interface;
  state = waiting_for_card;
  account = [];
  withdrawal_amount = uninitialised;
  pin = [];
}

-- Changing the state is the last thing that most handlers do.
abbrev goto : AtmState → Atm → Atm
goto st a = record a { state = st }

abbrev pub pin_length : ℕ
pin_length = 4

-- The three handlers of `process_withdrawal`.
abbrev on_withdraw_ok : Handler Atm
on_withdraw_ok Message.withdraw_ok = some λ a. (
  goto done_processing a,
  (a.interface_hardware, Message.issue_money a.withdrawal_amount)
      ∷ (a.bank, Message.withdrawal_processed a.account a.withdrawal_amount)
      ∷ [],
)
on_withdraw_ok _ = none

abbrev on_withdraw_denied : Handler Atm
on_withdraw_denied Message.withdraw_denied =
    some
      λ a. (goto done_processing a, (a.interface_hardware, Message.display_insufficient_funds) ∷ [])
on_withdraw_denied _ = none

abbrev on_cancel_withdrawal : Handler Atm
on_cancel_withdrawal Message.cancel_pressed = some λ a. (
  goto done_processing a,
  (a.bank, Message.cancel_withdrawal a.account a.withdrawal_amount)
      ∷ (a.interface_hardware, Message.display_withdrawal_cancelled)
      ∷ [],
)
on_cancel_withdrawal _ = none

-- `cancel_pressed` in the other states.
abbrev on_cancel : Handler Atm
on_cancel Message.cancel_pressed = some λ a. (goto done_processing a, [])
on_cancel _ = none

-- `process_balance`
abbrev on_balance : Handler Atm
on_balance (Message.balance amount) =
    some λ a. (goto wait_for_action a, (a.interface_hardware, Message.display_balance amount) ∷ [])
on_balance _ = none

-- `wait_for_action`
abbrev on_withdraw_pressed : Handler Atm
on_withdraw_pressed (Message.withdraw_pressed amount) = some λ a. (
  record a { withdrawal_amount = amount; state = process_withdrawal },
  (a.bank, Message.withdraw a.account amount a.incoming) ∷ [],
)
on_withdraw_pressed _ = none

abbrev on_balance_pressed : Handler Atm
on_balance_pressed Message.balance_pressed =
    some λ a. (goto process_balance a, (a.bank, Message.get_balance a.account a.incoming) ∷ [])
on_balance_pressed _ = none

-- `verifying_pin`
abbrev on_pin_verified : Handler Atm
on_pin_verified Message.pin_verified = some λ a. (goto wait_for_action a, [])
on_pin_verified _ = none

abbrev on_pin_incorrect : Handler Atm
on_pin_incorrect Message.pin_incorrect = some λ a.
    (goto done_processing a, (a.interface_hardware, Message.display_pin_incorrect_message) ∷ [])
on_pin_incorrect _ = none

-- `getting_pin`
unfoldable pub press_digit : ℕ → Atm → Atm × List Outgoing
press_digit digit a =
    let pin' = a.pin ++ (digit ∷ []) in
    if length pin' == pin_length
    then (
      record a { pin = pin'; state = verifying_pin },
      (a.bank, Message.verify_pin a.account pin' a.incoming) ∷ [],
    )
    else (record a { pin = pin' }, [])

-- `if (!pin.empty()) pin.pop_back();`
unfoldable pub clear_last : Atm → Atm × List Outgoing
clear_last a = elim a.pin [ [] ↦ (a, []) | d ∷ ds ↦ (record a { pin = drop_last (d ∷ ds) }, []) ]

abbrev on_digit : Handler Atm
on_digit (Message.digit_pressed digit) = some (press_digit digit)
on_digit _ = none

abbrev on_clear_last : Handler Atm
on_clear_last Message.clear_last_pressed = some clear_last
on_clear_last _ = none

-- `waiting_for_card`
abbrev on_card_inserted : Handler Atm
on_card_inserted (Message.card_inserted account) = some λ a. (
  record a { account = account; pin = []; state = getting_pin },
  (a.interface_hardware, Message.display_enter_pin) ∷ [],
)
on_card_inserted _ = none

-- The handlers of each state function, in the order of its `handle` calls. `done_processing` does
-- not wait.
unfoldable pub handlers : AtmState → List (Handler Atm)
handlers process_withdrawal = on_withdraw_ok ∷ on_withdraw_denied ∷ on_cancel_withdrawal ∷ []
handlers process_balance = on_balance ∷ on_cancel ∷ []
handlers wait_for_action = on_withdraw_pressed ∷ on_balance_pressed ∷ on_cancel ∷ []
handlers verifying_pin = on_pin_verified ∷ on_pin_incorrect ∷ on_cancel ∷ []
handlers getting_pin = on_digit ∷ on_clear_last ∷ on_cancel ∷ []
handlers waiting_for_card = on_card_inserted ∷ []
handlers done_processing = []

unfoldable pub dispatcher_of : AtmState → Dispatcher Atm
unfolding handlers
dispatcher_of st = handle_all (handlers st)

-- Where the thread of `atm::run` stands: at the call `(this->*state)()`, in the wait of that
-- function, or behind the loop, where the exception `close_queue` has taken it.
pub data Phase : Type 0 where
  calling waiting stopped : Phase

-- What the state function does before its wait; `done_processing` returns to the loop.
unfoldable pub on_entry : Atm → Atm × Phase × List Outgoing
on_entry a = elim a.state [
  | waiting_for_card ↦ (a, waiting, (a.interface_hardware, Message.display_enter_card) ∷ [])
  | wait_for_action ↦ (a, waiting, (a.interface_hardware, Message.display_withdrawal_options) ∷ [])
  | done_processing ↦
      (goto waiting_for_card a, calling, (a.interface_hardware, Message.eject_card) ∷ [])
  | _ ↦ (a, waiting, [])
]
