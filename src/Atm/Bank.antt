-- ===== src/Atm/Bank.antt =====
-- The class `bank_machine` of bank_machine.h and bank_machine.cpp.
use concurrency_in_action.Common.{
  ℕ, ◌+◌, ◌-◌, ◌%◌, ◌^◌, Bool, true, false, ◌&&◌, ◌==◌, leb, if◌then◌else◌, Option, none, some, [],
  ◌∷◌,
}
use concurrency_in_action.Messaging.Message.{Text, Message}
use concurrency_in_action.Messaging.Dispatcher.{Handler, Dispatcher, handle_all}

abbrev pub text_eq : Text → Text → Bool
text_eq [] [] = true
text_eq (c ∷ s) (d ∷ t) = (c == d) && text_eq s t
text_eq _ _ = false

pub record Bank : Type 0 where
  pub balance : ℕ  -- unsigned
  -- What the handler of `withdraw`, which has its answer still to send, subtracts behind that.
  pub subtracting : Option ℕ

-- The constructor.
abbrev pub initial_balance : ℕ
initial_balance = 199

abbrev pub new_bank : Bank
new_bank = record { balance = initial_balance; subtracting = none }

-- "1937"
abbrev pub correct_pin : Text
correct_pin = b'1' ∷ b'9' ∷ b'3' ∷ b'7' ∷ []

unfoldable pub verify : Text → Message
verify pin = if text_eq pin correct_pin then Message.pin_verified else Message.pin_incorrect

-- `balance -= msg.amount`, on 32 bits.
abbrev pub sub32 : ℕ → ℕ → ℕ
sub32 a b = (a + 2 ^ 32 - b) % 2 ^ 32

abbrev pub subtract : Option ℕ → Bank → Bank
subtract none b = b
subtract (some amount) b = record b { balance = sub32 b.balance amount; subtracting = none }

-- The end of the handler of `withdraw`, behind the `send` of `withdraw_ok`.
unfoldable pub finish_withdraw : Bank → Bank
finish_withdraw b = subtract b.subtracting b

-- The handler of `withdraw`: what it has still to do behind its `send`, and the answer.
unfoldable pub take_out : ℕ → Bank → Bank × Message
take_out amount b =
    if leb amount b.balance
    then (record b { subtracting = some amount }, Message.withdraw_ok)
    else (b, Message.withdraw_denied)

abbrev on_verify_pin : Handler Bank
on_verify_pin (Message.verify_pin account pin atm_queue) =
    some λ b. (b, (atm_queue, verify pin) ∷ [])
on_verify_pin _ = none

abbrev on_withdraw : Handler Bank
on_withdraw (Message.withdraw account amount atm_queue) =
    some λ b. ((take_out amount b).0, (atm_queue, (take_out amount b).1) ∷ [])
on_withdraw _ = none

abbrev on_get_balance : Handler Bank
on_get_balance (Message.get_balance account atm_queue) =
    some λ b. (b, (atm_queue, Message.balance b.balance) ∷ [])
on_get_balance _ = none

abbrev on_withdrawal_processed : Handler Bank
on_withdrawal_processed (Message.withdrawal_processed account amount) = some λ b. (b, [])
on_withdrawal_processed _ = none

abbrev on_cancel_withdrawal : Handler Bank
on_cancel_withdrawal (Message.cancel_withdrawal account amount) = some λ b. (b, [])
on_cancel_withdrawal _ = none

-- The `handle` calls of `bank_machine::run`, in their order.
unfoldable pub bank_dispatcher : Dispatcher Bank
bank_dispatcher = handle_all (
    on_verify_pin ∷ on_withdraw ∷ on_get_balance ∷ on_withdrawal_processed ∷ on_cancel_withdrawal
    ∷ [])
