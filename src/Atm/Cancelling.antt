-- ===== src/Atm/Cancelling.antt =====
-- What the bank does with a withdrawal that the user cancels.
use concurrency_in_action.Common.{ℕ, ◌-◌, ◌^◌, ◌≤◌, ◌<◌, ◌≡◌, none, [], ◌∷◌, arith}
use concurrency_in_action.Messaging.Message.{Text, Sender, Message}
use concurrency_in_action.Messaging.Dispatcher.{Waited, returned, dispatch, wait_and_dispatch}
use concurrency_in_action.Atm.Bank.{Bank, take_out, finish_withdraw, bank_dispatcher}

-- Two rounds of the loop of `bank_machine::run`: the first handler ends before the second wait.
unfoldable pub second_round : Waited Bank → Waited Bank
unfolding wait_and_dispatch finish_withdraw
second_round (returned b out rest) = wait_and_dispatch bank_dispatcher (finish_withdraw b) rest
second_round w = w

-- When the bank grants a withdrawal and its cancellation comes next, the account stays debited:
-- the balance after both is lower by the amount.
pub cancel_withdrawal_keeps_debit :
    (b : Bank) (account : Text) (amount : ℕ) (to : Sender)
    → amount ≤ b.balance
    → b.balance < 2 ^ 32
    → second_round (
        wait_and_dispatch bank_dispatcher b
          (Message.withdraw account amount to ∷ Message.cancel_withdrawal account amount ∷ []))
      ≡ returned (record { balance = b.balance - amount; subtracting = none }) [] []
unfolding wait_and_dispatch dispatch bank_dispatcher take_out finish_withdraw second_round
cancel_withdrawal_keeps_debit b account amount to le small = ground arith
