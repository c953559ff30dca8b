-- ===== src/Atm/Safety.antt =====
-- What holds in every reachable state of the ATM system.
use concurrency_in_action.Common.{ℕ, ◌+◌, ◌-◌, ◌≤◌, ◌≡◌, List, [], ◌∷◌, arith, All, length}
use concurrency_in_action.Messaging.Message.{Message}
use concurrency_in_action.Messaging.Queue.{Queue}
use concurrency_in_action.Atm.Machine.{pin_length}
use concurrency_in_action.Atm.Bank.{initial_balance}
use concurrency_in_action.Atm.Driver.{withdrawal_unit}
use concurrency_in_action.Atm.System.{ThreadId, run, initial}
use concurrency_in_action.Atm.Invariant.{owed, IsDigit, Fits, screen_value, run-initial-SystemFits}

-- In every reachable state, whatever keys are pressed and however the four threads are scheduled, what
-- the bank has still to subtract for a `withdraw_ok` is in the account, and the money that has been
-- printed as issued and the balance that is left without that never exceed the opening balance of 199.
pub issued-le-initial_balance :
    (ts : List ThreadId) (uninitialised : ℕ) (keys : List ℕ)
    → let s = run ts (initial uninitialised keys) in
      let b = s.bank.object in
      (owed b.subtracting ≤ b.balance)
      × (screen_value s.screen.object + (b.balance - owed b.subtracting) ≤ initial_balance)
issued-le-initial_balance ts uninitialised keys =
    let fits = run-initial-SystemFits ts uninitialised keys in
    (fits.bank.object.1, omega (arith, fits.covered))

-- What the bank may be asked: a PIN of four digits, or the driver's amount.
abbrev pub IsProperRequest : Message → Type 0
IsProperRequest (Message.verify_pin account pin to) = (length pin ≡ pin_length) × All IsDigit pin
IsProperRequest (Message.withdraw account amount to) = amount ≡ withdrawal_unit
IsProperRequest _ = Unit

Fits-IsProperRequest : (msg : Message) → Fits msg → IsProperRequest msg
Fits-IsProperRequest (Message.verify_pin account pin to) f = f
Fits-IsProperRequest (Message.withdraw account amount to) f = f
Fits-IsProperRequest _ f = tt

All-IsProperRequest : (q : Queue) → All Fits q → All IsProperRequest q
All-IsProperRequest [] f = tt
All-IsProperRequest (msg ∷ q) f = (Fits-IsProperRequest msg f.0, All-IsProperRequest q f.1)

-- In every reachable state each `verify_pin` that waits in the bank's queue carries exactly four
-- decimal digits, and each `withdraw` there is of 50, although `withdrawal_amount` starts
-- uninitialised and the user may clear digits and cancel at any time.
pub bank_queue-IsProperRequest :
    (ts : List ThreadId) (uninitialised : ℕ) (keys : List ℕ)
    → All IsProperRequest (run ts (initial uninitialised keys)).queues.bank
bank_queue-IsProperRequest ts uninitialised keys =
    All-IsProperRequest _ (run-initial-SystemFits ts uninitialised keys).queues.bank
