-- ===== src/Atm/Invariant/Defs.antt =====
-- What the messages and the machines of the ATM system carry, and what they are worth.
use concurrency_in_action.Common.{ℕ, ◌-◌, Option, none, some, ◌≤◌, ◌<◌, ◌≡◌, All, weight, length}
use concurrency_in_action.Messaging.Message.{Message}
use concurrency_in_action.Atm.Machine.{
  Phase, calling, waiting, stopped, AtmState, process_withdrawal, verifying_pin, getting_pin, Atm,
  pin_length,
}
use concurrency_in_action.Atm.Bank.{Bank, initial_balance}
use concurrency_in_action.Atm.Screen.{Screen, issued_by}
use concurrency_in_action.Atm.Driver.{withdrawal_unit}

-- A key from '0' to '9'.
abbrev pub IsDigit : ℕ → Type 0
IsDigit c = (b'0' ≤ c) × (c ≤ b'9')

-- A PIN that is sent to the bank is four digits, and every withdrawal is of the driver's amount.
abbrev pub Fits : Message → Type 0
Fits (Message.withdraw account amount to) = amount ≡ withdrawal_unit
Fits (Message.withdraw_pressed amount) = amount ≡ withdrawal_unit
Fits (Message.digit_pressed digit) = IsDigit digit
Fits (Message.verify_pin account pin to) = (length pin ≡ pin_length) × All IsDigit pin
Fits _ = Unit

-- The money that a message stands for.
abbrev pub money : Message → ℕ
money Message.withdraw_ok = withdrawal_unit
money (Message.issue_money amount) = amount
money _ = 0

abbrev pub InState : AtmState → Atm → Type 0
InState process_withdrawal a = a.withdrawal_amount ≡ withdrawal_unit
InState getting_pin a = length a.pin < pin_length
InState verifying_pin a = length a.pin ≡ pin_length
InState _ a = Unit

pub record AtmFits (a : Atm) : Type 0 where
  pub in_state : InState a.state a
  pub digits : All IsDigit a.pin

abbrev pub owed : Option ℕ → ℕ
owed none = 0
owed (some amount) = amount

-- Where a bank waits, nothing is left to subtract.
abbrev IsSettled : Phase → Option ℕ → Type 0
IsSettled waiting o = o ≡ none
IsSettled calling o = Unit
IsSettled stopped o = Unit

abbrev pub BankFits : Phase → Bank → Type 0
BankFits p b =
    IsSettled p b.subtracting × (owed b.subtracting ≤ b.balance) × (b.balance ≤ initial_balance)

abbrev pub ScreenFits : Screen → Type 0
ScreenFits s = Unit

abbrev pub atm_value : Atm → ℕ
atm_value a = 0

abbrev pub bank_value : Bank → ℕ
bank_value b = b.balance - owed b.subtracting

-- The money that has come out of the machine.
abbrev pub screen_value : Screen → ℕ
screen_value s = weight issued_by s.printed
