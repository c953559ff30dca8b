-- ===== src/Atm/Invariant/BankMachine.antt =====
-- The handlers of bank_machine.cpp keep the money.
use concurrency_in_action.Common.{
  Option, none, some, ℕ, ◌+◌, ◌≤◌, ◌≡◌, refl, Bool-cases, inl, inr, List, arith, leb,
}
use concurrency_in_action.Messaging.Message.{Message}
use concurrency_in_action.Messaging.Dispatcher.{dispatch}
use concurrency_in_action.Atm.Bank.{
  subtract, finish_withdraw, Bank, text_eq, correct_pin, take_out, verify, bank_dispatcher,
}
use concurrency_in_action.Atm.Machine.{calling, waiting}
use concurrency_in_action.Atm.Driver.{withdrawal_unit}
use concurrency_in_action.Atm.System.{bank_code}
use concurrency_in_action.Atm.System.Keeps.{DispatchKept, Keeps}
use concurrency_in_action.Atm.Invariant.Defs.{Fits, money, BankFits, bank_value}

take_out-kept :
    (amount : ℕ) (b : Bank)
    → amount ≡ withdrawal_unit
    → BankFits waiting b
    → BankFits calling (take_out amount b).0
      × (bank_value (take_out amount b).0 + money (take_out amount b).1 ≤ bank_value b)
unfolding take_out
take_out-kept amount b e (none_left, less, bound) = elim (Bool-cases (leb amount b.balance)) [
  | inl enough ↦ rw (enough, none_left) ((tt, ground arith, bound), ground arith)
  | inr short ↦ rw (short, none_left) ((tt, omega arith, bound), omega arith)
]

take_out-Fits : (amount : ℕ) (b : Bank) → Fits (take_out amount b).1
unfolding take_out
take_out-Fits amount b = elim (Bool-cases (leb amount b.balance)) [
  | inl enough ↦ rw enough tt
  | inr short ↦ rw short tt
]

verify-Fits : (pin : List ℕ) → Fits (verify pin) × (money (verify pin) ≡ 0)
unfolding verify
verify-Fits pin = elim (Bool-cases (text_eq pin correct_pin)) [
  | inl same ↦ rw same (tt, refl)
  | inr other ↦ rw other (tt, refl)
]

waits : {b : Bank} → BankFits waiting b → BankFits calling b
waits (none_left, less, bound) = (tt, less, bound)

finish_withdraw-kept :
    (b : Bank)
    → BankFits calling b
    → BankFits waiting (finish_withdraw b) × (bank_value (finish_withdraw b) ≤ bank_value b)
unfolding finish_withdraw
finish_withdraw-kept b (u, less, bound) = by_rest b.subtracting refl
  where
    by_rest :
        (o : Option ℕ)
        → b.subtracting ≡ o
        → BankFits waiting (subtract o b) × (bank_value (subtract o b) ≤ bank_value b)
    by_rest none e = ((e, less, bound), omega arith)
    by_rest (some amount) e =
        let le = rw e at less in
        ((refl, omega arith, omega (arith, le, bound)), rw e (omega (arith, le, bound)))

bank-kept :
    (b : Bank) (msg : Message)
    → BankFits waiting b
    → Fits msg
    → DispatchKept Fits money BankFits bank_value bank_code b msg (dispatch bank_dispatcher msg b)
unfolding dispatch bank_dispatcher
bank-kept b (Message.verify_pin account pin to) f fits =
    let (ok, none_taken) = verify-Fits pin in (waits f, (ok, tt), omega arith)
bank-kept b (Message.withdraw account amount to) f fits =
    let (inv, le) = take_out-kept amount b fits f in
    (inv, (take_out-Fits amount b, tt), omega arith)
bank-kept b (Message.get_balance account to) f fits = (waits f, (tt, tt), omega arith)
bank-kept b (Message.withdrawal_processed account amount) f fits = (waits f, tt, omega arith)
bank-kept b (Message.cancel_withdrawal account amount) f fits = (waits f, tt, omega arith)
bank-kept b _ f fits = tt

pub bank-Keeps : Keeps Fits money BankFits bank_value bank_code
bank-Keeps = record {
  entry = λ b f. let (fits, le) = finish_withdraw-kept b f in (fits, tt, omega (arith, le));
  dispatched = bank-kept;
  stops = λ b f. waits f;
}
