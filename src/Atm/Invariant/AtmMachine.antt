-- ===== src/Atm/Invariant/AtmMachine.antt =====
-- The state functions of atm.cpp keep what the ATM carries.
use concurrency_in_action.Common.{
  ℕ, ◌<◌, ◌≡◌, refl, Bool-cases, ◌==◌, inl, inr, List, [], ◌∷◌, ◌++◌, arith, ==_iff, All,
  All-append, length, length-append, drop_last, length-drop_last,
}
use concurrency_in_action.Messaging.Message.{Message}
use concurrency_in_action.Messaging.Queue.{Outgoing}
use concurrency_in_action.Messaging.Dispatcher.{dispatch}
use concurrency_in_action.Atm.Machine.{
  AtmState, process_withdrawal, process_balance, wait_for_action, verifying_pin, getting_pin,
  waiting_for_card, done_processing, waiting, Atm, pin_length, press_digit, clear_last,
  dispatcher_of, on_entry,
}
use concurrency_in_action.Atm.System.{atm_code}
use concurrency_in_action.Atm.System.Keeps.{DispatchKept, EntryKept, Keeps}
use concurrency_in_action.Atm.Invariant.Defs.{IsDigit, Fits, money, InState, AtmFits, atm_value}

All-drop_last : (P : ℕ → Type 0) (xs : List ℕ) → All P xs → All P (drop_last xs)
All-drop_last P [] h = tt
All-drop_last P (x ∷ []) h = tt
All-drop_last P (x ∷ y ∷ ys) h = (h.0, All-drop_last P (y ∷ ys) h.1)

module _ (a : Atm) (f : AtmFits a) where
  abbrev InStateKept : AtmState → Message → Type 0
  InStateKept st msg =
      DispatchKept Fits money (λ p a. AtmFits a) atm_value atm_code a msg
        (dispatch (dispatcher_of st) msg a)

  withdrawal-kept :
      (msg : Message) → InState process_withdrawal a → InStateKept process_withdrawal msg
  unfolding dispatch dispatcher_of
  withdrawal-kept Message.withdraw_ok h =
      (record { in_state = tt; digits = f.digits }, (tt, (tt, tt)), omega arith)
  withdrawal-kept Message.withdraw_denied h =
      (record { in_state = tt; digits = f.digits }, (tt, tt), omega arith)
  withdrawal-kept Message.cancel_pressed h =
      (record { in_state = tt; digits = f.digits }, (tt, (tt, tt)), omega arith)
  withdrawal-kept _ h = tt

  balance-kept : (msg : Message) → InStateKept process_balance msg
  unfolding dispatch dispatcher_of
  balance-kept (Message.balance amount) =
      (record { in_state = tt; digits = f.digits }, (tt, tt), omega arith)
  balance-kept Message.cancel_pressed =
      (record { in_state = tt; digits = f.digits }, tt, omega arith)
  balance-kept _ = tt

  action-kept : (msg : Message) → Fits msg → InStateKept wait_for_action msg
  unfolding dispatch dispatcher_of
  action-kept (Message.withdraw_pressed amount) h =
      (record { in_state = h; digits = f.digits }, (h, tt), omega arith)
  action-kept Message.balance_pressed h =
      (record { in_state = tt; digits = f.digits }, (tt, tt), omega arith)
  action-kept Message.cancel_pressed h =
      (record { in_state = tt; digits = f.digits }, tt, omega arith)
  action-kept _ h = tt

  verifying-kept : (msg : Message) → InStateKept verifying_pin msg
  unfolding dispatch dispatcher_of
  verifying-kept Message.pin_verified =
      (record { in_state = tt; digits = f.digits }, tt, omega arith)
  verifying-kept Message.pin_incorrect =
      (record { in_state = tt; digits = f.digits }, (tt, tt), omega arith)
  verifying-kept Message.cancel_pressed =
      (record { in_state = tt; digits = f.digits }, tt, omega arith)
  verifying-kept _ = tt

  card-kept : (msg : Message) → InStateKept waiting_for_card msg
  unfolding dispatch dispatcher_of
  card-kept (Message.card_inserted account) =
      (record { in_state = omega arith; digits = tt }, (tt, tt), omega arith)
  card-kept _ = tt

  abbrev OutKept : Atm × List Outgoing → Type 0
  OutKept (a', out) =
      EntryKept Fits money (λ p a. AtmFits a) atm_value atm_code a (a', waiting, out)

  press_digit-kept :
      (digit : ℕ)
      → a.state ≡ getting_pin
      → length a.pin < pin_length
      → IsDigit digit
      → OutKept (press_digit digit a)
  unfolding press_digit
  press_digit-kept digit e h d =
      let digits = All-append IsDigit a.pin (digit ∷ []) f.digits (d, tt) in
      let longer = length-append a.pin (digit ∷ []) in
      elim (Bool-cases (length (a.pin ++ digit ∷ []) == pin_length)) [
        | inl full ↦ rw full (
            let four : length (a.pin ++ digit ∷ []) ≡ pin_length = (==_iff _ _).0 full in
            (record { in_state = four; digits = digits }, ((four, digits), tt), omega arith))
        | inr short ↦
            rw short (record { in_state = rw e (ground arith); digits = digits }, tt, omega arith)
      ]

  clear_last-kept :
      (pin : List ℕ)
      → a.pin ≡ pin
      → a.state ≡ getting_pin
      → length pin < pin_length
      → All IsDigit pin
      → OutKept (clear_last a)
  unfolding clear_last
  clear_last-kept [] p e h d = rw (p, clear_last) (f, tt, omega arith)
  clear_last-kept (x ∷ xs) p e h d =
      rw (p, clear_last)
        (
          record {
            in_state = rw e (omega (arith, length-drop_last (x ∷ xs)));
            digits = All-drop_last IsDigit (x ∷ xs) d;
          },
          tt,
          omega arith,
        )

  pin-kept :
      (msg : Message)
      → a.state ≡ getting_pin
      → length a.pin < pin_length
      → Fits msg
      → InStateKept getting_pin msg
  unfolding dispatch dispatcher_of
  pin-kept (Message.digit_pressed digit) e h d = press_digit-kept digit e h d
  pin-kept Message.clear_last_pressed e h d = clear_last-kept a.pin refl e h f.digits
  pin-kept Message.cancel_pressed e h d =
      (record { in_state = tt; digits = f.digits }, tt, omega arith)
  pin-kept _ e h d = tt

  done-kept : (msg : Message) → InStateKept done_processing msg
  unfolding dispatch dispatcher_of
  done-kept Message.close_queue = tt
  done-kept _ = tt

  state-kept :
      (st : AtmState) (msg : Message) → a.state ≡ st → InState st a → Fits msg → InStateKept st msg
  state-kept process_withdrawal msg e h fits = withdrawal-kept msg h
  state-kept process_balance msg e h fits = balance-kept msg
  state-kept wait_for_action msg e h fits = action-kept msg fits
  state-kept verifying_pin msg e h fits = verifying-kept msg
  state-kept getting_pin msg e h fits = pin-kept msg e h fits
  state-kept waiting_for_card msg e h fits = card-kept msg
  state-kept done_processing msg e h fits = done-kept msg

  entry-kept :
      (st : AtmState)
      → a.state ≡ st
      → EntryKept Fits money (λ p a. AtmFits a) atm_value atm_code a (on_entry a)
  unfolding on_entry
  entry-kept waiting_for_card e = rw (e, on_entry) (f, (tt, tt), omega arith)
  entry-kept wait_for_action e = rw (e, on_entry) (f, (tt, tt), omega arith)
  entry-kept done_processing e =
      rw (e, on_entry) (record { in_state = tt; digits = f.digits }, (tt, tt), omega arith)
  entry-kept _ e = rw (e, on_entry) (f, tt, omega arith)

pub atm-Keeps : Keeps Fits money (λ p a. AtmFits a) atm_value atm_code
atm-Keeps = record {
  entry = λ a f. entry-kept a f a.state refl;
  dispatched = λ a msg f fits. state-kept a f a.state msg refl f.in_state fits;
  stops = λ a f. f;
}
