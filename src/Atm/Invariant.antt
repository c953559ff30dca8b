-- ===== src/Atm/Invariant.antt =====
-- The invariant of the ATM system: what the machines and the messages carry, and the money.
mod Defs
mod AtmMachine
mod BankMachine
mod InterfaceMachine
pub use Defs.*
use AtmMachine.{atm-Keeps}
use BankMachine.{bank-Keeps}
use InterfaceMachine.{screen-Keeps}
use concurrency_in_action.Common.{
  ℕ, ◌+◌, ◌≤◌, ◌≡◌, refl, Bool, true, false, Bool-cases, ◌==◌, leb, ◌&&◌, inl, inr, Option, none,
  some, List, [], ◌∷◌, arith, All, weight,
}
use concurrency_in_action.Messaging.Message.{Message, sender_to, at_atm}
use concurrency_in_action.Messaging.Queue.{Queues, Outgoing}
use concurrency_in_action.Atm.Machine.{Atm, new_atm}
use concurrency_in_action.Atm.Bank.{Bank, initial_balance}
use concurrency_in_action.Atm.Screen.{Screen}
use concurrency_in_action.Atm.Driver.{
  Driver, reading, leaving, closing, send_key, key_message, command_message, driver_step,
  withdrawal_unit,
}
use concurrency_in_action.Atm.System.{
  Thread, System, ThreadId, atm_thread, bank_thread, if_thread, main_thread, atm_code, bank_code,
  screen_code, put_atm, put_bank, put_screen, put_driver, thread_step, step, run, initial,
}
use concurrency_in_action.Atm.System.Keeps.{
  FitsOut, out_weight, QueuesFit, queues_weight, send-QueuesFit, ThreadFits, thread_value, StepKept,
  thread_step-kept,
}

-- The sends of the main thread carry nothing.
abbrev DriverFits : Driver → Type 0
DriverFits (reading keys) = Unit
DriverFits (leaving pending) =
    All (FitsOut Fits money) pending × (out_weight Fits money pending ≡ 0)

-- What all the money that is in the system, and not yet printed as issued, adds up to with it.
abbrev pub total_money : System → ℕ
total_money s =
    thread_value Fits money (λ p a. AtmFits a) atm_value atm_code s.atm
    + thread_value Fits money BankFits bank_value bank_code s.bank
    + thread_value Fits money (λ p s. ScreenFits s) screen_value screen_code s.screen
    + queues_weight Fits money s.queues

pub record SystemFits (s : System) : Type 0 where
  pub atm : ThreadFits Fits money (λ p a. AtmFits a) atm_value atm_code s.atm
  pub bank : ThreadFits Fits money BankFits bank_value bank_code s.bank
  pub screen : ThreadFits Fits money (λ p s. ScreenFits s) screen_value screen_code s.screen
  pub driver : DriverFits s.driver
  pub queues : QueuesFit Fits money s.queues
  pub covered : total_money s ≤ initial_balance

-- A machine's step, in the system that it leaves: the sum of the parts decreases or stays.
put_atm-SystemFits :
    (s : System) (r : Option (Thread Atm × Queues))
    → SystemFits s
    → StepKept Fits money (λ p a. AtmFits a) atm_value atm_code s.atm s.queues r
    → SystemFits (put_atm s r)
put_atm-SystemFits s none f k = f
put_atm-SystemFits s (some (t, qs)) f (thread, queues, le) = record {
  atm = thread;
  bank = f.bank;
  screen = f.screen;
  driver = f.driver;
  queues = queues;
  covered = omega (arith, f.covered);
}

put_bank-SystemFits :
    (s : System) (r : Option (Thread Bank × Queues))
    → SystemFits s
    → StepKept Fits money BankFits bank_value bank_code s.bank s.queues r
    → SystemFits (put_bank s r)
put_bank-SystemFits s none f k = f
put_bank-SystemFits s (some (t, qs)) f (thread, queues, le) = record {
  atm = f.atm;
  bank = thread;
  screen = f.screen;
  driver = f.driver;
  queues = queues;
  covered = omega (arith, f.covered);
}

put_screen-SystemFits :
    (s : System) (r : Option (Thread Screen × Queues))
    → SystemFits s
    → StepKept Fits money (λ p s. ScreenFits s) screen_value screen_code s.screen s.queues r
    → SystemFits (put_screen s r)
put_screen-SystemFits s none f k = f
put_screen-SystemFits s (some (t, qs)) f (thread, queues, le) = record {
  atm = f.atm;
  bank = f.bank;
  screen = thread;
  driver = f.driver;
  queues = queues;
  covered = omega (arith, f.covered);
}

abbrev DriverKept : Queues → Option (Driver × Queues) → Type 0
DriverKept qs none = Unit
DriverKept qs (some (d, qs')) =
    DriverFits d
    × QueuesFit Fits money qs'
    × (queues_weight Fits money qs' ≤ queues_weight Fits money qs)

put_driver-SystemFits :
    (s : System) (r : Option (Driver × Queues))
    → SystemFits s
    → DriverKept s.queues r
    → SystemFits (put_driver s r)
put_driver-SystemFits s none f k = f
put_driver-SystemFits s (some (d, qs)) f (driver, queues, le) = record {
  atm = f.atm;
  bank = f.bank;
  screen = f.screen;
  driver = driver;
  queues = queues;
  covered = omega (arith, f.covered);
}

abbrev KeyFits : Option Message → Type 0
KeyFits none = Unit
KeyFits (some msg) = Fits msg × (money msg ≡ 0)

command_message-KeyFits : (c : ℕ) → KeyFits (command_message c)
unfolding command_message
command_message-KeyFits c = elim (Bool-cases (c == b'b')) [
  | inl b ↦ rw b (tt, refl)
  | inr not_b ↦ rw not_b (elim (Bool-cases (c == b'w')) [
    | inl w ↦ rw w (refl, refl)
    | inr not_w ↦ rw not_w (elim (Bool-cases (c == b'c')) [
      | inl k ↦ rw k (tt, refl)
      | inr not_k ↦
          rw not_k
            (elim (Bool-cases (c == b'i')) [ inl i ↦ rw i (tt, refl) | inr not_i ↦ rw not_i tt ])
    ])
  ])
]

key_message-KeyFits : (c : ℕ) → KeyFits (key_message c)
unfolding key_message
key_message-KeyFits c = elim (Bool-cases (leb b'0' c && leb c b'9')) [
  | inl digit ↦ rw digit (ground arith, refl)
  | inr other ↦ rw other (command_message-KeyFits c)
]

send_key-kept :
    (m : Option Message) (qs : Queues)
    → KeyFits m
    → QueuesFit Fits money qs
    → QueuesFit Fits money (send_key m qs)
      × (queues_weight Fits money (send_key m qs) ≤ queues_weight Fits money qs)
send_key-kept none qs k q = (q, omega arith)
send_key-kept (some msg) qs (fits, free) q =
    let (q', le) = send-QueuesFit Fits money (sender_to at_atm) msg qs fits q in (q', omega arith)

driver_step-kept :
    (d : Driver) (qs : Queues)
    → DriverFits d
    → QueuesFit Fits money qs
    → DriverKept qs (driver_step d qs)
unfolding driver_step
driver_step-kept (reading []) qs f q = tt
driver_step-kept (reading (c ∷ keys)) qs f q = elim (Bool-cases (c == b'q')) [
  | inl quit ↦ rw quit (((tt, (tt, (tt, tt))), refl), q, omega arith)
  | inr key ↦
      rw key
        (let (q', le) = send_key-kept (key_message c) qs (key_message-KeyFits c) q in (tt, q', le))
]
driver_step-kept (leaving []) qs f q = tt
driver_step-kept (leaving ((to, msg) ∷ pending)) qs ((fits, rest), free) q =
    let (q', le) = send-QueuesFit Fits money to msg qs fits q in
    ((rest, omega arith), q', omega arith)

step-SystemFits : (t : ThreadId) (s : System) → SystemFits s → SystemFits (step t s)
unfolding step
step-SystemFits atm_thread s f = put_atm-SystemFits s _ f (
    thread_step-kept Fits money (λ p a. AtmFits a) atm_value atm_code atm-Keeps s.atm f.atm s.queues
      f.queues)
step-SystemFits bank_thread s f = put_bank-SystemFits s _ f (
    thread_step-kept Fits money BankFits bank_value bank_code bank-Keeps s.bank f.bank s.queues
      f.queues)
step-SystemFits if_thread s f = put_screen-SystemFits s _ f (
    thread_step-kept Fits money (λ p s. ScreenFits s) screen_value screen_code screen-Keeps s.screen
      f.screen s.queues f.queues)
step-SystemFits main_thread s f =
    put_driver-SystemFits s _ f (driver_step-kept s.driver s.queues f.driver f.queues)

run-SystemFits : (ts : List ThreadId) (s : System) → SystemFits s → SystemFits (run ts s)
unfolding run
run-SystemFits [] s f = f
run-SystemFits (t ∷ ts) s f = run-SystemFits ts (step t s) (step-SystemFits t s f)

-- Every state that the program can reach satisfies the invariant, whatever keys are pressed and
-- however the threads are scheduled.
pub run-initial-SystemFits :
    (ts : List ThreadId) (uninitialised : ℕ) (keys : List ℕ)
    → SystemFits (run ts (initial uninitialised keys))
run-initial-SystemFits ts uninitialised keys = run-SystemFits ts _ (record {
  atm = record { object = record { in_state = tt; digits = tt }; pending = tt };
  bank = record { object = (tt, omega arith, omega arith); pending = tt };
  screen = record { object = tt; pending = tt };
  driver = tt;
  queues = record { atm = tt; bank = tt; interface = tt };
  covered = omega arith;
})
