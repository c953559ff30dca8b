-- ===== src/Atm/Scenarios.antt =====
-- Runs of the ATM system at concrete keys and schedules.
use concurrency_in_action.Messaging.Message.{Message, no_sender}
use concurrency_in_action.Common.{
  ℕ, none, zero, suc, ◌+◌, ◌-◌, ◌≤◌, All, arith, ◌≡◌, refl, List, [], ◌∷◌, ◌++◌,
}
use concurrency_in_action.Messaging.Dispatcher.{returned, dispatch, wait_and_dispatch}
use concurrency_in_action.Atm.Machine.{on_entry, dispatcher_of, press_digit}
use concurrency_in_action.Atm.Bank.{new_bank, bank_dispatcher, verify, take_out, finish_withdraw}
use concurrency_in_action.Atm.Driver.{key_message}
use concurrency_in_action.Atm.Screen.{Line, line, amount_line, screen_dispatcher}
use concurrency_in_action.Atm.System.{
  ThreadId, atm_thread, bank_thread, if_thread, main_thread, run, initial,
}
use concurrency_in_action.Atm.Invariant.{screen_value, owed}
use concurrency_in_action.Atm.Safety.{
  issued-le-initial_balance, IsProperRequest, bank_queue-IsProperRequest,
}
use concurrency_in_action.Atm.Cancelling.{second_round, cancel_withdrawal_keeps_debit}

abbrev replicate : ℕ → ThreadId → List ThreadId
replicate zero t = []
replicate (suc n) t = t ∷ replicate n t

-- The keys "i1937w", then the driver waits.
abbrev right_pin : List ℕ
right_pin = b'i' ∷ b'1' ∷ b'9' ∷ b'3' ∷ b'7' ∷ b'w' ∷ []

-- One key, and then a whole round of the other threads.
abbrev slow_keys : ℕ → List ThreadId
slow_keys zero = []
slow_keys (suc n) =
    main_thread
    ∷ (replicate 10 atm_thread
        ++ (replicate 10 bank_thread
            ++ (replicate 10 atm_thread ++ (replicate 20 if_thread ++ slow_keys n))))

-- What the screen shows at the end of a schedule.
printed_by : List ThreadId → List ℕ → List Line
unfolding run on_entry key_message dispatch dispatcher_of screen_dispatcher press_digit
    bank_dispatcher verify take_out finish_withdraw
printed_by ts keys = (run ts (initial 7 keys)).screen.object.printed

withdrawal_prints :
    printed_by (slow_keys 6) right_pin
    ≡ line "Please enter your card (I)"
      ∷ line "Please enter your PIN (0-9) "
      ∷ line "Withdraw 50? (w)"
      ∷ line "Display Balance? (b)"
      ∷ line "Cancel? (c)"
      ∷ amount_line "Issuing " 50
      ∷ line "Ejecting card"
      ∷ line "Please enter your card (I)"
      ∷ []
unfolding printed_by
withdrawal_prints = refl

-- The keys "i1937ci0000w": a cancelled session with the right PIN, then one with a wrong PIN.
abbrev wrong_pin : List ℕ
wrong_pin = b'i' ∷ b'1' ∷ b'9' ∷ b'3' ∷ b'7' ∷ b'c' ∷ b'i' ∷ b'0' ∷ b'0' ∷ b'0' ∷ b'0' ∷ b'w' ∷ []

-- The bank answers the first request only after the second session has sent its own.
abbrev late_bank : List ThreadId
late_bank =
    replicate 6 main_thread
    ++ (replicate 30 atm_thread
        ++ (replicate 5 main_thread
            ++ (replicate 30 atm_thread
                ++ (replicate 3 bank_thread
                    ++ (replicate 10 atm_thread
                        ++ (main_thread
                            ∷ (replicate 10 atm_thread
                                ++ (replicate 20 bank_thread
                                    ++ (replicate 10 atm_thread ++ replicate 60 if_thread)))))))))

-- The answer to the cancelled session is taken for the answer to the second one: money is issued
-- although the PIN is wrong.
stale_pin_verified :
    printed_by late_bank wrong_pin
    ≡ line "Please enter your card (I)"
      ∷ line "Please enter your PIN (0-9) "
      ∷ line "Ejecting card"
      ∷ line "Please enter your card (I)"
      ∷ line "Please enter your PIN (0-9) "
      ∷ line "Withdraw 50? (w)"
      ∷ line "Display Balance? (b)"
      ∷ line "Cancel? (c)"
      ∷ amount_line "Issuing " 50
      ∷ line "Ejecting card"
      ∷ line "Please enter your card (I)"
      ∷ []
unfolding printed_by
stale_pin_verified = refl

-- The bank has sent `withdraw_ok`, and not yet subtracted: the money is printed, the balance is whole.
abbrev early_issue : List ThreadId
early_issue =
    slow_keys 5
    ++ (main_thread
        ∷ (replicate 10 atm_thread
            ++ (replicate 2 bank_thread ++ (replicate 10 atm_thread ++ replicate 20 if_thread))))

issued_and_balance : List ThreadId → List ℕ → ℕ × ℕ
unfolding run on_entry key_message dispatch dispatcher_of screen_dispatcher press_digit
    bank_dispatcher verify take_out finish_withdraw
issued_and_balance ts keys =
    let s = run ts (initial 7 keys) in (screen_value s.screen.object, s.bank.object.balance)

early_issue_test : issued_and_balance early_issue right_pin ≡ (50, 199)
unfolding issued_and_balance
early_issue_test = refl

late_balance_test :
    issued_and_balance (early_issue ++ replicate 1 bank_thread) right_pin ≡ (50, 149)
unfolding issued_and_balance
late_balance_test = refl

issued-le-initial_balance_example :
    let s = run early_issue (initial 7 right_pin) in
    let b = s.bank.object in
    (owed b.subtracting ≤ b.balance)
    × (screen_value s.screen.object + (b.balance - owed b.subtracting) ≤ 199)
issued-le-initial_balance_example = issued-le-initial_balance early_issue 7 right_pin

bank_queue-IsProperRequest_example :
    All IsProperRequest (run (slow_keys 5) (initial 7 right_pin)).queues.bank
bank_queue-IsProperRequest_example = bank_queue-IsProperRequest (slow_keys 5) 7 right_pin

cancel_withdrawal_keeps_debit_example :
    second_round (
      wait_and_dispatch bank_dispatcher new_bank
        (Message.withdraw [] 50 no_sender ∷ Message.cancel_withdrawal [] 50 ∷ []))
    ≡ returned (record { balance = 149; subtracting = none }) [] []
cancel_withdrawal_keeps_debit_example =
    cancel_withdrawal_keeps_debit new_bank [] 50 no_sender (omega arith) (omega arith)
