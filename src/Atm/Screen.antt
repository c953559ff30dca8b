-- ===== src/Atm/Screen.antt =====
-- The class `interface_machine` of interface_machine.h and interface_machine.cpp. Its state is what
-- it has printed, oldest first; each handler prints its lines under the lock of `std::cout`.
use Prim.Native.String.{String}
use text.Mathlib.Text.{◌==◌ as str_eq}
use concurrency_in_action.Common.{ℕ, ◌++◌, if◌then◌else◌, none, some, List, [], ◌∷◌}
use concurrency_in_action.Messaging.Message.{Message}
use concurrency_in_action.Messaging.Queue.{Outgoing}
use concurrency_in_action.Messaging.Dispatcher.{Handler, Dispatcher, handle_all}

-- One line of output: a text, or a text with an amount behind it.
pub data Line : Type 0 where
  line : String → Line
  amount_line : String → ℕ → Line

pub record Screen : Type 0 where
  pub printed : List Line

abbrev pub new_screen : Screen
new_screen = record { printed = [] }

abbrev print : List Line → Screen → Screen × List Outgoing
print ls s = (record s { printed = s.printed ++ ls }, [])

abbrev on_issue_money : Handler Screen
on_issue_money (Message.issue_money amount) = some (print (amount_line "Issuing " amount ∷ []))
on_issue_money _ = none

abbrev on_insufficient_funds : Handler Screen
on_insufficient_funds Message.display_insufficient_funds =
    some (print (line "Insufficient funds" ∷ []))
on_insufficient_funds _ = none

abbrev on_enter_pin : Handler Screen
on_enter_pin Message.display_enter_pin = some (print (line "Please enter your PIN (0-9) " ∷ []))
on_enter_pin _ = none

abbrev on_enter_card : Handler Screen
on_enter_card Message.display_enter_card = some (print (line "Please enter your card (I)" ∷ []))
on_enter_card _ = none

abbrev on_display_balance : Handler Screen
on_display_balance (Message.display_balance amount) =
    some (print (amount_line "The balance of your account is " amount ∷ []))
on_display_balance _ = none

abbrev on_withdrawal_options : Handler Screen
on_withdrawal_options Message.display_withdrawal_options =
    some (print (line "Withdraw 50? (w)" ∷ line "Display Balance? (b)" ∷ line "Cancel? (c)" ∷ []))
on_withdrawal_options _ = none

abbrev on_withdrawal_cancelled : Handler Screen
on_withdrawal_cancelled Message.display_withdrawal_cancelled =
    some (print (line "Withdrawal cancelled" ∷ []))
on_withdrawal_cancelled _ = none

abbrev on_pin_incorrect : Handler Screen
on_pin_incorrect Message.display_pin_incorrect_message = some (print (line "PIN incorrect" ∷ []))
on_pin_incorrect _ = none

abbrev on_eject_card : Handler Screen
on_eject_card Message.eject_card = some (print (line "Ejecting card" ∷ []))
on_eject_card _ = none

-- The `handle` calls of `interface_machine::run`, in their order.
unfoldable pub screen_dispatcher : Dispatcher Screen
screen_dispatcher = handle_all (
    on_issue_money ∷ on_insufficient_funds ∷ on_enter_pin ∷ on_enter_card ∷ on_display_balance
    ∷ on_withdrawal_options ∷ on_withdrawal_cancelled ∷ on_pin_incorrect ∷ on_eject_card ∷ [])

-- The money that a line reports.
abbrev pub issued_by : Line → ℕ
issued_by (line s) = 0
issued_by (amount_line s n) = if str_eq s "Issuing " then n else 0
