-- ===== src/Atm/Invariant/InterfaceMachine.antt =====
-- The handlers of interface_machine.cpp print what they are sent.
use concurrency_in_action.Common.{◌+◌, ◌≤◌, List, [], ◌∷◌, ◌++◌, arith, weight, weight-append}
use concurrency_in_action.Messaging.Message.{Message}
use concurrency_in_action.Messaging.Dispatcher.{dispatch}
use concurrency_in_action.Atm.Screen.{Line, amount_line, Screen, issued_by, screen_dispatcher}
use concurrency_in_action.Atm.System.{screen_code}
use concurrency_in_action.Atm.System.Keeps.{DispatchKept, Keeps}
use concurrency_in_action.Atm.Invariant.Defs.{Fits, money, ScreenFits, screen_value}

print-kept :
    (s : Screen) (ls : List Line)
    → weight issued_by (s.printed ++ ls) + 0 ≤ weight issued_by s.printed + weight issued_by ls
print-kept s ls = omega (arith, weight-append issued_by s.printed ls)

screen-kept :
    (s : Screen) (msg : Message)
    → ScreenFits s
    → Fits msg
    → DispatchKept Fits money
        (λ p s. ScreenFits s)
        screen_value
        screen_code
        s
        msg
        (dispatch screen_dispatcher msg s)
unfolding dispatch screen_dispatcher
screen-kept s (Message.issue_money amount) f fits =
    (tt, tt, omega (arith, print-kept s (amount_line "Issuing " amount ∷ [])))
screen-kept s Message.display_insufficient_funds f fits = (tt, tt, print-kept s _)
screen-kept s Message.display_enter_pin f fits = (tt, tt, print-kept s _)
screen-kept s Message.display_enter_card f fits = (tt, tt, print-kept s _)
screen-kept s (Message.display_balance amount) f fits = (tt, tt, print-kept s _)
screen-kept s Message.display_withdrawal_options f fits = (tt, tt, print-kept s _)
screen-kept s Message.display_withdrawal_cancelled f fits = (tt, tt, print-kept s _)
screen-kept s Message.display_pin_incorrect_message f fits = (tt, tt, print-kept s _)
screen-kept s Message.eject_card f fits = (tt, tt, print-kept s _)
screen-kept s _ f fits = tt

pub screen-Keeps : Keeps Fits money (λ p s. ScreenFits s) screen_value screen_code
screen-Keeps = record {
  entry = λ s f. (tt, tt, omega arith);
  dispatched = screen-kept;
  stops = λ s f. f;
}
