-- ===== src/SeqCst/Examples.antt =====
-- One execution.
use concurrency_in_action.Common.{◌≤◌, ◌≢◌, refl, List, [], ◌∷◌}
use concurrency_in_action.SeqCst.{ThreadId, initial, run, step}
use concurrency_in_action.SeqCst.Assertion.{ended-z_ne_zero}

-- Both writes, then each reader to its end, in turn.
abbrev schedule : List ThreadId
schedule =
    ThreadId.d ∷ ThreadId.a ∷ ThreadId.c ∷ ThreadId.c ∷ ThreadId.b ∷ ThreadId.d ∷ ThreadId.d
    ∷ ThreadId.d ∷ []

ended-z_ne_zero_example : ((run schedule initial).z ≢ 0) × ((run schedule initial).z ≤ 2)
unfolding run step
ended-z_ne_zero_example = ended-z_ne_zero schedule refl refl
