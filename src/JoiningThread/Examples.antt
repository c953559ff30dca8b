-- ===== src/JoiningThread/Examples.antt =====
-- Two objects and three threads.
use concurrency_in_action.Common.{ℕ, none, some, true, false, ◌≡◌, refl, List, [], ◌∷◌}
use concurrency_in_action.JoiningThread.{
  destroys, constructs_default, construct, Call, Outcome, done, threw, terminated, Op, constructs,
  joins, assigns_thread, assigns_from, run, initial,
}

abbrev by_main : Op → Call
by_main o = record { by = none; catches = true; op = o }

-- The last join throws: object 1 has no thread any more.
abbrev program : List Call
program =
    by_main constructs
    ∷ by_main constructs
    ∷ by_main (assigns_thread 0)
    ∷ by_main (assigns_from 0 1)
    ∷ by_main (joins 1)
    ∷ []

-- The threads joined in a run.
abbrev joined_in : Outcome → List ℕ
joined_in (done s) = s.joined
joined_in (threw s) = []
joined_in terminated = []

program_test : joined_in (run program initial) ≡ 2 ∷ 0 ∷ []
unfolding run
program_test = refl

-- A thread that joins itself gets an exception, which its destructor may not let out.
abbrev by_thread_0 : Op → Call
by_thread_0 o = record { by = some 0; catches = true; op = o }

self_join_test :
    run (by_main constructs ∷ by_thread_0 (joins 0) ∷ []) initial ≡ done (construct initial)
unfolding run
self_join_test = refl

self_destroy_test : run (by_main constructs ∷ by_thread_0 (destroys 0) ∷ []) initial ≡ terminated
unfolding run
self_destroy_test = refl

uncaught_test :
    run
      (by_main constructs_default ∷ record { by = none; catches = false; op = joins 0 } ∷ [])
      initial
    ≡ terminated
unfolding run
uncaught_test = refl
