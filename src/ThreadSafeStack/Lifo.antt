-- ===== src/ThreadSafeStack/Lifo.antt =====
-- The order of the elements, and none lost or doubled.
use concurrency_in_action.Common.{
  ℕ, ◌+◌, ◌≡◌, refl, true, false, List, [], ◌∷◌, ◌++◌, arith, weight,
}
use concurrency_in_action.ThreadSafeStack.{
  Call, pushes, pops, pops_to, asks_empty, Response, returned, popped, assigned, threw, threw_with,
  tested, call, run,
}

module _ {ℓ} {T : Type ℓ} where
  -- The caller did not learn that the stack was empty.
  abbrev pub FoundElements : Response T → Type 0
  FoundElements threw = ⊥
  FoundElements (threw_with v) = ⊥
  FoundElements (tested true) = ⊥
  FoundElements (tested false) = Unit
  FoundElements returned = Unit
  FoundElements (popped x) = Unit
  FoundElements (assigned x) = Unit

  abbrev pub AllFoundElements : List (Response T) → Type 0
  AllFoundElements [] = Unit
  AllFoundElements (r ∷ rs) = FoundElements r × AllFoundElements rs

  call-below :
      (c : Call T) (xs s : List T)
      → FoundElements (call c xs).0
      → call c (xs ++ s) ≡ ((call c xs).0, (call c xs).1 ++ s)
  call-below (pushes x) xs s h = refl
  call-below pops [] s h = elim h [ ]
  call-below pops (x ∷ xs) s h = refl
  call-below (pops_to v) [] s h = elim h [ ]
  call-below (pops_to v) (x ∷ xs) s h = refl
  call-below asks_empty [] s h = elim h [ ]
  call-below asks_empty (x ∷ xs) s h = refl

  -- Calls that never see the bottom of their own part of the stack do not see what is below it.
  run-below :
      (cs : List (Call T)) (xs s : List T)
      → AllFoundElements (run cs xs).0
      → run cs (xs ++ s) ≡ ((run cs xs).0, (run cs xs).1 ++ s)
  unfolding run
  run-below [] xs s h = refl
  run-below (c ∷ cs) xs s h = rw (call-below c xs s h.0) (rw (run-below cs (call c xs).1 s h.1))

  run-append :
      (cs ds : List (Call T)) (xs : List T)
      → run (cs ++ ds) xs ≡ ((run cs xs).0 ++ (run ds (run cs xs).1).0, (run ds (run cs xs).1).1)
  unfolding run
  run-append [] ds xs = refl
  run-append (c ∷ cs) ds xs = rw (run-append cs ds (call c xs).1)

  -- Last in, first out: if calls that start on an empty stack leave it empty and never find it
  -- empty on the way, then between `Push(x)` and `Pop()` on any stack they get the same responses,
  -- `Pop()` returns `x`, and the stack is what it was.
  pub push-run-pop :
      (x : T) (cs : List (Call T)) (s : List T)
      → AllFoundElements (run cs []).0
      → (run cs []).1 ≡ []
      → run (pushes x ∷ cs ++ (pops ∷ [])) s ≡ (returned ∷ (run cs []).0 ++ (popped x ∷ []), s)
  unfolding run
  push-run-pop x cs s found balanced =
      rw (run-append cs (pops ∷ []) (x ∷ s)) (rw (run-below cs [] (x ∷ s) found) (rw balanced))

  module _ (w : T → ℕ) where
    abbrev pub pushed : List (Call T) → ℕ
    pushed [] = 0
    pushed (pushes x ∷ cs) = w x + pushed cs
    pushed (pops ∷ cs) = pushed cs
    pushed (pops_to v ∷ cs) = pushed cs
    pushed (asks_empty ∷ cs) = pushed cs

    abbrev pub handed_out : List (Response T) → ℕ
    handed_out [] = 0
    handed_out (popped x ∷ rs) = w x + handed_out rs
    handed_out (assigned x ∷ rs) = w x + handed_out rs
    handed_out (returned ∷ rs) = handed_out rs
    handed_out (threw ∷ rs) = handed_out rs
    handed_out (threw_with v ∷ rs) = handed_out rs
    handed_out (tested b ∷ rs) = handed_out rs

    -- Nothing is lost and nothing is doubled: whatever weights the values have, those of the values
    -- handed out and of those left in the stack add up to those of the values pushed and of those
    -- that were there before.
    pub run-conserves :
        (cs : List (Call T)) (s : List T)
        → handed_out (run cs s).0 + weight w (run cs s).1 ≡ pushed cs + weight w s
    unfolding run
    run-conserves [] s = refl
    run-conserves (pushes x ∷ cs) s = omega (arith, run-conserves cs (x ∷ s))
    run-conserves (pops ∷ cs) [] = run-conserves cs []
    run-conserves (pops ∷ cs) (x ∷ s) = omega (arith, run-conserves cs s)
    run-conserves (pops_to v ∷ cs) [] = run-conserves cs []
    run-conserves (pops_to v ∷ cs) (x ∷ s) = omega (arith, run-conserves cs s)
    run-conserves (asks_empty ∷ cs) [] = run-conserves cs []
    run-conserves (asks_empty ∷ cs) (x ∷ s) = run-conserves cs (x ∷ s)
