-- ===== src/LockFreeStack/Alone.antt =====
-- What the tests of `threads_in_pop` tell of the other threads.
use native.Mathlib.Decide.{dec_lt}
use concurrency_in_action.Common.{
  ℕ, ◌%◌, ◌^◌, ◌<◌, ◌≤◌, ◌≡◌, ◌≢◌, ap, arith, update, update_ne, le-total_below, two-le-total_below,
  total_below-le,
}
use concurrency_in_action.LockFreeStack.{
  After, deletes, leaves, Place, returned, loading, inserting, entering, loading_head, looping,
  comparing, taking, reclaiming, claiming, counting, deleting_nodes, deleting, walking, linking,
  chaining, leaving, State,
}
use concurrency_in_action.LockFreeStack.Count.{to_leave, counted, threads_counted, Counts}

to_leave-le : (a : After) → to_leave a ≤ 1
to_leave-le (deletes p) = omega arith
to_leave-le leaves = omega arith

module _ {ℓ} {T : Type ℓ} where
  counted-le : (p : Place T) → counted p ≤ 1
  counted-le (returned res) = omega arith
  counted-le (loading p) = omega arith
  counted-le (inserting p) = omega arith
  counted-le entering = omega arith
  counted-le loading_head = omega arith
  counted-le (looping p) = omega arith
  counted-le (comparing p next) = omega arith
  counted-le (taking p) = omega arith
  counted-le (reclaiming p res) = omega arith
  counted-le (claiming p res) = omega arith
  counted-le (counting nodes p res) = omega arith
  counted-le (deleting_nodes nodes p res) = omega arith
  counted-le (deleting p res) = omega arith
  counted-le (walking first last a res) = to_leave-le a
  counted-le (linking first last a res) = to_leave-le a
  counted-le (chaining first last a res) = to_leave-le a
  counted-le (leaving res) = omega arith

  module _ (n t : ℕ) (few : n < 2 ^ 32) (mine : t < n) (s : State T)
      (above : (u : ℕ) → n ≤ u → counted (s.places u) ≡ 0) (u : ℕ) (other : t ≢ u) where
    -- The test of `try_reclaim`: no other thread is counted.
    pub alone :
        (from : Place T)
        → Counts n s
        → s.places t ≡ from
        → counted from ≡ 1
        → s.threads_in_pop ≡ 1
        → counted (s.places u) ≢ 1
    alone from c e one test bad = elim (dec_lt u n) [
      | yes below ↦
          let two = two-le-total_below counted n t u s.places mine below other in
          let le = total_below-le counted counted-le n s.places in
          let at = ap counted e in absurd (omega (arith, c, one, test, bad))
      | no not_below ↦
          let zero_count = above u (omega (arith, not_below)) in absurd (omega (arith, bad))
    ]

    -- The decrement to 0: none is counted then.
    pub none_left :
        (to : Place T)
        → 0 ≡ threads_counted n (update s.places t to) % 2 ^ 32
        → counted (s.places u) ≢ 1
    none_left to c bad = elim (dec_lt u n) [
      | yes below ↦
          let one = le-total_below counted n u (update s.places t to) below in
          let le = total_below-le counted counted-le n (update s.places t to) in
          let at = ap counted (update_ne s.places t u to other) in absurd (omega (arith, c, bad))
      | no not_below ↦
          let zero_count = above u (omega (arith, not_below)) in absurd (omega (arith, bad))
    ]
