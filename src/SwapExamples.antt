-- ===== src/SwapExamples.antt =====
-- chapter03/examples_ch03.cpp: class `X` with `Swap`, `SwapScoped` and `SwapWithUniqueLock`, called by
-- any number of threads. Objects are numbers. `std::lock` and `std::scoped_lock` lock both mutexes
-- when both are free, as their documentation lets a caller see it. `swap` of the details is declared and
-- not defined: it is the parameter `exchange`, from two details to two.
pub mod Locks
pub mod Order
mod Examples
use concurrency_in_action.Common.{
  ℕ, Bool, true, false, ◌==◌, if◌then◌else◌, Option, none, some, List, [], ◌∷◌, update,
}

-- Where a thread is: before the locks, with both locks, with the details that `swap` gives for both
-- objects, or for `rhs` only, and in the destructors of the guards. `owns` tells whether the guards own the
-- mutexes: those of `SwapWithUniqueLock` are deferred, and `std::lock` locks the mutexes beside them.
pub data Place {ℓ} (V : Type ℓ) : Type ℓ where
  idle : Place V
  waiting holding : (owns : Bool) (lhs rhs : ℕ) → Place V
  swapping : (owns : Bool) (lhs rhs : ℕ) (a b : V) → Place V
  half : (owns : Bool) (lhs rhs : ℕ) (b : V) → Place V
  leaving : (lhs rhs : ℕ) → Place V
  leaving_lhs : (lhs : ℕ) → Place V

pub record State {ℓ} (V : Type ℓ) : Type ℓ where
  pub details : ℕ → V
  pub mutexes : ℕ → Option ℕ
  pub places : ℕ → Place V

pub data Form : Type 0 where
  swap swap_scoped swap_with_unique_lock : Form

pub data Op : Type 0 where
  calls : Form → (t lhs rhs : ℕ) → Op
  continues : (t : ℕ) → Op

module _ {ℓ} {V : Type ℓ} where
  abbrev pub goes : ℕ → Place V → State V → State V
  goes t p s = record s { places = update s.places t p }

  -- `Swap`, up to `std::lock`.
  abbrev pub start_swap : (t lhs rhs : ℕ) → State V → State V
  start_swap t lhs rhs s = if lhs == rhs then s else goes t (waiting true lhs rhs) s

  -- `SwapScoped`, up to the constructor of `guard`.
  abbrev pub start_swap_scoped : (t lhs rhs : ℕ) → State V → State V
  start_swap_scoped t lhs rhs s = if lhs == rhs then s else goes t (waiting true lhs rhs) s

  -- `SwapWithUniqueLock`, whose two locks own nothing.
  abbrev pub start_swap_with_unique_lock : (t lhs rhs : ℕ) → State V → State V
  start_swap_with_unique_lock t lhs rhs s =
      if lhs == rhs then s else goes t (waiting false lhs rhs) s

  abbrev pub start : Form → (t lhs rhs : ℕ) → State V → State V
  start swap t lhs rhs s = start_swap t lhs rhs s
  start swap_scoped t lhs rhs s = start_swap_scoped t lhs rhs s
  start swap_with_unique_lock t lhs rhs s = start_swap_with_unique_lock t lhs rhs s

  -- A thread makes a call when it is in none.
  abbrev pub call_from : Place V → Form → (t lhs rhs : ℕ) → State V → State V
  call_from idle f t lhs rhs s = start f t lhs rhs s
  call_from (waiting w l r) f t lhs rhs s = s
  call_from (holding w l r) f t lhs rhs s = s
  call_from (leaving l r) f t lhs rhs s = s
  call_from (swapping w l r a b) f t lhs rhs s = s
  call_from (half w l r b) f t lhs rhs s = s
  call_from (leaving_lhs l) f t lhs rhs s = s

  -- `std::lock(lhs.m, rhs.m)`, with what the two mutexes are. A thread that has one of them already waits
  -- for ever here; the standard leaves that undefined.
  abbrev pub lock_both : (owns : Bool) → Option ℕ → Option ℕ → (t lhs rhs : ℕ) → State V → State V
  lock_both w none none t lhs rhs s =
      goes t (holding w lhs rhs)
        (record s { mutexes = update (update s.mutexes lhs (some t)) rhs (some t) })
  lock_both w none (some u) t lhs rhs s = s
  lock_both w (some u) m t lhs rhs s = s

  -- The guards release what they own, and the call ends.
  abbrev pub leave : (owns : Bool) (lhs rhs : ℕ) → Place V
  leave true lhs rhs = leaving lhs rhs
  leave false lhs rhs = idle

  module _ (exchange : V → V → V × V) where
    -- From the locks to the end of the call. The guards release the mutex of `rhs` first.
    unfoldable pub continue : Place V → (t : ℕ) → State V → State V
    continue idle t s = s
    continue (waiting w lhs rhs) t s = lock_both w (s.mutexes lhs) (s.mutexes rhs) t lhs rhs s
    continue (holding w lhs rhs) t s =
        let (a, b) = exchange (s.details lhs) (s.details rhs) in goes t (swapping w lhs rhs a b) s
    continue (swapping w lhs rhs a b) t s =
        goes t (half w lhs rhs b) (record s { details = update s.details lhs a })
    continue (half w lhs rhs b) t s =
        goes t (leave w lhs rhs) (record s { details = update s.details rhs b })
    continue (leaving lhs rhs) t s =
        goes t (leaving_lhs lhs) (record s { mutexes = update s.mutexes rhs none })
    continue (leaving_lhs lhs) t s = goes t idle (record s { mutexes = update s.mutexes lhs none })

    unfoldable pub step : Op → State V → State V
    unfolding continue
    step (calls f t lhs rhs) s = call_from (s.places t) f t lhs rhs s
    step (continues t) s = continue (s.places t) t s

    unfoldable pub run : List Op → State V → State V
    unfolding step
    run [] s = s
    run (o ∷ os) s = run os (step o s)
