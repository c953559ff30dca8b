-- ===== src/JoiningThread/Accounting.antt =====
-- Where each thread is: with an object, joined, or detached.
use concurrency_in_action.Common.{ℕ, ◌<◌, ◌≡◌, Bool, true, ltb, if◌then◌else◌, none}
use concurrency_in_action.JoiningThread.{
  Call, State, Outcome, done, threw, terminated, Op, constructs, constructs_default,
  constructs_from, destroys, joins, detaches, assigns_thread, assigns_from, swaps,
}
use concurrency_in_action.JoiningThread.Places.{placed}

-- Each thread that was started is in one place, and no other thread is in any.
abbrev pub Accounted : State → Type 0
Accounted s = (x : ℕ) → placed s x ≡ (if ltb x s.threads then 1 else 0)

abbrev pub Good : (catches : Bool) → Outcome → Type 0
Good c (done s) = Accounted s
Good c (threw s) = (c ≡ true) × Accounted s
Good c terminated = ⊥

-- After a join the object has no thread, and the threads are where they were, or joined.
abbrev Settled : State → ℕ → Outcome → Type 0
Settled s i o =
    (s' : State) × (o ≡ done s')
    × ((x : ℕ) → placed s' x ≡ placed s x)
    × (s'.owner i ≡ none)
    × (s'.threads ≡ s.threads)
    × (s'.objects ≡ s.objects)
    × ((k : ℕ) → s.owner k ≡ none → s'.owner k ≡ none)

-- The two operations that may throw are caught.
abbrev pub IsCaught : Op → Bool → Type 0
IsCaught constructs c = Unit
IsCaught constructs_default c = Unit
IsCaught (constructs_from j) c = Unit
IsCaught (destroys i) c = Unit
IsCaught (joins i) c = c ≡ true
IsCaught (detaches i) c = c ≡ true
IsCaught (assigns_thread i) c = Unit
IsCaught (assigns_from i j) c = Unit
IsCaught (swaps i j) c = Unit

-- The main thread makes the call, and catches what a `join` or a `detach` throws.
abbrev pub IsCareful : Call → Type 0
IsCareful c = (c.by ≡ none) × IsCaught c.op c.catches

abbrev Runs : Outcome → Type 0
Runs o = (s : State) × (o ≡ done s) × Accounted s

-- The destructors of the first `n` objects leave no thread with them.
abbrev Emptied : ℕ → State → Outcome → Type 0
Emptied n s o =
    (s' : State) × (o ≡ done s')
    × ((x : ℕ) → placed s' x ≡ placed s x)
    × ((k : ℕ) → s.owner k ≡ none → s'.owner k ≡ none)
    × ((k : ℕ) → k < n → s'.owner k ≡ none)
    × (s'.objects ≡ s.objects)
