-- ===== src/SeqCst.antt =====
-- chapter05/example_memory_order_seq_cst.cpp: the four threads of `main`. All accesses are
-- sequentially consistent, so an execution is one sequence of them: a schedule.
pub mod Assertion
mod Examples
use concurrency_in_action.Common.{
  ℕ, ◌+◌, ◌≤◌, ◌≡◌, ◌≢◌, refl, Bool, true, false, Bool-cases, if◌then◌else◌, inl, inr, List, [],
  ◌∷◌, arith,
}

-- Where `read_x_then_y` or `read_y_then_x` stands: in the loop, before the second load, before
-- `++z`, or behind it by either branch.
pub data Reader : Type 0 where
  looping checking adding added skipped : Reader

pub record Memory : Type 0 where
  pub x : Bool
  pub y : Bool
  pub z : ℕ
  pub c : Reader  -- read_x_then_y
  pub d : Reader  -- read_y_then_x

-- After the stores of `main`, when the threads start.
abbrev pub initial : Memory
initial = record { x = false; y = false; z = 0; c = looping; d = looping }

pub data ThreadId : Type 0 where
  a b c d : ThreadId

-- One access of a reader: the place it goes to, for the flag of its loop and the other flag.
unfoldable pub read_step : Bool → Bool → Reader → Reader
read_step awaited other looping = if awaited then checking else looping
read_step awaited other checking = if other then adding else skipped
read_step awaited other adding = added
read_step awaited other r = r

-- `++z`, made by the step from `adding`.
abbrev pub increment : Reader → ℕ → ℕ
increment adding z = z + 1
increment _ z = z

-- `write_x`, `write_y`, `read_x_then_y`, `read_y_then_x`. A thread that has ended does nothing more.
unfoldable pub step : ThreadId → Memory → Memory
unfolding read_step
step ThreadId.a m = record m { x = true }
step ThreadId.b m = record m { y = true }
step ThreadId.c m = record m { z = increment m.c m.z; c = read_step m.x m.y m.c }
step ThreadId.d m = record m { z = increment m.d m.z; d = read_step m.y m.x m.d }

unfoldable pub run : List ThreadId → Memory → Memory
run [] m = m
run (t ∷ ts) m = run ts (step t m)

abbrev pub has_ended : Reader → Bool
has_ended added = true
has_ended skipped = true
has_ended _ = false
