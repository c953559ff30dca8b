-- ===== src/JoiningThread.antt =====
-- chapter02/examples.cpp: `JoiningThread` and its member of type `std::thread`. A thread is the
-- number under which it was started, an object the number under which it was constructed. `asThread`,
-- through which a caller may do anything to the member, is not among the operations.
pub mod Places
pub mod Accounting
mod Examples
use concurrency_in_action.Common.{
  ℕ, zero, suc, Bool, true, false, ltb, ◌&&◌, if◌then◌else◌, Option, none, some, List, [], ◌∷◌,
  update, ◌==◌,
}

pub record State : Type 0 where
  -- How many threads were started, and how many objects constructed.
  pub threads : ℕ
  pub objects : ℕ
  -- The thread that an object's member `t` stands for.
  pub owner : ℕ → Option ℕ
  pub joined : List ℕ
  pub detached : List ℕ

-- `terminated` is a call of `std::terminate`, `threw` a `std::system_error`.
pub data Outcome : Type 0 where
  done : State → Outcome
  threw : State → Outcome
  terminated : Outcome

abbrev pub and_then : Outcome → (State → Outcome) → Outcome
and_then (done s) next = next s
and_then (threw s) next = threw s
and_then terminated next = terminated

-- The members of `std::thread`, as it documents them: on no thread, `join` and `detach` throw; an
-- object that stands for a thread must be neither assigned to nor destroyed.
abbrev is_joinable : Option ℕ → Bool
is_joinable none = false
is_joinable (some id) = true

-- Is the thread that runs the code, `by`, the one with this number? The main thread has none.
abbrev is_self : Option ℕ → ℕ → Bool
is_self none id = false
is_self (some a) id = a == id

-- A thread that joins itself gets an exception.
abbrev join_thread : (by : Option ℕ) → Option ℕ → ℕ → State → Outcome
join_thread by none i s = threw s
join_thread by (some id) i s =
    if is_self by id
    then threw s
    else done (record s { owner = update s.owner i none; joined = id ∷ s.joined })

abbrev detach_thread : Option ℕ → ℕ → State → Outcome
detach_thread none i s = threw s
detach_thread (some id) i s =
    done (record s { owner = update s.owner i none; detached = id ∷ s.detached })

abbrev pub assign : Option ℕ → ℕ → Option ℕ → State → Outcome
assign none i new s = done (record s { owner = update s.owner i new })
assign (some id) i new s = terminated

abbrev pub end_of_life : Option ℕ → State → Outcome
end_of_life none s = done s
end_of_life (some id) s = terminated

-- An exception leaves a function that is `noexcept`.
abbrev pub no_except : Outcome → Outcome
no_except (done s) = done s
no_except (threw s) = terminated
no_except terminated = terminated

-- The members of `JoiningThread`.
unfoldable pub joinable : ℕ → State → Bool
joinable i s = is_joinable (s.owner i)

unfoldable pub join : (by : Option ℕ) → ℕ → State → Outcome
join by i s = join_thread by (s.owner i) i s

unfoldable pub detach : ℕ → State → Outcome
detach i s = detach_thread (s.owner i) i s

abbrev pub start_thread : State → State
start_thread s = record s { threads = suc s.threads }

abbrev pub new_object : Option ℕ → State → State
new_object t s = record s { objects = suc s.objects; owner = update s.owner s.objects t }

abbrev pub moved_from : ℕ → State → State
moved_from j s = record s { owner = update s.owner j none }

-- The three constructors: with a function to run, with no thread, and from another object.
abbrev pub construct : State → State
construct s = new_object (some s.threads) (start_thread s)

abbrev pub construct_default : State → State
construct_default s = new_object none s

abbrev pub construct_from : ℕ → State → State
construct_from j s = new_object (s.owner j) (moved_from j s)

unfoldable pub join_if_joinable : (by : Option ℕ) → ℕ → State → Outcome
unfolding joinable join
join_if_joinable by i s = if joinable i s then join by i s else done s

-- `operator=(JoiningThread &&)`. The right side is read after the join: it may be the same object.
unfoldable pub assign_from : (by : Option ℕ) → ℕ → ℕ → State → Outcome
unfolding join_if_joinable
assign_from by i j s = no_except (
    and_then (join_if_joinable by i s) (λ s'. assign (s'.owner i) i (s'.owner j) (moved_from j s')))

-- `operator=(std::thread)`, with a thread just started.
unfoldable pub assign_thread : (by : Option ℕ) → ℕ → State → Outcome
unfolding join_if_joinable
assign_thread by i s = no_except (
    and_then (join_if_joinable by i (start_thread s))
      (λ s'. assign (s'.owner i) i (some s.threads) s'))

-- The destructor, and then that of the member.
unfoldable pub destroy : (by : Option ℕ) → ℕ → State → Outcome
unfolding join_if_joinable
destroy by i s = no_except (and_then (join_if_joinable by i s) (λ s'. end_of_life (s'.owner i) s'))

abbrev pub swap : ℕ → ℕ → State → State
swap i j s = record s { owner = update (update s.owner i (s.owner j)) j (s.owner i) }

pub data Op : Type 0 where
  constructs constructs_default : Op
  constructs_from destroys joins detaches assigns_thread : ℕ → Op
  assigns_from swaps : ℕ → ℕ → Op

-- Is each object of the operation one that was constructed?
abbrev pub in_scope : Op → ℕ → Bool
in_scope constructs n = true
in_scope constructs_default n = true
in_scope (constructs_from j) n = ltb j n
in_scope (destroys i) n = ltb i n
in_scope (joins i) n = ltb i n
in_scope (detaches i) n = ltb i n
in_scope (assigns_thread i) n = ltb i n
in_scope (assigns_from i j) n = ltb i n && ltb j n
in_scope (swaps i j) n = ltb i n && ltb j n

unfoldable pub step : (by : Option ℕ) → Op → State → Outcome
unfolding join detach assign_from assign_thread destroy
step by constructs s = done (construct s)
step by constructs_default s = done (construct_default s)
step by (constructs_from j) s = done (construct_from j s)
step by (destroys i) s = destroy by i s
step by (joins i) s = join by i s
step by (detaches i) s = detach i s
step by (assigns_thread i) s = assign_thread by i s
step by (assigns_from i j) s = assign_from by i j s
step by (swaps i j) s = done (swap i j s)

-- An operation in a program: the thread that runs it, and whether what it throws is caught.
pub record Call : Type 0 where
  pub by : Option ℕ
  pub catches : Bool
  pub op : Op

-- What nobody catches terminates the program.
abbrev pub after_call : (catches : Bool) → Outcome → (State → Outcome) → Outcome
after_call c (done s) next = next s
after_call c (threw s) next = if c then next s else terminated
after_call c terminated next = terminated

abbrev pub initial : State
initial = record { threads = 0; objects = 0; owner = λ i. none; joined = []; detached = [] }

-- A program: its operations in order; one on an object that does not exist is left out.
unfoldable pub run : List Call → State → Outcome
unfolding step
run [] s = done s
run (c ∷ cs) s =
    if in_scope c.op s.objects then after_call c.catches (step c.by c.op s) (run cs) else run cs s

-- The destructors of the objects below `n`, the last one first, run by the main thread. A destroyed object stands for no
-- thread, so that its destructor may run twice here.
unfoldable pub destroy_all : ℕ → State → Outcome
unfolding destroy
destroy_all zero s = done s
destroy_all (suc n) s = and_then (destroy none n s) (destroy_all n)
