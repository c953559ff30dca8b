-- ===== src/GuiTasks.antt =====
-- chapter04/examples.cpp: `guiThread` and `postTaskForGuiThread`. A `packaged_task` is the function
-- that it will call, or none when it was moved from. The mutex makes a post one step, and a turn of
-- the loop of the GUI thread another: no other thread takes tasks. The GUI's own messages are empty
-- functions in the source, and the shutdown message never comes.
pub mod OneTask
mod Examples
use concurrency_in_action.Common.{Option, none, some, List, [], ◌∷◌, ◌++◌}

-- `executed` are the functions that the GUI thread has called, in order.
pub record Gui {ℓ} (F : Type ℓ) : Type ℓ where
  pub tasks : List (Option F)
  pub executed : List F

-- The call of an empty task throws a `future_error`, which nothing catches: the program terminates.
pub data Program {ℓ} (F : Type ℓ) : Type ℓ where
  running : Gui F → Program F
  terminated : List F → Program F

pub data Op {ℓ} (F : Type ℓ) : Type ℓ where
  posts : F → Op F
  turns : Op F

module _ {ℓ} {F : Type ℓ} where
  abbrev pub call_task : Option F → Gui F → Program F
  call_task none g = terminated g.executed
  call_task (some f) g = running (record g { executed = g.executed ++ (f ∷ []) })

  -- `task = move(tasks.front()); task();`
  abbrev pub take_front : List (Option F) → Gui F → Program F
  take_front [] g = running g
  take_front (task ∷ rest) g = call_task task (record g { tasks = none ∷ rest })

  unfoldable pub gui_thread_turn : Gui F → Program F
  gui_thread_turn g = take_front g.tasks g

  unfoldable pub post_task_for_gui_thread : F → Gui F → Gui F
  post_task_for_gui_thread f g = record g { tasks = g.tasks ++ (some f ∷ []) }

  abbrev pub initial : Gui F
  initial = record { tasks = []; executed = [] }

  unfoldable pub step : Op F → Program F → Program F
  unfolding gui_thread_turn post_task_for_gui_thread
  step o (terminated fs) = terminated fs
  step (posts f) (running g) = running (post_task_for_gui_thread f g)
  step turns (running g) = gui_thread_turn g

  unfoldable pub run : List (Op F) → Program F → Program F
  unfolding step
  run [] p = p
  run (o ∷ os) p = run os (step o p)

  abbrev pub executed_by : Program F → List F
  executed_by (running g) = g.executed
  executed_by (terminated fs) = fs
