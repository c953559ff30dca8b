-- ===== src/GuiTasks/Examples.antt =====
-- Two tasks, named by numbers.
use concurrency_in_action.Common.{ℕ, ◌≡◌, refl, List, [], ◌∷◌}
use concurrency_in_action.GuiTasks.{
  running, terminated, Op, posts, turns, initial, run, executed_by,
}
use concurrency_in_action.GuiTasks.OneTask.{IsFirst, posted, run-OnlyFirst}

abbrev two_posts : List (Op ℕ)
two_posts = posts 1 ∷ posts 2 ∷ turns ∷ turns ∷ []

two_posts_test : run two_posts (running initial) ≡ terminated (1 ∷ [])
unfolding run
two_posts_test = refl

run-OnlyFirst_example : IsFirst (posted two_posts) (executed_by (run two_posts (running initial)))
run-OnlyFirst_example = run-OnlyFirst two_posts
