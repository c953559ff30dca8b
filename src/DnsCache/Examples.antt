-- ===== src/DnsCache/Examples.antt =====
-- A thread that updates an entry while two others look for it.
use concurrency_in_action.Common.{ℕ, ◌≡◌, refl, ◌==◌, ==_iff, List, [], ◌∷◌}
use concurrency_in_action.DnsCache.{Op, finds, updates, continues, new_cache}
use concurrency_in_action.DnsCache.Order.{gave, wrote, Explained, events, new_cache-Explained}

-- Thread 1 finds nothing; thread 3 waits while thread 2 has inserted a default entry, and finds 7.
abbrev program : List (Op ℕ ℕ)
program =
    finds 1 4
    ∷ updates 2 4 7
    ∷ continues 1
    ∷ continues 2
    ∷ continues 1
    ∷ continues 1
    ∷ continues 2
    ∷ continues 2
    ∷ finds 3 4
    ∷ continues 3
    ∷ continues 2
    ∷ continues 2
    ∷ continues 3
    ∷ continues 3
    ∷ continues 3
    ∷ []

program_test :
    events (λ a b. a == b) 0 program (new_cache (λ a b. a == b) 0)
    ≡ gave 4 0 ∷ wrote 4 7 ∷ gave 4 7 ∷ []
unfolding events
program_test = refl

new_cache-Explained_example :
    Explained (λ a b. a == b) 0 (events (λ a b. a == b) 0 program (new_cache (λ a b. a == b) 0)) []
new_cache-Explained_example =
    new_cache-Explained (λ a b. a == b) 0 (λ a b e. (==_iff a b).0 e) program
