-- ===== src/HazardPointer/Examples.antt =====
-- Threads that use the table, and a node that is in a slot.
use concurrency_in_action.Common.{
  Bool-cases, inl, inr, ℕ, ◌<◌, ◌≡◌, refl, none, some, List, [], ◌∷◌, All, update, if◌then◌else◌,
  ◌==◌,
}
use concurrency_in_action.HazardPointer.{
  max_hazard_pointers, owning, Op, starts, continues, destroys, stores, initial, run, adds, claims,
  Reclaiming, Meanwhile, delete_nodes_with_no_hazards,
}
use concurrency_in_action.HazardPointer.Owners.{Has, slots_owned, slots_freed}
use concurrency_in_action.HazardPointer.Reclaim.{WasUnhazarded, total, delete_nodes_reclaims}

-- Thread 2 fails at slot 0, which thread 1 has, and takes slot 1.
abbrev program : List Op
program = starts 1 ∷ starts 2 ∷ continues 1 ∷ continues 2 ∷ stores 1 (some 8) ∷ continues 2 ∷ []

program_test : (run program initial).owner 2 ≡ owning 1
unfolding run
program_test = refl

program_owner : Has ((run program initial).owner 2) 1
unfolding run
program_owner = refl

slots_owned_example :
    ◌≡◌ {A = ℕ} 2 2 × ((run program initial).ids 1 ≡ some 2) × (1 < max_hazard_pointers)
slots_owned_example = slots_owned program 2 2 1 program_owner program_owner

-- Thread 1 has slot 0 and stores a pointer in it; its owner is destroyed.
abbrev leaving_program : List Op
leaving_program = starts 1 ∷ continues 1 ∷ stores 1 (some 8) ∷ destroys 1 ∷ continues 1 ∷ []

leaving_program_unowned : (t : ℕ) → Has ((run leaving_program initial).owner t) 0 → ⊥
unfolding run
leaving_program_unowned t = elim (Bool-cases (1 == t)) [
  | inl mine ↦ rw mine (λ h. h)
  | inr other ↦ rw other (λ h. h)
]

slots_freed_example :
    ((run leaving_program initial).ids 0 ≡ none) × ((run leaving_program initial).pointers 0 ≡ none)
slots_freed_example = slots_freed leaving_program 0 leaving_program_unowned

-- Node 8 is in a slot; before the second round another thread claims the list and adds node 9.
abbrev held : ℕ → Meanwhile
held k = record {
  others = if k == 1 then claims ∷ adds 9 ∷ [] else [];
  pointers = update (λ i. none) 0 (some 8);
}

abbrev waiting : Reclaiming
waiting = record { nodes_to_reclaim = 8 ∷ 7 ∷ []; deleted = []; claimed = [] }

waiting_test :
    delete_nodes_with_no_hazards held waiting
    ≡ record { nodes_to_reclaim = 9 ∷ []; deleted = 7 ∷ []; claimed = 8 ∷ [] }
unfolding delete_nodes_with_no_hazards
waiting_test = refl

delete_nodes_reclaims_example :
    All (WasUnhazarded held 0 (8 ∷ 7 ∷ [])) (delete_nodes_with_no_hazards held waiting).deleted
    × (total (λ n. n) (delete_nodes_with_no_hazards held waiting) ≡ 24)
delete_nodes_reclaims_example = delete_nodes_reclaims (λ n. n) held waiting refl
