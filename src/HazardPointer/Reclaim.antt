-- ===== src/HazardPointer/Reclaim.antt =====
-- What is deleted was in no slot, and nothing else is lost.
use concurrency_in_action.Common.{
  ℕ, zero, suc, ◌+◌, ◌≡◌, ◌≢◌, refl, ◌∙◌, Bool, true, false, Bool-cases, inl, inr, none, some, List,
  [], ◌∷◌, ◌⊎◌, arith, All, weight, weight-append,
}
use concurrency_in_action.HazardPointer.{
  max_hazard_pointers, Pointer, is_pointer, outstanding_from, outstanding_hazard_pointers_for,
  Other, adds, claims, other_step, Reclaiming, Meanwhile, join_in, delete_or_keep, reclaim_loop,
  delete_nodes_with_no_hazards,
}

-- The pointers in `n` slots from slot `i` on.
abbrev pub slots : ℕ → ℕ → (ℕ → Pointer) → List Pointer
slots zero i pointers = []
slots (suc n) i pointers = pointers i ∷ slots n (suc i) pointers

is_pointer_ne : (q : Pointer) (d : ℕ) → is_pointer q d ≡ false → q ≢ some d
is_pointer_ne none d h e = cc
is_pointer_ne (some a) d h e = ground arith

outstanding-slots :
    (n i : ℕ) (pointers : ℕ → Pointer) (d : ℕ)
    → outstanding_from n i pointers d ≡ false
    → All (λ q. q ≢ some d) (slots n i pointers)
unfolding outstanding_from
outstanding-slots zero i pointers d h = tt
outstanding-slots (suc n) i pointers d h = elim (Bool-cases (is_pointer (pointers i) d)) [
  | inl found ↦ absurd (impossible (rw found at h))
  | inr missed ↦
      (is_pointer_ne (pointers i) d missed, outstanding-slots n (suc i) pointers d (rw missed at h))
]
  where
    impossible : true ≢ false
    impossible e = cc

-- `d` is a node of the list that is worked on from round `k` on, and in its own round no slot of the
-- table pointed to it.
abbrev pub WasUnhazarded : (ℕ → Meanwhile) → ℕ → List ℕ → ℕ → Type 0
WasUnhazarded meanwhile k [] d = ⊥
WasUnhazarded meanwhile k (current ∷ rest) d =
    ((current ≡ d) × All (λ q. q ≢ some d) (slots max_hazard_pointers 0 (meanwhile k).pointers))
    ⊎ WasUnhazarded meanwhile (suc k) rest d

other_step-deleted : (o : Other) (r : Reclaiming) → (other_step o r).deleted ≡ r.deleted
other_step-deleted (adds a) r = refl
other_step-deleted claims r = refl

join_in-deleted : (extra : List Other) (r : Reclaiming) → (join_in extra r).deleted ≡ r.deleted
join_in-deleted [] r = refl
join_in-deleted (o ∷ extra) r = join_in-deleted extra (other_step o r) ∙ other_step-deleted o r

-- A predicate of what is deleted holds if it does at the end of each round.
delete_or_keep-All :
    (P : ℕ → Type 0) (pointers : ℕ → Pointer) (b : Bool) (node : ℕ) (r : Reclaiming)
    → outstanding_hazard_pointers_for pointers node ≡ b
    → (All (λ q. q ≢ some node) (slots max_hazard_pointers 0 pointers) → P node)
    → All P r.deleted
    → All P (delete_or_keep b node r).deleted
unfolding outstanding_hazard_pointers_for
delete_or_keep-All P pointers true node r e now h = h
delete_or_keep-All P pointers false node r e now h =
    (now (outstanding-slots max_hazard_pointers 0 pointers node e), h)

reclaim_loop-All :
    (P : ℕ → Type 0) (meanwhile : ℕ → Meanwhile) (k : ℕ) (current : List ℕ) (r : Reclaiming)
    → ((d : ℕ) → WasUnhazarded meanwhile k current d → P d)
    → All P r.deleted
    → All P (reclaim_loop meanwhile k current r).deleted
unfolding reclaim_loop
reclaim_loop-All P meanwhile k [] r ok h = h
reclaim_loop-All P meanwhile k (c ∷ current) r ok h =
    reclaim_loop-All P meanwhile (suc k) current _ (λ d later. ok d (inr later))
      (delete_or_keep-All P (meanwhile k).pointers _ c (join_in (meanwhile k).others r) refl
        (λ unhazarded. ok c (inl (refl, unhazarded)))
        (rw (join_in-deleted (meanwhile k).others r) h))

module _ (w : ℕ → ℕ) where
  abbrev pub added_by : Other → ℕ
  added_by (adds a) = w a
  added_by claims = 0

  -- The weight of what other threads add in `n` rounds from round `k` on.
  abbrev pub added_weight : (ℕ → Meanwhile) → ℕ → List ℕ → ℕ
  added_weight meanwhile k [] = 0
  added_weight meanwhile k (c ∷ rest) =
      weight added_by (meanwhile k).others + added_weight meanwhile (suc k) rest

  abbrev pub total : Reclaiming → ℕ
  total r = weight w r.nodes_to_reclaim + weight w r.deleted + weight w r.claimed

  other_step-total : (o : Other) (r : Reclaiming) → total (other_step o r) ≡ added_by o + total r
  other_step-total (adds a) r = omega arith
  other_step-total claims r = omega (arith, weight-append w r.nodes_to_reclaim r.claimed)

  join_in-total :
      (extra : List Other) (r : Reclaiming)
      → total (join_in extra r) ≡ weight added_by extra + total r
  join_in-total [] r = omega arith
  join_in-total (o ∷ extra) r =
      omega (arith, join_in-total extra (other_step o r), other_step-total o r)

  delete_or_keep-total :
      (b : Bool) (node : ℕ) (r : Reclaiming) → total (delete_or_keep b node r) ≡ w node + total r
  delete_or_keep-total true node r = omega arith
  delete_or_keep-total false node r = omega arith

  reclaim_loop-total :
      (meanwhile : ℕ → Meanwhile) (k : ℕ) (current : List ℕ) (r : Reclaiming)
      → total (reclaim_loop meanwhile k current r)
        ≡ weight w current + added_weight meanwhile k current + total r
  unfolding reclaim_loop
  reclaim_loop-total meanwhile k [] r = omega arith
  reclaim_loop-total meanwhile k (c ∷ current) r =
      let b = outstanding_hazard_pointers_for (meanwhile k).pointers c in
      let joined = join_in (meanwhile k).others r in
      omega (
        arith,
        reclaim_loop-total meanwhile (suc k) current (delete_or_keep b c joined),
        delete_or_keep-total b c joined,
        join_in-total (meanwhile k).others r,
      )

-- Other threads add nodes and claim the list at any time between the rounds of the loop. From an empty
-- list of deleted nodes: each node that `delete_nodes_with_no_hazards` deletes is one that it claimed, and was
-- in no slot of the table when its own round tested that slot; and none is lost or doubled: whatever
-- weights the nodes have, those of the deleted nodes, of the nodes still to reclaim and of those that other
-- threads have claimed add up to those that were there and those that were added meanwhile.
pub delete_nodes_reclaims :
    (w : ℕ → ℕ) (meanwhile : ℕ → Meanwhile) (r : Reclaiming)
    → r.deleted ≡ []
    → All
        (WasUnhazarded meanwhile 0 r.nodes_to_reclaim)
        (delete_nodes_with_no_hazards meanwhile r).deleted
      × (total w (delete_nodes_with_no_hazards meanwhile r)
          ≡ total w r + added_weight w meanwhile 0 r.nodes_to_reclaim)
unfolding delete_nodes_with_no_hazards
delete_nodes_reclaims w meanwhile r e =
    let own : Reclaiming = record r { nodes_to_reclaim = [] } in
    (
      reclaim_loop-All _ meanwhile 0 r.nodes_to_reclaim own (λ d h. h) (rw e tt),
      omega (arith, reclaim_loop-total w meanwhile 0 r.nodes_to_reclaim own),
    )
