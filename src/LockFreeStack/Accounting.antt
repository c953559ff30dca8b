-- ===== src/LockFreeStack/Accounting.antt =====
-- Each step keeps the count.
use concurrency_in_action.Common.{
  ℕ, zero, suc, ◌<◌, ◌≡◌, refl, Bool, true, false, Option, none, some, List, [], ◌∷◌, arith, update,
  All,
}
use concurrency_in_action.Nodes.{Node, Pointer}
use concurrency_in_action.LockFreeStack.{
  After, deletes, leaves, Place, returned, loading, inserting, entering, loading_head, looping,
  comparing, taking, reclaiming, claiming, counting, deleting_nodes, deleting, walking, linking,
  chaining, leaving, State, Outcome, went, null_fault, freed_fault, Op, pushes, pops, continues,
  new_stack, use_node, delete, and_goes, insert, take_head, after_chain, chain, try_reclaim,
  delete_or_chain, walk, continue, start_push, start, step, run,
}
use concurrency_in_action.LockFreeStack.Count.{
  to_leave, counted, threads_counted, Counts, Survives, thread_of, use_node-Survives, stays, enters,
  exits,
}

pub new_stack-Counts {ℓ} : (T : Type ℓ) (n : ℕ) → threads_counted {T = T} n (λ t. returned none) ≡ 0
new_stack-Counts T zero = refl
new_stack-Counts T (suc n) = let rest = new_stack-Counts T n in omega arith

module _ {ℓ} {T : Type ℓ} where
  module _ (n t : ℕ) (mine : t < n) where
    insert-Counts :
        (b : Bool) (p : ℕ) (k : Node T) (s : State T)
        → s.places t ≡ inserting p
        → Counts n s
        → Survives (Counts n) (insert b t p k s)
    insert-Counts true p k s e c = stays n t mine s (inserting p) (returned none) e c refl
    insert-Counts false p k s e c = stays n t mine s (inserting p) (inserting p) e c refl

    take_head-Counts :
        (b : Bool) (p : ℕ) (next : Pointer) (s : State T)
        → s.places t ≡ comparing p next
        → Counts n s
        → Survives (Counts n) (take_head b t p next s)
    take_head-Counts true p next s e c = stays n t mine s (comparing p next) (taking p) e c refl
    take_head-Counts false p next s e c =
        stays n t mine s (comparing p next) (looping s.head) e c refl

    try_reclaim-Counts :
        (b : Bool) (p : Pointer) (res : Option T) (s : State T)
        → s.places t ≡ reclaiming p res
        → Counts n s
        → Survives (Counts n) (try_reclaim b t p res s)
    try_reclaim-Counts true p res s e c =
        stays n t mine s (reclaiming p res) (claiming p res) e c refl
    try_reclaim-Counts false p res s e c =
        stays n t mine s (reclaiming p res) (linking p p leaves res) e c refl

    after_chain-counted : (a : After) (res : Option T) → counted (after_chain a res) ≡ to_leave a
    after_chain-counted (deletes p) res = refl
    after_chain-counted leaves res = refl

    chain-Counts :
        (b : Bool) (first : Pointer) (l : ℕ) (a : After) (res : Option T) (k : Node T) (s : State T)
        → s.places t ≡ chaining first (some l) a res
        → Counts n s
        → Survives (Counts n) (chain b t first (some l) a res k s)
    chain-Counts true first l a res k s e c =
        stays n t mine s (chaining first (some l) a res) (after_chain a res) e c
          (after_chain-counted a res)
    chain-Counts false first l a res k s e c =
        stays n t mine s (chaining first (some l) a res) (chaining first (some l) a res) e c refl

    delete_or_chain-counted :
        (b : Bool) (nodes p : Pointer) (res : Option T)
        → counted (delete_or_chain b nodes p res) ≡ 0
    delete_or_chain-counted true nodes p res = refl
    delete_or_chain-counted false none p res = refl
    delete_or_chain-counted false (some q) p res = refl

    walk-counted :
        (first last : ℕ) (next : Pointer) (a : After) (res : Option T)
        → counted (walk first last next a res) ≡ to_leave a
    walk-counted first last none a res = refl
    walk-counted first last (some q) a res = refl

    delete-Counts :
        (p : Pointer) (from to : Place T) (s : State T)
        → s.places t ≡ from
        → counted to ≡ counted from
        → Counts n s
        → Survives (Counts n) (and_goes t to (delete p s))
    delete-Counts none from to s e as_before c = stays n t mine s from to e c as_before
    delete-Counts (some p) from to s e as_before c = removed (s.heap p)
      where
        removed :
            (m : Option (Node T))
            → Survives
                (Counts n)
                (and_goes t to (use_node m (λ k. went (record s { heap = update s.heap p none }))))
        removed none = tt
        removed (some k) = stays n t mine s from to e c as_before

    continue-Counts :
        (w : Bool) (p : Place T) (s : State T)
        → s.places t ≡ p
        → Counts n s
        → Survives (Counts n) (continue w p t s)
    unfolding continue
    continue-Counts w (returned res) s e c = c
    continue-Counts w (loading p) s e c =
        use_node-Survives n t mine (Counts n) (s.heap p) _
          (λ k. stays n t mine s (loading p) (inserting p) e c refl)
    continue-Counts w (inserting p) s e c =
        use_node-Survives n t mine (Counts n) (s.heap p) _ (λ k. insert-Counts _ p k s e c)
    continue-Counts w entering s e c = enters n t mine s e c
    continue-Counts w loading_head s e c = stays n t mine s loading_head (looping s.head) e c refl
    continue-Counts w (looping none) s e c =
        stays n t mine s (looping none) (reclaiming none none) e c refl
    continue-Counts w (looping (some p)) s e c =
        use_node-Survives n t mine (Counts n) (s.heap p) _
          (λ k. stays n t mine s (looping (some p)) (comparing p k.next) e c refl)
    continue-Counts w (comparing p next) s e c = take_head-Counts _ p next s e c
    continue-Counts w (taking p) s e c =
        use_node-Survives n t mine (Counts n) (s.heap p) _
          (λ k. stays n t mine s (taking p) (reclaiming (some p) k.data_) e c refl)
    continue-Counts w (reclaiming p res) s e c = try_reclaim-Counts _ p res s e c
    continue-Counts w (claiming p res) s e c =
        stays n t mine s (claiming p res) (counting s.to_be_deleted p res) e c refl
    continue-Counts w (counting nodes p res) s e c =
        exits n t mine s (counting nodes p res) _ e refl (delete_or_chain-counted _ nodes p res) c
    continue-Counts w (deleting_nodes none p res) s e c =
        stays n t mine s (deleting_nodes none p res) (deleting p res) e c refl
    continue-Counts w (deleting_nodes (some q) p res) s e c =
        use_node-Survives n t mine (Counts n) (s.heap q) _ (λ k.
          delete-Counts (some q) (deleting_nodes (some q) p res) (deleting_nodes k.next p res) s e
            refl c)
    continue-Counts w (deleting p res) s e c =
        delete-Counts p (deleting p res) (returned res) s e refl c
    continue-Counts w (walking first last a res) s e c =
        use_node-Survives n t mine (Counts n) (s.heap last) _ (λ k.
          stays n t mine s (walking first last a res) _ e c (walk-counted first last k.next a res))
    continue-Counts w (linking first none a res) s e c = tt
    continue-Counts w (linking first (some l) a res) s e c =
        use_node-Survives n t mine (Counts n) (s.heap l) _ (λ k.
          stays n t mine s (linking first (some l) a res) (chaining first (some l) a res) e c refl)
    continue-Counts w (chaining first none a res) s e c = tt
    continue-Counts w (chaining first (some l) a res) s e c =
        use_node-Survives n t mine (Counts n) (s.heap l) _
          (λ k. chain-Counts _ first l a res k s e c)
    continue-Counts w (leaving res) s e c =
        exits n t mine s (leaving res) (returned res) e refl refl c

    start_push-Counts :
        (m : Option (Node T)) (p : Place T) (res : Option T) (v : T) (a : ℕ) (s : State T)
        → s.places t ≡ returned res
        → Counts n s
        → Survives (Counts n) (start_push m t v a s)
    start_push-Counts none p res v a s e c = stays n t mine s (returned res) (loading a) e c refl
    start_push-Counts (some k) p res v a s e c = c

    start-Counts :
        (p : Place T) (o : Outcome T) (s : State T)
        → s.places t ≡ p
        → Counts n s
        → ((res : Option T) → s.places t ≡ returned res → Survives (Counts n) o)
        → Survives (Counts n) (start p t o s)
    start-Counts (returned res) o s e c h = h res e
    start-Counts (loading p) o s e c h = c
    start-Counts (inserting p) o s e c h = c
    start-Counts entering o s e c h = c
    start-Counts loading_head o s e c h = c
    start-Counts (looping p) o s e c h = c
    start-Counts (comparing p q) o s e c h = c
    start-Counts (taking p) o s e c h = c
    start-Counts (reclaiming p res) o s e c h = c
    start-Counts (claiming p res) o s e c h = c
    start-Counts (counting q p res) o s e c h = c
    start-Counts (deleting_nodes q p res) o s e c h = c
    start-Counts (deleting p res) o s e c h = c
    start-Counts (walking f l a res) o s e c h = c
    start-Counts (linking f l a res) o s e c h = c
    start-Counts (chaining f l a res) o s e c h = c
    start-Counts (leaving res) o s e c h = c

  Survives-then :
      (P Q : State T → Type 0) (r : Outcome T) (next : State T → Outcome T)
      → Survives P r
      → ((s : State T) → P s → Survives Q (next s))
      → Survives Q
          (elim r [ went s ↦ next s | null_fault ↦ null_fault | freed_fault ↦ freed_fault ])
  Survives-then P Q (went s) next h onward = onward s h
  Survives-then P Q null_fault next h onward = tt
  Survives-then P Q freed_fault next h onward = tt

  step-Counts :
      (n : ℕ) (o : Op T) (s : State T)
      → thread_of o < n
      → Counts n s
      → Survives (Counts n) (step o s)
  unfolding step
  step-Counts n (pushes t v p) s mine c =
      start-Counts n t mine (s.places t) _ s refl c
        (λ res e. start_push-Counts n t mine (s.heap p) (s.places t) res v p s e c)
  step-Counts n (pops t) s mine c =
      start-Counts n t mine (s.places t) _ s refl c
        (λ res e. stays n t mine s (returned res) entering e c refl)
  step-Counts n (continues w t) s mine c = continue-Counts n t mine w (s.places t) s refl c

  run-Counts :
      (n : ℕ) (os : List (Op T)) (s : State T)
      → All (λ o. thread_of o < n) os
      → Counts n s
      → Survives (Counts n) (run os s)
  unfolding run
  run-Counts n [] s mine c = c
  run-Counts n (o ∷ os) s (here, there) c =
      Survives-then (Counts n) (Counts n) (step o s) (run os) (step-Counts n o s here c)
        (λ s' c'. run-Counts n os s' there c')

  -- For any steps of any of `n` threads on a new stack, as long as no step uses a null pointer or a
  -- deleted node: `threads_in_pop` is the number of the threads that have incremented it in their `pop`
  -- and not yet decremented it, modulo 2 ^ 32.
  pub threads_in_pop-Counts :
      (n : ℕ) (os : List (Op T))
      → All (λ o. thread_of o < n) os
      → Survives (Counts n) (run os new_stack)
  threads_in_pop-Counts n os mine = run-Counts n os new_stack mine (rw (new_stack-Counts T n) refl)
