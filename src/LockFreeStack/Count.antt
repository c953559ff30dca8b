-- ===== src/LockFreeStack/Count.antt =====
-- What `threads_in_pop` counts.
use concurrency_in_action.Common.{
  ℕ, ◌%◌, ◌^◌, ◌<◌, ◌≡◌, ap, Option, none, some, arith, update, total_below, total_below-update,
}
use concurrency_in_action.Nodes.{Node}
use concurrency_in_action.LockFreeStack.{
  After, deletes, leaves, Place, returned, loading, inserting, entering, loading_head, looping,
  comparing, taking, reclaiming, claiming, counting, deleting_nodes, deleting, walking, linking,
  chaining, leaving, State, Outcome, went, null_fault, freed_fault, Op, pushes, pops, continues,
  increment, decrement, goes, use_node,
}

abbrev pub to_leave : After → ℕ
to_leave (deletes old_head) = 0
to_leave leaves = 1

-- 1 for a thread that has incremented the count and not yet decremented it.
abbrev pub counted {ℓ} : {T : Type ℓ} → Place T → ℕ
counted (returned res) = 0
counted (loading p) = 0
counted (inserting p) = 0
counted entering = 0
counted loading_head = 1
counted (looping p) = 1
counted (comparing p n) = 1
counted (taking p) = 1
counted (reclaiming p res) = 1
counted (claiming p res) = 1
counted (counting n p res) = 1
counted (deleting_nodes n p res) = 0
counted (deleting p res) = 0
counted (walking f l a res) = to_leave a
counted (linking f l a res) = to_leave a
counted (chaining f l a res) = to_leave a
counted (leaving res) = 1

-- The threads below `n` that are counted.
abbrev pub threads_counted {ℓ} : {T : Type ℓ} → ℕ → (ℕ → Place T) → ℕ
threads_counted n places = total_below counted n places

-- In the outcome of a run, the counter is that count, modulo 2 ^ 32.
abbrev pub Counts {ℓ} : {T : Type ℓ} → ℕ → State T → Type 0
Counts n s = s.threads_in_pop ≡ threads_counted n s.places % 2 ^ 32

abbrev pub Survives {ℓ κ} : {T : Type ℓ} → (State T → Type κ) → Outcome T → Type κ
Survives P (went s) = P s
Survives P null_fault = Unit
Survives P freed_fault = Unit

abbrev pub thread_of {ℓ} : {T : Type ℓ} → Op T → ℕ
thread_of (pushes t v p) = t
thread_of (pops t) = t
thread_of (continues w t) = t

module _ {ℓ} {T : Type ℓ} where
  module _ (n t : ℕ) (mine : t < n) where
    pub use_node-Survives :
        (P : State T → Type 0) (m : Option (Node T)) (next : Node T → Outcome T)
        → ((k : Node T) → Survives P (next k))
        → Survives P (use_node m next)
    use_node-Survives P none next h = tt
    use_node-Survives P (some k) next h = h k

    -- A step that moves the thread from `from` to `p`, with the counter as it was.
    pub stays :
        (s : State T) (from p : Place T)
        → s.places t ≡ from
        → Counts n s
        → counted p ≡ counted from
        → s.threads_in_pop ≡ threads_counted n (update s.places t p) % 2 ^ 32
    stays s from p e c as_before =
        let change = total_below-update counted n t s.places p mine in
        let now = ap counted e in omega (arith, c, change, now, as_before)

    -- The increment.
    pub enters :
        (s : State T)
        → s.places t ≡ entering
        → Counts n s
        → Survives
            (Counts n)
            (goes t loading_head (record s { threads_in_pop = increment s.threads_in_pop }))
    enters s e c =
        let change = total_below-update counted n t s.places loading_head mine in
        let now = ap counted e in omega (arith, c, change, now)

    -- A decrement.
    pub exits :
        (s : State T) (from p : Place T)
        → s.places t ≡ from
        → counted from ≡ 1
        → counted p ≡ 0
        → Counts n s
        → Survives (Counts n) (goes t p (record s { threads_in_pop = decrement s.threads_in_pop }))
    exits s from p e inside outside c =
        let change = total_below-update counted n t s.places p mine in
        let now = ap counted e in omega (arith, c, change, now, inside, outside)
