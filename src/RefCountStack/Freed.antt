-- ===== src/RefCountStack/Freed.antt =====
-- The destructor deletes the nodes of the stack.
use concurrency_in_action.Common.{
  All, ℕ, suc, ◌+◌, ◌-◌, ◌%◌, ◌^◌, ◌≡◌, ◌≢◌, refl, sym, ap, ◌∙◌, true, false, ◌==◌, ==_iff, Option,
  none, some, List, [], ◌∷◌, update, update_ne, update_self, arith,
}
use concurrency_in_action.Nodes.{Pointer}
use concurrency_in_action.RefCountStack.{
  CountedPtr, Node, returns, Place, returned, entering, increasing, holding, comparing, taking,
  adding, deleting, State, Outcome, went, same, same_ptr, int_max, goes, use_node, write, continue,
  add_count, delete_if, take_head,
}
use concurrency_in_action.RefCountStack.Destructor.{turn, next_turn, loop, destroy_stack}

same_ptr_refl : (p : Pointer) → same_ptr p p ≡ true
same_ptr_refl none = refl
same_ptr_refl (some a) = (==_iff a a).1 refl

same_refl : (c : CountedPtr) → same c c ≡ true
same_refl c = rw (same_ptr_refl c.ptr) ground arith

-- The turns for one node, more than `j`.
abbrev node_turns : ℕ → ℕ
node_turns j = suc (suc (suc (suc (suc (suc (suc (suc j)))))))

abbrev pub turns_for : List ℕ → ℕ
turns_for [] = 4
turns_for (a ∷ xs) = node_turns (turns_for xs)

module _ {ℓ} {T : Type ℓ} where
  -- From `c` the nodes at `xs` lead to the end. Each has its data, and its internal count is short of what
  -- the external count `c` has beyond the one of the stack.
  abbrev pub AtRest : (ℕ → Option (Node T)) → CountedPtr → List ℕ → Type ℓ
  AtRest heap c [] = (c.ptr ≡ none) × (c.external_count ≢ int_max) × Unit {ℓ}
  AtRest heap c (a ∷ xs) =
      (c.ptr ≡ some a)
      × (c.external_count ≢ int_max)
      × All (λ b. a ≢ b) xs
      × ((k : Node T) × (v : T) × (heap a ≡ some k)
          × (k.data_ ≡ some v)
          × (k.internal_count ≡ (2 ^ 32 - (c.external_count - 1)) % 2 ^ 32)
          × AtRest heap k.next xs)

  -- The end of the destructor: no node of `xs` is left, the others are as they were, and the head is null.
  unfoldable pub Freed : Option (Outcome T) → List ℕ → State T → Type ℓ
  Freed o xs s =
      (s' : State T) × (o ≡ some (went s'))
      × (s'.head.ptr ≡ none)
      × All (λ a. s'.heap a ≡ none) xs
      × ((b : ℕ) → All (λ a. a ≢ b) xs → s'.heap b ≡ s.heap b)

  AtRest-away :
      (heap heap' : ℕ → Option (Node T)) (a : ℕ) (c : CountedPtr) (xs : List ℕ)
      → ((b : ℕ) → a ≢ b → heap' b ≡ heap b)
      → All (λ b. a ≢ b) xs
      → AtRest heap c xs
      → AtRest heap' c xs
  AtRest-away heap heap' a c [] kept out rest = rest
  AtRest-away heap heap' a c (b ∷ xs) kept (ne, others)
        (at, below, out, (k, v, here, dat, short, rest)) =
      (
        at,
        below,
        out,
        (k, v, kept b ne ∙ here, dat, short, AtRest-away heap heap' a k.next xs kept others rest),
      )

All-sym : (a : ℕ) (xs : List ℕ) → All (λ b. a ≢ b) xs → All (λ b. b ≢ a) xs
All-sym a [] out = tt
All-sym a (b ∷ xs) (ne, out) = (λ e. ne (sym e), All-sym a xs out)

module _ {ℓ} {T : Type ℓ} (t : ℕ) where
  advance :
      (k : ℕ) (s s' : State T) (p : Place T)
      → s.places t ≡ p
      → turn p t s ≡ some (went s')
      → loop (suc k) t s ≡ loop k t s'
  unfolding loop
  advance k s s' p e h =
      ap (λ q. next_turn (turn q t s) s (λ z. loop k t z)) e
      ∙ ap (λ o. next_turn o s (λ z. loop k t z)) h

  turn_increasing :
      (c : CountedPtr) (s : State T)
      → s.head ≡ c
      → c.external_count ≢ int_max
      → (let c' : CountedPtr = record c { external_count = c.external_count + 1 } in
          turn (increasing c) t s ≡ some (goes t (holding c') (record s { head = c' })))
  unfolding turn continue
  turn_increasing c s e below =
      let test : (c.external_count == int_max) ≡ false = ground (arith, below) in
      rw (e, test, same_refl c) refl

  turn_holding :
      (x a : ℕ) (k : Node T) (s : State T)
      → s.heap a ≡ some k
      → turn (holding (record { external_count = x; ptr = some a })) t s
        ≡ some (goes t (comparing x a k.next) s)
  unfolding turn continue
  turn_holding x a k s e = rw e refl

  turn_comparing :
      (x a : ℕ) (next : CountedPtr) (s : State T)
      → s.head ≡ (record { external_count = x; ptr = some a })
      → turn (comparing x a next) t s ≡ some (goes t (taking x a) (record s { head = next }))
  unfolding turn continue
  turn_comparing x a next s e =
      let c : CountedPtr = record { external_count = x; ptr = some a } in
      let test : same s.head c ≡ true = rw e (same_refl c) in
      ap (λ b. some (take_head b t x a next s)) test

  turn_taking :
      (x a : ℕ) (k : Node T) (s : State T)
      → s.heap a ≡ some k
      → turn (taking x a) t s
        ≡ some (goes t (adding x a k.data_) (write a (record k { data_ = none }) s))
  unfolding turn continue
  turn_taking x a k s e = rw e refl

  turn_adding :
      (x a : ℕ) (res : Option T) (k : Node T) (s : State T)
      → s.heap a ≡ some k
      → k.internal_count ≡ (2 ^ 32 - (x - 2)) % 2 ^ 32
      → (let k' : Node T = record k { internal_count = (k.internal_count + (x - 2)) % 2 ^ 32 } in
          turn (adding x a res) t s ≡ some (goes t (deleting a (returns res)) (write a k' s)))
  unfolding turn continue
  turn_adding x a res k s e last =
      let k' : Node T = record k { internal_count = (k.internal_count + (x - 2)) % 2 ^ 32 } in
      let test = (==_iff k.internal_count ((2 ^ 32 - (x - 2)) % 2 ^ 32)).1 last in
      ap (λ o. some (use_node o (λ k. add_count t x a res k s))) e
      ∙ ap (λ b. some (goes t (delete_if b a (returns res)) (write a k' s))) test

  turn_deleting :
      (a : ℕ) (res : Option T) (k : Node T) (s : State T)
      → s.heap a ≡ some k
      → turn (deleting a (returns res)) t s
        ≡ some (goes t (returned res) (record s { heap = update s.heap a none }))
  unfolding turn continue
  turn_deleting a res k s e = rw e refl

  -- What is left of the turns when one node has been popped and deleted.
  Passed : (fuel : ℕ) → State T → (a : ℕ) → (next : CountedPtr) → (left : ℕ) → Type ℓ
  Passed fuel s a next left =
      (s' : State T) × (loop fuel t s ≡ loop left t s')
      × (s'.places t ≡ entering)
      × (s'.head ≡ next)
      × (s'.heap a ≡ none)
      × ((b : ℕ) → a ≢ b → s'.heap b ≡ s.heap b)

  pop_node :
      (j : ℕ) (s : State T) (x a : ℕ) (v : T) (k : Node T)
      → s.places t ≡ entering
      → s.head ≡ (record { external_count = x; ptr = some a })
      → x ≢ int_max
      → s.heap a ≡ some k
      → k.data_ ≡ some v
      → k.internal_count ≡ (2 ^ 32 - (x - 1)) % 2 ^ 32
      → Passed (node_turns j) s a k.next j
  unfolding turn continue Passed
  pop_node j s x a v k at_start head below here dat short =
      let c : CountedPtr = record { external_count = x; ptr = some a } in
      let c' : CountedPtr = record { external_count = x + 1; ptr = some a } in
      let k1 : Node T = record k { data_ = none } in
      let k2 : Node T = record k1 { internal_count = (k.internal_count + (x + 1 - 2)) % 2 ^ 32 } in
      let at = λ (s : State T) (p : Place T). update_self s.places t p in
      let s1 : State T = record s { places = update s.places t (increasing s.head) } in
      let s2 : State T = record s1 { head = c'; places = update s1.places t (holding c') } in
      let s3 : State T = record s2 { places = update s2.places t (comparing (x + 1) a k.next) } in
      let s4 : State T = record s3 {
        head = k.next;
        places = update s3.places t (taking (x + 1) a);
      } in
      let s5 : State T = record s4 {
        heap = update s4.heap a (some k1);
        places = update s4.places t (adding (x + 1) a k.data_);
      } in
      let s6 : State T = record s5 {
        heap = update s5.heap a (some k2);
        places = update s5.places t (deleting a (returns k.data_));
      } in
      let s7 : State T = record s6 {
        heap = update s6.heap a none;
        places = update s6.places t (returned k.data_);
      } in
      let s8 : State T = record s7 { places = update s7.places t entering } in
      let turns =
        advance _ s s1 entering at_start refl
        ∙ advance _ s1 s2 (increasing c) (at s _ ∙ ap increasing head)
            (turn_increasing c s1 head below)
        ∙ advance _ s2 s3 (holding c') (at s1 _) (turn_holding (x + 1) a k s2 here)
        ∙ advance _ s3 s4 (comparing (x + 1) a k.next) (at s2 _)
            (turn_comparing (x + 1) a k.next s3 refl)
        ∙ advance _ s4 s5 (taking (x + 1) a) (at s3 _) (turn_taking (x + 1) a k s4 here)
        ∙ advance _ s5 s6 (adding (x + 1) a k.data_) (at s4 _) (
            turn_adding (x + 1) a k.data_ k1 s5 (update_self s4.heap a (some k1))
              (omega (arith, short)))
        ∙ advance _ s6 s7 (deleting a (returns k.data_)) (at s5 _)
            (turn_deleting a k.data_ k2 s6 (update_self s5.heap a (some k2)))
        ∙ advance _ s7 s8 (returned (some v)) (at s6 _ ∙ ap returned dat) refl in
      (
        s8,
        turns,
        at s7 entering,
        refl,
        update_self s6.heap a none,
        λ b ne.
            update_ne s6.heap a b none ne
            ∙ update_ne s5.heap a b (some k2) ne
            ∙ update_ne s4.heap a b (some k1) ne,
      )

  turn_null :
      (x : ℕ) (s : State T)
      → turn (holding (record { external_count = x; ptr = none })) t s
        ≡ some (goes t (returned none) s)
  unfolding turn continue
  turn_null x s = refl

  -- The last `pop` finds no node.
  pop_null :
      (s : State T) (x : ℕ)
      → s.places t ≡ entering
      → s.head ≡ (record { external_count = x; ptr = none })
      → x ≢ int_max
      → (s' : State T) × (loop 4 t s ≡ some (went s')) × (s'.head.ptr ≡ none) × (s'.heap ≡ s.heap)
  unfolding turn continue loop
  pop_null s x at_start head below =
      let c : CountedPtr = record { external_count = x; ptr = none } in
      let c' : CountedPtr = record { external_count = x + 1; ptr = none } in
      let at = λ (s : State T) (p : Place T). update_self s.places t p in
      let s1 : State T = record s { places = update s.places t (increasing s.head) } in
      let s2 : State T = record s1 { head = c'; places = update s1.places t (holding c') } in
      let s3 : State T = record s2 { places = update s2.places t (returned none) } in
      let turns =
        advance 3 s s1 entering at_start refl
        ∙ advance 2 s1 s2 (increasing c) (at s _ ∙ ap increasing head)
            (turn_increasing c s1 head below)
        ∙ advance 1 s2 s3 (holding c') (at s1 _) (turn_null (x + 1) s2)
        ∙ ap (λ q. next_turn (turn q t s3) s3 (λ z. loop 0 t z)) (at s2 (returned none)) in
      (s3, turns, refl, refl)

  loop-Frees :
      (xs : List ℕ) (c : CountedPtr) (s : State T)
      → s.places t ≡ entering
      → s.head ≡ c
      → AtRest s.heap c xs
      → Freed (loop (turns_for xs) t s) xs s
  unfolding Freed Passed
  loop-Frees [] c s e h (end_, below, u) =
      let (s', ends, gone, kept) =
        pop_null s c.external_count e
          (h ∙ ap (λ p. record { external_count = c.external_count; ptr = p }) end_) below in
      (s', ends, gone, tt, λ b out. ap (λ f. f b) kept)
  loop-Frees (a ∷ xs) c s e h (at, below, out, (k, v, here, dat, short, rest)) =
      let (s1, turns, e1, h1, gone, kept) =
        pop_node (turns_for xs) s c.external_count a v k e
          (h ∙ ap (λ p. record { external_count = c.external_count; ptr = p }) at) below here dat
          short in
      let (s', ends, empty, deleted, rest_kept) =
        loop-Frees xs k.next s1 e1 h1 (AtRest-away s.heap s1.heap a k.next xs kept out rest) in
      (
        s',
        turns ∙ ends,
        empty,
        (rest_kept a (All-sym a xs out) ∙ gone, deleted),
        λ b (ne, others). rest_kept b others ∙ kept b ne,
      )

  -- From a state at rest the destructor deletes the nodes of the stack.
  pub destroy_stack-Frees :
      (xs : List ℕ) (s : State T)
      → AtRest s.heap s.head xs
      → Freed (destroy_stack (turns_for xs) t s) xs s
  unfolding destroy_stack Freed
  destroy_stack-Frees xs s rest =
      loop-Frees xs s.head (record s { places = update s.places t entering })
        (update_self s.places t entering) refl rest
