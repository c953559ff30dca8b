-- ===== src/RefCountStack/Rest.antt =====
-- A run that leaves no thread in a call, and the destructor behind it.
use mathlib.Core.Path.{subst}
use mathlib.Core.Option.{some-injective}
use concurrency_in_action.Common.{
  All, ℕ, zero, suc, ◌^◌, ◌<◌, ◌≡◌, ◌≢◌, refl, sym, ap, ◌∙◌, Option, some, List, [], ◌∷◌, map,
  arith,
}
use concurrency_in_action.StackModel.{
  Model, Event, after, Allowed, HasData, after-HasData, empty_model,
}
use concurrency_in_action.RefCountStack.{
  CountedPtr, Node, Place, returned, State, Outcome, went, overflowed, freed_fault, Op, new_stack,
  int_max, step, run,
}
use concurrency_in_action.RefCountStack.Labels.{refers, references, IsOut, Chain, Balanced}
use concurrency_in_action.RefCountStack.Roles.{Inv}
use concurrency_in_action.RefCountStack.Events.{Keeps, event}
use concurrency_in_action.RefCountStack.Safety.{thread_of, step-Keeps, new_stack-Inv}
use concurrency_in_action.RefCountStack.Destructor.{destroy_stack}
use concurrency_in_action.RefCountStack.Freed.{AtRest, Freed, turns_for, destroy_stack-Frees}

-- No thread is in a call.
abbrev pub Quiet {ℓ} : {T : Type ℓ} → State T → Type ℓ
Quiet {T = T} s = (u : ℕ) → (res : Option T) × (s.places u ≡ returned res)

-- The count of the link can be increased.
abbrev pub IsShort {ℓ} : {T : Type ℓ} → Node T → Type 0
IsShort k = k.next.external_count ≢ int_max

module _ {ℓ} {T : Type ℓ} where
  went-injective : (s s' : State T) → ◌≡◌ {A = Outcome T} (went s) (went s') → s ≡ s'
  went-injective s s' e = cc

  go_on :
      (n : ℕ) (e : Event T) (m : Model T) (o : Outcome T) (s' : State T)
      (rest : State T → Outcome T)
      → Keeps n e m o
      → ((s1 : State T)
          → Allowed e m
          → Inv n (after e m) s1
          → rest s1 ≡ went s'
          → (m' : Model T) × Inv n m' s' × All HasData m'.contents)
      → (elim o [ went s1 ↦ rest s1 | overflowed ↦ overflowed | freed_fault ↦ freed_fault ])
        ≡ went s'
      → (m' : Model T) × Inv n m' s' × All HasData m'.contents
  go_on n e m (went s1) s' rest (a, v) next h = next s1 a v h
  go_on n e m overflowed s' rest k next h = absurd (cc)
  go_on n e m freed_fault s' rest k next h = absurd (cc)

  run-Inv :
      (n : ℕ) (os : List (Op T)) (m : Model T) (s s' : State T)
      → n < 2 ^ 32
      → All (λ o. thread_of o < n) os
      → Inv n m s
      → All HasData m.contents
      → run os s ≡ went s'
      → (m' : Model T) × Inv n m' s' × All HasData m'.contents
  unfolding run
  run-Inv n [] m s s' few mine v full e =
      (m, subst (λ z. Inv n m z) (went-injective s s' e) v, full)
  run-Inv n (o ∷ os) m s s' few (here, there) v full e =
      go_on n (event o s) m (step o s) s' (λ z. run os z) (step-Keeps n o m s few here v)
        (λ s1 a v1 e1.
          run-Inv n os (after (event o s) m) s1 s' few there v1 (after-HasData (event o s) m a full)
            e1)
        e

  none_refer :
      (n a : ℕ) (places : ℕ → Place T)
      → ((u : ℕ) → refers a (places u) ≡ 0)
      → references n places a ≡ 0
  none_refer zero a places z = refl
  none_refer (suc n) a places z =
      let rest = none_refer n a places z in let here = z n in omega (arith, rest, here)

  Chain-AtRest :
      (n : ℕ) (m : Model T) (s : State T) (v : Inv n m s) (c : CountedPtr)
      (cells : List (ℕ × Option T))
      → ((a : ℕ) → references n s.places a ≡ 0)
      → ((a : ℕ) (k : Node T) → s.heap a ≡ some k → IsShort k)
      → c.external_count ≢ int_max
      → All HasData (map (λ x. x.1) cells)
      → Chain s.heap v.labels c cells
      → AtRest s.heap c (map (λ x. x.0) cells)
  Chain-AtRest n m s v c [] unused whole below full (end_, u) = (end_, below, tt)
  Chain-AtRest n m s v c ((a, d) ∷ cells) unused whole below ((w, same), full)
        (at, l, out, (k, here, dat, rest)) =
      let (k', at', (drops, split, short, le, u)) =
        subst (λ L. Balanced L (s.heap a) (references n s.places a)) l (v.balanced a) in
      let link = whole a k here in
      let internal = ap (λ (y : Node T). y.internal_count) (some-injective k k' (sym here ∙ at')) in
      let none_left = unused a in
      (
        at,
        below,
        IsOut-All a cells out,
        (
          k,
          w,
          here,
          dat ∙ same,
          omega (arith, internal, short, split, none_left),
          Chain-AtRest n m s v k.next cells unused whole link full rest,
        ),
      )
    where
      IsOut-All :
          (a : ℕ) (xs : List (ℕ × Option T)) → IsOut a xs → All (λ b. a ≢ b) (map (λ x. x.0) xs)
      IsOut-All a [] out = tt
      IsOut-All a (x ∷ xs) (ne, out) = (ne, IsOut-All a xs out)

  -- If a run of fewer than 2 ^ 32 threads on a new stack has left no thread in a call, and no external
  -- count is the greatest int: the head leads to nodes at some addresses, and the
  -- destructor then ends after eight turns for each of them and four more, uses no deleted node, deletes
  -- them and no other node, and leaves the head null.
  pub new_stack-run-Frees :
      (n t : ℕ) (os : List (Op T)) (s : State T)
      → n < 2 ^ 32
      → All (λ o. thread_of o < n) os
      → run os new_stack ≡ went s
      → Quiet s
      → ((a : ℕ) (k : Node T) → s.heap a ≡ some k → IsShort k)
      → s.head.external_count ≢ int_max
      → (xs : List ℕ) × AtRest s.heap s.head xs × Freed (destroy_stack (turns_for xs) t s) xs s
  new_stack-run-Frees n t os s few mine e quiet whole below =
      let (m, v, full) = run-Inv n os empty_model new_stack s few mine (new_stack-Inv n) tt e in
      let rest =
        Chain-AtRest n m s v s.head v.cells
          (λ a. none_refer n a s.places (λ u. ap (refers a) (quiet u).1)) whole below
          (subst (λ ds. All HasData ds) (sym v.contents_eq) full) v.stack_chain in
      (_, rest, destroy_stack-Frees t _ s rest)
