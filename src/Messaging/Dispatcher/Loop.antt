-- ===== src/Messaging/Dispatcher/Loop.antt =====
-- What the loop of a dispatcher does with the messages that it finds.
use mathlib.Core.Path.{subst}
use concurrency_in_action.Common.{
  ◌≡◌, ◌≢◌, refl, sym, ◌⊎◌, inl, inr, none, some, Option-cases, List, [], ◌∷◌, ◌++◌, ap, All,
}
use concurrency_in_action.Messaging.Message.{Message, close_queue}
use concurrency_in_action.Messaging.Queue.{Queue, Outgoing}
use concurrency_in_action.Messaging.Dispatcher.{
  Handler, dispatcher, template_dispatcher, Dispatcher, Dispatched, handled, not_handled, closed,
  Waited, blocked, returned, threw, base_dispatch, dispatch, wait_and_dispatch,
}

-- The handlers of a chain, the last `handle` first.
abbrev pub handlers_of : {S : Type 0} → Dispatcher S → List (Handler S)
handlers_of (dispatcher c) = []
handlers_of (template_dispatcher prev f c) = f ∷ handlers_of prev

module _ {S : Type 0} where
  abbrev pub NoneTakes : Message → List (Handler S) → Type 0
  NoneTakes msg hs = All (λ f. f msg ≡ none) hs

  -- The first of the handlers that takes the message makes `s'` and the sends `out` of `s`.
  abbrev pub Takes : List (Handler S) → Message → S → S → List Outgoing → Type 0
  Takes [] msg s s' out = ⊥
  Takes (f ∷ hs) msg s s' out =
      ((g : S → S × List Outgoing) × (f msg ≡ some g) × (g s ≡ (s', out)))
      ⊎ ((f msg ≡ none) × Takes hs msg s s' out)

  -- How one dispatch can end.
  abbrev Ends : List (Handler S) → Message → S → Dispatched S → Type 0
  Ends hs msg s (handled s' out) = Takes hs msg s s' out
  Ends hs msg s not_handled = (msg ≢ close_queue) × NoneTakes msg hs
  Ends hs msg s closed = (msg ≡ close_queue) × NoneTakes msg hs

  base_dispatch-Ends : (msg : Message) (s : S) → Ends [] msg s (base_dispatch msg)
  unfolding base_dispatch
  base_dispatch-Ends Message.close_queue s = (refl, tt)
  base_dispatch-Ends _ s = (λ e. cc, tt)

  Ends-cons :
      (f : Handler S) (hs : List (Handler S)) (msg : Message) (s : S) (r : Dispatched S)
      → f msg ≡ none
      → Ends hs msg s r
      → Ends (f ∷ hs) msg s r
  Ends-cons f hs msg s (handled s' out) e h = inr (e, h)
  Ends-cons f hs msg s not_handled e (other, h) = (other, (e, h))
  Ends-cons f hs msg s closed e (close, h) = (close, (e, h))

  dispatch-Ends :
      (d : Dispatcher S) (msg : Message) (s : S) → Ends (handlers_of d) msg s (dispatch d msg s)
  unfolding dispatch
  dispatch-Ends (dispatcher c) msg s = base_dispatch-Ends msg s
  dispatch-Ends (template_dispatcher prev f c) msg s = elim (Option-cases (f msg)) [
    | inl e ↦ rw e (Ends-cons f (handlers_of prev) msg s _ e (dispatch-Ends prev msg s))
    | inr (g, e) ↦ rw e (inl (g, e, refl))
  ]

  module _ (d : Dispatcher S) (s : S) where
    -- No handler takes the message, and it is not `close_queue`.
    abbrev pub Dropped : Queue → Type 0
    Dropped = All (λ msg. (msg ≢ close_queue) × NoneTakes msg (handlers_of d))

    -- What a wait that ended so says of the queue that it found.
    abbrev pub Explains : Queue → Waited S → Type 0
    Explains q blocked = Dropped q
    Explains q (returned s' out rest) =
        (dropped : Queue) × (msg : Message) × (q ≡ dropped ++ (msg ∷ rest))
        × Dropped dropped
        × Takes (handlers_of d) msg s s' out
    Explains q (threw s' out rest) =
        (s' ≡ s)
        × (out ≡ [])
        × ((dropped : Queue) × (q ≡ dropped ++ (close_queue ∷ rest))
            × Dropped dropped
            × NoneTakes close_queue (handlers_of d))

    Explains-cons :
        (msg : Message) (q : Queue) (w : Waited S)
        → (msg ≢ close_queue) × NoneTakes msg (handlers_of d)
        → Explains q w
        → Explains (msg ∷ q) w
    Explains-cons msg q blocked e h = (e, h)
    Explains-cons msg q (returned s' out rest) e (dropped, m, split, all, r) =
        (msg ∷ dropped, m, ap (◌∷◌ msg) split, (e, all), r)
    Explains-cons msg q (threw s' out rest) e (same, none_sent, (dropped, split, all, r)) =
        (same, none_sent, (msg ∷ dropped, ap (◌∷◌ msg) split, (e, all), r))

    -- The rest of the loop, by the end of the first dispatch.
    next_wait : Queue → Dispatched S → Waited S
    next_wait q (handled s' out) = returned s' out q
    next_wait q not_handled = wait_and_dispatch d s q
    next_wait q closed = threw s [] q

    wait_and_dispatch-cons :
        (msg : Message) (q : Queue)
        → wait_and_dispatch d s (msg ∷ q) ≡ next_wait q (dispatch d msg s)
    unfolding wait_and_dispatch next_wait
    wait_and_dispatch-cons msg q = by_end (dispatch d msg s)
      where
        by_end :
            (r : Dispatched S)
            → (elim r [
              | handled s' out ↦ returned s' out q
              | not_handled ↦ wait_and_dispatch d s q
              | closed ↦ threw s [] q
            ])
              ≡ next_wait q r
        by_end (handled s' out) = refl
        by_end not_handled = refl
        by_end closed = refl

    Ends-Explains :
        (msg : Message) (q : Queue) (r : Dispatched S)
        → Explains q (wait_and_dispatch d s q)
        → Ends (handlers_of d) msg s r
        → Explains (msg ∷ q) (next_wait q r)
    unfolding next_wait
    Ends-Explains msg q (handled s' out) rest h = ([], msg, refl, tt, h)
    Ends-Explains msg q not_handled rest h = Explains-cons msg q _ h rest
    Ends-Explains msg q closed rest (close, h) = (
      refl,
      refl,
      ([], ap (λ m. m ∷ q) close, tt, subst (λ m. NoneTakes m (handlers_of d)) close h),
    )

    -- A wait drops the messages that no handler takes, up to the first that one takes, which the last
    -- handler of the chain that takes it handles, or up to the first `close_queue` that none takes, where it
    -- throws with nothing changed or sent; it stays blocked only when every message that it found was dropped.
    pub wait_and_dispatch_explained : (q : Queue) → Explains q (wait_and_dispatch d s q)
    unfolding wait_and_dispatch
    wait_and_dispatch_explained [] = tt
    wait_and_dispatch_explained (msg ∷ q) =
        subst (Explains (msg ∷ q)) (sym (wait_and_dispatch-cons msg q)) (
          Ends-Explains msg q (dispatch d msg s) (wait_and_dispatch_explained q)
            (dispatch-Ends d msg s))
