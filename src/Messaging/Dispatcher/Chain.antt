-- ===== src/Messaging/Dispatcher/Chain.antt =====
-- Which object of a chain of dispatchers waits.
use concurrency_in_action.Common.{◌≡◌, refl, true, false, List, [], ◌∷◌, ap}
use mathlib.Core.List.{foldl, append-nil}
use concurrency_in_action.Messaging.Queue.{Queue}
use concurrency_in_action.Messaging.Dispatcher.{
  Handler, Dispatcher, dispatcher, template_dispatcher, Waited, blocked, returned, threw,
  wait_and_dispatch, chained, set_chained, wait, handle, handle_all, destroy_one, next_destructor,
  destroy,
}

module _ {S : Type 0} where
  -- Every object under the outermost one is chained.
  abbrev IsLinked : Dispatcher S → Type 0
  IsLinked (dispatcher c) = Unit
  IsLinked (template_dispatcher prev f c) = (chained prev ≡ true) × IsLinked prev

  destroy-chained :
      (d : Dispatcher S) (s : S) (q : Queue)
      → IsLinked d
      → chained d ≡ true
      → destroy d s q ≡ returned s [] q
  unfolding destroy
  destroy-chained (dispatcher c) s q l e = rw e
  destroy-chained (template_dispatcher prev f c) s q l e =
      rw e (rw (destroy-chained prev s q l.1 l.0))

  next_destructor-returned :
      (k : S → Queue → Waited S) (w : Waited S)
      → ((s : S) (q : Queue) → k s q ≡ returned s [] q)
      → next_destructor k w ≡ w
  next_destructor-returned k blocked h = refl
  next_destructor-returned k (returned s out rest) h =
      rw (h s rest) (ap (λ o. returned s o rest) (append-nil out))
  next_destructor-returned k (threw s out rest) h = refl

  destroy-linked :
      (d : Dispatcher S) (s : S) (q : Queue)
      → IsLinked d
      → chained d ≡ false
      → destroy d s q ≡ wait_and_dispatch d s q
  unfolding destroy_one destroy
  destroy-linked (dispatcher c) s q l e = rw e
  destroy-linked (template_dispatcher prev f c) s q l e =
      rw e (next_destructor-returned _ _ (λ s' q'. destroy-chained prev s' q' l.1 l.0))

  set_chained-IsLinked : (d : Dispatcher S) → IsLinked d → IsLinked (set_chained d)
  set_chained-IsLinked (dispatcher c) l = l
  set_chained-IsLinked (template_dispatcher prev f c) l = l

  chained-set_chained : (d : Dispatcher S) → chained (set_chained d) ≡ true
  chained-set_chained (dispatcher c) = refl
  chained-set_chained (template_dispatcher prev f c) = refl

  foldl-IsLinked :
      (hs : List (Handler S)) (d : Dispatcher S)
      → IsLinked d
      → chained d ≡ false
      → IsLinked (foldl handle d hs) × (chained (foldl handle d hs) ≡ false)
  foldl-IsLinked [] d l e = (l, e)
  foldl-IsLinked (f ∷ hs) d l e =
      foldl-IsLinked hs (handle d f) (chained-set_chained d, set_chained-IsLinked d l) refl

  -- At the end of `wait().handle(..)...handle(..)`, whatever the handlers, the destructors together
  -- do what the last object's loop does alone: one message is handled, and no other object waits.
  pub destroy-handle_all :
      (hs : List (Handler S)) (s : S) (q : Queue)
      → destroy (handle_all hs) s q ≡ wait_and_dispatch (handle_all hs) s q
  destroy-handle_all hs s q =
      let (l, e) = foldl-IsLinked hs wait tt refl in destroy-linked (handle_all hs) s q l e
