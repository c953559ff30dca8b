-- ===== src/Messaging/Dispatcher.antt =====
-- `dispatcher` and `TemplateDispatcher` of dispatcher.h, dispatcher.cpp and template_dispatcher.h,
-- and `receiver::wait` of receiver.cpp. A handler of type `Msg` is a partial function on messages:
-- it is defined where the `dynamic_cast` to `wrapped_message<Msg>` succeeds. It changes the object
-- that the handlers' lambdas capture and makes the sends that it returns, in order.
pub mod Loop
pub mod Chain
use concurrency_in_action.Common.{
  Bool, true, false, if◌then◌else◌, Option, none, some, List, [], ◌∷◌, ◌++◌,
}
use mathlib.Core.List.{foldl}
use concurrency_in_action.Messaging.Message.{Message, close_queue}
use concurrency_in_action.Messaging.Queue.{Queue, Outgoing}

-- The lambda of a `handle` call, behind the cast.
abbrev pub Handler : Type 0 → Type 0
Handler S = Message → Option (S → S × List Outgoing)

-- The objects of one `wait().handle(..).handle(..)` expression, the last one outermost.
pub data Dispatcher (S : Type 0) : Type 0 where
  dispatcher : (chained : Bool) → Dispatcher S
  template_dispatcher : (prev : Dispatcher S) (f : Handler S) (chained : Bool) → Dispatcher S

-- The end of one `dispatch`: `true`, `false`, or the exception `close_queue`.
pub data Dispatched (S : Type 0) : Type 0 where
  handled : (s : S) (out : List Outgoing) → Dispatched S
  not_handled : Dispatched S
  closed : Dispatched S

-- The end of a wait: the messages that are there are used up, a message was handled, or the
-- exception left it. The rest of the queue is kept.
pub data Waited (S : Type 0) : Type 0 where
  blocked : Waited S
  returned : (s : S) (out : List Outgoing) (rest : Queue) → Waited S
  threw : (s : S) (out : List Outgoing) (rest : Queue) → Waited S

module _ {S : Type 0} where
  -- `dispatcher::dispatch`
  unfoldable pub base_dispatch : Message → Dispatched S
  base_dispatch close_queue = closed
  base_dispatch _ = not_handled

  unfoldable pub dispatch : Dispatcher S → Message → S → Dispatched S
  unfolding base_dispatch
  dispatch (dispatcher c) msg s = base_dispatch msg
  dispatch (template_dispatcher prev f c) msg s = elim (f msg) [
    | some g ↦ handled (g s).0 (g s).1
    | none ↦ dispatch prev msg s
  ]

  -- The `for (;;)` of both classes. A message that nobody handles is lost.
  unfoldable pub wait_and_dispatch : Dispatcher S → S → Queue → Waited S
  unfolding dispatch
  wait_and_dispatch d s [] = blocked
  wait_and_dispatch d s (msg ∷ q) = elim (dispatch d msg s) [
    | handled s' out ↦ returned s' out q
    | not_handled ↦ wait_and_dispatch d s q
    | closed ↦ threw s [] q
  ]

  abbrev pub chained : Dispatcher S → Bool
  chained (dispatcher c) = c
  chained (template_dispatcher prev f c) = c

  abbrev pub set_chained : Dispatcher S → Dispatcher S
  set_chained (dispatcher c) = dispatcher true
  set_chained (template_dispatcher prev f c) = template_dispatcher prev f true

  -- `receiver::wait`
  abbrev pub wait : Dispatcher S
  wait = dispatcher false

  -- `handle`: the constructor of the new object marks the previous one as chained.
  abbrev pub handle : Dispatcher S → Handler S → Dispatcher S
  handle d f = template_dispatcher (set_chained d) f false

  -- `wait().handle(h0).handle(h1)...`
  abbrev pub handle_all : List (Handler S) → Dispatcher S
  handle_all = foldl handle wait

  -- One destructor.
  unfoldable pub destroy_one : Dispatcher S → S → Queue → Waited S
  unfolding wait_and_dispatch
  destroy_one d s q = if chained d then returned s [] q else wait_and_dispatch d s q

  -- What follows a wait, with the sends made so far in front.
  abbrev pub then_destroy : (S → Queue → Waited S) → List Outgoing → Waited S → Waited S
  then_destroy k sent blocked = blocked
  then_destroy k sent (returned s out rest) = returned s (sent ++ out) rest
  then_destroy k sent (threw s out rest) = threw s (sent ++ out) rest

  abbrev pub next_destructor : (S → Queue → Waited S) → Waited S → Waited S
  next_destructor k blocked = blocked
  next_destructor k (returned s out rest) = then_destroy k out (k s rest)
  next_destructor k (threw s out rest) = threw s out rest

  -- The end of the full expression: the temporaries are destroyed, the last one first.
  unfoldable pub destroy : Dispatcher S → S → Queue → Waited S
  unfolding destroy_one
  destroy (dispatcher c) s q = destroy_one (dispatcher c) s q
  destroy (template_dispatcher prev f c) s q =
      next_destructor (destroy prev) (destroy_one (template_dispatcher prev f c) s q)
