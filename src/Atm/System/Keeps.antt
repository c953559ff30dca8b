-- ===== src/Atm/System/Keeps.antt =====
-- A rule for invariants of the threads and their queues: each message satisfies `Fits` and has a
-- weight, each machine's object satisfies its own invariant and has a value, and no handler makes
-- more value and weight than it takes.
use concurrency_in_action.Common.{
  ℕ, ◌+◌, ◌≤◌, ◌≡◌, refl, none, some, Option, List, [], ◌∷◌, arith, All, All-append, weight,
  weight-append,
}
use concurrency_in_action.Messaging.Message.{
  QueueId, at_atm, at_bank, at_interface, Sender, Message,
}
use concurrency_in_action.Messaging.Queue.{Queue, Queues, Outgoing, send_via, send, wait_and_pop}
use concurrency_in_action.Messaging.Dispatcher.{Dispatched, handled, not_handled, closed, dispatch}
use concurrency_in_action.Atm.Machine.{Phase, calling, waiting, stopped}
use concurrency_in_action.Atm.System.{
  Thread, Code, thread_step, queue_at, set_queue_at, after_dispatch, enter, receive, advance, flush,
}

module _ (Fits : Message → Type 0) (w : Message → ℕ) where
  abbrev pub FitsOut : Outgoing → Type 0
  FitsOut o = Fits o.1

  abbrev pub out_weight : List Outgoing → ℕ
  out_weight = weight (λ (o : Outgoing). w o.1)

  -- The three queues together.
  pub record QueuesFit (qs : Queues) : Type 0 where
    pub atm : All Fits qs.atm
    pub bank : All Fits qs.bank
    pub interface : All Fits qs.interface

  abbrev pub queues_weight : Queues → ℕ
  queues_weight qs = weight w qs.atm + weight w qs.bank + weight w qs.interface

  send_via-QueuesFit :
      (to : Option QueueId) (msg : Message) (qs : Queues)
      → Fits msg
      → QueuesFit qs
      → QueuesFit (send_via to msg qs)
        × (queues_weight (send_via to msg qs) ≤ queues_weight qs + w msg)
  send_via-QueuesFit none msg qs f h = (h, omega arith)
  send_via-QueuesFit (some at_atm) msg qs f h = (
    record { atm = All-append Fits qs.atm _ h.atm (f, tt); bank = h.bank; interface = h.interface },
    omega (arith, weight-append w qs.atm (msg ∷ [])),
  )
  send_via-QueuesFit (some at_bank) msg qs f h = (
    record {
      atm = h.atm;
      bank = All-append Fits qs.bank _ h.bank (f, tt);
      interface = h.interface;
    },
    omega (arith, weight-append w qs.bank (msg ∷ [])),
  )
  send_via-QueuesFit (some at_interface) msg qs f h = (
    record {
      atm = h.atm;
      bank = h.bank;
      interface = All-append Fits qs.interface _ h.interface (f, tt);
    },
    omega (arith, weight-append w qs.interface (msg ∷ [])),
  )

  pub send-QueuesFit :
      (to : Sender) (msg : Message) (qs : Queues)
      → Fits msg
      → QueuesFit qs
      → QueuesFit (send to msg qs) × (queues_weight (send to msg qs) ≤ queues_weight qs + w msg)
  send-QueuesFit to = send_via-QueuesFit to.q

  -- A message taken from a queue fits, and its weight leaves the queues.
  abbrev Taken : QueueId → Queues → Option (Message × Queue) → Type 0
  Taken i qs none = Unit
  Taken i qs (some (msg, rest)) =
      Fits msg
      × QueuesFit (set_queue_at i rest qs)
      × (w msg + queues_weight (set_queue_at i rest qs) ≤ queues_weight qs)

  take-QueuesFit :
      (i : QueueId) (qs : Queues) (q : Queue)
      → All Fits q
      → ((rest : Queue) → All Fits rest → QueuesFit (set_queue_at i rest qs))
      → ((rest : Queue)
          → queues_weight (set_queue_at i rest qs) + weight w q ≡ queues_weight qs + weight w rest)
      → Taken i qs (wait_and_pop q)
  take-QueuesFit i qs [] h f e = tt
  take-QueuesFit i qs (msg ∷ rest) h f e = (h.0, f rest h.1, omega (arith, e rest))

  receive-QueuesFit :
      (i : QueueId) (qs : Queues) → QueuesFit qs → Taken i qs (wait_and_pop (queue_at i qs))
  receive-QueuesFit at_atm qs h =
      take-QueuesFit at_atm qs qs.atm h.atm
        (λ rest f. record { atm = f; bank = h.bank; interface = h.interface }) (λ rest. omega arith)
  receive-QueuesFit at_bank qs h =
      take-QueuesFit at_bank qs qs.bank h.bank
        (λ rest f. record { atm = h.atm; bank = f; interface = h.interface }) (λ rest. omega arith)
  receive-QueuesFit at_interface qs h =
      take-QueuesFit at_interface qs qs.interface h.interface
        (λ rest f. record { atm = h.atm; bank = h.bank; interface = f }) (λ rest. omega arith)

  module _ {S : Type 0} (Inv : Phase → S → Type 0) (value : S → ℕ) (code : Code S) where
    abbrev pub EntryKept : S → S × Phase × List Outgoing → Type 0
    EntryKept s (s', p, out) = Inv p s' × All FitsOut out × (value s' + out_weight out ≤ value s)

    abbrev pub DispatchKept : S → Message → Dispatched S → Type 0
    DispatchKept s msg (handled s' out) =
        Inv calling s' × All FitsOut out × (value s' + out_weight out ≤ value s + w msg)
    DispatchKept s msg not_handled = Unit
    DispatchKept s msg closed = Unit

    -- What the code of a machine has to satisfy.
    pub record Keeps : Type 0 where
      pub entry : (s : S) → Inv calling s → EntryKept s (code.entry s)
      pub dispatched :
          (s : S) (msg : Message)
          → Inv waiting s
          → Fits msg
          → DispatchKept s msg (dispatch (code.dispatcher_for s) msg s)
      pub stops : (s : S) → Inv waiting s → Inv stopped s

    pub record ThreadFits (t : Thread S) : Type 0 where
      pub object : Inv t.phase t.object
      pub pending : All FitsOut t.pending

    abbrev pub thread_value : Thread S → ℕ
    thread_value t = value t.object + out_weight t.pending

    abbrev pub StepKept : Thread S → Queues → Option (Thread S × Queues) → Type 0
    StepKept t qs none = Unit
    StepKept t qs (some (t', qs')) =
        ThreadFits t'
        × QueuesFit qs'
        × (thread_value t' + queues_weight qs' ≤ thread_value t + queues_weight qs)

    module _ (keeps : Keeps) (t : Thread S) (f : ThreadFits t) where
      dispatched-ThreadFits :
          (msg : Message) (d : Dispatched S)
          → Inv waiting t.object
          → DispatchKept t.object msg d
          → ThreadFits (after_dispatch t d)
            × (thread_value (after_dispatch t d) ≤ thread_value t + w msg)
      dispatched-ThreadFits msg (handled s out) now (inv, fits, le) =
          (record { object = inv; pending = fits }, omega arith)
      dispatched-ThreadFits msg not_handled now k = (f, omega arith)
      dispatched-ThreadFits msg closed now k =
          (record { object = keeps.stops t.object now; pending = f.pending }, omega arith)

      receive-kept :
          (qs : Queues) (m : Option (Message × Queue))
          → Inv waiting t.object
          → Taken code.receiver qs m
          → StepKept t qs (receive code t qs m)
      receive-kept qs none now k = tt
      receive-kept qs (some (msg, rest)) now (fits, left, le) =
          let (tf, less) =
            dispatched-ThreadFits msg _ now (keeps.dispatched t.object msg now fits) in
          (tf, left, omega arith)

      entry-kept :
          (qs : Queues) (r : S × Phase × List Outgoing)
          → QueuesFit qs
          → EntryKept t.object r
          → StepKept t qs (some (enter r, qs))
      entry-kept qs (s, p, out) q (inv, fits, le) =
          (record { object = inv; pending = fits }, q, omega arith)

      advance-kept :
          (p : Phase) (qs : Queues)
          → Inv p t.object
          → QueuesFit qs
          → StepKept t qs (advance code t p qs)
      advance-kept calling qs now q = entry-kept qs _ q (keeps.entry t.object now)
      advance-kept waiting qs now q = receive-kept qs _ now (receive-QueuesFit code.receiver qs q)
      advance-kept stopped qs now q = tt

      flush-kept :
          (out : List Outgoing) (qs : Queues)
          → t.pending ≡ out
          → All FitsOut out
          → QueuesFit qs
          → StepKept t qs (flush code t out qs)
      flush-kept [] qs e fits q = advance-kept t.phase qs f.object q
      flush-kept ((to, msg) ∷ rest) qs e fits q =
          let (q', le) = send-QueuesFit to msg qs fits.0 q in
          (record { object = f.object; pending = fits.1 }, q', rw e (omega arith))

      pub thread_step-kept : (qs : Queues) → QueuesFit qs → StepKept t qs (thread_step code t qs)
      unfolding thread_step
      thread_step-kept qs q = flush-kept t.pending qs refl f.pending q
