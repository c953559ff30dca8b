-- ===== src/Messaging/Examples.antt =====
-- A chain of two handlers on a counter.
use concurrency_in_action.Common.{ℕ, ◌+◌, ◌≡◌, refl, none, some, List, [], ◌∷◌}
use concurrency_in_action.Messaging.Message.{Message}
use concurrency_in_action.Messaging.Queue.{Queue}
use concurrency_in_action.Messaging.Dispatcher.{
  Handler, returned, threw, dispatch, wait_and_dispatch, handle_all, destroy,
}
use concurrency_in_action.Messaging.Dispatcher.Chain.{destroy-handle_all}
use concurrency_in_action.Messaging.Dispatcher.Loop.{Explains, wait_and_dispatch_explained}

abbrev on_ok : Handler ℕ
on_ok Message.withdraw_ok = some λ n. (n + 1, [])
on_ok _ = none

abbrev on_denied : Handler ℕ
on_denied Message.withdraw_denied = some λ n. (n + 10, [])
on_denied _ = none

abbrev chain : List (Handler ℕ)
chain = on_ok ∷ on_denied ∷ []

abbrev queue : Queue
queue = Message.eject_card ∷ Message.withdraw_ok ∷ Message.close_queue ∷ []

first_wait : wait_and_dispatch (handle_all chain) 5 queue ≡ returned 6 [] (Message.close_queue ∷ [])
unfolding wait_and_dispatch dispatch
first_wait = refl

second_wait :
    wait_and_dispatch (handle_all chain) 6 (Message.close_queue ∷ Message.withdraw_ok ∷ [])
    ≡ threw 6 [] (Message.withdraw_ok ∷ [])
unfolding wait_and_dispatch dispatch
second_wait = refl

destroy-handle_all_example :
    destroy (handle_all chain) 5 queue ≡ wait_and_dispatch (handle_all chain) 5 queue
destroy-handle_all_example = destroy-handle_all chain 5 queue

wait_and_dispatch_explained_example :
    Explains (handle_all chain) 5 queue (wait_and_dispatch (handle_all chain) 5 queue)
wait_and_dispatch_explained_example = wait_and_dispatch_explained (handle_all chain) 5 queue
