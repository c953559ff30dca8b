-- ===== src/Lib.antt =====
-- Verification of the programs of this repository: data structures and small systems that share
-- data between threads. Paths are from the repository's root.
--
-- The ATM system, chapter04/atm_system_example. Four threads talk by messages.
--   Messaging.Message     atm_messages.h, sender.h: one constructor for each message struct.
--   Messaging.Queue       message_base.h (`queue::push`, `queue::wait_and_pop`), `sender::send`.
--   Messaging.Dispatcher  dispatcher.h, template_dispatcher.h: chains of handlers, `dispatch`,
--                         `wait_and_dispatch`, the `chained` flags and the destructors. Child modules:
--                         Loop (what a wait does), Chain (which object waits).
--   Atm.Machine           atm.cpp: each state function as its part before the wait and its handlers.
--   Atm.Bank, Atm.Screen  bank_machine.cpp, interface_machine.cpp.
--   Atm.Driver            driver.cpp: the keys that the main thread turns into messages.
--   Atm.System            The four threads as schedules: a step is one message taken, one `send`, or
--                         what stands from the last `send` to the next wait. Child module: Keeps, a
--                         rule for invariants of all threads and queues at once.
--   Atm.Invariant         the invariant of the system, with a child module for each machine.
--   Atm.Safety, Atm.Cancelling, Atm.Scenarios  what follows, and runs.
--   Unsigned amounts are numbers below 2 ^ 32 by the invariant; `balance -=` is written modulo 2 ^ 32.
--   A `std::string` is the list of its bytes.
--
-- HierarchicalMutex: chapter03/hierarchical_mutex.h. Mutexes and threads are numbers; `lock` is two
--   steps around the wait for the internal mutex. Invariant (what the hierarchy values mean), Order
--   (when the operations throw), Deadlock.
-- SpinLock: chapter05/spin_lock.h. Exclusion.
-- SwapExamples: `Swap`, `SwapScoped` and `SwapWithUniqueLock` of chapter03/examples_ch03.cpp. Locks (who
--   has which mutex), Order. `std::lock` of a mutex that the thread has, which is undefined, waits for ever.
-- DnsCache: the class of chapter03/examples_ch03.cpp; its map is a function from domains. Locks (who has the
--   shared_mutex), Order.
-- SeqCst: chapter05/example_memory_order_seq_cst.cpp. Assertion.
-- QuickSort: chapter04/quick_sort_examples.cpp. `std::partition` is the record `Partition` of what it
--   promises; the element type and its `<` are parameters. The fuel bounds the depth of the
--   recursion, and is enough when it exceeds the length of the input. Laws, Stable.
-- Sorter: chapter08/paraller_quick_sort.cpp, over ThreadSafeStack, for a thread that starts no helper; a
--   turn of a helper thread by itself. The fuel bounds the depth of the recursion and the rounds of
--   a wait, and is enough when it exceeds the length of the input. Alone.
-- Condition: `std::condition_variable`, as counts of sleeping and woken threads.
-- ThreadSafeQueue: chapter04/thread_safe_queue.h. Fifo, Wakeups.
-- GuiTasks: `guiThread` and `postTaskForGuiThread` of chapter04/examples.cpp. OneTask.
-- ThreadSafeStack: chapter03/thread_safe_stack.h. Lifo.
-- Nodes: the nodes of the queues below, at addresses. Segment (the list between two nodes).
-- SimpleQueue: chapter06_lock_based_data_structures/simple_queue.h, nodes on a heap whose allocator
--   gives out each address once. Fifo.
-- ThreadSafeQueueRevised: thread_safe_queue_revised.h of the same folder, its shared objects in a
--   store. Fifo.
-- ThreadSafeList: thread_safe_list.h of the same folder, for any number of threads. Shape (the nodes
--   form a list), Writes, Invariant (who has locked what), Threads, Accesses, Safety, Progress.
-- LockFreeQueue: chapter07_lock_free_data_structures/lock_free_queue.h, for one thread that pushes and
--   one that pops. The fuel of the destructor is the rounds of its loop. Invariant, Steps, Fifo.
-- LockFreeStack: lock_free_stack.h of the same folder, for any number of threads; a step may fail
--   spuriously where it is a compare_exchange_weak. Count, Accounting and Alone (what threads_in_pop
--   tells), Labels, Chains and Roles (who may use which node), Frames, Rebuild and Writes (what a step
--   leaves alone), Events (the abstract stack), a module for the steps of each function, Safety.
-- RefCountStack: lock_free_stack_ref_count.h of the same folder, for any number of threads. Labels (what
--   the counts of a node mean), Roles, Frames, References (who refers to a node), Events, a module for
--   the steps of each part, Safety; Destructor, Freed and Rest (the destructor behind a run).
--   StackModel: the abstract stack of both.
-- HazardPointer: hazard_pointer.h of the same folder. Owners (the table), Reclaim (the list of what is
--   deleted later).
-- LookupTable: chapter06_lock_based_data_structures/thread_safe_lookup_table.h. The hash function and
--   `==` of the keys are the record `Keys`. Bucket, Laws, Snapshot (`get_map`).
-- JoiningThread: the class of chapter02/examples.cpp, over `std::thread` as its documentation says.
--   Objects and threads are numbers. Places, Accounting.
-- ParallelAccumulate: `parallelAccumulate` of chapter02/examples.cpp. `+` and `T()` are the record
--   `Addition`, their laws hypotheses of the theorems; `unsigned long` arithmetic is modulo 2 ^ 64. Laws.
--
-- Not modelled: `ScopedThread` and `asThread` of chapter02/examples.cpp; `foo` and the double check of
-- chapter03/examples_ch03.cpp; the rest of chapter04/examples.cpp; `pop_using_hazard_pointers` of
-- lock_free_stack.h, which uses a name that is not declared; helper threads
-- of the sorter that run at the same time; and cmake-build-debug, which a build wrote.
pub mod Atm
pub mod Common
pub mod Condition
pub mod DnsCache
pub mod GuiTasks
pub mod HazardPointer
pub mod HierarchicalMutex
pub mod JoiningThread
pub mod LockFreeQueue
pub mod LockFreeStack
pub mod LookupTable
pub mod Messaging
pub mod Nodes
pub mod ParallelAccumulate
pub mod QuickSort
pub mod RefCountStack
pub mod SeqCst
pub mod SimpleQueue
pub mod Sorter
pub mod SpinLock
pub mod StackModel
pub mod SwapExamples
pub mod ThreadSafeList
pub mod ThreadSafeQueue
pub mod ThreadSafeQueueRevised
pub mod ThreadSafeStack
