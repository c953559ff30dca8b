-- ===== src/Messaging.antt =====
-- chapter04/atm_system_example: messages, queues, senders and dispatchers.
pub mod Message
pub mod Queue
pub mod Dispatcher
mod Examples
