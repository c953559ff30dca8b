-- ===== src/Atm.antt =====
-- chapter04/atm_system_example: the three machines, the driver, and the four threads together.
pub mod Bank
pub mod Machine
pub mod Screen
pub mod Driver
pub mod System
pub mod Invariant
pub mod Safety
pub mod Cancelling
mod Scenarios
