-- ===== src/Gravity.antt =====
-- src/pyrxd/gravity: the atomic-swap state machine, its timelock gates and the watchtower.
pub mod Machine
pub mod Timelock
pub mod CrossClock
pub mod Finality
pub mod Margin
pub mod Terms
pub mod Record
pub mod Coordinator
pub mod Watch
pub mod Fees
mod Tests
