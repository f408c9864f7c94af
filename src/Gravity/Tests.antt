-- ===== src/Gravity/Tests.antt =====
-- Runs of the gravity modules, and their theorems at concrete inputs.
mod Swaps
mod Clocks
mod Gates
mod Towers
mod Coordinators
mod Setups
mod Fees
mod Alerts
mod Ticks
mod Records
