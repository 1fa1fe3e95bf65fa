-- ===== src/Core/Examples.antt =====
-- A mandate and quotes for tests, and the theorems at them.
pub mod Data
mod Witnesses
mod Runs
