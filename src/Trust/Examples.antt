-- ===== src/Trust/Examples.antt =====
-- A state with a retired key, the bundle after it, and the theorems at them.
pub mod Data
mod Witnesses
mod Verification
