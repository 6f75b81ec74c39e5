-- ===== src/Examples.antt =====
-- Instances of the interfaces, and the theorems at concrete inputs.
pub mod Fractions
pub mod Memory
mod Documents
mod Damage
mod Report
mod Cfg
mod Suite
mod Evaluate
mod Main
mod Hom
mod Trace
mod Store
mod Libcheck
