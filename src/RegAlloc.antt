-- ===== src/RegAlloc.antt =====
-- lib/cretonne/src/regalloc: register allocation.
pub mod Affinity
pub mod Diversion
pub mod LiveRange
pub mod Pressure
pub mod RegisterSet
