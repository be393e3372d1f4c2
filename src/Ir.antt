-- ===== src/Ir.antt =====
-- lib/cretonne/src/ir: the intermediate representation.
pub mod CondCodes
pub mod Layout
pub mod MemFlags
pub mod ProgPoint
pub mod StackSlot
pub mod Types
pub mod ValueLoc
