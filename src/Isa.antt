-- ===== src/Isa.antt =====
-- lib/cretonne/src/isa: what the register allocator knows of a target.
pub mod Registers
