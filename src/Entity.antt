-- ===== src/Entity.antt =====
-- lib/cretonne/src/entity: containers keyed by entity references. A reference is its index.
pub mod EntityList
pub mod ListPool
pub mod Map
pub mod Sparse
pub mod Set
