-- ===== src/Lib.antt =====
-- Cretonne, a code generator: a model of the core data structures of lib/cretonne/src.
--
-- The parts. A function's code is a `Layout` (ir/layout.rs) of extended basic blocks (EBBs) and
-- instructions, whose nodes are in tables with a default, `EntityMap` (entity/map.rs), and whose
-- positions are compared through program points (ir/progpoint.rs). The lists of values and EBBs
-- that instructions refer to are `EntityList`s in a `ListPool` (entity/list.rs). The register
-- allocator finds out where a value is by its `RegDiversions` (regalloc/diversion.rs), keeps its
-- sets of live values in `SparseMap` tables (entity/sparse.rs), knows where values are live by
-- their `LiveRange`s (regalloc/liverange.rs), and counts free registers with `Pressure`
-- (regalloc/pressure.rs). The values that it spills, and the arguments on the stack, are in the
-- slots of a `StackSlots` (ir/stackslot.rs), which `layout_stack` (stack_layout.rs) places in the
-- frame. Passes keep sets of entities in `EntitySet` (entity/set.rs), undo what they know of a
-- region with `ScopedHashMap` (scoped_hash_map.rs), look names up in constant hash tables
-- (constant_hash.rs) and sort by a test with `partition_slice` (partition_slice.rs). Links and
-- other optional references are `PackedOption` (packed_option.rs).
--
-- The files.
--   Prelude and its children: shared names, lists, splices and swaps of lists, code that panics,
--     keyword texts, `&` and `|` of binary digits (Bits, Digits), `i32` arithmetic (Int32).
--   Entity/Map, Entity/Sparse: `EntityMap`, and `SparseMap` with its invariant (Valid), the laws
--     of single operations (Laws) and of sequences of them (Refines).
--   Entity/Set: `EntitySet` against membership.
--   Entity/ListPool, Entity/EntityList: `ListPool` and the operations of `EntityList`. SizeClass
--     has the size classes, Blocks says when the memory of a pool is sound: every word belongs to
--     one block at most, of a list or on a free list. Alloc, Fresh, Store, InPlace, Realloc and
--     Relocate treat the changes of blocks, and Push (with Append), Insert, Remove, SwapRemove,
--     Clear and Read the operations of lists.
--   Ir/Layout: the records; Seq has the sequence numbers (`midpoint`, `assign_ebb_seq`,
--     `assign_inst_seq`, the renumberings), Ops the insertions and removals, Split `split_ebb`,
--     Points the program order, Iterators `Ebbs` and `Insts`. Links says when link functions hold
--     a list, Shape leaves the sequence numbers out, Valid and ValidInst say when a layout stands
--     for a list of EBBs and a list of instructions for each, Ebbs and Insts treat the changes of
--     links, Renumber and Assign the fuel of the numbering, Numbered and Numbering the numbers that
--     `full_renumber` gives, and Refines and Ranges relate the operations to
--     the lists.
--   Ir/ProgPoint, Ir/Types, Ir/MemFlags, Ir/StackSlot, Ir/CondCodes, Ir/ValueLoc: the files of ir
--     with these names.
--   Ir/StackSlot/Alignment: the alignment of a slot. Ir/StackSlot/Frame: `StackSlots`; Emergency
--     treats `get_emergency_slot`.
--   StackLayout: stack_layout.rs, a loop or a part of one to a function. Depth treats offsets by
--     their distance below the frame's top, Placed says when slots have their places, Slot and
--     Scanned treat the first loop, Rounds the second, Outcome says when a frame is laid out, and
--     Safe treats the whole.
--   ScopedHashMap: scoped_hash_map.rs; Fill has the invariant and the insertions, Scopes what a
--     scope leaves behind.
--   ConstantHash: constant_hash.rs; Triangle has the distances of quadratic probing, Laws
--     treats `probe`.
--   PartitionSlice: partition_slice.rs; Counts has the swaps.
--   Result: result.rs, with the verifier's error.
--   PackedOption: packed_option.rs.
--   Isa/Registers: register classes and operand constraints, from isa/registers.rs and
--     isa/constraints.rs.
--   RegAlloc/LiveRange: regalloc/liverange.rs, over any program order. Intervals says what the
--     live-in intervals cover, Goto treats the search, Coalesce and Extend the changes, Reach
--     `extend_in_ebb` on the live-in intervals, Query `is_livein` and the whole of
--     `extend_in_ebb`, and Uses `reaches_use`. The promises of a program order are asked of
--     the EBBs and instructions that are laid out only; LayoutOrder treats the order of a layout
--     which `full_renumber` has numbered.
--   RegAlloc/RegisterSet: regalloc/register_set.rs; Units relates it to the units that are
--     available.
--   RegAlloc/Pressure: regalloc/pressure.rs; Counts and Within treat the counts, Aliased and
--     Blocked the classes with aliases.
--   RegAlloc/Diversion, RegAlloc/Affinity: the files of regalloc with these names.
-- A function of the source has its name here, but `list_len` (`EntityList::len`) and `clear_pool`
-- (`ListPool::clear`), and a type its name in upper camel case; `Type` is `ValueType`, the field
-- `len` of `EntitySet` is `set_len` and the method `len` of a hash table the field `entries`, and
-- `divert` and the longer layout operations are split into steps.
--
-- Conventions. Entity references (Ebb, Inst, Value, StackSlot) are their indexes, native
-- natural numbers. A `PackedOption` in a node is an `Option`; PackedOption shows that this
-- loses nothing. A `debug_assert!` of the code leaves no trace in a definition, but in
-- StackLayout, ConstantHash and `alignment` one that fails is `none`. It is a hypothesis of the
-- theorem for the links of `append_inst`, for `midpoint` in `insert_ebb` (`HasRoom`), for
-- `RegisterSet::take` and `free`, for the conversions to a program point, and, as a bound on
-- the calls, for insertions into a `SparseMap`. In `insert_ebb_after` and `insert_inst` the
-- assertion of `midpoint` is no hypothesis: there the model is the code with assertions off. An
-- `unwrap` or `expect` that fails, or an index out of range in a list pool, is `none`. Machine
-- arithmetic is written out with `% 2 ^ w`, or by Prelude/Int32 for an `i32`. The B-tree map of
-- a live range is the list of its entries by key, and a cursor in it is an index.
--
-- Fuel. The loops of ir/layout.rs follow links, so they take fuel, and `none` is also its end.
-- `Enough` asks for more fuel than there are EBBs and than there are instructions in any EBB; a
-- loop over EBBs hands the whole fuel to each loop over instructions. That is enough since links
-- hold lists without repetition. `probe` has a round for each entry of its
-- table, which its assertion on the step allows. `layout_stack` has 33 rounds: the least alignment
-- doubles in each, up to 2 ^ 30 at most. `decrement_depth` has a round for each entry, since each
-- removes one, and one to end.
--
-- Not modelled: the data flow graph and the passes over it, the liveness analysis and the solver
-- of the register allocator, the dominator tree, the B-tree forest, the text format, the
-- frontends and the targets. Display code is left out, as is what the build generates; the
-- numbers of the scalar types are those that lib/cretonne/meta/base/types.py gives.
pub mod Prelude
pub mod ConstantHash
pub mod Entity
pub mod Ir
pub mod Isa
pub mod PackedOption
pub mod PartitionSlice
pub mod RegAlloc
pub mod Result
pub mod ScopedHashMap
pub mod StackLayout
