-- ===== src/Ir/Layout.antt =====
-- lib/cretonne/src/ir/layout.rs: the order of EBBs in a function and of instructions in an EBB, as
-- doubly linked lists through tables of nodes. A `PackedOption` is an `Option`.
mod Tests
pub mod Links
pub mod Ops
pub mod Seq
pub mod Shape
pub mod Valid
pub mod Ebbs
pub mod ValidInst
pub mod Insts
pub mod Renumber
pub mod Numbered
pub mod Numbering
pub mod Assign
pub mod Refines
pub mod Points
pub mod Split
pub mod Iterators
pub mod Ranges
use cretonne.Prelude.{ℕ, [], Option, none, some}
use cretonne.Entity.Map
use cretonne.Entity.Map.{EntityMap}

pub record EbbNode : Type 0 where
  pub prev : Option ℕ
  pub next : Option ℕ
  pub first_inst : Option ℕ
  pub last_inst : Option ℕ
  pub seq : ℕ

pub record InstNode : Type 0 where
  pub ebb : Option ℕ
  pub prev : Option ℕ
  pub next : Option ℕ
  pub seq : ℕ

pub record Layout : Type 0 where
  pub ebbs : EntityMap EbbNode
  pub insts : EntityMap InstNode
  pub first_ebb : Option ℕ
  pub last_ebb : Option ℕ

unfoldable pub new : Layout
unfolding Map.with_default
new = record {
  ebbs =
      Map.with_default
        (record { prev = none; next = none; first_inst = none; last_inst = none; seq = 0 });
  insts = Map.with_default (record { ebb = none; prev = none; next = none; seq = 0 });
  first_ebb = none;
  last_ebb = none;
}

pub clear : Layout → Layout
clear l = record {
  ebbs = Map.clear l.ebbs;
  insts = Map.clear l.insts;
  first_ebb = none;
  last_ebb = none;
}

-- `self.ebbs[ebb]` and `self.insts[inst]`.
abbrev pub ebb_node : Layout → ℕ → EbbNode
ebb_node l e = Map.index l.ebbs e

abbrev pub inst_node : Layout → ℕ → InstNode
inst_node l i = Map.index l.insts i

-- A change of a node through `&mut self.ebbs[ebb]` or `&mut self.insts[inst]`.
abbrev pub set_ebb : Layout → ℕ → EbbNode → Layout
set_ebb l e n = record l { ebbs = Map.assign l.ebbs e n }

abbrev pub set_inst : Layout → ℕ → InstNode → Layout
set_inst l i n = record l { insts = Map.assign l.insts i n }

pub prev_ebb : Layout → ℕ → Option ℕ
prev_ebb l e = (ebb_node l e).prev

unfoldable pub next_ebb : Layout → ℕ → Option ℕ
next_ebb l e = (ebb_node l e).next

pub inst_ebb : Layout → ℕ → Option ℕ
inst_ebb l i = (inst_node l i).ebb

pub first_inst : Layout → ℕ → Option ℕ
first_inst l e = (ebb_node l e).first_inst

pub last_inst : Layout → ℕ → Option ℕ
last_inst l e = (ebb_node l e).last_inst

pub next_inst : Layout → ℕ → Option ℕ
next_inst l i = (inst_node l i).next

pub prev_inst : Layout → ℕ → Option ℕ
prev_inst l i = (inst_node l i).prev
