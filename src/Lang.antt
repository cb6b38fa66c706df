-- ===== src/Lang.antt =====
-- The language: its types (spec/lang/types.md, spec/mem/pointer.md), its abstract syntax
-- (spec/lang/syntax.md), and the rules of well-formedness (spec/lang/well-formed.md).
pub mod Types
pub mod Layout
pub mod Syntax
pub mod WellFormed
