-- ===== src/Lib.antt =====
-- MiniRust is a specification of Rust's core as an interpreter (spec/, in the language of specr),
-- with tools around it (tooling/): miniutil builds programs for the interpreter and runs and
-- prints them, minimize translates Rust's MIR to such programs, minitest tests the interpreter.
--
-- This library models the builder and the printer of programs and parts of minimize:
-- Lang: spec/lang/types.md, spec/lang/syntax.md, spec/mem/pointer.md (Lang/Types, Lang/Layout,
--   Lang/Syntax) and the rules of spec/lang/well-formed.md on the shape of functions
--   (Lang/WellFormed). This is what the builder builds, and what it is checked against.
-- Build/Ty, Build/Expr, Build/Operators, Build/Statements, Build/Terminators: the free functions
--   of tooling/miniutil/src/build, under their names.
-- Build/State: `FunctionBuilder` of tooling/miniutil/src/build/mod.rs as a record, with its
--   methods; Build/Methods (Blocks, Calls, Intrinsics, Control): the methods of statement.rs and
--   terminator.rs. A method is a function from the builder to its result and the new builder, or
--   to a panic; a closure is a method.
-- Build/Function, Build/Program, Build/Globals: function.rs, `ProgramBuilder`, `VTableBuilder`
--   and `TraitBuilder` of mod.rs, and global.rs. `ProgramBuilder::finish_function`,
--   `finish_vtable` and `finish_trait` are `add_function`, `add_vtable` and `add_trait`. Their
--   children are about layouts (Build/Ty/Layouts), what `function` makes of slices
--   (Build/Function/Positions and Args), and the tables and functions of a program
--   (Build/Program/Tables and Functions).
-- Build/Shape: the specification of the builder. A graph gives each declared block the kind that
--   it is meant to have; a pending block is declared, not finished and not current. The invariant
--   `Inv` says that stored blocks have their kind and lead to blocks of the kinds that the rules
--   ask for. Moves has the steps on blocks, Rules, Calls, Switches, Alive, Locals, Intrinsics
--   and Steps the rules of the methods, and Finish the function that comes out.
-- Fmt: tooling/miniutil/src/fmt. Fmt/Text has what it uses of strings: a text is a list of code
--   points. Fmt/State: the list of composite types that is passed on while printing; Emits says
--   how it grows, Lists what is in it. Fmt/Ty is ty.rs, Fmt/Expr is expr.rs, Fmt/Statement and
--   Fmt/Function are function.rs, Fmt/Program is the rest. The children count parentheses
--   (Text/Parens, Printed, Balance), read constants back (Text/Decimal, Expr/Constants), bound the
--   types that the loop of `fmt_comptypes` can find (Ty/Nested, Ty/Definitions), and show that the
--   order of maps is not seen (Text/Sorted, Program/Order).
-- Minimize/Chunks: tooling/minimize/src/chunks.rs; Uses defines the bytes that are not padding,
--   Scan is about the loop over the markers, Marks about which bytes are marked, Returns and Fits
--   about types for which nothing panics, Wide about pointers with metadata.
-- Minimize/Mir: rustc's MIR, as far as minimize reads it, which is not in the repository. The
--   answers that the code gets from rustc stand in it. Minimize/Place, Minimize/Cast and
--   Minimize/Rvalue are rvalue.rs; Minimize/Context is `FnCtxt` of function.rs, with the state
--   passed on; Minimize/Unwind, Minimize/Intrinsics, Minimize/Call and Minimize/Body are bb.rs,
--   and Minimize/Function is the rest of function.rs.
--   Their children called Flow follow the kinds of the blocks through the translation, with the
--   graphs of Build/Shape; Body/Cleanup is about assertions in blocks that clean up.
-- Minimize/Bits: `int_from_bits` of enums.rs; rustc's operations on sizes are its arguments. Range
--   has what rustc documents of them, and two's complement.
-- Minimize/Cells: `cells_in_sized_ty` of tooling/minimize/src/ty.rs, on a data type of what rustc
--   says of a type; Exact defines the bytes that it is to give.
-- Prelude: lists, integers, association maps, and panics as values. Tests: concrete builders,
--   types, bodies and printed programs.
--
-- Conventions: `Map` and `Set` of specr are association lists and lists; `Int` is ℤ; sizes,
-- offsets and alignments are numbers of bytes; a name is its number. A counter of the builder is a
-- `u32` whose overflow at 2^32 panics, as in the profile of `cargo run` and `cargo test`. `Type` is
-- `Ty`; the types with `TypeConv` are the data type `RustTy`. The target is x86_64. All loops are
-- over lists, numbers or the structure of a type, but for two: the digits of a number, where the
-- number itself is enough fuel, and the loop of `fmt_comptypes` over a list that grows meanwhile,
-- where the number of composite types within those listed at the start is enough.
--
-- Not modelled: the interpreter and the memory models (they are the specification), typing of
-- expressions, run.rs and mock_write.rs of tooling/miniutil, the parts of tooling/minimize
-- that mostly ask rustc (constant.rs, program.rs, vtable.rs, most of ty.rs and enums.rs), its
-- command line, and the tests.
pub mod Prelude
pub mod Lang
pub mod Build
pub mod Fmt
pub mod Minimize
pub mod Tests
