-- ===== src/Build/Program.antt =====
-- tooling/miniutil/src/build/mod.rs: the builder of a program, and those of a vtable and of a
-- trait. A set is a list; what is asked of it does not depend on the order.
pub mod Tables
pub mod Functions
use mts_minirust_work.Prelude.{
  ℕ, ◌+◌, Bool, true, ◌&&◌, List, [], ◌∷◌, Option, none, some, if◌then◌else◌, nat_eq,
}
use mts_minirust_work.Prelude.Maps.{Map, get, insert, try_insert}
use mts_minirust_work.Prelude.Outcome.{
  Outcome, ok, panic, ◌>>=◌, ◌>>◌, guard, missing_name, method_mismatch,
}
use mts_minirust_work.Lang.Types.{Ty, Size, Align, Cells, TraitName}
use mts_minirust_work.Lang.Layout.{layout, expect_size, expect_align, align_from_bytes}
use mts_minirust_work.Lang.Syntax.{
  FnName, GlobalName, VTableName, TraitMethodName, Function, Global, VTable, Program,
  CallingConvention, Statement, BbKind,
}
use mts_minirust_work.Lang.WellFormed.{contains}
use mts_minirust_work.Build.State
use mts_minirust_work.Build.State.{FunctionBuilder, next}
use mts_minirust_work.Build.Function.{Ret, by_position, function, block}
use mts_minirust_work.Build.Terminators

pub record ProgramBuilder : Type 0 where
  pub functions : Map FnName Function
  pub globals : Map GlobalName Global
  pub vtables : Map VTableName VTable
  pub traits : Map TraitName (List TraitMethodName)
  pub next_fn : ℕ
  pub next_global : ℕ
  pub next_vtable : ℕ
  pub next_trait : ℕ

pub record VTableBuilder : Type 0 where
  pub trait_name : TraitName
  pub name : VTableName
  pub size : Size
  pub align : Align
  pub cells : Cells
  pub methods : Map TraitMethodName FnName

pub record TraitBuilder : Type 0 where
  pub name : TraitName
  pub next_method : ℕ
  pub method_names : List TraitMethodName

-- `ProgramBuilder::new`
unfoldable pub new_program : ProgramBuilder
new_program = record {
  functions = [];
  globals = [];
  vtables = [];
  traits = [];
  next_fn = 0;
  next_global = 0;
  next_vtable = 0;
  next_trait = 0;
}

-- The start function gets the C calling convention.
unfoldable pub finish_program : FnName → ProgramBuilder → Outcome (Program × ProgramBuilder)
unfolding get insert
finish_program start pb = elim (get start pb.functions) [
  | none ↦ panic missing_name
  | some f ↦
      let functions =
        insert start (record f { calling_convention = CallingConvention.c }) pb.functions in
      ok (
        record {
          functions = functions;
          start = start;
          globals = pb.globals;
          traits = pb.traits;
          vtables = pb.vtables;
        },
        record pb { functions = functions },
      )
]

unfoldable pub declare_function : ProgramBuilder → Outcome (FunctionBuilder × ProgramBuilder)
unfolding next State.new
declare_function pb = do
  n ← next pb.next_fn
  fb ← State.new pb.next_fn
  ok (fb, record pb { next_fn = n })

-- `ProgramBuilder::finish_function`
unfoldable pub add_function : FunctionBuilder → ProgramBuilder → Outcome (FnName × ProgramBuilder)
unfolding State.finish_function try_insert
add_function fb pb = do
  f ← State.finish_function fb
  functions ← try_insert fb.name f pb.functions
  ok (fb.name, record pb { functions = functions })

-- `VTableBuilder::new`
abbrev pub new_vtable : TraitName → VTableName → Size → Align → Cells → VTableBuilder
new_vtable trait_name name size align cells = record {
  trait_name = trait_name;
  name = name;
  size = size;
  align = align;
  cells = cells;
  methods = [];
}

unfoldable pub declare_vtable :
    TraitName → Size → Align → Cells → ProgramBuilder → Outcome (VTableBuilder × ProgramBuilder)
unfolding next
declare_vtable trait_name size align cells pb = do
  n ← next pb.next_vtable
  ok (new_vtable trait_name pb.next_vtable size align cells, record pb { next_vtable = n })

unfoldable pub declare_vtable_for_frozen_ty :
    TraitName → Ty → ProgramBuilder → Outcome (VTableBuilder × ProgramBuilder)
unfolding declare_vtable layout expect_size expect_align
declare_vtable_for_frozen_ty trait_name ty pb = do
  l ← layout ty
  size ← expect_size l
  align ← expect_align l
  declare_vtable trait_name size align [] pb

unfoldable pub add_method : TraitMethodName → FnName → VTableBuilder → VTableBuilder
unfolding insert
add_method index func v = record v { methods = insert index func v.methods }

unfoldable pub finish_vtable : VTableBuilder → VTable
finish_vtable v = record {
  trait_name = v.trait_name;
  size = v.size;
  align = v.align;
  cells = v.cells;
  methods = v.methods;
}

-- `methods.keys().collect()`
unfoldable pub keys {ℓ} : {A : Type ℓ} → Map ℕ A → List ℕ
keys [] = []
keys ((k, _) ∷ m) = k ∷ keys m

unfoldable pub is_subset : List ℕ → List ℕ → Bool
unfolding contains
is_subset [] ys = true
is_subset (x ∷ xs) ys = contains ys x && is_subset xs ys

-- equality of sets
unfoldable pub set_eq : List ℕ → List ℕ → Bool
unfolding is_subset
set_eq xs ys = is_subset xs ys && is_subset ys xs

-- `ProgramBuilder::finish_vtable`: the vtable has the methods of its trait.
unfoldable pub add_vtable : VTableBuilder → ProgramBuilder → Outcome (VTableName × ProgramBuilder)
unfolding finish_vtable get keys set_eq try_insert
add_vtable v pb = elim (get v.trait_name pb.traits) [
  | none ↦ panic missing_name
  | some names ↦ do
    guard (set_eq names (keys v.methods)) method_mismatch
    vtables ← try_insert v.name (finish_vtable v) pb.vtables
    ok (v.name, record pb { vtables = vtables })
]

unfoldable pub declare_trait : ProgramBuilder → Outcome (TraitBuilder × ProgramBuilder)
unfolding next
declare_trait pb = do
  n ← next pb.next_trait
  ok (
    record { name = pb.next_trait; next_method = 0; method_names = [] },
    record pb { next_trait = n },
  )

unfoldable pub declare_method : TraitBuilder → Outcome (TraitMethodName × TraitBuilder)
unfolding next contains
declare_method t = do
  n ← next t.next_method
  let names =
      if contains t.method_names t.next_method
      then t.method_names
      else t.next_method ∷ t.method_names
  ok (t.next_method, record t { next_method = n; method_names = names })

-- `ProgramBuilder::finish_trait`
unfoldable pub add_trait : TraitBuilder → ProgramBuilder → Outcome (TraitName × ProgramBuilder)
unfolding try_insert
add_trait t pb = do
  traits ← try_insert t.name t.method_names pb.traits
  ok (t.name, record pb { traits = traits })

-- `align(bytes)`, `size(bytes)` and `offset(bytes)` of a number that is not negative
unfoldable pub align : ℕ → Outcome Align
unfolding align_from_bytes
align bytes = align_from_bytes bytes

unfoldable pub program_with_globals : List Function → List Global → Program
unfolding by_position
program_with_globals fns globals = record {
  functions = by_position fns;
  start = 0;
  globals = by_position globals;
  traits = [];
  vtables = [];
}

unfoldable pub program : List Function → Program
unfolding program_with_globals
program fns = program_with_globals fns []

unfoldable pub small_program : List Ty → List Statement → Outcome Program
unfolding block function program Terminators.exit
small_program locals statements = do
  f ← function Ret.no 0 locals (block statements Terminators.exit BbKind.regular ∷ [])
  ok (program (f ∷ []))
