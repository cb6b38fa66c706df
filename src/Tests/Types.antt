-- ===== src/Tests/Types.antt =====
-- tooling/miniutil/src/build and tooling/minimize/src/chunks.rs: concrete types, tables and unions.
use mts_minirust_work.Prelude.{
  ℕ, ltb, ◌*◌, ◌≡◌, refl, ◌||◌, true, false, [], ◌∷◌, ◌++◌, none, some, get_elem?, arith, nat_eq,
  if◌then◌else◌, eqb,
}
use mts_minirust_work.Prelude.Maps.{get}
use mts_minirust_work.Prelude.Outcome.{ok, Post, AnyPanic, missing_name}
use mts_minirust_work.Lang.Types.{unsigned, LayoutStrategy, Ty, Fields, no_fields, field, no_ty}
use mts_minirust_work.Lang.Layout.{layout, meta_kind}
use mts_minirust_work.Lang.Syntax.{FnName, Function, CallingConvention}
use mts_minirust_work.Lang.WellFormed.{check_cells, check_cell_strategy}
use mts_minirust_work.Build.Ty.{RustTy, from_frozen_layout}
use mts_minirust_work.Build.Ty.Layouts.{
  HasMeta, LaysOut, from_frozen_layout-check_cell_strategy, meta_kind-layout, get_type-LaysOut,
}
use mts_minirust_work.Build.Function.{by_position}
use mts_minirust_work.Build.Function.{Ret, function}
use mts_minirust_work.Build.Function.Args.{function-check_live}
use mts_minirust_work.Lang.WellFormed.{check_live}
use mts_minirust_work.Minimize.Cells.{RsTy, part, no_parts, cells_in_sized_ty}
use mts_minirust_work.Minimize.Cells.Exact.{
  inside, Exactly, IsUnsupported, cells_in_sized_ty_lem, cells_in_sized_ty-array,
}
use mts_minirust_work.Build.Function.Positions.{get-by_position}
use mts_minirust_work.Build.Program.{
  ProgramBuilder, VTableBuilder, TraitBuilder, add_vtable, add_trait, finish_program, finish_vtable,
}
use mts_minirust_work.Build.Program.Tables.{
  VTablesOk, with_c, add_vtable-VTablesOk, add_trait-VTablesOk, finish_program_lem,
}
use mts_minirust_work.Minimize.Chunks.{scan, calc_chunks, mark_used_bytes}
use mts_minirust_work.Minimize.Chunks.Marks.{Marks, mark_used_bytes-Marks}
use mts_minirust_work.Minimize.Chunks.Wide.{calc_chunks-wide, narrow_fields, metadata_fields}
use mts_minirust_work.Minimize.Chunks.Uses.{uses, uses_fields}
use mts_minirust_work.Minimize.Chunks.Returns.{fits_fields}
use mts_minirust_work.Minimize.Chunks.Fits.{calc_chunks-fits}
use mts_minirust_work.Lang.Types.{Cells, PtrType, PointerMetaKind}
use mts_minirust_work.Minimize.Chunks.Scan.{marker_at, covers, with_start, covers-scan}

-- `(u8, u16)` in Rust's layout: a byte of padding between the fields
abbrev padded : Ty
padded =
    Ty.tuple
      (field 0 (Ty.int (record { signed = unsigned; size = 1 }))
        (field 2 (Ty.int (record { signed = unsigned; size = 2 })) no_fields))
      (record { end = 4; align = 2; packed_align = none }) no_ty

-- a union of it and a byte that lies in the padding of its end
abbrev union_fields : Fields
union_fields = field 0 padded (field 5 Ty.bool no_fields)

calc_chunks_test : calc_chunks union_fields 8 ≡ ok ((0, 1) ∷ (2, 2) ∷ (5, 1) ∷ [])
unfolding calc_chunks mark_used_bytes
calc_chunks_test = refl

union_fields-fit : fits_fields union_fields 8 ≡ true
unfolding layout
union_fields-fit = refl

abbrev wide : PtrType
wide = PtrType.raw PointerMetaKind.element_count

calc_chunks-fits_example :
    (cs : Cells) × (calc_chunks union_fields 8 ≡ ok cs)
    × ((j : ℕ) → covers cs j ≡ uses_fields union_fields j)
    × (check_cells 0 cs 8 ≡ true)
calc_chunks-fits_example = calc_chunks-fits union_fields 8 union_fields-fit refl

-- a union of a reference to a slice and a byte at the end of its metadata
abbrev wide_fields : Fields
wide_fields = field 0 (Ty.ptr wide) (field 15 Ty.bool no_fields)

-- Of the metadata, only the byte that is another field as well is in a chunk.
wide_chunks : calc_chunks wide_fields 16 ≡ ok ((0, 8) ∷ (15, 1) ∷ [])
unfolding calc_chunks mark_used_bytes
wide_chunks = refl

wide_fields-fit : fits_fields wide_fields 16 ≡ true
unfolding layout
wide_fields-fit = refl

calc_chunks-wide_example :
    (cs : Cells) × (calc_chunks wide_fields 16 ≡ ok cs)
    × ((j : ℕ) → covers cs j ≡ narrow_fields wide_fields j)
    × ((j : ℕ) → uses_fields wide_fields j ≡ (covers cs j || metadata_fields wide_fields j))
    × (check_cells 0 cs 16 ≡ true)
calc_chunks-wide_example = calc_chunks-wide wide_fields 16 wide_fields-fit refl

mark_used_bytes-Marks_example : Marks (mark_used_bytes padded) (uses padded)
mark_used_bytes-Marks_example = mark_used_bytes-Marks padded refl

covers-scan_example :
    covers (scan 0 none ((true ∷ false ∷ true ∷ []) ++ false ∷ [])) 2
    ≡ (with_start none 0 2 || marker_at 0 (true ∷ false ∷ true ∷ []) 2)
covers-scan_example = covers-scan (true ∷ false ∷ true ∷ []) 0 none 2 tt

abbrev slice_ref : RustTy
slice_ref = RustTy.shared_ref (RustTy.slice (RustTy.array RustTy.u16 3))

get_type-LaysOut_example : LaysOut slice_ref
get_type-LaysOut_example = get_type-LaysOut slice_ref refl

meta_kind-layout_example :
    Post (HasMeta (meta_kind (Ty.slice padded))) AnyPanic (layout (Ty.slice padded))
meta_kind-layout_example = meta_kind-layout (Ty.slice padded)

from_frozen_layout-check_cell_strategy_example :
    check_cell_strategy (from_frozen_layout (LayoutStrategy.slice 4 2)) (LayoutStrategy.slice 4 2)
    ≡ true
from_frozen_layout-check_cell_strategy_example =
    from_frozen_layout-check_cell_strategy (LayoutStrategy.slice 4 2)

get-by_position_example :
    get 1 (by_position (Ty.bool ∷ padded ∷ [])) ≡ get_elem? (Ty.bool ∷ padded ∷ []) 1
get-by_position_example = get-by_position (Ty.bool ∷ padded ∷ []) 1 (omega arith)

function-check_live_example :
    (f : Function) × (function Ret.no 1 (Ty.bool ∷ padded ∷ []) [] ≡ ok f) × (check_live f ≡ true)
function-check_live_example =
    function-check_live Ret.no 1 (Ty.bool ∷ padded ∷ []) [] (omega arith) (omega arith)

-- a pair of two cells of 4 bytes and a scalar array
abbrev celled : RsTy
celled =
    RsTy.parts
      (part 8 (RsTy.array (RsTy.unsafe_cell 4) 4 2) (part 0 (RsTy.array RsTy.scalar 2 3) no_parts))

cells_in_sized_ty_lem_example :
    Post (Exactly (inside celled)) IsUnsupported (cells_in_sized_ty celled)
cells_in_sized_ty_lem_example = cells_in_sized_ty_lem celled refl

cells_in_sized_ty-array_example :
    (cs : Cells) × (cells_in_sized_ty (RsTy.array (RsTy.unsafe_cell 4) 4 3) ≡ ok cs)
    × ((j : ℕ) → covers cs j ≡ ltb j (2 * 4))
cells_in_sized_ty-array_example = cells_in_sized_ty-array 4 3

-- a function that does nothing, a trait with two methods, and a vtable for it
abbrev plain : Function
plain = record {
  locals = (0, Ty.bool) ∷ [];
  args = [];
  ret = 0;
  calling_convention = CallingConvention.rust;
  blocks = [];
  start = 0;
}

abbrev tables : ProgramBuilder
tables = record {
  functions = (0, plain) ∷ (1, plain) ∷ [];
  globals = [];
  vtables = [];
  traits = (0, 1 ∷ 0 ∷ []) ∷ [];
  next_fn = 2;
  next_global = 0;
  next_vtable = 1;
  next_trait = 1;
}

tables-VTablesOk : VTablesOk tables.vtables tables.traits
unfolding get
tables-VTablesOk n v h = absurd cc

abbrev two_methods : VTableBuilder
two_methods = record {
  trait_name = 0;
  name = 0;
  size = 4;
  align = 2;
  cells = [];
  methods = (0, 1) ∷ (1, 0) ∷ [];
}

add_vtable-VTablesOk_example :
    Post
      (λ r.
        VTablesOk r.1.vtables r.1.traits × (get r.0 r.1.vtables ≡ some (finish_vtable two_methods)))
      AnyPanic
      (add_vtable two_methods tables)
add_vtable-VTablesOk_example = add_vtable-VTablesOk two_methods tables tables-VTablesOk

abbrev new_trait : TraitBuilder
new_trait = record { name = 1; next_method = 1; method_names = 0 ∷ [] }

add_trait-VTablesOk_example :
    Post
      (λ r. VTablesOk r.1.vtables r.1.traits × (get r.0 r.1.traits ≡ some new_trait.method_names))
      AnyPanic
      (add_trait new_trait tables)
add_trait-VTablesOk_example = add_trait-VTablesOk new_trait tables tables-VTablesOk

finish_program_lem_example :
    Post
      (λ r.
        (f : Function) × (get 1 tables.functions ≡ some f)
        × (r.0.start ≡ 1)
        × ((j : FnName)
            → get j r.0.functions ≡ (if eqb 1 j then some (with_c f) else get j tables.functions))
        × (VTablesOk tables.vtables tables.traits → VTablesOk r.0.vtables r.0.traits))
      (λ e. (e ≡ missing_name) × (get 1 tables.functions ≡ none))
      (finish_program 1 tables)
finish_program_lem_example = finish_program_lem 1 tables
