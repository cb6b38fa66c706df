-- ===== src/Minimize/Cells.antt =====
-- tooling/minimize/src/ty.rs: the bytes of a sized type that are in an `UnsafeCell`. What rustc
-- says of a type (offsets and sizes, whether it is `Freeze`) is part of the type here.
pub mod Exact
use mts_minirust_work.Prelude.{ℕ, suc, ◌+◌, ◌*◌, Bool, true, false, List, [], ◌∷◌, ◌++◌}
use mts_minirust_work.Prelude.Outcome.{Outcome, ok, panic, ◌>>=◌, unsupported}
use mts_minirust_work.Lang.Types.{Size, Offset, Cells}

mutual
  pub data RsTy : Type 0 where
    -- Booleans, integers, pointers, references, boxes, functions, `!`
    scalar : RsTy
    -- tuples, structs and closures
    parts : RsFields → RsTy
    unsafe_cell : Size → RsTy
    -- unions and enums: whether they are `Freeze`, and their size
    variants : Bool → Size → RsTy
    -- the element, its size, the count
    array : RsTy → Size → ℕ → RsTy
    other : RsTy

  pub data RsFields : Type 0 where
    no_parts : RsFields
    part : Offset → RsTy → RsFields → RsFields

-- `map(|(start, len)| (start + offset, len))`
unfoldable pub move_cells : Offset → Cells → Cells
move_cells offset [] = []
move_cells offset ((start, len) ∷ cs) = (start + offset, len) ∷ move_cells offset cs

-- `ranges.iter().enumerate().flat_map(...)`, from index `i` on
unfoldable pub place_cells : ℕ → List ℕ → Size → Cells → Cells
unfolding move_cells
place_cells i [] size range = []
place_cells i (_ ∷ ranges) size range =
    move_cells (size * i) range ++ place_cells (suc i) ranges size range

-- the cells of an array, from those of its element: `ranges` is `vec![0, count]`
unfoldable pub array_cells : Cells → Size → ℕ → Cells
unfolding place_cells
array_cells [] size count = []
array_cells (c ∷ range) size count = place_cells 0 (0 ∷ count ∷ []) size (c ∷ range)

unfoldable mutual
  unfolding move_cells array_cells

  pub cells_in_sized_ty : RsTy → Outcome Cells
  cells_in_sized_ty RsTy.scalar = ok []
  cells_in_sized_ty (RsTy.parts fs) = cells_in_parts fs
  cells_in_sized_ty (RsTy.unsafe_cell size) = ok ((0, size) ∷ [])
  cells_in_sized_ty (RsTy.variants true size) = ok []
  cells_in_sized_ty (RsTy.variants false size) = ok ((0, size) ∷ [])
  cells_in_sized_ty (RsTy.array elem size count) = do
    range ← cells_in_sized_ty elem
    ok (array_cells range size count)
  cells_in_sized_ty RsTy.other = panic unsupported

  pub cells_in_parts : RsFields → Outcome Cells
  cells_in_parts no_parts = ok []
  cells_in_parts (part offset ty fs) = do
    cells ← cells_in_sized_ty ty
    rest ← cells_in_parts fs
    ok (move_cells offset cells ++ rest)
