-- ===== src/Build/Ty.antt =====
-- tooling/miniutil/src/build/ty.rs and ty_conv.rs: building types.
pub mod Layouts
use mts_minirust_work.Prelude.{ℕ, true, List, [], ◌∷◌, Option, none, if◌then◌else◌, ◌==◌, ◌&&◌}
use mts_minirust_work.Prelude.Int.{ℤ, pos, int_eq}
use mts_minirust_work.Prelude.Outcome.{Outcome, ok, panic, ◌>>=◌, not_an_int}
use mts_minirust_work.Lang.Types.{
  Size, Offset, Align, TraitName, Signedness, signed, unsigned, mutable, immutable, LayoutStrategy,
  UnsafeCellStrategy, PointeeInfo, PointerMetaKind, PtrType, Discriminator, Children, no_children,
  child, Tagger, Ty, Fields, Variants, no_ty, some_ty, no_fields, field, no_variants, variant,
}
use mts_minirust_work.Lang.Layout.{layout, meta_kind, expect_size, expect_align, ptr_size}

unfoldable pub int_ty : Signedness → Size → Ty
int_ty s size = Ty.int (record { signed = s; size = size })

unfoldable pub bool_ty : Ty
bool_ty = Ty.bool

unfoldable pub ref_ty : PointeeInfo → Ty
ref_ty pointee = Ty.ptr (PtrType.ref immutable pointee)

-- No byte of a frozen layout is in an `UnsafeCell`.
unfoldable pub from_frozen_layout : LayoutStrategy → UnsafeCellStrategy
from_frozen_layout (LayoutStrategy.sized _ _) = UnsafeCellStrategy.sized []
from_frozen_layout (LayoutStrategy.slice _ _) = UnsafeCellStrategy.slice []
from_frozen_layout (LayoutStrategy.trait_object _) = UnsafeCellStrategy.trait_object
from_frozen_layout (LayoutStrategy.tuple _ tail) =
    UnsafeCellStrategy.tuple [] (from_frozen_layout tail)

-- the pointee of a type with the default markers: `Unpin`, `Freeze`, inhabited
unfoldable pub default_pointee : LayoutStrategy → PointeeInfo
unfolding from_frozen_layout
default_pointee l = record {
  layout = l;
  inhabited = true;
  unsafe_cells = from_frozen_layout l;
  freeze = true;
  unpin = true;
}

unfoldable pub ref_ty_default_markers_for : Ty → Outcome Ty
unfolding ref_ty default_pointee
ref_ty_default_markers_for ty = do l ← layout ty; ok (ref_ty (default_pointee l))

unfoldable pub ref_mut_ty : PointeeInfo → Ty
ref_mut_ty pointee = Ty.ptr (PtrType.ref mutable pointee)

unfoldable pub ref_mut_ty_default_markers_for : Ty → Outcome Ty
unfolding ref_mut_ty default_pointee
ref_mut_ty_default_markers_for ty = do l ← layout ty; ok (ref_mut_ty (default_pointee l))

unfoldable pub box_ty : PointeeInfo → Ty
box_ty pointee = Ty.ptr (PtrType.box pointee)

unfoldable pub raw_ptr_ty : PointerMetaKind → Ty
raw_ptr_ty kind = Ty.ptr (PtrType.raw kind)

unfoldable pub raw_void_ptr_ty : Ty
unfolding raw_ptr_ty
raw_void_ptr_ty = raw_ptr_ty PointerMetaKind.none

unfoldable pub fields : List (Offset × Ty) → Fields
fields [] = no_fields
fields ((offset, ty) ∷ f) = field offset ty (fields f)

unfoldable pub tuple_ty : List (Offset × Ty) → Size → Align → Ty
unfolding fields
tuple_ty f size align =
    Ty.tuple (fields f) (record { end = size; align = align; packed_align = none }) no_ty

unfoldable pub unsized_tuple_ty : List (Offset × Ty) → Ty → Offset → Align → Option Align → Ty
unfolding fields
unsized_tuple_ty fs unsized_ty end align packed =
    Ty.tuple (fields fs) (record { end = end; align = align; packed_align = packed })
      (some_ty unsized_ty)

unfoldable pub union_ty : List (Offset × Ty) → Size → Align → Ty
unfolding fields
union_ty f size align = Ty.union (fields f) ((0, size) ∷ []) size align

unfoldable pub array_ty : Ty → ℤ → Ty
array_ty elem count = Ty.array elem count

unfoldable pub slice_ty : Ty → Ty
slice_ty elem = Ty.slice elem

unfoldable pub trait_object_ty : TraitName → Ty
trait_object_ty t = Ty.trait_object t

-- `Variant`
abbrev pub Variant : Type 0
Variant = Ty × Tagger

unfoldable pub enum_variant : Ty → Tagger → Variant
enum_variant ty tagger = (ty, tagger)

-- A later variant of the same discriminant replaces the one before.
unfoldable pub insert_variant : ℤ → Variant → Variants → Variants
insert_variant d (ty, tagger) no_variants = variant d ty tagger no_variants
insert_variant d (ty, tagger) (variant j u t vs) =
    if j == d then variant d ty tagger vs else variant j u t (insert_variant d (ty, tagger) vs)

unfoldable pub collect_variants : List (ℤ × Variant) → Variants → Variants
unfolding insert_variant
collect_variants [] acc = acc
collect_variants ((discriminant, v) ∷ vs) acc =
    collect_variants vs (insert_variant discriminant v acc)

-- A type of the source that converts: the implementations of `TypeConv`.
pub data RustTy : Type 0 where
  u8 u16 u32 u64 u128 i8 i16 i32 i64 i128 usize isize : RustTy
  bool unit : RustTy
  const_ptr mut_ptr : RustTy → RustTy
  shared_ref mut_ref : RustTy → RustTy
  array : RustTy → ℕ → RustTy
  slice : RustTy → RustTy

-- `get_type`: every implementation leaves `FREEZE` and `UNPIN` at their default, `true`.
unfoldable pub get_type : RustTy → Outcome Ty
unfolding int_ty bool_ty raw_ptr_ty ref_ty ref_mut_ty default_pointee array_ty slice_ty tuple_ty
    layout meta_kind
get_type RustTy.u8 = ok (int_ty unsigned 1)
get_type RustTy.u16 = ok (int_ty unsigned 2)
get_type RustTy.u32 = ok (int_ty unsigned 4)
get_type RustTy.u64 = ok (int_ty unsigned 8)
get_type RustTy.u128 = ok (int_ty unsigned 16)
get_type RustTy.i8 = ok (int_ty signed 1)
get_type RustTy.i16 = ok (int_ty signed 2)
get_type RustTy.i32 = ok (int_ty signed 4)
get_type RustTy.i64 = ok (int_ty signed 8)
get_type RustTy.i128 = ok (int_ty signed 16)
get_type RustTy.usize = ok (int_ty unsigned ptr_size)
get_type RustTy.isize = ok (int_ty signed ptr_size)
get_type RustTy.bool = ok bool_ty
get_type RustTy.unit = ok (tuple_ty [] 0 1)
get_type (RustTy.const_ptr t) = do ty ← get_type t; ok (raw_ptr_ty (meta_kind ty))
get_type (RustTy.mut_ptr t) = do ty ← get_type t; ok (raw_ptr_ty (meta_kind ty))
get_type (RustTy.shared_ref t) = do ty ← get_type t; l ← layout ty; ok (ref_ty (default_pointee l))
get_type (RustTy.mut_ref t) = do ty ← get_type t; l ← layout ty; ok (ref_mut_ty (default_pointee l))
get_type (RustTy.array t n) = do ty ← get_type t; ok (array_ty ty (pos n))
get_type (RustTy.slice t) = do ty ← get_type t; ok (slice_ty ty)

-- `get_layout`, `get_size`, `get_align`
unfoldable pub get_layout : RustTy → Outcome LayoutStrategy
unfolding get_type
get_layout t = do ty ← get_type t; layout ty

unfoldable pub get_size : RustTy → Outcome Size
unfolding get_layout expect_size
get_size t = do l ← get_layout t; expect_size l

unfoldable pub get_align : RustTy → Outcome Align
unfolding get_layout expect_align
get_align t = do l ← get_layout t; expect_align l

-- the type of `()`, with no call to make
abbrev pub unit_ty : Ty
unit_ty = Ty.tuple no_fields (record { end = 0; align = 1; packed_align = none }) no_ty

unfoldable pub enum_ty : RustTy → List (ℤ × Variant) → Discriminator → Size → Align → Outcome Ty
unfolding get_type collect_variants
enum_ty discriminant vs discriminator size align = do
  ty ← get_type discriminant
  elim ty [
    | Ty.int d ↦ ok (Ty.enum (collect_variants vs no_variants) d discriminator size align)
    | _ ↦ panic not_an_int
  ]

unfoldable pub discriminator_invalid : Discriminator
discriminator_invalid = Discriminator.invalid

unfoldable pub discriminator_known : ℤ → Discriminator
discriminator_known d = Discriminator.known d

-- A later range that is the same replaces the one before.
unfoldable pub insert_child : ℤ → ℤ → Discriminator → Children → Children
insert_child start end d no_children = child start end d no_children
insert_child start end d (child s e c cs) =
    if s == start && e == end
    then child start end d cs
    else child s e c (insert_child start end d cs)

unfoldable pub collect_children : List ((ℤ × ℤ) × Discriminator) → Children → Children
unfolding insert_child
collect_children [] acc = acc
collect_children (((start, end), d) ∷ cs) acc = collect_children cs (insert_child start end d acc)

unfoldable pub discriminator_branch :
    RustTy → Offset → Discriminator → List ((ℤ × ℤ) × Discriminator) → Outcome Discriminator
unfolding get_type collect_children
discriminator_branch t offset fallback cs = do
  ty ← get_type t
  elim ty [
    | Ty.int value_type ↦
        ok (Discriminator.branch offset value_type fallback (collect_children cs no_children))
    | _ ↦ panic not_an_int
  ]
