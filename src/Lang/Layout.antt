-- ===== src/Lang/Layout.antt =====
-- spec/lang/types.md: the layout and the metadata kind of a type, at the target x86_64 of
-- spec/prelude/target.md (`DefaultTarget` of tooling/miniutil/src/lib.rs).
use mts_minirust_work.Prelude.{
  ℕ, ◌+◌, ◌*◌, ◌-◌, ◌/◌, Bool, true, false, ◌^◌, min, zero, suc, if◌then◌else◌, ◌==◌, nat_eq,
}
use mts_minirust_work.Prelude.Int.{ℤ, pos, negsuc}
use mts_minirust_work.Prelude.Outcome.{
  Outcome, ok, panic, ◌>>=◌, unsized_type, bad_align, negative_size,
}
use mts_minirust_work.Lang.Types.{
  Size, Align, IntType, LayoutStrategy, TupleHeadLayout, PointerMetaKind, PtrType, Ty, OptTy, no_ty,
  some_ty,
}

abbrev pub ptr_size : Size
ptr_size = 8

abbrev pub ptr_align : Align
ptr_align = 8

abbrev pub int_max_align : Align
int_max_align = 16

-- The exponent is at most the number itself, which bounds the search.
is_power_below : ℕ → ℕ → Bool
is_power_below zero n = n == 1
is_power_below (suc k) n = if n == 2 ^ suc k then true else is_power_below k n

unfoldable pub is_power_of_two : ℕ → Bool
unfolding is_power_below
is_power_of_two n = is_power_below n n

-- `Align::from_bytes(bytes).unwrap()`
unfoldable pub align_from_bytes : ℕ → Outcome Align
unfolding is_power_of_two
align_from_bytes n = if is_power_of_two n then ok n else panic bad_align

-- `IntType::align`
unfoldable pub int_align : IntType → Outcome Align
unfolding align_from_bytes
int_align t = do natural ← align_from_bytes t.size; ok (min natural int_max_align)

unfoldable pub layout_meta_kind : LayoutStrategy → PointerMetaKind
layout_meta_kind (LayoutStrategy.sized _ _) = PointerMetaKind.none
layout_meta_kind (LayoutStrategy.slice _ _) = PointerMetaKind.element_count
layout_meta_kind (LayoutStrategy.trait_object t) = PointerMetaKind.vtable_pointer t
layout_meta_kind (LayoutStrategy.tuple _ tail) = layout_meta_kind tail

unfoldable pub ptr_meta_kind : PtrType → PointerMetaKind
unfolding layout_meta_kind
ptr_meta_kind (PtrType.ref _ pointee) = layout_meta_kind pointee.layout
ptr_meta_kind (PtrType.box pointee) = layout_meta_kind pointee.layout
ptr_meta_kind (PtrType.raw meta) = meta
ptr_meta_kind PtrType.fn_ptr = PointerMetaKind.none
ptr_meta_kind (PtrType.vtable_ptr _) = PointerMetaKind.none

unfoldable pub expect_size : LayoutStrategy → Outcome Size
expect_size (LayoutStrategy.sized size _) = ok size
expect_size _ = panic unsized_type

unfoldable pub expect_align : LayoutStrategy → Outcome Align
expect_align (LayoutStrategy.sized _ align) = ok align
expect_align _ = panic unsized_type

unfoldable pub is_sized : LayoutStrategy → Bool
is_sized (LayoutStrategy.sized _ _) = true
is_sized _ = false

-- `Size::align_to`: round up to a multiple of the alignment.
unfoldable pub align_to : Size → Align → Size
align_to size align = (size + (align - 1)) / align * align

unfoldable pub head_size_and_align : TupleHeadLayout → Size × Align
unfolding align_to
head_size_and_align head = (align_to head.end head.align, head.align)

-- The width of a pointer: twice as much with metadata.
unfoldable pub ptr_layout : PointerMetaKind → LayoutStrategy
ptr_layout PointerMetaKind.none = LayoutStrategy.sized ptr_size ptr_align
ptr_layout _ = LayoutStrategy.sized (2 * ptr_size) ptr_align

-- `size * count`, a panic where the product is no size.
abbrev pub mul_size : Size → ℤ → Outcome Size
mul_size size (pos n) = ok (size * n)
mul_size zero (negsuc n) = ok 0
mul_size (suc _) (negsuc n) = panic negative_size

unfoldable mutual
  unfolding int_align ptr_meta_kind expect_size expect_align head_size_and_align ptr_layout

  pub layout : Ty → Outcome LayoutStrategy
  layout (Ty.int t) = do a ← int_align t; ok (LayoutStrategy.sized t.size a)
  layout Ty.bool = ok (LayoutStrategy.sized 1 1)
  layout (Ty.ptr p) = ok (ptr_layout (ptr_meta_kind p))
  layout (Ty.union _ _ size align) = ok (LayoutStrategy.sized size align)
  layout (Ty.enum _ _ _ size align) = ok (LayoutStrategy.sized size align)
  layout (Ty.tuple _ head tail) = layout_tuple tail head
  layout (Ty.array elem count) = do
    l ← layout elem
    size ← expect_size l
    total ← mul_size size count
    align ← expect_align l
    ok (LayoutStrategy.sized total align)
  layout (Ty.slice elem) = do
    l ← layout elem
    size ← expect_size l
    align ← expect_align l
    ok (LayoutStrategy.slice size align)
  layout (Ty.trait_object t) = ok (LayoutStrategy.trait_object t)

  pub layout_tuple : OptTy → TupleHeadLayout → Outcome LayoutStrategy
  layout_tuple no_ty head =
      let (size, align) = head_size_and_align head in ok (LayoutStrategy.sized size align)
  layout_tuple (some_ty ty) head = do tail ← layout ty; ok (LayoutStrategy.tuple head tail)

unfoldable mutual
  pub meta_kind : Ty → PointerMetaKind
  meta_kind (Ty.slice _) = PointerMetaKind.element_count
  meta_kind (Ty.trait_object t) = PointerMetaKind.vtable_pointer t
  meta_kind (Ty.tuple _ _ tail) = tail_meta_kind tail
  meta_kind _ = PointerMetaKind.none

  pub tail_meta_kind : OptTy → PointerMetaKind
  tail_meta_kind no_ty = PointerMetaKind.none
  tail_meta_kind (some_ty ty) = meta_kind ty
