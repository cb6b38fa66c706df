-- ===== src/Build/Ty/Layouts.antt =====
-- tooling/miniutil/src/build/ty.rs and ty_conv.rs: the layouts of the types that are built.
use mts_minirust_work.Prelude.{
  and_left, and_right, ℕ, ◌*◌, ◌≡◌, refl, ◌∙◌, ap, Bool, true, false, ◌&&◌, arith, nat_eq,
}
use mts_minirust_work.Prelude.Int.{pos}
use mts_minirust_work.Prelude.Outcome.{anything, ok, AnyPanic, Post, returns, Post-bind}
use mts_minirust_work.Lang.Types.{
  immutable, mutable, Size, Align, LayoutStrategy, TupleHeadLayout, PointerMetaKind, PtrType, Ty,
  OptTy, no_ty, some_ty,
}
use mts_minirust_work.Lang.Layout.{
  layout, layout_tuple, mul_size, layout_meta_kind, meta_kind, tail_meta_kind, is_sized,
  expect_size, expect_align, int_align, ptr_meta_kind, ptr_layout, align_from_bytes,
  is_power_of_two,
}
use mts_minirust_work.Lang.WellFormed.{check_cell_strategy, check_cells}
use mts_minirust_work.Build.Ty.{
  from_frozen_layout, default_pointee, RustTy, get_type, raw_ptr_ty, ref_ty, ref_mut_ty, array_ty,
  slice_ty,
}

-- The cells that `from_frozen_layout` gives pass the check of cells against the layout that they
-- are made from.
pub from_frozen_layout-check_cell_strategy :
    (l : LayoutStrategy) → check_cell_strategy (from_frozen_layout l) l ≡ true
unfolding from_frozen_layout check_cell_strategy check_cells
from_frozen_layout-check_cell_strategy (LayoutStrategy.sized size align) = ground arith
from_frozen_layout-check_cell_strategy (LayoutStrategy.slice size align) = ground arith
from_frozen_layout-check_cell_strategy (LayoutStrategy.trait_object t) = refl
from_frozen_layout-check_cell_strategy (LayoutStrategy.tuple head tail) =
    ground (arith, from_frozen_layout-check_cell_strategy tail)

ptr_layout_none : (m : PointerMetaKind) → layout_meta_kind (ptr_layout m) ≡ PointerMetaKind.none
unfolding layout_meta_kind ptr_layout
ptr_layout_none PointerMetaKind.none = refl
ptr_layout_none PointerMetaKind.element_count = refl
ptr_layout_none (PointerMetaKind.vtable_pointer t) = refl

-- the metadata kind of a layout, where there is one
abbrev pub HasMeta : PointerMetaKind → LayoutStrategy → Type 0
HasMeta m l = layout_meta_kind l ≡ m

mutual
  unfolding layout layout_meta_kind meta_kind

  same_meta_kind : (ty : Ty) → Post (HasMeta (meta_kind ty)) AnyPanic (layout ty)
  same_meta_kind (Ty.int t) = Post-bind (anything (int_align t)) λ a u. returns refl
  same_meta_kind Ty.bool = returns refl
  same_meta_kind (Ty.ptr p) = returns (ptr_layout_none (ptr_meta_kind p))
  same_meta_kind (Ty.union fs chunks size align) = returns refl
  same_meta_kind (Ty.enum vs d c size align) = returns refl
  same_meta_kind (Ty.tuple fs head tail) = tail_meta_kind-layout tail head
  same_meta_kind (Ty.array elem count) = Post-bind (anything (layout elem)) λ l u.
      Post-bind (anything (expect_size l)) λ s u.
        Post-bind (anything (mul_size s count))
          λ t u. Post-bind (anything (expect_align l)) λ a u. returns refl
  same_meta_kind (Ty.slice elem) = Post-bind (anything (layout elem)) λ l u.
      Post-bind (anything (expect_size l))
        λ s u. Post-bind (anything (expect_align l)) λ a u. returns refl
  same_meta_kind (Ty.trait_object t) = returns refl

  tail_meta_kind-layout :
      (tail : OptTy) (head : TupleHeadLayout)
      → Post (HasMeta (tail_meta_kind tail)) AnyPanic (layout_tuple tail head)
  tail_meta_kind-layout no_ty head = returns refl
  tail_meta_kind-layout (some_ty ty) head = Post-bind (same_meta_kind ty) λ l h. returns h

-- Where a type has a layout, the metadata kind of the layout is the metadata kind of the type.
pub meta_kind-layout : (ty : Ty) → Post (HasMeta (meta_kind ty)) AnyPanic (layout ty)
meta_kind-layout ty = same_meta_kind ty

-- `Sized`
abbrev pub is_rust_sized : RustTy → Bool
is_rust_sized (RustTy.slice _) = false
is_rust_sized _ = true

-- The types that Rust forms: the elements of arrays and slices are `Sized`.
abbrev pub is_rust_ty : RustTy → Bool
is_rust_ty (RustTy.const_ptr t) = is_rust_ty t
is_rust_ty (RustTy.mut_ptr t) = is_rust_ty t
is_rust_ty (RustTy.shared_ref t) = is_rust_ty t
is_rust_ty (RustTy.mut_ref t) = is_rust_ty t
is_rust_ty (RustTy.array t _) = is_rust_sized t && is_rust_ty t
is_rust_ty (RustTy.slice t) = is_rust_sized t && is_rust_ty t
is_rust_ty _ = true

abbrev pub LaysOut : RustTy → Type 0
LaysOut t =
    (ty : Ty) × (l : LayoutStrategy) × (get_type t ≡ ok ty)
    × (layout ty ≡ ok l)
    × (is_sized l ≡ is_rust_sized t)

sized_form :
    (l : LayoutStrategy)
    → is_sized l ≡ true
    → (s : Size) × (a : Align) × (l ≡ LayoutStrategy.sized s a)
unfolding is_sized
sized_form (LayoutStrategy.sized s a) h = (s, a, refl)
sized_form (LayoutStrategy.slice s a) h = absurd cc
sized_form (LayoutStrategy.trait_object t) h = absurd cc
sized_form (LayoutStrategy.tuple x y) h = absurd cc

ptr_layout_sized :
    (m : PointerMetaKind) → (l : LayoutStrategy) × (ptr_layout m ≡ l) × (is_sized l ≡ true)
unfolding ptr_layout is_sized
ptr_layout_sized PointerMetaKind.none = (_, refl, refl)
ptr_layout_sized PointerMetaKind.element_count = (_, refl, refl)
ptr_layout_sized (PointerMetaKind.vtable_pointer t) = (_, refl, refl)

ptr_sized : (p : PtrType) → (l : LayoutStrategy) × (layout (Ty.ptr p) ≡ ok l) × (is_sized l ≡ true)
unfolding layout
ptr_sized p = let (l, h, s) = ptr_layout_sized (ptr_meta_kind p) in (l, ap ok h, s)

-- A pointer to a type that lays out.
pointer_LaysOut :
    (t : RustTy) (p : Ty → LayoutStrategy → PtrType)
    → LaysOut t
    → (ty : Ty) × (l : LayoutStrategy) × (k : LayoutStrategy) × (get_type t ≡ ok ty)
      × (layout ty ≡ ok k)
      × (layout (Ty.ptr (p ty k)) ≡ ok l)
      × (is_sized l ≡ true)
pointer_LaysOut t p (ty, k, h, e, _) = let (l, q, s) = ptr_sized (p ty k) in (ty, l, k, h, e, q, s)

array_layout :
    (elem : Ty) (s : Size) (a : Align) (n : ℕ)
    → layout elem ≡ ok (LayoutStrategy.sized s a)
    → layout (Ty.array elem (pos n)) ≡ ok (LayoutStrategy.sized (s * n) a)
unfolding layout expect_size expect_align
array_layout elem s a n h = rw h refl

slice_layout :
    (elem : Ty) (s : Size) (a : Align)
    → layout elem ≡ ok (LayoutStrategy.sized s a)
    → layout (Ty.slice elem) ≡ ok (LayoutStrategy.slice s a)
unfolding layout expect_size expect_align
slice_layout elem s a h = rw h refl

-- A type that Rust forms, which means that the elements of arrays and slices are `Sized`, is
-- converted without a panic, and its layout is computed without a panic. The layout is a sized
-- one exactly where the type is `Sized`.
pub get_type-LaysOut : (t : RustTy) → is_rust_ty t ≡ true → LaysOut t
unfolding get_type layout is_sized int_align align_from_bytes is_power_of_two raw_ptr_ty ref_ty
    ref_mut_ty array_ty slice_ty
get_type-LaysOut RustTy.u8 h = (_, _, refl, refl, refl)
get_type-LaysOut RustTy.u16 h = (_, _, refl, refl, refl)
get_type-LaysOut RustTy.u32 h = (_, _, refl, refl, refl)
get_type-LaysOut RustTy.u64 h = (_, _, refl, refl, refl)
get_type-LaysOut RustTy.u128 h = (_, _, refl, refl, refl)
get_type-LaysOut RustTy.i8 h = (_, _, refl, refl, refl)
get_type-LaysOut RustTy.i16 h = (_, _, refl, refl, refl)
get_type-LaysOut RustTy.i32 h = (_, _, refl, refl, refl)
get_type-LaysOut RustTy.i64 h = (_, _, refl, refl, refl)
get_type-LaysOut RustTy.i128 h = (_, _, refl, refl, refl)
get_type-LaysOut RustTy.usize h = (_, _, refl, refl, refl)
get_type-LaysOut RustTy.isize h = (_, _, refl, refl, refl)
get_type-LaysOut RustTy.bool h = (_, _, refl, refl, refl)
get_type-LaysOut RustTy.unit h = (_, _, refl, refl, refl)
get_type-LaysOut (RustTy.const_ptr t) h =
    let (ty, l, k, g, e, q, s) =
      pointer_LaysOut t (λ ty k. PtrType.raw (meta_kind ty)) (get_type-LaysOut t h) in
    (Ty.ptr (PtrType.raw (meta_kind ty)), l, rw g refl, q, s)
get_type-LaysOut (RustTy.mut_ptr t) h =
    let (ty, l, k, g, e, q, s) =
      pointer_LaysOut t (λ ty k. PtrType.raw (meta_kind ty)) (get_type-LaysOut t h) in
    (Ty.ptr (PtrType.raw (meta_kind ty)), l, rw g refl, q, s)
get_type-LaysOut (RustTy.shared_ref t) h =
    let (ty, l, k, g, e, q, s) =
      pointer_LaysOut t (λ ty k. PtrType.ref immutable (default_pointee k))
        (get_type-LaysOut t h) in
    (Ty.ptr (PtrType.ref immutable (default_pointee k)), l, rw (g, e) refl, q, s)
get_type-LaysOut (RustTy.mut_ref t) h =
    let (ty, l, k, g, e, q, s) =
      pointer_LaysOut t (λ ty k. PtrType.ref mutable (default_pointee k)) (get_type-LaysOut t h) in
    (Ty.ptr (PtrType.ref mutable (default_pointee k)), l, rw (g, e) refl, q, s)
get_type-LaysOut (RustTy.array t n) h =
    let (ty, l, g, e, q) = get_type-LaysOut t (and_right (is_rust_sized t) (is_rust_ty t) h) in
    let (s, a, form) = sized_form l (q ∙ and_left (is_rust_sized t) (is_rust_ty t) h) in
    (Ty.array ty (pos n), _, rw g refl, array_layout ty s a n (e ∙ ap ok form), refl)
get_type-LaysOut (RustTy.slice t) h =
    let (ty, l, g, e, q) = get_type-LaysOut t (and_right (is_rust_sized t) (is_rust_ty t) h) in
    let (s, a, form) = sized_form l (q ∙ and_left (is_rust_sized t) (is_rust_ty t) h) in
    (Ty.slice ty, _, rw g refl, slice_layout ty s a (e ∙ ap ok form), refl)
