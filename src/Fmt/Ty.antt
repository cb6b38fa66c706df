-- ===== src/Fmt/Ty.antt =====
-- tooling/miniutil/src/fmt/ty.rs: printing types. `IntType.size.bits()` is eight times the bytes.
pub mod Printed
pub mod Nested
pub mod Definitions
use mts_minirust_work.Prelude.{
  ℕ, zero, suc, ◌*◌, Bool, true, false, List, [], ◌∷◌, ◌++◌, Option, none, some, get_elem?,
}
use mts_minirust_work.Prelude.Outcome.{Outcome, ok, panic, unsupported}
use mts_minirust_work.Lang.Types.{
  Align, TraitName, Signedness, signed, unsigned, mutable, immutable, IntType, Cells,
  LayoutStrategy, PointeeInfo, PointerMetaKind, PtrType, Ty, OptTy, no_ty, some_ty, Fields,
  no_fields, Variants, no_variants,
}
use mts_minirust_work.Lang.Layout.{layout, layout_meta_kind}
use mts_minirust_work.Fmt.Text.{Text, codes, show, show_int}
use mts_minirust_work.Fmt.State.{Fmt, return, lift, ◌>>=◌, get_comptype_index}

pub data FmtExpr : Type 0 where
  non_atomic atomic : Text → FmtExpr

unfoldable pub to_string : FmtExpr → Text
to_string (non_atomic s) = s
to_string (atomic s) = s

unfoldable pub to_atomic_string : FmtExpr → Text
to_atomic_string (non_atomic s) = codes "(" ++ s ++ codes ")"
to_atomic_string (atomic s) = s

unfoldable pub fmt_trait_name : TraitName → Text
unfolding show
fmt_trait_name id = codes "trait" ++ show id

abbrev pub sign_text : Signedness → Text
sign_text signed = codes "i"
sign_text unsigned = codes "u"

unfoldable pub fmt_int_type : IntType → Text
unfolding show
fmt_int_type int_ty = sign_text int_ty.signed ++ show (int_ty.size * 8)

unfoldable pub fmt_meta_kind : PointerMetaKind → Text
unfolding fmt_trait_name
fmt_meta_kind PointerMetaKind.none = codes "thin"
fmt_meta_kind PointerMetaKind.element_count = codes "meta=len"
fmt_meta_kind (PointerMetaKind.vtable_pointer trait_name) =
    codes "meta=vtable<" ++ fmt_trait_name trait_name ++ codes ">"

abbrev pub packed_text : Option Align → Text
packed_text (some packed) = codes ", packed=" ++ show packed
packed_text none = []

unfoldable pub fmt_layout_strategy : LayoutStrategy → Text
unfolding show
fmt_layout_strategy (LayoutStrategy.sized size align) =
    codes "size=" ++ show size ++ codes ", align=" ++ show align
fmt_layout_strategy (LayoutStrategy.slice size align) =
    codes "size=" ++ show size ++ codes "*len, align=" ++ show align
fmt_layout_strategy (LayoutStrategy.trait_object _) = codes "size,align={unknown}"
fmt_layout_strategy (LayoutStrategy.tuple head tail) =
    codes "head=(end="
    ++ show head.end
    ++ codes ", align="
    ++ show head.align
    ++ codes ")"
    ++ packed_text head.packed_align
    ++ codes ", tail=("
    ++ fmt_layout_strategy tail
    ++ codes ")"

abbrev pub unless : Bool → Text → Text
unless true s = []
unless false s = s

unfoldable pub fmt_pointee_info : PointeeInfo → Text
unfolding fmt_meta_kind fmt_layout_strategy layout_meta_kind
fmt_pointee_info pointee =
    codes "pointee_info("
    ++ fmt_meta_kind (layout_meta_kind pointee.layout)
    ++ codes ", "
    ++ fmt_layout_strategy pointee.layout
    ++ unless pointee.inhabited (codes ", uninhabited")
    ++ unless pointee.freeze (codes ", !Freeze")
    ++ unless pointee.unpin (codes ", !Unpin")
    ++ codes ")"

unfoldable pub fmt_ptr_type : PtrType → FmtExpr
unfolding fmt_pointee_info
fmt_ptr_type (PtrType.ref mutable pointee) = non_atomic (codes "&mut " ++ fmt_pointee_info pointee)
fmt_ptr_type (PtrType.ref immutable pointee) = non_atomic (codes "&" ++ fmt_pointee_info pointee)
fmt_ptr_type (PtrType.box pointee) = atomic (codes "Box<" ++ fmt_pointee_info pointee ++ codes ">")
fmt_ptr_type (PtrType.raw meta_kind) =
    non_atomic (codes "*raw(" ++ fmt_meta_kind meta_kind ++ codes ")")
fmt_ptr_type PtrType.fn_ptr = atomic (codes "fn()")
fmt_ptr_type (PtrType.vtable_ptr _) = atomic (codes "{vtable}")

unfoldable pub fmt_comptype_index : ℕ → Text
unfolding show
fmt_comptype_index id = codes "T" ++ show id

abbrev pub fmt_composite : Ty → Fmt FmtExpr
fmt_composite t = do index ← get_comptype_index t; return (atomic (fmt_comptype_index index))

unfoldable pub fmt_type : Ty → Fmt FmtExpr
unfolding fmt_int_type fmt_ptr_type fmt_comptype_index show_int to_string fmt_trait_name
fmt_type (Ty.int int_ty) = return (atomic (fmt_int_type int_ty))
fmt_type (Ty.ptr ptr_ty) = return (fmt_ptr_type ptr_ty)
fmt_type Ty.bool = return (atomic (codes "bool"))
fmt_type (Ty.tuple fs head tail) = fmt_composite (Ty.tuple fs head tail)
fmt_type (Ty.union fs chunks size align) = fmt_composite (Ty.union fs chunks size align)
fmt_type (Ty.enum vs discriminant_ty discriminator size align) =
    fmt_composite (Ty.enum vs discriminant_ty discriminator size align)
fmt_type (Ty.array elem count) = do
  e ← fmt_type elem
  return (atomic (codes "[" ++ to_string e ++ codes "; " ++ show_int count ++ codes "]"))
fmt_type (Ty.slice elem) = do
  e ← fmt_type elem
  return (atomic (codes "[" ++ to_string e ++ codes "]"))
fmt_type (Ty.trait_object trait_name) = return (atomic (codes "dyn " ++ fmt_trait_name trait_name))

unfoldable pub fmt_comptype_fields : Fields → Fmt Text
unfolding fmt_type show to_string
fmt_comptype_fields no_fields = return []
fmt_comptype_fields (Fields.field offset f fs) = do
  ty ← fmt_type f
  rest ← fmt_comptype_fields fs
  return (codes "  at byte " ++ show offset ++ codes ": " ++ to_string ty ++ codes ",\n" ++ rest)

unfoldable pub fmt_comptype_chunks : Cells → Text
unfolding show
fmt_comptype_chunks [] = []
fmt_comptype_chunks ((offset, size) ∷ chunks) =
    codes "  chunk(at="
    ++ show offset
    ++ codes ", size="
    ++ show size
    ++ codes "),\n"
    ++ fmt_comptype_chunks chunks

-- `variants.iter().for_each(...)`
unfoldable pub fmt_variants : Variants → Fmt Text
unfolding fmt_type show_int to_string
fmt_variants no_variants = return []
fmt_variants (Variants.variant discriminant v _ vs) = do
  typ ← fmt_type v
  rest ← fmt_variants vs
  return (
      codes "  Variant "
      ++ show_int discriminant
      ++ codes ": "
      ++ to_string typ
      ++ codes "\n"
      ++ rest)

unfoldable pub fmt_tail : OptTy → Fmt Text
unfolding fmt_type to_string
fmt_tail no_ty = return []
fmt_tail (some_ty unsized_ty) = do
  ty ← fmt_type unsized_ty
  return (codes "  tail: " ++ to_string ty ++ codes ",\n")

unfoldable pub fmt_comptype_header : Text → ℕ → Ty → Fmt Text
unfolding fmt_comptype_index fmt_layout_strategy layout
fmt_comptype_header keyword i t = do
  l ← lift (layout t)
  return (
      keyword
      ++ codes " "
      ++ fmt_comptype_index i
      ++ codes " ("
      ++ fmt_layout_strategy l
      ++ codes ") {\n")

unfoldable pub fmt_comptype : ℕ → Ty → Fmt Text
unfolding fmt_comptype_header fmt_comptype_fields fmt_tail fmt_comptype_chunks fmt_variants
    fmt_int_type
fmt_comptype i (Ty.tuple fs head tail) = do
  s ← fmt_comptype_header (codes "tuple") i (Ty.tuple fs head tail)
  sized_fields ← fmt_comptype_fields fs
  unsized_field ← fmt_tail tail
  return (s ++ sized_fields ++ unsized_field ++ codes "}\n\n")
fmt_comptype i (Ty.union fs chunks size align) = do
  s ← fmt_comptype_header (codes "union") i (Ty.union fs chunks size align)
  fields ← fmt_comptype_fields fs
  return (s ++ fields ++ fmt_comptype_chunks chunks ++ codes "}\n\n")
fmt_comptype i (Ty.enum vs discriminant_ty discriminator size align) = do
  s ← fmt_comptype_header (codes "enum") i (Ty.enum vs discriminant_ty discriminator size align)
  variants ← fmt_variants vs
  return (
      s
      ++ codes "  Discriminant: "
      ++ fmt_int_type discriminant_ty
      ++ codes "\n"
      ++ variants
      ++ codes "}\n\n")
fmt_comptype i _ = lift (panic unsupported)

-- A panic ends the loop.
abbrev pub or_panic :
    Outcome (Text × List Ty) → (Text → List Ty → Option (Outcome Text)) → Option (Outcome Text)
or_panic (ok (s, comptypes)) f = f s comptypes
or_panic (panic e) f = some (panic e)

-- The loop of `fmt_comptypes` from `i` on; with no fuel left there is no result.
unfoldable pub print_comptypes : ℕ → ℕ → Text → List Ty → Option (Outcome Text)
unfolding fmt_comptype
print_comptypes zero i out comptypes = none
print_comptypes (suc fuel) i out comptypes = elim (get_elem? comptypes i) [
  | none ↦ some (ok out)
  | some c ↦
      or_panic (fmt_comptype i c comptypes)
        λ s comptypes2. print_comptypes fuel (suc i) (out ++ s) comptypes2
]
