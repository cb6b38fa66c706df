-- ===== src/Fmt/Ty/Printed.antt =====
-- tooling/miniutil/src/fmt/ty.rs: what a printed type looks like, and the types that are listed.
use mts_minirust_work.Prelude.{
  ℕ, ◌≡◌, refl, ap, sym, Bool, true, false, Option, none, some, some_inj,
}
use mts_minirust_work.Lang.Types.{
  Signedness, signed, unsigned, mutable, immutable, IntType, LayoutStrategy, PointeeInfo,
  PointerMetaKind, PtrType, Ty,
}
use mts_minirust_work.Lang.Layout.{layout_meta_kind}
use mts_minirust_work.Fmt.Text.{Text, codes}
use mts_minirust_work.Fmt.Text.Parens.{paren_rules, LeavesOpen, NoParens}
use mts_minirust_work.Fmt.State.Emits.{Emits, Emits-return, Emits-bind, get_comptype_index-Emits}
use mts_minirust_work.Fmt.Ty.{
  FmtExpr, non_atomic, atomic, to_string, to_atomic_string, sign_text, fmt_trait_name, fmt_int_type,
  fmt_meta_kind, packed_text, fmt_layout_strategy, unless, fmt_pointee_info, fmt_ptr_type,
  fmt_comptype_index, fmt_composite, fmt_type,
}

abbrev pub Leaves : ℕ → FmtExpr → Type 0
Leaves n e = LeavesOpen n (to_string e)

abbrev pub Closed : FmtExpr → Type 0
Closed e = Leaves 0 e

pub to_atomic_string-LeavesOpen :
    (n : ℕ) (e : FmtExpr) → Leaves n e → LeavesOpen n (to_atomic_string e)
unfolding to_string to_atomic_string
to_atomic_string-LeavesOpen n (non_atomic s) h = grind (paren_rules, h)
to_atomic_string-LeavesOpen n (atomic s) h = h

fmt_trait_name-NoParens : (id : ℕ) → NoParens (fmt_trait_name id)
unfolding fmt_trait_name
fmt_trait_name-NoParens id = grind paren_rules

sign_text-NoParens : (s : Signedness) → NoParens (sign_text s)
sign_text-NoParens signed = (refl, refl)
sign_text-NoParens unsigned = (refl, refl)

pub fmt_int_type-NoParens : (t : IntType) → NoParens (fmt_int_type t)
unfolding fmt_int_type
fmt_int_type-NoParens t = grind (paren_rules, sign_text-NoParens t.signed)

fmt_meta_kind-NoParens : (m : PointerMetaKind) → NoParens (fmt_meta_kind m)
unfolding fmt_meta_kind
fmt_meta_kind-NoParens PointerMetaKind.none = (refl, refl)
fmt_meta_kind-NoParens PointerMetaKind.element_count = (refl, refl)
fmt_meta_kind-NoParens (PointerMetaKind.vtable_pointer t) =
    grind (paren_rules, fmt_trait_name-NoParens t)

packed_text-NoParens : (o : Option ℕ) → NoParens (packed_text o)
packed_text-NoParens none = (refl, refl)
packed_text-NoParens (some a) = grind paren_rules

pub fmt_layout_strategy-Closed : (l : LayoutStrategy) → LeavesOpen 0 (fmt_layout_strategy l)
unfolding fmt_layout_strategy
fmt_layout_strategy-Closed (LayoutStrategy.sized size align) = grind paren_rules
fmt_layout_strategy-Closed (LayoutStrategy.slice size align) = grind paren_rules
fmt_layout_strategy-Closed (LayoutStrategy.trait_object t) = refl
fmt_layout_strategy-Closed (LayoutStrategy.tuple head tail) =
    grind (paren_rules, fmt_layout_strategy-Closed tail, packed_text-NoParens head.packed_align)

unless-NoParens : (b : Bool) (s : Text) → NoParens s → NoParens (unless b s)
unless-NoParens true s h = (refl, refl)
unless-NoParens false s h = h

fmt_pointee_info-Closed : (p : PointeeInfo) → LeavesOpen 0 (fmt_pointee_info p)
unfolding fmt_pointee_info
fmt_pointee_info-Closed p = grind (
  paren_rules,
  fmt_meta_kind-NoParens (layout_meta_kind p.layout),
  fmt_layout_strategy-Closed p.layout,
  unless-NoParens p.inhabited (codes ", uninhabited") (refl, refl),
  unless-NoParens p.freeze (codes ", !Freeze") (refl, refl),
  unless-NoParens p.unpin (codes ", !Unpin") (refl, refl),
)

pub fmt_ptr_type-Closed : (p : PtrType) → Closed (fmt_ptr_type p)
unfolding fmt_ptr_type to_string
fmt_ptr_type-Closed (PtrType.ref mutable p) = grind (paren_rules, fmt_pointee_info-Closed p)
fmt_ptr_type-Closed (PtrType.ref immutable p) = grind (paren_rules, fmt_pointee_info-Closed p)
fmt_ptr_type-Closed (PtrType.box p) = grind (paren_rules, fmt_pointee_info-Closed p)
fmt_ptr_type-Closed (PtrType.raw m) = grind (paren_rules, fmt_meta_kind-NoParens m)
fmt_ptr_type-Closed PtrType.fn_ptr = refl
fmt_ptr_type-Closed (PtrType.vtable_ptr t) = refl

-- The type that printing `t` looks up: `t`, or what the elements of an array or slice come to.
unfoldable pub head : Ty → Option Ty
head (Ty.int _) = none
head Ty.bool = none
head (Ty.ptr _) = none
head (Ty.trait_object _) = none
head (Ty.array elem _) = head elem
head (Ty.slice elem) = head elem
head t = some t

fmt_composite-Emits : (S : Ty → Type 0) (t : Ty) → S t → Emits S Closed (fmt_composite t)
unfolding fmt_comptype_index to_string
fmt_composite-Emits S t h =
    Emits-bind (get_comptype_index-Emits S t h) λ i u. Emits-return _ (grind paren_rules)

pub fmt_type-Emits :
    (S : Ty → Type 0) (t : Ty) → ((u : Ty) → head t ≡ some u → S u) → Emits S Closed (fmt_type t)
unfolding fmt_type head to_string
fmt_type-Emits S (Ty.int t) h = Emits-return _ (grind (paren_rules, fmt_int_type-NoParens t))
fmt_type-Emits S (Ty.ptr p) h = Emits-return _ (fmt_ptr_type-Closed p)
fmt_type-Emits S Ty.bool h = Emits-return _ refl
fmt_type-Emits S (Ty.tuple fs hd tail) h = fmt_composite-Emits S _ (h _ refl)
fmt_type-Emits S (Ty.union fs chunks size align) h = fmt_composite-Emits S _ (h _ refl)
fmt_type-Emits S (Ty.enum vs dt d size align) h = fmt_composite-Emits S _ (h _ refl)
fmt_type-Emits S (Ty.array elem n) h =
    Emits-bind (fmt_type-Emits S elem h) λ e c. Emits-return _ (grind (paren_rules, c))
fmt_type-Emits S (Ty.slice elem) h =
    Emits-bind (fmt_type-Emits S elem h) λ e c. Emits-return _ (grind (paren_rules, c))
fmt_type-Emits S (Ty.trait_object t) h =
    Emits-return _ (grind (paren_rules, fmt_trait_name-NoParens t))

-- "A composite type is a union or tuple", or an enum.
unfoldable pub is_composite : Ty → Bool
is_composite (Ty.tuple _ _ _) = true
is_composite (Ty.union _ _ _ _) = true
is_composite (Ty.enum _ _ _ _ _) = true
is_composite _ = false

abbrev pub IsComposite : Ty → Type 0
IsComposite t = is_composite t ≡ true

head-IsComposite : (t u : Ty) → head t ≡ some u → IsComposite u
unfolding head is_composite
head-IsComposite (Ty.tuple fs hd tail) u h = ap is_composite (some_inj (sym h))
head-IsComposite (Ty.union fs chunks size align) u h = ap is_composite (some_inj (sym h))
head-IsComposite (Ty.enum vs dt d size align) u h = ap is_composite (some_inj (sym h))
head-IsComposite (Ty.array elem n) u h = head-IsComposite elem u h
head-IsComposite (Ty.slice elem) u h = head-IsComposite elem u h
head-IsComposite (Ty.int t) u h = absurd cc
head-IsComposite (Ty.ptr p) u h = absurd cc
head-IsComposite Ty.bool u h = absurd cc
head-IsComposite (Ty.trait_object t) u h = absurd cc

pub fmt_type-Composite : (t : Ty) → Emits IsComposite Closed (fmt_type t)
fmt_type-Composite t = fmt_type-Emits IsComposite t (head-IsComposite t)
