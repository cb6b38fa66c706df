-- ===== src/Build/Expr.antt =====
-- tooling/miniutil/src/build/expr.rs: building expressions. An integer argument (`impl
-- Into<Int>`) is a ℤ, the type parameter `T: TypeConv` a `RustTy`.
use mathlib.Core.Logic.{ite}
use native.Mathlib.Decide.{ℕ_discrete}
use mts_minirust_work.Prelude.{ℕ, suc, Bool, true, false, List, ◌==◌, nat_eq, length}
use mts_minirust_work.Prelude.Int.{ℤ, pos}
use mts_minirust_work.Prelude.Outcome.{
  Outcome, ok, panic, ◌>>=◌, ◌>>◌, guard, arity, not_a_tuple, not_a_pointer, not_an_int,
}
use mts_minirust_work.Lang.Types.{TraitName, PtrType, PointerMetaKind, Ty, Fields, no_fields, field}
use mts_minirust_work.Lang.Syntax.{
  LocalName, GlobalName, VTableName, FnName, TraitMethodName, Relocation, Constant, UnOp, CastOp,
  IntUnOp, IntBinOp, IntBinOpWithOverflow, RelOp, BinOp, ValueExpr, PlaceExpr, no_exprs, exprs,
  ArgumentExpr,
}
use mts_minirust_work.Build.Ty.{RustTy, get_type, array_ty, unit_ty}

unfoldable pub Ty-discrete : Discrete Ty
unfolding ℕ_discrete
Ty-discrete = hlevel ℕ_discrete

unfoldable pub const_int : RustTy → ℤ → Outcome ValueExpr
unfolding get_type
const_int t i = do ty ← get_type t; ok (ValueExpr.constant (Constant.int i) ty)

-- the same but for its argument, which is an `Int` already
unfoldable pub const_int_typed : RustTy → ℤ → Outcome ValueExpr
unfolding get_type
const_int_typed t i = do ty ← get_type t; ok (ValueExpr.constant (Constant.int i) ty)

unfoldable pub const_bool : Bool → ValueExpr
const_bool b = ValueExpr.constant (Constant.bool b) Ty.bool

abbrev pub field_count : Fields → ℕ
field_count no_fields = 0
field_count (field _ _ fs) = suc (field_count fs)

unfoldable pub tuple : List ValueExpr → Ty → Outcome ValueExpr
unfolding exprs
tuple args (Ty.tuple fs head tail) = do
  guard (field_count fs == length args) arity
  ok (ValueExpr.tuple (exprs args) (Ty.tuple fs head tail))
tuple args _ = panic not_a_tuple

unfoldable pub array : List ValueExpr → Ty → ValueExpr
unfolding exprs array_ty
array args elem_ty = ValueExpr.tuple (exprs args) (array_ty elem_ty (pos (length args)))

unfoldable pub variant : ℤ → ValueExpr → Ty → ValueExpr
variant discriminant e enum_ty = ValueExpr.variant discriminant e enum_ty

unfoldable pub get_discriminant : PlaceExpr → ValueExpr
get_discriminant place = ValueExpr.get_discriminant place

unfoldable pub unit : ValueExpr
unit = ValueExpr.tuple no_exprs unit_ty

-- `<*const ()>::get_type()`
abbrev pub unit_ptr_ty : Ty
unit_ptr_ty = Ty.ptr (PtrType.raw PointerMetaKind.none)

unfoldable pub null : ValueExpr
null = ValueExpr.constant (Constant.pointer_without_provenance (pos 0)) unit_ptr_ty

unfoldable pub load : PlaceExpr → ValueExpr
load p = ValueExpr.load p

unfoldable pub addr_of : PlaceExpr → Ty → Outcome ValueExpr
addr_of target (Ty.ptr ptr_ty) = ok (ValueExpr.addr_of target ptr_ty)
addr_of target _ = panic not_a_pointer

unfoldable pub neg : ValueExpr → ValueExpr
neg v = ValueExpr.un_op (UnOp.int IntUnOp.neg) v

unfoldable pub bit_not : ValueExpr → ValueExpr
bit_not v = ValueExpr.un_op (UnOp.int IntUnOp.bit_not) v

unfoldable pub count_ones : ValueExpr → ValueExpr
count_ones v = ValueExpr.un_op (UnOp.int IntUnOp.count_ones) v

unfoldable pub int_cast : RustTy → ValueExpr → Outcome ValueExpr
unfolding get_type
int_cast t v = do
  ty ← get_type t
  elim ty [
    | Ty.int i ↦ ok (ValueExpr.un_op (UnOp.cast (CastOp.int_to_int i)) v)
    | _ ↦ panic not_an_int
  ]

unfoldable pub compute_size : Ty → ValueExpr → ValueExpr
compute_size ty v = ValueExpr.un_op (UnOp.compute_size ty) v

unfoldable pub compute_align : Ty → ValueExpr → ValueExpr
compute_align ty v = ValueExpr.un_op (UnOp.compute_align ty) v

unfoldable pub transmute : ValueExpr → Ty → ValueExpr
transmute v t = ValueExpr.un_op (UnOp.cast (CastOp.transmute t)) v

unfoldable pub ptr_addr : ValueExpr → Outcome ValueExpr
unfolding transmute get_type
ptr_addr v = do usize ← get_type RustTy.usize; ok (transmute v usize)

unfoldable pub ptr_to_ptr : ValueExpr → Ty → Outcome ValueExpr
unfolding transmute
ptr_to_ptr v (Ty.ptr p) = ok (transmute v (Ty.ptr p))
ptr_to_ptr v _ = panic not_a_pointer

-- First transmute to `u8`, then cast to the integer type, if necessary.
unfoldable pub bool_to_int : RustTy → ValueExpr → Outcome ValueExpr
unfolding get_type int_cast transmute Ty-discrete
bool_to_int t v = do
  t_u8 ← get_type RustTy.u8
  ty ← get_type t
  ite (Ty-discrete ty t_u8) (ok (transmute v t_u8)) (int_cast t (transmute v t_u8))

unfoldable pub get_thin_pointer : ValueExpr → ValueExpr
get_thin_pointer v = ValueExpr.un_op UnOp.get_thin_pointer v

unfoldable pub get_metadata : ValueExpr → ValueExpr
get_metadata v = ValueExpr.un_op UnOp.get_metadata v

unfoldable pub construct_wide_pointer : ValueExpr → ValueExpr → Ty → Outcome ValueExpr
construct_wide_pointer p meta (Ty.ptr ptr_ty) =
    ok (ValueExpr.bin_op (BinOp.construct_wide_pointer ptr_ty) p meta)
construct_wide_pointer p meta _ = panic not_a_pointer

unfoldable pub int_binop : IntBinOp → ValueExpr → ValueExpr → ValueExpr
int_binop op l r = ValueExpr.bin_op (BinOp.int op) l r

unfoldable pub int_overflow : IntBinOpWithOverflow → ValueExpr → ValueExpr → ValueExpr
int_overflow op l r = ValueExpr.bin_op (BinOp.int_with_overflow op) l r

unfoldable pub rel_op : RelOp → ValueExpr → ValueExpr → ValueExpr
rel_op op l r = ValueExpr.bin_op (BinOp.rel op) l r

pub data InBounds : Type 0 where
  inside anywhere : InBounds

abbrev pub in_bounds : InBounds → Bool
in_bounds inside = true
in_bounds anywhere = false

unfoldable pub ptr_offset : ValueExpr → ValueExpr → InBounds → ValueExpr
ptr_offset l r b = ValueExpr.bin_op (BinOp.ptr_offset (in_bounds b)) l r

unfoldable pub ptr_offset_from : ValueExpr → ValueExpr → InBounds → ValueExpr
ptr_offset_from l r b = ValueExpr.bin_op (BinOp.ptr_offset_from (in_bounds b) false) l r

unfoldable pub ptr_offset_from_nonneg : ValueExpr → ValueExpr → InBounds → ValueExpr
ptr_offset_from_nonneg l r b = ValueExpr.bin_op (BinOp.ptr_offset_from (in_bounds b) true) l r

unfoldable pub local_by_name : LocalName → PlaceExpr
local_by_name name = PlaceExpr.local name

unfoldable pub deref : ValueExpr → Ty → PlaceExpr
deref operand ty = PlaceExpr.deref operand ty

unfoldable pub global_by_name : RustTy → GlobalName → Outcome PlaceExpr
unfolding deref get_type
global_by_name t name = do
  ty ← get_type t
  let relocation : Relocation = record { name = name; offset = 0 }
  ok (deref (ValueExpr.constant (Constant.global_pointer relocation) unit_ptr_ty) ty)

unfoldable pub const_vtable : VTableName → TraitName → ValueExpr
const_vtable vtable t =
    ValueExpr.constant (Constant.vtable_pointer vtable) (Ty.ptr (PtrType.vtable_ptr t))

unfoldable pub vtable_method_lookup : ValueExpr → TraitMethodName → ValueExpr
vtable_method_lookup operand method = ValueExpr.un_op (UnOp.vtable_method_lookup method) operand

unfoldable pub place_field : PlaceExpr → ℤ → PlaceExpr
place_field root i = PlaceExpr.field root i

unfoldable pub index : PlaceExpr → ValueExpr → PlaceExpr
index root i = PlaceExpr.index root i

unfoldable pub downcast : PlaceExpr → ℤ → PlaceExpr
downcast root discriminant = PlaceExpr.downcast root discriminant

unfoldable pub unit_ptr : ValueExpr
unit_ptr = ValueExpr.constant (Constant.pointer_without_provenance (pos 1)) unit_ptr_ty

unfoldable pub unit_place : PlaceExpr
unfolding unit_ptr
unit_place = PlaceExpr.deref unit_ptr unit_ty

unfoldable pub by_value : ValueExpr → ArgumentExpr
by_value v = ArgumentExpr.by_value v

unfoldable pub in_place : PlaceExpr → ArgumentExpr
in_place p = ArgumentExpr.in_place p

-- `fn_ptr` of build/function.rs
unfoldable pub fn_ptr : FnName → ValueExpr
fn_ptr name = ValueExpr.constant (Constant.fn_pointer name) (Ty.ptr PtrType.fn_ptr)
