-- ===== src/Minimize/Cast.antt =====
-- tooling/minimize/src/rvalue.rs: translating casts.
use mts_minirust_work.Prelude.{Bool, true, false, some, nat_eq, ◌==◌, if◌then◌else◌}
use mts_minirust_work.Prelude.Int.{pos, int_eq}
use mts_minirust_work.Prelude.Outcome.{
  Outcome, ok, panic, ◌>>=◌, ◌>>◌, guard, unsupported, not_an_int,
}
use mts_minirust_work.Lang.Types.{PointerMetaKind, PtrType, Ty}
use mts_minirust_work.Lang.Syntax.{UnOp, CastOp, ValueExpr}
use mts_minirust_work.Build.Ty.{RustTy, get_type}
use mts_minirust_work.Build.Expr.{
  const_int_typed, transmute, get_thin_pointer, construct_wide_pointer, const_vtable, fn_ptr,
}
use mts_minirust_work.Minimize.Mir.{Operand, Unsizing, CastKind}
use mts_minirust_work.Minimize.Place.{Names, translate_operand, operand_ty}

-- `PointerMetaKind` derives `PartialEq`.
abbrev pub same_meta_kind : PointerMetaKind → PointerMetaKind → Bool
same_meta_kind PointerMetaKind.none PointerMetaKind.none = true
same_meta_kind PointerMetaKind.element_count PointerMetaKind.element_count = true
same_meta_kind (PointerMetaKind.vtable_pointer t) (PointerMetaKind.vtable_pointer u) = t == u
same_meta_kind _ _ = false

-- A cast between raw pointers: to the kind of metadata that it has, or to a thin pointer.
unfoldable pub translate_ptr_to_ptr : Ty → Ty → ValueExpr → Outcome ValueExpr
unfolding get_thin_pointer
translate_ptr_to_ptr (Ty.ptr (PtrType.raw old)) (Ty.ptr (PtrType.raw new)) v =
    if same_meta_kind old new
    then ok v
    else if same_meta_kind new PointerMetaKind.none
    then ok (get_thin_pointer v)
    else panic unsupported
translate_ptr_to_ptr _ _ v = panic unsupported

unfoldable pub translate_unsize : Unsizing → Ty → ValueExpr → Outcome ValueExpr
unfolding construct_wide_pointer const_int_typed const_vtable
translate_unsize (Unsizing.array_to_slice same_elem count) ty v = do
  guard same_elem unsupported
  len ← const_int_typed RustTy.usize (pos count)
  construct_wide_pointer v len ty
translate_unsize (Unsizing.dyn_to_dyn same_data) ty v = do guard same_data unsupported; ok v
translate_unsize (Unsizing.to_dyn vtable trait_name) ty v =
    construct_wide_pointer v (const_vtable vtable trait_name) ty
translate_unsize Unsizing.other_unsizing ty v = panic unsupported

-- An integer or Boolean, to be cast to an integer. A Boolean is cast to `u8` first.
abbrev pub as_int : Ty → ValueExpr → Outcome ValueExpr
as_int (Ty.int _) v = ok v
as_int Ty.bool v = do u8 ← get_type RustTy.u8; ok (transmute v u8)
as_int _ v = panic not_an_int

abbrev pub to_int : Ty → ValueExpr → Outcome ValueExpr
to_int (Ty.int int_ty) v = ok (ValueExpr.un_op (UnOp.cast (CastOp.int_to_int int_ty)) v)
to_int _ v = panic not_an_int

unfoldable pub translate_cast : Names → CastKind → Operand → Ty → Outcome ValueExpr
unfolding translate_operand get_type transmute translate_ptr_to_ptr translate_unsize fn_ptr
translate_cast names CastKind.int_to_int operand ty = do
  v ← translate_operand names operand
  i ← as_int (operand_ty operand) v
  to_int ty i
translate_cast names CastKind.ptr_to_ptr operand ty = do
  v ← translate_operand names operand
  translate_ptr_to_ptr (operand_ty operand) ty v
translate_cast names (CastKind.unsize unsizing) operand (Ty.ptr p) = do
  v ← translate_operand names operand
  translate_unsize unsizing (Ty.ptr p) v
translate_cast names CastKind.transmute operand ty = do
  v ← translate_operand names operand
  ok (transmute v ty)
translate_cast names CastKind.fn_ptr_to_ptr operand ty = do
  v ← translate_operand names operand
  ok (transmute v ty)
translate_cast names CastKind.unsafe_fn_pointer operand ty = do
  v ← translate_operand names operand
  ok (transmute v ty)
translate_cast names (CastKind.reify_fn_pointer (some f)) operand ty = ok (fn_ptr f)
translate_cast names _ operand ty = panic unsupported
