-- ===== src/Minimize/Rvalue.antt =====
-- tooling/minimize/src/rvalue.rs: translating operations, aggregates and rvalues.
use mts_minirust_work.Prelude.{
  List, [], ◌∷◌, Option, none, some, replicate, nat_eq, ◌==◌, if◌then◌else◌,
}
use mts_minirust_work.Prelude.Int.{ℤ, pos, int_eq}
use mts_minirust_work.Prelude.Outcome.{
  Outcome, ok, panic, ◌>>=◌, missing_name, unsupported, unsized_type,
}
use mts_minirust_work.Lang.Types.{
  PointerMetaKind, PtrType, Ty, Size, Variants, no_variants, variant,
}
use mts_minirust_work.Lang.Layout.{layout_meta_kind}
use mts_minirust_work.Lang.Syntax.{Constant, BinOp, IntBinOpWithOverflow, ValueExpr, exprs}
use mts_minirust_work.Build.Ty.{RustTy, get_type, raw_ptr_ty}
use mts_minirust_work.Build.Expr
use mts_minirust_work.Build.Expr.{
  const_bool, const_int, const_int_typed, compute_size, compute_align, transmute, get_thin_pointer,
  get_metadata, construct_wide_pointer, ptr_offset, inside, const_vtable, addr_of, fn_ptr,
}
use mts_minirust_work.Build.Operators
use mts_minirust_work.Minimize.Mir.{
  Place, Operand, MirBinOp, MirUnOp, NullOp, Aggregate, Rvalue, Session,
}
use mts_minirust_work.Minimize.Place.{
  Names, translate_place, translate_operand, operand_ty, translate_operands,
}
use mts_minirust_work.Minimize.Cast.{translate_cast}

-- The offset is counted in elements: it is multiplied by their size.
abbrev pub expect_sized : Option Size → Outcome Size
expect_sized (some size) = ok size
expect_sized none = panic unsized_type

-- The type `Ordering`, which the result of a comparison is transmuted to, is an argument.
unfoldable pub translate_binary_op :
    Ty → MirBinOp → Option Size → Ty → Ty → ValueExpr → ValueExpr → Outcome ValueExpr
unfolding ptr_offset transmute
translate_binary_op ordering MirBinOp.offset size (Ty.ptr _) rty l r = do
  s ← expect_sized size
  ok (
      ptr_offset l (Operators.mul_unchecked r (ValueExpr.constant (Constant.int (pos s)) rty))
        inside)
translate_binary_op ordering MirBinOp.add size (Ty.int _) rty l r = ok (Operators.add l r)
translate_binary_op ordering MirBinOp.sub size (Ty.int _) rty l r = ok (Operators.sub l r)
translate_binary_op ordering MirBinOp.mul size (Ty.int _) rty l r = ok (Operators.mul l r)
translate_binary_op ordering MirBinOp.div size (Ty.int _) rty l r = ok (Operators.div l r)
translate_binary_op ordering MirBinOp.rem size (Ty.int _) rty l r = ok (Operators.rem l r)
translate_binary_op ordering MirBinOp.shl size (Ty.int _) rty l r = ok (Operators.shl l r)
translate_binary_op ordering MirBinOp.shr size (Ty.int _) rty l r = ok (Operators.shr l r)
translate_binary_op ordering MirBinOp.bit_and size (Ty.int _) rty l r = ok (Operators.bit_and l r)
translate_binary_op ordering MirBinOp.bit_or size (Ty.int _) rty l r = ok (Operators.bit_or l r)
translate_binary_op ordering MirBinOp.bit_xor size (Ty.int _) rty l r = ok (Operators.bit_xor l r)
translate_binary_op ordering MirBinOp.add_unchecked size (Ty.int _) rty l r =
    ok (Operators.add_unchecked l r)
translate_binary_op ordering MirBinOp.sub_unchecked size (Ty.int _) rty l r =
    ok (Operators.sub_unchecked l r)
translate_binary_op ordering MirBinOp.mul_unchecked size (Ty.int _) rty l r =
    ok (Operators.mul_unchecked l r)
translate_binary_op ordering MirBinOp.shl_unchecked size (Ty.int _) rty l r =
    ok (Operators.shl_unchecked l r)
translate_binary_op ordering MirBinOp.shr_unchecked size (Ty.int _) rty l r =
    ok (Operators.shr_unchecked l r)
translate_binary_op ordering MirBinOp.lt size lty rty l r = ok (Operators.lt l r)
translate_binary_op ordering MirBinOp.le size lty rty l r = ok (Operators.le l r)
translate_binary_op ordering MirBinOp.gt size lty rty l r = ok (Operators.gt l r)
translate_binary_op ordering MirBinOp.ge size lty rty l r = ok (Operators.ge l r)
translate_binary_op ordering MirBinOp.eq size lty rty l r = ok (Operators.eq l r)
translate_binary_op ordering MirBinOp.ne size lty rty l r = ok (Operators.ne l r)
translate_binary_op ordering MirBinOp.cmp size lty rty l r =
    ok (transmute (Operators.cmp l r) ordering)
translate_binary_op ordering MirBinOp.bit_and size Ty.bool rty l r = Operators.bool_and l r
translate_binary_op ordering MirBinOp.bit_or size Ty.bool rty l r = Operators.bool_or l r
translate_binary_op ordering MirBinOp.bit_xor size Ty.bool rty l r = Operators.bool_xor l r
translate_binary_op ordering op size lty rty l r = panic unsupported

unfoldable pub translate_checked_op : MirBinOp → Outcome IntBinOpWithOverflow
translate_checked_op MirBinOp.add = ok IntBinOpWithOverflow.add
translate_checked_op MirBinOp.sub = ok IntBinOpWithOverflow.sub
translate_checked_op MirBinOp.mul = ok IntBinOpWithOverflow.mul
translate_checked_op _ = panic unsupported

unfoldable pub translate_unary_op : MirUnOp → Ty → ValueExpr → Outcome ValueExpr
unfolding get_metadata
translate_unary_op MirUnOp.neg (Ty.int _) v = ok (Expr.neg v)
translate_unary_op MirUnOp.not (Ty.int _) v = ok (Expr.bit_not v)
translate_unary_op MirUnOp.not Ty.bool v = Operators.not v
translate_unary_op MirUnOp.ptr_metadata (Ty.ptr _) v = ok (get_metadata v)
translate_unary_op _ _ v = panic unsupported

-- `variants.get(discriminant).unwrap().ty`
abbrev pub variant_ty : ℤ → Variants → Outcome Ty
variant_ty d no_variants = panic missing_name
variant_ty d (variant e ty tagger vs) = if e == d then ok ty else variant_ty d vs

unfoldable pub translate_aggregate : Names → Aggregate → Ty → List Operand → Outcome ValueExpr
unfolding translate_operands translate_operand construct_wide_pointer exprs
translate_aggregate names (Aggregate.active_field i) (Ty.union fs chunks size align) (x ∷ []) = do
  v ← translate_operand names x
  ok (ValueExpr.union (pos i) v (Ty.union fs chunks size align))
translate_aggregate names agg (Ty.tuple fs head tail) operands = do
  ops ← translate_operands names operands
  ok (ValueExpr.tuple (exprs ops) (Ty.tuple fs head tail))
translate_aggregate names agg (Ty.array elem count) operands = do
  ops ← translate_operands names operands
  ok (ValueExpr.tuple (exprs ops) (Ty.array elem count))
translate_aggregate names (Aggregate.variant d) (Ty.enum vs dt disc size align) operands = do
  ops ← translate_operands names operands
  ty ← variant_ty d vs
  ok (ValueExpr.variant d (ValueExpr.tuple (exprs ops) ty) (Ty.enum vs dt disc size align))
translate_aggregate names agg (Ty.ptr (PtrType.raw meta_kind)) (x ∷ y ∷ []) = do
  pointer ← translate_operand names x
  meta ← translate_operand names y
  construct_wide_pointer pointer meta (Ty.ptr (PtrType.raw meta_kind))
translate_aggregate names agg ty operands = panic unsupported

abbrev pub translate_nullary : Session → NullOp → Ty → Outcome ValueExpr
translate_nullary session NullOp.ub_checks ty = ok (const_bool session.ub_checks)
translate_nullary session NullOp.contract_checks ty = ok (const_bool session.contract_checks)
translate_nullary session NullOp.size_of ty = ok (compute_size ty Expr.unit)
translate_nullary session NullOp.align_of ty = ok (compute_align ty Expr.unit)
translate_nullary session (NullOp.offset_of n) ty = const_int RustTy.u64 (pos n)

-- The number of the elements of an array or slice.
abbrev pub translate_len : Names → Ty → Place → Outcome ValueExpr
translate_len names (Ty.array elem count) p = do
  usize ← get_type RustTy.usize
  ok (ValueExpr.constant (Constant.int count) usize)
translate_len names (Ty.slice elem) p = do
  place ← translate_place names p
  pointer ← addr_of place (raw_ptr_ty PointerMetaKind.element_count)
  ok (get_metadata pointer)
translate_len names _ p = panic unsupported

unfoldable pub translate_rvalue : Session → Names → Rvalue → Outcome ValueExpr
unfolding translate_operand translate_place translate_binary_op translate_checked_op
    translate_unary_op translate_cast translate_aggregate const_bool const_int compute_size
    compute_align get_type addr_of get_metadata raw_ptr_ty transmute exprs layout_meta_kind
translate_rvalue session names (Rvalue.use_ x) = translate_operand names x
translate_rvalue session names (Rvalue.binary_op op size x y) = do
  l ← translate_operand names x
  r ← translate_operand names y
  translate_binary_op session.ordering op size (operand_ty x) (operand_ty y) l r
translate_rvalue session names (Rvalue.checked_binary_op op x y) = do
  l ← translate_operand names x
  r ← translate_operand names y
  o ← translate_checked_op op
  ok (ValueExpr.bin_op (BinOp.int_with_overflow o) l r)
translate_rvalue session names (Rvalue.unary_op op x) = do
  v ← translate_operand names x
  translate_unary_op op (operand_ty x) v
translate_rvalue session names (Rvalue.ref mutbl pointee p) = do
  place ← translate_place names p
  ok (ValueExpr.addr_of place (PtrType.ref mutbl pointee))
translate_rvalue session names (Rvalue.nullary_op op ty) = translate_nullary session op ty
translate_rvalue session names (Rvalue.address_of pointee p) = do
  place ← translate_place names p
  ok (ValueExpr.addr_of place (PtrType.raw (layout_meta_kind pointee.layout)))
translate_rvalue session names (Rvalue.aggregate agg ty operands) =
    translate_aggregate names agg ty operands
translate_rvalue session names (Rvalue.copy_for_deref p) = do
  place ← translate_place names p
  ok (ValueExpr.load place)
translate_rvalue session names (Rvalue.len p ty) = translate_len names ty p
translate_rvalue session names (Rvalue.discriminant p) = do
  place ← translate_place names p
  ok (ValueExpr.get_discriminant place)
translate_rvalue session names (Rvalue.repeat x count) = do
  v ← translate_operand names x
  ok (ValueExpr.tuple (exprs (replicate count v)) (Ty.array (operand_ty x) (pos count)))
translate_rvalue session names (Rvalue.cast kind operand ty) = translate_cast names kind operand ty
translate_rvalue session names (Rvalue.shallow_init_box x boxed_ty) = do
  v ← translate_operand names x
  ok (transmute v boxed_ty)
translate_rvalue session names Rvalue.thread_local_ref = panic unsupported
