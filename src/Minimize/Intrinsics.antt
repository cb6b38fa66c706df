-- ===== src/Minimize/Intrinsics.antt =====
-- tooling/minimize/src/bb.rs: what terminators are translated to, and the translation of
-- intrinsics, of Rust's and of MiniRust's own.
pub mod Flow
use Prim.Native.String.{String}
use text.Mathlib.Text.{◌==◌}
use mts_minirust_work.Prelude.{
  ℕ, zero, suc, Bool, true, false, ◌||◌, List, [], ◌∷◌, ◌++◌, Option, none, some, if◌then◌else◌,
}
use mts_minirust_work.Prelude.Int.{ℤ, pos}
use mts_minirust_work.Prelude.Outcome.{
  Outcome, ok, panic, missing_name, unsupported, arity, unsized_type,
}
use mts_minirust_work.Lang.Types.{Ty, Size}
use mts_minirust_work.Lang.Syntax.{
  BbName, Statement, Terminator, IntrinsicOp, IntrinsicLockOp, IntBinOp, ArgumentExpr, PlaceExpr,
  ValueExpr, Constant, BinOp,
}
use mts_minirust_work.Build.Ty.{RustTy}
use mts_minirust_work.Build.Expr.{
  by_value, const_int_typed, count_ones, compute_size, compute_align, fn_ptr, get_metadata,
  get_thin_pointer, int_cast, ptr_offset, anywhere, unit_place, vtable_method_lookup,
}
use mts_minirust_work.Build.Operators
use mts_minirust_work.Minimize.Mir.{
  Projection, Place, Operand, UnwindAction, RustIntrinsic, Instance, Callee, Session,
}
use mts_minirust_work.Minimize.Place.{operand_ty}
use mts_minirust_work.Minimize.Rvalue.{expect_sized}
use mts_minirust_work.Minimize.Context.{
  T, return, reading, ◌>>=◌, bb_name, place, operand, operands,
}
use mts_minirust_work.Minimize.Unwind.{
  translate_catch_unwind, translate_unwind_action, translate_panic,
}

-- The statements go to the end of the block before.
pub record TerminatorResult : Type 0 where
  pub stmts : List Statement
  pub terminator : Terminator

abbrev pub only : Terminator → TerminatorResult
only t = record { stmts = []; terminator = t }

-- `target.unwrap()`
unfoldable pub target_name : Option ℕ → T BbName
unfolding bb_name
target_name (some t) = bb_name t
target_name none = reading λ _. panic missing_name

-- `target.as_ref().map(|t| self.bb_name_map[t])`
unfoldable pub next_name : Option ℕ → T (Option BbName)
unfolding bb_name
next_name (some t) = do n ← bb_name t; return (some n)
next_name none = return none

abbrev pub arg : ℕ → List Operand → Outcome Operand
arg i [] = panic arity
arg zero (x ∷ xs) = ok x
arg (suc i) (x ∷ xs) = arg i xs

-- The operand at a position of the arguments.
abbrev pub argument : ℕ → List Operand → T ValueExpr
argument i args = do x ← reading (λ _. arg i args); operand x

-- `destination = source`, and on to the target.
unfoldable pub assign_and_go : PlaceExpr → ValueExpr → Option ℕ → T TerminatorResult
unfolding target_name
assign_and_go destination source target = do
  n ← target_name target
  return
      (record { stmts = Statement.assign destination source ∷ []; terminator = Terminator.goto n })

abbrev pub as_isize : Bool → ValueExpr → Outcome ValueExpr
as_isize is_unsigned v = if is_unsigned then int_cast RustTy.usize v else ok v

unfoldable pub translate_rs_intrinsic :
    RustIntrinsic → List Operand → Place → Option ℕ → T TerminatorResult
unfolding target_name next_name place operand operands assign_and_go translate_catch_unwind
translate_rs_intrinsic (RustIntrinsic.assert_valid false) args destination target =
    return (only (Terminator.intrinsic IntrinsicOp.abort [] unit_place none))
translate_rs_intrinsic (RustIntrinsic.assert_valid true) args destination target = do
  n ← target_name target
  return (only (Terminator.goto n))
translate_rs_intrinsic RustIntrinsic.raw_eq args destination target = do
  vs ← operands args
  d ← place destination
  n ← next_name target
  return (only (Terminator.intrinsic IntrinsicOp.raw_eq vs d n))
translate_rs_intrinsic (RustIntrinsic.arith_offset size) args destination target = do
  rty ← reading λ _. arg 1 args
  l ← argument 0 args
  r ← argument 1 args
  d ← place destination
  s ← reading λ _. expect_sized size
  assign_and_go d
      (ptr_offset l
        (Operators.mul_unchecked r (ValueExpr.constant (Constant.int (pos s)) (operand_ty rty)))
        anywhere)
      target
translate_rs_intrinsic (RustIntrinsic.ptr_offset_from is_unsigned size) args destination target = do
  l ← argument 0 args
  r ← argument 1 args
  d ← place destination
  s ← reading λ _. expect_sized size
  c ← reading λ _. const_int_typed RustTy.isize (pos s)
  v ← reading λ _.
      as_isize is_unsigned
        (Operators.div_exact (ValueExpr.bin_op (BinOp.ptr_offset_from false is_unsigned) l r) c)
  assign_and_go d v target
translate_rs_intrinsic RustIntrinsic.ctpop args destination target = do
  v ← argument 0 args
  d ← place destination
  assign_and_go d (count_ones v) target
translate_rs_intrinsic RustIntrinsic.exact_div args destination target = do
  l ← argument 0 args
  r ← argument 1 args
  d ← place destination
  assign_and_go d (Operators.div_exact l r) target
translate_rs_intrinsic (RustIntrinsic.size_of_val ty) args destination target = do
  d ← place destination
  pointer ← argument 0 args
  assign_and_go d (compute_size ty (get_metadata pointer)) target
translate_rs_intrinsic (RustIntrinsic.min_align_of_val ty) args destination target = do
  d ← place destination
  pointer ← argument 0 args
  assign_and_go d (compute_align ty (get_metadata pointer)) target
translate_rs_intrinsic RustIntrinsic.likely args destination target = do
  d ← place destination
  v ← argument 0 args
  assign_and_go d v target
translate_rs_intrinsic RustIntrinsic.cold_path args destination target = do
  n ← target_name target
  return (only (Terminator.goto n))
translate_rs_intrinsic RustIntrinsic.catch_unwind args destination target = do
  vs ← operands args
  d ← place destination
  n ← target_name target
  t ← translate_catch_unwind vs d n
  return (only t)
translate_rs_intrinsic RustIntrinsic.other_intrinsic args destination target =
    reading λ _. panic unsupported

abbrev pub named {ℓ} : {V : Type ℓ} → String → List (String × V) → Outcome V
named name [] = panic unsupported
named name ((n, v) ∷ rest) = if n == name then ok v else named name rest

-- MiniRust's own intrinsics, by the name of the function in the crate `intrinsics`.
unfoldable pub minirust_intrinsic : String → Outcome IntrinsicOp
minirust_intrinsic name = named name (
    ("print", IntrinsicOp.print_stdout)
    ∷ ("eprint", IntrinsicOp.print_stderr)
    ∷ ("exit", IntrinsicOp.exit)
    ∷ ("panic", IntrinsicOp.abort)
    ∷ ("allocate", IntrinsicOp.allocate)
    ∷ ("deallocate", IntrinsicOp.deallocate)
    ∷ ("spawn", IntrinsicOp.spawn)
    ∷ ("join", IntrinsicOp.join)
    ∷ ("create_lock", IntrinsicOp.lock IntrinsicLockOp.create)
    ∷ ("acquire", IntrinsicOp.lock IntrinsicLockOp.acquire)
    ∷ ("release", IntrinsicOp.lock IntrinsicLockOp.release)
    ∷ ("atomic_store", IntrinsicOp.atomic_store)
    ∷ ("atomic_load", IntrinsicOp.atomic_load)
    ∷ ("compare_exchange", IntrinsicOp.atomic_compare_exchange)
    ∷ ("atomic_fetch_add", IntrinsicOp.atomic_fetch_and_op IntBinOp.add)
    ∷ ("atomic_fetch_sub", IntrinsicOp.atomic_fetch_and_op IntBinOp.sub)
    ∷ [])
