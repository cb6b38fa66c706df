-- ===== src/Minimize/Call.antt =====
-- tooling/minimize/src/bb.rs: translating calls.
pub mod Flow
use Prim.Native.String.{String}
use text.Mathlib.Text.{◌==◌}
use mts_minirust_work.Prelude.{
  ℕ, zero, suc, Bool, true, false, ◌||◌, List, [], ◌∷◌, ◌++◌, Option, none, some, if◌then◌else◌,
}
use mts_minirust_work.Prelude.Int.{ℤ, pos}
use mts_minirust_work.Prelude.Outcome.{
  Outcome, ok, panic, missing_name, unsupported, arity, unsized_type,
}
use mts_minirust_work.Lang.Types.{Ty, Size}
use mts_minirust_work.Lang.Syntax.{
  BbName, Statement, Terminator, IntrinsicOp, IntrinsicLockOp, IntBinOp, ArgumentExpr, PlaceExpr,
  ValueExpr, Constant, BinOp,
}
use mts_minirust_work.Build.Ty.{RustTy}
use mts_minirust_work.Build.Expr.{
  by_value, const_int_typed, count_ones, compute_size, compute_align, fn_ptr, get_metadata,
  get_thin_pointer, int_cast, ptr_offset, anywhere, unit_place, vtable_method_lookup,
}
use mts_minirust_work.Build.Operators
use mts_minirust_work.Minimize.Mir.{
  Projection, Place, Operand, UnwindAction, RustIntrinsic, Instance, Callee, Session,
}
use mts_minirust_work.Minimize.Place.{operand_ty}
use mts_minirust_work.Minimize.Rvalue.{expect_sized}
use mts_minirust_work.Minimize.Context.{
  T, return, reading, ◌>>=◌, bb_name, place, operand, operands,
}
use mts_minirust_work.Minimize.Unwind.{
  translate_catch_unwind, translate_unwind_action, translate_panic,
}
use mts_minirust_work.Minimize.Intrinsics.{
  TerminatorResult, only, target_name, next_name, arg, argument, assign_and_go, as_isize,
  translate_rs_intrinsic, named, minirust_intrinsic,
}

abbrev pub is_one_of : String → List String → Bool
is_one_of name [] = false
is_one_of name (n ∷ ns) = n == name || is_one_of name ns

unfoldable pub is_panic_fn : String → Bool
is_panic_fn name = is_one_of name (
    "core::panicking::panic" ∷ "core::panicking::panic_fmt" ∷ "core::panicking::panic_nounwind"
    ∷ "core::slice::index::slice_start_index_len_fail"
    ∷ "core::slice::index::slice_end_index_len_fail"
    ∷ "core::slice::index::slice_end_index_overflow_fail"
    ∷ "core::slice::index::slice_index_order_fail" ∷ "core::str::slice_error_fail" ∷ [])

unfoldable pub translate_arg : Operand → T ArgumentExpr
unfolding place operand
translate_arg (Operand.move p _) = do x ← place p; return (ArgumentExpr.in_place x)
translate_arg x = do v ← operand x; return (ArgumentExpr.by_value v)

unfoldable pub translate_args : List Operand → T (List ArgumentExpr)
unfolding translate_arg
translate_args [] = return []
translate_args (x ∷ xs) = do a ← translate_arg x; as2 ← translate_args xs; return (a ∷ as2)

-- The fields of the tuple, from the `i`-th on.
unfoldable pub tuple_args : Place → ℕ → List Ty → T (List ArgumentExpr)
unfolding place
tuple_args p i [] = return []
tuple_args p i (ty ∷ tys) = do
  x ← place (record p { projection = p.projection ++ (Projection.field i ∷ []) })
  rest ← tuple_args p (suc i) tys
  return (ArgumentExpr.in_place x ∷ rest)

-- With `extern "rust-call"` the last argument is a tuple, whose fields are passed.
unfoldable pub untuple : Option (List Ty) → List Operand → T (List ArgumentExpr)
unfolding translate_arg tuple_args
untuple tys [] = return []
untuple tys (x ∷ y ∷ xs) = do a ← translate_arg x; rest ← untuple tys (y ∷ xs); return (a ∷ rest)
untuple (some tys) (Operand.move p _ ∷ []) = tuple_args p 0 tys
untuple (some tys) (Operand.copy p _ ∷ []) = tuple_args p 0 tys
untuple _ _ = reading λ _. panic unsupported

abbrev pub call_args : Option (Option (List Ty)) → List Operand → T (List ArgumentExpr)
call_args none args = translate_args args
call_args (some tys) args = untuple tys args

abbrev pub set_first : ArgumentExpr → List ArgumentExpr → Outcome (List ArgumentExpr)
set_first a [] = panic arity
set_first a (_ ∷ rest) = ok (a ∷ rest)

-- The function that is called and its arguments: a virtual call looks the method up in the vtable
-- of the receiver, and passes the thin part of the receiver.
unfoldable pub dispatch :
    Instance → List Operand → List ArgumentExpr → T (ValueExpr × List ArgumentExpr)
unfolding operand by_value get_thin_pointer get_metadata vtable_method_lookup fn_ptr
dispatch instance_ rs_args args = elim instance_.virtual_method [
  | none ↦ return (fn_ptr instance_.fn_name, args)
  | some method ↦ do
    receiver ← argument 0 rs_args
    adjusted ← reading λ _. set_first (by_value (get_thin_pointer receiver)) args
    return (vtable_method_lookup (get_metadata receiver) method, adjusted)
]

unfoldable pub call_function :
    Instance → List Operand → Place → Option ℕ → UnwindAction → Bool → T TerminatorResult
unfolding translate_args untuple translate_unwind_action dispatch place next_name
call_function instance_ rs_args destination target action is_cleanup = do
  args ← call_args instance_.rust_call rs_args
  unwind_block ← translate_unwind_action action is_cleanup
  (callee, arguments) ← dispatch instance_ rs_args args
  d ← place destination
  n ← next_name target
  return (only (Terminator.call callee instance_.conv arguments d n (some unwind_block)))

unfoldable pub translate_call :
    Session → Callee → List Operand → Place → Option ℕ → UnwindAction → Bool → T TerminatorResult
unfolding translate_rs_intrinsic minirust_intrinsic operands place next_name is_panic_fn
    translate_panic call_function
translate_call session (Callee.rust_intrinsic i) args destination target action is_cleanup =
    translate_rs_intrinsic i args destination target
translate_call session (Callee.minirust_intrinsic name) args destination target action is_cleanup =
    do
      i ← reading λ _. minirust_intrinsic name
      vs ← operands args
      d ← place destination
      n ← next_name target
      return (only (Terminator.intrinsic i vs d n))
translate_call session (Callee.function f) args destination target action is_cleanup =
    if is_panic_fn f.name
    then (do t ← translate_panic session.panic_strategy action is_cleanup; return (only t))
    else call_function f args destination target action is_cleanup
translate_call session Callee.other_callee args destination target action is_cleanup =
    reading λ _. panic unsupported
