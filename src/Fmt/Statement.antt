-- ===== src/Fmt/Statement.antt =====
-- tooling/miniutil/src/fmt/function.rs: printing statements and terminators.
pub mod Printed
use mts_minirust_work.Prelude.{List, [], ◌∷◌, ◌++◌, Option, none, some}
use mts_minirust_work.Prelude.Int.{ℤ}
use mts_minirust_work.Prelude.Maps.{Map}
use mts_minirust_work.Lang.Syntax.{
  BbName, IntBinOp, IntrinsicLockOp, IntrinsicOp, Statement, ArgumentExpr, CallingConvention,
  Terminator, PlaceExpr, ValueExpr,
}
use mts_minirust_work.Fmt.Text.{Text, codes, show, show_int, show_bool, join}
use mts_minirust_work.Fmt.State.{Fmt, return, ◌>>=◌}
use mts_minirust_work.Fmt.Ty.{to_string, to_atomic_string}
use mts_minirust_work.Fmt.Expr.{fmt_local_name, fmt_place_expr, fmt_value_expr}

unfoldable pub fmt_statement : Statement → Fmt Text
unfolding fmt_place_expr fmt_value_expr show_int fmt_local_name to_string
fmt_statement (Statement.assign destination source) = do
  left ← fmt_place_expr destination
  right ← fmt_value_expr source
  return (codes "    " ++ to_string left ++ codes " = " ++ to_string right ++ codes ";")
fmt_statement (Statement.place_mention place) = do
  p ← fmt_place_expr place
  return (codes "    _ = " ++ to_string p ++ codes ";")
fmt_statement (Statement.set_discriminant destination value) = do
  left ← fmt_place_expr destination
  return
      (codes "    discriminant(" ++ to_string left ++ codes ") = " ++ show_int value ++ codes ";")
fmt_statement (Statement.validate place fn_entry) = do
  p ← fmt_place_expr place
  return (codes "    validate(" ++ to_string p ++ codes ", " ++ show_bool fn_entry ++ codes ");")
fmt_statement (Statement.deinit place) = do
  p ← fmt_place_expr place
  return (codes "    deinit(" ++ to_string p ++ codes ");")
fmt_statement (Statement.storage_live name) =
    return (codes "    storage_live(" ++ fmt_local_name name ++ codes ");")
fmt_statement (Statement.storage_dead name) =
    return (codes "    storage_dead(" ++ fmt_local_name name ++ codes ");")

unfoldable pub fmt_bb_name : BbName → Text
unfolding show
fmt_bb_name id = codes "bb" ++ show id

-- The blocks that a call goes on to.
abbrev pub fmt_next : Option BbName → Option BbName → Text
fmt_next (some next) (some unwind) =
    codes " -> [return: "
    ++ fmt_bb_name next
    ++ codes ", unwind: "
    ++ fmt_bb_name unwind
    ++ codes "]"
fmt_next (some next) none = codes " -> return: " ++ fmt_bb_name next
fmt_next none (some unwind) = codes " -> unwind: " ++ fmt_bb_name unwind
fmt_next none none = []

abbrev pub conv_text : CallingConvention → Text
conv_text CallingConvention.rust = []
conv_text CallingConvention.c = codes "extern \"C\""

unfoldable pub fmt_call :
    Text → CallingConvention → Text → PlaceExpr → Option BbName → Option BbName → Fmt Text
unfolding fmt_place_expr fmt_bb_name to_string
fmt_call callee conv args ret next_block unwind_block = do
  r ← fmt_place_expr ret
  return (
      codes "    "
      ++ to_string r
      ++ codes " = "
      ++ conv_text conv
      ++ callee
      ++ codes "("
      ++ args
      ++ codes ")"
      ++ fmt_next next_block unwind_block
      ++ codes ";")

unfoldable pub fmt_argument : ArgumentExpr → Fmt Text
unfolding fmt_place_expr fmt_value_expr to_string
fmt_argument (ArgumentExpr.by_value value) = do
  v ← fmt_value_expr value
  return (codes "by-value(" ++ to_string v ++ codes ")")
fmt_argument (ArgumentExpr.in_place place) = do
  p ← fmt_place_expr place
  return (codes "in-place(" ++ to_string p ++ codes ")")

unfoldable pub fmt_arguments : List ArgumentExpr → Fmt (List Text)
unfolding fmt_argument
fmt_arguments [] = return []
fmt_arguments (arg ∷ args) = do a ← fmt_argument arg; rest ← fmt_arguments args; return (a ∷ rest)

unfoldable pub fmt_values : List ValueExpr → Fmt (List Text)
unfolding fmt_value_expr to_string
fmt_values [] = return []
fmt_values (arg ∷ args) = do
  a ← fmt_value_expr arg
  rest ← fmt_values args
  return (to_string a ∷ rest)

-- The cases of a switch, the fallback last.
unfoldable pub case_strs : Map ℤ BbName → BbName → List Text
unfolding show_int fmt_bb_name
case_strs [] fallback = (codes "otherwise: " ++ fmt_bb_name fallback) ∷ []
case_strs ((constant, successor) ∷ cases) fallback =
    (show_int constant ++ codes ": " ++ fmt_bb_name successor) ∷ case_strs cases fallback

unfoldable pub fmt_fetch : IntBinOp → Text
fmt_fetch IntBinOp.add = codes "atomic_fetch_add"
fmt_fetch IntBinOp.sub = codes "atomic_fetch_sub"
fmt_fetch _ = codes "atomic_fetch_ILL_FORMED"

unfoldable pub fmt_intrinsic : IntrinsicOp → Text
unfolding fmt_fetch
fmt_intrinsic IntrinsicOp.abort = codes "abort"
fmt_intrinsic IntrinsicOp.assume = codes "assume"
fmt_intrinsic IntrinsicOp.exit = codes "exit"
fmt_intrinsic IntrinsicOp.print_stdout = codes "print"
fmt_intrinsic IntrinsicOp.print_stderr = codes "eprint"
fmt_intrinsic IntrinsicOp.allocate = codes "allocate"
fmt_intrinsic IntrinsicOp.deallocate = codes "deallocate"
fmt_intrinsic IntrinsicOp.spawn = codes "spawn"
fmt_intrinsic IntrinsicOp.join = codes "join"
fmt_intrinsic IntrinsicOp.raw_eq = codes "raw_eq"
fmt_intrinsic IntrinsicOp.atomic_store = codes "atomic_store"
fmt_intrinsic IntrinsicOp.atomic_load = codes "atomic_load"
fmt_intrinsic IntrinsicOp.atomic_compare_exchange = codes "atomic_compare_exchange"
fmt_intrinsic (IntrinsicOp.atomic_fetch_and_op binop) = fmt_fetch binop
fmt_intrinsic (IntrinsicOp.lock IntrinsicLockOp.acquire) = codes "lock_acquire"
fmt_intrinsic (IntrinsicOp.lock IntrinsicLockOp.create) = codes "lock_create"
fmt_intrinsic (IntrinsicOp.lock IntrinsicLockOp.release) = codes "lock_release"
fmt_intrinsic IntrinsicOp.pointer_expose_provenance = codes "pointer_expose_provenance"
fmt_intrinsic IntrinsicOp.pointer_with_exposed_provenance = codes "pointer_with_exposed_provenance"
fmt_intrinsic IntrinsicOp.get_unwind_payload = codes "get_unwind_payload"

unfoldable pub fmt_terminator : Terminator → Fmt Text
unfolding fmt_bb_name fmt_value_expr case_strs join to_string to_atomic_string fmt_arguments
    fmt_values fmt_call fmt_intrinsic
fmt_terminator (Terminator.goto bb) = return (codes "    goto -> " ++ fmt_bb_name bb ++ codes ";")
fmt_terminator (Terminator.switch value cases fallback) = do
  branch_expr ← fmt_value_expr value
  return (
      codes "    switch("
      ++ to_string branch_expr
      ++ codes ") -> [\n      "
      ++ join (codes ",\n      ") (case_strs cases fallback)
      ++ codes "\n    ];")
fmt_terminator Terminator.unreachable = return (codes "    unreachable;")
fmt_terminator (Terminator.call callee conv arguments ret next_block unwind_block) = do
  f ← fmt_value_expr callee
  args ← fmt_arguments arguments
  fmt_call (to_atomic_string f) conv (join (codes ", ") args) ret next_block unwind_block
fmt_terminator Terminator.return = return (codes "    return;")
fmt_terminator (Terminator.start_unwind unwind_payload unwind_block) = do
  payload ← fmt_value_expr unwind_payload
  return (
      codes "    start unwind("
      ++ to_string payload
      ++ codes ") -> unwind: "
      ++ fmt_bb_name unwind_block
      ++ codes " ")
fmt_terminator (Terminator.stop_unwind block_name) =
    return (codes "    start unwind -> unwind: " ++ fmt_bb_name block_name ++ codes " ")
fmt_terminator Terminator.resume_unwind = return (codes "    resume")
fmt_terminator (Terminator.intrinsic op arguments ret next_block) = do
  args ← fmt_values arguments
  fmt_call (fmt_intrinsic op) CallingConvention.rust (join (codes ", ") args) ret next_block none
