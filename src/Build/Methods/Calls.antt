-- ===== src/Build/Methods/Calls.antt =====
-- tooling/miniutil/src/build/terminator.rs: the methods of the builder for calls, jumps and
-- unwinding.
use mts_minirust_work.Prelude.{List, Option, none, some, nat_eq}
use mts_minirust_work.Prelude.Int.{int_eq}
use mts_minirust_work.Lang.Syntax.{
  BbName, ValueExpr, PlaceExpr, ArgumentExpr, Terminator, BbKind, CallingConvention,
}
use mts_minirust_work.Build.Expr.{unit_place}
use mts_minirust_work.Build.Terminators
use mts_minirust_work.Build.Terminators.{FetchBinOp}
use mts_minirust_work.Build.State.{M, pure, ◌>>=◌, ◌>>◌, declare_block, set_cur_block, cur_kind}
use mts_minirust_work.Build.Methods.Blocks.{finish_block}

abbrev pub begin_next : Option BbName → BbKind → M (Unit {0})
begin_next none kind = pure tt
begin_next (some next) kind = set_cur_block next kind

unfoldable pub handle_call :
    PlaceExpr
    → ValueExpr
    → List ArgumentExpr
    → CallingConvention
    → Option BbName
    → Option BbName
    → M (Unit {0})
unfolding cur_kind finish_block set_cur_block
handle_call ret f args conv next unwind = do
  kind ← cur_kind
  finish_block (Terminator.call f conv args ret next unwind)
  begin_next next kind

unfoldable pub call_noret : PlaceExpr → ValueExpr → List ArgumentExpr → M (Unit {0})
unfolding handle_call
call_noret ret f args = handle_call ret f args CallingConvention.rust none none

unfoldable pub call_nounwind : PlaceExpr → ValueExpr → List ArgumentExpr → M (Unit {0})
unfolding handle_call declare_block
call_nounwind ret f args = do
  next ← declare_block
  handle_call ret f args CallingConvention.rust (some next) none

unfoldable pub call_ignoreret : ValueExpr → List ArgumentExpr → M (Unit {0})
unfolding handle_call declare_block unit_place
call_ignoreret f args = do
  next ← declare_block
  handle_call unit_place f args CallingConvention.rust (some next) none

unfoldable pub call : PlaceExpr → ValueExpr → List ArgumentExpr → BbName → M (Unit {0})
unfolding handle_call declare_block
call ret f args unwind_block = do
  next ← declare_block
  handle_call ret f args CallingConvention.rust (some next) (some unwind_block)

unfoldable pub call_with_conv :
    PlaceExpr → ValueExpr → List ArgumentExpr → CallingConvention → BbName → M (Unit {0})
unfolding handle_call declare_block
call_with_conv ret f args conv unwind_block = do
  next ← declare_block
  handle_call ret f args conv (some next) (some unwind_block)

unfoldable pub goto : BbName → M (Unit {0})
unfolding finish_block
goto dest = finish_block (Terminator.goto dest)

unfoldable pub start_unwind : ValueExpr → BbName → M (Unit {0})
unfolding finish_block Terminators.start_unwind
start_unwind unwind_payload cleanup = finish_block (Terminators.start_unwind unwind_payload cleanup)

unfoldable pub stop_unwind : BbName → M (Unit {0})
unfolding finish_block Terminators.stop_unwind
stop_unwind next_block = finish_block (Terminators.stop_unwind next_block)
