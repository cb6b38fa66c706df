-- ===== src/Build/Terminators.antt =====
-- tooling/miniutil/src/build/terminator.rs: one function for each terminator. A block is given
-- by its number.
use mts_minirust_work.Prelude.{ℕ, List, [], ◌∷◌, Option, none, some}
use mts_minirust_work.Prelude.Int.{ℤ, pos, int_eq}
use mts_minirust_work.Prelude.Maps.{collect}
use mts_minirust_work.Prelude.Outcome.{Outcome, ok, ◌>>=◌}
use mts_minirust_work.Lang.Syntax.{
  BbName, IntBinOp, IntrinsicOp, IntrinsicLockOp, ValueExpr, PlaceExpr, ArgumentExpr, Terminator,
  CallingConvention,
}
use mts_minirust_work.Build.Ty.{RustTy}
use mts_minirust_work.Build.Expr.{bool_to_int, fn_ptr, unit_place}

unfoldable pub goto : ℕ → Terminator
goto x = Terminator.goto x

unfoldable pub if_ : ValueExpr → ℕ → ℕ → Outcome Terminator
unfolding bool_to_int
if_ condition then_blk else_blk = do
  value ← bool_to_int RustTy.u8 condition
  ok (Terminator.switch value ((pos 1, then_blk) ∷ []) else_blk)

unfoldable pub switch_int : ValueExpr → List (ℤ × ℕ) → ℕ → Terminator
unfolding collect
switch_int value cases fallback = Terminator.switch value (collect cases []) fallback

unfoldable pub unreachable : Terminator
unreachable = Terminator.unreachable

unfoldable pub call : ℕ → List ArgumentExpr → PlaceExpr → Option ℕ → Terminator
unfolding fn_ptr
call f args ret next = Terminator.call (fn_ptr f) CallingConvention.c args ret next none

unfoldable pub return_ : Terminator
return_ = Terminator.return

unfoldable pub start_unwind : ValueExpr → BbName → Terminator
start_unwind unwind_payload cleanup = Terminator.start_unwind unwind_payload cleanup

unfoldable pub stop_unwind : BbName → Terminator
stop_unwind next_block = Terminator.stop_unwind next_block

unfoldable pub resume_unwind : Terminator
resume_unwind = Terminator.resume_unwind

pub data FetchBinOp : Type 0 where
  add sub : FetchBinOp

-- the operation on integers that an atomic fetch applies
unfoldable pub fetch_op : FetchBinOp → IntBinOp
fetch_op add = IntBinOp.add
fetch_op sub = IntBinOp.sub

unfoldable pub assume : ValueExpr → ℕ → Terminator
unfolding unit_place
assume val next = Terminator.intrinsic IntrinsicOp.assume (val ∷ []) unit_place (some next)

unfoldable pub print : ValueExpr → ℕ → Terminator
unfolding unit_place
print arg next = Terminator.intrinsic IntrinsicOp.print_stdout (arg ∷ []) unit_place (some next)

unfoldable pub eprint : ValueExpr → ℕ → Terminator
unfolding unit_place
eprint arg next = Terminator.intrinsic IntrinsicOp.print_stderr (arg ∷ []) unit_place (some next)

unfoldable pub allocate : ValueExpr → ValueExpr → PlaceExpr → ℕ → Terminator
allocate size align ret_place next =
    Terminator.intrinsic IntrinsicOp.allocate (size ∷ align ∷ []) ret_place (some next)

unfoldable pub deallocate : ValueExpr → ValueExpr → ValueExpr → ℕ → Terminator
unfolding unit_place
deallocate ptr size align next =
    Terminator.intrinsic IntrinsicOp.deallocate (ptr ∷ size ∷ align ∷ []) unit_place (some next)

unfoldable pub exit : Terminator
unfolding unit_place
exit = Terminator.intrinsic IntrinsicOp.exit [] unit_place none

unfoldable pub abort : Terminator
unfolding unit_place
abort = Terminator.intrinsic IntrinsicOp.abort [] unit_place none

unfoldable pub spawn : ValueExpr → ValueExpr → PlaceExpr → ℕ → Terminator
spawn fn_ptr data_ptr ret next =
    Terminator.intrinsic IntrinsicOp.spawn (fn_ptr ∷ data_ptr ∷ []) ret (some next)

unfoldable pub join : ValueExpr → ℕ → Terminator
unfolding unit_place
join thread_id next = Terminator.intrinsic IntrinsicOp.join (thread_id ∷ []) unit_place (some next)

unfoldable pub raw_eq : PlaceExpr → ValueExpr → ValueExpr → ℕ → Terminator
raw_eq ret left_ptr right_ptr next =
    Terminator.intrinsic IntrinsicOp.raw_eq (left_ptr ∷ right_ptr ∷ []) ret (some next)

unfoldable pub atomic_store : ValueExpr → ValueExpr → ℕ → Terminator
unfolding unit_place
atomic_store ptr src next =
    Terminator.intrinsic IntrinsicOp.atomic_store (ptr ∷ src ∷ []) unit_place (some next)

unfoldable pub atomic_load : PlaceExpr → ValueExpr → ℕ → Terminator
atomic_load dest ptr next = Terminator.intrinsic IntrinsicOp.atomic_load (ptr ∷ []) dest (some next)

unfoldable pub compare_exchange : PlaceExpr → ValueExpr → ValueExpr → ValueExpr → ℕ → Terminator
compare_exchange dest ptr current next_val next =
    Terminator.intrinsic IntrinsicOp.atomic_compare_exchange (ptr ∷ current ∷ next_val ∷ []) dest
      (some next)

unfoldable pub expose_provenance : PlaceExpr → ValueExpr → ℕ → Terminator
expose_provenance dest ptr next =
    Terminator.intrinsic IntrinsicOp.pointer_expose_provenance (ptr ∷ []) dest (some next)

unfoldable pub with_exposed_provenance : PlaceExpr → ValueExpr → ℕ → Terminator
with_exposed_provenance dest addr next =
    Terminator.intrinsic IntrinsicOp.pointer_with_exposed_provenance (addr ∷ []) dest (some next)

unfoldable pub lock_create : PlaceExpr → ℕ → Terminator
lock_create ret next =
    Terminator.intrinsic (IntrinsicOp.lock IntrinsicLockOp.create) [] ret (some next)

unfoldable pub lock_acquire : ValueExpr → ℕ → Terminator
unfolding unit_place
lock_acquire lock_id next =
    Terminator.intrinsic (IntrinsicOp.lock IntrinsicLockOp.acquire) (lock_id ∷ []) unit_place
      (some next)

unfoldable pub lock_release : ValueExpr → ℕ → Terminator
unfolding unit_place
lock_release lock_id next =
    Terminator.intrinsic (IntrinsicOp.lock IntrinsicLockOp.release) (lock_id ∷ []) unit_place
      (some next)

unfoldable pub get_unwind_payload : PlaceExpr → ℕ → Terminator
get_unwind_payload ret next = Terminator.intrinsic IntrinsicOp.get_unwind_payload [] ret (some next)

unfoldable pub atomic_fetch : FetchBinOp → PlaceExpr → ValueExpr → ValueExpr → ℕ → Terminator
unfolding fetch_op
atomic_fetch binop dest ptr other next =
    Terminator.intrinsic (IntrinsicOp.atomic_fetch_and_op (fetch_op binop)) (ptr ∷ other ∷ []) dest
      (some next)
