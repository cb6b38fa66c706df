-- ===== src/Minimize/Unwind.antt =====
-- tooling/minimize/src/bb.rs: unwinding. The blocks that are added stand between those of the MIR.
pub mod Flow
use mts_minirust_work.Prelude.{
  ℕ, Bool, true, false, List, [], ◌∷◌, Option, none, some, if◌then◌else◌,
}
use mts_minirust_work.Prelude.Int.{pos}
use mts_minirust_work.Prelude.Outcome.{guard, unsupported, arity, Outcome, ok, panic}
use mts_minirust_work.Lang.Types.{PointerMetaKind, PtrType, Ty, IntType, signed}
use mts_minirust_work.Lang.Syntax.{
  LocalName, BbName, BbKind, BasicBlock, Statement, Terminator, IntrinsicOp, CallingConvention,
  PlaceExpr, ValueExpr, regular, cleanup, catch, terminate,
}
use mts_minirust_work.Build.Ty.{RustTy}
use mts_minirust_work.Build.Expr.{by_value, const_int, unit_place, unit_ptr}
use mts_minirust_work.Build.Terminators
use mts_minirust_work.Minimize.Mir.{UnwindAction, PanicStrategy, Session}
use mts_minirust_work.Minimize.Context.{
  T, return, reading, ◌>>=◌, ◌>>◌, fresh_bb_name, fresh_local, bb_name, insert_block,
}

-- A block without statements, under a fresh name.
unfoldable pub add_block : Terminator → BbKind → T BbName
unfolding fresh_bb_name insert_block
add_block terminator kind = do
  name ← fresh_bb_name
  insert_block name (record { statements = []; terminator = terminator; kind = kind })
  return name

abbrev pub block_kind : Bool → BbKind
block_kind is_cleanup = if is_cleanup then cleanup else regular

abbrev pub unwind_kind : Bool → BbKind
unwind_kind is_cleanup = if is_cleanup then terminate else cleanup

unfoldable pub translate_unwind_action : UnwindAction → Bool → T BbName
unfolding add_block bb_name Terminators.abort
translate_unwind_action UnwindAction.continue is_cleanup = do
  reading λ _. guard (if is_cleanup then false else true) unsupported
  add_block Terminator.resume_unwind cleanup
translate_unwind_action UnwindAction.unreachable is_cleanup =
    add_block Terminator.unreachable (unwind_kind is_cleanup)
translate_unwind_action UnwindAction.terminate is_cleanup =
    add_block Terminators.abort (unwind_kind is_cleanup)
translate_unwind_action (UnwindAction.cleanup cleanup_block) is_cleanup = bb_name cleanup_block

unfoldable pub translate_panic : PanicStrategy → UnwindAction → Bool → T Terminator
unfolding translate_unwind_action unit_ptr Terminators.abort
translate_panic PanicStrategy.unwind action is_cleanup = do
  cleanup_block ← translate_unwind_action action is_cleanup
  return (Terminator.start_unwind unit_ptr cleanup_block)
translate_panic PanicStrategy.abort action is_cleanup = return Terminators.abort

abbrev pub thin_ptr : Ty
thin_ptr = Ty.ptr (PtrType.raw PointerMetaKind.none)

abbrev pub load_local : LocalName → ValueExpr
load_local l = ValueExpr.load (PlaceExpr.local l)

-- `*ret_tmp`, an `i32`
abbrev pub catch_result : LocalName → PlaceExpr
catch_result ret_tmp =
    PlaceExpr.deref (load_local ret_tmp) (Ty.int (record { signed = signed; size = 4 }))

-- The temporary locals of `catch_unwind`.
pub record CatchLocals : Type 0 where
  pub ret_tmp : LocalName
  pub try_fn_tmp : LocalName
  pub data_tmp : LocalName
  pub catch_fn_tmp : LocalName
  pub unwind_payload_tmp : LocalName

unfoldable pub catch_locals : T CatchLocals
unfolding fresh_local
catch_locals = do
  r ← fresh_local thin_ptr
  f ← fresh_local (Ty.ptr PtrType.fn_ptr)
  d ← fresh_local thin_ptr
  c ← fresh_local (Ty.ptr PtrType.fn_ptr)
  p ← fresh_local thin_ptr
  return (record {
    ret_tmp = r;
    try_fn_tmp = f;
    data_tmp = d;
    catch_fn_tmp = c;
    unwind_payload_tmp = p;
  })

abbrev pub catch_dead : CatchLocals → List Statement
catch_dead ls =
    Statement.storage_dead ls.ret_tmp
    ∷ Statement.storage_dead ls.try_fn_tmp
    ∷ Statement.storage_dead ls.data_tmp
    ∷ Statement.storage_dead ls.catch_fn_tmp
    ∷ []

unfoldable pub try_block :
    CatchLocals → ValueExpr → ValueExpr → ValueExpr → PlaceExpr → BbName → BbName → BasicBlock
unfolding by_value unit_place
try_block ls try_fn data_ptr catch_fn destination return_bb get_payload_bb = record {
  statements =
      Statement.storage_live ls.ret_tmp
      ∷ Statement.storage_live ls.try_fn_tmp
      ∷ Statement.storage_live ls.data_tmp
      ∷ Statement.storage_live ls.catch_fn_tmp
      ∷ Statement.assign (PlaceExpr.local ls.ret_tmp)
          (ValueExpr.addr_of destination (PtrType.raw PointerMetaKind.none))
      ∷ Statement.assign (PlaceExpr.local ls.try_fn_tmp) try_fn
      ∷ Statement.assign (PlaceExpr.local ls.data_tmp) data_ptr
      ∷ Statement.assign (PlaceExpr.local ls.catch_fn_tmp) catch_fn
      ∷ [];
  terminator =
      Terminator.call (load_local ls.try_fn_tmp) CallingConvention.rust
        (by_value (load_local ls.data_tmp) ∷ []) unit_place (some return_bb) (some get_payload_bb);
  kind = regular;
}

unfoldable pub catch_block : CatchLocals → ValueExpr → BbName → BasicBlock
unfolding by_value unit_place
catch_block ls one stop_unwind_bb = record {
  statements = Statement.assign (catch_result ls.ret_tmp) one ∷ [];
  terminator =
      Terminator.call (load_local ls.catch_fn_tmp) CallingConvention.rust
        (by_value (load_local ls.data_tmp) ∷ by_value (load_local ls.unwind_payload_tmp) ∷ [])
        unit_place (some stop_unwind_bb) none;
  kind = catch;
}

-- The first three of the arguments.
abbrev pub three : List ValueExpr → Outcome (ValueExpr × ValueExpr × ValueExpr)
three (a ∷ b ∷ c ∷ _) = ok (a, b, c)
three _ = panic arity

unfoldable pub translate_catch_unwind : List ValueExpr → PlaceExpr → BbName → T Terminator
unfolding fresh_bb_name catch_locals insert_block try_block catch_block const_int
translate_catch_unwind args destination target = do
  (try_fn, data_ptr, catch_fn) ← reading λ _. three args
  try_bb ← fresh_bb_name
  return_bb ← fresh_bb_name
  get_payload_bb ← fresh_bb_name
  catch_bb ← fresh_bb_name
  stop_unwind_bb ← fresh_bb_name
  ls ← catch_locals
  insert_block try_bb (try_block ls try_fn data_ptr catch_fn destination return_bb get_payload_bb)
  i0 ← reading λ _. const_int RustTy.i32 (pos 0)
  insert_block return_bb (record {
    statements = Statement.assign (catch_result ls.ret_tmp) i0 ∷ catch_dead ls;
    terminator = Terminator.goto target;
    kind = regular;
  })
  insert_block get_payload_bb (record {
    statements = Statement.storage_live ls.unwind_payload_tmp ∷ [];
    terminator =
        Terminator.intrinsic IntrinsicOp.get_unwind_payload []
          (PlaceExpr.local ls.unwind_payload_tmp) (some catch_bb);
    kind = catch;
  })
  i1 ← reading λ _. const_int RustTy.i32 (pos 1)
  insert_block catch_bb (catch_block ls i1 stop_unwind_bb)
  insert_block stop_unwind_bb (record {
    statements = catch_dead ls;
    terminator = Terminator.stop_unwind target;
    kind = catch;
  })
  return (Terminator.goto try_bb)
