-- ===== src/Minimize/Body.antt =====
-- tooling/minimize/src/bb.rs and function.rs: translating statements, terminators, blocks and
-- whole bodies.
pub mod Flow
pub mod Cleanup
use mts_minirust_work.Prelude.{
  ℕ, zero, suc, ◌+◌, Bool, true, false, List, [], ◌∷◌, ◌++◌, Option, none, some, if◌then◌else◌, map,
  nat_eq, ltb, leb, ◌==◌, get_elem?, length,
}
use mts_minirust_work.Prelude.Int.{ℤ, pos, int_eq}
use mts_minirust_work.Prelude.Maps.{Map, contains_key, collect}
use mts_minirust_work.Prelude.Outcome.{
  Outcome, ok, panic, guard, and_then, missing_name, unsupported, block_exists, arity, not_an_int,
}
use mts_minirust_work.Lang.Types.{Ty, IntType, PointerMetaKind, unsigned}
use mts_minirust_work.Lang.Syntax.{
  LocalName, BbName, Statement, Terminator, IntrinsicOp, ArgumentExpr, BasicBlock, BbKind, Function,
  PlaceExpr, ValueExpr, UnOp, CastOp, CallingConvention, regular,
}
use mts_minirust_work.Build.Ty.{RustTy, raw_ptr_ty, raw_void_ptr_ty}
use mts_minirust_work.Build.Expr.{
  addr_of, bool_to_int, fn_ptr, get_metadata, get_thin_pointer, unit_place, vtable_method_lookup,
}
use mts_minirust_work.Build.Operators
use mts_minirust_work.Minimize.Mir.{
  Place, Operand, CastKind, Rvalue, MirStatement, MirTerminator, DropGlue, MirBlock, LocalDecl,
  Body, Session,
}
use mts_minirust_work.Minimize.Bits.{SizeOps, int_from_bits}
use mts_minirust_work.Minimize.Place.{Names, lookup, operand_ty}
use mts_minirust_work.Minimize.Rvalue.{translate_rvalue}
use mts_minirust_work.Minimize.Context.{
  FnCtxt, T, return, reading, ◌>>=◌, ◌>>◌, fresh_bb_name, fresh_local, bb_name, insert_block, place,
  operand,
}
use mts_minirust_work.Minimize.Unwind.{block_kind, translate_panic}
use mts_minirust_work.Minimize.Intrinsics.{TerminatorResult, only}
use mts_minirust_work.Minimize.Call.{translate_call}

-- A statement, or an intrinsic with its destination and arguments, which ends the block.
pub data StatementResult : Type 0 where
  statement : Statement → StatementResult
  intrinsic : IntrinsicOp → PlaceExpr → List ValueExpr → StatementResult

abbrev pub local_name : ℕ → T LocalName
local_name l = reading λ names. lookup l names

abbrev pub place_statement : (PlaceExpr → Statement) → Place → T StatementResult
place_statement f p = do x ← place p; return (statement (f x))

-- the casts that are intrinsics, with their operands
unfoldable pub provenance_intrinsic : Rvalue → Option (IntrinsicOp × Operand)
provenance_intrinsic (Rvalue.cast CastKind.pointer_expose_provenance x ty) =
    some (IntrinsicOp.pointer_expose_provenance, x)
provenance_intrinsic (Rvalue.cast CastKind.pointer_with_exposed_provenance x ty) =
    some (IntrinsicOp.pointer_with_exposed_provenance, x)
provenance_intrinsic _ = none

unfoldable pub translate_assign : Session → Place → Rvalue → T StatementResult
unfolding provenance_intrinsic place operand translate_rvalue
translate_assign session p rval = do
  d ← place p
  elim (provenance_intrinsic rval) [
    | some (op, x) ↦ do v ← operand x; return (intrinsic op d (v ∷ []))
    | none ↦ do
      v ← reading λ names. translate_rvalue session names rval
      return (statement (Statement.assign d v))
  ]

unfoldable pub translate_stmt : Session → MirStatement → T StatementResult
unfolding translate_assign lookup place operand unit_place
translate_stmt session (MirStatement.assign p rval) = translate_assign session p rval
translate_stmt session (MirStatement.storage_live l) = do
  name ← local_name l
  return (statement (Statement.storage_live name))
translate_stmt session (MirStatement.storage_dead l) = do
  name ← local_name l
  return (statement (Statement.storage_dead name))
translate_stmt session (MirStatement.retag fn_entry p) =
    place_statement (λ x. Statement.validate x fn_entry) p
translate_stmt session (MirStatement.deinit p) = place_statement Statement.deinit p
translate_stmt session (MirStatement.set_discriminant p d) =
    place_statement (λ x. Statement.set_discriminant x d) p
translate_stmt session (MirStatement.assume x) = do
  v ← operand x
  return (intrinsic IntrinsicOp.assume unit_place (v ∷ []))
translate_stmt session (MirStatement.place_mention p) = place_statement Statement.place_mention p
translate_stmt session MirStatement.other_statement = reading λ _. panic unsupported

abbrev u8_type : IntType
u8_type = record { signed = unsigned; size = 1 }

-- The value that is switched over, as an integer, and its type.
abbrev pub switch_value : Ty → ValueExpr → Outcome (ValueExpr × IntType)
switch_value Ty.bool v =
    ok (ValueExpr.un_op (UnOp.cast (CastOp.transmute (Ty.int u8_type))) v, u8_type)
switch_value (Ty.int ity) v = ok (v, ity)
switch_value _ v = panic not_an_int

unfoldable pub translate_cases : SizeOps → IntType → List (ℕ × ℕ) → T (List (ℤ × BbName))
unfolding int_from_bits bb_name
translate_cases ops ity [] = return []
translate_cases ops ity ((value, target) ∷ cases) = do
  i ← reading λ _. int_from_bits ops value ity
  n ← bb_name target
  rest ← translate_cases ops ity cases
  return ((i, n) ∷ rest)

-- `build::not(condition)` if the condition is to be false
abbrev pub expect : Bool → ValueExpr → Outcome ValueExpr
expect true v = ok v
expect false v = Operators.not v

-- `try_insert(name, block).unwrap()`, and `insert` with the assertion that nothing was there
unfoldable pub insert_new_block : BbName → BasicBlock → T (Unit {0})
unfolding contains_key insert_block
insert_new_block name block fc =
    if contains_key name fc.blocks then panic block_exists else insert_block name block fc

-- The drop function and the pointer that it gets.
abbrev pub drop_call : DropGlue → PlaceExpr → Outcome (ValueExpr × ValueExpr)
drop_call (DropGlue.static f) x =
    and_then (addr_of x raw_void_ptr_ty) λ pointer. ok (fn_ptr f, pointer)
drop_call (DropGlue.dynamic trait_name) x =
    and_then (addr_of x (raw_ptr_ty (PointerMetaKind.vtable_pointer trait_name)))
      λ pointer. ok (vtable_method_lookup (get_metadata pointer) 0, get_thin_pointer pointer)

unfoldable pub translate_terminator : Session → Bool → MirTerminator → T TerminatorResult
unfolding bb_name translate_call operand translate_cases collect translate_panic fresh_bb_name
    insert_new_block bool_to_int place unit_place
translate_terminator session is_cleanup MirTerminator.return = return (only Terminator.return)
translate_terminator session is_cleanup (MirTerminator.goto target) = do
  n ← bb_name target
  return (only (Terminator.goto n))
translate_terminator session is_cleanup (MirTerminator.call f args destination target action) =
    translate_call session f args destination target action is_cleanup
translate_terminator session is_cleanup (MirTerminator.switch_int discr targets otherwise) = do
  v ← operand discr
  (value, int_ty) ← reading λ _. switch_value (operand_ty discr) v
  cases ← translate_cases session.size_ops int_ty targets
  fallback ← bb_name otherwise
  return (only (Terminator.switch value (collect cases []) fallback))
translate_terminator session is_cleanup MirTerminator.unreachable =
    return (only Terminator.unreachable)
translate_terminator session is_cleanup (MirTerminator.assert cond expected target action) = do
  v ← operand cond
  condition ← reading λ _. expect expected v
  t ← translate_panic session.panic_strategy action is_cleanup
  panic_block_name ← fresh_bb_name
  insert_new_block panic_block_name
      (record { statements = []; terminator = t; kind = block_kind is_cleanup })
  next_block ← bb_name target
  value ← reading λ _. bool_to_int RustTy.u8 condition
  return (only (Terminator.switch value ((pos 1, next_block) ∷ []) panic_block_name))
translate_terminator session is_cleanup (MirTerminator.drop p glue target) = do
  x ← place p
  (drop_fn, pointer) ← reading λ _. drop_call glue x
  n ← bb_name target
  return (
      only (
        Terminator.call drop_fn CallingConvention.rust (ArgumentExpr.by_value pointer ∷ [])
          unit_place (some n) none))
translate_terminator session is_cleanup MirTerminator.unwind_resume =
    return (only Terminator.resume_unwind)
translate_terminator session is_cleanup MirTerminator.other_terminator =
    reading λ _. panic unsupported

-- The loop over the statements: the name and the statements of the block that is being built.
unfoldable pub translate_stmts :
    Session → BbKind → BbName → List Statement → List MirStatement → T (BbName × List Statement)
unfolding translate_stmt fresh_bb_name insert_new_block
translate_stmts session kind name statements [] = return (name, statements)
translate_stmts session kind name statements (st ∷ sts) = do
  r ← translate_stmt session st
  elim r [
    | statement s ↦ translate_stmts session kind name (statements ++ (s ∷ [])) sts
    | intrinsic op destination arguments ↦ do
      next_bb ← fresh_bb_name
      insert_new_block name (record {
        statements = statements;
        terminator = Terminator.intrinsic op arguments destination (some next_bb);
        kind = kind;
      })
      translate_stmts session kind next_bb [] sts
  ]

unfoldable pub translate_bb : Session → BbName → MirBlock → T (Unit {0})
unfolding translate_stmts translate_terminator insert_new_block
translate_bb session name bb = do
  (last, statements) ← translate_stmts session (block_kind bb.is_cleanup) name [] bb.statements
  r ← translate_terminator session bb.is_cleanup bb.terminator
  insert_new_block last (record {
    statements = statements ++ r.stmts;
    terminator = r.terminator;
    kind = block_kind bb.is_cleanup;
  })
