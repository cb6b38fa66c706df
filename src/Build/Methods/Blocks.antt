-- ===== src/Build/Methods/Blocks.antt =====
-- tooling/miniutil/src/build/statement.rs and terminator.rs: the methods of the builder that
-- append a statement or finish the current block.
use mts_minirust_work.Prelude.{Bool, none, some, nat_eq}
use mts_minirust_work.Prelude.Int.{ℤ, int_eq}
use mts_minirust_work.Prelude.Maps.{try_insert}
use mts_minirust_work.Prelude.Outcome
use mts_minirust_work.Prelude.Outcome.{Outcome, ok, panic, not_a_local, no_current_block}
use mts_minirust_work.Lang.Syntax.{BbName, ValueExpr, PlaceExpr, Statement, Terminator, BasicBlock}
use mts_minirust_work.Build.Terminators
use mts_minirust_work.Build.Terminators.{FetchBinOp}
use mts_minirust_work.Build.State.{
  M, CurBlock, ◌>>=◌, ◌>>◌, declare_block, set_cur_block, cur_kind, push_statement,
}

unfoldable pub assign : PlaceExpr → ValueExpr → M (Unit {0})
unfolding push_statement
assign destination source = push_statement (Statement.assign destination source)

unfoldable pub place_mention : PlaceExpr → M (Unit {0})
unfolding push_statement
place_mention place = push_statement (Statement.place_mention place)

unfoldable pub set_discriminant : PlaceExpr → ℤ → M (Unit {0})
unfolding push_statement
set_discriminant destination value = push_statement (Statement.set_discriminant destination value)

unfoldable pub validate : PlaceExpr → Bool → M (Unit {0})
unfolding push_statement
validate place fn_entry = push_statement (Statement.validate place fn_entry)

unfoldable pub storage_live : PlaceExpr → M (Unit {0})
unfolding push_statement
storage_live (PlaceExpr.local name) fb = push_statement (Statement.storage_live name) fb
storage_live _ fb = panic not_a_local

unfoldable pub storage_dead : PlaceExpr → M (Unit {0})
unfolding push_statement
storage_dead (PlaceExpr.local name) fb = push_statement (Statement.storage_dead name) fb
storage_dead _ fb = panic not_a_local

abbrev pub block_of : CurBlock → Terminator → BasicBlock
block_of c t = record { statements = c.statements; terminator = t; kind = c.kind }

unfoldable pub finish_block : Terminator → M (Unit {0})
unfolding try_insert
finish_block t fb = elim fb.cur_block [
  | none ↦ panic no_current_block
  | some c ↦
      Outcome.◌>>=◌ (try_insert c.name (block_of c t) fb.blocks)
        (λ blocks. ok (tt, record fb { blocks = blocks; cur_block = none }))
]

-- Finishes the current block and begins a new one of the same kind.
unfoldable pub finish_with_next_block : (BbName → Terminator) → M (Unit {0})
unfolding cur_kind declare_block finish_block set_cur_block
finish_with_next_block builder = do
  kind ← cur_kind
  next ← declare_block
  finish_block (builder next)
  set_cur_block next kind

unfoldable pub exit : M (Unit {0})
unfolding finish_block Terminators.exit
exit = finish_block Terminators.exit

unfoldable pub abort : M (Unit {0})
unfolding finish_block Terminators.abort
abort = finish_block Terminators.abort

unfoldable pub unreachable : M (Unit {0})
unfolding finish_block
unreachable = finish_block Terminator.unreachable

unfoldable pub return_ : M (Unit {0})
unfolding finish_block
return_ = finish_block Terminator.return

unfoldable pub resume_unwind : M (Unit {0})
unfolding finish_block
resume_unwind = finish_block Terminator.resume_unwind
