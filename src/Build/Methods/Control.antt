-- ===== src/Build/Methods/Control.antt =====
-- tooling/miniutil/src/build/terminator.rs: `switch_int`, `if_` and `while_`.
use mts_minirust_work.Prelude.{List, [], ◌∷◌, ◌++◌, Option, none, some, nat_eq}
use mts_minirust_work.Prelude.Int.{ℤ, pos, int_eq}
use mts_minirust_work.Prelude.Maps.{Map, try_insert}
use mts_minirust_work.Prelude.Outcome.{ok}
use mts_minirust_work.Lang.Syntax.{BbName, ValueExpr, Terminator, BbKind}
use mts_minirust_work.Build.Ty.{RustTy}
use mts_minirust_work.Build.Expr.{bool_to_int}
use mts_minirust_work.Build.State.{
  M, pure, ◌>>=◌, ◌>>◌, lift, declare_block, set_cur_block, cur_kind,
}
use mts_minirust_work.Build.Methods.Blocks.{finish_block}
use mts_minirust_work.Build.Methods.Calls.{goto, begin_next}

-- A branch of a switch: the builder of its block, and the block.
abbrev pub Branch : Type 0
Branch = M (Unit {0}) × BbName

-- the loop over the cases: a block for each, in the map and in the list of branches
unfoldable pub declare_cases :
    List (ℤ × M (Unit {0})) → Map ℤ BbName → List Branch → M (Map ℤ BbName × List Branch)
unfolding declare_block try_insert
declare_cases [] branch_map branches = pure (branch_map, branches)
declare_cases ((case, branch) ∷ cases) branch_map branches = do
  new_block ← declare_block
  branch_map' ← lift (try_insert case new_block branch_map)
  declare_cases cases branch_map' (branches ++ (branch, new_block) ∷ [])

-- `after_switch_block.get_or_insert_with(|| self.declare_block())`
unfoldable pub get_or_declare : Option BbName → M BbName
unfolding declare_block
get_or_declare none = declare_block
get_or_declare (some b) = pure b

unfoldable pub goto_after : Option BbName → M (Option BbName)
unfolding get_or_declare goto
goto_after after = do b ← get_or_declare after; goto b; pure (some b)

-- A branch that did not finish its block jumps to the block after the switch.
unfoldable pub join_after : Option BbName → M (Option BbName)
unfolding goto_after
join_after after fb = elim fb.cur_block [ none ↦ ok (after, fb) | some _ ↦ goto_after after fb ]

-- the loop over the branches
unfoldable pub build_branches : List Branch → BbKind → Option BbName → M (Option BbName)
unfolding set_cur_block join_after
build_branches [] kind after = pure after
build_branches ((branch, block) ∷ branches) kind after = do
  set_cur_block block kind
  branch
  after' ← join_after after
  build_branches branches kind after'

unfoldable pub switch_int : ValueExpr → List (ℤ × M (Unit {0})) → M (Unit {0}) → M (Unit {0})
unfolding cur_kind declare_cases declare_block finish_block build_branches set_cur_block
switch_int value cases fallback = do
  kind ← cur_kind
  (branch_map, branches) ← declare_cases cases [] []
  fallback_block ← declare_block
  finish_block (Terminator.switch value branch_map fallback_block)
  after ← build_branches (branches ++ (fallback, fallback_block) ∷ []) kind none
  begin_next after kind

unfoldable pub if_ : ValueExpr → M (Unit {0}) → M (Unit {0}) → M (Unit {0})
unfolding switch_int bool_to_int
if_ condition then_branch else_branch = do
  value ← lift (bool_to_int RustTy.u8 condition)
  switch_int value ((pos 1, then_branch) ∷ []) else_branch

-- `if self.cur_block.is_some() { self.goto(cond) }`
unfoldable pub loop_back : BbName → M (Unit {0})
unfolding goto
loop_back cond fb = elim fb.cur_block [ none ↦ ok (tt, fb) | some _ ↦ goto cond fb ]

unfoldable pub while_ : ValueExpr → M (Unit {0}) → M (Unit {0})
unfolding declare_block cur_kind goto set_cur_block if_ loop_back
while_ condition body = do
  cond ← declare_block
  kind ← cur_kind
  goto cond
  set_cur_block cond kind
  if_ condition (do body; loop_back cond) (pure tt)
