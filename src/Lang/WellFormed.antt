-- ===== src/Lang/WellFormed.antt =====
-- spec/lang/well-formed.md: the rules that concern the shape of a function, without the types
-- of its expressions. `Result<()>` is a Boolean here: the message of a failure is dropped.
use mts_minirust_work.Prelude.{
  ℕ, Bool, true, false, ◌&&◌, ◌||◌, List, [], ◌∷◌, Option, none, some, ◌==◌, nat_eq, leb, ◌+◌,
  if◌then◌else◌,
}
use mts_minirust_work.Prelude.Maps.{Map, get, contains_key}
use mts_minirust_work.Prelude.Int.{ℤ}
use mts_minirust_work.Lang.Types.{Size, Cells, LayoutStrategy, UnsafeCellStrategy}
use mts_minirust_work.Lang.Syntax.{
  LocalName, BbName, Terminator, BbKind, BasicBlock, Function, goto, switch, unreachable, intrinsic,
  call, return, start_unwind, stop_unwind, resume_unwind, regular, cleanup, catch, terminate,
}

abbrev pub kind_eq : BbKind → BbKind → Bool
kind_eq regular regular = true
kind_eq cleanup cleanup = true
kind_eq catch catch = true
kind_eq terminate terminate = true
kind_eq _ _ = false

-- `Function::check_next_block`
unfoldable pub check_next_block : Map BbName BasicBlock → BbKind → BbName → Bool
check_next_block blocks kind name = elim (get name blocks) [
  | none ↦ false
  | some next ↦ kind_eq next.kind kind
]

-- the kinds that an unwind block may have, seen from the kind of the current block
abbrev pub unwind_kind_ok : BbKind → BbKind → Bool
unwind_kind_ok regular cleanup = true
unwind_kind_ok regular catch = true
unwind_kind_ok regular _ = false
unwind_kind_ok cleanup terminate = true
unwind_kind_ok terminate terminate = true
unwind_kind_ok _ _ = false

-- `Function::check_unwind_block`
unfoldable pub check_unwind_block : Map BbName BasicBlock → BbKind → BbName → Bool
check_unwind_block blocks kind name = elim (get name blocks) [
  | none ↦ false
  | some unwind ↦ unwind_kind_ok kind unwind.kind
]

abbrev pub check_option : (BbName → Bool) → Option BbName → Bool
check_option check none = true
check_option check (some name) = check name

unfoldable pub check_cases : Map BbName BasicBlock → BbKind → Map ℤ BbName → Bool
check_cases blocks kind [] = true
check_cases blocks kind ((_, next) ∷ cases) =
    check_next_block blocks kind next && check_cases blocks kind cases

-- The block transitions of `Terminator::check_wf`.
unfoldable pub check_transitions : Map BbName BasicBlock → BbKind → Terminator → Bool
check_transitions blocks kind (goto next) = check_next_block blocks kind next
check_transitions blocks kind (switch _ cases fallback) =
    check_cases blocks kind cases && check_next_block blocks kind fallback
check_transitions blocks kind unreachable = true
check_transitions blocks kind (intrinsic _ _ _ next) =
    check_option (check_next_block blocks kind) next
check_transitions blocks kind (call _ _ _ _ next unwind) =
    check_option (check_next_block blocks kind) next
    && check_option (check_unwind_block blocks kind) unwind
check_transitions blocks kind return = kind_eq kind regular
check_transitions blocks kind (start_unwind _ unwind) =
    kind_eq kind regular && check_unwind_block blocks kind unwind
check_transitions blocks kind (stop_unwind next) =
    kind_eq kind catch && check_next_block blocks regular next
check_transitions blocks kind resume_unwind = kind_eq kind cleanup

unfoldable pub contains : List ℕ → ℕ → Bool
contains [] x = false
contains (y ∷ ys) x = x == y || contains ys x

-- the locals of the arguments exist and are distinct
unfoldable pub check_args : List LocalName → Function → Bool
check_args [] f = true
check_args (a ∷ as') f =
    contains_key a f.locals && (if contains as' a then false else check_args as' f)

-- The initially live locals of `Function::check_wf`: arguments and return local exist, and are
-- distinct.
unfoldable pub check_live : Function → Bool
unfolding contains check_args
check_live f =
    check_args f.args f
    && (contains_key f.ret f.locals && (if contains f.args f.ret then false else true))

-- `UnsafeCellStrategy::check_cells`, from the end of the cell before
unfoldable pub check_cells : Size → Cells → Size → Bool
check_cells last_end [] size = leb last_end size
check_cells last_end ((start, len) ∷ cells) size =
    leb last_end start && check_cells (start + len) cells size

-- `UnsafeCellStrategy::check_wf`
unfoldable pub check_cell_strategy : UnsafeCellStrategy → LayoutStrategy → Bool
check_cell_strategy (UnsafeCellStrategy.sized cells) (LayoutStrategy.sized size _) =
    check_cells 0 cells size
check_cell_strategy (UnsafeCellStrategy.slice cells) (LayoutStrategy.slice size _) =
    check_cells 0 cells size
check_cell_strategy UnsafeCellStrategy.trait_object (LayoutStrategy.trait_object _) = true
check_cell_strategy (UnsafeCellStrategy.tuple head_cells tail_cells)
      (LayoutStrategy.tuple head tail) =
    check_cells 0 head_cells head.end && check_cell_strategy tail_cells tail
check_cell_strategy _ _ = false
