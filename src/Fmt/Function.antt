-- ===== src/Fmt/Function.antt =====
-- tooling/miniutil/src/fmt/function.rs: printing blocks and functions.
pub mod Printed
pub mod Listed
use mts_minirust_work.Prelude.{Bool, List, [], ◌∷◌, ◌++◌, map, nat_eq, ◌==◌, if◌then◌else◌}
use mts_minirust_work.Lang.Types.{Ty}
use mts_minirust_work.Lang.Syntax.{
  FnName, BbName, LocalName, Statement, BbKind, regular, cleanup, catch, terminate, BasicBlock,
  Function, Program,
}
use mts_minirust_work.Fmt.Text.{Text, codes, show, join, sort_by_key}
use mts_minirust_work.Fmt.State.{Fmt, return, ◌>>=◌}
use mts_minirust_work.Fmt.Ty.{to_string, fmt_type}
use mts_minirust_work.Fmt.Expr.{fmt_local_name, fmt_fn_name}
use mts_minirust_work.Fmt.Statement.{fmt_statement, fmt_terminator}

unfoldable pub fmt_bb_kind : BbKind → Text
fmt_bb_kind regular = []
fmt_bb_kind cleanup = codes " (Cleanup)"
fmt_bb_kind catch = codes " (Catch)"
fmt_bb_kind terminate = codes " (Terminate)"

unfoldable pub fmt_statements : List Statement → Fmt Text
unfolding fmt_statement
fmt_statements [] = return []
fmt_statements (st ∷ sts) = do
  s ← fmt_statement st
  rest ← fmt_statements sts
  return (s ++ codes "\n" ++ rest)

unfoldable pub fmt_bb : BbName → BasicBlock → Bool → Fmt Text
unfolding show fmt_bb_kind fmt_statements fmt_terminator
fmt_bb bb_name bb start = do
  statements ← fmt_statements bb.statements
  terminator ← fmt_terminator bb.terminator
  return (
      (if start then codes "  start bb" else codes "  bb")
      ++ show bb_name
      ++ fmt_bb_kind bb.kind
      ++ codes ":\n"
      ++ statements
      ++ terminator
      ++ codes "\n")

unfoldable pub fmt_locals : List (LocalName × Ty) → Fmt Text
unfolding fmt_local_name fmt_type to_string
fmt_locals [] = return []
fmt_locals ((l, ty) ∷ locals) = do
  t ← fmt_type ty
  rest ← fmt_locals locals
  return (codes "  let " ++ fmt_local_name l ++ codes ": " ++ to_string t ++ codes ";\n" ++ rest)

-- `start` is the name of the start block.
unfoldable pub fmt_blocks : BbName → List (BbName × BasicBlock) → Fmt Text
unfolding fmt_bb
fmt_blocks start [] = return []
fmt_blocks start ((bb_name, bb) ∷ blocks) = do
  b ← fmt_bb bb_name bb (start == bb_name)
  rest ← fmt_blocks start blocks
  return (b ++ rest)

unfoldable pub fmt_function : FnName → Function → Bool → Fmt Text
unfolding fmt_fn_name fmt_local_name join sort_by_key fmt_locals fmt_blocks
fmt_function fn_name f start = do
  locals ← fmt_locals (sort_by_key f.locals)
  blocks ← fmt_blocks f.start (sort_by_key f.blocks)
  return (
      (if start then codes "start fn " else codes "fn ")
      ++ fmt_fn_name fn_name
      ++ codes "("
      ++ join (codes ", ") (map fmt_local_name f.args)
      ++ codes ") -> "
      ++ fmt_local_name f.ret
      ++ codes " {\n"
      ++ locals
      ++ blocks
      ++ codes "}\n\n")

-- The loop of `fmt_functions`: `start` is the name of the start function.
unfoldable pub print_functions : FnName → List (FnName × Function) → Fmt Text
unfolding fmt_function
print_functions start [] = return []
print_functions start ((fn_name, f) ∷ fns) = do
  s ← fmt_function fn_name f (start == fn_name)
  rest ← print_functions start fns
  return (s ++ rest)

unfoldable pub fmt_functions : Program → Fmt Text
unfolding print_functions sort_by_key
fmt_functions prog = print_functions prog.start (sort_by_key prog.functions)
