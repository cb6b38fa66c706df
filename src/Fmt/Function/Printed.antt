-- ===== src/Fmt/Function/Printed.antt =====
-- tooling/miniutil/src/fmt/function.rs: the parentheses of printed functions, and the composite
-- types that printing lists.
use mts_minirust_work.Prelude.{
  ℕ, ◌+◌, refl, Bool, true, false, List, [], ◌∷◌, map, arith, nat_eq, ◌==◌, if◌then◌else◌,
}
use mts_minirust_work.Lang.Types.{Ty}
use mts_minirust_work.Lang.Syntax.{
  FnName, BbName, LocalName, Statement, BbKind, regular, cleanup, catch, terminate, BasicBlock,
  Function, Program,
}
use mts_minirust_work.Fmt.Text.{Text, codes, sort_by_key}
use mts_minirust_work.Fmt.Text.Sorted.{sum_by-sort_by_key}
use mts_minirust_work.Fmt.Text.Parens.{
  sum_by, paren_rules, LeavesOpen, LeaveOpen, NoParens, join-LeavesOpen,
}
use mts_minirust_work.Fmt.State.Emits.{Emits, Emits-return, Emits-bind, Emits-weaken}
use mts_minirust_work.Fmt.Ty.Printed.{IsComposite, fmt_type-Composite}
use mts_minirust_work.Fmt.Expr.{fmt_local_name}
use mts_minirust_work.Fmt.Expr.Printed.{fmt_local_name-NoParens, fmt_fn_name-NoParens}
use mts_minirust_work.Fmt.Statement.Printed.{
  unclosed_statement, unclosed_terminator, fmt_statement-Emits, fmt_terminator-Emits,
}
use mts_minirust_work.Fmt.Function.{
  fmt_bb_kind, fmt_statements, fmt_bb, fmt_locals, fmt_blocks, fmt_function, print_functions,
  fmt_functions,
}

fmt_bb_kind-Closed : (kind : BbKind) → LeavesOpen 0 (fmt_bb_kind kind)
unfolding fmt_bb_kind
fmt_bb_kind-Closed regular = refl
fmt_bb_kind-Closed cleanup = refl
fmt_bb_kind-Closed catch = refl
fmt_bb_kind-Closed terminate = refl

fmt_statements-Emits :
    (sts : List Statement)
    → Emits IsComposite (LeavesOpen (sum_by unclosed_statement sts)) (fmt_statements sts)
unfolding fmt_statements
fmt_statements-Emits [] = Emits-return _ refl
fmt_statements-Emits (st ∷ sts) = Emits-bind (fmt_statement-Emits st) λ s h.
    Emits-bind (fmt_statements-Emits sts) λ rest k. Emits-return _ (grind (paren_rules, h, k))

unfoldable pub unclosed_block : BbName × BasicBlock → ℕ
unfolding unclosed_statement unclosed_terminator
unclosed_block (name, bb) =
    sum_by unclosed_statement bb.statements + unclosed_terminator bb.terminator

start_text-NoParens :
    (start : Bool) (s t : Text) → NoParens s → NoParens t → NoParens (if start then s else t)
start_text-NoParens true s t h k = h
start_text-NoParens false s t h k = k

fmt_bb-Emits :
    (name : BbName) (bb : BasicBlock) (start : Bool)
    → Emits IsComposite (LeavesOpen (unclosed_block (name, bb))) (fmt_bb name bb start)
unfolding fmt_bb unclosed_block
fmt_bb-Emits name bb start = Emits-bind (fmt_statements-Emits bb.statements) λ sts h.
    Emits-bind (fmt_terminator-Emits bb.terminator) λ t k. Emits-return _ (
      grind (
        paren_rules,
        h,
        k,
        fmt_bb_kind-Closed bb.kind,
        start_text-NoParens start (codes "  start bb") (codes "  bb") (refl, refl) (refl, refl),
      ))

pub fmt_locals-Emits :
    (locals : List (LocalName × Ty)) → Emits IsComposite (LeavesOpen 0) (fmt_locals locals)
unfolding fmt_locals
fmt_locals-Emits [] = Emits-return _ refl
fmt_locals-Emits ((l, ty) ∷ locals) = Emits-bind (fmt_type-Composite ty) λ t h.
    Emits-bind (fmt_locals-Emits locals)
      λ rest k. Emits-return _ (grind (paren_rules, h, k, fmt_local_name-NoParens l))

pub fmt_blocks-Emits :
    (start : BbName) (blocks : List (BbName × BasicBlock))
    → Emits IsComposite (LeavesOpen (sum_by unclosed_block blocks)) (fmt_blocks start blocks)
unfolding fmt_blocks
fmt_blocks-Emits start [] = Emits-return _ refl
fmt_blocks-Emits start ((name, bb) ∷ blocks) =
    Emits-bind (fmt_bb-Emits name bb (start == name)) λ b h.
      Emits-bind (fmt_blocks-Emits start blocks)
        λ rest k. Emits-return _ (grind (paren_rules, h, k))

unfoldable pub unclosed_function : FnName × Function → ℕ
unfolding unclosed_block
unclosed_function (name, f) = sum_by unclosed_block f.blocks

args-LeaveOpen : (args : List LocalName) → LeaveOpen 0 (map fmt_local_name args)
args-LeaveOpen [] = refl
args-LeaveOpen (a ∷ args) = grind (arith, fmt_local_name-NoParens a, args-LeaveOpen args)

fmt_function-Emits :
    (name : FnName) (f : Function) (start : Bool)
    → Emits IsComposite (LeavesOpen (unclosed_function (name, f))) (fmt_function name f start)
unfolding fmt_function unclosed_function
fmt_function-Emits name f start = Emits-bind (fmt_locals-Emits (sort_by_key f.locals)) λ ls h.
    Emits-bind (fmt_blocks-Emits f.start (sort_by_key f.blocks)) λ bs k. Emits-return _ (
      grind (
        paren_rules,
        h,
        k,
        fmt_fn_name-NoParens name,
        fmt_local_name-NoParens f.ret,
        sum_by-sort_by_key unclosed_block f.blocks,
        join-LeavesOpen 0 (codes ", ") (map fmt_local_name f.args) (refl, refl)
            (args-LeaveOpen f.args),
        start_text-NoParens start (codes "start fn ") (codes "fn ") (refl, refl) (refl, refl),
      ))

pub print_functions-Emits :
    (start : FnName) (fns : List (FnName × Function))
    → Emits IsComposite (LeavesOpen (sum_by unclosed_function fns)) (print_functions start fns)
unfolding print_functions
print_functions-Emits start [] = Emits-return _ refl
print_functions-Emits start ((name, f) ∷ fns) =
    Emits-bind (fmt_function-Emits name f (start == name)) λ s h.
      Emits-bind (print_functions-Emits start fns)
        λ rest k. Emits-return _ (grind (paren_rules, h, k))

pub fmt_functions-Emits :
    (prog : Program)
    → Emits IsComposite (LeavesOpen (sum_by unclosed_function prog.functions)) (fmt_functions prog)
unfolding fmt_functions
fmt_functions-Emits prog =
    Emits-weaken (print_functions-Emits prog.start (sort_by_key prog.functions))
      λ s h. grind (arith, h, sum_by-sort_by_key unclosed_function prog.functions)
