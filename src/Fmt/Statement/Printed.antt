-- ===== src/Fmt/Statement/Printed.antt =====
-- tooling/miniutil/src/fmt/function.rs: the parentheses of printed statements and terminators.
use mts_minirust_work.Prelude.{
  ℕ, ◌+◌, refl, Bool, true, false, List, [], ◌∷◌, Option, none, some, arith,
}
use mts_minirust_work.Prelude.Int.{ℤ}
use mts_minirust_work.Prelude.Maps.{Map}
use mts_minirust_work.Lang.Syntax.{
  BbName, IntBinOp, IntrinsicLockOp, IntrinsicOp, Statement, ArgumentExpr, CallingConvention,
  Terminator, PlaceExpr, ValueExpr,
}
use mts_minirust_work.Fmt.Text.{Text, codes, show_bool}
use mts_minirust_work.Fmt.Text.Parens.{
  sum_by, paren_rules, LeavesOpen, LeaveOpen, NoParens, join-LeavesOpen,
}
use mts_minirust_work.Fmt.State.Emits.{Emits, Emits-return, Emits-bind, Emits-weaken}
use mts_minirust_work.Fmt.Ty.Printed.{IsComposite, to_atomic_string-LeavesOpen}
use mts_minirust_work.Fmt.Expr.Printed.{unclosed, unclosed_place, fmt_local_name-NoParens}
use mts_minirust_work.Fmt.Expr.Balance.{fmt_value_expr-Emits, fmt_place_expr-Emits}
use mts_minirust_work.Fmt.Statement.{
  fmt_statement, fmt_bb_name, fmt_next, conv_text, fmt_call, fmt_argument, fmt_arguments,
  fmt_values, case_strs, fmt_fetch, fmt_intrinsic, fmt_terminator,
}

unfoldable pub unclosed_statement : Statement → ℕ
unfolding unclosed
unclosed_statement (Statement.assign destination source) =
    unclosed_place destination + unclosed source
unclosed_statement (Statement.place_mention place) = unclosed_place place
unclosed_statement (Statement.set_discriminant destination value) = unclosed_place destination
unclosed_statement (Statement.validate place fn_entry) = unclosed_place place
unclosed_statement (Statement.deinit place) = unclosed_place place
unclosed_statement (Statement.storage_live name) = 0
unclosed_statement (Statement.storage_dead name) = 0

show_bool-NoParens : (b : Bool) → NoParens (show_bool b)
show_bool-NoParens true = (refl, refl)
show_bool-NoParens false = (refl, refl)

pub fmt_statement-Emits :
    (st : Statement) → Emits IsComposite (LeavesOpen (unclosed_statement st)) (fmt_statement st)
unfolding fmt_statement unclosed_statement
fmt_statement-Emits (Statement.assign destination source) =
    Emits-bind (fmt_place_expr-Emits destination) λ l h.
      Emits-bind (fmt_value_expr-Emits source) λ r k. Emits-return _ (grind (paren_rules, h, k))
fmt_statement-Emits (Statement.place_mention place) =
    Emits-bind (fmt_place_expr-Emits place) λ p h. Emits-return _ (grind (paren_rules, h))
fmt_statement-Emits (Statement.set_discriminant destination value) =
    Emits-bind (fmt_place_expr-Emits destination) λ p h. Emits-return _ (grind (paren_rules, h))
fmt_statement-Emits (Statement.validate place fn_entry) =
    Emits-bind (fmt_place_expr-Emits place)
      λ p h. Emits-return _ (grind (paren_rules, h, show_bool-NoParens fn_entry))
fmt_statement-Emits (Statement.deinit place) =
    Emits-bind (fmt_place_expr-Emits place) λ p h. Emits-return _ (grind (paren_rules, h))
fmt_statement-Emits (Statement.storage_live name) =
    Emits-return _ (grind (paren_rules, fmt_local_name-NoParens name))
fmt_statement-Emits (Statement.storage_dead name) =
    Emits-return _ (grind (paren_rules, fmt_local_name-NoParens name))

fmt_bb_name-NoParens : (id : ℕ) → NoParens (fmt_bb_name id)
unfolding fmt_bb_name
fmt_bb_name-NoParens id = grind paren_rules

fmt_next-NoParens : (next unwind : Option BbName) → NoParens (fmt_next next unwind)
fmt_next-NoParens (some n) (some u) =
    grind (paren_rules, fmt_bb_name-NoParens n, fmt_bb_name-NoParens u)
fmt_next-NoParens (some n) none = grind (paren_rules, fmt_bb_name-NoParens n)
fmt_next-NoParens none (some u) = grind (paren_rules, fmt_bb_name-NoParens u)
fmt_next-NoParens none none = (refl, refl)

conv_text-NoParens : (conv : CallingConvention) → NoParens (conv_text conv)
conv_text-NoParens CallingConvention.rust = (refl, refl)
conv_text-NoParens CallingConvention.c = (refl, refl)

fmt_call-Emits :
    (callee : Text) (conv : CallingConvention) (args : Text) (ret : PlaceExpr)
    (next unwind : Option BbName) (m n : ℕ)
    → LeavesOpen m callee
    → LeavesOpen n args
    → Emits IsComposite
        (LeavesOpen (m + n + unclosed_place ret))
        (fmt_call callee conv args ret next unwind)
unfolding fmt_call
fmt_call-Emits callee conv args ret next unwind m n h k =
    Emits-bind (fmt_place_expr-Emits ret) λ r c.
      Emits-return _
        (grind (paren_rules, h, k, c, conv_text-NoParens conv, fmt_next-NoParens next unwind))

unfoldable pub unclosed_argument : ArgumentExpr → ℕ
unfolding unclosed
unclosed_argument (ArgumentExpr.by_value value) = unclosed value
unclosed_argument (ArgumentExpr.in_place place) = unclosed_place place

fmt_argument-Emits :
    (arg : ArgumentExpr) → Emits IsComposite (LeavesOpen (unclosed_argument arg)) (fmt_argument arg)
unfolding fmt_argument unclosed_argument
fmt_argument-Emits (ArgumentExpr.by_value value) =
    Emits-bind (fmt_value_expr-Emits value) λ v h. Emits-return _ (grind (paren_rules, h))
fmt_argument-Emits (ArgumentExpr.in_place place) =
    Emits-bind (fmt_place_expr-Emits place) λ p h. Emits-return _ (grind (paren_rules, h))

fmt_arguments-Emits :
    (args : List ArgumentExpr)
    → Emits IsComposite (LeaveOpen (sum_by unclosed_argument args)) (fmt_arguments args)
unfolding fmt_arguments
fmt_arguments-Emits [] = Emits-return _ refl
fmt_arguments-Emits (arg ∷ args) =
    Emits-bind (fmt_argument-Emits arg)
      λ a h. Emits-bind (fmt_arguments-Emits args) λ rest k. Emits-return _ (grind (arith, h, k))

fmt_values-Emits :
    (args : List ValueExpr) → Emits IsComposite (LeaveOpen (sum_by unclosed args)) (fmt_values args)
unfolding fmt_values
fmt_values-Emits [] = Emits-return _ refl
fmt_values-Emits (arg ∷ args) =
    Emits-bind (fmt_value_expr-Emits arg)
      λ a h. Emits-bind (fmt_values-Emits args) λ rest k. Emits-return _ (grind (arith, h, k))

case_strs-LeaveOpen :
    (cases : Map ℤ BbName) (fallback : BbName) → LeaveOpen 0 (case_strs cases fallback)
unfolding case_strs
case_strs-LeaveOpen [] fallback = grind (paren_rules, fmt_bb_name-NoParens fallback)
case_strs-LeaveOpen ((c, bb) ∷ cases) fallback =
    grind (paren_rules, fmt_bb_name-NoParens bb, case_strs-LeaveOpen cases fallback)

fmt_fetch-NoParens : (op : IntBinOp) → NoParens (fmt_fetch op)
unfolding fmt_fetch
fmt_fetch-NoParens IntBinOp.add = (refl, refl)
fmt_fetch-NoParens IntBinOp.sub = (refl, refl)
fmt_fetch-NoParens _ = (refl, refl)

fmt_intrinsic-NoParens : (op : IntrinsicOp) → NoParens (fmt_intrinsic op)
unfolding fmt_intrinsic
fmt_intrinsic-NoParens (IntrinsicOp.atomic_fetch_and_op op) = fmt_fetch-NoParens op
fmt_intrinsic-NoParens (IntrinsicOp.lock IntrinsicLockOp.acquire) = (refl, refl)
fmt_intrinsic-NoParens (IntrinsicOp.lock IntrinsicLockOp.create) = (refl, refl)
fmt_intrinsic-NoParens (IntrinsicOp.lock IntrinsicLockOp.release) = (refl, refl)
fmt_intrinsic-NoParens _ = (refl, refl)

unfoldable pub unclosed_terminator : Terminator → ℕ
unfolding unclosed unclosed_argument
unclosed_terminator (Terminator.switch value cases fallback) = unclosed value
unclosed_terminator (Terminator.call callee conv arguments ret next unwind) =
    unclosed callee + sum_by unclosed_argument arguments + unclosed_place ret
unclosed_terminator (Terminator.start_unwind payload unwind) = unclosed payload
unclosed_terminator (Terminator.intrinsic op arguments ret next) =
    sum_by unclosed arguments + unclosed_place ret
unclosed_terminator _ = 0

pub fmt_terminator-Emits :
    (t : Terminator) → Emits IsComposite (LeavesOpen (unclosed_terminator t)) (fmt_terminator t)
unfolding fmt_terminator unclosed_terminator
fmt_terminator-Emits (Terminator.goto bb) =
    Emits-return _ (grind (paren_rules, fmt_bb_name-NoParens bb))
fmt_terminator-Emits (Terminator.switch value cases fallback) =
    Emits-bind (fmt_value_expr-Emits value) λ v h. Emits-return _ (
      grind (
        paren_rules,
        h,
        join-LeavesOpen 0 (codes ",\n      ") (case_strs cases fallback) (refl, refl)
            (case_strs-LeaveOpen cases fallback),
      ))
fmt_terminator-Emits Terminator.unreachable = Emits-return _ refl
fmt_terminator-Emits (Terminator.call callee conv arguments ret next unwind) =
    Emits-bind (fmt_value_expr-Emits callee) λ f h.
      Emits-bind (fmt_arguments-Emits arguments) λ args k.
        fmt_call-Emits _ conv _ ret next unwind _ _ (to_atomic_string-LeavesOpen _ f h)
          (join-LeavesOpen _ (codes ", ") args (refl, refl) k)
fmt_terminator-Emits Terminator.return = Emits-return _ refl
fmt_terminator-Emits (Terminator.start_unwind payload unwind) =
    Emits-bind (fmt_value_expr-Emits payload)
      λ v h. Emits-return _ (grind (paren_rules, h, fmt_bb_name-NoParens unwind))
fmt_terminator-Emits (Terminator.stop_unwind bb) =
    Emits-return _ (grind (paren_rules, fmt_bb_name-NoParens bb))
fmt_terminator-Emits Terminator.resume_unwind = Emits-return _ refl
fmt_terminator-Emits (Terminator.intrinsic op arguments ret next) =
    Emits-bind (fmt_values-Emits arguments) λ args k.
      Emits-weaken
        (fmt_call-Emits _ CallingConvention.rust _ ret next none 0 _
          (grind (arith, fmt_intrinsic-NoParens op))
          (join-LeavesOpen _ (codes ", ") args (refl, refl) k))
        λ s h. omega (arith, h)
