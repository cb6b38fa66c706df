-- ===== src/Fmt/Expr/Balance.antt =====
-- tooling/miniutil/src/fmt/expr.rs: printing an expression of any shape.
use mts_minirust_work.Prelude.{ℕ, refl, ◌++◌, arith}
use mts_minirust_work.Prelude.Outcome.{Post, returns, panics, AnyPanic}
use mts_minirust_work.Lang.Types.{PtrType, Ty, mutable, immutable}
use mts_minirust_work.Lang.Syntax.{ValueExpr, PlaceExpr, Exprs, no_exprs}
use mts_minirust_work.Fmt.Text.{Text, codes}
use mts_minirust_work.Fmt.Text.Parens.{
  paren_rules, LeavesOpen, LeaveOpen, NoParens, join-LeavesOpen,
}
use mts_minirust_work.Fmt.State.Emits.{Emits, Emits-return, Emits-lift, Emits-bind}
use mts_minirust_work.Fmt.Ty.{to_string}
use mts_minirust_work.Fmt.Ty.Printed.{
  Leaves, IsComposite, to_atomic_string-LeavesOpen, fmt_type-Composite,
}
use mts_minirust_work.Fmt.Expr.{parens, addr_of_text, fmt_place_expr, fmt_value_expr, fmt_exprs}
use mts_minirust_work.Fmt.Expr.Printed.{
  fmt_local_name-NoParens, fmt_constant-Closed, unclosed, unclosed_place, unclosed_exprs,
  fmt_un_op-Emits, fmt_bin_op-Leaves,
}

-- An opening and a closing parenthesis, of any kind.
abbrev Pair : Text × Text → Type 0
Pair (l, r) = (n : ℕ) (t : Text) → LeavesOpen n t → LeavesOpen n (l ++ t ++ r)

parens-Pair : (t : Ty) → Post Pair AnyPanic (parens t)
parens-Pair (Ty.array elem n) = returns λ n t h. grind (paren_rules, h)
parens-Pair (Ty.tuple fs hd tail) = returns λ n t h. grind (paren_rules, h)
parens-Pair (Ty.int t) = panics tt
parens-Pair Ty.bool = panics tt
parens-Pair (Ty.ptr p) = panics tt
parens-Pair (Ty.slice elem) = panics tt
parens-Pair (Ty.union fs chunks size align) = panics tt
parens-Pair (Ty.enum vs dt d size align) = panics tt
parens-Pair (Ty.trait_object t) = panics tt

addr_of_text-NoParens : (p : PtrType) → Post NoParens AnyPanic (addr_of_text p)
addr_of_text-NoParens (PtrType.raw m) = returns (refl, refl)
addr_of_text-NoParens (PtrType.ref mutable p) = returns (refl, refl)
addr_of_text-NoParens (PtrType.ref immutable p) = returns (refl, refl)
addr_of_text-NoParens (PtrType.box p) = panics tt
addr_of_text-NoParens PtrType.fn_ptr = panics tt
addr_of_text-NoParens (PtrType.vtable_ptr t) = panics tt

mutual
  unfolding fmt_place_expr unclosed_place to_string

  place : (p : PlaceExpr) → Emits IsComposite (Leaves (unclosed_place p)) (fmt_place_expr p)
  place (PlaceExpr.local l) = Emits-return _ (grind (paren_rules, fmt_local_name-NoParens l))
  place (PlaceExpr.deref operand ty) =
      Emits-bind (fmt_type-Composite ty)
        λ t c. Emits-bind (value operand) λ e h. Emits-return _ (grind (paren_rules, c, h))
  place (PlaceExpr.field root i) =
      Emits-bind (place root)
        λ r h. Emits-return _ (grind (paren_rules, to_atomic_string-LeavesOpen _ r h))
  place (PlaceExpr.index root i) = Emits-bind (place root) λ r h.
      Emits-bind (value i)
        λ x k. Emits-return _ (grind (paren_rules, to_atomic_string-LeavesOpen _ r h, k))
  place (PlaceExpr.downcast root d) =
      Emits-bind (place root)
        λ r h. Emits-return _ (grind (paren_rules, to_atomic_string-LeavesOpen _ r h))

  value : (v : ValueExpr) → Emits IsComposite (Leaves (unclosed v)) (fmt_value_expr v)
  value (ValueExpr.constant c ty) = Emits-return _ (fmt_constant-Closed c)
  value (ValueExpr.tuple l t) = Emits-bind (Emits-lift (parens-Pair t)) λ (lparen, rparen) pair.
      Emits-bind (values l)
        λ es h. Emits-return _ (pair _ _ (join-LeavesOpen _ (codes ", ") es (refl, refl) h))
  value (ValueExpr.union i e t) =
      Emits-bind (fmt_type-Composite t)
        λ ty c. Emits-bind (value e) λ x h. Emits-return _ (grind (paren_rules, c, h))
  value (ValueExpr.variant d e t) =
      Emits-bind (fmt_type-Composite t)
        λ ty c. Emits-bind (value e) λ x h. Emits-return _ (grind (paren_rules, c, h))
  value (ValueExpr.get_discriminant p) =
      Emits-bind (place p) λ x h. Emits-return _ (grind (paren_rules, h))
  value (ValueExpr.load p) = Emits-bind (place p) λ x h. Emits-return _ (grind (paren_rules, h))
  value (ValueExpr.addr_of target p) = Emits-bind (Emits-lift (addr_of_text-NoParens p)) λ s c.
      Emits-bind (place target)
        λ x h. Emits-return _ (grind (paren_rules, c, to_atomic_string-LeavesOpen _ x h))
  value (ValueExpr.un_op op operand) = Emits-bind (value operand) λ x h. fmt_un_op-Emits op _ _ h
  value (ValueExpr.bin_op op left right) =
      Emits-bind (value left)
        λ l h. Emits-bind (value right) λ r k. Emits-return _ (fmt_bin_op-Leaves op l r _ _ h k)

  values : (vs : Exprs) → Emits IsComposite (LeaveOpen (unclosed_exprs vs)) (fmt_exprs vs)
  values no_exprs = Emits-return _ refl
  values (Exprs.expr v vs) =
      Emits-bind (value v)
        λ x h. Emits-bind (values vs) λ xs k. Emits-return _ (grind (arith, h, k))

-- x
pub fmt_value_expr-Emits :
    (v : ValueExpr) → Emits IsComposite (Leaves (unclosed v)) (fmt_value_expr v)
fmt_value_expr-Emits v = value v

pub fmt_place_expr-Emits :
    (p : PlaceExpr) → Emits IsComposite (Leaves (unclosed_place p)) (fmt_place_expr p)
fmt_place_expr-Emits p = place p
