-- ===== src/Fmt/Expr/Printed.antt =====
-- tooling/miniutil/src/fmt/expr.rs: the parentheses of a printed expression.
use mts_minirust_work.Prelude.{ℕ, ◌+◌, refl, Bool, true, false, Bool-cases, inl, inr, nat_eq, ◌==◌}
use mts_minirust_work.Prelude.Int.{pos, int_eq}
use mts_minirust_work.Lang.Syntax.{
  Relocation, Constant, IntUnOp, CastOp, UnOp, IntBinOp, IntBinOpWithOverflow, RelOp, BinOp,
  ValueExpr, PlaceExpr, Exprs, no_exprs,
}
use mts_minirust_work.Fmt.Text.{Text, codes}
use mts_minirust_work.Fmt.Text.Parens.{paren_rules, LeavesOpen, NoParens}
use mts_minirust_work.Fmt.State.Emits.{Emits, Emits-return, Emits-bind}
use mts_minirust_work.Fmt.Ty.{FmtExpr, to_string, to_atomic_string}
use mts_minirust_work.Fmt.Ty.Printed.{
  Leaves, Closed, IsComposite, to_atomic_string-LeavesOpen, fmt_int_type-NoParens,
  fmt_ptr_type-Closed, fmt_type-Composite,
}
use mts_minirust_work.Fmt.Expr.{
  fmt_local_name, fmt_global_name, fmt_fn_name, fmt_vtable_name, fmt_trait_method_name,
  fmt_relocation, fmt_constant, call2, infix_op, fmt_un_op, fmt_int_bin_op, rel_text, overflow_text,
  offset_text, offset_from_text, fmt_bin_op,
}

pub fmt_local_name-NoParens : (id : ℕ) → NoParens (fmt_local_name id)
unfolding fmt_local_name
fmt_local_name-NoParens id = grind paren_rules

pub fmt_fn_name-NoParens : (id : ℕ) → NoParens (fmt_fn_name id)
unfolding fmt_fn_name
fmt_fn_name-NoParens id = grind paren_rules

pub fmt_relocation-Closed : (r : Relocation) → Closed (fmt_relocation r)
unfolding fmt_relocation fmt_global_name to_string
fmt_relocation-Closed r = elim (Bool-cases (r.offset == 0)) [
  | inl start ↦ rw start (grind paren_rules)
  | inr inside ↦ rw inside (grind paren_rules)
]

pub fmt_constant-Closed : (c : Constant) → Closed (fmt_constant c)
unfolding fmt_constant fmt_fn_name fmt_vtable_name to_string
fmt_constant-Closed (Constant.int i) = grind paren_rules
fmt_constant-Closed (Constant.bool true) = refl
fmt_constant-Closed (Constant.bool false) = refl
fmt_constant-Closed (Constant.global_pointer r) = fmt_relocation-Closed r
fmt_constant-Closed (Constant.fn_pointer f) = grind paren_rules
fmt_constant-Closed (Constant.vtable_pointer v) = grind paren_rules
fmt_constant-Closed (Constant.pointer_without_provenance addr) = elim (Bool-cases (addr == pos 0)) [
  | inl null ↦ rw null refl
  | inr other ↦ rw other (grind paren_rules)
]

-- The operators whose printed form lacks the closing parenthesis.
unfoldable pub unclosed_op : UnOp → ℕ
unclosed_op (UnOp.int IntUnOp.bit_not) = 1
unclosed_op (UnOp.int IntUnOp.count_ones) = 1
unclosed_op _ = 0

-- How often they occur in an expression.
unfoldable mutual
  unfolding unclosed_op

  pub unclosed_place : PlaceExpr → ℕ
  unclosed_place (PlaceExpr.local l) = 0
  unclosed_place (PlaceExpr.deref operand ty) = unclosed operand
  unclosed_place (PlaceExpr.field root i) = unclosed_place root
  unclosed_place (PlaceExpr.index root i) = unclosed_place root + unclosed i
  unclosed_place (PlaceExpr.downcast root d) = unclosed_place root

  pub unclosed : ValueExpr → ℕ
  unclosed (ValueExpr.constant c ty) = 0
  unclosed (ValueExpr.tuple l t) = unclosed_exprs l
  unclosed (ValueExpr.union i e t) = unclosed e
  unclosed (ValueExpr.variant d e t) = unclosed e
  unclosed (ValueExpr.get_discriminant place) = unclosed_place place
  unclosed (ValueExpr.load source) = unclosed_place source
  unclosed (ValueExpr.addr_of target p) = unclosed_place target
  unclosed (ValueExpr.un_op operator operand) = unclosed_op operator + unclosed operand
  unclosed (ValueExpr.bin_op operator left right) = unclosed left + unclosed right

  pub unclosed_exprs : Exprs → ℕ
  unclosed_exprs no_exprs = 0
  unclosed_exprs (Exprs.expr v vs) = unclosed v + unclosed_exprs vs

pub fmt_un_op-Emits :
    (op : UnOp) (n : ℕ) (operand : Text)
    → LeavesOpen n operand
    → Emits IsComposite (Leaves (unclosed_op op + n)) (fmt_un_op op operand)
unfolding fmt_un_op unclosed_op fmt_trait_method_name to_string
fmt_un_op-Emits (UnOp.int IntUnOp.neg) n x h = Emits-return _ (grind (paren_rules, h))
fmt_un_op-Emits (UnOp.int IntUnOp.bit_not) n x h = Emits-return _ (grind (paren_rules, h))
fmt_un_op-Emits (UnOp.int IntUnOp.count_ones) n x h = Emits-return _ (grind (paren_rules, h))
fmt_un_op-Emits (UnOp.cast (CastOp.int_to_int t)) n x h =
    Emits-return _ (grind (paren_rules, h, fmt_int_type-NoParens t))
fmt_un_op-Emits (UnOp.cast (CastOp.transmute t)) n x h =
    Emits-bind (fmt_type-Composite t) λ ty c. Emits-return _ (grind (paren_rules, h, c))
fmt_un_op-Emits UnOp.get_thin_pointer n x h = Emits-return _ (grind (paren_rules, h))
fmt_un_op-Emits UnOp.get_metadata n x h = Emits-return _ (grind (paren_rules, h))
fmt_un_op-Emits (UnOp.compute_size t) n x h =
    Emits-bind (fmt_type-Composite t) λ ty c. Emits-return _ (grind (paren_rules, h, c))
fmt_un_op-Emits (UnOp.compute_align t) n x h =
    Emits-bind (fmt_type-Composite t) λ ty c. Emits-return _ (grind (paren_rules, h, c))
fmt_un_op-Emits (UnOp.vtable_method_lookup m) n x h = Emits-return _ (grind (paren_rules, h))

call2-Leaves :
    (name l r : Text) (m n : ℕ)
    → NoParens name
    → LeavesOpen m l
    → LeavesOpen n r
    → Leaves (m + n) (call2 name l r)
unfolding to_string
call2-Leaves name l r m n p h k = grind (paren_rules, p, h, k)

infix_op-Leaves :
    (op l r : Text) (m n : ℕ)
    → NoParens op
    → LeavesOpen m l
    → LeavesOpen n r
    → Leaves (m + n) (infix_op op l r)
unfolding to_string
infix_op-Leaves op l r m n p h k = grind (paren_rules, p, h, k)

fmt_int_bin_op-Leaves :
    (op : IntBinOp) (l r : Text) (m n : ℕ)
    → LeavesOpen m l
    → LeavesOpen n r
    → Leaves (m + n) (fmt_int_bin_op op l r)
unfolding fmt_int_bin_op
fmt_int_bin_op-Leaves IntBinOp.add l r m n h k = infix_op-Leaves _ l r m n (refl, refl) h k
fmt_int_bin_op-Leaves IntBinOp.sub l r m n h k = infix_op-Leaves _ l r m n (refl, refl) h k
fmt_int_bin_op-Leaves IntBinOp.mul l r m n h k = infix_op-Leaves _ l r m n (refl, refl) h k
fmt_int_bin_op-Leaves IntBinOp.div l r m n h k = infix_op-Leaves _ l r m n (refl, refl) h k
fmt_int_bin_op-Leaves IntBinOp.rem l r m n h k = infix_op-Leaves _ l r m n (refl, refl) h k
fmt_int_bin_op-Leaves IntBinOp.shl l r m n h k = infix_op-Leaves _ l r m n (refl, refl) h k
fmt_int_bin_op-Leaves IntBinOp.shr l r m n h k = infix_op-Leaves _ l r m n (refl, refl) h k
fmt_int_bin_op-Leaves IntBinOp.bit_and l r m n h k = infix_op-Leaves _ l r m n (refl, refl) h k
fmt_int_bin_op-Leaves IntBinOp.bit_or l r m n h k = infix_op-Leaves _ l r m n (refl, refl) h k
fmt_int_bin_op-Leaves IntBinOp.bit_xor l r m n h k = infix_op-Leaves _ l r m n (refl, refl) h k
fmt_int_bin_op-Leaves IntBinOp.add_unchecked l r m n h k =
    call2-Leaves (codes "AddUnchecked") l r m n (refl, refl) h k
fmt_int_bin_op-Leaves IntBinOp.sub_unchecked l r m n h k =
    call2-Leaves (codes "SubUnchecked") l r m n (refl, refl) h k
fmt_int_bin_op-Leaves IntBinOp.mul_unchecked l r m n h k =
    call2-Leaves (codes "MulUnchecked") l r m n (refl, refl) h k
fmt_int_bin_op-Leaves IntBinOp.div_exact l r m n h k =
    call2-Leaves (codes "DivExact") l r m n (refl, refl) h k
fmt_int_bin_op-Leaves IntBinOp.shl_unchecked l r m n h k =
    call2-Leaves (codes "ShlUnchecked") l r m n (refl, refl) h k
fmt_int_bin_op-Leaves IntBinOp.shr_unchecked l r m n h k =
    call2-Leaves (codes "ShrUnchecked") l r m n (refl, refl) h k

rel_text-NoParens : (op : RelOp) → NoParens (rel_text op)
rel_text-NoParens RelOp.lt = (refl, refl)
rel_text-NoParens RelOp.le = (refl, refl)
rel_text-NoParens RelOp.gt = (refl, refl)
rel_text-NoParens RelOp.ge = (refl, refl)
rel_text-NoParens RelOp.eq = (refl, refl)
rel_text-NoParens RelOp.ne = (refl, refl)
rel_text-NoParens RelOp.cmp = (refl, refl)

overflow_text-NoParens : (op : IntBinOpWithOverflow) → NoParens (overflow_text op)
overflow_text-NoParens IntBinOpWithOverflow.add = (refl, refl)
overflow_text-NoParens IntBinOpWithOverflow.sub = (refl, refl)
overflow_text-NoParens IntBinOpWithOverflow.mul = (refl, refl)

offset_text-NoParens : (inbounds : Bool) → NoParens (offset_text inbounds)
offset_text-NoParens true = (refl, refl)
offset_text-NoParens false = (refl, refl)

offset_from_text-NoParens : (inbounds nonneg : Bool) → NoParens (offset_from_text inbounds nonneg)
offset_from_text-NoParens true true = (refl, refl)
offset_from_text-NoParens true false = (refl, refl)
offset_from_text-NoParens false true = (refl, refl)
offset_from_text-NoParens false false = (refl, refl)

pub fmt_bin_op-Leaves :
    (op : BinOp) (l r : FmtExpr) (m n : ℕ)
    → Leaves m l
    → Leaves n r
    → Leaves (m + n) (fmt_bin_op op l r)
unfolding fmt_bin_op
fmt_bin_op-Leaves (BinOp.int op) l r m n h k =
    fmt_int_bin_op-Leaves op (to_atomic_string l) (to_atomic_string r) m n
      (to_atomic_string-LeavesOpen m l h) (to_atomic_string-LeavesOpen n r k)
fmt_bin_op-Leaves (BinOp.int_with_overflow op) l r m n h k =
    call2-Leaves (overflow_text op) (to_atomic_string l) (to_atomic_string r) m n
      (overflow_text-NoParens op) (to_atomic_string-LeavesOpen m l h)
      (to_atomic_string-LeavesOpen n r k)
fmt_bin_op-Leaves (BinOp.rel op) l r m n h k =
    infix_op-Leaves (rel_text op) (to_atomic_string l) (to_atomic_string r) m n
      (rel_text-NoParens op) (to_atomic_string-LeavesOpen m l h) (to_atomic_string-LeavesOpen n r k)
fmt_bin_op-Leaves (BinOp.ptr_offset inbounds) l r m n h k =
    call2-Leaves (offset_text inbounds) (to_string l) (to_string r) m n
      (offset_text-NoParens inbounds) h k
fmt_bin_op-Leaves (BinOp.ptr_offset_from inbounds nonneg) l r m n h k =
    call2-Leaves (offset_from_text inbounds nonneg) (to_string l) (to_string r) m n
      (offset_from_text-NoParens inbounds nonneg) h k
fmt_bin_op-Leaves (BinOp.construct_wide_pointer p) l r m n h k =
    grind (paren_rules, h, k, fmt_ptr_type-Closed p, to_string)
