-- ===== src/Build/Operators.antt =====
-- tooling/miniutil/src/build/expr.rs: one function for each operator.
use mts_minirust_work.Prelude.Outcome.{Outcome, ok, ◌>>=◌}
use mts_minirust_work.Prelude.Int.{pos}
use mts_minirust_work.Lang.Syntax.{IntBinOp, IntBinOpWithOverflow, RelOp, ValueExpr}
use mts_minirust_work.Build.Ty.{RustTy, bool_ty}
use mts_minirust_work.Build.Expr.{
  int_binop, int_overflow, rel_op, bool_to_int, transmute, const_int,
}

unfoldable pub add : ValueExpr → ValueExpr → ValueExpr
unfolding int_binop
add l r = int_binop IntBinOp.add l r

unfoldable pub add_unchecked : ValueExpr → ValueExpr → ValueExpr
unfolding int_binop
add_unchecked l r = int_binop IntBinOp.add_unchecked l r

unfoldable pub sub : ValueExpr → ValueExpr → ValueExpr
unfolding int_binop
sub l r = int_binop IntBinOp.sub l r

unfoldable pub sub_unchecked : ValueExpr → ValueExpr → ValueExpr
unfolding int_binop
sub_unchecked l r = int_binop IntBinOp.sub_unchecked l r

unfoldable pub mul : ValueExpr → ValueExpr → ValueExpr
unfolding int_binop
mul l r = int_binop IntBinOp.mul l r

unfoldable pub mul_unchecked : ValueExpr → ValueExpr → ValueExpr
unfolding int_binop
mul_unchecked l r = int_binop IntBinOp.mul_unchecked l r

unfoldable pub div : ValueExpr → ValueExpr → ValueExpr
unfolding int_binop
div l r = int_binop IntBinOp.div l r

unfoldable pub div_exact : ValueExpr → ValueExpr → ValueExpr
unfolding int_binop
div_exact l r = int_binop IntBinOp.div_exact l r

unfoldable pub rem : ValueExpr → ValueExpr → ValueExpr
unfolding int_binop
rem l r = int_binop IntBinOp.rem l r

unfoldable pub shl : ValueExpr → ValueExpr → ValueExpr
unfolding int_binop
shl l r = int_binop IntBinOp.shl l r

unfoldable pub shl_unchecked : ValueExpr → ValueExpr → ValueExpr
unfolding int_binop
shl_unchecked l r = int_binop IntBinOp.shl_unchecked l r

unfoldable pub shr : ValueExpr → ValueExpr → ValueExpr
unfolding int_binop
shr l r = int_binop IntBinOp.shr l r

unfoldable pub shr_unchecked : ValueExpr → ValueExpr → ValueExpr
unfolding int_binop
shr_unchecked l r = int_binop IntBinOp.shr_unchecked l r

unfoldable pub bit_and : ValueExpr → ValueExpr → ValueExpr
unfolding int_binop
bit_and l r = int_binop IntBinOp.bit_and l r

unfoldable pub bit_or : ValueExpr → ValueExpr → ValueExpr
unfolding int_binop
bit_or l r = int_binop IntBinOp.bit_or l r

unfoldable pub bit_xor : ValueExpr → ValueExpr → ValueExpr
unfolding int_binop
bit_xor l r = int_binop IntBinOp.bit_xor l r

unfoldable pub overflow_add : ValueExpr → ValueExpr → ValueExpr
unfolding int_overflow
overflow_add l r = int_overflow IntBinOpWithOverflow.add l r

unfoldable pub overflow_sub : ValueExpr → ValueExpr → ValueExpr
unfolding int_overflow
overflow_sub l r = int_overflow IntBinOpWithOverflow.sub l r

unfoldable pub overflow_mul : ValueExpr → ValueExpr → ValueExpr
unfolding int_overflow
overflow_mul l r = int_overflow IntBinOpWithOverflow.mul l r

unfoldable pub eq : ValueExpr → ValueExpr → ValueExpr
unfolding rel_op
eq l r = rel_op RelOp.eq l r

unfoldable pub ne : ValueExpr → ValueExpr → ValueExpr
unfolding rel_op
ne l r = rel_op RelOp.ne l r

unfoldable pub ge : ValueExpr → ValueExpr → ValueExpr
unfolding rel_op
ge l r = rel_op RelOp.ge l r

unfoldable pub gt : ValueExpr → ValueExpr → ValueExpr
unfolding rel_op
gt l r = rel_op RelOp.gt l r

unfoldable pub le : ValueExpr → ValueExpr → ValueExpr
unfolding rel_op
le l r = rel_op RelOp.le l r

unfoldable pub lt : ValueExpr → ValueExpr → ValueExpr
unfolding rel_op
lt l r = rel_op RelOp.lt l r

unfoldable pub cmp : ValueExpr → ValueExpr → ValueExpr
unfolding rel_op
cmp l r = rel_op RelOp.cmp l r

-- `1 - v` is 0 or 1, and is transmuted back.
unfoldable pub not : ValueExpr → Outcome ValueExpr
unfolding bool_to_int const_int sub transmute bool_ty
not v = do
  one ← const_int RustTy.u8 (pos 1)
  int ← bool_to_int RustTy.u8 v
  ok (transmute (sub one int) bool_ty)

unfoldable pub bool_and : ValueExpr → ValueExpr → Outcome ValueExpr
unfolding bool_to_int bit_and transmute bool_ty
bool_and l r = do
  a ← bool_to_int RustTy.u8 l
  b ← bool_to_int RustTy.u8 r
  ok (transmute (bit_and a b) bool_ty)

unfoldable pub bool_or : ValueExpr → ValueExpr → Outcome ValueExpr
unfolding bool_to_int bit_or transmute bool_ty
bool_or l r = do
  a ← bool_to_int RustTy.u8 l
  b ← bool_to_int RustTy.u8 r
  ok (transmute (bit_or a b) bool_ty)

unfoldable pub bool_xor : ValueExpr → ValueExpr → Outcome ValueExpr
unfolding bool_to_int bit_xor transmute bool_ty
bool_xor l r = do
  a ← bool_to_int RustTy.u8 l
  b ← bool_to_int RustTy.u8 r
  ok (transmute (bit_xor a b) bool_ty)
