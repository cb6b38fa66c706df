-- ===== src/Fmt/Expr.antt =====
-- tooling/miniutil/src/fmt/expr.rs: printing expressions, and the names and constants in them.
pub mod Printed
pub mod Balance
pub mod Constants
use mts_minirust_work.Prelude.{Bool, true, false, List, [], ◌∷◌, ◌++◌, nat_eq, ◌==◌, if◌then◌else◌}
use mts_minirust_work.Prelude.Int.{pos, int_eq}
use mts_minirust_work.Prelude.Outcome.{Outcome, ok, panic, unsupported, not_a_tuple}
use mts_minirust_work.Lang.Types.{PtrType, Ty, mutable, immutable}
use mts_minirust_work.Lang.Syntax.{
  FnName, GlobalName, VTableName, TraitMethodName, LocalName, Relocation, Constant, IntUnOp, CastOp,
  UnOp, IntBinOp, IntBinOpWithOverflow, RelOp, BinOp, ValueExpr, PlaceExpr, Exprs, no_exprs,
}
use mts_minirust_work.Fmt.Text.{Text, codes, show, show_int, join}
use mts_minirust_work.Fmt.State.{Fmt, return, lift, ◌>>=◌}
use mts_minirust_work.Fmt.Ty.{
  FmtExpr, non_atomic, atomic, to_string, to_atomic_string, fmt_int_type, fmt_ptr_type, fmt_type,
}

unfoldable pub fmt_local_name : LocalName → Text
unfolding show
fmt_local_name id = codes "_" ++ show id

unfoldable pub fmt_global_name : GlobalName → Text
unfolding show
fmt_global_name id = codes "global(" ++ show id ++ codes ")"

unfoldable pub fmt_fn_name : FnName → Text
unfolding show
fmt_fn_name id = codes "f" ++ show id

unfoldable pub fmt_vtable_name : VTableName → Text
unfolding show
fmt_vtable_name id = codes "vtable" ++ show id

unfoldable pub fmt_trait_method_name : TraitMethodName → Text
unfolding show
fmt_trait_method_name id = codes "m" ++ show id

unfoldable pub fmt_relocation : Relocation → FmtExpr
unfolding show fmt_global_name
fmt_relocation relocation =
    let gname = fmt_global_name relocation.name in
    if relocation.offset == 0
    then atomic gname
    else non_atomic (gname ++ codes " + " ++ show relocation.offset)

unfoldable pub fmt_constant : Constant → FmtExpr
unfolding show_int fmt_relocation fmt_fn_name fmt_vtable_name
fmt_constant (Constant.int int) = atomic (show_int int)
fmt_constant (Constant.bool true) = atomic (codes "true")
fmt_constant (Constant.bool false) = atomic (codes "false")
fmt_constant (Constant.global_pointer relocation) = fmt_relocation relocation
fmt_constant (Constant.fn_pointer fn_name) = atomic (fmt_fn_name fn_name)
fmt_constant (Constant.vtable_pointer vt_name) = atomic (fmt_vtable_name vt_name)
fmt_constant (Constant.pointer_without_provenance addr) =
    if addr == pos 0
    then atomic (codes "nullptr")
    else atomic (codes "invalid_ptr(" ++ show_int addr ++ codes ")")

-- `{name}({l}, {r})`
abbrev pub call2 : Text → Text → Text → FmtExpr
call2 name l r = atomic (name ++ codes "(" ++ l ++ codes ", " ++ r ++ codes ")")

-- `{l} {op} {r}`
abbrev pub infix_op : Text → Text → Text → FmtExpr
infix_op op l r = non_atomic (l ++ codes " " ++ op ++ codes " " ++ r)

-- `{name}<{param}>({operand})`
abbrev pub cast : Text → Text → Text → FmtExpr
cast name param operand = atomic (name ++ codes "<" ++ param ++ codes ">(" ++ operand ++ codes ")")

unfoldable pub fmt_un_op : UnOp → Text → Fmt FmtExpr
unfolding fmt_int_type fmt_type fmt_trait_method_name to_string
fmt_un_op (UnOp.int IntUnOp.neg) operand = return (non_atomic (codes "-(" ++ operand ++ codes ")"))
fmt_un_op (UnOp.int IntUnOp.bit_not) operand = return (non_atomic (codes "!(" ++ operand))
fmt_un_op (UnOp.int IntUnOp.count_ones) operand =
    return (non_atomic (codes "count_ones(" ++ operand))
fmt_un_op (UnOp.cast (CastOp.int_to_int int_ty)) operand =
    return (cast (codes "int2int") (fmt_int_type int_ty) operand)
fmt_un_op (UnOp.cast (CastOp.transmute new_ty)) operand = do
  ty ← fmt_type new_ty
  return (cast (codes "transmute") (to_string ty) operand)
fmt_un_op UnOp.get_thin_pointer operand =
    return (atomic (codes "get_thin_ptr(" ++ operand ++ codes ")"))
fmt_un_op UnOp.get_metadata operand =
    return (atomic (codes "get_metadata(" ++ operand ++ codes ")"))
fmt_un_op (UnOp.compute_size t) operand = do
  ty ← fmt_type t
  return (cast (codes "compute_size") (to_string ty) operand)
fmt_un_op (UnOp.compute_align t) operand = do
  ty ← fmt_type t
  return (cast (codes "compute_align") (to_string ty) operand)
fmt_un_op (UnOp.vtable_method_lookup method) operand = return (
    non_atomic (
      codes "vtable_lookup<" ++ fmt_trait_method_name method ++ codes ">(" ++ operand ++ codes ")"))

unfoldable pub fmt_int_bin_op : IntBinOp → Text → Text → FmtExpr
fmt_int_bin_op IntBinOp.add = infix_op (codes "+")
fmt_int_bin_op IntBinOp.sub = infix_op (codes "-")
fmt_int_bin_op IntBinOp.mul = infix_op (codes "*")
fmt_int_bin_op IntBinOp.div = infix_op (codes "/")
fmt_int_bin_op IntBinOp.rem = infix_op (codes "%")
fmt_int_bin_op IntBinOp.shl = infix_op (codes "<<")
fmt_int_bin_op IntBinOp.shr = infix_op (codes ">>")
fmt_int_bin_op IntBinOp.bit_and = infix_op (codes "&")
fmt_int_bin_op IntBinOp.bit_or = infix_op (codes "|")
fmt_int_bin_op IntBinOp.bit_xor = infix_op (codes "^")
fmt_int_bin_op IntBinOp.add_unchecked = call2 (codes "AddUnchecked")
fmt_int_bin_op IntBinOp.sub_unchecked = call2 (codes "SubUnchecked")
fmt_int_bin_op IntBinOp.mul_unchecked = call2 (codes "MulUnchecked")
fmt_int_bin_op IntBinOp.div_exact = call2 (codes "DivExact")
fmt_int_bin_op IntBinOp.shl_unchecked = call2 (codes "ShlUnchecked")
fmt_int_bin_op IntBinOp.shr_unchecked = call2 (codes "ShrUnchecked")

abbrev pub rel_text : RelOp → Text
rel_text RelOp.lt = codes "<"
rel_text RelOp.le = codes "<="
rel_text RelOp.gt = codes ">"
rel_text RelOp.ge = codes ">="
rel_text RelOp.eq = codes "=="
rel_text RelOp.ne = codes "!="
rel_text RelOp.cmp = codes "<=>"

abbrev pub overflow_text : IntBinOpWithOverflow → Text
overflow_text IntBinOpWithOverflow.add = codes "AddWithOverflow"
overflow_text IntBinOpWithOverflow.sub = codes "SubWithOverflow"
overflow_text IntBinOpWithOverflow.mul = codes "MulWithOverflow"

abbrev pub offset_text : Bool → Text
offset_text true = codes "offset_inbounds"
offset_text false = codes "offset_wrapping"

abbrev pub offset_from_text : Bool → Bool → Text
offset_from_text inbounds nonneg =
    codes "offset_from_"
    ++ (if inbounds then codes "inbounds" else codes "wrapping")
    ++ (if nonneg then codes "_nonneg" else [])

-- What the arms for the binary operators do with the printed operands.
unfoldable pub fmt_bin_op : BinOp → FmtExpr → FmtExpr → FmtExpr
unfolding fmt_int_bin_op fmt_ptr_type to_string to_atomic_string
fmt_bin_op (BinOp.int op) l r = fmt_int_bin_op op (to_atomic_string l) (to_atomic_string r)
fmt_bin_op (BinOp.int_with_overflow op) l r =
    call2 (overflow_text op) (to_atomic_string l) (to_atomic_string r)
fmt_bin_op (BinOp.rel op) l r = infix_op (rel_text op) (to_atomic_string l) (to_atomic_string r)
fmt_bin_op (BinOp.ptr_offset inbounds) l r =
    call2 (offset_text inbounds) (to_string l) (to_string r)
fmt_bin_op (BinOp.ptr_offset_from inbounds nonneg) l r =
    call2 (offset_from_text inbounds nonneg) (to_string l) (to_string r)
fmt_bin_op (BinOp.construct_wide_pointer ptr_ty) l r =
    call2 (codes "construct_ptr<" ++ to_string (fmt_ptr_type ptr_ty) ++ codes ">") (to_string l)
      (to_string r)

-- The parentheses of a tuple or an array.
abbrev pub parens : Ty → Outcome (Text × Text)
parens (Ty.array _ _) = ok (codes "[", codes "]")
parens (Ty.tuple _ _ _) = ok (codes "(", codes ")")
parens _ = panic not_a_tuple

-- What the arms for `AddrOf` print in front of the target.
abbrev pub addr_of_text : PtrType → Outcome Text
addr_of_text (PtrType.raw _) = ok (codes "&raw ")
addr_of_text (PtrType.ref mutable _) = ok (codes "&mut ")
addr_of_text (PtrType.ref immutable _) = ok (codes "&")
addr_of_text _ = panic unsupported

unfoldable mutual
  unfolding fmt_type fmt_constant fmt_local_name fmt_un_op fmt_bin_op show_int join to_string
      to_atomic_string

  pub fmt_place_expr : PlaceExpr → Fmt FmtExpr
  fmt_place_expr (PlaceExpr.local l) = return (atomic (fmt_local_name l))
  fmt_place_expr (PlaceExpr.deref operand ty) = do
    ptype ← fmt_type ty
    e ← fmt_value_expr operand
    return (atomic (codes "deref<" ++ to_string ptype ++ codes ">(" ++ to_string e ++ codes ")"))
  fmt_place_expr (PlaceExpr.field root i) = do
    r ← fmt_place_expr root
    return (atomic (to_atomic_string r ++ codes "." ++ show_int i))
  fmt_place_expr (PlaceExpr.index root index) = do
    r ← fmt_place_expr root
    i ← fmt_value_expr index
    return (atomic (to_atomic_string r ++ codes "[" ++ to_string i ++ codes "]"))
  fmt_place_expr (PlaceExpr.downcast root discriminant) = do
    r ← fmt_place_expr root
    return (non_atomic (to_atomic_string r ++ codes " as variant " ++ show_int discriminant))

  pub fmt_value_expr : ValueExpr → Fmt FmtExpr
  fmt_value_expr (ValueExpr.constant c _) = return (fmt_constant c)
  fmt_value_expr (ValueExpr.tuple l t) = do
    (lparen, rparen) ← lift (parens t)
    es ← fmt_exprs l
    return (atomic (lparen ++ join (codes ", ") es ++ rparen))
  fmt_value_expr (ValueExpr.union i e t) = do
    union_ty ← fmt_type t
    x ← fmt_value_expr e
    return (
        non_atomic (
          to_string union_ty
          ++ codes " { field"
          ++ show_int i
          ++ codes ": "
          ++ to_string x
          ++ codes " }"))
  fmt_value_expr (ValueExpr.variant discriminant data_expr t) = do
    enum_ty ← fmt_type t
    x ← fmt_value_expr data_expr
    return (
        non_atomic (
          to_string enum_ty
          ++ codes "(variant "
          ++ show_int discriminant
          ++ codes "): "
          ++ to_string x))
  fmt_value_expr (ValueExpr.get_discriminant place) = do
    p ← fmt_place_expr place
    return (atomic (codes "discriminant(" ++ to_string p ++ codes ")"))
  fmt_value_expr (ValueExpr.load source) = do
    p ← fmt_place_expr source
    return (atomic (codes "load(" ++ to_string p ++ codes ")"))
  fmt_value_expr (ValueExpr.addr_of target ptr_ty) = do
    prefix ← lift (addr_of_text ptr_ty)
    p ← fmt_place_expr target
    return (non_atomic (prefix ++ to_atomic_string p))
  fmt_value_expr (ValueExpr.un_op operator operand) = do
    x ← fmt_value_expr operand
    fmt_un_op operator (to_string x)
  fmt_value_expr (ValueExpr.bin_op operator left right) = do
    l ← fmt_value_expr left
    r ← fmt_value_expr right
    return (fmt_bin_op operator l r)

  pub fmt_exprs : Exprs → Fmt (List Text)
  fmt_exprs no_exprs = return []
  fmt_exprs (Exprs.expr v vs) = do
    x ← fmt_value_expr v
    xs ← fmt_exprs vs
    return (to_string x ∷ xs)
