-- ===== src/Tests/Printing.antt =====
-- tooling/miniutil/src/fmt: printing a small program.
use mts_minirust_work.Prelude.{
  ℕ, ◌≡◌, refl, true, List, [], ◌∷◌, ◌++◌, none, some, arith, nat_eq, get_elem?, All,
}
use mts_minirust_work.Prelude.Int.{pos}
use mts_minirust_work.Prelude.Maps.{get}
use mts_minirust_work.Prelude.Positions.{Distinct, contains}
use mts_minirust_work.Prelude.Outcome.{ok, Post, AnyPanic}
use mts_minirust_work.Lang.Types.{Ty, no_ty, Fields, no_fields, unsigned}
use mts_minirust_work.Lang.Syntax.{
  Constant, IntUnOp, UnOp, ValueExpr, PlaceExpr, Statement, Terminator, regular, Function, Global,
  Program, CallingConvention,
}
use mts_minirust_work.Fmt.Text.{codes}
use mts_minirust_work.Fmt.Ty.{to_string}
use mts_minirust_work.Fmt.Expr.{fmt_constant}
use mts_minirust_work.Fmt.Expr.Constants.{read_constant, read_constant-fmt_constant}
use mts_minirust_work.Fmt.State.{get_comptype_index, ty_eq, return, lift, ◌>>=◌}
use mts_minirust_work.Fmt.State.Lists.{get_comptype_index-get_elem?}
use mts_minirust_work.Fmt.Ty.Printed.{IsComposite, head}
use mts_minirust_work.Fmt.Ty.Nested.{composites}
use mts_minirust_work.Fmt.Ty.Definitions.{Ends}
use mts_minirust_work.Fmt.Function.{fmt_functions}
use mts_minirust_work.Fmt.Function.Printed.{unclosed_function}
use mts_minirust_work.Fmt.Function.Listed.{fmt_functions-comptypes}
use mts_minirust_work.Fmt.Program.{fmt_program}
use mts_minirust_work.Fmt.Program.Balance.{fmt_program-Ends}
use mts_minirust_work.Fmt.Program.Order.{fmt_program-same}

abbrev u8 : Ty
u8 = Ty.int record { signed = unsigned; size = 1 }

abbrev pair : Ty
pair =
    Ty.tuple (Fields.field 0 u8 (Fields.field 1 u8 no_fields))
      record { end = 2; align = 1; packed_align = none } no_ty

abbrev nested_pair : Ty
nested_pair =
    Ty.tuple (Fields.field 0 pair no_fields) record { end = 2; align = 1; packed_align = none }
      no_ty

abbrev inverted : ValueExpr
inverted = ValueExpr.un_op (UnOp.int IntUnOp.bit_not) (ValueExpr.constant (Constant.int (pos 7)) u8)

abbrev main : Function
main = record {
  locals = (1, Ty.array nested_pair (pos 3)) ∷ (0, u8) ∷ [];
  args = [];
  ret = 0;
  calling_convention = CallingConvention.c;
  blocks =
      (
        0,
        record {
          statements = Statement.assign (PlaceExpr.local 0) inverted ∷ [];
          terminator = Terminator.return;
          kind = regular;
        },
      )
      ∷ [];
  start = 0;
}

abbrev byte_global : ℕ → Global
byte_global b = record { bytes = some b ∷ none ∷ []; relocations = []; align = 1 }

abbrev sample : Program
sample = record {
  functions = (0, main) ∷ [];
  start = 0;
  globals = (1, byte_global 175) ∷ (0, byte_global 9) ∷ [];
  traits = (0, 1 ∷ 0 ∷ []) ∷ [];
  vtables = [];
}

-- the same program, with the globals in another order
abbrev reordered : Program
reordered = record sample { globals = (0, byte_global 9) ∷ (1, byte_global 175) ∷ [] }

printed :
    fmt_program sample
    ≡ some (
        ok (
          codes "tuple T0 (size=2, align=1) {\n  at byte 0: T1,\n}\n\n"
          ++ codes "tuple T1 (size=2, align=1) {\n  at byte 0: u8,\n  at byte 1: u8,\n}\n\n"
          ++ codes "trait0 { m0, m1 }\n\n\n"
          ++ codes "start fn f0() -> _0 {\n  let _0: u8;\n  let _1: [T0; 3];\n  start bb0:\n"
          ++ codes "    _0 = !(7;\n    return;\n}\n\n"
          ++ codes "global(0) {\n  bytes = [09 __],\n  align = 1 bytes,\n}\n\n"
          ++ codes "global(1) {\n  bytes = [af __],\n  align = 1 bytes,\n}\n\n"))
unfolding fmt_program return lift ◌>>=◌ get_comptype_index composites
printed = refl

fmt_program-Ends_example : Ends 1 (fmt_program sample)
unfolding unclosed_function
fmt_program-Ends_example = fmt_program-Ends sample

fmt_functions-comptypes_example :
    Post
      (λ (s, comptypes).
        Distinct comptypes × All IsComposite comptypes × (contains nested_pair comptypes ≡ true))
      AnyPanic
      (fmt_functions sample [])
unfolding get head
fmt_functions-comptypes_example =
    fmt_functions-comptypes sample 0 main 1 (Ty.array nested_pair (pos 3)) nested_pair refl refl
      refl

get_comptype_index-get_elem?_example :
    (i : ℕ) × (after : List Ty) × (get_comptype_index pair (nested_pair ∷ []) ≡ ok (i, after))
    × (get_elem? after i ≡ some pair)
    × (get_comptype_index pair after ≡ ok (i, after))
get_comptype_index-get_elem?_example = get_comptype_index-get_elem? pair (nested_pair ∷ [])

read_constant-fmt_constant_example :
    read_constant
      (to_string (fmt_constant (Constant.global_pointer record { name = 12; offset = 340 })))
    ≡ Constant.global_pointer record { name = 12; offset = 340 }
read_constant-fmt_constant_example =
    read_constant-fmt_constant (Constant.global_pointer record { name = 12; offset = 340 })

fmt_program-same_example : fmt_program sample ≡ fmt_program reordered
unfolding get
fmt_program-same_example =
    fmt_program-same sample reordered refl ((refl, tt), (refl, tt), λ k. refl)
      ((refl, (refl, tt)), (refl, (refl, tt)), λ k. ground arith)
      ((refl, tt), (refl, tt), λ k. refl) (tt, tt, λ k. refl)
