-- ===== src/Tests/Bodies.antt =====
-- tooling/minimize/src: translating a small body, and integers from bits.
use mts_minirust_work.Prelude.{
  ℕ, ◌==◌, ◌%◌, ◌^◌, ◌≡◌, refl, true, false, List, [], ◌∷◌, none, if◌then◌else◌, arith, map, nat_eq,
}
use mts_minirust_work.Prelude.Int.{ℤ, negsuc}
use mts_minirust_work.Prelude.Outcome.{Outcome, ok, panic, Post, AnyPanic}
use mts_minirust_work.Lang.Types.{Ty, IntType, signed}
use mts_minirust_work.Lang.Syntax.{
  BbKind, BbName, BasicBlock, CallingConvention, ValueExpr, Constant, regular, cleanup, Function,
}
use mts_minirust_work.Minimize.Mir.{
  Operand, UnwindAction, MirTerminator, MirStatement, Body, PanicStrategy, Session,
}
use mts_minirust_work.Minimize.Bits.{SizeOps, int_from_bits}
use mts_minirust_work.Minimize.Bits.Range.{
  int_from_bits_range, int_from_bits-to_bits, to_bits, twos_complement, Documented, InRange,
  Represents,
}
use mts_minirust_work.Minimize.Context.{FnCtxt, ◌>>=◌, return, reading}
use mts_minirust_work.Minimize.Body.{translate_terminator}
use mts_minirust_work.Minimize.Body.Cleanup.{LeadsAstray, translate_terminator-assert}
use mts_minirust_work.Minimize.Function.{translate, new_context}
use mts_minirust_work.Minimize.Function.Flow.{TransitionsOk, translate-TransitionsOk}

abbrev condition : Operand
condition = Operand.constant (ValueExpr.constant (Constant.bool true) Ty.bool) Ty.bool

abbrev ops : SizeOps
ops = record { truncate = λ bits word. word % 2 ^ bits; sign_extend = twos_complement }

ops-Documented : (bits : ℕ) → Documented ops bits
ops-Documented bits = record { truncates = λ word. refl; sign_extends = λ word. refl }

abbrev unwinding : Session
unwinding = record {
  panic_strategy = PanicStrategy.unwind;
  ub_checks = true;
  contract_checks = false;
  ordering = Ty.bool;
  size_ops = ops;
}

-- An assertion after an assumption; where it fails, a block that cleans up resumes.
abbrev checked : Body
checked = record {
  basic_blocks =
      record {
        statements = MirStatement.storage_live 1 ∷ MirStatement.assume condition ∷ [];
        terminator = MirTerminator.assert condition true 1 (UnwindAction.cleanup 2);
        is_cleanup = false;
      }
      ∷ record {
        statements = MirStatement.storage_dead 1 ∷ [];
        terminator = MirTerminator.return;
        is_cleanup = false;
      }
      ∷ record { statements = []; terminator = MirTerminator.unwind_resume; is_cleanup = true }
      ∷ [];
  local_decls =
      record { ty = Ty.bool; tuple_fields = none }
      ∷ record { ty = Ty.bool; tuple_fields = none }
      ∷ [];
  arg_count = 0;
  spread_arg = none;
  always_live = [];
  conv = CallingConvention.rust;
}

abbrev kinds : ℕ → BbKind
kinds n = if n == 2 then cleanup else regular

abbrev block_kinds : Outcome Function → List (BbName × BbKind)
block_kinds (ok f) = map (λ (p : BbName × BasicBlock). (p.0, p.1.kind)) f.blocks
block_kinds (panic _) = []

-- The body has the block that starts it, its own three, the one after the assumption, and the one
-- that panics.
translated :
    block_kinds (translate unwinding checked)
    ≡ (3, regular) ∷ (0, regular) ∷ (5, regular) ∷ (4, regular) ∷ (1, regular) ∷ (2, cleanup) ∷ []
unfolding translate ◌>>=◌ return reading
translated = refl

translate-TransitionsOk_example : Post TransitionsOk AnyPanic (translate unwinding checked)
translate-TransitionsOk_example =
    translate-TransitionsOk kinds unwinding checked refl
      ((refl, (refl, (refl, refl), refl), (refl, refl, (refl, refl, tt))))

abbrev one_named : FnCtxt
one_named = record new_context { next_bb = 1; bb_name_map = (0, 0) ∷ [] }

translate_terminator-assert_example : Post LeadsAstray AnyPanic (
    translate_terminator unwinding true
      (MirTerminator.assert condition true 0 UnwindAction.terminate)
      one_named)
translate_terminator-assert_example =
    translate_terminator-assert unwinding condition true 0 UnwindAction.terminate one_named refl

abbrev i8 : IntType
i8 = record { signed = signed; size = 1 }

minus_one : int_from_bits ops 255 i8 ≡ ok (negsuc 0)
unfolding int_from_bits
minus_one = refl

int_from_bits_range_example :
    (i : ℤ) × (int_from_bits ops 511 i8 ≡ ok i) × InRange signed 8 i × Represents 8 511 i
int_from_bits_range_example = int_from_bits_range ops 511 i8 (ops-Documented 8) (omega arith)

int_from_bits-to_bits_example : int_from_bits ops (to_bits 8 (negsuc 127)) i8 ≡ ok (negsuc 127)
int_from_bits-to_bits_example =
    int_from_bits-to_bits ops i8 (negsuc 127) (ops-Documented 8) (omega arith) (omega arith)
