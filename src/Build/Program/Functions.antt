-- ===== src/Build/Program/Functions.antt =====
-- tooling/miniutil/src/build/mod.rs: the functions of a program that is built.
use mts_minirust_work.Prelude.{
  ap, eqb_iff, arith, List, [], ◌∷◌, ◌≡◌, refl, sym, ◌∙◌, subst, inl, inr, some, none, some_inj,
  eqb, Bool-cases, nat_eq,
}
use mts_minirust_work.Prelude.Maps.{Map, get}
use mts_minirust_work.Prelude.Outcome.{
  Outcome, AnyPanic, missing_name, Post, returns, panics, Post-bind, Post-weaken,
}
use mts_minirust_work.Lang.Syntax.{FnName, LocalName, Function, BbKind}
use mts_minirust_work.Build.State.{FunctionBuilder}
use mts_minirust_work.Build.Program.{ProgramBuilder, add_function, finish_program}
use mts_minirust_work.Build.Program.Tables.{try_insert_rule, with_c, finish_program_lem}
use mts_minirust_work.Build.Shape.{Graph, Inv, Ended, IsOverflow}
use mts_minirust_work.Build.Shape.Finish.{NonePending, WellShaped, finish_function_rule}
use mts_minirust_work.Lang.WellFormed.{check_args, check_live}

-- Every function passes the rules on its shape.
abbrev pub AllShaped : Map FnName Function → Type 0
AllShaped functions = (n : FnName) (f : Function) → get n functions ≡ some f → WellShaped f

-- a panic that is not about the function itself
any_panic : {A : Type 0} {P : A → Type 0} {m : Outcome A} → Post P IsOverflow m → Post P AnyPanic m
any_panic (returns p) = returns p
any_panic (panics e) = panics tt

-- If every function of the program builder passes the rules on its shape, then adding the
-- function of a builder without a current block, whose invariant holds and to which no other
-- block is owed, panics, or gives the name of that function and a program builder whose functions
-- all pass the rules on their shape.
pub add_function-AllShaped :
    (G : Graph) (k : BbKind) (fb : FunctionBuilder) (pb : ProgramBuilder)
    → Inv G NonePending k fb
    → Ended fb
    → AllShaped pb.functions
    → Post (λ r. AllShaped r.1.functions × (r.0 ≡ fb.name)) AnyPanic (add_function fb pb)
unfolding add_function
add_function-AllShaped G k fb pb v ended all =
    Post-bind (any_panic (finish_function_rule v ended)) λ f shaped.
      Post-bind (try_insert_rule fb.name f pb.functions) λ l (fresh, found). returns (
        (λ n g q. elim (Bool-cases (eqb fb.name n)) [
          | inl here ↦
              let now : some f ≡ some g = rw here at (sym (found n) ∙ q) in
              subst WellShaped (some_inj now) shaped
          | inr other ↦ all n g (rw other at (sym (found n) ∙ q))
        ]),
        refl,
      )

check_args-with_c :
    (xs : List LocalName) (f : Function) → check_args xs (with_c f) ≡ check_args xs f
unfolding check_args
check_args-with_c [] f = refl
check_args-with_c (x ∷ xs) f = ground (arith, check_args-with_c xs f)

with_c-WellShaped : (f : Function) → WellShaped f → WellShaped (with_c f)
unfolding check_live
with_c-WellShaped f (live, blocks, start) = (rw (check_args-with_c f.args f) live, blocks, start)

-- If every function of the program builder passes the rules on its shape, then every function of
-- the finished program does, and its start function exists; `finish_program` panics only where
-- the start function does not exist.
pub finish_program-AllShaped :
    (start : FnName) (pb : ProgramBuilder)
    → AllShaped pb.functions
    → Post
        (λ r. AllShaped r.0.functions × ((f : Function) × (get r.0.start r.0.functions ≡ some f)))
        (λ e. (e ≡ missing_name) × (get start pb.functions ≡ none))
        (finish_program start pb)
finish_program-AllShaped start pb all =
    Post-weaken (finish_program_lem start pb) λ r (f, h, same, found, _). (
      (λ n g q. elim (Bool-cases (eqb start n)) [
        | inl here ↦
            let now : some (with_c f) ≡ some g = rw here at (sym (found n) ∙ q) in
            subst WellShaped (some_inj now) (with_c-WellShaped f (all start f h))
        | inr other ↦ all n g (rw other at (sym (found n) ∙ q))
      ]),
      (
        with_c f,
        ap (λ n. get n r.0.functions) same ∙ found start ∙ ground (arith, eqb_iff start start),
      ),
    )
