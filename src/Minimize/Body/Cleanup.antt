-- ===== src/Minimize/Body/Cleanup.antt =====
-- tooling/minimize/src/bb.rs: an assertion in a block that cleans up, with panics that unwind.
use mts_minirust_work.Prelude.Int.{ℤ}
use mts_minirust_work.Prelude.{
  ℕ, ◌≡◌, refl, Bool, true, false, [], some, Bool-cases, inl, inr, arith, eqb_iff, nat_eq,
}
use mts_minirust_work.Prelude.Maps.{Map, get, get-insert, contains_key}
use mts_minirust_work.Prelude.Outcome.{
  Outcome, Post, Post-bind, returns, panics, AnyPanic, anything,
}
use mts_minirust_work.Lang.Syntax.{BbName, BasicBlock, Terminator, ValueExpr, cleanup}
use mts_minirust_work.Lang.WellFormed.{check_transitions}
use mts_minirust_work.Build.Expr.{unit_ptr}
use mts_minirust_work.Minimize.Mir.{Operand, UnwindAction, MirTerminator, PanicStrategy, Session}
use mts_minirust_work.Minimize.Place.{Names, lookup}
use mts_minirust_work.Minimize.Context.{
  FnCtxt, reading, operand, fresh_bb_name, bb_name, insert_block, return, ◌>>=◌,
}
use mts_minirust_work.Minimize.Unwind.{translate_unwind_action, translate_panic}
use mts_minirust_work.Minimize.Intrinsics.{TerminatorResult}
use mts_minirust_work.Minimize.Body.{expect, insert_new_block, translate_terminator}

reading-blocks :
    {A : Type 0} (f : Names → Outcome A) (fc : FnCtxt)
    → Post (λ r. r.1 ≡ fc) AnyPanic (reading f fc)
unfolding reading
reading-blocks f fc = Post-bind (anything (f fc.local_name_map)) λ a _. returns refl

bb_name-blocks : (t : ℕ) (fc : FnCtxt) → Post (λ r. r.1 ≡ fc) AnyPanic (bb_name t fc)
unfolding bb_name
bb_name-blocks t fc = Post-bind (anything (lookup t fc.bb_name_map)) λ n _. returns refl

insert_new_block-get :
    (n : BbName) (b : BasicBlock) (fc : FnCtxt)
    → Post (λ r. get n r.1.blocks ≡ some b) AnyPanic (insert_new_block n b fc)
unfolding insert_new_block insert_block
insert_new_block-get n b fc = elim (Bool-cases (contains_key n fc.blocks)) [
  | inl there ↦ rw there (panics tt)
  | inr absent ↦ rw absent (returns (ground (arith, get-insert n n b fc.blocks, eqb_iff n n)))
]

translate_panic-unwind :
    (strategy : PanicStrategy) (action : UnwindAction) (c : Bool) (fc : FnCtxt)
    → strategy ≡ PanicStrategy.unwind
    → Post
        (λ r. (u : BbName) × (r.0 ≡ Terminator.start_unwind unit_ptr u))
        AnyPanic
        (translate_panic strategy action c fc)
unfolding translate_panic return ◌>>=◌
translate_panic-unwind PanicStrategy.unwind action c fc h =
    Post-bind (anything (translate_unwind_action action c fc)) λ r _. returns (r.0, refl)
translate_panic-unwind PanicStrategy.abort action c fc h = absurd cc

-- a terminator that goes on in a stored block of which the transitions are against the rules
abbrev pub LeadsAstray : TerminatorResult × FnCtxt → Type 0
LeadsAstray r =
    (v : ValueExpr) × (cases : Map ℤ BbName) × (n : BbName) × (b : BasicBlock) × (r.0.terminator
      ≡ Terminator.switch v cases n)
    × (get n r.1.blocks ≡ some b)
    × (b.kind ≡ cleanup)
    × ((blocks : Map BbName BasicBlock) → check_transitions blocks b.kind b.terminator ≡ false)

-- Where panics unwind, an assertion in a block that cleans up is translated, unless the
-- translation panics, to a switch whose fallback is a block that is stored, cleans up, and starts
-- unwinding, which the rules of well-formedness refuse, whatever the other blocks are.
pub translate_terminator-assert :
    (session : Session) (x : Operand) (expected : Bool) (target : ℕ) (action : UnwindAction)
    (fc : FnCtxt)
    → session.panic_strategy ≡ PanicStrategy.unwind
    → Post LeadsAstray AnyPanic
        (translate_terminator session true (MirTerminator.assert x expected target action) fc)
unfolding translate_terminator ◌>>=◌ return check_transitions
translate_terminator-assert session x expected target action fc h =
    Post-bind (anything (operand x fc)) λ r1 _.
      Post-bind (anything (reading (λ _. expect expected r1.0) r1.1)) λ r2 _.
        Post-bind (translate_panic-unwind session.panic_strategy action true r2.1 h) λ r3 (u, q).
          Post-bind (anything (fresh_bb_name r3.1)) λ r4 _.
            let b : BasicBlock = record { statements = []; terminator = r3.0; kind = cleanup } in
            Post-bind (insert_new_block-get r4.0 b r4.1) λ r5 g.
              Post-bind (bb_name-blocks target r5.1) λ r6 same.
                Post-bind (reading-blocks _ r6.1) λ r7 same2.
                  returns (_, _, r4.0, b, refl, rw (same2, same) g, refl, λ blocks. rw q refl)
