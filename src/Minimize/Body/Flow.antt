-- ===== src/Minimize/Body/Flow.antt =====
-- tooling/minimize/src/bb.rs: the blocks that a block of the MIR is translated to, against the
-- rules on block kinds. The MIR follows rustc's rules: edges lead to blocks of the same kind.
use mts_minirust_work.Prelude.{
  ℕ, ◌≡◌, refl, Bool, true, false, List, [], ◌∷◌, ◌++◌, some, All, All-map, Bool-cases,
  Option-cases, inl, inr, ◌⊎◌, arith, eqb_iff, nat_eq, ◌==◌,
}
use mts_minirust_work.Prelude.Int.{ℤ, int_eq}
use mts_minirust_work.Prelude.Maps.{Map, insert, collect, contains_key}
use mts_minirust_work.Prelude.Outcome.{panics, unsupported}
use mts_minirust_work.Lang.Types.{IntType}
use mts_minirust_work.Lang.Syntax.{
  IntrinsicOp, BbName, BbKind, BasicBlock, Statement, PlaceExpr, ValueExpr,
}
use mts_minirust_work.Build.Shape.{Graph, Pending, mark, unmark, Edges}
use mts_minirust_work.Build.Shape.Moves.{Edges-Extends}
use mts_minirust_work.Minimize.Mir.{Place, Rvalue, MirStatement, MirTerminator, MirBlock, Session}
use mts_minirust_work.Minimize.Bits.{SizeOps}
use mts_minirust_work.Minimize.Context.Flow.{
  Flow, flow_bind, flow_reading, flow_return, flow_stuck, flow_weaken, flow_fresh, flow_insert,
}
use mts_minirust_work.Minimize.Unwind.{block_kind}
use mts_minirust_work.Minimize.Unwind.Flow.{ActionOk, MayPanic, flow_panic}
use mts_minirust_work.Minimize.Intrinsics.Flow.{
  TargetOk, Ends, flow_target, flow_place, flow_operand,
}
use mts_minirust_work.Minimize.Call.Flow.{CalleeOk, flow_call}
use mts_minirust_work.Minimize.Body.{
  StatementResult, statement, intrinsic, insert_new_block, provenance_intrinsic, translate_assign,
  translate_stmt, translate_cases, translate_terminator, translate_stmts, translate_bb,
}

-- What rustc's rules ask of a terminator in a block that cleans up or not; and with the strategy
-- to unwind, blocks that clean up neither check nor panic nor catch.
abbrev pub TerminatorOk : (ℕ → BbKind) → Session → Bool → MirTerminator → Type 0
TerminatorOk kinds session c MirTerminator.return = c ≡ false
TerminatorOk kinds session c (MirTerminator.goto t) = kinds t ≡ block_kind c
TerminatorOk kinds session c (MirTerminator.call f _ _ t action) =
    CalleeOk session c f × ActionOk kinds c action × TargetOk kinds c t
TerminatorOk kinds session c (MirTerminator.switch_int _ cases t) =
    All (λ p. kinds p.1 ≡ block_kind c) cases × (kinds t ≡ block_kind c)
TerminatorOk kinds session c MirTerminator.unreachable = Unit
TerminatorOk kinds session c (MirTerminator.assert _ _ t action) =
    MayPanic session.panic_strategy c × ActionOk kinds c action × (kinds t ≡ block_kind c)
TerminatorOk kinds session c (MirTerminator.drop _ _ t) = kinds t ≡ block_kind c
TerminatorOk kinds session c MirTerminator.unwind_resume = c ≡ true
TerminatorOk kinds session c MirTerminator.other_terminator = Unit

-- Every case leads to a block of the kind.
abbrev CasesTo : Graph → BbKind → List (ℤ × BbName) → Type 0
CasesTo G k = All (λ p. G p.1 ≡ some k)

CasesTo-insert :
    (G : Graph) (k : BbKind) (i : ℤ) (n : BbName) (m : Map ℤ BbName)
    → G n ≡ some k
    → CasesTo G k m
    → CasesTo G k (insert i n m)
unfolding insert
CasesTo-insert G k i n [] h hs = (h, tt)
CasesTo-insert G k i n ((j, w) ∷ m) h (hw, hs) = elim (Bool-cases (j == i)) [
  | inl same ↦ rw same (h, hs)
  | inr other ↦ rw other (hw, CasesTo-insert G k i n m h hs)
]

CasesTo-collect :
    (G : Graph) (k : BbKind) (xs m : Map ℤ BbName)
    → CasesTo G k xs
    → CasesTo G k m
    → CasesTo G k (collect xs m)
unfolding collect
CasesTo-collect G k [] m h g = g
CasesTo-collect G k ((i, n) ∷ xs) m (h, hs) g =
    CasesTo-collect G k xs _ hs (CasesTo-insert G k i n m h g)

module _ {kinds : ℕ → BbKind} {G : Graph} {P R : Pending} where
  -- A block under a new name; where there is one already, the code panics.
  flow_insert_new :
      (n : BbName) (b : BasicBlock)
      → G n ≡ some b.kind
      → Edges G b.kind b.terminator
      → ((m : BbName) → unmark P n m ≡ true → R m ≡ true)
      → Flow kinds G P (insert_new_block n b) (λ _. R) (λ _ _. Unit)
  unfolding insert_new_block
  flow_insert_new n b h e f = record {
    run = λ fc v. elim (Bool-cases (contains_key n fc.blocks)) [
      | inl there ↦ rw there (panics tt)
      | inr absent ↦ rw absent ((flow_weaken (flow_insert n b h e) (λ u. f) (λ u H q. tt)).run fc v)
    ];
  }

flow_cases :
    {kinds : ℕ → BbKind} {G : Graph} {P : Pending} (ops : SizeOps) (ity : IntType) (c : Bool)
    (cases : List (ℕ × ℕ))
    → All (λ p. kinds p.1 ≡ block_kind c) cases
    → Flow kinds G P (translate_cases ops ity cases) (λ _. P) (λ xs H. CasesTo H (block_kind c) xs)
unfolding translate_cases
flow_cases {P = P} ops ity c [] h = flow_return (λ _. P) [] tt
flow_cases {P = P} ops ity c ((value, t) ∷ cases) (h, hs) = flow_bind (flow_reading _) λ i G1 e1 _.
    flow_bind (flow_target t c h) λ n G2 e2 q.
      flow_bind (flow_cases ops ity c cases hs)
        λ rest G3 e3 qs. flow_return (λ _. P) _ (e3 _ _ q, qs)

-- The terminator has edges that the rules allow.
flow_terminator :
    {kinds : ℕ → BbKind} {G : Graph} {P : Pending} (session : Session) (c : Bool)
    (t : MirTerminator)
    → TerminatorOk kinds session c t
    → Flow kinds G P (translate_terminator session c t) (λ _. P) (Ends c)
unfolding translate_terminator
flow_terminator {P = P} session c MirTerminator.return h = flow_return (λ _. P) _ (rw h)
flow_terminator {P = P} session c (MirTerminator.goto t) h =
    flow_bind (flow_target t c h) λ n G1 e1 q. flow_return (λ _. P) _ q
flow_terminator session c (MirTerminator.call f xs d t action) (ok, h, g) =
    flow_call session f xs d t action c ok h g
flow_terminator {P = P} session c (MirTerminator.switch_int x cases t) (hs, h) =
    flow_bind (flow_operand x) λ v G1 e1 _. flow_bind (flow_reading _) λ value G2 e2 _.
      flow_bind (flow_cases session.size_ops value.1 c cases hs) λ xs G3 e3 qs.
        flow_bind (flow_target t c h) λ n G4 e4 q.
          flow_return (λ _. P) _
            (CasesTo-collect G4 (block_kind c) xs [] (All-map _ _ xs (λ p. e4 p.1 _) qs) tt, q)
flow_terminator {P = P} session c MirTerminator.unreachable h = flow_return (λ _. P) _ tt
flow_terminator {P = P} session c (MirTerminator.assert x expected t action) (may, h, g) =
    flow_bind (flow_operand x) λ v G1 e1 _. flow_bind (flow_reading _) λ condition G2 e2 _.
      flow_bind (flow_panic session.panic_strategy action c may h) λ u G3 e3 w.
        flow_bind (flow_fresh (block_kind c)) λ n G4 e4 q.
          flow_bind
            (flow_insert_new n _ q (Edges-Extends _ u e4 w) (λ m p. ground (arith, eqb_iff n m)))
            λ _ G5 e5 _. flow_bind (flow_target t c g) λ next G6 e6 r.
              flow_bind (flow_reading _)
                λ value G7 e7 _. flow_return (λ _. P) _ ((e7 _ _ r, tt), e7 _ _ (e6 _ _ (e5 _ _ q)))
flow_terminator {P = P} session c (MirTerminator.drop p glue t) h =
    flow_bind (flow_place p) λ x G1 e1 _.
      flow_bind (flow_reading _)
        λ callee G2 e2 _. flow_bind (flow_target t c h) λ n G3 e3 q. flow_return (λ _. P) _ (q, tt)
flow_terminator {P = P} session c MirTerminator.unwind_resume h = flow_return (λ _. P) _ (rw h)
flow_terminator session c MirTerminator.other_terminator h = flow_stuck unsupported

flow_assign :
    {kinds : ℕ → BbKind} {G : Graph} {P : Pending} (session : Session) (p : Place) (rval : Rvalue)
    → Flow kinds G P (translate_assign session p rval) (λ _. P) (λ _ _. Unit)
unfolding translate_assign
flow_assign {P = P} session p rval = flow_bind (flow_place p) λ d G1 e1 _.
    elim (Option-cases (provenance_intrinsic rval)) [
      | inl q ↦ rw q (flow_bind (flow_reading _) λ v G2 e2 _. flow_return (λ _. P) _ tt)
      | inr ((op, x), q) ↦ rw q (flow_bind (flow_operand x) λ v G2 e2 _. flow_return (λ _. P) _ tt)
    ]

-- A statement leaves the blocks alone.
flow_stmt :
    {kinds : ℕ → BbKind} {G : Graph} {P : Pending} (session : Session) (st : MirStatement)
    → Flow kinds G P (translate_stmt session st) (λ _. P) (λ _ _. Unit)
unfolding translate_stmt
flow_stmt session (MirStatement.assign p rval) = flow_assign session p rval
flow_stmt {P = P} session (MirStatement.storage_live l) =
    flow_bind (flow_reading _) λ n G1 e1 _. flow_return (λ _. P) _ tt
flow_stmt {P = P} session (MirStatement.storage_dead l) =
    flow_bind (flow_reading _) λ n G1 e1 _. flow_return (λ _. P) _ tt
flow_stmt {P = P} session (MirStatement.retag b p) =
    flow_bind (flow_place p) λ n G1 e1 _. flow_return (λ _. P) _ tt
flow_stmt {P = P} session (MirStatement.deinit p) =
    flow_bind (flow_place p) λ n G1 e1 _. flow_return (λ _. P) _ tt
flow_stmt {P = P} session (MirStatement.set_discriminant p d) =
    flow_bind (flow_place p) λ n G1 e1 _. flow_return (λ _. P) _ tt
flow_stmt {P = P} session (MirStatement.assume x) =
    flow_bind (flow_operand x) λ n G1 e1 _. flow_return (λ _. P) _ tt
flow_stmt {P = P} session (MirStatement.place_mention p) =
    flow_bind (flow_place p) λ n G1 e1 _. flow_return (λ _. P) _ tt
flow_stmt session MirStatement.other_statement = flow_stuck unsupported

StatementResult-cases :
    (r : StatementResult)
    → ((s : Statement) × (r ≡ statement s))
      ⊎ ((op : IntrinsicOp) × (d : PlaceExpr) × (args : List ValueExpr) × (r ≡ intrinsic op d args))
StatementResult-cases (statement s) = inl (s, refl)
StatementResult-cases (intrinsic op d args) = inr (op, d, args, refl)

-- An intrinsic among the statements ends the block that is being built, and the rest goes to a
-- new block of the same kind, which stays to be finished.
flow_stmts :
    {kinds : ℕ → BbKind} {G : Graph} (P : Pending) (session : Session) (k : BbKind) (name : BbName)
    (statements : List Statement) (sts : List MirStatement)
    → G name ≡ some k
    → Flow kinds G
        (mark P name)
        (translate_stmts session k name statements sts)
        (λ r. mark P r.0)
        (λ r H. H r.0 ≡ some k)
unfolding translate_stmts
flow_stmts P session k name statements [] h = flow_return (λ r. mark P r.0) (name, statements) h
flow_stmts P session k name statements (st ∷ sts) h = flow_bind (flow_stmt session st) λ r H e _.
    elim (StatementResult-cases r) [
      | inl (s, q) ↦ rw q (flow_stmts P session k name (statements ++ (s ∷ [])) sts (e _ _ h))
      | inr (op, d, args, q) ↦ rw q (
          flow_bind (flow_fresh k) λ next I e2 w.
            flow_bind
              (flow_insert_new name _ (e2 _ _ (e _ _ h)) w
                λ m p. ground (arith, eqb_iff name m, eqb_iff next m))
              λ _ J e3 _. flow_stmts P session k next [] sts (e3 _ _ w))
    ]

-- A block of the MIR becomes blocks that the rules allow, the first under its name.
pub flow_bb :
    {kinds : ℕ → BbKind} {G : Graph} {P : Pending} (session : Session) (name : BbName)
    (bb : MirBlock)
    → TerminatorOk kinds session bb.is_cleanup bb.terminator
    → G name ≡ some (block_kind bb.is_cleanup)
    → Flow kinds G (mark P name) (translate_bb session name bb) (λ _. P) (λ _ _. Unit)
unfolding translate_bb
flow_bb {P = P} session name bb ok h =
    flow_bind (flow_stmts P session _ name [] bb.statements h) λ last G1 e1 q.
      flow_bind (flow_terminator session bb.is_cleanup bb.terminator ok)
        λ r G2 e2 w. flow_insert_new last.0 _ (e2 _ _ q) w λ m p. ground (arith, eqb_iff last.0 m)
