-- ===== src/Minimize/Intrinsics/Flow.antt =====
-- tooling/minimize/src/bb.rs: the terminators that intrinsics are translated to, against the rules
-- on block kinds.
use mts_minirust_work.Prelude.{ℕ, ◌≡◌, subst, sym, Bool, true, false, List, Option, none, some}
use mts_minirust_work.Prelude.Outcome.{missing_name, unsupported}
use mts_minirust_work.Lang.Syntax.{BbKind, PlaceExpr, ValueExpr}
use mts_minirust_work.Build.Shape.{Graph, Pending, Edges, NextOk}
use mts_minirust_work.Minimize.Mir.{Place, Operand, RustIntrinsic}
use mts_minirust_work.Minimize.Context.{◌>>=◌, bb_name, place, operand, operands}
use mts_minirust_work.Minimize.Context.Flow.{
  Flow, flow_bind, flow_reading, flow_stuck, flow_return, flow_bb_name, flow_weaken,
}
use mts_minirust_work.Minimize.Unwind.{block_kind}
use mts_minirust_work.Minimize.Unwind.Flow.{flow_catch_unwind}
use mts_minirust_work.Minimize.Intrinsics.{
  TerminatorResult, target_name, next_name, argument, assign_and_go, translate_rs_intrinsic,
}

abbrev pub TargetOk : (ℕ → BbKind) → Bool → Option ℕ → Type 0
TargetOk kinds c none = Unit
TargetOk kinds c (some t) = kinds t ≡ block_kind c

-- Unwindings are caught in regular blocks.
abbrev pub IntrinsicOk : Bool → RustIntrinsic → Type 0
IntrinsicOk c RustIntrinsic.catch_unwind = c ≡ false
IntrinsicOk c _ = Unit

abbrev pub Ends : Bool → TerminatorResult → Graph → Type 0
Ends c r H = Edges H (block_kind c) r.terminator

module _ {kinds : ℕ → BbKind} {G : Graph} {P : Pending} where
  pub flow_target :
      (t : ℕ) (c : Bool)
      → kinds t ≡ block_kind c
      → Flow kinds G P (bb_name t) (λ _. P) (λ n H. H n ≡ some (block_kind c))
  flow_target t c h =
      flow_weaken (flow_bb_name t) (λ n m p. p) λ n H (_, q). subst (λ k. H n ≡ some k) h q

  pub flow_target_name :
      (t : Option ℕ) (c : Bool)
      → TargetOk kinds c t
      → Flow kinds G P (target_name t) (λ _. P) (λ n H. H n ≡ some (block_kind c))
  unfolding target_name
  flow_target_name none c h = flow_stuck missing_name
  flow_target_name (some t) c h = flow_target t c h

module _ {kinds : ℕ → BbKind} {G : Graph} {P : Pending} where
  pub flow_next_name :
      (t : Option ℕ) (c : Bool)
      → TargetOk kinds c t
      → Flow kinds G P (next_name t) (λ _. P) (λ n H. NextOk H (block_kind c) n)
  unfolding next_name
  flow_next_name none c h = flow_return (λ _. P) none tt
  flow_next_name (some t) c h =
      flow_bind (flow_target t c h) λ n H e q. flow_return (λ _. P) (some n) q

  pub flow_place : (p : Place) → Flow kinds G P (place p) (λ _. P) (λ _ _. Unit)
  unfolding place
  flow_place p = flow_reading _

  pub flow_operand : (x : Operand) → Flow kinds G P (operand x) (λ _. P) (λ _ _. Unit)
  unfolding operand
  flow_operand x = flow_reading _

  pub flow_operands : (xs : List Operand) → Flow kinds G P (operands xs) (λ _. P) (λ _ _. Unit)
  unfolding operands
  flow_operands xs = flow_reading _

module _ {kinds : ℕ → BbKind} {G : Graph} {P : Pending} where
  pub flow_argument :
      (i : ℕ) (xs : List Operand) → Flow kinds G P (argument i xs) (λ _. P) (λ _ _. Unit)
  flow_argument i xs = flow_bind (flow_reading _) λ x H e _. flow_operand x

  flow_assign :
      (d : PlaceExpr) (v : ValueExpr) (t : Option ℕ) (c : Bool)
      → TargetOk kinds c t
      → Flow kinds G P (assign_and_go d v t) (λ _. P) (Ends c)
  unfolding assign_and_go
  flow_assign d v t c h = flow_bind (flow_target_name t c h) λ n H e q. flow_return (λ _. P) _ q

module _ {kinds : ℕ → BbKind} {G : Graph} {P : Pending} where
  argument_and_go :
      (i : ℕ) (args : List Operand) (d : Place) (f : ValueExpr → ValueExpr) (t : Option ℕ)
      (c : Bool)
      → TargetOk kinds c t
      → Flow kinds G P
          (argument i args >>= λ v. place d >>= λ x. assign_and_go x (f v) t)
          (λ _. P)
          (Ends c)
  argument_and_go i args d f t c h =
      flow_bind (flow_argument i args)
        λ v G1 e1 _. flow_bind (flow_place d) λ x G2 e2 _. flow_assign x (f v) t c h

  place_and_go :
      (i : ℕ) (args : List Operand) (d : Place) (f : ValueExpr → ValueExpr) (t : Option ℕ)
      (c : Bool)
      → TargetOk kinds c t
      → Flow kinds G P
          (place d >>= λ x. argument i args >>= λ v. assign_and_go x (f v) t)
          (λ _. P)
          (Ends c)
  place_and_go i args d f t c h =
      flow_bind (flow_place d)
        λ x G1 e1 _. flow_bind (flow_argument i args) λ v G2 e2 _. flow_assign x (f v) t c h

-- Every intrinsic ends its block with an edge that the rules allow.
pub flow_rs_intrinsic :
    {kinds : ℕ → BbKind} {G : Graph} {P : Pending} (i : RustIntrinsic) (args : List Operand)
    (d : Place) (t : Option ℕ) (c : Bool)
    → IntrinsicOk c i
    → TargetOk kinds c t
    → Flow kinds G P (translate_rs_intrinsic i args d t) (λ _. P) (Ends c)
unfolding translate_rs_intrinsic
flow_rs_intrinsic {P = P} (RustIntrinsic.assert_valid false) args d t c h g =
    flow_return (λ _. P) _ tt
flow_rs_intrinsic {P = P} (RustIntrinsic.assert_valid true) args d t c h g =
    flow_bind (flow_target_name t c g) λ n G1 e1 q. flow_return (λ _. P) _ q
flow_rs_intrinsic {P = P} RustIntrinsic.raw_eq args d t c h g =
    flow_bind (flow_operands args) λ vs G1 e1 _.
      flow_bind (flow_place d)
        λ x G2 e2 _. flow_bind (flow_next_name t c g) λ n G3 e3 q. flow_return (λ _. P) _ q
flow_rs_intrinsic (RustIntrinsic.arith_offset size) args d t c h g =
    flow_bind (flow_reading _) λ ty G1 e1 _. flow_bind (flow_argument 0 args) λ l G2 e2 _.
      flow_bind (flow_argument 1 args) λ r G3 e3 _.
        flow_bind (flow_place d)
          λ x G4 e4 _. flow_bind (flow_reading _) λ s G5 e5 _. flow_assign x _ t c g
flow_rs_intrinsic (RustIntrinsic.ptr_offset_from u size) args d t c h g =
    flow_bind (flow_argument 0 args) λ l G2 e2 _. flow_bind (flow_argument 1 args) λ r G3 e3 _.
      flow_bind (flow_place d) λ x G4 e4 _. flow_bind (flow_reading _) λ s G5 e5 _.
        flow_bind (flow_reading _)
          λ a G6 e6 _. flow_bind (flow_reading _) λ b G7 e7 _. flow_assign x _ t c g
flow_rs_intrinsic RustIntrinsic.ctpop args d t c h g = argument_and_go 0 args d _ t c g
flow_rs_intrinsic RustIntrinsic.exact_div args d t c h g =
    flow_bind (flow_argument 0 args) λ l G2 e2 _. argument_and_go 1 args d _ t c g
flow_rs_intrinsic (RustIntrinsic.size_of_val ty) args d t c h g = place_and_go 0 args d _ t c g
flow_rs_intrinsic (RustIntrinsic.min_align_of_val ty) args d t c h g = place_and_go 0 args d _ t c g
flow_rs_intrinsic RustIntrinsic.likely args d t c h g = place_and_go 0 args d (λ v. v) t c g
flow_rs_intrinsic {P = P} RustIntrinsic.cold_path args d t c h g =
    flow_bind (flow_target_name t c g) λ n G1 e1 q. flow_return (λ _. P) _ q
flow_rs_intrinsic {P = P} RustIntrinsic.catch_unwind args d t c h g =
    flow_bind (flow_operands args) λ vs G1 e1 _. flow_bind (flow_place d) λ x G2 e2 _.
      flow_bind (flow_target_name t c g) λ n G3 e3 q.
        flow_bind (flow_catch_unwind vs x n (subst (λ b. G3 n ≡ some (block_kind b)) h q))
          λ u G4 e4 w. flow_return (λ _. P) _ (subst (λ b. Edges G4 (block_kind b) u) (sym h) w)
flow_rs_intrinsic RustIntrinsic.other_intrinsic args d t c h g = flow_stuck unsupported
