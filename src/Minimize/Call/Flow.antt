-- ===== src/Minimize/Call/Flow.antt =====
-- tooling/minimize/src/bb.rs: the terminator that a call is translated to, against the rules on
-- block kinds.
use mts_minirust_work.Prelude.{
  ℕ, suc, Bool, true, false, List, [], ◌∷◌, Option, none, some, if◌then◌else◌, ◌++◌, Option-cases,
  inl, inr,
}
use mts_minirust_work.Prelude.Outcome.{unsupported}
use mts_minirust_work.Lang.Types.{Ty}
use mts_minirust_work.Lang.Syntax.{BbKind, ArgumentExpr}
use mts_minirust_work.Build.Shape.{Graph, Pending}
use mts_minirust_work.Build.Shape.Moves.{UnwindsTo-Extends}
use mts_minirust_work.Minimize.Mir.{
  Projection, Place, Operand, UnwindAction, Instance, Callee, Session,
}
use mts_minirust_work.Minimize.Context.{return, ◌>>=◌}
use mts_minirust_work.Minimize.Context.Flow.{Flow, flow_bind, flow_reading, flow_stuck, flow_return}
use mts_minirust_work.Minimize.Unwind.{translate_panic}
use mts_minirust_work.Minimize.Unwind.Flow.{ActionOk, MayPanic, flow_unwind_action, flow_panic}
use mts_minirust_work.Minimize.Intrinsics.{only}
use mts_minirust_work.Minimize.Call.{
  is_panic_fn, translate_arg, translate_args, tuple_args, untuple, call_args, dispatch,
  call_function, translate_call,
}
use mts_minirust_work.Minimize.Intrinsics.Flow.{
  TargetOk, IntrinsicOk, Ends, flow_next_name, flow_place, flow_operand, flow_operands,
  flow_argument, flow_rs_intrinsic,
}

abbrev pub PanicOk : Bool → Session → Bool → Type 0
PanicOk true session c = MayPanic session.panic_strategy c
PanicOk false session c = Unit

abbrev pub CalleeOk : Session → Bool → Callee → Type 0
CalleeOk session c (Callee.rust_intrinsic i) = IntrinsicOk c i
CalleeOk session c (Callee.function f) = PanicOk (is_panic_fn f.name) session c
CalleeOk session c _ = Unit

module _ {kinds : ℕ → BbKind} where
  flow_arg :
      {G : Graph} {P : Pending} (x : Operand)
      → Flow kinds G P (translate_arg x) (λ _. P) (λ _ _. Unit)
  unfolding translate_arg
  flow_arg {P = P} (Operand.move p ty) =
      flow_bind (flow_place p) λ x H e _. flow_return (λ _. P) _ tt
  flow_arg {P = P} (Operand.copy p ty) =
      flow_bind (flow_operand (Operand.copy p ty)) λ x H e _. flow_return (λ _. P) _ tt
  flow_arg {P = P} (Operand.constant v ty) =
      flow_bind (flow_operand (Operand.constant v ty)) λ x H e _. flow_return (λ _. P) _ tt

  flow_args :
      {G : Graph} {P : Pending} (xs : List Operand)
      → Flow kinds G P (translate_args xs) (λ _. P) (λ _ _. Unit)
  unfolding translate_args
  flow_args {P = P} [] = flow_return (λ _. P) _ tt
  flow_args {P = P} (x ∷ xs) =
      flow_bind (flow_arg x)
        λ a H e _. flow_bind (flow_args xs) λ as2 K e2 _. flow_return (λ _. P) _ tt

  flow_tuple_args :
      {G : Graph} {P : Pending} (p : Place) (i : ℕ) (tys : List Ty)
      → Flow kinds G P (tuple_args p i tys) (λ _. P) (λ _ _. Unit)
  unfolding tuple_args
  flow_tuple_args {P = P} p i [] = flow_return (λ _. P) _ tt
  flow_tuple_args {P = P} p i (ty ∷ tys) =
      flow_bind (flow_place (record p { projection = p.projection ++ (Projection.field i ∷ []) }))
        λ x H e _.
          flow_bind (flow_tuple_args p (suc i) tys) λ rest K e2 _. flow_return (λ _. P) _ tt

  flow_untuple :
      {G : Graph} {P : Pending} (tys : Option (List Ty)) (xs : List Operand)
      → Flow kinds G P (untuple tys xs) (λ _. P) (λ _ _. Unit)
  unfolding untuple
  flow_untuple {P = P} tys [] = flow_return (λ _. P) _ tt
  flow_untuple {P = P} tys (x ∷ y ∷ xs) =
      flow_bind (flow_arg x)
        λ a H e _. flow_bind (flow_untuple tys (y ∷ xs)) λ rest K e2 _. flow_return (λ _. P) _ tt
  flow_untuple (some tys) (Operand.move p ty ∷ []) = flow_tuple_args p 0 tys
  flow_untuple (some tys) (Operand.copy p ty ∷ []) = flow_tuple_args p 0 tys
  flow_untuple (some tys) (Operand.constant v ty ∷ []) = flow_stuck unsupported
  flow_untuple none (x ∷ []) = flow_stuck unsupported

  flow_call_args :
      {G : Graph} {P : Pending} (tys : Option (Option (List Ty))) (xs : List Operand)
      → Flow kinds G P (call_args tys xs) (λ _. P) (λ _ _. Unit)
  flow_call_args none xs = flow_args xs
  flow_call_args (some tys) xs = flow_untuple tys xs

  flow_dispatch :
      {G : Graph} {P : Pending} (f : Instance) (xs : List Operand) (args : List ArgumentExpr)
      → Flow kinds G P (dispatch f xs args) (λ _. P) (λ _ _. Unit)
  unfolding dispatch
  flow_dispatch {P = P} f xs args = elim (Option-cases f.virtual_method) [
    | inl q ↦ rw (q, dispatch) (flow_return (λ _. P) _ tt)
    | inr (m, q) ↦
        rw (q, dispatch)
          (flow_bind (flow_argument 0 xs)
            λ r H e _. flow_bind (flow_reading _) λ a K e2 _. flow_return (λ _. P) _ tt)
  ]

  -- A call ends its block with edges that the rules allow.
  flow_call_function :
      {G : Graph} {P : Pending} (f : Instance) (xs : List Operand) (d : Place) (t : Option ℕ)
      (action : UnwindAction) (c : Bool)
      → ActionOk kinds c action
      → TargetOk kinds c t
      → Flow kinds G P (call_function f xs d t action c) (λ _. P) (Ends c)
  unfolding call_function
  flow_call_function {P = P} f xs d t action c h g =
      flow_bind (flow_call_args f.rust_call xs) λ args G1 e1 _.
        flow_bind (flow_unwind_action action c h) λ n G2 e2 u.
          flow_bind (flow_dispatch f xs args) λ callee G3 e3 _.
            flow_bind (flow_place d) λ x G4 e4 _. flow_bind (flow_next_name t c g) λ m G5 e5 q.
              flow_return (λ _. P) _
                (q, UnwindsTo-Extends _ n (λ b j w. e5 b j (e4 b j (e3 b j w))) u)

  flow_called :
      {G : Graph} {P : Pending} (session : Session) (f : Instance) (is_panic : Bool)
      (xs : List Operand) (d : Place) (t : Option ℕ) (action : UnwindAction) (c : Bool)
      → PanicOk is_panic session c
      → ActionOk kinds c action
      → TargetOk kinds c t
      → Flow kinds G P
          (if is_panic
            then (do u ← translate_panic session.panic_strategy action c; return (only u))
            else call_function f xs d t action c)
          (λ _. P)
          (Ends c)
  flow_called {P = P} session f true xs d t action c may h g =
      flow_bind (flow_panic session.panic_strategy action c may h)
        λ u H e q. flow_return (λ _. P) _ q
  flow_called session f false xs d t action c may h g = flow_call_function f xs d t action c h g

  -- Whatever is called, the block ends with edges that the rules allow.
  pub flow_call :
      {G : Graph} {P : Pending} (session : Session) (callee : Callee) (xs : List Operand)
      (d : Place) (t : Option ℕ) (action : UnwindAction) (c : Bool)
      → CalleeOk session c callee
      → ActionOk kinds c action
      → TargetOk kinds c t
      → Flow kinds G P (translate_call session callee xs d t action c) (λ _. P) (Ends c)
  unfolding translate_call
  flow_call session (Callee.rust_intrinsic i) xs d t action c ok h g =
      flow_rs_intrinsic i xs d t c ok g
  flow_call {P = P} session (Callee.minirust_intrinsic name) xs d t action c ok h g =
      flow_bind (flow_reading _) λ i G1 e1 _. flow_bind (flow_operands xs) λ vs G2 e2 _.
        flow_bind (flow_place d)
          λ x G3 e3 _. flow_bind (flow_next_name t c g) λ n G4 e4 q. flow_return (λ _. P) _ q
  flow_call session (Callee.function f) xs d t action c ok h g =
      flow_called session f (is_panic_fn f.name) xs d t action c ok h g
  flow_call session Callee.other_callee xs d t action c ok h g = flow_stuck unsupported
