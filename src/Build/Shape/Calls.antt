-- ===== src/Build/Shape/Calls.antt =====
-- tooling/miniutil/src/build/terminator.rs: rules for the calls.
use mts_minirust_work.Prelude.{sym, ◌∙◌, subst, List, Option, none, some}
use mts_minirust_work.Prelude.Outcome.{Post, returns, Post-bind, Post-weaken}
use mts_minirust_work.Lang.Syntax.{
  BbName, BbKind, ValueExpr, PlaceExpr, ArgumentExpr, CallingConvention, Terminator,
}
use mts_minirust_work.Build.State.{FunctionBuilder, declare_block, set_cur_block, ◌>>=◌}
use mts_minirust_work.Build.Methods.{
  handle_call, call_noret, call_nounwind, call_ignoreret, call, call_with_conv,
}
use mts_minirust_work.Build.Shape.{Graph, Pending, UnwindOk, UnwindsTo, Inv, Live, IsOverflow}
use mts_minirust_work.Build.Shape.Moves.{
  UnwindOk-Extends, put-Extends, pending_fresh, declare_block_rule,
}
use mts_minirust_work.Build.Shape.Rules.{
  After, Ends, Continues, Extends-refl, cur_kind_rule, finish-Live_rule, begin_rule, put_self,
}

module _ (ret : PlaceExpr) (f : ValueExpr) (args : List ArgumentExpr)
    (conv : CallingConvention) where
  -- A call with a fresh next block, and an unwind block that the rules allow.
  pub call_rule :
      (unwind : Option BbName) (G : Graph) (P : Pending) (k : BbKind) (fb : FunctionBuilder)
      → Inv G P k fb
      → Live fb
      → UnwindOk G k unwind
      → Post
          (After G P k (λ _ _ g. Live g))
          IsOverflow
          ((declare_block >>= λ next. handle_call ret f args conv (some next) unwind) fb)
  unfolding handle_call
  call_rule unwind G P k fb v live u = Post-bind (declare_block_rule v k) λ n (v₁, none_yet, same).
      Post-bind (cur_kind_rule v₁ (live.0, same ∙ live.1)) λ r (q, v₂, l₂).
        Post-bind
          (finish-Live_rule v₂ (Terminator.call f conv args ret (some n.0) unwind) l₂
            (put_self G n.0 k, UnwindOk-Extends k unwind (put-Extends G n.0 k none_yet) u))
          λ s (v₃, ended).
            subst (λ j. Post (After G P k (λ _ _ g. Live g)) IsOverflow (set_cur_block n.0 j s.1))
              (sym q)
              (Post-weaken (begin_rule G n.0 k (pending_fresh n.0 v none_yet) v₃ ended)
                λ t (v₄, l₄). (_, put-Extends G n.0 k none_yet, v₄, l₄))

  -- On a builder with a current block whose invariant holds, `call_with_conv` with an unwind
  -- block that the graph has, of a kind that the rules allow for the kind of the current block,
  -- keeps the invariant for a graph that has grown and leaves a current block. Its only panic is
  -- the overflow of a counter.
  pub call_with_conv_rule :
      (unwind : BbName) (G : Graph) (P : Pending) (k : BbKind) (fb : FunctionBuilder)
      → Inv G P k fb
      → Live fb
      → UnwindsTo G k unwind
      → Post (After G P k (λ _ _ g. Live g)) IsOverflow (call_with_conv ret f args conv unwind fb)
  unfolding call_with_conv
  call_with_conv_rule unwind G P k fb v live u = call_rule (some unwind) G P k fb v live u

module _ (ret : PlaceExpr) (f : ValueExpr) (args : List ArgumentExpr) where
  pub call_noret-Ends : Ends (call_noret ret f args)
  unfolding call_noret
  call_noret-Ends G P k fb v live = Post-bind (cur_kind_rule v live) λ r (q, v₁, l₁).
      Post-bind
        (finish-Live_rule v₁ (Terminator.call f CallingConvention.rust args ret none none) l₁
          (tt, tt))
        λ s (v₂, ended). returns (G, Extends-refl G, v₂, ended)

  pub call_nounwind-Continues : Continues (call_nounwind ret f args)
  unfolding call_nounwind
  call_nounwind-Continues G P k fb v live =
      call_rule ret f args CallingConvention.rust none G P k fb v live tt

  pub call_rule_unwind :
      (unwind : BbName) (G : Graph) (P : Pending) (k : BbKind) (fb : FunctionBuilder)
      → Inv G P k fb
      → Live fb
      → UnwindsTo G k unwind
      → Post (After G P k (λ _ _ g. Live g)) IsOverflow (call ret f args unwind fb)
  unfolding call
  call_rule_unwind unwind G P k fb v live u =
      call_rule ret f args CallingConvention.rust (some unwind) G P k fb v live u

pub call_ignoreret-Continues :
    (f : ValueExpr) (args : List ArgumentExpr) → Continues (call_ignoreret f args)
unfolding call_ignoreret
call_ignoreret-Continues f args G P k fb v live =
    call_rule _ f args CallingConvention.rust none G P k fb v live tt
