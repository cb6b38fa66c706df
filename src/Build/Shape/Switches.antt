-- ===== src/Build/Shape/Switches.antt =====
-- tooling/miniutil/src/build/terminator.rs: rules for `switch_int`, `if_` and `while_`.
pub mod Branches
pub mod Cases
use mts_minirust_work.Prelude.{
  ℕ, ◌≡◌, refl, sym, ◌∙◌, subst, false, List, [], ◌∷◌, ◌++◌, Option, none, some, All, All-map, inl,
  inr, Option-cases,
}
use mts_minirust_work.Prelude.Int.{ℤ, pos, int_eq}
use mts_minirust_work.Prelude.Maps.{contains_key}
use mts_minirust_work.Prelude.Outcome
use mts_minirust_work.Prelude.Outcome.{ok, Post, returns, Post-bind, Post-weaken}
use mts_minirust_work.Lang.Syntax.{BbName, BbKind, ValueExpr, Terminator}
use mts_minirust_work.Build.State.{M, FunctionBuilder, declare_block, set_cur_block, pure, ◌>>◌}
use mts_minirust_work.Build.Methods.{
  Branch, switch_int, if_, while_, build_branches, begin_next, loop_back, goto, finish_block,
}
use mts_minirust_work.Build.Ty.{RustTy}
use mts_minirust_work.Build.Expr.{bool_to_int}
use mts_minirust_work.Build.Shape.{Graph, Pending, put, mark, Inv, Extends, Live, Ended, IsOverflow}
use mts_minirust_work.Build.Shape.Moves.{
  put-Extends, pending_fresh, declare_block_rule, set_cur_block_rule,
}
use mts_minirust_work.Build.Shape.Rules.{
  After, IsBranch, IsBranchIn, IsBranch-in, begin_rule, Continues, Extends-refl, Extends-trans,
  cur_kind_rule, finish-Live_rule, put_self, mark_self, resume_same,
}
use Branches.{
  mark_all, with_after, AfterOk, BranchesOk, BranchesOk-Extends, Joined, build_branches_rule,
}
use Cases.{
  DistinctCases, Runs, Fresh, IsBranchIn-Extends, Leads, declare_cases_rule, mark_all-snoc,
  mark_all_base, BranchesOk-snoc,
}
pub use Cases.{DistinctCases, Runs}

-- The current block after the switch is the one that the branches jump to.
begin_next_rule :
    {G : Graph} {P : Pending} {k : BbKind} {fb : FunctionBuilder} (after : Option BbName)
    → Inv G (with_after P after) k fb
    → AfterOk G P k after
    → Ended fb
    → Post (λ r. Inv G P k r.1) IsOverflow (begin_next after k fb)
begin_next_rule none v a ended = returns v
begin_next_rule {P = P} {k = k} (some b) v (own, kind) ended =
    Post-weaken (set_cur_block_rule v b k ended (mark_self P b) kind)
      λ r (w, live). resume_same b own w

loop_back-Live :
    (n : BbName) (fb : FunctionBuilder)
    → Live fb
    → loop_back n fb ≡ finish_block (Terminator.goto n) fb
unfolding loop_back goto
loop_back-Live n fb (c, h) = λ i. elim (h i) [ none ↦ ok (tt, fb) | some _ ↦ goto n fb ]

loop_back-Ended : (n : BbName) (fb : FunctionBuilder) → Ended fb → loop_back n fb ≡ ok (tt, fb)
unfolding loop_back
loop_back-Ended n fb h = λ i. elim (h i) [ none ↦ ok (tt, fb) | some _ ↦ goto n fb ]

Fresh-all : (cases : List (ℤ × M (Unit {0}))) → Fresh [] cases
unfolding contains_key
Fresh-all [] = tt
Fresh-all (c ∷ cases) = (refl, Fresh-all cases)

-- the part of a switch that builds the branches and begins the block after it
build_rule :
    {G : Graph} (P : Pending) {k : BbKind} (j : BbKind) (bs : List Branch) (fb : FunctionBuilder)
    → j ≡ k
    → Inv G (mark_all P bs) k fb
    → Ended fb
    → BranchesOk G P k bs
    → Post
        (After G P k (λ _ _ _. Unit))
        IsOverflow
        (Outcome.◌>>=◌ (build_branches bs j none fb) (λ r. begin_next r.0 j r.1))
build_rule {G} P {k} j bs fb e v ended oks =
    subst
      (λ i.
        Post (After G P k (λ _ _ _. Unit)) IsOverflow
          (Outcome.◌>>=◌ (build_branches bs i none fb) (λ r. begin_next r.0 i r.1)))
      (sym e)
      (Post-bind (build_branches_rule G P k bs none fb v ended oks tt) λ r (H, grow, v₁, a, ended₁).
        Post-weaken (begin_next_rule r.0 v₁ a ended₁) λ s w. (H, grow, w, tt))

module _ (value : ValueExpr) (cases : List (ℤ × M (Unit {0}))) (fallback : M (Unit {0})) where
  -- The rule for a switch whose branches may count on the blocks that are declared before it.
  switch_int_rule :
      (G : Graph) (P : Pending) (k : BbKind) (fb : FunctionBuilder)
      → DistinctCases cases
      → Runs G k cases
      → IsBranchIn G k fallback
      → Inv G P k fb
      → Live fb
      → Post (After G P k (λ _ _ _. Unit)) IsOverflow (switch_int value cases fallback fb)
  unfolding switch_int
  switch_int_rule G P k fb distinct runs run v live =
      Post-bind (cur_kind_rule v live) λ q (same_kind, v₁, l₁).
        Post-bind
          (declare_cases_rule G P k cases [] [] q.1 distinct (Fresh-all cases) runs v₁ tt tt l₁)
          λ r (H, grow, v₂, b₂, leads, l₂).
            Post-bind (declare_block_rule v₂ k) λ n (v₃, none_yet, same).
              let K = put H n.0 k in
              let more = put-Extends H n.0 k none_yet in
              let bs = r.0.1 ++ (fallback, n.0) ∷ [] in
              Post-bind
                (finish-Live_rule v₃ (Terminator.switch value r.0.0 n.0) (l₂.0, same ∙ l₂.1)
                  (All-map _ _ r.0.0 (λ p. more p.1 k) leads, put_self H n.0 k))
                λ s (v₄, ended).
                  Post-weaken
                    (build_rule P q.0 bs s.1 same_kind
                      (subst (λ Q. Inv K Q k s.1) (sym (mark_all-snoc P r.0.1 fallback n.0)) v₄)
                      ended
                      (BranchesOk-snoc H P k r.0.1 fallback n.0 b₂
                        (IsBranchIn-Extends k fallback grow run) none_yet
                        (mark_all_base P r.0.1 n.0 (pending_fresh n.0 v₂ none_yet))))
                    λ t (L, last, v₅, _). (L, Extends-trans grow (Extends-trans more last), v₅, tt)

  -- On a builder with a current block whose invariant holds, `switch_int` over distinct values,
  -- with branches that run on every such builder, gives a builder whose invariant holds, for a
  -- graph of blocks that has grown. Its only panic is the overflow of a counter.
  pub switch_int-IsBranch :
      DistinctCases cases
      → All (λ p. IsBranch p.1) cases
      → IsBranch fallback
      → (G : Graph) (P : Pending) (k : BbKind) (fb : FunctionBuilder) → Inv G P k fb
      → Live fb
      → Post (After G P k (λ _ _ _. Unit)) IsOverflow (switch_int value cases fallback fb)
  switch_int-IsBranch distinct runs run G P k fb v live =
      switch_int_rule G P k fb distinct (All-map _ _ cases (λ p. IsBranch-in G k {m = p.1}) runs)
        (IsBranch-in G k run) v live

-- The rule for `if`, a switch with one case.
if_rule :
    (condition : ValueExpr) (then_branch else_branch : M (Unit {0})) (G : Graph) (P : Pending)
    (k : BbKind) (fb : FunctionBuilder)
    → IsBranchIn G k then_branch
    → IsBranchIn G k else_branch
    → Inv G P k fb
    → Live fb
    → Post (After G P k (λ _ _ _. Unit)) IsOverflow (if_ condition then_branch else_branch fb)
unfolding if_ contains_key
if_rule condition then_branch else_branch G P k fb t e v live =
    switch_int_rule _ ((pos 1, then_branch) ∷ []) else_branch G P k fb (refl, tt) (t, tt) e v live

-- On a builder with a current block whose invariant holds, `if_` with branches that run on every
-- such builder gives a builder whose invariant holds, for a graph of blocks that has grown. Its
-- only panic is the overflow of a counter.
pub if_-IsBranch :
    (condition : ValueExpr) (then_branch else_branch : M (Unit {0}))
    → IsBranch then_branch
    → IsBranch else_branch
    → (G : Graph) (P : Pending) (k : BbKind) (fb : FunctionBuilder) → Inv G P k fb
    → Live fb
    → Post (After G P k (λ _ _ _. Unit)) IsOverflow (if_ condition then_branch else_branch fb)
if_-IsBranch condition then_branch else_branch t e G P k fb v live =
    if_rule condition then_branch else_branch G P k fb (IsBranch-in G k t) (IsBranch-in G k e) v
      live

-- The body of a loop that does not finish its block jumps back to the condition.
loop_back_rule :
    (n : BbName) {G : Graph} {P : Pending} {k : BbKind} {fb : FunctionBuilder}
    → Inv G P k fb
    → G n ≡ some k
    → Post (λ r. Inv G P k r.1) IsOverflow (loop_back n fb)
loop_back_rule n {k = k} {fb = fb} v kind = elim (Option-cases fb.cur_block) [
  | inl ended ↦ rw (loop_back-Ended n fb ended) (returns v)
  | inr live ↦
      rw (loop_back-Live n fb live)
        (Post-weaken (finish-Live_rule v (Terminator.goto n) live kind) λ r (w, _). w)
]

-- On a builder with a current block whose invariant holds, `while_` with a body that runs on
-- every such builder gives a builder whose invariant holds, for a graph of blocks that has grown.
-- Its only panic is the overflow of a counter.
pub while_-IsBranch :
    (condition : ValueExpr) (body : M (Unit {0}))
    → IsBranch body
    → (G : Graph) (P : Pending) (k : BbKind) (fb : FunctionBuilder) → Inv G P k fb
    → Live fb
    → Post (After G P k (λ _ _ _. Unit)) IsOverflow (while_ condition body fb)
unfolding while_
while_-IsBranch condition body run G P k fb v live =
    Post-bind (declare_block_rule v k) λ n (v₁, none_yet, same).
      Post-bind (cur_kind_rule v₁ (live.0, same ∙ live.1)) λ q (same_kind, v₂, l₂).
        Post-bind (finish-Live_rule v₂ (Terminator.goto n.0) l₂ (put_self G n.0 k)) λ s (v₃, ended).
          let H = put G n.0 k in
          Post-bind
            (subst (λ j. Post (λ r. Inv H P k r.1 × Live r.1) IsOverflow (set_cur_block n.0 j s.1))
              (sym same_kind) (begin_rule G n.0 k (pending_fresh n.0 v none_yet) v₃ ended))
            λ t (v₄, l₄).
              Post-weaken
                (if_rule condition (body >> loop_back n.0) (pure tt) H P k t.1
                  (λ K Q gb e w l. Post-bind (run K Q k gb w l) λ u (L, grow, w₁, _).
                    Post-weaken (loop_back_rule n.0 w₁ (grow n.0 k (e n.0 k (put_self G n.0 k))))
                      λ x w₂. (L, grow, w₂, tt))
                  (λ K Q gb e w l. returns (K, Extends-refl K, w, tt)) v₄ l₄)
                λ u (K, grow, v₅, _). (K, Extends-trans (put-Extends G n.0 k none_yet) grow, v₅, tt)
