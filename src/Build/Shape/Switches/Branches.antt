-- ===== src/Build/Shape/Switches/Branches.antt =====
-- The loop of `switch_int` that builds its branches, and the block after the switch.
use mathlib.Core.Path.{fun_ext}
use mts_minirust_work.Prelude.{
  ◌≡◌, ◌∙◌, subst, true, false, List, [], ◌∷◌, Option, none, some, inl, inr, eqb_iff, arith,
  Option-cases,
}
use mts_minirust_work.Prelude.Outcome.{ok, Post, returns, Post-bind, Post-weaken}
use mts_minirust_work.Lang.Syntax.{BbName, BbKind, Terminator}
use mts_minirust_work.Build.State.{FunctionBuilder}
use mts_minirust_work.Build.Methods.{Branch, get_or_declare, goto_after, join_after, build_branches}
use mts_minirust_work.Build.Shape.{
  Graph, Pending, put, mark, unmark, Inv, Extends, Live, Ended, IsOverflow,
}
use mts_minirust_work.Build.Shape.Moves.{
  put-Extends, pending_fresh, declare_block_rule, set_cur_block_rule,
}
use mts_minirust_work.Build.Shape.Rules.{
  IsBranchIn, Extends-refl, Extends-trans, finish-Live_rule, put_self, mark_self,
}

-- the pending blocks with the one after the switch, if it is declared
abbrev pub with_after : Pending → Option BbName → Pending
with_after P none = P
with_after P (some a) = mark P a

abbrev pub AfterOk : Graph → Pending → BbKind → Option BbName → Type 0
AfterOk G P k none = Unit
AfterOk G P k (some a) = (P a ≡ false) × (G a ≡ some k)

-- the pending blocks with those of the branches
abbrev pub mark_all : Pending → List Branch → Pending
mark_all P [] = P
mark_all P ((_, b) ∷ bs) = mark (mark_all P bs) b

-- Each branch has a builder that runs, and a block of its own.
abbrev pub BranchesOk : Graph → Pending → BbKind → List Branch → Type 0
BranchesOk G P k [] = Unit
BranchesOk G P k ((m, b) ∷ bs) =
    IsBranchIn G k m × (mark_all P bs b ≡ false) × (G b ≡ some k) × BranchesOk G P k bs

pub BranchesOk-Extends :
    {G G' : Graph} (P : Pending) (k : BbKind) (bs : List Branch)
    → Extends G G'
    → BranchesOk G P k bs
    → BranchesOk G' P k bs
BranchesOk-Extends P k [] e h = tt
BranchesOk-Extends P k ((m, b) ∷ bs) e (run, own, kind, rest) =
    (λ H Q fb f. run H Q fb (Extends-trans e f), own, e b k kind, BranchesOk-Extends P k bs e rest)

-- what the end of a branch, and the loop over them, leave
abbrev pub Joined : Graph → Pending → BbKind → Option BbName × FunctionBuilder → Type 0
Joined G P k r =
    (G' : Graph) × Extends G G' × Inv G' (with_after P r.0) k r.1 × AfterOk G' P k r.0 × Ended r.1

pub join_after-Live :
    (after : Option BbName) (fb : FunctionBuilder)
    → Live fb
    → join_after after fb ≡ goto_after after fb
unfolding join_after
join_after-Live after fb (c, h) =
    λ i. elim (h i) [ none ↦ ok (after, fb) | some _ ↦ goto_after after fb ]

pub join_after-Ended :
    (after : Option BbName) (fb : FunctionBuilder) → Ended fb → join_after after fb ≡ ok (after, fb)
unfolding join_after
join_after-Ended after fb h = ground arith

-- The block after the switch is declared once.
get_or_declare_rule :
    {G : Graph} (P : Pending) {k : BbKind} {fb : FunctionBuilder} (after : Option BbName)
    → Inv G (with_after P after) k fb
    → AfterOk G P k after
    → Live fb
    → Post
        (λ r.
          (G' : Graph) × Extends G G'
          × Inv G' (mark P r.0) k r.1
          × (P r.0 ≡ false)
          × (G' r.0 ≡ some k)
          × Live r.1)
        IsOverflow
        (get_or_declare after fb)
unfolding get_or_declare
get_or_declare_rule {G} P {k} none v a live =
    Post-weaken (declare_block_rule v k) λ n (v₁, none_yet, same). (
      put G n.0 k,
      put-Extends G n.0 k none_yet,
      v₁,
      pending_fresh n.0 v none_yet,
      put_self G n.0 k,
      (live.0, same ∙ live.1),
    )
get_or_declare_rule {G} P (some b) v (own, kind) live =
    returns (G, Extends-refl G, v, own, kind, live)

goto_after_rule :
    {G : Graph} (P : Pending) {k : BbKind} {fb : FunctionBuilder} (after : Option BbName)
    → Inv G (with_after P after) k fb
    → AfterOk G P k after
    → Live fb
    → Post (Joined G P k) IsOverflow (goto_after after fb)
unfolding goto_after
goto_after_rule {G} P {k} after v a live =
    Post-bind (get_or_declare_rule P after v a live) λ b (G', grow, v₁, own, kind, l₁).
      Post-bind (finish-Live_rule v₁ (Terminator.goto b.0) l₁ kind)
        λ s (v₂, ended). returns (G', grow, v₂, (own, kind), ended)

-- Whether or not the branch finished its block, no block is current afterwards.
join_after_rule :
    {G : Graph} (P : Pending) {k : BbKind} {fb : FunctionBuilder} (after : Option BbName)
    → Inv G (with_after P after) k fb
    → AfterOk G P k after
    → Post (Joined G P k) IsOverflow (join_after after fb)
join_after_rule {G} P {k} {fb} after v a = elim (Option-cases fb.cur_block) [
  | inl ended ↦ rw (join_after-Ended after fb ended) (returns (G, Extends-refl G, v, a, ended))
  | inr live ↦ rw (join_after-Live after fb live) (goto_after_rule P after v a live)
]

-- What was pending but for one branch stays pending once that branch is begun.
unmark_branch :
    (G : Graph) (k : BbKind) (P : Pending) (b : BbName) (after : Option BbName)
    → P b ≡ false
    → AfterOk G (mark P b) k after
    → unmark (with_after (mark P b) after) b ≡ with_after P after
unmark_branch G k P b none own a = fun_ext λ m. ground (arith, eqb_iff b m)
unmark_branch G k P b (some c) own (other, _) =
    fun_ext λ m. ground (arith, eqb_iff b m, eqb_iff c m)

AfterOk-unmark :
    (G : Graph) (k : BbKind) (P : Pending) (b : BbName) (after : Option BbName)
    → AfterOk G (mark P b) k after
    → AfterOk G P k after
AfterOk-unmark G k P b none a = tt
AfterOk-unmark G k P b (some c) (other, kind) = (ground arith, kind)

branch_pending :
    (P : Pending) (b : BbName) (after : Option BbName) → with_after (mark P b) after b ≡ true
branch_pending P b none = mark_self P b
branch_pending P b (some c) = ground (arith, eqb_iff b b)

AfterOk-Extends :
    {G G' : Graph} (P : Pending) (k : BbKind) (after : Option BbName)
    → Extends G G'
    → AfterOk G P k after
    → AfterOk G' P k after
AfterOk-Extends P k none e a = tt
AfterOk-Extends P k (some c) e (other, kind) = (other, e c k kind)

-- Every branch is built in its own block, of the kind of the switch; no block is current at the
-- end, and the block after the switch is pending if a branch needs it.
pub build_branches_rule :
    (G : Graph) (P : Pending) (k : BbKind) (bs : List Branch) (after : Option BbName)
    (fb : FunctionBuilder)
    → Inv G (with_after (mark_all P bs) after) k fb
    → Ended fb
    → BranchesOk G P k bs
    → AfterOk G (mark_all P bs) k after
    → Post (Joined G P k) IsOverflow (build_branches bs k after fb)
unfolding build_branches
build_branches_rule G P k [] after fb v ended bs a = returns (G, Extends-refl G, v, a, ended)
build_branches_rule G P k ((m, b) ∷ bs) after fb v ended (run, own, kind, rest) a =
    let Q = mark_all P bs in
    Post-bind (set_cur_block_rule v b k ended (branch_pending Q b after) kind) λ s (v₁, l₁).
      let v₂ = subst (λ R. Inv G R k s.1) (unmark_branch G k Q b after own a) v₁ in
      Post-bind (run G (with_after Q after) s.1 (Extends-refl G) v₂ l₁) λ t (G', grow, v₃, _).
        Post-bind
          (join_after_rule Q after v₃
            (AfterOk-Extends Q k after grow (AfterOk-unmark G k Q b after a)))
          λ u (H, more, v₄, a', e').
            Post-weaken
              (build_branches_rule H P k bs u.0 u.1 v₄ e'
                (BranchesOk-Extends P k bs (Extends-trans grow more) rest) a')
              λ w (K, last, v₅, a₅, e₅).
                (K, Extends-trans grow (Extends-trans more last), v₅, a₅, e₅)
