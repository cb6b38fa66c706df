-- ===== src/Build/Shape/Alive.antt =====
-- tooling/miniutil/src/build/terminator.rs: where `switch_int`, `if_` and `while_` leave a current
-- block: if a branch does.
use mts_minirust_work.Prelude.{
  All, Bool, true, false, if◌then◌else◌, ◌≡◌, refl, List, [], ◌∷◌, ◌++◌, Option, none, some, inl,
  inr, Option-cases, nat_eq,
}
use mts_minirust_work.Prelude.Int.{ℤ, pos, int_eq}
use mts_minirust_work.Prelude.Maps.{contains_key}
use mts_minirust_work.Prelude.Outcome.{
  ok, panic, Panic, AnyPanic, anything, Post, returns, panics, Post-bind, Post-weaken, Post-both,
}
use mts_minirust_work.Lang.Syntax.{BbName, BbKind, ValueExpr}
use mts_minirust_work.Build.State.{
  M, CurBlock, FunctionBuilder, set_cur_block, cur_kind, declare_block, pure, ◌>>◌,
}
use mts_minirust_work.Build.Methods.{
  Branch, build_branches, join_after, goto_after, get_or_declare, goto, finish_block, declare_cases,
  begin_next, switch_int, if_, while_, loop_back,
}
use mts_minirust_work.Build.Shape.{Graph, Pending, Inv, Live, IsOverflow}
use mts_minirust_work.Build.Shape.Rules.{After, IsBranch}
use mts_minirust_work.Build.Shape.Switches.Cases.{DistinctCases}
use mts_minirust_work.Build.Shape.Switches.{switch_int-IsBranch, if_-IsBranch, while_-IsBranch}
use mts_minirust_work.Build.Shape.Switches.Branches.{join_after-Live, join_after-Ended}

-- A method that leaves a current block where there is one, unless it panics.
abbrev pub KeepsLive : M (Unit {0}) → Type 0
KeepsLive m = (fb : FunctionBuilder) → Live fb → Post (λ r. Live r.1) AnyPanic (m fb)

-- The block after the switch is declared.
abbrev HasAfter : Option BbName × FunctionBuilder → Type 0
HasAfter r = (b : BbName) × (r.0 ≡ some b)

test_alive :
    {A : Type 0} {P : A → Type 0} (d e : Panic) (a : A) (there : Bool) (o : Option CurBlock)
    → P a
    → Post P AnyPanic (if there then panic d else elim o [ none ↦ ok a | some _ ↦ panic e ])
test_alive d e a true o h = panics tt
test_alive d e a false none h = returns h
test_alive d e a false (some c) h = panics tt

set_cur_block_alive :
    (b : BbName) (k : BbKind) (fb : FunctionBuilder)
    → Post (λ r. Live r.1) AnyPanic (set_cur_block b k fb)
unfolding set_cur_block
set_cur_block_alive b k fb = test_alive _ _ _ (contains_key b fb.blocks) fb.cur_block (_, refl)

goto_after-HasAfter :
    (after : Option BbName) (fb : FunctionBuilder) → Post HasAfter AnyPanic (goto_after after fb)
unfolding goto_after
goto_after-HasAfter after fb =
    Post-bind (anything (get_or_declare after fb))
      λ b u. Post-bind (anything (goto b.0 b.1)) λ s u. returns (b.0, refl)

join_after-HasAfter :
    (a : BbName) (after : Option BbName) (fb : FunctionBuilder)
    → after ≡ some a
    → Post HasAfter AnyPanic (join_after after fb)
join_after-HasAfter a after fb h = elim (Option-cases fb.cur_block) [
  | inl ended ↦ rw (join_after-Ended after fb ended) (returns (a, h))
  | inr live ↦ rw (join_after-Live after fb live) (goto_after-HasAfter after fb)
]

-- Once it is declared, it stays.
after_stays :
    (bs : List Branch) (k : BbKind) (a : BbName) (after : Option BbName) (fb : FunctionBuilder)
    → after ≡ some a
    → Post HasAfter AnyPanic (build_branches bs k after fb)
unfolding build_branches
after_stays [] k a after fb h = returns (a, h)
after_stays ((m, b) ∷ bs) k a after fb h = Post-bind (anything (set_cur_block b k fb)) λ s u.
    Post-bind (anything (m s.1))
      λ t u. Post-bind (join_after-HasAfter a after t.1 h) λ w (c, q). after_stays bs k c w.0 w.1 q

-- A branch that leaves a current block jumps to it.
branch-HasAfter :
    (bs cs : List Branch) (m : M (Unit {0})) (b : BbName) (k : BbKind) (after : Option BbName)
    (fb : FunctionBuilder)
    → KeepsLive m
    → Post HasAfter AnyPanic (build_branches (bs ++ (m, b) ∷ cs) k after fb)
unfolding build_branches
branch-HasAfter [] cs m b k after fb keeps = Post-bind (set_cur_block_alive b k fb) λ s live.
    Post-bind (keeps s.1 live) λ t l.
      Post-bind {P = HasAfter} {m = join_after after t.1}
        (rw (join_after-Live after t.1 l) (goto_after-HasAfter after t.1))
        λ w (c, q). after_stays cs k c w.0 w.1 q
branch-HasAfter ((n, d) ∷ bs) cs m b k after fb keeps =
    Post-bind (anything (set_cur_block d k fb)) λ s u. Post-bind (anything (n s.1)) λ t u.
      Post-bind (anything (join_after after t.1)) λ w u. branch-HasAfter bs cs m b k w.0 w.1 keeps

begin_next_alive :
    (k : BbKind) (after : Option BbName) (fb : FunctionBuilder) (b : BbName)
    → after ≡ some b
    → Post (λ r. Live r.1) AnyPanic (begin_next after k fb)
begin_next_alive k after fb b h = rw h (set_cur_block_alive b k fb)

-- A switch whose fallback leaves a current block leaves one.
pub switch_int-KeepsLive :
    (value : ValueExpr) (cases : List (ℤ × M (Unit {0}))) (fallback : M (Unit {0}))
    → KeepsLive fallback
    → KeepsLive (switch_int value cases fallback)
unfolding switch_int
switch_int-KeepsLive value cases fallback keeps fb live = Post-bind (anything (cur_kind fb)) λ q u.
    Post-bind (anything (declare_cases cases [] [] q.1)) λ r u.
      Post-bind (anything (declare_block r.1)) λ n u.
        Post-bind (anything (finish_block _ n.1)) λ s u.
          Post-bind (branch-HasAfter r.0.1 [] fallback n.0 q.0 none s.1 keeps)
            λ w (b, h). begin_next_alive q.0 w.0 w.1 b h

pub if_-KeepsLive :
    (condition : ValueExpr) (then_branch else_branch : M (Unit {0}))
    → KeepsLive else_branch
    → KeepsLive (if_ condition then_branch else_branch)
unfolding if_
if_-KeepsLive condition then_branch else_branch keeps fb live =
    switch_int-KeepsLive _ ((pos 1, then_branch) ∷ []) else_branch keeps fb live

pub while_-KeepsLive :
    (condition : ValueExpr) (body : M (Unit {0})) → KeepsLive (while_ condition body)
unfolding while_
while_-KeepsLive condition body fb live = Post-bind (anything (declare_block fb)) λ n u.
    Post-bind (anything (cur_kind n.1)) λ q u. Post-bind (anything (goto n.0 q.1)) λ s u.
      Post-bind (set_cur_block_alive n.0 q.0 s.1)
        λ t l. if_-KeepsLive condition (body >> loop_back n.0) (pure tt) (λ g h. returns h) t.1 l

-- On a builder with a current block whose invariant holds, `if_` with branches that run on every
-- such builder, the else branch leaving a current block, gives a builder with a current block
-- whose invariant holds, for a graph of blocks that has grown. Its only panic is the overflow of
-- a counter.
pub if_-Continues :
    (condition : ValueExpr) (then_branch else_branch : M (Unit {0}))
    → IsBranch then_branch
    → IsBranch else_branch
    → KeepsLive else_branch
    → (G : Graph) (P : Pending) (k : BbKind) (fb : FunctionBuilder) → Inv G P k fb
    → Live fb
    → Post (After G P k (λ _ _ g. Live g)) IsOverflow (if_ condition then_branch else_branch fb)
if_-Continues condition t e run_t run_e keeps G P k fb v live =
    Post-weaken
      (Post-both (if_-IsBranch condition t e run_t run_e G P k fb v live)
        (if_-KeepsLive condition t e keeps fb live))
      λ r ((H, grow, w, _), l). (H, grow, w, l)

-- On a builder with a current block whose invariant holds, `while_` with a body that runs on
-- every such builder gives a builder with a current block whose invariant holds, for a graph of
-- blocks that has grown. Its only panic is the overflow of a counter.
pub while_-Continues :
    (condition : ValueExpr) (body : M (Unit {0}))
    → IsBranch body
    → (G : Graph) (P : Pending) (k : BbKind) (fb : FunctionBuilder) → Inv G P k fb
    → Live fb
    → Post (After G P k (λ _ _ g. Live g)) IsOverflow (while_ condition body fb)
while_-Continues condition body run G P k fb v live =
    Post-weaken
      (Post-both (while_-IsBranch condition body run G P k fb v live)
        (while_-KeepsLive condition body fb live))
      λ r ((H, grow, w, _), l). (H, grow, w, l)

-- A switch whose branches run, and whose fallback leaves a current block, leaves one.
pub switch_int-Continues :
    (value : ValueExpr) (cases : List (ℤ × M (Unit {0}))) (fallback : M (Unit {0}))
    → DistinctCases cases
    → All (λ p. IsBranch p.1) cases
    → IsBranch fallback
    → KeepsLive fallback
    → (G : Graph) (P : Pending) (k : BbKind) (fb : FunctionBuilder) → Inv G P k fb
    → Live fb
    → Post (After G P k (λ _ _ g. Live g)) IsOverflow (switch_int value cases fallback fb)
switch_int-Continues value cases fallback d runs run keeps G P k fb v live =
    Post-weaken
      (Post-both (switch_int-IsBranch value cases fallback d runs run G P k fb v live)
        (switch_int-KeepsLive value cases fallback keeps fb live))
      λ r ((H, grow, w, _), l). (H, grow, w, l)
