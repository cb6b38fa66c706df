-- ===== src/Build/Shape/Switches/Cases.antt =====
-- The loop of `switch_int` that declares a block for each case.
use mathlib.Core.Path.{fun_ext}
use mts_minirust_work.Prelude.{
  ◌≡◌, refl, sym, ◌∙◌, subst, false, List, [], ◌∷◌, ◌++◌, none, some, All, All-map, eqb_iff, arith,
  nat_eq,
}
use mts_minirust_work.Prelude.Int.{ℤ, int_eq, eqb_ℤ_iff}
use mts_minirust_work.Prelude.Maps.{Map, contains_key, contains_key-get, try_insert_fresh}
use mts_minirust_work.Prelude.Outcome.{Post, returns, Post-bind, Post-weaken}
use mts_minirust_work.Lang.Syntax.{BbName, BbKind}
use mts_minirust_work.Build.State.{M, FunctionBuilder}
use mts_minirust_work.Build.Methods.{Branch, declare_cases}
use mts_minirust_work.Build.Shape.{Graph, Pending, put, mark, Inv, Extends, Live, IsOverflow}
use mts_minirust_work.Build.Shape.Moves.{put-Extends, pending_fresh, declare_block_rule}
use mts_minirust_work.Build.Shape.Rules.{IsBranchIn, Extends-refl, Extends-trans, put_self}
use mts_minirust_work.Build.Shape.Switches.Branches.{mark_all, BranchesOk}

-- No two cases have one value, as the source asks of its caller.
abbrev pub DistinctCases : List (ℤ × M (Unit {0})) → Type 0
DistinctCases [] = Unit
DistinctCases ((c, m) ∷ cases) = (contains_key c cases ≡ false) × DistinctCases cases

abbrev pub Fresh : Map ℤ BbName → List (ℤ × M (Unit {0})) → Type 0
Fresh branch_map = All (λ p. contains_key p.0 branch_map ≡ false)

abbrev pub Runs : Graph → BbKind → List (ℤ × M (Unit {0})) → Type 0
Runs G k = All (λ p. IsBranchIn G k p.1)

pub IsBranchIn-Extends :
    {G G' : Graph} (k : BbKind) (m : M (Unit {0}))
    → Extends G G'
    → IsBranchIn G k m
    → IsBranchIn G' k m
IsBranchIn-Extends k m e run H Q fb f = run H Q fb (Extends-trans e f)

-- The cases of the map lead to blocks of kind `k`.
abbrev pub Leads : Graph → BbKind → Map ℤ BbName → Type 0
Leads G k = All (λ p. G p.1 ≡ some k)

Fresh-cons :
    (c : ℤ) (n : BbName) (branch_map : Map ℤ BbName) (cases : List (ℤ × M (Unit {0})))
    → contains_key c cases ≡ false
    → Fresh branch_map cases
    → Fresh ((c, n) ∷ branch_map) cases
unfolding contains_key
Fresh-cons c n branch_map [] h f = tt
Fresh-cons c n branch_map ((d, m) ∷ cases) h (f, fs) = (
  ground (arith, eqb_ℤ_iff c d, eqb_ℤ_iff d c),
  Fresh-cons c n branch_map cases (ground arith) fs,
)

pub mark_all-snoc :
    (P : Pending) (bs : List Branch) (m : M (Unit {0})) (n : BbName)
    → mark_all P (bs ++ (m, n) ∷ []) ≡ mark (mark_all P bs) n
mark_all-snoc P [] m n = refl
mark_all-snoc P ((l, b) ∷ bs) m n =
    fun_ext λ x. rw (mark_all-snoc P bs m n) (ground (arith, eqb_iff b x, eqb_iff n x))

pub mark_all_base :
    (P : Pending) (bs : List Branch) (n : BbName) → mark_all P bs n ≡ false → P n ≡ false
mark_all_base P [] n h = h
mark_all_base P ((m, b) ∷ bs) n h = mark_all_base P bs n (ground (arith, eqb_iff b n))

-- A fresh block joins the branches.
pub BranchesOk-snoc :
    (G : Graph) (P : Pending) (k : BbKind) (bs : List Branch) (m : M (Unit {0})) (n : BbName)
    → BranchesOk G P k bs
    → IsBranchIn G k m
    → G n ≡ none
    → P n ≡ false
    → BranchesOk (put G n k) P k (bs ++ (m, n) ∷ [])
BranchesOk-snoc G P k [] m n q run none_yet own =
    (IsBranchIn-Extends k m (put-Extends G n k none_yet) run, own, put_self G n k, tt)
BranchesOk-snoc G P k ((l, b) ∷ bs) m n (r, o, kind, rest) run none_yet own = (
  IsBranchIn-Extends k l (put-Extends G n k none_yet) r,
  rw (mark_all-snoc P bs m n) (ground (arith, eqb_iff n b)),
  put-Extends G n k none_yet b k kind,
  BranchesOk-snoc G P k bs m n rest run none_yet own,
)

-- what the loop leaves: the map, the branches and the builder
abbrev pub Cases :
    Graph → Pending → BbKind → (Map ℤ BbName × List Branch) × FunctionBuilder → Type 0
Cases G P k r =
    (G' : Graph) × Extends G G'
    × Inv G' (mark_all P r.0.1) k r.1
    × BranchesOk G' P k r.0.1
    × Leads G' k r.0.0
    × Live r.1

pub declare_cases_rule :
    (G : Graph) (P : Pending) (k : BbKind) (cases : List (ℤ × M (Unit {0})))
    (branch_map : Map ℤ BbName) (bs : List Branch) (fb : FunctionBuilder)
    → DistinctCases cases
    → Fresh branch_map cases
    → Runs G k cases
    → Inv G (mark_all P bs) k fb
    → BranchesOk G P k bs
    → Leads G k branch_map
    → Live fb
    → Post (Cases G P k) IsOverflow (declare_cases cases branch_map bs fb)
unfolding declare_cases
declare_cases_rule G P k [] branch_map bs fb d f run v b l live =
    returns (G, Extends-refl G, v, b, l, live)
declare_cases_rule G P k ((c, m) ∷ cases) branch_map bs fb (own, d) (f, fs) (r, rs) v b l live =
    Post-bind (declare_block_rule v k) λ n (v₁, none_yet, same).
      rw (try_insert_fresh c n.0 branch_map (contains_key-get c branch_map f)) (
        Post-weaken
          (declare_cases_rule (put G n.0 k) P k cases ((c, n.0) ∷ branch_map) (bs ++ (m, n.0) ∷ [])
            n.1 d (Fresh-cons c n.0 branch_map cases own fs)
            (All-map _ _ cases (λ p. IsBranchIn-Extends k p.1 (put-Extends G n.0 k none_yet)) rs)
            (subst (λ Q. Inv (put G n.0 k) Q k n.1) (sym (mark_all-snoc P bs m n.0)) v₁)
            (BranchesOk-snoc G P k bs m n.0 b r none_yet
              (mark_all_base P bs n.0 (pending_fresh n.0 v none_yet)))
            (put_self G n.0 k, All-map _ _ branch_map (λ p. put-Extends G n.0 k none_yet p.1 k) l)
            (live.0, same ∙ live.1))
          λ s (H, grow, v₂, b₂, l₂, live₂).
            (H, Extends-trans (put-Extends G n.0 k none_yet) grow, v₂, b₂, l₂, live₂))
