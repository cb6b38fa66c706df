-- ===== src/Build/Shape/Finish.antt =====
-- tooling/miniutil/src/build/mod.rs: what `finish_function` makes of a builder, against the rules
-- of spec/lang/well-formed.md.
use mts_minirust_work.Prelude.{
  ◌≡◌, refl, sym, ◌∙◌, subst, true, false, List, [], ◌∷◌, Option, none, some, inl, inr, All,
  All-map, eqb_iff, arith, nat_eq, Option-cases, some_inj,
}
use mts_minirust_work.Prelude.Int.{ℤ}
use mts_minirust_work.Prelude.Maps.{Map, get, contains_key}
use mts_minirust_work.Prelude.Outcome
use mts_minirust_work.Prelude.Outcome.{
  Outcome, ok, panic, Panic, unfinished_block, Post, returns, panics, Post-bind, Post-weaken,
}
use mts_minirust_work.Lang.Types.{Ty}
use mts_minirust_work.Lang.Syntax.{
  PlaceExpr, FnName, LocalName, BbName, BbKind, BasicBlock, Function, Terminator, goto, switch,
  unreachable, intrinsic, call, return, start_unwind, stop_unwind, resume_unwind, regular, cleanup,
  catch, terminate,
}
use mts_minirust_work.Lang.WellFormed.{
  kind_eq, check_next_block, check_unwind_block, unwind_kind_ok, check_option, check_cases,
  check_transitions, check_args, check_live,
}
use mts_minirust_work.Build.Ty.{unit_ty}
use mts_minirust_work.Build.State.{
  ◌>>=◌, M, FunctionBuilder, new, finish_function, declare_ret, declare_ret_with_ty, declare_block,
  set_cur_block, next, finish_ret, assemble, CurBlock,
}
use mts_minirust_work.Build.Shape.{
  Graph, Pending, put, Distinct, NextOk, UnwindOk, UnwindsTo, Edges, Inv, Live, Ended, IsOverflow,
}
use mts_minirust_work.Build.Shape.Rules.{EndsIn}
use mts_minirust_work.Build.Shape.Locals.{declare_ret_rule}

kind_eq_refl : (k : BbKind) → kind_eq k k ≡ true
kind_eq_refl regular = refl
kind_eq_refl cleanup = refl
kind_eq_refl catch = refl
kind_eq_refl terminate = refl

abbrev pub NonePending : Pending
NonePending n = false

-- A block with its kind, in the blocks of a function.
abbrev pub Stored : Map BbName BasicBlock → BbName → BbKind → Type 0
Stored blocks n j = (b : BasicBlock) × (get n blocks ≡ some b) × (b.kind ≡ j)

next_ok :
    (blocks : Map BbName BasicBlock) (n : BbName) (j : BbKind)
    → Stored blocks n j
    → check_next_block blocks j n ≡ true
unfolding check_next_block
next_ok blocks n j (b, h, e) = rw (h, check_next_block, e) (kind_eq_refl j)

unwind_ok :
    (blocks : Map BbName BasicBlock) (n : BbName) (k j : BbKind)
    → Stored blocks n j
    → unwind_kind_ok k j ≡ true
    → check_unwind_block blocks k n ≡ true
unfolding check_unwind_block
unwind_ok blocks n k j (b, h, e) u = rw (h, check_unwind_block, e) u

module _ (G : Graph) (blocks : Map BbName BasicBlock)
    (stored : (n : BbName) (j : BbKind) → G n ≡ some j → Stored blocks n j) where
  option_ok :
      (k : BbKind) (n : Option BbName)
      → NextOk G k n
      → check_option (check_next_block blocks k) n ≡ true
  option_ok k none h = refl
  option_ok k (some n) h = next_ok blocks n k (stored n k h)

  unwind_block_ok :
      (k : BbKind) (n : BbName) → UnwindsTo G k n → check_unwind_block blocks k n ≡ true
  unwind_block_ok k n (j, h, u) = unwind_ok blocks n k j (stored n j h) u

  unwind_option_ok :
      (k : BbKind) (n : Option BbName)
      → UnwindOk G k n
      → check_option (check_unwind_block blocks k) n ≡ true
  unwind_option_ok k none h = refl
  unwind_option_ok k (some n) h = unwind_block_ok k n h

  cases_ok :
      (k : BbKind) (cases : Map ℤ BbName)
      → All (λ p. G p.1 ≡ some k) cases
      → check_cases blocks k cases ≡ true
  unfolding check_cases
  cases_ok k [] h = refl
  cases_ok k ((_, n) ∷ cases) (h, hs) = rw (next_ok blocks n k (stored n k h)) (cases_ok k cases hs)

  -- Edges that hold in the graph are what the rules check, once every block is stored.
  pub Edges-ok : (k : BbKind) (t : Terminator) → Edges G k t → check_transitions blocks k t ≡ true
  unfolding check_transitions
  Edges-ok k (goto n) h = next_ok blocks n k (stored n k h)
  Edges-ok k (switch _ cases f) (h, hf) =
      rw (cases_ok k cases h) (next_ok blocks f k (stored f k hf))
  Edges-ok k unreachable h = refl
  Edges-ok k (intrinsic _ _ _ n) h = option_ok k n h
  Edges-ok k (call _ _ _ _ n u) (h, hu) = rw (option_ok k n h) (unwind_option_ok k u hu)
  Edges-ok k return h = rw h refl
  Edges-ok k (start_unwind _ n) (h, hu) =
      rw h (unwind_block_ok regular n (subst (λ j. UnwindsTo G j n) h hu))
  Edges-ok k (stop_unwind n) (h, hn) = rw h (next_ok blocks n regular (stored n regular hn))
  Edges-ok k resume_unwind h = rw h refl

-- Without a current block and without pending ones, every declared block is stored.
all-Stored :
    {G : Graph} {k : BbKind} {fb : FunctionBuilder}
    → Inv G NonePending k fb
    → Ended fb
    → (n : BbName) (j : BbKind) → G n ≡ some j
    → Stored fb.blocks n j
all-Stored {fb = fb} v e n j h = elim (Option-cases (get n fb.blocks)) [
  | inl q ↦ absurd (cc (v.covered n j h q (rw e refl)))
  | inr (b, q) ↦ (b, q, some_inj (sym (v.known n b q).0 ∙ h))
]

args_ok :
    (xs : List LocalName) (f : Function)
    → All (λ a. contains_key a f.locals ≡ true) xs
    → Distinct xs
    → check_args xs f ≡ true
unfolding check_args
args_ok [] f h d = refl
args_ok (x ∷ xs) f (h, hs) (own, d) = rw (h, own) (args_ok xs f hs d)

-- What the rules ask of a function, but for the types of its expressions.
abbrev pub WellShaped : Function → Type 0
WellShaped f =
    (check_live f ≡ true)
    × ((n : BbName) (b : BasicBlock)
        → get n f.blocks ≡ some b
        → check_transitions f.blocks b.kind b.terminator ≡ true)
    × Stored f.blocks f.start regular

-- a finished builder whose return local is set
assembled :
    {G : Graph} {k : BbKind} {fb : FunctionBuilder} (l : LocalName)
    → Inv G NonePending k fb
    → Ended fb
    → fb.ret ≡ some l
    → WellShaped (assemble fb l)
unfolding check_live
assembled {G} {fb = fb} l v e h =
    let stored = all-Stored v e in
    (
      rw
          (
            args_ok fb.args (assemble fb l)
                (All-map _ _ fb.args (λ a (_, c). c) v.locals_ok.args_known)
                v.locals_ok.args_distinct,
            (v.locals_ok.ret_known l h).1,
            v.locals_ok.ret_distinct l h,
          )
          refl,
      (λ n b q. Edges-ok G fb.blocks stored b.kind b.terminator (v.known n b q).1),
      stored fb.start regular v.entry,
    )

finish_ret_eq :
    (l : LocalName) (fb : FunctionBuilder) → fb.ret ≡ some l → finish_ret fb ≡ ok (assemble fb l)
finish_ret_eq l fb h =
    λ i. elim (h i) [ none ↦ panic Panic.missing_name | some r ↦ ok (assemble fb r) ]

finish_function-some :
    (l : LocalName) (fb : FunctionBuilder)
    → Ended fb
    → fb.ret ≡ some l
    → finish_function fb ≡ ok (assemble fb l)
unfolding finish_function
finish_function-some l fb e h = ground arith

finish_function_none :
    (fb : FunctionBuilder)
    → Ended fb
    → fb.ret ≡ none
    → finish_function fb ≡ Outcome.◌>>=◌ (declare_ret_with_ty unit_ty fb) (λ r. finish_ret r.1)
unfolding finish_function declare_ret declare_ret_with_ty
finish_function_none fb e h = ground arith

-- Without a current block and pending blocks, a builder gives a function of the right shape.
pub finish_function_rule :
    {G : Graph} {k : BbKind} {fb : FunctionBuilder}
    → Inv G NonePending k fb
    → Ended fb
    → Post WellShaped IsOverflow (finish_function fb)
finish_function_rule {fb = fb} v e = elim (Option-cases fb.ret) [
  | inl none_yet ↦ rw (finish_function_none fb e none_yet) (
      Post-bind (declare_ret_rule v unit_ty none_yet) λ r ((w, same), (l, h, _, _)).
        rw (finish_ret_eq l r.1 h) (returns (assembled l w (same ∙ e) h)))
  | inr (l, h) ↦ rw (finish_function-some l fb e h) (returns (assembled l v e h))
]

-- the graph of a new builder
abbrev pub initial : Graph
initial = put (λ n. none) 0 regular

pub new_rule :
    (name : FnName)
    → Post
        (λ fb. Inv initial NonePending regular fb × Live fb × (fb.ret ≡ none))
        IsOverflow
        (new name)
unfolding new declare_block set_cur_block next get contains_key
new_rule name = returns (
  record {
    undeclared = λ n h. ground arith;
    known = λ n b h. absurd cc;
    covered = λ n j g b c. ground (arith, eqb_iff 0 n);
    pending = λ n p. absurd cc;
    promised = λ n p. absurd cc;
    current = λ c h.
        subst
          (λ (x : CurBlock).
            (initial x.name ≡ some x.kind)
            × (x.kind ≡ regular)
            × (get {V = BasicBlock} x.name [] ≡ none))
          (some_inj h) (refl, refl, refl);
    entry = refl;
    locals_ok = record {
      unused = λ n h. refl;
      args_known = tt;
      args_distinct = tt;
      ret_known = λ r h. absurd cc;
      ret_distinct = λ r h. absurd cc;
    };
  },
  (_, refl),
  refl,
)

-- The way a function is built: a new builder, the calls of its methods, and the end.
abbrev pub build : FnName → M (Unit {0}) → Outcome Function
build name builder =
    Outcome.◌>>=◌ (new name) (λ fb. Outcome.◌>>=◌ (builder fb) (λ r. finish_function r.1))

-- For a builder method that ends a regular block (from every builder with a current regular block
-- and the invariant it gives one without a current block and with the invariant), the function
-- built by a new builder, the method and `finish_function` passes the rules of well-formedness
-- that concern its shape: arguments and return local exist and are distinct, every block
-- transition leads to a block that exists and has a kind that the rules allow, and the start
-- block exists and is regular. The only panic is the overflow of a counter.
pub build-WellShaped :
    (name : FnName) (builder : M (Unit {0}))
    → EndsIn regular builder
    → Post WellShaped IsOverflow (build name builder)
build-WellShaped name builder ends = Post-bind (new_rule name) λ fb (v, live, _).
    Post-bind (ends initial NonePending fb v live)
      λ r (H, _, w, ended). finish_function_rule w ended

-- For code that, given the place of the return local, ends a regular block, the function built by
-- a new builder, the declaration of a return local with a type, that code and `finish_function`
-- passes the rules of well-formedness that concern its shape. The only panic is the overflow of a
-- counter.
pub build-WellShaped_ret :
    (name : FnName) (ty : Ty) (builder : PlaceExpr → M (Unit {0}))
    → ((ret : PlaceExpr) → EndsIn regular (builder ret))
    → Post WellShaped IsOverflow (build name (declare_ret_with_ty ty >>= builder))
build-WellShaped_ret name ty builder ends = Post-bind (new_rule name) λ fb (v, (c, h), none_yet).
    Post-bind
      (Post-bind (declare_ret_rule v ty none_yet)
        λ r ((w, same), _). ends r.0 initial NonePending r.1 w (c, same ∙ h))
      λ s (H, _, x, ended). finish_function_rule x ended
