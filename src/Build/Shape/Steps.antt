-- ===== src/Build/Shape/Steps.antt =====
-- tooling/miniutil/src/build: the methods one by one, and how they are put together.
use mts_minirust_work.Prelude.{◌≡◌, refl, ◌∙◌, List, some, Bool}
use mts_minirust_work.Prelude.Int.{ℤ}
use mts_minirust_work.Prelude.Outcome.{Post, Post-bind, Post-weaken}
use mts_minirust_work.Lang.Types.{Ty}
use mts_minirust_work.Lang.Syntax.{
  BbName, BbKind, ValueExpr, PlaceExpr, ArgumentExpr, Terminator, Statement, regular, cleanup,
  catch, terminate,
}
use mts_minirust_work.Build.State.{
  M, FunctionBuilder, push_statement, declare_local_with_ty, declare_arg_with_ty, cleanup_block,
  catch_block, terminating_block, ◌>>=◌, ◌>>◌,
}
use mts_minirust_work.Build.Terminators.{FetchBinOp}
use mts_minirust_work.Build.Terminators
use mts_minirust_work.Build.Methods.{
  finish_block, assign, place_mention, set_discriminant, validate, exit, abort, unreachable,
  return_, resume_unwind, goto, start_unwind, stop_unwind, call,
}
use mts_minirust_work.Build.Shape.{Graph, Pending, Edges, UnwindsTo, Inv, Live, Ended, IsOverflow}
use mts_minirust_work.Build.Shape.Rules.{
  After, Does, EndsIn, Continues, Ends, IsBranch, Aside, Extends-refl, Extends-trans,
  push_statement_rule, finish-Live_rule, block_of_kind_rule,
}
use mts_minirust_work.Build.Shape.Locals.{declare_local_rule, declare_arg_rule}
use mts_minirust_work.Build.Shape.Calls.{call_rule_unwind}

-- A method that leaves a current block, and a result.
abbrev pub Goes : {A : Type 0} → M A → Type 0
Goes m = Does m (λ _ _ fb. Live fb)

pub Ends-in : (k : BbKind) {m : M (Unit {0})} → Ends m → EndsIn k m
Ends-in k run G P fb v live = run G P k fb v live

-- What ends a block may follow what leaves one.
pub bind-EndsIn :
    {A : Type 0} (k : BbKind) (m : M A) (f : A → M (Unit {0}))
    → Goes m
    → ((a : A) → EndsIn k (f a))
    → EndsIn k (m >>= f)
bind-EndsIn k m f run next G P fb v live = Post-bind (run G P k fb v live) λ r (H, grow, w, live').
    Post-weaken (next r.0 H P r.1 w live')
      λ s (K, more, x, ended). (K, Extends-trans grow more, x, ended)

pub then-Continues : (m n : M (Unit {0})) → Continues m → Continues n → Continues (m >> n)
then-Continues m n run next G P k fb v live =
    Post-bind (run G P k fb v live) λ r (H, grow, w, live').
      Post-weaken (next H P k r.1 w live') λ s (K, more, x, l). (K, Extends-trans grow more, x, l)

pub Continues-IsBranch : (m : M (Unit {0})) → Continues m → IsBranch m
Continues-IsBranch m run G P k fb v live =
    Post-weaken (run G P k fb v live) λ r (H, grow, w, _). (H, grow, w, tt)

pub Ends-IsBranch : (m : M (Unit {0})) → Ends m → IsBranch m
Ends-IsBranch m run G P k fb v live =
    Post-weaken (run G P k fb v live) λ r (H, grow, w, _). (H, grow, w, tt)

-- a statement
statement-Continues : (st : Statement) → Continues (push_statement st)
statement-Continues st G P k fb v live =
    Post-weaken (push_statement_rule v st live) λ r (w, l). (G, Extends-refl G, w, l)

pub assign-Continues : (p : PlaceExpr) (e : ValueExpr) → Continues (assign p e)
unfolding assign
assign-Continues p e = statement-Continues _

pub place_mention-Continues : (p : PlaceExpr) → Continues (place_mention p)
unfolding place_mention
place_mention-Continues p = statement-Continues _

pub set_discriminant-Continues : (p : PlaceExpr) (d : ℤ) → Continues (set_discriminant p d)
unfolding set_discriminant
set_discriminant-Continues p d = statement-Continues _

pub validate-Continues : (p : PlaceExpr) (b : Bool) → Continues (validate p b)
unfolding validate
validate-Continues p b = statement-Continues _

-- a terminator whose edges hold
finish-EndsIn :
    (k : BbKind) (t : Terminator) → ((G : Graph) → Edges G k t) → EndsIn k (finish_block t)
finish-EndsIn k t edges G P fb v live =
    Post-weaken (finish-Live_rule v t live (edges G)) λ r (w, ended). (G, Extends-refl G, w, ended)

pub exit-Ends : Ends exit
unfolding exit Terminators.exit
exit-Ends G P k fb = finish-EndsIn k _ (λ H. tt) G P fb

pub abort-Ends : Ends abort
unfolding abort Terminators.abort
abort-Ends G P k fb = finish-EndsIn k _ (λ H. tt) G P fb

pub unreachable-Ends : Ends unreachable
unfolding unreachable
unreachable-Ends G P k fb = finish-EndsIn k _ (λ H. tt) G P fb

-- `return_` may stand in a regular block only.
pub return_-EndsIn : EndsIn regular return_
unfolding return_
return_-EndsIn = finish-EndsIn regular _ (λ H. refl)

-- `resume_unwind` may stand in a cleanup block only.
pub resume_unwind-EndsIn : EndsIn cleanup resume_unwind
unfolding resume_unwind
resume_unwind-EndsIn = finish-EndsIn cleanup _ (λ H. refl)

module _ {G : Graph} {P : Pending} {k : BbKind} {fb : FunctionBuilder} (v : Inv G P k fb)
    (live : Live fb) where
  -- A jump to a block of the kind of the current one.
  pub goto_rule :
      (n : BbName) → G n ≡ some k → Post (λ r. Inv G P k r.1 × Ended r.1) IsOverflow (goto n fb)
  unfolding goto
  goto_rule n h = finish-Live_rule v _ live h

  -- Unwinding starts in a regular block.
  pub start_unwind_rule :
      (e : ValueExpr) (n : BbName)
      → k ≡ regular
      → UnwindsTo G k n
      → Post (λ r. Inv G P k r.1 × Ended r.1) IsOverflow (start_unwind e n fb)
  unfolding start_unwind Terminators.start_unwind
  start_unwind_rule e n r u = finish-Live_rule v _ live (r, u)

  -- Unwinding stops in a catch block, and goes on in a regular one.
  pub stop_unwind_rule :
      (n : BbName)
      → k ≡ catch
      → G n ≡ some regular
      → Post (λ r. Inv G P k r.1 × Ended r.1) IsOverflow (stop_unwind n fb)
  unfolding stop_unwind Terminators.stop_unwind
  stop_unwind_rule n c h = finish-Live_rule v _ live (c, h)

pub declare_local-Goes : (ty : Ty) → Goes (declare_local_with_ty ty)
declare_local-Goes ty G P k fb v (c, h) =
    Post-weaken (declare_local_rule v ty) λ r ((w, same), _). (G, Extends-refl G, w, (c, same ∙ h))

pub declare_arg-Goes : (ty : Ty) → Goes (declare_arg_with_ty ty)
declare_arg-Goes ty G P k fb v (c, h) =
    Post-weaken (declare_arg_rule v ty) λ r ((w, same), _). (G, Extends-refl G, w, (c, same ∙ h))

-- Blocks built on the side, by a method that ends its block in their kind. The current block is
-- as it was, and the name leads to a block of that kind.
module _ (builder : M (Unit {0})) {G : Graph} {P : Pending} {k : BbKind} {fb : FunctionBuilder}
    (v : Inv G P k fb) (live : Live fb) where
  -- On a builder with a current block whose invariant holds, `cleanup_block` with a method that
  -- ends a cleanup block keeps the invariant for a graph that has grown, in which the name that
  -- it returns is a cleanup block, and leaves the current block as it was. The only panic is the
  -- overflow of a counter.
  pub cleanup_block_rule :
      EndsIn cleanup builder
      → Post (After G P k (Aside fb cleanup)) IsOverflow (cleanup_block builder fb)
  unfolding cleanup_block
  cleanup_block_rule ends = block_of_kind_rule cleanup builder ends G P k fb v live

  -- On a builder with a current block whose invariant holds, `terminating_block` with a method
  -- that ends a terminate block keeps the invariant for a graph that has grown, in which the name
  -- that it returns is a terminate block, and leaves the current block as it was. The only panic
  -- is the overflow of a counter.
  pub terminating_block_rule :
      EndsIn terminate builder
      → Post (After G P k (Aside fb terminate)) IsOverflow (terminating_block builder fb)
  unfolding terminating_block
  terminating_block_rule ends = block_of_kind_rule terminate builder ends G P k fb v live

  -- On a builder with a current block whose invariant holds, `catch_block` with a method that
  -- ends a catch block keeps the invariant for a graph that has grown, in which the name that it
  -- returns is a catch block, and leaves the current block as it was. The only panic is the
  -- overflow of a counter.
  pub catch_block_rule :
      EndsIn catch builder → Post (After G P k (Aside fb catch)) IsOverflow (catch_block builder fb)
  unfolding catch_block
  catch_block_rule ends = block_of_kind_rule catch builder ends G P k fb v live

-- On a builder whose current block is regular and whose invariant holds, this ends the block,
-- with the invariant kept and no panic but the overflow of a counter: a cleanup block is built on
-- the side by a method that ends it, a function is called that unwinds to it, and a method that
-- ends a regular block goes on after the call.
pub call_with_cleanup-Ended :
    (ret : PlaceExpr) (f : ValueExpr) (args : List ArgumentExpr) (clean rest : M (Unit {0}))
    → EndsIn cleanup clean
    → EndsIn regular rest
    → (G : Graph) (P : Pending) (fb : FunctionBuilder) → Inv G P regular fb
    → Live fb
    → Post
        (After G P regular (λ _ _ g. Ended g))
        IsOverflow
        ((cleanup_block clean >>= λ n. call ret f args n >> rest) fb)
call_with_cleanup-Ended ret f args clean rest c r G P fb v live =
    Post-bind (cleanup_block_rule clean v live c) λ n (H, grow, v₁, (kind, same)).
      Post-bind
        (call_rule_unwind ret f args n.0 H P regular n.1 v₁ (live.0, same ∙ live.1)
          (cleanup, kind, refl))
        λ s (K, more, v₂, l₂).
          Post-weaken (r K P s.1 v₂ l₂)
            λ t (L, last, v₃, ended). (L, Extends-trans grow (Extends-trans more last), v₃, ended)
