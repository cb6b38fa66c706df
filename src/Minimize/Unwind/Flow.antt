-- ===== src/Minimize/Unwind/Flow.antt =====
-- tooling/minimize/src/bb.rs: the blocks that unwinding adds, against the rules on block kinds.
use mts_minirust_work.Prelude.{
  ℕ, ◌≡◌, refl, Bool, true, false, subst, List, some, arith, eqb_iff, if◌then◌else◌, nat_eq,
}
use mts_minirust_work.Lang.Syntax.{
  BbName, BbKind, Terminator, PlaceExpr, ValueExpr, regular, cleanup, catch, terminate,
}
use mts_minirust_work.Build.Expr.{const_int}
use mts_minirust_work.Build.Terminators
use mts_minirust_work.Build.Shape.{Graph, Pending, mark, unmark, Extends, Edges, UnwindsTo}
use mts_minirust_work.Build.Shape.Moves.{Edges-Extends}
use mts_minirust_work.Minimize.Mir.{UnwindAction, PanicStrategy}
use mts_minirust_work.Minimize.Context.Flow.{
  Flow, flow_bind, flow_reading, flow_fresh, flow_insert, flow_insert_pending, flow_return,
  flow_done, flow_guard, flow_bb_name, flow_weaken, flow_fresh_local,
}
use mts_minirust_work.Minimize.Unwind.{
  add_block, block_kind, unwind_kind, translate_unwind_action, translate_panic, catch_locals,
  try_block, catch_block, translate_catch_unwind,
}

-- An unwinding goes from a regular block to one that cleans up.
abbrev pub ActionOk : (ℕ → BbKind) → Bool → UnwindAction → Type 0
ActionOk kinds c (UnwindAction.cleanup t) = (c ≡ false) × (kinds t ≡ cleanup)
ActionOk kinds c _ = Unit

-- With the strategy to unwind, no block that cleans up panics.
abbrev pub MayPanic : PanicStrategy → Bool → Type 0
MayPanic PanicStrategy.unwind c = c ≡ false
MayPanic PanicStrategy.abort c = Unit

module _ {kinds : ℕ → BbKind} {G : Graph} {P : Pending} where
  pub flow_add_block :
      (t : Terminator) (k : BbKind)
      → Edges G k t
      → Flow kinds G P (add_block t k) (λ _. P) (λ n H. H n ≡ some k)
  unfolding add_block
  flow_add_block t k edges = flow_bind (flow_fresh k) λ n H e q.
      flow_bind (flow_insert_pending n _ q (Edges-Extends k t e edges))
        λ u K e2 _. flow_return (λ _. P) n (e2 n k q)

unwinds :
    (G : Graph) (c : Bool) (n : BbName) → G n ≡ some (unwind_kind c) → UnwindsTo G (block_kind c) n
unwinds G true n h = (terminate, h, refl)
unwinds G false n h = (cleanup, h, refl)

continues :
    (G : Graph) (c : Bool) (n : BbName)
    → (if c then false else true) ≡ true
    → G n ≡ some cleanup
    → UnwindsTo G (block_kind c) n
continues G true n h q = absurd cc
continues G false n h q = (cleanup, q, refl)

cleans_up :
    (G : Graph) (c : Bool) (k : BbKind) (n : BbName)
    → c ≡ false
    → k ≡ cleanup
    → G n ≡ some k
    → UnwindsTo G (block_kind c) n
cleans_up G c k n h g q = (cleanup, subst (λ x. G n ≡ some x) g q, rw h)

module _ {kinds : ℕ → BbKind} {G : Graph} {P : Pending} where
  flow_unwind_block :
      (t : Terminator) (c : Bool)
      → Edges G (unwind_kind c) t
      → Flow kinds G P (add_block t (unwind_kind c)) (λ _. P) (λ n H. UnwindsTo H (block_kind c) n)
  flow_unwind_block t c edges =
      flow_weaken (flow_add_block t _ edges) (λ n m p. p) (λ n H q. unwinds H c n q)

-- The block that an unwind action leads to has a kind that the rules allow.
pub flow_unwind_action :
    {kinds : ℕ → BbKind} {G : Graph} {P : Pending} (action : UnwindAction) (c : Bool)
    → ActionOk kinds c action
    → Flow kinds G P
        (translate_unwind_action action c)
        (λ _. P)
        (λ n H. UnwindsTo H (block_kind c) n)
unfolding translate_unwind_action Terminators.abort
flow_unwind_action UnwindAction.continue c h = flow_bind (flow_guard _ _) λ u H e regular_block.
    flow_weaken (flow_add_block Terminator.resume_unwind cleanup refl) (λ n m p. p)
      λ n K q. continues K c n regular_block q
flow_unwind_action UnwindAction.unreachable c h = flow_unwind_block Terminator.unreachable c tt
flow_unwind_action UnwindAction.terminate c h = flow_unwind_block _ c tt
flow_unwind_action (UnwindAction.cleanup t) c (h, g) =
    flow_weaken (flow_bb_name t) (λ n m p. p) λ n H (_, q). cleans_up H c _ n h g q

pub flow_panic :
    {kinds : ℕ → BbKind} {G : Graph} {P : Pending} (strategy : PanicStrategy)
    (action : UnwindAction) (c : Bool)
    → MayPanic strategy c
    → ActionOk kinds c action
    → Flow kinds G P (translate_panic strategy action c) (λ _. P) (λ t H. Edges H (block_kind c) t)
unfolding translate_panic Terminators.abort
flow_panic {P = P} PanicStrategy.unwind action c may h =
    flow_bind (flow_unwind_action action c h) λ n H e q. flow_return (λ _. P) _ (rw may, q)
flow_panic {P = P} PanicStrategy.abort action c may h = flow_return (λ _. P) _ tt

flow_catch_locals :
    {kinds : ℕ → BbKind} {G : Graph} {P : Pending}
    → Flow kinds G P catch_locals (λ _. P) (λ _ _. Unit)
unfolding catch_locals
flow_catch_locals {P = P} = flow_bind (flow_fresh_local _) λ a G1 e1 _.
    flow_bind (flow_fresh_local _) λ b G2 e2 _. flow_bind (flow_fresh_local _) λ c G3 e3 _.
      flow_bind (flow_fresh_local _)
        λ d G4 e4 _. flow_bind (flow_fresh_local _) λ f G5 e5 _. flow_return (λ _. P) _ tt

abbrev pub nested : Pending → BbName → BbName → BbName → BbName → BbName → Pending
nested P a b c d e = mark (mark (mark (mark (mark P a) b) c) d) e

finished :
    (P : Pending) (a b c d e n : BbName)
    → unmark (unmark (unmark (unmark (unmark (nested P a b c d e) a) b) c) d) e n ≡ true
    → P n ≡ true
finished P a b c d e n h =
    ground (arith, eqb_iff a n, eqb_iff b n, eqb_iff c n, eqb_iff d n, eqb_iff e n)

-- what the graph says of the blocks that catch an unwinding
record CatchBlocks (G : Graph) (try_bb return_bb payload_bb catch_bb stop_bb target : BbName)
    : Type 0 where
  try_regular : G try_bb ≡ some regular
  return_regular : G return_bb ≡ some regular
  payload_catch : G payload_bb ≡ some catch
  catch_catch : G catch_bb ≡ some catch
  stop_catch : G stop_bb ≡ some catch
  target_regular : G target ≡ some regular

CatchBlocks-Extends :
    {G H : Graph} {t r p c s d : BbName}
    → Extends G H
    → CatchBlocks G t r p c s d
    → CatchBlocks H t r p c s d
CatchBlocks-Extends e v = record {
  try_regular = e _ _ v.try_regular;
  return_regular = e _ _ v.return_regular;
  payload_catch = e _ _ v.payload_catch;
  catch_catch = e _ _ v.catch_catch;
  stop_catch = e _ _ v.stop_catch;
  target_regular = e _ _ v.target_regular;
}

-- Catching an unwinding adds blocks that the rules allow, and goes to a regular one.
pub flow_catch_unwind :
    {kinds : ℕ → BbKind} {G : Graph} {P : Pending} (args : List ValueExpr) (d : PlaceExpr)
    (target : BbName)
    → G target ≡ some regular
    → Flow kinds G P (translate_catch_unwind args d target) (λ _. P) (λ t H. Edges H regular t)
unfolding translate_catch_unwind try_block catch_block const_int
flow_catch_unwind {P = P} args d target g = flow_bind (flow_reading _) λ a3 G0 e0 _.
    flow_bind (flow_fresh regular) λ try_bb G1 e1 t1.
      flow_bind (flow_fresh regular) λ return_bb G2 e2 r2.
        flow_bind (flow_fresh catch) λ payload_bb G3 e3 p3.
          flow_bind (flow_fresh catch) λ catch_bb G4 e4 c4.
            flow_bind (flow_fresh catch) λ stop_bb G5 e5 s5.
              let v5 : CatchBlocks G5 try_bb return_bb payload_bb catch_bb stop_bb target = record {
                try_regular = e5 _ _ (e4 _ _ (e3 _ _ (e2 _ _ t1)));
                return_regular = e5 _ _ (e4 _ _ (e3 _ _ r2));
                payload_catch = e5 _ _ (e4 _ _ p3);
                catch_catch = e5 _ _ c4;
                stop_catch = s5;
                target_regular = e5 _ _ (e4 _ _ (e3 _ _ (e2 _ _ (e1 _ _ (e0 _ _ g)))));
              } in
              flow_bind flow_catch_locals λ ls G6 e6 _.
                let v6 = CatchBlocks-Extends e6 v5 in
                flow_bind
                  (flow_insert try_bb _ v6.try_regular
                    (v6.return_regular, (catch, v6.payload_catch, refl)))
                  λ u G7 e7 _.
                    let v7 = CatchBlocks-Extends e7 v6 in
                    flow_bind (flow_reading _) λ i0 G8 e8 _.
                      let v8 = CatchBlocks-Extends e8 v7 in
                      flow_bind (flow_insert return_bb _ v8.return_regular v8.target_regular)
                        λ u2 G9 e9 _.
                          let v9 = CatchBlocks-Extends e9 v8 in
                          flow_bind (flow_insert payload_bb _ v9.payload_catch v9.catch_catch)
                            λ u3 H e10 _.
                              let v10 = CatchBlocks-Extends e10 v9 in
                              flow_bind (flow_reading _) λ i1 I e11 _.
                                let v11 = CatchBlocks-Extends e11 v10 in
                                flow_bind
                                  (flow_insert catch_bb _ v11.catch_catch (v11.stop_catch, tt))
                                  λ u4 J e12 _.
                                    let v12 = CatchBlocks-Extends e12 v11 in
                                    flow_bind
                                      (flow_insert stop_bb _ v12.stop_catch
                                        (refl, v12.target_regular))
                                      λ u5 K e13 _. flow_done _ (e13 _ _ v12.try_regular) λ n h.
                                        finished P try_bb return_bb payload_bb catch_bb stop_bb n h
