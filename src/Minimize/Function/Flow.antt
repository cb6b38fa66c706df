-- ===== src/Minimize/Function/Flow.antt =====
-- tooling/minimize/src/function.rs: the function that a body of the MIR is translated to, against
-- the rules on block kinds of spec/lang/well-formed.md.
use mts_minirust_work.Prelude.{
  ℕ, zero, suc, ◌+◌, ◌^◌, ◌≡◌, refl, subst, sym, ◌∙◌, true, List, [], ◌∷◌, none, some, some_inj,
  Bool-cases, Option-cases, inl, inr, arith, ltb, eqb_iff, nat_eq, ◌==◌,
}
use mts_minirust_work.Prelude.Maps.{get}
use mts_minirust_work.Prelude.Outcome.{ok, panics, returns, Post, Post-bind, Post-weaken, AnyPanic}
use mts_minirust_work.Lang.Types.{Ty}
use mts_minirust_work.Lang.Syntax.{LocalName, BbName, BbKind, BasicBlock, Function, regular}
use mts_minirust_work.Lang.WellFormed.{check_transitions}
use mts_minirust_work.Build.State.{next}
use mts_minirust_work.Build.Shape.{Graph, Pending, put, mark, Extends}
use mts_minirust_work.Build.Shape.Moves.{put-Extends}
use mts_minirust_work.Build.Shape.Finish.{Stored, Edges-ok, NonePending}
use mts_minirust_work.Minimize.Mir.{MirBlock, LocalDecl, Body, Session}
use mts_minirust_work.Minimize.Context.{FnCtxt, return, ◌>>=◌, fresh_bb_name}
use mts_minirust_work.Minimize.Context.Flow.{
  Inv, Flow, flow_bind, flow_reading, flow_return, flow_fresh, flow_insert_pending,
  flow_insert_local, flow_fresh_local, flow_fresh_local_name, flow_bb_name, Inv-fresh, Inv-locals,
  Inv-weaken,
}
use mts_minirust_work.Minimize.Unwind.{block_kind}
use mts_minirust_work.Minimize.Body.{translate_bb}
use mts_minirust_work.Minimize.Body.Flow.{TerminatorOk, flow_bb}
use mts_minirust_work.Minimize.Function.{
  new_context, name_blocks, name_locals, declare_locals, spread_fields, translate_params, is_spread,
  live_statements, translate_bbs, translate_named, translate_body, translate,
}

-- The kinds fit the blocks from the `id`-th on, and the terminators follow the rules.
abbrev pub BlocksOk : (ℕ → BbKind) → Session → ℕ → List MirBlock → Type 0
BlocksOk kinds session id [] = Unit
BlocksOk kinds session id (bb ∷ bbs) =
    (kinds id ≡ block_kind bb.is_cleanup)
    × TerminatorOk kinds session bb.is_cleanup bb.terminator
    × BlocksOk kinds session (suc id) bbs

-- the names of the blocks from the `id`-th on
abbrev waiting : ℕ → List MirBlock → Pending
waiting id [] = NonePending
waiting id (_ ∷ bbs) = mark (waiting (suc id) bbs) id

-- what holds once every block has its name
abbrev Named : (ℕ → BbKind) → Graph → Pending → Unit {0} × FnCtxt → Type 0
Named kinds G R r = (H : Graph) × Extends G H × Inv kinds H R r.1

-- A new block is named by its index.
Inv-named :
    {kinds : ℕ → BbKind} {G : Graph} {P : Pending} {fc : FnCtxt} (id n : ℕ)
    → n ≡ id
    → G n ≡ some (kinds id)
    → Inv kinds G P fc
    → Inv kinds G P (record fc { bb_name_map = (id, n) ∷ fc.bb_name_map })
unfolding get
Inv-named {kinds} {G} {fc = fc} id n same h v = record {
  undeclared = v.undeclared;
  known = v.known;
  covered = v.covered;
  named = λ t m q. elim (Bool-cases (id == t)) [
    | inl here ↦
        let found : some n ≡ some m = ground (arith, q) in
        let at_t = (eqb_iff id t).0 here in
        (
          sym (some_inj found) ∙ same ∙ at_t,
          subst (λ x. G x ≡ some (kinds t)) (some_inj found)
              (subst (λ x. G n ≡ some (kinds x)) at_t h),
        )
    | inr other ↦ v.named t m (ground (arith, q))
  ];
}

name_blocks_rule :
    {kinds : ℕ → BbKind} (R : Pending) (id : ℕ) (bbs : List MirBlock) (G : Graph) (P : Pending)
    (fc : FnCtxt)
    → fc.next_bb ≡ id
    → Inv kinds G P fc
    → ((n : BbName) → P n ≡ true → R n ≡ true)
    → ((n : BbName) → waiting id bbs n ≡ true → R n ≡ true)
    → Post (Named kinds G R) AnyPanic (name_blocks id bbs fc)
unfolding name_blocks return ◌>>=◌ fresh_bb_name next
name_blocks_rule R id [] G P fc same v old new = returns (G, (λ n j g. g), Inv-weaken v old)
name_blocks_rule {kinds} R id (bb ∷ bbs) G P fc same v old new =
    elim (Bool-cases (ltb (fc.next_bb + 1) (2 ^ 32))) [
      | inl fits ↦
          let k = kinds id in
          let grow = put-Extends G fc.next_bb k (v.undeclared fc.next_bb (omega arith)) in
          let named =
            Inv-named id fc.next_bb same (ground (arith, eqb_iff fc.next_bb fc.next_bb))
              (Inv-fresh k v) in
          rw (fits, name_blocks, fresh_bb_name, next)
            (Post-weaken
              (name_blocks_rule R (suc id) bbs (put G fc.next_bb k) (mark P fc.next_bb) _
                (omega arith) named
                (λ n h. ground (arith, old n, new n, eqb_iff fc.next_bb n, eqb_iff id n))
                (λ n h. ground (arith, new n)))
              λ r (H, e, w). (H, (λ n j g. e n j (grow n j g)), w))
      | inr full ↦ rw (full, name_blocks, fresh_bb_name, next) (panics tt)
    ]

flow_name_local :
    {kinds : ℕ → BbKind} {G : Graph} {P : Pending} (id : ℕ) (name : LocalName)
    → Flow kinds G P
        (λ fc. ok (tt, record fc { local_name_map = (id, name) ∷ fc.local_name_map }))
        (λ _. P)
        (λ _ _. Unit)
flow_name_local {G = G} id name = record {
  run = λ fc v. returns (G, (λ n j g. g), Inv-locals _ fc.next_local fc.locals v, tt);
}

module _ {kinds : ℕ → BbKind} where
  flow_name_locals :
      {G : Graph} {P : Pending} (id : ℕ) (decls : List LocalDecl)
      → Flow kinds G P (name_locals id decls) (λ _. P) (λ _ _. Unit)
  unfolding name_locals
  flow_name_locals {P = P} id [] = flow_return (λ _. P) _ tt
  flow_name_locals id (_ ∷ decls) =
      flow_bind flow_fresh_local_name λ name H e _.
        flow_bind (flow_name_local id name) λ _ K e2 _. flow_name_locals (suc id) decls

  flow_declare_locals :
      {G : Graph} {P : Pending} (id : ℕ) (decls : List LocalDecl)
      → Flow kinds G P (declare_locals id decls) (λ _. P) (λ _ _. Unit)
  unfolding declare_locals
  flow_declare_locals {P = P} id [] = flow_return (λ _. P) _ tt
  flow_declare_locals id (decl ∷ decls) = flow_bind (flow_reading _) λ name H e _.
      flow_bind (flow_insert_local name decl.ty) λ _ K e2 _. flow_declare_locals (suc id) decls

  flow_spread :
      {G : Graph} {P : Pending} (spread : LocalName) (i : ℕ) (tys : List Ty)
      → Flow kinds G P (spread_fields spread i tys) (λ _. P) (λ _ _. Unit)
  unfolding spread_fields
  flow_spread {P = P} spread i [] = flow_return (λ _. P) _ tt
  flow_spread {P = P} spread i (ty ∷ tys) = flow_bind (flow_fresh_local ty) λ temp H e _.
      flow_bind (flow_spread spread (suc i) tys) λ rest K e2 _. flow_return (λ _. P) _ tt

  flow_params :
      {G : Graph} {P : Pending} (body : Body) (i n : ℕ)
      → Flow kinds G P (translate_params body i n) (λ _. P) (λ _ _. Unit)
  unfolding translate_params
  flow_params {P = P} body i zero = flow_return (λ _. P) _ tt
  flow_params {P = P} body i (suc n) = elim (Bool-cases (is_spread body.spread_arg i)) [
    | inl spreads ↦ rw spreads (
        flow_bind (flow_reading _) λ spread G1 e1 _. flow_bind (flow_reading _) λ tys G2 e2 _.
          flow_bind (flow_spread spread 0 tys) λ fields G3 e3 _.
            flow_bind (flow_params body (suc i) n) λ rest G4 e4 _. flow_return (λ _. P) _ tt)
    | inr passes ↦
        rw passes (flow_bind (flow_params body (suc i) n) λ rest G1 e1 _. flow_return (λ _. P) _ tt)
  ]

  flow_live :
      {G : Graph} {P : Pending} (free_argc : ℕ) (ls : List ℕ)
      → Flow kinds G P (live_statements free_argc ls) (λ _. P) (λ _ _. Unit)
  unfolding live_statements
  flow_live {P = P} free_argc [] = flow_return (λ _. P) _ tt
  flow_live {P = P} free_argc (l ∷ ls) =
      flow_bind (flow_reading _)
        λ name H e _. flow_bind (flow_live free_argc ls) λ rest K e2 _. flow_return (λ _. P) _ tt

  -- Every block of the MIR that waits is finished.
  flow_bbs :
      {G : Graph} (session : Session) (id : ℕ) (bbs : List MirBlock)
      → BlocksOk kinds session id bbs
      → Flow kinds G
          (waiting id bbs)
          (translate_bbs session id bbs)
          (λ _. NonePending)
          (λ _ _. Unit)
  unfolding translate_bbs
  flow_bbs session id [] h = flow_return (λ _. NonePending) _ tt
  flow_bbs session id (bb ∷ bbs) (k, fine, h) = flow_bind (flow_bb_name id) λ n H e (same, q).
      flow_bind
        (subst
          (λ m.
            Flow kinds H (mark (waiting (suc id) bbs) m) (translate_bb session n bb)
              (λ _. waiting (suc id) bbs) (λ _ _. Unit))
          same (flow_bb session n bb fine (subst (λ j. H n ≡ some j) k q)))
        λ _ K e2 _. flow_bbs session (suc id) bbs h

-- The blocks of the function follow the rules on transitions, and it starts in a regular block.
abbrev pub TransitionsOk : Function → Type 0
TransitionsOk f =
    ((n : BbName) (b : BasicBlock)
      → get n f.blocks ≡ some b
      → check_transitions f.blocks b.kind b.terminator ≡ true)
    × Stored f.blocks f.start regular

-- Without pending blocks, what the graph has is stored.
all-Stored :
    {kinds : ℕ → BbKind} {G : Graph} {fc : FnCtxt}
    → Inv kinds G NonePending fc
    → (n : BbName) (j : BbKind) → G n ≡ some j
    → Stored fc.blocks n j
all-Stored {fc = fc} v n j h = elim (Option-cases (get n fc.blocks)) [
  | inl q ↦ absurd (cc (v.covered n j h q))
  | inr (b, q) ↦ (b, q, some_inj (sym (v.known n b q).0 ∙ h))
]

-- nothing yet
abbrev nowhere : Graph
nowhere n = none

Inv-new : {kinds : ℕ → BbKind} → Inv kinds nowhere NonePending new_context
unfolding get
Inv-new = record {
  undeclared = λ n h. refl;
  known = λ n b h. absurd cc;
  covered = λ n j h g. absurd cc;
  named = λ t n h. absurd cc;
}

flow_init :
    {kinds : ℕ → BbKind} {G : Graph} (session : Session) (body : Body)
    → kinds 0 ≡ regular
    → BlocksOk kinds session 0 body.basic_blocks
    → Flow kinds G
        (waiting 0 body.basic_blocks)
        (translate_named session body)
        (λ _. NonePending)
        (λ r H. H r.1 ≡ some regular)
unfolding translate_named
flow_init session body start h = flow_bind (flow_name_locals 0 body.local_decls) λ _ G1 e1 _.
    flow_bind (flow_declare_locals 0 body.local_decls) λ _ G2 e2 _.
      flow_bind (flow_params body 1 body.arg_count) λ params G3 e3 _.
        flow_bind (flow_fresh regular) λ init G4 e4 q.
          flow_bind (flow_live (body.arg_count + 1) body.always_live) λ live G5 e5 _.
            flow_bind (flow_bb_name 0) λ first G6 e6 (same, w).
              flow_bind
                (flow_insert_pending init _ (e6 _ _ (e5 _ _ q))
                  (subst (λ k. G6 first ≡ some k) start w))
                λ _ G7 e7 _. flow_bind (flow_bbs session 0 body.basic_blocks h) λ _ G8 e8 _.
                  flow_return (λ _. NonePending) _ (e8 _ _ (e7 _ _ (e6 _ _ (e5 _ _ q))))

-- what holds at the end
abbrev Done : (ℕ → BbKind) → (List LocalName × BbName) × FnCtxt → Type 0
Done kinds r = (H : Graph) × Inv kinds H NonePending r.1 × (H r.0.1 ≡ some regular)

translate_body_rule :
    (kinds : ℕ → BbKind) (session : Session) (body : Body)
    → kinds 0 ≡ regular
    → BlocksOk kinds session 0 body.basic_blocks
    → Post (Done kinds) AnyPanic (translate_body session body new_context)
unfolding ◌>>=◌
translate_body_rule kinds session body start h =
    Post-bind {Q = Done kinds}
      (name_blocks_rule (waiting 0 body.basic_blocks) 0 body.basic_blocks nowhere NonePending
        new_context refl Inv-new (λ n p. absurd cc) (λ n p. p))
      λ r (H, _, v).
        Post-weaken ((flow_init session body start h).run r.1 v) λ t (K, _, w, q). (K, w, q)

-- For kinds of the blocks of a body such that each block cleans up or not as its kind says, the
-- first one is regular, and every terminator follows rustc's rules on blocks that clean up (edges
-- lead to blocks of the same kind, unwinding leads from regular blocks to ones that clean up,
-- regular blocks return and others resume) and, with panics that unwind, no block that cleans up
-- asserts or panics, and none catches: what the body is translated to, unless the translation
-- panics, is a function whose transitions all follow the rules of well-formedness and that starts
-- in a regular block.
pub translate-TransitionsOk :
    (kinds : ℕ → BbKind) (session : Session) (body : Body)
    → kinds 0 ≡ regular
    → BlocksOk kinds session 0 body.basic_blocks
    → Post TransitionsOk AnyPanic (translate session body)
unfolding translate
translate-TransitionsOk kinds session body start h =
    Post-bind (translate_body_rule kinds session body start h) λ r (H, w, q).
      let stored = all-Stored w in
      returns (
        (λ n b g. Edges-ok H _ stored b.kind b.terminator (w.known n b g).1),
        stored r.0.1 regular q,
      )
