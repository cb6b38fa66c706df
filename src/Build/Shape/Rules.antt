-- ===== src/Build/Shape/Rules.antt =====
-- tooling/miniutil/src/build: rules for the methods that go on in a next block, and for the
-- blocks that are built on the side.
use mts_minirust_work.Prelude.{
  ◌≡◌, refl, sym, ◌∙◌, subst, true, false, List, [], ◌∷◌, ◌++◌, none, some, inl, inr, eqb, eqb_iff,
  eqb_ne, arith, nat_eq, Bool-cases, some_inj,
}
use mts_minirust_work.Prelude.Maps.{get}
use mts_minirust_work.Prelude.Outcome.{ok, Post, returns, Post-bind, Post-weaken}
use mts_minirust_work.Lang.Syntax.{BbName, BbKind, Terminator, Statement}
use mts_minirust_work.Build.State.{
  M, FunctionBuilder, CurBlock, set_cur_block, cur_kind, push_statement, block_of_kind,
  ensure_finished,
}
use mts_minirust_work.Build.Methods.{finish_block, finish_with_next_block}
use mts_minirust_work.Build.Shape.{
  Graph, Pending, put, mark, unmark, Edges, Inv, Extends, Live, Ended, IsOverflow,
}
use mts_minirust_work.Build.Shape.Moves.{
  put-Extends, pending_fresh, unmark-mark, suspend-Inv, resume-Inv, declare_block_rule,
  finish_block_rule, set_cur_block_rule,
}

-- The builder after a call: the graph has grown, the invariant holds, and so does `Q`.
abbrev pub After :
    {A : Type 0}
    → Graph
    → Pending
    → BbKind
    → (A → Graph → FunctionBuilder → Type 0)
    → A × FunctionBuilder
    → Type 0
After G P k Q r = (G' : Graph) × Extends G G' × Inv G' P k r.1 × Q r.0 G' r.1

-- A builder with a current block runs the method to its end, but for the overflow of a counter.
abbrev pub Does : {A : Type 0} → M A → (A → Graph → FunctionBuilder → Type 0) → Type 0
Does m Q =
    (G : Graph) (P : Pending) (k : BbKind) (fb : FunctionBuilder)
    → Inv G P k fb
    → Live fb
    → Post (After G P k Q) IsOverflow (m fb)

-- A method that leaves a current block, ends it, or does either.
abbrev pub Continues : M (Unit {0}) → Type 0
Continues m = Does m (λ _ _ fb. Live fb)

abbrev pub Ends : M (Unit {0}) → Type 0
Ends m = Does m (λ _ _ fb. Ended fb)

abbrev pub IsBranch : M (Unit {0}) → Type 0
IsBranch m = Does m (λ _ _ _. Unit)

-- A method that runs in a block of kind `k`, and one that ends it.
abbrev pub DoesIn : {A : Type 0} → BbKind → M A → (A → Graph → FunctionBuilder → Type 0) → Type 0
DoesIn k m Q =
    (G : Graph) (P : Pending) (fb : FunctionBuilder)
    → Inv G P k fb
    → Live fb
    → Post (After G P k Q) IsOverflow (m fb)

abbrev pub EndsIn : BbKind → M (Unit {0}) → Type 0
EndsIn k m = DoesIn k m (λ _ _ fb. Ended fb)

-- A branch of kind `k` that may count on the blocks of a graph.
abbrev pub IsBranchIn : Graph → BbKind → M (Unit {0}) → Type 0
IsBranchIn G k m =
    (H : Graph) (P : Pending) (fb : FunctionBuilder)
    → Extends G H
    → Inv H P k fb
    → Live fb
    → Post (After H P k (λ _ _ _. Unit)) IsOverflow (m fb)

pub IsBranch-in : (G : Graph) (k : BbKind) {m : M (Unit {0})} → IsBranch m → IsBranchIn G k m
IsBranch-in G k run H P fb e v live = run H P k fb v live

pub Extends-refl : (G : Graph) → Extends G G
Extends-refl G n j h = h

pub Extends-trans : {G H K : Graph} → Extends G H → Extends H K → Extends G K
Extends-trans e f n j h = f n j (e n j h)

pub put_self : (G : Graph) (n : BbName) (j : BbKind) → put G n j n ≡ some j
put_self G n j = ground (arith, eqb_iff n n)

pub mark_self : (P : Pending) (n : BbName) → mark P n n ≡ true
mark_self P n = ground (arith, eqb_iff n n)

-- the kind that a pending block is resumed with gives the pending set back
pub resume_same :
    {G : Graph} {P : Pending} {k : BbKind} {fb : FunctionBuilder} (n : BbName)
    → P n ≡ false
    → Inv G (unmark (mark P n) n) k fb
    → Inv G P k fb
resume_same {G} {P} {k} {fb} n h v = subst (λ Q. Inv G Q k fb) (unmark-mark P n h) v

cur_kind_eq :
    (c : CurBlock) (fb : FunctionBuilder) → fb.cur_block ≡ some c → cur_kind fb ≡ ok (c.kind, fb)
unfolding cur_kind
cur_kind_eq c fb h = ground arith

push_statement_eq :
    (st : Statement) (c : CurBlock) (fb : FunctionBuilder)
    → fb.cur_block ≡ some c
    → push_statement st fb
      ≡ ok (tt, record fb { cur_block = some (record c { statements = c.statements ++ st ∷ [] }) })
unfolding push_statement
push_statement_eq st c fb h = ground arith

-- The statements of the current block do not matter.
same_block-Inv :
    {G : Graph} {P : Pending} {k : BbKind} {fb : FunctionBuilder} (c : CurBlock)
    (l : List Statement)
    → Inv G P k fb
    → fb.cur_block ≡ some c
    → Inv G P k (record fb { cur_block = some (record c { statements = l }) })
same_block-Inv {G} {P} {k} {fb} c l v h = record {
  undeclared = v.undeclared;
  known = v.known;
  covered = λ n j g b d. v.covered n j g b (rw h d);
  pending = λ n p. rw h at (v.pending n p);
  promised = v.promised;
  current = λ d e.
      subst
        (λ (x : CurBlock). (G x.name ≡ some x.kind) × (x.kind ≡ k) × (get x.name fb.blocks ≡ none))
        (some_inj e) (v.current c h);
  entry = v.entry;
  locals_ok = v.locals_ok;
}

module _ {G : Graph} {P : Pending} {k : BbKind} {fb : FunctionBuilder} (v : Inv G P k fb) where
  pub cur_kind_rule :
      Live fb → Post (λ r. (r.0 ≡ k) × Inv G P k r.1 × Live r.1) IsOverflow (cur_kind fb)
  cur_kind_rule (c, h) = rw (cur_kind_eq c fb h) (returns ((v.current c h).1, v, (c, h)))

  pub push_statement_rule :
      (st : Statement)
      → Live fb
      → Post (λ r. Inv G P k r.1 × Live r.1) IsOverflow (push_statement st fb)
  push_statement_rule st (c, h) =
      rw (push_statement_eq st c fb h) (returns (same_block-Inv c _ v h, (_, refl)))

  -- A live builder finishes its block with edges that hold in the graph.
  pub finish-Live_rule :
      (t : Terminator)
      → Live fb
      → Edges G k t
      → Post (λ r. Inv G P k r.1 × Ended r.1) IsOverflow (finish_block t fb)
  finish-Live_rule t (c, h) e =
      finish_block_rule v c t h (subst (λ j. Edges G j t) (sym (v.current c h).1) e) k

-- A fresh block is begun where its name is pending, once the current block is finished.
pub begin_rule :
    (G : Graph) {P : Pending} {k : BbKind} {fb : FunctionBuilder} (n : BbName) (j : BbKind)
    → P n ≡ false
    → Inv (put G n j) (mark P n) k fb
    → Ended fb
    → Post (λ r. Inv (put G n j) P j r.1 × Live r.1) IsOverflow (set_cur_block n j fb)
begin_rule G {P} n j p v e =
    Post-weaken (set_cur_block_rule v n j e (mark_self P n) (put_self G n j))
      λ r (w, live). (resume_same n p w, live)

-- A fresh block of the kind of the current one takes its place.
pub finish_with_next_block-Continues :
    (t : BbName → Terminator)
    → ((H : Graph) (k : BbKind) (n : BbName) → H n ≡ some k → Edges H k (t n))
    → Continues (finish_with_next_block t)
unfolding finish_with_next_block
finish_with_next_block-Continues t edges G P k fb v live =
    Post-bind (cur_kind_rule v live) λ r (q, v₁, l₁).
      Post-bind (declare_block_rule v₁ k) λ n (v₂, none_yet, same).
        Post-bind
          (finish-Live_rule v₂ (t n.0) (l₁.0, same ∙ l₁.1) (edges _ k n.0 (put_self G n.0 k)))
          λ s (v₃, ended).
            subst (λ j. Post (After G P k (λ _ _ f. Live f)) IsOverflow (set_cur_block n.0 j s.1))
              (sym q)
              (Post-weaken (begin_rule G n.0 k (pending_fresh n.0 v₁ none_yet) v₃ ended)
                λ u (v₄, l₄). (_, put-Extends G n.0 k none_yet, v₄, l₄))

-- The current block is not pending.
current_not_pending :
    {G : Graph} {P : Pending} {k : BbKind} {fb : FunctionBuilder} (c : CurBlock)
    → Inv G P k fb
    → fb.cur_block ≡ some c
    → P c.name ≡ false
current_not_pending {P = P} c v h = elim (Bool-cases (P c.name)) [
  | inl p ↦
      let apart : eqb c.name c.name ≡ false = rw h at ((v.pending c.name p).1) in
      absurd (omega (arith, eqb_ne c.name c.name apart))
  | inr p ↦ p
]

-- A block that was set aside is current again.
resumed :
    {G : Graph} {P : Pending} {j k : BbKind} (fb gb : FunctionBuilder) (c : CurBlock)
    → Inv G (mark P c.name) j gb
    → Ended gb
    → P c.name ≡ false
    → G c.name ≡ some c.kind
    → c.kind ≡ k
    → fb.cur_block ≡ some c
    → Inv G P k (record gb { cur_block = fb.cur_block })
resumed {G} {P} {j} {k} fb gb c v ended apart known same h =
    subst (λ o. Inv G P k (record gb { cur_block = o })) (sym h)
      (subst (λ i. Inv G P i (record gb { cur_block = some c })) same
        (resume_same c.name apart (resume-Inv v c ended (mark_self P c.name) known)))

ensure_finished_eq : (fb : FunctionBuilder) → Ended fb → ensure_finished fb ≡ ok (tt, fb)
ensure_finished_eq fb h = ground arith

-- what building a block on the side gives: its name and kind, and the current block as it was
abbrev pub Aside : FunctionBuilder → BbKind → BbName → Graph → FunctionBuilder → Type 0
Aside fb j n G f = (G n ≡ some j) × (f.cur_block ≡ fb.cur_block)

-- A block that is built on the side, by a method that ends it, leaves the current block as it was.
pub block_of_kind_rule :
    (j : BbKind) (builder : M (Unit {0}))
    → EndsIn j builder
    → (G : Graph) (P : Pending) (k : BbKind) (fb : FunctionBuilder) → Inv G P k fb
    → Live fb
    → Post (After G P k (Aside fb j)) IsOverflow (block_of_kind j builder fb)
unfolding block_of_kind
block_of_kind_rule j builder ends G P k fb v (c, h) =
    let (kind_known, kind_same, unfinished) = v.current c h in
    let w = suspend-Inv v c h j in
    Post-bind (declare_block_rule w j) λ n (v₁, none_yet, same).
      Post-bind (begin_rule G n.0 j (pending_fresh n.0 w none_yet) v₁ same) λ s (v₂, live).
        Post-bind (ends _ _ s.1 v₂ live) λ t (G', grow, v₃, ended).
          rw (ensure_finished_eq t.1 ended) (
            returns (
              G',
              Extends-trans (put-Extends G n.0 j none_yet) grow,
              resumed fb t.1 c v₃ ended (current_not_pending c v h)
                  (grow c.name c.kind (put-Extends G n.0 j none_yet c.name c.kind kind_known))
                  kind_same h,
              (grow n.0 j (put_self G n.0 j), refl),
            ))
