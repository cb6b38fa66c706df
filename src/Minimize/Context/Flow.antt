-- ===== src/Minimize/Context/Flow.antt =====
-- tooling/minimize/src/bb.rs and function.rs: what holds of the data of the translated function
-- between two steps. A graph gives each named block the kind that it is meant to have; a pending
-- block has a name, and is not there yet. `kinds` says which of the MIR's blocks clean up.
use mts_minirust_work.Prelude.{
  ℕ, ◌+◌, ◌^◌, ◌≤◌, ◌≡◌, refl, Bool, true, false, none, some, some_inj, arith, eqb, eqb_iff, nat_eq,
  Bool-cases, Option-cases, inl, inr, ltb, subst,
}
use mts_minirust_work.Prelude.Maps.{Map, get, insert, get-insert}
use mts_minirust_work.Prelude.Outcome.{
  Outcome, panic, Panic, guard, Post, returns, panics, AnyPanic, Post-bind, Post-weaken, anything,
}
use mts_minirust_work.Lang.Types.{Ty}
use mts_minirust_work.Lang.Syntax.{LocalName, BbName, BbKind, BasicBlock}
use mts_minirust_work.Build.State.{next}
use mts_minirust_work.Build.Shape.{Graph, Pending, put, mark, unmark, Extends, Edges}
use mts_minirust_work.Build.Shape.Moves.{put-Extends, Edges-Extends}
use mts_minirust_work.Minimize.Place.{Names, lookup}
use mts_minirust_work.Minimize.Context.{
  FnCtxt, T, return, reading, ◌>>=◌, fresh_bb_name, fresh_local_name, fresh_local, bb_name,
  insert_block, insert_local,
}

pub record Inv (kinds : ℕ → BbKind) (G : Graph) (P : Pending) (fc : FnCtxt) : Type 0 where
  pub undeclared : (n : BbName) → fc.next_bb ≤ n → G n ≡ none
  pub known :
      (n : BbName) (b : BasicBlock)
      → get n fc.blocks ≡ some b
      → (G n ≡ some b.kind) × Edges G b.kind b.terminator
  pub covered : (n : BbName) (j : BbKind) → G n ≡ some j → get n fc.blocks ≡ none → P n ≡ true
  pub named :
      (t : ℕ) (n : BbName) → get t fc.bb_name_map ≡ some n → (n ≡ t) × (G n ≡ some (kinds t))

-- `m` keeps the invariant for a graph that has grown, with `P'` pending afterwards, and gives
-- results with `Q`.
pub record Flow {A : Type 0} (kinds : ℕ → BbKind) (G : Graph) (P : Pending) (m : T A)
    (P' : A → Pending) (Q : A → Graph → Type 0) : Type 0 where
  pub run :
      (fc : FnCtxt)
      → Inv kinds G P fc
      → Post (λ r. (H : Graph) × Extends G H × Inv kinds H (P' r.0) r.1 × Q r.0 H) AnyPanic (m fc)

pub Inv-weaken :
    {kinds : ℕ → BbKind} {G : Graph} {P R : Pending} {fc : FnCtxt}
    → Inv kinds G P fc
    → ((n : BbName) → P n ≡ true → R n ≡ true)
    → Inv kinds G R fc
Inv-weaken v f = record {
  undeclared = v.undeclared;
  known = v.known;
  covered = λ n j c d. f n (v.covered n j c d);
  named = v.named;
}

module _ {kinds : ℕ → BbKind} {G : Graph} {P : Pending} where
  pub flow_bind :
      {A B : Type 0} {m : T A} {f : A → T B} {P' : A → Pending} {P'' : B → Pending}
      {Q : A → Graph → Type 0} {R : B → Graph → Type 0}
      → Flow kinds G P m P' Q
      → ((a : A) (H : Graph) → Extends G H → Q a H → Flow kinds H (P' a) (f a) P'' R)
      → Flow kinds G P (m >>= f) P'' R
  unfolding ◌>>=◌
  flow_bind h k = record {
    run = λ fc v. Post-bind (h.run fc v) λ r (H, e, w, q).
        Post-weaken ((k r.0 H e q).run r.1 w)
          λ t (K, e2, w2, q2). (K, (λ n j g. e2 n j (e n j g)), w2, q2);
  }

  pub flow_reading :
      {A : Type 0} (f : Names → Outcome A) → Flow kinds G P (reading f) (λ _. P) (λ _ _. Unit)
  unfolding reading
  flow_reading f = record {
    run =
        λ fc v. Post-bind (anything (f fc.local_name_map)) λ a _. returns (G, (λ n j g. g), v, tt);
  }

  -- What is read has `R`, whichever the names are.
  pub flow_reading_with :
      {A : Type 0} {R : A → Type 0} (f : Names → Outcome A)
      → ((names : Names) → Post R AnyPanic (f names))
      → Flow kinds G P (reading f) (λ _. P) (λ a _. R a)
  unfolding reading
  flow_reading_with f h = record {
    run = λ fc v. Post-bind (h fc.local_name_map) λ a q. returns (G, (λ n j g. g), v, q);
  }

  pub flow_bb_name :
      (t : ℕ) → Flow kinds G P (bb_name t) (λ _. P) (λ n H. (n ≡ t) × (H n ≡ some (kinds t)))
  unfolding bb_name lookup
  flow_bb_name t = record {
    run = λ fc v. elim (Option-cases (get t fc.bb_name_map)) [
      | inl q ↦ rw (q, bb_name, lookup) (panics tt)
      | inr (n, q) ↦ rw (q, bb_name, lookup) (returns (G, (λ m j g. g), v, v.named t n q))
    ];
  }

  pub Inv-fresh :
      {fc : FnCtxt} (k : BbKind)
      → Inv kinds G P fc
      → Inv kinds (put G fc.next_bb k) (mark P fc.next_bb) (record fc { next_bb = fc.next_bb + 1 })
  Inv-fresh {fc} k v =
      let none_yet = v.undeclared fc.next_bb (omega arith) in
      let grow = put-Extends G fc.next_bb k none_yet in
      record {
        undeclared = λ n h. ground (arith, v.undeclared n);
        known = λ n b h.
            let (q, e) = v.known n b h in (grow n _ q, Edges-Extends b.kind b.terminator grow e);
        covered = λ n j h g. ground (arith, v.covered n j);
        named = λ t n h. let (same, q) = v.named t n h in (same, grow n _ q);
      }

  pub flow_fresh : (k : BbKind) → Flow kinds G P fresh_bb_name (λ n. mark P n) (λ n H. H n ≡ some k)
  unfolding fresh_bb_name next
  flow_fresh k = record {
    run = λ fc v. elim (Bool-cases (ltb (fc.next_bb + 1) (2 ^ 32))) [
      | inl fits ↦
          rw (fits, fresh_bb_name, next)
            (returns (
              put G fc.next_bb k,
              put-Extends G fc.next_bb k (v.undeclared fc.next_bb (omega arith)),
              Inv-fresh k v,
              ground (arith, eqb_iff fc.next_bb fc.next_bb),
            ))
      | inr full ↦ rw (full, fresh_bb_name, next) (panics tt)
    ];
  }

  pub Inv-insert :
      {fc : FnCtxt} (n : BbName) (b : BasicBlock)
      → G n ≡ some b.kind
      → Edges G b.kind b.terminator
      → Inv kinds G P fc
      → Inv kinds G (unmark P n) (record fc { blocks = insert n b fc.blocks })
  Inv-insert {fc} n b h e v = record {
    undeclared = v.undeclared;
    known = λ m c g. elim (Bool-cases (eqb n m)) [
      | inl same ↦
          let q : some b ≡ some c = ground (arith, get-insert n m b fc.blocks, g) in
          let d = some_inj q in
          (
            subst (λ x. G x ≡ some c.kind) ((eqb_iff n m).0 same)
                (subst (λ x. G n ≡ some x.kind) d h),
            subst (λ x. Edges G x.kind x.terminator) d e,
          )
      | inr other ↦ v.known m c (ground (arith, get-insert n m b fc.blocks))
    ];
    covered = λ m j g q. ground (arith, get-insert n m b fc.blocks, v.covered m j g);
    named = v.named;
  }

  pub flow_insert :
      (n : BbName) (b : BasicBlock)
      → G n ≡ some b.kind
      → Edges G b.kind b.terminator
      → Flow kinds G P (insert_block n b) (λ _. unmark P n) (λ _ _. Unit)
  unfolding insert_block
  flow_insert n b h e = record { run = λ fc v. returns (G, (λ m j g. g), Inv-insert n b h e v, tt) }

  pub flow_weaken :
      {A : Type 0} {m : T A} {P' P'' : A → Pending} {Q R : A → Graph → Type 0}
      → Flow kinds G P m P' Q
      → ((a : A) (n : BbName) → P' a n ≡ true → P'' a n ≡ true)
      → ((a : A) (H : Graph) → Q a H → R a H)
      → Flow kinds G P m P'' R
  flow_weaken h f g = record {
    run =
        λ fc v. Post-weaken (h.run fc v) λ r (H, e, w, q). (H, e, Inv-weaken w (f r.0), g r.0 H q);
  }

  pub Inv-locals :
      {fc : FnCtxt} (names : Names) (l : ℕ) (ls : Map LocalName Ty)
      → Inv kinds G P fc
      → Inv kinds G P (record fc { local_name_map = names; next_local = l; locals = ls })
  Inv-locals names l ls v = record {
    undeclared = v.undeclared;
    known = v.known;
    covered = v.covered;
    named = v.named;
  }

  pub flow_insert_local :
      (l : LocalName) (ty : Ty) → Flow kinds G P (insert_local l ty) (λ _. P) (λ _ _. Unit)
  unfolding insert_local
  flow_insert_local l ty = record {
    run = λ fc v. returns (G, (λ n j g. g), Inv-locals fc.local_name_map fc.next_local _ v, tt);
  }

  pub flow_fresh_local_name : Flow kinds G P fresh_local_name (λ _. P) (λ _ _. Unit)
  unfolding fresh_local_name
  flow_fresh_local_name = record {
    run = λ fc v.
        Post-bind (anything (next fc.next_local))
          λ l _. returns (G, (λ n j g. g), Inv-locals fc.local_name_map l fc.locals v, tt);
  }

pub flow_return :
    {kinds : ℕ → BbKind} {G : Graph} {A : Type 0} (P' : A → Pending) {Q : A → Graph → Type 0}
    (a : A)
    → Q a G
    → Flow kinds G (P' a) (return a) P' Q
unfolding return
flow_return {G = G} P' a q = record { run = λ fc v. returns (G, (λ n j g. g), v, q) }

pub flow_fresh_local :
    {kinds : ℕ → BbKind} {G : Graph} {P : Pending} (ty : Ty)
    → Flow kinds G P (fresh_local ty) (λ _. P) (λ _ _. Unit)
unfolding fresh_local
flow_fresh_local {P = P} ty =
    flow_bind flow_fresh_local_name
      λ l H e _. flow_bind (flow_insert_local l ty) λ u K e2 _. flow_return (λ _. P) l tt

-- A pending block that is finished is not pending.
pub flow_insert_pending :
    {kinds : ℕ → BbKind} {G : Graph} {P : Pending} (n : BbName) (b : BasicBlock)
    → G n ≡ some b.kind
    → Edges G b.kind b.terminator
    → Flow kinds G (mark P n) (insert_block n b) (λ _. P) (λ _ _. Unit)
flow_insert_pending n b h e =
    flow_weaken (flow_insert n b h e) (λ u m p. ground (arith, eqb_iff n m)) (λ u H q. tt)

pub flow_done :
    {kinds : ℕ → BbKind} {G : Graph} {P R : Pending} {A : Type 0} {Q : A → Graph → Type 0} (a : A)
    → Q a G
    → ((n : BbName) → P n ≡ true → R n ≡ true)
    → Flow kinds G P (return a) (λ _. R) Q
flow_done {P = P} a q f = flow_weaken (flow_return (λ _. P) a q) (λ _ n p. f n p) (λ a H h. h)

-- A panic of the model gives nothing to check.
pub flow_guard :
    {kinds : ℕ → BbKind} {G : Graph} {P : Pending} (b : Bool) (e : Panic)
    → Flow kinds G P (reading (λ _. guard b e)) (λ _. P) (λ _ _. b ≡ true)
flow_guard true e = flow_reading_with _ λ names. returns refl
flow_guard false e = flow_reading_with _ λ names. panics tt

pub flow_stuck :
    {kinds : ℕ → BbKind} {G : Graph} {P : Pending} {A : Type 0} {P' : A → Pending}
    {Q : A → Graph → Type 0} (e : Panic)
    → Flow kinds G P (reading λ _. panic e) P' Q
unfolding reading
flow_stuck e = record { run = λ fc v. panics tt }
