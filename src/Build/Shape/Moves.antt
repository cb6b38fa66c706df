-- ===== src/Build/Shape/Moves.antt =====
-- The four moves of the builder on blocks: declare, finish, begin, and set aside and resume.
use mathlib.Core.Path.{fun_ext}
use mts_minirust_work.Prelude.{
  ◌+◌, ◌^◌, ◌≡◌, refl, subst, inl, inr, true, false, [], ◌∷◌, Option, none, some, All-map,
  if◌then◌else◌, eqb, eqb_iff, nat_eq, arith, Bool-cases, Option-cases, ltb, some_inj,
}
use mts_minirust_work.Prelude.Maps.{Map, get, get_none, try_insert_fresh}
use mts_minirust_work.Prelude.Outcome.{ok, Post, returns, panics}
use mts_minirust_work.Lang.Syntax.{
  BbName, BbKind, BasicBlock, Terminator, goto, switch, unreachable, intrinsic, call, return,
  start_unwind, stop_unwind, resume_unwind,
}
use mts_minirust_work.Build.State.{FunctionBuilder, CurBlock, declare_block, set_cur_block, next}
use mts_minirust_work.Build.Methods.{finish_block, block_of}
use mts_minirust_work.Build.Shape.{
  Graph, Pending, put, mark, unmark, is_cur, Edges, NextOk, UnwindOk, UnwindsTo, Inv, Extends, Live,
  Ended, IsOverflow,
}

-- Edges stay when the graph grows.
pub NextOk-Extends :
    {G G' : Graph} (k : BbKind) (n : Option BbName) → Extends G G' → NextOk G k n → NextOk G' k n
NextOk-Extends k none e h = tt
NextOk-Extends k (some n) e h = e n k h

pub UnwindsTo-Extends :
    {G G' : Graph} (k : BbKind) (n : BbName) → Extends G G' → UnwindsTo G k n → UnwindsTo G' k n
UnwindsTo-Extends k n e (j, h, u) = (j, e n j h, u)

pub UnwindOk-Extends :
    {G G' : Graph} (k : BbKind) (n : Option BbName)
    → Extends G G'
    → UnwindOk G k n
    → UnwindOk G' k n
UnwindOk-Extends k none e h = tt
UnwindOk-Extends k (some n) e h = UnwindsTo-Extends k n e h

pub Edges-Extends :
    {G G' : Graph} (k : BbKind) (t : Terminator) → Extends G G' → Edges G k t → Edges G' k t
Edges-Extends k (goto n) e h = e n k h
Edges-Extends k (switch _ cases f) e (h, hf) = (All-map _ _ cases (λ p. e p.1 k) h, e f k hf)
Edges-Extends k unreachable e h = tt
Edges-Extends k (intrinsic _ _ _ n) e h = NextOk-Extends k n e h
Edges-Extends k (call _ _ _ _ n u) e (h, hu) = (NextOk-Extends k n e h, UnwindOk-Extends k u e hu)
Edges-Extends k return e h = h
Edges-Extends k (start_unwind _ n) e (h, hu) = (h, UnwindsTo-Extends k n e hu)
Edges-Extends k (stop_unwind n) e (h, hn) = (h, e n _ hn)
Edges-Extends k resume_unwind e h = h

pub put-Extends : (G : Graph) (n : BbName) (j : BbKind) → G n ≡ none → Extends G (put G n j)
put-Extends G n j h m i hm = ground (arith, eqb_iff n m)

-- A block that is declared is not pending yet.
pub pending_fresh :
    {G : Graph} {P : Pending} {k : BbKind} {fb : FunctionBuilder} (n : BbName)
    → Inv G P k fb
    → G n ≡ none
    → P n ≡ false
pending_fresh {P = P} n v h = elim (Bool-cases (P n)) [
  | inl p ↦ let (j, q) = v.promised n p in absurd (cc (h, q))
  | inr p ↦ p
]

pub unmark-mark : (P : Pending) (n : BbName) → P n ≡ false → unmark (mark P n) n ≡ P
unmark-mark P n h = fun_ext λ m. ground (arith, eqb_iff n m)

get-cons :
    (n m : BbName) (b : BasicBlock) (l : Map BbName BasicBlock)
    → get n ((m, b) ∷ l) ≡ (if eqb m n then some b else get n l)
unfolding get
get-cons n m b l = refl

module _ {G : Graph} {P : Pending} {k : BbKind} {fb : FunctionBuilder} (v : Inv G P k fb) where
  -- What the graph does not have is in no block.
  pub not_stored : (n : BbName) → G n ≡ none → get n fb.blocks ≡ none
  not_stored n h = elim (Option-cases (get n fb.blocks)) [
    | inl q ↦ q
    | inr (b, q) ↦ absurd (cc (h, (v.known n b q).0))
  ]

  pub not_current : (n : BbName) → G n ≡ none → is_cur n fb.cur_block ≡ false
  not_current n h = elim (Option-cases fb.cur_block) [
    | inl q ↦ rw q refl
    | inr (c, q) ↦ ground (arith, v.current c q, h, q, eqb_iff c.name n)
  ]

  pub promise-Inv :
      (j : BbKind)
      → Inv
          (put G fb.next_block j)
          (mark P fb.next_block)
          k
          (record fb { next_block = fb.next_block + 1 })
  promise-Inv j =
      let none_yet = v.undeclared fb.next_block (omega arith) in
      let grow = put-Extends G fb.next_block j none_yet in
      record {
        undeclared = λ n h. ground (arith, v.undeclared n);
        known = λ n b h.
            let (q, e) = v.known n b h in (grow n _ q, Edges-Extends b.kind b.terminator grow e);
        covered = λ n i h g c. ground (arith, v.covered n i);
        pending = λ n h. ground (
          arith,
          v.pending n,
          eqb_iff fb.next_block n,
          not_stored fb.next_block none_yet,
          not_current fb.next_block none_yet,
        );
        promised = λ n h. elim (Bool-cases (eqb fb.next_block n)) [
          | inl same ↦ (j, rw same)
          | inr other ↦ let (i, q) = v.promised n (ground arith) in (i, ground arith)
        ];
        current = λ c h. let (q, r, s) = v.current c h in (grow c.name _ q, r, s);
        entry = grow fb.start _ v.entry;
        locals_ok = v.locals_ok;
      }

  -- Without a current block the kind does not matter.
  pub any_kind-Inv : Ended fb → (j : BbKind) → Inv G P j fb
  any_kind-Inv e j = record {
    undeclared = v.undeclared;
    known = v.known;
    covered = v.covered;
    pending = v.pending;
    promised = v.promised;
    current = λ c h. absurd (cc (e, h));
    entry = v.entry;
    locals_ok = v.locals_ok;
  }

  -- A block that is set aside is pending.
  pub suspend-Inv :
      (c : CurBlock)
      → fb.cur_block ≡ some c
      → (j : BbKind) → Inv G (mark P c.name) j (record fb { cur_block = none })
  suspend-Inv c h j =
      let (q, r, s) = v.current c h in
      record {
        undeclared = v.undeclared;
        known = v.known;
        covered = λ n i g b e. ground (arith, v.covered n i g b, h);
        pending = λ n p. ground (arith, v.pending n, eqb_iff c.name n, s);
        promised = λ n p. elim (Bool-cases (eqb c.name n)) [
          | inl same ↦ (c.kind, ground (arith, eqb_iff c.name n, q))
          | inr other ↦ v.promised n (ground arith)
        ];
        current = λ d e. cc;
        entry = v.entry;
        locals_ok = v.locals_ok;
      }

  -- A pending block becomes the current one.
  pub resume-Inv :
      (c : CurBlock)
      → Ended fb
      → P c.name ≡ true
      → G c.name ≡ some c.kind
      → Inv G (unmark P c.name) c.kind (record fb { cur_block = some c })
  resume-Inv c e p g = record {
    undeclared = v.undeclared;
    known = v.known;
    covered = λ n i h b d. ground (arith, v.covered n i h b, e);
    pending = λ n q. ground (arith, v.pending n, e);
    promised = λ n q. v.promised n (ground arith);
    current = λ d h.
        let same : c ≡ d = some_inj h in
        subst (λ x. (G x.name ≡ some x.kind) × (x.kind ≡ c.kind) × (get x.name fb.blocks ≡ none))
          same (g, refl, (v.pending c.name p).0);
    entry = v.entry;
    locals_ok = v.locals_ok;
  }

  pub finish-Inv :
      (c : CurBlock) (t : Terminator)
      → fb.cur_block ≡ some c
      → Edges G c.kind t
      → (j : BbKind)
      → Inv G P j (record fb { blocks = (c.name, block_of c t) ∷ fb.blocks; cur_block = none })
  finish-Inv c t h e j = record {
    undeclared = v.undeclared;
    known = λ n b g. elim (Bool-cases (eqb c.name n)) [
      | inl same ↦
          let hit : some (block_of c t) ≡ some b = rw (get-cons, same) at g in
          let here = (eqb_iff c.name n).0 same in
          subst (λ (x : BasicBlock). (G n ≡ some x.kind) × Edges G x.kind x.terminator)
            (some_inj hit) (subst (λ m. G m ≡ some c.kind) here (v.current c h).0, e)
      | inr other ↦ v.known n b (rw (get-cons, other) at g)
    ];
    covered = λ n i g b d. elim (Bool-cases (eqb c.name n)) [
      | inl same ↦ let hit : some (block_of c t) ≡ none = rw (get-cons, same) at b in cc
      | inr other ↦ v.covered n i g (rw (get-cons, other) at b) (rw h other)
    ];
    pending = λ n p.
        let (gone, apart) = v.pending n p in
        let other : eqb c.name n ≡ false = rw h at apart in (rw (get-cons, other) gone, refl);
    promised = v.promised;
    current = λ d q. cc;
    entry = v.entry;
    locals_ok = v.locals_ok;
  }

finish_block_eq :
    (c : CurBlock) (t : Terminator) (fb : FunctionBuilder)
    → fb.cur_block ≡ some c
    → get c.name fb.blocks ≡ none
    → finish_block t fb
      ≡ ok (tt, record fb { blocks = (c.name, block_of c t) ∷ fb.blocks; cur_block = none })
unfolding finish_block
finish_block_eq c t fb h g =
    rw (h, finish_block) (rw (try_insert_fresh c.name (block_of c t) fb.blocks g))

set_cur_block_eq :
    (n : BbName) (j : BbKind) (fb : FunctionBuilder)
    → Ended fb
    → get n fb.blocks ≡ none
    → set_cur_block n j fb
      ≡ ok (tt, record fb { cur_block = some (record { statements = []; name = n; kind = j }) })
unfolding set_cur_block
set_cur_block_eq n j fb h g = rw (get_none n fb.blocks g) (rw (h, set_cur_block))

-- what `declare_block` gives, for a block that is meant to be of kind `j`
abbrev Declared :
    Graph → Pending → BbKind → BbKind → FunctionBuilder → BbName × FunctionBuilder → Type 0
Declared G P k j fb r =
    Inv (put G r.0 j) (mark P r.0) k r.1 × (G r.0 ≡ none) × (r.1.cur_block ≡ fb.cur_block)

module _ {G : Graph} {P : Pending} {k : BbKind} {fb : FunctionBuilder} (v : Inv G P k fb) where
  -- `declare_block` gives a fresh name, whatever kind it is meant for, or the counter overflows.
  pub declare_block_rule : (j : BbKind) → Post (Declared G P k j fb) IsOverflow (declare_block fb)
  unfolding declare_block next
  declare_block_rule j = elim (Bool-cases (ltb (fb.next_block + 1) (2 ^ 32))) [
    | inl fits ↦ rw fits (returns (promise-Inv v j, v.undeclared fb.next_block (omega arith), refl))
    | inr over ↦ rw over (panics refl)
  ]

  -- Finishing the current block never panics.
  pub finish_block_rule :
      (c : CurBlock) (t : Terminator)
      → fb.cur_block ≡ some c
      → Edges G c.kind t
      → (j : BbKind) → Post (λ r. Inv G P j r.1 × Ended r.1) IsOverflow (finish_block t fb)
  finish_block_rule c t h e j =
      rw (finish_block_eq c t fb h (v.current c h).2) (returns (finish-Inv v c t h e j, refl))

  pub set_cur_block_rule :
      (n : BbName) (j : BbKind)
      → Ended fb
      → P n ≡ true
      → G n ≡ some j
      → Post (λ r. Inv G (unmark P n) j r.1 × Live r.1) IsOverflow (set_cur_block n j fb)
  set_cur_block_rule n j e p g =
      let c : CurBlock = record { statements = []; name = n; kind = j } in
      rw (set_cur_block_eq n j fb e (v.pending n p).0) (returns (resume-Inv v c e p g, (c, refl)))
