-- ===== src/Build/Shape/Locals.antt =====
-- tooling/miniutil/src/build/mod.rs: rules for the methods that declare locals.
use mts_minirust_work.Prelude.{
  ℕ, ◌+◌, ◌^◌, ◌<◌, ◌≡◌, ◌≢◌, refl, subst, true, false, List, [], ◌∷◌, ◌++◌, Option, none, some,
  inl, inr, All, All-map, All-append, if◌then◌else◌, eqb, eqb_iff, arith, nat_eq, Bool-cases, ltb,
  some_inj,
}
use mts_minirust_work.Prelude.Maps.{Map, get, contains_key, try_insert_fresh}
use mts_minirust_work.Prelude.Outcome.{panic, ret_already_set, Post, returns, panics}
use mts_minirust_work.Lang.Types.{Ty}
use mts_minirust_work.Lang.Syntax.{LocalName, BbKind, PlaceExpr}
use mts_minirust_work.Lang.WellFormed.{contains}
use mts_minirust_work.Build.State.{
  FunctionBuilder, declare_local_with_ty, declare_arg_with_ty, declare_ret_with_ty, fresh_ret_name,
  fresh_local_name, insert_local,
}
use mts_minirust_work.Build.Expr.{local_by_name}
use mts_minirust_work.Build.Shape.{Graph, Pending, Distinct, LocalsOk, Inv, IsOverflow}

contains-snoc :
    (xs : List ℕ) (a b : ℕ) → contains (xs ++ a ∷ []) b ≡ (if contains xs b then true else eqb b a)
unfolding contains
contains-snoc [] a b = ground arith
contains-snoc (x ∷ xs) a b = ground (arith, contains-snoc xs a b)

-- A name above all others is not among them.
contains_above :
    (m : Map LocalName Ty) (xs : List ℕ) (n : ℕ)
    → All (λ a. (a < n) × (contains_key a m ≡ true)) xs
    → contains xs n ≡ false
unfolding contains
contains_above m [] n h = refl
contains_above m (x ∷ xs) n ((h, _), hs) = ground (arith, contains_above m xs n hs, eqb_iff n x)

Distinct-snoc :
    (xs : List ℕ) (a : ℕ) → Distinct xs → contains xs a ≡ false → Distinct (xs ++ a ∷ [])
unfolding contains
Distinct-snoc [] a d h = (refl, tt)
Distinct-snoc (x ∷ xs) a (own, d) h = (
  rw (contains-snoc xs a x) (ground (arith, eqb_iff x a, eqb_iff a x)),
  Distinct-snoc xs a d (ground (arith, eqb_iff x a, eqb_iff a x)),
)

contains_key-cons :
    (n m : LocalName) (t : Ty) (l : Map LocalName Ty)
    → contains_key n l ≡ true
    → contains_key n ((m, t) ∷ l) ≡ true
unfolding contains_key
contains_key-cons n m t l h = ground arith

contains_key_self :
    (n : LocalName) (t : Ty) (l : Map LocalName Ty) → contains_key n ((n, t) ∷ l) ≡ true
unfolding contains_key
contains_key_self n t l = ground (arith, eqb_iff n n)

get_other :
    (n m : LocalName) (t : Ty) (l : Map LocalName Ty)
    → m ≢ n
    → get n l ≡ none
    → get n ((m, t) ∷ l) ≡ none
unfolding get
get_other n m t l d h = ground (arith, eqb_iff m n)

module _ {locals : Map LocalName Ty} {args : List LocalName} {ret : Option LocalName} {n : ℕ}
    (h : LocalsOk locals args ret n) (ty : Ty) where
  wider : All (λ a. (a < n + 1) × (contains_key a ((n, ty) ∷ locals) ≡ true)) args
  wider =
      All-map _ _ args (λ a (l, c). (omega arith, contains_key-cons a n ty locals c)) h.args_known

  pub declare-LocalsOk : LocalsOk ((n, ty) ∷ locals) args ret (n + 1)
  declare-LocalsOk = record {
    unused = λ m g. get_other m n ty locals (omega arith) (h.unused m (omega arith));
    args_known = wider;
    args_distinct = h.args_distinct;
    ret_known =
        λ r e. let (l, c) = h.ret_known r e in (omega arith, contains_key-cons r n ty locals c);
    ret_distinct = h.ret_distinct;
  }

  pub declare_arg-LocalsOk : LocalsOk ((n, ty) ∷ locals) (args ++ n ∷ []) ret (n + 1)
  declare_arg-LocalsOk = record {
    unused = declare-LocalsOk.unused;
    args_known =
        All-append _ args (n ∷ []) wider ((omega arith, contains_key_self n ty locals), tt);
    args_distinct =
        Distinct-snoc args n h.args_distinct (contains_above locals args n h.args_known);
    ret_known = declare-LocalsOk.ret_known;
    ret_distinct = λ r e.
        let (l, c) = h.ret_known r e in
        rw (contains-snoc args n r) (ground (arith, h.ret_distinct r e, eqb_iff r n));
  }

  pub declare_ret-LocalsOk : LocalsOk ((n, ty) ∷ locals) args (some n) (n + 1)
  declare_ret-LocalsOk = record {
    unused = declare-LocalsOk.unused;
    args_known = wider;
    args_distinct = h.args_distinct;
    ret_known = λ r e.
        subst (λ r. (r < n + 1) × (contains_key r ((n, ty) ∷ locals) ≡ true)) (some_inj e)
          (omega arith, contains_key_self n ty locals);
    ret_distinct = λ r e.
        subst (λ r. contains args r ≡ false) (some_inj e)
          (contains_above locals args n h.args_known);
  }

with_locals :
    {G : Graph} {P : Pending} {k : BbKind} {fb : FunctionBuilder} (locals : Map LocalName Ty)
    (args : List LocalName) (ret : Option LocalName) (n : ℕ)
    → Inv G P k fb
    → LocalsOk locals args ret n
    → Inv G P k (record fb { locals = locals; args = args; ret = ret; next_local = n })
with_locals locals args ret n v l = record {
  undeclared = v.undeclared;
  known = v.known;
  covered = v.covered;
  pending = v.pending;
  promised = v.promised;
  current = v.current;
  entry = v.entry;
  locals_ok = l;
}

fresh_ret_name_eq : (fb : FunctionBuilder) → fb.ret ≡ none → fresh_ret_name fb ≡ fresh_local_name fb
unfolding fresh_ret_name
fresh_ret_name_eq fb h =
    λ i. elim (h i) [ none ↦ fresh_local_name fb | some _ ↦ panic ret_already_set ]

module _ {G : Graph} {P : Pending} {k : BbKind} {fb : FunctionBuilder} (v : Inv G P k fb)
    (ty : Ty) where
  -- what a declaration of a local leaves: the invariant, and the current block as it was
  abbrev pub Kept : PlaceExpr × FunctionBuilder → Type 0
  Kept r = Inv G P k r.1 × (r.1.cur_block ≡ fb.cur_block)

  -- A place that is a new local of the type: its name was not in use, it has the type now, and
  -- every other local is as it was.
  abbrev pub NewLocal : PlaceExpr × FunctionBuilder → LocalName → Type 0
  NewLocal r n =
      (r.0 ≡ PlaceExpr.local n)
      × (get n fb.locals ≡ none)
      × ((m : LocalName) → get m r.1.locals ≡ (if eqb n m then some ty else get m fb.locals))

  -- what declaring a local leaves
  abbrev pub LocalAdded : PlaceExpr × FunctionBuilder → Type 0
  LocalAdded r =
      Kept r × ((n : LocalName) × NewLocal r n × (r.1.args ≡ fb.args) × (r.1.ret ≡ fb.ret))

  -- what declaring an argument leaves
  abbrev pub ArgAdded : PlaceExpr × FunctionBuilder → Type 0
  ArgAdded r =
      Kept r
      × ((n : LocalName) × NewLocal r n × (r.1.args ≡ fb.args ++ n ∷ []) × (r.1.ret ≡ fb.ret))

  -- what declaring the return local leaves
  abbrev pub RetAdded : PlaceExpr × FunctionBuilder → Type 0
  RetAdded r = Kept r × ((n : LocalName) × (r.1.ret ≡ some n) × NewLocal r n × (r.1.args ≡ fb.args))

  unused_name : get fb.next_local fb.locals ≡ none
  unused_name = v.locals_ok.unused fb.next_local (omega arith)

  -- On a builder whose invariant holds, declaring a local with a type returns the place of a
  -- local whose name was not in use and which has the type now; all other locals, the arguments
  -- and the return local are as they were. The invariant is kept and the current block is as it
  -- was. The only panic is the overflow of the counter.
  pub declare_local_rule : Post LocalAdded IsOverflow (declare_local_with_ty ty fb)
  unfolding declare_local_with_ty local_by_name get
  declare_local_rule = elim (Bool-cases (ltb (fb.next_local + 1) (2 ^ 32))) [
    | inl fits ↦
        rw (fits, try_insert_fresh fb.next_local ty fb.locals unused_name)
          (returns (
            (with_locals _ _ _ _ v (declare-LocalsOk v.locals_ok ty), refl),
            (fb.next_local, (refl, unused_name, (λ m. refl)), refl, refl),
          ))
    | inr over ↦ rw over (panics refl)
  ]

  -- On a builder whose invariant holds, declaring an argument with a type returns the place of a
  -- local whose name was not in use, which has the type now and is added at the end of the
  -- arguments; all other locals and the return local are as they were. The invariant is kept
  -- (arguments exist, are distinct, and are not the return local), and the current block is as it
  -- was. The only panic is the overflow of the counter.
  pub declare_arg_rule : Post ArgAdded IsOverflow (declare_arg_with_ty ty fb)
  unfolding declare_arg_with_ty local_by_name get
  declare_arg_rule = elim (Bool-cases (ltb (fb.next_local + 1) (2 ^ 32))) [
    | inl fits ↦
        rw (fits, try_insert_fresh fb.next_local ty fb.locals unused_name)
          (returns (
            (with_locals _ _ _ _ v (declare_arg-LocalsOk v.locals_ok ty), refl),
            (fb.next_local, (refl, unused_name, (λ m. refl)), refl, refl),
          ))
    | inr over ↦ rw over (panics refl)
  ]

  -- On a builder whose invariant holds and that has no return local, declaring one with a type
  -- returns the place of a local whose name was not in use, which has the type now and is the
  -- return local; all other locals and the arguments are as they were. The invariant is kept (the
  -- return local exists and is none of the arguments), and the current block is as it was. The
  -- only panic is the overflow of the counter.
  pub declare_ret_rule : fb.ret ≡ none → Post RetAdded IsOverflow (declare_ret_with_ty ty fb)
  unfolding declare_ret_with_ty fresh_local_name insert_local local_by_name get
  declare_ret_rule none_yet = elim (Bool-cases (ltb (fb.next_local + 1) (2 ^ 32))) [
    | inl fits ↦
        rw
          (
            fresh_ret_name_eq fb none_yet,
            fits,
            try_insert_fresh fb.next_local ty fb.locals unused_name,
          )
          (returns (
            (with_locals _ _ _ _ v (declare_ret-LocalsOk v.locals_ok ty), refl),
            (fb.next_local, refl, (refl, unused_name, (λ m. refl)), refl),
          ))
    | inr over ↦ rw (fresh_ret_name_eq fb none_yet, over) (panics refl)
  ]
