-- ===== src/Fmt/State/Lists.antt =====
-- tooling/miniutil/src/fmt/ty.rs: the index of a composite type, and the code that lists a type.
use mts_minirust_work.Prelude.{
  ℕ, ◌≡◌, refl, true, List, [], ◌∷◌, ◌++◌, some, arith, length, get_elem?, Option-cases, inl, inr,
  subst, sym,
}
use mts_minirust_work.Prelude.Positions.{
  position, position-snoc, contains, contains-append, get_elem?-position, get_elem?-contains,
}
use mts_minirust_work.Prelude.Outcome.{
  ok, Post, returns, AnyPanic, Post-bind, Post-weaken, anything,
}
use mts_minirust_work.Lang.Types.{Ty}
use mts_minirust_work.Fmt.State.{Fmt, ◌>>=◌, get_comptype_index, ty_eq}
use mts_minirust_work.Fmt.State.Emits.{Emits, Extends}

-- `get_comptype_index` does not panic. The index that it gives for a type has this type in the
-- list that it leaves, and asking for the type again gives the same index and leaves the list as
-- it is.
pub get_comptype_index-get_elem? :
    (ty : Ty) (before : List Ty)
    → (i : ℕ) × (after : List Ty) × (get_comptype_index ty before ≡ ok (i, after))
      × (get_elem? after i ≡ some ty)
      × (get_comptype_index ty after ≡ ok (i, after))
unfolding get_comptype_index
get_comptype_index-get_elem? ty cs = elim (Option-cases (position ty cs)) [
  | inl q ↦
      let (p, g) = position-snoc ty cs q in
      (
        length cs,
        cs ++ (ty ∷ []),
        rw (q, get_comptype_index) refl,
        g,
        rw (p, get_comptype_index) refl,
      )
  | inr (i, q) ↦ (
    i,
    cs,
    rw (q, get_comptype_index) refl,
    get_elem?-position ty cs i q,
    rw (q, get_comptype_index) refl,
  )
]

-- After `m` the type `u` is listed.
pub record Lists {ℓ} {A : Type ℓ} (u : Ty) (m : Fmt A) : Type ℓ where
  pub run : (before : List Ty) → Post (λ r. contains u r.1 ≡ true) AnyPanic (m before)

pub get_comptype_index-Lists : (u : Ty) → Lists u (get_comptype_index u)
get_comptype_index-Lists u = record {
  run = λ cs.
      let (i, after, q, g, _) = get_comptype_index-get_elem? u cs in
      rw q (returns (get_elem?-contains after i u g).0);
}

still :
    {S : Ty → Type 0} {cs ds : List Ty} (u : Ty)
    → Extends S cs ds
    → contains u cs ≡ true
    → contains u ds ≡ true
still {cs = cs} u x c =
    subst (λ l. contains u l ≡ true) (sym x.at_end) (ground (arith, contains-append u cs x.found))

module _ {ℓ κ} {A : Type ℓ} {B : Type κ} {m : Fmt A} {f : A → Fmt B} (u : Ty) where
  -- What is listed stays listed.
  pub Lists-first :
      {S : Ty → Type 0} {P : B → Type 0}
      → Lists u m
      → ((a : A) → Emits S P (f a))
      → Lists u (m >>= f)
  unfolding ◌>>=◌
  Lists-first h k = record {
    run = λ cs. Post-bind (h.run cs) λ r c. Post-weaken ((k r.0).run r.1) λ t (p, x). still u x c;
  }

pub Lists-then {ℓ κ} :
    {A : Type ℓ} {B : Type κ} (m : Fmt A) {f : A → Fmt B} (u : Ty)
    → ((a : A) → Lists u (f a))
    → Lists u (m >>= f)
unfolding ◌>>=◌
Lists-then m u k = record { run = λ cs. Post-bind (anything (m cs)) λ r _. (k r.0).run r.1 }
