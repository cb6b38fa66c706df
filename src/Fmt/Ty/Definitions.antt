-- ===== src/Fmt/Ty/Definitions.antt =====
-- tooling/miniutil/src/fmt/ty.rs: printing the definitions of the composite types ends.
use mts_minirust_work.Prelude.{
  ℕ, zero, suc, ◌+◌, ◌≤◌, ◌<◌, ◌≡◌, refl, ap, sym, length-append, true, List, [], ◌∷◌, ◌++◌, Option,
  some, Option-cases, arith, inl, inr, length, get_elem?, subst,
}
use mts_minirust_work.Prelude.Positions.{
  contains, contains-append, Distinct, Distinct-length, Included, Included-All, Included-append,
  get_elem?-contains,
}
use mts_minirust_work.Prelude.Outcome.{Outcome, ok, anything, Post, returns, panics, AnyPanic}
use mts_minirust_work.Lang.Types.{
  Cells, Ty, OptTy, no_ty, some_ty, Fields, no_fields, Variants, no_variants,
}
use mts_minirust_work.Lang.Layout.{layout}
use mts_minirust_work.Fmt.Text.{Text, codes}
use mts_minirust_work.Fmt.Text.Parens.{paren_rules, LeavesOpen, NoParens}
use mts_minirust_work.Fmt.State.{ty_eq}
use mts_minirust_work.Fmt.State.Emits.{Emits, Extends, Emits-return, Emits-lift, Emits-bind}
use mts_minirust_work.Fmt.Ty.{
  to_string, fmt_comptype_index, fmt_type, fmt_comptype_fields, fmt_comptype_chunks, fmt_variants,
  fmt_tail, fmt_comptype_header, fmt_comptype, or_panic, print_comptypes,
}
use mts_minirust_work.Fmt.Ty.Printed.{
  fmt_type-Emits, fmt_int_type-NoParens, fmt_layout_strategy-Closed,
}
use mts_minirust_work.Fmt.Ty.Nested.{
  composites, composites_fields, composites_tail, composites_variants, head-composites,
}

-- All the types of the list have `S`.
abbrev Each : (Ty → Type 0) → List Ty → Type 0
Each S us = (u : Ty) → contains u us ≡ true → S u

fmt_comptype_chunks-Closed : (chunks : Cells) → LeavesOpen 0 (fmt_comptype_chunks chunks)
unfolding fmt_comptype_chunks
fmt_comptype_chunks-Closed [] = refl
fmt_comptype_chunks-Closed ((offset, size) ∷ chunks) =
    grind (paren_rules, fmt_comptype_chunks-Closed chunks)

module _ (S : Ty → Type 0) where
  fmt_type-Each :
      (t : Ty) → Each S (composites t) → Emits S (λ e. LeavesOpen 0 (to_string e)) (fmt_type t)
  fmt_type-Each t h = fmt_type-Emits S t λ u e. h u (head-composites t u e)

  Each-left : (us vs : List Ty) → Each S (us ++ vs) → Each S us
  Each-left us vs h u g = h u (ground (arith, contains-append u us vs))

  Each-right : (us vs : List Ty) → Each S (us ++ vs) → Each S vs
  Each-right us vs h u g = h u (ground (arith, contains-append u us vs))

  Each-below : (t : Ty) (us : List Ty) → Each S (t ∷ us) → Each S us
  Each-below t us h u g = h u (ground arith)

  fmt_comptype_fields-Emits :
      (fs : Fields)
      → Each S (composites_fields fs)
      → Emits S (LeavesOpen 0) (fmt_comptype_fields fs)
  unfolding fmt_comptype_fields composites_fields
  fmt_comptype_fields-Emits no_fields h = Emits-return _ refl
  fmt_comptype_fields-Emits (Fields.field offset f fs) h =
      Emits-bind (fmt_type-Each f (Each-left _ (composites_fields fs) h)) λ ty c.
        Emits-bind (fmt_comptype_fields-Emits fs (Each-right (composites f) _ h))
          λ rest k. Emits-return _ (grind (paren_rules, c, k))

  fmt_variants-Emits :
      (vs : Variants) → Each S (composites_variants vs) → Emits S (LeavesOpen 0) (fmt_variants vs)
  unfolding fmt_variants composites_variants
  fmt_variants-Emits no_variants h = Emits-return _ refl
  fmt_variants-Emits (Variants.variant d v tagger vs) h =
      Emits-bind (fmt_type-Each v (Each-left _ (composites_variants vs) h)) λ ty c.
        Emits-bind (fmt_variants-Emits vs (Each-right (composites v) _ h))
          λ rest k. Emits-return _ (grind (paren_rules, c, k))

  fmt_tail-Emits :
      (tail : OptTy) → Each S (composites_tail tail) → Emits S (LeavesOpen 0) (fmt_tail tail)
  unfolding fmt_tail composites_tail
  fmt_tail-Emits no_ty h = Emits-return _ refl
  fmt_tail-Emits (some_ty ty) h =
      Emits-bind (fmt_type-Each ty h) λ t c. Emits-return _ (grind (paren_rules, c))

  fmt_comptype_header-Emits :
      (keyword : Text) (i : ℕ) (t : Ty)
      → NoParens keyword
      → Emits S (LeavesOpen 0) (fmt_comptype_header keyword i t)
  unfolding fmt_comptype_header fmt_comptype_index
  fmt_comptype_header-Emits keyword i t h =
      Emits-bind (Emits-lift (anything (layout t)))
        λ l u. Emits-return _ (grind (paren_rules, h, fmt_layout_strategy-Closed l))

  -- Printing a definition lists none but the composite types that are nested in it.
  pub fmt_comptype-Emits :
      (i : ℕ) (t : Ty) → Each S (composites t) → Emits S (LeavesOpen 0) (fmt_comptype i t)
  unfolding fmt_comptype composites
  fmt_comptype-Emits i (Ty.tuple fs hd tail) h =
      Emits-bind (fmt_comptype_header-Emits (codes "tuple") i (Ty.tuple fs hd tail) (refl, refl))
        λ s a.
          Emits-bind
            (fmt_comptype_fields-Emits fs (Each-left _ (composites_tail tail) (Each-below _ _ h)))
            λ x b.
              Emits-bind
                (fmt_tail-Emits tail (Each-right (composites_fields fs) _ (Each-below _ _ h)))
                λ y c. Emits-return _ (grind (paren_rules, a, b, c))
  fmt_comptype-Emits i (Ty.union fs chunks size align) h =
      Emits-bind
        (fmt_comptype_header-Emits (codes "union") i (Ty.union fs chunks size align) (refl, refl))
        λ s a.
          Emits-bind (fmt_comptype_fields-Emits fs (Each-below _ _ h))
            λ x b. Emits-return _ (grind (paren_rules, a, b, fmt_comptype_chunks-Closed chunks))
  fmt_comptype-Emits i (Ty.enum vs dt d size align) h =
      Emits-bind
        (fmt_comptype_header-Emits (codes "enum") i (Ty.enum vs dt d size align) (refl, refl))
        λ s a.
          Emits-bind (fmt_variants-Emits vs (Each-below _ _ h))
            λ x b. Emits-return _ (grind (paren_rules, a, b, fmt_int_type-NoParens dt))
  fmt_comptype-Emits i (Ty.int t) h = Emits-lift (panics tt)
  fmt_comptype-Emits i Ty.bool h = Emits-lift (panics tt)
  fmt_comptype-Emits i (Ty.ptr p) h = Emits-lift (panics tt)
  fmt_comptype-Emits i (Ty.array elem n) h = Emits-lift (panics tt)
  fmt_comptype-Emits i (Ty.slice elem) h = Emits-lift (panics tt)
  fmt_comptype-Emits i (Ty.trait_object t) h = Emits-lift (panics tt)

-- There is a result: a panic, or a text in which `n` parentheses are left open.
abbrev pub Ends : ℕ → Option (Outcome Text) → Type 0
Ends n o = (r : Outcome Text) × (o ≡ some r) × Post (LeavesOpen n) AnyPanic r

-- One round of the loop keeps the list among `all`, in which what is nested in a member is a member.
round :
    (all cs : List Ty) (i : ℕ) (c : Ty)
    → ((t : Ty) → contains t all ≡ true → Included (composites t) all)
    → Included cs all
    → get_elem? cs i ≡ some c
    → Emits (λ u. contains u all ≡ true) (LeavesOpen 0) (fmt_comptype i c)
unfolding Included
round all cs i c nest incl h =
    fmt_comptype-Emits _ i c λ u g. nest c (incl c (get_elem?-contains cs i c h).0) u g

extended :
    (all cs ds : List Ty)
    → Included cs all
    → Extends (λ u. contains u all ≡ true) cs ds
    → (Included ds all) × (length cs ≤ length ds)
extended all cs ds h x = (
  subst (λ l. Included l all) (sym x.at_end)
      (Included-append cs x.found all h (Included-All x.found all x.found_all)),
  omega (arith, ap length x.at_end, length-append cs x.found),
)

pub or_panic-Ends :
    (n : ℕ) {P : Text × List Ty → Type 0} {m : Outcome (Text × List Ty)}
    {f : Text → List Ty → Option (Outcome Text)}
    → Post P AnyPanic m
    → ((s : Text) (ds : List Ty) → P (s, ds) → Ends n (f s ds))
    → Ends n (or_panic m f)
or_panic-Ends n (returns {a = (s, ds)} h) k = k s ds h
or_panic-Ends n (panics e) k = (_, refl, panics e)

pub print_comptypes-Ends :
    (all : List Ty)
    → ((t : Ty) → contains t all ≡ true → Included (composites t) all)
    → (fuel i : ℕ) (out : Text) (cs : List Ty) → LeavesOpen 0 out
    → Distinct cs
    → Included cs all
    → i ≤ length cs
    → length all < fuel + i
    → Ends 0 (print_comptypes fuel i out cs)
unfolding print_comptypes
print_comptypes-Ends all nest zero i out cs bal d incl le enough =
    absurd (omega (arith, Distinct-length cs all d incl))
print_comptypes-Ends all nest (suc fuel) i out cs bal d incl le enough =
    elim (Option-cases (get_elem? cs i)) [
      | inl q ↦ rw (q, print_comptypes) (ok out, refl, returns bal)
      | inr (c, q) ↦
          rw (q, print_comptypes)
            (or_panic-Ends 0 ((round all cs i c nest incl q).run cs) λ s ds (b, x).
              let (inc, l) = extended all cs ds incl x in
              print_comptypes-Ends all nest fuel (suc i) (out ++ s) ds (grind (paren_rules, bal, b))
                (x.distinct d) inc (omega (arith, (get_elem?-contains cs i c q).1, l))
                (omega arith))
    ]
