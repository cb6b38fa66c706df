-- ===== src/Fmt/Ty/Nested.antt =====
-- tooling/miniutil/src/fmt/ty.rs: the composite types within a type, which printing its definition
-- can list.
use mts_minirust_work.Prelude.{
  ◌≡◌, ◌⊎◌, refl, true, List, [], ◌∷◌, ◌++◌, some, some_inj, arith, Bool-cases, inl, inr, ◌==◌,
  subst, sym, All,
}
use mts_minirust_work.Prelude.Positions.{contains, contains-append, Included}
use mts_minirust_work.Lang.Types.{
  Ty, OptTy, no_ty, some_ty, Fields, no_fields, Variants, no_variants,
}
use mts_minirust_work.Fmt.State.{ty_eq}
use mts_minirust_work.Fmt.Ty.Printed.{head, IsComposite, is_composite}

unfoldable mutual
  pub composites : Ty → List Ty
  composites (Ty.int t) = []
  composites Ty.bool = []
  composites (Ty.ptr p) = []
  composites (Ty.trait_object t) = []
  composites (Ty.array elem n) = composites elem
  composites (Ty.slice elem) = composites elem
  composites (Ty.tuple fs hd tail) =
      Ty.tuple fs hd tail ∷ (composites_fields fs ++ composites_tail tail)
  composites (Ty.union fs chunks size align) = Ty.union fs chunks size align ∷ composites_fields fs
  composites (Ty.enum vs dt d size align) = Ty.enum vs dt d size align ∷ composites_variants vs

  pub composites_fields : Fields → List Ty
  composites_fields no_fields = []
  composites_fields (Fields.field offset ty fs) = composites ty ++ composites_fields fs

  pub composites_tail : OptTy → List Ty
  composites_tail no_ty = []
  composites_tail (some_ty ty) = composites ty

  pub composites_variants : Variants → List Ty
  composites_variants no_variants = []
  composites_variants (Variants.variant d ty tagger vs) = composites ty ++ composites_variants vs

-- all that is nested in the types of a list
abbrev pub all_composites : List Ty → List Ty
all_composites [] = []
all_composites (c ∷ cs) = composites c ++ all_composites cs

-- `w` stands in `ws` whenever it is nested in `u`
abbrev pub Nests : Ty → List Ty → Type 0
Nests u ws = (w : Ty) → contains w (composites u) ≡ true → contains w ws ≡ true

left : (xs ys : List Ty) (u : Ty) → Nests u xs → Nests u (xs ++ ys)
left xs ys u f w h = ground (arith, contains-append w xs ys, f w h)

right : (xs ys : List Ty) (u : Ty) → Nests u ys → Nests u (xs ++ ys)
right xs ys u f w h = ground (arith, contains-append w xs ys, f w h)

-- `u` is the type itself, or nested further down.
at_top :
    (t u : Ty) (xs : List Ty)
    → composites t ≡ t ∷ xs
    → contains u (t ∷ xs) ≡ true
    → (contains u xs ≡ true → Nests u xs)
    → Nests u (t ∷ xs)
at_top t u xs e h f w g = elim (Bool-cases (t == u)) [
  | inl same ↦ let q = (ty_eq.same_iff t u).0 same in cc
  | inr below ↦ ground (arith, f (ground arith) w g)
]

split :
    (xs ys : List Ty) (u : Ty)
    → contains u (xs ++ ys) ≡ true
    → (contains u xs ≡ true) ⊎ (contains u ys ≡ true)
split xs ys u h = elim (Bool-cases (contains u xs)) [
  | inl here ↦ inl here
  | inr other ↦ inr (ground (arith, contains-append u xs ys))
]

mutual
  unfolding composites

  nested : (t u : Ty) → contains u (composites t) ≡ true → Nests u (composites t)
  nested (Ty.int t) u h = absurd cc
  nested Ty.bool u h = absurd cc
  nested (Ty.ptr p) u h = absurd cc
  nested (Ty.trait_object t) u h = absurd cc
  nested (Ty.array elem n) u h = nested elem u h
  nested (Ty.slice elem) u h = nested elem u h
  nested (Ty.tuple fs hd tail) u h = at_top (Ty.tuple fs hd tail) u _ refl h λ g.
      elim (split (composites_fields fs) (composites_tail tail) u g) [
        | inl a ↦ left _ _ u (nested_fields fs u a)
        | inr b ↦ right _ _ u (nested_tail tail u b)
      ]
  nested (Ty.union fs chunks size align) u h =
      at_top (Ty.union fs chunks size align) u _ refl h λ g. nested_fields fs u g
  nested (Ty.enum vs dt d size align) u h =
      at_top (Ty.enum vs dt d size align) u _ refl h λ g. nested_variants vs u g

  nested_fields :
      (fs : Fields) (u : Ty)
      → contains u (composites_fields fs) ≡ true
      → Nests u (composites_fields fs)
  nested_fields no_fields u h = absurd cc
  nested_fields (Fields.field offset ty fs) u h =
      elim (split (composites ty) (composites_fields fs) u h) [
        | inl a ↦ left _ _ u (nested ty u a)
        | inr b ↦ right _ _ u (nested_fields fs u b)
      ]

  nested_tail :
      (tail : OptTy) (u : Ty)
      → contains u (composites_tail tail) ≡ true
      → Nests u (composites_tail tail)
  nested_tail no_ty u h = absurd cc
  nested_tail (some_ty ty) u h = nested ty u h

  nested_variants :
      (vs : Variants) (u : Ty)
      → contains u (composites_variants vs) ≡ true
      → Nests u (composites_variants vs)
  nested_variants no_variants u h = absurd cc
  nested_variants (Variants.variant d ty tagger vs) u h =
      elim (split (composites ty) (composites_variants vs) u h) [
        | inl a ↦ left _ _ u (nested ty u a)
        | inr b ↦ right _ _ u (nested_variants vs u b)
      ]

pub composites_trans : (t u : Ty) → contains u (composites t) ≡ true → Nests u (composites t)
composites_trans t u h = nested t u h

same_self : (t : Ty) (xs : List Ty) → contains t (t ∷ xs) ≡ true
same_self t xs = ground (arith, ty_eq.same_iff t t)

pub head-composites : (t u : Ty) → head t ≡ some u → contains u (composites t) ≡ true
unfolding head composites
head-composites (Ty.tuple fs hd tail) u h =
    subst (λ w. contains w (composites (Ty.tuple fs hd tail)) ≡ true) (some_inj h) (same_self _ _)
head-composites (Ty.union fs chunks size align) u h =
    subst (λ w. contains w (composites (Ty.union fs chunks size align)) ≡ true) (some_inj h)
      (same_self _ _)
head-composites (Ty.enum vs dt d size align) u h =
    subst (λ w. contains w (composites (Ty.enum vs dt d size align)) ≡ true) (some_inj h)
      (same_self _ _)
head-composites (Ty.array elem n) u h = head-composites elem u h
head-composites (Ty.slice elem) u h = head-composites elem u h
head-composites (Ty.int t) u h = absurd cc
head-composites (Ty.ptr p) u h = absurd cc
head-composites Ty.bool u h = absurd cc
head-composites (Ty.trait_object t) u h = absurd cc

pub all_composites-Nests :
    (cs : List Ty) (t : Ty) → contains t (all_composites cs) ≡ true → Nests t (all_composites cs)
all_composites-Nests [] t h = absurd cc
all_composites-Nests (c ∷ cs) t h = elim (split (composites c) (all_composites cs) t h) [
  | inl a ↦ left _ _ t (composites_trans c t a)
  | inr b ↦ right _ _ t (all_composites-Nests cs t b)
]

composites_self : (t : Ty) → IsComposite t → contains t (composites t) ≡ true
unfolding is_composite composites
composites_self (Ty.tuple fs hd tail) h = same_self _ _
composites_self (Ty.union fs chunks size align) h = same_self _ _
composites_self (Ty.enum vs dt d size align) h = same_self _ _
composites_self (Ty.int t) h = absurd cc
composites_self (Ty.ptr p) h = absurd cc
composites_self Ty.bool h = absurd cc
composites_self (Ty.array elem n) h = absurd cc
composites_self (Ty.slice elem) h = absurd cc
composites_self (Ty.trait_object t) h = absurd cc

pub Included-all_composites : (cs : List Ty) → All IsComposite cs → Included cs (all_composites cs)
unfolding Included
Included-all_composites [] h u g = absurd cc
Included-all_composites (c ∷ cs) (h, hs) u g = elim (Bool-cases (c == u)) [
  | inl same ↦
      let q = (ty_eq.same_iff c u).0 same in
      left _ (all_composites cs) u (λ w k. rw q k) u (composites_self u (rw (sym q) h))
  | inr other ↦
      let below = Included-all_composites cs hs u (ground arith) in
      ground (arith, contains-append u (composites c) (all_composites cs))
]
