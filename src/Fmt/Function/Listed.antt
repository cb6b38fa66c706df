-- ===== src/Fmt/Function/Listed.antt =====
-- tooling/miniutil/src/fmt/function.rs: the composite types that printing the functions lists.
use mts_minirust_work.Prelude.{
  ℕ, ◌≡◌, sym, subst, Bool, true, List, [], ◌∷◌, some, some_inj, nat_eq, ◌==◌, arith, All,
  Bool-cases, inl, inr, eqb_iff,
}
use mts_minirust_work.Prelude.Maps.{get}
use mts_minirust_work.Prelude.Positions.{Distinct, contains}
use mts_minirust_work.Prelude.Outcome.{AnyPanic, Post, Post-weaken, Post-both}
use mts_minirust_work.Lang.Types.{Ty}
use mts_minirust_work.Lang.Syntax.{FnName, LocalName, Function, Program}
use mts_minirust_work.Fmt.Text.{insert_sorted, sort, leb_key, sort_by_key}
use mts_minirust_work.Fmt.State.{ty_eq}
use mts_minirust_work.Fmt.State.Emits.{Emits-return, Emits-bind}
use mts_minirust_work.Fmt.State.Lists.{Lists, Lists-first, Lists-then, get_comptype_index-Lists}
use mts_minirust_work.Fmt.Ty.{fmt_composite, fmt_type}
use mts_minirust_work.Fmt.Ty.Printed.{IsComposite, head}
use mts_minirust_work.Fmt.Function.{fmt_locals, fmt_function, print_functions, fmt_functions}
use mts_minirust_work.Fmt.Function.Printed.{
  fmt_locals-Emits, fmt_blocks-Emits, print_functions-Emits, fmt_functions-Emits,
}

-- `a` stands in the list.
data In {ℓ} {A : Type ℓ} (a : A) : List A → Type ℓ where
  here : {xs : List A} → In a (a ∷ xs)
  there : {x : A} {xs : List A} → In a xs → In a (x ∷ xs)

behind_head {ℓ} :
    {A : Type ℓ} {a b x : A} {xs ys : List A}
    → (In a (b ∷ xs) → In a ys)
    → In a (b ∷ x ∷ xs)
    → In a (x ∷ ys)
behind_head f here = there (f here)
behind_head f (there here) = here
behind_head f (there (there h)) = there (f (there h))

module _ {ℓ} {A : Type ℓ} (le : A → A → Bool) where
  In-insert_sorted : {a b : A} (xs : List A) → In a (b ∷ xs) → In a (insert_sorted le b xs)
  unfolding insert_sorted
  In-insert_sorted [] h = h
  In-insert_sorted {b = b} (x ∷ xs) h = elim (Bool-cases (le b x)) [
    | inl first ↦ rw first h
    | inr later ↦ rw later (behind_head (In-insert_sorted xs) h)
  ]

  In-sort : {a : A} (xs : List A) → In a xs → In a (sort le xs)
  unfolding sort
  In-sort [] h = elim h [ ]
  In-sort (x ∷ xs) here = In-insert_sorted (sort le xs) here
  In-sort (x ∷ xs) (there h) = In-insert_sorted (sort le xs) (there (In-sort xs h))

get-In {ℓ} : {V : Type ℓ} (k : ℕ) (v : V) (m : List (ℕ × V)) → get k m ≡ some v → In (k, v) m
unfolding get
get-In k v [] h = absurd cc
get-In k v ((j, w) ∷ m) h = elim (Bool-cases (j == k)) [
  | inl same ↦
      let q = (eqb_iff j k).0 same in
      let r : w ≡ v = ground arith in subst (λ e. In e ((j, w) ∷ m)) (λ i. (q i, r i)) here
  | inr other ↦ there (get-In k v m (ground arith))
]

composite : (t u : Ty) → some t ≡ some u → Lists u (fmt_composite t)
composite t u h =
    subst (λ w. Lists w (fmt_composite t)) (some_inj h)
      (Lists-first t {S = λ _. Unit} {P = λ _. Unit} (get_comptype_index-Lists t)
        λ i. Emits-return _ tt)

fmt_type-Lists : (t u : Ty) → head t ≡ some u → Lists u (fmt_type t)
unfolding fmt_type head
fmt_type-Lists (Ty.tuple fs hd tail) u h = composite _ u h
fmt_type-Lists (Ty.union fs chunks size align) u h = composite _ u h
fmt_type-Lists (Ty.enum vs dt d size align) u h = composite _ u h
fmt_type-Lists (Ty.array elem n) u h =
    Lists-first u {S = λ _. Unit} {P = λ _. Unit} (fmt_type-Lists elem u h) λ e. Emits-return _ tt
fmt_type-Lists (Ty.slice elem) u h =
    Lists-first u {S = λ _. Unit} {P = λ _. Unit} (fmt_type-Lists elem u h) λ e. Emits-return _ tt
fmt_type-Lists (Ty.int t) u h = absurd cc
fmt_type-Lists (Ty.ptr p) u h = absurd cc
fmt_type-Lists Ty.bool u h = absurd cc
fmt_type-Lists (Ty.trait_object t) u h = absurd cc

fmt_locals-Lists :
    {l : LocalName} {ty : Ty} (locals : List (LocalName × Ty)) (u : Ty)
    → In (l, ty) locals
    → head ty ≡ some u
    → Lists u (fmt_locals locals)
unfolding fmt_locals
fmt_locals-Lists [] u g h = elim g [ ]
fmt_locals-Lists ((l, ty) ∷ locals) u here h =
    Lists-first u {P = λ _. Unit} (fmt_type-Lists ty u h)
      λ t. Emits-bind (fmt_locals-Emits locals) λ rest k. Emits-return _ tt
fmt_locals-Lists ((l, ty) ∷ locals) u (there g) h = Lists-then (fmt_type ty) u λ t.
    Lists-first u {S = λ _. Unit} {P = λ _. Unit} (fmt_locals-Lists locals u g h)
      λ rest. Emits-return _ tt

fmt_function-Lists :
    (name : FnName) (f : Function) (start : Bool) (l : LocalName) (ty u : Ty)
    → get l f.locals ≡ some ty
    → head ty ≡ some u
    → Lists u (fmt_function name f start)
unfolding fmt_function sort_by_key
fmt_function-Lists name f start l ty u g h =
    Lists-first u {P = λ _. Unit}
      (fmt_locals-Lists (sort_by_key f.locals) u (In-sort leb_key f.locals (get-In l ty f.locals g))
        h)
      λ ls. Emits-bind (fmt_blocks-Emits f.start (sort_by_key f.blocks)) λ bs k. Emits-return _ tt

print_functions-Lists :
    {name : FnName} {f : Function} (start : FnName) (fns : List (FnName × Function)) (l : LocalName)
    (ty u : Ty)
    → In (name, f) fns
    → get l f.locals ≡ some ty
    → head ty ≡ some u
    → Lists u (print_functions start fns)
unfolding print_functions
print_functions-Lists start [] l ty u i g h = elim i [ ]
print_functions-Lists start ((name, f) ∷ fns) l ty u here g h =
    Lists-first u {P = λ _. Unit} (fmt_function-Lists name f (start == name) l ty u g h)
      λ s. Emits-bind (print_functions-Emits start fns) λ rest k. Emits-return _ tt
print_functions-Lists start ((name, f) ∷ fns) l ty u (there i) g h =
    Lists-then (fmt_function name f (start == name)) u λ s.
      Lists-first u {S = λ _. Unit} {P = λ _. Unit} (print_functions-Lists start fns l ty u i g h)
        λ rest. Emits-return _ tt

-- For a local of a function of the program whose type is a composite type, or an array or slice
-- that comes down to one: where printing the functions does not panic, that composite type is in
-- the list of composite types afterwards, and the list has composite types only and none twice.
pub fmt_functions-comptypes :
    (prog : Program) (name : FnName) (f : Function) (l : LocalName) (ty u : Ty)
    → get name prog.functions ≡ some f
    → get l f.locals ≡ some ty
    → head ty ≡ some u
    → Post
        (λ (s, comptypes).
          Distinct comptypes × All IsComposite comptypes × (contains u comptypes ≡ true))
        AnyPanic
        (fmt_functions prog [])
unfolding fmt_functions sort_by_key
fmt_functions-comptypes prog name f l ty u i g h =
    let listed =
      (print_functions-Lists prog.start (sort_by_key prog.functions) l ty u
          (In-sort leb_key prog.functions (get-In name f prog.functions i)) g h).run
        [] in
    Post-weaken (Post-both ((fmt_functions-Emits prog).run []) listed)
      λ r ((b, x), c). (x.distinct tt, subst (All IsComposite) (sym x.at_end) x.found_all, c)
