-- ===== src/Fmt/Text/Sorted.antt =====
-- tooling/miniutil/src/fmt: `sort` and `sort_by_key`, which print the entries of a map in the order
-- of their names.
use mts_minirust_work.Prelude.{
  ℕ, ◌+◌, ◌<◌, ◌≡◌, refl, ap, sym, subst, ltb, ltb→lt, eqb_iff, ◌∙◌, none, some, some_inj, nat_eq,
  ◌==◌, Bool, false, List, [], ◌∷◌, arith, Bool-cases, inl, inr, if◌then◌else◌, leb,
}
use mts_minirust_work.Prelude.Maps.{get}
use mts_minirust_work.Fmt.Text.{insert_sorted, sort, leb_key, sort_by_key}
use mts_minirust_work.Fmt.Text.Parens.{sum_by}

sum_by-insert_sorted {ℓ} :
    {A : Type ℓ} (f : A → ℕ) (le : A → A → Bool) (a : A) (xs : List A)
    → sum_by f (insert_sorted le a xs) ≡ f a + sum_by f xs
unfolding insert_sorted
sum_by-insert_sorted f le a [] = refl
sum_by-insert_sorted f le a (b ∷ bs) = elim (Bool-cases (le a b)) [
  | inl first ↦ rw first refl
  | inr later ↦ rw later (omega (arith, sum_by-insert_sorted f le a bs))
]

pub sum_by-sort {ℓ} :
    {A : Type ℓ} (f : A → ℕ) (le : A → A → Bool) (xs : List A) → sum_by f (sort le xs) ≡ sum_by f xs
unfolding sort
sum_by-sort f le [] = refl
sum_by-sort f le (x ∷ xs) =
    omega (arith, sum_by-insert_sorted f le x (sort le xs), sum_by-sort f le xs)

pub sum_by-sort_by_key {ℓ} :
    {V : Type ℓ} (f : ℕ × V → ℕ) (kvs : List (ℕ × V)) → sum_by f (sort_by_key kvs) ≡ sum_by f kvs
unfolding sort_by_key
sum_by-sort_by_key f kvs = sum_by-sort f leb_key kvs

-- Association lists whose keys are pairwise different, which maps are.
abbrev pub DistinctKeys {ℓ} : {V : Type ℓ} → List (ℕ × V) → Type ℓ
DistinctKeys [] = Unit
DistinctKeys ((k, v) ∷ m) = (get k m ≡ none) × DistinctKeys m

abbrev pub Above {ℓ} : {V : Type ℓ} → ℕ → List (ℕ × V) → Type 0
Above k [] = Unit
Above k ((j, v) ∷ m) = (k < j) × Above k m

-- Strictly ascending keys.
abbrev pub Ascending {ℓ} : {V : Type ℓ} → List (ℕ × V) → Type 0
Ascending [] = Unit
Ascending ((k, v) ∷ m) = Above k m × Ascending m

module _ {ℓ} {V : Type ℓ} where
  Above-trans : (j k : ℕ) (m : List (ℕ × V)) → j < k → Above k m → Above j m
  Above-trans j k [] l h = tt
  Above-trans j k ((i, v) ∷ m) l (h, hs) = (omega arith, Above-trans j k m l hs)

  Above-insert_sorted :
      (j k : ℕ) (v : V) (m : List (ℕ × V))
      → j < k
      → Above j m
      → Above j (insert_sorted leb_key (k, v) m)
  unfolding insert_sorted
  Above-insert_sorted j k v [] l h = (l, tt)
  Above-insert_sorted j k v ((i, w) ∷ m) l (h, hs) = elim (Bool-cases (leb k i)) [
    | inl first ↦ rw first (l, (h, hs))
    | inr later ↦ rw later (h, Above-insert_sorted j k v m l hs)
  ]

  Ascending-insert_sorted :
      (k : ℕ) (v : V) (m : List (ℕ × V))
      → get k m ≡ none
      → Ascending m
      → Ascending (insert_sorted leb_key (k, v) m)
  unfolding insert_sorted get
  Ascending-insert_sorted k v [] n a = (tt, tt)
  Ascending-insert_sorted k v ((i, w) ∷ m) n (h, a) = elim (Bool-cases (leb k i)) [
    | inl first ↦ let l : k < i = ground arith in rw first ((l, Above-trans k i m l h), (h, a))
    | inr later ↦ rw later (
      Above-insert_sorted i k v m (ground arith) h,
      Ascending-insert_sorted k v m (ground arith) a,
    )
  ]

  get-insert_sorted :
      (j k : ℕ) (v : V) (m : List (ℕ × V))
      → get k m ≡ none
      → get j (insert_sorted leb_key (k, v) m) ≡ get j ((k, v) ∷ m)
  unfolding insert_sorted get
  get-insert_sorted j k v [] n = refl
  get-insert_sorted j k v ((i, w) ∷ m) n = elim (Bool-cases (leb k i)) [
    | inl first ↦ rw first refl
    | inr later ↦ rw later (ground (arith, get-insert_sorted j k v m))
  ]

  get-sort : (j : ℕ) (m : List (ℕ × V)) → DistinctKeys m → get j (sort leb_key m) ≡ get j m
  unfolding sort get
  get-sort j [] d = refl
  get-sort j ((k, v) ∷ m) (n, d) =
      get-insert_sorted j k v (sort leb_key m) (get-sort k m d ∙ n)
      ∙ ap (λ o. if k == j then some v else o) (get-sort j m d)

  sort-Ascending : (m : List (ℕ × V)) → DistinctKeys m → Ascending (sort leb_key m)
  unfolding sort
  sort-Ascending [] d = tt
  sort-Ascending ((k, v) ∷ m) (n, d) =
      Ascending-insert_sorted k v (sort leb_key m) (get-sort k m d ∙ n) (sort-Ascending m d)

  Above-get : (k : ℕ) (m : List (ℕ × V)) → Above k m → get k m ≡ none
  unfolding get
  Above-get k [] h = refl
  Above-get k ((i, v) ∷ m) (h, hs) = ground (arith, Above-get k m hs)

  get-head : (k : ℕ) (v : V) (m : List (ℕ × V)) → get k ((k, v) ∷ m) ≡ some v
  unfolding get
  get-head k v m = ground arith

  -- A key below all those of the second list is in it, since it is in the first.
  no_key_below :
      (k j : ℕ) (v w : V) (m n : List (ℕ × V))
      → Above j n
      → ((i : ℕ) → get i ((k, v) ∷ m) ≡ get i ((j, w) ∷ n))
      → ltb k j ≡ false
  no_key_below k j v w m n a h = elim (Bool-cases (ltb k j)) [
    | inl below ↦
        let l = ltb→lt k j below in
        absurd (cc (h k, get-head k v m, Above-get k ((j, w) ∷ n) (l, Above-trans k j n l a)))
    | inr fine ↦ fine
  ]

  tails :
      (k i : ℕ) (v w : V) (m n : List (ℕ × V))
      → Above k m
      → Above k n
      → get i ((k, v) ∷ m) ≡ get i ((k, w) ∷ n)
      → get i m ≡ get i n
  unfolding get
  tails k i v w m n a b h = elim (Bool-cases (k == i)) [
    | inl same ↦
        let q = (eqb_iff k i).0 same in
        subst (λ x. get x m ≡ get x n) q (Above-get k m a ∙ sym (Above-get k n b))
    | inr other ↦ ground (arith, h)
  ]

  Ascending-unique :
      (m n : List (ℕ × V)) → Ascending m → Ascending n → ((i : ℕ) → get i m ≡ get i n) → m ≡ n
  Ascending-unique [] [] a b h = refl
  Ascending-unique [] ((j, w) ∷ n) a b h = absurd (cc (h j, get-head j w n, Above-get j [] tt))
  Ascending-unique ((k, v) ∷ m) [] a b h = absurd (cc (h k, get-head k v m, Above-get k [] tt))
  Ascending-unique ((k, v) ∷ m) ((j, w) ∷ n) (a, as2) (b, bs2) h =
      let e1 = no_key_below k j v w m n b h in
      let e2 = no_key_below j k w v n m a (λ i. sym (h i)) in
      let q : k ≡ j = ground arith in
      let b2 = subst (λ x. Above x n) (sym q) b in
      let h2 = subst (λ x. (i : ℕ) → get i ((k, v) ∷ m) ≡ get i ((x, w) ∷ n)) (sym q) h in
      let vw = some_inj (sym (get-head k v m) ∙ h2 k ∙ get-head k w n) in
      let rest = Ascending-unique m n as2 bs2 λ i. tails k i v w m n a b2 (h2 i) in cc

-- x
pub sort_by_key_unique {ℓ} :
    {V : Type ℓ} (m n : List (ℕ × V))
    → DistinctKeys m
    → DistinctKeys n
    → ((k : ℕ) → get k m ≡ get k n)
    → Ascending (sort_by_key m) × (sort_by_key m ≡ sort_by_key n)
unfolding sort_by_key
sort_by_key_unique m n d e h = (
  sort-Ascending m d,
  Ascending-unique (sort leb_key m) (sort leb_key n) (sort-Ascending m d) (sort-Ascending n e)
      λ k. get-sort k m d ∙ h k ∙ sym (get-sort k n e),
)
