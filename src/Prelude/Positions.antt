-- ===== src/Prelude/Positions.antt =====
-- `iter().position()`, and lists in which nothing stands twice.
use Prim.Native.Nat.{ℕ, zero, suc, ◌≤◌, ◌<◌}
use mathlib.Core.Path.{◌≡◌, refl}
use mathlib.Core.Logic.{◌≢◌}
use mathlib.Core.Bool.{Bool, true, false, ◌||◌}
use mathlib.Core.Option.{Option, none, some}
use mathlib.Core.List.{List, [], ◌∷◌, ◌++◌}
use native.Mathlib.Omega.{arith}
use mts_minirust_work.Prelude.Tests.{Eq, ◌==◌, if◌then◌else◌}
use mts_minirust_work.Prelude.Lists.{length, get_elem?, All}

abbrev next : Option ℕ → Option ℕ
next (some i) = some (suc i)
next none = none

module _ {ℓ} {A : Type ℓ} ⦃e : Eq A⦄ where
  -- the first place at which `a` stands
  unfoldable pub position : A → List A → Option ℕ
  position a [] = none
  position a (x ∷ xs) = if x == a then some 0 else next (position a xs)

  abbrev pub contains : A → List A → Bool
  contains a [] = false
  contains a (x ∷ xs) = if x == a then true else contains a xs

  -- Nothing stands twice in the list.
  abbrev pub Distinct : List A → Type 0
  Distinct [] = Unit
  Distinct (x ∷ xs) = (contains x xs ≡ false) × Distinct xs

  pub position_none : (a : A) (xs : List A) → position a xs ≡ none → contains a xs ≡ false
  unfolding position
  position_none a [] h = refl
  position_none a (x ∷ xs) h = ground (arith, position_none a xs)

  pub get_elem?-position :
      (a : A) (xs : List A) (i : ℕ) → position a xs ≡ some i → get_elem? xs i ≡ some a
  unfolding position
  get_elem?-position a [] i h = ground arith
  get_elem?-position a (x ∷ xs) zero h = ground (arith, e.same_iff x a)
  get_elem?-position a (x ∷ xs) (suc i) h =
      ground (arith, e.same_iff x a, get_elem?-position a xs i)

  contains-snoc :
      (a b : A) (xs : List A) → contains a xs ≡ false → a ≢ b → contains a (xs ++ (b ∷ [])) ≡ false
  contains-snoc a b [] h n = ground (arith, e.same_iff b a)
  contains-snoc a b (x ∷ xs) h n = ground (arith, contains-snoc a b xs)

  pub Distinct-snoc :
      (a : A) (xs : List A) → contains a xs ≡ false → Distinct xs → Distinct (xs ++ (a ∷ []))
  Distinct-snoc a [] h d = (refl, tt)
  Distinct-snoc a (x ∷ xs) h (g, d) =
      (contains-snoc x a xs g (ground (arith, e.same_iff x a)), Distinct-snoc a xs (ground arith) d)

  remove : A → List A → List A
  remove a [] = []
  remove a (x ∷ xs) = if x == a then xs else x ∷ remove a xs

  length-remove :
      (a : A) (xs : List A) → contains a xs ≡ true → suc (length (remove a xs)) ≡ length xs
  unfolding remove
  length-remove a [] h = ground arith
  length-remove a (x ∷ xs) h = ground (arith, length-remove a xs)

  contains-remove :
      (a b : A) (xs : List A) → contains b xs ≡ true → a ≢ b → contains b (remove a xs) ≡ true
  unfolding remove
  contains-remove a b [] h n = h
  contains-remove a b (x ∷ xs) h n =
      ground (arith, contains-remove a b xs, e.same_iff x a, e.same_iff x b)

  unfoldable pub Included : List A → List A → Type ℓ
  Included xs ys = (b : A) → contains b xs ≡ true → contains b ys ≡ true

  tail_Included :
      (x : A) (xs ys : List A)
      → contains x xs ≡ false
      → Included (x ∷ xs) ys
      → Included xs (remove x ys)
  unfolding Included
  tail_Included x xs ys h f b g =
      contains-remove x b ys (f b (ground arith)) (ground (arith, e.same_iff x b))

  -- A list without repetitions is no longer than a list that has all its members.
  pub Distinct-length : (xs ys : List A) → Distinct xs → Included xs ys → length xs ≤ length ys
  unfolding Included
  Distinct-length [] ys d f = omega arith
  Distinct-length (x ∷ xs) ys (h, d) f = omega (
    arith,
    Distinct-length xs (remove x ys) d (tail_Included x xs ys h f),
    length-remove x ys (f x (ground (arith, e.same_iff x x))),
  )

  pub contains-append :
      (a : A) (xs ys : List A) → contains a (xs ++ ys) ≡ contains a xs || contains a ys
  contains-append a [] ys = refl
  contains-append a (x ∷ xs) ys = ground (arith, contains-append a xs ys)

  pub get_elem?-contains :
      (xs : List A) (i : ℕ) (a : A)
      → get_elem? xs i ≡ some a
      → (contains a xs ≡ true) × (i < length xs)
  get_elem?-contains [] i a h = absurd cc
  get_elem?-contains (x ∷ xs) zero a h = ground (arith, e.same_iff x a)
  get_elem?-contains (x ∷ xs) (suc i) a h =
      let (c, l) = get_elem?-contains xs i a h in (ground arith, omega arith)

  pub Included-All : (xs ys : List A) → All (λ a. contains a ys ≡ true) xs → Included xs ys
  unfolding Included
  Included-All [] ys h b g = absurd cc
  Included-All (x ∷ xs) ys (h, hs) b g = ground (arith, e.same_iff x b, Included-All xs ys hs b)

  pub Included-append :
      (xs ys zs : List A) → Included xs zs → Included ys zs → Included (xs ++ ys) zs
  unfolding Included
  Included-append xs ys zs f g b h = ground (arith, contains-append b xs ys, f b, g b)

  pub position-snoc :
      (a : A) (xs : List A)
      → position a xs ≡ none
      → (position a (xs ++ (a ∷ [])) ≡ some (length xs))
        × (get_elem? (xs ++ (a ∷ [])) (length xs) ≡ some a)
  unfolding position
  position-snoc a [] h = ground (arith, e.same_iff a a)
  position-snoc a (x ∷ xs) h = let (p, g) = position-snoc a xs (ground arith) in (ground arith, g)
