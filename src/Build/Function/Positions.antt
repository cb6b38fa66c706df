-- ===== src/Build/Function/Positions.antt =====
-- tooling/miniutil/src/build/function.rs: what is found under the names that positions give.
use mts_minirust_work.Prelude.{
  ℕ, suc, ◌+◌, ◌-◌, ◌^◌, ◌≤◌, ◌<◌, ◌≡◌, refl, ◌∙◌, ap, List, [], ◌∷◌, Option, none, some,
  if◌then◌else◌, ltb, eqb_iff, arith, nat_eq, length, get_elem?,
}
use mts_minirust_work.Prelude.Maps.{get, insert, collect, get-insert}
use mts_minirust_work.Build.Function.{as_u32, enumerate, by_position}

step : (i j : ℕ) → i < j → j - i ≡ suc (j - suc i)
step i j h = omega arith

no_shift : (j : ℕ) → j - 0 ≡ j
no_shift j = omega arith

none_left : (i j : ℕ) → i ≡ j → j - i ≡ 0
none_left i j h = omega arith

module _ {A : Type 0} where
  abbrev or_else : Option A → Option A → Option A
  or_else none d = d
  or_else (some a) d = some a

  or_else_none : (o : Option A) → or_else o none ≡ o
  or_else_none none = refl
  or_else_none (some a) = refl

  get_elem?-next :
      (x : A) (xs : List A) (i j : ℕ)
      → i < j
      → get_elem? (x ∷ xs) (j - i) ≡ get_elem? xs (j - suc i)
  get_elem?-next x xs i j h = ap (get_elem? (x ∷ xs)) (step i j h)

  get_elem?-here : (x : A) (xs : List A) (i j : ℕ) → i ≡ j → get_elem? (x ∷ xs) (j - i) ≡ some x
  get_elem?-here x xs i j h = ap (get_elem? (x ∷ xs)) (none_left i j h)

  pub get-enumerate :
      (xs : List A) (i j : ℕ) (m : List (ℕ × A))
      → i + length xs ≤ 2 ^ 32
      → get j (collect (enumerate i xs) m)
        ≡ (if ltb j i then get j m else or_else (get_elem? xs (j - i)) (get j m))
  unfolding enumerate collect
  get-enumerate [] i j m h = ground arith
  get-enumerate (x ∷ xs) i j m h =
      let small : as_u32 i ≡ i = omega arith in
      get-enumerate xs (suc i) j (insert (as_u32 i) x m) (omega arith)
      ∙ rw (small, get-insert i j x m)
          (ground (arith, eqb_iff i j, get_elem?-next x xs i j, get_elem?-here x xs i j))

  -- For a slice of at most 2^32 elements, the map that `function` and `program_with_globals` make
  -- of it has, under each name, the element at that position, and nothing under the names from
  -- its length on.
  pub get-by_position :
      (xs : List A) (j : ℕ) → length xs ≤ 2 ^ 32 → get j (by_position xs) ≡ get_elem? xs j
  unfolding by_position get
  get-by_position xs j h =
      get-enumerate xs 0 j [] (omega arith)
      ∙ ground (arith, or_else_none (get_elem? xs (j - 0)), no_shift j)
