-- ===== src/Minimize/Cells/Exact.antt =====
-- tooling/minimize/src/ty.rs: which bytes `cells_in_sized_ty` gives.
use mts_minirust_work.Prelude.{
  ℕ, zero, suc, ◌-◌, ◌*◌, ◌≡◌, refl, ◌∙◌, Bool, true, false, ◌&&◌, ◌||◌, [], ◌∷◌, ◌++◌, ltb, eqb,
  eqb_iff, arith, and_left, and_right, Bool-cases, inl, inr, if◌then◌else◌,
}
use mts_minirust_work.Prelude.Outcome.{ok, Panic, unsupported, Post, returns, panics, Post-bind}
use mts_minirust_work.Lang.Types.{Size, Offset, Cells}
use mts_minirust_work.Minimize.Chunks.Scan.{covers}
use mts_minirust_work.Minimize.Chunks.Uses.{shift, uses_elems}
use mts_minirust_work.Minimize.Cells.{
  RsTy, RsFields, no_parts, part, move_cells, array_cells, cells_in_sized_ty, cells_in_parts,
}

abbrev mutual
  -- The bytes of a type that are in an `UnsafeCell`, or in a union or enum that is not `Freeze`.
  pub inside : RsTy → ℕ → Bool
  inside RsTy.scalar j = false
  inside (RsTy.parts fs) j = inside_parts fs j
  inside (RsTy.unsafe_cell size) j = ltb j size
  inside (RsTy.variants freeze size) j = if freeze then false else ltb j size
  inside (RsTy.array elem size count) j = uses_elems (λ k. inside elem k) size 0 count j
  inside RsTy.other j = false

  pub inside_parts : RsFields → ℕ → Bool
  inside_parts no_parts j = false
  inside_parts (part offset ty fs) j = shift offset (λ k. inside ty k) j || inside_parts fs j

abbrev mutual
  -- The type is `Freeze`: it has no such bytes.
  pub is_freeze : RsTy → Bool
  is_freeze (RsTy.parts fs) = freeze_parts fs
  is_freeze (RsTy.unsafe_cell _) = false
  is_freeze (RsTy.variants freeze _) = freeze
  is_freeze (RsTy.array elem _ _) = is_freeze elem
  is_freeze _ = true

  pub freeze_parts : RsFields → Bool
  freeze_parts no_parts = true
  freeze_parts (part _ ty fs) = is_freeze ty && freeze_parts fs

abbrev mutual
  -- Every array has `Freeze` elements, or two elements.
  pub in_pairs : RsTy → Bool
  in_pairs (RsTy.parts fs) = parts_in_pairs fs
  in_pairs (RsTy.array elem _ count) = in_pairs elem && (is_freeze elem || eqb count 2)
  in_pairs _ = true

  pub parts_in_pairs : RsFields → Bool
  parts_in_pairs no_parts = true
  parts_in_pairs (part _ ty fs) = in_pairs ty && parts_in_pairs fs

abbrev pub IsUnsupported : Panic → Type 0
IsUnsupported e = e ≡ unsupported

-- Cells that are exactly the bytes of a set.
abbrev pub Exactly : (ℕ → Bool) → Cells → Type 0
Exactly used cs = (j : ℕ) → covers cs j ≡ used j

covers-append : (xs ys : Cells) (j : ℕ) → covers (xs ++ ys) j ≡ (covers xs j || covers ys j)
covers-append [] ys j = refl
covers-append ((start, len) ∷ xs) ys j = ground (arith, covers-append xs ys j)

covers-move_cells :
    (offset : Offset) (cs : Cells) (j : ℕ)
    → covers (move_cells offset cs) j ≡ shift offset (covers cs) j
unfolding move_cells
covers-move_cells offset [] j = ground arith
covers-move_cells offset ((start, len) ∷ cs) j = ground (arith, covers-move_cells offset cs j)

times_zero : (n : ℕ) → n * 0 ≡ 0
times_zero n = omega arith

times_one : (n : ℕ) → n * 1 ≡ n
times_one n = omega arith

two_places :
    (range : Cells) (size j : ℕ)
    → covers (move_cells (size * 0) range ++ (move_cells (size * 1) range ++ [])) j
      ≡ (shift 0 (covers range) j || shift size (covers range) j)
two_places range size j =
    rw (times_zero size, times_one size)
      (ground (
        arith,
        covers-append (move_cells 0 range) (move_cells size range ++ []) j,
        covers-append (move_cells size range) [] j,
        covers-move_cells 0 range j,
        covers-move_cells size range j,
      ))

-- The cells of an array are those of its first two elements, whatever the count.
covers-array_cells :
    (range : Cells) (size : Size) (count j : ℕ)
    → covers (array_cells range size count) j
      ≡ (shift 0 (covers range) j || shift size (covers range) j)
unfolding array_cells
covers-array_cells [] size count j = ground arith
covers-array_cells (c ∷ range) size count j = two_places (c ∷ range) size j

zero_times : (n : ℕ) → 0 * n ≡ 0
zero_times n = omega arith

one_times : (n : ℕ) → 1 * n ≡ n
one_times n = omega arith

parts_exact :
    {P Q : ℕ → Bool} (offset : Offset) (xs ys : Cells)
    → Exactly P xs
    → Exactly Q ys
    → Exactly (λ j. shift offset P j || Q j) (move_cells offset xs ++ ys)
parts_exact offset xs ys p q j =
    covers-append (move_cells offset xs) ys j
    ∙ ground (arith, covers-move_cells offset xs j, p (j - offset), q j)

pair_exact :
    {P : ℕ → Bool} (xs : Cells) (size count : ℕ)
    → Exactly P xs
    → eqb count 2 ≡ true
    → Exactly (λ j. uses_elems P size 0 count j) (array_cells xs size count)
pair_exact {P} xs size count p two j = rw ((eqb_iff count 2).0 two) (
    covers-array_cells xs size 2 j
    ∙ rw (zero_times size, one_times size) (ground (arith, p (j - 0), p (j - size))))

variants_exact :
    (freeze : Bool) (size : Size)
    → Post
        (Exactly (λ j. if freeze then false else ltb j size))
        IsUnsupported
        (cells_in_sized_ty (RsTy.variants freeze size))
unfolding cells_in_sized_ty
variants_exact true size = returns (λ j. refl)
variants_exact false size = returns (λ j. ground arith)

none_used :
    {P : ℕ → Bool} (size i n j : ℕ) → ((k : ℕ) → P k ≡ false) → uses_elems P size i n j ≡ false
none_used size i zero j h = refl
none_used size i (suc n) j h = ground (arith, h (j - i * size), none_used size (suc i) n j h)

mutual
  freeze_outside : (ty : RsTy) (j : ℕ) → is_freeze ty ≡ true → inside ty j ≡ false
  freeze_outside RsTy.scalar j h = refl
  freeze_outside (RsTy.parts fs) j h = freeze_parts_outside fs j h
  freeze_outside (RsTy.unsafe_cell size) j h = absurd cc
  freeze_outside (RsTy.variants freeze size) j h = rw h refl
  freeze_outside (RsTy.array elem size count) j h =
      none_used size 0 count j (λ k. freeze_outside elem k h)
  freeze_outside RsTy.other j h = refl

  freeze_parts_outside :
      (fs : RsFields) (j : ℕ) → freeze_parts fs ≡ true → inside_parts fs j ≡ false
  freeze_parts_outside no_parts j h = refl
  freeze_parts_outside (part offset ty fs) j h = ground (
    arith,
    freeze_outside ty (j - offset) (and_left (is_freeze ty) (freeze_parts fs) h),
    freeze_parts_outside fs j (and_right (is_freeze ty) (freeze_parts fs) h),
  )

array_exact :
    (elem : RsTy) (xs : Cells) (size count : ℕ)
    → Exactly (inside elem) xs
    → (is_freeze elem || eqb count 2) ≡ true
    → Exactly (λ j. uses_elems (λ k. inside elem k) size 0 count j) (array_cells xs size count)
array_exact elem xs size count p h j = elim (Bool-cases (is_freeze elem)) [
  | inl freeze ↦
      covers-array_cells xs size count j
      ∙ ground (
        arith,
        p (j - 0),
        p (j - size),
        freeze_outside elem (j - 0) freeze,
        freeze_outside elem (j - size) freeze,
        none_used {P = λ k. inside elem k} size 0 count j (λ k. freeze_outside elem k freeze),
      )
  | inr not_freeze ↦ pair_exact xs size count p (rw not_freeze at h) j
]

mutual
  unfolding cells_in_sized_ty

  ty_exact :
      (ty : RsTy)
      → in_pairs ty ≡ true
      → Post (Exactly (inside ty)) IsUnsupported (cells_in_sized_ty ty)
  ty_exact RsTy.scalar h = returns (λ j. refl)
  ty_exact (RsTy.parts fs) h = fields_exact fs h
  ty_exact (RsTy.unsafe_cell size) h = returns (λ j. ground arith)
  ty_exact (RsTy.variants freeze size) h = variants_exact freeze size
  ty_exact (RsTy.array elem size count) h =
      Post-bind (ty_exact elem (and_left (in_pairs elem) (is_freeze elem || eqb count 2) h))
        λ cs exact. returns (
          array_exact elem cs size count exact
            (and_right (in_pairs elem) (is_freeze elem || eqb count 2) h))
  ty_exact RsTy.other h = panics refl

  fields_exact :
      (fs : RsFields)
      → parts_in_pairs fs ≡ true
      → Post (Exactly (inside_parts fs)) IsUnsupported (cells_in_parts fs)
  fields_exact no_parts h = returns (λ j. refl)
  fields_exact (part offset ty fs) h =
      Post-bind (ty_exact ty (and_left (in_pairs ty) (parts_in_pairs fs) h)) λ cs p.
        Post-bind (fields_exact fs (and_right (in_pairs ty) (parts_in_pairs fs) h))
          λ ds q. returns (parts_exact offset cs ds p q)

-- For a type in which every array has `Freeze` elements or two elements, `cells_in_sized_ty`
-- gives exactly the bytes that are in an `UnsafeCell`, or in a union or enum that is not
-- `Freeze`; it panics only on a kind of type that it does not support.
pub cells_in_sized_ty_lem :
    (ty : RsTy)
    → in_pairs ty ≡ true
    → Post (Exactly (inside ty)) IsUnsupported (cells_in_sized_ty ty)
cells_in_sized_ty_lem ty h = ty_exact ty h

-- For an array of any count of `UnsafeCell`s of some size, the bytes that `cells_in_sized_ty`
-- gives are those below twice the size.
pub cells_in_sized_ty-array :
    (size count : ℕ)
    → (cs : Cells) × (cells_in_sized_ty (RsTy.array (RsTy.unsafe_cell size) size count) ≡ ok cs)
      × ((j : ℕ) → covers cs j ≡ ltb j (2 * size))
unfolding cells_in_sized_ty
cells_in_sized_ty-array size count = (
  array_cells ((0, size) ∷ []) size count,
  refl,
  λ j. covers-array_cells ((0, size) ∷ []) size count j ∙ ground arith,
)
