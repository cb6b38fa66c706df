-- ===== src/Minimize/Chunks.antt =====
-- tooling/minimize/src/chunks.rs: the chunks of a union, which are the bytes of its fields that
-- are not padding. A write out of range is a panic.
pub mod Scan
pub mod Uses
pub mod Marks
pub mod Returns
pub mod Fits
pub mod Wide
use mts_minirust_work.Prelude.{
  ℕ, zero, suc, ◌+◌, ◌-◌, ◌*◌, Bool, true, false, List, [], ◌∷◌, ◌++◌, Option, none, some,
  replicate, nat_eq,
}
use mts_minirust_work.Prelude.Int.{ℤ, pos, negsuc}
use mts_minirust_work.Prelude.Outcome.{Outcome, ok, panic, ◌>>=◌, out_of_bounds, unsized_type}
use mts_minirust_work.Lang.Types.{
  Size, Offset, Cells, IntType, Discriminator, Children, no_children, child, Tagger, Ty, OptTy,
  no_ty, some_ty, Fields, no_fields, field, Variants, no_variants, variant,
}
use mts_minirust_work.Lang.Layout.{layout, expect_size, ptr_size}

abbrev pub Markers : Type 0
Markers = List Bool

-- `&mut markers[offset..]`: the rest of the markers is changed in place.
unfoldable pub slice_from : ℕ → (Markers → Outcome Markers) → Markers → Outcome Markers
slice_from zero f m = f m
slice_from (suc n) f [] = panic out_of_bounds
slice_from (suc n) f (b ∷ m) = do rest ← slice_from n f m; ok (b ∷ rest)

unfoldable pub mark_size : Size → Markers → Outcome Markers
mark_size zero m = ok m
mark_size (suc n) [] = panic out_of_bounds
mark_size (suc n) (b ∷ m) = do rest ← mark_size n m; ok (true ∷ rest)

-- the loop over the chunks of a union
unfoldable pub mark_chunks : Cells → Markers → Outcome Markers
unfolding slice_from mark_size
mark_chunks [] m = ok m
mark_chunks ((offset, len) ∷ cs) m = do m' ← slice_from offset (mark_size len) m; mark_chunks cs m'

-- the loop over a tagger
unfoldable pub mark_tagger : Tagger → Markers → Outcome Markers
unfolding slice_from mark_size
mark_tagger [] m = ok m
mark_tagger ((offset, (ity, _)) ∷ ts) m = do
  m' ← slice_from offset (mark_size ity.size) m
  mark_tagger ts m'

unfoldable mutual
  unfolding slice_from mark_size

  pub mark_discriminator : Discriminator → Markers → Outcome Markers
  mark_discriminator Discriminator.invalid m = ok m
  mark_discriminator (Discriminator.known _) m = ok m
  mark_discriminator (Discriminator.branch offset value_type fallback children) m = do
    m₁ ← slice_from offset (mark_size value_type.size) m
    m₂ ← mark_discriminator fallback m₁
    mark_children children m₂

  pub mark_children : Children → Markers → Outcome Markers
  mark_children no_children m = ok m
  mark_children (child _ _ d cs) m = do m' ← mark_discriminator d m; mark_children cs m'

-- the loop over the elements of an array, from the one at index `i`
unfoldable pub mark_elems :
    (Markers → Outcome Markers) → Outcome Size → ℕ → ℕ → Markers → Outcome Markers
unfolding slice_from
mark_elems mark size i zero m = ok m
mark_elems mark size i (suc n) m = do
  s ← size
  m' ← slice_from (i * s) mark m
  mark_elems mark size (suc i) n m'

-- `Int::ZERO..count` as a number of steps
abbrev pub steps : ℤ → ℕ
steps (pos n) = n
steps (negsuc _) = 0

unfoldable mutual
  unfolding slice_from mark_size mark_chunks mark_tagger mark_discriminator mark_elems layout
      expect_size

  pub mark_used_bytes : Ty → Markers → Outcome Markers
  mark_used_bytes (Ty.int t) m = mark_size t.size m
  mark_used_bytes Ty.bool m = mark_size 1 m
  mark_used_bytes (Ty.ptr _) m = mark_size ptr_size m
  mark_used_bytes (Ty.tuple sized_fields _ no_ty) m = mark_fields sized_fields m
  mark_used_bytes (Ty.tuple _ _ (some_ty _)) m = panic unsized_type
  mark_used_bytes (Ty.union _ chunks _ _) m = mark_chunks chunks m
  mark_used_bytes (Ty.array elem count) m =
      mark_elems (λ r. mark_used_bytes elem r) (layout elem >>= expect_size) 0 (steps count) m
  mark_used_bytes (Ty.enum variants _ discriminator _ _) m = do
    m' ← mark_variants variants m
    mark_discriminator discriminator m'
  mark_used_bytes (Ty.slice _) m = panic unsized_type
  mark_used_bytes (Ty.trait_object _) m = panic unsized_type

  -- the loop over fields, of a tuple or a union
  pub mark_fields : Fields → Markers → Outcome Markers
  mark_fields no_fields m = ok m
  mark_fields (field offset ty fs) m = do
    m' ← slice_from offset (λ r. mark_used_bytes ty r) m
    mark_fields fs m'

  pub mark_variants : Variants → Markers → Outcome Markers
  mark_variants no_variants m = ok m
  mark_variants (variant _ ty tagger vs) m = do
    m₁ ← mark_used_bytes ty m
    m₂ ← mark_tagger tagger m₁
    mark_variants vs m₂

-- the loop over the markers, at index `i`, with the start of the current chunk
unfoldable pub scan : ℕ → Option ℕ → Markers → Cells
scan i cur [] = []
scan i none (true ∷ m) = scan (suc i) (some i) m
scan i none (false ∷ m) = scan (suc i) none m
scan i (some s) (true ∷ m) = scan (suc i) (some s) m
scan i (some s) (false ∷ m) = (s, i - s) ∷ scan (suc i) none m

unfoldable pub calc_chunks : Fields → Size → Outcome Cells
unfolding mark_fields scan
calc_chunks fields size = do
  m ← mark_fields fields (replicate size false)
  ok (scan 0 none (m ++ false ∷ []))
