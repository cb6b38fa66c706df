-- ===== src/Minimize/Chunks/Fits.antt =====
-- tooling/minimize/src/chunks.rs: chunks are computed without a panic, for types whose parts lie
-- within them, as the rules of spec/lang/well-formed.md ask.
use native.Mathlib.Nat.{mod-lt, div-add-mod', add-mul, suc-mul, mul_comm}
use mts_minirust_work.Prelude.{
  and_left, and_right, ℕ, zero, suc, ◌+◌, ◌-◌, ◌*◌, ◌≤◌, ◌≡◌, refl, sym, ap, subst, true, false,
  ◌&&◌, leb, leb→le, arith, replicate, length-replicate,
}
use mts_minirust_work.Prelude.Int.{ℤ, pos, negsuc}
use mts_minirust_work.Prelude.Outcome
use mts_minirust_work.Prelude.Outcome.{
  Outcome, ok, panic, Panic, AnyPanic, Post, returns, panics, Post-bind, Post-weaken,
}
use mts_minirust_work.Lang.Types.{
  Size, Align, Offset, Cells, Ty, no_ty, some_ty, PointerMetaKind, TupleHeadLayout, LayoutStrategy,
  Fields, no_fields, field, Variants, no_variants, variant,
}
use mts_minirust_work.Lang.Layout.{
  layout, layout_tuple, int_align, expect_size, expect_align, mul_size, ptr_layout, ptr_size,
  ptr_meta_kind, align_to, head_size_and_align,
}
use mts_minirust_work.Lang.WellFormed.{check_cells}
use mts_minirust_work.Minimize.Chunks.{
  Markers, mark_size, mark_chunks, mark_discriminator, mark_elems, steps, mark_used_bytes,
  mark_fields, mark_variants, calc_chunks,
}
use mts_minirust_work.Minimize.Chunks.Scan.{covers}
use mts_minirust_work.Minimize.Chunks.Uses.{uses_fields, thin_fields}
use mts_minirust_work.Minimize.Chunks.Marks.{calc_chunks_lem}
use mts_minirust_work.Minimize.Chunks.Returns.{
  Never, Returns, mark_size-Returns, within-Returns, slice_from-Returns, both-Returns, ok-Returns,
  fits_tagger, fits_layout, cells-Returns, tagger-Returns, discriminator-Returns,
  fits_discriminator, fits, fits_fields, fits_variants,
}

first_elem : (i n s : ℕ) → i * s + s ≤ (i + suc n) * s
first_elem i n s = omega (arith, add-mul i (suc n) s, suc-mul n s)

next_elem : (i n s : ℕ) → (suc i + n) * s ≡ (i + suc n) * s
next_elem i n s = ap (λ k. k * s) (omega arith)

elems-Returns :
    (f : Markers → Outcome Markers) (s i n size : ℕ)
    → Returns f s
    → (i + n) * s ≤ size
    → Returns (mark_elems f (ok s) i n) size
unfolding mark_elems
elems-Returns f s i zero size h l = ok-Returns size
elems-Returns f s i (suc n) size h l =
    both-Returns (slice_from-Returns (i * s) h (omega (arith, l, first_elem i n s)))
      (elems-Returns f s (suc i) n size h (omega (arith, l, next_elem i n s)))

-- where a layout is sized
layout_within :
    (offset : Offset) (o : Outcome LayoutStrategy) (size : Size)
    → fits_layout offset o size ≡ true
    → (s : Size) × (a : Align) × (o ≡ ok (LayoutStrategy.sized s a)) × (offset + s ≤ size)
layout_within offset (ok (LayoutStrategy.sized s a)) size h = (s, a, refl, leb→le _ _ h)
layout_within offset (ok (LayoutStrategy.slice s a)) size h = absurd cc
layout_within offset (ok (LayoutStrategy.trait_object t)) size h = absurd cc
layout_within offset (ok (LayoutStrategy.tuple x y)) size h = absurd cc
layout_within offset (panic e) size h = absurd cc

int_size :
    (o : Outcome Align) (n s : Size) (a : Align)
    → Outcome.◌>>=◌ o (λ b. ok (LayoutStrategy.sized n b)) ≡ ok (LayoutStrategy.sized s a)
    → n ≡ s
int_size (ok b) n s a h = cc
int_size (panic e) n s a h = absurd cc

same_size :
    {s t : Size} {a b : Align}
    → ok (LayoutStrategy.sized s a) ≡ ok (LayoutStrategy.sized t b)
    → s ≡ t
same_size h = cc

ptr_size_within :
    (m : PointerMetaKind) (s : Size) (a : Align)
    → ok (ptr_layout m) ≡ ok (LayoutStrategy.sized s a)
    → ptr_size ≤ s
unfolding ptr_layout
ptr_size_within PointerMetaKind.none s a h = omega (arith, same_size h)
ptr_size_within PointerMetaKind.element_count s a h = omega (arith, same_size h)
ptr_size_within (PointerMetaKind.vtable_pointer t) s a h = omega (arith, same_size h)

align_to-above : (n a : ℕ) → 1 ≤ a → n ≤ align_to n a
unfolding align_to
align_to-above n a h = omega (arith, div-add-mod' (n + (a - 1)) a, mod-lt (n + (a - 1)) h)

zero_left : (n : ℕ) → 0 + n ≡ n
zero_left n = omega arith

array_size :
    (o : Outcome LayoutStrategy) (count : ℤ) (s : Size) (a : Align)
    → Outcome.◌>>=◌ o (λ l. Outcome.◌>>=◌ (expect_size l) (λ size.
      Outcome.◌>>=◌
        (mul_size size count)
        (λ total. Outcome.◌>>=◌ (expect_align l) (λ align. ok (LayoutStrategy.sized total align)))))
      ≡ ok (LayoutStrategy.sized s a)
    → (es : Size) × (ea : Align) × (o ≡ ok (LayoutStrategy.sized es ea))
      × ((0 + steps count) * es ≤ s)
unfolding expect_size expect_align
array_size (ok (LayoutStrategy.sized es ea)) (pos n) s a h =
    (es, ea, refl, omega (arith, same_size h, mul_comm es n, ap (λ k. k * es) (zero_left n)))
array_size (ok (LayoutStrategy.sized es ea)) (negsuc n) s a h = (es, ea, refl, omega arith)
array_size (ok (LayoutStrategy.slice es ea)) count s a h = absurd cc
array_size (ok (LayoutStrategy.trait_object t)) count s a h = absurd cc
array_size (ok (LayoutStrategy.tuple x y)) count s a h = absurd cc
array_size (panic e) count s a h = absurd cc

-- the markers that an enum of a size needs: the variant's own size is that of the enum at most
tuple_size :
    (head : TupleHeadLayout) (s : Size) (a : Align)
    → layout_tuple no_ty head ≡ ok (LayoutStrategy.sized s a)
    → leb 1 head.align ≡ true
    → head.end ≤ s
unfolding layout_tuple head_size_and_align
tuple_size head s a h l =
    omega (arith, same_size h, align_to-above head.end head.align (leb→le 1 head.align l))

mutual
  unfolding mark_used_bytes mark_fields mark_variants layout

  ty-Returns :
      (ty : Ty) (s : Size) (a : Align)
      → fits ty ≡ true
      → layout ty ≡ ok (LayoutStrategy.sized s a)
      → Returns (mark_used_bytes ty) s
  ty-Returns (Ty.int t) s a h l =
      subst (Returns (mark_size t.size)) (int_size (int_align t) t.size s a l)
        (mark_size-Returns t.size)
  ty-Returns Ty.bool s a h l = subst (Returns (mark_size 1)) (same_size l) (mark_size-Returns 1)
  ty-Returns (Ty.ptr p) s a h l =
      within-Returns (mark_size-Returns ptr_size) (ptr_size_within (ptr_meta_kind p) s a l)
  ty-Returns (Ty.tuple fs head no_ty) s a h l =
      within-Returns
        (fields-Returns fs head.end (and_right (leb 1 head.align) (fits_fields fs head.end) h))
        (tuple_size head s a l (and_left (leb 1 head.align) (fits_fields fs head.end) h))
  ty-Returns (Ty.tuple _ _ (some_ty _)) s a h l = absurd cc
  ty-Returns (Ty.union _ chunks size _) s a h l =
      subst (Returns (mark_chunks chunks)) (same_size l) (cells-Returns chunks size h)
  ty-Returns (Ty.array elem count) s a h l =
      let (es, ea, e, enough) = array_size (layout elem) count s a l in
      subst
        (λ o.
          Returns
            (mark_elems (λ r. mark_used_bytes elem r) (Outcome.◌>>=◌ o expect_size) 0 (steps count))
            s)
        (sym e)
        (elems-Returns (λ r. mark_used_bytes elem r) es 0 (steps count) s
          (ty-Returns elem es ea h e) enough)
  ty-Returns (Ty.enum vs _ d size _) s a h l =
      subst (Returns (λ m. Outcome.◌>>=◌ (mark_variants vs m) (mark_discriminator d))) (same_size l)
        (both-Returns
          (variants-Returns vs size
            (and_left (fits_variants vs size) (fits_discriminator d size) h))
          (discriminator-Returns d size
            (and_right (fits_variants vs size) (fits_discriminator d size) h)))
  ty-Returns (Ty.slice _) s a h l = absurd cc
  ty-Returns (Ty.trait_object _) s a h l = absurd cc

  fields-Returns :
      (fs : Fields) (size : Size) → fits_fields fs size ≡ true → Returns (mark_fields fs) size
  fields-Returns no_fields size h = ok-Returns size
  fields-Returns (field offset ty fs) size h =
      let rest =
        and_right (fits ty) (fits_layout offset (layout ty) size && fits_fields fs size) h in
      let (s, a, e, l) =
        layout_within offset (layout ty) size
          (and_left (fits_layout offset (layout ty) size) (fits_fields fs size) rest) in
      both-Returns
        (slice_from-Returns offset
          (ty-Returns ty s a
            (and_left (fits ty) (fits_layout offset (layout ty) size && fits_fields fs size) h) e)
          l)
        (fields-Returns fs size
          (and_right (fits_layout offset (layout ty) size) (fits_fields fs size) rest))

  variants-Returns :
      (vs : Variants) (size : Size) → fits_variants vs size ≡ true → Returns (mark_variants vs) size
  variants-Returns no_variants size h = ok-Returns size
  variants-Returns (variant _ ty tagger vs) size h =
      let inner = fits_tagger tagger size && fits_variants vs size in
      let rest = and_right (fits ty) (fits_layout 0 (layout ty) size && inner) h in
      let (s, a, e, l) =
        layout_within 0 (layout ty) size (and_left (fits_layout 0 (layout ty) size) inner rest) in
      let last = and_right (fits_layout 0 (layout ty) size) inner rest in
      both-Returns
        (within-Returns
          (ty-Returns ty s a (and_left (fits ty) (fits_layout 0 (layout ty) size && inner) h) e)
          (omega (arith, l)))
        (both-Returns
          (tagger-Returns tagger size
            (and_left (fits_tagger tagger size) (fits_variants vs size) last))
          (variants-Returns vs size
            (and_right (fits_tagger tagger size) (fits_variants vs size) last)))

-- an outcome that never panics is there, with what holds of it
pub returned :
    {A : Type 0} {P Q : A → Type 0} {m : Outcome A}
    → Post P Never m
    → Post Q AnyPanic m
    → (a : A) × (m ≡ ok a) × Q a
returned (returns {a = a} p) (returns q) = (a, refl, q)
returned (panics e) q = absurd e

pub calc_chunks-returns :
    (fs : Fields) (size : Size)
    → fits_fields fs size ≡ true
    → Post (λ cs. Unit) Never (calc_chunks fs size)
unfolding calc_chunks
calc_chunks-returns fs size h =
    Post-bind
      ((fields-Returns fs size h).run (replicate size false)
        (omega (arith, length-replicate size false)))
      λ m l. returns tt

-- For a union whose fields lie within its size, with the parts of their types within those types,
-- and none of them a pointer with metadata, `calc_chunks` does not panic. Its chunks have exactly
-- the bytes that are part of some field and not padding, and they are in order, disjoint and
-- within the size of the union.
pub calc_chunks-fits :
    (fs : Fields) (size : Size)
    → fits_fields fs size ≡ true
    → thin_fields fs ≡ true
    → (cs : Cells) × (calc_chunks fs size ≡ ok cs)
      × ((j : ℕ) → covers cs j ≡ uses_fields fs j)
      × (check_cells 0 cs size ≡ true)
calc_chunks-fits fs size h thin =
    let (cs, e, (exact, ordered)) =
      returned (calc_chunks-returns fs size h) (calc_chunks_lem fs size thin) in
    (cs, e, exact, ordered)
