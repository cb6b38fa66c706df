-- ===== src/Minimize/Chunks/Returns.antt =====
-- tooling/minimize/src/chunks.rs: marking returns where there are markers enough, and when the
-- parts of a type lie within it.
use mts_minirust_work.Prelude.{
  and_left, and_right, ℕ, zero, suc, ◌+◌, ◌≤◌, ◌≡◌, refl, ◌∙◌, Bool, true, false, ◌&&◌, [], ◌∷◌,
  leb, leb→le, arith, length,
}
use mts_minirust_work.Prelude.Outcome
use mts_minirust_work.Prelude.Outcome.{
  Outcome, ok, panic, Panic, AnyPanic, Post, returns, panics, Post-bind, Post-weaken,
}
use mts_minirust_work.Lang.Types.{
  Size, Offset, Cells, Discriminator, Children, no_children, child, Tagger, Ty, no_ty, some_ty,
  LayoutStrategy, Fields, no_fields, field, Variants, no_variants, variant,
}
use mts_minirust_work.Lang.Layout.{layout}
use mts_minirust_work.Minimize.Chunks.{
  Markers, slice_from, mark_size, mark_chunks, mark_tagger, mark_discriminator, mark_children,
}

abbrev pub Never : Panic → Type 0
Never e = ⊥

-- A function on markers that returns wherever there are `n` of them, as many as it was given.
pub record Returns (f : Markers → Outcome Markers) (n : ℕ) : Type 0 where
  pub run : (m : Markers) → n ≤ length m → Post (λ r. length r ≡ length m) Never (f m)

mark_size_run :
    (n : Size) (m : Markers) → n ≤ length m → Post (λ r. length r ≡ length m) Never (mark_size n m)
unfolding mark_size
mark_size_run zero m h = returns refl
mark_size_run (suc n) [] h = absurd (omega (arith, h))
mark_size_run (suc n) (b ∷ m) h =
    Post-bind (mark_size_run n m (omega (arith, h))) λ r l. returns (omega (arith, l))

pub mark_size-Returns : (n : Size) → Returns (mark_size n) n
mark_size-Returns n = record { run = mark_size_run n }

slice_from_run :
    (k : ℕ) {f : Markers → Outcome Markers} {n : ℕ}
    → Returns f n
    → (m : Markers) → k + n ≤ length m
    → Post (λ r. length r ≡ length m) Never (slice_from k f m)
unfolding slice_from
slice_from_run zero h m l = h.run m (omega (arith, l))
slice_from_run (suc k) h [] l = absurd (omega (arith, l))
slice_from_run (suc k) h (b ∷ m) l =
    Post-bind (slice_from_run k h m (omega (arith, l))) λ r q. returns (omega (arith, q))

pub within-Returns : {f : Markers → Outcome Markers} {n k : ℕ} → Returns f n → n ≤ k → Returns f k
within-Returns h l = record { run = λ m q. h.run m (omega (arith, l, q)) }

pub slice_from-Returns :
    (k : ℕ) {f : Markers → Outcome Markers} {n size : ℕ}
    → Returns f n
    → k + n ≤ size
    → Returns (slice_from k f) size
slice_from-Returns k h l = record { run = λ m q. slice_from_run k h m (omega (arith, l, q)) }

pub both-Returns :
    {f g : Markers → Outcome Markers} {n : ℕ}
    → Returns f n
    → Returns g n
    → Returns (λ m. Outcome.◌>>=◌ (f m) g) n
both-Returns hf hg = record {
  run = λ m l.
      Post-bind (hf.run m l) λ r q. Post-weaken (hg.run r (omega (arith, l, q))) λ s p. p ∙ q;
}

pub ok-Returns : (n : ℕ) → Returns ok n
ok-Returns n = record { run = λ m l. returns refl }

-- the parts of a type that lie within a size
abbrev pub fits_cells : Cells → Size → Bool
fits_cells [] size = true
fits_cells ((offset, len) ∷ cs) size = leb (offset + len) size && fits_cells cs size

abbrev pub fits_tagger : Tagger → Size → Bool
fits_tagger [] size = true
fits_tagger ((offset, (t, _)) ∷ ts) size = leb (offset + t.size) size && fits_tagger ts size

abbrev mutual
  pub fits_discriminator : Discriminator → Size → Bool
  fits_discriminator Discriminator.invalid size = true
  fits_discriminator (Discriminator.known _) size = true
  fits_discriminator (Discriminator.branch offset t fallback cs) size =
      leb (offset + t.size) size && (fits_discriminator fallback size && fits_children cs size)

  fits_children : Children → Size → Bool
  fits_children no_children size = true
  fits_children (child _ _ d cs) size = fits_discriminator d size && fits_children cs size

-- a sized layout that lies within a size, at an offset
abbrev pub fits_layout : Offset → Outcome LayoutStrategy → Size → Bool
fits_layout offset (ok (LayoutStrategy.sized s _)) size = leb (offset + s) size
fits_layout offset _ size = false

abbrev mutual
  -- Every part of the type lies within it, and none is unsized.
  pub fits : Ty → Bool
  fits (Ty.tuple fs head no_ty) = leb 1 head.align && fits_fields fs head.end
  fits (Ty.tuple _ _ (some_ty _)) = false
  fits (Ty.union _ chunks size _) = fits_cells chunks size
  fits (Ty.array elem _) = fits elem
  fits (Ty.enum vs _ d size _) = fits_variants vs size && fits_discriminator d size
  fits (Ty.slice _) = false
  fits (Ty.trait_object _) = false
  fits _ = true

  pub fits_fields : Fields → Size → Bool
  fits_fields no_fields size = true
  fits_fields (field offset ty fs) size =
      fits ty && (fits_layout offset (layout ty) size && fits_fields fs size)

  pub fits_variants : Variants → Size → Bool
  fits_variants no_variants size = true
  fits_variants (variant _ ty tagger vs) size =
      fits ty
      && (fits_layout 0 (layout ty) size && (fits_tagger tagger size && fits_variants vs size))

pub cells-Returns :
    (cs : Cells) (size : Size) → fits_cells cs size ≡ true → Returns (mark_chunks cs) size
unfolding mark_chunks
cells-Returns [] size h = ok-Returns size
cells-Returns ((offset, len) ∷ cs) size h =
    both-Returns
      (slice_from-Returns offset (mark_size-Returns len)
        (leb→le _ _ (and_left _ (fits_cells cs size) h)))
      (cells-Returns cs size (and_right (leb (offset + len) size) _ h))

pub tagger-Returns :
    (ts : Tagger) (size : Size) → fits_tagger ts size ≡ true → Returns (mark_tagger ts) size
unfolding mark_tagger
tagger-Returns [] size h = ok-Returns size
tagger-Returns ((offset, (t, _)) ∷ ts) size h =
    both-Returns
      (slice_from-Returns offset (mark_size-Returns t.size)
        (leb→le _ _ (and_left _ (fits_tagger ts size) h)))
      (tagger-Returns ts size (and_right (leb (offset + t.size) size) _ h))

mutual
  unfolding mark_discriminator

  pub discriminator-Returns :
      (d : Discriminator) (size : Size)
      → fits_discriminator d size ≡ true
      → Returns (mark_discriminator d) size
  discriminator-Returns Discriminator.invalid size h = ok-Returns size
  discriminator-Returns (Discriminator.known _) size h = ok-Returns size
  discriminator-Returns (Discriminator.branch offset t fallback cs) size h =
      let rest =
        and_right (leb (offset + t.size) size)
          (fits_discriminator fallback size && fits_children cs size) h in
      both-Returns
        (slice_from-Returns offset (mark_size-Returns t.size)
          (leb→le _ _ (and_left _ (fits_discriminator fallback size && fits_children cs size) h)))
        (both-Returns
          (discriminator-Returns fallback size (and_left _ (fits_children cs size) rest))
          (children-Returns cs size (and_right (fits_discriminator fallback size) _ rest)))

  children-Returns :
      (cs : Children) (size : Size) → fits_children cs size ≡ true → Returns (mark_children cs) size
  children-Returns no_children size h = ok-Returns size
  children-Returns (child _ _ d cs) size h =
      both-Returns (discriminator-Returns d size (and_left _ (fits_children cs size) h))
        (children-Returns cs size (and_right (fits_discriminator d size) _ h))
