-- ===== src/Minimize/Chunks/Marks.antt =====
-- tooling/minimize/src/chunks.rs: what marking does to the markers, and the chunks it leads to.
use mts_minirust_work.Prelude.{
  and_left, and_right, ℕ, zero, suc, ◌+◌, ◌-◌, ◌*◌, ◌≡◌, refl, ◌∙◌, ap, subst, Bool, true, false,
  ◌&&◌, ◌||◌, [], ◌∷◌, ◌++◌, none, ltb, leb, eqb_iff, arith, length, replicate, length-replicate,
}
use mts_minirust_work.Prelude.Outcome
use mts_minirust_work.Prelude.Outcome.{
  Outcome, ok, panic, Panic, AnyPanic, Post, returns, panics, Post-bind, Post-weaken, out_of_bounds,
  unsized_type,
}
use mts_minirust_work.Lang.Types.{
  Size, Cells, Discriminator, Children, no_children, child, Tagger, Ty, no_ty, some_ty, Fields,
  no_fields, field, Variants, no_variants, variant,
}
use mts_minirust_work.Lang.Layout.{ptr_size, ptr_meta_kind}
use mts_minirust_work.Lang.WellFormed.{check_cells}
use mts_minirust_work.Minimize.Chunks.{
  Markers, slice_from, mark_size, mark_chunks, mark_tagger, mark_discriminator, mark_children,
  mark_elems, steps, mark_used_bytes, mark_fields, mark_variants, scan, calc_chunks,
}
use mts_minirust_work.Lang.Types.{PointerMetaKind}
use mts_minirust_work.Minimize.Chunks.Uses.{
  shift, either, uses_discriminator, uses_children, uses_tagger, uses_elems, size_or_zero,
  ptr_bytes, uses, uses_fields, uses_variants, is_thin_ptr, is_thin, thin_fields, thin_variants,
}
use mts_minirust_work.Minimize.Chunks.Scan.{marker_at, covers, covers-scan, check_cells-scan}

-- Markers that have the bytes of a set as well.
abbrev With : (ℕ → Bool) → ℕ → Markers → Markers → Type 0
With used i m m' =
    (length m' ≡ length m) × ((j : ℕ) → marker_at i m' j ≡ (marker_at i m j || shift i used j))

-- A function that marks exactly the bytes of a set, wherever the markers stand.
pub record Marks (f : Markers → Outcome Markers) (used : ℕ → Bool) : Type 0 where
  pub run : (i : ℕ) (m : Markers) → Post (With used i m) AnyPanic (f m)

mark_size_run :
    (n : Size) (i : ℕ) (m : Markers) → Post (With (λ j. ltb j n) i m) AnyPanic (mark_size n m)
unfolding mark_size
mark_size_run zero i m = returns (refl, λ j. ground arith)
mark_size_run (suc n) i [] = panics tt
mark_size_run (suc n) i (b ∷ m) =
    Post-bind (mark_size_run n (suc i) m)
      λ r (l, h). returns (omega (arith, l), λ j. ground (arith, h j, eqb_iff i j))

pub mark_size-Marks : (n : Size) → Marks (mark_size n) (λ j. ltb j n)
mark_size-Marks n = record { run = mark_size_run n }

no_shift : (k : ℕ) → k - 0 ≡ k
no_shift k = omega arith

moved : (n i j : ℕ) → j - suc i - n ≡ j - i - suc n
moved n i j = omega arith

shift_zero : (used : ℕ → Bool) (i j : ℕ) → shift i used j ≡ shift i (shift 0 used) j
shift_zero used i j = ground (arith, no_shift (j - i))

shift-suc :
    (used : ℕ → Bool) (n i j : ℕ) → shift (suc i) (shift n used) j ≡ shift i (shift (suc n) used) j
shift-suc used n i j = ground (arith, ap used (moved n i j))

slice_from_run :
    (n : ℕ) {f : Markers → Outcome Markers} {used : ℕ → Bool}
    → Marks f used
    → (i : ℕ) (m : Markers) → Post (With (shift n used) i m) AnyPanic (slice_from n f m)
unfolding slice_from
slice_from_run zero {used = used} h i m =
    Post-weaken (h.run i m)
      λ r (l, q). (l, λ j. q j ∙ ap (λ x. marker_at i m j || x) (shift_zero used i j))
slice_from_run (suc n) h i [] = panics tt
slice_from_run (suc n) {used = used} h i (b ∷ m) =
    Post-bind (slice_from_run n h (suc i) m) λ r (l, q).
      returns (omega (arith, l), λ j. ground (arith, q j, shift-suc used n i j, eqb_iff i j))

pub slice_from-Marks :
    (n : ℕ) {f : Markers → Outcome Markers} {used : ℕ → Bool}
    → Marks f used
    → Marks (slice_from n f) (shift n used)
slice_from-Marks n h = record { run = slice_from_run n h }

-- One after the other marks both sets.
pub both-Marks :
    {f g : Markers → Outcome Markers} {u v : ℕ → Bool}
    → Marks f u
    → Marks g v
    → Marks (λ m. Outcome.◌>>=◌ (f m) g) (either u v)
both-Marks hf hg = record {
  run = λ i m.
      Post-bind (hf.run i m)
        λ r (l, q). Post-weaken (hg.run i r) λ s (k, p). (k ∙ l, λ j. ground (arith, p j, q j));
}

pub nothing-Marks : Marks ok (λ j. false)
nothing-Marks = record { run = λ i m. returns (refl, λ j. ground arith) }

refused-Marks : {e : Panic} {u : ℕ → Bool} → Marks (λ m. panic e) u
refused-Marks = record { run = λ i m. panics tt }

mutual
  unfolding mark_discriminator

  mark_discriminator-Marks :
      (d : Discriminator) → Marks (mark_discriminator d) (uses_discriminator d)
  mark_discriminator-Marks Discriminator.invalid = nothing-Marks
  mark_discriminator-Marks (Discriminator.known _) = nothing-Marks
  mark_discriminator-Marks (Discriminator.branch offset t fallback cs) =
      both-Marks (slice_from-Marks offset (mark_size-Marks t.size))
        (both-Marks (mark_discriminator-Marks fallback) (mark_children-Marks cs))

  mark_children-Marks : (cs : Children) → Marks (mark_children cs) (uses_children cs)
  mark_children-Marks no_children = nothing-Marks
  mark_children-Marks (child _ _ d cs) =
      both-Marks (mark_discriminator-Marks d) (mark_children-Marks cs)

mark_tagger-Marks : (ts : Tagger) → Marks (mark_tagger ts) (uses_tagger ts)
unfolding mark_tagger
mark_tagger-Marks [] = nothing-Marks
mark_tagger-Marks ((offset, (t, _)) ∷ ts) =
    both-Marks (slice_from-Marks offset (mark_size-Marks t.size)) (mark_tagger-Marks ts)

covered_range :
    (offset len j : ℕ) → shift offset (λ k. ltb k len) j ≡ (leb offset j && ltb j (offset + len))
covered_range offset len j = ground arith

same-Marks :
    {f : Markers → Outcome Markers} {u v : ℕ → Bool} → ((j : ℕ) → u j ≡ v j) → Marks f u → Marks f v
same-Marks e h = record {
  run = λ i m.
      Post-weaken (h.run i m)
        λ r (l, q). (l, λ j. q j ∙ ap (λ x. marker_at i m j || (leb i j && x)) (e (j - i)));
}

mark_chunks-Marks : (cs : Cells) → Marks (mark_chunks cs) (covers cs)
unfolding mark_chunks
mark_chunks-Marks [] = nothing-Marks
mark_chunks-Marks ((offset, len) ∷ cs) =
    same-Marks (λ j. ap (λ x. x || covers cs j) (covered_range offset len j))
      (both-Marks (slice_from-Marks offset (mark_size-Marks len)) (mark_chunks-Marks cs))

mark_elems-Marks :
    (f : Markers → Outcome Markers) (used : ℕ → Bool) (size : Outcome Size) (i n : ℕ)
    → Marks f used
    → Marks (mark_elems f size i n) (uses_elems used (size_or_zero size) i n)
unfolding mark_elems
mark_elems-Marks f used size i zero h = nothing-Marks
mark_elems-Marks f used (panic e) i (suc n) h = refused-Marks
mark_elems-Marks f used (ok s) i (suc n) h =
    both-Marks (slice_from-Marks (i * s) h) (mark_elems-Marks f used (ok s) (suc i) n h)

ptr-Marks :
    (m : PointerMetaKind)
    → is_thin_ptr m ≡ true
    → Marks (mark_size ptr_size) (λ j. ltb j (ptr_bytes m))
ptr-Marks PointerMetaKind.none h = mark_size-Marks ptr_size
ptr-Marks PointerMetaKind.element_count h = absurd cc
ptr-Marks (PointerMetaKind.vtable_pointer t) h = absurd cc

mutual
  unfolding mark_used_bytes mark_fields mark_variants

  Marks-ty : (ty : Ty) → is_thin ty ≡ true → Marks (mark_used_bytes ty) (uses ty)
  Marks-ty (Ty.int t) h = mark_size-Marks t.size
  Marks-ty Ty.bool h = mark_size-Marks 1
  Marks-ty (Ty.ptr p) h = ptr-Marks (ptr_meta_kind p) h
  Marks-ty (Ty.tuple fs _ no_ty) h = mark_fields-Marks fs h
  Marks-ty (Ty.tuple _ _ (some_ty _)) h = refused-Marks
  Marks-ty (Ty.union _ chunks _ _) h = mark_chunks-Marks chunks
  Marks-ty (Ty.array elem count) h = mark_elems-Marks _ _ _ 0 (steps count) (Marks-ty elem h)
  Marks-ty (Ty.enum vs _ d _ _) h =
      both-Marks (mark_variants-Marks vs h) (mark_discriminator-Marks d)
  Marks-ty (Ty.slice _) h = refused-Marks
  Marks-ty (Ty.trait_object _) h = refused-Marks

  pub mark_fields-Marks :
      (fs : Fields) → thin_fields fs ≡ true → Marks (mark_fields fs) (uses_fields fs)
  mark_fields-Marks no_fields h = nothing-Marks
  mark_fields-Marks (field offset ty fs) h =
      both-Marks (slice_from-Marks offset (Marks-ty ty (and_left (is_thin ty) (thin_fields fs) h)))
        (mark_fields-Marks fs (and_right (is_thin ty) (thin_fields fs) h))

  mark_variants-Marks :
      (vs : Variants) → thin_variants vs ≡ true → Marks (mark_variants vs) (uses_variants vs)
  mark_variants-Marks no_variants h = nothing-Marks
  mark_variants-Marks (variant _ ty tagger vs) h =
      both-Marks (Marks-ty ty (and_left (is_thin ty) (thin_variants vs) h)) (
        both-Marks (mark_tagger-Marks tagger)
          (mark_variants-Marks vs (and_right (is_thin ty) (thin_variants vs) h)))

-- For a type without pointers that have metadata: where `mark_used_bytes` does not panic, it
-- keeps the number of the markers, and marks the bytes of the type that are not padding and no
-- others; what was marked before stays marked.
pub mark_used_bytes-Marks : (ty : Ty) → is_thin ty ≡ true → Marks (mark_used_bytes ty) (uses ty)
mark_used_bytes-Marks ty h = Marks-ty ty h

unmarked : (n i j : ℕ) → marker_at i (replicate n false) j ≡ false
unmarked zero i j = refl
unmarked (suc n) i j = ground (arith, unmarked n (suc i) j, eqb_iff i j)

sum : (m : Markers) (n : ℕ) → length m ≡ n → 0 + length m ≡ n
sum m n h = omega (arith, h)

-- Where marking the fields marks the bytes of a set, and `calc_chunks` does not panic, its chunks
-- have exactly those bytes, and they are in order, disjoint and within the size of the union.
pub calc_chunks_of :
    (fs : Fields) (size : Size) (used : ℕ → Bool)
    → Marks (mark_fields fs) used
    → Post
        (λ cs. ((j : ℕ) → covers cs j ≡ used j) × (check_cells 0 cs size ≡ true))
        AnyPanic
        (calc_chunks fs size)
unfolding calc_chunks
calc_chunks_of fs size used marks = Post-bind (marks.run 0 (replicate size false)) λ m (l, h).
    returns (
      (λ j.
          covers-scan m 0 none j tt
          ∙ h j
          ∙ ground (arith, unmarked size 0 j, ap used (no_shift j))),
      subst (λ n. check_cells 0 (scan 0 none (m ++ false ∷ [])) n ≡ true)
          (sum m size (l ∙ length-replicate size false))
          (check_cells-scan m 0 none 0 tt (omega arith)),
    )

-- The chunks of fields without pointers that have metadata.
pub calc_chunks_lem :
    (fs : Fields) (size : Size)
    → thin_fields fs ≡ true
    → Post
        (λ cs. ((j : ℕ) → covers cs j ≡ uses_fields fs j) × (check_cells 0 cs size ≡ true))
        AnyPanic
        (calc_chunks fs size)
calc_chunks_lem fs size thin = calc_chunks_of fs size (uses_fields fs) (mark_fields-Marks fs thin)
