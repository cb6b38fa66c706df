-- ===== src/Minimize/Chunks/Wide.antt =====
-- tooling/minimize/src/chunks.rs: the chunks of a union with fields that are pointers with
-- metadata, of which half of the bytes are marked.
use mts_minirust_work.Prelude.{
  and_left, and_right, ℕ, ◌-◌, ◌*◌, ◌≡◌, refl, sym, ◌∙◌, ap, Bool, true, false, ◌&&◌, ◌||◌, ltb,
  leb, arith,
}
use mts_minirust_work.Prelude.Outcome.{ok}
use mts_minirust_work.Lang.Types.{Size, Cells, Ty, PointerMetaKind, Fields, no_fields, field}
use mts_minirust_work.Lang.Layout.{ptr_size, ptr_meta_kind}
use mts_minirust_work.Lang.WellFormed.{check_cells}
use mts_minirust_work.Minimize.Chunks.{mark_used_bytes, mark_fields, calc_chunks}
use mts_minirust_work.Minimize.Chunks.Uses.{shift, ptr_bytes, uses, uses_fields, is_thin}
use mts_minirust_work.Minimize.Chunks.Scan.{covers}
use mts_minirust_work.Minimize.Chunks.Marks.{
  Marks, mark_size-Marks, slice_from-Marks, both-Marks, nothing-Marks, mark_used_bytes-Marks,
  calc_chunks_of,
}
use mts_minirust_work.Minimize.Chunks.Returns.{fits_fields}
use mts_minirust_work.Minimize.Chunks.Fits.{returned, calc_chunks-returns}

-- the bytes of the metadata of a pointer
abbrev pub metadata_bytes : PointerMetaKind → ℕ → Bool
metadata_bytes PointerMetaKind.none k = false
metadata_bytes _ k = leb ptr_size k && ltb k (2 * ptr_size)

-- The metadata of a field that is a pointer.
abbrev pub metadata : Ty → ℕ → Bool
metadata (Ty.ptr p) k = metadata_bytes (ptr_meta_kind p) k
metadata _ k = false

-- the metadata of the fields that are pointers
abbrev pub metadata_fields : Fields → ℕ → Bool
metadata_fields no_fields j = false
metadata_fields (field offset ty fs) j = shift offset (metadata ty) j || metadata_fields fs j

-- The bytes of a field that are not padding, but for the metadata of a pointer.
abbrev pub narrow : Ty → ℕ → Bool
narrow (Ty.ptr _) k = ltb k ptr_size
narrow ty k = uses ty k

abbrev pub narrow_fields : Fields → ℕ → Bool
narrow_fields no_fields j = false
narrow_fields (field offset ty fs) j = shift offset (narrow ty) j || narrow_fields fs j

-- Pointers with metadata are fields themselves, and not within one.
abbrev pub is_shallow : Ty → Bool
is_shallow (Ty.ptr _) = true
is_shallow ty = is_thin ty

abbrev pub shallow_fields : Fields → Bool
shallow_fields no_fields = true
shallow_fields (field _ ty fs) = is_shallow ty && shallow_fields fs

narrow-Marks : (ty : Ty) → is_shallow ty ≡ true → Marks (mark_used_bytes ty) (narrow ty)
unfolding mark_used_bytes
narrow-Marks (Ty.ptr p) h = mark_size-Marks ptr_size
narrow-Marks (Ty.int t) h = mark_used_bytes-Marks (Ty.int t) h
narrow-Marks Ty.bool h = mark_used_bytes-Marks Ty.bool h
narrow-Marks (Ty.tuple fs a t) h = mark_used_bytes-Marks (Ty.tuple fs a t) h
narrow-Marks (Ty.array e n) h = mark_used_bytes-Marks (Ty.array e n) h
narrow-Marks (Ty.union fs cs s a) h = mark_used_bytes-Marks (Ty.union fs cs s a) h
narrow-Marks (Ty.enum vs t d s a) h = mark_used_bytes-Marks (Ty.enum vs t d s a) h
narrow-Marks (Ty.slice e) h = mark_used_bytes-Marks (Ty.slice e) h
narrow-Marks (Ty.trait_object t) h = mark_used_bytes-Marks (Ty.trait_object t) h

narrow_fields-Marks :
    (fs : Fields) → shallow_fields fs ≡ true → Marks (mark_fields fs) (narrow_fields fs)
unfolding mark_fields
narrow_fields-Marks no_fields h = nothing-Marks
narrow_fields-Marks (field offset ty fs) h =
    both-Marks
      (slice_from-Marks offset (narrow-Marks ty (and_left (is_shallow ty) (shallow_fields fs) h)))
      (narrow_fields-Marks fs (and_right (is_shallow ty) (shallow_fields fs) h))

halves :
    (m : PointerMetaKind) (k : ℕ) → ltb k (ptr_bytes m) ≡ (ltb k ptr_size || metadata_bytes m k)
halves PointerMetaKind.none k = ground arith
halves PointerMetaKind.element_count k = ground arith
halves (PointerMetaKind.vtable_pointer t) k = ground arith

nothing_more : (b : Bool) → b ≡ (b || false)
nothing_more true = refl
nothing_more false = refl

split : (ty : Ty) (k : ℕ) → uses ty k ≡ (narrow ty k || metadata ty k)
split (Ty.ptr p) k = halves (ptr_meta_kind p) k
split (Ty.int t) k = nothing_more _
split Ty.bool k = nothing_more _
split (Ty.tuple fs a t) k = nothing_more _
split (Ty.array e n) k = nothing_more _
split (Ty.union fs cs s a) k = nothing_more _
split (Ty.enum vs t d s a) k = nothing_more _
split (Ty.slice e) k = nothing_more _
split (Ty.trait_object t) k = nothing_more _

split_fields :
    (fs : Fields) (j : ℕ) → uses_fields fs j ≡ (narrow_fields fs j || metadata_fields fs j)
split_fields no_fields j = refl
split_fields (field offset ty fs) j = ground (arith, split ty (j - offset), split_fields fs j)

-- For a union whose fields lie within its size, and in which pointers with metadata are only
-- fields themselves, any number of them at any offsets: `calc_chunks` does not panic. Its chunks
-- have exactly the first half of each such pointer and the bytes of the other fields that are not
-- padding, and are in order, disjoint and within the size. So the bytes of the fields that are
-- not padding are those of the chunks and those of the metadata, which is in a chunk only where
-- another part of a field overlaps it.
pub calc_chunks-wide :
    (fs : Fields) (size : Size)
    → fits_fields fs size ≡ true
    → shallow_fields fs ≡ true
    → (cs : Cells) × (calc_chunks fs size ≡ ok cs)
      × ((j : ℕ) → covers cs j ≡ narrow_fields fs j)
      × ((j : ℕ) → uses_fields fs j ≡ (covers cs j || metadata_fields fs j))
      × (check_cells 0 cs size ≡ true)
calc_chunks-wide fs size h shallow =
    let marks = narrow_fields-Marks fs shallow in
    let (cs, e, (exact, ordered)) =
      returned (calc_chunks-returns fs size h) (calc_chunks_of fs size (narrow_fields fs) marks) in
    (
      cs,
      e,
      exact,
      (λ j. split_fields fs j ∙ ap (λ b. b || metadata_fields fs j) (sym (exact j))),
      ordered,
    )
