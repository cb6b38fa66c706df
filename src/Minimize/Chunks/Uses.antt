-- ===== src/Minimize/Chunks/Uses.antt =====
-- The bytes of a type that are not padding: what tooling/minimize/src/chunks.rs marks.
use mts_minirust_work.Prelude.{
  ℕ, zero, suc, ◌-◌, ◌*◌, Bool, true, false, ◌&&◌, ◌||◌, [], ◌∷◌, ltb, leb,
}
use mts_minirust_work.Prelude.Outcome
use mts_minirust_work.Prelude.Outcome.{Outcome, ok, panic}
use mts_minirust_work.Lang.Types.{
  Size, Discriminator, Children, no_children, child, Tagger, Ty, PointerMetaKind, Fields, no_fields,
  field, Variants, no_variants, variant,
}
use mts_minirust_work.Lang.Layout.{layout, expect_size, ptr_size, ptr_meta_kind}
use mts_minirust_work.Minimize.Chunks.{steps}
use mts_minirust_work.Minimize.Chunks.Scan.{covers}

-- the bytes of a set, from `n` on
abbrev pub shift : ℕ → (ℕ → Bool) → ℕ → Bool
shift n used j = leb n j && used (j - n)

abbrev pub either : (ℕ → Bool) → (ℕ → Bool) → ℕ → Bool
either u v j = u j || v j

-- the bytes of an integer of a discriminator
abbrev mutual
  pub uses_discriminator : Discriminator → ℕ → Bool
  uses_discriminator Discriminator.invalid j = false
  uses_discriminator (Discriminator.known _) j = false
  uses_discriminator (Discriminator.branch offset t fallback cs) j =
      shift offset (λ k. ltb k t.size) j || (uses_discriminator fallback j || uses_children cs j)

  pub uses_children : Children → ℕ → Bool
  uses_children no_children j = false
  uses_children (child _ _ d cs) j = uses_discriminator d j || uses_children cs j

-- the bytes of a tagger
abbrev pub uses_tagger : Tagger → ℕ → Bool
uses_tagger [] j = false
uses_tagger ((offset, (t, _)) ∷ ts) j = shift offset (λ k. ltb k t.size) j || uses_tagger ts j

-- the bytes of `n` elements of size `s`, from the one with index `i` on
abbrev pub uses_elems : (ℕ → Bool) → Size → ℕ → ℕ → ℕ → Bool
uses_elems used s i zero j = false
uses_elems used s i (suc n) j = shift (i * s) used j || uses_elems used s (suc i) n j

-- the size of a type that has one
abbrev pub size_or_zero : Outcome Size → Size
size_or_zero (ok s) = s
size_or_zero (panic e) = 0

-- the bytes of a pointer, with its metadata
abbrev pub ptr_bytes : PointerMetaKind → Size
ptr_bytes PointerMetaKind.none = ptr_size
ptr_bytes _ = 2 * ptr_size

abbrev mutual
  -- The bytes of a type that are not padding.
  pub uses : Ty → ℕ → Bool
  uses (Ty.int t) j = ltb j t.size
  uses Ty.bool j = ltb j 1
  uses (Ty.ptr p) j = ltb j (ptr_bytes (ptr_meta_kind p))
  uses (Ty.tuple fs _ _) j = uses_fields fs j
  uses (Ty.union _ chunks _ _) j = covers chunks j
  uses (Ty.array elem count) j =
      uses_elems (λ k. uses elem k) (size_or_zero (Outcome.◌>>=◌ (layout elem) expect_size)) 0
        (steps count) j
  uses (Ty.enum vs _ d _ _) j = uses_variants vs j || uses_discriminator d j
  uses (Ty.slice _) j = false
  uses (Ty.trait_object _) j = false

  pub uses_fields : Fields → ℕ → Bool
  uses_fields no_fields j = false
  uses_fields (field offset ty fs) j = shift offset (λ k. uses ty k) j || uses_fields fs j

  pub uses_variants : Variants → ℕ → Bool
  uses_variants no_variants j = false
  uses_variants (variant _ ty tagger vs) j =
      uses ty j || (uses_tagger tagger j || uses_variants vs j)

abbrev pub is_thin_ptr : PointerMetaKind → Bool
is_thin_ptr PointerMetaKind.none = true
is_thin_ptr _ = false

abbrev mutual
  -- No part of the type is a pointer with metadata.
  pub is_thin : Ty → Bool
  is_thin (Ty.ptr p) = is_thin_ptr (ptr_meta_kind p)
  is_thin (Ty.tuple fs _ _) = thin_fields fs
  is_thin (Ty.array elem _) = is_thin elem
  is_thin (Ty.enum vs _ _ _ _) = thin_variants vs
  is_thin _ = true

  pub thin_fields : Fields → Bool
  thin_fields no_fields = true
  thin_fields (field _ ty fs) = is_thin ty && thin_fields fs

  pub thin_variants : Variants → Bool
  thin_variants no_variants = true
  thin_variants (variant _ ty _ vs) = is_thin ty && thin_variants vs
