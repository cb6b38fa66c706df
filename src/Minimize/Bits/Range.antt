-- ===== src/Minimize/Bits/Range.antt =====
-- tooling/minimize/src/enums.rs: which integers `int_from_bits` gives, against two's complement.
use native.Mathlib.Nat.{mod-lt, mod-eq_of_lt, one-le-pow}
use mts_minirust_work.Prelude.{
  ℕ, ◌+◌, ◌-◌, ◌*◌, ◌%◌, ◌^◌, ◌≤◌, ◌<◌, ◌≡◌, refl, ap, sym, ◌∙◌, ltb, Bool-cases, inl, inr, arith,
  if◌then◌else◌,
}
use mts_minirust_work.Prelude.Int.{ℤ, pos, negsuc}
use mts_minirust_work.Prelude.Outcome.{ok}
use mts_minirust_work.Lang.Types.{IntType, Signedness, signed, unsigned}
use mts_minirust_work.Minimize.Bits.{SizeOps, int_from_bits, from_low_bits}

-- the integers of so many bits
abbrev pub InRange : Signedness → ℕ → ℤ → Type 0
InRange unsigned bits (pos n) = n < 2 ^ bits
InRange unsigned bits (negsuc n) = 2 ^ bits ≤ 0
InRange signed bits (pos n) = 2 * n < 2 ^ bits
InRange signed bits (negsuc n) = 2 * (n + 1) ≤ 2 ^ bits

-- The integer differs from the word by a multiple of the power of two.
abbrev pub Represents : ℕ → ℕ → ℤ → Type 0
Represents bits word (pos n) = n ≡ word % 2 ^ bits
Represents bits word (negsuc n) = n + 1 + word % 2 ^ bits ≡ 2 ^ bits

low_fits : (bits word : ℕ) → word % 2 ^ bits < 2 ^ bits
low_fits bits word = mod-lt word (one-le-pow bits 2 (omega arith))

-- the integer that the low bits stand for in two's complement
abbrev pub twos_complement : ℕ → ℕ → ℤ
twos_complement bits word =
    if ltb (2 * (word % 2 ^ bits)) (2 ^ bits)
    then pos (word % 2 ^ bits)
    else negsuc (2 ^ bits - word % 2 ^ bits - 1)

-- What rustc documents of `truncate` and `sign_extend`, for a size of `bits`.
pub record Documented (ops : SizeOps) (bits : ℕ) : Type 0 where
  pub truncates : (word : ℕ) → ops.truncate bits word ≡ word % 2 ^ bits
  pub sign_extends : (word : ℕ) → ops.sign_extend bits word ≡ twos_complement bits word

from_low_bits_range :
    (ops : SizeOps) (s : Signedness) (bits word : ℕ)
    → Documented ops bits
    → InRange s bits (from_low_bits ops s bits word)
      × Represents bits word (from_low_bits ops s bits word)
from_low_bits_range ops unsigned bits word doc = rw (doc.truncates word) (low_fits bits word, refl)
from_low_bits_range ops signed bits word doc =
    elim (Bool-cases (ltb (2 * (word % 2 ^ bits)) (2 ^ bits))) [
      | inl small ↦ rw (doc.sign_extends word, small) (ground arith, refl)
      | inr large ↦
          let h = low_fits bits word in
          rw (doc.sign_extends word, large) (ground arith, ground arith)
    ]

-- An integer of so many bits is determined by what it represents.
one_integer :
    (s : Signedness) (bits word : ℕ) (i j : ℤ)
    → InRange s bits i
    → Represents bits word i
    → InRange s bits j
    → Represents bits word j
    → i ≡ j
one_integer s bits word (pos n) (pos m) r q t u = ap pos (q ∙ sym u)
one_integer unsigned bits word (pos n) (negsuc m) r q t u = absurd (omega arith)
one_integer signed bits word (pos n) (negsuc m) r q t u = absurd (omega arith)
one_integer unsigned bits word (negsuc n) (pos m) r q t u = absurd (omega arith)
one_integer signed bits word (negsuc n) (pos m) r q t u = absurd (omega arith)
one_integer s bits word (negsuc n) (negsuc m) r q t u = ap negsuc (omega arith)

-- For an integer type of at most 128 bits, with `truncate` and `sign_extend` as rustc documents
-- them, `int_from_bits` does not panic, and gives an integer of the type that differs from the
-- word by a multiple of two to the power of the number of bits.
pub int_from_bits_range :
    (ops : SizeOps) (word : ℕ) (ity : IntType)
    → Documented ops (ity.size * 8)
    → ity.size ≤ 16
    → (i : ℤ) × (int_from_bits ops word ity ≡ ok i)
      × InRange ity.signed (ity.size * 8) i
      × Represents (ity.size * 8) word i
unfolding int_from_bits
int_from_bits_range ops word ity doc h =
    let (r, q) = from_low_bits_range ops ity.signed (ity.size * 8) word doc in
    (from_low_bits ops ity.signed (ity.size * 8) word, ground arith, r, q)

-- two's complement
unfoldable pub to_bits : ℕ → ℤ → ℕ
to_bits bits (pos n) = n
to_bits bits (negsuc n) = 2 ^ bits - (n + 1)

to_bits-Represents :
    (s : Signedness) (bits : ℕ) (i : ℤ) → InRange s bits i → Represents bits (to_bits bits i) i
unfolding to_bits
to_bits-Represents unsigned bits (pos n) h = sym (mod-eq_of_lt h)
to_bits-Represents signed bits (pos n) h = sym (mod-eq_of_lt (omega arith))
to_bits-Represents unsigned bits (negsuc n) h =
    absurd (omega (arith, one-le-pow bits 2 (omega arith)))
to_bits-Represents signed bits (negsuc n) h =
    rw (mod-eq_of_lt {n = 2 ^ bits - (n + 1)} {m = 2 ^ bits} (omega arith)) (omega arith)

-- For an integer type of at most 128 bits, with `truncate` and `sign_extend` as rustc documents
-- them, `int_from_bits` gives an integer of the type back from its two's complement.
pub int_from_bits-to_bits :
    (ops : SizeOps) (ity : IntType) (i : ℤ)
    → Documented ops (ity.size * 8)
    → ity.size ≤ 16
    → InRange ity.signed (ity.size * 8) i
    → int_from_bits ops (to_bits (ity.size * 8) i) ity ≡ ok i
int_from_bits-to_bits ops ity i doc h r =
    let (j, q, t, u) = int_from_bits_range ops (to_bits (ity.size * 8) i) ity doc h in
    q
    ∙ ap ok (
        one_integer ity.signed (ity.size * 8) _ j i t u r
          (to_bits-Represents ity.signed (ity.size * 8) i r))
