-- ===== src/Fmt/Text/Decimal.antt =====
-- tooling/miniutil/src/fmt: a printed number can be read back from the start of a text.
use mts_minirust_work.Prelude.{
  ℕ, zero, suc, ◌+◌, ◌-◌, ◌*◌, ◌/◌, ◌%◌, ◌<◌, ◌≡◌, ◌∙◌, ap, refl, Bool, true, ◌&&◌, [], ◌∷◌, ◌++◌,
  arith, ltb, leb, if◌then◌else◌, Bool-cases, inl, inr,
}
use mts_minirust_work.Fmt.Text.{Text, digits, show}

abbrev pub is_digit : ℕ → Bool
is_digit c = leb b'0' c && leb c b'9'

-- Reads the digits at the start of a text, after those that gave `n`.
unfoldable pub scan : ℕ → Text → ℕ × Text
scan n [] = (n, [])
scan n (c ∷ s) = let rest = scan (n * 10 + (c - b'0')) s in if is_digit c then rest else (n, c ∷ s)

scan_digit : (n d : ℕ) (s : Text) → d < 10 → scan n ((b'0' + d) ∷ s) ≡ scan (n * 10 + d) s
unfolding scan
scan_digit n d s h =
    let q : is_digit (b'0' + d) ≡ true = ground arith in rw q (ap (λ m. scan m s) (omega arith))

scan-digits : (fuel n : ℕ) (out : Text) → n < fuel → scan 0 (digits fuel n out) ≡ scan n out
unfolding digits
scan-digits zero n out h = absurd (omega arith)
scan-digits (suc fuel) n out h = elim (Bool-cases (ltb n 10)) [
  | inl small ↦ rw small (scan_digit 0 n out (ground arith) ∙ ap (λ m. scan m out) (omega arith))
  | inr large ↦ rw large (
      scan-digits fuel (n / 10) ((b'0' + n % 10) ∷ out) (ground arith)
      ∙ scan_digit (n / 10) (n % 10) out (omega arith)
      ∙ ap (λ m. scan m out) (omega arith))
]

digits-append : (fuel n : ℕ) (out s : Text) → digits fuel n out ++ s ≡ digits fuel n (out ++ s)
unfolding digits
digits-append zero n out s = refl
digits-append (suc fuel) n out s = elim (Bool-cases (ltb n 10)) [
  | inl small ↦ rw small refl
  | inr large ↦ rw large (digits-append fuel (n / 10) ((b'0' + n % 10) ∷ out) s)
]

-- A number that is printed in front of `s` is read from there.
pub scan-show : (n : ℕ) (s : Text) → scan 0 (show n ++ s) ≡ scan n s
unfolding show
scan-show n s = ap (scan 0) (digits-append (suc n) n [] s) ∙ scan-digits (suc n) n s (omega arith)

-- It starts with a digit.
digits_first :
    (fuel n : ℕ) (c : ℕ) (s : Text)
    → is_digit c ≡ true
    → (d : ℕ) × (t : Text) × (digits fuel n (c ∷ s) ≡ d ∷ t) × (is_digit d ≡ true)
unfolding digits
digits_first zero n c s h = (c, s, refl, h)
digits_first (suc fuel) n c s h = elim (Bool-cases (ltb n 10)) [
  | inl small ↦ (b'0' + n, c ∷ s, rw small refl, ground arith)
  | inr large ↦
      let (d, t, q, i) = digits_first fuel (n / 10) (b'0' + n % 10) (c ∷ s) (ground arith) in
      (d, t, rw large q, i)
]

pub show_first : (n : ℕ) → (d : ℕ) × (t : Text) × (show n ≡ d ∷ t) × (is_digit d ≡ true)
unfolding show digits
show_first n = elim (Bool-cases (ltb n 10)) [
  | inl small ↦ (b'0' + n, [], rw small refl, ground arith)
  | inr large ↦
      let (d, t, q, i) = digits_first n (n / 10) (b'0' + n % 10) [] (ground arith) in
      (d, t, rw large q, i)
]
