-- ===== src/Fmt/Text.antt =====
-- What the source uses of Rust's strings: `format!`, `to_string`, `join`, `sort`. A text is the
-- list of its code points, since the library's `String` does not compute at a variable.
pub mod Parens
pub mod Decimal
pub mod Sorted
use Prim.Native.Char.{code}
use Prim.Native.String.{String}
use mts_minirust_work.Prelude.{
  ◌≡◌, refl, ℕ, zero, suc, ◌+◌, ◌/◌, ◌%◌, Bool, true, false, ◌&&◌, ◌||◌, List, [], ◌∷◌, ◌++◌, ltb,
  leb, eqb, if◌then◌else◌,
}
use mts_minirust_work.Prelude.Int.{ℤ, pos, negsuc}

abbrev pub Text : Type 0
Text = List ℕ

abbrev pub codes : String → Text
codes String.[] = []
codes (String.◌∷◌ c s) = code c ∷ codes s

-- The decimal digits of `n` in front of `out`. The fuel bounds the number of digits.
unfoldable pub digits : ℕ → ℕ → Text → Text
digits zero n out = out
digits (suc fuel) n out =
    let rest = digits fuel (n / 10) ((b'0' + n % 10) ∷ out) in
    if ltb n 10 then (b'0' + n) ∷ out else rest

-- `n` itself is enough fuel: see `Fmt.Decimal`.
unfoldable pub show : ℕ → Text
unfolding digits
show n = digits (suc n) n []

unfoldable pub show_int : ℤ → Text
unfolding show
show_int (pos n) = show n
show_int (negsuc n) = b'-' ∷ show (suc n)

abbrev pub show_bool : Bool → Text
show_bool true = codes "true"
show_bool false = codes "false"

abbrev pub hex_digit : ℕ → ℕ
hex_digit d = if ltb d 10 then b'0' + d else 87 + d

-- `{:02x?}` of a byte
abbrev pub show_hex : ℕ → Text
show_hex u = hex_digit (u / 16) ∷ hex_digit (u % 16) ∷ []

-- `[String]::join`
unfoldable pub join : Text → List Text → Text
join sep [] = []
join sep (t ∷ []) = t
join sep (t ∷ u ∷ ts) = t ++ sep ++ join sep (u ∷ ts)

-- The order of Rust's strings.
unfoldable pub leb_text : Text → Text → Bool
leb_text [] t = true
leb_text (a ∷ s) [] = false
leb_text (a ∷ s) (b ∷ t) = ltb a b || (eqb a b && leb_text s t)

-- `sort` and `sort_by_key`: a stable sort.
module _ {ℓ} {A : Type ℓ} (le : A → A → Bool) where
  unfoldable pub insert_sorted : A → List A → List A
  insert_sorted a [] = a ∷ []
  insert_sorted a (b ∷ bs) = if le a b then a ∷ b ∷ bs else b ∷ insert_sorted a bs

  unfoldable pub sort : List A → List A
  unfolding insert_sorted
  sort [] = []
  sort (a ∷ rest) = insert_sorted a (sort rest)

abbrev pub leb_key {ℓ} : {V : Type ℓ} → ℕ × V → ℕ × V → Bool
leb_key (a, _) (b, _) = leb a b

unfoldable pub sort_by_key {ℓ} : {V : Type ℓ} → List (ℕ × V) → List (ℕ × V)
unfolding sort
sort_by_key kvs = sort leb_key kvs

test :
    join (codes ", ") (show 0 ∷ show_int (negsuc 119) ∷ codes "" ∷ show_hex 175 ∷ [])
    ≡ codes "0, -120, , af"
unfolding join show_int
test = refl
