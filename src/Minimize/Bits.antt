-- ===== src/Minimize/Bits.antt =====
-- tooling/minimize/src/enums.rs: `int_from_bits`, the integer that the low bits of a word stand
-- for. `truncate` and `sign_extend` are rustc's, and arguments.
pub mod Range
use mts_minirust_work.Prelude.{ℕ, ◌*◌, ltb}
use mts_minirust_work.Prelude.Int.{ℤ, pos}
use mts_minirust_work.Prelude.Outcome.{Outcome, ok, ◌>>=◌, ◌>>◌, guard, overflow}
use mts_minirust_work.Lang.Types.{IntType, Signedness, signed, unsigned}

-- `Size::truncate` and `Size::sign_extend`, of a number of bits and a word
pub record SizeOps : Type 0 where
  pub truncate : ℕ → ℕ → ℕ
  pub sign_extend : ℕ → ℕ → ℤ

abbrev pub from_low_bits : SizeOps → Signedness → ℕ → ℕ → ℤ
from_low_bits ops unsigned bits word = pos (ops.truncate bits word)
from_low_bits ops signed bits word = ops.sign_extend bits word

-- The number of bits is to fit a `u8`.
unfoldable pub int_from_bits : SizeOps → ℕ → IntType → Outcome ℤ
int_from_bits ops word ity = do
  guard (ltb (ity.size * 8) 256) overflow
  ok (from_low_bits ops ity.signed (ity.size * 8) word)
