-- ===== src/Minimize/Chunks/Scan.antt =====
-- tooling/minimize/src/chunks.rs: the loop of `calc_chunks` over the markers.
use mts_minirust_work.Prelude.{
  ℕ, suc, ◌+◌, ◌≤◌, ◌<◌, ◌≡◌, refl, Bool, true, false, ◌&&◌, ◌||◌, [], ◌∷◌, ◌++◌, Option, none,
  some, if◌then◌else◌, ltb, leb, eqb, eqb_iff, arith, length,
}
use mts_minirust_work.Lang.Types.{Cells}
use mts_minirust_work.Lang.WellFormed.{check_cells}
use mts_minirust_work.Minimize.Chunks.{Markers, scan}

-- the marker at index `j`, of markers whose first has index `i`
abbrev pub marker_at : ℕ → Markers → ℕ → Bool
marker_at i [] j = false
marker_at i (b ∷ m) j = if eqb i j then b else marker_at (suc i) m j

-- whether a chunk has the byte `j`
abbrev pub covers : Cells → ℕ → Bool
covers [] j = false
covers ((start, len) ∷ cs) j = leb start j && ltb j (start + len) || covers cs j

abbrev pub with_start : Option ℕ → ℕ → ℕ → Bool
with_start none i j = false
with_start (some s) i j = leb s j && ltb j i

marker_before : (m : Markers) (i j : ℕ) → j < i → marker_at i m j ≡ false
marker_before [] i j h = refl
marker_before (b ∷ m) i j h = ground (arith, eqb_iff i j, marker_before m (suc i) j)

-- The start of the current chunk is before the index.
abbrev pub Before : Option ℕ → ℕ → Type 0
Before none i = Unit
Before (some s) i = s < i

-- For markers from an index on, and a current chunk that starts before that index if there is
-- one, the chunks that the loop of `calc_chunks` gives have exactly the marked bytes and the
-- bytes from the start of the current chunk to the index.
pub covers-scan :
    (m : Markers) (i : ℕ) (cur : Option ℕ) (j : ℕ)
    → Before cur i
    → covers (scan i cur (m ++ false ∷ [])) j ≡ (with_start cur i j || marker_at i m j)
unfolding scan
covers-scan [] i none j h = ground arith
covers-scan [] i (some s) j h = ground arith
covers-scan (true ∷ m) i none j h =
    ground (arith, eqb_iff i j, covers-scan m (suc i) (some i) j, marker_before m (suc i) j)
covers-scan (true ∷ m) i (some s) j h =
    ground (arith, eqb_iff i j, covers-scan m (suc i) (some s) j, marker_before m (suc i) j)
covers-scan (false ∷ m) i none j h =
    ground (arith, eqb_iff i j, covers-scan m (suc i) none j, marker_before m (suc i) j)
covers-scan (false ∷ m) i (some s) j h =
    ground (arith, eqb_iff i j, covers-scan m (suc i) none j, marker_before m (suc i) j)

abbrev first_start : Option ℕ → ℕ → ℕ
first_start none i = i
first_start (some s) i = s

-- The chunks are in order, disjoint and within the size.
pub check_cells-scan :
    (m : Markers) (i : ℕ) (cur : Option ℕ) (last : ℕ)
    → Before cur i
    → last ≤ first_start cur i
    → check_cells last (scan i cur (m ++ false ∷ [])) (i + length m) ≡ true
unfolding scan check_cells
check_cells-scan [] i none last h l = ground arith
check_cells-scan [] i (some s) last h l = ground arith
check_cells-scan (true ∷ m) i none last h l =
    ground (arith, check_cells-scan m (suc i) (some i) last)
check_cells-scan (true ∷ m) i (some s) last h l =
    ground (arith, check_cells-scan m (suc i) (some s) last)
check_cells-scan (false ∷ m) i none last h l = ground (arith, check_cells-scan m (suc i) none last)
check_cells-scan (false ∷ m) i (some s) last h l = ground (arith, check_cells-scan m (suc i) none i)
