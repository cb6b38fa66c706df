-- ===== src/Fmt/Program/Order.antt =====
-- tooling/miniutil/src/fmt: the order in which a map holds its entries does not show.
use mts_minirust_work.Prelude.{ℕ, ◌≡◌, refl, List, nat_eq}
use mts_minirust_work.Prelude.Maps.{get}
use mts_minirust_work.Lang.Syntax.{Program}
use mts_minirust_work.Fmt.Text.{sort_by_key}
use mts_minirust_work.Fmt.Text.Sorted.{DistinctKeys, sort_by_key_unique}
use mts_minirust_work.Fmt.Function.{fmt_functions}
use mts_minirust_work.Fmt.Program.{fmt_globals, fmt_vtables, fmt_traits, fmt_program}

-- Two maps with the same answers, each of which has a key once.
abbrev pub SameMap {ℓ} : {V : Type ℓ} → List (ℕ × V) → List (ℕ × V) → Type ℓ
SameMap m n = DistinctKeys m × DistinctKeys n × ((k : ℕ) → get k m ≡ get k n)

same_order {ℓ} : {V : Type ℓ} (m n : List (ℕ × V)) → SameMap m n → sort_by_key m ≡ sort_by_key n
same_order m n (d, e, h) = (sort_by_key_unique m n d e h).1

-- Two programs with the same start function whose maps of functions, globals, traits and vtables
-- have each key once and give the same answers are printed as the same text, in whatever order
-- the maps hold their entries.
pub fmt_program-same :
    (p q : Program)
    → p.start ≡ q.start
    → SameMap p.functions q.functions
    → SameMap p.globals q.globals
    → SameMap p.traits q.traits
    → SameMap p.vtables q.vtables
    → fmt_program p ≡ fmt_program q
unfolding fmt_program fmt_functions fmt_globals fmt_traits fmt_vtables
fmt_program-same p q s f g t v =
    let f2 = same_order p.functions q.functions f in
    let g2 = same_order p.globals q.globals g in
    let t2 = same_order p.traits q.traits t in
    let v2 = same_order p.vtables q.vtables v in rw s (rw f2 (rw g2 (rw t2 (rw v2 refl))))
