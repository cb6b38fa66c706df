-- ===== src/Fmt/Expr/Constants.antt =====
-- tooling/miniutil/src/fmt/expr.rs: a printed constant can be read back.
use mathlib.Core.List.{append-nil, append_assoc}
use mts_minirust_work.Prelude.{
  ℕ, zero, suc, ◌≡◌, refl, sym, ap, ◌∙◌, true, false, [], ◌∷◌, ◌++◌, arith, eqb, subst, eqb_iff,
  if◌then◌else◌, Bool-cases, inl, inr, nat_eq, ◌==◌,
}
use mts_minirust_work.Prelude.Int.{ℤ, pos, negsuc, int_eq, eqb_ℤ_iff}
use mts_minirust_work.Lang.Syntax.{Relocation, Constant}
use mts_minirust_work.Fmt.Text.{Text, codes, show, show_int}
use mts_minirust_work.Fmt.Text.Decimal.{is_digit, scan, scan-show, show_first}
use mts_minirust_work.Fmt.Ty.{to_string}
use mts_minirust_work.Fmt.Expr.{
  fmt_global_name, fmt_fn_name, fmt_vtable_name, fmt_relocation, fmt_constant,
}

abbrev minus : ℕ → ℤ
minus zero = pos 0
minus (suc n) = negsuc n

-- An integer at the start of a text.
read_int : Text → ℤ
unfolding scan
read_int [] = pos 0
read_int (c ∷ s) = if eqb c b'-' then minus (scan 0 s).0 else pos (scan 0 (c ∷ s)).0

abbrev drop : ℕ → Text → Text
drop zero s = s
drop (suc n) [] = []
drop (suc n) (c ∷ s) = drop n s

-- `global(`, the name, `)` and, if the offset is not 0, ` + ` and the offset.
relocation_of : ℕ × Text → Relocation
unfolding scan
relocation_of (id, rest) = record { name = id; offset = (scan 0 (drop 4 rest)).0 }

read_relocation : Text → Relocation
unfolding relocation_of scan
read_relocation s = relocation_of (scan 0 (drop 7 s))

read_f : Text → Constant
unfolding scan
read_f [] = Constant.bool false
read_f (c ∷ s) = if is_digit c then Constant.fn_pointer (scan 0 (c ∷ s)).0 else Constant.bool false

-- Reads a constant by its first letters.
pub read_constant : Text → Constant
unfolding read_f read_int read_relocation scan
read_constant [] = Constant.int (pos 0)
read_constant (c ∷ s) =
    if eqb c b't'
    then Constant.bool true
    else if eqb c b'f'
    then read_f s
    else if eqb c b'g'
    then Constant.global_pointer (read_relocation (c ∷ s))
    else if eqb c b'v'
    then Constant.vtable_pointer (scan 0 (drop 6 (c ∷ s))).0
    else if eqb c b'n'
    then Constant.pointer_without_provenance (pos 0)
    else if eqb c b'i'
    then Constant.pointer_without_provenance (read_int (drop 12 (c ∷ s)))
    else Constant.int (read_int (c ∷ s))

-- A text at which a number ends.
abbrev Stops : Text → Type 0
Stops s = (n : ℕ) → (scan n s).0 ≡ n

scanned : (n : ℕ) (s : Text) → Stops s → (scan 0 (show n ++ s)).0 ≡ n
scanned n s h = ap (λ r. r.0) (scan-show n s) ∙ h n

scanned_end : (n : ℕ) → (scan 0 (show n)).0 ≡ n
unfolding scan
scanned_end n = ap (λ t. (scan 0 t).0) (sym (append-nil (show n))) ∙ scanned n [] λ m. refl

read_int_digit : (c : ℕ) (s : Text) → is_digit c ≡ true → read_int (c ∷ s) ≡ pos (scan 0 (c ∷ s)).0
unfolding read_int
read_int_digit c s h = let q : eqb c b'-' ≡ false = ground arith in rw q refl

-- What holds of every text that starts with a digit holds of a printed number.
by_first :
    (P : Text → Type 0) (n : ℕ) (s : Text)
    → ((c : ℕ) (t : Text) → is_digit c ≡ true → P (c ∷ t))
    → P (show n ++ s)
by_first P n s h =
    let (d, t, q, i) = show_first n in subst (λ u. P (u ++ s)) (sym q) (h d (t ++ s) i)

by_first_end :
    (P : Text → Type 0) (n : ℕ) → ((c : ℕ) (t : Text) → is_digit c ≡ true → P (c ∷ t)) → P (show n)
by_first_end P n h = subst P (append-nil (show n)) (by_first P n [] h)

read_int-show_int : (i : ℤ) (s : Text) → Stops s → read_int (show_int i ++ s) ≡ i
unfolding read_int show_int
read_int-show_int (pos n) s h =
    by_first (λ t. read_int t ≡ pos (scan 0 t).0) n s read_int_digit ∙ ap pos (scanned n s h)
read_int-show_int (negsuc n) s h = ap minus (scanned (suc n) s h)

read_constant_digit :
    (c : ℕ) (s : Text) → is_digit c ≡ true → read_constant (c ∷ s) ≡ Constant.int (read_int (c ∷ s))
unfolding read_constant
read_constant_digit c s h =
    let t : eqb c b't' ≡ false = ground arith in
    let f : eqb c b'f' ≡ false = ground arith in
    let g : eqb c b'g' ≡ false = ground arith in
    let v : eqb c b'v' ≡ false = ground arith in
    let n : eqb c b'n' ≡ false = ground arith in
    let i : eqb c b'i' ≡ false = ground arith in rw t (rw f (rw g (rw v (rw n (rw i refl)))))

read_int_end : (i : ℤ) → read_int (show_int i) ≡ i
unfolding scan
read_int_end i = ap read_int (sym (append-nil (show_int i))) ∙ read_int-show_int i [] λ m. refl

read_constant-show_int : (i : ℤ) → read_constant (show_int i) ≡ Constant.int i
unfolding show_int read_constant
read_constant-show_int (pos n) =
    by_first_end (λ t. read_constant t ≡ Constant.int (read_int t)) n read_constant_digit
    ∙ ap Constant.int (read_int_end (pos n))
read_constant-show_int (negsuc n) = ap Constant.int (read_int_end (negsuc n))

read_f-show : (n : ℕ) → read_f (show n) ≡ Constant.fn_pointer n
unfolding read_f
read_f-show n =
    by_first_end (λ t. read_f t ≡ Constant.fn_pointer (scan 0 t).0) n (λ c t h. rw h refl)
    ∙ ap Constant.fn_pointer (scanned_end n)

two_numbers :
    (a b : ℕ)
    → relocation_of (scan 0 (show a ++ codes ")" ++ codes " + " ++ show b))
      ≡ record { name = a; offset = b }
unfolding relocation_of scan
two_numbers a b =
    ap (λ t. relocation_of (scan 0 (t ++ show b))) (append_assoc (show a) (codes ")") (codes " + "))
    ∙ ap (λ t. relocation_of (scan 0 t)) (append_assoc (show a) (codes ") + ") (show b))
    ∙ ap relocation_of (scan-show a (codes ") + " ++ show b))
    ∙ λ i. record { name = a; offset = scanned_end b i }

read_constant-fmt_relocation :
    (r : Relocation) → read_constant (to_string (fmt_relocation r)) ≡ Constant.global_pointer r
unfolding read_constant relocation_of fmt_relocation fmt_global_name to_string scan
read_constant-fmt_relocation r = elim (Bool-cases (r.offset == 0)) [
  | inl start ↦
      let q = (eqb_iff r.offset 0).0 start in
      rw start (
        ap (λ n. Constant.global_pointer (relocation_of n)) (scan-show r.name (codes ")")) ∙ λ i.
        Constant.global_pointer (record { name = r.name; offset = sym q i }))
  | inr inside ↦ rw inside (ap Constant.global_pointer (two_numbers r.name r.offset))
]

-- A printed constant can be read back: `read_constant`, which goes by the first letters and reads
-- the numbers, gives the constant that was printed, so that different constants are printed
-- differently.
pub read_constant-fmt_constant : (c : Constant) → read_constant (to_string (fmt_constant c)) ≡ c
unfolding read_constant to_string fmt_constant fmt_fn_name fmt_vtable_name scan
read_constant-fmt_constant (Constant.int i) = read_constant-show_int i
read_constant-fmt_constant (Constant.bool true) = refl
read_constant-fmt_constant (Constant.bool false) = refl
read_constant-fmt_constant (Constant.global_pointer r) = read_constant-fmt_relocation r
read_constant-fmt_constant (Constant.fn_pointer f) = read_f-show f
read_constant-fmt_constant (Constant.vtable_pointer v) = ap Constant.vtable_pointer (scanned_end v)
read_constant-fmt_constant (Constant.pointer_without_provenance addr) =
    elim (Bool-cases (addr == pos 0)) [
      | inl null ↦
          rw null (ap Constant.pointer_without_provenance (sym ((eqb_ℤ_iff addr (pos 0)).0 null)))
      | inr other ↦
          rw other
            (ap Constant.pointer_without_provenance (read_int-show_int addr (codes ")") λ m. refl))
    ]
