-- ===== src/Fmt/Text/Parens.antt =====
-- tooling/miniutil/src/fmt: counting the parentheses of a printed text.
use mts_minirust_work.Prelude.{
  ℕ, zero, suc, ◌+◌, ◌/◌, ◌%◌, ◌≡◌, refl, Bool, true, false, List, [], ◌∷◌, ◌++◌, arith, eqb,
  if◌then◌else◌, ltb,
}
use mts_minirust_work.Prelude.Int.{ℤ, pos, negsuc}
use mts_minirust_work.Fmt.Text.{Text, digits, show, show_int, join}

abbrev pub count : ℕ → Text → ℕ
count c [] = 0
count c (x ∷ xs) = if eqb x c then suc (count c xs) else count c xs

abbrev pub opens : Text → ℕ
opens = count b'('

abbrev pub closes : Text → ℕ
closes = count b')'

pub count-append : (c : ℕ) (s t : Text) → count c (s ++ t) ≡ count c s + count c t
count-append c [] t = omega arith
count-append c (x ∷ s) t = ground (arith, count-append c s t)

-- `n` parentheses of the text are left open.
abbrev pub LeavesOpen : ℕ → Text → Type 0
LeavesOpen n t = opens t ≡ closes t + n

pub opens-append : (s t : Text) → opens (s ++ t) ≡ opens s + opens t
opens-append = count-append b'('

pub closes-append : (s t : Text) → closes (s ++ t) ≡ closes s + closes t
closes-append = count-append b')'

-- neither kind
abbrev pub NoParens : Text → Type 0
NoParens t = (opens t ≡ 0) × (closes t ≡ 0)

digits-NoParens : (fuel n : ℕ) (out : Text) → NoParens out → NoParens (digits fuel n out)
unfolding digits
digits-NoParens zero n out h = h
digits-NoParens (suc fuel) n out h =
    ground (arith, digits-NoParens fuel (n / 10) ((b'0' + n % 10) ∷ out))

pub show-NoParens : (n : ℕ) → NoParens (show n)
unfolding show
show-NoParens n = digits-NoParens (suc n) n [] (refl, refl)

pub show_int-NoParens : (i : ℤ) → NoParens (show_int i)
unfolding show_int
show_int-NoParens (pos n) = show-NoParens n
show_int-NoParens (negsuc n) = show-NoParens (suc n)

abbrev pub sum_by {ℓ} : {A : Type ℓ} → (A → ℕ) → List A → ℕ
sum_by f [] = 0
sum_by f (x ∷ xs) = f x + sum_by f xs

-- all the texts together
abbrev pub total : ℕ → List Text → ℕ
total c = sum_by (count c)

abbrev pub LeaveOpen : ℕ → List Text → Type 0
LeaveOpen n ts = total b'(' ts ≡ total b')' ts + n

-- for `grind`, on texts
pub ruleset paren_rules = (arith, opens-append, closes-append, show-NoParens, show_int-NoParens)

join-count :
    (c : ℕ) (sep : Text) → count c sep ≡ 0 → (ts : List Text) → count c (join sep ts) ≡ total c ts
unfolding join
join-count c sep h [] = refl
join-count c sep h (t ∷ []) = omega arith
join-count c sep h (t ∷ u ∷ ts) =
    rw count-append (rw count-append (omega (arith, join-count c sep h (u ∷ ts))))

-- A joined text leaves as many parentheses open as its parts do.
pub join-LeavesOpen :
    (n : ℕ) (sep : Text) (ts : List Text)
    → NoParens sep
    → LeaveOpen n ts
    → LeavesOpen n (join sep ts)
join-LeavesOpen n sep ts (o, c) h = rw (join-count b'(' sep o ts) (rw (join-count b')' sep c ts) h)
