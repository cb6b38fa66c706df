-- ===== src/Fmt/State.antt =====
-- tooling/miniutil/src/fmt/ty.rs: the composite types that are met while a program is printed,
-- `comptypes: &mut Vec<CompType>`, as a state that the printing functions pass on.
pub mod Emits
pub mod Lists
use mts_minirust_work.Prelude.{
  ℕ, zero, suc, Bool, true, false, ◌≡◌, refl, ◌↔◌, List, [], ◌∷◌, ◌++◌, Option, none, some, length,
  Eq,
}
use mts_minirust_work.Prelude.Positions.{position}
use mts_minirust_work.Prelude.Outcome.{Outcome, ok, panic, and_then, Panic}
use mts_minirust_work.Lang.Types.{Ty}
use mts_minirust_work.Build.Expr.{Ty-discrete}

abbrev pub Fmt {ℓ} : Type ℓ → Type ℓ
Fmt A = List Ty → Outcome (A × List Ty)

module _ {ℓ} {A : Type ℓ} where
  unfoldable pub return : A → Fmt A
  return a comptypes = ok (a, comptypes)

  -- code that does not see the composite types
  unfoldable pub lift : Outcome A → Fmt A
  lift (ok a) comptypes = ok (a, comptypes)
  lift (panic e) comptypes = panic e

infixl 5 ◌>>=◌
unfoldable pub ◌>>=◌ {ℓ κ} : {A : Type ℓ} {B : Type κ} → Fmt A → (A → Fmt B) → Fmt B
(m >>= f) comptypes = and_then (m comptypes) λ (a, comptypes2). f a comptypes2

-- `CompType` derives `PartialEq`.
unfoldable pub same_ty : Ty → Ty → Bool
unfolding Ty-discrete
same_ty a b = elim (Ty-discrete a b) [ yes _ ↦ true | no _ ↦ false ]

pub same_ty_iff : (a b : Ty) → (same_ty a b ≡ true) ↔ (a ≡ b)
unfolding same_ty
same_ty_iff a b =
    elim (Ty-discrete a b) as (λ d. ((elim d [ yes _ ↦ true | no _ ↦ false ]) ≡ true) ↔ (a ≡ b)) [
      | yes q ↦ (λ _. q, λ _. refl)
      | no n ↦ (λ h. absurd cc, λ q. absurd (n q))
    ]

instance abbrev pub ty_eq : Eq Ty
ty_eq = record { same = same_ty; same_iff = same_ty_iff }

unfoldable pub get_comptype_index : Ty → Fmt ℕ
unfolding position same_ty
get_comptype_index ty comptypes = elim (position ty comptypes) [
  | some i ↦ ok (i, comptypes)
  | none ↦ ok (length comptypes, comptypes ++ (ty ∷ []))
]
