-- ===== src/Fmt/State/Emits.antt =====
-- tooling/miniutil/src/fmt/ty.rs: what printing does to the list of composite types.
use mathlib.Core.List.{append-nil, append_assoc}
use mts_minirust_work.Prelude.{
  ◌≡◌, refl, sym, ap, ◌∙◌, List, [], ◌∷◌, ◌++◌, All, All-append, Option-cases, inl, inr,
}
use mts_minirust_work.Prelude.Positions.{position, Distinct, position_none, Distinct-snoc}
use mts_minirust_work.Prelude.Outcome.{
  Outcome, Post, returns, panics, AnyPanic, Post-bind, Post-weaken,
}
use mts_minirust_work.Lang.Types.{Ty}
use mts_minirust_work.Fmt.State.{Fmt, return, lift, ◌>>=◌, get_comptype_index, ty_eq}

-- The list is extended at its end by types with `S`, and nothing stands in it twice if nothing did.
pub record Extends (S : Ty → Type 0) (before after : List Ty) : Type 0 where
  pub found : List Ty
  pub at_end : after ≡ before ++ found
  pub found_all : All S found
  pub distinct : Distinct before → Distinct after

pub Extends-refl : {S : Ty → Type 0} (cs : List Ty) → Extends S cs cs
Extends-refl cs = record {
  found = [];
  at_end = sym (append-nil cs);
  found_all = tt;
  distinct = λ d. d;
}

pub Extends-trans :
    {S : Ty → Type 0} {bs cs ds : List Ty} → Extends S bs cs → Extends S cs ds → Extends S bs ds
Extends-trans {S} {bs} x y = record {
  found = x.found ++ y.found;
  at_end = y.at_end ∙ ap (λ l. l ++ y.found) x.at_end ∙ append_assoc bs x.found y.found;
  found_all = All-append S x.found y.found x.found_all y.found_all;
  distinct = λ d. y.distinct (x.distinct d);
}

-- `m` gives results with `P` and extends the list by types with `S`.
pub record Emits {ℓ} {A : Type ℓ} (S : Ty → Type 0) (P : A → Type 0) (m : Fmt A) : Type ℓ where
  pub run : (before : List Ty) → Post (λ r. P r.0 × Extends S before r.1) AnyPanic (m before)

module _ {ℓ} {A : Type ℓ} {S : Ty → Type 0} {P : A → Type 0} where
  pub Emits-return : (a : A) → P a → Emits S P (return a)
  unfolding return
  Emits-return a h = record { run = λ cs. returns (h, Extends-refl cs) }

  after_lift :
      {m : Outcome A} (cs : List Ty)
      → Post P AnyPanic m
      → Post (λ r. P r.0 × Extends S cs r.1) AnyPanic (lift m cs)
  unfolding lift
  after_lift cs (returns h) = returns (h, Extends-refl cs)
  after_lift cs (panics e) = panics e

  pub Emits-lift : {m : Outcome A} → Post P AnyPanic m → Emits S P (lift m)
  Emits-lift h = record { run = λ cs. after_lift cs h }

  pub Emits-weaken :
      {Q : A → Type 0} {m : Fmt A} → Emits S P m → ((a : A) → P a → Q a) → Emits S Q m
  Emits-weaken h k = record { run = λ cs. Post-weaken (h.run cs) λ r (p, x). (k r.0 p, x) }

  pub Emits-bind {κ} :
      {B : Type κ} {Q : B → Type 0} {m : Fmt A} {f : A → Fmt B}
      → Emits S P m
      → ((a : A) → P a → Emits S Q (f a))
      → Emits S Q (m >>= f)
  unfolding ◌>>=◌
  Emits-bind h k = record {
    run = λ cs.
        Post-bind (h.run cs)
          λ r (p, x). Post-weaken ((k r.0 p).run r.1) λ t (q, y). (q, Extends-trans x y);
  }

-- A type that is new is put at the end.
pub get_comptype_index-Emits :
    (S : Ty → Type 0) (ty : Ty) → S ty → Emits S (λ _. Unit) (get_comptype_index ty)
unfolding get_comptype_index
get_comptype_index-Emits S ty s = record {
  run = λ cs. elim (Option-cases (position ty cs)) [
    | inl q ↦
        rw (q, get_comptype_index)
          (returns (
            tt,
            record {
              found = ty ∷ [];
              at_end = refl;
              found_all = (s, tt);
              distinct = Distinct-snoc ty cs (position_none ty cs q);
            },
          ))
    | inr (i, q) ↦ rw (q, get_comptype_index) (returns (tt, Extends-refl cs))
  ];
}
