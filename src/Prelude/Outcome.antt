-- ===== src/Prelude/Outcome.antt =====
-- A panic of the source (`panic!`, `unwrap`, `assert!`, overflow of a counter) is a value.
use mathlib.Core.Bool.{Bool, true, false}

pub data Panic : Type 0 where
  overflow duplicate_name missing_name : Panic
  block_exists unfinished_block no_current_block : Panic
  ret_already_set not_a_local arity : Panic
  not_a_tuple not_a_pointer not_an_int : Panic
  unsized_type bad_align negative_size out_of_bounds no_locals : Panic
  method_mismatch unsupported : Panic

pub data Outcome {ℓ} (A : Type ℓ) : Type ℓ where
  ok : A → Outcome A
  panic : Panic → Outcome A

infixl 5 ◌>>=◌ ◌>>◌
abbrev pub ◌>>=◌ {ℓ κ} : {A : Type ℓ} {B : Type κ} → Outcome A → (A → Outcome B) → Outcome B
ok a >>= f = f a
panic e >>= f = panic e

-- the same for state-passing code
abbrev pub and_then {ℓ κ} : {A : Type ℓ} {B : Type κ} → Outcome A → (A → Outcome B) → Outcome B
and_then m f = m >>= f

abbrev pub ◌>>◌ {ℓ} : {B : Type ℓ} → Outcome (Unit {0}) → Outcome B → Outcome B
m >> k = m >>= λ _. k

-- `assert!(b)`
abbrev pub guard : Bool → Panic → Outcome (Unit {0})
guard true e = ok tt
guard false e = panic e

-- `P` holds of a value, `E` of a panic.
pub data Post {ℓ} {A : Type ℓ} (P : A → Type 0) (E : Panic → Type 0) : Outcome A → Type ℓ where
  returns : {a : A} → P a → Post P E (ok a)
  panics : {e : Panic} → E e → Post P E (panic e)

module _ {ℓ} {A : Type ℓ} {P : A → Type 0} {E : Panic → Type 0} where
  pub Post-bind {κ} :
      {B : Type κ} {Q : B → Type 0} {m : Outcome A} {f : A → Outcome B}
      → Post P E m
      → ((a : A) → P a → Post Q E (f a))
      → Post Q E (m >>= f)
  Post-bind (returns h) k = k _ h
  Post-bind (panics h) k = panics h

  pub Post-weaken :
      {Q : A → Type 0} {m : Outcome A} → Post P E m → ((a : A) → P a → Q a) → Post Q E m
  Post-weaken (returns h) k = returns (k _ h)
  Post-weaken (panics h) k = panics h

  pub of_ok : {a : A} → Post P E (ok a) → P a
  of_ok (returns h) = h

abbrev pub AnyPanic : Panic → Type 0
AnyPanic e = Unit

pub anything {ℓ} : {A : Type ℓ} (m : Outcome A) → Post (λ _. Unit) AnyPanic m
anything (ok a) = returns tt
anything (panic e) = panics tt

-- What holds of every result holds of it as well.
pub Post-both {ℓ} :
    {A : Type ℓ} {P Q : A → Type 0} {E : Panic → Type 0} {m : Outcome A}
    → Post P E m
    → Post Q AnyPanic m
    → Post (λ a. P a × Q a) E m
Post-both (returns p) (returns q) = returns (p, q)
Post-both (panics e) (panics f) = panics e
