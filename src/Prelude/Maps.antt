-- ===== src/Prelude/Maps.antt =====
-- `Map` and `Set` of the source language: association lists, the latest key first. What the
-- source does is independent of the order in which it visits the keys.
use mathlib.Core.Path.{◌≡◌, refl}
use mathlib.Core.Bool.{Bool, true, false, ◌||◌}
use mathlib.Core.Logic.{inl, inr}
use mathlib.Core.Option.{Option, none, some}
use mathlib.Core.List.{List, [], ◌∷◌}
use native.Mathlib.Omega.{arith}
use mts_minirust_work.Prelude.Tests.{Eq, ◌==◌, if◌then◌else◌, Bool-cases}
use mts_minirust_work.Prelude.Outcome.{Outcome, ok, panic, duplicate_name}

abbrev pub Map {ℓ κ} : Type ℓ → Type κ → Type (ℓ ⊔ κ)
Map K V = List (K × V)

module _ {ℓ κ} {K : Type ℓ} {V : Type κ} ⦃e : Eq K⦄ where
  unfoldable pub get : K → List (K × V) → Option V
  get k [] = none
  get k ((j, v) ∷ m) = if j == k then some v else get k m

  unfoldable pub contains_key : K → List (K × V) → Bool
  contains_key k [] = false
  contains_key k ((j, v) ∷ m) = j == k || contains_key k m

  -- Replaces the value of a key that is there.
  unfoldable pub insert : K → V → List (K × V) → List (K × V)
  insert k v [] = (k, v) ∷ []
  insert k v ((j, w) ∷ m) = if j == k then (k, v) ∷ m else (j, w) ∷ insert k v m

  -- `try_insert(k, v).unwrap()`: a key that is there is a panic.
  unfoldable pub try_insert : K → V → List (K × V) → Outcome (List (K × V))
  unfolding contains_key
  try_insert k v m = if contains_key k m then panic duplicate_name else ok ((k, v) ∷ m)

  -- `collect()`: of two entries with one key the later one stays.
  unfoldable pub collect : List (K × V) → List (K × V) → List (K × V)
  unfolding insert
  collect [] m = m
  collect ((k, v) ∷ kvs) m = collect kvs (insert k v m)

  pub get-insert :
      (k j : K) (v : V) (m : List (K × V))
      → get j (insert k v m) ≡ (if k == j then some v else get j m)
  unfolding get insert
  get-insert k j v [] = refl
  get-insert k j v ((i, w) ∷ m) =
      ground (arith, e.same_iff k j, e.same_iff i k, e.same_iff i j, get-insert k j v m)

  pub contains_key-get : (k : K) (m : List (K × V)) → contains_key k m ≡ false → get k m ≡ none
  unfolding get contains_key
  contains_key-get k [] h = refl
  contains_key-get k ((j, v) ∷ m) h = ground (arith, contains_key-get k m)

  pub contains_key-some :
      (k : K) (m : List (K × V)) → contains_key k m ≡ true → (v : V) × (get k m ≡ some v)
  unfolding get contains_key
  contains_key-some k [] h = ground arith
  contains_key-some k ((j, v) ∷ m) h = elim (Bool-cases (j == k)) [
    | inl same ↦ (v, ground arith)
    | inr differ ↦ let (w, q) = contains_key-some k m (ground arith) in (w, ground arith)
  ]

  pub get_none : (k : K) (m : List (K × V)) → get k m ≡ none → contains_key k m ≡ false
  unfolding get contains_key
  get_none k [] h = refl
  get_none k ((j, v) ∷ m) h = ground (arith, get_none k m)

  -- A fresh key goes in.
  pub try_insert_fresh :
      (k : K) (v : V) (m : List (K × V)) → get k m ≡ none → try_insert k v m ≡ ok ((k, v) ∷ m)
  unfolding try_insert
  try_insert_fresh k v m h = rw (get_none k m h)
