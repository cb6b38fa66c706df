-- ===== src/Minimize/Context.antt =====
-- tooling/minimize/src/function.rs: the data of the function that is translated, as a state that
-- the translation passes on. `strict_add` panics on overflow.
pub mod Flow
use mts_minirust_work.Prelude.{ℕ, List, [], ◌∷◌, nat_eq}
use mts_minirust_work.Prelude.Maps.{Map, insert}
use mts_minirust_work.Prelude.Outcome.{Outcome, ok, panic, and_then}
use mts_minirust_work.Lang.Types.{Ty}
use mts_minirust_work.Lang.Syntax.{LocalName, BbName, BasicBlock, PlaceExpr, ValueExpr}
use mts_minirust_work.Build.State.{next}
use mts_minirust_work.Minimize.Mir.{Place, Operand}
use mts_minirust_work.Minimize.Place.{
  Names, lookup, translate_place, translate_operand, translate_operands,
}

pub record FnCtxt : Type 0 where
  pub local_name_map : Names
  pub bb_name_map : Map ℕ BbName
  pub next_bb : ℕ
  pub next_local : ℕ
  pub locals : Map LocalName Ty
  pub blocks : Map BbName BasicBlock

abbrev pub T {ℓ} : Type ℓ → Type ℓ
T A = FnCtxt → Outcome (A × FnCtxt)

module _ {ℓ} {A : Type ℓ} where
  unfoldable pub return : A → T A
  return a fc = ok (a, fc)

  -- code that only reads the names of the locals
  unfoldable pub reading : (Names → Outcome A) → T A
  reading f fc = and_then (f fc.local_name_map) λ a. ok (a, fc)

infixl 5 ◌>>=◌ ◌>>◌
unfoldable pub ◌>>=◌ {ℓ κ} : {A : Type ℓ} {B : Type κ} → T A → (A → T B) → T B
(m >>= f) fc = and_then (m fc) λ r. f r.0 r.1

abbrev pub ◌>>◌ {ℓ} : {B : Type ℓ} → T (Unit {0}) → T B → T B
m >> k = m >>= λ _. k

unfoldable pub fresh_bb_name : T BbName
unfolding next
fresh_bb_name fc = and_then (next fc.next_bb) λ n. ok (fc.next_bb, record fc { next_bb = n })

unfoldable pub fresh_local_name : T LocalName
unfolding next
fresh_local_name fc =
    and_then (next fc.next_local) λ n. ok (fc.next_local, record fc { next_local = n })

-- `self.bb_name_map[&target]`
unfoldable pub bb_name : ℕ → T BbName
unfolding lookup
bb_name target fc = and_then (lookup target fc.bb_name_map) λ n. ok (n, fc)

-- `self.blocks.insert(name, block)`
unfoldable pub insert_block : BbName → BasicBlock → T (Unit {0})
unfolding insert
insert_block name block fc = ok (tt, record fc { blocks = insert name block fc.blocks })

-- `self.locals.insert(name, ty)`
unfoldable pub insert_local : LocalName → Ty → T (Unit {0})
unfolding insert
insert_local name ty fc = ok (tt, record fc { locals = insert name ty fc.locals })

-- `fresh_local_name` and the insertion of the local
unfoldable pub fresh_local : Ty → T LocalName
unfolding fresh_local_name insert_local
fresh_local ty = do name ← fresh_local_name; insert_local name ty; return name

unfoldable pub place : Place → T PlaceExpr
unfolding translate_place
place p = reading λ names. translate_place names p

unfoldable pub operand : Operand → T ValueExpr
unfolding translate_operand
operand x = reading λ names. translate_operand names x

unfoldable pub operands : List Operand → T (List ValueExpr)
unfolding translate_operands
operands xs = reading λ names. translate_operands names xs
