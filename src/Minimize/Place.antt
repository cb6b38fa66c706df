-- ===== src/Minimize/Place.antt =====
-- tooling/minimize/src/rvalue.rs: translating places and operands. The names of the locals,
-- `local_name_map`, are all that it reads of the function's data.
use mts_minirust_work.Prelude.{ℕ, List, [], ◌∷◌, none, some, nat_eq}
use mts_minirust_work.Prelude.Int.{pos, int_eq}
use mts_minirust_work.Prelude.Maps.{Map, get}
use mts_minirust_work.Prelude.Outcome.{Outcome, ok, panic, ◌>>=◌, missing_name, unsupported}
use mts_minirust_work.Lang.Types.{Ty}
use mts_minirust_work.Lang.Syntax.{LocalName, ValueExpr, PlaceExpr}
use mts_minirust_work.Minimize.Mir.{Projection, Place, Operand}

abbrev pub Names : Type 0
Names = Map ℕ LocalName

-- `map[&key]`
unfoldable pub lookup {ℓ} : {V : Type ℓ} → ℕ → Map ℕ V → Outcome V
unfolding get
lookup k m = elim (get k m) [ some v ↦ ok v | none ↦ panic missing_name ]

unfoldable pub project : Names → PlaceExpr → List Projection → Outcome PlaceExpr
unfolding lookup
project names root [] = ok root
project names root (Projection.field f ∷ ps) = project names (PlaceExpr.field root (pos f)) ps
project names root (Projection.deref ty ∷ ps) =
    project names (PlaceExpr.deref (ValueExpr.load root) ty) ps
project names root (Projection.index i ∷ ps) = do
  name ← lookup i names
  project names (PlaceExpr.index root (ValueExpr.load (PlaceExpr.local name))) ps
project names root (Projection.downcast d ∷ ps) = project names (PlaceExpr.downcast root d) ps
project names root (Projection.other_projection ∷ ps) = panic unsupported

unfoldable pub translate_place : Names → Place → Outcome PlaceExpr
unfolding lookup project
translate_place names p = do
  name ← lookup p.local names
  project names (PlaceExpr.local name) p.projection

unfoldable pub translate_operand : Names → Operand → Outcome ValueExpr
unfolding translate_place
translate_operand names (Operand.constant c _) = ok c
translate_operand names (Operand.copy p _) = do
  place ← translate_place names p
  ok (ValueExpr.load place)
translate_operand names (Operand.move p _) = do
  place ← translate_place names p
  ok (ValueExpr.load place)

abbrev pub operand_ty : Operand → Ty
operand_ty (Operand.constant _ ty) = ty
operand_ty (Operand.copy _ ty) = ty
operand_ty (Operand.move _ ty) = ty

unfoldable pub translate_operands : Names → List Operand → Outcome (List ValueExpr)
unfolding translate_operand
translate_operands names [] = ok []
translate_operands names (x ∷ xs) = do
  v ← translate_operand names x
  vs ← translate_operands names xs
  ok (v ∷ vs)
