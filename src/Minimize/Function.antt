-- ===== src/Minimize/Function.antt =====
-- tooling/minimize/src/function.rs: translating a whole body.
pub mod Flow
use mts_minirust_work.Prelude.{
  ℕ, zero, suc, ◌+◌, Bool, true, false, List, [], ◌∷◌, ◌++◌, Option, none, some, if◌then◌else◌, map,
  nat_eq, leb, ◌==◌, get_elem?, length,
}
use mts_minirust_work.Prelude.Int.{pos}
use mts_minirust_work.Prelude.Outcome.{
  Outcome, ok, panic, and_then, missing_name, unsupported, not_a_tuple, out_of_bounds,
}
use mts_minirust_work.Lang.Types.{Ty}
use mts_minirust_work.Lang.Syntax.{
  LocalName, BbName, Statement, Terminator, BasicBlock, Function, PlaceExpr, ValueExpr, regular,
}
use mts_minirust_work.Minimize.Mir.{MirBlock, LocalDecl, Body, Session}
use mts_minirust_work.Minimize.Place.{lookup}
use mts_minirust_work.Minimize.Context.{
  FnCtxt, T, return, reading, ◌>>=◌, ◌>>◌, fresh_bb_name, fresh_local_name, insert_local,
  fresh_local, bb_name, insert_block,
}
use mts_minirust_work.Minimize.Body.{translate_bb, local_name}

abbrev pub new_context : FnCtxt
new_context = record {
  local_name_map = [];
  bb_name_map = [];
  next_bb = 0;
  next_local = 0;
  locals = [];
  blocks = [];
}

-- The blocks from the `id`-th on get names.
unfoldable pub name_blocks : ℕ → List MirBlock → T (Unit {0})
unfolding fresh_bb_name
name_blocks id [] = return tt
name_blocks id (_ ∷ bbs) = do
  name ← fresh_bb_name
  (λ fc. ok (tt, record fc { bb_name_map = (id, name) ∷ fc.bb_name_map }))
  name_blocks (suc id) bbs

unfoldable pub name_locals : ℕ → List LocalDecl → T (Unit {0})
unfolding fresh_local_name
name_locals id [] = return tt
name_locals id (_ ∷ decls) = do
  name ← fresh_local_name
  (λ fc. ok (tt, record fc { local_name_map = (id, name) ∷ fc.local_name_map }))
  name_locals (suc id) decls

-- The types of the locals from the `id`-th on.
unfoldable pub declare_locals : ℕ → List LocalDecl → T (Unit {0})
unfolding lookup insert_local
declare_locals id [] = return tt
declare_locals id (decl ∷ decls) = do
  name ← local_name id
  insert_local name decl.ty
  declare_locals (suc id) decls

-- The fields of the spread argument, each passed in a local of its own.
unfoldable pub spread_fields : LocalName → ℕ → List Ty → T (List LocalName × List Statement)
unfolding fresh_local
spread_fields spread i [] = return ([], [])
spread_fields spread i (ty ∷ tys) = do
  temp ← fresh_local ty
  (args, statements) ← spread_fields spread (suc i) tys
  return (
    temp ∷ args,
    Statement.assign (PlaceExpr.field (PlaceExpr.local spread) (pos i))
          (ValueExpr.load (PlaceExpr.local temp))
        ∷ statements,
  )

abbrev pub tuple_fields_of : Body → ℕ → Outcome (List Ty)
tuple_fields_of body l = elim (get_elem? body.local_decls l) [
  | none ↦ panic out_of_bounds
  | some decl ↦ elim decl.tuple_fields [ some tys ↦ ok tys | none ↦ panic not_a_tuple ]
]

abbrev pub is_spread : Option ℕ → ℕ → Bool
is_spread none i = false
is_spread (some l) i = l == i

-- The arguments from the `i`-th on, of which there are `n`, and what to do first for them.
unfoldable pub translate_params : Body → ℕ → ℕ → T (List LocalName × List Statement)
unfolding lookup spread_fields
translate_params body i zero = return ([], [])
translate_params body i (suc n) =
    if is_spread body.spread_arg i
    then (do
      spread ← local_name i
      tys ← reading λ _. tuple_fields_of body i
      (args, statements) ← spread_fields spread 0 tys
      (args2, statements2) ← translate_params body (suc i) n
      return (args ++ args2, (Statement.storage_live spread ∷ statements) ++ statements2))
    else (do
      (args2, statements2) ← translate_params body (suc i) n
      return (i ∷ args2, statements2))

-- Locals that are always live, but for the return local and the arguments.
unfoldable pub live_statements : ℕ → List ℕ → T (List Statement)
unfolding lookup
live_statements free_argc [] = return []
live_statements free_argc (l ∷ ls) = do
  name ← local_name l
  rest ← live_statements free_argc ls
  return (if leb free_argc name then Statement.storage_live name ∷ rest else rest)

-- The blocks from the `id`-th on.
unfoldable pub translate_bbs : Session → ℕ → List MirBlock → T (Unit {0})
unfolding bb_name translate_bb
translate_bbs session id [] = return tt
translate_bbs session id (bb ∷ bbs) = do
  name ← bb_name id
  translate_bb session name bb
  translate_bbs session (suc id) bbs

-- After the blocks have names. The first block initialises and goes to the start of the MIR.
unfoldable pub translate_named : Session → Body → T (List LocalName × BbName)
unfolding name_locals declare_locals translate_params fresh_bb_name live_statements bb_name
    insert_block translate_bbs
translate_named session body = do
  name_locals 0 body.local_decls
  declare_locals 0 body.local_decls
  (args, statements) ← translate_params body 1 body.arg_count
  init_bb ← fresh_bb_name
  live ← live_statements (body.arg_count + 1) body.always_live
  start ← bb_name 0
  insert_block init_bb (record {
    statements = statements ++ live;
    terminator = Terminator.goto start;
    kind = regular;
  })
  translate_bbs session 0 body.basic_blocks
  return (args, init_bb)

abbrev pub translate_body : Session → Body → T (List LocalName × BbName)
translate_body session body = do name_blocks 0 body.basic_blocks; translate_named session body

unfoldable pub translate : Session → Body → Outcome Function
unfolding name_blocks translate_named
translate session body = and_then (translate_body session body new_context) λ r. ok (record {
  locals = r.1.locals;
  args = r.0.0;
  ret = 0;
  calling_convention = body.conv;
  blocks = r.1.blocks;
  start = r.0.1;
})
