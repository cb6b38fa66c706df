-- ===== src/Fmt/Program/Balance.antt =====
-- tooling/miniutil/src/fmt: printing a whole program ends, and the parentheses of the text.
use mts_minirust_work.Prelude.{
  ℕ, suc, refl, List, [], ◌∷◌, Option, none, some, map, arith, All, length, subst, sym,
}
use mts_minirust_work.Prelude.Positions.{Distinct, Included}
use mts_minirust_work.Prelude.Maps.{Map}
use mts_minirust_work.Prelude.Outcome.{Outcome, ok, panic, Post, returns, panics, AnyPanic}
use mts_minirust_work.Lang.Types.{Ty, TraitName, Offset}
use mts_minirust_work.Lang.Syntax.{
  FnName, GlobalName, VTableName, TraitMethodName, Relocation, Global, VTable, Program,
}
use mts_minirust_work.Fmt.Text.{Text, codes, leb_text, sort, sort_by_key}
use mts_minirust_work.Fmt.Text.Parens.{
  sum_by, count, paren_rules, LeavesOpen, LeaveOpen, NoParens, join-LeavesOpen,
}
use mts_minirust_work.Fmt.Ty.{fmt_trait_name}
use mts_minirust_work.Fmt.Ty.Printed.{IsComposite}
use mts_minirust_work.Fmt.Ty.Nested.{all_composites, all_composites-Nests, Included-all_composites}
use mts_minirust_work.Fmt.Ty.Definitions.{Ends, or_panic-Ends, print_comptypes-Ends}
use mts_minirust_work.Fmt.State.{ty_eq}
use mts_minirust_work.Fmt.Expr.{fmt_global_name, fmt_vtable_name, fmt_trait_method_name}
use mts_minirust_work.Fmt.Expr.Printed.{fmt_relocation-Closed, fmt_fn_name-NoParens}
use mts_minirust_work.Fmt.Text.Sorted.{sum_by-sort}
use mts_minirust_work.Fmt.Function.Printed.{unclosed_function, fmt_functions-Emits}
use mts_minirust_work.Fmt.Program.{
  byte_text, fmt_bytes, fmt_relocations, fmt_global, concat_entries, fmt_globals, fmt_methods,
  fmt_vtable, fmt_vtables, fmt_trait, fmt_traits, fmt_comptypes, map_text, fmt_program,
}

byte_text-NoParens : (b : Option ℕ) → NoParens (byte_text b)
byte_text-NoParens none = (refl, refl)
byte_text-NoParens (some u) = ground arith

bytes-LeaveOpen : (bytes : List (Option ℕ)) → LeaveOpen 0 (map byte_text bytes)
bytes-LeaveOpen [] = refl
bytes-LeaveOpen (b ∷ bytes) = grind (arith, byte_text-NoParens b, bytes-LeaveOpen bytes)

fmt_bytes-Closed : (bytes : List (Option ℕ)) → LeavesOpen 0 (fmt_bytes bytes)
unfolding fmt_bytes
fmt_bytes-Closed bytes = join-LeavesOpen 0 (codes " ") _ (refl, refl) (bytes-LeaveOpen bytes)

fmt_relocations-Closed : (rels : List (Offset × Relocation)) → LeavesOpen 0 (fmt_relocations rels)
unfolding fmt_relocations
fmt_relocations-Closed [] = refl
fmt_relocations-Closed ((i, rel) ∷ rels) =
    grind (paren_rules, fmt_relocation-Closed rel, fmt_relocations-Closed rels)

concat_entries-Closed {ℓ} :
    {V : Type ℓ} (f : ℕ → V → Text) (kvs : List (ℕ × V))
    → ((k : ℕ) (v : V) → LeavesOpen 0 (f k v))
    → LeavesOpen 0 (concat_entries f kvs)
concat_entries-Closed f [] h = refl
concat_entries-Closed f ((k, v) ∷ kvs) h = grind (paren_rules, h k v, concat_entries-Closed f kvs h)

fmt_global-Closed : (name : GlobalName) (g : Global) → LeavesOpen 0 (fmt_global name g)
unfolding fmt_global fmt_global_name
fmt_global-Closed name g =
    grind (paren_rules, fmt_bytes-Closed g.bytes, fmt_relocations-Closed g.relocations)

fmt_methods-Closed : (ms : Map TraitMethodName FnName) → LeavesOpen 0 (fmt_methods ms)
unfolding fmt_trait_method_name
fmt_methods-Closed [] = refl
fmt_methods-Closed ((m, f) ∷ ms) =
    grind (paren_rules, fmt_fn_name-NoParens f, fmt_methods-Closed ms)

fmt_vtable-Closed : (name : VTableName) (v : VTable) → LeavesOpen 0 (fmt_vtable name v)
unfolding fmt_vtable fmt_vtable_name fmt_trait_name
fmt_vtable-Closed name v = grind (paren_rules, fmt_methods-Closed v.methods)

methods-LeaveOpen : (ms : List TraitMethodName) → LeaveOpen 0 (map fmt_trait_method_name ms)
unfolding fmt_trait_method_name
methods-LeaveOpen [] = refl
methods-LeaveOpen (m ∷ ms) = grind (paren_rules, methods-LeaveOpen ms)

fmt_trait-Closed : (name : TraitName) (ms : List TraitMethodName) → LeavesOpen 0 (fmt_trait name ms)
unfolding fmt_trait fmt_trait_name
fmt_trait-Closed name ms = grind (
  paren_rules,
  join-LeavesOpen 0 (codes ", ") (sort leb_text (map fmt_trait_method_name ms)) (refl, refl)
      (rw (sum_by-sort (count b'(') leb_text (map fmt_trait_method_name ms)) (
        rw (sum_by-sort (count b')') leb_text (map fmt_trait_method_name ms))
          (methods-LeaveOpen ms))),
)

-- The parts of the text that no list of types is passed to.
fmt_globals-Closed : (globals : Map GlobalName Global) → LeavesOpen 0 (fmt_globals globals)
unfolding fmt_globals
fmt_globals-Closed globals =
    concat_entries-Closed fmt_global (sort_by_key globals) fmt_global-Closed

fmt_vtables-Closed : (vtables : Map VTableName VTable) → LeavesOpen 0 (fmt_vtables vtables)
unfolding fmt_vtables
fmt_vtables-Closed vtables =
    grind (paren_rules, concat_entries-Closed fmt_vtable (sort_by_key vtables) fmt_vtable-Closed)

fmt_traits-Closed :
    (traits : Map TraitName (List TraitMethodName)) → LeavesOpen 0 (fmt_traits traits)
unfolding fmt_traits
fmt_traits-Closed traits =
    grind (paren_rules, concat_entries-Closed fmt_trait (sort_by_key traits) fmt_trait-Closed)

-- x
pub fmt_comptypes-Ends :
    (cs : List Ty) → Distinct cs → All IsComposite cs → Ends 0 (fmt_comptypes cs)
unfolding fmt_comptypes Included
fmt_comptypes-Ends cs d h =
    print_comptypes-Ends (all_composites cs) (all_composites-Nests cs)
      (suc (length (all_composites cs))) 0 [] cs refl d (Included-all_composites cs h) (omega arith)
      (omega arith)

map_text-Post :
    (n : ℕ) (f : Text → Text) {r : Outcome Text}
    → ((s : Text) → LeavesOpen 0 s → LeavesOpen n (f s))
    → Post (LeavesOpen 0) AnyPanic r
    → Ends n (map_text f (some r))
map_text-Post n f k (returns h) = (ok _, refl, returns (k _ h))
map_text-Post n f k (panics e) = (panic _, refl, panics tt)

map_text-Ends :
    (n : ℕ) (f : Text → Text) (o : Option (Outcome Text))
    → ((s : Text) → LeavesOpen 0 s → LeavesOpen n (f s))
    → Ends 0 o
    → Ends n (map_text f o)
map_text-Ends n f o k (r, q, h) = subst (λ p. Ends n (map_text f p)) (sym q) (map_text-Post n f k h)

-- Printing a program ends: the loop over the composite types, which are found while it runs,
-- never runs out of the fuel it is given. The result is a panic, or a text that opens as many
-- parentheses as it closes and one more for each `BitNot` and `CountOnes` in the program.
pub fmt_program-Ends :
    (prog : Program) → Ends (sum_by unclosed_function prog.functions) (fmt_program prog)
unfolding fmt_program
fmt_program-Ends prog = or_panic-Ends _ ((fmt_functions-Emits prog).run []) λ s cs (b, x).
    map_text-Ends _ _ _
      (λ t c. grind (
        paren_rules,
        b,
        c,
        fmt_globals-Closed prog.globals,
        fmt_traits-Closed prog.traits,
        fmt_vtables-Closed prog.vtables,
      ))
      (fmt_comptypes-Ends cs (x.distinct tt) (subst (All IsComposite) (sym x.at_end) x.found_all))
