-- ===== src/Fmt/Program.antt =====
-- tooling/miniutil/src/fmt: global.rs, vtables.rs and mod.rs, printing the other parts of a program
-- and the whole program.
pub mod Balance
pub mod Order
use mts_minirust_work.Prelude.{ℕ, suc, length, List, [], ◌∷◌, ◌++◌, Option, none, some, map}
use mts_minirust_work.Prelude.Maps.{Map}
use mts_minirust_work.Lang.Types.{Ty, TraitName, Offset}
use mts_minirust_work.Lang.Syntax.{
  Program, FnName, GlobalName, VTableName, TraitMethodName, Relocation, Global, VTable,
}
use mts_minirust_work.Fmt.Text.{Text, codes, show, show_hex, join, leb_text, sort, sort_by_key}
use mts_minirust_work.Fmt.Ty.Nested.{all_composites}
use mts_minirust_work.Prelude.Outcome.{Outcome, ok, panic}
use mts_minirust_work.Fmt.Function.{fmt_functions}
use mts_minirust_work.Fmt.Ty.{print_comptypes, or_panic, to_string, fmt_trait_name}
use mts_minirust_work.Fmt.Expr.{
  fmt_global_name, fmt_fn_name, fmt_vtable_name, fmt_trait_method_name, fmt_relocation,
}

abbrev pub byte_text : Option ℕ → Text
byte_text (some u) = show_hex u
byte_text none = codes "__"

unfoldable pub fmt_bytes : List (Option ℕ) → Text
unfolding join
fmt_bytes bytes = join (codes " ") (map byte_text bytes)

unfoldable pub fmt_relocations : List (Offset × Relocation) → Text
unfolding show fmt_relocation to_string
fmt_relocations [] = []
fmt_relocations ((i, rel) ∷ rels) =
    codes "  at byte "
    ++ show i
    ++ codes ": "
    ++ to_string (fmt_relocation rel)
    ++ codes ",\n"
    ++ fmt_relocations rels

unfoldable pub fmt_global : GlobalName → Global → Text
unfolding fmt_global_name fmt_bytes show fmt_relocations
fmt_global gname global =
    fmt_global_name gname
    ++ codes " {\n  bytes = ["
    ++ fmt_bytes global.bytes
    ++ codes "],\n  align = "
    ++ show global.align
    ++ codes " bytes,\n"
    ++ fmt_relocations global.relocations
    ++ codes "}\n\n"

-- The loops over the entries of a sorted map.
abbrev pub concat_entries {ℓ} : {V : Type ℓ} → (ℕ → V → Text) → List (ℕ × V) → Text
concat_entries f [] = []
concat_entries f ((k, v) ∷ kvs) = f k v ++ concat_entries f kvs

unfoldable pub fmt_globals : Map GlobalName Global → Text
unfolding fmt_global sort_by_key
fmt_globals globals = concat_entries fmt_global (sort_by_key globals)

abbrev pub fmt_methods : Map TraitMethodName FnName → Text
fmt_methods [] = []
fmt_methods ((meth, impel) ∷ methods) =
    codes "  "
    ++ fmt_trait_method_name meth
    ++ codes "() = "
    ++ fmt_fn_name impel
    ++ codes ",\n"
    ++ fmt_methods methods

unfoldable pub fmt_vtable : VTableName → VTable → Text
unfolding fmt_vtable_name fmt_trait_name fmt_trait_method_name fmt_fn_name show
fmt_vtable vname vtable =
    fmt_vtable_name vname
    ++ codes " {\n  trait = "
    ++ fmt_trait_name vtable.trait_name
    ++ codes ",\n  size = "
    ++ show vtable.size
    ++ codes ",\n  align = "
    ++ show vtable.align
    ++ codes ",\n"
    ++ fmt_methods vtable.methods
    ++ codes "}\n"

unfoldable pub fmt_vtables : Map VTableName VTable → Text
unfolding fmt_vtable sort_by_key
fmt_vtables vtables = concat_entries fmt_vtable (sort_by_key vtables) ++ codes "\n"

unfoldable pub fmt_trait : TraitName → List TraitMethodName → Text
unfolding fmt_trait_name fmt_trait_method_name join sort leb_text
fmt_trait trait_name methods =
    fmt_trait_name trait_name
    ++ codes " { "
    ++ join (codes ", ") (sort leb_text (map fmt_trait_method_name methods))
    ++ codes " }\n"

unfoldable pub fmt_traits : Map TraitName (List TraitMethodName) → Text
unfolding fmt_trait sort_by_key
fmt_traits traits = concat_entries fmt_trait (sort_by_key traits) ++ codes "\n"

-- The fuel is the number of types that can be listed, and one for the last test.
unfoldable pub fmt_comptypes : List Ty → Option (Outcome Text)
unfolding print_comptypes
fmt_comptypes comptypes = print_comptypes (suc (length (all_composites comptypes))) 0 [] comptypes

abbrev pub map_text : (Text → Text) → Option (Outcome Text) → Option (Outcome Text)
map_text f (some (ok s)) = some (ok (f s))
map_text f (some (panic e)) = some (panic e)
map_text f none = none

unfoldable pub fmt_program : Program → Option (Outcome Text)
unfolding fmt_functions fmt_comptypes fmt_globals fmt_traits fmt_vtables
fmt_program prog = or_panic (fmt_functions prog []) λ functions_string comptypes.
    map_text
      (λ comptypes_string.
        comptypes_string
        ++ fmt_traits prog.traits
        ++ fmt_vtables prog.vtables
        ++ functions_string
        ++ fmt_globals prog.globals)
      (fmt_comptypes comptypes)
