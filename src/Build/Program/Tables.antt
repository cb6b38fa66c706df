-- ===== src/Build/Program/Tables.antt =====
-- tooling/miniutil/src/build/mod.rs: what the builder of a program keeps of its tables, and the
-- program that it gives.
use mts_minirust_work.Prelude.{
  ℕ, ◌≡◌, refl, sym, ◌∙◌, subst, inl, inr, Bool, true, false, List, none, some, some_inj,
  if◌then◌else◌, eqb, eqb_iff, arith, nat_eq, Bool-cases, Option-cases,
}
use mts_minirust_work.Prelude.Maps.{
  Map, get, insert, contains_key, try_insert, get-insert, contains_key-get,
}
use mts_minirust_work.Prelude.Outcome
use mts_minirust_work.Prelude.Outcome.{
  Outcome, ok, panic, Panic, AnyPanic, guard, Post, returns, panics, Post-bind, Post-weaken,
  missing_name,
}
use mts_minirust_work.Lang.Types.{TraitName}
use mts_minirust_work.Lang.Syntax.{
  FnName, VTableName, TraitMethodName, VTable, Function, CallingConvention,
}
use mts_minirust_work.Build.Program.{
  ProgramBuilder, VTableBuilder, TraitBuilder, finish_program, add_vtable, add_trait, finish_vtable,
  keys, set_eq,
}

-- The trait of a vtable is declared, with the methods of the vtable.
abbrev pub Matches : Map TraitName (List TraitMethodName) → VTable → Type 0
Matches traits v =
    (names : List TraitMethodName) × (get v.trait_name traits ≡ some names)
    × (set_eq names (keys v.methods) ≡ true)

abbrev pub VTablesOk : Map VTableName VTable → Map TraitName (List TraitMethodName) → Type 0
VTablesOk vtables traits = (n : VTableName) (v : VTable) → get n vtables ≡ some v → Matches traits v

-- an entry that goes in under a new name: what was there, is there
pub try_insert_rule :
    {V : Type 0} (k : ℕ) (x : V) (m : Map ℕ V)
    → Post
        (λ l. (get k m ≡ none) × ((j : ℕ) → get j l ≡ (if eqb k j then some x else get j m)))
        AnyPanic
        (try_insert k x m)
unfolding try_insert get
try_insert_rule k x m = elim (Bool-cases (contains_key k m)) [
  | inl there ↦ rw there (panics tt)
  | inr fresh ↦ rw fresh (returns (contains_key-get k m fresh, λ j. refl))
]

guard_rule : (b : Bool) (e : Panic) → Post (λ _. b ≡ true) AnyPanic (guard b e)
guard_rule true e = returns refl
guard_rule false e = panics tt

finish_vtable-Matches :
    (v : VTableBuilder) (traits : Map TraitName (List TraitMethodName))
    (names : List TraitMethodName)
    → get v.trait_name traits ≡ some names
    → set_eq names (keys v.methods) ≡ true
    → Matches traits (finish_vtable v)
unfolding finish_vtable
finish_vtable-Matches v traits names h same = (names, h, same)

add_vtable-some :
    (v : VTableBuilder) (pb : ProgramBuilder) (names : List TraitMethodName)
    → get v.trait_name pb.traits ≡ some names
    → add_vtable v pb
      ≡ Outcome.◌>>◌ (guard (set_eq names (keys v.methods)) Panic.method_mismatch) (
          Outcome.◌>>=◌
            (try_insert v.name (finish_vtable v) pb.vtables)
            (λ vtables. ok (v.name, record pb { vtables = vtables })))
unfolding add_vtable
add_vtable-some v pb names h = ground arith

add_vtable_none :
    (v : VTableBuilder) (pb : ProgramBuilder)
    → get v.trait_name pb.traits ≡ none
    → add_vtable v pb ≡ panic missing_name
unfolding add_vtable
add_vtable_none v pb h = ground arith

-- If every vtable of the program builder has a declared trait with the same set of methods, then
-- finishing a vtable panics, or keeps this for all vtables and stores the finished one under its
-- name.
pub add_vtable-VTablesOk :
    (v : VTableBuilder) (pb : ProgramBuilder)
    → VTablesOk pb.vtables pb.traits
    → Post
        (λ r. VTablesOk r.1.vtables r.1.traits × (get r.0 r.1.vtables ≡ some (finish_vtable v)))
        AnyPanic
        (add_vtable v pb)
add_vtable-VTablesOk v pb ok_before = elim (Option-cases (get v.trait_name pb.traits)) [
  | inl missing ↦ rw (add_vtable_none v pb missing) (panics tt)
  | inr (names, h) ↦ rw (add_vtable-some v pb names h) (
      Post-bind (guard_rule _ _) λ u same.
        Post-bind (try_insert_rule v.name (finish_vtable v) pb.vtables) λ l (fresh, found).
          returns (
            (λ n w q. elim (Bool-cases (eqb v.name n)) [
              | inl here ↦
                  (let now : some (finish_vtable v) ≡ some w = rw here at (sym (found n) ∙ q) in
                    subst (Matches pb.traits) (some_inj now)
                      (finish_vtable-Matches v pb.traits names h same))
              | inr other ↦ ok_before n w (rw other at (sym (found n) ∙ q))
            ]),
            found v.name ∙ ground (arith, eqb_iff v.name v.name),
          ))
]

-- If every vtable of the program builder has a declared trait with the same set of methods, then
-- finishing a trait panics, or keeps this and stores the methods of the trait under its name.
pub add_trait-VTablesOk :
    (t : TraitBuilder) (pb : ProgramBuilder)
    → VTablesOk pb.vtables pb.traits
    → Post
        (λ r. VTablesOk r.1.vtables r.1.traits × (get r.0 r.1.traits ≡ some t.method_names))
        AnyPanic
        (add_trait t pb)
unfolding add_trait
add_trait-VTablesOk t pb ok_before =
    Post-bind (try_insert_rule t.name t.method_names pb.traits) λ l (fresh, found). returns (
      (λ n v q.
          let (names, h, same) = ok_before n v q in
          (
            names,
            found v.trait_name ∙ ground (arith, h, fresh, eqb_iff t.name v.trait_name),
            same,
          )),
      found t.name ∙ ground (arith, eqb_iff t.name t.name),
    )

abbrev pub with_c : Function → Function
with_c f = record f { calling_convention = CallingConvention.c }

finish_program_none :
    (start : FnName) (pb : ProgramBuilder)
    → get start pb.functions ≡ none
    → finish_program start pb ≡ panic missing_name
unfolding finish_program
finish_program_none start pb h = ground arith

finish_program-some :
    (start : FnName) (pb : ProgramBuilder) (f : Function)
    → get start pb.functions ≡ some f
    → finish_program start pb
      ≡ ok (
        record {
          functions = insert start (with_c f) pb.functions;
          start = start;
          globals = pb.globals;
          traits = pb.traits;
          vtables = pb.vtables;
        },
        record pb { functions = insert start (with_c f) pb.functions },
      )
unfolding finish_program
finish_program-some start pb f h = ground arith

-- `finish_program` panics only where the start function does not exist. Otherwise the program
-- starts with that function and has the functions of the builder, the start function with the C
-- calling convention and all others unchanged; and vtables that match their traits in the builder
-- match them in the program.
pub finish_program_lem :
    (start : FnName) (pb : ProgramBuilder)
    → Post
        (λ r.
          (f : Function) × (get start pb.functions ≡ some f)
          × (r.0.start ≡ start)
          × ((j : FnName)
              → get j r.0.functions ≡ (if eqb start j then some (with_c f) else get j pb.functions))
          × (VTablesOk pb.vtables pb.traits → VTablesOk r.0.vtables r.0.traits))
        (λ e. (e ≡ missing_name) × (get start pb.functions ≡ none))
        (finish_program start pb)
finish_program_lem start pb = elim (Option-cases (get start pb.functions)) [
  | inl missing ↦ rw (finish_program_none start pb missing) (panics (refl, missing))
  | inr (f, h) ↦
      rw (finish_program-some start pb f h)
        (returns (f, h, refl, (λ j. get-insert start j _ pb.functions), λ o. o))
]
