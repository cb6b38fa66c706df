-- ===== src/Build/State.antt =====
-- tooling/miniutil/src/build/mod.rs: the builder of a function. A method takes the builder and
-- returns its result with the new builder, or panics. A counter is a `u32`; `+= 1` panics on
-- overflow, as in the profile that `cargo run` and `cargo test` build.
use mts_minirust_work.Prelude.{
  ℕ, ◌+◌, ◌^◌, List, [], ◌∷◌, ◌++◌, Option, none, some, ltb, nat_eq, if◌then◌else◌,
}
use mts_minirust_work.Prelude.Maps.{Map, contains_key, try_insert}
use mts_minirust_work.Prelude.Outcome
use mts_minirust_work.Prelude.Outcome.{
  Outcome, ok, panic, Panic, overflow, block_exists, unfinished_block, no_current_block,
  ret_already_set,
}
use mts_minirust_work.Lang.Types.{Ty}
use mts_minirust_work.Lang.Syntax.{
  FnName, LocalName, BbName, Statement, BbKind, BasicBlock, CallingConvention, Function, PlaceExpr,
  regular, cleanup, catch, terminate,
}
use mts_minirust_work.Build.Ty.{RustTy, get_type}
use mts_minirust_work.Build.Expr.{local_by_name}

pub record CurBlock : Type 0 where
  pub statements : List Statement
  pub name : BbName
  pub kind : BbKind

pub record FunctionBuilder : Type 0 where
  pub name : FnName
  pub locals : Map LocalName Ty
  pub args : List LocalName
  pub blocks : Map BbName BasicBlock
  pub start : BbName
  pub ret : Option LocalName
  pub conv : CallingConvention
  pub cur_block : Option CurBlock
  pub next_block : ℕ
  pub next_local : ℕ

-- A method of the builder.
abbrev pub M : Type 0 → Type 0
M A = FunctionBuilder → Outcome (A × FunctionBuilder)

abbrev pub pure : {A : Type 0} → A → M A
pure a fb = ok (a, fb)

infixl 5 ◌>>=◌ ◌>>◌
abbrev pub ◌>>=◌ : {A B : Type 0} → M A → (A → M B) → M B
◌>>=◌ m f fb = Outcome.◌>>=◌ (m fb) (λ r. f r.0 r.1)

abbrev pub ◌>>◌ : {B : Type 0} → M (Unit {0}) → M B → M B
m >> k = m >>= λ _. k

-- A part that does not touch the builder.
abbrev pub lift : {A : Type 0} → Outcome A → M A
lift m fb = Outcome.◌>>=◌ m (λ a. ok (a, fb))

-- `u32` addition of 1
unfoldable pub next : ℕ → Outcome ℕ
next n = if ltb (n + 1) (2 ^ 32) then ok (n + 1) else panic overflow

unfoldable pub declare_block : M BbName
unfolding next
declare_block fb =
    Outcome.◌>>=◌ (next fb.next_block) (λ n. ok (fb.next_block, record fb { next_block = n }))

unfoldable pub set_cur_block : BbName → BbKind → M (Unit {0})
unfolding contains_key
set_cur_block name kind fb =
    if contains_key name fb.blocks then panic block_exists else elim fb.cur_block [
      | none ↦ ok (
        tt,
        record fb { cur_block = some (record { statements = []; name = name; kind = kind }) },
      )
      | some _ ↦ panic unfinished_block
    ]

-- `cur_block`: the current block, to be read
unfoldable pub cur_block : M CurBlock
cur_block fb = elim fb.cur_block [ none ↦ panic no_current_block | some c ↦ ok (c, fb) ]

-- `cur_block().kind`
unfoldable pub cur_kind : M BbKind
unfolding cur_block
cur_kind = do c ← cur_block; pure c.kind

-- `cur_block().statements.push(st)`
unfoldable pub push_statement : Statement → M (Unit {0})
push_statement st fb = elim fb.cur_block [
  | none ↦ panic no_current_block
  | some c ↦
      ok (tt, record fb { cur_block = some (record c { statements = c.statements ++ st ∷ [] }) })
]

-- `FunctionBuilder::new` with its starting block
unfoldable pub new : FnName → Outcome FunctionBuilder
unfolding declare_block set_cur_block
new name =
    let fb : FunctionBuilder = record {
      name = name;
      locals = [];
      args = [];
      blocks = [];
      start = 0;
      ret = none;
      conv = CallingConvention.rust;
      cur_block = none;
      next_block = 0;
      next_local = 0;
    } in
    Outcome.◌>>=◌ (declare_block fb)
      (λ r. Outcome.◌>>=◌ (set_cur_block r.0 regular r.1) (λ s. ok s.1))

unfoldable pub fresh_local_name : M LocalName
unfolding next
fresh_local_name fb =
    Outcome.◌>>=◌ (next fb.next_local) (λ n. ok (fb.next_local, record fb { next_local = n }))

-- `locals.try_insert(name, ty).unwrap()`
unfoldable pub insert_local : LocalName → Ty → M (Unit {0})
unfolding try_insert
insert_local name ty fb =
    Outcome.◌>>=◌ (try_insert name ty fb.locals) (λ l. ok (tt, record fb { locals = l }))

unfoldable pub declare_local_with_ty : Ty → M PlaceExpr
unfolding fresh_local_name insert_local local_by_name
declare_local_with_ty ty = do
  name ← fresh_local_name
  insert_local name ty
  pure (local_by_name name)

unfoldable pub declare_local : RustTy → M PlaceExpr
unfolding fresh_local_name insert_local local_by_name get_type
declare_local t = do
  name ← fresh_local_name
  ty ← lift (get_type t)
  insert_local name ty
  pure (local_by_name name)

abbrev pub set_ret : LocalName → M (Unit {0})
set_ret name fb = ok (tt, record fb { ret = some name })

abbrev pub push_arg : LocalName → M (Unit {0})
push_arg name fb = ok (tt, record fb { args = fb.args ++ name ∷ [] })

-- the name of a return local, once
unfoldable pub fresh_ret_name : M LocalName
unfolding fresh_local_name
fresh_ret_name fb = elim fb.ret [ none ↦ fresh_local_name fb | some _ ↦ panic ret_already_set ]

-- the return local by its type, for `declare_ret` and the default of `finish_function`
unfoldable pub declare_ret_with_ty : Ty → M PlaceExpr
unfolding fresh_ret_name insert_local local_by_name
declare_ret_with_ty ty = do
  name ← fresh_ret_name
  insert_local name ty
  set_ret name
  pure (local_by_name name)

unfoldable pub declare_ret : RustTy → M PlaceExpr
unfolding fresh_ret_name insert_local local_by_name get_type
declare_ret t = do
  name ← fresh_ret_name
  ty ← lift (get_type t)
  insert_local name ty
  set_ret name
  pure (local_by_name name)

unfoldable pub declare_arg_with_ty : Ty → M PlaceExpr
unfolding fresh_local_name insert_local local_by_name
declare_arg_with_ty ty = do
  name ← fresh_local_name
  insert_local name ty
  push_arg name
  pure (local_by_name name)

unfoldable pub declare_arg : RustTy → M PlaceExpr
unfolding declare_arg_with_ty get_type
declare_arg t = do ty ← lift (get_type t); declare_arg_with_ty ty

unfoldable pub set_conv : CallingConvention → M (Unit {0})
set_conv conv fb = ok (tt, record fb { conv = conv })

abbrev pub take_cur_block : M (Option CurBlock)
take_cur_block fb = ok (fb.cur_block, record fb { cur_block = none })

abbrev pub ensure_finished : M (Unit {0})
ensure_finished fb = elim fb.cur_block [ none ↦ ok (tt, fb) | some _ ↦ panic unfinished_block ]

abbrev pub restore_cur_block : Option CurBlock → M (Unit {0})
restore_cur_block old fb = ok (tt, record fb { cur_block = old })

-- what `cleanup_block`, `terminating_block` and `catch_block` share
unfoldable pub block_of_kind : BbKind → M (Unit {0}) → M BbName
unfolding declare_block set_cur_block
block_of_kind kind builder = do
  old ← take_cur_block
  block ← declare_block
  set_cur_block block kind
  builder
  ensure_finished
  restore_cur_block old
  pure block

unfoldable pub cleanup_block : M (Unit {0}) → M BbName
unfolding block_of_kind
cleanup_block builder = block_of_kind cleanup builder

unfoldable pub terminating_block : M (Unit {0}) → M BbName
unfolding block_of_kind
terminating_block builder = block_of_kind terminate builder

unfoldable pub catch_block : M (Unit {0}) → M BbName
unfolding block_of_kind
catch_block builder = block_of_kind catch builder

-- the function, from a builder whose return local is set
abbrev pub assemble : FunctionBuilder → LocalName → Function
assemble fb r = record {
  locals = fb.locals;
  args = fb.args;
  ret = r;
  calling_convention = fb.conv;
  blocks = fb.blocks;
  start = fb.start;
}

-- the end of `finish_function`: `ret.unwrap()`
abbrev pub finish_ret : FunctionBuilder → Outcome Function
finish_ret fb = elim fb.ret [ none ↦ panic Panic.missing_name | some r ↦ ok (assemble fb r) ]

-- A function without a return local gets one of type `()`.
unfoldable pub finish_function : FunctionBuilder → Outcome Function
unfolding declare_ret
finish_function fb = elim fb.cur_block [
  | some _ ↦ panic unfinished_block
  | none ↦ elim fb.ret [
    | some r ↦ finish_ret fb
    | none ↦ Outcome.◌>>=◌ (declare_ret RustTy.unit fb) (λ r. finish_ret r.1)
  ]
]
