-- ===== src/Build/Function.antt =====
-- tooling/miniutil/src/build/function.rs: functions and blocks from slices, named by position.
pub mod Positions
pub mod Args
use mts_minirust_work.Prelude.{
  ℕ, zero, suc, ◌+◌, ◌^◌, ◌%◌, Bool, List, [], ◌∷◌, if◌then◌else◌, ltb, length, nat_eq,
}
use mts_minirust_work.Prelude.Maps.{Map, try_insert, collect}
use mts_minirust_work.Prelude.Outcome.{Outcome, ok, panic, ◌>>=◌, ◌>>◌, guard, no_locals}
use mts_minirust_work.Lang.Types.{Ty}
use mts_minirust_work.Lang.Syntax.{
  LocalName, BbName, Statement, Terminator, BbKind, BasicBlock, CallingConvention, Function,
  ValueExpr,
}
use mts_minirust_work.Build.Ty.{RustTy, get_type}
use mts_minirust_work.Build.Expr.{fn_ptr}

-- `as u32`
abbrev pub as_u32 : ℕ → ℕ
as_u32 n = n % 2 ^ 32

unfoldable pub fn_ptr_internal : ℕ → ValueExpr
unfolding fn_ptr
fn_ptr_internal fn_name = fn_ptr (as_u32 fn_name)

pub data Ret : Type 0 where
  yes no : Ret

-- `iter().enumerate()`, with the position as a name
unfoldable pub enumerate {ℓ} : {A : Type ℓ} → ℕ → List A → List (ℕ × A)
enumerate i [] = []
enumerate i (x ∷ xs) = (as_u32 i, x) ∷ enumerate (suc i) xs

-- the map from positions to elements
unfoldable pub by_position {ℓ} : {A : Type ℓ} → List A → List (ℕ × A)
unfolding enumerate collect
by_position xs = collect (enumerate 0 xs) []

-- the names of the arguments: the return local, if there is one, is before them
abbrev pub arg_name : Ret → ℕ → LocalName
arg_name Ret.yes x = as_u32 (x + 1)
arg_name Ret.no x = as_u32 x

-- `(from..from + num_args).map(arg_name)`
unfoldable pub arg_names : Ret → ℕ → ℕ → List LocalName
arg_names ret from zero = []
arg_names ret from (suc n) = arg_name ret from ∷ arg_names ret (suc from) n

-- the return local, and the locals with it
unfoldable pub ret_local : Ret → Map LocalName Ty → Outcome (LocalName × Map LocalName Ty)
unfolding try_insert get_type
ret_local Ret.yes locals = do guard (ltb 0 (length locals)) no_locals; ok (0, locals)
ret_local Ret.no locals = do
  unit ← get_type RustTy.unit
  locals' ← try_insert (as_u32 (length locals)) unit locals
  ok (as_u32 (length locals), locals')

unfoldable pub function : Ret → ℕ → List Ty → List BasicBlock → Outcome Function
unfolding by_position arg_names ret_local
function ret num_args locals bbs = do
  (name, locals') ← ret_local ret (by_position locals)
  ok (record {
    locals = locals';
    args = arg_names ret 0 num_args;
    ret = name;
    calling_convention = CallingConvention.c;
    blocks = by_position bbs;
    start = 0;
  })

unfoldable pub block : List Statement → Terminator → BbKind → BasicBlock
block statements terminator kind = record {
  statements = statements;
  terminator = terminator;
  kind = kind;
}
