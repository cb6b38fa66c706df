-- ===== src/Build/Globals.antt =====
-- tooling/miniutil/src/build/global.rs: globals that are initialized to zero.
use mts_minirust_work.Prelude.{[], some, replicate, nat_eq}
use mts_minirust_work.Prelude.Maps.{try_insert}
use mts_minirust_work.Prelude.Outcome.{Outcome, ok, ◌>>=◌}
use mts_minirust_work.Lang.Syntax.{PlaceExpr, Global}
use mts_minirust_work.Lang.Layout.{expect_size}
use mts_minirust_work.Build.State.{next}
use mts_minirust_work.Build.Ty.{RustTy, get_size, get_align, get_layout}
use mts_minirust_work.Build.Expr.{global_by_name}
use mts_minirust_work.Build.Program.{ProgramBuilder}

unfoldable pub global_int : RustTy → Outcome Global
unfolding get_size get_align
global_int t = do
  size ← get_size t
  align ← get_align t
  ok (record { bytes = replicate size (some 0); relocations = []; align = align })

unfoldable pub global_ptr : RustTy → Outcome Global
unfolding get_layout expect_size get_align
global_ptr t = do
  l ← get_layout (RustTy.const_ptr t)
  size ← expect_size l
  align ← get_align (RustTy.const_ptr t)
  ok (record { bytes = replicate size (some 0); relocations = []; align = align })

unfoldable pub declare_global_zero_initialized :
    RustTy → ProgramBuilder → Outcome (PlaceExpr × ProgramBuilder)
unfolding get_size get_align next try_insert global_by_name
declare_global_zero_initialized t pb = do
  size ← get_size t
  align ← get_align t
  n ← next pb.next_global
  globals ←
      try_insert pb.next_global
        (record { bytes = replicate size (some 0); relocations = []; align = align }) pb.globals
  place ← global_by_name t pb.next_global
  ok (place, record pb { next_global = n; globals = globals })
