-- ===== src/Build/Methods/Intrinsics.antt =====
-- tooling/miniutil/src/build/terminator.rs: the methods of the builder for intrinsics that go on
-- in a next block.
use mts_minirust_work.Prelude.{nat_eq}
use mts_minirust_work.Prelude.Int.{int_eq}
use mts_minirust_work.Lang.Syntax.{FnName, ValueExpr, PlaceExpr}
use mts_minirust_work.Build.Expr.{fn_ptr}
use mts_minirust_work.Build.Terminators
use mts_minirust_work.Build.Terminators.{FetchBinOp}
use mts_minirust_work.Build.State.{M}
use mts_minirust_work.Build.Methods.Blocks.{finish_with_next_block}

unfoldable pub assume : ValueExpr → M (Unit {0})
unfolding finish_with_next_block Terminators.assume
assume val = finish_with_next_block (λ next. Terminators.assume val next)

unfoldable pub print : ValueExpr → M (Unit {0})
unfolding finish_with_next_block Terminators.print
print arg = finish_with_next_block (λ next. Terminators.print arg next)

unfoldable pub eprint : ValueExpr → M (Unit {0})
unfolding finish_with_next_block Terminators.eprint
eprint arg = finish_with_next_block (λ next. Terminators.eprint arg next)

unfoldable pub allocate : ValueExpr → ValueExpr → PlaceExpr → M (Unit {0})
unfolding finish_with_next_block Terminators.allocate
allocate size align ret_place =
    finish_with_next_block (λ next. Terminators.allocate size align ret_place next)

unfoldable pub deallocate : ValueExpr → ValueExpr → ValueExpr → M (Unit {0})
unfolding finish_with_next_block Terminators.deallocate
deallocate ptr size align =
    finish_with_next_block (λ next. Terminators.deallocate ptr size align next)

unfoldable pub spawn : FnName → ValueExpr → PlaceExpr → M (Unit {0})
unfolding finish_with_next_block Terminators.spawn fn_ptr
spawn f data_ptr ret =
    finish_with_next_block (λ next. Terminators.spawn (fn_ptr f) data_ptr ret next)

unfoldable pub join : ValueExpr → M (Unit {0})
unfolding finish_with_next_block Terminators.join
join thread_id = finish_with_next_block (λ next. Terminators.join thread_id next)

unfoldable pub raw_eq : PlaceExpr → ValueExpr → ValueExpr → M (Unit {0})
unfolding finish_with_next_block Terminators.raw_eq
raw_eq dest left_ptr right_ptr =
    finish_with_next_block (λ next. Terminators.raw_eq dest left_ptr right_ptr next)

unfoldable pub atomic_store : ValueExpr → ValueExpr → M (Unit {0})
unfolding finish_with_next_block Terminators.atomic_store
atomic_store ptr src = finish_with_next_block (λ next. Terminators.atomic_store ptr src next)

unfoldable pub atomic_load : PlaceExpr → ValueExpr → M (Unit {0})
unfolding finish_with_next_block Terminators.atomic_load
atomic_load dest ptr = finish_with_next_block (λ next. Terminators.atomic_load dest ptr next)

unfoldable pub atomic_fetch : FetchBinOp → PlaceExpr → ValueExpr → ValueExpr → M (Unit {0})
unfolding finish_with_next_block Terminators.atomic_fetch
atomic_fetch binop dest ptr other =
    finish_with_next_block (λ next. Terminators.atomic_fetch binop dest ptr other next)

unfoldable pub compare_exchange : PlaceExpr → ValueExpr → ValueExpr → ValueExpr → M (Unit {0})
unfolding finish_with_next_block Terminators.compare_exchange
compare_exchange dest ptr current next_val =
    finish_with_next_block (λ next. Terminators.compare_exchange dest ptr current next_val next)

unfoldable pub expose_provenance : PlaceExpr → ValueExpr → M (Unit {0})
unfolding finish_with_next_block Terminators.expose_provenance
expose_provenance dest ptr =
    finish_with_next_block (λ next. Terminators.expose_provenance dest ptr next)

unfoldable pub with_exposed_provenance : PlaceExpr → ValueExpr → M (Unit {0})
unfolding finish_with_next_block Terminators.with_exposed_provenance
with_exposed_provenance dest addr =
    finish_with_next_block (λ next. Terminators.with_exposed_provenance dest addr next)

unfoldable pub lock_create : PlaceExpr → M (Unit {0})
unfolding finish_with_next_block Terminators.lock_create
lock_create ret = finish_with_next_block (λ next. Terminators.lock_create ret next)

unfoldable pub lock_acquire : ValueExpr → M (Unit {0})
unfolding finish_with_next_block Terminators.lock_acquire
lock_acquire lock_id = finish_with_next_block (λ next. Terminators.lock_acquire lock_id next)

unfoldable pub lock_release : ValueExpr → M (Unit {0})
unfolding finish_with_next_block Terminators.lock_release
lock_release lock_id = finish_with_next_block (λ next. Terminators.lock_release lock_id next)

unfoldable pub get_unwind_payload : PlaceExpr → M (Unit {0})
unfolding finish_with_next_block Terminators.get_unwind_payload
get_unwind_payload ret = finish_with_next_block (λ next. Terminators.get_unwind_payload ret next)
