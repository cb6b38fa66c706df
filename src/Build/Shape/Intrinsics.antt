-- ===== src/Build/Shape/Intrinsics.antt =====
-- tooling/miniutil/src/build/terminator.rs: rules for the intrinsics.
use mts_minirust_work.Lang.Syntax.{FnName, ValueExpr, PlaceExpr}
use mts_minirust_work.Build.Terminators.{FetchBinOp}
use mts_minirust_work.Build.Terminators
use mts_minirust_work.Build.Methods.{
  assume, print, eprint, allocate, deallocate, spawn, join, raw_eq, atomic_store, atomic_load,
  atomic_fetch, compare_exchange, expose_provenance, with_exposed_provenance, lock_create,
  lock_acquire, lock_release, get_unwind_payload,
}
use mts_minirust_work.Build.Shape.Rules.{Continues, finish_with_next_block-Continues}

-- The intrinsics, each of which goes on in a next block of the same kind.
pub assume-Continues : (val : ValueExpr) → Continues (assume val)
unfolding assume Terminators.assume
assume-Continues val = finish_with_next_block-Continues _ (λ H k m h. h)

pub print-Continues : (arg : ValueExpr) → Continues (print arg)
unfolding print Terminators.print
print-Continues arg = finish_with_next_block-Continues _ (λ H k m h. h)

pub eprint-Continues : (arg : ValueExpr) → Continues (eprint arg)
unfolding eprint Terminators.eprint
eprint-Continues arg = finish_with_next_block-Continues _ (λ H k m h. h)

pub allocate-Continues :
    (size : ValueExpr) (align : ValueExpr) (ret : PlaceExpr) → Continues (allocate size align ret)
unfolding allocate Terminators.allocate
allocate-Continues size align ret = finish_with_next_block-Continues _ (λ H k m h. h)

pub deallocate-Continues :
    (ptr : ValueExpr) (size : ValueExpr) (align : ValueExpr) → Continues (deallocate ptr size align)
unfolding deallocate Terminators.deallocate
deallocate-Continues ptr size align = finish_with_next_block-Continues _ (λ H k m h. h)

pub spawn-Continues : (f : FnName) (arg : ValueExpr) (ret : PlaceExpr) → Continues (spawn f arg ret)
unfolding spawn Terminators.spawn
spawn-Continues f arg ret = finish_with_next_block-Continues _ (λ H k m h. h)

pub join-Continues : (id : ValueExpr) → Continues (join id)
unfolding join Terminators.join
join-Continues id = finish_with_next_block-Continues _ (λ H k m h. h)

pub raw_eq-Continues :
    (dest : PlaceExpr) (l : ValueExpr) (r : ValueExpr) → Continues (raw_eq dest l r)
unfolding raw_eq Terminators.raw_eq
raw_eq-Continues dest l r = finish_with_next_block-Continues _ (λ H k m h. h)

pub atomic_store-Continues : (ptr : ValueExpr) (src : ValueExpr) → Continues (atomic_store ptr src)
unfolding atomic_store Terminators.atomic_store
atomic_store-Continues ptr src = finish_with_next_block-Continues _ (λ H k m h. h)

pub atomic_load-Continues : (dest : PlaceExpr) (ptr : ValueExpr) → Continues (atomic_load dest ptr)
unfolding atomic_load Terminators.atomic_load
atomic_load-Continues dest ptr = finish_with_next_block-Continues _ (λ H k m h. h)

pub atomic_fetch-Continues :
    (op : FetchBinOp) (dest : PlaceExpr) (ptr : ValueExpr) (other : ValueExpr)
    → Continues (atomic_fetch op dest ptr other)
unfolding atomic_fetch Terminators.atomic_fetch
atomic_fetch-Continues op dest ptr other = finish_with_next_block-Continues _ (λ H k m h. h)

pub compare_exchange-Continues :
    (dest : PlaceExpr) (ptr : ValueExpr) (current : ValueExpr) (next : ValueExpr)
    → Continues (compare_exchange dest ptr current next)
unfolding compare_exchange Terminators.compare_exchange
compare_exchange-Continues dest ptr current next = finish_with_next_block-Continues _ (λ H k m h. h)

pub expose_provenance-Continues :
    (dest : PlaceExpr) (ptr : ValueExpr) → Continues (expose_provenance dest ptr)
unfolding expose_provenance Terminators.expose_provenance
expose_provenance-Continues dest ptr = finish_with_next_block-Continues _ (λ H k m h. h)

pub with_exposed_provenance-Continues :
    (dest : PlaceExpr) (addr : ValueExpr) → Continues (with_exposed_provenance dest addr)
unfolding with_exposed_provenance Terminators.with_exposed_provenance
with_exposed_provenance-Continues dest addr = finish_with_next_block-Continues _ (λ H k m h. h)

pub lock_create-Continues : (ret : PlaceExpr) → Continues (lock_create ret)
unfolding lock_create Terminators.lock_create
lock_create-Continues ret = finish_with_next_block-Continues _ (λ H k m h. h)

pub lock_acquire-Continues : (id : ValueExpr) → Continues (lock_acquire id)
unfolding lock_acquire Terminators.lock_acquire
lock_acquire-Continues id = finish_with_next_block-Continues _ (λ H k m h. h)

pub lock_release-Continues : (id : ValueExpr) → Continues (lock_release id)
unfolding lock_release Terminators.lock_release
lock_release-Continues id = finish_with_next_block-Continues _ (λ H k m h. h)

pub get_unwind_payload-Continues : (ret : PlaceExpr) → Continues (get_unwind_payload ret)
unfolding get_unwind_payload Terminators.get_unwind_payload
get_unwind_payload-Continues ret = finish_with_next_block-Continues _ (λ H k m h. h)
