-- ===== src/Build/Shape.antt =====
-- tooling/miniutil/src/build: what holds of a builder between two calls. The graph says which
-- kind each declared block is meant to have; a pending block is one that is declared, and neither
-- finished nor current: it waits for an enclosing builder method.
pub mod Moves
pub mod Rules
pub mod Calls
pub mod Switches
pub mod Alive
pub mod Locals
pub mod Steps
pub mod Intrinsics
pub mod Finish
use mts_minirust_work.Prelude.{
  ℕ, ◌≤◌, ◌<◌, ◌≡◌, Bool, true, false, List, Option, none, some, All, if◌then◌else◌, eqb, nat_eq,
}
use mts_minirust_work.Prelude.Int.{ℤ}
use mts_minirust_work.Prelude.Maps.{Map, get, contains_key}
use mts_minirust_work.Prelude.Outcome.{Panic, overflow}
use mts_minirust_work.Lang.Types.{Ty}
use mts_minirust_work.Lang.Syntax.{
  LocalName, BbName, BbKind, BasicBlock, Terminator, goto, switch, unreachable, intrinsic, call,
  return, start_unwind, stop_unwind, resume_unwind, regular, cleanup, catch,
}
use mts_minirust_work.Lang.WellFormed.{unwind_kind_ok, contains}
use mts_minirust_work.Build.State.{FunctionBuilder, CurBlock}

abbrev pub Graph : Type 0
Graph = BbName → Option BbKind

abbrev pub Pending : Type 0
Pending = BbName → Bool

abbrev pub put : Graph → BbName → BbKind → Graph
put G n j m = if eqb n m then some j else G m

abbrev pub mark : Pending → BbName → Pending
mark P n m = if eqb n m then true else P m

abbrev pub unmark : Pending → BbName → Pending
unmark P n m = if eqb n m then false else P m

abbrev pub is_cur : BbName → Option CurBlock → Bool
is_cur n none = false
is_cur n (some c) = eqb c.name n

abbrev pub NextOk : Graph → BbKind → Option BbName → Type 0
NextOk G k none = Unit
NextOk G k (some n) = G n ≡ some k

-- the rule for unwind blocks
abbrev pub UnwindsTo : Graph → BbKind → BbName → Type 0
UnwindsTo G k n = (j : BbKind) × (G n ≡ some j) × (unwind_kind_ok k j ≡ true)

abbrev pub UnwindOk : Graph → BbKind → Option BbName → Type 0
UnwindOk G k none = Unit
UnwindOk G k (some n) = UnwindsTo G k n

-- The blocks that a terminator names have the kinds that the rules ask for.
abbrev pub Edges : Graph → BbKind → Terminator → Type 0
Edges G k (goto n) = G n ≡ some k
Edges G k (switch _ cases fallback) = All (λ p. G p.1 ≡ some k) cases × (G fallback ≡ some k)
Edges G k unreachable = Unit
Edges G k (intrinsic _ _ _ next) = NextOk G k next
Edges G k (call _ _ _ _ next unwind) = NextOk G k next × UnwindOk G k unwind
Edges G k return = k ≡ regular
Edges G k (start_unwind _ n) = (k ≡ regular) × UnwindsTo G k n
Edges G k (stop_unwind n) = (k ≡ catch) × (G n ≡ some regular)
Edges G k resume_unwind = k ≡ cleanup

-- the distinct elements of a list
abbrev pub Distinct : List ℕ → Type 0
Distinct = elim [ List.[] ↦ Unit | List.◌∷◌ x (xs → ih) ↦ (contains xs x ≡ false) × ih ]

-- Locals are named below the counter; arguments and return local exist and are distinct.
pub record LocalsOk (locals : Map LocalName Ty) (args : List LocalName) (ret : Option LocalName)
    (next_local : ℕ) : Type 0 where
  pub unused : (n : LocalName) → next_local ≤ n → get n locals ≡ none
  pub args_known : All (λ a. (a < next_local) × (contains_key a locals ≡ true)) args
  pub args_distinct : Distinct args
  pub ret_known : (r : LocalName) → ret ≡ some r → (r < next_local) × (contains_key r locals ≡ true)
  pub ret_distinct : (r : LocalName) → ret ≡ some r → contains args r ≡ false

-- `k` is the kind of the current block, if there is one.
pub record Inv (G : Graph) (P : Pending) (k : BbKind) (fb : FunctionBuilder) : Type 0 where
  pub undeclared : (n : BbName) → fb.next_block ≤ n → G n ≡ none
  pub known :
      (n : BbName) (b : BasicBlock)
      → get n fb.blocks ≡ some b
      → (G n ≡ some b.kind) × Edges G b.kind b.terminator
  pub covered :
      (n : BbName) (j : BbKind)
      → G n ≡ some j
      → get n fb.blocks ≡ none
      → is_cur n fb.cur_block ≡ false
      → P n ≡ true
  pub pending :
      (n : BbName) → P n ≡ true → (get n fb.blocks ≡ none) × (is_cur n fb.cur_block ≡ false)
  pub promised : (n : BbName) → P n ≡ true → (j : BbKind) × (G n ≡ some j)
  pub current :
      (c : CurBlock)
      → fb.cur_block ≡ some c
      → (G c.name ≡ some c.kind) × (c.kind ≡ k) × (get c.name fb.blocks ≡ none)
  pub entry : G fb.start ≡ some regular
  pub locals_ok : LocalsOk fb.locals fb.args fb.ret fb.next_local

abbrev pub Extends : Graph → Graph → Type 0
Extends G G' = (n : BbName) (j : BbKind) → G n ≡ some j → G' n ≡ some j

abbrev pub Live : FunctionBuilder → Type 0
Live fb = (c : CurBlock) × (fb.cur_block ≡ some c)

abbrev pub Ended : FunctionBuilder → Type 0
Ended fb = fb.cur_block ≡ none

abbrev pub IsOverflow : Panic → Type 0
IsOverflow e = e ≡ overflow
