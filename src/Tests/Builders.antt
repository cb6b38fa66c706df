-- ===== src/Tests/Builders.antt =====
-- tooling/miniutil/src/build/mod.rs and terminator.rs: builders on concrete code.
use mts_minirust_work.Prelude.{◌+◌, ◌≡◌, refl, true, List, [], ◌∷◌, none, some, nat_eq, ◌+◌}
use mts_minirust_work.Prelude.Int.{ℤ, pos, int_eq}
use mts_minirust_work.Prelude.Maps.{contains_key}
use mts_minirust_work.Prelude.Outcome.{Post, of_ok}
use mts_minirust_work.Lang.Types.{Ty}
use mts_minirust_work.Lang.Syntax.{
  ValueExpr, PlaceExpr, Constant, CallingConvention, regular, cleanup, catch, terminate,
}
use mts_minirust_work.Build.Ty.{unit_ty}
use mts_minirust_work.Build.State.{
  M, FunctionBuilder, new, declare_block, set_cur_block, cleanup_block, terminating_block,
  catch_block, declare_local_with_ty, declare_arg_with_ty, declare_ret_with_ty, ◌>>=◌, ◌>>◌, next,
}
use mts_minirust_work.Build.Methods.{
  assign, call, call_with_conv, return_, resume_unwind, exit, switch_int, if_, while_, print,
}
use mts_minirust_work.Build.Shape.{Inv, Live, Ended, IsOverflow, put, mark}
use mts_minirust_work.Build.Shape.Rules.{EndsIn, After, Aside, IsBranch}
use mts_minirust_work.Build.Shape.Locals.{
  LocalAdded, ArgAdded, RetAdded, declare_local_rule, declare_arg_rule, declare_ret_rule,
}
use mts_minirust_work.Build.Shape.Moves.{promise-Inv}
use mts_minirust_work.Build.Shape.Calls.{call_with_conv_rule}
use mts_minirust_work.Prelude.Maps.{get}
use mts_minirust_work.Prelude.Outcome.{AnyPanic, missing_name}
use mts_minirust_work.Lang.Syntax.{Terminator, Function}
use mts_minirust_work.Build.State.{CurBlock, finish_function, declare_ret}
use mts_minirust_work.Build.Program.{ProgramBuilder, new_program, add_function, finish_program}
use mts_minirust_work.Build.Program.Functions.{
  AllShaped, add_function-AllShaped, finish_program-AllShaped,
}
use mts_minirust_work.Build.Shape.Moves.{finish-Inv}
use mts_minirust_work.Build.Shape.Alive.{
  KeepsLive, while_-KeepsLive, if_-Continues, while_-Continues,
}
use mts_minirust_work.Build.Shape.Intrinsics.{print-Continues}
use mts_minirust_work.Build.Shape.Steps.{assign-Continues, bind-EndsIn, declare_arg-Goes}
use mts_minirust_work.Build.Shape.Switches.{switch_int-IsBranch, while_-IsBranch, DistinctCases}
use mts_minirust_work.Build.Shape.Steps.{
  Ends-in, Continues-IsBranch, Ends-IsBranch, exit-Ends, return_-EndsIn, resume_unwind-EndsIn,
  cleanup_block_rule, terminating_block_rule, catch_block_rule, call_with_cleanup-Ended,
}
use mts_minirust_work.Build.Shape.Finish.{
  initial, NonePending, new_rule, WellShaped, build, build-WellShaped, build-WellShaped_ret,
}

abbrev flag : ValueExpr
flag = ValueExpr.constant (Constant.bool true) Ty.bool

abbrev callee : ValueExpr
callee = ValueExpr.constant (Constant.fn_pointer 7) unit_ty

abbrev place : PlaceExpr
place = PlaceExpr.local 0

-- the builder of a function 3, before any other call
abbrev start : FunctionBuilder
start = record {
  name = 3;
  locals = [];
  args = [];
  blocks = [];
  start = 0;
  ret = none;
  conv = CallingConvention.rust;
  cur_block = some (record { statements = []; name = 0; kind = regular });
  next_block = 1;
  next_local = 0;
}

start-Inv : Inv initial NonePending regular start
unfolding new declare_block set_cur_block next contains_key
start-Inv = (of_ok (new_rule 3)).0

start-Live : Live start
start-Live = (_, refl)

-- a call with a cleanup block, and a return
abbrev guarded : M (Unit {0})
guarded = cleanup_block resume_unwind >>= λ n. call place callee [] n >> return_

call_with_cleanup-Ended_example :
    Post
      (After initial NonePending regular (λ _ _ g. Ended g))
      IsOverflow
      ((cleanup_block resume_unwind >>= λ n. call place callee [] n >> return_) start)
call_with_cleanup-Ended_example =
    call_with_cleanup-Ended place callee [] resume_unwind return_ resume_unwind-EndsIn
      return_-EndsIn initial NonePending start start-Inv start-Live

abbrev body : M (Unit {0})
body = print flag

body-IsBranch : IsBranch body
body-IsBranch = Continues-IsBranch body (print-Continues flag)

exit-IsBranch : IsBranch exit
exit-IsBranch = Ends-IsBranch exit exit-Ends

abbrev two_cases : List (ℤ × M (Unit {0}))
two_cases = (pos 3, body) ∷ (pos 5, exit) ∷ []

two_cases-DistinctCases : DistinctCases two_cases
unfolding contains_key
two_cases-DistinctCases = (refl, (refl, tt))

switch_int-IsBranch_example :
    Post
      (After initial NonePending regular (λ _ _ _. Unit))
      IsOverflow
      (switch_int flag two_cases body start)
switch_int-IsBranch_example =
    switch_int-IsBranch flag two_cases body two_cases-DistinctCases
      (body-IsBranch, (exit-IsBranch, tt)) body-IsBranch initial NonePending regular start start-Inv
      start-Live

body-KeepsLive : KeepsLive (while_ flag body)
body-KeepsLive = while_-KeepsLive flag body

loop-IsBranch : IsBranch (while_ flag body)
loop-IsBranch = while_-IsBranch flag body body-IsBranch

if_-Continues_example :
    Post
      (After initial NonePending regular (λ _ _ g. Live g))
      IsOverflow
      (if_ flag exit (while_ flag body) start)
if_-Continues_example =
    if_-Continues flag exit (while_ flag body) exit-IsBranch loop-IsBranch body-KeepsLive initial
      NonePending regular start start-Inv start-Live

while_-Continues_example :
    Post
      (After initial NonePending regular (λ _ _ g. Live g))
      IsOverflow
      (while_ flag (while_ flag body) start)
while_-Continues_example =
    while_-Continues flag (while_ flag body) loop-IsBranch initial NonePending regular start
      start-Inv start-Live

-- an argument, a loop, a call with a cleanup block, and a return
abbrev sample : M (Unit {0})
sample = declare_arg_with_ty Ty.bool >>= λ a. while_ (ValueExpr.load a) body >>= λ _. guarded

sample-EndsIn : EndsIn regular sample
sample-EndsIn =
    bind-EndsIn regular (declare_arg_with_ty Ty.bool)
      (λ a. while_ (ValueExpr.load a) body >>= λ _. guarded) (declare_arg-Goes Ty.bool)
      λ a.
        bind-EndsIn regular (while_ (ValueExpr.load a) body) (λ _. guarded)
          (while_-Continues (ValueExpr.load a) body body-IsBranch)
          λ _.
            call_with_cleanup-Ended place callee [] resume_unwind return_ resume_unwind-EndsIn
              return_-EndsIn

build-WellShaped_ret_example :
    Post WellShaped IsOverflow
      (build 3 (declare_ret_with_ty Ty.bool >>= λ ret. assign ret flag >>= λ _. sample))
build-WellShaped_ret_example =
    build-WellShaped_ret 3 Ty.bool (λ ret. assign ret flag >>= λ _. sample)
      λ ret.
        bind-EndsIn regular (assign ret flag) (λ _. sample) (assign-Continues ret flag)
          λ _. sample-EndsIn

build-WellShaped_example : Post WellShaped IsOverflow (build 3 sample)
build-WellShaped_example = build-WellShaped 3 sample sample-EndsIn

cleanup_block_rule_example :
    Post
      (After initial NonePending regular (Aside start cleanup))
      IsOverflow
      (cleanup_block resume_unwind start)
cleanup_block_rule_example =
    cleanup_block_rule resume_unwind start-Inv start-Live resume_unwind-EndsIn

terminating_block_rule_example :
    Post
      (After initial NonePending regular (Aside start terminate))
      IsOverflow
      (terminating_block exit start)
terminating_block_rule_example =
    terminating_block_rule exit start-Inv start-Live (Ends-in terminate exit-Ends)

catch_block_rule_example :
    Post (After initial NonePending regular (Aside start catch)) IsOverflow (catch_block exit start)
catch_block_rule_example = catch_block_rule exit start-Inv start-Live (Ends-in catch exit-Ends)

declare_local_rule_example :
    Post (LocalAdded start-Inv Ty.bool) IsOverflow (declare_local_with_ty Ty.bool start)
declare_local_rule_example = declare_local_rule start-Inv Ty.bool

declare_arg_rule_example :
    Post (ArgAdded start-Inv Ty.bool) IsOverflow (declare_arg_with_ty Ty.bool start)
declare_arg_rule_example = declare_arg_rule start-Inv Ty.bool

declare_ret_rule_example :
    Post (RetAdded start-Inv Ty.bool) IsOverflow (declare_ret_with_ty Ty.bool start)
declare_ret_rule_example = declare_ret_rule start-Inv Ty.bool refl

-- a builder that has declared a block 1, meant for cleanup
abbrev promised : FunctionBuilder
promised = record start { next_block = start.next_block + 1 }

promised-Inv : Inv (put initial 1 cleanup) (mark NonePending 1) regular promised
promised-Inv = promise-Inv start-Inv cleanup

call_with_conv_rule_example :
    Post
      (After (put initial 1 cleanup) (mark NonePending 1) regular (λ _ _ g. Live g))
      IsOverflow
      (call_with_conv place callee [] CallingConvention.c 1 promised)
call_with_conv_rule_example =
    call_with_conv_rule place callee [] CallingConvention.c 1 (put initial 1 cleanup)
      (mark NonePending 1) regular promised promised-Inv start-Live (cleanup, refl, refl)

-- a builder that is done, and one of a program
abbrev ended_builder : FunctionBuilder
ended_builder = record start {
  blocks = (0, record { statements = []; terminator = Terminator.return; kind = regular }) ∷ [];
  cur_block = none;
}

abbrev start_block : CurBlock
start_block = record { statements = []; name = 0; kind = regular }

ended_builder-Inv : Inv initial NonePending regular ended_builder
ended_builder-Inv = finish-Inv start-Inv start_block Terminator.return refl refl regular

new_program-AllShaped : AllShaped new_program.functions
unfolding new_program get
new_program-AllShaped n f h = absurd cc

add_function-AllShaped_example :
    Post
      (λ r. AllShaped r.1.functions × (r.0 ≡ 3))
      AnyPanic
      (add_function ended_builder new_program)
unfolding new_program
add_function-AllShaped_example =
    add_function-AllShaped initial regular ended_builder new_program ended_builder-Inv refl
      new_program-AllShaped

-- the program builder with that function
abbrev one : ProgramBuilder
one = record {
  functions =
      (
        3,
        record {
          locals = (0, unit_ty) ∷ [];
          args = [];
          ret = 0;
          calling_convention = CallingConvention.rust;
          blocks = ended_builder.blocks;
          start = 0;
        },
      )
      ∷ [];
  globals = [];
  vtables = [];
  traits = [];
  next_fn = 0;
  next_global = 0;
  next_vtable = 0;
  next_trait = 0;
}

one-AllShaped : AllShaped one.functions
unfolding new_program add_function finish_function declare_ret next
one-AllShaped =
    (of_ok (
      add_function-AllShaped initial regular ended_builder new_program ended_builder-Inv refl
        new_program-AllShaped)).0

finish_program-AllShaped_example :
    Post
      (λ r. AllShaped r.0.functions × ((f : Function) × (get r.0.start r.0.functions ≡ some f)))
      (λ e. (e ≡ missing_name) × (get 3 one.functions ≡ none))
      (finish_program 3 one)
finish_program-AllShaped_example = finish_program-AllShaped 3 one one-AllShaped
