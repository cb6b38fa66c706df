-- ===== src/Build/Function/Args.antt =====
-- tooling/miniutil/src/build/function.rs: the arguments and the return local of `function`.
use mts_minirust_work.Prelude.{
  ℕ, zero, suc, ◌+◌, ◌^◌, ◌≤◌, ◌<◌, ◌≡◌, refl, sym, ◌∙◌, subst, inl, inr, true, false, ◌||◌, List,
  [], ◌∷◌, none, some, eqb, eqb_iff, arith, nat_eq, length, get_elem?, Bool-cases,
}
use mts_minirust_work.Prelude.Maps.{
  Map, get, contains_key, insert, collect, contains_key-get, try_insert_fresh,
}
use mts_minirust_work.Prelude.Outcome.{ok}
use mts_minirust_work.Lang.Types.{Ty}
use mts_minirust_work.Lang.Syntax.{LocalName, Function, BasicBlock, CallingConvention}
use mts_minirust_work.Lang.WellFormed.{contains, check_args, check_live}
use mts_minirust_work.Build.Ty.{get_type, unit_ty}
use mts_minirust_work.Build.Function.{
  as_u32, Ret, enumerate, by_position, arg_name, arg_names, ret_local, function,
}
use mts_minirust_work.Build.Function.Positions.{get-by_position}

module _ {A : Type 0} where
  get_elem?-inside : (xs : List A) (j : ℕ) → j < length xs → (a : A) × (get_elem? xs j ≡ some a)
  get_elem?-inside [] j h = absurd (omega (arith, h))
  get_elem?-inside (x ∷ xs) zero h = (x, refl)
  get_elem?-inside (x ∷ xs) (suc j) h = get_elem?-inside xs j (omega (arith, h))

  get_elem?-outside : (xs : List A) (j : ℕ) → length xs ≤ j → get_elem? xs j ≡ none
  get_elem?-outside [] j h = refl
  get_elem?-outside (x ∷ xs) zero h = absurd (omega (arith, h))
  get_elem?-outside (x ∷ xs) (suc j) h = get_elem?-outside xs j (omega (arith, h))

  -- The positions of a slice are names of the map.
  position_known :
      (xs : List A) (j : ℕ)
      → length xs ≤ 2 ^ 32
      → j < length xs
      → contains_key j (by_position xs) ≡ true
  position_known xs j l h = elim (Bool-cases (contains_key j (by_position xs))) [
    | inl there ↦ there
    | inr fresh ↦
        let (a, q) = get_elem?-inside xs j h in
        absurd (cc (contains_key-get j (by_position xs) fresh, get-by_position xs j l, q))
  ]

  position_fresh :
      (xs : List A) (j : ℕ) → length xs ≤ 2 ^ 32 → length xs ≤ j → get j (by_position xs) ≡ none
  position_fresh xs j l h = get-by_position xs j l ∙ get_elem?-outside xs j h

  length-insert :
      (k : ℕ) (a : A) (m : List (ℕ × A))
      → contains_key k m ≡ false
      → length (insert k a m) ≡ length m + 1
  unfolding insert contains_key
  length-insert k a [] h = omega arith
  length-insert k a ((j, b) ∷ m) h = ground (arith, length-insert k a m)

  contains_key-insert :
      (k j : ℕ) (a : A) (m : List (ℕ × A))
      → contains_key j (insert k a m) ≡ (eqb k j || contains_key j m)
  unfolding insert contains_key
  contains_key-insert k j a [] = refl
  contains_key-insert k j a ((i, b) ∷ m) =
      ground (arith, contains_key-insert k j a m, eqb_iff i k, eqb_iff i j, eqb_iff k j)

  length-enumerate :
      (xs : List A) (i : ℕ) (m : List (ℕ × A))
      → i + length xs ≤ 2 ^ 32
      → ((j : ℕ) → i ≤ j → contains_key j m ≡ false)
      → length (collect (enumerate i xs) m) ≡ length m + length xs
  unfolding collect enumerate
  length-enumerate [] i m l fresh = omega arith
  length-enumerate (x ∷ xs) i m l fresh =
      let small : as_u32 i ≡ i = omega arith in
      rw small (
        length-enumerate xs (suc i) (insert i x m) (omega arith)
          (λ j h. contains_key-insert i j x m ∙ ground (arith, fresh j (omega arith), eqb_iff i j))
        ∙ omega (arith, length-insert i x m (fresh i (omega arith))))

  length-by_position : (xs : List A) → length xs ≤ 2 ^ 32 → length (by_position xs) ≡ length xs
  unfolding by_position contains_key
  length-by_position xs l = length-enumerate xs 0 [] (omega arith) (λ j h. refl) ∙ omega arith

-- the number of the first argument
abbrev pub first_arg : Ret → ℕ
first_arg Ret.yes = 1
first_arg Ret.no = 0

arg_name-small :
    (ret : Ret) (x : ℕ) → x + first_arg ret < 2 ^ 32 → arg_name ret x ≡ x + first_arg ret
arg_name-small Ret.yes x h = omega (arith, h)
arg_name-small Ret.no x h = omega (arith, h)

arg_names_below :
    (ret : Ret) (from n x : ℕ)
    → from + n + first_arg ret ≤ 2 ^ 32
    → x < from + first_arg ret
    → contains (arg_names ret from n) x ≡ false
unfolding arg_names contains
arg_names_below ret from zero x l h = refl
arg_names_below ret from (suc n) x l h = rw (arg_name-small ret from (omega (arith, l))) (
    ground (
      arith,
      arg_names_below ret (suc from) n x (omega (arith, l)) (omega (arith, h)),
      eqb_iff x (from + first_arg ret),
    ))

arg_names_above :
    (ret : Ret) (from n x : ℕ)
    → from + n + first_arg ret ≤ 2 ^ 32
    → from + n + first_arg ret ≤ x
    → contains (arg_names ret from n) x ≡ false
unfolding arg_names contains
arg_names_above ret from zero x l h = refl
arg_names_above ret from (suc n) x l h = rw (arg_name-small ret from (omega (arith, l))) (
    ground (
      arith,
      arg_names_above ret (suc from) n x (omega (arith, l)) (omega (arith, h)),
      eqb_iff x (from + first_arg ret),
    ))

-- Arguments that are among the locals are distinct and exist.
arg_names-check_args :
    (ret : Ret) (from n : ℕ) (f : Function)
    → from + n + first_arg ret ≤ 2 ^ 32
    → ((j : ℕ) → j < from + n + first_arg ret → contains_key j f.locals ≡ true)
    → check_args (arg_names ret from n) f ≡ true
unfolding arg_names check_args
arg_names-check_args ret from zero f l known = refl
arg_names-check_args ret from (suc n) f l known =
    rw
      (
        arg_name-small ret from (omega (arith, l)),
        known (from + first_arg ret) (omega arith),
        arg_names_below ret (suc from) n (from + first_arg ret) (omega (arith, l)) (omega arith),
      )
      (arg_names-check_args ret (suc from) n f (omega (arith, l))
        (λ j h. known j (omega (arith, h))))

-- a function whose arguments and return local are right
checked :
    (f : Function) (ret : Ret) (n : ℕ)
    → f.args ≡ arg_names ret 0 n
    → n + first_arg ret ≤ 2 ^ 32
    → ((j : ℕ) → j < n + first_arg ret → contains_key j f.locals ≡ true)
    → contains_key f.ret f.locals ≡ true
    → contains (arg_names ret 0 n) f.ret ≡ false
    → check_live f ≡ true
unfolding check_live
checked f ret n e l known there apart =
    let args_ok =
      subst (λ xs. check_args xs f ≡ true) (sym e)
        (arg_names-check_args ret 0 n f (omega (arith, l)) (λ j h. known j (omega (arith, h)))) in
    let ret_ok = subst (λ xs. contains xs f.ret ≡ false) (sym e) apart in
    rw (args_ok, there, ret_ok) refl

abbrev whole : LocalName → Map LocalName Ty → Ret → ℕ → List BasicBlock → Function
whole name locals ret n bbs = record {
  locals = locals;
  args = arg_names ret 0 n;
  ret = name;
  calling_convention = CallingConvention.c;
  blocks = by_position bbs;
  start = 0;
}

function_eq :
    (ret : Ret) (n : ℕ) (locals : List Ty) (bbs : List BasicBlock) (name : LocalName)
    (locals' : Map LocalName Ty)
    → ret_local ret (by_position locals) ≡ ok (name, locals')
    → function ret n locals bbs ≡ ok (whole name locals' ret n bbs)
unfolding function
function_eq ret n locals bbs name locals' h = rw h refl

ret_local_yes :
    (locals : Map LocalName Ty) → 0 < length locals → ret_local Ret.yes locals ≡ ok (0, locals)
unfolding ret_local
ret_local_yes locals h = ground arith

ret_local_no :
    (locals : Map LocalName Ty)
    → length locals < 2 ^ 32
    → get (length locals) locals ≡ none
    → ret_local Ret.no locals ≡ ok (length locals, (length locals, unit_ty) ∷ locals)
unfolding ret_local get_type
ret_local_no locals l fresh =
    let small : as_u32 (length locals) ≡ length locals = omega arith in
    rw (small, try_insert_fresh (length locals) unit_ty locals fresh) refl

contains_key-cons :
    (k j : ℕ) (t : Ty) (m : Map LocalName Ty)
    → contains_key j ((k, t) ∷ m) ≡ (eqb k j || contains_key j m)
unfolding contains_key
contains_key-cons k j t m = refl

-- With fewer than 2^32 locals, of which there are as many as the arguments need (and one more for
-- the return local, if the function returns), `function` does not panic, and the arguments and
-- the return local of its result exist and are distinct, as the rules of well-formedness ask.
pub function-check_live :
    (ret : Ret) (num_args : ℕ) (locals : List Ty) (bbs : List BasicBlock)
    → length locals < 2 ^ 32
    → num_args + first_arg ret ≤ length locals
    → (f : Function) × (function ret num_args locals bbs ≡ ok f) × (check_live f ≡ true)
function-check_live Ret.yes n locals bbs l h =
    let m = by_position locals in
    let size = length-by_position locals (omega (arith, l)) in
    (
      _,
      function_eq Ret.yes n locals bbs 0 m (ret_local_yes m (omega (arith, size, h))),
      checked (whole 0 m Ret.yes n bbs) Ret.yes n refl (omega (arith, l, h))
          (λ j q. position_known locals j (omega (arith, l)) (omega (arith, q, h)))
          (position_known locals 0 (omega (arith, l)) (omega (arith, h)))
          (arg_names_below Ret.yes 0 n 0 (omega (arith, l, h)) (omega arith)),
    )
function-check_live Ret.no n locals bbs l h =
    let m = by_position locals in
    let size = length-by_position locals (omega (arith, l)) in
    let name = length m in
    let f = whole name ((name, unit_ty) ∷ m) Ret.no n bbs in
    (
      f,
      function_eq Ret.no n locals bbs name _ (
          ret_local_no m (omega (arith, size, l))
            (position_fresh locals name (omega (arith, l)) (omega (arith, size)))),
      checked f Ret.no n refl (omega (arith, l, h))
          (λ j q.
            contains_key-cons name j unit_ty m
            ∙ ground (arith, position_known locals j (omega (arith, l)) (omega (arith, q, h))))
          (contains_key-cons name name unit_ty m ∙ ground (arith, eqb_iff name name))
          (arg_names_above Ret.no 0 n name (omega (arith, l, h)) (omega (arith, size, h))),
    )
