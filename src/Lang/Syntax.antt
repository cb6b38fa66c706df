-- ===== src/Lang/Syntax.antt =====
-- spec/lang/syntax.md: the abstract syntax of programs. `Exprs` is `List<ValueExpr>`.
use mts_minirust_work.Prelude.{ℕ, Bool, List, Option, [], ◌∷◌}
use mts_minirust_work.Prelude.Int.{ℤ}
use mts_minirust_work.Prelude.Maps.{Map}
use mts_minirust_work.Lang.Types.{Size, Offset, Align, TraitName, IntType, PtrType, Cells, Ty}

abbrev pub FnName : Type 0
FnName = ℕ

abbrev pub GlobalName : Type 0
GlobalName = ℕ

abbrev pub VTableName : Type 0
VTableName = ℕ

abbrev pub TraitMethodName : Type 0
TraitMethodName = ℕ

abbrev pub LocalName : Type 0
LocalName = ℕ

abbrev pub BbName : Type 0
BbName = ℕ

pub record Relocation : Type 0 where
  pub name : GlobalName
  pub offset : Offset

pub data Constant : Type 0 where
  int : ℤ → Constant
  bool : Bool → Constant
  global_pointer : Relocation → Constant
  fn_pointer : FnName → Constant
  vtable_pointer : VTableName → Constant
  pointer_without_provenance : ℤ → Constant

pub data IntUnOp : Type 0 where
  neg bit_not count_ones : IntUnOp

pub data CastOp : Type 0 where
  int_to_int : IntType → CastOp
  transmute : Ty → CastOp

pub data UnOp : Type 0 where
  int : IntUnOp → UnOp
  cast : CastOp → UnOp
  get_thin_pointer get_metadata : UnOp
  compute_size compute_align : Ty → UnOp
  vtable_method_lookup : TraitMethodName → UnOp

pub data IntBinOp : Type 0 where
  add add_unchecked sub sub_unchecked mul mul_unchecked div div_exact rem : IntBinOp
  shl shl_unchecked shr shr_unchecked bit_and bit_or bit_xor : IntBinOp

pub data IntBinOpWithOverflow : Type 0 where
  add sub mul : IntBinOpWithOverflow

pub data RelOp : Type 0 where
  lt gt le ge eq ne cmp : RelOp

pub data BinOp : Type 0 where
  int : IntBinOp → BinOp
  int_with_overflow : IntBinOpWithOverflow → BinOp
  rel : RelOp → BinOp
  ptr_offset : Bool → BinOp
  -- `inbounds` and `nonneg`
  ptr_offset_from : Bool → Bool → BinOp
  construct_wide_pointer : PtrType → BinOp

mutual
  pub data ValueExpr : Type 0 where
    constant : Constant → Ty → ValueExpr
    tuple : Exprs → Ty → ValueExpr
    union : ℤ → ValueExpr → Ty → ValueExpr
    variant : ℤ → ValueExpr → Ty → ValueExpr
    get_discriminant : PlaceExpr → ValueExpr
    load : PlaceExpr → ValueExpr
    addr_of : PlaceExpr → PtrType → ValueExpr
    un_op : UnOp → ValueExpr → ValueExpr
    bin_op : BinOp → ValueExpr → ValueExpr → ValueExpr

  pub data PlaceExpr : Type 0 where
    local : LocalName → PlaceExpr
    deref : ValueExpr → Ty → PlaceExpr
    field : PlaceExpr → ℤ → PlaceExpr
    index : PlaceExpr → ValueExpr → PlaceExpr
    downcast : PlaceExpr → ℤ → PlaceExpr

  pub data Exprs : Type 0 where
    no_exprs : Exprs
    expr : ValueExpr → Exprs → Exprs

-- A slice of expressions, collected into the list that an expression holds.
unfoldable pub exprs : List ValueExpr → Exprs
exprs [] = no_exprs
exprs (v ∷ vs) = expr v (exprs vs)

pub data Statement : Type 0 where
  assign : PlaceExpr → ValueExpr → Statement
  place_mention : PlaceExpr → Statement
  set_discriminant : PlaceExpr → ℤ → Statement
  validate : PlaceExpr → Bool → Statement
  deinit : PlaceExpr → Statement
  storage_live storage_dead : LocalName → Statement

pub data ArgumentExpr : Type 0 where
  by_value : ValueExpr → ArgumentExpr
  in_place : PlaceExpr → ArgumentExpr

pub data CallingConvention : Type 0 where
  rust c : CallingConvention

pub data IntrinsicLockOp : Type 0 where
  acquire release create : IntrinsicLockOp

pub data IntrinsicOp : Type 0 where
  abort assume exit print_stdout print_stderr allocate deallocate spawn join : IntrinsicOp
  raw_eq atomic_store atomic_load atomic_compare_exchange : IntrinsicOp
  atomic_fetch_and_op : IntBinOp → IntrinsicOp
  lock : IntrinsicLockOp → IntrinsicOp
  pointer_expose_provenance pointer_with_exposed_provenance get_unwind_payload : IntrinsicOp

pub data Terminator : Type 0 where
  goto : BbName → Terminator
  -- the value, the cases, the fallback
  switch : ValueExpr → Map ℤ BbName → BbName → Terminator
  unreachable : Terminator
  -- the operation, the arguments, the return place, the next block
  intrinsic : IntrinsicOp → List ValueExpr → PlaceExpr → Option BbName → Terminator
  -- the callee, its convention and arguments, the return place, the next and the unwind block
  call :
      ValueExpr
      → CallingConvention
      → List ArgumentExpr
      → PlaceExpr
      → Option BbName
      → Option BbName
      → Terminator
  return : Terminator
  -- the payload, the unwind block
  start_unwind : ValueExpr → BbName → Terminator
  stop_unwind : BbName → Terminator
  resume_unwind : Terminator

pub data BbKind : Type 0 where
  regular cleanup catch terminate : BbKind

pub record BasicBlock : Type 0 where
  pub statements : List Statement
  pub terminator : Terminator
  pub kind : BbKind

pub record Function : Type 0 where
  pub locals : Map LocalName Ty
  pub args : List LocalName
  pub ret : LocalName
  pub calling_convention : CallingConvention
  pub blocks : Map BbName BasicBlock
  pub start : BbName

pub record Global : Type 0 where
  pub bytes : List (Option ℕ)
  pub relocations : List (Offset × Relocation)
  pub align : Align

pub record VTable : Type 0 where
  pub trait_name : TraitName
  pub size : Size
  pub align : Align
  pub cells : Cells
  pub methods : Map TraitMethodName FnName

pub record Program : Type 0 where
  pub functions : Map FnName Function
  pub start : FnName
  pub globals : Map GlobalName Global
  pub traits : Map TraitName (List TraitMethodName)
  pub vtables : Map VTableName VTable
