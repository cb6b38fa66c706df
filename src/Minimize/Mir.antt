-- ===== src/Minimize/Mir.antt =====
-- Rust's MIR as far as tooling/minimize/src/bb.rs, rvalue.rs and function.rs read it, which is
-- rustc's and not part of the repository. What they ask of rustc about a type, a constant or a
-- called function stands in the data where they ask it: a type is the one that it is translated
-- to, an operand has its type, a constant and a function are what they are translated to.
use Prim.Native.String.{String}
use mts_minirust_work.Prelude.{ℕ, Bool, List, Option}
use mts_minirust_work.Prelude.Int.{ℤ}
use mts_minirust_work.Lang.Types.{Size, TraitName, Mutability, PointeeInfo, Ty}
use mts_minirust_work.Minimize.Bits.{SizeOps}
use mts_minirust_work.Lang.Syntax.{FnName, VTableName, ValueExpr, CallingConvention}

pub data Projection : Type 0 where
  field : ℕ → Projection
  -- the type of the place that the pointer points to
  deref : Ty → Projection
  index : ℕ → Projection
  -- the discriminant of the variant
  downcast : ℤ → Projection
  other_projection : Projection

pub record Place : Type 0 where
  pub local : ℕ
  pub projection : List Projection

pub data Operand : Type 0 where
  constant : ValueExpr → Ty → Operand
  copy move : Place → Ty → Operand

pub data MirBinOp : Type 0 where
  offset add sub mul div rem shl shr bit_and bit_or bit_xor : MirBinOp
  add_unchecked sub_unchecked mul_unchecked shl_unchecked shr_unchecked : MirBinOp
  lt le gt ge eq ne cmp : MirBinOp

pub data MirUnOp : Type 0 where
  neg not ptr_metadata : MirUnOp

pub data NullOp : Type 0 where
  ub_checks contract_checks size_of align_of : NullOp
  -- the offset of the field
  offset_of : ℕ → NullOp

-- What an aggregate says of itself, besides its type: the active field of a union, or the
-- discriminant of a variant.
pub data Aggregate : Type 0 where
  active_field : ℕ → Aggregate
  variant : ℤ → Aggregate
  other_aggregate : Aggregate

-- An unsizing: from an array of a length to a slice, with the same elements or not; between trait
-- objects, with the same predicates or not; to a trait object, by a vtable of a trait.
pub data Unsizing : Type 0 where
  array_to_slice : Bool → ℕ → Unsizing
  dyn_to_dyn : Bool → Unsizing
  to_dyn : VTableName → TraitName → Unsizing
  other_unsizing : Unsizing

pub data CastKind : Type 0 where
  int_to_int ptr_to_ptr transmute fn_ptr_to_ptr unsafe_fn_pointer : CastKind
  unsize : Unsizing → CastKind
  -- the function, where the operand is a constant function
  reify_fn_pointer : Option FnName → CastKind
  pointer_expose_provenance pointer_with_exposed_provenance other_cast : CastKind

pub data Rvalue : Type 0 where
  use_ : Operand → Rvalue
  -- the size of what the left operand points to, if it is a raw pointer to a sized type
  binary_op : MirBinOp → Option Size → Operand → Operand → Rvalue
  checked_binary_op : MirBinOp → Operand → Operand → Rvalue
  unary_op : MirUnOp → Operand → Rvalue
  ref : Mutability → PointeeInfo → Place → Rvalue
  nullary_op : NullOp → Ty → Rvalue
  address_of : PointeeInfo → Place → Rvalue
  aggregate : Aggregate → Ty → List Operand → Rvalue
  copy_for_deref : Place → Rvalue
  -- the type of the place
  len : Place → Ty → Rvalue
  discriminant : Place → Rvalue
  repeat : Operand → ℕ → Rvalue
  cast : CastKind → Operand → Ty → Rvalue
  shallow_init_box : Operand → Ty → Rvalue
  thread_local_ref : Rvalue

pub data MirStatement : Type 0 where
  assign : Place → Rvalue → MirStatement
  storage_live storage_dead : ℕ → MirStatement
  -- whether the kind is `FnEntry`
  retag : Bool → Place → MirStatement
  deinit : Place → MirStatement
  -- the discriminant of the variant
  set_discriminant : Place → ℤ → MirStatement
  assume : Operand → MirStatement
  place_mention : Place → MirStatement
  other_statement : MirStatement

pub data UnwindAction : Type 0 where
  continue unreachable terminate : UnwindAction
  cleanup : ℕ → UnwindAction

-- Rust's intrinsics, with the types and sizes that they are about.
pub data RustIntrinsic : Type 0 where
  -- whether the requirement of validity is met
  assert_valid : Bool → RustIntrinsic
  raw_eq ctpop exact_div likely cold_path catch_unwind : RustIntrinsic
  arith_offset : Option Size → RustIntrinsic
  -- whether it is `ptr_offset_from_unsigned`
  ptr_offset_from : Bool → Option Size → RustIntrinsic
  size_of_val min_align_of_val : Ty → RustIntrinsic
  other_intrinsic : RustIntrinsic

pub record Instance : Type 0 where
  pub name : String
  pub fn_name : FnName
  pub conv : CallingConvention
  -- with `extern "rust-call"`: the types of the fields of the last argument, if it is a tuple
  pub rust_call : Option (Option (List Ty))
  -- the index of the method in the vtable, of a virtual call
  pub virtual_method : Option ℕ

pub data Callee : Type 0 where
  rust_intrinsic : RustIntrinsic → Callee
  -- a function of the crate `intrinsics`
  minirust_intrinsic : String → Callee
  function : Instance → Callee
  -- a function pointer
  other_callee : Callee

pub data DropGlue : Type 0 where
  -- the drop function of a type, or the trait of a trait object
  static : FnName → DropGlue
  dynamic : TraitName → DropGlue

pub data MirTerminator : Type 0 where
  return : MirTerminator
  goto : ℕ → MirTerminator
  -- the function, the arguments, the destination, the target and the unwind action
  call : Callee → List Operand → Place → Option ℕ → UnwindAction → MirTerminator
  -- the operand, the cases and the target of the other values
  switch_int : Operand → List (ℕ × ℕ) → ℕ → MirTerminator
  unreachable : MirTerminator
  -- the condition, what it is to be, the target and the unwind action
  assert : Operand → Bool → ℕ → UnwindAction → MirTerminator
  drop : Place → DropGlue → ℕ → MirTerminator
  unwind_resume : MirTerminator
  other_terminator : MirTerminator

pub record MirBlock : Type 0 where
  pub statements : List MirStatement
  pub terminator : MirTerminator
  pub is_cleanup : Bool

pub record LocalDecl : Type 0 where
  pub ty : Ty
  -- the types of the fields, if it is a tuple
  pub tuple_fields : Option (List Ty)

pub record Body : Type 0 where
  pub basic_blocks : List MirBlock
  pub local_decls : List LocalDecl
  pub arg_count : ℕ
  pub spread_arg : Option ℕ
  -- `always_storage_live_locals`
  pub always_live : List ℕ
  pub conv : CallingConvention

pub data PanicStrategy : Type 0 where
  unwind abort : PanicStrategy

-- what the code asks of the compiler's session
pub record Session : Type 0 where
  pub panic_strategy : PanicStrategy
  pub ub_checks : Bool
  pub contract_checks : Bool
  -- the type `Ordering`
  pub ordering : Ty
  pub size_ops : SizeOps
