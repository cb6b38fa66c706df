-- ===== src/Lang/Types.antt =====
-- spec/lang/types.md and spec/mem/pointer.md: the types. `Type` is `Ty` here, a reserved word.
-- `Size`, `Offset` and `Align` are numbers of bytes; a name is the number that `Name` wraps.
use mts_minirust_work.Prelude.{ℕ, Bool, List, Option}
use mts_minirust_work.Prelude.Int.{ℤ}

abbrev pub Size : Type 0
Size = ℕ

abbrev pub Offset : Type 0
Offset = ℕ

abbrev pub Align : Type 0
Align = ℕ

abbrev pub TraitName : Type 0
TraitName = ℕ

pub data Signedness : Type 0 where
  signed unsigned : Signedness

pub data Mutability : Type 0 where
  mutable immutable : Mutability

pub record IntType : Type 0 where
  pub signed : Signedness
  pub size : Size

abbrev pub Cells : Type 0
Cells = List (Offset × Size)

pub record TupleHeadLayout : Type 0 where
  pub end : Offset
  pub align : Align
  pub packed_align : Option Align

pub data LayoutStrategy : Type 0 where
  sized : Size → Align → LayoutStrategy
  slice : Size → Align → LayoutStrategy
  trait_object : TraitName → LayoutStrategy
  tuple : TupleHeadLayout → LayoutStrategy → LayoutStrategy

pub data UnsafeCellStrategy : Type 0 where
  sized : Cells → UnsafeCellStrategy
  slice : Cells → UnsafeCellStrategy
  trait_object : UnsafeCellStrategy
  tuple : Cells → UnsafeCellStrategy → UnsafeCellStrategy

pub record PointeeInfo : Type 0 where
  pub layout : LayoutStrategy
  pub inhabited : Bool
  pub unsafe_cells : UnsafeCellStrategy
  pub freeze : Bool
  pub unpin : Bool

pub data PointerMetaKind : Type 0 where
  none element_count : PointerMetaKind
  vtable_pointer : TraitName → PointerMetaKind

pub data PtrType : Type 0 where
  ref : Mutability → PointeeInfo → PtrType
  box : PointeeInfo → PtrType
  raw : PointerMetaKind → PtrType
  fn_ptr : PtrType
  vtable_ptr : TraitName → PtrType

-- `children` maps ranges, left-inclusive and right-exclusive.
mutual
  pub data Discriminator : Type 0 where
    known : ℤ → Discriminator
    invalid : Discriminator
    branch : Offset → IntType → Discriminator → Children → Discriminator

  pub data Children : Type 0 where
    no_children : Children
    child : ℤ → ℤ → Discriminator → Children → Children

-- `Map<Offset, (IntType, Int)>`
abbrev pub Tagger : Type 0
Tagger = List (Offset × (IntType × ℤ))

-- `OptTy`, `Fields` and `Variants` are the containers of types within a type:
-- `Option<Type>`, `List<(Offset, Type)>` and `Map<Int, Variant>`.
mutual
  pub data Ty : Type 0 where
    int : IntType → Ty
    bool : Ty
    ptr : PtrType → Ty
    tuple : Fields → TupleHeadLayout → OptTy → Ty
    array : Ty → ℤ → Ty
    slice : Ty → Ty
    union : Fields → Cells → Size → Align → Ty
    enum : Variants → IntType → Discriminator → Size → Align → Ty
    trait_object : TraitName → Ty

  pub data OptTy : Type 0 where
    no_ty : OptTy
    some_ty : Ty → OptTy

  pub data Fields : Type 0 where
    no_fields : Fields
    field : Offset → Ty → Fields → Fields

  pub data Variants : Type 0 where
    no_variants : Variants
    variant : ℤ → Ty → Tagger → Variants → Variants
