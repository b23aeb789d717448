-- ===== src/RuntimeData.antt =====
-- src/semantics/ir/irmodule.ts: the tables that the bytecode backend appends to the data pool. This
-- file has the block headers, the packed words and the import and export tables;
-- `RuntimeData.Objects` has the object descriptions and the shapes. A word is its 32-bit pattern.
pub mod Words
pub mod Blocks
pub mod Reader
pub mod Externs
pub mod Members
pub mod Objects
pub mod Build
pub mod Tests
use Prim.Native.Nat.{bit_or}
use wasmnizer_ts.GlobalContext.Externs.{
  ExternIndex, ExternTypeKind, RuntimeExternItem, RuntimeExternModule, extern_class, extern_enum,
  extern_function, extern_var, index, minus_one,
}
use wasmnizer_ts.DataPool.{DataPool, add_int32, set_int32}
use wasmnizer_ts.Base.{
  Bool, List, Option, [], false, if◌then◌else◌, length, none, some, suc, true, zero, ℕ, ◌%◌, ◌*◌,
  ◌+◌, ◌-◌, ◌/◌, ◌^◌, ◌||◌, ◌∷◌,
}

-- `BlockHeaderType` by its numbers.
abbrev pub metas_block : ℕ
metas_block = 1

abbrev pub shapes_block : ℕ
shapes_block = 2

abbrev pub imports_block : ℕ
imports_block = 3

abbrev pub exports_block : ℕ
exports_block = 4

pub record BlockHeader : Type 0 where
  pub block_type : ℕ
  pub count : ℕ
  pub size : ℕ

-- `((type << 28) & 0xf0000000) | (count & 0x0fffffff)`
unfoldable pub header_word : BlockHeader → ℕ
header_word b = b.block_type % 16 * 2 ^ 28 + b.count % 2 ^ 28

unfoldable pub write_header : BlockHeader → DataPool → DataPool
write_header b p = (add_int32 b.size (add_int32 (header_word b) p).1).1

unfoldable pub update_header : BlockHeader → ℕ → DataPool → DataPool
update_header b start p = set_int32 (start + 4) b.size (set_int32 start (header_word b) p)

pub data ShapeMemberType : Type 0 where
  method_type offset_type accessor_type accessor_offset_type : ShapeMemberType

abbrev pub type_number : ShapeMemberType → ℕ
type_number method_type = 0
type_number offset_type = 1
type_number accessor_type = 2
type_number accessor_offset_type = 3

pub record ShapeMemberParam : Type 0 where
  pub offset : Option ℕ
  pub method : Option ℕ
  pub getter : Option ℕ
  pub setter : Option ℕ

abbrev pub no_param : ShapeMemberParam
no_param = record { offset = none; method = none; getter = none; setter = none }

-- A number in a test: `undefined` and 0 are false.
abbrev pub truthy : Option ℕ → Bool
truthy none = false
truthy (some zero) = false
truthy (some (suc n)) = true

abbrev pub or_zero : Option ℕ → ℕ
or_zero none = 0
or_zero (some n) = n

-- `param.getter ? param.getter! + 1 : 0`
abbrev pub plus_one : Option ℕ → ℕ
plus_one o = if truthy o then or_zero o + 1 else 0

unfoldable pub offset_or_method : ShapeMemberParam → ℕ
offset_or_method p =
    if truthy p.offset || truthy p.method
    then (if truthy p.offset then or_zero p.offset else or_zero p.method) + 1
    else 0

unfoldable pub accessor_pair : ShapeMemberParam → ℕ
accessor_pair p =
    if truthy p.getter || truthy p.setter
    then plus_one p.getter % 2 ^ 15 + plus_one p.setter % 2 ^ 15 * 2 ^ 15
    else 0

abbrev pub member_value : ShapeMemberType → ShapeMemberParam → ℕ
member_value method_type p = offset_or_method p
member_value offset_type p = offset_or_method p
member_value accessor_type p = accessor_pair p
member_value accessor_offset_type p = accessor_pair p

-- `new ShapeMemberInfo(type, param).value`
unfoldable pub member_word : ShapeMemberType → Option ShapeMemberParam → ℕ
member_word t none = type_number t
member_word t (some p) = member_value t p * 4 % 2 ^ 32 + type_number t

-- The getters of `ShapeMemberInfo`. `>>` is taken before its sign extension.
unfoldable pub word_type : ℕ → ℕ
word_type w = w % 4

unfoldable pub word_offset : ℕ → ℕ
word_offset w = w / 4

unfoldable pub word_getter : ℕ → ℕ
word_getter w = w / 4 % 2 ^ 15

unfoldable pub word_setter : ℕ → ℕ
word_setter w = w / 2 ^ 17 % 2 ^ 15

abbrev pub kind_number : ExternTypeKind → ℕ
kind_number extern_function = 0
kind_number extern_class = 1
kind_number extern_var = 2
kind_number extern_enum = 3

-- `index & 0x7fffffff`
abbrev pub index_bits : ExternIndex → ℕ
index_bits (index n) = n % 2 ^ 31
index_bits minus_one = 2 ^ 31 - 1

-- `((type & 0xf) << 28) | (index & 0x7fffffff)`: the two share the bits from 28 to 30.
unfoldable pub extern_word : RuntimeExternItem → ℕ
extern_word i =
    bit_or (kind_number i.kind) (index_bits i.type_index / 2 ^ 28) * 2 ^ 28
    + index_bits i.type_index % 2 ^ 28

unfoldable pub write_extern_items : List RuntimeExternItem → DataPool → DataPool
write_extern_items [] p = p
write_extern_items (i ∷ is) p =
    write_extern_items is (add_int32 (extern_word i) (add_int32 i.name_offset p).1).1

-- `m.items.length | (isImports ? 0x80000000 : 0)`, for less than 2 ^ 31 items.
unfoldable pub items_word : Bool → RuntimeExternModule → ℕ
items_word imports m = length m.runtime_items + (if imports then 2 ^ 31 else 0)

unfoldable pub write_extern_modules : Bool → List RuntimeExternModule → DataPool → DataPool
write_extern_modules imports [] p = p
write_extern_modules imports (m ∷ ms) p = write_extern_modules imports ms (
    write_extern_items m.runtime_items
      (add_int32 (items_word imports m) (add_int32 m.module_name_offset p).1).1)

-- `buildExterns`, with the new `modules.offset`.
unfoldable pub build_externs : List RuntimeExternModule → ℕ → Bool → DataPool → ℕ × DataPool
build_externs ms block imports p =
    let p1 = write_header (record { block_type = block; count = 0; size = 0 }) p in
    let p2 = write_extern_modules imports ms p1 in
    let header : BlockHeader = record {
      block_type = block;
      count = length ms;
      size = p2.size - p1.size;
    } in
    (p1.size, update_header header (p1.size - 8) p2)
