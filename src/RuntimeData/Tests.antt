-- ===== src/RuntimeData/Tests.antt =====
-- The theorems of the runtime data on small tables, written to a new pool.
use wasmnizer_ts.RuntimeData.{
  accessor_pair, accessor_type, build_externs, imports_block, member_word, metas_block,
  offset_or_method, shapes_block,
}
use mathlib.Core.Path.{subst}
use wasmnizer_ts.RuntimeData.Objects.Written.{HasShapeWords, build_shapes_lem}
use wasmnizer_ts.RuntimeData.Objects.Listing.{ListsShapes, ShapeWords}
use mathlib.Core.Option.{some-injective}
use wasmnizer_ts.DataPool.AddString.{add_string_fits}
use wasmnizer_ts.RuntimeData.Objects.Descriptions.{
  a_name, describe_lem, narrow_info, no_names, no_narrow, parse_description,
}
use wasmnizer_ts.RuntimeData.Words.{add_words, read_words}
use wasmnizer_ts.RuntimeData.Blocks.{HasBlock, write_block, write_block-HasBlock}
use wasmnizer_ts.RuntimeData.Reader.{
  AllSmall, all_small, as_read, module_words, no_small, parse_modules, small_item, small_module,
}
use wasmnizer_ts.RuntimeData.Build.{Built, HasTables, Tables, build, build_lem}
use wasmnizer_ts.RuntimeData.Externs.{build_externs_lem}
use wasmnizer_ts.RuntimeData.Members.{accessor_param}
use wasmnizer_ts.RuntimeData.Objects.{
  DescriptionData, DescriptionsMap, MemberDescriptionInfo, ObjectDescriptionInfo, Shape,
  build_object_descriptions, describe, describe_all, field, shape_member_word, shape_member_words,
}
use wasmnizer_ts.RuntimeData.Objects.Shapes.{
  DescribedShapes, all_shapes, build_shapes, shapes_words,
}
use wasmnizer_ts.GlobalContext.Externs.{
  RuntimeExternItem, RuntimeExternModule, extern_class, extern_enum, index, minus_one,
}
use wasmnizer_ts.GlobalContext.{GlobalContext, map_get}
use wasmnizer_ts.DataPool.{
  DataPool, add_string, append_string, find_string, new_data_pool, new_uint8_array, pad_zeros,
  store_string, update_buffer_size, write_at, write_codes,
}
use wasmnizer_ts.DataPool.Bytes.{IsValid}
use wasmnizer_ts.Base.{
  List, [], ap, arith, length, none, refl, some, sym, true, ℕ, ◌∙◌, ◌∷◌, ◌≡◌, ◌⊎◌,
}

new_pool_valid : IsValid new_data_pool
new_pool_valid = record {
  within = omega arith;
  sized = refl;
  octets = λ j. omega arith;
  aligned = refl;
}

abbrev an_item : RuntimeExternItem
an_item = record { name_offset = 8; kind = extern_class; type_index = index 5; extern_index = 0 }

abbrev an_enum : RuntimeExternItem
an_enum = record { name_offset = 8; kind = extern_enum; type_index = minus_one; extern_index = 1 }

abbrev table : List RuntimeExternModule
table =
    record { module_name_offset = 4; runtime_items = an_item ∷ []; module_extern_index = 0 } ∷ []

table_small : AllSmall table
table_small =
    small_module (omega arith) (omega arith)
      (small_item 5 (omega arith) refl (omega arith) no_small) all_small

build_externs_lem_example :
    ((build_externs table imports_block true new_data_pool).0 ≡ 8)
    × HasBlock new_data_pool
        (build_externs table imports_block true new_data_pool).1
        imports_block
        1
        (module_words true table)
    × (parse_modules 1 (read_words (build_externs table imports_block true new_data_pool).1 8 4)
        ≡ some (as_read true table, []))
build_externs_lem_example =
    build_externs_lem table imports_block true new_data_pool new_pool_valid table_small

-- An index 0 is taken for a missing one.
first_function_lost :
    member_word accessor_type (some (accessor_param (some 0) (some 4)))
    ≡ member_word accessor_type (some (accessor_param none (some 4)))
unfolding member_word accessor_pair
first_function_lost = refl

abbrev a_map : DescriptionsMap
a_map =
    (
      1,
      record {
        offset = 40;
        description_name_offset = 4;
        base_offset = none;
        flags = 2;
        member_infos = [];
      },
    )
    ∷ []

abbrev some_shapes : List DescribedShapes
some_shapes =
    record {
      origin = some (record { meta = 1; members = some (some (field (some 2)) ∷ none ∷ []) });
      this = some (record { meta = 1; members = none });
      compatible = [];
    }
    ∷ []

abbrev a_context : GlobalContext
a_context = record {
  global_vars = [];
  global_functions = [];
  global_classes = [];
  global_metas = [];
  global_static_shapes = [];
  global_statistics_info = [];
}

-- 13 is the member at offset 2, packed with its type; 0 stands for the hole.
words_of_shapes :
    shapes_words (all_shapes some_shapes) a_map a_context
    ≡ some (40 ∷ 2 ∷ 13 ∷ 0 ∷ 40 ∷ 0 ∷ [], a_context)
unfolding shapes_words all_shapes map_get shape_member_words shape_member_word member_word
    offset_or_method
words_of_shapes = refl

build_shapes_lem_example :
    ((build_shapes some_shapes a_map a_context new_data_pool ≡ none)
      × (¬ HasShapeWords some_shapes a_map a_context))
    ⊎ ((ss : List Shape) × (ws : List ℕ) × (c' : GlobalContext) × (q : DataPool) × ListsShapes
          some_shapes ss
        × ShapeWords a_map ss a_context ws c'
        × (build_shapes some_shapes a_map a_context new_data_pool ≡ some (c', q))
        × HasBlock new_data_pool q shapes_block (length ss) ws)
build_shapes_lem_example = build_shapes_lem some_shapes a_map a_context new_data_pool new_pool_valid

-- A class with the name "A" and the member "b".
abbrev a_class : DescriptionData
a_class = record {
  identity = 1;
  description_name = 65 ∷ [];
  description_type = 3;
  described = record { member_name = 98 ∷ []; member_type = 2; member_index = 7 } ∷ [];
}

abbrev with_class_name : DataPool
with_class_name = record {
  buffer = write_at (write_at (write_at (write_at (new_uint8_array 4096) 0 65) 1 0) 2 0) 3 0;
  capacity = 4096;
  size = 4;
  str_map = [];
}

add_class_name : add_string (65 ∷ []) new_data_pool ≡ some (0, with_class_name)
unfolding add_string find_string append_string store_string write_codes pad_zeros update_buffer_size
add_class_name = refl

with_class_name-IsValid : IsValid with_class_name
unfolding find_string
with_class_name-IsValid =
    let (q, e, v, o1, o2, o3, o4, o5, o6) =
      add_string_fits (65 ∷ []) new_data_pool new_pool_valid refl refl (omega arith) in
    subst IsValid
      (ap (λ (x : ℕ × DataPool). x.1)
        (some-injective (0, q) (0, with_class_name) (sym e ∙ add_class_name)))
      v

add_member_name : (q : DataPool) × (add_string (98 ∷ []) with_class_name ≡ some (4, q)) × IsValid q
unfolding find_string
add_member_name =
    let (q, e, v, o1, o2, o3, o4, o5, o6) =
      add_string_fits (98 ∷ []) with_class_name with_class_name-IsValid refl refl (omega arith) in
    (q, e, v)

abbrev member_infos_stored : List MemberDescriptionInfo
member_infos_stored = record { name_offset = 4; info_type = 2; info_index = 7 } ∷ []

describe_lem_example :
    (info : ObjectDescriptionInfo) × (q : DataPool) × (describe a_class (some 16) new_data_pool
      ≡ some (info, q))
    × (info.offset ≡ add_member_name.0.size)
    × IsValid q
    × (parse_description (read_words q info.offset 6)
        ≡ some (record {
          read_name = 0;
          read_base = 16;
          read_flags = 3;
          read_members = member_infos_stored;
        }))
describe_lem_example =
    describe_lem a_class (some 16) new_data_pool add_class_name
      (a_name add_member_name.1 refl refl no_names) add_member_name.2 (omega arith) (omega arith)
      (omega arith) (omega arith) (narrow_info (omega arith) (omega arith) (omega arith) no_narrow)

abbrev both_tables : Tables
both_tables = record { descriptions = []; described_shapes = []; imports = table; exports = table }

abbrev described_pool : DataPool
described_pool = write_block metas_block 0 new_data_pool (λ p. p)

add_no_words : (p : DataPool) → p ≡ add_words [] p
unfolding add_words
add_no_words p = refl

described_pool-IsValid : IsValid described_pool
described_pool-IsValid =
    (write_block-HasBlock metas_block 0 [] new_data_pool (λ p. p) new_pool_valid
      (λ p. add_no_words p)).valid

no_descriptions : build_object_descriptions [] [] new_data_pool ≡ some ([], described_pool)
unfolding build_object_descriptions describe_all
no_descriptions = refl

build_lem_example :
    ((shapes_words [] [] a_context ≡ none) × (build both_tables a_context new_data_pool ≡ none))
    ⊎ ((ws : List ℕ) × (c' : GlobalContext) × (b : Built) × (shapes_words [] [] a_context
          ≡ some (ws, c'))
        × (build both_tables a_context new_data_pool ≡ some b)
        × HasTables both_tables ws described_pool b)
unfolding all_shapes
build_lem_example =
    build_lem both_tables a_context new_data_pool no_descriptions described_pool-IsValid table_small
      table_small
