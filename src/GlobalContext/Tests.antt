-- ===== src/GlobalContext/Tests.antt =====
-- The index maps of a small module.
use wasmnizer_ts.GlobalContext.Externs.{
  Building, ExternModule, RuntimeExternModule, build_extern_modules, extern_enum, extern_function,
}
use wasmnizer_ts.GlobalContext.Externs.Tables.{SameMaps, TableFit, to_enum, to_function}
use wasmnizer_ts.GlobalContext.Externs.Returns.{
  all_known, build_extern_modules_lem, item_known, module_known, none_known,
}
use wasmnizer_ts.DataPool.{new_data_pool}
use wasmnizer_ts.GlobalContext.{
  ModuleNode, ObjectDescription, array_set, build_map_as_array, fill_array, get_class_index,
  index_classes, index_compatible, index_from, index_metas, index_shapes, map_get, map_set,
  new_global_context, new_s, process_shapes, update_statistics,
}
use wasmnizer_ts.GlobalContext.Maps.{AreDistinct, none_left, one_more}
use wasmnizer_ts.GlobalContext.Indices.{fresh, get_class_index_lem, object_types}
use wasmnizer_ts.Base.{
  List, Option, [], arith, false, get_elem?, none, refl, some, suc, true, zero, ℕ, ◌∷◌, ◌≡◌, ◌≢◌,
}

abbrev shapes_of : ℕ → Option ℕ → List ℕ → ObjectDescription
shapes_of d o ss = record { identity = d; origin_shape = o; this_shape = o; compatible_shapes = ss }

-- The description 1 is compatible with the shape 10, which is the origin shape of the description
-- 2.
abbrev a_module : ModuleNode
a_module = record {
  vars = 5 ∷ 6 ∷ [];
  functions = 7 ∷ [];
  named_types =
      record { type_identity = 20; is_object = true }
      ∷ record { type_identity = 21; is_object = false }
      ∷ record { type_identity = 22; is_object = true }
      ∷ [];
  object_descriptions = shapes_of 1 (some 11) (10 ∷ []) ∷ shapes_of 2 (some 10) [] ∷ [];
}

-- The shape 10 is numbered twice, so the table of shapes has a hole.
shapes_with_hole :
    build_map_as_array (new_global_context a_module).global_static_shapes
    ≡ some 11 ∷ none ∷ some 10 ∷ []
unfolding new_global_context process_shapes index_shapes index_compatible build_map_as_array
    fill_array array_set map_set map_get index_from index_classes index_metas
shapes_with_hole = refl

two_distinct : AreDistinct (5 ∷ 6 ∷ [])
two_distinct = one_more (λ j e. other j e) (one_more (λ j e. cc) none_left)
  where
    other : (j : ℕ) → get_elem? {A = ℕ} (6 ∷ []) j ≢ some 5
    other zero e = ground arith
    other (suc j) e = cc

objects_distinct : AreDistinct (20 ∷ 22 ∷ [])
objects_distinct = one_more (λ j e. other j e) (one_more (λ j e. cc) none_left)
  where
    other : (j : ℕ) → get_elem? {A = ℕ} (22 ∷ []) j ≢ some 20
    other zero e = ground arith
    other (suc j) e = cc

get_class_index_lem_example :
    ((j : ℕ)
      → get_elem? {A = ℕ} (20 ∷ 22 ∷ []) j ≡ some 22
      → (get_class_index 22 new_s (new_global_context a_module)
          ≡ some (j, update_statistics 22 new_s (new_global_context a_module)))
        × (build_map_as_array (new_global_context a_module).global_classes
            ≡ some 20 ∷ some 22 ∷ []))
    × (((j : ℕ) → get_elem? {A = ℕ} (20 ∷ 22 ∷ []) j ≢ some 22)
        → get_class_index 22 new_s (new_global_context a_module) ≡ none)
unfolding object_types
get_class_index_lem_example =
    get_class_index_lem a_module (new_global_context a_module) 22 new_s fresh objects_distinct

-- A module with the name "m", which exports the function 7 and an enum.
abbrev exported : ExternModule
exported = record {
  module_name = 109 ∷ [];
  items =
      record {
        item_name = 102 ∷ [];
        item_kind = extern_function;
        extern_type = 7;
        instance_type = 0;
      }
      ∷ record {
        item_name = 101 ∷ [];
        item_kind = extern_enum;
        extern_type = 30;
        instance_type = 0;
      }
      ∷ [];
}

abbrev building : Building
building = record { data_pool = new_data_pool; context = new_global_context a_module }

function_indexed : map_get 7 building.context.global_functions ≡ some 1
unfolding new_global_context index_from map_set map_get
function_indexed = refl

build_extern_modules_lem_example :
    (rs : List RuntimeExternModule) × (b' : Building) × (build_extern_modules
        (exported ∷ [])
        0
        building
      ≡ some (rs, b'))
    × TableFit building.context (exported ∷ []) 0 rs
    × SameMaps building.context b'.context
build_extern_modules_lem_example = build_extern_modules_lem (exported ∷ []) building (
    module_known refl
      (item_known refl (to_function refl function_indexed)
        (item_known refl (to_enum refl) none_known))
      all_known)
