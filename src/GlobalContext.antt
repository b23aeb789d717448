-- ===== src/GlobalContext.antt =====
-- src/semantics/ir/ir_context.ts: the index maps of the bytecode backend. The objects that are keys
-- (declarations, types, descriptions, shapes) are numbers that stand for their identities.
--
-- A `Map` is its list of entries in insertion order. `none` stands for an exception.
pub mod Maps
pub mod Indices
pub mod Externs
pub mod Tests
use wasmnizer_ts.Base.{
  Bool, List, Option, [], false, if◌then◌else◌, length, none, replicate, some, suc, true, zero, ℕ,
  ◌+◌, ◌-◌, ◌==◌, ◌∷◌,
}

abbrev pub IndexMap : Type 0
IndexMap = List (ℕ × ℕ)

unfoldable pub map_get {ℓ} : {A : Type ℓ} → ℕ → List (ℕ × A) → Option A
map_get k [] = none
map_get k ((l, v) ∷ m) = if l == k then some v else map_get k m

-- `Map.set` keeps the place of a key that is present.
unfoldable pub map_set {ℓ} : {A : Type ℓ} → ℕ → A → List (ℕ × A) → List (ℕ × A)
map_set k v [] = (k, v) ∷ []
map_set k v ((l, w) ∷ m) = if l == k then (l, v) ∷ m else (l, w) ∷ map_set k v m

-- `arr[i] = v`: an array grows by holes.
unfoldable pub array_set : List (Option ℕ) → ℕ → ℕ → List (Option ℕ)
array_set [] zero v = some v ∷ []
array_set [] (suc i) v = none ∷ array_set [] i v
array_set (x ∷ xs) zero v = some v ∷ xs
array_set (x ∷ xs) (suc i) v = x ∷ array_set xs i v

unfoldable pub fill_array : IndexMap → List (Option ℕ) → List (Option ℕ)
fill_array [] arr = arr
fill_array ((t, idx) ∷ m) arr = fill_array m (array_set arr (idx - 1) t)

-- `buildMapAsArray`. Every index is at least 1.
unfoldable pub build_map_as_array : IndexMap → List (Option ℕ)
build_map_as_array m = fill_array m (replicate (length m) none)

pub record StatisticsInfo : Type 0 where
  pub load_count : ℕ
  pub save_count : ℕ
  pub new_count : ℕ
  pub call_count : ℕ

pub data S : Type 0 where
  load_s new_s save_s call_s import_export_s : S

pub record GlobalContext : Type 0 where
  pub global_vars : IndexMap
  pub global_functions : IndexMap
  pub global_classes : IndexMap
  pub global_metas : IndexMap
  pub global_static_shapes : IndexMap
  pub global_statistics_info : List (ℕ × StatisticsInfo)

-- `meta.compatibleShapes` by its values, in insertion order.
pub record ObjectDescription : Type 0 where
  pub identity : ℕ
  pub origin_shape : Option ℕ
  pub this_shape : Option ℕ
  pub compatible_shapes : List ℕ

-- The values of `namedTypes`: the type, and whether its kind is OBJECT.
pub record NamedType : Type 0 where
  pub type_identity : ℕ
  pub is_object : Bool

pub record ModuleNode : Type 0 where
  pub vars : List ℕ
  pub functions : List ℕ
  pub named_types : List NamedType
  pub object_descriptions : List ObjectDescription

-- The loops of `processVars` and `processFunctions`.
unfoldable pub index_from : List ℕ → ℕ → IndexMap → IndexMap
index_from [] i m = m
index_from (v ∷ vs) i m = index_from vs (i + 1) (map_set v i m)

unfoldable pub index_classes : List NamedType → ℕ → IndexMap → IndexMap
index_classes [] i m = m
index_classes (t ∷ ts) i m =
    if t.is_object
    then index_classes ts (i + 1) (map_set t.type_identity i m)
    else index_classes ts i m

abbrev has_key : ℕ → IndexMap → Bool
has_key k m = elim (map_get k m) [ none ↦ false | some v ↦ true ]

unfoldable pub index_compatible : List ℕ → ℕ × IndexMap → ℕ × IndexMap
index_compatible [] (i, m) = (i, m)
index_compatible (s ∷ ss) (i, m) =
    if has_key s m then index_compatible ss (i, m) else index_compatible ss (i + 1, map_set s i m)

abbrev index_shape : Option ℕ → ℕ × IndexMap → ℕ × IndexMap
index_shape none (i, m) = (i, m)
index_shape (some s) (i, m) = (i + 1, map_set s i m)

abbrev same_shape : Option ℕ → Option ℕ → Bool
same_shape (some s) (some t) = s == t
same_shape _ _ = false

-- The shapes of one description.
unfoldable pub index_shapes : ObjectDescription → ℕ × IndexMap → ℕ × IndexMap
index_shapes d im =
    let first = index_shape d.origin_shape im in
    index_compatible d.compatible_shapes
      (if same_shape d.this_shape d.origin_shape then first else index_shape d.this_shape first)

unfoldable pub process_shapes : List ObjectDescription → ℕ × IndexMap → ℕ × IndexMap
process_shapes [] im = im
process_shapes (d ∷ ds) im = process_shapes ds (index_shapes d im)

unfoldable pub index_metas : List ObjectDescription → ℕ → IndexMap → IndexMap
index_metas [] i m = m
index_metas (d ∷ ds) i m = index_metas ds (i + 1) (map_set d.identity i m)

-- The part of the constructor before `processImportsExports`. The two counters of
-- `processMetaShapes` do not depend on one another.
unfoldable pub new_global_context : ModuleNode → GlobalContext
new_global_context m = record {
  global_vars = index_from m.vars 1 [];
  global_functions = index_from m.functions 1 [];
  global_classes = index_classes m.named_types 1 [];
  global_metas = index_metas m.object_descriptions 1 [];
  global_static_shapes = (process_shapes m.object_descriptions (1, [])).1;
  global_statistics_info = [];
}

abbrev no_statistics : StatisticsInfo
no_statistics = record { load_count = 0; save_count = 0; new_count = 0; call_count = 0 }

unfoldable pub count : S → StatisticsInfo → StatisticsInfo
count load_s i = record i { load_count = i.load_count + 1 }
count save_s i = record i { save_count = i.save_count + 1 }
count new_s i = record i { new_count = i.new_count + 1 }
count call_s i = record i { call_count = i.call_count + 1 }
count import_export_s i = i

unfoldable pub update_statistics : ℕ → S → GlobalContext → GlobalContext
update_statistics k s c = record c {
  global_statistics_info = elim (map_get k c.global_statistics_info) [
    | none ↦ map_set k (count s no_statistics) c.global_statistics_info
    | some i ↦ map_set k (count s i) c.global_statistics_info
  ];
}

-- `!idx` holds of a missing index and of 0.
unfoldable pub found_index : Option ℕ → Option ℕ
found_index none = none
found_index (some zero) = none
found_index (some (suc i)) = some i

unfoldable pub index_of : IndexMap → ℕ → S → GlobalContext → Option (ℕ × GlobalContext)
index_of m k s c = elim (found_index (map_get k m)) [
  | none ↦ none
  | some i ↦ some (i, update_statistics k s c)
]

unfoldable pub get_var_index : ℕ → S → GlobalContext → Option (ℕ × GlobalContext)
get_var_index k s c = index_of c.global_vars k s c

unfoldable pub get_function_index : ℕ → S → GlobalContext → Option (ℕ × GlobalContext)
get_function_index k s c = index_of c.global_functions k s c

unfoldable pub get_class_index : ℕ → S → GlobalContext → Option (ℕ × GlobalContext)
get_class_index k s c = index_of c.global_classes k s c

unfoldable pub get_meta_index : ℕ → GlobalContext → Option (ℕ × GlobalContext)
get_meta_index k c = index_of c.global_metas k load_s c

-- The index is that of the generic shape, the statistics those of the shape.
unfoldable pub get_shape_index : ℕ → ℕ → GlobalContext → Option (ℕ × GlobalContext)
get_shape_index shape generic c = elim (found_index (map_get generic c.global_static_shapes)) [
  | none ↦ none
  | some i ↦ some (i, update_statistics shape load_s c)
]
