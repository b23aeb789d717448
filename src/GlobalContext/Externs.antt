-- ===== src/GlobalContext/Externs.antt =====
-- `buildExternModules`: the import and export tables, whose names go to the data pool. `none`
-- stands for an exception of `addString` or of a lookup. `modMap`, which `getImportInfo` reads, is
-- left out.
pub mod Tables
pub mod Order
pub mod Returns
use wasmnizer_ts.GlobalContext.{
  GlobalContext, get_class_index, get_function_index, get_var_index, import_export_s,
}
use wasmnizer_ts.DataPool.{DataPool, add_string}
use wasmnizer_ts.Base.{List, Option, [], none, some, ℕ, ◌+◌, ◌∷◌}

pub data ExternTypeKind : Type 0 where
  extern_function extern_class extern_var extern_enum : ExternTypeKind

-- The identity of the type, and that of its instance type, which classes have.
pub record ExternItem : Type 0 where
  pub item_name : List ℕ
  pub item_kind : ExternTypeKind
  pub extern_type : ℕ
  pub instance_type : ℕ

pub record ExternModule : Type 0 where
  pub module_name : List ℕ
  pub items : List ExternItem

-- An index, or -1.
pub data ExternIndex : Type 0 where
  index : ℕ → ExternIndex
  minus_one : ExternIndex

pub record RuntimeExternItem : Type 0 where
  pub name_offset : ℕ
  pub kind : ExternTypeKind
  pub type_index : ExternIndex
  pub extern_index : ℕ

pub record RuntimeExternModule : Type 0 where
  pub module_name_offset : ℕ
  pub runtime_items : List RuntimeExternItem
  pub module_extern_index : ℕ

abbrev pub with_index : Option (ℕ × GlobalContext) → Option (ExternIndex × GlobalContext)
with_index none = none
with_index (some (i, c)) = some (index i, c)

unfoldable pub find_extern_item_index :
    ExternItem → GlobalContext → Option (ExternIndex × GlobalContext)
find_extern_item_index it c = elim it.item_kind [
  | extern_function ↦ with_index (get_function_index it.extern_type import_export_s c)
  | extern_class ↦ with_index (get_class_index it.instance_type import_export_s c)
  | extern_var ↦ with_index (get_var_index it.extern_type import_export_s c)
  | extern_enum ↦ some (minus_one, c)
]

-- The data pool and the context, which the loops change.
pub record Building : Type 0 where
  pub data_pool : DataPool
  pub context : GlobalContext

-- One turn of the inner loop, with `items.length`.
unfoldable pub build_item : ExternItem → ℕ → Building → Option (RuntimeExternItem × Building)
build_item it n b = elim (add_string it.item_name b.data_pool) [
  | none ↦ none
  | some (offset, pool) ↦ elim (find_extern_item_index it b.context) [
    | none ↦ none
    | some (i, c) ↦ some (
      record { name_offset = offset; kind = it.item_kind; type_index = i; extern_index = n },
      record { data_pool = pool; context = c },
    )
  ]
]

unfoldable pub build_items :
    List ExternItem → ℕ → Building → Option (List RuntimeExternItem × Building)
build_items [] n b = some ([], b)
build_items (it ∷ its) n b = elim (build_item it n b) [
  | none ↦ none
  | some (r, b') ↦ elim (build_items its (n + 1) b') [
    | none ↦ none
    | some (rs, b'') ↦ some (r ∷ rs, b'')
  ]
]

-- The outer loop, with `extern_modules.length`.
unfoldable pub build_extern_modules :
    List ExternModule → ℕ → Building → Option (List RuntimeExternModule × Building)
build_extern_modules [] n b = some ([], b)
build_extern_modules (m ∷ ms) n b = elim (add_string m.module_name b.data_pool) [
  | none ↦ none
  | some (offset, pool) ↦ elim (build_items m.items 0 (record b { data_pool = pool })) [
    | none ↦ none
    | some (rs, b') ↦ elim (build_extern_modules ms (n + 1) b') [
      | none ↦ none
      | some (ms', b'') ↦ some (
        record { module_name_offset = offset; runtime_items = rs; module_extern_index = n } ∷ ms',
        b'',
      )
    ]
  ]
]
