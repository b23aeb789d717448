-- ===== src/GlobalContext/Externs/Returns.antt =====
-- When the import and export tables can be built.
use wasmnizer_ts.GlobalContext.{
  GlobalContext, IndexMap, S, found_index, get_class_index, get_function_index, get_var_index,
  import_export_s, index_of, map_get, update_statistics,
}
use wasmnizer_ts.GlobalContext.Externs.Order.{
  Resolves-SameMaps, build_items-fits, build_modules-fits,
}
use wasmnizer_ts.GlobalContext.Externs.{
  Building, ExternIndex, ExternItem, ExternModule, RuntimeExternItem, RuntimeExternModule,
  build_extern_modules, build_item, build_items, find_extern_item_index,
}
use wasmnizer_ts.GlobalContext.Externs.Tables.{
  Resolves, SameMaps, SameMaps-refl, SameMaps-sym, SameMaps-trans, TableFit, build_item-fits,
  to_class, to_enum, to_function, to_var,
}
use wasmnizer_ts.DataPool.{DataPool, add_string, append_string, find_string, update_buffer_size}
use wasmnizer_ts.DataPool.AddString.{store_string-Stored}
use wasmnizer_ts.DataPool.Strings.{is_latin1}
use wasmnizer_ts.Base.{List, Option, [], length, none, refl, some, suc, true, ℕ, ◌+◌, ◌∷◌, ◌≡◌}

add_string-returns :
    (s : List ℕ) (p : DataPool)
    → is_latin1 s ≡ true
    → (r : ℕ × DataPool) × (add_string s p ≡ some r)
unfolding add_string append_string
add_string-returns s p l = go (find_string s p.str_map)
  where
    go :
        (o : Option ℕ)
        → (r : ℕ × DataPool) × ((elim o as (λ o. Option (ℕ × DataPool)) [
          | some n ↦ some (n, p)
          | none ↦ append_string s p
        ])
            ≡ some r)
    go none =
        let (q, r) = store_string-Stored s (update_buffer_size (length s) p) l in (_, r.result)
    go (some n) = ((n, p), refl)

found_index-suc : (i : ℕ) → found_index (some (suc i)) ≡ some i
unfolding found_index
found_index-suc i = refl

index_of-known :
    (m : IndexMap) (k : ℕ) (s : S) (c : GlobalContext) {i : ℕ}
    → map_get k m ≡ some (suc i)
    → index_of m k s c ≡ some (i, update_statistics k s c)
unfolding index_of
index_of-known m k s c {i} h = rw (index_of, h, found_index-suc i) refl

find_extern_item_index-known :
    (it : ExternItem) (c : GlobalContext) {i : ExternIndex}
    → Resolves c it i
    → (d : GlobalContext) × (find_extern_item_index it c ≡ some (i, d))
unfolding find_extern_item_index get_function_index get_class_index get_var_index
find_extern_item_index-known it c (to_function q e) = (
  update_statistics it.extern_type import_export_s c,
  rw
      (
        find_extern_item_index,
        q,
        index_of-known c.global_functions it.extern_type import_export_s c e,
      )
      refl,
)
find_extern_item_index-known it c (to_class q e) = (
  update_statistics it.instance_type import_export_s c,
  rw
      (
        find_extern_item_index,
        q,
        index_of-known c.global_classes it.instance_type import_export_s c e,
      )
      refl,
)
find_extern_item_index-known it c (to_var q e) = (
  update_statistics it.extern_type import_export_s c,
  rw (find_extern_item_index, q, index_of-known c.global_vars it.extern_type import_export_s c e)
      refl,
)
find_extern_item_index-known it c (to_enum q) = (c, rw (find_extern_item_index, q) refl)

-- The names are strings of bytes, and the maps have the declarations and classes.
pub data AreKnown (c : GlobalContext) : List ExternItem → Type 0 where
  none_known : AreKnown c []
  item_known :
      {it : ExternItem} {its : List ExternItem} {i : ExternIndex}
      → is_latin1 it.item_name ≡ true
      → Resolves c it i
      → AreKnown c its
      → AreKnown c (it ∷ its)

pub data AllKnown (c : GlobalContext) : List ExternModule → Type 0 where
  all_known : AllKnown c []
  module_known :
      {m : ExternModule} {ms : List ExternModule}
      → is_latin1 m.module_name ≡ true
      → AreKnown c m.items
      → AllKnown c ms
      → AllKnown c (m ∷ ms)

build_item-known :
    (it : ExternItem) (n : ℕ) (b : Building) {i : ExternIndex}
    → is_latin1 it.item_name ≡ true
    → Resolves b.context it i
    → (r : RuntimeExternItem) × (b' : Building) × (build_item it n b ≡ some (r, b'))
unfolding build_item
build_item-known it n b {i} l k =
    let (op, added) = add_string-returns it.item_name b.data_pool l in
    let (d, found) = find_extern_item_index-known it b.context k in
    (
      record { name_offset = op.0; kind = it.item_kind; type_index = i; extern_index = n },
      record { data_pool = op.1; context = d },
      rw (build_item, added, found) refl,
    )

build_items-known :
    (c : GlobalContext) (its : List ExternItem) (n : ℕ) (b : Building)
    → SameMaps b.context c
    → AreKnown c its
    → (rs : List RuntimeExternItem) × (b' : Building) × (build_items its n b ≡ some (rs, b'))
unfolding build_items
build_items-known c [] n b same k = ([], b, refl)
build_items-known c (it ∷ its) n b same (item_known l res ks) =
    let (r, b1, first) = build_item-known it n b l (Resolves-SameMaps same res) in
    let (at, kind, res', kept) = build_item-fits it n b first in
    let (rs, b2, rest) =
      build_items-known c its (n + 1) b1 (SameMaps-trans (SameMaps-sym kept) same) ks in
    (r ∷ rs, b2, rw (build_items, first, rest) refl)

build_modules-known :
    (c : GlobalContext) (ms : List ExternModule) (n : ℕ) (b : Building)
    → SameMaps b.context c
    → AllKnown c ms
    → (rs : List RuntimeExternModule) × (b' : Building) × (build_extern_modules ms n b
        ≡ some (rs, b'))
unfolding build_extern_modules
build_modules-known c [] n b same k = ([], b, refl)
build_modules-known c (m ∷ ms) n b same (module_known l items ks) =
    let (op, added) = add_string-returns m.module_name b.data_pool l in
    let (rs, b1, first) =
      build_items-known c m.items 0 (record b { data_pool = op.1 }) same items in
    let (fits, kept) =
      build_items-fits b.context m.items 0 (record b { data_pool = op.1 }) (SameMaps-refl b.context)
        first in
    let (ms', b2, rest) =
      build_modules-known c ms (n + 1) b1 (SameMaps-trans (SameMaps-sym kept) same) ks in
    (
      record { module_name_offset = op.0; runtime_items = rs; module_extern_index = n } ∷ ms',
      b2,
      rw (build_extern_modules, added, first, rest) refl,
    )

-- When every name is a string of bytes and the context knows every declaration and class,
-- `buildExternModules` returns. Its table has one entry for each module, in order and numbered
-- from 0, with one entry for each of its items, in order and numbered from 0, of the item's kind
-- and with the index of the item's declaration or class in the maps of the context (-1 for an
-- enum). The maps are as before.
pub build_extern_modules_lem :
    (ms : List ExternModule) (b : Building)
    → AllKnown b.context ms
    → (rs : List RuntimeExternModule) × (b' : Building) × (build_extern_modules ms 0 b
        ≡ some (rs, b'))
      × TableFit b.context ms 0 rs
      × SameMaps b.context b'.context
build_extern_modules_lem ms b k =
    let (rs, b', e) = build_modules-known b.context ms 0 b (SameMaps-refl b.context) k in
    let (fit, same) = build_modules-fits b.context ms 0 b (SameMaps-refl b.context) e in
    (rs, b', e, fit, same)
