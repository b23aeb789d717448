-- ===== src/GlobalContext/Externs/Order.antt =====
-- The order of the entries of the import and export tables.
use mathlib.Core.Path.{subst}
use wasmnizer_ts.GlobalContext.{GlobalContext, map_get}
use wasmnizer_ts.GlobalContext.Externs.{
  Building, ExternIndex, ExternItem, ExternModule, RuntimeExternItem, RuntimeExternModule,
  build_extern_modules, build_item, build_items,
}
use wasmnizer_ts.GlobalContext.Externs.Tables.{
  ItemsFit, Resolves, SameMaps, SameMaps-trans, TableFit, bind-eq-some, build_item-fits, fit_item,
  no_items, no_modules, fit_module, pair-eq, to_class, to_enum, to_function, to_var,
}
use wasmnizer_ts.DataPool.{add_string}
use wasmnizer_ts.Base.{List, Option, [], ap, none, refl, some, ℕ, ◌+◌, ◌∙◌, ◌∷◌, ◌≡◌}

pub Resolves-SameMaps :
    {c d : GlobalContext} {it : ExternItem} {i : ExternIndex}
    → SameMaps c d
    → Resolves d it i
    → Resolves c it i
Resolves-SameMaps {it = it} same (to_function q e) =
    to_function q (ap (map_get it.extern_type) same.functions ∙ e)
Resolves-SameMaps {it = it} same (to_class q e) =
    to_class q (ap (map_get it.instance_type) same.classes ∙ e)
Resolves-SameMaps {it = it} same (to_var q e) = to_var q (ap (map_get it.extern_type) same.vars ∙ e)
Resolves-SameMaps same (to_enum q) = to_enum q

pub build_items-fits :
    (c : GlobalContext) (its : List ExternItem) (n : ℕ) (b : Building) {rs : List RuntimeExternItem}
    {b' : Building}
    → SameMaps c b.context
    → build_items its n b ≡ some (rs, b')
    → ItemsFit c its n rs × SameMaps c b'.context
unfolding build_items
build_items-fits c [] n b same h =
    let (er, eb) = pair-eq h in
    (subst (ItemsFit c [] n) er no_items, subst (λ (x : Building). SameMaps c x.context) eb same)
build_items-fits c (it ∷ its) n b same h =
    let (rb, first, h2) =
      bind-eq-some (build_item it n b)
        (λ rb.
          elim (build_items its (n + 1) rb.1) as (λ o. Option (List RuntimeExternItem × Building)) [
            | none ↦ none
            | some (rs, b'') ↦ some (rb.0 ∷ rs, b'')
          ])
        h in
    let (rs, rest, h3) =
      bind-eq-some (build_items its (n + 1) rb.1) (λ rs. some (rb.0 ∷ rs.0, rs.1)) h2 in
    let (at, kind, res, kept) = build_item-fits it n b first in
    let (fits, after) = build_items-fits c its (n + 1) rb.1 (SameMaps-trans same kept) rest in
    let (er, eb) = pair-eq h3 in
    (
      subst (ItemsFit c (it ∷ its) n) er (fit_item at kind (Resolves-SameMaps same res) fits),
      subst (λ (x : Building). SameMaps c x.context) eb after,
    )

pub build_modules-fits :
    (c : GlobalContext) (ms : List ExternModule) (n : ℕ) (b : Building)
    {rs : List RuntimeExternModule} {b' : Building}
    → SameMaps c b.context
    → build_extern_modules ms n b ≡ some (rs, b')
    → TableFit c ms n rs × SameMaps c b'.context
unfolding build_extern_modules
build_modules-fits c [] n b same h =
    let (er, eb) = pair-eq h in
    (subst (TableFit c [] n) er no_modules, subst (λ (x : Building). SameMaps c x.context) eb same)
build_modules-fits c (m ∷ ms) n b same h =
    let (op, added, h2) =
      bind-eq-some (add_string m.module_name b.data_pool)
        (λ op.
          elim (build_items m.items 0 (record b { data_pool = op.1 }))
            as (λ o. Option (List RuntimeExternModule × Building)) [
              | none ↦ none
              | some (rs, b') ↦
                  elim (build_extern_modules ms (n + 1) b')
                    as (λ o. Option (List RuntimeExternModule × Building)) [
                      | none ↦ none
                      | some (ms', b'') ↦ some (
                        record {
                          module_name_offset = op.0;
                          runtime_items = rs;
                          module_extern_index = n;
                        }
                            ∷ ms',
                        b'',
                      )
                    ]
            ])
        h in
    let (rb, inner, h3) =
      bind-eq-some (build_items m.items 0 (record b { data_pool = op.1 }))
        (λ rb.
          elim (build_extern_modules ms (n + 1) rb.1)
            as (λ o. Option (List RuntimeExternModule × Building)) [
              | none ↦ none
              | some (ms', b'') ↦ some (
                record { module_name_offset = op.0; runtime_items = rb.0; module_extern_index = n }
                    ∷ ms',
                b'',
              )
            ])
        h2 in
    let (mb, rest, h4) =
      bind-eq-some (build_extern_modules ms (n + 1) rb.1)
        (λ mb. some (
          record { module_name_offset = op.0; runtime_items = rb.0; module_extern_index = n }
              ∷ mb.0,
          mb.1,
        ))
        h3 in
    let (items, kept) = build_items-fits c m.items 0 (record b { data_pool = op.1 }) same inner in
    let (fits, after) = build_modules-fits c ms (n + 1) rb.1 kept rest in
    let (er, eb) = pair-eq h4 in
    (
      subst (TableFit c (m ∷ ms) n) er (fit_module refl items fits),
      subst (λ (x : Building). SameMaps c x.context) eb after,
    )
