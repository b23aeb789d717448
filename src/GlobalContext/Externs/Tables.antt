-- ===== src/GlobalContext/Externs/Tables.antt =====
-- What the import and export tables hold.
use mathlib.Core.Path.{subst}
use wasmnizer_ts.GlobalContext.{
  GlobalContext, IndexMap, S, found_index, get_class_index, get_function_index, get_var_index,
  import_export_s, index_of, map_get, update_statistics,
}
use wasmnizer_ts.DataPool.{add_string}
use wasmnizer_ts.GlobalContext.Externs.{
  Building, ExternIndex, ExternItem, ExternModule, ExternTypeKind, RuntimeExternItem,
  RuntimeExternModule, build_item, extern_class, extern_enum, extern_function, extern_var,
  find_extern_item_index, index, minus_one, with_index,
}
use wasmnizer_ts.Base.{
  List, Option, [], ap, none, refl, some, suc, sym, zero, ℕ, ◌+◌, ◌∙◌, ◌∷◌, ◌≡◌,
}

-- The index that an item has to carry, by the maps of the context.
pub data Resolves (c : GlobalContext) (it : ExternItem) : ExternIndex → Type 0 where
  to_function :
      {i : ℕ}
      → it.item_kind ≡ extern_function
      → map_get it.extern_type c.global_functions ≡ some (suc i)
      → Resolves c it (index i)
  to_class :
      {i : ℕ}
      → it.item_kind ≡ extern_class
      → map_get it.instance_type c.global_classes ≡ some (suc i)
      → Resolves c it (index i)
  to_var :
      {i : ℕ}
      → it.item_kind ≡ extern_var
      → map_get it.extern_type c.global_vars ≡ some (suc i)
      → Resolves c it (index i)
  to_enum : it.item_kind ≡ extern_enum → Resolves c it minus_one

-- The table entries of the items, numbered from `n` on.
pub data ItemsFit (c : GlobalContext) : List ExternItem → ℕ → List RuntimeExternItem → Type 0 where
  no_items : {n : ℕ} → ItemsFit c [] n []
  fit_item :
      {it : ExternItem} {its : List ExternItem} {n : ℕ} {r : RuntimeExternItem}
      {rs : List RuntimeExternItem}
      → r.extern_index ≡ n
      → r.kind ≡ it.item_kind
      → Resolves c it r.type_index
      → ItemsFit c its (n + 1) rs
      → ItemsFit c (it ∷ its) n (r ∷ rs)

pub data TableFit (c : GlobalContext)
    : List ExternModule → ℕ → List RuntimeExternModule → Type 0 where
  no_modules : {n : ℕ} → TableFit c [] n []
  fit_module :
      {m : ExternModule} {ms : List ExternModule} {n : ℕ} {r : RuntimeExternModule}
      {rs : List RuntimeExternModule}
      → r.module_extern_index ≡ n
      → ItemsFit c m.items 0 r.runtime_items
      → TableFit c ms (n + 1) rs
      → TableFit c (m ∷ ms) n (r ∷ rs)

-- The two contexts number alike.
pub record SameMaps (c d : GlobalContext) : Type 0 where
  pub vars : c.global_vars ≡ d.global_vars
  pub functions : c.global_functions ≡ d.global_functions
  pub classes : c.global_classes ≡ d.global_classes

pub SameMaps-refl : (c : GlobalContext) → SameMaps c c
SameMaps-refl c = record { vars = refl; functions = refl; classes = refl }

pub SameMaps-sym : {c d : GlobalContext} → SameMaps c d → SameMaps d c
SameMaps-sym f = record { vars = sym f.vars; functions = sym f.functions; classes = sym f.classes }

pub SameMaps-trans : {c d e : GlobalContext} → SameMaps c d → SameMaps d e → SameMaps c e
SameMaps-trans f g = record {
  vars = f.vars ∙ g.vars;
  functions = f.functions ∙ g.functions;
  classes = f.classes ∙ g.classes;
}

pub bind-eq-some :
    {A B : Type 0} (o : Option A) (f : A → Option B) {b : B}
    → (elim o as (λ o. Option B) [ none ↦ none | some a ↦ f a ]) ≡ some b
    → (a : A) × (o ≡ some a) × (f a ≡ some b)
bind-eq-some none f h = cc
bind-eq-some (some a) f h = (a, refl, h)

pub pair-eq :
    {A B : Type 0} {a b : A} {c d : B}
    → ◌≡◌ {A = Option (A × B)} (some (a, c)) (some (b, d))
    → (a ≡ b) × (c ≡ d)
pair-eq h = (cc, cc)

found_index-eq-some : (o : Option ℕ) {i : ℕ} → found_index o ≡ some i → o ≡ some (suc i)
unfolding found_index
found_index-eq-some none h = cc
found_index-eq-some (some zero) h = cc
found_index-eq-some (some (suc j)) h = cc

SameMaps-update : (k : ℕ) (s : S) (c : GlobalContext) → SameMaps c (update_statistics k s c)
unfolding update_statistics
SameMaps-update k s c = record { vars = refl; functions = refl; classes = refl }

index_of-found :
    (m : IndexMap) (k : ℕ) (s : S) (c : GlobalContext) {i : ExternIndex} {d : GlobalContext}
    → with_index (index_of m k s c) ≡ some (i, d)
    → (j : ℕ) × (i ≡ index j) × (map_get k m ≡ some (suc j)) × SameMaps c d
unfolding index_of
index_of-found m k s c {i} {d} h = go (found_index (map_get k m)) refl h
  where
    go :
        (o : Option ℕ)
        → found_index (map_get k m) ≡ o
        → with_index (elim o as (λ o. Option (ℕ × GlobalContext)) [
          | none ↦ none
          | some i ↦ some (i, update_statistics k s c)
        ])
          ≡ some (i, d)
        → (j : ℕ) × (i ≡ index j) × (map_get k m ≡ some (suc j)) × SameMaps c d
    go none q e = cc
    go (some j) q e =
        let (ij, cd) = pair-eq e in
        (
          j,
          sym ij,
          found_index-eq-some _ q,
          subst (λ (x : GlobalContext). SameMaps c x) cd (SameMaps-update k s c),
        )

find_extern_item_index-Resolves :
    (it : ExternItem) (c : GlobalContext) {i : ExternIndex} {d : GlobalContext}
    → find_extern_item_index it c ≡ some (i, d)
    → Resolves c it i × SameMaps c d
unfolding find_extern_item_index get_function_index get_class_index get_var_index
find_extern_item_index-Resolves it c {i} {d} h = go it.item_kind refl h
  where
    go :
        (k : ExternTypeKind)
        → it.item_kind ≡ k
        → (elim k as (λ k. Option (ExternIndex × GlobalContext)) [
          | extern_function ↦ with_index (get_function_index it.extern_type import_export_s c)
          | extern_class ↦ with_index (get_class_index it.instance_type import_export_s c)
          | extern_var ↦ with_index (get_var_index it.extern_type import_export_s c)
          | extern_enum ↦ some (minus_one, c)
        ])
          ≡ some (i, d)
        → Resolves c it i × SameMaps c d
    go extern_function q e =
        let (j, ij, g, same) =
          index_of-found c.global_functions it.extern_type import_export_s c e in
        (subst (Resolves c it) (sym ij) (to_function q g), same)
    go extern_class q e =
        let (j, ij, g, same) =
          index_of-found c.global_classes it.instance_type import_export_s c e in
        (subst (Resolves c it) (sym ij) (to_class q g), same)
    go extern_var q e =
        let (j, ij, g, same) = index_of-found c.global_vars it.extern_type import_export_s c e in
        (subst (Resolves c it) (sym ij) (to_var q g), same)
    go extern_enum q e =
        let (ij, cd) = pair-eq e in
        (
          subst (Resolves c it) ij (to_enum q),
          subst (λ (x : GlobalContext). SameMaps c x) cd (SameMaps-refl c),
        )

pub build_item-fits :
    (it : ExternItem) (n : ℕ) (b : Building) {r : RuntimeExternItem} {b' : Building}
    → build_item it n b ≡ some (r, b')
    → (r.extern_index ≡ n)
      × (r.kind ≡ it.item_kind)
      × Resolves b.context it r.type_index
      × SameMaps b.context b'.context
unfolding build_item
build_item-fits it n b {r} {b'} h =
    let (op, added, h2) =
      bind-eq-some (add_string it.item_name b.data_pool)
        (λ op.
          elim (find_extern_item_index it b.context)
            as (λ o. Option (RuntimeExternItem × Building)) [
              | none ↦ none
              | some (i, c) ↦ some (
                record {
                  name_offset = op.0;
                  kind = it.item_kind;
                  type_index = i;
                  extern_index = n;
                },
                record { data_pool = op.1; context = c },
              )
            ])
        h in
    let (ic, found, h3) =
      bind-eq-some (find_extern_item_index it b.context)
        (λ ic. some (
          record { name_offset = op.0; kind = it.item_kind; type_index = ic.0; extern_index = n },
          record { data_pool = op.1; context = ic.1 },
        ))
        h2 in
    let (res, same) = find_extern_item_index-Resolves it b.context found in
    let (er, eb) = pair-eq h3 in
    (
      ap (λ (x : RuntimeExternItem). x.extern_index) (sym er),
      ap (λ (x : RuntimeExternItem). x.kind) (sym er),
      subst (λ (x : RuntimeExternItem). Resolves b.context it x.type_index) er res,
      subst (λ (x : Building). SameMaps b.context x.context) eb same,
    )
