-- ===== src/GlobalContext/Indices.antt =====
-- The indices that are handed out, and the tables of the runtime data that they point into.
use wasmnizer_ts.GlobalContext.{
  GlobalContext, IndexMap, ModuleNode, NamedType, S, build_map_as_array, found_index,
  get_class_index, get_function_index, get_var_index, index_classes, index_from, index_of, map_get,
  map_set, new_global_context, update_statistics,
}
use wasmnizer_ts.GlobalContext.Maps.{
  AreDistinct, build_map_as_array-enumerate, index_from_new, map_get-enumerate,
  map_get-enumerate_absent,
}
use wasmnizer_ts.Base.{
  List, [], ap, arith, get_elem?, if◌then◌else◌, map, none, refl, some, suc, ℕ, ◌+◌, ◌∙◌, ◌∷◌, ◌≡◌,
  ◌≢◌,
}

-- The contexts of a module: a new one, and those after its indices have been asked for.
pub data IsContextOf (m : ModuleNode) : GlobalContext → Type 0 where
  fresh : IsContextOf m (new_global_context m)
  counted :
      {c : GlobalContext} (k : ℕ) (s : S)
      → IsContextOf m c
      → IsContextOf m (update_statistics k s c)

vars_kept :
    {m : ModuleNode} {c : GlobalContext} → IsContextOf m c → c.global_vars ≡ index_from m.vars 1 []
unfolding new_global_context update_statistics
vars_kept fresh = refl
vars_kept (counted k s r) = vars_kept r

functions_kept :
    {m : ModuleNode} {c : GlobalContext}
    → IsContextOf m c
    → c.global_functions ≡ index_from m.functions 1 []
unfolding new_global_context update_statistics
functions_kept fresh = refl
functions_kept (counted k s r) = functions_kept r

classes_kept :
    {m : ModuleNode} {c : GlobalContext}
    → IsContextOf m c
    → c.global_classes ≡ index_classes m.named_types 1 []
unfolding new_global_context update_statistics
classes_kept fresh = refl
classes_kept (counted k s r) = classes_kept r

-- The identities of the object types among the named types, in order.
unfoldable pub object_types : List NamedType → List ℕ
object_types [] = []
object_types (t ∷ ts) = if t.is_object then t.type_identity ∷ object_types ts else object_types ts

index_classes-object_types :
    (ts : List NamedType) (i : ℕ) (m : IndexMap)
    → index_classes ts i m ≡ index_from (object_types ts) i m
unfolding index_classes index_from object_types
index_classes-object_types [] i m = refl
index_classes-object_types (t ∷ ts) i m = ground (
  arith,
  index_classes-object_types ts (i + 1) (map_set t.type_identity i m),
  index_classes-object_types ts i m,
)

one_more_is : (j : ℕ) → 1 + j ≡ suc j
one_more_is j = omega arith

index_of-numbered :
    (vs : List ℕ) (j v : ℕ) (s : S) (c : GlobalContext) (m : IndexMap)
    → m ≡ index_from vs 1 []
    → AreDistinct vs
    → get_elem? vs j ≡ some v
    → (index_of m v s c ≡ some (j, update_statistics v s c)) × (build_map_as_array m ≡ map some vs)
unfolding index_of found_index
index_of-numbered vs j v s c m q d e =
    let built = q ∙ index_from_new vs d in
    let got = ap (map_get v) built ∙ map_get-enumerate vs 1 j v d e ∙ ap some (one_more_is j) in
    (rw (index_of, got) refl, ap build_map_as_array built ∙ build_map_as_array-enumerate vs)

index_of-unknown :
    (vs : List ℕ) (v : ℕ) (s : S) (c : GlobalContext) (m : IndexMap)
    → m ≡ index_from vs 1 []
    → AreDistinct vs
    → ((j : ℕ) → get_elem? vs j ≢ some v)
    → index_of m v s c ≡ none
unfolding index_of found_index
index_of-unknown vs v s c m q d h =
    let got = ap (map_get v) (q ∙ index_from_new vs d) ∙ map_get-enumerate_absent vs 1 v h in
    rw (index_of, got) refl

-- In a context of a module whose global variables are distinct, `getVarIndex` returns the position
-- of a global variable, counts the use, and the table of variables of the runtime data, which has
-- no hole, has the variable there.
pub get_var_index_lem :
    (m : ModuleNode) (c : GlobalContext) (j v : ℕ) (s : S)
    → IsContextOf m c
    → AreDistinct m.vars
    → get_elem? m.vars j ≡ some v
    → (get_var_index v s c ≡ some (j, update_statistics v s c))
      × (build_map_as_array c.global_vars ≡ map some m.vars)
unfolding get_var_index
get_var_index_lem m c j v s r d e = index_of-numbered m.vars j v s c c.global_vars (vars_kept r) d e

-- In a context of a module whose functions are distinct, `getFunctionIndex` returns the position
-- of a function, counts the use, and the table of functions of the runtime data has the function
-- there.
pub get_function_index_lem :
    (m : ModuleNode) (c : GlobalContext) (j f : ℕ) (s : S)
    → IsContextOf m c
    → AreDistinct m.functions
    → get_elem? m.functions j ≡ some f
    → (get_function_index f s c ≡ some (j, update_statistics f s c))
      × (build_map_as_array c.global_functions ≡ map some m.functions)
unfolding get_function_index
get_function_index_lem m c j f s r d e =
    index_of-numbered m.functions j f s c c.global_functions (functions_kept r) d e

-- In a context of a module whose named object types are distinct, `getClassIndex` returns the
-- position of a type among the named object types, whatever other types lie between them, counts
-- the use, and the table of classes of the runtime data has the type there; and it throws for any
-- other type.
pub get_class_index_lem :
    (m : ModuleNode) (c : GlobalContext) (t : ℕ) (s : S)
    → IsContextOf m c
    → AreDistinct (object_types m.named_types)
    → ((j : ℕ)
        → get_elem? (object_types m.named_types) j ≡ some t
        → (get_class_index t s c ≡ some (j, update_statistics t s c))
          × (build_map_as_array c.global_classes ≡ map some (object_types m.named_types)))
      × (((j : ℕ) → get_elem? (object_types m.named_types) j ≢ some t)
          → get_class_index t s c ≡ none)
unfolding get_class_index
get_class_index_lem m c t s r d =
    let q = classes_kept r ∙ index_classes-object_types m.named_types 1 [] in
    (
      (λ j e. index_of-numbered (object_types m.named_types) j t s c c.global_classes q d e),
      λ h. index_of-unknown (object_types m.named_types) t s c c.global_classes q d h,
    )
