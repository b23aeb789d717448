-- ===== src/RuntimeData/Reader.antt =====
-- A reader of the words of an import or export table, and the words that are written for one.
use Prim.Native.Nat.{bit_or}
use wasmnizer_ts.RuntimeData.{
  extern_word, index_bits, items_word, kind_number, write_extern_items, write_extern_modules,
}
use wasmnizer_ts.RuntimeData.Words.{add_words, add_words-append}
use wasmnizer_ts.GlobalContext.Externs.{
  ExternIndex, ExternTypeKind, RuntimeExternItem, RuntimeExternModule, extern_class, extern_enum,
  extern_function, extern_var, index, minus_one,
}
use wasmnizer_ts.DataPool.{DataPool, add_int32}
use wasmnizer_ts.Base.{
  Bool, List, Option, [], ap, arith, leb, length, none, refl, some, suc, sym, zero, ℕ, ◌%◌, ◌*◌,
  ◌++◌, ◌+◌, ◌/◌, ◌<◌, ◌^◌, ◌∙◌, ◌∷◌, ◌≡◌,
}

abbrev pub item_words : List RuntimeExternItem → List ℕ
item_words [] = []
item_words (i ∷ is) = i.name_offset ∷ extern_word i ∷ item_words is

abbrev pub module_words : Bool → List RuntimeExternModule → List ℕ
module_words imports [] = []
module_words imports (m ∷ ms) =
    m.module_name_offset
    ∷ items_word imports m
    ∷ (item_words m.runtime_items ++ module_words imports ms)

write_extern_items-words :
    (is : List RuntimeExternItem) (p : DataPool)
    → write_extern_items is p ≡ add_words (item_words is) p
unfolding write_extern_items add_words
write_extern_items-words [] p = refl
write_extern_items-words (i ∷ is) p = write_extern_items-words is _

pub write_extern_modules-words :
    (imports : Bool) (ms : List RuntimeExternModule) (p : DataPool)
    → write_extern_modules imports ms p ≡ add_words (module_words imports ms) p
unfolding write_extern_modules add_words
write_extern_modules-words imports [] p = refl
write_extern_modules-words imports (m ∷ ms) p =
    let p1 = (add_int32 (items_word imports m) (add_int32 m.module_name_offset p).1).1 in
    write_extern_modules-words imports ms (write_extern_items m.runtime_items p1)
    ∙ ap (add_words (module_words imports ms)) (write_extern_items-words m.runtime_items p1)
    ∙ sym (add_words-append (item_words m.runtime_items) (module_words imports ms) p1)

-- An entry as it is read: the kind in the top four bits, and the index in those below.
pub record ReadItem : Type 0 where
  pub name : ℕ
  pub kind_bits : ℕ
  pub index_number : ℕ

pub record ReadModule : Type 0 where
  pub module_name : ℕ
  pub is_import : Bool
  pub items : List ReadItem

abbrev pub read_item : ℕ → ℕ → ReadItem
read_item a w = record { name = a; kind_bits = w / 2 ^ 28; index_number = w % 2 ^ 28 }

unfoldable pub parse_items : ℕ → List ℕ → Option (List ReadItem × List ℕ)
parse_items zero ws = some ([], ws)
parse_items (suc n) [] = none
parse_items (suc n) (a ∷ []) = none
parse_items (suc n) (a ∷ b ∷ ws) = elim (parse_items n ws) [
  | none ↦ none
  | some (is, rest) ↦ some (read_item a b ∷ is, rest)
]

unfoldable pub parse_modules : ℕ → List ℕ → Option (List ReadModule × List ℕ)
parse_modules zero ws = some ([], ws)
parse_modules (suc n) [] = none
parse_modules (suc n) (a ∷ []) = none
parse_modules (suc n) (a ∷ b ∷ ws) = elim (parse_items (b % 2 ^ 31) ws) [
  | none ↦ none
  | some (is, rest) ↦ elim (parse_modules n rest) [
    | none ↦ none
    | some (ms, rest') ↦
        some (record { module_name = a; is_import = leb (2 ^ 31) b; items = is } ∷ ms, rest')
  ]
]

-- Entries whose fields fit: an index below 2 ^ 28, which leaves out -1.
pub data AreSmall : List RuntimeExternItem → Type 0 where
  no_small : AreSmall []
  small_item :
      {i : RuntimeExternItem} {is : List RuntimeExternItem} (n : ℕ)
      → i.name_offset < 2 ^ 32
      → i.type_index ≡ index n
      → n < 2 ^ 28
      → AreSmall is
      → AreSmall (i ∷ is)

pub data AllSmall : List RuntimeExternModule → Type 0 where
  all_small : AllSmall []
  small_module :
      {m : RuntimeExternModule} {ms : List RuntimeExternModule}
      → m.module_name_offset < 2 ^ 32
      → length m.runtime_items < 2 ^ 31
      → AreSmall m.runtime_items
      → AllSmall ms
      → AllSmall (m ∷ ms)

abbrev pub index_number_of : ExternIndex → ℕ
index_number_of (index n) = n
index_number_of minus_one = 0

abbrev pub item_as_read : RuntimeExternItem → ReadItem
item_as_read i = record {
  name = i.name_offset;
  kind_bits = kind_number i.kind;
  index_number = index_number_of i.type_index;
}

abbrev pub items_as_read : List RuntimeExternItem → List ReadItem
items_as_read [] = []
items_as_read (i ∷ is) = item_as_read i ∷ items_as_read is

abbrev pub as_read : Bool → List RuntimeExternModule → List ReadModule
as_read imports [] = []
as_read imports (m ∷ ms) =
    record {
      module_name = m.module_name_offset;
      is_import = imports;
      items = items_as_read m.runtime_items;
    }
    ∷ as_read imports ms

pub bit_or-zero : (k : ExternTypeKind) → bit_or (kind_number k) 0 ≡ kind_number k
bit_or-zero extern_function = refl
bit_or-zero extern_class = refl
bit_or-zero extern_var = refl
bit_or-zero extern_enum = refl

pub kind_number-lt : (k : ExternTypeKind) → kind_number k < 4
kind_number-lt extern_function = omega arith
kind_number-lt extern_class = omega arith
kind_number-lt extern_var = omega arith
kind_number-lt extern_enum = omega arith

pub seven : (k : ExternTypeKind) → bit_or (kind_number k) 7 ≡ 7
seven extern_function = refl
seven extern_class = refl
seven extern_var = refl
seven extern_enum = refl

pub small-extern_word :
    (i : RuntimeExternItem) (n : ℕ)
    → i.type_index ≡ index n
    → n < 2 ^ 28
    → extern_word i ≡ kind_number i.kind * 2 ^ 28 + n
unfolding extern_word
small-extern_word i n e h =
    let a : index_bits i.type_index ≡ n = ap index_bits e ∙ omega (arith, h) in
    let top : index_bits i.type_index / 2 ^ 28 ≡ 0 = omega (arith, a, h) in
    let low : index_bits i.type_index % 2 ^ 28 ≡ n = omega (arith, a, h) in
    rw (extern_word, top, low, bit_or-zero i.kind) refl
