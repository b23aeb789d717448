-- ===== src/RuntimeData/Externs.antt =====
-- The import and export tables in the data pool, as they are read back.
use mathlib.Core.List.{append-nil, append_assoc}
use wasmnizer_ts.RuntimeData.{
  build_externs, extern_word, index_bits, items_word, kind_number, write_extern_modules,
}
use wasmnizer_ts.RuntimeData.Blocks.{
  HasBlock, empty_header, size-write_header, write_block-HasBlock,
}
use wasmnizer_ts.DataPool.{DataPool}
use wasmnizer_ts.DataPool.Bytes.{IsValid}
use wasmnizer_ts.RuntimeData.Words.{low_words, read_words}
use wasmnizer_ts.RuntimeData.Reader.{
  AllSmall, AreSmall, ReadItem, as_read, index_number_of, item_as_read, item_words, items_as_read,
  kind_number-lt, module_words, parse_items, parse_modules, read_item, seven, small-extern_word,
  small_item, small_module, write_extern_modules-words,
}
use wasmnizer_ts.GlobalContext.Externs.{
  ExternTypeKind, RuntimeExternItem, RuntimeExternModule, index, minus_one,
}
use wasmnizer_ts.Base.{
  Bool, List, [], ap, arith, false, leb, length, refl, some, sym, true, ℕ, ◌%◌, ◌++◌, ◌+◌, ◌-◌, ◌/◌,
  ◌<◌, ◌^◌, ◌∙◌, ◌∷◌, ◌≡◌, ◌≢◌,
}

low_words-append : (vs ws : List ℕ) → low_words (vs ++ ws) ≡ low_words vs ++ low_words ws
low_words-append [] ws = refl
low_words-append (v ∷ vs) ws = ap (λ r. (v % 2 ^ 32) ∷ r) (low_words-append vs ws)

low : (n : ℕ) → n < 2 ^ 32 → n % 2 ^ 32 ≡ n
low n h = omega arith

read_item-eq :
    (a w : ℕ) (i : RuntimeExternItem) (n : ℕ)
    → a ≡ i.name_offset
    → i.type_index ≡ index n
    → w / 2 ^ 28 ≡ kind_number i.kind
    → w % 2 ^ 28 ≡ n
    → read_item a w ≡ item_as_read i
read_item-eq a w i n ea e ek en =
    let en' : w % 2 ^ 28 ≡ index_number_of i.type_index = en ∙ ap index_number_of (sym e) in cc

parse_items-item_words :
    (is : List RuntimeExternItem) (rest : List ℕ)
    → AreSmall is
    → parse_items (length is) (low_words (item_words is) ++ rest) ≡ some (items_as_read is, rest)
unfolding parse_items
parse_items-item_words [] rest s = refl
parse_items-item_words (i ∷ is) rest (small_item n a e h s) =
    let w = small-extern_word i n e h in
    let k = kind_number-lt i.kind in
    let head =
      read_item-eq (i.name_offset % 2 ^ 32) (extern_word i % 2 ^ 32) i n (low _ a) e
        (omega (arith, w, k, h)) (omega (arith, w, k, h)) in
    rw (parse_items, parse_items-item_words is rest s)
      (ap (λ (r : ReadItem). some (r ∷ items_as_read is, rest)) head)

items_word-count :
    (imports : Bool) (m : RuntimeExternModule)
    → length m.runtime_items < 2 ^ 31
    → items_word imports m % 2 ^ 32 % 2 ^ 31 ≡ length m.runtime_items
unfolding items_word
items_word-count true m h = omega arith
items_word-count false m h = omega arith

items_word-flag :
    (imports : Bool) (m : RuntimeExternModule)
    → length m.runtime_items < 2 ^ 31
    → leb (2 ^ 31) (items_word imports m % 2 ^ 32) ≡ imports
unfolding items_word
items_word-flag true m h = ground arith
items_word-flag false m h = ground arith

parse_modules-module_words :
    (imports : Bool) (ms : List RuntimeExternModule) (rest : List ℕ)
    → AllSmall ms
    → parse_modules (length ms) (low_words (module_words imports ms) ++ rest)
      ≡ some (as_read imports ms, rest)
unfolding parse_modules
parse_modules-module_words imports [] rest s = refl
parse_modules-module_words imports (m ∷ ms) rest (small_module a l is s) =
    let words = low_words (item_words m.runtime_items) in
    let more = low_words (module_words imports ms) in
    let split =
      ap (λ t. t ++ rest) (low_words-append (item_words m.runtime_items) (module_words imports ms))
      ∙ append_assoc words more rest in
    rw
      (
        parse_modules,
        split,
        items_word-count imports m l,
        parse_items-item_words m.runtime_items (more ++ rest) is,
        parse_modules-module_words imports ms rest s,
        low _ a,
        items_word-flag imports m l,
      )
      refl

-- `buildExterns` on a valid pool and a table whose name offsets, counts and indices fit: it
-- returns the offset of the table, leaves all words before it and a valid pool, and the header
-- before the table says the block's type, the number of modules and the number of bytes that were
-- written. Read back by that number of modules, the table holds each module with its name and its
-- items in order, each item with its name, kind and index, and nothing is left over.
pub build_externs_lem :
    (ms : List RuntimeExternModule) (block : ℕ) (imports : Bool) (p : DataPool)
    → IsValid p
    → AllSmall ms
    → let q = (build_externs ms block imports p).1 in
      let words = length (module_words imports ms) in
      ((build_externs ms block imports p).0 ≡ p.size + 8)
      × HasBlock p q block (length ms) (module_words imports ms)
      × (parse_modules (length ms) (read_words q (p.size + 8) words)
          ≡ some (as_read imports ms, []))
unfolding build_externs
build_externs_lem ms block imports p v s =
    let h =
      write_block-HasBlock block (length ms) (module_words imports ms) p
        (write_extern_modules imports ms) v (write_extern_modules-words imports ms) in
    (
      size-write_header (empty_header block) p,
      h,
      ap (parse_modules (length ms))
            (h.body ∙ sym (append-nil (low_words (module_words imports ms))))
          ∙ parse_modules-module_words imports ms [] s,
    )

extern_word_of_bits :
    (i : RuntimeExternItem) → index_bits i.type_index ≡ 2 ^ 31 - 1 → extern_word i ≡ 2 ^ 31 - 1
unfolding extern_word
extern_word_of_bits i bits =
    let top : index_bits i.type_index / 2 ^ 28 ≡ 7 = omega (arith, bits) in
    let lows : index_bits i.type_index % 2 ^ 28 ≡ 2 ^ 28 - 1 = omega (arith, bits) in
    rw (extern_word, top, lows, seven i.kind) refl

-- An item without an index (an enum, whose index is -1) is written as the word 0x7fffffff, whatever
-- its kind: read back, its kind is 7, which is none.
pub extern_word-minus_one :
    (i : RuntimeExternItem) (a : ℕ)
    → i.type_index ≡ minus_one
    → (extern_word i ≡ 2 ^ 31 - 1)
      × ((read_item a (extern_word i)).kind_bits ≡ 7)
      × ((k : ExternTypeKind) → (read_item a (extern_word i)).kind_bits ≢ kind_number k)
unfolding extern_word
extern_word-minus_one i a e =
    let bits : index_bits i.type_index ≡ 2 ^ 31 - 1 = ap index_bits e in
    let word = extern_word_of_bits i bits in
    (word, omega (arith, word), λ k h. omega (arith, word, h, kind_number-lt k))
