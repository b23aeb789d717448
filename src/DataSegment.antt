-- ===== src/DataSegment.antt =====
-- src/backend/index.ts (`DataSegmentContext`) and `utf16ToUtf8` of src/backend/binaryen/utils.ts:
-- the data segment in which the Binaryen backend lays out its strings and tables. A string is its
-- list of UTF-16 code units; a `Uint8Array` that is filled once is its list of bytes. Every caller
-- leaves `alignment` at 4. `metaMap`, which only its users read and write, is left out. Offsets
-- are below 2 ^ 31, where `& ~3` rounds down to a multiple of 4.
pub mod Utf8
pub mod Layout
pub mod Segment
pub mod Reading
pub mod Tests
use wasmnizer_ts.Base.{
  List, Option, [], if◌then◌else◌, leb, length, none, some, ℕ, ◌%◌, ◌++◌, ◌+◌, ◌-◌, ◌/◌, ◌∷◌,
}
use wasmnizer_ts.DataPool.{Uint8Array, codes_eq, new_uint8_array, write_at}

-- The bytes of one code unit: `|` is of disjoint bits.
unfoldable pub encode_unit : ℕ → List ℕ
encode_unit c =
    if leb c 127
    then c ∷ []
    else (if leb c 2047
        then (192 + c / 64 % 32) ∷ (128 + c % 64) ∷ []
        else (224 + c / 4096 % 16) ∷ (128 + c / 64 % 64) ∷ (128 + c % 64) ∷ [])

unfoldable pub utf16_to_utf8 : List ℕ → List ℕ
utf16_to_utf8 [] = []
utf16_to_utf8 (c ∷ cs) = encode_unit c ++ utf16_to_utf8 cs

pub record SegmentInfo : Type 0 where
  pub data_bytes : List ℕ
  pub offset : ℕ

abbrev pub reserved_space : ℕ
reserved_space = 1024

pub record DataSegmentContext : Type 0 where
  pub current_offset : ℕ
  pub string_offset_map : List (List ℕ × ℕ)
  pub data_array : List SegmentInfo

abbrev pub new_data_segment_context : DataSegmentContext
new_data_segment_context = record {
  current_offset = reserved_space;
  string_offset_map = [];
  data_array = [];
}

-- `(x + 3) & ~3`
abbrev pub align_4 : ℕ → ℕ
align_4 x = x + 3 - (x + 3) % 4

unfoldable pub add_data : List ℕ → DataSegmentContext → ℕ × DataSegmentContext
add_data bytes c = (
  c.current_offset,
  record c {
    current_offset = align_4 (c.current_offset + length bytes);
    data_array = c.data_array ++ record { data_bytes = bytes; offset = c.current_offset } ∷ [];
  },
)

-- `stringOffsetMap.get`
pub find_offset : List ℕ → List (List ℕ × ℕ) → Option ℕ
find_offset s [] = none
find_offset s ((t, n) ∷ m) = if codes_eq t s then some n else find_offset s m

abbrev pub terminated : List ℕ → List ℕ
terminated s = utf16_to_utf8 s ++ 0 ∷ []

unfoldable pub add_new_string : List ℕ → DataSegmentContext → ℕ × DataSegmentContext
add_new_string s c = (
  c.current_offset,
  record {
    current_offset = align_4 (c.current_offset + (length (utf16_to_utf8 s) + 1));
    string_offset_map = (s, c.current_offset) ∷ c.string_offset_map;
    data_array =
        c.data_array ++ record { data_bytes = terminated s; offset = c.current_offset } ∷ [];
  },
)

unfoldable pub add_string : List ℕ → DataSegmentContext → ℕ × DataSegmentContext
add_string s c = elim (find_offset s c.string_offset_map) [
  | some n ↦ (n, c)
  | none ↦ add_new_string s c
]

-- The inner loop of `generateSegment`, from the index `t` of the result on.
unfoldable pub write_bytes : List ℕ → ℕ → Uint8Array → Uint8Array
write_bytes [] t a = a
write_bytes (b ∷ bs) t a = write_bytes bs (t + 1) (write_at a t b)

unfoldable pub write_infos : List SegmentInfo → Uint8Array → Uint8Array
write_infos [] a = a
write_infos (i ∷ is) a = write_infos is (write_bytes i.data_bytes (i.offset - reserved_space) a)

-- The offset and the data; `none` for `null`.
unfoldable pub generate_segment : DataSegmentContext → Option (ℕ × Uint8Array)
generate_segment c = elim c.data_array [
  | [] ↦ none
  | i ∷ is ↦
      some
        (reserved_space, write_infos (i ∷ is) (new_uint8_array (c.current_offset - reserved_space)))
]

unfoldable pub get_data_end : DataSegmentContext → ℕ
get_data_end c = c.current_offset
