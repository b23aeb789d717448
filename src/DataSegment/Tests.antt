-- ===== src/DataSegment/Tests.antt =====
-- The theorems of the data segment on the strings "hé" and "a".
use wasmnizer_ts.DataSegment.{
  DataSegmentContext, add_data, add_new_string, add_string, encode_unit, find_offset,
  generate_segment, new_data_segment_context, reserved_space, utf16_to_utf8,
}
use wasmnizer_ts.DataSegment.Layout.{IsValid}
use wasmnizer_ts.DataSegment.Segment.{Reach-IsValid, fresh, string_added}
use wasmnizer_ts.DataSegment.Reading.{data_later, generate_segment-add_string, now}
use wasmnizer_ts.DataSegment.Utf8.{
  decode-utf16_to_utf8, decode_from, decode_utf8, has_surrogate, is_scalar, is_surrogate, no_units,
  units,
}
use wasmnizer_ts.DataPool.{Uint8Array}
use wasmnizer_ts.Base.{
  List, [], arith, get_elem?, get_or, none, refl, some, ℕ, ◌%◌, ◌++◌, ◌+◌, ◌-◌, ◌∷◌, ◌≡◌, ◌≤◌,
}

abbrev he : List ℕ
he = 104 ∷ 233 ∷ []

abbrev a : List ℕ
a = 97 ∷ []

abbrev empty : DataSegmentContext
empty = new_data_segment_context

he_bytes : utf16_to_utf8 he ≡ 104 ∷ 195 ∷ 169 ∷ []
unfolding utf16_to_utf8 encode_unit
he_bytes = refl

offsets :
    ((add_string he empty).0 ≡ 1024)
    × ((add_string a (add_string he empty).1).0 ≡ 1028)
    × ((add_string he (add_string a (add_string he empty).1).1).0 ≡ 1024)
unfolding add_string add_new_string find_offset utf16_to_utf8 encode_unit
offsets = (refl, refl, refl)

decode-utf16_to_utf8_example :
    decode_utf8 (utf16_to_utf8 (104 ∷ 233 ∷ 20013 ∷ [])) ≡ some (104 ∷ 233 ∷ 20013 ∷ [])
unfolding has_surrogate is_surrogate
decode-utf16_to_utf8_example =
    decode-utf16_to_utf8 (104 ∷ 233 ∷ 20013 ∷ [])
      (units (omega arith) (units (omega arith) (units (omega arith) no_units)))

-- A character outside the basic plane is a pair, and has no UTF-8 here.
a_pair : decode_utf8 (utf16_to_utf8 (55357 ∷ 56832 ∷ [])) ≡ none
unfolding decode_from utf16_to_utf8 encode_unit is_scalar is_surrogate
a_pair = refl

Reach-IsValid_example : IsValid (add_string he empty).1
Reach-IsValid_example = Reach-IsValid (string_added he fresh)

one_data :
    get_elem? (add_data (7 ∷ 8 ∷ []) empty).1.data_array 0
    ≡ some (record { data_bytes = 7 ∷ 8 ∷ []; offset = 1024 })
unfolding add_data
one_data = refl

generate_segment-add_string_example :
    (b : Uint8Array) × (generate_segment (add_data (7 ∷ []) (add_string a empty).1).1
      ≡ some (reserved_space, b))
    × (b.len + reserved_space ≡ (add_data (7 ∷ []) (add_string a empty).1).1.current_offset)
    × (reserved_space ≤ (add_string a empty).0)
    × (b.at ((add_string a empty).0 - reserved_space + 0)
        ≡ get_or (utf16_to_utf8 a ++ 0 ∷ []) 0 0 % 256)
generate_segment-add_string_example =
    generate_segment-add_string a 0 fresh (data_later (7 ∷ []) now) (omega arith)
