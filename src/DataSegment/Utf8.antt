-- ===== src/DataSegment/Utf8.antt =====
-- About `utf16ToUtf8` of src/backend/binaryen/utils.ts: its bytes, against a decoder of UTF-8.
use wasmnizer_ts.DataSegment.{encode_unit, utf16_to_utf8}
use wasmnizer_ts.Base.{
  Bool, Bool-cases, List, Option, [], ap, arith, false, if◌then◌else◌, inl, inr, leb, ltb, none,
  not, refl, some, suc, true, zero, ℕ, ◌%◌, ◌&&◌, ◌*◌, ◌++◌, ◌+◌, ◌-◌, ◌/◌, ◌<◌, ◌||◌, ◌∙◌, ◌∷◌,
  ◌≡◌, ◌≤◌,
}

-- Half of a surrogate pair.
unfoldable pub is_surrogate : ℕ → Bool
is_surrogate c = leb 55296 c && ltb c 57344

-- A code point of UTF-8 that is not written with more bytes than it needs.
unfoldable pub is_scalar : ℕ → ℕ → Bool
is_scalar least c = leb least c && (ltb c 1114112 && not (is_surrogate c))

abbrev pub with_point : ℕ → Option (List ℕ) → Option (List ℕ)
with_point c none = none
with_point c (some cs) = some (c ∷ cs)

-- The decoder of UTF-8 to code points, with the number of bytes that the current one still needs,
-- its bits so far and the least that has its number of bytes: `none` for a byte that cannot begin
-- a code point, for one that is no continuation where one is due, for an end that is too early,
-- for a code point with more bytes than it needs, for one that is half of a surrogate pair and for
-- one above 10FFFF.
unfoldable pub decode_from : ℕ → ℕ → ℕ → List ℕ → Option (List ℕ)
decode_from zero acc least [] = some []
decode_from (suc n) acc least [] = none
decode_from zero acc least (b ∷ bs) =
    let one = decode_from 0 0 0 bs in
    let two = decode_from 1 (b - 192) 128 bs in
    let three = decode_from 2 (b - 224) 2048 bs in
    let four = decode_from 3 (b - 240) 65536 bs in
    if ltb b 128
    then with_point b one
    else (if ltb b 192
        then none
        else (if ltb b 224
            then two
            else (if ltb b 240 then three else (if ltb b 248 then four else none))))
decode_from (suc zero) acc least (b ∷ bs) =
    let rest = decode_from 0 0 0 bs in
    let c = acc * 64 + (b - 128) in
    if leb 128 b && ltb b 192 then (if is_scalar least c then with_point c rest else none) else none
decode_from (suc (suc n)) acc least (b ∷ bs) =
    let rest = decode_from (suc n) (acc * 64 + (b - 128)) least bs in
    if leb 128 b && ltb b 192 then rest else none

abbrev pub decode_utf8 : List ℕ → Option (List ℕ)
decode_utf8 bs = decode_from 0 0 0 bs

pub data AreUnits : List ℕ → Type 0 where
  no_units : AreUnits []
  units : {c : ℕ} {cs : List ℕ} → c < 65536 → AreUnits cs → AreUnits (c ∷ cs)

unfoldable pub has_surrogate : List ℕ → Bool
has_surrogate [] = false
has_surrogate (c ∷ cs) = is_surrogate c || has_surrogate cs

-- The bytes of a unit in front of others: the unit in front of what they give, and nothing for
-- half of a pair.
abbrev unit_then : ℕ → Option (List ℕ) → Option (List ℕ)
unit_then c o = if is_surrogate c then none else with_point c o

is_less : (a b : ℕ) → a < b → ltb a b ≡ true
is_less a b h = ground arith

not_less : (a b : ℕ) → b ≤ a → ltb a b ≡ false
not_less a b h = ground arith

is_least : (a b : ℕ) → a ≤ b → leb a b ≡ true
is_least a b h = ground arith

decode-lead_one :
    (b acc least : ℕ) (bs : List ℕ)
    → b < 128
    → decode_from 0 acc least (b ∷ bs) ≡ with_point b (decode_utf8 bs)
unfolding decode_from
decode-lead_one b acc least bs h = rw (decode_from, is_less b 128 h) refl

decode-lead_two :
    (b acc least : ℕ) (bs : List ℕ)
    → 192 ≤ b
    → b < 224
    → decode_from 0 acc least (b ∷ bs) ≡ decode_from 1 (b - 192) 128 bs
unfolding decode_from
decode-lead_two b acc least bs l h =
    rw (decode_from, not_less b 128 (omega arith), not_less b 192 l, is_less b 224 h) refl

decode-lead_three :
    (b acc least : ℕ) (bs : List ℕ)
    → 224 ≤ b
    → b < 240
    → decode_from 0 acc least (b ∷ bs) ≡ decode_from 2 (b - 224) 2048 bs
unfolding decode_from
decode-lead_three b acc least bs l h =
    rw
      (
        decode_from,
        not_less b 128 (omega arith),
        not_less b 192 (omega arith),
        not_less b 224 l,
        is_less b 240 h,
      )
      refl

decode-continuation :
    (b n acc least : ℕ) (bs : List ℕ)
    → 128 ≤ b
    → b < 192
    → decode_from (suc (suc n)) acc least (b ∷ bs)
      ≡ decode_from (suc n) (acc * 64 + (b - 128)) least bs
unfolding decode_from
decode-continuation b n acc least bs l h = rw (decode_from, is_least 128 b l, is_less b 192 h) refl

decode-last :
    (b acc least c : ℕ) (bs : List ℕ)
    → 128 ≤ b
    → b < 192
    → acc * 64 + (b - 128) ≡ c
    → decode_from 1 acc least (b ∷ bs)
      ≡ (if is_scalar least c then with_point c (decode_utf8 bs) else none)
unfolding decode_from
decode-last b acc least c bs l h e = rw (decode_from, is_least 128 b l, is_less b 192 h, e) refl

-- For a unit that is not too small the test asks only for surrogates.
scalar_then :
    (least c : ℕ) (o : Option (List ℕ))
    → least ≤ c
    → c < 65536
    → (if is_scalar least c then with_point c o else none) ≡ unit_then c o
unfolding is_scalar
scalar_then least c o l h =
    rw (is_scalar, is_least least c l, is_less c 1114112 (omega arith)) (swap (is_surrogate c))
  where
    swap :
        (b : Bool) → (if not b then with_point c o else none) ≡ (if b then none else with_point c o)
    swap true = refl
    swap false = refl

small_unit : (c : ℕ) (o : Option (List ℕ)) → c < 128 → with_point c o ≡ unit_then c o
unfolding is_surrogate
small_unit c o h = ground arith

decode-encode_unit :
    (c : ℕ) (bs : List ℕ)
    → c < 65536
    → decode_utf8 (encode_unit c ++ bs) ≡ unit_then c (decode_utf8 bs)
unfolding encode_unit
decode-encode_unit c bs h = elim (Bool-cases (leb c 127)) [
  | inl e ↦
      rw (encode_unit, e)
        (decode-lead_one c 0 0 bs (ground (arith, e))
          ∙ small_unit c (decode_utf8 bs) (ground (arith, e)))
  | inr e ↦ elim (Bool-cases (leb c 2047)) [
    | inl f ↦ rw (encode_unit, e, f) (two (ground (arith, e)) (ground (arith, f)))
    | inr f ↦ rw (encode_unit, e, f) (three (ground (arith, f)))
  ]
]
  where
    two :
        128 ≤ c
        → c < 2048
        → decode_utf8 ((192 + c / 64 % 32) ∷ (128 + c % 64) ∷ bs) ≡ unit_then c (decode_utf8 bs)
    two l k =
        decode-lead_two (192 + c / 64 % 32) 0 0 ((128 + c % 64) ∷ bs) (omega arith) (omega arith)
        ∙ decode-last (128 + c % 64) (192 + c / 64 % 32 - 192) 128 c bs (omega arith) (omega arith)
            (omega arith)
        ∙ scalar_then 128 c (decode_utf8 bs) l h

    three :
        2048 ≤ c
        → decode_utf8 ((224 + c / 4096 % 16) ∷ (128 + c / 64 % 64) ∷ (128 + c % 64) ∷ bs)
          ≡ unit_then c (decode_utf8 bs)
    three l =
        decode-lead_three (224 + c / 4096 % 16) 0 0 ((128 + c / 64 % 64) ∷ (128 + c % 64) ∷ bs)
          (omega arith) (omega arith)
        ∙ decode-continuation (128 + c / 64 % 64) 0 (224 + c / 4096 % 16 - 224) 2048
            ((128 + c % 64) ∷ bs) (omega arith) (omega arith)
        ∙ decode-last (128 + c % 64) ((224 + c / 4096 % 16 - 224) * 64 + (128 + c / 64 % 64 - 128))
            2048 c bs (omega arith) (omega arith) (omega arith)
        ∙ scalar_then 2048 c (decode_utf8 bs) l h

unit_then-decoded :
    (c : ℕ) (cs : List ℕ)
    → unit_then c (if has_surrogate cs then none else some cs)
      ≡ (if is_surrogate c || has_surrogate cs then none else some (c ∷ cs))
unit_then-decoded c cs = go (is_surrogate c) (has_surrogate cs)
  where
    go :
        (a b : Bool)
        → (if a then none else with_point c (if b then none else some cs))
          ≡ (if a || b then none else some (c ∷ cs))
    go true b = refl
    go false true = refl
    go false false = refl

-- A decoder of UTF-8 that refuses every byte sequence that is not UTF-8 gives back a string of
-- 16-bit code units from its bytes when no unit is half of a surrogate pair; when one is, the
-- bytes are not UTF-8.
pub decode-utf16_to_utf8 :
    (s : List ℕ)
    → AreUnits s
    → decode_utf8 (utf16_to_utf8 s) ≡ (if has_surrogate s then none else some s)
unfolding utf16_to_utf8 decode_from has_surrogate
decode-utf16_to_utf8 [] h = refl
decode-utf16_to_utf8 (c ∷ cs) (units h hs) =
    decode-encode_unit c (utf16_to_utf8 cs) h
    ∙ ap (unit_then c) (decode-utf16_to_utf8 cs hs)
    ∙ unit_then-decoded c cs
