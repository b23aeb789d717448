-- ===== src/RuntimeData/Members.antt =====
-- The packed word of a shape's member, and what its getters read.
use wasmnizer_ts.RuntimeData.{
  ShapeMemberParam, accessor_pair, accessor_type, member_word, method_type, offset_or_method,
  offset_type, or_zero, plus_one, type_number, word_getter, word_offset, word_setter, word_type,
}
use wasmnizer_ts.Base.{
  Option, arith, none, refl, some, suc, zero, ℕ, ◌%◌, ◌*◌, ◌+◌, ◌-◌, ◌<◌, ◌^◌, ◌≡◌, ◌≤◌,
}

abbrev pub offset_param : Option ℕ → ShapeMemberParam
offset_param o = record { offset = o; method = none; getter = none; setter = none }

abbrev pub method_param : Option ℕ → ShapeMemberParam
method_param o = record { offset = none; method = o; getter = none; setter = none }

abbrev pub accessor_param : Option ℕ → Option ℕ → ShapeMemberParam
accessor_param g s = record { offset = none; method = none; getter = g; setter = s }

offset_or_method-offset : (o : Option ℕ) → offset_or_method (offset_param o) ≡ plus_one o
unfolding offset_or_method
offset_or_method-offset none = refl
offset_or_method-offset (some zero) = refl
offset_or_method-offset (some (suc n)) = refl

offset_or_method-method : (o : Option ℕ) → offset_or_method (method_param o) ≡ plus_one o
unfolding offset_or_method
offset_or_method-method none = refl
offset_or_method-method (some zero) = refl
offset_or_method-method (some (suc n)) = refl

accessor_pair-eq :
    (g s : Option ℕ)
    → accessor_pair (accessor_param g s) ≡ plus_one g % 2 ^ 15 + plus_one s % 2 ^ 15 * 2 ^ 15
unfolding accessor_pair
accessor_pair-eq none none = refl
accessor_pair-eq none (some zero) = refl
accessor_pair-eq none (some (suc n)) = refl
accessor_pair-eq (some zero) none = refl
accessor_pair-eq (some zero) (some zero) = refl
accessor_pair-eq (some zero) (some (suc n)) = refl
accessor_pair-eq (some (suc m)) s = refl

plus_one-le : (o : Option ℕ) → plus_one o ≤ or_zero o + 1
plus_one-le none = omega arith
plus_one-le (some zero) = omega arith
plus_one-le (some (suc n)) = omega arith

-- The word of an offset or of a method reads back as its type and, one greater, as the number, as
-- long as that is below 2 ^ 30 - 1; 0 is read for a missing number and for the number 0.
pub member_word-number :
    (o : Option ℕ)
    → or_zero o < 2 ^ 30 - 1
    → (word_type (member_word offset_type (some (offset_param o))) ≡ type_number offset_type)
      × (word_offset (member_word offset_type (some (offset_param o))) ≡ plus_one o)
      × (word_type (member_word method_type (some (method_param o))) ≡ type_number method_type)
      × (word_offset (member_word method_type (some (method_param o))) ≡ plus_one o)
unfolding member_word word_type word_offset
member_word-number o h =
    let e = offset_or_method-offset o in
    let f = offset_or_method-method o in
    let l = plus_one-le o in
    (omega (arith, e, l), omega (arith, e, l), omega (arith, f, l), omega (arith, f, l))

-- The word of an accessor reads back as its type and, each one greater, as the indices of the
-- getter and the setter, as long as these are below 2 ^ 15 - 1; 0 is read for a missing index and
-- for the index 0.
pub member_word-accessor :
    (g s : Option ℕ)
    → or_zero g < 2 ^ 15 - 1
    → or_zero s < 2 ^ 15 - 1
    → (word_type (member_word accessor_type (some (accessor_param g s)))
        ≡ type_number accessor_type)
      × (word_getter (member_word accessor_type (some (accessor_param g s))) ≡ plus_one g)
      × (word_setter (member_word accessor_type (some (accessor_param g s))) ≡ plus_one s)
unfolding member_word word_type word_getter word_setter
member_word-accessor g s hg hs =
    let e = accessor_pair-eq g s in
    let lg = plus_one-le g in
    let ls = plus_one-le s in
    (omega (arith, e, lg, ls), omega (arith, e, lg, ls), omega (arith, e, lg, ls))
