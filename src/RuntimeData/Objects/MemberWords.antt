-- ===== src/RuntimeData/Objects/MemberWords.antt =====
-- The words of the members of a shape, as `buildShape` of src/semantics/ir/irmodule.ts computes
-- them.
use mathlib.Core.Path.{subst}
use wasmnizer_ts.RuntimeData.{
  accessor_pair, accessor_type, member_word, method_type, no_param, offset_or_method, offset_type,
  plus_one,
}
use wasmnizer_ts.RuntimeData.Objects.{
  ShapeMember, Value, accessor_offsets, accessor_values, field, function_value,
  get_shape_value_index, method_offset, method_value, other_value, shape_member_word,
  shape_member_words,
}
use wasmnizer_ts.RuntimeData.Objects.Listing.{
  HasIndex, HasWord, HaveWords, IsShifted, a_member, no_members, of_accessor_offsets,
  of_accessor_values, of_field, of_function, of_hole, of_method_offset, of_method_value,
  of_no_value, of_other, shifted_none, shifted_positive, shifted_zero,
}
use wasmnizer_ts.GlobalContext.{GlobalContext, call_s, get_function_index}
use wasmnizer_ts.Base.{
  List, Option, Option-cases, [], ap, inl, inr, length, none, refl, some, suc, sym, zero, ℕ, ◌%◌,
  ◌*◌, ◌+◌, ◌^◌, ◌∙◌, ◌∷◌, ◌≡◌,
}

plus_one-IsShifted : (o : Option ℕ) → IsShifted o (plus_one o)
plus_one-IsShifted none = shifted_none
plus_one-IsShifted (some zero) = shifted_zero
plus_one-IsShifted (some (suc n)) = shifted_positive

IsShifted-plus_one : {o : Option ℕ} {n : ℕ} → IsShifted o n → plus_one o ≡ n
IsShifted-plus_one shifted_none = refl
IsShifted-plus_one shifted_zero = refl
IsShifted-plus_one shifted_positive = refl

field_word :
    (o : Option ℕ)
    → member_word offset_type (some (record no_param { offset = o })) ≡ plus_one o * 4 % 2 ^ 32 + 1
unfolding member_word offset_or_method
field_word none = refl
field_word (some zero) = refl
field_word (some (suc n)) = refl

method_word :
    (o : Option ℕ)
    → member_word method_type (some (record no_param { method = o })) ≡ plus_one o * 4 % 2 ^ 32 + 0
unfolding member_word offset_or_method
method_word none = refl
method_word (some zero) = refl
method_word (some (suc n)) = refl

accessor_word :
    (g s : Option ℕ)
    → member_word accessor_type (some (record no_param { getter = g; setter = s }))
      ≡ (plus_one g % 2 ^ 15 + plus_one s % 2 ^ 15 * 2 ^ 15) * 4 % 2 ^ 32 + 2
unfolding member_word accessor_pair
accessor_word none none = refl
accessor_word none (some zero) = refl
accessor_word none (some (suc n)) = refl
accessor_word (some zero) none = refl
accessor_word (some zero) (some zero) = refl
accessor_word (some zero) (some (suc n)) = refl
accessor_word (some (suc n)) s = refl

pair_word :
    (g s : Option ℕ) (n m : ℕ)
    → plus_one g ≡ n
    → plus_one s ≡ m
    → member_word accessor_type (some (record no_param { getter = g; setter = s }))
      ≡ (n % 2 ^ 15 + m % 2 ^ 15 * 2 ^ 15) * 4 % 2 ^ 32 + 2
pair_word g s n m e f =
    accessor_word g s
    ∙ ap (λ x. (x % 2 ^ 15 + plus_one s % 2 ^ 15 * 2 ^ 15) * 4 % 2 ^ 32 + 2) e
    ∙ ap (λ x. (n % 2 ^ 15 + x % 2 ^ 15 * 2 ^ 15) * 4 % 2 ^ 32 + 2) f

-- A computation that gives a value and a context gives related ones.
abbrev pub Gives : {A : Type 0} → (A → GlobalContext → Type 0) → Option (A × GlobalContext) → Type 0
Gives R none = Unit {0}
Gives R (some (a, c)) = R a c

value_index-Gives :
    (v : Option Value) (c : GlobalContext) → Gives (HasIndex v c) (get_shape_value_index v c)
unfolding get_shape_value_index
value_index-Gives none c = of_no_value
value_index-Gives (some other_value) c = of_other
value_index-Gives (some (function_value f)) c =
    elim (Option-cases (get_function_index f call_s c)) [
      | inl e ↦ rw (get_shape_value_index, e) tt
      | inr ((i, c1), e) ↦ rw (get_shape_value_index, e) (of_function e)
    ]

value_index-of :
    {v : Option Value} {c : GlobalContext} {o : Option ℕ} {c' : GlobalContext}
    → HasIndex v c o c'
    → get_shape_value_index v c ≡ some (o, c')
unfolding get_shape_value_index
value_index-of (of_function e) = rw (get_shape_value_index, e) refl
value_index-of of_other = refl
value_index-of of_no_value = refl

known_index :
    (v : Option Value) (c : GlobalContext) (o : Option ℕ) (c' : GlobalContext)
    → get_shape_value_index v c ≡ some (o, c')
    → HasIndex v c o c'
known_index v c o c' e = subst (Gives (HasIndex v c)) e (value_index-Gives v c)

member_word-Gives :
    (m : Option ShapeMember) (c : GlobalContext) → Gives (HasWord m c) (shape_member_word m c)
unfolding shape_member_word member_word
member_word-Gives none c = of_hole
member_word-Gives (some (field o)) c =
    subst (λ w. HasWord (some (field o)) c w c) (sym (field_word o))
      (of_field (plus_one-IsShifted o))
member_word-Gives (some (method_offset o)) c =
    subst (λ w. HasWord (some (method_offset o)) c w c) (sym (field_word o))
      (of_method_offset (plus_one-IsShifted o))
member_word-Gives (some (accessor_offsets g s)) c =
    subst (λ w. HasWord (some (accessor_offsets g s)) c w c) (sym (accessor_word g s))
      (of_accessor_offsets (plus_one-IsShifted g) (plus_one-IsShifted s))
member_word-Gives (some (method_value v)) c = elim (Option-cases (get_shape_value_index v c)) [
  | inl e ↦ rw (shape_member_word, e) tt
  | inr ((o, c1), e) ↦
      rw (shape_member_word, e)
        (subst (λ w. HasWord (some (method_value v)) c w c1) (sym (method_word o))
          (of_method_value (known_index v c o c1 e) (plus_one-IsShifted o)))
]
member_word-Gives (some (accessor_values v w)) c = elim (Option-cases (get_shape_value_index v c)) [
  | inl e ↦ rw (shape_member_word, e) tt
  | inr ((g, c1), e) ↦ elim (Option-cases (get_shape_value_index w c1)) [
    | inl f ↦ rw (shape_member_word, e, f) tt
    | inr ((s, c2), f) ↦
        rw (shape_member_word, e, f)
          (subst (λ n. HasWord (some (accessor_values v w)) c n c2) (sym (accessor_word g s))
            (of_accessor_values (known_index v c g c1 e) (known_index w c1 s c2 f)
              (plus_one-IsShifted g) (plus_one-IsShifted s)))
  ]
]

abbrev a_result : ℕ → GlobalContext → Option (ℕ × GlobalContext)
a_result n c = some (n, c)

some_word : (n m : ℕ) (c : GlobalContext) → n ≡ m → a_result n c ≡ a_result m c
some_word n m c e = ap (λ x. a_result x c) e

member_word-of :
    {m : Option ShapeMember} {c : GlobalContext} {w : ℕ} {c' : GlobalContext}
    → HasWord m c w c'
    → shape_member_word m c ≡ some (w, c')
unfolding shape_member_word member_word
member_word-of of_hole = refl
member_word-of (of_field {o} {n} {c} s) =
    some_word _ _ c (field_word o ∙ ap (λ x. x * 4 % 2 ^ 32 + 1) (IsShifted-plus_one s))
member_word-of (of_method_offset {o} {n} {c} s) =
    some_word _ _ c (field_word o ∙ ap (λ x. x * 4 % 2 ^ 32 + 1) (IsShifted-plus_one s))
member_word-of (of_method_value {o = o} {c' = c'} h s) =
    rw (shape_member_word, value_index-of h)
      (some_word _ _ c' (method_word o ∙ ap (λ x. x * 4 % 2 ^ 32 + 0) (IsShifted-plus_one s)))
member_word-of (of_accessor_offsets {g} {s} {n} {m} {c} h k) =
    some_word _ _ c (pair_word g s n m (IsShifted-plus_one h) (IsShifted-plus_one k))
member_word-of (of_accessor_values {g = g} {s = s} {n = n} {m = m} {c2 = c2} h k a b) =
    rw (shape_member_word, value_index-of h, value_index-of k)
      (some_word _ _ c2 (pair_word g s n m (IsShifted-plus_one a) (IsShifted-plus_one b)))

pub member_words-Gives :
    (ms : List (Option ShapeMember)) (c : GlobalContext)
    → Gives (HaveWords ms c) (shape_member_words ms c)
unfolding shape_member_words
member_words-Gives [] c = no_members
member_words-Gives (m ∷ ms) c = elim (Option-cases (shape_member_word m c)) [
  | inl e ↦ rw (shape_member_words, e) tt
  | inr ((w, c1), e) ↦ elim (Option-cases (shape_member_words ms c1)) [
    | inl f ↦ rw (shape_member_words, e, f) tt
    | inr ((ws, c2), f) ↦
        rw (shape_member_words, e, f)
          (a_member (subst (Gives (HasWord m c)) e (member_word-Gives m c))
            (subst (Gives (HaveWords ms c1)) f (member_words-Gives ms c1)))
  ]
]

pub member_words-of :
    {ms : List (Option ShapeMember)} {c : GlobalContext} {ws : List ℕ} {c' : GlobalContext}
    → HaveWords ms c ws c'
    → shape_member_words ms c ≡ some (ws, c')
unfolding shape_member_words
member_words-of no_members = refl
member_words-of (a_member h hs) = rw (shape_member_words, member_word-of h, member_words-of hs) refl

pub length-HaveWords :
    {ms : List (Option ShapeMember)} {c : GlobalContext} {ws : List ℕ} {c' : GlobalContext}
    → HaveWords ms c ws c'
    → length ws ≡ length ms
length-HaveWords no_members = refl
length-HaveWords (a_member h hs) = ap suc (length-HaveWords hs)
