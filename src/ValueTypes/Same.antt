-- ===== src/ValueTypes/Same.antt =====
-- When two types are equal, and that `equals` says true only of such.
use mathlib.Core.Path.{subst}
use wasmnizer_ts.ValueTypes.{
  ValueType, ValueTypes, all_pairs, all_types, any_type, array_type, arrays_equal, base_equal,
  count_types, equals, equals_step, function_type, functions_equal, map_type, maps_equal, no_types,
  object_type, objects_equal, parameters_equal, plain, set_type, sets_equal, type_parameter, types,
  union_type, unions_equal,
}
use wasmnizer_ts.Base.{
  ==_iff, Bool, Option, ap, arith, false, inl, inr, none, refl, some, suc, true, zero, ℕ, ◌&&◌,
  ◌==◌, ◌||◌, ◌∙◌, ◌≡◌, ◌⊎◌,
}

and-parts : (a b : Bool) → (a && b) ≡ true → (a ≡ true) × (b ≡ true)
and-parts true b e = (refl, e)
and-parts false b e = absurd cc

or-cases :
    (a b c d : Bool) → ((a || b) || (c || d)) ≡ true → (a ≡ true) ⊎ ((c ≡ true) ⊎ ((b || d) ≡ true))
or-cases true b c d e = inl refl
or-cases false true c d e = inr (inr refl)
or-cases false false true d e = inr (inl refl)
or-cases false false false d e = inr (inr e)

module _ (same : ValueType → ValueType → Bool) where
  -- When two types are equal. Types of a class without an `equals` of its own have one kind and
  -- one type id. Sets, maps and unions have one type id and equal parts. Two literal objects have
  -- one type id, and two objects that are not both literal one description. Arrays have equal
  -- elements. Unions have as many members, and each member of the first is the same object as a
  -- member of the second or equal to it. Functions have equal return types and parameters, in
  -- order. Two type parameters have one type id when both have one; else their wide types are
  -- equal.
  mutual
    pub data SameType : ValueType → ValueType → Type 0 where
      same_plain : {k i : ℕ} → SameType (plain k i) (plain k i)
      same_sets : {i : ℕ} {e f : ValueType} → SameType e f → SameType (set_type i e) (set_type i f)
      same_maps :
          {i : ℕ} {k v l w : ValueType}
          → SameType k l
          → SameType v w
          → SameType (map_type i k v) (map_type i l w)
      same_literals : {m n i : ℕ} → SameType (object_type true m i) (object_type true n i)
      same_objects :
          {a b : Bool} {m i j : ℕ}
          → (a && b) ≡ false
          → SameType (object_type a m i) (object_type b m j)
      same_arrays : {e f : ValueType} → SameType e f → SameType (array_type e) (array_type f)
      same_unions :
          {i : ℕ} {ts us : ValueTypes}
          → count_types ts ≡ count_types us
          → AreCovered us ts
          → SameType (union_type i ts) (union_type i us)
      same_functions :
          {r s : ValueType} {ps qs : ValueTypes}
          → SameType r s
          → ArePairwise ps qs
          → SameType (function_type r ps) (function_type s qs)
      same_parameters :
          {i : ℕ} {v w : ValueType}
          → SameType (type_parameter (some i) v) (type_parameter (some i) w)
      same_wide_types :
          {i j : Option ℕ} {v w : ValueType}
          → (i ≡ none) ⊎ (j ≡ none)
          → SameType v w
          → SameType (type_parameter i v) (type_parameter j w)

    pub data ArePairwise : ValueTypes → ValueTypes → Type 0 where
      no_pairs : ArePairwise no_types no_types
      a_pair :
          {t u : ValueType} {ts us : ValueTypes}
          → SameType t u
          → ArePairwise ts us
          → ArePairwise (types t ts) (types u us)

    pub data AreCovered : ValueTypes → ValueTypes → Type 0 where
      none_covered : {us : ValueTypes} → AreCovered us no_types
      one_covered :
          {t : ValueType} {us ts : ValueTypes}
          → IsFound t us
          → AreCovered us ts
          → AreCovered us (types t ts)

    pub data IsFound : ValueType → ValueTypes → Type 0 where
      same_object : {t u : ValueType} {us : ValueTypes} → same u t ≡ true → IsFound t (types u us)
      equal_type : {t u : ValueType} {us : ValueTypes} → SameType u t → IsFound t (types u us)
      found_later : {t u : ValueType} {us : ValueTypes} → IsFound t us → IsFound t (types u us)

  pub pairwise-count : {ps qs : ValueTypes} → ArePairwise ps qs → count_types ps ≡ count_types qs
  unfolding count_types
  pairwise-count no_pairs = refl
  pairwise-count (a_pair h hs) = omega (arith, pairwise-count hs)

  sound_plain : (k i l j : ℕ) → k ≡ l → i ≡ j → SameType (plain k i) (plain l j)
  sound_plain k i l j p q =
      subst (SameType (plain k i)) (ap (λ x. plain x i) p ∙ ap (plain l) q) same_plain

  sound_objects :
      (a b : Bool) (m n i j : ℕ)
      → objects_equal a b (i == j) (m == n) ≡ true
      → SameType (object_type a m i) (object_type b n j)
  unfolding objects_equal
  sound_objects true true m n i j e =
      subst (λ x. SameType (object_type true m i) (object_type true n x)) ((==_iff i j).0 e)
        same_literals
  sound_objects true false m n i j e =
      subst (λ x. SameType (object_type true m i) (object_type false x j)) ((==_iff m n).0 e)
        (same_objects refl)
  sound_objects false b m n i j e =
      subst (λ x. SameType (object_type false m i) (object_type b x j)) ((==_iff m n).0 e)
        (same_objects refl)

  -- One call whose inner calls say true only of equal types.
  module _ (eq : ValueType → ValueType → Bool)
      (sound : (a b : ValueType) → eq a b ≡ true → SameType a b) where
    sound-IsFound :
        (t : ValueType) (us : ValueTypes)
        → (any_type (λ u. same u t) us || any_type (λ u. eq u t) us) ≡ true
        → IsFound t us
    unfolding any_type
    sound-IsFound t no_types e = absurd cc
    sound-IsFound t (types u us) e =
        elim (or-cases (same u t) (any_type (λ v. same v t) us) (eq u t) (any_type (λ v. eq v t) us)
          e) [
            | inl p ↦ same_object p
            | inr (inl p) ↦ equal_type (sound u t p)
            | inr (inr p) ↦ found_later (sound-IsFound t us p)
          ]

    sound_covered :
        (ts us : ValueTypes)
        → all_types (λ t. any_type (λ u. same u t) us || any_type (λ u. eq u t) us) ts ≡ true
        → AreCovered us ts
    unfolding all_types
    sound_covered no_types us e = none_covered
    sound_covered (types t ts) us e =
        let (p, q) = and-parts _ _ e in one_covered (sound-IsFound t us p) (sound_covered ts us q)

    sound_pairs :
        (ps qs : ValueTypes)
        → count_types ps ≡ count_types qs
        → all_pairs eq ps qs ≡ true
        → ArePairwise ps qs
    unfolding all_pairs count_types
    sound_pairs no_types no_types c e = no_pairs
    sound_pairs no_types (types u us) c e = absurd (omega (arith, c))
    sound_pairs (types t ts) no_types c e = absurd cc
    sound_pairs (types t ts) (types u us) c e =
        let (p, q) = and-parts _ _ e in
        a_pair (sound t u p) (sound_pairs ts us (omega (arith, c)) q)

    sound_parameters :
        (i j : Option ℕ) (v w : ValueType)
        → parameters_equal i j (eq v w) ≡ true
        → SameType (type_parameter i v) (type_parameter j w)
    unfolding parameters_equal
    sound_parameters none j v w e = same_wide_types (inl refl) (sound v w e)
    sound_parameters (some i) none v w e = same_wide_types (inr refl) (sound v w e)
    sound_parameters (some i) (some j) v w e =
        subst (λ x. SameType (type_parameter (some i) v) (type_parameter (some x) w))
          ((==_iff i j).0 e) same_parameters

    sound_step : (a b : ValueType) → equals_step same eq a b ≡ true → SameType a b
    unfolding equals_step base_equal sets_equal maps_equal arrays_equal unions_equal functions_equal
    sound_step (plain k i) (plain l j) e =
        let (p, q) = and-parts _ _ e in sound_plain k i l j ((==_iff k l).0 p) ((==_iff i j).0 q)
    sound_step (set_type i s) (set_type j t) e =
        let (p, q) = and-parts _ _ e in
        subst (λ x. SameType (set_type i s) (set_type x t)) ((==_iff i j).0 p)
          (same_sets (sound s t q))
    sound_step (map_type i k v) (map_type j l w) e =
        let (p, q) = and-parts _ _ e in
        let (r, s) = and-parts _ _ q in
        subst (λ x. SameType (map_type i k v) (map_type x l w)) ((==_iff i j).0 p)
          (same_maps (sound k l r) (sound v w s))
    sound_step (object_type a m i) (object_type b n j) e = sound_objects a b m n i j e
    sound_step (array_type s) (array_type t) e = same_arrays (sound s t e)
    sound_step (union_type i ts) (union_type j us) e =
        let (p, q) = and-parts _ _ e in
        let (c, d) = and-parts _ _ q in
        subst (λ x. SameType (union_type i ts) (union_type x us)) ((==_iff i j).0 p)
          (same_unions ((==_iff _ _).0 c) (sound_covered ts us d))
    sound_step (function_type r ps) (function_type s qs) e =
        let (p, q) = and-parts _ _ e in
        let (c, d) = and-parts _ _ q in
        same_functions (sound r s p) (sound_pairs ps qs ((==_iff _ _).0 c) d)
    sound_step (type_parameter i v) (type_parameter j w) e = sound_parameters i j v w e
    sound_step a b e = absurd cc

  pub equals_sound : (n : ℕ) (a b : ValueType) → equals same n a b ≡ true → SameType a b
  unfolding equals
  equals_sound zero a b e = absurd cc
  equals_sound (suc n) a b e = sound_step (equals same n) (equals_sound n) a b e
