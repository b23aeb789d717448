-- ===== src/ValueTypes/Equality.antt =====
-- What `equals` decides, with enough depth.
use wasmnizer_ts.ValueTypes.Same.{
  AreCovered, ArePairwise, IsFound, SameType, a_pair, equal_type, equals_sound, found_later,
  no_pairs, none_covered, one_covered, pairwise-count, same_arrays, same_functions, same_literals,
  same_maps, same_object, same_objects, same_parameters, same_plain, same_sets, same_unions,
  same_wide_types,
}
use wasmnizer_ts.ValueTypes.{
  ValueType, ValueTypes, all_pairs, all_types, any_type, array_type, arrays_equal, base_equal,
  equals, equals_step, function_type, functions_equal, map_type, maps_equal, no_types, object_type,
  objects_equal, parameters_equal, plain, set_type, sets_equal, type_parameter, types, union_type,
  unions_equal,
}
use wasmnizer_ts.Base.{
  ==_iff, Bool, Option, arith, false, inl, inr, none, refl, some, suc, true, zero, ℕ, ◌&&◌, ◌+◌,
  ◌==◌, ◌||◌, ◌↔◌, ◌≡◌, ◌≤◌, ◌⊎◌,
}

-- The number of nested classes.
unfoldable mutual
  pub depth : ValueType → ℕ
  depth (plain k i) = 1
  depth (set_type i e) = 1 + depth e
  depth (map_type i k v) = 1 + (depth k + depth v)
  depth (object_type a m i) = 1
  depth (array_type e) = 1 + depth e
  depth (union_type i ts) = 1 + depth_all ts
  depth (function_type r ps) = 1 + (depth r + depth_all ps)
  depth (type_parameter i w) = 1 + depth w

  pub depth_all : ValueTypes → ℕ
  depth_all no_types = 0
  depth_all (types t ts) = depth t + depth_all ts

and-both : (a b : Bool) → a ≡ true → b ≡ true → (a && b) ≡ true
and-both a b e f = rw (e, f) refl

or-left-intro : (a b : Bool) → a ≡ true → (a || b) ≡ true
or-left-intro a b e = rw e refl

or-right-intro : (a b : Bool) → b ≡ true → (a || b) ≡ true
or-right-intro true b e = refl
or-right-intro false b e = e

-- Of what holds of a pair of rests, with something more.
or-both : (a b c d : Bool) → (b || d) ≡ true → ((a || b) || (c || d)) ≡ true
or-both a true c d e = or-left-intro (a || true) (c || d) (or-right-intro a true refl)
or-both a false c d e = or-right-intro (a || false) (c || d) (or-right-intro c d e)

eq_self : (n : ℕ) → (n == n) ≡ true
eq_self n = (==_iff n n).1 refl

module _ (same : ValueType → ValueType → Bool) where
  complete_literals : (m n i : ℕ) → objects_equal true true (i == i) (m == n) ≡ true
  unfolding objects_equal
  complete_literals m n i = eq_self i

  complete_ids : (i : ℕ) (wide : Bool) → parameters_equal (some i) (some i) wide ≡ true
  unfolding parameters_equal
  complete_ids i wide = eq_self i

  complete_objects :
      (a b : Bool) (m i j : ℕ) → (a && b) ≡ false → objects_equal a b (i == j) (m == m) ≡ true
  unfolding objects_equal
  complete_objects true true m i j e = absurd cc
  complete_objects true false m i j e = eq_self m
  complete_objects false b m i j e = eq_self m

  complete_parameters :
      (i j : Option ℕ) (wide : Bool)
      → (i ≡ none) ⊎ (j ≡ none)
      → wide ≡ true
      → parameters_equal i j wide ≡ true
  unfolding parameters_equal
  complete_parameters none j wide h e = e
  complete_parameters (some i) none wide h e = e
  complete_parameters (some i) (some j) wide (inl p) e = absurd cc
  complete_parameters (some i) (some j) wide (inr p) e = absurd cc

  -- One call whose inner calls say true of all equal types nested at most `n` deep.
  module _ (n : ℕ) (eq : ValueType → ValueType → Bool)
      (complete : (a b : ValueType)
        → SameType same a b
        → depth a ≤ n
        → depth b ≤ n
        → eq a b ≡ true) where
    complete_found :
        (t : ValueType) (us : ValueTypes)
        → IsFound same t us
        → depth t ≤ n
        → depth_all us ≤ n
        → (any_type (λ u. same u t) us || any_type (λ u. eq u t) us) ≡ true
    unfolding any_type depth
    complete_found t no_types f h k = elim f [ ]
    complete_found t (types u us) (same_object e) h k = or-left-intro _ _ (or-left-intro _ _ e)
    complete_found t (types u us) (equal_type s) h k =
        or-right-intro _ _ (or-left-intro _ _ (complete u t s (omega (arith, k)) h))
    complete_found t (types u us) (found_later f) h k =
        or-both (same u t) (any_type (λ v. same v t) us) (eq u t) (any_type (λ v. eq v t) us)
          (complete_found t us f h (omega (arith, k)))

    complete_covered :
        (ts us : ValueTypes)
        → AreCovered same us ts
        → depth_all ts ≤ n
        → depth_all us ≤ n
        → all_types (λ t. any_type (λ u. same u t) us || any_type (λ u. eq u t) us) ts ≡ true
    unfolding all_types depth
    complete_covered no_types us none_covered h k = refl
    complete_covered (types t ts) us (one_covered f c) h k =
        and-both _ _ (complete_found t us f (omega (arith, h)) k)
          (complete_covered ts us c (omega (arith, h)) k)

    complete_pairs :
        (ps qs : ValueTypes)
        → ArePairwise same ps qs
        → depth_all ps ≤ n
        → depth_all qs ≤ n
        → all_pairs eq ps qs ≡ true
    unfolding all_pairs depth
    complete_pairs no_types no_types no_pairs h k = refl
    complete_pairs no_types (types u us) s h k = elim s [ ]
    complete_pairs (types t ts) no_types s h k = elim s [ ]
    complete_pairs (types t ts) (types u us) (a_pair s ss) h k =
        and-both _ _ (complete t u s (omega (arith, h)) (omega (arith, k)))
          (complete_pairs ts us ss (omega (arith, h)) (omega (arith, k)))

    complete_step :
        (a b : ValueType)
        → SameType same a b
        → depth a ≤ suc n
        → depth b ≤ suc n
        → equals_step same eq a b ≡ true
    unfolding equals_step base_equal sets_equal maps_equal arrays_equal unions_equal functions_equal
        depth
    complete_step _ _ (same_plain {k} {i}) h g = and-both _ _ (eq_self k) (eq_self i)
    complete_step _ _ (same_sets {i} {e} {f} s) h g =
        and-both _ _ (eq_self i) (complete e f s (omega (arith, h)) (omega (arith, g)))
    complete_step _ _ (same_maps {i} {k} {v} {l} {w} s t) h g = and-both _ _ (eq_self i) (
        and-both _ _ (complete k l s (omega (arith, h)) (omega (arith, g)))
          (complete v w t (omega (arith, h)) (omega (arith, g))))
    complete_step _ _ (same_literals {m} {n = k} {i}) h g = complete_literals m k i
    complete_step _ _ (same_objects {a} {b} {m} {i} {j} e) h g = complete_objects a b m i j e
    complete_step _ _ (same_arrays {e} {f} s) h g =
        complete e f s (omega (arith, h)) (omega (arith, g))
    complete_step _ _ (same_unions {i} {ts} {us} c s) h g = and-both _ _ (eq_self i) (
        and-both _ _ ((==_iff _ _).1 c)
          (complete_covered ts us s (omega (arith, h)) (omega (arith, g))))
    complete_step _ _ (same_functions {r} {s} {ps} {qs} p q) h g =
        and-both _ _ (complete r s p (omega (arith, h)) (omega (arith, g))) (
          and-both _ _ ((==_iff _ _).1 (pairwise-count same q))
            (complete_pairs ps qs q (omega (arith, h)) (omega (arith, g))))
    complete_step _ _ (same_parameters {i} {v} {w}) h g = complete_ids i (eq v w)
    complete_step _ _ (same_wide_types {i} {j} {v} {w} o s) h g =
        complete_parameters i j (eq v w) o (complete v w s (omega (arith, h)) (omega (arith, g)))

  depth_positive : (a : ValueType) → 1 ≤ depth a
  unfolding depth
  depth_positive (plain k i) = omega arith
  depth_positive (set_type i e) = omega arith
  depth_positive (map_type i k v) = omega arith
  depth_positive (object_type a m i) = omega arith
  depth_positive (array_type e) = omega arith
  depth_positive (union_type i ts) = omega arith
  depth_positive (function_type r ps) = omega arith
  depth_positive (type_parameter i w) = omega arith

  equals_complete :
      (n : ℕ) (a b : ValueType)
      → SameType same a b
      → depth a ≤ n
      → depth b ≤ n
      → equals same n a b ≡ true
  unfolding equals
  equals_complete zero a b s h g = absurd (omega (arith, h, depth_positive a))
  equals_complete (suc n) a b s h g = complete_step n (equals same n) (equals_complete n) a b s h g

  -- To a depth that reaches the nested classes of two types, `equals` says true of them just when
  -- both are of one class and equal in this sense: types of a class without an `equals` of its own
  -- have one kind and one type id. Sets, maps and unions have one type id. Elements, keys and
  -- values are equal. Literal objects have one type id, and objects that are not both literal one
  -- description. Each member of the first union is the same object as one of the second, which has
  -- as many, or is equal to it. The return types and the parameters of functions are equal, in
  -- order. Two type parameters have one type id when both have one; else their wide types are
  -- equal.
  pub equals-SameType :
      (a b : ValueType) (n : ℕ)
      → depth a ≤ n
      → depth b ≤ n
      → (equals same n a b ≡ true) ↔ SameType same a b
  equals-SameType a b n h g = (equals_sound same n a b, λ s. equals_complete n a b s h g)
