-- ===== src/ValueTypes/Symmetry.antt =====
-- `equals` with its two types exchanged.
use wasmnizer_ts.ValueTypes.{
  ValueType, ValueTypes, all_pairs, array_type, arrays_equal, base_equal, count_types, equals,
  equals_step, function_type, functions_equal, map_type, maps_equal, no_types, object_type,
  objects_equal, parameters_equal, plain, set_type, sets_equal, type_parameter, types, union_type,
  unions_equal,
}
use wasmnizer_ts.Base.{
  ==_iff, Bool, Option, arith, false, none, refl, some, suc, sym, true, zero, ℕ, ◌&&◌, ◌==◌, ◌≡◌,
}

-- No union occurs in the type.
unfoldable mutual
  pub union_free : ValueType → Bool
  union_free (plain k i) = true
  union_free (set_type i e) = union_free e
  union_free (map_type i k v) = union_free k && union_free v
  union_free (object_type a m i) = true
  union_free (array_type e) = union_free e
  union_free (union_type i ts) = false
  union_free (function_type r ps) = union_free r && all_union_free ps
  union_free (type_parameter i w) = union_free w

  pub all_union_free : ValueTypes → Bool
  all_union_free no_types = true
  all_union_free (types t ts) = union_free t && all_union_free ts

and-parts : (a b : Bool) → (a && b) ≡ true → (a ≡ true) × (b ≡ true)
and-parts true b e = (refl, e)
and-parts false b e = absurd cc

and-both : (a b : Bool) → a ≡ true → b ≡ true → (a && b) ≡ true
and-both a b e f = rw (e, f) refl

eq-swap : (m n : ℕ) → (m == n) ≡ true → (n == m) ≡ true
eq-swap m n e = (==_iff n m).1 (sym ((==_iff m n).0 e))

objects-swap :
    (a b : Bool) (m n i j : ℕ)
    → objects_equal a b (i == j) (m == n) ≡ true
    → objects_equal b a (j == i) (n == m) ≡ true
unfolding objects_equal
objects-swap true true m n i j e = eq-swap i j e
objects-swap true false m n i j e = eq-swap m n e
objects-swap false true m n i j e = eq-swap m n e
objects-swap false false m n i j e = eq-swap m n e

parameters-swap :
    (i j : Option ℕ) (wide other : Bool)
    → (wide ≡ true → other ≡ true)
    → parameters_equal i j wide ≡ true
    → parameters_equal j i other ≡ true
unfolding parameters_equal
parameters-swap none none wide other f e = f e
parameters-swap none (some j) wide other f e = f e
parameters-swap (some i) none wide other f e = f e
parameters-swap (some i) (some j) wide other f e = eq-swap i j e

same_test : (a b : Bool) → (a ≡ true → b ≡ true) → (b ≡ true → a ≡ true) → a ≡ b
same_test true b f g = sym (f refl)
same_test false true f g = g refl
same_test false false f g = refl

module _ (same : ValueType → ValueType → Bool) where
  mutual
    unfolding equals equals_step base_equal sets_equal maps_equal arrays_equal unions_equal
        functions_equal all_pairs union_free count_types

    equals-swap :
        (a b : ValueType) (n : ℕ)
        → union_free a ≡ true
        → equals same n a b ≡ true
        → equals same n b a ≡ true
    equals-swap a b zero f e = absurd cc
    equals-swap (plain k i) (plain l j) (suc n) f e =
        let (p, q) = and-parts (k == l) (i == j) e in
        and-both (l == k) (j == i) (eq-swap k l p) (eq-swap i j q)
    equals-swap (set_type i s) (set_type j t) (suc n) f e =
        let (p, q) = and-parts (i == j) _ e in
        and-both (j == i) _ (eq-swap i j p) (equals-swap s t n f q)
    equals-swap (map_type i k v) (map_type j l w) (suc n) f e =
        let (p, q) = and-parts (i == j) _ e in
        let (r, s) = and-parts _ _ q in
        let (g, h) = and-parts _ _ f in
        and-both (j == i) _ (eq-swap i j p)
          (and-both _ _ (equals-swap k l n g r) (equals-swap v w n h s))
    equals-swap (object_type a m i) (object_type b k j) (suc n) f e = objects-swap a b m k i j e
    equals-swap (array_type s) (array_type t) (suc n) f e = equals-swap s t n f e
    equals-swap (union_type i ts) b (suc n) f e = absurd cc
    equals-swap (function_type r ps) (function_type s qs) (suc n) f e =
        let (p, q) = and-parts _ _ e in
        let (c, d) = and-parts (count_types ps == count_types qs) _ q in
        let (g, h) = and-parts _ _ f in
        and-both _ _ (equals-swap r s n g p) (
          and-both (count_types qs == count_types ps) _
            (eq-swap (count_types ps) (count_types qs) c)
            (all_pairs-swap ps qs n h ((==_iff (count_types ps) (count_types qs)).0 c) d))
    equals-swap (type_parameter i v) (type_parameter j w) (suc n) f e =
        parameters-swap i j _ _ (equals-swap v w n f) e
    equals-swap a b (suc n) f e = absurd cc

    all_pairs-swap :
        (ts us : ValueTypes) (n : ℕ)
        → all_union_free ts ≡ true
        → count_types ts ≡ count_types us
        → all_pairs (equals same n) ts us ≡ true
        → all_pairs (equals same n) us ts ≡ true
    all_pairs-swap no_types no_types n f c e = refl
    all_pairs-swap no_types (types u us) n f c e = absurd (omega (arith, c))
    all_pairs-swap (types t ts) no_types n f c e = absurd cc
    all_pairs-swap (types t ts) (types u us) n f c e =
        let (p, q) = and-parts _ _ e in
        let (g, h) = and-parts _ _ f in
        and-both _ _ (equals-swap t u n g p) (all_pairs-swap ts us n h (omega (arith, c)) q)

-- On types without unions `equals` is symmetric, to any depth.
pub equals-symmetric :
    (same : ValueType → ValueType → Bool) (a b : ValueType) (n : ℕ)
    → union_free a ≡ true
    → union_free b ≡ true
    → equals same n a b ≡ equals same n b a
equals-symmetric same a b n f g =
    same_test (equals same n a b) (equals same n b a) (equals-swap same a b n f)
      (equals-swap same b a n g)
