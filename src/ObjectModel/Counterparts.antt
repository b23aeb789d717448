-- ===== src/ObjectModel/Counterparts.antt =====
-- About `buildShape` of src/semantics/runtime.ts: which member of a shape stands for a member of a
-- description.
use mathlib.Core.Option.{some-injective}
use wasmnizer_ts.ObjectModel.{
  MemberInfo, MemberType, Members, accessor_member, constructor_member, field_member, find_from,
  find_member, method_member,
}
use wasmnizer_ts.ObjectModel.Arrays.{slot}
use wasmnizer_ts.ObjectModel.Shapes.{Shape, compatible, counterpart, get_member, is_data, same_type}
use wasmnizer_ts.Base.{
  ==_iff, Bool-cases, List, Option, [], ap, arith, false, if◌then◌else◌, inl, inr, none, refl, some,
  suc, sym, true, zero, ℕ, ◌+◌, ◌<◌, ◌==◌, ◌∙◌, ◌∷◌, ◌≡◌, ◌≢◌, ◌⊎◌,
}

-- The kinds of members that hold data.
pub data HoldsData : MemberType → Type 0 where
  a_field : HoldsData field_member
  an_accessor : HoldsData accessor_member

-- Members of one kind fit, and so do two that hold data.
abbrev pub Fits : MemberType → MemberType → Type 0
Fits a b = (a ≡ b) ⊎ (HoldsData a × HoldsData b)

-- The first member with the name, at its place.
pub record IsFirst (ms : Members) (n k : ℕ) (f : MemberInfo) : Type 0 where
  pub placed : slot ms k ≡ some f
  pub same_name : f.name ≡ n
  pub first : (j : ℕ) (g : MemberInfo) → j < k → slot ms j ≡ some g → g.name ≢ n

-- No member has the name.
abbrev pub Unnamed : Members → ℕ → Type 0
Unnamed ms n = (j : ℕ) (g : MemberInfo) → slot ms j ≡ some g → g.name ≢ n

-- What a shape stores for the index.
abbrev pub stored_at {ℓ} : {A : Type ℓ} → Option (List (Option A)) → ℕ → Option A
stored_at none i = none
stored_at (some xs) i = slot xs i

-- The counterpart of a member in another shape: what this stores for the index of the first member
-- of its description with the same name, if the two fit; nothing if they do not, or if there is no
-- such member.
pub data IsCounterpart {ℓ} {A : Type ℓ} (from : Shape A) (m : MemberInfo) : Option A → Type ℓ where
  of_none : Unnamed from.meta m.name → IsCounterpart from m none
  of_other :
      {k : ℕ} {f : MemberInfo}
      → IsFirst from.meta m.name k f
      → (Fits f.type m.type → ⊥)
      → IsCounterpart from m none
  of_first :
      {k : ℕ} {f : MemberInfo}
      → IsFirst from.meta m.name k f
      → Fits f.type m.type
      → IsCounterpart from m (stored_at from.shape_members f.index)

abbrev Finds : Members → ℕ → Option (ℕ × MemberInfo) → Type 0
Finds ms n none = Unnamed ms n
Finds ms n (some (i, f)) = (k : ℕ) × IsFirst ms n k f

Unnamed-some :
    (m : MemberInfo) (ms : Members) (n : ℕ) → m.name ≢ n → Unnamed ms n → Unnamed (some m ∷ ms) n
unfolding slot
Unnamed-some m ms n h u zero g e =
    λ p. absurd (h (ap (λ (x : MemberInfo). x.name) (some-injective m g e) ∙ p))
Unnamed-some m ms n h u (suc j) g e = u j g e

Finds-none :
    (ms : Members) (n : ℕ) (o : Option (ℕ × MemberInfo)) → Finds ms n o → Finds (none ∷ ms) n o
unfolding slot
Finds-none ms n none u = λ j g e. skip j g e
  where
    skip : Unnamed (none ∷ ms) n
    skip zero g e = absurd cc
    skip (suc j) g e = u j g e
Finds-none ms n (some (i, f)) (k, h) =
    (suc k, record { placed = h.placed; same_name = h.same_name; first = before })
  where
    before : (j : ℕ) (g : MemberInfo) → j < suc k → slot (none ∷ ms) j ≡ some g → g.name ≢ n
    before zero g b e = absurd cc
    before (suc j) g b e = h.first j g (omega arith) e

Finds-some :
    (m : MemberInfo) (ms : Members) (n : ℕ) (o : Option (ℕ × MemberInfo))
    → m.name ≢ n
    → Finds ms n o
    → Finds (some m ∷ ms) n o
unfolding slot
Finds-some m ms n none d u = Unnamed-some m ms n d u
Finds-some m ms n (some (i, f)) d (k, h) =
    (suc k, record { placed = h.placed; same_name = h.same_name; first = before })
  where
    before : (j : ℕ) (g : MemberInfo) → j < suc k → slot (some m ∷ ms) j ≡ some g → g.name ≢ n
    before zero g b e = λ p. absurd (d (ap (λ (x : MemberInfo). x.name) (some-injective m g e) ∙ p))
    before (suc j) g b e = h.first j g (omega arith) e

not_equal : (a b : ℕ) → (a == b) ≡ false → a ≢ b
not_equal a b e = λ p. absurd (ground (arith, p, e))

Finds-find_from : (i n : ℕ) (ms : Members) → Finds ms n (find_from i n ms)
unfolding find_from slot
Finds-find_from i n [] = nowhere
  where
    nowhere : Unnamed [] n
    nowhere j g e = absurd cc
Finds-find_from i n (none ∷ ms) =
    Finds-none ms n (find_from (i + 1) n ms) (Finds-find_from (i + 1) n ms)
Finds-find_from i n (some m ∷ ms) = elim (Bool-cases (m.name == n)) [
  | inl e ↦
      rw (find_from, e)
        (
          0,
          record {
            placed = refl;
            same_name = (==_iff m.name n).0 e;
            first = λ j g b. absurd (omega (arith, b));
          },
        )
  | inr e ↦
      rw (find_from, e)
        (Finds-some m ms n (find_from (i + 1) n ms) (not_equal m.name n e)
          (Finds-find_from (i + 1) n ms))
]

compatible-Fits : (a b : MemberType) → compatible a b ≡ true → Fits a b
unfolding compatible same_type is_data
compatible-Fits field_member field_member e = inl refl
compatible-Fits method_member method_member e = inl refl
compatible-Fits constructor_member constructor_member e = inl refl
compatible-Fits accessor_member accessor_member e = inl refl
compatible-Fits field_member accessor_member e = inr (a_field, an_accessor)
compatible-Fits accessor_member field_member e = inr (an_accessor, a_field)
compatible-Fits _ _ e = absurd cc

compatible_self : (a : MemberType) → compatible a a ≡ true
unfolding compatible same_type is_data
compatible_self field_member = refl
compatible_self method_member = refl
compatible_self constructor_member = refl
compatible_self accessor_member = refl

both_data : {a b : MemberType} → HoldsData a → HoldsData b → compatible a b ≡ true
unfolding compatible same_type is_data
both_data a_field a_field = refl
both_data a_field an_accessor = refl
both_data an_accessor a_field = refl
both_data an_accessor an_accessor = refl

Fits-compatible : (a b : MemberType) → Fits a b → compatible a b ≡ true
Fits-compatible a b (inl p) = ap (compatible a) (sym p) ∙ compatible_self a
Fits-compatible a b (inr (p, q)) = both_data p q

incompatible : (a b : MemberType) → compatible a b ≡ false → Fits a b → ⊥
incompatible a b e h = true_not_false (sym (Fits-compatible a b h) ∙ e)
  where
    true_not_false : true ≡ false → ⊥
    true_not_false p = absurd cc

module _ {ℓ} {A : Type ℓ} where
  stored_at-get_member : (i : ℕ) (o : Option (List (Option A))) → stored_at o i ≡ get_member i o
  unfolding get_member
  stored_at-get_member i none = refl
  stored_at-get_member i (some xs) = refl

  pub counterpart-IsCounterpart :
      (from : Shape A) (m : MemberInfo) → IsCounterpart from m (counterpart from m)
  unfolding counterpart
  counterpart-IsCounterpart from m =
      go (find_member m.name from.meta) (Finds-find_from 0 m.name from.meta)
    where
      go :
          (o : Option (ℕ × MemberInfo))
          → Finds from.meta m.name o
          → IsCounterpart from m (elim o [
            | none ↦ none
            | some (k, f) ↦
                if compatible f.type m.type then get_member f.index from.shape_members else none
          ])
      go none u = of_none u
      go (some (i, f)) (k, h) = elim (Bool-cases (compatible f.type m.type)) [
        | inl e ↦
            rw (e, sym (stored_at-get_member f.index from.shape_members))
              (of_first h (compatible-Fits f.type m.type e))
        | inr e ↦ rw e (of_other h (incompatible f.type m.type e))
      ]
