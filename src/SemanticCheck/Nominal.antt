-- ===== src/SemanticCheck/Nominal.antt =====
-- `nominalClassCheck`: which pairs of types it lets through.
use Prim.Native.String.{String}
use text.Mathlib.TextEquality.{eq_iff}
use wasmnizer_ts.SemanticCheck.{
  ErrorFlag, SemanticError, classes_fit, has_base_named, nominal_class_check, pass, push,
}
use wasmnizer_ts.SemanticCheck.Syntax.{
  ClassInfo, TsClass, Ty, class_name, class_type, derived, is_literal, root, type_id,
}
use wasmnizer_ts.Base.{
  ==_iff, Bool, List, Option, [], false, if◌then◌else◌, inl, inr, none, refl, some, true, ◌&&◌,
  ◌++◌, ◌||◌, ◌↔◌, ◌∷◌, ◌≡◌, ◌≢◌, ◌⊎◌,
}

-- A proper base class of the class has the name.
pub data Inherits (n : String) : TsClass → Type 0 where
  base_named : {c : ClassInfo} {b : TsClass} → class_name b ≡ n → Inherits n (derived c b)
  above_base : {c : ClassInfo} {b : TsClass} → Inherits n b → Inherits n (derived c b)

-- A value of class `right` fits where one of class `left` is wanted.
pub data Fits (left right : TsClass) : Type 0 where
  same_literal :
      (is_literal left ≡ true) ⊎ (is_literal right ≡ true)
      → type_id left ≡ type_id right
      → Fits left right
  same_name : class_name left ≡ class_name right → Fits left right
  inherits : Inherits (class_name left) right → Fits left right

pub data Accepts : Option Ty → Ty → Type 0 where
  fits : {l r : TsClass} → Fits l r → Accepts (some (class_type l)) (class_type r)
  left_no_class :
      {left : Option Ty} {right : Ty}
      → ((c : TsClass) → left ≢ some (class_type c))
      → Accepts left right
  right_no_class :
      {left : Option Ty} {right : Ty} → ((c : TsClass) → right ≢ class_type c) → Accepts left right

or_iff : (a b : Bool) → ((a || b) ≡ true) ↔ ((a ≡ true) ⊎ (b ≡ true))
or_iff true b = ((λ h. inl refl), λ h. refl)
or_iff false b = ((λ h. inr h), λ h. elim h [ inl e ↦ cc | inr e ↦ e ])

and_iff : (a b : Bool) → ((a && b) ≡ true) ↔ ((a ≡ true) × (b ≡ true))
and_iff true b = ((λ h. (refl, h)), λ (h, k). k)
and_iff false b = ((λ h. cc), λ (h, k). h)

has_base_named_iff : (n : String) (c : TsClass) → (has_base_named n c ≡ true) ↔ Inherits n c
unfolding has_base_named
has_base_named_iff n c = (to c, from)
  where
    to : (c : TsClass) → has_base_named n c ≡ true → Inherits n c
    to (root c) h = cc
    to (derived c b) h = elim ((or_iff _ _).0 h) [
      | inl e ↦ base_named ((eq_iff _ _).0 e)
      | inr e ↦ above_base (to b e)
    ]

    from : {c : TsClass} → Inherits n c → has_base_named n c ≡ true
    from (base_named e) = (or_iff _ _).1 (inl ((eq_iff _ _).1 e))
    from (above_base i) = (or_iff _ _).1 (inr (from i))

pub classes_fit_iff : (left right : TsClass) → (classes_fit left right ≡ true) ↔ Fits left right
unfolding classes_fit
classes_fit_iff left right = (to, from)
  where
    to : classes_fit left right ≡ true → Fits left right
    to h = elim ((or_iff _ _).0 h) [
      | inl e ↦
          let (lit, same) = (and_iff _ _).0 e in
          same_literal ((or_iff _ _).0 lit) ((==_iff _ _).0 same)
      | inr e ↦ elim ((or_iff _ _).0 e) [
        | inl n ↦ same_name ((eq_iff _ _).0 n)
        | inr b ↦ inherits ((has_base_named_iff _ _).0 b)
      ]
    ]

    from : Fits left right → classes_fit left right ≡ true
    from (same_literal lit same) =
        (or_iff _ _).1 (inl ((and_iff _ _).1 ((or_iff _ _).1 lit, (==_iff _ _).1 same)))
    from (same_name n) = (or_iff _ _).1 (inr ((or_iff _ _).1 (inl ((eq_iff _ _).1 n))))
    from (inherits b) = (or_iff _ _).1 (inr ((or_iff _ _).1 (inr ((has_base_named_iff _ _).1 b))))

Fits-Accepts : {l r : TsClass} → Accepts (some (class_type l)) (class_type r) → Fits l r
Fits-Accepts (fits f) = f
Fits-Accepts {l = l} (left_no_class h) = absurd (h l refl)
Fits-Accepts {r = r} (right_no_class h) = absurd (h r refl)

append-ne : (errs : List SemanticError) (e : SemanticError) → (errs ++ e ∷ []) ≢ errs
append-ne [] e h = cc
append-ne (x ∷ errs) e h = append-ne errs e cc

push-ne :
    (b : Bool) (e : SemanticError) (errs : List SemanticError)
    → (((if b then pass else push e) errs) ≡ some errs) ↔ (b ≡ true)
push-ne true e errs = ((λ h. refl), λ h. refl)
push-ne false e errs = ((λ h. absurd (append-ne errs e cc)), λ h. cc)

-- The check of a pair of types adds no error just when the pair is acceptable: one of the two is no
-- class (or the left one is unknown), one is an object literal's class and both have one type id,
-- both have one name, or the right one inherits from a base class of the left one's name.
pub nominal_class_check-pass_iff :
    (left : Option Ty) (right : Ty) (flag : ErrorFlag) (name : String) (errs : List SemanticError)
    → (nominal_class_check left right flag name errs ≡ some errs) ↔ Accepts left right
unfolding nominal_class_check
nominal_class_check-pass_iff (some (class_type left)) (class_type right) flag name errs = (
  (λ h. fits ((classes_fit_iff left right).0 ((push-ne _ _ errs).0 h))),
  λ a. (push-ne _ _ errs).1 ((classes_fit_iff left right).1 (Fits-Accepts a)),
)
nominal_class_check-pass_iff none right flag name errs =
    ((λ h. left_no_class (λ c e. cc)), λ a. refl)
nominal_class_check-pass_iff (some (class_type left)) _ flag name errs =
    ((λ h. right_no_class (λ c e. cc)), λ a. refl)
nominal_class_check-pass_iff (some _) right flag name errs =
    ((λ h. left_no_class (λ c e. cc)), λ a. refl)
