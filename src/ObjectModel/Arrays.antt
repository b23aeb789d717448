-- ===== src/ObjectModel/Arrays.antt =====
-- Arrays with holes: a read gives `none` at a hole and out of range.
use mathlib.Core.Option.{none-ne-some}
use wasmnizer_ts.ObjectModel.{put}
use wasmnizer_ts.Base.{
  List, Option, [], ap, arith, drop, length, none, refl, replicate, some, suc, zero, zero-add, ℕ,
  ◌+◌, ◌<◌, ◌∙◌, ◌∷◌, ◌≡◌, ◌≢◌, ◌≤◌,
}

unfoldable pub slot {ℓ} : {A : Type ℓ} → List (Option A) → ℕ → Option A
slot [] i = none
slot (x ∷ xs) zero = x
slot (x ∷ xs) (suc i) = slot xs i

pub slot-put_self {ℓ} :
    {A : Type ℓ} (xs : List (Option A)) (i : ℕ) (a : A) → slot (put xs i a) i ≡ some a
unfolding slot put
slot-put_self [] zero a = refl
slot-put_self [] (suc i) a = slot-put_self [] i a
slot-put_self (x ∷ xs) zero a = refl
slot-put_self (x ∷ xs) (suc i) a = slot-put_self xs i a

pub slot-put_ne {ℓ} :
    {A : Type ℓ} (xs : List (Option A)) (i j : ℕ) (a : A) → i ≢ j → slot (put xs i a) j ≡ slot xs j
unfolding slot put
slot-put_ne [] zero zero a n = elim (n refl) [ ]
slot-put_ne [] zero (suc j) a n = refl
slot-put_ne [] (suc i) zero a n = refl
slot-put_ne [] (suc i) (suc j) a n = slot-put_ne [] i j a (λ e. n (ap suc e))
slot-put_ne (x ∷ xs) zero zero a n = elim (n refl) [ ]
slot-put_ne (x ∷ xs) zero (suc j) a n = refl
slot-put_ne (x ∷ xs) (suc i) zero a n = refl
slot-put_ne (x ∷ xs) (suc i) (suc j) a n = slot-put_ne xs i j a (λ e. n (ap suc e))

pub length-put {ℓ} :
    {A : Type ℓ} (xs : List (Option A)) (i : ℕ) (a : A)
    → i < length xs
    → length (put xs i a) ≡ length xs
unfolding put
length-put [] i a h = elim h [ ]
length-put (x ∷ xs) zero a h = refl
length-put (x ∷ xs) (suc i) a h = ap suc (length-put xs i a (omega arith))

not_le_zero : (n : ℕ) → suc n ≤ 0 → ⊥
not_le_zero n h = omega arith

pub slot-beyond {ℓ} : {A : Type ℓ} (xs : List (Option A)) (i : ℕ) → length xs ≤ i → slot xs i ≡ none
unfolding slot
slot-beyond [] i h = refl
slot-beyond (x ∷ xs) zero h = absurd (not_le_zero (length xs) h)
slot-beyond (x ∷ xs) (suc i) h = slot-beyond xs i (omega arith)

pub slot-replicate {ℓ} : {A : Type ℓ} (n i : ℕ) → slot (replicate {A = Option A} n none) i ≡ none
unfolding slot
slot-replicate zero i = refl
slot-replicate (suc n) zero = refl
slot-replicate (suc n) (suc i) = slot-replicate n i

pub slot-drop {ℓ} :
    {A : Type ℓ} (n : ℕ) (xs : List (Option A)) (i : ℕ) → slot (drop n xs) i ≡ slot xs (n + i)
unfolding slot
slot-drop zero xs i = rw (zero-add i) refl
slot-drop (suc n) [] i = refl
slot-drop (suc n) (x ∷ xs) i =
    slot-drop n xs i ∙ ap (slot (x ∷ xs)) {x = suc (n + i)} {y = suc n + i} (omega arith)

pub slot-bound {ℓ} :
    {A : Type ℓ} (xs : List (Option A)) (i : ℕ) (a : A) → slot xs i ≡ some a → i < length xs
unfolding slot
slot-bound [] i a e = absurd (none-ne-some a e)
slot-bound (x ∷ xs) zero a e = omega arith
slot-bound (x ∷ xs) (suc i) a e = omega (arith, slot-bound xs i a e)
