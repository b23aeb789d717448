-- ===== src/ObjectModel/Building.antt =====
-- What `buildShape` builds for a description without holes whose members stand at their indices.
use mathlib.Core.Option.{none-ne-some}
use wasmnizer_ts.ObjectModel.{MemberInfo, Members}
use wasmnizer_ts.ObjectModel.Arrays.{length-put, slot, slot-put_ne, slot-put_self, slot-replicate}
use wasmnizer_ts.ObjectModel.Counterparts.{IsCounterpart, counterpart-IsCounterpart}
use mathlib.Core.Path.{subst}
use wasmnizer_ts.ObjectModel.Shapes.{
  Shape, all_present, build_shape, counterpart, fill, is_static_shape, store,
}
use wasmnizer_ts.Base.{
  List, Option, [], ap, arith, length, length-replicate, none, refl, replicate, some, suc, sym,
  true, zero, ℕ, ◌+◌, ◌<◌, ◌↔◌, ◌∙◌, ◌∷◌, ◌≡◌, ◌≢◌, ◌≤◌,
}

-- No hole, and every member, counted from `start`, at its index.
pub data AllPlaced : ℕ → Members → Type 0 where
  no_members : {start : ℕ} → AllPlaced start []
  a_member :
      {start : ℕ} {m : MemberInfo} {ms : Members}
      → m.index ≡ start
      → AllPlaced (suc start) ms
      → AllPlaced start (some m ∷ ms)

-- The counterpart of what stands at a place.
abbrev pub counterpart_at {ℓ} : {A : Type ℓ} → Shape A → Option MemberInfo → Option A
counterpart_at from none = none
counterpart_at from (some m) = counterpart from m

module _ {ℓ} {A : Type ℓ} where
  slot-store_self :
      (xs : List (Option A)) (i : ℕ) (o : Option A) → slot xs i ≡ none → slot (store i o xs) i ≡ o
  unfolding store
  slot-store_self xs i none e = e
  slot-store_self xs i (some a) e = slot-put_self xs i a

  slot-store_ne :
      (xs : List (Option A)) (i j : ℕ) (o : Option A) → i ≢ j → slot (store i o xs) j ≡ slot xs j
  unfolding store
  slot-store_ne xs i j none n = refl
  slot-store_ne xs i j (some a) n = slot-put_ne xs i j a n

  length-store :
      (xs : List (Option A)) (i : ℕ) (o : Option A)
      → i < length xs
      → length (store i o xs) ≡ length xs
  unfolding store
  length-store xs i none h = refl
  length-store xs i (some a) h = length-put xs i a h

  -- What `fill` leaves when the members, counted from `start`, are at their indices.
  record IsFilled (from : Shape A) (start : ℕ) (ms : Members) (xs ys : List (Option A))
      : Type ℓ where
    same_length : length ys ≡ length xs
    earlier : (j : ℕ) → j < start → slot ys j ≡ slot xs j
    filled : (k : ℕ) → slot ys (start + k) ≡ counterpart_at from (slot ms k)

  IsFilled-step :
      (from : Shape A) (start : ℕ) (m : MemberInfo) (ms : Members) (xs ys : List (Option A))
      → m.index ≡ start
      → ((k : ℕ) → slot xs (start + k) ≡ none)
      → length (store m.index (counterpart from m) xs) ≡ length xs
      → IsFilled from (suc start) ms (store m.index (counterpart from m) xs) ys
      → IsFilled from start (some m ∷ ms) xs ys
  unfolding slot
  IsFilled-step from start m ms xs ys e empty len f = record {
    same_length = f.same_length ∙ len;
    earlier = λ j b.
        f.earlier j (omega arith)
        ∙ slot-store_ne xs m.index j (counterpart from m) (omega (arith, e));
    filled = at;
  }
    where
      at : (k : ℕ) → slot ys (start + k) ≡ counterpart_at from (slot (some m ∷ ms) k)
      at zero =
          ap (slot ys) {x = start + 0} {y = start} (omega arith)
          ∙ f.earlier start (omega arith)
          ∙ ap (slot (store m.index (counterpart from m) xs)) (sym e)
          ∙ slot-store_self xs m.index (counterpart from m)
              (ap (slot xs) {x = m.index} {y = start + 0} (omega (arith, e)) ∙ empty 0)
      at (suc k) = ap (slot ys) {x = start + suc k} {y = suc start + k} (omega arith) ∙ f.filled k

  fill-IsFilled :
      (from : Shape A) (start : ℕ) (ms : Members) (xs : List (Option A))
      → AllPlaced start ms
      → start + length ms ≤ length xs
      → ((k : ℕ) → slot xs (start + k) ≡ none)
      → (ys : List (Option A)) × (fill from ms xs ≡ some ys) × IsFilled from start ms xs ys
  unfolding fill slot
  fill-IsFilled from start [] xs no_members h empty =
      (xs, refl, record { same_length = refl; earlier = λ j b. refl; filled = empty })
  fill-IsFilled from start (none ∷ ms) xs p h empty = elim p [ ]
  fill-IsFilled from start (some m ∷ ms) xs (a_member e p) h empty =
      let o = counterpart from m in
      let len = length-store xs m.index o (omega (arith, e, h)) in
      let ahead = λ (k : ℕ).
        slot-store_ne xs m.index (suc start + k) o (omega (arith, e))
        ∙ ap (slot xs) {x = suc start + k} {y = start + suc k} (omega arith)
        ∙ empty (suc k) in
      let (ys, eq, f) =
        fill-IsFilled from (suc start) ms (store m.index o xs) p (omega (arith, len, h)) ahead in
      (ys, eq, IsFilled-step from start m ms xs ys e empty len f)

  all_present-slots :
      (xs : List (Option A)) → all_present xs ≡ true → (k : ℕ) → k < length xs → slot xs k ≢ none
  unfolding all_present slot
  all_present-slots [] e k h = absurd (omega (arith, h))
  all_present-slots (none ∷ xs) e k h = absurd cc
  all_present-slots (some a ∷ xs) e zero h = λ n. absurd (none-ne-some a (sym n))
  all_present-slots (some a ∷ xs) e (suc k) h = all_present-slots xs e k (omega (arith, h))

  slots-all_present :
      (xs : List (Option A)) → ((k : ℕ) → k < length xs → slot xs k ≢ none) → all_present xs ≡ true
  unfolding all_present slot
  slots-all_present [] f = refl
  slots-all_present (none ∷ xs) f = absurd (f 0 (omega arith) refl)
  slots-all_present (some a ∷ xs) f = slots-all_present xs (λ k h. f (suc k) (omega (arith, h)))

  -- What a place of the shape holds for the one of the description.
  abbrev pub Holds : Shape A → Option MemberInfo → Option A → Type ℓ
  Holds from none o = o ≡ none
  Holds from (some m) o = IsCounterpart from m o

  Holds-counterpart_at :
      (from : Shape A) (o : Option MemberInfo) (a : Option A)
      → a ≡ counterpart_at from o
      → Holds from o a
  Holds-counterpart_at from none a e = e
  Holds-counterpart_at from (some m) a e =
      subst (IsCounterpart from m) (sym e) (counterpart-IsCounterpart from m)

  -- `buildShape`, on a description without holes whose members stand at their indices, gives a
  -- shape of the description with as many members; each place holds the counterpart, in the other
  -- shape, of the member at this place: what that shape stores for the index of the first member
  -- of its description with the same name, if the two are of one kind or both hold data, and else
  -- nothing. The shape is static just when the place of every member holds something.
  pub build_shape_lem :
      (ms : Members) (from : Shape A)
      → AllPlaced 0 ms
      → (ys : List (Option A)) × (build_shape ms from
          ≡ some (record { meta = ms; shape_members = some ys }))
        × (length ys ≡ length ms)
        × ((k : ℕ) → Holds from (slot ms k) (slot ys k))
        × ((is_static_shape (some ys) ≡ true) ↔ ((k : ℕ) → k < length ms → slot ys k ≢ none))
  unfolding build_shape is_static_shape
  build_shape_lem ms from p =
      let blank = replicate {A = Option A} (length ms) none in
      let len = length-replicate {A = Option A} (length ms) none in
      let (ys, eq, f) =
        fill-IsFilled from 0 ms blank p (omega (arith, len))
          (λ k. slot-replicate (length ms) (0 + k)) in
      let same = f.same_length ∙ len in
      (
        ys,
        rw (build_shape, eq) refl,
        same,
        (λ k.
            Holds-counterpart_at from (slot ms k) (slot ys k)
              (ap (slot ys) {x = k} {y = 0 + k} (omega arith) ∙ f.filled k)),
        (
          (λ e k h. all_present-slots ys e k (omega (arith, same, h))),
          λ all. slots-all_present ys (λ k h. all k (omega (arith, same, h))),
        ),
      )
