-- ===== src/ObjectModel/Members.antt =====
-- `findFreeSlot` and `updateMember`.
use wasmnizer_ts.ObjectModel.{MemberInfo, Members, find_free_slot, free_from}
use wasmnizer_ts.ObjectModel.Arrays.{slot, slot-drop}
use wasmnizer_ts.Base.{
  [], ap, arith, drop, inl, inr, length, length-drop, none, refl, some, suc, sym, zero, ℕ, ◌+◌, ◌-◌,
  ◌<◌, ◌∙◌, ◌∷◌, ◌≡◌, ◌≤◌, ◌⊎◌,
}

-- A place of the array that holds nothing.
abbrev pub IsFree : Members → ℕ → Type 0
IsFree ms i = (i < length ms) × (slot ms i ≡ none)

-- The first free place from `start` on.
pub record IsLeastFree (ms : Members) (start : ℕ) (k : ℕ) : Type 0 where
  pub from_start : start ≤ k
  pub is_free : IsFree ms k
  pub all_before : (j : ℕ) → start ≤ j → j < k → ¬ IsFree ms j

-- No place is free from `start` on.
abbrev pub NoneFree : Members → ℕ → Type 0
NoneFree ms start = (j : ℕ) → start ≤ j → ¬ IsFree ms j

abbrev NoneBefore : Members → ℕ → Type 0
NoneBefore ms k = (j : ℕ) → j < k → ¬ IsFree ms j

NoneBefore-cons :
    (m : MemberInfo) (ms : Members) (k : ℕ) → NoneBefore ms k → NoneBefore (some m ∷ ms) (suc k)
unfolding slot
NoneBefore-cons m ms k b zero h (f, e) = cc
NoneBefore-cons m ms k b (suc j) h (f, e) = b j (omega arith) (omega arith, e)

NoneFree-cons : (m : MemberInfo) (ms : Members) → NoneFree ms 0 → NoneFree (some m ∷ ms) 0
unfolding slot
NoneFree-cons m ms b zero h (f, e) = cc
NoneFree-cons m ms b (suc j) h (f, e) = b j (omega arith) (omega arith, e)

free_from_cases :
    (s : ℕ) (ms : Members)
    → ((i : ℕ) × (free_from s ms ≡ some (s + i)) × IsFree ms i × NoneBefore ms i)
      ⊎ ((free_from s ms ≡ none) × NoneFree ms 0)
unfolding free_from slot
free_from_cases s [] = inr (refl, λ j h f. omega (arith, f.0))
free_from_cases s (none ∷ ms) =
    inl (0, ap some (omega arith), (omega arith, refl), λ j h f. omega arith)
free_from_cases s (some m ∷ ms) = elim (free_from_cases (s + 1) ms) [
  | inl (i, e, f, b) ↦
      inl (suc i, e ∙ ap some (omega arith), (omega (arith, f.0), f.1), NoneBefore-cons m ms i b)
  | inr (e, b) ↦ inr (e, NoneFree-cons m ms b)
]

IsFree-drop : (n : ℕ) (ms : Members) (i : ℕ) → IsFree (drop n ms) i → IsFree ms (n + i)
IsFree-drop n ms i (f, e) = (omega (arith, length-drop n ms, f), sym (slot-drop n ms i) ∙ e)

drop-IsFree : (n : ℕ) (ms : Members) (j : ℕ) → n ≤ j → IsFree ms j → IsFree (drop n ms) (j - n)
drop-IsFree n ms j h (f, e) = (
  omega (arith, length-drop n ms, f, h),
  slot-drop n ms (j - n) ∙ ap (slot ms) {x = n + (j - n)} {y = j} (omega arith) ∙ e,
)

-- `findFreeSlot` either returns the first free place from `start` on, or throws, and then no place
-- from `start` on is free.
pub find_free_slot_lem :
    (ms : Members) (start : ℕ)
    → ((k : ℕ) × (find_free_slot ms start ≡ some k) × IsLeastFree ms start k)
      ⊎ ((find_free_slot ms start ≡ none) × NoneFree ms start)
unfolding find_free_slot
find_free_slot_lem ms start = elim (free_from_cases start (drop start ms)) [
  | inl (i, e, f, b) ↦ inl (
    start + i,
    e,
    record {
      from_start = omega arith;
      is_free = IsFree-drop start ms i f;
      all_before = λ j a c d. b (j - start) (omega arith) (drop-IsFree start ms j a d);
    },
  )
  | inr (e, b) ↦ inr (e, λ j a d. b (j - start) (omega arith) (drop-IsFree start ms j a d))
]
