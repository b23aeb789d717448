-- ===== src/ObjectModel/Updates.antt =====
-- `updateMember`: where the new member stands, and what it leaves as it was.
use mathlib.Core.Path.{subst}
use mathlib.Core.Option.{some-injective, none-ne-some}
use wasmnizer_ts.ObjectModel.{
  MemberInfo, Members, NewMember, find_from, find_member, mark_overrid, member_of, put,
  super_member, update_member,
}
use wasmnizer_ts.ObjectModel.Members.{IsLeastFree, NoneFree, find_free_slot_lem}
use wasmnizer_ts.ObjectModel.Arrays.{slot, slot-put_ne, slot-put_self}
use wasmnizer_ts.Base.{
  ==_iff, Bool-cases, Option, [], ap, arith, dec_lt, false, if◌then◌else◌, inl, inr, none, refl,
  some, suc, sym, true, zero-add, ℕ, ℕ_discrete, ◌+◌, ◌<◌, ◌==◌, ◌∙◌, ◌∷◌, ◌≡◌, ◌≢◌, ◌⊎◌,
}

-- What `findMember` found: the member, at its place, has the name; and a member of the same name
-- put at this place is found there.
record IsFound (start n : ℕ) (ms : Members) (k : ℕ) (s : MemberInfo) : Type 0 where
  place : ℕ
  counted : k ≡ start + place
  holds : slot ms place ≡ some s
  same_name : s.name ≡ n
  found_again : (m : MemberInfo) → m.name ≡ n → find_from start n (put ms place m) ≡ some (k, m)

IsFound-later :
    (start n : ℕ) (x : Option MemberInfo) (ms : Members) (k : ℕ) (s : MemberInfo)
    → ((ys : Members) → find_from start n (x ∷ ys) ≡ find_from (start + 1) n ys)
    → IsFound (start + 1) n ms k s
    → IsFound start n (x ∷ ms) k s
unfolding slot put
IsFound-later start n x ms k s step f = record {
  place = suc f.place;
  counted = omega (arith, f.counted);
  holds = f.holds;
  same_name = f.same_name;
  found_again = λ m e. step (put ms f.place m) ∙ f.found_again m e;
}

abbrev found : ℕ → MemberInfo → Option (ℕ × MemberInfo)
found k s = some (k, s)

IsFound-here :
    (start n : ℕ) (m : MemberInfo) (ms : Members) (k : ℕ) (s : MemberInfo)
    → m.name ≡ n
    → found start m ≡ found k s
    → IsFound start n (some m ∷ ms) k s
unfolding find_from slot put
IsFound-here start n m ms k s named e =
    let p = some-injective (start, m) (k, s) e in
    record {
      place = 0;
      counted = omega (arith, ap (λ q. q.0) p);
      holds = ap some (ap (λ q. q.1) p);
      same_name = ap (λ (q : ℕ × MemberInfo). q.1.name) (sym p) ∙ named;
      found_again = λ t h.
          rw (find_from, (==_iff t.name n).1 h) (ap (λ (j : ℕ). found j t) (ap (λ q. q.0) p));
    }

find_from-hit :
    (start n : ℕ) (m : MemberInfo) (ms : Members)
    → (m.name == n) ≡ true
    → find_from start n (some m ∷ ms) ≡ found start m
unfolding find_from
find_from-hit start n m ms b = rw (find_from, b) refl

find_from-miss :
    (start n : ℕ) (m : MemberInfo) (ms : Members)
    → (m.name == n) ≡ false
    → find_from start n (some m ∷ ms) ≡ find_from (start + 1) n ms
unfolding find_from
find_from-miss start n m ms b = rw (find_from, b) refl

find_from-IsFound :
    (start n : ℕ) (ms : Members) (k : ℕ) (s : MemberInfo)
    → find_from start n ms ≡ found k s
    → IsFound start n ms k s
unfolding find_from slot put
find_from-IsFound start n [] k s e = absurd (none-ne-some (k, s) e)
find_from-IsFound start n (none ∷ ms) k s e =
    IsFound-later start n none ms k s (λ ys. refl) (find_from-IsFound (start + 1) n ms k s e)
find_from-IsFound start n (some m ∷ ms) k s e = elim (Bool-cases (m.name == n)) [
  | inl b ↦
      IsFound-here start n m ms k s ((==_iff m.name n).0 b) (sym (find_from-hit start n m ms b) ∙ e)
  | inr b ↦
      IsFound-later start n (some m) ms k s (λ ys. find_from-miss start n m ys b)
        (find_from-IsFound (start + 1) n ms k s (sym (find_from-miss start n m ms b) ∙ e))
]

-- Every member stands at its index.
abbrev pub IsPlaced : Members → Type 0
IsPlaced ms = (k : ℕ) (m : MemberInfo) → slot ms k ≡ some m → m.index ≡ k

IsPlaced-put :
    (ms : Members) (i : ℕ) (m : MemberInfo) → IsPlaced ms → m.index ≡ i → IsPlaced (put ms i m)
IsPlaced-put ms i m placed e k t h = elim (ℕ_discrete i k) [
  | yes same ↦
      ap (λ (u : MemberInfo). u.index)
        (some-injective t m (sym h ∙ ap (slot (put ms i m)) (sym same) ∙ slot-put_self ms i m))
      ∙ e
      ∙ same
  | no other ↦ placed k t (sym (slot-put_ne ms i k m other) ∙ h)
]

-- The new member stands at its place and every other place holds what it did.
pub record IsWritten (before after : Members) (place : ℕ) (m : MemberInfo) : Type 0 where
  pub written : slot after place ≡ some m
  pub others : (j : ℕ) → place ≢ j → slot after j ≡ slot before j

put-IsWritten : (ms : Members) (i : ℕ) (m : MemberInfo) → IsWritten ms (put ms i m) i m
put-IsWritten ms i m = record {
  written = slot-put_self ms i m;
  others = λ j n. slot-put_ne ms i j m n;
}

super_member-other :
    (constructor_name n : ℕ) (bs : Members)
    → (n == constructor_name) ≡ false
    → super_member constructor_name n (some bs) ≡ find_member n bs
unfolding super_member
super_member-other constructor_name n bs b = rw (super_member, b) refl

super_member-constructor :
    (constructor_name n : ℕ) (bs : Members)
    → (n == constructor_name) ≡ true
    → super_member constructor_name n (some bs) ≡ none
unfolding super_member
super_member-constructor constructor_name n bs b = rw (super_member, b) refl

-- A base member found is at its place, and found again when marked.
super_member-marked :
    (constructor_name n : ℕ) (bs : Members) (k : ℕ) (s : MemberInfo)
    → super_member constructor_name n (some bs) ≡ found k s
    → (slot bs k ≡ some s)
      × (super_member constructor_name n (some (put bs k (mark_overrid s)))
          ≡ found k (mark_overrid s))
unfolding mark_overrid
super_member-marked constructor_name n bs k s e = elim (Bool-cases (n == constructor_name)) [
  | inl b ↦
      absurd (none-ne-some (k, s) (sym (super_member-constructor constructor_name n bs b) ∙ e))
  | inr b ↦
      let f = find_from-IsFound 0 n bs k s (sym (super_member-other constructor_name n bs b) ∙ e) in
      let at = f.counted ∙ zero-add f.place in
      (
        ap (slot bs) at ∙ f.holds,
        super_member-other constructor_name n (put bs k (mark_overrid s)) b
            ∙ ap (λ (j : ℕ). find_member n (put bs j (mark_overrid s))) at
            ∙ f.found_again (mark_overrid s) f.same_name,
      )
]

-- What `updateMember` does to a member that the base has, too, where the members of the base and
-- of the class stand at their indices: the new member, of the name asked for, stands at the place
-- of the base's member, every other place is as it was, the members still stand at their indices,
-- and the base, in which only that member is marked, finds a member of the same index by that name
-- again.
pub update_member-override :
    (constructor_name i : ℕ) (a : NewMember) (ms bs : Members) (k : ℕ) (s : MemberInfo)
    → IsPlaced ms
    → IsPlaced bs
    → super_member constructor_name a.new_name (some bs) ≡ some (k, s)
    → (m : MemberInfo) × (ms' : Members) × (update_member constructor_name a i
          (record { members = ms; base_members = some bs })
        ≡ some (m, record { members = ms'; base_members = some (put bs k (mark_overrid s)) }))
      × (m.name ≡ a.new_name)
      × IsWritten ms ms' k m
      × IsPlaced ms'
      × IsWritten bs (put bs k (mark_overrid s)) k (mark_overrid s)
      × (super_member constructor_name a.new_name (some (put bs k (mark_overrid s)))
          ≡ some (k, mark_overrid s))
unfolding update_member
update_member-override constructor_name i a ms bs k s placed base_placed e =
    let (at, again) = super_member-marked constructor_name a.new_name bs k s e in
    let same = base_placed k s at in
    let m =
      member_of a s.index (if a.new_own then a.new_method_or_accessor else s.method_or_accessor) in
    (
      m,
      put ms s.index m,
      rw (update_member, e) refl,
      refl,
      subst (λ (j : ℕ). IsWritten ms (put ms s.index m) j m) same (put-IsWritten ms s.index m),
      IsPlaced-put ms s.index m placed refl,
      put-IsWritten bs k (mark_overrid s),
      again,
    )

IsPlaced-or_later :
    (ms : Members) (i k : ℕ) (m : MemberInfo)
    → IsPlaced ms
    → m.index ≡ i
    → IsLeastFree ms i k
    → IsPlaced (put ms k m) ⊎ (i < k)
IsPlaced-or_later ms i k m placed at least = elim (dec_lt i k) [
  | yes before ↦ inr before
  | no h ↦ inl (IsPlaced-put ms k m placed (omega (arith, at, least.from_start)))
]

-- What `updateMember` does with a member that the base lacks, where the members stand at their
-- indices: it throws exactly when no place of the array is free from the one asked for on.
-- Otherwise the new member, of the name and with the index asked for, stands at the first such
-- free place, every other place is as it was, and the base is unchanged; then either the members
-- still stand at their indices or the place is behind the one asked for.
pub update_member-fresh :
    (constructor_name i : ℕ) (a : NewMember) (ms : Members) (base : Option Members)
    → IsPlaced ms
    → super_member constructor_name a.new_name base ≡ none
    → ((update_member constructor_name a i (record { members = ms; base_members = base }) ≡ none)
        × NoneFree ms i)
      ⊎ ((k : ℕ) × (m : MemberInfo) × (ms' : Members) × (update_member constructor_name a i
              (record { members = ms; base_members = base })
            ≡ some (m, record { members = ms'; base_members = base }))
          × (m.name ≡ a.new_name)
          × (m.index ≡ i)
          × IsLeastFree ms i k
          × IsWritten ms ms' k m
          × (IsPlaced ms' ⊎ (i < k)))
unfolding update_member
update_member-fresh constructor_name i a ms base placed e = elim (find_free_slot_lem ms i) [
  | inr (f, none_free) ↦ inl (rw (update_member, e, f) refl, none_free)
  | inl (k, f, least) ↦
      let m = member_of a i a.new_method_or_accessor in
      inr (
        k,
        m,
        put ms k m,
        rw (update_member, e, f) refl,
        refl,
        refl,
        least,
        put-IsWritten ms k m,
        IsPlaced-or_later ms i k m placed refl least,
      )
]
