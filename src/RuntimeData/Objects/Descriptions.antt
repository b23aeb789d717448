-- ===== src/RuntimeData/Objects/Descriptions.antt =====
-- The words of an object description, as they are read back.
use mathlib.Core.Path.{subst}
use wasmnizer_ts.RuntimeData.{or_zero}
use wasmnizer_ts.RuntimeData.Words.{
  add_words, add_words-IsValid, low_words, read_words, read_words-add_words,
}
use wasmnizer_ts.RuntimeData.Objects.{
  DescriptionData, Member, MemberDescriptionInfo, ObjectDescriptionInfo, add_member_names, describe,
  member_info_word, write_description, write_member_infos,
}
use wasmnizer_ts.DataPool.{DataPool, add_string}
use wasmnizer_ts.DataPool.Bytes.{IsValid}
use wasmnizer_ts.Base.{
  List, Option, [], ap, arith, length, none, refl, some, suc, sym, zero, ℕ, ◌%◌, ◌*◌, ◌+◌, ◌/◌, ◌<◌,
  ◌^◌, ◌∙◌, ◌∷◌, ◌≡◌,
}

abbrev pub info_words : List MemberDescriptionInfo → List ℕ
info_words [] = []
info_words (m ∷ ms) = m.name_offset ∷ member_info_word m ∷ info_words ms

abbrev pub description_words : ℕ → Option ℕ → ℕ → List MemberDescriptionInfo → List ℕ
description_words name base flags ms = name ∷ or_zero base ∷ flags ∷ length ms ∷ info_words ms

write_member_infos-words :
    (ms : List MemberDescriptionInfo) (p : DataPool)
    → write_member_infos ms p ≡ add_words (info_words ms) p
unfolding write_member_infos add_words
write_member_infos-words [] p = refl
write_member_infos-words (m ∷ ms) p = write_member_infos-words ms _

write_description-words :
    (name : ℕ) (base : Option ℕ) (flags : ℕ) (ms : List MemberDescriptionInfo) (p : DataPool)
    → (write_description name base flags ms p).1
      ≡ add_words (description_words name base flags ms) p
unfolding write_description add_words
write_description-words name base flags ms p = write_member_infos-words ms _

pub record ReadDescription : Type 0 where
  pub read_name : ℕ
  pub read_base : ℕ
  pub read_flags : ℕ
  pub read_members : List MemberDescriptionInfo

unfoldable pub parse_members : ℕ → List ℕ → Option (List MemberDescriptionInfo)
parse_members zero ws = some []
parse_members (suc n) [] = none
parse_members (suc n) (a ∷ []) = none
parse_members (suc n) (a ∷ b ∷ ws) = elim (parse_members n ws) [
  | none ↦ none
  | some ms ↦
      some (record { name_offset = a; info_type = b / 2 ^ 16; info_index = b % 2 ^ 16 } ∷ ms)
]

-- Four words, the last of them the number of members, and the members.
unfoldable pub parse_description : List ℕ → Option ReadDescription
parse_description (a ∷ b ∷ f ∷ n ∷ ws) = elim (parse_members n ws) [
  | none ↦ none
  | some ms ↦ some (record { read_name = a; read_base = b; read_flags = f; read_members = ms })
]
parse_description _ = none

pub data AreNarrow : List MemberDescriptionInfo → Type 0 where
  no_narrow : AreNarrow []
  narrow_info :
      {m : MemberDescriptionInfo} {ms : List MemberDescriptionInfo}
      → m.name_offset < 2 ^ 32
      → m.info_type < 2 ^ 16
      → m.info_index < 2 ^ 16
      → AreNarrow ms
      → AreNarrow (m ∷ ms)

abbrev info_of : ℕ → ℕ → ℕ → MemberDescriptionInfo
info_of a t i = record { name_offset = a; info_type = t; info_index = i }

info-eq :
    (m : MemberDescriptionInfo) (a t i : ℕ)
    → a ≡ m.name_offset
    → t ≡ m.info_type
    → i ≡ m.info_index
    → info_of a t i ≡ m
info-eq m a t i ea et ei = cc

parse_members-info_words :
    (ms : List MemberDescriptionInfo)
    → AreNarrow ms
    → parse_members (length ms) (low_words (info_words ms)) ≡ some ms
unfolding parse_members member_info_word
parse_members-info_words [] s = refl
parse_members-info_words (m ∷ ms) (narrow_info a t i s) =
    rw (parse_members, parse_members-info_words ms s)
      (ap (λ (x : MemberDescriptionInfo). some (x ∷ ms))
        (info-eq m _ _ _ (omega (arith, a)) (omega (arith, t, i)) (omega (arith, t, i))))

low_word : (k : ℕ) → k < 2 ^ 32 → k % 2 ^ 32 ≡ k
low_word k h = omega arith

parse_description-words :
    (name : ℕ) (base : Option ℕ) (flags : ℕ) (ms : List MemberDescriptionInfo)
    → name < 2 ^ 32
    → or_zero base < 2 ^ 32
    → flags < 2 ^ 32
    → length ms < 2 ^ 32
    → AreNarrow ms
    → parse_description (low_words (description_words name base flags ms))
      ≡ some (record {
        read_name = name;
        read_base = or_zero base;
        read_flags = flags;
        read_members = ms;
      })
unfolding parse_description
parse_description-words name base flags ms a b f n s =
    rw
      (
        parse_description,
        low_word (length ms) n,
        parse_members-info_words ms s,
        low_word name a,
        low_word (or_zero base) b,
        low_word flags f,
      )
      refl

length-info_words : (ms : List MemberDescriptionInfo) → length (info_words ms) ≡ length ms * 2
length-info_words [] = omega arith
length-info_words (m ∷ ms) = omega (arith, length-info_words ms)

offset-write_description :
    (name : ℕ) (base : Option ℕ) (flags : ℕ) (ms : List MemberDescriptionInfo) (p : DataPool)
    → (write_description name base flags ms p).0.offset ≡ p.size
unfolding write_description
offset-write_description name base flags ms p = refl

read-described :
    (name : ℕ) (base : Option ℕ) (flags : ℕ) (ms : List MemberDescriptionInfo) (p q : DataPool)
    (off : ℕ)
    → IsValid p
    → q ≡ add_words (description_words name base flags ms) p
    → off ≡ p.size
    → read_words q off (length ms * 2 + 4) ≡ low_words (description_words name base flags ms)
read-described name base flags ms p q off v e o =
    let ws = description_words name base flags ms in
    let l : length ms * 2 + 4 ≡ length ws = omega (arith, length-info_words ms) in
    ap (λ (x : DataPool). read_words x off (length ms * 2 + 4)) e
    ∙ ap (read_words (add_words ws p) off) l
    ∙ read_words-add_words ws p off v o

-- The names of the members are stored one after the other, from the first pool to the last; each
-- info has the offset of its member's name, and the member's type and index.
pub data StoresNames : List Member → DataPool → List MemberDescriptionInfo → DataPool → Type 0 where
  no_names : {p : DataPool} → StoresNames [] p [] p
  a_name :
      {m : Member} {ms : List Member} {p p1 p2 : DataPool} {info : MemberDescriptionInfo}
      {infos : List MemberDescriptionInfo}
      → add_string m.member_name p ≡ some (info.name_offset, p1)
      → info.info_type ≡ m.member_type
      → info.info_index ≡ m.member_index
      → StoresNames ms p1 infos p2
      → StoresNames (m ∷ ms) p (info ∷ infos) p2

StoresNames-add_member_names :
    (ms : List Member) (p : DataPool) (infos : List MemberDescriptionInfo) (q : DataPool)
    → StoresNames ms p infos q
    → add_member_names ms p ≡ some (infos, q)
unfolding add_member_names
StoresNames-add_member_names _ _ _ _ (no_names {p}) = refl
StoresNames-add_member_names _ _ _ _ (a_name {m} {ms} {p} {p1} {p2} {info} {infos} e t i s) =
    rw (add_member_names, e, StoresNames-add_member_names ms p1 infos p2 s)
      (ap (λ (x : MemberDescriptionInfo). some (x ∷ infos, p2))
        (info-eq info _ _ _ refl (sym t) (sym i)))

-- Once the name of a class and, in order, those of its members are stored, in a pool that is valid
-- then, and the offsets fit 32 bits and the types and indices of the members 16,
-- `buildObjectDescription` returns a description whose offset is the size of that pool. What is
-- read there is the name's offset, that of the base (0 for none), the type and, in order, the
-- members with the offsets of their names, their types and indices.
pub describe_lem :
    (d : DescriptionData) (base : Option ℕ) (p : DataPool) {n : ℕ} {p1 p2 : DataPool}
    {infos : List MemberDescriptionInfo}
    → add_string d.description_name p ≡ some (n, p1)
    → StoresNames d.described p1 infos p2
    → IsValid p2
    → n < 2 ^ 32
    → or_zero base < 2 ^ 32
    → d.description_type < 2 ^ 32
    → length infos < 2 ^ 32
    → AreNarrow infos
    → (info : ObjectDescriptionInfo) × (q : DataPool) × (describe d base p ≡ some (info, q))
      × (info.offset ≡ p2.size)
      × IsValid q
      × (parse_description (read_words q info.offset (length infos * 2 + 4))
          ≡ some (record {
            read_name = n;
            read_base = or_zero base;
            read_flags = d.description_type;
            read_members = infos;
          }))
unfolding describe
describe_lem d base p {n} {p1} {p2} {infos} named members v a b f l s =
    let stored = StoresNames-add_member_names d.described p1 infos p2 members in
    let ws = description_words n base d.description_type infos in
    let written = write_description-words n base d.description_type infos p2 in
    let (info, q) = write_description n base d.description_type infos p2 in
    (
      info,
      q,
      rw (describe, named, stored) refl,
      offset-write_description n base d.description_type infos p2,
      subst IsValid (sym written) (add_words-IsValid ws p2 v),
      ap parse_description (
            read-described n base d.description_type infos p2 q info.offset v written
              (offset-write_description n base d.description_type infos p2))
          ∙ parse_description-words n base d.description_type infos a b f l s,
    )
