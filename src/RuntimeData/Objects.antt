-- ===== src/RuntimeData/Objects.antt =====
-- src/semantics/ir/irmodule.ts, `buildObjectDescriptions` and `buildShapes`. The objects that are
-- keys of a map are numbers standing for their identities. Names that only a log shows are left
-- out. `none` stands for an exception.
pub mod Descriptions
pub mod Shapes
pub mod Listing
pub mod MemberWords
pub mod Written
use wasmnizer_ts.RuntimeData.{
  accessor_type, member_word, metas_block, method_type, no_param, offset_type, or_zero,
  update_header, write_header,
}
use wasmnizer_ts.GlobalContext.{GlobalContext, call_s, count, get_function_index, map_get, map_set}
use wasmnizer_ts.DataPool.{DataPool, add_int32, add_string}
use wasmnizer_ts.Base.{List, Option, [], length, none, some, ℕ, ◌%◌, ◌*◌, ◌+◌, ◌-◌, ◌^◌, ◌∷◌}

pub record Member : Type 0 where
  pub member_name : List ℕ
  pub member_type : ℕ
  pub member_index : ℕ

pub record DescriptionData : Type 0 where
  pub identity : ℕ
  pub description_name : List ℕ
  pub description_type : ℕ
  pub described : List Member

-- An `ObjectDescription` with its chain of bases, which ends.
pub data Description : Type 0 where
  root_description : DescriptionData → Description
  derived_description : DescriptionData → Description → Description

abbrev pub description_data : Description → DescriptionData
description_data (root_description d) = d
description_data (derived_description d b) = d

pub record MemberDescriptionInfo : Type 0 where
  pub name_offset : ℕ
  pub info_type : ℕ
  pub info_index : ℕ

-- Of `base` only the offset is read.
pub record ObjectDescriptionInfo : Type 0 where
  pub offset : ℕ
  pub description_name_offset : ℕ
  pub base_offset : Option ℕ
  pub flags : ℕ
  pub member_infos : List MemberDescriptionInfo

unfoldable pub add_member_names :
    List Member → DataPool → Option (List MemberDescriptionInfo × DataPool)
add_member_names [] p = some ([], p)
add_member_names (m ∷ ms) p = elim (add_string m.member_name p) [
  | none ↦ none
  | some (n, p1) ↦ elim (add_member_names ms p1) [
    | none ↦ none
    | some (is, p2) ↦ some (
      record { name_offset = n; info_type = m.member_type; info_index = m.member_index } ∷ is,
      p2,
    )
  ]
]

-- `(m.type << 16) | (m.index & 0xffff)`
unfoldable pub member_info_word : MemberDescriptionInfo → ℕ
member_info_word m = m.info_type * 2 ^ 16 % 2 ^ 32 + m.info_index % 2 ^ 16

unfoldable pub write_member_infos : List MemberDescriptionInfo → DataPool → DataPool
write_member_infos [] p = p
write_member_infos (m ∷ ms) p =
    write_member_infos ms (add_int32 (member_info_word m) (add_int32 m.name_offset p).1).1

-- The part of `buildObjectDescription` behind the names.
unfoldable pub write_description :
    ℕ → Option ℕ → ℕ → List MemberDescriptionInfo → DataPool → ObjectDescriptionInfo × DataPool
write_description name base flags ms p =
    let p1 = (add_int32 name p).1 in
    let p2 = (add_int32 (or_zero base) p1).1 in
    let p3 = (add_int32 flags p2).1 in
    let p4 = (add_int32 (length ms) p3).1 in
    (
      record {
        offset = p.size;
        description_name_offset = name;
        base_offset = base;
        flags = flags;
        member_infos = ms;
      },
      write_member_infos ms p4,
    )

unfoldable pub describe :
    DescriptionData → Option ℕ → DataPool → Option (ObjectDescriptionInfo × DataPool)
describe d base p = elim (add_string d.description_name p) [
  | none ↦ none
  | some (n, p1) ↦ elim (add_member_names d.described p1) [
    | none ↦ none
    | some (ms, p2) ↦ some (write_description n base d.description_type ms p2)
  ]
]

abbrev pub DescriptionsMap : Type 0
DescriptionsMap = List (ℕ × ObjectDescriptionInfo)

-- The description of a base is written without being entered in the map.
unfoldable pub build_object_description :
    Description → DescriptionsMap → DataPool → Option (ObjectDescriptionInfo × DataPool)
build_object_description (root_description d) m p = elim (map_get d.identity m) [
  | some info ↦ some (info, p)
  | none ↦ describe d none p
]
build_object_description (derived_description d b) m p =
    let base = build_object_description b m p in
    elim (map_get d.identity m) [
      | some info ↦ some (info, p)
      | none ↦ elim base [
        | none ↦ none
        | some (base_info, p1) ↦ describe d (some base_info.offset) p1
      ]
    ]

unfoldable pub describe_all :
    List Description → DescriptionsMap → DataPool → Option (DescriptionsMap × DataPool)
describe_all [] m p = some (m, p)
describe_all (d ∷ ds) m p = elim (build_object_description d m p) [
  | none ↦ none
  | some (info, p1) ↦ describe_all ds (map_set (description_data d).identity info m) p1
]

unfoldable pub build_object_descriptions :
    List Description → DescriptionsMap → DataPool → Option (DescriptionsMap × DataPool)
build_object_descriptions ds m p =
    let p1 = write_header (record { block_type = metas_block; count = 0; size = 0 }) p in
    elim (describe_all ds m p1) [
      | none ↦ none
      | some (m', p2) ↦ some (
        m',
        update_header
            (record { block_type = metas_block; count = length m'; size = p2.size - p1.size })
            (p1.size - 8) p2,
      )
    ]

-- A value of a member: a variable that refers to a function, or another value.
pub data Value : Type 0 where
  function_value : ℕ → Value
  other_value : Value

-- `ShapeMember` by its kind and storage.
pub data ShapeMember : Type 0 where
  field : Option ℕ → ShapeMember
  accessor_offsets : Option ℕ → Option ℕ → ShapeMember
  accessor_values : Option Value → Option Value → ShapeMember
  method_offset : Option ℕ → ShapeMember
  method_value : Option Value → ShapeMember

pub record Shape : Type 0 where
  pub meta : ℕ
  pub members : Option (List (Option ShapeMember))

unfoldable pub get_shape_value_index :
    Option Value → GlobalContext → Option (Option ℕ × GlobalContext)
get_shape_value_index (some (function_value f)) c = elim (get_function_index f call_s c) [
  | none ↦ none
  | some (i, c1) ↦ some (some i, c1)
]
get_shape_value_index _ c = some (none, c)

-- The word of one member; a hole has the word of `new ShapeMemberInfo(0)`.
unfoldable pub shape_member_word : Option ShapeMember → GlobalContext → Option (ℕ × GlobalContext)
shape_member_word none c = some (member_word method_type none, c)
shape_member_word (some (field o)) c =
    some (member_word offset_type (some (record no_param { offset = o })), c)
shape_member_word (some (accessor_offsets g s)) c =
    some (member_word accessor_type (some (record no_param { getter = g; setter = s })), c)
shape_member_word (some (accessor_values g s)) c = elim (get_shape_value_index g c) [
  | none ↦ none
  | some (gi, c1) ↦ elim (get_shape_value_index s c1) [
    | none ↦ none
    | some (si, c2) ↦
        some (member_word accessor_type (some (record no_param { getter = gi; setter = si })), c2)
  ]
]
shape_member_word (some (method_offset o)) c =
    some (member_word offset_type (some (record no_param { offset = o })), c)
shape_member_word (some (method_value v)) c = elim (get_shape_value_index v c) [
  | none ↦ none
  | some (i, c1) ↦ some (member_word method_type (some (record no_param { method = i })), c1)
]

unfoldable pub shape_member_words :
    List (Option ShapeMember) → GlobalContext → Option (List ℕ × GlobalContext)
shape_member_words [] c = some ([], c)
shape_member_words (m ∷ ms) c = elim (shape_member_word m c) [
  | none ↦ none
  | some (w, c1) ↦ elim (shape_member_words ms c1) [
    | none ↦ none
    | some (ws, c2) ↦ some (w ∷ ws, c2)
  ]
]

unfoldable pub write_values : List ℕ → DataPool → DataPool
write_values [] p = p
write_values (w ∷ ws) p = write_values ws (add_int32 w p).1

-- `saveShape`, with the new `info.offset`.
unfoldable pub save_shape : ℕ → List ℕ → DataPool → ℕ × DataPool
save_shape meta_offset ws p =
    (p.size, write_values ws (add_int32 (length ws) (add_int32 meta_offset p).1).1)
