-- ===== src/RuntimeData/Objects/Listing.antt =====
-- About `buildShapes` of src/semantics/ir/irmodule.ts: which shapes and which words it has to
-- write.
use wasmnizer_ts.RuntimeData.Objects.{
  DescriptionsMap, ObjectDescriptionInfo, Shape, ShapeMember, Value, accessor_offsets,
  accessor_values, field, function_value, method_offset, method_value, other_value,
}
use wasmnizer_ts.RuntimeData.Objects.Shapes.{DescribedShapes, all_shapes, members_list, optional}
use wasmnizer_ts.GlobalContext.{GlobalContext, call_s, get_function_index, map_get}
use wasmnizer_ts.Base.{
  List, Option, [], length, none, refl, some, suc, ℕ, ◌%◌, ◌*◌, ◌++◌, ◌+◌, ◌^◌, ◌∷◌, ◌≡◌,
}

pub data IsOptional {ℓ} {A : Type ℓ} : Option A → List A → Type ℓ where
  is_absent : IsOptional none []
  is_present : {a : A} → IsOptional (some a) (a ∷ [])

-- The shapes that are written: of each description, in order, the origin shape and the this shape,
-- if it has them, and the compatible shapes.
pub data ListsShapes : List DescribedShapes → List Shape → Type 0 where
  no_descriptions : ListsShapes [] []
  a_description :
      {d : DescribedShapes} {ds : List DescribedShapes} {os ts ss : List Shape}
      → IsOptional d.origin os
      → IsOptional d.this ts
      → ListsShapes ds ss
      → ListsShapes (d ∷ ds) (os ++ (ts ++ (d.compatible ++ ss)))

-- A number plus one; 0 for no number and for the number 0.
pub data IsShifted : Option ℕ → ℕ → Type 0 where
  shifted_none : IsShifted none 0
  shifted_zero : IsShifted (some 0) 0
  shifted_positive : {n : ℕ} → IsShifted (some (suc n)) (suc n + 1)

-- The index of the function that a value refers to.
pub data HasIndex : Option Value → GlobalContext → Option ℕ → GlobalContext → Type 0 where
  of_function :
      {f i : ℕ} {c c' : GlobalContext}
      → get_function_index f call_s c ≡ some (i, c')
      → HasIndex (some (function_value f)) c (some i) c'
  of_other : {c : GlobalContext} → HasIndex (some other_value) c none c
  of_no_value : {c : GlobalContext} → HasIndex none c none c

-- The word of a member: its kind in the low two bits (0 for a hole and for a method's value, 1 for
-- an offset, 2 for an accessor), and above them the shifted number or, for an accessor, the two in
-- 15 bits each.
pub data HasWord : Option ShapeMember → GlobalContext → ℕ → GlobalContext → Type 0 where
  of_hole : {c : GlobalContext} → HasWord none c 0 c
  of_field :
      {o : Option ℕ} {n : ℕ} {c : GlobalContext}
      → IsShifted o n
      → HasWord (some (field o)) c (n * 4 % 2 ^ 32 + 1) c
  of_method_offset :
      {o : Option ℕ} {n : ℕ} {c : GlobalContext}
      → IsShifted o n
      → HasWord (some (method_offset o)) c (n * 4 % 2 ^ 32 + 1) c
  of_method_value :
      {v : Option Value} {o : Option ℕ} {n : ℕ} {c c' : GlobalContext}
      → HasIndex v c o c'
      → IsShifted o n
      → HasWord (some (method_value v)) c (n * 4 % 2 ^ 32 + 0) c'
  of_accessor_offsets :
      {g s : Option ℕ} {n m : ℕ} {c : GlobalContext}
      → IsShifted g n
      → IsShifted s m
      → HasWord
          (some (accessor_offsets g s))
          c
          ((n % 2 ^ 15 + m % 2 ^ 15 * 2 ^ 15) * 4 % 2 ^ 32 + 2)
          c
  of_accessor_values :
      {v w : Option Value} {g s : Option ℕ} {n m : ℕ} {c c1 c2 : GlobalContext}
      → HasIndex v c g c1
      → HasIndex w c1 s c2
      → IsShifted g n
      → IsShifted s m
      → HasWord
          (some (accessor_values v w))
          c
          ((n % 2 ^ 15 + m % 2 ^ 15 * 2 ^ 15) * 4 % 2 ^ 32 + 2)
          c2

pub data HaveWords
    : List (Option ShapeMember) → GlobalContext → List ℕ → GlobalContext → Type 0 where
  no_members : {c : GlobalContext} → HaveWords [] c [] c
  a_member :
      {m : Option ShapeMember} {ms : List (Option ShapeMember)} {w : ℕ} {ws : List ℕ}
      {c c1 c2 : GlobalContext}
      → HasWord m c w c1
      → HaveWords ms c1 ws c2
      → HaveWords (m ∷ ms) c (w ∷ ws) c2

-- The words of the shapes: each the offset of its description in the map, the number of its
-- members and their words.
pub data ShapeWords (dm : DescriptionsMap)
    : List Shape → GlobalContext → List ℕ → GlobalContext → Type 0 where
  no_shapes : {c : GlobalContext} → ShapeWords dm [] c [] c
  a_shape :
      {s : Shape} {ss : List Shape} {info : ObjectDescriptionInfo} {ws vs : List ℕ}
      {c c1 c2 : GlobalContext}
      → map_get s.meta dm ≡ some info
      → HaveWords (members_list s) c ws c1
      → ShapeWords dm ss c1 vs c2
      → ShapeWords dm (s ∷ ss) c (info.offset ∷ length (members_list s) ∷ (ws ++ vs)) c2

pub ListsShapes-all_shapes :
    (ds : List DescribedShapes) (ss : List Shape) → ListsShapes ds ss → ss ≡ all_shapes ds
unfolding all_shapes
ListsShapes-all_shapes [] _ no_descriptions = refl
ListsShapes-all_shapes (d ∷ ds) _ (a_description {os = os} {ts = ts} {ss = ss} o t l) =
    rw (listed d.origin os o, listed d.this ts t, ListsShapes-all_shapes ds ss l) refl
  where
    listed : (x : Option Shape) (xs : List Shape) → IsOptional x xs → xs ≡ optional x
    listed none _ is_absent = refl
    listed (some a) _ is_present = refl

pub all_shapes-ListsShapes : (ds : List DescribedShapes) → ListsShapes ds (all_shapes ds)
unfolding all_shapes
all_shapes-ListsShapes [] = no_descriptions
all_shapes-ListsShapes (d ∷ ds) =
    a_description (listed d.origin) (listed d.this) (all_shapes-ListsShapes ds)
  where
    listed : (x : Option Shape) → IsOptional x (optional x)
    listed none = is_absent
    listed (some a) = is_present
