-- ===== src/RuntimeData/Objects/Written.antt =====
-- What `buildShapes` of src/semantics/ir/irmodule.ts writes.
use mathlib.Core.Option.{none-ne-some}
use mathlib.Core.Path.{subst}
use wasmnizer_ts.RuntimeData.{shapes_block}
use wasmnizer_ts.RuntimeData.Blocks.{HasBlock}
use wasmnizer_ts.RuntimeData.Objects.{DescriptionsMap, Shape, shape_member_words}
use wasmnizer_ts.RuntimeData.Objects.Shapes.{
  DescribedShapes, all_shapes, build_shapes, build_shapes-shapes_words, members_list, shapes_words,
}
use wasmnizer_ts.RuntimeData.Objects.Listing.{
  HaveWords, ListsShapes, ListsShapes-all_shapes, ShapeWords, a_shape, all_shapes-ListsShapes,
  no_shapes,
}
use wasmnizer_ts.RuntimeData.Objects.MemberWords.{
  Gives, length-HaveWords, member_words-Gives, member_words-of,
}
use wasmnizer_ts.GlobalContext.{GlobalContext, map_get}
use wasmnizer_ts.DataPool.{DataPool}
use wasmnizer_ts.DataPool.Bytes.{IsValid}
use wasmnizer_ts.Base.{
  List, Option-cases, [], ap, inl, inr, length, none, refl, some, sym, ℕ, ◌∙◌, ◌∷◌, ◌≡◌, ◌⊎◌,
}

shapes_words-Gives :
    (dm : DescriptionsMap) (ss : List Shape) (c : GlobalContext)
    → Gives (ShapeWords dm ss c) (shapes_words ss dm c)
unfolding shapes_words
shapes_words-Gives dm [] c = no_shapes
shapes_words-Gives dm (s ∷ ss) c = elim (Option-cases (map_get s.meta dm)) [
  | inl e ↦ rw (shapes_words, e) tt
  | inr (info, e) ↦ elim (Option-cases (shape_member_words (members_list s) c)) [
    | inl f ↦ rw (shapes_words, e, f) tt
    | inr ((ws, c1), f) ↦ elim (Option-cases (shapes_words ss dm c1)) [
      | inl g ↦ rw (shapes_words, e, f, g) tt
      | inr ((vs, c2), g) ↦
          let h =
            subst (Gives (HaveWords (members_list s) c)) f
              (member_words-Gives (members_list s) c) in
          rw (shapes_words, e, f, g, length-HaveWords h)
            (a_shape e h (subst (Gives (ShapeWords dm ss c1)) g (shapes_words-Gives dm ss c1)))
    ]
  ]
]

pub shapes_words-of :
    {dm : DescriptionsMap} {ss : List Shape} {c : GlobalContext} {ws : List ℕ} {c' : GlobalContext}
    → ShapeWords dm ss c ws c'
    → shapes_words ss dm c ≡ some (ws, c')
unfolding shapes_words
shapes_words-of no_shapes = refl
shapes_words-of (a_shape e h hs) =
    rw (shapes_words, e, member_words-of h, shapes_words-of hs, length-HaveWords h) refl

pub known_words :
    (dm : DescriptionsMap) (ss : List Shape) (c : GlobalContext) (ws : List ℕ) (c' : GlobalContext)
    → shapes_words ss dm c ≡ some (ws, c')
    → ShapeWords dm ss c ws c'
known_words dm ss c ws c' e = subst (Gives (ShapeWords dm ss c)) e (shapes_words-Gives dm ss c)

-- There are shapes to write and words for them.
abbrev pub HasShapeWords : List DescribedShapes → DescriptionsMap → GlobalContext → Type 0
HasShapeWords ds dm c =
    (ss : List Shape) × (ws : List ℕ) × (c' : GlobalContext) × ListsShapes ds ss
    × ShapeWords dm ss c ws c'

no_words :
    (ds : List DescribedShapes) (dm : DescriptionsMap) (c : GlobalContext)
    → shapes_words (all_shapes ds) dm c ≡ none
    → HasShapeWords ds dm c
    → ⊥
no_words ds dm c e (ss, ws, c', l, w) =
    none-ne-some (ws, c')
      (sym e
        ∙ ap (λ x. shapes_words x dm c) (sym (ListsShapes-all_shapes ds ss l))
        ∙ shapes_words-of w)

-- `buildShapes` on a valid pool throws just when there are no words for the shapes: one has no
-- description in the map, or a member of one refers to an unknown function. Otherwise it leaves a
-- valid pool with a block of shapes behind the old one, which counts the shapes: of each
-- description, in order, the origin and the this shape, if it has them, and the compatible ones.
-- The block holds, for each, the offset of its description, the number of its members and a word
-- for each member, with its kind in the low two bits and above them its shifted number, or two
-- numbers of 15 bits.
pub build_shapes_lem :
    (ds : List DescribedShapes) (dm : DescriptionsMap) (c : GlobalContext) (p : DataPool)
    → IsValid p
    → ((build_shapes ds dm c p ≡ none) × (¬ HasShapeWords ds dm c))
      ⊎ ((ss : List Shape) × (ws : List ℕ) × (c' : GlobalContext) × (q : DataPool) × ListsShapes ds
            ss
          × ShapeWords dm ss c ws c'
          × (build_shapes ds dm c p ≡ some (c', q))
          × HasBlock p q shapes_block (length ss) ws)
build_shapes_lem ds dm c p v = elim (build_shapes-shapes_words ds dm c p v) [
  | inl (e, f) ↦ inl (f, no_words ds dm c e)
  | inr (ws, c', q, e, f, b) ↦ inr (
    all_shapes ds,
    ws,
    c',
    q,
    all_shapes-ListsShapes ds,
    known_words dm (all_shapes ds) c ws c' e,
    f,
    b,
  )
]
