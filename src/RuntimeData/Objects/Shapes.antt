-- ===== src/RuntimeData/Objects/Shapes.antt =====
-- `buildShapes`: the block of shapes. The map of the shapes built, which nothing here reads, is
-- left out; a shape that is its description's origin shape and its this shape is built twice.
use wasmnizer_ts.RuntimeData.{shapes_block, update_header, write_header}
use wasmnizer_ts.DataPool.Bytes.{IsValid}
use wasmnizer_ts.RuntimeData.Words.{add_words, add_words-append}
use wasmnizer_ts.RuntimeData.Blocks.{HasBlock, empty_header, full_header, write_block-HasBlock}
use wasmnizer_ts.RuntimeData.Objects.{
  DescriptionsMap, Shape, ShapeMember, save_shape, shape_member_words, write_values,
}
use wasmnizer_ts.GlobalContext.{GlobalContext, map_get}
use wasmnizer_ts.DataPool.{DataPool}
use wasmnizer_ts.Base.{
  List, Option, Option-cases, [], ap, inl, inr, length, none, refl, some, sym, ℕ, ◌++◌, ◌-◌, ◌∙◌,
  ◌∷◌, ◌≡◌, ◌⊎◌,
}

abbrev pub members_list : Shape → List (Option ShapeMember)
members_list s = elim s.members [ none ↦ [] | some ms ↦ ms ]

unfoldable pub build_shape :
    Shape → DescriptionsMap → GlobalContext → DataPool → Option (GlobalContext × DataPool)
build_shape s dm c p = elim (map_get s.meta dm) [
  | none ↦ none
  | some info ↦ elim (shape_member_words (members_list s) c) [
    | none ↦ none
    | some (ws, c') ↦ some (c', (save_shape info.offset ws p).1)
  ]
]

-- The shapes of one description; the compatible ones in insertion order.
pub record DescribedShapes : Type 0 where
  pub origin : Option Shape
  pub this : Option Shape
  pub compatible : List Shape

abbrev pub optional : Option Shape → List Shape
optional none = []
optional (some s) = s ∷ []

unfoldable pub all_shapes : List DescribedShapes → List Shape
all_shapes [] = []
all_shapes (d ∷ ds) = optional d.origin ++ (optional d.this ++ (d.compatible ++ all_shapes ds))

unfoldable pub build_each :
    List Shape → DescriptionsMap → GlobalContext → DataPool → Option (GlobalContext × DataPool)
build_each [] dm c p = some (c, p)
build_each (s ∷ ss) dm c p = elim (build_shape s dm c p) [
  | none ↦ none
  | some (c1, p1) ↦ build_each ss dm c1 p1
]

unfoldable pub build_shapes :
    List DescribedShapes
    → DescriptionsMap
    → GlobalContext
    → DataPool
    → Option (GlobalContext × DataPool)
build_shapes ds dm c p =
    let p1 = write_header (empty_header shapes_block) p in
    elim (build_each (all_shapes ds) dm c p1) [
      | none ↦ none
      | some (c', p2) ↦ some (
        c',
        update_header (full_header shapes_block (length (all_shapes ds)) (p2.size - p1.size))
            (p1.size - 8) p2,
      )
    ]

-- The words of the shapes, without the pool: each the offset of its description, the number of its
-- members and their words.
unfoldable pub shapes_words :
    List Shape → DescriptionsMap → GlobalContext → Option (List ℕ × GlobalContext)
shapes_words [] dm c = some ([], c)
shapes_words (s ∷ ss) dm c = elim (map_get s.meta dm) [
  | none ↦ none
  | some info ↦ elim (shape_member_words (members_list s) c) [
    | none ↦ none
    | some (ws, c1) ↦ elim (shapes_words ss dm c1) [
      | none ↦ none
      | some (vs, c2) ↦ some (info.offset ∷ length ws ∷ (ws ++ vs), c2)
    ]
  ]
]

write_values-add_words : (ws : List ℕ) (p : DataPool) → write_values ws p ≡ add_words ws p
unfolding write_values add_words
write_values-add_words [] p = refl
write_values-add_words (w ∷ ws) p = write_values-add_words ws _

save_shape-add_words :
    (meta : ℕ) (ws : List ℕ) (p : DataPool)
    → (save_shape meta ws p).1 ≡ add_words (meta ∷ length ws ∷ ws) p
unfolding save_shape add_words
save_shape-add_words meta ws p = write_values-add_words ws _

-- The pool that the words leave.
abbrev add_all : DataPool → Option (List ℕ × GlobalContext) → Option (GlobalContext × DataPool)
add_all p none = none
add_all p (some (ws, c)) = some (c, add_words ws p)

add_all-shape :
    (meta : ℕ) (ws : List ℕ) (p : DataPool) (o : Option (List ℕ × GlobalContext))
    → add_all (add_words (meta ∷ length ws ∷ ws) p) o
      ≡ add_all p (elim o as (λ o. Option (List ℕ × GlobalContext)) [
        | none ↦ none
        | some (vs, c) ↦ some (meta ∷ length ws ∷ (ws ++ vs), c)
      ])
add_all-shape meta ws p none = refl
add_all-shape meta ws p (some (vs, c)) =
    ap (λ (q : DataPool). some (c, q)) (sym (add_words-append (meta ∷ length ws ∷ ws) vs p))

build_each-words :
    (ss : List Shape) (dm : DescriptionsMap) (c : GlobalContext) (p : DataPool)
    → build_each ss dm c p ≡ add_all p (shapes_words ss dm c)
unfolding build_each shapes_words build_shape add_words
build_each-words [] dm c p = refl
build_each-words (s ∷ ss) dm c p = elim (Option-cases (map_get s.meta dm)) [
  | inl e ↦ rw (build_each, build_shape, shapes_words, e) refl
  | inr (info, e) ↦ elim (Option-cases (shape_member_words (members_list s) c)) [
    | inl f ↦ rw (build_each, build_shape, shapes_words, e, f) refl
    | inr ((ws, c1), f) ↦
        rw (build_each, build_shape, shapes_words, e, f)
          (ap (build_each ss dm c1) (save_shape-add_words info.offset ws p)
            ∙ build_each-words ss dm c1 (add_words (info.offset ∷ length ws ∷ ws) p)
            ∙ add_all-shape info.offset ws p (shapes_words ss dm c1))
  ]
]

-- `buildShapes` on a valid pool, by the words of its shapes.
pub build_shapes-shapes_words :
    (ds : List DescribedShapes) (dm : DescriptionsMap) (c : GlobalContext) (p : DataPool)
    → IsValid p
    → ((shapes_words (all_shapes ds) dm c ≡ none) × (build_shapes ds dm c p ≡ none))
      ⊎ ((ws : List ℕ) × (c' : GlobalContext) × (q : DataPool) × (shapes_words (all_shapes ds) dm c
            ≡ some (ws, c'))
          × (build_shapes ds dm c p ≡ some (c', q))
          × HasBlock p q shapes_block (length (all_shapes ds)) ws)
unfolding build_shapes
build_shapes-shapes_words ds dm c p v =
    let p1 = write_header (empty_header shapes_block) p in
    let e = build_each-words (all_shapes ds) dm c p1 in
    elim (Option-cases (shapes_words (all_shapes ds) dm c)) [
      | inl none_known ↦ inl (none_known, rw (build_shapes, e, none_known) refl)
      | inr ((ws, c'), known) ↦ inr (
        ws,
        c',
        update_header
            (full_header shapes_block (length (all_shapes ds)) ((add_words ws p1).size - p1.size))
            (p1.size - 8) (add_words ws p1),
        known,
        rw (build_shapes, e, known) refl,
        write_block-HasBlock shapes_block (length (all_shapes ds)) ws p (add_words ws) v
            (λ p1. refl),
      )
    ]
