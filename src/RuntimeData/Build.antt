-- ===== src/RuntimeData/Build.antt =====
-- `RuntimeData.build`: the four tables, one behind the other. The metas give the descriptions and
-- the shapes.
use wasmnizer_ts.RuntimeData.{build_externs, exports_block, imports_block, shapes_block}
use wasmnizer_ts.RuntimeData.Words.{low_words, read_words}
use wasmnizer_ts.RuntimeData.Blocks.{HasBlock}
use wasmnizer_ts.RuntimeData.Reader.{AllSmall, as_read, module_words, parse_modules}
use wasmnizer_ts.RuntimeData.Externs.{build_externs_lem}
use wasmnizer_ts.RuntimeData.Objects.{Description, DescriptionsMap, build_object_descriptions}
use wasmnizer_ts.RuntimeData.Objects.Shapes.{
  DescribedShapes, all_shapes, build_shapes, build_shapes-shapes_words, shapes_words,
}
use wasmnizer_ts.GlobalContext.{GlobalContext}
use wasmnizer_ts.GlobalContext.Externs.{RuntimeExternModule}
use wasmnizer_ts.DataPool.{DataPool}
use wasmnizer_ts.DataPool.Bytes.{IsValid}
use wasmnizer_ts.DataPool.Words.{word_at}
use wasmnizer_ts.Base.{
  List, Option, [], ap, arith, false, inl, inr, length, none, refl, some, suc, true, zero, ℕ, ◌*◌,
  ◌+◌, ◌∙◌, ◌≡◌, ◌≤◌, ◌⊎◌,
}

-- What `build` reads of `RuntimeData`.
pub record Tables : Type 0 where
  pub descriptions : List Description
  pub described_shapes : List DescribedShapes
  pub imports : List RuntimeExternModule
  pub exports : List RuntimeExternModule

-- What it leaves: the map of the descriptions, the offsets of the two tables and the pool.
pub record Built : Type 0 where
  pub descriptions_map : DescriptionsMap
  pub imports_offset : ℕ
  pub exports_offset : ℕ
  pub context : GlobalContext
  pub pool : DataPool

-- The import and the export table.
unfoldable pub build_both : Tables → DescriptionsMap → GlobalContext → DataPool → Built
build_both t dm c p =
    let (i, p1) = build_externs t.imports imports_block true p in
    let (e, p2) = build_externs t.exports exports_block false p1 in
    record { descriptions_map = dm; imports_offset = i; exports_offset = e; context = c; pool = p2 }

unfoldable pub build : Tables → GlobalContext → DataPool → Option Built
build t c p = elim (build_object_descriptions t.descriptions [] p) [
  | none ↦ none
  | some (dm, p1) ↦ elim (build_shapes t.described_shapes dm c p1) [
    | none ↦ none
    | some (c1, p2) ↦ some (build_both t dm c1 p2)
  ]
]

read_words-earlier :
    (p q : DataPool) (off n : ℕ)
    → ((i : ℕ) → i + 4 ≤ p.size → word_at q i ≡ word_at p i)
    → off + 4 * n ≤ p.size
    → read_words q off n ≡ read_words p off n
unfolding read_words
read_words-earlier p q off zero e h = refl
read_words-earlier p q off (suc n) e h =
    cc (e off (omega (arith, h)), read_words-earlier p q (off + 4) n e (omega (arith, h)))

-- A block stays readable behind a later one.
body-later :
    {o p q : DataPool} {t k s l : ℕ} {vs ws : List ℕ}
    → HasBlock o p t k vs
    → HasBlock p q s l ws
    → read_words q (o.size + 8) (length vs) ≡ low_words vs
body-later {o} {p} {q} {vs = vs} a b =
    read_words-earlier p q (o.size + 8) (length vs) b.earlier (omega (arith, a.end)) ∙ a.body

-- What `build` leaves behind the pool `p1` with the descriptions, when the shapes have the words
-- `ws`: the three other blocks without a gap, and the words of each are read from the pool at the
-- end.
pub record HasTables (t : Tables) (ws : List ℕ) (p1 : DataPool) (b : Built) : Type 0 where
  pub shapes_read : read_words b.pool (p1.size + 8) (length ws) ≡ low_words ws
  pub imports_at : b.imports_offset ≡ p1.size + 8 + 4 * length ws + 8
  pub imports_read :
      parse_modules
        (length t.imports)
        (read_words b.pool b.imports_offset (length (module_words true t.imports)))
      ≡ some (as_read true t.imports, [])
  pub exports_at :
      b.exports_offset ≡ b.imports_offset + 4 * length (module_words true t.imports) + 8
  pub exports_read :
      parse_modules
        (length t.exports)
        (read_words b.pool b.exports_offset (length (module_words false t.exports)))
      ≡ some (as_read false t.exports, [])
  pub end : b.pool.size ≡ b.exports_offset + 4 * length (module_words false t.exports)
  pub valid : IsValid b.pool

build_both-HasTables :
    (t : Tables) (dm : DescriptionsMap) (c : GlobalContext) (k : ℕ) (ws : List ℕ) (p1 p2 : DataPool)
    → HasBlock p1 p2 shapes_block k ws
    → AllSmall t.imports
    → AllSmall t.exports
    → HasTables t ws p1 (build_both t dm c p2)
unfolding build_both
build_both-HasTables t dm c k ws p1 p2 s im ex =
    let p3 = (build_externs t.imports imports_block true p2).1 in
    let last = (build_externs t.exports exports_block false p3).1 in
    let (i_at, i, i_read) = build_externs_lem t.imports imports_block true p2 s.valid im in
    let (e_at, e, e_read) = build_externs_lem t.exports exports_block false p3 i.valid ex in
    record {
      shapes_read =
          read_words-earlier p3 last (p1.size + 8) (length ws) e.earlier
            (omega (arith, s.end, i.end))
          ∙ body-later s i;
      imports_at = omega (arith, i_at, s.end);
      imports_read =
          ap (parse_modules (length t.imports)) (
            ap (λ o. read_words last o (length (module_words true t.imports))) i_at
            ∙ read_words-earlier p3 last (p2.size + 8) (length (module_words true t.imports))
                e.earlier (omega (arith, i.end)))
          ∙ i_read;
      exports_at = omega (arith, e_at, i_at, i.end);
      exports_read =
          ap
            (λ o.
              parse_modules (length t.exports)
                (read_words last o (length (module_words false t.exports))))
            e_at
          ∙ e_read;
      end = omega (arith, e.end, e_at);
      valid = e.valid;
    }

-- `build`, once the descriptions are in a valid pool and where the names, counts and indices of
-- the import and export tables fit, throws when a shape has no description in the map or refers to
-- an unknown function. Otherwise the shapes, the imports and the exports lie behind the
-- descriptions in this order, each right behind the header that follows the one before, and
-- nothing lies behind the exports. In the pool at the end the words of the shapes are read behind
-- the header of their block, and both tables are read in full, with the modules and items in
-- order, at the offsets returned.
pub build_lem :
    (t : Tables) (c : GlobalContext) (p : DataPool) {dm : DescriptionsMap} {p1 : DataPool}
    → build_object_descriptions t.descriptions [] p ≡ some (dm, p1)
    → IsValid p1
    → AllSmall t.imports
    → AllSmall t.exports
    → ((shapes_words (all_shapes t.described_shapes) dm c ≡ none) × (build t c p ≡ none))
      ⊎ ((ws : List ℕ) × (c' : GlobalContext) × (b : Built) × (shapes_words
              (all_shapes t.described_shapes)
              dm
              c
            ≡ some (ws, c'))
          × (build t c p ≡ some b)
          × HasTables t ws p1 b)
unfolding build
build_lem t c p {dm} {p1} described v im ex =
    elim (build_shapes-shapes_words t.described_shapes dm c p1 v) [
      | inl (none_known, throws) ↦ inl (none_known, rw (build, described, throws) refl)
      | inr (ws, c', p2, known, e, s) ↦ inr (
        ws,
        c',
        build_both t dm c' p2,
        known,
        rw (build, described, e) refl,
        build_both-HasTables t dm c' (length (all_shapes t.described_shapes)) ws p1 p2 s im ex,
      )
    ]
