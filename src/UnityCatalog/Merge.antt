-- ===== src/UnityCatalog/Merge.antt =====
-- What the merge of the declared and the physical columns describes.
mod Tests
use minilake.Prelude.{
  ℕ, zero, suc, String, ◌≡◌, ◌≢◌, refl, true, false, sym, ap, ◌∙◌, ◌⊎◌, inl, inr, Option, none,
  some, List, [], ◌∷◌, ◌==◌, string_eq, nonempty, nonempty-false, if◌then◌else◌, arith, Bool-cases,
}
use minilake.Prelude.Dict.{Dict, get, put, get-nil, get-put}
use minilake.Errors.{DatabricksError, Result, api, ok, raised}
use minilake.ColumnTypes.Parser.{normalize_column_type, parse_type, parse_with}
use minilake.ColumnTypes.Specs.{Parsed}
use minilake.Text.{strip}
use minilake.ColumnTypes.Splitting.{size}
use minilake.ColumnTypes.Refusals.{normalize_column_type-cases}
use minilake.UnityCatalog.State.{Column}
use minilake.UnityCatalog.Columns.{parsed}
use minilake.UnityCatalog.Description.{
  PhysicalColumn, TypeInfo, DescribedColumn, info_of, raw_info, by_name, fitting, or_raw,
  declared_type, declared_comment, described_column, appended, prefer_declared, described_type,
  merged, describe_columns,
}

-- The last declared column of a name.
abbrev last_named : List Column → String → Option Column
last_named [] name = none
last_named (c ∷ declared) name = elim (last_named declared name) [
  | some later ↦ some later
  | none ↦ if name == c.name then some c else none
]

by_name-last_named :
    (d : Dict String Column) (declared : List Column) (name : String)
    → get (by_name d declared) name
      ≡ (elim (last_named declared name) [ some c ↦ some c | none ↦ get d name ])
unfolding by_name
by_name-last_named d [] name = refl
by_name-last_named d (c ∷ declared) name =
    ground (arith, by_name-last_named (put d c.name c) declared name, get-put d c.name c name)

by_name-get :
    (declared : List Column) (name : String)
    → get (by_name [] declared) name ≡ last_named declared name
by_name-get declared name =
    ground (arith, by_name-last_named [] declared name, get-nil {V = Column} name)

module _ (upper : String → String) (lower : String → String) where
  -- The type that a text is read as, and the refusal of a text.
  abbrev Reads : String → String → Parsed → Type 0
  Reads column text spec = normalize_column_type upper lower column text ≡ some (ok spec)

  abbrev Refuses : String → String → Type 0
  Refuses column text =
      (e : DatabricksError) × (normalize_column_type upper lower column text
        ≡ some (raised (api e)))

  -- The declared text is read as this type, of the same DDL as the physical one; or this is the
  -- physical one, and the declared text is not read as a type of its DDL.
  abbrev Chosen : Parsed → String → String → Parsed → Type 0
  Chosen physical column text spec =
      (Reads column text spec × (spec.duckdb ≡ physical.duckdb))
      ⊎ ((spec ≡ physical) × ((d : Parsed) → Reads column text d → d.duckdb ≢ physical.duckdb))

  -- How the type of a physical column is answered.
  abbrev Typed : List Column → PhysicalColumn → TypeInfo → Type 0
  Typed declared column info =
      ((physical spec : Parsed) × (Reads column.name column.type_text physical
          × (Chosen physical column.name (declared_type (last_named declared column.name)) spec
              × (info ≡ info_of spec))))
      ⊎ (Refuses column.name column.type_text × (info ≡ raw_info column.type_text))

  -- One described column for each physical one, in order.
  abbrev pub Describes : List Column → ℕ → List PhysicalColumn → List DescribedColumn → Type 0
  Describes declared position [] [] = Unit
  Describes declared position [] (c ∷ columns) = ⊥
  Describes declared position (column ∷ actual) [] = ⊥
  Describes declared position (column ∷ actual) (c ∷ columns) =
      ((c.name ≡ column.name)
        × ((c.position ≡ position)
            × ((c.nullable ≡ column.nullable)
                × ((c.comment ≡ declared_comment (last_named declared column.name))
                    × Typed declared column c.type_info))))
      × Describes declared (suc position) actual columns

  empty_refused : (column : String) (spec : Parsed) → Reads column "" spec → ⊥
  unfolding normalize_column_type parse_type parse_with nonempty string_eq strip size
  empty_refused column spec h = absurd (cc h)

  prefer_declared-read :
      (physical : Parsed) (column text : String) (r : Result Parsed)
      → nonempty text ≡ true
      → normalize_column_type upper lower column text ≡ some r
      → prefer_declared upper lower physical text column ≡ fitting physical r
  unfolding prefer_declared parsed
  prefer_declared-read physical column text r present e = rw (present, e) refl

  prefer_declared-absent :
      (physical : Parsed) (column text : String)
      → nonempty text ≡ false
      → prefer_declared upper lower physical text column ≡ ok physical
  unfolding prefer_declared
  prefer_declared-absent physical column text absent = rw absent refl

  read_once :
      (column text : String) (c d : Parsed) → Reads column text c → Reads column text d → d ≡ c
  read_once column text c d h k = cc (h, k)

  fitting-Chosen :
      (physical : Parsed) (column text : String) (d : Parsed)
      → Reads column text d
      → (spec : Parsed) × ((fitting physical (ok d) ≡ ok spec) × Chosen physical column text spec)
  unfolding fitting
  fitting-Chosen physical column text d e = elim (string_eq.dec d.duckdb physical.duckdb) [
    | yes same ↦ (d, (ground (arith, same), inl (e, same)))
    | no differ ↦ (
      physical,
      (
        ground (arith, differ),
        inr (
          refl,
          λ c reads same.
              differ (ap (λ p. p.duckdb) (sym (read_once column text d c e reads)) ∙ same),
        ),
      ),
    )
  ]

  fitting-api :
      (physical : Parsed) (x : DatabricksError) → fitting physical (raised (api x)) ≡ ok physical
  unfolding fitting
  fitting-api physical x = refl

  prefer_declared-Chosen :
      (physical : Parsed) (column text : String)
      → (spec : Parsed) × ((prefer_declared upper lower physical text column ≡ ok spec)
          × Chosen physical column text spec)
  prefer_declared-Chosen physical column text = elim (Bool-cases (nonempty text)) [
    | inr absent ↦ (
      physical,
      (
        prefer_declared-absent physical column text absent,
        inr (
          refl,
          λ d reads same. empty_refused column d (rw (sym (nonempty-false text absent)) reads),
        ),
      ),
    )
    | inl present ↦ elim (normalize_column_type-cases upper lower column text) [
      | inl (d, e) ↦
          let (spec, (fits, chosen)) = fitting-Chosen physical column text d e in
          (spec, (prefer_declared-read physical column text (ok d) present e ∙ fits, chosen))
      | inr (x, e) ↦ (
        physical,
        (
          prefer_declared-read physical column text (raised (api x)) present e
              ∙ fitting-api physical x,
          inr (refl, λ d reads same. absurd (cc (e, reads))),
        ),
      )
    ]
  ]

  described_type-Typed :
      (declared : List Column) (column : PhysicalColumn)
      → (info : TypeInfo) × ((described_type upper lower column (last_named declared column.name)
            ≡ ok info)
          × Typed declared column info)
  unfolding described_type or_raw parsed
  described_type-Typed declared column =
      elim (normalize_column_type-cases upper lower column.name column.type_text) [
        | inl (physical, e) ↦
            let text = declared_type (last_named declared column.name) in
            let (spec, (preferred, chosen)) = prefer_declared-Chosen physical column.name text in
            (info_of spec, (rw (e, preferred) refl, inl (physical, spec, (e, (chosen, refl)))))
        | inr (x, e) ↦ (raw_info column.type_text, (rw e refl, inr ((x, e), refl)))
      ]

  merged-Describes :
      (declared : List Column) (d : Dict String Column)
      → ((name : String) → get d name ≡ last_named declared name)
      → (actual : List PhysicalColumn) (position : ℕ)
      → (columns : List DescribedColumn) × ((merged upper lower position d actual ≡ ok columns)
          × Describes declared position actual columns)
  unfolding merged appended
  merged-Describes declared d same [] position = ([], (refl, tt))
  merged-Describes declared d same (column ∷ actual) position =
      let (columns, (e, described)) = merged-Describes declared d same actual (suc position) in
      let (info, (typed, t)) = described_type-Typed declared column in
      let found = last_named declared column.name in
      let row = described_column position column found in
      (
        row info ∷ columns,
        (
          (λ i.
                appended (described_column position column (same column.name i))
                  (described_type upper lower column (same column.name i)) (e i))
              ∙ ap (λ r. appended row r (ok columns)) typed,
          ((refl, (refl, (refl, (refl, t)))), described),
        ),
      )

  -- For any declared columns and physical ones, of which there is one at least, `_describe_columns`
  -- returns one column for each physical one, in order, with its name and nullability, its index as
  -- the position and the comment of the last declared column of that name. A type text that the
  -- parser refuses is answered as it is. Any other is answered as the declared text is read where
  -- that has the same DDL, and else as the physical one is.
  pub describe_columns-Describes :
      (declared : List Column) (column : PhysicalColumn) (actual : List PhysicalColumn)
      → (columns : List DescribedColumn) × ((describe_columns upper lower declared (column ∷ actual)
            ≡ ok columns)
          × Describes declared 0 (column ∷ actual) columns)
  unfolding describe_columns
  describe_columns-Describes declared column actual =
      merged-Describes declared (by_name [] declared) (by_name-get declared) (column ∷ actual) 0
