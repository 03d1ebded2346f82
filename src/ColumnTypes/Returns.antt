-- ===== src/ColumnTypes/Returns.antt =====
-- The recursion of `normalize_column_type`.
use Prim.Native.String.{String}
use minilake.Prelude.{
  ℕ, zero, suc, ◌<◌, ◌≡◌, refl, Bool, true, false, ◌||◌, Option, none, some, List, [], ◌∷◌, ◌==◌,
  string_eq, nonempty, ◌<>◌, if◌then◌else◌, arith,
}
use minilake.Text.{strip}
use minilake.Errors.{Result, raised}
use minilake.ColumnTypes.Parser.{
  Attempt, pure, ◌>>=◌, Fields, field_of, fields_of, struct_of, parse_array, parse_map,
  parse_struct, parse_scalar, parse_decimal, parse_head, parse_with, parse_type,
  normalize_column_type,
}
use minilake.ColumnTypes.Specs.{Parsed, bad_type, array_of, map_of}
use minilake.ColumnTypes.Splitting.{size, drop_brackets, split_head_args}
use minilake.ColumnTypes.Sizes.{
  Shorter, Part, size-strip, drop_brackets-Part, split_head_args-Shorter,
}
use minilake.ColumnTypes.Outcomes.{
  Returned, Same, bind-Same, then-Same, FieldPart, field_of-FieldPart,
}

-- Two parses that return the same for every text shorter than this length.
abbrev Agreed : (String → Attempt Parsed) → (String → Attempt Parsed) → ℕ → Type 0
Agreed p q n = (text : String) → size text < n → Same (p text) (q text)

module _ (p : String → Attempt Parsed) (q : String → Attempt Parsed) (text : String)
    (column : String) where
  field-Same :
      (n : ℕ) (arg : String) (later later' : Attempt Fields)
      → Agreed p q n
      → size arg < n
      → Same later later'
      → (o : Option (String × String)) → FieldPart o (size arg)
      → Same {A = Fields}
          (elim o as (λ _. Attempt Fields) [
            | none ↦
                some
                  (raised (bad_type text column ("malformed STRUCT field '" <> strip arg <> "'")))
            | some (name, field_text) ↦ do
              f ← p field_text
              fields ← later
              pure ((name, f) ∷ fields)
          ])
          (elim o as (λ _. Attempt Fields) [
            | none ↦
                some
                  (raised (bad_type text column ("malformed STRUCT field '" <> strip arg <> "'")))
            | some (name, field_text) ↦ do
              f ← q field_text
              fields ← later'
              pure ((name, f) ∷ fields)
          ])
  field-Same n arg later later' agreed lt rest none part = (tt, refl)
  field-Same n arg later later' agreed lt rest (some (name, t)) part =
      bind-Same (p t) (q t) (λ f. later >>= λ fields. pure ((name, f) ∷ fields))
        (λ f. later' >>= λ fields. pure ((name, f) ∷ fields)) (agreed t (omega (arith, lt, part)))
        (λ f. then-Same later later' (λ fields. (name, f) ∷ fields) rest)

  fields_of-Same :
      (n : ℕ) (args : List String)
      → Agreed p q n
      → Shorter n args
      → Same (fields_of p text column args) (fields_of q text column args)
  unfolding fields_of
  fields_of-Same n [] agreed h = (tt, refl)
  fields_of-Same n (arg ∷ args) agreed (lt, h) =
      field-Same n arg (fields_of p text column args) (fields_of q text column args) agreed lt
        (fields_of-Same n args agreed h) (field_of arg) (field_of-FieldPart arg)

  module _ (upper : String → String) (lower : String → String) where
    array-Same :
        (n : ℕ) (args : List String)
        → Agreed p q n
        → Shorter n args
        → Same
            (parse_array upper lower column p text args)
            (parse_array upper lower column q text args)
    unfolding parse_array
    array-Same n [] agreed h = (tt, refl)
    array-Same n (x ∷ []) agreed (lt, h) = then-Same (p x) (q x) array_of (agreed x lt)
    array-Same n (x ∷ y ∷ args) agreed h = (tt, refl)

    map-Same :
        (n : ℕ) (args : List String)
        → Agreed p q n
        → Shorter n args
        → Same (parse_map upper lower column p text args) (parse_map upper lower column q text args)
    unfolding parse_map
    map-Same n [] agreed h = (tt, refl)
    map-Same n (x ∷ []) agreed h = (tt, refl)
    map-Same n (x ∷ y ∷ []) agreed (lt, (lt', h)) =
        bind-Same (p x) (q x) (λ k. p y >>= λ v. pure (map_of k v))
          (λ k. q y >>= λ v. pure (map_of k v)) (agreed x lt)
          (λ k. then-Same (p y) (q y) (map_of k) (agreed y lt'))
    map-Same n (x ∷ y ∷ z ∷ args) agreed h = (tt, refl)

    struct-Same :
        (n : ℕ) (args : List String)
        → Agreed p q n
        → Shorter n args
        → Same
            (parse_struct upper lower column p text args)
            (parse_struct upper lower column q text args)
    unfolding parse_struct
    struct-Same n [] agreed h = (tt, refl)
    struct-Same n (x ∷ args) agreed h =
        then-Same (fields_of p text column (x ∷ args)) (fields_of q text column (x ∷ args))
          struct_of (fields_of-Same n (x ∷ args) agreed h)

    head-Same :
        (n : ℕ) (head : String) (args : List String)
        → Agreed p q n
        → Shorter n args
        → Same
            (parse_head upper lower column p text head args)
            (parse_head upper lower column q text head args)
    unfolding parse_head
    head-Same n head args agreed h =
        by_kind (upper head == "ARRAY") (upper head == "MAP") (upper head == "STRUCT")
          (upper head == "DECIMAL" || upper head == "NUMERIC")
      where
        by_kind :
            (a b c d : Bool)
            → Same
                (if a
                  then parse_array upper lower column p text args
                  else if b
                  then parse_map upper lower column p text args
                  else if c
                  then parse_struct upper lower column p text args
                  else if d
                  then some (parse_decimal upper lower column text args)
                  else some (parse_scalar upper lower column text head args))
                (if a
                  then parse_array upper lower column q text args
                  else if b
                  then parse_map upper lower column q text args
                  else if c
                  then parse_struct upper lower column q text args
                  else if d
                  then some (parse_decimal upper lower column text args)
                  else some (parse_scalar upper lower column text head args))
        by_kind true b c d = array-Same n args agreed h
        by_kind false true c d = map-Same n args agreed h
        by_kind false false true d = struct-Same n args agreed h
        by_kind false false false true = (tt, refl)
        by_kind false false false false = (tt, refl)

    parse_with-Same :
        Agreed p q (size text)
        → Same (parse_with upper lower column p text) (parse_with upper lower column q text)
    unfolding parse_with
    parse_with-Same agreed =
        let raw = strip text in
        let shorter : Agreed p q (size raw) =
          λ t lt. agreed t (omega (arith, lt, size-strip text)) in
        elim (nonempty raw)
          as (λ b.
            Same
              (if b
                then by_brackets p (drop_brackets raw)
                else some (raised (bad_type text column "type is empty")))
              (if b
                then by_brackets q (drop_brackets raw)
                else some (raised (bad_type text column "type is empty")))) [
                  | false ↦ (tt, refl)
                  | true ↦ brackets-Same shorter (drop_brackets raw) (drop_brackets-Part raw)
                ]
      where
        by_brackets : (String → Attempt Parsed) → Option String → Attempt Parsed
        by_brackets parse none =
            parse_head upper lower column parse text (split_head_args (strip text)).0
              (split_head_args (strip text)).1
        by_brackets parse (some inner) = parse inner >>= λ e. pure (array_of e)

        brackets-Same :
            Agreed p q (size (strip text))
            → (o : Option String) → Part o (size (strip text))
            → Same (by_brackets p o) (by_brackets q o)
        brackets-Same agreed none h =
            head-Same (size (strip text)) (split_head_args (strip text)).0
              (split_head_args (strip text)).1 agreed (split_head_args-Shorter (strip text))
        brackets-Same agreed (some inner) h =
            then-Same (p inner) (q inner) array_of (agreed inner h)

module _ (upper : String → String) (lower : String → String) (column : String) where
  parse_type-Same :
      (fuel more : ℕ) (text : String)
      → size text < fuel
      → size text < more
      → Same (parse_type upper lower column fuel text) (parse_type upper lower column more text)
  unfolding parse_type
  parse_type-Same zero more text lt lt' = absurd (omega (arith, lt))
  parse_type-Same (suc fuel) zero text lt lt' = absurd (omega (arith, lt'))
  parse_type-Same (suc fuel) (suc more) text lt lt' =
      parse_with-Same (parse_type upper lower column fuel) (parse_type upper lower column more) text
        column upper lower
        (λ t shorter.
          parse_type-Same fuel more t (omega (arith, lt, shorter)) (omega (arith, lt', shorter)))

  -- For every text, `normalize_column_type` returns a type or raises: it does not run out of fuel.
  -- Any larger fuel gives the same, whatever `str.upper` and `str.lower` are.
  pub normalize_column_type-returns :
      (text : String) (fuel : ℕ)
      → size text < fuel
      → ((r : Result Parsed) × (normalize_column_type upper lower column text ≡ some r))
        × (parse_type upper lower column fuel text ≡ normalize_column_type upper lower column text)
  unfolding normalize_column_type
  normalize_column_type-returns text fuel lt =
      let (h, e) = parse_type-Same fuel (suc (size text)) text lt (omega arith) in
      let (k, _) =
        parse_type-Same (suc (size text)) (suc (size text)) text (omega arith) (omega arith) in
      (result (parse_type upper lower column (suc (size text)) text) k, e)
    where
      result : (m : Attempt Parsed) → Returned m → (r : Result Parsed) × (m ≡ some r)
      result none h = absurd h
      result (some r) h = (r, refl)
