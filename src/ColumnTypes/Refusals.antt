-- ===== src/ColumnTypes/Refusals.antt =====
-- What `normalize_column_type` raises.
use minilake.Prelude.{
  String, ◌≡◌, subst, ◌⊎◌, inl, inr, Bool, true, false, ◌||◌, Option, none, some, List, [], ◌∷◌,
  ◌==◌, string_eq, nonempty, ◌<>◌, if◌then◌else◌, ℕ, zero, suc, arith,
}
use minilake.Text.{strip}
use minilake.Errors.{
  DatabricksError, Result, api, key_error, value_error, attribute_error, os_error, invalid_response,
  ok, raised,
}
use minilake.ColumnTypes.Parser.{
  Attempt, pure, ◌>>=◌, Fields, field_of, fields_of, struct_of, parse_array, parse_map,
  parse_struct, parse_scalar, parse_decimal, parse_head, parse_with, parse_type,
  normalize_column_type, decimal_args,
}
use minilake.ColumnTypes.Specs.{Parsed, bad_type, array_of, map_of}
use minilake.ColumnTypes.Splitting.{size, drop_brackets, split_head_args}
use minilake.ColumnTypes.Returns.{normalize_column_type-returns}

-- A parse that has not raised anything but a `DatabricksError`.
abbrev Refusing {ℓ} : {A : Type ℓ} → Attempt A → Type 0
Refusing none = Unit
Refusing (some (ok a)) = Unit
Refusing (some (raised (api e))) = Unit
Refusing (some (raised _)) = ⊥

bind-Refusing :
    {A B : Type 0} (m : Attempt A) (f : A → Attempt B)
    → Refusing m
    → ((a : A) → Refusing (f a))
    → Refusing (m >>= f)
unfolding ◌>>=◌
bind-Refusing none f h k = tt
bind-Refusing (some (ok a)) f h k = k a
bind-Refusing (some (raised x)) f h k = h

if-Refusing :
    {A : Type 0} (b : Bool) (m n : Attempt A)
    → Refusing m
    → Refusing n
    → Refusing (if b then m else n)
if-Refusing true m n h k = h
if-Refusing false m n h k = k

module _ (p : String → Attempt Parsed) (fine : (t : String) → Refusing (p t)) (text : String)
    (column : String) where
  fields_of-Refusing : (args : List String) → Refusing (fields_of p text column args)
  unfolding fields_of
  fields_of-Refusing [] = tt
  fields_of-Refusing (arg ∷ args) = field-Refusing (fields_of-Refusing args) (field_of arg)
    where
      field-Refusing :
          Refusing (fields_of p text column args)
          → (o : Option (String × String))
          → Refusing {A = Fields} (elim o as (λ _. Attempt Fields) [
            | none ↦
                some
                  (raised (bad_type text column ("malformed STRUCT field '" <> strip arg <> "'")))
            | some (name, field_text) ↦ do
              f ← p field_text
              fields ← fields_of p text column args
              pure ((name, f) ∷ fields)
          ])
      field-Refusing rest none = tt
      field-Refusing rest (some (name, t)) =
          bind-Refusing (p t)
            (λ f. fields_of p text column args >>= λ fields. pure ((name, f) ∷ fields)) (fine t)
            (λ f.
              bind-Refusing (fields_of p text column args) (λ fields. pure ((name, f) ∷ fields))
                rest (λ _. tt))

  module _ (upper : String → String) (lower : String → String) where
    array-Refusing : (args : List String) → Refusing (parse_array upper lower column p text args)
    unfolding parse_array
    array-Refusing [] = tt
    array-Refusing (x ∷ []) = bind-Refusing (p x) (λ e. pure (array_of e)) (fine x) (λ _. tt)
    array-Refusing (x ∷ y ∷ args) = tt

    map-Refusing : (args : List String) → Refusing (parse_map upper lower column p text args)
    unfolding parse_map
    map-Refusing [] = tt
    map-Refusing (x ∷ []) = tt
    map-Refusing (x ∷ y ∷ []) =
        bind-Refusing (p x) (λ k. p y >>= λ v. pure (map_of k v)) (fine x)
          (λ k. bind-Refusing (p y) (λ v. pure (map_of k v)) (fine y) (λ _. tt))
    map-Refusing (x ∷ y ∷ z ∷ args) = tt

    struct-Refusing : (args : List String) → Refusing (parse_struct upper lower column p text args)
    unfolding parse_struct
    struct-Refusing [] = tt
    struct-Refusing (x ∷ args) =
        bind-Refusing (fields_of p text column (x ∷ args)) (λ fields. pure (struct_of fields))
          (fields_of-Refusing (x ∷ args)) (λ _. tt)

    decimal-Refusing :
        (args : List String) → Refusing (some (parse_decimal upper lower column text args))
    unfolding parse_decimal decimal_args
    decimal-Refusing [] = tt
    decimal-Refusing (a ∷ []) = ground arith
    decimal-Refusing (a ∷ b ∷ []) = ground arith
    decimal-Refusing (a ∷ b ∷ c ∷ args) = ground arith

    scalar-Refusing :
        (head : String) (args : List String)
        → Refusing (some (parse_scalar upper lower column text head args))
    unfolding parse_scalar
    scalar-Refusing head args = ground arith

    head-Refusing :
        (head : String) (args : List String)
        → Refusing (parse_head upper lower column p text head args)
    unfolding parse_head
    head-Refusing head args = if-Refusing (upper head == "ARRAY") _ _ (array-Refusing args) (
        if-Refusing (upper head == "MAP") _ _ (map-Refusing args) (
          if-Refusing (upper head == "STRUCT") _ _ (struct-Refusing args) (
            if-Refusing (upper head == "DECIMAL" || upper head == "NUMERIC") _ _
              (decimal-Refusing args) (scalar-Refusing head args))))

    parse_with-Refusing : Refusing (parse_with upper lower column p text)
    unfolding parse_with
    parse_with-Refusing =
        if-Refusing (nonempty (strip text)) _ _ (brackets-Refusing (drop_brackets (strip text))) tt
      where
        brackets-Refusing :
            (o : Option String)
            → Refusing {A = Parsed} (elim o as (λ _. Attempt Parsed) [
              | some inner ↦ do e ← p inner; pure (array_of e)
              | none ↦
                  let (head, args) = split_head_args (strip text) in
                  parse_head upper lower column p text head args
            ])
        brackets-Refusing (some inner) =
            bind-Refusing (p inner) (λ e. pure (array_of e)) (fine inner) (λ _. tt)
        brackets-Refusing none =
            head-Refusing (split_head_args (strip text)).0 (split_head_args (strip text)).1

module _ (upper : String → String) (lower : String → String) (column : String) where
  parse_type-Refusing :
      (fuel : ℕ) (text : String) → Refusing (parse_type upper lower column fuel text)
  unfolding parse_type
  parse_type-Refusing zero text = tt
  parse_type-Refusing (suc fuel) text =
      parse_with-Refusing (parse_type upper lower column fuel) (parse_type-Refusing fuel) text
        column upper lower

  pub normalize_column_type-cases :
      (text : String)
      → ((spec : Parsed) × (normalize_column_type upper lower column text ≡ some (ok spec)))
        ⊎ ((e : DatabricksError) × (normalize_column_type upper lower column text
              ≡ some (raised (api e))))
  unfolding normalize_column_type
  normalize_column_type-cases text =
      let ((r, e), _) =
        normalize_column_type-returns upper lower column text (suc (size text)) (omega arith) in
      decided r e (subst Refusing e (parse_type-Refusing (suc (size text)) text))
    where
      decided :
          (r : Result Parsed)
          → parse_type upper lower column (suc (size text)) text ≡ some r
          → Refusing (some r)
          → ((spec : Parsed) × (parse_type upper lower column (suc (size text)) text
                ≡ some (ok spec)))
            ⊎ ((x : DatabricksError) × (parse_type upper lower column (suc (size text)) text
                  ≡ some (raised (api x))))
      decided (ok spec) e h = inl (spec, e)
      decided (raised (api x)) e h = inr (x, e)
      decided (raised (key_error _)) e h = absurd h
      decided (raised (value_error _)) e h = absurd h
      decided (raised (attribute_error _)) e h = absurd h
      decided (raised (os_error _)) e h = absurd h
      decided (raised invalid_response) e h = absurd h
