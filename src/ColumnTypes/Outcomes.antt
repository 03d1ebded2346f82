-- ===== src/ColumnTypes/Outcomes.antt =====
-- Parses that return the same, and the size of a field's type.
use Prim.Native.String.{String}
use minilake.Prelude.{
  ℕ, ◌≤◌, ◌≡◌, refl, ap, ◌∙◌, Bool, true, false, ◌&&◌, Option, none, some, string_eq, nonempty,
  if◌then◌else◌, arith,
}
use minilake.Text.{strip}
use minilake.Errors.{ok, raised}
use minilake.ColumnTypes.Parser.{Attempt, pure, ◌>>=◌, field_of}
use minilake.ColumnTypes.Splitting.{size, partition}
use minilake.ColumnTypes.Sizes.{size-strip, partition_size}

-- A parse that is not out of fuel.
abbrev pub Returned {ℓ} : {A : Type ℓ} → Attempt A → Type 0
Returned none = ⊥
Returned (some r) = Unit

-- Two parses that return the same.
abbrev pub Same {ℓ} : {A : Type ℓ} → Attempt A → Attempt A → Type ℓ
Same m n = Returned m × (m ≡ n)

pub bind-Same :
    {A B : Type 0} (m n : Attempt A) (f g : A → Attempt B)
    → Same m n
    → ((a : A) → Same (f a) (g a))
    → Same (m >>= f) (n >>= g)
unfolding ◌>>=◌
bind-Same none n f g (h, e) k = absurd h
bind-Same (some (ok a)) n f g (h, e) k = ((k a).0, (k a).1 ∙ ap (λ x. x >>= g) e)
bind-Same (some (raised x)) n f g (h, e) k = (tt, ap (λ y. y >>= g) e)

pub then-Same :
    {A B : Type 0} (m n : Attempt A) (f : A → B)
    → Same m n
    → Same (m >>= λ a. pure (f a)) (n >>= λ a. pure (f a))
then-Same m n f h = bind-Same m n (λ a. pure (f a)) (λ a. pure (f a)) h (λ a. (tt, refl))

-- The type of a field is no longer than the field.
abbrev pub FieldPart : Option (String × String) → ℕ → Type 0
FieldPart none n = Unit
FieldPart (some (name, text)) n = size text ≤ n

pub field_of-FieldPart : (arg : String) → FieldPart (field_of arg) (size arg)
unfolding field_of
field_of-FieldPart arg =
    let colon = partition b':' arg in
    let space = partition b' ' (strip arg) in
    choose (nonempty colon.1) colon space (partition_size b':' arg).1
      (spaced (partition_size b' ' (strip arg)).1)
  where
    spaced : {n : ℕ} → n ≤ size (strip arg) → n ≤ size arg
    spaced h = omega (arith, h, size-strip arg)

    keep :
        (b : Bool) (p : String × String)
        → size p.1 ≤ size arg
        → FieldPart (if b then some (strip p.0, strip p.1) else none) (size arg)
    keep true p h = omega (arith, size-strip p.1, h)
    keep false p h = tt

    choose :
        (b : Bool) (p q : String × String)
        → size p.1 ≤ size arg
        → size q.1 ≤ size arg
        → FieldPart
            (let x = if b then p else q in
              if nonempty (strip x.0) && nonempty (strip x.1)
              then some (strip x.0, strip x.1)
              else none)
            (size arg)
    choose true p q h k = keep (nonempty (strip p.0) && nonempty (strip p.1)) p h
    choose false p q h k = keep (nonempty (strip q.0) && nonempty (strip q.1)) q k
