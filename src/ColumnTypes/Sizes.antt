-- ===== src/ColumnTypes/Sizes.antt =====
-- Each part that uc_types.py takes out of a text is shorter than the text.
use Prim.Native.Char.{Char, code}
use Prim.Native.String.{String}
use minilake.Prelude.{
  ℕ, suc, ◌+◌, ◌≤◌, ◌<◌, ◌≡◌, inl, inr, Bool, true, false, ◌&&◌, subst, Option, none, some, List,
  [], ◌∷◌, eqb, nonempty, if◌then◌else◌, arith, Option-cases,
}
use minilake.Text.{glue, break, strip, lstrip, rstrip, is_space}
use minilake.ColumnTypes.Splitting.{
  size, led, kept_after, cut, partition, drop_last, drop_brackets, opened_after, closed_after,
  top_pieces, stripped, split_top_level, bracketed, split_head_args,
}

size-lstrip : (s : String) → size (lstrip s) ≤ size s
unfolding size lstrip
size-lstrip String.[] = omega arith
size-lstrip (String.◌∷◌ d s) = ground (arith, size-lstrip s)

size-if :
    (b : Bool) (x y : String) {n : ℕ} → size x ≤ n → size y ≤ n → size (if b then x else y) ≤ n
size-if true x y h k = h
size-if false x y h k = k

size-rstrip : (s : String) → size (rstrip s) ≤ size s
unfolding size rstrip
size-rstrip String.[] = omega arith
size-rstrip (String.◌∷◌ d s) =
    let longer : size (rstrip (String.◌∷◌ d s)) ≤ suc (size (rstrip s)) =
      elim (rstrip s)
        as (λ r.
          size (elim r [
            | String.[] ↦ if is_space (code d) then String.[] else String.◌∷◌ d String.[]
            | String.◌∷◌ e t ↦ String.◌∷◌ d (String.◌∷◌ e t)
          ])
          ≤ suc (size r)) [
            | String.[] ↦
                size-if (is_space (code d)) String.[] (String.◌∷◌ d String.[]) (omega arith)
                  (omega arith)
            | String.◌∷◌ e t ↦ omega arith
          ] in
    omega (arith, longer, size-rstrip s)

pub size-strip : (s : String) → size (strip s) ≤ size s
unfolding strip
size-strip s = omega (arith, size-lstrip s, size-rstrip (lstrip s))

-- The two parts of a text of this length, without a separator.
abbrev pub Parts : Option (String × String) → ℕ → Type 0
Parts none n = Unit
Parts (some (before, after)) n = size before + size after + 1 ≡ n

cut-step :
    (b : Bool) (d : Char) (s : String) (later : Option (String × String))
    → Parts later (size s)
    → Parts (if b then some (String.[], s) else led d later) (suc (size s))
unfolding size
cut-step true d s later h = omega arith
cut-step false d s none h = tt
cut-step false d s (some (before, after)) h = omega (arith, h)

pub cut-Parts : (c : ℕ) (s : String) → Parts (cut c s) (size s)
unfolding size cut
cut-Parts c String.[] = tt
cut-Parts c (String.◌∷◌ d s) = cut-step (eqb (code d) c) d s (cut c s) (cut-Parts c s)

-- The rest of a text of this length, without its last character.
abbrev pub Rest : Option String → ℕ → Type 0
Rest none n = Unit
Rest (some kept) n = size kept + 1 ≡ n

kept_after-Rest :
    (d : Char) (later : Option String) (n : ℕ) → Rest later n → Rest (kept_after d later) (suc n)
unfolding size
kept_after-Rest d none n h = tt
kept_after-Rest d (some kept) n h = omega (arith, h)

pub drop_last-Rest : (c : ℕ) (s : String) → Rest (drop_last c s) (size s)
unfolding size drop_last
drop_last-Rest c String.[] = tt
drop_last-Rest c (String.◌∷◌ d String.[]) =
    elim (eqb (code d) c) as (λ b. Rest (if b then some String.[] else none) 1) [
      | true ↦ omega arith
      | false ↦ tt
    ]
drop_last-Rest c (String.◌∷◌ d (String.◌∷◌ f s)) =
    kept_after-Rest d (drop_last c (String.◌∷◌ f s)) (suc (size s))
      (drop_last-Rest c (String.◌∷◌ f s))

-- Every text of a list is at most so long.
abbrev pub Within : ℕ → List String → Type 0
Within n [] = Unit
Within n (s ∷ ss) = (size s ≤ n) × Within n ss

Within-le : (n m : ℕ) (ss : List String) → n ≤ m → Within n ss → Within m ss
Within-le n m [] le h = tt
Within-le n m (s ∷ ss) le (h, rest) = (omega (arith, le, h), Within-le n m ss le rest)

abbrev pub Pieces : ℕ → String × List String → Type 0
Pieces n p = (size p.0 ≤ n) × Within n p.1

piece-step :
    (b : Bool) (d : Char) (n : ℕ) (later : String × List String)
    → Pieces n later
    → Pieces (suc n) (if b then break later else glue d later)
unfolding size
piece-step true d n (word, rest) (h, k) =
    (omega arith, (omega (arith, h), Within-le n (suc n) rest (omega arith) k))
piece-step false d n (word, rest) (h, k) =
    (omega (arith, h), Within-le n (suc n) rest (omega arith) k)

top_pieces-Pieces : (opened closed : ℕ) (s : String) → Pieces (size s) (top_pieces opened closed s)
unfolding size top_pieces
top_pieces-Pieces opened closed String.[] = (omega arith, tt)
top_pieces-Pieces opened closed (String.◌∷◌ d s) =
    let opened' = opened_after (code d) opened in
    let closed' = closed_after (code d) closed in
    piece-step (eqb (code d) b',' && eqb opened' closed') d (size s) (top_pieces opened' closed' s)
      (top_pieces-Pieces opened' closed' s)

stripped-Within : (n : ℕ) (parts : List String) → Within n parts → Within n (stripped parts)
unfolding stripped
stripped-Within n [] h = tt
stripped-Within n (p ∷ parts) (h, rest) =
    elim (nonempty (strip p))
      as (λ b. Within n (if b then strip p ∷ stripped parts else stripped parts)) [
        | true ↦ (omega (arith, size-strip p, h), stripped-Within n parts rest)
        | false ↦ stripped-Within n parts rest
      ]

split_top_level-Within : (s : String) → Within (size s) (split_top_level s)
unfolding split_top_level
split_top_level-Within s =
    stripped-Within (size s) ((top_pieces 0 0 s).0 ∷ (top_pieces 0 0 s).1) (top_pieces-Pieces 0 0 s)

-- Each argument is shorter than a text of this length.
abbrev pub Shorter : ℕ → List String → Type 0
Shorter n [] = Unit
Shorter n (s ∷ ss) = (size s < n) × Shorter n ss

Shorter-le : (n m : ℕ) (ss : List String) → n < m → Within n ss → Shorter m ss
Shorter-le n m [] lt h = tt
Shorter-le n m (s ∷ ss) lt (h, rest) = (omega (arith, lt, h), Shorter-le n m ss lt rest)

bracketed-Shorter :
    (close_ch : ℕ) (text before after : String) (n : ℕ)
    → size before + size after + 1 ≡ n
    → Shorter n (bracketed close_ch text before after).1
unfolding bracketed
bracketed-Shorter close_ch text before after n e =
    step (drop_last close_ch (rstrip after)) (drop_last-Rest close_ch (rstrip after))
  where
    step :
        (o : Option String)
        → Rest o (size (rstrip after))
        → Shorter n
            (elim o as (λ _. String × List String) [
              | none ↦ (strip text, [])
              | some inner ↦ (strip before, split_top_level inner)
            ]).1
    step none h = tt
    step (some inner) h =
        Shorter-le (size inner) n (split_top_level inner) (omega (arith, h, e, size-rstrip after))
          (split_top_level-Within inner)

pub split_head_args-Shorter : (text : String) → Shorter (size text) (split_head_args text).1
unfolding split_head_args
split_head_args-Shorter text = elim (Option-cases (cut b'<' text)) [
  | inr ((before, after), e) ↦
      rw (e, split_head_args)
        (bracketed-Shorter b'>' text before after (size text)
          (subst (λ o. Parts o (size text)) e (cut-Parts b'<' text)))
  | inl e ↦ elim (Option-cases (cut b'(' text)) [
    | inr ((before, after), f) ↦
        rw (e, f, split_head_args)
          (bracketed-Shorter b')' text before after (size text)
            (subst (λ o. Parts o (size text)) f (cut-Parts b'(' text)))
    | inl f ↦ rw (e, f, split_head_args) tt
  ]
]

-- A text that is shorter than this length, where there is one.
abbrev pub Part : Option String → ℕ → Type 0
Part none n = Unit
Part (some inner) n = size inner < n

pub drop_brackets-Part : (raw : String) → Part (drop_brackets raw) (size raw)
unfolding drop_brackets
drop_brackets-Part raw = step (drop_last b']' raw) (drop_last-Rest b']' raw)
  where
    last : (o : Option String) (n : ℕ) → Rest o n → n < size raw → Part o (size raw)
    last none n h lt = tt
    last (some inner) n h lt = omega (arith, h, lt)

    step :
        (o : Option String)
        → Rest o (size raw)
        → Part
            (elim o as (λ _. Option String) [ none ↦ none | some shorter ↦ drop_last b'[' shorter ])
            (size raw)
    step none h = tt
    step (some shorter) h =
        last (drop_last b'[' shorter) (size shorter) (drop_last-Rest b'[' shorter)
          (omega (arith, h))

pub partition_size :
    (c : ℕ) (s : String) → (size (partition c s).0 ≤ size s) × (size (partition c s).1 ≤ size s)
unfolding partition size
partition_size c s = elim (Option-cases (cut c s)) [
  | inl e ↦ rw (e, partition) (omega arith, omega arith)
  | inr ((before, after), e) ↦
      let parts = subst (λ o. Parts o (size s)) e (cut-Parts c s) in
      rw (e, partition) (omega (arith, parts), omega (arith, parts))
]
