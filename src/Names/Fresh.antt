-- ===== src/Names/Fresh.antt =====
-- A resolved display name is free, and no smaller number would have made it so.
use minilake.Prelude.{
  ℕ, zero, suc, ◌+◌, ◌≤◌, ◌<◌, String, ◌≡◌, ◌⊎◌, inl, inr, refl, ap, ◌∙◌, true, false, Option, some,
  string_eq, contains, length, Bool-cases, leb, subst, arith,
}
use minilake.Prelude.Dict.{values}
use minilake.Prelude.Members.{pigeonhole}
use minilake.Names.{State, name_taken, numbered, free_name, base_name, resolve_name}
use minilake.Names.Candidates.{
  names, length-names, name_taken-contains, candidates, length-candidates, contains-candidates,
  candidates-Distinct,
}

module _ (state : State) (base : String) (exclude : Option String) where
  abbrev AllTaken : ℕ → ℕ → Type 0
  AllTaken low high =
      (j : ℕ) → low ≤ j → j < high → name_taken state (some (numbered base j)) exclude ≡ true

  -- So many candidates are taken as there are objects at most.
  AllTaken-bound : (n suffix : ℕ) → AllTaken suffix (suffix + n) → n ≤ length state
  AllTaken-bound n suffix taken =
      let fit =
        pigeonhole (candidates base n suffix) (names (values state))
          (candidates-Distinct base n suffix) (λ name h. within name h) in
      rw (length-candidates base n suffix, length-names state) at fit
    where
      within :
          (name : String)
          → contains (candidates base n suffix) name ≡ true
          → contains (names (values state)) name ≡ true
      within name h =
          let (j, low, high, e) = contains-candidates base n suffix name h in
          rw e (name_taken-contains state (numbered base j) exclude (taken j low high))

  plus_suc : (m n : ℕ) → suc m + n ≡ m + suc n
  plus_suc m n = omega arith

  plus_zero : (m : ℕ) → m ≡ m + 0
  plus_zero m = omega arith

  add_first :
      (low n : ℕ)
      → name_taken state (some (numbered base low)) exclude ≡ true
      → AllTaken (suc low) (suc low + n)
      → AllTaken low (low + suc n)
  add_first low n first later j above below = elim (Bool-cases (leb (suc low) j)) [
    | inl more ↦ later j (ground (arith, more)) (omega arith)
    | inr same ↦
        subst (λ k. name_taken state (some (numbered base k)) exclude ≡ true)
          (equal low j above same) first
  ]
    where
      equal : (low j : ℕ) → low ≤ j → leb (suc low) j ≡ false → low ≡ j
      equal low j above same = ground (arith, same)

  -- What the loop ends with: the first candidate that is free, or the one after the fuel.
  abbrev IsFirst : String → ℕ → ℕ → ℕ → Type 0
  IsFirst name fuel suffix n =
      (name ≡ numbered base (suffix + n))
      × AllTaken suffix (suffix + n)
      × ((name_taken state (some name) exclude ≡ false) ⊎ (n ≡ fuel))

  free_name-IsFirst :
      (fuel suffix : ℕ) → (n : ℕ) × IsFirst (free_name fuel state base suffix exclude) fuel suffix n
  unfolding free_name
  free_name-IsFirst zero suffix =
      (0, (ap (numbered base) (plus_zero suffix), (λ j low high. absurd (omega arith)), inr refl))
  free_name-IsFirst (suc fuel) suffix =
      elim (Bool-cases (name_taken state (some (numbered base suffix)) exclude)) [
        | inr free ↦ rw free (
          0,
          (ap (numbered base) (plus_zero suffix), (λ j low high. absurd (omega arith)), inl free),
        )
        | inl taken ↦
            let (n, (e, all, last)) = free_name-IsFirst fuel (suc suffix) in
            rw taken (
              suc n,
              (
                e ∙ ap (numbered base) (plus_suc suffix n),
                add_first suffix n taken all,
                elim last [ inl free ↦ inl free | inr spent ↦ inr (ap suc spent) ],
              ),
            )
      ]

  -- A name that is not taken, the base or the first free candidate.
  abbrev pub IsResolved : String → Type 0
  IsResolved name =
      (name_taken state (some name) exclude ≡ false)
      × ((name ≡ base)
          ⊎ (n : ℕ) × (name ≡ numbered base (suc n))
            × (name_taken state (some base) exclude ≡ true)
            × AllTaken 1 (suc n))

  -- One candidate more than there are objects cannot all be taken.
  spent-free :
      (name : String) (n : ℕ)
      → IsFirst name (length state) 1 n
      → name_taken state (some name) exclude ≡ false
  spent-free name n (e, all, inl free) = free
  spent-free name n (e, all, inr spent) = elim (Bool-cases (name_taken state (some name) exclude)) [
    | inr free ↦ free
    | inl taken ↦ absurd (beyond (AllTaken-bound (suc n) 1 (add_last n all (rw e at taken))))
  ]
    where
      beyond : suc n ≤ length state → ⊥
      beyond h = omega arith

      add_last :
          (n : ℕ)
          → AllTaken 1 (1 + n)
          → name_taken state (some (numbered base (1 + n))) exclude ≡ true
          → AllTaken 1 (1 + suc n)
      add_last n all last j low high = elim (Bool-cases (leb (suc j) (1 + n))) [
        | inl less ↦ all j low (ground (arith, less))
        | inr same ↦
            subst (λ k. name_taken state (some (numbered base k)) exclude ≡ true)
              (equal n j high same) last
      ]
        where
          equal : (n j : ℕ) → j < 1 + suc n → leb (suc j) (1 + n) ≡ false → 1 + n ≡ j
          equal n j high same = ground (arith, same, high)

-- The loop ends: the resolved name is taken by no other object, and it is the base or, when that is
-- taken, the base with the least number above 0 that makes it free.
pub resolve_name-IsResolved :
    (fallback : String) (state : State) (name : Option String) (exclude : Option String)
    → IsResolved state (base_name fallback name) exclude (resolve_name fallback state name exclude)
unfolding resolve_name
resolve_name-IsResolved fallback state name exclude =
    elim (Bool-cases (name_taken state (some (base_name fallback name)) exclude)) [
      | inr free ↦ rw free (free, inl refl)
      | inl taken ↦
          let (n, (e, all, last)) =
            free_name-IsFirst state (base_name fallback name) exclude (length state) 1 in
          rw taken (
            spent-free state (base_name fallback name) exclude _ n (e, all, last),
            inr (
              n,
              e ∙ ap (numbered (base_name fallback name)) (one n),
              refl,
              λ j low high. all j low (rw (one n) high),
            ),
          )
    ]
  where
    one : (n : ℕ) → 1 + n ≡ suc n
    one n = omega arith
