-- ===== src/Jobs/Graph/Visits.antt =====
-- The loop of Kahn's algorithm keeps the order.
use minilake.Prelude.{
  ℕ, zero, suc, ◌+◌, String, ◌≡◌, ◌⊎◌, inl, inr, refl, sym, ap, ◌∙◌, subst, true, false, not, ◌&&◌,
  some, List, [], ◌∷◌, ◌==◌, string_eq, arith, contains, is_empty, length, Bool-cases,
}
use minilake.Prelude.Dict.{Dict}
use minilake.Prelude.Members.{Distinct}
use minilake.Jobs.Model.{Task}
use minilake.Jobs.Graph.{dependents_of, task_keys, relax, visit}
use minilake.Jobs.Graph.Relaxation.{
  waits_for, but, contains-but, same_key, IsRelaxed, relax-IsRelaxed,
}
use minilake.Jobs.Graph.Order.{
  depends_on, contains-dependents_of, dependents_of-known, dependents_of-Distinct, IsOrdered,
  empty-contains,
}

-- Between two rounds, where `done` are the keys taken off the queue so far.
pub record IsVisit (tasks : List Task) (waiting : Dict String (List String))
    (ready done : List String) : Type 0 where
  pub waits :
      (k d : String)
      → contains (waits_for waiting k) d
        ≡ (contains (depends_on tasks k) d && not (contains done d))
  pub idle :
      (k : String)
      → (contains ready k ≡ true) ⊎ (contains done k ≡ true)
      → (d : String) → contains (waits_for waiting k) d ≡ false
  pub apart : (k : String) → contains ready k ≡ true → contains done k ≡ false
  pub ready_distinct : Distinct ready
  pub done_distinct : Distinct done
  pub known :
      (k : String)
      → (contains ready k ≡ true) ⊎ (contains done k ≡ true)
      → contains (task_keys tasks) k ≡ true
  pub ordered : IsOrdered tasks done

module _ (tasks : List Task) (unique : Distinct (task_keys tasks))
    (waiting : Dict String (List String)) (key : String) (ready done : List String)
    (v : IsVisit tasks waiting (key ∷ ready) done) where
  abbrev dependents : List String
  dependents = dependents_of key tasks

  abbrev waiting' : Dict String (List String)
  waiting' = (relax key dependents waiting ready).0

  abbrev ready' : List String
  ready' = (relax key dependents waiting ready).1

  relaxed : IsRelaxed key dependents waiting ready waiting' ready'
  relaxed = relax-IsRelaxed key dependents waiting ready (dependents_of-Distinct key tasks unique)

  key_here : contains (key ∷ ready) key ≡ true
  key_here = ground arith

  -- A dependent still waits for the key.
  dependent-waits :
      (k : String) → contains dependents k ≡ true → contains (waits_for waiting k) key ≡ true
  dependent-waits k h =
      ground
        (arith, h, v.waits k key, v.apart key key_here, contains-dependents_of key tasks k unique)

  -- So it is neither ready nor done.
  dependent-new :
      (k : String)
      → contains dependents k ≡ true
      → (contains (key ∷ ready) k ≡ false) × (contains done k ≡ false)
  dependent-new k h = (
    elim (Bool-cases (contains (key ∷ ready) k)) [
      | inr new ↦ new
      | inl old ↦ absurd (cc (dependent-waits k h, v.idle k (inl old) key))
    ],
    elim (Bool-cases (contains done k)) [
      | inr new ↦ new
      | inl old ↦ absurd (cc (dependent-waits k h, v.idle k (inr old) key))
    ],
  )

  waits' :
      (k d : String)
      → contains (waits_for waiting' k) d
        ≡ (contains (depends_on tasks k) d && not (contains (key ∷ done) d))
  waits' k d = elim (Bool-cases (contains dependents k)) [
    | inl dependent ↦
        ap (λ ds. contains ds d) (relaxed.waits k)
        ∙ rw dependent (contains-but key (waits_for waiting k) d ∙ ground (arith, v.waits k d))
    | inr other ↦
        ap (λ ds. contains ds d) (relaxed.waits k)
        ∙ rw other (
            v.waits k d ∙ elim (Bool-cases (d == key)) [
              | inr differ ↦ rw differ refl
              | inl same ↦
                  let absent = sym (contains-dependents_of key tasks k unique) ∙ other in
                  let gone =
                    subst (λ j. contains (depends_on tasks k) j ≡ false) (sym (same_key d key same))
                      absent in
                  rw gone refl
            ])
  ]

  -- What a key waits for only shrinks.
  shrinks :
      (k d : String)
      → contains (waits_for waiting k) d ≡ false
      → contains (waits_for waiting' k) d ≡ false
  shrinks k d h = ground (arith, h, v.waits k d, waits' k d)

  -- A key that is ready now was so before or is a dependent that waits for nothing more.
  ready-cases :
      (k : String)
      → contains ready' k ≡ true
      → (contains ready k ≡ true)
        ⊎ (contains dependents k ≡ true) × (is_empty (but key (waits_for waiting k)) ≡ true)
  ready-cases k h = ground (arith, h, relaxed.readied k)

  idle' :
      (k : String)
      → (contains ready' k ≡ true) ⊎ (contains (key ∷ done) k ≡ true)
      → (d : String) → contains (waits_for waiting' k) d ≡ false
  idle' k (inl h) d = elim (ready-cases k h) [
    | inl before ↦ shrinks k d (v.idle k (inl (ground (arith, before))) d)
    | inr (dependent, none_left) ↦
        ap (λ ds. contains ds d) (relaxed.waits k)
        ∙ rw dependent (empty-contains (but key (waits_for waiting k)) d none_left)
  ]
  idle' k (inr h) d = elim (Bool-cases (k == key)) [
    | inl same ↦ shrinks k d (v.idle k (inl (ground (arith, same))) d)
    | inr other ↦ shrinks k d (v.idle k (inr (ground (arith, other, h))) d)
  ]

  apart' : (k : String) → contains ready' k ≡ true → contains (key ∷ done) k ≡ false
  apart' k h = elim (ready-cases k h) [
    | inl before ↦
        let (fresh, _) = v.ready_distinct in
        elim (Bool-cases (k == key)) [
          | inl same ↦
              absurd (
                cc
                  (before, subst (λ j. contains ready j ≡ false) (sym (same_key k key same)) fresh))
          | inr other ↦ rw other (v.apart k (ground (arith, before)))
        ]
    | inr (dependent, _) ↦
        let (new, undone) = dependent-new k dependent in ground (arith, new, undone)
  ]

  known' :
      (k : String)
      → (contains ready' k ≡ true) ⊎ (contains (key ∷ done) k ≡ true)
      → contains (task_keys tasks) k ≡ true
  known' k (inl h) = elim (ready-cases k h) [
    | inl before ↦ v.known k (inl (ground (arith, before)))
    | inr (dependent, _) ↦ dependents_of-known key tasks k dependent
  ]
  known' k (inr h) = elim (Bool-cases (k == key)) [
    | inl same ↦ v.known k (inl (ground (arith, same)))
    | inr other ↦ v.known k (inr (ground (arith, other, h)))
  ]

  next : IsVisit tasks waiting' ready' (key ∷ done)
  next = record {
    waits = waits';
    idle = idle';
    apart = apart';
    ready_distinct =
        relaxed.apart v.ready_distinct.1
          (λ k dependent. ground (arith, (dependent-new k dependent).0));
    done_distinct = (v.apart key key_here, v.done_distinct);
    known = known';
    ordered = (λ d h. ground (arith, h, v.waits key d, v.idle key (inl key_here) d), v.ordered);
  }

-- The loop ends with every visited key in order.
pub visit-IsVisit :
    (tasks : List Task)
    → Distinct (task_keys tasks)
    → (fuel : ℕ) (waiting : Dict String (List String)) (ready done : List String)
      (visited final : ℕ)
    → IsVisit tasks waiting ready done
    → visited ≡ length done
    → visit fuel tasks waiting ready visited ≡ some final
    → (last : Dict String (List String)) × (order : List String) × IsVisit tasks last [] order
      × (final ≡ length order)
unfolding visit
visit-IsVisit tasks unique fuel waiting [] done visited final v count h =
    (waiting, done, v, some_same h ∙ count)
  where
    some_same : some visited ≡ some final → final ≡ visited
    some_same e = cc e
visit-IsVisit tasks unique zero waiting (key ∷ ready) done visited final v count h = absurd (cc h)
visit-IsVisit tasks unique (suc fuel) waiting (key ∷ ready) done visited final v count h =
    visit-IsVisit tasks unique fuel (waiting' tasks unique waiting key ready done v)
      (ready' tasks unique waiting key ready done v) (key ∷ done) (visited + 1) final
      (next tasks unique waiting key ready done v) (omega (arith, count)) h
