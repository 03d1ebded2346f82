-- ===== src/Jobs/Graph/Accepted.antt =====
-- A task graph that validation accepts has no cycle, and its tasks never get stuck.
use minilake.Prelude.{
  ℕ, ◌<◌, String, ◌≡◌, inl, inr, refl, sym, ◌∙◌, subst, Bool, true, false, none, some, List, [],
  string_eq, arith, contains, length, Bool-cases, Option-cases, All, eqb,
}
use minilake.Prelude.Dict.{Dict}
use minilake.Prelude.Members.{Distinct}
use minilake.Errors.{Exception, ok, raised}
use minilake.Jobs.Model.{Task, RunTaskInfo}
use minilake.Jobs.Graph.{
  dependencies_by_key, task_keys, repeated_key, unknown_dependency, visit, initially_ready,
  cycle_error, task_graph_error, validate_task_graph,
}
use minilake.Jobs.Graph.Visits.{IsVisit, visit-IsVisit}
use minilake.Jobs.Scheduler.{depends, run_tasks, Results}
use minilake.Jobs.Scheduler.Coverage.{KeyOf}
use minilake.Jobs.Scheduler.Acyclic.{IsRanked, run_tasks_acyclic}
use minilake.Jobs.Graph.Start.{repeated_key-Distinct, first-IsVisit}
use minilake.Jobs.Graph.Ranking.{rank_in, rank_in-lower, all_visited}
use minilake.Jobs.Graph.Members.{dependencies-depends, KeyOf-contains, All-contains, All-depends_on}

-- The order of the visited keys ranks the tasks.
ordered-IsRanked :
    (ts : List Task) (order : List String) (waiting : Dict String (List String))
    → Distinct (task_keys ts)
    → IsVisit ts waiting [] order
    → length order ≡ length ts
    → IsRanked (rank_in order) ts
ordered-IsRanked ts order waiting u v count =
    All-depends_on
      (λ t. All (λ d. KeyOf d ts × (rank_in order d < rank_in order t.task_key)) (depends t)) ts u
      (λ t known same.
        All-contains (λ d. KeyOf d ts × (rank_in order d < rank_in order t.task_key)) (depends t)
          (λ d within.
            let needs =
              subst (λ ds. contains ds d ≡ true) (sym same) (dependencies-depends t d within) in
            let here =
              all_visited ts order t.task_key v.done_distinct (λ j h. v.known j (inr h)) count
                known in
            let (there, lower) =
              rank_in-lower ts order t.task_key d v.done_distinct v.ordered here needs in
            (KeyOf-contains ts d (v.known d (inr there)), lower)))

cycle_error-IsRanked :
    (ts : List Task)
    → Distinct (task_keys ts)
    → cycle_error ts ≡ none
    → (rank : String → ℕ) × IsRanked rank ts
unfolding cycle_error
cycle_error-IsRanked ts u h =
    elim (Option-cases (
      visit (length ts) ts (dependencies_by_key ts) (initially_ready (dependencies_by_key ts)) 0)) [
        | inl e ↦ absurd (refused (rw (e, cycle_error) at h))
        | inr (visited, e) ↦ elim (Bool-cases (eqb visited (length ts))) [
          | inr fewer ↦ absurd (refused (rw (e, fewer, cycle_error) at h))
          | inl every ↦
              let (last, order, v, count) =
                visit-IsVisit ts u (length ts) (dependencies_by_key ts)
                  (initially_ready (dependencies_by_key ts)) [] 0 visited (first-IsVisit ts u) refl
                  e in
              (
                rank_in order,
                ordered-IsRanked ts order last u v (sym count ∙ ground (arith, every)),
              )
        ]
      ]
  where
    refused : {message : String} → some message ≡ none → ⊥
    refused e = cc e

-- A task graph without an error has no cycle: each dependency of a task is the key of a task, and
-- comes before it in one ranking of the keys.
pub task_graph_error-IsRanked :
    (ts : List Task) → task_graph_error ts ≡ none → (rank : String → ℕ) × IsRanked rank ts
unfolding task_graph_error
task_graph_error-IsRanked ts h = elim (Option-cases (repeated_key [] ts)) [
  | inr (key, e) ↦ absurd (refused (rw (e, task_graph_error) at h))
  | inl e ↦ elim (Option-cases (unknown_dependency (task_keys ts) ts)) [
    | inr ((key, d), w) ↦ absurd (refused (rw (e, w, task_graph_error) at h))
    | inl w ↦
        cycle_error-IsRanked ts (repeated_key-Distinct [] ts e).0 (rw (e, w, task_graph_error) at h)
  ]
]
  where
    refused : {message : String} → some message ≡ none → ⊥
    refused e = cc e

-- The tasks of a graph that validation accepts never get stuck, whatever their outcomes and the
-- cancellations: the scheduling loop ends with `unschedulable` false.
pub run_tasks-validate_task_graph :
    (perform : Task → RunTaskInfo) (cancelled : ℕ → Bool) (ts : List Task) (u : Unit {0})
    → validate_task_graph ts ≡ ok u
    → (final : Results) × (run_tasks perform cancelled ts ≡ some (final, false))
unfolding validate_task_graph
run_tasks-validate_task_graph perform cancelled ts u h = elim (Option-cases (task_graph_error ts)) [
  | inl e ↦
      let (rank, ranked) = task_graph_error-IsRanked ts e in
      run_tasks_acyclic perform rank cancelled ts ranked
  | inr (message, e) ↦ absurd (refused (rw (e, validate_task_graph) at h))
]
  where
    refused : {x : Exception} → raised x ≡ ok u → ⊥
    refused e = cc e
