-- ===== src/Jobs/Graph.antt =====
-- The validation of a task graph: `_task_graph_error`, which is Kahn's algorithm.
pub mod Relaxation
pub mod Order
pub mod Visits
pub mod Start
pub mod Ranking
pub mod Members
pub mod Accepted
use minilake.Prelude.{
  ℕ, zero, suc, ◌+◌, String, ◌<>◌, not, Option, none, some, List, [], ◌∷◌, ◌++◌, ◌==◌, string_eq,
  contains, select, length, eqb, is_empty, get_or, if◌then◌else◌,
}
use minilake.Prelude.Dict.{Dict, get, put}
use minilake.Errors.{Result, ok, raised, error}
use minilake.Jobs.Model.{Task}

-- `{d.task_key for d in (task.depends_on or [])}`. A set's order is not specified; here it is that of
-- the first occurrences.
unfoldable pub distinct : List String → List String → List String
distinct seen [] = []
distinct seen (k ∷ ks) =
    let skip = distinct seen ks in
    let keep = k ∷ distinct (k ∷ seen) ks in if contains seen k then skip else keep

unfoldable pub dependencies : Task → List String
unfolding distinct
dependencies task = distinct [] (get_or task.depends_on [])

unfoldable pub task_keys : List Task → List String
task_keys [] = []
task_keys (task ∷ tasks) = task.task_key ∷ task_keys tasks

-- The first loop: a key that was seen before.
unfoldable pub repeated_key : List String → List Task → Option String
repeated_key seen [] = none
repeated_key seen (task ∷ tasks) =
    let rest = repeated_key (task.task_key ∷ seen) tasks in
    if contains seen task.task_key then some task.task_key else rest

unfoldable pub first_unknown : List String → List String → Option String
first_unknown keys [] = none
first_unknown keys (d ∷ ds) =
    let rest = first_unknown keys ds in if contains keys d then rest else some d

-- The second loop: a dependency that is no task.
unfoldable pub unknown_dependency : List String → List Task → Option (String × String)
unknown_dependency keys [] = none
unknown_dependency keys (task ∷ tasks) = elim (first_unknown keys (dependencies task)) [
  | some d ↦ some (task.task_key, d)
  | none ↦ unknown_dependency keys tasks
]

-- What the second loop leaves in `dependencies_by_key`, and under one key of `dependents_by_key`.
unfoldable pub dependencies_by_key : List Task → Dict String (List String)
unfolding dependencies
dependencies_by_key [] = []
dependencies_by_key (task ∷ tasks) = (task.task_key, dependencies task) ∷ dependencies_by_key tasks

unfoldable pub dependents_of : String → List Task → List String
unfolding dependencies
dependents_of key [] = []
dependents_of key (task ∷ tasks) =
    let rest = dependents_of key tasks in
    if contains (dependencies task) key then task.task_key ∷ rest else rest

-- The keys that wait for nothing.
unfoldable pub initially_ready : Dict String (List String) → List String
initially_ready [] = []
initially_ready ((key, ds) ∷ rest) =
    let later = initially_ready rest in if is_empty ds then key ∷ later else later

-- `dependencies.remove(task_key)` for each dependent, which becomes ready when none is left.
unfoldable pub relax :
    String
    → List String
    → Dict String (List String)
    → List String
    → Dict String (List String) × List String
relax key [] waiting ready = (waiting, ready)
relax key (dependent ∷ dependents) waiting ready =
    let left = select (λ d. not (d == key)) (get_or (get waiting dependent) []) in
    relax key dependents (put waiting dependent left)
      (if is_empty left then ready ++ dependent ∷ [] else ready)

-- `while ready: …`, which counts the visited tasks; every round takes one key off the queue.
unfoldable pub visit : ℕ → List Task → Dict String (List String) → List String → ℕ → Option ℕ
unfolding relax
visit fuel tasks waiting [] visited = some visited
visit zero tasks waiting (key ∷ ready) visited = none
visit (suc fuel) tasks waiting (key ∷ ready) visited =
    let (waiting', ready') = relax key (dependents_of key tasks) waiting ready in
    visit fuel tasks waiting' ready' (visited + 1)

abbrev cycle_message : String
cycle_message = "Task dependencies contain a cycle."

-- The fuel is the number of tasks; without fuel the answer is that of a cycle.
unfoldable pub cycle_error : List Task → Option String
unfolding visit
cycle_error tasks =
    elim (visit (length tasks) tasks (dependencies_by_key tasks)
      (initially_ready (dependencies_by_key tasks)) 0) [
        | none ↦ some cycle_message
        | some visited ↦ if eqb visited (length tasks) then none else some cycle_message
      ]

unfoldable pub task_graph_error : List Task → Option String
unfolding repeated_key unknown_dependency cycle_error task_keys
task_graph_error tasks = elim (repeated_key [] tasks) [
  | some key ↦ some ("Task key '" <> key <> "' is not unique.")
  | none ↦ elim (unknown_dependency (task_keys tasks) tasks) [
    | some (key, d) ↦ some ("Task '" <> key <> "' depends on unknown task '" <> d <> "'.")
    | none ↦ cycle_error tasks
  ]
]

unfoldable pub validate_task_graph : List Task → Result (Unit {0})
validate_task_graph tasks = elim (task_graph_error tasks) [
  | none ↦ ok tt
  | some message ↦ raised (error "INVALID_PARAMETER_VALUE" message 400)
]
