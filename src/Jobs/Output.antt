-- ===== src/Jobs/Output.antt =====
-- `get_run_output`.
use minilake.Prelude.{
  ℕ, String, Option, none, some, List, [], ◌∷◌, ◌++◌, nat_eq, string_eq, option_eq, nonempty,
  if◌then◌else◌,
}
use minilake.Prelude.Dict.{Dict, get}
use minilake.Text.{join}
use minilake.Errors.{Exec, pure, raise, gets, ◌>>=◌}
use minilake.Jobs.Model.{State, RunTaskInfo, TaskOutput}
use minilake.Jobs.Runs.{run_not_found}

-- `runs/get-output`
abbrev text_parts : Option String → List String
text_parts none = []
text_parts (some t) = if nonempty t then t ∷ [] else []

-- `task_outputs.get(task.get("run_id"))`
abbrev output_of : Dict ℕ TaskOutput → Option ℕ → Option TaskOutput
output_of outputs none = none
output_of outputs (some id) = get outputs id

outputs_of : (TaskOutput → Option String) → Dict ℕ TaskOutput → List RunTaskInfo → List String
outputs_of part outputs [] = []
outputs_of part outputs (task ∷ tasks) = elim (output_of outputs task.run_id) [
  | none ↦ outputs_of part outputs tasks
  | some out ↦ text_parts (part out) ++ outputs_of part outputs tasks
]

abbrev or_none : String → Option String
or_none t = if nonempty t then some t else none

unfoldable pub get_run_output : ℕ → Exec State TaskOutput
unfolding outputs_of
get_run_output id = do
  outputs ← gets (λ (s : State). s.task_outputs)
  runs ← gets (λ (s : State). s.runs)
  elim (get outputs id) [
    | some out ↦ pure out
    | none ↦ elim (get runs id) [
      | none ↦ raise (run_not_found id)
      | some run ↦ pure (record {
        logs = or_none (join "\n" (outputs_of (λ o. o.logs) outputs run.tasks));
        error = or_none (join "\n" (outputs_of (λ o. o.error) outputs run.tasks));
      })
    ]
  ]
