-- ===== src/Jobs/Events.antt =====
-- The requests of services/jobs.py as events on its state.
use minilake.Prelude.{ℕ, String, Option, List, [], ◌∷◌}
use minilake.Jobs.Model.{State, Task, Settings}
use minilake.Jobs.Crud.{create_job, update_job, reset_job, delete_job}
use minilake.Jobs.Runs.{Params, run_now, submit_run, cancel_run, delete_run}

pub data Event : Type 0 where
  create : (now : ℕ) (req : Settings) → Event
  update : (id : ℕ) (sent : Option Settings) (fields_to_remove : List String) → Event
  reset : (id : ℕ) (new_settings : Settings) → Event
  drop : (id : ℕ) → Event
  trigger_run :
      (now id : ℕ) (token : Option String) (python_params : Option (List String))
      (notebook_params job_parameters : Option Params)
      → Event
  submit : (now : ℕ) (tasks : Option (List Task)) (name token : Option String) → Event
  cancel : (id : ℕ) → Event
  drop_run : (id : ℕ) → Event

unfoldable pub step : Event → State → State
step (create now req) s = (create_job now req s).1
step (update id sent fields_to_remove) s = (update_job id sent fields_to_remove s).1
step (reset id new_settings) s = (reset_job id new_settings s).1
step (drop id) s = (delete_job id s).1
step (trigger_run now id token python_params notebook_params job_parameters) s =
    (run_now now id token python_params notebook_params job_parameters s).1
step (submit now tasks name token) s = (submit_run now tasks name token s).1
step (cancel id) s = (cancel_run id s).1
step (drop_run id) s = (delete_run id s).1

unfoldable pub run : List Event → State → State
unfolding step
run [] s = s
run (e ∷ es) s = run es (step e s)
