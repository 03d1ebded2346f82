-- ===== src/Jobs/Crud.antt =====
-- The handlers on jobs. A request's settings are its `model_dump(exclude_none=True)`.
use minilake.Prelude.{ℕ, ◌+◌, String, ◌<>◌, Option, none, some, List, [], ◌∷◌, nat_eq, string_eq}
use minilake.Prelude.Dict.{get, put, remove, update, values}
use minilake.Text.{show}
use minilake.Errors.{Exec, Exception, ok, pure, gets, lift, or_raise, ◌>>=◌, ◌>>◌, modify, error}
use minilake.Jobs.Model.{State, Job, Task, Settings, tasks}
use minilake.Jobs.Graph.{validate_task_graph}

abbrev pub job_not_found : ℕ → Exception
job_not_found id = error "NOT_FOUND" ("Job " <> show id <> " not found") 404

-- `_tasks_from_settings`
unfoldable pub tasks_from_settings : Settings → List Task
tasks_from_settings settings = elim (get settings "tasks") [ some (tasks ts) ↦ ts | _ ↦ [] ]

-- `_next_job_id` and `_next_run_id`
unfoldable pub take_job_id : Exec State ℕ
take_job_id s = (ok s.next_job_id, record s { next_job_id = s.next_job_id + 1 })

unfoldable pub take_run_id : Exec State ℕ
take_run_id s = (ok s.next_run_id, record s { next_run_id = s.next_run_id + 1 })

unfoldable pub create_job : ℕ → Settings → Exec State ℕ
unfolding take_job_id
create_job now req = do
  lift (validate_task_graph (tasks_from_settings req))
  job_id ← take_job_id
  modify λ s. record s {
    jobs = put s.jobs job_id (record {
      job_id = job_id;
      created_time = now;
      creator_user_name = "minilake-user";
      settings = req;
    });
  }
  pure job_id

unfoldable pub get_job : ℕ → Exec State Job
get_job id = do jobs ← gets (λ s. s.jobs); or_raise (get jobs id) (job_not_found id)

unfoldable pub list_jobs : State → List Job
list_jobs s = values s.jobs

-- `for field in fields: settings.pop(field, None)`
unfoldable pub without : Settings → List String → Settings
without settings [] = settings
without settings (field ∷ fields) = without (remove settings field) fields

-- The stored settings of a known job change as one write.
unfoldable pub put_settings : ℕ → Job → Settings → Exec State (Unit {0})
put_settings id job settings =
    modify (λ s. record s { jobs = put s.jobs id (record job { settings = settings }) })

-- `sent` is the dump of the fields that the request set, if it has new settings at all.
unfoldable pub merged : Settings → Option Settings → List String → Settings
unfolding without
merged settings none fields = without settings fields
merged settings (some sent) fields = without (update settings sent) fields

unfoldable pub update_job : ℕ → Option Settings → List String → Exec State (Unit {0})
unfolding get_job put_settings
update_job id sent fields_to_remove = do
  job ← get_job id
  lift (validate_task_graph (tasks_from_settings (merged job.settings sent fields_to_remove)))
  put_settings id job (merged job.settings sent fields_to_remove)

unfoldable pub reset_job : ℕ → Settings → Exec State (Unit {0})
unfolding get_job put_settings
reset_job id new_settings = do
  job ← get_job id
  lift (validate_task_graph (tasks_from_settings new_settings))
  put_settings id job new_settings

unfoldable pub delete_job : ℕ → Exec State (Unit {0})
unfolding get_job
delete_job id = do get_job id; modify (λ s. record s { jobs = remove s.jobs id })
