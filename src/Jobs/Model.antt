-- ===== src/Jobs/Model.antt =====
-- models/jobs.py and the `_state` of services/jobs.py. What a task executes is left abstract.
use minilake.Prelude.{ℕ, String, Bool, Option, List, []}
use minilake.Prelude.Dict.{Dict}
use minilake.Json.{Value}

pub data RunLifeCycleState : Type 0 where
  pending running terminating terminated skipped internal_error blocked queued waiting_for_retry :
      RunLifeCycleState

pub data RunResultState : Type 0 where
  success failed timedout canceled upstream_failed : RunResultState

pub data RunIf : Type 0 where
  all_success all_done at_least_one_success all_failed at_least_one_failed none_failed : RunIf

pub record RunState : Type 0 where
  pub life_cycle_state : RunLifeCycleState
  pub result_state : Option RunResultState
  pub state_message : Option String

-- A task; `body` stands for the fields that say what it executes.
pub record Task : Type 0 where
  pub task_key : String
  pub depends_on : Option (List String)
  pub run_if : Option RunIf
  pub body : Value

pub record RunTaskInfo : Type 0 where
  pub task_key : String
  pub run_id : Option ℕ
  pub state : Option RunState

-- One top-level field of a job's settings, as `model_dump` gives it.
pub data Setting : Type 0 where
  tasks : List Task → Setting
  other : Value → Setting

abbrev pub Settings : Type 0
Settings = Dict String Setting

pub record Job : Type 0 where
  pub job_id : ℕ
  pub created_time : ℕ
  pub creator_user_name : String
  pub settings : Settings

pub record Run : Type 0 where
  pub run_id : ℕ
  pub job_id : Option ℕ
  pub run_name : Option Setting
  pub state : RunState
  pub start_time : ℕ
  pub end_time : Option ℕ
  pub tasks : List RunTaskInfo
  pub cancel_requested : Bool
  -- `_tasks`, which a submitted run carries
  pub own_tasks : Option (List Task)

pub record TaskOutput : Type 0 where
  pub logs : Option String
  pub error : Option String

pub record State : Type 0 where
  pub jobs : Dict ℕ Job
  pub runs : Dict ℕ Run
  pub task_outputs : Dict ℕ TaskOutput
  pub submit_tokens : Dict String ℕ
  pub run_now_tokens : Dict String ℕ
  pub next_job_id : ℕ
  pub next_run_id : ℕ
  -- the `_execute_run` calls that `asyncio.create_task` was given, with their argv
  pub started : List (ℕ × List String)

abbrev pub initial : State
initial = record {
  jobs = [];
  runs = [];
  task_outputs = [];
  submit_tokens = [];
  run_now_tokens = [];
  next_job_id = 1;
  next_run_id = 1;
  started = [];
}
