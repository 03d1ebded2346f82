-- ===== src/Jobs/Stored/Runs.antt =====
-- The handlers on runs, one by one, and what is stored.
use minilake.Prelude.{
  ℕ, ◌<◌, String, ◌≡◌, ◌⊎◌, inl, inr, sym, true, List, arith, nat_eq, string_eq, Option-cases,
}
use minilake.Prelude.Dict.{Dict, get, get-put_nat, get-remove_nat}
use minilake.Jobs.Model.{State, Run}
use minilake.Jobs.Crud.{take_run_id}
use minilake.Jobs.Runs.{begin_run, get_run, cancel_run, delete_run}
use minilake.Jobs.Events.{}
use minilake.Jobs.Stored.{IsSound}

begin_run-IsSound :
    (r : Run) (argv : List String) (s : State) (h : IsSound s)
    → r.run_id < s.next_run_id
    → IsSound (begin_run r argv s).1
unfolding begin_run
begin_run-IsSound r argv s h bound = record {
  graph = h.graph;
  job_bound = h.job_bound;
  run_bound = λ k found. ground (arith, h.run_bound k, get-put_nat s.runs r.run_id r k);
}

pub cancel-IsSound : (id : ℕ) (s : State) → IsSound s → IsSound (cancel_run id s).1
unfolding cancel_run get_run
cancel-IsSound id s h = record {
  graph = λ k j found. ground (arith, h.graph k j);
  job_bound = λ k found. ground (arith, h.job_bound k);
  run_bound = λ k found. elim (Option-cases (get s.runs id)) [
    | inl e ↦ ground (arith, e, h.run_bound k)
    | inr (r, e) ↦ ground (
      arith,
      e,
      h.run_bound k,
      h.run_bound id,
      get-put_nat s.runs id (record r { cancel_requested = true }) k,
    )
  ];
}

pub drop_run-IsSound : (id : ℕ) (s : State) → IsSound s → IsSound (delete_run id s).1
unfolding delete_run get_run
drop_run-IsSound id s h = record {
  graph = λ k j found. ground (arith, h.graph k j);
  job_bound = λ k found. ground (arith, h.job_bound k);
  run_bound = λ k found. ground (arith, h.run_bound k, get-remove_nat s.runs id k);
}

-- A new run takes the next id.
take_run_id-IsSound : (s : State) → IsSound s → IsSound (take_run_id s).1
unfolding take_run_id
take_run_id-IsSound s h = record {
  graph = h.graph;
  job_bound = h.job_bound;
  run_bound = λ k found. omega (arith, h.run_bound k found);
}

new_run-IsSound :
    (r : Run) (argv : List String) (s : State)
    → r.run_id ≡ s.next_run_id
    → IsSound s
    → IsSound (begin_run r argv (take_run_id s).1).1
unfolding take_run_id
new_run-IsSound r argv s next h =
    begin_run-IsSound r argv (take_run_id s).1 (take_run_id-IsSound s h) (omega (arith, next))

abbrev pub NewRun : State → State → Type 0
NewRun s t =
    (s ≡ t)
    ⊎ (r : Run) × (argv : List String) × (run_now_tokens : Dict String ℕ) × (submit_tokens : Dict
        String ℕ)
      × (r.run_id ≡ s.next_run_id)
      × (t ≡ record (begin_run r argv (take_run_id s).1).1 {
        run_now_tokens = run_now_tokens;
        submit_tokens = submit_tokens;
      })

pub NewRun-IsSound : (s t : State) → NewRun s t → IsSound s → IsSound t
NewRun-IsSound s t (inl same) h = rw (sym same) h
NewRun-IsSound s t (inr (r, argv, rt, st, next, e)) h =
    let n = new_run-IsSound r argv s next h in
    rw e (record { graph = n.graph; job_bound = n.job_bound; run_bound = n.run_bound })
