-- ===== src/Tasks/Tests.antt =====
-- A small server, what it does, and the theorems about tasks at it. A JSON object is a number here.
use llm_sca_tooling.Tasks.Recovery.{restart_settles}
use llm_sca_tooling.Tasks.Access.{denied, submit-bound_fails, bound-denied, submit-result}
use llm_sca_tooling.Tasks.Cancel.{IsDoomed, cancel-never_completed}
use llm_sca_tooling.Tasks.Steps.{Reach, Step, Reach-IsValid}
use llm_sca_tooling.Tasks.Ops.{
  submit, new_task, get, execute_start, execute_finish, restart, cancel, failed_record, in_flight,
  result, save, cancelled_record, update_progress, finished_record, record_task_event, index_rows,
  load, recover_task, recover_inflight, create_task, get_found, execute_failed, begin_run,
  requested_ttl, may_access,
}
use llm_sca_tooling.Tasks.Store.{IsValid}
use llm_sca_tooling.Prelude.{ℕ, ◌≡◌, refl, true, false, none, some, [], arith, eq_iff}
use llm_sca_tooling.Prelude.Dict.{lookup, insert, modify, remove}
use llm_sca_tooling.Tasks.Model.{
  TaskRecord, TaskStatus, failed, Config, Manager, ok, err, Progress, returned, error_code,
  error_message,
}

program : Unit {0}
unfolding lookup insert modify remove save record_task_event index_rows load recover_task
    recover_inflight restart new_task create_task submit get_found get update_progress result cancel
    failed_record finished_record execute_failed begin_run execute_start execute_finish in_flight
    requested_ttl may_access cancelled_record error_code error_message
program = tt

abbrev config : Config
config = record {
  single_user = true;
  enable_task_list = false;
  task_ttl_seconds_default = 3600;
  task_ttl_seconds_max = 86400;
  task_poll_interval_seconds = 1;
}

abbrev empty : Manager ℕ
empty = record { tasks = []; running = []; saved = []; telemetry_enabled = true; events = [] }

empty-IsValid : IsValid empty
empty-IsValid = record { persisted = refl; keyed = tt; distinct = tt }

one : Manager ℕ
one = (submit config "task:a" "graph_build" "ff" none none 7 1000 empty).0

one-Reach : Reach config empty one
unfolding one program
one-Reach =
    Reach.next Reach.here (Step.submit_step "task:a" "graph_build" "ff" none none 7 1000 empty refl)

one-IsValid : IsValid one
one-IsValid = Reach-IsValid empty-IsValid one-Reach

one_task : TaskRecord ℕ
one_task = new_task config "task:a" "graph_build" "ff" none none none 7 1000

one-lookup : lookup "task:a" one.tasks ≡ some one_task
unfolding one one_task program
one-lookup = refl

Reach-IsValid_example : IsValid one
Reach-IsValid_example = Reach-IsValid empty-IsValid one-Reach

cancel-never_completed_example : IsDoomed "task:a" (restart 3000 (cancel "task:a" 2000 one).0)
unfolding one one_task program
cancel-never_completed_example =
    cancel-never_completed config "task:a" 2000 one (restart 3000 (cancel "task:a" 2000 one).0)
      {t = cancelled_record 2000 one_task} one-IsValid refl (λ h. cc)
      (Reach.next Reach.here (Step.restart_step 3000 (cancel "task:a" 2000 one).0))

bound : Manager ℕ
bound = (submit config "task:b" "graph_build" "ff" (some "alice") none 7 1000 empty).0

bound_task : TaskRecord ℕ
bound_task = new_task config "task:b" "graph_build" "ff" none (some "alice") none 7 1000

bound-denied_example :
    (get "task:b" (some "bob") false 1500 bound ≡ (bound, err denied))
    × (result "task:b" 1500 bound ≡ (bound, err denied))
    × (cancel "task:b" 1500 bound ≡ (bound, err denied))
    × (update_progress "task:b" "parse" none (some 5) [] 1500 bound ≡ (bound, err denied))
unfolding bound bound_task program
bound-denied_example =
    bound-denied "task:b" "alice" "parse" (some "bob") none (some 5) [] false 1500 bound
      {t = bound_task} refl refl (λ h. ground (arith, eq_iff "bob" "alice"))

submit-bound_fails_example :
    let m' =
      execute_start "task:b" 2000
        (submit config "task:b" "graph_build" "ff" (some "alice") none 7 1000 empty).0 in
    (lookup "task:b" m'.tasks
      ≡ some (
          failed_record "ToolPermissionDeniedError" "task authorization context does not match" 2000
            bound_task))
    × (lookup "task:b" m'.running ≡ none)
unfolding bound_task
submit-bound_fails_example =
    submit-bound_fails config "task:b" "graph_build" "ff" "alice" none 7 1000 2000 empty

one_began : TaskRecord ℕ
one_began = record one_task {
  status = TaskStatus.running;
  started_ts = some 2000;
  updated_ts = 2000;
  progress = Progress.full "running" none (some 10) [] 2000;
}

submit-result_example :
    let m3 = execute_finish "task:a" one_began (returned 42) 3000 (
      execute_start "task:a" 2000
        (submit config "task:a" "graph_build" "ff" none none 7 1000 empty).0) in
    ((result "task:a" 4000 m3).1 ≡ ok (finished_record 42 3000 one_began, some (some 42)))
    × (lookup "task:a" m3.running ≡ none)
unfolding one_began one_task program
submit-result_example =
    submit-result config "task:a" "graph_build" "ff" none 7 42 1000 2000 3000 4000 empty one_began
      refl (omega arith)

restart_settles_example :
    (u : TaskRecord ℕ) × (lookup "task:a" (restart 5000 one).tasks ≡ some u)
    × (lookup "task:a" (restart 5000 one).saved ≡ some u)
    × (in_flight u.status ≡ false)
    × (in_flight one_task.status ≡ false → u ≡ one_task)
    × (in_flight one_task.status ≡ true → u.status ≡ failed)
    × ((restart 5000 one).running ≡ [])
restart_settles_example = restart_settles 5000 one "task:a" one-IsValid one-lookup
