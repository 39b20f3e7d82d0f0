-- ===== src/Tasks/Ops.antt =====
-- src/llm_sca_tooling/mcp_server/tasks.py: the methods of `TaskManager`. A method takes the time of
-- the call, and returns the manager that it leaves behind together with its value or exception.
use llm_sca_tooling.Prelude.{
  ℕ, zero, suc, ◌+◌, ◌*◌, min, String, Bool, true, false, not, ◌&&◌, Option, none, some, List, [],
  ◌∷◌, ◌++◌, ltb, if◌then◌else◌, any, opt_str_eq,
}
use llm_sca_tooling.Prelude.Dict.{Dict, lookup, insert, modify, remove, values, map_values}
use llm_sca_tooling.Tasks.Model.{
  TaskStatus, created, queued, running, cancelling, cancelled, failed, completed, expired, Progress,
  TaskRecord, Config, task_listing_allowed, scheduled, awaiting, Manager, Call, and_then,
  task_not_found, tool_permission_denied, error_code, error_message, Result, ok, err, Outcome,
  returned, raised,
}

-- `status in {"created", "queued", "running", "cancelling"}`
unfoldable pub in_flight : TaskStatus → Bool
in_flight created = true
in_flight queued = true
in_flight running = true
in_flight cancelling = true
in_flight _ = false

-- `ttl_seconds or default`: no value and 0 both mean the default.
unfoldable pub requested_ttl : Option ℕ → ℕ → ℕ
requested_ttl none default = default
requested_ttl (some zero) default = default
requested_ttl (some (suc n)) default = suc n

unfoldable pub may_access : Option String → Option String → Bool
may_access none given = true
may_access (some h) given = opt_str_eq given (some h)

abbrev microseconds : ℕ
microseconds = 1000000

module _ {J : Type 0} where
  unfoldable pub save : Manager J → Manager J
  save m = record m { saved = m.tasks }

  unfoldable pub record_task_event :
      String → String → TaskStatus → Option Progress → ℕ → Manager J → Manager J
  record_task_event id type status payload now m =
      if m.telemetry_enabled
      then record m {
        events =
            m.events
            ++ record { type = type; status = status; task_id = id; payload = payload; ts = now }
              ∷ [];
      }
      else m

  -- `{row["task_id"]: row for row in rows}`
  unfoldable pub index_rows : Dict (TaskRecord J) → List (TaskRecord J) → Dict (TaskRecord J)
  index_rows tasks [] = tasks
  index_rows tasks (t ∷ rows) = index_rows (insert t.task_id t tasks) rows

  -- A file that is not there is an empty `saved`.
  unfoldable pub load : Manager J → Manager J
  unfolding index_rows
  load m = record m { tasks = index_rows [] (values m.saved) }

  unfoldable pub recover_task : ℕ → TaskRecord J → TaskRecord J
  unfolding in_flight
  recover_task now t =
      if in_flight t.status
      then record t {
        status = failed;
        error = some (record {
          code = "TaskRestartRecovery";
          message = "task was in-flight during server restart";
        });
        updated_ts = now;
        completed_ts = some now;
      }
      else t

  unfoldable pub recover_inflight : ℕ → Manager J → Manager J
  unfolding recover_task save in_flight
  recover_inflight now m =
      let m' = record m { tasks = map_values (recover_task now) m.tasks } in
      if any (λ t. in_flight t.status) (values m.tasks) then save m' else m'

  -- `__init__`: no coroutine survives, and the tasks come from the file.
  unfoldable pub restart : ℕ → Manager J → Manager J
  unfolding load recover_inflight
  restart now m = recover_inflight now (load (record m { tasks = []; running = [] }))

  module _ (cfg : Config) where
    unfoldable pub new_task :
        (id tool input_hash : String) (ttl : Option ℕ) (auth run : Option String) (metadata : J)
        → ℕ
        → TaskRecord J
    unfolding requested_ttl
    new_task id tool input_hash ttl auth run metadata now =
        let t = min (requested_ttl ttl cfg.task_ttl_seconds_default) cfg.task_ttl_seconds_max in
        record {
          task_id = id;
          tool_name = tool;
          status = queued;
          created_ts = now;
          started_ts = none;
          updated_ts = now;
          completed_ts = none;
          expires_ts = now + t * microseconds;
          ttl_seconds = t;
          poll_interval_seconds = cfg.task_poll_interval_seconds;
          progress = Progress.brief "queued" 0;
          authorization_context_hash = auth;
          input_hash = input_hash;
          result = none;
          error = none;
          run_id = run;
          event_ids = [];
          cancellation_requested = false;
          metadata = metadata;
        }

    -- `id` is what `new_task_id()` draws, `input_hash` the digest of the arguments.
    unfoldable pub create_task :
        (id tool input_hash : String) (ttl : Option ℕ) (auth run : Option String) (metadata : J)
        → ℕ
        → Manager J
        → Manager J × TaskRecord J
    unfolding save record_task_event new_task
    create_task id tool input_hash ttl auth run metadata now m =
        let t = new_task id tool input_hash ttl auth run metadata now in
        (
          record_task_event id "task_created" queued none now
              (save (record m { tasks = insert id t m.tasks })),
          t,
        )

    unfoldable pub submit :
        (id tool input_hash : String) (auth run : Option String) (metadata : J)
        → ℕ
        → Manager J
        → Manager J × TaskRecord J
    unfolding create_task
    submit id tool input_hash auth run metadata now m =
        let (m', t) = create_task id tool input_hash none auth run metadata now m in
        (record m' { running = insert id scheduled m'.running }, t)

    unfoldable pub list_tasks : Manager J → Result (List (TaskRecord J))
    unfolding task_listing_allowed
    list_tasks m =
        if task_listing_allowed cfg
        then ok (values m.tasks)
        else err (tool_permission_denied "task listing is disabled by server policy")

  -- `get`, once the record is found.
  unfoldable pub get_found :
      String
      → (given : Option String) (include_expired : Bool) → ℕ
      → TaskRecord J
      → Manager J
      → Call J (TaskRecord J)
  unfolding may_access save
  get_found id given include_expired now t m =
      if not (may_access t.authorization_context_hash given)
      then (m, err (tool_permission_denied "task authorization context does not match"))
      else if not include_expired && ltb t.expires_ts now
      then (
        save (record m { tasks = modify id (λ u. record u { status = expired }) m.tasks }),
        ok (record t { status = expired }),
      )
      else (m, ok t)

  unfoldable pub get :
      String
      → (given : Option String) (include_expired : Bool) → ℕ
      → Manager J
      → Call J (TaskRecord J)
  unfolding get_found
  get id given include_expired now m = elim (lookup id m.tasks) [
    | none ↦ (m, err (task_not_found id))
    | some t ↦ get_found id given include_expired now t m
  ]

  abbrev pub progressed :
      String → Option String → Option ℕ → Dict ℕ → ℕ → TaskRecord J → TaskRecord J
  progressed stage message percent counts now t = record t {
    progress = Progress.full stage message percent counts now;
    updated_ts = now;
  }

  unfoldable pub update_progress :
      String
      → (stage : String) (message : Option String) (percent : Option ℕ) (counts : Dict ℕ) → ℕ
      → Manager J
      → Call J (TaskRecord J)
  unfolding get save record_task_event
  update_progress id stage message percent counts now m = and_then (get id none true now m) λ t m'.
      let f = progressed stage message percent counts now in
      (
        record_task_event id "task_progress" t.status (some (f t).progress) now
            (save (record m' { tasks = modify id f m'.tasks })),
        ok (f t),
      )

  -- What `result` returns: the task, and the value if there is one to give.
  unfoldable pub result : String → ℕ → Manager J → Call J (TaskRecord J × Option (Option J))
  result id now m =
      and_then (get id none false now m)
        λ t m'. (m', ok (t, elim t.status [ completed ↦ some t.result | _ ↦ none ]))

  unfoldable pub cancelled_record : ℕ → TaskRecord J → TaskRecord J
  cancelled_record now t = elim t.status [
    | created ↦ record t {
      cancellation_requested = true;
      status = cancelled;
      completed_ts = some now;
      updated_ts = now;
    }
    | queued ↦ record t {
      cancellation_requested = true;
      status = cancelled;
      completed_ts = some now;
      updated_ts = now;
    }
    | running ↦ record t { cancellation_requested = true; status = cancelling; updated_ts = now }
    | _ ↦ record t { cancellation_requested = true; updated_ts = now }
  ]

  unfoldable pub cancel : String → ℕ → Manager J → Call J (TaskRecord J)
  unfolding get save record_task_event cancelled_record
  cancel id now m = and_then (get id none true now m) λ t m'.
      let f = cancelled_record now in
      (
        record_task_event id "task_cancel_requested" (f t).status none now
            (save (record m' { tasks = modify id f m'.tasks })),
        ok (f t),
      )

  unfoldable pub failed_record : (code message : String) → ℕ → TaskRecord J → TaskRecord J
  failed_record code message now t = record t {
    status = failed;
    error = some (record { code = code; message = message });
    completed_ts = some now;
    updated_ts = now;
  }

  unfoldable pub finished_record : J → ℕ → TaskRecord J → TaskRecord J
  finished_record value now t =
      if t.cancellation_requested
      then record t {
        status = cancelled;
        error = some (record { code = "TaskCancelled"; message = "task cancelled" });
        completed_ts = some now;
        updated_ts = now;
      }
      else record t {
        status = completed;
        result = some value;
        progress = Progress.brief "completed" 100;
        completed_ts = some now;
        updated_ts = now;
      }

  -- The `except` and `finally` blocks of `_execute`.
  unfoldable pub execute_failed : String → (code message : String) → ℕ → Manager J → Manager J
  unfolding failed_record save record_task_event
  execute_failed id code message now m = save (
      let m' =
        record_task_event id "task_failed" failed none now
          (record m { tasks = modify id (failed_record code message now) m.tasks }) in
      record m' { running = remove id m'.running })

  abbrev pub started : ℕ → TaskRecord J → TaskRecord J
  started now t = record t { status = running; started_ts = some now; updated_ts = now }

  -- The rest of the `try` block up to `await`, after `update_progress`.
  unfoldable pub begin_run : String → ℕ → Call J (TaskRecord J) → Manager J
  unfolding save execute_failed error_code error_message
  begin_run id now (m, err e) = execute_failed id (error_code e) (error_message e) now m
  begin_run id now (m, ok t) = save (record m {
    tasks = modify id (started now) m.tasks;
    running = modify id (λ _. awaiting) m.running;
  })

  -- `_execute` up to `await runner(task)`.
  unfoldable pub execute_start : String → ℕ → Manager J → Manager J
  execute_start id now m = begin_run id now (update_progress id "running" none (some 10) [] now m)

  -- `_execute` from the end of `await runner(task)`; `t` is the task's record at that moment.
  unfoldable pub execute_finish : String → TaskRecord J → Outcome J → ℕ → Manager J → Manager J
  unfolding finished_record save record_task_event execute_failed
  execute_finish id t (raised code message) now m = execute_failed id code message now m
  execute_finish id t (returned value) now m = save (
      let m' =
        record_task_event id "task_completed" (finished_record value now t).status none now
          (record m { tasks = modify id (finished_record value now) m.tasks }) in
      record m' { running = remove id m'.running })
