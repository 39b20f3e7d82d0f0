-- ===== src/Tasks/Access.antt =====
-- Tasks that carry an authorization context, and what a task of no context gives back.
use llm_sca_tooling.Tasks.Effects.{update_progress_cases}
use llm_sca_tooling.Tasks.Steps.{create_task-store}
use llm_sca_tooling.Tasks.Ops.{
  get, result, execute_start, get_found, cancel, begin_run, submit, may_access, update_progress,
  execute_failed, execute_finish, failed_record, new_task, finished_record, started, progressed,
}
use llm_sca_tooling.Prelude.{
  ℕ, String, ◌≡◌, ◌≢◌, ◌≤◌, refl, ap, ◌∙◌, Bool, true, false, Option, none, some, arith, inl, inr,
  opt_str_eq_iff, eq_refl, [],
}
use llm_sca_tooling.Prelude.Dict.{
  Dict, lookup, lookup-insert, lookup-modify, lookup-remove, modify, modify-modify,
}
use llm_sca_tooling.Tasks.Model.{
  TaskRecord, completed, Config, Manager, ok, err, Error, tool_permission_denied, returned,
  error_code, error_message,
}

-- The exception that a call without the right context raises.
abbrev pub denied : Error
denied = tool_permission_denied "task authorization context does not match"

module _ {J : Type 0} where
  pub get-denied :
      (id h : String) (given : Option String) (all : Bool) (now : ℕ) (m : Manager J)
      {t : TaskRecord J}
      → lookup id m.tasks ≡ some t
      → t.authorization_context_hash ≡ some h
      → given ≢ some h
      → get id given all now m ≡ (m, err denied)
  unfolding get get_found may_access
  get-denied id h given all now m found bound other = ground (arith, opt_str_eq_iff given (some h))

  -- On a task that carries an authorization context, `get` with no or another context raises
  -- ToolPermissionDenied and changes nothing, and so do `result`, `cancel` and `update_progress`,
  -- which pass no context.
  pub bound-denied :
      (id h stage : String) (given message : Option String) (percent : Option ℕ) (counts : Dict ℕ)
      (all : Bool) (now : ℕ) (m : Manager J) {t : TaskRecord J}
      → lookup id m.tasks ≡ some t
      → t.authorization_context_hash ≡ some h
      → given ≢ some h
      → (get id given all now m ≡ (m, err denied))
        × (result id now m ≡ (m, err denied))
        × (cancel id now m ≡ (m, err denied))
        × (update_progress id stage message percent counts now m ≡ (m, err denied))
  unfolding result cancel update_progress
  bound-denied id h stage given message percent counts all now m found bound other = (
    get-denied id h given all now m found bound other,
    rw (get-denied id h none false now m found bound (λ e. cc), result),
    rw (get-denied id h none true now m found bound (λ e. cc), cancel),
    rw (get-denied id h none true now m found bound (λ e. cc), update_progress),
  )

  submit-lookup :
      (cfg : Config) (id tool input_hash : String) (auth run : Option String) (metadata : J)
      (now : ℕ) (m : Manager J)
      → lookup id (submit cfg id tool input_hash auth run metadata now m).0.tasks
        ≡ some (new_task cfg id tool input_hash none auth run metadata now)
  unfolding submit
  submit-lookup cfg id tool input_hash auth run metadata now m =
      let t = new_task cfg id tool input_hash none auth run metadata now in
      ap (lookup id) (create_task-store cfg id tool input_hash none auth run metadata now m).0
      ∙ lookup-insert id id t m.tasks
      ∙ ground (arith, eq_refl id)

  execute_failed-lookup :
      (id code message : String) (now : ℕ) (m : Manager J) (t : TaskRecord J)
      → lookup id m.tasks ≡ some t
      → (lookup id (execute_failed id code message now m).tasks
          ≡ some (failed_record code message now t))
        × (lookup id (execute_failed id code message now m).running ≡ none)
  unfolding execute_failed
  execute_failed-lookup id code message now m t found = ground (
    arith,
    eq_refl id,
    lookup-modify id id (failed_record code message now) m.tasks,
    lookup-remove id id m.running,
  )

  -- A task that is submitted with an authorization context never reaches its runner: its coroutine
  -- fails at its first statement, with ToolPermissionDenied, and is no longer among the running.
  pub submit-bound_fails :
      (cfg : Config) (id tool input_hash h : String) (run : Option String) (metadata : J)
      (t0 t1 : ℕ) (m : Manager J)
      → let m' = execute_start id t1 (submit cfg id tool input_hash (some h) run metadata t0 m).0 in
        (lookup id m'.tasks
          ≡ some (
              failed_record "ToolPermissionDeniedError" "task authorization context does not match"
                t1
                (new_task cfg id tool input_hash none (some h) run metadata t0)))
        × (lookup id m'.running ≡ none)
  unfolding execute_start begin_run new_task error_code error_message
  submit-bound_fails cfg id tool input_hash h run metadata t0 t1 m =
      let k = (submit cfg id tool input_hash (some h) run metadata t0 m).0 in
      let t = new_task cfg id tool input_hash none (some h) run metadata t0 in
      let found = submit-lookup cfg id tool input_hash (some h) run metadata t0 m in
      rw (bound-denied id h "running" none none (some 10) [] true t1 k found refl (λ e. cc)).3 (
        execute_failed-lookup id "ToolPermissionDeniedError"
          "task authorization context does not match" t1 k t found)

  abbrev began : ℕ → TaskRecord J → TaskRecord J
  began now t = started now (progressed "running" none (some 10) [] now t)

  execute_start-lookup :
      (id : String) (now : ℕ) (m : Manager J) (t : TaskRecord J)
      → lookup id m.tasks ≡ some t
      → t.authorization_context_hash ≡ none
      → lookup id (execute_start id now m).tasks ≡ some (began now t)
  unfolding execute_start begin_run get get_found may_access
  execute_start-lookup id now m t found free =
      elim (update_progress_cases id "running" none (some 10) [] now m) [
        | inl (e, q, _) ↦ absurd (impossible e q)
        | inr (m', u, q, tasks) ↦
            let f = progressed "running" none (some 10) [] now in
            rw q (
              ap (lookup id)
                (ap (modify id (started now)) tasks ∙ modify-modify id f (started now) m.tasks)
              ∙ lookup-modify id id (λ v. started now (f v)) m.tasks
              ∙ ground (arith, eq_refl id, found))
      ]
    where
      impossible : (e : Error) → get id none true now m ≡ (m, err e) → ⊥
      impossible e q = ground arith

  execute_finish-lookup :
      (id : String) (x : J) (now : ℕ) (m : Manager J) (t : TaskRecord J)
      → lookup id m.tasks ≡ some t
      → (lookup id (execute_finish id t (returned x) now m).tasks ≡ some (finished_record x now t))
        × (lookup id (execute_finish id t (returned x) now m).running ≡ none)
  unfolding execute_finish
  execute_finish-lookup id x now m t found = ground (
    arith,
    eq_refl id,
    lookup-modify id id (finished_record x now) m.tasks,
    lookup-remove id id m.running,
  )

  result-completed :
      (id : String) (now : ℕ) (m : Manager J) (t : TaskRecord J)
      → lookup id m.tasks ≡ some t
      → t.authorization_context_hash ≡ none
      → t.status ≡ completed
      → now ≤ t.expires_ts
      → (result id now m).1 ≡ ok (t, some t.result)
  unfolding result get get_found may_access
  result-completed id now m t found free done fresh = ground arith

  finished_fields :
      (x : J) (now : ℕ) (t : TaskRecord J)
      → t.cancellation_requested ≡ false
      → ((finished_record x now t).status ≡ completed)
        × ((finished_record x now t).result ≡ some x)
        × ((finished_record x now t).expires_ts ≡ t.expires_ts)
        × ((finished_record x now t).authorization_context_hash ≡ t.authorization_context_hash)
  unfolding finished_record
  finished_fields x now t h = ground arith

  -- Without an authorization context, a task that is submitted, started and ended by a value, with
  -- nothing in between, yields that value through `result` as long as it has not expired.
  pub submit-result :
      (cfg : Config) (id tool input_hash : String) (run : Option String) (metadata x : J)
      (t0 t1 t2 t3 : ℕ) (m : Manager J) (t : TaskRecord J)
      → let m2 = execute_start id t1 (submit cfg id tool input_hash none run metadata t0 m).0 in
        lookup id m2.tasks ≡ some t
        → t3 ≤ t.expires_ts
        → let m3 = execute_finish id t (returned x) t2 m2 in
          ((result id t3 m3).1 ≡ ok (finished_record x t2 t, some (some x)))
          × (lookup id m3.running ≡ none)
  unfolding new_task
  submit-result cfg id tool input_hash run metadata x t0 t1 t2 t3 m t found fresh =
      let k = (submit cfg id tool input_hash none run metadata t0 m).0 in
      let n = new_task cfg id tool input_hash none none run metadata t0 in
      let is : lookup id (execute_start id t1 k).tasks ≡ some (began t1 n) =
        execute_start-lookup id t1 k n (submit-lookup cfg id tool input_hash none run metadata t0 m)
          refl in
      let e : t ≡ began t1 n = cc (found, is) in
      let (finished, gone) = execute_finish-lookup id x t2 (execute_start id t1 k) t found in
      let (done, value, expiry, auth) =
        finished_fields x t2 t (ap (λ u. u.cancellation_requested) e) in
      let m3 = execute_finish id t (returned x) t2 (execute_start id t1 k) in
      let read =
        result-completed id t3 m3 (finished_record x t2 t) finished
          (auth ∙ ap (λ u. u.authorization_context_hash) e) done (omega (arith, expiry)) in
      (read ∙ ap (λ v. ok (finished_record x t2 t, some v)) value, gone)
