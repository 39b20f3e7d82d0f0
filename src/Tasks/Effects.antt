-- ===== src/Tasks/Effects.antt =====
-- What each method of `TaskManager` does to the records: one is changed at most.
use llm_sca_tooling.Tasks.Store.{Effect, Keeps, same, changed}
use llm_sca_tooling.Prelude.{
  ℕ, String, ◌≡◌, refl, ◌∙◌, ap, Option-cases, inl, inr, Bool, true, Option, none, some, [], arith,
  Bool-cases, not, ◌&&◌, ◌⊎◌, ltb,
}
use llm_sca_tooling.Prelude.Dict.{Dict, lookup, modify, modify-modify}
use llm_sca_tooling.Tasks.Model.{
  TaskRecord, Manager, Outcome, returned, raised, Error, err, ok, expired, task_not_found,
  tool_permission_denied, error_code, error_message,
}
use llm_sca_tooling.Tasks.Ops.{
  get, update_progress, cancel, execute_failed, execute_start, execute_finish, get_found,
  cancelled_record, finished_record, failed_record, may_access, progressed, started, begin_run,
}

module _ {J : Type 0} where
  get_found-Effect :
      (id : String) (given : Option String) (all : Bool) (now : ℕ) (t : TaskRecord J)
      (m : Manager J)
      → Effect id m (get_found id given all now t m).0
  unfolding get_found
  get_found-Effect id given all now t m =
      elim (Bool-cases (may_access t.authorization_context_hash given)) [
        | inr e ↦ same (ground arith) (ground arith)
        | inl e ↦ elim (Bool-cases (not all && ltb t.expires_ts now)) [
          | inr q ↦ same (ground arith) (ground arith)
          | inl q ↦
              changed (λ u. record u { status = expired })
                (λ u. record { same_id = refl; still = λ h. h; not_completed = λ h p. cc })
                (ground arith) (ground arith)
        ]
      ]

  pub get-Effect :
      (id : String) (given : Option String) (all : Bool) (now : ℕ) (m : Manager J)
      → Effect id m (get id given all now m).0
  unfolding get
  get-Effect id given all now m = elim (Option-cases (lookup id m.tasks)) [
    | inl e ↦ same (ground arith) (ground arith)
    | inr (t, e) ↦ rw (e, get) (get_found-Effect id given all now t m)
  ]

  -- A read that looks at expired tasks too changes nothing.
  pub get_all :
      (id : String) (given : Option String) (now : ℕ) (m : Manager J)
      → ((e : Error) × (get id given true now m ≡ (m, err e)))
        ⊎ ((t : TaskRecord J) × (lookup id m.tasks ≡ some t)
            × (get id given true now m ≡ (m, ok t)))
  unfolding get get_found
  get_all id given now m = elim (Option-cases (lookup id m.tasks)) [
    | inl e ↦ inl (task_not_found id, ground arith)
    | inr (t, e) ↦ elim (Bool-cases (may_access t.authorization_context_hash given)) [
      | inr q ↦
          inl (tool_permission_denied "task authorization context does not match", ground arith)
      | inl q ↦ inr (t, e, ground arith)
    ]
  ]

  pub update_progress-Effect :
      (id stage : String) (message : Option String) (percent : Option ℕ) (counts : Dict ℕ) (now : ℕ)
      (m : Manager J)
      → Effect id m (update_progress id stage message percent counts now m).0
  unfolding update_progress
  update_progress-Effect id stage message percent counts now m = elim (get_all id none now m) [
    | inl (e, q) ↦ rw (q, update_progress) (same refl refl)
    | inr (t, _, q) ↦
        rw (q, update_progress)
          (changed (progressed stage message percent counts now)
            (λ u. record { same_id = refl; still = λ h. h; not_completed = λ h p. p })
            (ground arith) (ground arith))
  ]

  cancelled_record-Keeps : (now : ℕ) (t : TaskRecord J) → Keeps t (cancelled_record now t)
  unfolding cancelled_record
  cancelled_record-Keeps now t = ground arith

  finished_record-Keeps : (x : J) (now : ℕ) (t : TaskRecord J) → Keeps t (finished_record x now t)
  unfolding finished_record
  finished_record-Keeps x now t = ground arith

  failed_record-Keeps :
      (code message : String) (now : ℕ) (t : TaskRecord J)
      → Keeps t (failed_record code message now t)
  unfolding failed_record
  failed_record-Keeps code message now t = ground arith

  pub cancel-Effect : (id : String) (now : ℕ) (m : Manager J) → Effect id m (cancel id now m).0
  unfolding cancel
  cancel-Effect id now m = elim (get_all id none now m) [
    | inl (e, q) ↦ rw (q, cancel) (same refl refl)
    | inr (t, _, q) ↦
        rw (q, cancel)
          (changed (cancelled_record now) (cancelled_record-Keeps now) (ground arith)
            (ground arith))
  ]

  pub execute_failed-Effect :
      (id code message : String) (now : ℕ) (m : Manager J)
      → Effect id m (execute_failed id code message now m)
  unfolding execute_failed
  execute_failed-Effect id code message now m =
      changed (failed_record code message now) (failed_record-Keeps code message now) (ground arith)
        (ground arith)

  -- `update_progress` fails and changes nothing, or changes the one record.
  pub update_progress_cases :
      (id stage : String) (message : Option String) (percent : Option ℕ) (counts : Dict ℕ) (now : ℕ)
      (m : Manager J)
      → ((e : Error) × (get id none true now m ≡ (m, err e))
          × (update_progress id stage message percent counts now m ≡ (m, err e)))
        ⊎ ((m' : Manager J) × (t : TaskRecord J) × (update_progress id stage message percent counts
                now m
              ≡ (m', ok t))
            × (m'.tasks ≡ modify id (progressed stage message percent counts now) m.tasks))
  unfolding update_progress
  update_progress_cases id stage message percent counts now m = elim (get_all id none now m) [
    | inl (e, q) ↦ inl (e, q, rw (q, update_progress))
    | inr (t, _, q) ↦ inr (
      (update_progress id stage message percent counts now m).0,
      progressed stage message percent counts now t,
      rw (q, update_progress),
      rw (q, update_progress) (ground arith),
    )
  ]

  pub execute_start-Effect :
      (id : String) (now : ℕ) (m : Manager J) → Effect id m (execute_start id now m)
  unfolding execute_start begin_run execute_failed
  execute_start-Effect id now m =
      let f = progressed "running" none (some 10) [] now in
      elim (update_progress_cases id "running" none (some 10) [] now m) [
        | inl (e, _, q) ↦ rw q (execute_failed-Effect id (error_code e) (error_message e) now m)
        | inr (m', t, q, e) ↦ rw q (
            changed (λ u. started now (f u))
              (λ u. record { same_id = refl; still = λ h. h; not_completed = λ h p. cc })
              (ap (modify id (started now)) e ∙ modify-modify id f (started now) m.tasks) refl)
      ]

  pub execute_finish-Effect :
      (id : String) (t : TaskRecord J) (o : Outcome J) (now : ℕ) (m : Manager J)
      → Effect id m (execute_finish id t o now m)
  unfolding execute_finish
  execute_finish-Effect id t (raised code message) now m =
      execute_failed-Effect id code message now m
  execute_finish-Effect id t (returned x) now m =
      changed (finished_record x now) (finished_record-Keeps x now) (ground arith) (ground arith)

  -- `cancel` fails and changes nothing, or changes the one record, which it returns.
  pub cancel_cases :
      (id : String) (now : ℕ) (m : Manager J)
      → ((e : Error) × (cancel id now m ≡ (m, err e)))
        ⊎ ((t : TaskRecord J) × (lookup id m.tasks ≡ some t)
            × ((cancel id now m).1 ≡ ok (cancelled_record now t))
            × ((cancel id now m).0.tasks ≡ modify id (cancelled_record now) m.tasks))
  unfolding cancel
  cancel_cases id now m = elim (get_all id none now m) [
    | inl (e, q) ↦ inl (e, rw (q, cancel))
    | inr (t, found, q) ↦ inr (t, found, rw (q, cancel), rw (q, cancel) (ground arith))
  ]

  pub cancelled_record-requested :
      (now : ℕ) (t : TaskRecord J) → (cancelled_record now t).cancellation_requested ≡ true
  unfolding cancelled_record
  cancelled_record-requested now t = ground arith
