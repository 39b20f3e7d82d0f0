-- ===== src/Tasks/Recovery.antt =====
-- What a restart of the server leaves.
use llm_sca_tooling.Tasks.Steps.{restart-tasks}
use llm_sca_tooling.Tasks.Store.{IsValid}
use llm_sca_tooling.Tasks.Model.{TaskRecord, Manager, failed}
use llm_sca_tooling.Tasks.Ops.{recover_task, in_flight, restart}
use llm_sca_tooling.Prelude.{ℕ, String, ◌≡◌, ap, ◌∙◌, false, some, [], arith, true}
use llm_sca_tooling.Prelude.Dict.{lookup, lookup-map_values}
use mathlib.Core.Option

module _ {J : Type 0} where
  no_coroutine : (now : ℕ) (m : Manager J) → (restart now m).running ≡ []
  unfolding restart
  no_coroutine now m = ground arith

  recover_task-settled :
      (now : ℕ) (t : TaskRecord J) → in_flight (recover_task now t).status ≡ false
  unfolding recover_task
  recover_task-settled now t = ground arith

  -- A restart of a valid server keeps every task under its name and changes only those that were in
  -- flight, which are failed: afterwards no task is in flight, no coroutine runs, and the file holds
  -- the recovered tasks.
  pub restart_settles :
      (now : ℕ) (m : Manager J) (id : String) {t : TaskRecord J}
      → IsValid m
      → lookup id m.tasks ≡ some t
      → (u : TaskRecord J) × (lookup id (restart now m).tasks ≡ some u)
        × (lookup id (restart now m).saved ≡ some u)
        × (in_flight u.status ≡ false)
        × (in_flight t.status ≡ false → u ≡ t)
        × (in_flight t.status ≡ true → u.status ≡ failed)
        × ((restart now m).running ≡ [])
  unfolding recover_task
  restart_settles now m id {t} v found =
      let (tasks, saved) = restart-tasks now m v in
      let after : lookup id (restart now m).tasks ≡ some (recover_task now t) =
        ap (lookup id) tasks
        ∙ lookup-map_values id (recover_task now) m.tasks
        ∙ ap (Option.map (recover_task now)) found in
      (
        recover_task now t,
        after,
        ap (lookup id) saved ∙ after,
        recover_task-settled now t,
        (λ h. ground arith),
        (λ h. ground arith),
        no_coroutine now m,
      )
