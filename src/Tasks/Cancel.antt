-- ===== src/Tasks/Cancel.antt =====
-- Cancellation across the whole life of the server.
use llm_sca_tooling.Tasks.Effects.{
  cancel_cases, cancel-Effect, cancelled_record-requested, execute_start-Effect,
  execute_finish-Effect, update_progress-Effect, get-Effect,
}
use llm_sca_tooling.Tasks.Steps.{
  Step, Reach, recover_task-Keeps, restart-tasks, Reach-IsValid, create_task-store, result-Effect,
}
use llm_sca_tooling.Tasks.Ops.{submit, cancel, restart, recover_task, cancelled_record, new_task}
use llm_sca_tooling.Tasks.Store.{Keeps, Effect, IsValid, Effect-IsValid}
use llm_sca_tooling.Prelude.{
  ℕ, String, ◌≡◌, ◌≢◌, ap, ◌∙◌, true, none, some, arith, str_eq, eq_iff, Bool-cases, inl, inr,
  eq_refl,
}
use mathlib.Core.Option
use llm_sca_tooling.Prelude.Dict.{lookup, insert, lookup-insert, lookup-modify, lookup-map_values}
use llm_sca_tooling.Tasks.Model.{TaskRecord, completed, Config, Manager, ok}

-- A task whose cancellation was requested before it was completed.
pub record IsDoomed {J : Type 0} (id : String) (m : Manager J) : Type 0 where
  pub task : TaskRecord J
  pub found : lookup id m.tasks ≡ some task
  pub requested : task.cancellation_requested ≡ true
  pub not_done : task.status ≢ completed

module _ {J : Type 0} where
  IsDoomed-Keeps :
      {id : String} {m m' : Manager J} (d : IsDoomed id m) (u : TaskRecord J)
      → Keeps d.task u
      → lookup id m'.tasks ≡ some u
      → IsDoomed id m'
  IsDoomed-Keeps d u k e = record {
    task = u;
    found = e;
    requested = k.still d.requested;
    not_done = λ h. d.not_done (k.not_completed d.requested h);
  }

  IsDoomed-same :
      {id : String} {m m' : Manager J} (d : IsDoomed id m)
      → lookup id m'.tasks ≡ some d.task
      → IsDoomed id m'
  IsDoomed-same d e = record {
    task = d.task;
    found = e;
    requested = d.requested;
    not_done = d.not_done;
  }

  Effect-IsDoomed :
      {id j : String} {m m' : Manager J} → Effect j m m' → IsDoomed id m → IsDoomed id m'
  Effect-IsDoomed {id} (Effect.same e s) d = IsDoomed-same d (ap (lookup id) e ∙ d.found)
  Effect-IsDoomed {id} {j} {m} {m'} (Effect.changed f keeps e s) d =
      let after = ap (lookup id) e ∙ lookup-modify j id f m.tasks in
      elim (Bool-cases (str_eq j id)) [
        | inl q ↦ IsDoomed-Keeps d (f d.task) (keeps d.task) (ground (arith, after, d.found))
        | inr q ↦ IsDoomed-same d (ground (arith, after, d.found))
      ]

  insert-IsDoomed :
      {id : String} (j : String) {m m' : Manager J} (t : TaskRecord J)
      → lookup j m.tasks ≡ none
      → m'.tasks ≡ insert j t m.tasks
      → IsDoomed id m
      → IsDoomed id m'
  insert-IsDoomed {id} j {m} {m'} t fresh e d =
      let after = ap (lookup id) e ∙ lookup-insert j id t m.tasks in
      IsDoomed-same d (ground (arith, after, d.found, eq_iff j id))

  restart-IsDoomed :
      {id : String} (now : ℕ) (m : Manager J)
      → IsValid m
      → IsDoomed id m
      → IsDoomed id (restart now m)
  restart-IsDoomed {id} now m v d =
      IsDoomed-Keeps d (recover_task now d.task) (recover_task-Keeps now d.task) (
        ap (lookup id) (restart-tasks now m v).0
        ∙ lookup-map_values id (recover_task now) m.tasks
        ∙ ap (Option.map (recover_task now)) d.found)

  Step-IsDoomed :
      {cfg : Config} {id : String} {m m' : Manager J}
      → Step cfg m m'
      → IsValid m
      → IsDoomed id m
      → IsDoomed id m'
  unfolding submit
  Step-IsDoomed {cfg} (Step.create_step j tool h ttl auth run metadata now m fresh) v d =
      insert-IsDoomed j (new_task cfg j tool h ttl auth run metadata now) fresh
        (create_task-store cfg j tool h ttl auth run metadata now m).0 d
  Step-IsDoomed {cfg} (Step.submit_step j tool h auth run metadata now m fresh) v d =
      insert-IsDoomed j (new_task cfg j tool h none auth run metadata now) fresh
        (create_task-store cfg j tool h none auth run metadata now m).0 d
  Step-IsDoomed (Step.start_step j now m _) v d = Effect-IsDoomed (execute_start-Effect j now m) d
  Step-IsDoomed (Step.finish_step j t o now m _ _) v d =
      Effect-IsDoomed (execute_finish-Effect j t o now m) d
  Step-IsDoomed (Step.progress_step j stage message percent counts now m) v d =
      Effect-IsDoomed (update_progress-Effect j stage message percent counts now m) d
  Step-IsDoomed (Step.get_step j given all now m) v d =
      Effect-IsDoomed (get-Effect j given all now m) d
  Step-IsDoomed (Step.result_step j now m) v d = Effect-IsDoomed (result-Effect j now m) d
  Step-IsDoomed (Step.cancel_step j now m) v d = Effect-IsDoomed (cancel-Effect j now m) d
  Step-IsDoomed (Step.restart_step now m) v d = restart-IsDoomed now m v d

  Reach-IsDoomed :
      {cfg : Config} {id : String} {m m' : Manager J}
      → IsValid m
      → IsDoomed id m
      → Reach cfg m m'
      → IsDoomed id m'
  Reach-IsDoomed v d Reach.here = d
  Reach-IsDoomed v d (Reach.next r s) = Step-IsDoomed s (Reach-IsValid v r) (Reach-IsDoomed v d r)

  cancel-IsDoomed :
      (id : String) (now : ℕ) (m : Manager J) {t : TaskRecord J}
      → (cancel id now m).1 ≡ ok t
      → t.status ≢ completed
      → IsDoomed id (cancel id now m).0
  cancel-IsDoomed id now m {t} e undone = elim (cancel_cases id now m) [
    | inl (x, q) ↦ absurd (cc (ap (λ r. r.1) q))
    | inr (u, found, q, tasks) ↦ record {
      task = cancelled_record now u;
      found =
          ap (lookup id) tasks
          ∙ lookup-modify id id (cancelled_record now) m.tasks
          ∙ ground (arith, eq_refl id, found);
      requested = cancelled_record-requested now u;
      not_done = λ h. undone (cc (q, e));
    }
  ]

  -- Once `cancel` has returned a task that was not completed, the task is never completed: in every
  -- server that can be reached from there, by any calls, starts, ends and restarts, it is still
  -- stored, its cancellation is still requested, and its status is not `completed`.
  pub cancel-never_completed :
      (cfg : Config) (id : String) (now : ℕ) (m m' : Manager J) {t : TaskRecord J}
      → IsValid m
      → (cancel id now m).1 ≡ ok t
      → t.status ≢ completed
      → Reach cfg (cancel id now m).0 m'
      → IsDoomed id m'
  cancel-never_completed cfg id now m m' v e undone r =
      Reach-IsDoomed (Effect-IsValid (cancel-Effect id now m) v) (cancel-IsDoomed id now m e undone)
        r
