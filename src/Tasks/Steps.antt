-- ===== src/Tasks/Steps.antt =====
-- The server's life as a sequence of steps: calls of methods, coroutines that start and end between
-- them, and restarts from the file.
use llm_sca_tooling.Tasks.Effects.{
  execute_start-Effect, get-Effect, execute_finish-Effect, update_progress-Effect, cancel-Effect,
}
use mathlib.Core.Path.{subst}
use llm_sca_tooling.Tasks.Store.{Keeps, Effect, IsValid, load-IsValid, Effect-IsValid, IsKeyed}
use llm_sca_tooling.Tasks.Ops.{
  create_task, recover_task, restart, result, submit, recover_inflight, new_task, execute_start,
  in_flight, load, execute_finish, update_progress, get, cancel, record_task_event, save,
}
use llm_sca_tooling.Prelude.{
  ℕ, String, ◌∷◌, ◌≡◌, refl, Bool, false, Option, none, some, arith, any, [], ◌∙◌, ap, sym,
}
use llm_sca_tooling.Prelude.Dict.{
  Dict, lookup, values, map_values, insert, insert-Each, map_values-Each, Distinct, insert-Distinct,
  map_values-Distinct,
}
use llm_sca_tooling.Tasks.Model.{
  TaskRecord, Config, Manager, Outcome, Phase, TaskStatus, queued, Progress,
}

pub data Step {J : Type 0} (cfg : Config) : Manager J → Manager J → Type 0 where
  create_step :
      (id tool input_hash : String) (ttl : Option ℕ) (auth run : Option String) (metadata : J)
      (now : ℕ) (m : Manager J)
      → lookup id m.tasks ≡ none
      → Step cfg m (create_task cfg id tool input_hash ttl auth run metadata now m).0
  submit_step :
      (id tool input_hash : String) (auth run : Option String) (metadata : J) (now : ℕ)
      (m : Manager J)
      → lookup id m.tasks ≡ none
      → Step cfg m (submit cfg id tool input_hash auth run metadata now m).0
  start_step :
      (id : String) (now : ℕ) (m : Manager J)
      → lookup id m.running ≡ some Phase.scheduled
      → Step cfg m (execute_start id now m)
  finish_step :
      (id : String) (t : TaskRecord J) (o : Outcome J) (now : ℕ) (m : Manager J)
      → lookup id m.running ≡ some Phase.awaiting
      → lookup id m.tasks ≡ some t
      → Step cfg m (execute_finish id t o now m)
  progress_step :
      (id stage : String) (message : Option String) (percent : Option ℕ) (counts : Dict ℕ) (now : ℕ)
      (m : Manager J)
      → Step cfg m (update_progress id stage message percent counts now m).0
  get_step :
      (id : String) (given : Option String) (all : Bool) (now : ℕ) (m : Manager J)
      → Step cfg m (get id given all now m).0
  result_step : (id : String) (now : ℕ) (m : Manager J) → Step cfg m (result id now m).0
  cancel_step : (id : String) (now : ℕ) (m : Manager J) → Step cfg m (cancel id now m).0
  restart_step : (now : ℕ) (m : Manager J) → Step cfg m (restart now m)

pub data Reach {J : Type 0} (cfg : Config) (m : Manager J) : Manager J → Type 0 where
  here : Reach cfg m m
  next : {n k : Manager J} → Reach cfg m n → Step cfg n k → Reach cfg m k

module _ {J : Type 0} where
  recovered_unchanged :
      (now : ℕ) (l : Dict (TaskRecord J))
      → any (λ t. in_flight t.status) (values l) ≡ false
      → map_values (recover_task now) l ≡ l
  unfolding recover_task
  recovered_unchanged now [] h = refl
  recovered_unchanged now ((k, t) ∷ l) h = ground (arith, recovered_unchanged now l)

  recover_inflight-tasks :
      (now : ℕ) (m : Manager J)
      → (recover_inflight now m).tasks ≡ map_values (recover_task now) m.tasks
  unfolding recover_inflight
  recover_inflight-tasks now m = ground arith

  recover_inflight-saved :
      (now : ℕ) (m : Manager J)
      → m.saved ≡ m.tasks
      → (recover_inflight now m).saved ≡ (recover_inflight now m).tasks
  unfolding recover_inflight
  recover_inflight-saved now m h = ground (arith, recovered_unchanged now m.tasks)

  -- After a restart the tasks are those of before, each recovered.
  pub restart-tasks :
      (now : ℕ) (m : Manager J)
      → IsValid m
      → ((restart now m).tasks ≡ map_values (recover_task now) m.tasks)
        × ((restart now m).saved ≡ (restart now m).tasks)
  unfolding restart load
  restart-tasks now m v =
      let k = load (record m { tasks = []; running = [] }) in
      let rows : k.tasks ≡ m.tasks = load-IsValid m v in
      (
        recover_inflight-tasks now k ∙ ap (map_values (recover_task now)) rows,
        recover_inflight-saved now k (v.persisted ∙ sym rows),
      )

  pub recover_task-Keeps : (now : ℕ) (t : TaskRecord J) → Keeps t (recover_task now t)
  unfolding recover_task
  recover_task-Keeps now t = ground arith

  pub result-Effect : (id : String) (now : ℕ) (m : Manager J) → Effect id m (result id now m).0
  unfolding result
  result-Effect id now m = subst (Effect id m) (sym state) (get-Effect id none false now m)
    where
      state : (result id now m).0 ≡ (get id none false now m).0
      state = ground arith

  record_task_event-store :
      (id type : String) (status : TaskStatus) (p : Option Progress) (now : ℕ) (m : Manager J)
      → ((record_task_event id type status p now m).tasks ≡ m.tasks)
        × ((record_task_event id type status p now m).saved ≡ m.saved)
  unfolding record_task_event
  record_task_event-store id type status p now m = ground arith

  -- Both ways to make a task store it under its fresh name.
  pub create_task-store :
      (cfg : Config) (id tool input_hash : String) (ttl : Option ℕ) (auth run : Option String)
      (metadata : J) (now : ℕ) (m : Manager J)
      → let m' = (create_task cfg id tool input_hash ttl auth run metadata now m).0 in
        (m'.tasks ≡ insert id (new_task cfg id tool input_hash ttl auth run metadata now) m.tasks)
        × (m'.saved ≡ m'.tasks)
  unfolding create_task save
  create_task-store cfg id tool input_hash ttl auth run metadata now m =
      let t = new_task cfg id tool input_hash ttl auth run metadata now in
      let (a, b) =
        record_task_event-store id "task_created" queued none now
          (save (record m { tasks = insert id t m.tasks })) in
      (a, b ∙ sym a)

  insert-IsValid :
      (id : String) (t : TaskRecord J) (m m' : Manager J)
      → t.task_id ≡ id
      → m'.tasks ≡ insert id t m.tasks
      → m'.saved ≡ m'.tasks
      → IsValid m
      → IsValid m'
  insert-IsValid id t m m' named e s v = record {
    persisted = s;
    keyed = subst IsKeyed (sym e) (insert-Each (λ k u. u.task_id ≡ k) id t m.tasks named v.keyed);
    distinct = subst Distinct (sym e) (insert-Distinct id t m.tasks v.distinct);
  }

  pub restart-IsValid : (now : ℕ) (m : Manager J) → IsValid m → IsValid (restart now m)
  restart-IsValid now m v =
      let (e, s) = restart-tasks now m v in
      record {
        persisted = s;
        keyed = subst IsKeyed (sym e) (
            map_values-Each (λ k t. t.task_id ≡ k) (recover_task now) m.tasks
              (λ j t h. (recover_task-Keeps now t).same_id ∙ h) v.keyed);
        distinct =
            subst Distinct (sym e) (map_values-Distinct (recover_task now) m.tasks v.distinct);
      }

  pub Step-IsValid : {cfg : Config} {m m' : Manager J} → Step cfg m m' → IsValid m → IsValid m'
  unfolding new_task submit
  Step-IsValid {cfg} (create_step id tool h ttl auth run metadata now m fresh) v =
      let (e, s) = create_task-store cfg id tool h ttl auth run metadata now m in
      insert-IsValid id (new_task cfg id tool h ttl auth run metadata now) m _ refl e s v
  Step-IsValid {cfg} (submit_step id tool h auth run metadata now m fresh) v =
      let (e, s) = create_task-store cfg id tool h none auth run metadata now m in
      insert-IsValid id (new_task cfg id tool h none auth run metadata now) m _ refl e s v
  Step-IsValid (start_step id now m _) v = Effect-IsValid (execute_start-Effect id now m) v
  Step-IsValid (finish_step id t o now m _ _) v =
      Effect-IsValid (execute_finish-Effect id t o now m) v
  Step-IsValid (progress_step id stage message percent counts now m) v =
      Effect-IsValid (update_progress-Effect id stage message percent counts now m) v
  Step-IsValid (get_step id given all now m) v = Effect-IsValid (get-Effect id given all now m) v
  Step-IsValid (result_step id now m) v = Effect-IsValid (result-Effect id now m) v
  Step-IsValid (cancel_step id now m) v = Effect-IsValid (cancel-Effect id now m) v
  Step-IsValid (restart_step now m) v = restart-IsValid now m v

  -- Every server that can be reached from a valid one holds in its file exactly the tasks that it
  -- holds in memory, each row under its own task_id and no task_id twice.
  pub Reach-IsValid : {cfg : Config} {m m' : Manager J} → IsValid m → Reach cfg m m' → IsValid m'
  Reach-IsValid v here = v
  Reach-IsValid v (next r s) = Step-IsValid s (Reach-IsValid v r)
