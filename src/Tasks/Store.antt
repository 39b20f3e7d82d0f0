-- ===== src/Tasks/Store.antt =====
-- The store of a task manager: what is in memory is in the file, under its own name, once.
use llm_sca_tooling.Prelude.{
  String, ◌≡◌, refl, sym, ◌∙◌, ap, true, none, [], ◌∷◌, ◌++◌, arith, eq_iff,
}
use mathlib.Core.List.{append_assoc, append-nil}
use mathlib.Core.Path.{subst}
use llm_sca_tooling.Prelude.Dict.{
  Dict, lookup, insert, modify, values, Distinct, Each, lookup-insert, modify-Distinct, insert_new,
  modify-Each,
}
use llm_sca_tooling.Tasks.Model.{completed, TaskRecord, Manager}
use llm_sca_tooling.Tasks.Ops.{index_rows, load}

-- Every row is stored under its own `task_id`.
abbrev pub IsKeyed : {J : Type 0} → Dict (TaskRecord J) → Type 0
IsKeyed = Each (λ k t. t.task_id ≡ k)

pub record IsValid {J : Type 0} (m : Manager J) : Type 0 where
  pub persisted : m.saved ≡ m.tasks
  pub keyed : IsKeyed m.tasks
  pub distinct : Distinct m.tasks

module _ {J : Type 0} where
  -- Appending the first row of `rest` to `done` leaves no key of `rest` in `done`.
  abbrev Apart : Dict (TaskRecord J) → Dict (TaskRecord J) → Type 0
  Apart rest done = Each (λ k t. lookup k done ≡ none) rest

  Apart-snoc :
      (k : String) (t : TaskRecord J) (rest done : Dict (TaskRecord J))
      → lookup k rest ≡ none
      → Apart rest done
      → Apart rest (insert k t done)
  unfolding lookup
  Apart-snoc k t [] done fresh h = tt
  Apart-snoc k t ((j, u) ∷ rest) done fresh h =
      ground (arith, lookup-insert k j t done, eq_iff k j, eq_iff j k, Apart-snoc k t rest done)

  index_rows-append :
      (rest done : Dict (TaskRecord J))
      → IsKeyed rest
      → Distinct rest
      → Apart rest done
      → index_rows done (values rest) ≡ done ++ rest
  unfolding index_rows
  index_rows-append [] done keyed d h = sym (append-nil done)
  index_rows-append ((k, t) ∷ rest) done keyed d h =
      ap (λ i. index_rows (insert i t done) (values rest)) keyed.0
      ∙ index_rows-append rest (insert k t done) keyed.1 d.1 (Apart-snoc k t rest done d.0 h.1)
      ∙ ap (λ l. l ++ rest) (insert_new k t done h.0)
      ∙ append_assoc done ((k, t) ∷ []) rest

  -- Reading the file back gives the tasks that were written.
  pub load-IsValid : (m : Manager J) → IsValid m → (load m).tasks ≡ m.tasks
  unfolding load lookup
  load-IsValid m v =
      ap (λ l. index_rows [] (values l)) v.persisted
      ∙ index_rows-append m.tasks [] v.keyed v.distinct (apart m.tasks)
    where
      apart : (l : Dict (TaskRecord J)) → Apart l []
      apart [] = tt
      apart ((k, t) ∷ l) = (refl, apart l)

-- What every change of a record keeps: its name, a request to cancel it, and, under such a request,
-- that it is not completed.
pub record Keeps {J : Type 0} (t u : TaskRecord J) : Type 0 where
  pub same_id : u.task_id ≡ t.task_id
  pub still : t.cancellation_requested ≡ true → u.cancellation_requested ≡ true
  pub not_completed : t.cancellation_requested ≡ true → u.status ≡ completed → t.status ≡ completed

-- An operation changes one record at most, and writes the file when it changes one.
pub data Effect {J : Type 0} (id : String) (m m' : Manager J) : Type 0 where
  same : m'.tasks ≡ m.tasks → m'.saved ≡ m.saved → Effect id m m'
  changed :
      (f : TaskRecord J → TaskRecord J)
      → ((t : TaskRecord J) → Keeps t (f t))
      → m'.tasks ≡ modify id f m.tasks
      → m'.saved ≡ m'.tasks
      → Effect id m m'

module _ {J : Type 0} where
  pub Effect-IsValid : {id : String} {m m' : Manager J} → Effect id m m' → IsValid m → IsValid m'
  Effect-IsValid {id} {m} {m'} (same e s) v = record {
    persisted = s ∙ v.persisted ∙ sym e;
    keyed = subst IsKeyed (sym e) v.keyed;
    distinct = subst Distinct (sym e) v.distinct;
  }
  Effect-IsValid {id} {m} {m'} (changed f keeps e s) v = record {
    persisted = s;
    keyed =
        subst IsKeyed (sym e) (
          modify-Each (λ k t. t.task_id ≡ k) id f m.tasks (λ j t h. (keeps t).same_id ∙ h) v.keyed);
    distinct = subst Distinct (sym e) (modify-Distinct id f m.tasks v.distinct);
  }
