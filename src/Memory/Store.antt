-- ===== src/Memory/Store.antt =====
-- src/llm_sca_tooling/memory/store.py: three SQLite tables, each a key and a record. A row is the
-- record itself, whose JSON text is read back as it was written. `INSERT OR REPLACE` deletes the
-- old row and adds the new one behind the others.

use llm_sca_tooling.Prelude.{
  String, Bool, true, false, Option, none, some, [], ◌∷◌, ◌++◌, ◌≡◌, refl, if◌then◌else◌, str_eq,
  eq_iff, arith, List, select, opt_str_eq,
}
use llm_sca_tooling.Prelude.Dict.{Dict, lookup, remove, lookup-remove, Distinct, Each, values}
use llm_sca_tooling.Memory.Model.{
  MemoryOptInPolicy, TrajectoryRecord, ProjectMemoryRecord, OperationalLesson,
}

pub record MemoryStore (J : Type 0) : Type 0 where
  pub policy : MemoryOptInPolicy
  pub trajectories : Dict TrajectoryRecord
  pub project_records : Dict (ProjectMemoryRecord J)
  pub lessons : Dict (OperationalLesson J)

-- Whether an optional text is set and not empty.
unfoldable pub is_set : Option String → Bool
is_set none = false
is_set (some String.[]) = false
is_set (some (String.◌∷◌ c s)) = true

module _ {V : Type 0} where
  unfoldable pub put : String → V → Dict V → Dict V
  put k v t = remove k t ++ (k, v) ∷ []

  pub lookup-put :
      (k j : String) (v : V) (t : Dict V)
      → lookup j (put k v t) ≡ (if str_eq k j then some v else lookup j t)
  unfolding put lookup remove
  lookup-put k j v [] = refl
  lookup-put k j v ((i, w) ∷ t) =
      ground (arith, lookup-put k j v t, eq_iff i k, eq_iff i j, eq_iff k j)

  remove-Distinct : (k : String) (t : Dict V) → Distinct t → Distinct (remove k t)
  unfolding remove
  remove-Distinct k [] d = tt
  remove-Distinct k ((i, w) ∷ t) d = ground (arith, lookup-remove k i t, remove-Distinct k t d.1)

  lookup-append :
      (k i : String) (v : V) (t : Dict V)
      → lookup i t ≡ none
      → str_eq k i ≡ false
      → lookup i (t ++ (k, v) ∷ []) ≡ none
  unfolding lookup
  lookup-append k i v [] h e = ground arith
  lookup-append k i v ((j, u) ∷ t) h e = ground (arith, lookup-append k i v t)

  append-Distinct :
      (k : String) (v : V) (t : Dict V)
      → Distinct t
      → lookup k t ≡ none
      → Distinct (t ++ (k, v) ∷ [])
  unfolding lookup
  append-Distinct k v [] d h = (refl, tt)
  append-Distinct k v ((i, w) ∷ t) d h =
      ground (arith, append-Distinct k v t d.1, eq_iff i k, eq_iff k i, lookup-append k i v t)

  pub put-Distinct : (k : String) (v : V) (t : Dict V) → Distinct t → Distinct (put k v t)
  unfolding put
  put-Distinct k v t d =
      append-Distinct k v (remove k t) (remove-Distinct k t d)
        (ground (arith, lookup-remove k k t, eq_iff k k))

-- A row of each table stands under its record's own key.
pub record IsKeyed {V : Type 0} (key : V → String) (t : Dict V) : Type 0 where
  pub distinct : Distinct t
  pub keyed : Each (λ k v. key v ≡ k) t

unfoldable pub rows_of : {V : Type 0} → (V → String) → Option String → List V → List V
unfolding is_set
rows_of repo asked rows =
    if is_set asked then select (λ r. opt_str_eq (some (repo r)) asked) rows else rows

unfoldable pub make_default_policy : String → MemoryOptInPolicy
make_default_policy workspace = record {
  workspace_id = workspace;
  enabled = false;
  per_repo_overrides = [];
  retention_class_default = "workspace_local";
  max_trajectory_count = 500;
  max_project_memory_records = 100;
  allow_snippet_storage = true;
  max_snippet_bytes = 4096;
  allow_hindsight_relabelling = false;
  allow_operational_lesson_promotion = false;
  secret_scan_required = true;
  pii_redaction_required = true;
  review_required_for_promotion = true;
  opt_in_ts = none;
  opt_in_actor = none;
}

unfoldable pub opt_in : String → String → MemoryOptInPolicy → MemoryOptInPolicy
opt_in actor now p = record p { enabled = true; opt_in_ts = some now; opt_in_actor = some actor }

module _ {J : Type 0} where
  unfoldable pub new_store : String → MemoryStore J
  unfolding make_default_policy
  new_store workspace = record {
    policy = make_default_policy workspace;
    trajectories = [];
    project_records = [];
    lessons = [];
  }

  unfoldable pub put_trajectory : TrajectoryRecord → MemoryStore J → MemoryStore J
  unfolding put
  put_trajectory r s = record s { trajectories = put r.trajectory_id r s.trajectories }

  unfoldable pub get_trajectory : String → MemoryStore J → Option TrajectoryRecord
  get_trajectory tid s = lookup tid s.trajectories

  unfoldable pub all_trajectories : Option String → MemoryStore J → List TrajectoryRecord
  unfolding rows_of
  all_trajectories repo s = rows_of (λ r. r.repo_id) repo (values s.trajectories)

  -- `change` sets the fields that the caller names.
  unfoldable pub update_trajectory :
      String
      → (change : TrajectoryRecord → TrajectoryRecord) → MemoryStore J
      → MemoryStore J × Option TrajectoryRecord
  unfolding put_trajectory get_trajectory
  update_trajectory tid change s = elim (get_trajectory tid s) [
    | none ↦ (s, none)
    | some r ↦ (put_trajectory (change r) s, some (change r))
  ]

  unfoldable pub put_project_record : ProjectMemoryRecord J → MemoryStore J → MemoryStore J
  unfolding put
  put_project_record r s = record s { project_records = put r.record_id r s.project_records }

  unfoldable pub approved_project_records :
      Option String → MemoryStore J → List (ProjectMemoryRecord J)
  unfolding rows_of
  approved_project_records repo s =
      rows_of (λ r. r.repo_id) repo
        (select (λ r. str_eq r.review_state "approved") (values s.project_records))

  unfoldable pub all_project_records : Option String → MemoryStore J → List (ProjectMemoryRecord J)
  unfolding rows_of
  all_project_records repo s = rows_of (λ r. r.repo_id) repo (values s.project_records)

  unfoldable pub put_lesson : OperationalLesson J → MemoryStore J → MemoryStore J
  unfolding put
  put_lesson l s = record s { lessons = put l.lesson_id l s.lessons }

  unfoldable pub get_lesson : String → MemoryStore J → Option (OperationalLesson J)
  get_lesson lid s = lookup lid s.lessons

  unfoldable pub update_lesson :
      String
      → (change : OperationalLesson J → OperationalLesson J) → MemoryStore J
      → MemoryStore J × Option (OperationalLesson J)
  unfolding put_lesson get_lesson
  update_lesson lid change s = elim (get_lesson lid s) [
    | none ↦ (s, none)
    | some l ↦ (put_lesson (change l) s, some (change l))
  ]

  pub update_trajectory-some :
      (tid : String) (change : TrajectoryRecord → TrajectoryRecord) (s : MemoryStore J)
      (r : TrajectoryRecord)
      → get_trajectory tid s ≡ some r
      → update_trajectory tid change s ≡ (put_trajectory (change r) s, some (change r))
  unfolding update_trajectory
  update_trajectory-some tid change s r h = rw (update_trajectory, h) refl

  pub update_lesson-none :
      (lid : String) (change : OperationalLesson J → OperationalLesson J) (s : MemoryStore J)
      → get_lesson lid s ≡ none
      → update_lesson lid change s ≡ (s, none)
  unfolding update_lesson
  update_lesson-none lid change s h = rw (update_lesson, h) refl

  pub update_lesson-some :
      (lid : String) (change : OperationalLesson J → OperationalLesson J) (s : MemoryStore J)
      (l : OperationalLesson J)
      → get_lesson lid s ≡ some l
      → update_lesson lid change s ≡ (put_lesson (change l) s, some (change l))
  unfolding update_lesson
  update_lesson-some lid change s l h = rw (update_lesson, h) refl
