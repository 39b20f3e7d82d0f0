-- ===== src/Memory/Promotion.antt =====
-- src/llm_sca_tooling/memory/promotion/pipeline.py and relabelling/null_relabeller.py: what becomes
-- of a reviewed lesson, and the new record of a relabelled trajectory.
use mathlib.Core.Option
use Prim.Native.String.{◌++◌ as append}
use llm_sca_tooling.Prelude.{String, Bool, true, not, ◌||◌, none, some, if◌then◌else◌, str_eq, List}
use llm_sca_tooling.Prelude.Dict.{lookup}
use llm_sca_tooling.Memory.Model.{
  OperationalLesson, ProjectMemoryRecord, TrajectoryRecord, HindsightLabel,
}
use llm_sca_tooling.Memory.Store.{MemoryStore, put_project_record, put_trajectory, update_lesson}

-- `UnreviewedLessonError`, or the updated lesson and the reference.
pub data Promotion (J : Type 0) : Type 0 where
  unreviewed : Promotion J
  promoted : (lesson : OperationalLesson J) (promoted_to : String) → Promotion J

-- The JSON values: `str(...)` of one.
module _ {J : Type 0} (show : J → String) where
  unfoldable pub memory_record : (fresh now : String) → OperationalLesson J → ProjectMemoryRecord J
  memory_record fresh now l = record {
    record_id = append "pmr:" fresh;
    repo_id = elim (lookup "repo_id" l.structured_content) [ none ↦ "unknown" | some j ↦ show j ];
    record_type = "decision";
    content_structured = l.structured_content;
    source_run_id = l.source_run_id;
    source_event_id = l.source_event_id;
    owner = l.owner;
    retention_class = "workspace_local";
    expiry_ts = none;
    review_state = "approved";
    contradiction_check_ts = none;
    rollback_path = l.rollback_path;
    created_ts = now;
    updated_ts = now;
  }

  unfoldable pub promoted_ref : (fresh : String) → OperationalLesson J → String
  promoted_ref fresh l =
      if str_eq l.target_type "memory"
      then append "project_memory:" (append "pmr:" fresh)
      else if str_eq l.target_type "governance_policy"
      then "governance:requires_manifest_change_review"
      else append l.target_type ":pending"

  -- The project record of a lesson whose target is the memory.
  unfoldable pub with_record :
      (fresh now : String) → OperationalLesson J → MemoryStore J → MemoryStore J
  unfolding memory_record put_project_record
  with_record fresh now l s =
      if str_eq l.target_type "memory" then put_project_record (memory_record fresh now l) s else s

  -- `fresh` is the start of a new UUID, `now` the time at which a new record is made.
  unfoldable pub promote_lesson :
      (fresh now : String) (review_approved : Bool)
      → OperationalLesson J
      → MemoryStore J
      → MemoryStore J × Promotion J
  unfolding promoted_ref with_record update_lesson
  promote_lesson fresh now review_approved l s =
      let target = promoted_ref fresh l in
      let stored = with_record fresh now l s in
      let updated : OperationalLesson J = record l {
        review_state = "approved";
        promoted_to_ref = some target;
      } in
      if not review_approved || not (str_eq l.review_state "approved")
      then (s, unreviewed)
      else ((update_lesson l.lesson_id (λ _. updated) stored).0, promoted updated target)

unfoldable pub relabel : TrajectoryRecord → (candidate_goal : String) → HindsightLabel
relabel t goal = record {
  trajectory_id = t.trajectory_id;
  original_outcome = t.outcome;
  relabelled_goal = goal;
  relabelled_outcome = if str_eq t.outcome "no_fix_found" then "resolved" else t.outcome;
  relabelled_utility = "medium";
  confidence = "unknown";
  evidence_refs = List.[];
  generator_model = "null";
  review_state = "unreviewed";
}

unfoldable pub create_relabelled_record :
    {J : Type 0} (fresh : String)
    → TrajectoryRecord
    → HindsightLabel
    → MemoryStore J
    → MemoryStore J × TrajectoryRecord
unfolding put_trajectory
create_relabelled_record fresh t label s =
    let new : TrajectoryRecord = record t {
      trajectory_id = append "relabelled:" fresh;
      outcome = label.relabelled_outcome;
      utility = label.relabelled_utility;
      relabelled = true;
      hindsight_label = some label.relabelled_goal;
      hindsight_label_confidence = label.confidence;
      review_state = "unreviewed";
    } in
    (put_trajectory new s, new)
