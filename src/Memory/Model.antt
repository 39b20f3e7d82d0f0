-- ===== src/Memory/Model.antt =====
-- src/llm_sca_tooling/memory/models.py: the records of the memory. A JSON value is of a type `J`, a
-- number of type `float` of a type `F`.
use llm_sca_tooling.Prelude.{ℕ, String, Bool, Option, List}
use llm_sca_tooling.Prelude.Dict.{Dict}

pub record MemoryOptInPolicy : Type 0 where
  pub workspace_id : String
  pub enabled : Bool
  pub per_repo_overrides : Dict Bool
  pub retention_class_default : String
  pub max_trajectory_count : ℕ
  pub max_project_memory_records : ℕ
  pub allow_snippet_storage : Bool
  pub max_snippet_bytes : ℕ
  pub allow_hindsight_relabelling : Bool
  pub allow_operational_lesson_promotion : Bool
  pub secret_scan_required : Bool
  pub pii_redaction_required : Bool
  pub review_required_for_promotion : Bool
  pub opt_in_ts : Option String
  pub opt_in_actor : Option String

pub record ProjectMemoryRecord (J : Type 0) : Type 0 where
  pub record_id : String
  pub repo_id : String
  pub record_type : String
  pub content_structured : Dict J
  pub source_run_id : String
  pub source_event_id : Option String
  pub owner : String
  pub retention_class : String
  pub expiry_ts : Option String
  pub review_state : String
  pub contradiction_check_ts : Option String
  pub rollback_path : Option String
  pub created_ts : String
  pub updated_ts : String

pub record TrajectoryRecord : Type 0 where
  pub trajectory_id : String
  pub repo_id : String
  pub workflow_type : String
  pub issue_class : String
  pub issue_text_hash : String
  pub fl_decisions : List String
  pub graph_node_ids : List String
  pub graph_snapshot_id : Option String
  pub patch_diff_hash : Option String
  pub patch_class : Option String
  pub sarif_delta_summary : Option String
  pub test_delta_summary : Option String
  pub outcome : String
  pub utility : String
  pub hindsight_label : Option String
  pub hindsight_label_confidence : String
  pub relabelled : Bool
  pub source_run_id : String
  pub source_trace_manifest_id : Option String
  pub retention_class : String
  pub expiry_ts : Option String
  pub review_state : String
  pub bounded_snippet_ids : List String
  pub created_ts : String

-- `gate_failures` names the gate that failed; the detail that is printed after it is left out.
pub record WritePathResult : Type 0 where
  pub trajectory_id : String
  pub gates_passed : List String
  pub gate_failures : List String
  pub secret_detected : Bool
  pub contradiction_detected : Bool
  pub contradiction_detail : Option String
  pub review_state_set : String
  pub written : Bool

pub record CoarseHint : Type 0 where
  pub trajectory_id : String
  pub issue_class : String
  pub outcome : String
  pub utility : String
  pub fl_class_match : Bool
  pub confidence : String
  pub rejected : Bool
  pub rejection_reason : Option String

pub record FineHint (F : Type 0) : Type 0 where
  pub trajectory_id : String
  pub hint_type : String
  pub content_snippet : String
  pub graph_node_ids : List String
  pub patch_class : Option String
  pub outcome : String
  pub utility : String
  pub similarity_score : F
  pub misalignment_flag : Bool
  pub confidence : String

pub record HindsightLabel : Type 0 where
  pub trajectory_id : String
  pub original_outcome : String
  pub relabelled_goal : String
  pub relabelled_outcome : String
  pub relabelled_utility : String
  pub confidence : String
  pub evidence_refs : List String
  pub generator_model : String
  pub review_state : String

pub record EvictionPolicy (F : Type 0) : Type 0 where
  pub max_trajectories_per_repo : ℕ
  pub max_project_memory_per_repo : ℕ
  pub utility_threshold_keep : F
  pub utility_threshold_demote : F
  pub recency_weight : F
  pub outcome_diversity_target : ℕ
  pub issue_class_coverage_target : ℕ
  pub relabelled_penalty : F
  pub expiry_default_days : ℕ
  pub compaction_batch_size : ℕ

pub record MemoryCompactionReport : Type 0 where
  pub repo_id : String
  pub initial_count : ℕ
  pub promoted_count : ℕ
  pub demoted_count : ℕ
  pub expired_count : ℕ
  pub final_count : ℕ
  pub utility_distribution : Dict ℕ
  pub outcome_diversity_achieved : ℕ
  pub dry_run : Bool
  pub created_ts : String

pub record OperationalLesson (J : Type 0) : Type 0 where
  pub lesson_id : String
  pub source_run_id : String
  pub source_event_id : Option String
  pub trigger_condition : String
  pub lesson_type : String
  pub structured_content : Dict J
  pub target_type : String
  pub owner : String
  pub expiry_ts : Option String
  pub review_date : Option String
  pub rollback_path : Option String
  pub review_state : String
  pub promoted_to_ref : Option String
  pub created_ts : String
