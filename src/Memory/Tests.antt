-- ===== src/Memory/Tests.antt =====
-- A store with three trajectories, scores in thousandths.
use llm_sca_tooling.Prelude.Text.{text_less}
use llm_sca_tooling.Memory.Counts.{compact_dry-counts}
use llm_sca_tooling.Memory.Retrieval.{
  retrieve_coarse, sift, coarse_hint, build_coarse_hint, apply_misalignment_guard,
}
use llm_sca_tooling.Memory.WritePath.{validate_and_write, check_memory_enabled, is_incomplete}
use llm_sca_tooling.Memory.Compaction.{
  compact, compact_all, compact_one, is_past, compute_utility_score, update_unless,
}
use llm_sca_tooling.Memory.Store.{
  MemoryStore, opt_in, make_default_policy, all_trajectories, is_set,
}
use llm_sca_tooling.Prelude.Dict.{Dict, lookup}
use llm_sca_tooling.Memory.Model.{TrajectoryRecord, OperationalLesson, EvictionPolicy}
use llm_sca_tooling.Prelude.{
  String, false, Option, none, some, [], ◌∷◌, refl, leb, ltb, min, max, ℕ, ◌+◌, ◌-◌, ◌*◌, ◌/◌, Bool,
  true, ◌≡◌, ◌≤◌, length, List,
}
use mathlib.Core.Option
use llm_sca_tooling.Prelude.Floats.{Floats}

abbrev milli : Floats ℕ
milli = record {
  leq = leb;
  less = ltb;
  add = λ a b. a + b;
  sub = λ a b. a - b;
  least = min;
  greatest = max;
  quotient = λ a b. 1000 * a / b;
  fixed = λ a. "0.90";
}

abbrev trajectory : (id outcome utility state : String) (expiry : Option String) → TrajectoryRecord
trajectory id outcome utility state expiry = record {
  trajectory_id = id;
  repo_id = "r1";
  workflow_type = "bug_resolve";
  issue_class = "null deref";
  issue_text_hash = "h";
  fl_decisions = "parse null" ∷ [];
  graph_node_ids = [];
  graph_snapshot_id = none;
  patch_diff_hash = none;
  patch_class = none;
  sarif_delta_summary = none;
  test_delta_summary = none;
  outcome = outcome;
  utility = utility;
  hindsight_label = none;
  hindsight_label_confidence = "unknown";
  relabelled = false;
  source_run_id = "run1";
  source_trace_manifest_id = none;
  retention_class = "workspace_local";
  expiry_ts = expiry;
  review_state = state;
  bounded_snippet_ids = [];
  created_ts = "2026-01-01";
}

abbrev fixed_one : TrajectoryRecord
fixed_one = trajectory "t1" "resolved" "medium" "approved" none

abbrev old_one : TrajectoryRecord
old_one = trajectory "t2" "no_fix_found" "unknown" "approved" (some "2025-12-31")

abbrev raw_one : TrajectoryRecord
raw_one = trajectory "t3" "no_fix_found" "low" "unreviewed" none

abbrev rows : Dict TrajectoryRecord
rows = ("t1", fixed_one) ∷ ("t2", old_one) ∷ ("t3", raw_one) ∷ []

abbrev lesson : OperationalLesson String
lesson = record {
  lesson_id = "l1";
  source_run_id = "run1";
  source_event_id = none;
  trigger_condition = "retry";
  lesson_type = "tooling";
  structured_content = ("repo_id", "r1") ∷ [];
  target_type = "memory";
  owner = "dev";
  expiry_ts = none;
  review_date = none;
  rollback_path = none;
  review_state = "approved";
  promoted_to_ref = none;
  created_ts = "2026-01-01";
}

abbrev memory : MemoryStore String
memory = record {
  policy = opt_in "dev" "2026-01-01" (make_default_policy "w");
  trajectories = rows;
  project_records = [];
  lessons = ("l1", lesson) ∷ [];
}

abbrev policy : EvictionPolicy ℕ
policy = record {
  max_trajectories_per_repo = 500;
  max_project_memory_per_repo = 100;
  utility_threshold_keep = 700;
  utility_threshold_demote = 300;
  recency_weight = 300;
  outcome_diversity_target = 3;
  issue_class_coverage_target = 5;
  relabelled_penalty = 100;
  expiry_default_days = 90;
  compaction_batch_size = 50;
}

compact_dry-counts_example :
    let dry = compact ⦃f = milli⦄ "r1" policy true "2026-01-02" "2026-01-02" memory in
    let real = compact ⦃f = milli⦄ "r1" policy false "2026-01-02" "2026-01-02" memory in
    (dry.0 ≡ memory)
    × (dry.1.promoted_count ≡ real.1.promoted_count)
    × (dry.1.demoted_count ≡ real.1.demoted_count)
    × (dry.1.expired_count ≡ real.1.expired_count)
    × (real.1.promoted_count + real.1.demoted_count + real.1.expired_count ≤ real.1.initial_count)
compact_dry-counts_example =
    compact_dry-counts ⦃f = milli⦄ "r1" policy "2026-01-02" "2026-01-02" memory

-- One promoted, none demoted, one expired of three.
compacted_once :
    let report = (compact ⦃f = milli⦄ "r1" policy false "2026-01-02" "2026-01-02" memory).1 in
    (report.promoted_count ≡ 1) × (report.demoted_count ≡ 0) × (report.expired_count ≡ 1)
unfolding compact compact_all compact_one all_trajectories is_past text_less compute_utility_score
    update_unless
compacted_once = (refl, refl, refl)

abbrev never : TrajectoryRecord → Bool
never r = false

written_once : (validate_and_write never fixed_one memory.policy).written ≡ true
unfolding validate_and_write check_memory_enabled is_incomplete opt_in make_default_policy lookup
written_once = refl

abbrev shown : String → String
shown j = j

abbrev issue : String
issue = "Null deref in parse"

hinted_once :
    let coarse = retrieve_coarse ℕ ⦃f = milli⦄ issue "r1" 5 "2026-01-02" memory in
    (length coarse.0 ≡ 1) × (length coarse.1 ≡ 2)
unfolding retrieve_coarse sift coarse_hint build_coarse_hint apply_misalignment_guard is_past
    text_less is_set all_trajectories
hinted_once = (refl, refl)
