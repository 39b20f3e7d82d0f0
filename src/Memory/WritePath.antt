-- ===== src/Memory/WritePath.antt =====
-- src/llm_sca_tooling/memory/policy.py and write_path.py: whether memory is enabled, and the gates
-- that a trajectory passes before it is written.
use llm_sca_tooling.Prelude.{
  String, Bool, true, false, not, ◌&&◌, ◌||◌, Option, none, some, List, [], ◌∷◌, ◌++◌,
  if◌then◌else◌, contains, any, ◌≡◌, ◌≢◌, ◌⊎◌,
}
use llm_sca_tooling.Prelude.Dict.{lookup}
use llm_sca_tooling.Memory.Model.{MemoryOptInPolicy, TrajectoryRecord, WritePathResult}
use llm_sca_tooling.Memory.Store.{is_set}

-- Why `MemoryDisabledError` is raised.
pub data Disabled : Type 0 where
  workspace_disabled repo_disabled : Disabled

-- `none` where the check returns.
unfoldable pub check_memory_enabled : MemoryOptInPolicy → Option String → Option Disabled
unfolding is_set
check_memory_enabled p repo =
    let override : Option Bool = elim repo [
      | none ↦ none
      | some r ↦ lookup r p.per_repo_overrides
    ] in
    if not p.enabled
    then some workspace_disabled
    else if is_set repo && is_false override
    then some repo_disabled
    else none
  where
    is_false : Option Bool → Bool
    is_false none = false
    is_false (some b) = not b

abbrev pub retention_classes : List String
retention_classes = "ephemeral" ∷ "workspace_local" ∷ "long_term" ∷ "archived" ∷ []

abbrev pub forbidden_snippet_types : List String
forbidden_snippet_types = "raw_prompt" ∷ "full_trace" ∷ "full_source" ∷ "command_output" ∷ []

-- `missing` is not empty.
unfoldable pub is_incomplete : TrajectoryRecord → Bool
unfolding is_set
is_incomplete r = not (is_set (some r.source_run_id)) || not (is_set (some r.repo_id))

abbrev pub fresh_result : TrajectoryRecord → WritePathResult
fresh_result r = record {
  trajectory_id = r.trajectory_id;
  gates_passed = [];
  gate_failures = [];
  secret_detected = false;
  contradiction_detected = false;
  contradiction_detail = none;
  review_state_set = "unreviewed";
  written = false;
}

-- `has_secret` is the search of `_SECRET_PATTERN` in the record's JSON text.
unfoldable pub validate_and_write :
    (has_secret : TrajectoryRecord → Bool) → TrajectoryRecord → MemoryOptInPolicy → WritePathResult
unfolding check_memory_enabled is_incomplete is_set
validate_and_write has_secret r p =
    let result = fresh_result r in
    let passed = "opt_in_check" ∷ "required_fields" ∷ "data_classification" ∷ [] in
    let unstamped = not (is_set r.graph_snapshot_id) in
    elim (check_memory_enabled p (some r.repo_id)) [
      | some e ↦ record result { gate_failures = "opt_in_check" ∷ [] }
      | none ↦
          if is_incomplete r
          then record result { gate_failures = "required_fields" ∷ [] }
          else if not (contains retention_classes r.retention_class)
          then record result { gate_failures = "data_classification" ∷ [] }
          else if p.secret_scan_required && has_secret r
          then record result {
            gates_passed = passed;
            gate_failures = "secret_scan" ∷ [];
            secret_detected = true;
          }
          else if any (contains forbidden_snippet_types) r.bounded_snippet_ids
          then record result { gate_failures = "snippet_type_check" ∷ [] }
          else record result {
            gates_passed = passed ++ "secret_scan" ∷ "snippet_type_check" ∷ [];
            contradiction_detected = unstamped;
            contradiction_detail = if unstamped then some "missing_graph_snapshot_id" else none;
            written = true;
          }
    ]

-- What a record must satisfy to be written.
pub record IsAdmitted (has_secret : TrajectoryRecord → Bool) (r : TrajectoryRecord)
    (p : MemoryOptInPolicy) : Type 0 where
  pub enabled : p.enabled ≡ true
  pub not_overridden : lookup r.repo_id p.per_repo_overrides ≢ some false
  pub from_run : is_set (some r.source_run_id) ≡ true
  pub in_repo : is_set (some r.repo_id) ≡ true
  pub retained : contains retention_classes r.retention_class ≡ true
  pub no_secret : (p.secret_scan_required ≡ false) ⊎ (has_secret r ≡ false)
  pub no_forbidden : any (contains forbidden_snippet_types) r.bounded_snippet_ids ≡ false
