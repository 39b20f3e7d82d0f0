-- ===== src/Operations/Tests.antt =====
-- A ledger of three records, two of them old, the stages of two repositories, and the events of runs.
use llm_sca_tooling.Operations.Cumulative.{detect_run_anomalies-errors}
use llm_sca_tooling.Prelude.Text.{occurs, starts_with}
use llm_sca_tooling.Operations.Patterns.{error_kinds, in_row, is_hard_stop, at_least_two}
use llm_sca_tooling.Prelude.Dict.{lookup, insert}
use llm_sca_tooling.Operations.Deletion.{Deletes, run-Deletes}
use llm_sca_tooling.Operations.Stage.{
  assess_harness_stage, stage_int, production, makefiles, integrations,
  assess_harness_stage-monotone,
}
use llm_sca_tooling.Operations.Retention.{IsEquivalence}
use llm_sca_tooling.Prelude.{
  ℕ, String, Bool, true, false, Option, none, some, [], ◌∷◌, ◌≡◌, refl, arith, eq_iff,
  if◌then◌else◌, str_eq, ◌⊎◌, ◌≤◌, ◌↔◌, ◌&&◌, any, length, List, contains, ◌≢◌,
}
use llm_sca_tooling.Operations.Anomalies.{
  gate_failures, Event, check_repeated_failing_gates, detect_run_anomalies, changes_code,
  is_out_of_scope,
}
use llm_sca_tooling.Operations.Ledger.{
  LedgerRecord, LedgerDeleteTool, LedgerRetentionPolicy, run, is_due, collect, permission_error,
  add_due, first_text, retention_days, retention_map, type_of, delete_groups, remove_all,
  remove_first, same_record, export_group, audit_of,
}

abbrev policy : LedgerRetentionPolicy
policy = record {
  workspace_id = "w";
  run_record_retention_days = some 90;
  incident_retention_days = some 365;
  budget_event_retention_days = some 30;
  monitor_alert_retention_days = some 30;
  promotion_record_retention_days = none;
  eval_run_retention_days = some 90;
  artefact_retention_days = some 90;
  export_on_delete = true;
  delete_requires_approval = true;
}

-- The times that the texts of the ledger stand for.
abbrev times : String → Option ℕ
times t =
    if str_eq t "2025-01-01"
    then some 1735689600000000
    else if str_eq t "2026-01-01"
    then some 1767225600000000
    else none

abbrev ledger_record : (rtype ts : Option String) (id : String) → LedgerRecord String
ledger_record rtype ts id = record { record_type = rtype; ts = ts; created_at = none; others = id }

abbrev tool : LedgerDeleteTool String
tool = record {
  policy = policy;
  store =
      ledger_record (some "run_record") (some "2025-01-01") "a"
      ∷ ledger_record (some "run_record") (some "2026-01-01") "b"
      ∷ ledger_record (some "promotion_record") (some "2025-01-01") "c"
      ∷ [];
  audit_trail = [];
  exports = [];
}

abbrev at : ℕ
at = 1767225600000001

abbrev file_name : ℕ → String
file_name n = "out.jsonl.gz"

abbrev approver : Option String
approver = some "dev"

text-IsEquivalence : IsEquivalence str_eq
text-IsEquivalence = record {
  same_refl = λ a. (eq_iff a a).1 refl;
  same_sym = λ a b h. ground (arith, eq_iff a b, eq_iff b a, h);
  same_trans = λ a b c h k. ground (arith, eq_iff a b, eq_iff b c, eq_iff a c, h, k);
}

run-Deletes_example :
    let due = is_due times policy at in
    let ran = run str_eq times file_name at approver false tool in
    ((true ≡ true) × (approver ≡ none) × (ran ≡ (tool, permission_error)))
    ⊎ (((true ≡ false) ⊎ (approver ≢ none)) × Deletes due false tool ran)
run-Deletes_example = run-Deletes str_eq text-IsEquivalence times file_name at approver false tool

one_deleted : length (run str_eq times file_name at approver false tool).0.store ≡ 2
unfolding run collect add_due is_due first_text retention_days retention_map type_of delete_groups
    remove_all remove_first same_record lookup insert export_group audit_of
one_deleted = refl

abbrev skeleton : String → Bool
skeleton p = str_eq p "src"

abbrev everywhere : String → Bool
everywhere p = true

abbrev full_path : String → String
full_path p = p

assess_harness_stage-monotone_example :
    let low = (assess_harness_stage full_path "/r" skeleton).stage in
    let high = (assess_harness_stage full_path "/r" everywhere).stage in
    (stage_int low ≤ stage_int high)
    × ((high ≡ production) ↔ (
        ((everywhere "src"
            && everywhere "tests"
            && everywhere "pyproject.toml"
            && everywhere "AGENTS.md")
          ≡ true)
        × (any everywhere makefiles ≡ true)
        × (any everywhere integrations ≡ true)))
assess_harness_stage-monotone_example =
    assess_harness_stage-monotone full_path "/r" skeleton everywhere λ p h. refl

abbrev event : (name id : String) (action : Option String) → Event
event name id action = record {
  type_name = some name;
  stage = some "gate";
  event_id = some id;
  policy_action = action;
}

abbrev denial : String → Event
denial id = event "tool_call" id (some "deny")

abbrev stormy : List Event
stormy = denial "e1" ∷ denial "e2" ∷ denial "e3" ∷ event "budget_hard_stop" "e4" none ∷ []

detect_run_anomalies-errors_example :
    let kinds = error_kinds (detect_run_anomalies "r1" stormy).findings in
    let storm = in_row 3 stormy in
    (contains kinds "denial_storm" ≡ storm)
    × (contains kinds "cumulative_risk"
        ≡ at_least_two storm (any is_hard_stop stormy) (any is_out_of_scope stormy))
detect_run_anomalies-errors_example = detect_run_anomalies-errors "r1" stormy

storm_and_stop : (in_row 3 stormy ≡ true) × (any is_hard_stop stormy ≡ true)
unfolding in_row
storm_and_stop = (refl, refl)

-- A gate that fails three times after the only change of the code is not reported.
failing_after_change :
    check_repeated_failing_gates (
      event "code_change" "e1" none
      ∷ event "gate_failed" "e2" none
      ∷ event "gate_failed" "e3" none
      ∷ event "gate_failed" "e4" none
      ∷ [])
    ≡ []
unfolding check_repeated_failing_gates gate_failures changes_code occurs starts_with lookup insert
failing_after_change = refl
