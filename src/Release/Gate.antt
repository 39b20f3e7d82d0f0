-- ===== src/Release/Gate.antt =====
-- src/llm_sca_tooling/release/release_gate.py: the gates of a release, and what they add up to.
use mathlib.Core.Option
use llm_sca_tooling.Prelude.{
  String, Bool, ◌&&◌, Option, List, [], ◌∷◌, if◌then◌else◌, false, all, any, ◌++◌, str_eq, true,
  some, not, none,
}

pub record BenchmarkSuiteResult : Type 0 where
  pub suite_id : String
  pub passed : Bool

pub record CalibrationReport : Type 0 where
  pub report_id : String
  pub patch_risk_gate_passed : Bool
  pub impl_check_gate_passed : Bool
  pub repo_qa_behaviour_gate_passed : Bool
  pub memory_ship_gate_passed : Bool

pub data ReleaseImpact : Type 0 where
  no_impact unexpected_improvement unexpected_degradation expected_degradation : ReleaseImpact

pub record AblationReport : Type 0 where
  pub report_id : String
  pub release_impact : ReleaseImpact

pub record OperationalHarnessGateResult : Type 0 where
  pub gate_id : String
  pub gate_passed : Bool

pub record AdversarialCheckResult : Type 0 where
  pub check_id : String
  pub passed : Bool

pub record ReleaseGateInput : Type 0 where
  pub harness_condition_id : String
  pub benchmark_results : List BenchmarkSuiteResult
  pub calibration_report : Option CalibrationReport
  pub ablation_report : Option AblationReport
  pub operational_gate_result : Option OperationalHarnessGateResult
  pub adversarial_results : List AdversarialCheckResult
  pub memory_ship_gate_result_ref : Option String
  pub ai_readiness_report_ref : Option String
  pub calibration_required : Bool
  pub adversarial_required : Bool
  pub memory_gate_required : Bool
  pub operational_gate_required : Bool
  pub fail_on_any : Bool

pub record ReleaseGateResult : Type 0 where
  pub harness_condition_id : String
  pub benchmark_results : List BenchmarkSuiteResult
  pub calibration_report_ref : Option String
  pub ablation_report_ref : Option String
  pub operational_gate_result_ref : Option String
  pub adversarial_check_results : List AdversarialCheckResult
  pub memory_ship_gate_result_ref : Option String
  pub ai_readiness_report_ref : Option String
  pub disabled_gates : List String
  pub overall_pass : Bool
  pub failing_gates : List String
  pub recommendations : List String

unfoldable pub calibration_passed : CalibrationReport → Bool
calibration_passed r =
    r.patch_risk_gate_passed && r.impl_check_gate_passed && r.repo_qa_behaviour_gate_passed

-- What a gate adds to `failing`, `disabled` and `recommendations`.
pub record Outcome : Type 0 where
  pub failing : List String
  pub disabled : List String
  pub recommendations : List String

abbrev pub passes : Outcome
passes = record { failing = []; disabled = []; recommendations = [] }

abbrev pub disabled_gate : String → Outcome
disabled_gate gate = record { failing = []; disabled = gate ∷ []; recommendations = [] }

abbrev pub fails : (gate recommendation : String) → Outcome
fails gate r = record { failing = gate ∷ []; disabled = []; recommendations = r ∷ [] }

unfoldable pub benchmark_gate : ReleaseGateInput → Outcome
benchmark_gate i =
    if any (λ r. not r.passed) i.benchmark_results
    then record { failing = "benchmarks" ∷ []; disabled = []; recommendations = [] }
    else passes

unfoldable pub calibration_gate : ReleaseGateInput → Outcome
unfolding calibration_passed
calibration_gate i =
    if i.calibration_required
    then elim i.calibration_report [
      | none ↦ fails "calibration" "Attach a CalibrationReport."
      | some r ↦
          if calibration_passed r
          then passes
          else fails "calibration" "Recalibrate failing model or workflow family."
    ]
    else disabled_gate "calibration"

unfoldable pub adversarial_gate : ReleaseGateInput → Outcome
adversarial_gate i =
    if i.adversarial_required
    then elim i.adversarial_results [
      | [] ↦ fails "adversarial" "Fix failing adversarial checks."
      | r ∷ rs ↦
          if any (λ x. not x.passed) (r ∷ rs)
          then fails "adversarial" "Fix failing adversarial checks."
          else passes
    ]
    else disabled_gate "adversarial"

unfoldable pub operational_gate : ReleaseGateInput → Outcome
operational_gate i =
    if i.operational_gate_required
    then elim i.operational_gate_result [
      | none ↦ fails "operational" "Resolve operational harness gate failures."
      | some g ↦
          if g.gate_passed
          then passes
          else fails "operational" "Resolve operational harness gate failures."
    ]
    else disabled_gate "operational"

unfoldable pub memory_gate : ReleaseGateInput → Outcome
memory_gate i =
    if i.memory_gate_required
    then elim i.calibration_report [
      | none ↦ fails "memory" "Keep memory disabled until the ship gate passes."
      | some r ↦
          if r.memory_ship_gate_passed
          then passes
          else fails "memory" "Keep memory disabled until the ship gate passes."
    ]
    else disabled_gate "memory"

-- `report is not None and report.release_impact in {improvement, degradation}`
unfoldable pub is_anomalous : Option AblationReport → Bool
is_anomalous none = false
is_anomalous (some r) = elim r.release_impact [
  | unexpected_improvement ↦ true
  | unexpected_degradation ↦ true
  | _ ↦ false
]

unfoldable pub ablation_gate : ReleaseGateInput → Outcome
unfolding is_anomalous
ablation_gate i =
    if is_anomalous i.ablation_report
    then fails "ablation" "Investigate ablation anomalies before release."
    else passes

unfoldable pub readiness_gate : ReleaseGateInput → Outcome
readiness_gate i = elim i.ai_readiness_report_ref [
  | none ↦ fails "ai_readiness" "Attach an AI-readiness report."
  | some r ↦ passes
]

-- The gates in the order of the code.
unfoldable pub gates : ReleaseGateInput → List Outcome
unfolding benchmark_gate calibration_gate adversarial_gate operational_gate memory_gate
    ablation_gate readiness_gate
gates i =
    benchmark_gate i
    ∷ calibration_gate i
    ∷ adversarial_gate i
    ∷ operational_gate i
    ∷ memory_gate i
    ∷ ablation_gate i
    ∷ readiness_gate i
    ∷ []

abbrev pub gather : (Outcome → List String) → List Outcome → List String
gather f [] = []
gather f (o ∷ os) = f o ++ gather f os

-- `not failing`, or `not set(failing) - {"benchmarks"}`
unfoldable pub is_pass : Bool → List String → Bool
is_pass fail_on_any failing =
    all (λ g. if fail_on_any then false else str_eq g "benchmarks") failing

unfoldable pub evaluate : ReleaseGateInput → ReleaseGateResult
unfolding gates is_pass
evaluate i =
    let os = gates i in
    let failing = gather (λ o. o.failing) os in
    record {
      harness_condition_id = i.harness_condition_id;
      benchmark_results = i.benchmark_results;
      calibration_report_ref = Option.map (λ r. r.report_id) i.calibration_report;
      ablation_report_ref = Option.map (λ r. r.report_id) i.ablation_report;
      operational_gate_result_ref = Option.map (λ g. g.gate_id) i.operational_gate_result;
      adversarial_check_results = i.adversarial_results;
      memory_ship_gate_result_ref = i.memory_ship_gate_result_ref;
      ai_readiness_report_ref = i.ai_readiness_report_ref;
      disabled_gates = gather (λ o. o.disabled) os;
      overall_pass = is_pass i.fail_on_any failing;
      failing_gates = failing;
      recommendations = gather (λ o. o.recommendations) os;
    }
