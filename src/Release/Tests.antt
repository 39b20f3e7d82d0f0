-- ===== src/Release/Tests.antt =====
-- A release that passes, and one whose benchmarks fail.
use llm_sca_tooling.Prelude.{◌≡◌, ◌↔◌, refl, true, false, none, some, [], ◌∷◌}
use llm_sca_tooling.Release.Gate.{ReleaseGateInput, evaluate}
use llm_sca_tooling.Release.Decision.{IsReady, evaluate-pass}

abbrev release : ReleaseGateInput
release = record {
  harness_condition_id = "hcs:1";
  benchmark_results = record { suite_id = "t3"; passed = true } ∷ [];
  calibration_report = some (record {
    report_id = "cal:1";
    patch_risk_gate_passed = true;
    impl_check_gate_passed = true;
    repo_qa_behaviour_gate_passed = true;
    memory_ship_gate_passed = true;
  });
  ablation_report = none;
  operational_gate_result = some (record { gate_id = "op:1"; gate_passed = true });
  adversarial_results = record { check_id = "adv:1"; passed = true } ∷ [];
  memory_ship_gate_result_ref = none;
  ai_readiness_report_ref = some "readiness:1";
  calibration_required = true;
  adversarial_required = true;
  memory_gate_required = true;
  operational_gate_required = true;
  fail_on_any = true;
}

abbrev regressed : ReleaseGateInput
regressed = record release { benchmark_results = record { suite_id = "t3"; passed = false } ∷ [] }

stopped : (evaluate regressed).failing_gates ≡ "benchmarks" ∷ []
unfolding evaluate
stopped = refl

tolerated : (evaluate (record regressed { fail_on_any = false })).overall_pass ≡ true
unfolding evaluate
tolerated = refl

evaluate-pass_example : ((evaluate release).overall_pass ≡ true) ↔ IsReady release
evaluate-pass_example = evaluate-pass release
