-- ===== src/Release/Decision.antt =====
-- When a release passes.
use llm_sca_tooling.Release.Gate.{
  ReleaseGateInput, is_pass, calibration_gate, adversarial_gate, operational_gate, memory_gate,
  ablation_gate, readiness_gate, Outcome, evaluate, calibration_passed, benchmark_gate,
  is_anomalous, gather, gates,
}
use llm_sca_tooling.Prelude.{
  String, ◌≡◌, ◌≢◌, ◌↔◌, refl, Bool, true, false, not, ◌&&◌, Option, none, some, List, [], ◌∷◌,
  ◌++◌, arith, any, All, str_eq,
}

-- A report is there, and has the property.
abbrev pub holds {ℓ} : {A : Type ℓ} → (A → Bool) → Option A → Bool
holds f none = false
holds f (some a) = f a

-- What a release needs.
pub record IsReady (i : ReleaseGateInput) : Type 0 where
  pub benchmarks : i.fail_on_any ≡ true → any (λ r. not r.passed) i.benchmark_results ≡ false
  pub calibrated :
      i.calibration_required ≡ true → holds calibration_passed i.calibration_report ≡ true
  pub attacked :
      i.adversarial_required ≡ true
      → (i.adversarial_results ≢ []) × (any (λ r. not r.passed) i.adversarial_results ≡ false)
  pub operated :
      i.operational_gate_required ≡ true
      → holds (λ g. g.gate_passed) i.operational_gate_result ≡ true
  pub remembered :
      i.memory_gate_required ≡ true
      → holds (λ r. r.memory_ship_gate_passed) i.calibration_report ≡ true
  pub ablated : is_anomalous i.ablation_report ≡ false
  pub assessed : i.ai_readiness_report_ref ≢ none

is_pass-append :
    (b : Bool) (xs ys : List String) → is_pass b (xs ++ ys) ≡ (is_pass b xs && is_pass b ys)
unfolding is_pass
is_pass-append b [] ys = refl
is_pass-append b (x ∷ xs) ys = ground (arith, is_pass-append b xs ys)

is_pass-fails : (b : Bool) (g : String) → str_eq g "benchmarks" ≡ false → is_pass b (g ∷ []) ≡ false
unfolding is_pass
is_pass-fails b g h = ground arith

benchmark_gate-pass :
    (i : ReleaseGateInput)
    → (is_pass i.fail_on_any (benchmark_gate i).failing ≡ true)
      ↔ (i.fail_on_any ≡ true → any (λ r. not r.passed) i.benchmark_results ≡ false)
unfolding is_pass benchmark_gate
benchmark_gate-pass i = ground arith

calibration_gate-pass :
    (b : Bool) (i : ReleaseGateInput)
    → (is_pass b (calibration_gate i).failing ≡ true)
      ↔ (i.calibration_required ≡ true → holds calibration_passed i.calibration_report ≡ true)
unfolding calibration_gate is_pass
calibration_gate-pass b i = ground arith

adversarial_gate-pass :
    (b : Bool) (i : ReleaseGateInput)
    → (is_pass b (adversarial_gate i).failing ≡ true) ↔ (
        i.adversarial_required ≡ true
        → (i.adversarial_results ≢ []) × (any (λ r. not r.passed) i.adversarial_results ≡ false))
unfolding adversarial_gate is_pass
adversarial_gate-pass b i = ground arith

operational_gate-pass :
    (b : Bool) (i : ReleaseGateInput)
    → (is_pass b (operational_gate i).failing ≡ true) ↔ (
        i.operational_gate_required ≡ true
        → holds (λ g. g.gate_passed) i.operational_gate_result ≡ true)
unfolding operational_gate is_pass
operational_gate-pass b i = ground arith

memory_gate-pass :
    (b : Bool) (i : ReleaseGateInput)
    → (is_pass b (memory_gate i).failing ≡ true) ↔ (
        i.memory_gate_required ≡ true
        → holds (λ r. r.memory_ship_gate_passed) i.calibration_report ≡ true)
unfolding memory_gate is_pass
memory_gate-pass b i = ground arith

ablation_gate-pass :
    (b : Bool) (i : ReleaseGateInput)
    → (is_pass b (ablation_gate i).failing ≡ true) ↔ (is_anomalous i.ablation_report ≡ false)
unfolding ablation_gate is_pass
ablation_gate-pass b i = ground arith

readiness_gate-pass :
    (b : Bool) (i : ReleaseGateInput)
    → (is_pass b (readiness_gate i).failing ≡ true) ↔ (i.ai_readiness_report_ref ≢ none)
unfolding readiness_gate is_pass
readiness_gate-pass b i = ground arith

pass_gather :
    (b : Bool) (os : List Outcome)
    → (is_pass b (gather (λ o. o.failing) os) ≡ true) ↔ All (λ o. is_pass b o.failing ≡ true) os
unfolding is_pass
pass_gather b [] = (λ h. tt, λ h. refl)
pass_gather b (o ∷ os) = (
  λ h. (
    ground (arith, is_pass-append b o.failing (gather (λ x. x.failing) os)),
    (pass_gather b os).0 (ground (arith, is_pass-append b o.failing (gather (λ x. x.failing) os))),
  ),
  λ h. ground (
    arith,
    is_pass-append b o.failing (gather (λ x. x.failing) os),
    h.0,
    (pass_gather b os).1 h.1,
  ),
)

-- A release passes exactly when it is ready. If calibration is required, there is a calibration report
-- that passed; if adversarial checks are required, there is at least one and none failed; if the
-- operational gate is required, there is a result for it that passed; if the memory gate is required,
-- there is a calibration report whose memory gate passed. No ablation is anomalous, and an
-- AI-readiness report is attached. If the caller fails on any benchmark, none failed.
pub evaluate-pass : (i : ReleaseGateInput) → ((evaluate i).overall_pass ≡ true) ↔ IsReady i
unfolding evaluate gates
evaluate-pass i =
    let b = i.fail_on_any in
    (
      λ h.
          let (p1, (p2, (p3, (p4, (p5, (p6, (p7, t))))))) = (pass_gather b (gates i)).0 h in
          record {
            benchmarks = (benchmark_gate-pass i).0 p1;
            calibrated = (calibration_gate-pass b i).0 p2;
            attacked = (adversarial_gate-pass b i).0 p3;
            operated = (operational_gate-pass b i).0 p4;
            remembered = (memory_gate-pass b i).0 p5;
            ablated = (ablation_gate-pass b i).0 p6;
            assessed = (readiness_gate-pass b i).0 p7;
          },
      λ r. (pass_gather b (gates i)).1 (
        (benchmark_gate-pass i).1 r.benchmarks,
        (
          (calibration_gate-pass b i).1 r.calibrated,
          (
            (adversarial_gate-pass b i).1 r.attacked,
            (
              (operational_gate-pass b i).1 r.operated,
              (
                (memory_gate-pass b i).1 r.remembered,
                (
                  (ablation_gate-pass b i).1 r.ablated,
                  ((readiness_gate-pass b i).1 r.assessed, tt),
                ),
              ),
            ),
          ),
        ),
      ),
    )
