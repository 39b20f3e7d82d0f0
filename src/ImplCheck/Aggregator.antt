-- ===== src/ImplCheck/Aggregator.antt =====
-- src/llm_sca_tooling/impl_check/aggregator.py: the verdict on a clause, by dominance. Probabilities
-- are in thousandths.
use llm_sca_tooling.Prelude.{
  ℕ, String, ◌≡◌, ◌⊎◌, ◌↔◌, Bool, true, false, not, ◌&&◌, Option, none, some, List, [], ◌∷◌, arith,
  if◌then◌else◌, leb, ◌≢◌,
}
use llm_sca_tooling.Prelude.Text.{codes, occurs}

-- The text of a verdict: one of the three that the code tests for, or any other one.
pub data Verdict : Type 0 where
  satisfied violated unknown : Verdict
  other : String → Verdict

-- The text of a confidence, likewise.
pub data Confidence : Type 0 where
  analyser parser test heuristic unknown : Confidence
  other : String → Confidence

-- `confidence in _HARD_CONFIDENCE`
unfoldable pub is_hard : Confidence → Bool
is_hard analyser = true
is_hard parser = true
is_hard test = true
is_hard _ = false

pub data RiskClass : Type 0 where
  correctness security compliance : RiskClass
  other : String → RiskClass

-- `risk_class in {"security", "compliance"}`
unfoldable pub needs_hard_evidence : RiskClass → Bool
needs_hard_evidence security = true
needs_hard_evidence compliance = true
needs_hard_evidence _ = false

pub data EceBucket : Type 0 where
  high_confidence medium_confidence low_confidence unknown : EceBucket
  other : String → EceBucket

unfoldable pub ece_bucket_from_probability : ℕ → EceBucket
ece_bucket_from_probability p =
    if leb 900 p then high_confidence else if leb 700 p then medium_confidence else low_confidence

pub data Evidence : Type 0 where
  stage5 : (evidence_type : String) → Evidence
  stage6b_dynamic_trace calibrated_oracle no_hard_evidence : Evidence

pub data Uncertainty : Type 0 where
  calibration_absent security_or_compliance_requires_hard_evidence : Uncertainty
  insufficient_evidence : Uncertainty

pub record Clause : Type 0 where
  pub clause_id : String
  pub text : String
  pub risk_class : RiskClass
  pub harness_policy_flag : Bool

pub record StaticVerdictRecord : Type 0 where
  pub verdict : Verdict
  pub evidence_type : String
  pub confidence : Confidence
  pub ece_bucket : EceBucket

pub record DynamicVerdictRecord : Type 0 where
  pub verdict : Verdict
  pub confidence : Confidence

pub record CalibrationOracle : Type 0 where
  pub clause_text_pattern : String
  pub predicted_probability : ℕ

pub record ClauseVerdictRecord : Type 0 where
  pub clause_id : String
  pub final_verdict : Verdict
  pub confidence : Confidence
  pub ece_bucket : EceBucket
  pub stage_5_verdict : Verdict
  pub stage_6a_verdict : Verdict
  pub stage_6b_verdict : Verdict
  pub dominant_evidence : Evidence
  pub auto_pass_gate_passed : Bool
  pub uncertainty_reason : Option Uncertainty

-- The first oracle whose pattern occurs in the text.
unfoldable pub find_oracle : String → List CalibrationOracle → Option CalibrationOracle
find_oracle text [] = none
find_oracle text (o ∷ os) =
    if occurs (codes o.clause_text_pattern) (codes text) then some o else find_oracle text os

unfoldable pub uncertainty_of : Clause → Bool → Option Uncertainty
uncertainty_of c calibrated =
    if not calibrated
    then some calibration_absent
    else if needs_hard_evidence c.risk_class
    then some security_or_compliance_requires_hard_evidence
    else none

module _ (c : Clause) (s5 s6a : StaticVerdictRecord) (s6b : DynamicVerdictRecord) where
  abbrev verdict_record :
      Verdict → Confidence → EceBucket → Evidence → Bool → Option Uncertainty → ClauseVerdictRecord
  verdict_record final confidence bucket evidence passed uncertainty = record {
    clause_id = c.clause_id;
    final_verdict = final;
    confidence = confidence;
    ece_bucket = bucket;
    stage_5_verdict = s5.verdict;
    stage_6a_verdict = s6a.verdict;
    stage_6b_verdict = s6b.verdict;
    dominant_evidence = evidence;
    auto_pass_gate_passed = passed;
    uncertainty_reason = uncertainty;
  }

  unfoldable pub or_insufficient : Option Uncertainty → Uncertainty
  or_insufficient none = insufficient_evidence
  or_insufficient (some u) = u

  -- Rule 5, and the record for a clause that nothing decides.
  unfoldable pub rescue : Bool → List CalibrationOracle → ClauseVerdictRecord
  unfolding ece_bucket_from_probability uncertainty_of or_insufficient needs_hard_evidence
  rescue calibrated oracles =
      let undecided =
        verdict_record Verdict.unknown Confidence.unknown EceBucket.unknown no_hard_evidence false
          (some (or_insufficient (uncertainty_of c calibrated))) in
      if calibrated && not (needs_hard_evidence c.risk_class)
      then elim (find_oracle c.text oracles) [
        | some o ↦
            verdict_record satisfied heuristic (ece_bucket_from_probability o.predicted_probability)
              calibrated_oracle true none
        | none ↦ undecided
      ]
      else undecided

  -- What the code does once no stage says that the clause is violated and stage 5 says it holds.
  unfoldable pub satisfied_by_stage5 : Bool → ClauseVerdictRecord
  unfolding is_hard needs_hard_evidence uncertainty_of
  satisfied_by_stage5 calibrated =
      if is_hard s5.confidence
      then verdict_record satisfied s5.confidence s5.ece_bucket (stage5 s5.evidence_type)
          (calibrated && not (needs_hard_evidence c.risk_class)) none
      else verdict_record satisfied heuristic medium_confidence (stage5 s5.evidence_type) false
          (uncertainty_of c calibrated)

  unfoldable pub aggregate_verdicts : Bool → List CalibrationOracle → ClauseVerdictRecord
  unfolding rescue satisfied_by_stage5
  aggregate_verdicts calibrated oracles = elim s5.verdict [
    | violated ↦
        verdict_record violated s5.confidence s5.ece_bucket (stage5 s5.evidence_type) false none
    | satisfied ↦ elim s6b.verdict [
      | violated ↦
          verdict_record violated s6b.confidence EceBucket.unknown stage6b_dynamic_trace false none
      | _ ↦ satisfied_by_stage5 calibrated
    ]
    | _ ↦ elim s6b.verdict [
      | violated ↦
          verdict_record violated s6b.confidence EceBucket.unknown stage6b_dynamic_trace false none
      | _ ↦ rescue calibrated oracles
    ]
  ]

  -- A clause is violated exactly when stage 5 or the dynamic stage says so, and then it never passes
  -- the gate.
  pub aggregate-violated :
      (calibrated : Bool) (oracles : List CalibrationOracle)
      → let r = aggregate_verdicts calibrated oracles in
        ((r.final_verdict ≡ violated) ↔ ((s5.verdict ≡ violated) ⊎ (s6b.verdict ≡ violated)))
        × (r.final_verdict ≡ violated → r.auto_pass_gate_passed ≡ false)
  unfolding aggregate_verdicts
  aggregate-violated calibrated oracles = ground arith

  -- The gate passes a clause only if calibration is available, the clause is neither about security
  -- nor about compliance, it is found satisfied, and stage 5 gave hard evidence for that, or
  -- stage 5 says neither that it holds nor that it is violated and a calibrated oracle matches it.
  pub aggregate-auto_pass :
      (calibrated : Bool) (oracles : List CalibrationOracle)
      → let r = aggregate_verdicts calibrated oracles in
        r.auto_pass_gate_passed ≡ true
        → (calibrated ≡ true)
          × (needs_hard_evidence c.risk_class ≡ false)
          × (r.final_verdict ≡ satisfied)
          × (((s5.verdict ≡ satisfied) × (is_hard s5.confidence ≡ true))
              ⊎ ((s5.verdict ≢ satisfied)
                  × (s5.verdict ≢ violated)
                  × ((o : CalibrationOracle) × (find_oracle c.text oracles ≡ some o))))
  unfolding aggregate_verdicts
  aggregate-auto_pass calibrated oracles h = ground arith
