-- ===== src/ImplCheck/Tests.antt =====
-- A clause that the gate passes, one that the dynamic stage refutes, and their matrix.
use llm_sca_tooling.Prelude.{◌+◌, ◌≡◌, ◌↔◌, ◌⊎◌, refl, true, false, [], ◌∷◌, some, List, ◌≢◌}
use llm_sca_tooling.ImplCheck.Aggregator.{
  Verdict, Confidence, EceBucket, satisfied, violated, correctness, Clause, StaticVerdictRecord,
  DynamicVerdictRecord, CalibrationOracle, ClauseVerdictRecord, aggregate_verdicts,
  aggregate-violated, aggregate-auto_pass, is_hard, needs_hard_evidence, find_oracle,
}
use llm_sca_tooling.ImplCheck.Matrix.{build_verdict_matrix, compliant, status_of}

abbrev clause : Clause
clause = record {
  clause_id = "c1";
  text = "the parser rejects an empty file";
  risk_class = correctness;
  harness_policy_flag = false;
}

abbrev parsed : StaticVerdictRecord
parsed = record {
  verdict = satisfied;
  evidence_type = "type_check";
  confidence = Confidence.parser;
  ece_bucket = EceBucket.high_confidence;
}

abbrev refuted : DynamicVerdictRecord
refuted = record { verdict = violated; confidence = Confidence.test }

abbrev silent : DynamicVerdictRecord
silent = record { verdict = Verdict.unknown; confidence = Confidence.unknown }

refuted_by_trace :
    (aggregate_verdicts clause parsed parsed refuted true []).final_verdict ≡ violated
unfolding aggregate_verdicts
refuted_by_trace = refl

aggregate-violated_example :
    let r = aggregate_verdicts clause parsed parsed refuted true [] in
    ((r.final_verdict ≡ violated) ↔ ((parsed.verdict ≡ violated) ⊎ (refuted.verdict ≡ violated)))
    × (r.final_verdict ≡ violated → r.auto_pass_gate_passed ≡ false)
aggregate-violated_example = aggregate-violated clause parsed parsed refuted true []

passed : (aggregate_verdicts clause parsed parsed silent true []).auto_pass_gate_passed ≡ true
unfolding aggregate_verdicts
passed = refl

aggregate-auto_pass_example :
    (true ≡ true)
    × (needs_hard_evidence clause.risk_class ≡ false)
    × ((aggregate_verdicts clause parsed parsed silent true []).final_verdict ≡ satisfied)
    × (((parsed.verdict ≡ satisfied) × (is_hard parsed.confidence ≡ true))
        ⊎ ((parsed.verdict ≢ satisfied)
            × (parsed.verdict ≢ violated)
            × ((o : CalibrationOracle) × (find_oracle clause.text [] ≡ some o))))
aggregate-auto_pass_example = aggregate-auto_pass clause parsed parsed silent true [] passed

-- The record of the clause, and one with another text for its verdict.
abbrev verdicts : List ClauseVerdictRecord
verdicts =
    let r = aggregate_verdicts clause parsed parsed silent true [] in
    r ∷ record r { final_verdict = Verdict.other "skipped" } ∷ []

one_counted :
    let m = build_verdict_matrix "doc" "run" (clause ∷ []) verdicts in
    (m.satisfied_count + m.violated_count + m.unknown_count ≡ 1)
    × (m.overall_compliance_status ≡ compliant)
unfolding build_verdict_matrix aggregate_verdicts status_of
one_counted = (refl, refl)
