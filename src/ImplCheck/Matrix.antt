-- ===== src/ImplCheck/Matrix.antt =====
-- src/llm_sca_tooling/impl_check/verdict_matrix.py: the verdicts on the clauses of a document.
use llm_sca_tooling.Prelude.{
  ℕ, String, Bool, true, false, List, [], ◌∷◌, map, if◌then◌else◌, length, select, str_eq,
}
use llm_sca_tooling.ImplCheck.Aggregator.{
  Verdict, satisfied, violated, RiskClass, security, Clause, ClauseVerdictRecord,
}

pub data ComplianceStatus : Type 0 where
  non_compliant unknown partially_compliant compliant : ComplianceStatus

pub record ClauseVerdict : Type 0 where
  pub clause_id : String
  pub verdict : Verdict

pub record ClauseVerdictMatrix : Type 0 where
  pub doc_id : String
  pub run_id : String
  pub clause_count : ℕ
  pub satisfied_count : ℕ
  pub violated_count : ℕ
  pub unknown_count : ℕ
  pub security_clause_verdicts : List ClauseVerdict
  pub harness_policy_verdicts : List ClauseVerdict
  pub per_clause_records : List ClauseVerdictRecord
  pub overall_compliance_status : ComplianceStatus

unfoldable pub verdict_for : String → List ClauseVerdictRecord → Verdict
verdict_for id [] = Verdict.unknown
verdict_for id (r ∷ rs) = if str_eq r.clause_id id then r.final_verdict else verdict_for id rs

abbrev pub is_verdict : Verdict → Verdict → Bool
is_verdict satisfied satisfied = true
is_verdict violated violated = true
is_verdict Verdict.unknown Verdict.unknown = true
is_verdict _ _ = false

abbrev pub with_verdict : Verdict → List ClauseVerdictRecord → List ClauseVerdictRecord
with_verdict v = select (λ r. is_verdict r.final_verdict v)

unfoldable pub status_of : (sat vio unk : List ClauseVerdictRecord) → ComplianceStatus
status_of sat (r ∷ rs) unk = non_compliant
status_of [] [] (r ∷ rs) = ComplianceStatus.unknown
status_of (q ∷ qs) [] (r ∷ rs) = partially_compliant
status_of sat [] [] = compliant

-- `c.risk_class == "security"`
abbrev pub is_security : RiskClass → Bool
is_security security = true
is_security _ = false

abbrev pub verdict_entry : List ClauseVerdictRecord → Clause → ClauseVerdict
verdict_entry records c = record {
  clause_id = c.clause_id;
  verdict = verdict_for c.clause_id records;
}

unfoldable pub build_verdict_matrix :
    (doc_id run_id : String) → List Clause → List ClauseVerdictRecord → ClauseVerdictMatrix
build_verdict_matrix doc_id run_id clauses records = record {
  doc_id = doc_id;
  run_id = run_id;
  clause_count = length clauses;
  satisfied_count = length (with_verdict satisfied records);
  violated_count = length (with_verdict violated records);
  unknown_count = length (with_verdict Verdict.unknown records);
  security_clause_verdicts =
      map (verdict_entry records) (select (λ c. is_security c.risk_class) clauses);
  harness_policy_verdicts =
      map (verdict_entry records) (select (λ c. c.harness_policy_flag) clauses);
  per_clause_records = records;
  overall_compliance_status =
      status_of (with_verdict satisfied records) (with_verdict violated records)
        (with_verdict Verdict.unknown records);
}

abbrev pub has_verdict : Verdict → ClauseVerdictRecord → Bool
has_verdict v r = is_verdict r.final_verdict v

-- A record whose final verdict is another text than the three that the matrix counts.
abbrev pub is_uncounted : ClauseVerdictRecord → Bool
is_uncounted r = elim r.final_verdict [ Verdict.other t ↦ true | _ ↦ false ]
