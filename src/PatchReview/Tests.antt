-- ===== src/PatchReview/Tests.antt =====
-- A patch that writes out of scope, and one that passes.
use llm_sca_tooling.Prelude.Text.{starts_with}
use llm_sca_tooling.PatchReview.Policy.{
  PolicyInput, apply_deterministic_policy, block, Blocks, policy-block,
}
use llm_sca_tooling.PatchReview.Scope.{
  audit_scope, in_scope, process_compliant, verdict_of, process_noncompliant,
}
use llm_sca_tooling.Prelude.{◌≡◌, ◌↔◌, refl, false, none, [], ◌∷◌}

out_of_scope :
    (audit_scope ("src/a.py" ∷ "/etc/passwd" ∷ []) none none none).process_verdict
    ≡ process_noncompliant
unfolding audit_scope in_scope verdict_of starts_with
out_of_scope = refl

abbrev clean : PolicyInput
clean = record {
  diff_id = "d1";
  has_new_critical = false;
  has_new_security = false;
  newly_failing = [];
  poc_plus_result = "not_available";
  out_of_scope_writes = [];
  process_verdict = process_compliant;
  breaking_changes = [];
  block_merge = false;
}

abbrev failing : PolicyInput
failing = record clean { newly_failing = "test_a" ∷ [] }

policy-block_example : ((apply_deterministic_policy failing).policy_action ≡ block) ↔ Blocks failing
policy-block_example = policy-block failing
