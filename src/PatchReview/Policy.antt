-- ===== src/PatchReview/Policy.antt =====
-- src/llm_sca_tooling/patch_review/risk_policy.py: the deterministic policy, over the parts of its
-- inputs that it reads.
use llm_sca_tooling.Prelude.{
  String, ◌≡◌, ◌≢◌, ◌⊎◌, ◌↔◌, Bool, true, false, ◌||◌, not, Option, none, some, List, [], ◌∷◌,
  arith, if◌then◌else◌, str_eq, eq_iff,
}
use llm_sca_tooling.PatchReview.Scope.{
  ProcessVerdict, process_noncompliant, budget_exhausted, trace_incomplete, is_empty,
}

pub data RiskClass : Type 0 where
  safe correct_but_overfit vulnerable vulnerability_introducing unknown : RiskClass

pub data PolicyAction : Type 0 where
  merge_supporting review_required block unknown : PolicyAction

pub record PolicyInput : Type 0 where
  pub diff_id : String
  pub has_new_critical : Bool
  pub has_new_security : Bool
  pub newly_failing : List String
  pub poc_plus_result : String
  pub out_of_scope_writes : List String
  pub process_verdict : ProcessVerdict
  pub breaking_changes : List String
  pub block_merge : Bool

pub record PatchRiskResult : Type 0 where
  pub diff_id : String
  pub risk_class : RiskClass
  pub active_overrides : List String
  pub is_heuristic : Bool
  pub policy_action : PolicyAction

-- The verdict's text, where it is one of the three that call for a review.
unfoldable pub review_verdict : ProcessVerdict → Option String
review_verdict trace_incomplete = some "trace-incomplete"
review_verdict budget_exhausted = some "budget-exhausted"
review_verdict process_noncompliant = some "process-noncompliant"
review_verdict _ = none

abbrev known_class : RiskClass → Bool
known_class RiskClass.unknown = false
known_class _ = true

abbrev decide_as : PolicyInput → RiskClass → PolicyAction → List String → PatchRiskResult
decide_as i risk action overrides = record {
  diff_id = i.diff_id;
  risk_class = risk;
  active_overrides = overrides;
  is_heuristic = known_class risk;
  policy_action = action;
}

-- The end of the chain of tests, after those on the scope's process.
unfoldable pub after_process : PolicyInput → PatchRiskResult
after_process i =
    if not (is_empty i.breaking_changes)
    then decide_as i RiskClass.unknown review_required ("breaking-interface-change" ∷ [])
    else if i.block_merge
    then decide_as i RiskClass.unknown review_required ("maintainability-gate" ∷ [])
    else decide_as i safe merge_supporting []

unfoldable pub apply_deterministic_policy : PolicyInput → PatchRiskResult
unfolding review_verdict after_process
apply_deterministic_policy i =
    if i.has_new_critical || i.has_new_security
    then decide_as i vulnerability_introducing block ("new-security-sarif-alert" ∷ [])
    else if not (is_empty i.newly_failing)
    then decide_as i correct_but_overfit block ("failing-required-test" ∷ [])
    else if str_eq i.poc_plus_result "failed"
    then decide_as i vulnerable block ("poc-plus-failed" ∷ [])
    else if not (is_empty i.out_of_scope_writes)
    then decide_as i RiskClass.unknown block ("out-of-scope-write" ∷ [])
    else elim (review_verdict i.process_verdict) [
      | some v ↦ decide_as i RiskClass.unknown review_required (v ∷ [])
      | none ↦ after_process i
    ]

-- A condition on which the policy blocks a patch.
abbrev pub Blocks : PolicyInput → Type 0
Blocks i =
    (i.has_new_critical ≡ true)
    ⊎ (i.has_new_security ≡ true)
    ⊎ (i.newly_failing ≢ [])
    ⊎ (i.poc_plus_result ≡ "failed")
    ⊎ (i.out_of_scope_writes ≢ [])

-- A patch is blocked exactly when it brings a critical or a security alert, makes a test fail, fails
-- the proof of concept, or writes out of scope: no later finding lifts or adds a block.
pub policy-block :
    (i : PolicyInput) → ((apply_deterministic_policy i).policy_action ≡ block) ↔ Blocks i
unfolding apply_deterministic_policy
policy-block i = (blocked, blocks)
  where
    blocked : (apply_deterministic_policy i).policy_action ≡ block → Blocks i
    blocked h = ground (arith, eq_iff i.poc_plus_result "failed")

    blocks : Blocks i → (apply_deterministic_policy i).policy_action ≡ block
    blocks h = ground (arith, eq_iff i.poc_plus_result "failed")

-- None of the conditions that the policy looks for.
pub record IsClean (i : PolicyInput) : Type 0 where
  pub no_critical : i.has_new_critical ≡ false
  pub no_security : i.has_new_security ≡ false
  pub no_failing : i.newly_failing ≡ []
  pub not_exploited : i.poc_plus_result ≢ "failed"
  pub in_scope : i.out_of_scope_writes ≡ []
  pub traced : i.process_verdict ≢ trace_incomplete
  pub in_budget : i.process_verdict ≢ budget_exhausted
  pub in_process : i.process_verdict ≢ process_noncompliant
  pub no_breaking : i.breaking_changes ≡ []
  pub maintainable : i.block_merge ≡ false
