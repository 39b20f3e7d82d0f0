-- ===== src/Governance/Tests.antt =====
-- Sessions under the built-in profiles, budgets and modes.
use llm_sca_tooling.Prelude.Dict.{lookup}
use llm_sca_tooling.Prelude.{String, ◌≡◌, ◌↔◌, inl, refl, true, false, none, some, [], ◌∷◌}
use llm_sca_tooling.Governance.Permissions.{PermissionProfile, built_in}
use llm_sca_tooling.Governance.Policy.{
  PolicyEvaluator, ToolCall, PolicyDecision, allow, within_scope, evaluate_tool_call,
  built_in-commit, deny, outside_allowlist,
}
use llm_sca_tooling.Governance.Profiles.{
  PermissionProfileSet, read_only, read_search_edit, allows, is_widened, effective_mode,
  is_widened_lem,
}
use llm_sca_tooling.Governance.Budget.{BudgetMonitor, check_wall_clock, hard_stop}

abbrev evaluator : PolicyEvaluator
evaluator = record { profiles = built_in; extra_paths = []; deny_network = true }

abbrev plan : PermissionProfile
plan = record {
  name = "plan";
  allowed_categories = "read" ∷ "search" ∷ "edit" ∷ [];
  path_allowlist = ".agent/plan.md" ∷ [];
  network_allowed = false;
  require_approval_for = "execute" ∷ "review" ∷ "commit" ∷ [];
}

abbrev edit_source : ToolCall
edit_source = record {
  tool_category = "edit";
  permission_profile = "plan";
  requested_path = some "src/a.py";
  network_required = false;
}

source_denied :
    evaluate_tool_call evaluator edit_source
    ≡ some (record { action = deny; reason = outside_allowlist "src/a.py" "plan" })
unfolding evaluate_tool_call built_in lookup
source_denied = refl

plan_allowed :
    evaluate_tool_call evaluator (record edit_source { requested_path = some ".agent/plan.md" })
    ≡ some (record { action = allow; reason = within_scope })
unfolding evaluate_tool_call built_in lookup
plan_allowed = refl

abbrev commit_call : ToolCall
commit_call = record {
  tool_category = "commit";
  permission_profile = "review-commit";
  requested_path = none;
  network_required = false;
}

abbrev allowed : PolicyDecision
allowed = record { action = allow; reason = within_scope }

commit_allowed : evaluate_tool_call evaluator commit_call ≡ some allowed
unfolding evaluate_tool_call built_in lookup
commit_allowed = refl

built_in-commit_example : commit_call.permission_profile ≡ "review-commit"
built_in-commit_example =
    built_in-commit [] true commit_call {d = allowed} (inl refl) commit_allowed refl

abbrev profiles : PermissionProfileSet
profiles = record {
  default_mode = read_only;
  per_repo_overrides = ("repo", read_search_edit) ∷ [];
  per_workflow_overrides = [];
}

is_widened_lem_example :
    (is_widened (effective_mode profiles (some "repo") none) read_only ≡ false) ↔ (
      (capability : String)
      → allows profiles capability (some "repo") none ≡ true
      → allows profiles capability none none ≡ true)
is_widened_lem_example = is_widened_lem profiles (some "repo") none

abbrev spent : BudgetMonitor
spent = record {
  config = record {
    max_tokens = some 100;
    max_tool_calls = none;
    max_wall_seconds = some 60;
    max_retries = none;
  };
  tokens_used = 120;
  tool_calls_used = 1;
  retries_used = 0;
  start_time = 5;
}

spent_stopped : (check_wall_clock 10 spent).status ≡ hard_stop
unfolding check_wall_clock
spent_stopped = refl
