-- ===== src/PatchReview/Scope.antt =====
-- src/llm_sca_tooling/patch_review/scope_audit.py: which paths a patch may write, and whether its run
-- left the required events.
use llm_sca_tooling.Prelude.{
  String, Bool, true, false, not, Option, none, some, List, [], ◌∷◌, if◌then◌else◌, contains, any,
  select,
}
use llm_sca_tooling.Prelude.Text.{codes, starts_with}

-- The text of a process verdict: one that the audit gives or the policy tests for, or any other one.
pub data ProcessVerdict : Type 0 where
  process_compliant process_noncompliant budget_exhausted trace_incomplete unknown : ProcessVerdict
  other : String → ProcessVerdict

abbrev pub default_allowlist : List String
default_allowlist =
    "src/" ∷ "tests/" ∷ "schemas/" ∷ "docs/" ∷ ".agent/" ∷ "AGENTS.md" ∷ "CLAUDE.md"
    ∷ "pyproject.toml" ∷ "tox.ini" ∷ "Makefile" ∷ ".github/workflows/" ∷ []

-- In the order in which `sorted` lists them.
abbrev pub required_events : List String
required_events = "budget_event" ∷ "final_verdict" ∷ "gate_result" ∷ "tool_call" ∷ []

pub record ScopeAuditResult : Type 0 where
  pub run_id : Option String
  pub changed_paths : List String
  pub allowlisted_paths : List String
  pub out_of_scope_writes : List String
  pub required_events_present : Bool
  pub denial_events_present : Bool
  pub budget_events_present : Bool
  pub missing_required_events : List String
  pub trace_complete : Bool
  pub process_verdict : ProcessVerdict

-- `xs or default`
abbrev pub or_default {ℓ} : {A : Type ℓ} → Option (List A) → List A → List A
or_default none d = d
or_default (some []) d = d
or_default (some (x ∷ xs)) d = x ∷ xs

abbrev pub is_empty {ℓ} : {A : Type ℓ} → List A → Bool
is_empty [] = true
is_empty (x ∷ xs) = false

unfoldable pub in_scope : List String → String → Bool
in_scope allowlist path = any (λ item. starts_with (codes path) (codes item)) allowlist

unfoldable pub verdict_of : (out : List String) (events missing : List String) → ProcessVerdict
verdict_of out events missing =
    if not (is_empty out)
    then process_noncompliant
    else if contains events "budget_hard_stop"
    then budget_exhausted
    else if not (is_empty missing)
    then trace_incomplete
    else process_compliant

unfoldable pub audit_scope :
    (changed_paths : List String) (run_id : Option String)
    (run_events allowlisted_paths : Option (List String))
    → ScopeAuditResult
audit_scope changed_paths run_id run_events allowlisted_paths =
    let allowlist = or_default allowlisted_paths default_allowlist in
    let out = select (λ path. not (in_scope allowlist path)) changed_paths in
    let events = or_default run_events required_events in
    let missing = select (λ e. not (contains events e)) required_events in
    record {
      run_id = run_id;
      changed_paths = changed_paths;
      allowlisted_paths = allowlist;
      out_of_scope_writes = out;
      required_events_present = is_empty missing;
      denial_events_present = not (is_empty out);
      budget_events_present = contains events "budget_event";
      missing_required_events = missing;
      trace_complete = is_empty missing;
      process_verdict = verdict_of out events missing;
    }
