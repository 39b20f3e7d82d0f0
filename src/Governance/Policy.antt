-- ===== src/Governance/Policy.antt =====
-- src/llm_sca_tooling/governance/policy.py: the decision on a tool call.
use llm_sca_tooling.Prelude.{
  String, ◌≡◌, ◌⊎◌, ◌↔◌, inl, inr, refl, Bool, true, false, not, ◌&&◌, ◌||◌, Option, none, some,
  List, [], ◌∷◌, ◌++◌, arith, if◌then◌else◌, str_eq, any, contains, Option-cases, ap, ◌∙◌,
}
use llm_sca_tooling.Prelude.Dict.{Dict, Each, Each-lookup}
use llm_sca_tooling.Prelude.Text.{codes, starts_with}
use llm_sca_tooling.Governance.Permissions.{PermissionProfile, built_in, load}

pub data Action : Type 0 where
  allow deny approval_required : Action

pub data Reason : Type 0 where
  network_denied : (profile : String) → Reason
  needs_approval : (category profile : String) → Reason
  not_allowed : (category profile : String) → Reason
  outside_allowlist : (path profile : String) → Reason
  within_scope : Reason

pub record PolicyDecision : Type 0 where
  pub action : Action
  pub reason : Reason

pub record PolicyEvaluator : Type 0 where
  pub profiles : Dict PermissionProfile
  pub extra_paths : List String
  pub deny_network : Bool

-- The last two arguments of a call, and its category.
pub record ToolCall : Type 0 where
  pub tool_category : String
  pub permission_profile : String
  pub requested_path : Option String
  pub network_required : Bool

-- `not allowlist or any(path.startswith(p) for p in allowlist)`
unfoldable pub in_allowlist : List String → String → Bool
unfolding starts_with
in_allowlist [] path = true
in_allowlist (p ∷ ps) path = any (λ q. starts_with (codes path) (codes q)) (p ∷ ps)

unfoldable pub path_allowed : List String → String → Option String → Bool
unfolding in_allowlist
path_allowed allowlist category none = true
path_allowed allowlist category (some path) =
    not (str_eq category "edit" || str_eq category "execute") || in_allowlist allowlist path

abbrev pub or_text : Option String → String
or_text none = ""
or_text (some s) = s

unfoldable pub evaluate_with : PolicyEvaluator → ToolCall → PermissionProfile → PolicyDecision
unfolding path_allowed
evaluate_with e c p =
    if c.network_required && e.deny_network && not p.network_allowed
    then record { action = deny; reason = network_denied c.permission_profile }
    else if not (contains p.allowed_categories c.tool_category)
    then if contains p.require_approval_for c.tool_category
      then record {
        action = approval_required;
        reason = needs_approval c.tool_category c.permission_profile;
      }
      else record { action = deny; reason = not_allowed c.tool_category c.permission_profile }
    else if not (path_allowed (p.path_allowlist ++ e.extra_paths) c.tool_category c.requested_path)
    then record {
      action = deny;
      reason = outside_allowlist (or_text c.requested_path) c.permission_profile;
    }
    else record { action = allow; reason = within_scope }

-- `none` is the `KeyError` of an unknown profile.
unfoldable pub evaluate_tool_call : PolicyEvaluator → ToolCall → Option PolicyDecision
unfolding evaluate_with load
evaluate_tool_call e c = elim (load c.permission_profile e.profiles) [
  | none ↦ none
  | some p ↦ some (evaluate_with e c p)
]

-- What a profile grants for a call.
pub record Grants (e : PolicyEvaluator) (c : ToolCall) (p : PermissionProfile) : Type 0 where
  pub network : (c.network_required ≡ false) ⊎ (e.deny_network ≡ false) ⊎ (p.network_allowed ≡ true)
  pub category : contains p.allowed_categories c.tool_category ≡ true
  pub path :
      (path : String)
      → c.requested_path ≡ some path
      → (c.tool_category ≡ "edit") ⊎ (c.tool_category ≡ "execute")
      → in_allowlist (p.path_allowlist ++ e.extra_paths) path ≡ true

evaluate_with-allow :
    (e : PolicyEvaluator) (c : ToolCall) (p : PermissionProfile)
    → ((evaluate_with e c p).action ≡ allow) ↔ (
        ((c.network_required && e.deny_network && not p.network_allowed) ≡ false)
        × (contains p.allowed_categories c.tool_category ≡ true)
        × (path_allowed (p.path_allowlist ++ e.extra_paths) c.tool_category c.requested_path
            ≡ true))
unfolding evaluate_with
evaluate_with-allow e c p = ground arith

-- Only `review-commit` has the category.
abbrev IsLast : String → Type 0
IsLast category =
    Each (λ name p. contains p.allowed_categories category ≡ true → name ≡ "review-commit") built_in

commit-IsLast : IsLast "commit"
unfolding built_in
commit-IsLast =
    (λ h. absurd (cc), (λ h. absurd (cc), (λ h. absurd (cc), (λ h. absurd (cc), (λ h. refl, tt)))))

review-IsLast : IsLast "review"
unfolding built_in
review-IsLast =
    (λ h. absurd (cc), (λ h. absurd (cc), (λ h. absurd (cc), (λ h. absurd (cc), (λ h. refl, tt)))))

category-IsLast :
    (category : String) → (category ≡ "commit") ⊎ (category ≡ "review") → IsLast category
category-IsLast category (inl e) = rw e commit-IsLast
category-IsLast category (inr e) = rw e review-IsLast

known_profile :
    (e : PolicyEvaluator) (c : ToolCall) {d : PolicyDecision}
    → evaluate_tool_call e c ≡ some d
    → (p : PermissionProfile) × (load c.permission_profile e.profiles ≡ some p)
      × (evaluate_with e c p ≡ d)
unfolding evaluate_tool_call
known_profile e c h = elim (Option-cases (load c.permission_profile e.profiles)) [
  | inl unknown ↦ absurd (ground arith)
  | inr (p, known) ↦ (p, known, ground arith)
]

-- Under the built-in profiles only `review-commit` lets a commit or a review through without
-- approval, whatever paths are added.
pub built_in-commit :
    (extra : List String) (deny_network : Bool) (c : ToolCall) {d : PolicyDecision}
    → (c.tool_category ≡ "commit") ⊎ (c.tool_category ≡ "review")
    → evaluate_tool_call
        (record { profiles = built_in; extra_paths = extra; deny_network = deny_network })
        c
      ≡ some d
    → d.action ≡ allow
    → c.permission_profile ≡ "review-commit"
unfolding load
built_in-commit extra deny_network c which h ok =
    let e : PolicyEvaluator = record {
      profiles = built_in;
      extra_paths = extra;
      deny_network = deny_network;
    } in
    let (p, known, same) = known_profile e c h in
    Each-lookup
      (λ name q. contains q.allowed_categories c.tool_category ≡ true → name ≡ "review-commit")
      c.permission_profile built_in (category-IsLast c.tool_category which) known
      ((evaluate_with-allow e c p).0 (ap (λ x. x.action) same ∙ ok)).1
