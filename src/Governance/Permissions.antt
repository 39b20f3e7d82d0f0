-- ===== src/Governance/Permissions.antt =====
-- src/llm_sca_tooling/governance/permissions.py: the named permission profiles.
use llm_sca_tooling.Prelude.{String, Bool, false, Option, List, [], ◌∷◌}
use llm_sca_tooling.Prelude.Dict.{Dict, lookup, insert}

pub record PermissionProfile : Type 0 where
  pub name : String
  pub allowed_categories : List String
  pub path_allowlist : List String
  pub network_allowed : Bool
  pub require_approval_for : List String

abbrev pub all_categories : List String
all_categories = "read" ∷ "search" ∷ "edit" ∷ "execute" ∷ "review" ∷ "commit" ∷ []

unfoldable pub built_in : Dict PermissionProfile
built_in =
    (
      "read-only",
      record {
        name = "read-only";
        allowed_categories = "read" ∷ "search" ∷ [];
        path_allowlist = [];
        network_allowed = false;
        require_approval_for = "edit" ∷ "execute" ∷ "review" ∷ "commit" ∷ [];
      },
    )
    ∷ (
      "plan",
      record {
        name = "plan";
        allowed_categories = "read" ∷ "search" ∷ "edit" ∷ [];
        path_allowlist = ".agent/plan.md" ∷ [];
        network_allowed = false;
        require_approval_for = "execute" ∷ "review" ∷ "commit" ∷ [];
      },
    )
    ∷ (
      "scoped-edit",
      record {
        name = "scoped-edit";
        allowed_categories = "read" ∷ "search" ∷ "edit" ∷ [];
        path_allowlist = [];
        network_allowed = false;
        require_approval_for = "execute" ∷ "review" ∷ "commit" ∷ [];
      },
    )
    ∷ (
      "scoped-execute",
      record {
        name = "scoped-execute";
        allowed_categories = "read" ∷ "search" ∷ "edit" ∷ "execute" ∷ [];
        path_allowlist = [];
        network_allowed = false;
        require_approval_for = "review" ∷ "commit" ∷ [];
      },
    )
    ∷ (
      "review-commit",
      record {
        name = "review-commit";
        allowed_categories = all_categories;
        path_allowlist = [];
        network_allowed = false;
        require_approval_for = [];
      },
    )
    ∷ []

-- `none` is the `KeyError`.
unfoldable pub load : String → Dict PermissionProfile → Option PermissionProfile
load profile_name profiles = lookup profile_name profiles

unfoldable pub register : PermissionProfile → Dict PermissionProfile → Dict PermissionProfile
register profile profiles = insert profile.name profile profiles
