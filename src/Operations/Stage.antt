-- ===== src/Operations/Stage.antt =====
-- src/llm_sca_tooling/operations/harness_stage.py: the stage of a repository, from the paths that it
-- has. `exists` tells whether a path is there below the root, `full` is its text.
use llm_sca_tooling.Prelude.{
  refl, ℕ, String, ◌≤◌, Bool, true, false, ◌&&◌, ◌||◌, none, some, List, [], ◌∷◌, if◌then◌else◌,
  ◌≡◌, arith, any, ◌↔◌,
}
use llm_sca_tooling.Prelude.Dict.{Dict, lookup, insert}

pub record StageSignal : Type 0 where
  pub name : String
  pub present : Bool
  pub path : String

pub data Stage : Type 0 where
  greenfield walking_skeleton growing production : Stage

-- The rationale is a fixed text for each stage and is left out.
pub record HarnessStageReport : Type 0 where
  pub repo_root : String
  pub stage : Stage
  pub signals : List StageSignal

unfoldable pub stage_int : Stage → ℕ
stage_int greenfield = 0
stage_int walking_skeleton = 1
stage_int growing = 2
stage_int production = 3

module _ (full : String → String) where
  unfoldable pub sig : (exists : String → Bool) → String → List String → StageSignal
  sig exists name [] = record { name = name; present = false; path = "" }
  sig exists name (p ∷ ps) =
      if exists p then record { name = name; present = true; path = full p } else sig exists name ps

  unfoldable pub collect_signals : (exists : String → Bool) → List StageSignal
  unfolding sig
  collect_signals exists =
      sig exists "src_dir" ("src" ∷ [])
      ∷ sig exists "tests_dir" ("tests" ∷ [])
      ∷ sig exists "makefile" ("Makefile" ∷ "makefile" ∷ [])
      ∷ sig exists "pyproject_toml" ("pyproject.toml" ∷ [])
      ∷ sig exists "package_json" ("package.json" ∷ [])
      ∷ sig exists "ci_workflow" (".github/workflows" ∷ [])
      ∷ sig exists "pre_commit_config" (".pre-commit-config.yaml" ∷ [])
      ∷ sig exists "tox_ini" ("tox.ini" ∷ [])
      ∷ sig exists "agents_md" ("AGENTS.md" ∷ [])
      ∷ sig exists "secrets_baseline" (".secrets.baseline" ∷ [])
      ∷ sig exists "bandit_config" ("pyproject.toml" ∷ [])
      ∷ sig exists "ruff_config" ("pyproject.toml" ∷ [])
      ∷ sig exists "devcontainer" (".devcontainer" ∷ [])
      ∷ []

-- `{s.name: s for s in signals}`
unfoldable pub by_name : List StageSignal → Dict StageSignal → Dict StageSignal
by_name [] d = d
by_name (s ∷ ss) d = by_name ss (insert s.name s d)

unfoldable pub is_present : Dict StageSignal → String → Bool
is_present d name = elim (lookup name d) [ none ↦ false | some s ↦ s.present ]

unfoldable pub classify : List StageSignal → Stage
unfolding by_name is_present
classify signals =
    let d = by_name signals [] in
    let has_src = is_present d "src_dir" in
    let has_tests = is_present d "tests_dir" in
    let has_makefile = is_present d "makefile" in
    let has_pyproject = is_present d "pyproject_toml" in
    let has_ci =
      is_present d "ci_workflow" || is_present d "tox_ini" || is_present d "pre_commit_config" in
    let has_agents_md = is_present d "agents_md" in
    if has_src && has_tests && has_makefile && has_pyproject && has_ci && has_agents_md
    then production
    else if has_src && has_tests && (has_ci || has_makefile || has_pyproject)
    then growing
    else if has_src || has_makefile || has_pyproject
    then walking_skeleton
    else greenfield

unfoldable pub assess_harness_stage :
    (full : String → String) (root : String) (exists : String → Bool) → HarnessStageReport
unfolding collect_signals classify
assess_harness_stage full root exists =
    let signals = collect_signals full exists in
    record { repo_root = root; stage = classify signals; signals = signals }

-- The classification by what it rests on.
unfoldable grade : (src tests made project ci agents : Bool) → Stage
grade src tests made project ci agents =
    if src && tests && made && project && ci && agents
    then production
    else if src && tests && (ci || made || project)
    then growing
    else if src || made || project
    then walking_skeleton
    else greenfield

grade-monotone :
    (s t m p c a s' t' m' p' c' a' : Bool)
    → (s ≡ true → s' ≡ true)
    → (t ≡ true → t' ≡ true)
    → (m ≡ true → m' ≡ true)
    → (p ≡ true → p' ≡ true)
    → (c ≡ true → c' ≡ true)
    → (a ≡ true → a' ≡ true)
    → stage_int (grade s t m p c a) ≤ stage_int (grade s' t' m' p' c' a')
unfolding grade stage_int
grade-monotone s t m p c a s' t' m' p' c' a' hs ht hm hp hc ha = ground arith

grade-production :
    (s t m p c a : Bool)
    → (grade s t m p c a ≡ production) ↔ ((s && t && p && a ≡ true) × (m ≡ true) × (c ≡ true))
unfolding grade
grade-production s t m p c a = ground arith

abbrev pub makefiles : List String
makefiles = "Makefile" ∷ "makefile" ∷ []

abbrev pub integrations : List String
integrations = ".github/workflows" ∷ "tox.ini" ∷ ".pre-commit-config.yaml" ∷ []

abbrev stage_of : (exists : String → Bool) → Stage
stage_of exists =
    grade (exists "src") (exists "tests") (any exists makefiles) (exists "pyproject.toml")
      (any exists integrations) (exists "AGENTS.md")

-- The text of the first of some paths that is there.
abbrev first_path : (full : String → String) (exists : String → Bool) → List String → String
first_path full exists [] = ""
first_path full exists (p ∷ ps) = if exists p then full p else first_path full exists ps

sig_lem :
    (full : String → String) (exists : String → Bool) (name : String) (ps : List String)
    → sig full exists name ps
      ≡ record { name = name; present = any exists ps; path = first_path full exists ps }
unfolding sig
sig_lem full exists name [] = refl
sig_lem full exists name (p ∷ ps) = ground (arith, sig_lem full exists name ps)

sig_one :
    (full : String → String) (exists : String → Bool) (name p : String)
    → sig full exists name (p ∷ [])
      ≡ record { name = name; present = exists p; path = first_path full exists (p ∷ []) }
unfolding sig
sig_one full exists name p = ground arith

or_regroup : (a b c : Bool) → a || b || c ≡ a || (b || (c || false))
or_regroup a b c = ground arith

classify-collect_signals :
    (full : String → String) (exists : String → Bool)
    → classify (collect_signals full exists) ≡ stage_of exists
unfolding classify collect_signals by_name is_present lookup insert grade
classify-collect_signals full exists =
    let e = sig_one full exists in
    rw
      (
        e "src_dir" "src",
        e "tests_dir" "tests",
        sig_lem full exists "makefile" makefiles,
        e "pyproject_toml" "pyproject.toml",
        e "package_json" "package.json",
        e "ci_workflow" ".github/workflows",
        e "pre_commit_config" ".pre-commit-config.yaml",
        e "tox_ini" "tox.ini",
        e "agents_md" "AGENTS.md",
        e "secrets_baseline" ".secrets.baseline",
        e "bandit_config" "pyproject.toml",
        e "ruff_config" "pyproject.toml",
        e "devcontainer" ".devcontainer",
        or_regroup (exists ".github/workflows") (exists "tox.ini")
            (exists ".pre-commit-config.yaml"),
      )
      refl

any-monotone :
    (fewer more : String → Bool) (ps : List String)
    → ((p : String) → fewer p ≡ true → more p ≡ true)
    → any fewer ps ≡ true
    → any more ps ≡ true
any-monotone fewer more [] h a = a
any-monotone fewer more (p ∷ ps) h a = ground (arith, h p, any-monotone fewer more ps h)

-- A repository that has every path that another one has is assessed at the same stage or a higher
-- one, and at the highest exactly if it has sources, tests, a makefile under either name,
-- `pyproject.toml`, `AGENTS.md` and one of the three configurations of continuous integration.
pub assess_harness_stage-monotone :
    (full : String → String) (root : String) (fewer more : String → Bool)
    → ((p : String) → fewer p ≡ true → more p ≡ true)
    → let low = (assess_harness_stage full root fewer).stage in
      let high = (assess_harness_stage full root more).stage in
      (stage_int low ≤ stage_int high)
      × ((high ≡ production) ↔ (
          (more "src" && more "tests" && more "pyproject.toml" && more "AGENTS.md" ≡ true)
          × (any more makefiles ≡ true)
          × (any more integrations ≡ true)))
unfolding assess_harness_stage
assess_harness_stage-monotone full root fewer more h =
    rw (classify-collect_signals full fewer, classify-collect_signals full more)
      (
        grade-monotone _ _ _ _ _ _ _ _ _ _ _ _ (h "src") (h "tests")
            (any-monotone fewer more makefiles h) (h "pyproject.toml")
            (any-monotone fewer more integrations h) (h "AGENTS.md"),
        grade-production (more "src") (more "tests") (any more makefiles) (more "pyproject.toml")
            (any more integrations) (more "AGENTS.md"),
      )
