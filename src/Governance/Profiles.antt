-- ===== src/Governance/Profiles.antt =====
-- src/llm_sca_tooling/hardening/permission_profiles.py: permission modes, and which of them is in
-- force for a repository and a workflow.
use llm_sca_tooling.Prelude.{
  String, ◌≡◌, Bool, true, false, not, ◌&&◌, Option, none, some, List, [], ◌∷◌, arith,
  if◌then◌else◌, str_eq, any, Bool-cases, ◌↔◌, refl, inl, inr,
}
use llm_sca_tooling.Prelude.Dict.{Dict, lookup}

pub data PermissionMode : Type 0 where
  read_only read_search read_search_edit read_search_execute review commit : PermissionMode

unfoldable pub row : (read search edit execute review commit : Bool) → Dict Bool
row a b c d e f =
    ("read", a) ∷ ("search", b) ∷ ("edit", c) ∷ ("execute", d) ∷ ("review", e) ∷ ("commit", f) ∷ []

unfoldable pub mode_capabilities : PermissionMode → Dict Bool
unfolding row
mode_capabilities read_only = row true false false false false false
mode_capabilities read_search = row true true false false false false
mode_capabilities read_search_edit = row true true true false false false
mode_capabilities read_search_execute = row true true false true false false
mode_capabilities review = row true true false false true false
mode_capabilities commit = row true true true true true true

-- `caps.get(capability, False)`
unfoldable pub granted : Dict Bool → String → Bool
unfolding lookup
granted caps capability = elim (lookup capability caps) [ none ↦ false | some b ↦ b ]

pub record PermissionProfileSet : Type 0 where
  pub default_mode : PermissionMode
  pub per_repo_overrides : Dict PermissionMode
  pub per_workflow_overrides : Dict PermissionMode

-- `if name and name in overrides`
unfoldable pub override : Option String → Dict PermissionMode → Option PermissionMode
override none overrides = none
override (some name) overrides = if str_eq name "" then none else lookup name overrides

unfoldable pub effective_mode :
    PermissionProfileSet → (repo_id workflow : Option String) → PermissionMode
unfolding override
effective_mode p repo_id workflow = elim (override workflow p.per_workflow_overrides) [
  | some mode ↦ mode
  | none ↦ elim (override repo_id p.per_repo_overrides) [ some mode ↦ mode | none ↦ p.default_mode ]
]

unfoldable pub allows : PermissionProfileSet → String → (repo_id workflow : Option String) → Bool
unfolding effective_mode granted mode_capabilities
allows p capability repo_id workflow =
    granted (mode_capabilities (effective_mode p repo_id workflow)) capability

abbrev pub checked_capabilities : List String
checked_capabilities = "search" ∷ "edit" ∷ "execute" ∷ "review" ∷ "commit" ∷ []

unfoldable pub is_widened : (mode baseline : PermissionMode) → Bool
unfolding granted mode_capabilities
is_widened mode baseline =
    any
      (λ cap.
        granted (mode_capabilities mode) cap && not (granted (mode_capabilities baseline) cap))
      checked_capabilities

row_covers :
    (b c d e f b' c' d' e' f' : Bool) (cap : String)
    → any
        (λ x. granted (row true b c d e f) x && not (granted (row true b' c' d' e' f') x))
        checked_capabilities
      ≡ false
    → granted (row true b c d e f) cap ≡ true
    → granted (row true b' c' d' e' f') cap ≡ true
unfolding granted row
row_covers b c d e f b' c' d' e' f' cap h g = ground arith

IsRow : Dict Bool → Type 0
IsRow caps =
    (b : Bool) × (c : Bool) × (d : Bool) × (e : Bool) × (f : Bool) × (caps ≡ row true b c d e f)

mode-IsRow : (mode : PermissionMode) → IsRow (mode_capabilities mode)
unfolding mode_capabilities IsRow
mode-IsRow read_only = (false, false, false, false, false, refl)
mode-IsRow read_search = (true, false, false, false, false, refl)
mode-IsRow read_search_edit = (true, true, false, false, false, refl)
mode-IsRow read_search_execute = (true, false, true, false, false, refl)
mode-IsRow review = (true, false, false, true, false, refl)
mode-IsRow commit = (true, true, true, true, true, refl)

any_pair :
    (mode baseline : PermissionMode) (caps : List String)
    → any
        (λ x. granted (mode_capabilities mode) x && not (granted (mode_capabilities baseline) x))
        caps
      ≡ true
    → (cap : String) × (granted (mode_capabilities mode) cap ≡ true)
      × (granted (mode_capabilities baseline) cap ≡ false)
any_pair mode baseline [] h = cc
any_pair mode baseline (x ∷ xs) h =
    elim (Bool-cases
      (granted (mode_capabilities mode) x && not (granted (mode_capabilities baseline) x))) [
        | inl e ↦ (x, ground arith, ground arith)
        | inr e ↦ any_pair mode baseline xs (ground arith)
      ]

widened_covers :
    (mode baseline : PermissionMode) (cap : String)
    → is_widened mode baseline ≡ false
    → granted (mode_capabilities mode) cap ≡ true
    → granted (mode_capabilities baseline) cap ≡ true
unfolding is_widened IsRow
widened_covers mode baseline cap =
    let (b, c, d, e, f, m) = mode-IsRow mode in
    let (b', c', d', e', f', n) = mode-IsRow baseline in
    rw (is_widened, m, n) (row_covers b c d e f b' c' d' e' f' cap)

-- The drift check compares all that two modes grant: it finds no widening exactly when every
-- capability of the one, under any name, is one of the other. So a context whose mode is not wider
-- than the default is allowed nothing that the default does not allow.
pub is_widened_lem :
    (p : PermissionProfileSet) (repo_id workflow : Option String)
    → (is_widened (effective_mode p repo_id workflow) p.default_mode ≡ false) ↔ (
        (capability : String)
        → allows p capability repo_id workflow ≡ true
        → allows p capability none none ≡ true)
unfolding allows effective_mode override is_widened
is_widened_lem p repo_id workflow =
    let mode = effective_mode p repo_id workflow in
    (
      λ narrow capability ok. widened_covers mode p.default_mode capability narrow ok,
      λ covers. elim (Bool-cases (is_widened mode p.default_mode)) [
        | inl wide ↦
            let (cap, more, less) = any_pair mode p.default_mode checked_capabilities wide in
            let default_allows : granted (mode_capabilities p.default_mode) cap ≡ true =
              covers cap more in
            absurd (cc)
        | inr narrow ↦ narrow
      ],
    )
