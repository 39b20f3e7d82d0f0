-- ===== src/Memory/Guarded.antt =====
-- Which trajectories the retrieval of memory/retrieval turns into active hints, and which into
-- rejected ones.
use llm_sca_tooling.Prelude.Floats.{Floats}
use llm_sca_tooling.Memory.Compaction.{is_past}
use mathlib.Core.List.{Perm}
use mathlib.Core.List.Perm
use llm_sca_tooling.Prelude.{String, Bool, List, [], ◌∷◌, ◌≡◌, not, str_eq, ◌&&◌, ◌||◌, true, false}
use llm_sca_tooling.Memory.Model.{TrajectoryRecord, FineHint}

-- A trajectory is held back for an issue: it is past its expiry, unreviewed or superseded, or it is
-- of low utility and its similarity to the issue is at least 17/20.
abbrev pub is_held_back : {F : Type 0} ⦃f : Floats F⦄ → String → TrajectoryRecord → F → Bool
is_held_back ⦃f⦄ now t similarity =
    is_past now t.expiry_ts
    || str_eq t.review_state "unreviewed"
    || str_eq t.review_state "superseded"
    || (f.leq (f.quotient 17 20) similarity && str_eq t.utility "low")

abbrev pub is_useful : TrajectoryRecord → Bool
is_useful t = str_eq t.utility "high"

-- Of two floats, at most one is less than the other one.
abbrev pub IsAsymmetric : (F : Type 0) ⦃f : Floats F⦄ → Type 0
IsAsymmetric F ⦃f⦄ = (x y : F) → f.less x y ≡ true → f.less y x ≡ false

module _ {F : Type 0} ⦃f : Floats F⦄ where
  open f use {less}

  -- No hint scores less than the one behind it.
  abbrev pub is_descending : List (FineHint F) → Bool
  is_descending [] = true
  is_descending (g ∷ []) = true
  is_descending (g ∷ h ∷ hs) =
      not (less g.similarity_score h.similarity_score) && is_descending (h ∷ hs)
