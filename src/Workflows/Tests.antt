-- ===== src/Workflows/Tests.antt =====
-- Three candidates: the first breaks an interface, the last changes fewer files than the second.
use llm_sca_tooling.Prelude.{ℕ, String, ◌≡◌, ◌⊎◌, refl, true, false, none, some, List, [], ◌∷◌}
use mathlib.Core.Option
use llm_sca_tooling.Workflows.Patches.{
  CandidatePatch, GateRunnerResult, Pair, PatchSelectionRecord, run_gates, passing_of, select_patch,
  zip_strict,
}
use llm_sca_tooling.Workflows.Choice.{IsBest, select_patch-IsBest}

abbrev candidate : ℕ → List String → CandidatePatch
candidate i files = record { run_id = "run"; candidate_index = i; changed_files = files }

abbrev patches : List CandidatePatch
patches =
    candidate 0 ("a.py" ∷ [])
    ∷ candidate 1 ("a.py" ∷ "b.py" ∷ "c.py" ∷ [])
    ∷ candidate 2 ("a.py" ∷ "b.py" ∷ [])
    ∷ []

abbrev gates : List GateRunnerResult
gates =
    run_gates (candidate 0 ("a.py" ∷ [])) "supported" false [] true
    ∷ run_gates (candidate 1 ("a.py" ∷ "b.py" ∷ "c.py" ∷ [])) "supported" false [] false
    ∷ run_gates (candidate 2 ("a.py" ∷ "b.py" ∷ [])) "unsupported" false [] false
    ∷ []

abbrev pairs : List Pair
pairs =
    (candidate 0 ("a.py" ∷ []), run_gates (candidate 0 ("a.py" ∷ [])) "supported" false [] true)
    ∷ (
      candidate 1 ("a.py" ∷ "b.py" ∷ "c.py" ∷ []),
      run_gates (candidate 1 ("a.py" ∷ "b.py" ∷ "c.py" ∷ [])) "supported" false [] false,
    )
    ∷ (
      candidate 2 ("a.py" ∷ "b.py" ∷ []),
      run_gates (candidate 2 ("a.py" ∷ "b.py" ∷ [])) "unsupported" false [] false,
    )
    ∷ []

zipped : zip_strict patches gates ≡ some pairs
unfolding zip_strict
zipped = refl

chosen :
    Option.map (λ r. r.selected_candidate_index) (select_patch "run" patches gates) ≡ some (some 2)
unfolding select_patch run_gates
chosen = refl

select_patch-IsBest_example :
    (r : PatchSelectionRecord) × (select_patch "run" patches gates ≡ some r)
    × (((r.selected_candidate_index ≡ none) × (passing_of pairs ≡ []))
        ⊎ ((i : ℕ) × (r.selected_candidate_index ≡ some i) × IsBest pairs i))
select_patch-IsBest_example = select_patch-IsBest "run" patches gates {pairs = pairs} zipped
