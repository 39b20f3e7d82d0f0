-- ===== src/Workflows/Patches.antt =====
-- src/llm_sca_tooling/workflows/bug_resolve/gate_runner.py and patch_selection.py.
use llm_sca_tooling.Prelude.{
  ℕ, suc, zero, ◌+◌, String, Bool, true, false, not, ◌&&◌, Option, none, some, List, [], ◌∷◌, ◌++◌,
  map, if◌then◌else◌, ltb, ◌==◌, length, str_eq, select,
}

-- The fields of a candidate that gates and choice read.
pub record CandidatePatch : Type 0 where
  pub run_id : String
  pub candidate_index : ℕ
  pub changed_files : List String

pub data BlockReason : Type 0 where
  new_critical_sarif_alert interface_breaking_change : BlockReason
  certificate_conclusion_unsupported_soft : BlockReason
  newly_failing_tests : List String → BlockReason

pub record GateRunnerResult : Type 0 where
  pub run_id : String
  pub candidate_index : ℕ
  pub sarif_gate_pass : Bool
  pub build_gate_pass : Bool
  pub test_gate_pass : Bool
  pub interface_gate_pass : Bool
  pub certificate_conclusion : String
  pub overall_gate_pass : Bool
  pub block_reasons : List BlockReason

abbrev pub is_none : List String → Bool
is_none [] = true
is_none (x ∷ xs) = false

abbrev pub when : Bool → BlockReason → List BlockReason
when b r = if b then r ∷ [] else []

unfoldable pub run_gates :
    CandidatePatch
    → (conclusion : String) → (new_critical_sarif : Bool) → (failures : List String)
    → (interface_breaking : Bool) → GateRunnerResult
run_gates patch conclusion new_critical_sarif failures interface_breaking = record {
  run_id = patch.run_id;
  candidate_index = patch.candidate_index;
  sarif_gate_pass = not new_critical_sarif;
  build_gate_pass = true;
  test_gate_pass = is_none failures;
  interface_gate_pass = not interface_breaking;
  certificate_conclusion = conclusion;
  overall_gate_pass = not new_critical_sarif && is_none failures && not interface_breaking;
  block_reasons =
      when new_critical_sarif new_critical_sarif_alert
      ++ when (not (is_none failures)) (newly_failing_tests failures)
      ++ when interface_breaking interface_breaking_change
      ++ when (str_eq conclusion "unsupported") certificate_conclusion_unsupported_soft;
}

abbrev pub Pair : Type 0
Pair = CandidatePatch × GateRunnerResult

pub record PatchSelectionRecord : Type 0 where
  pub run_id : String
  pub candidates_evaluated : ℕ
  pub selected_candidate_index : Option ℕ
  pub rejected_candidates : List ℕ
  pub rejection_reasons : List (ℕ × List BlockReason)

-- `zip(..., strict=True)`; `none` is the `ValueError`.
unfoldable pub zip_strict : List CandidatePatch → List GateRunnerResult → Option (List Pair)
zip_strict [] [] = some []
zip_strict [] (g ∷ gs) = none
zip_strict (p ∷ ps) [] = none
zip_strict (p ∷ ps) (g ∷ gs) = elim (zip_strict ps gs) [ none ↦ none | some l ↦ some ((p, g) ∷ l) ]

abbrev pub files : Pair → ℕ
files pg = length pg.0.changed_files

-- `min` by the number of changed files, the first one of those that have the fewest, with its place
-- among the passing ones; the agreement score is the same for all of them.
unfoldable pub fewest : (place : ℕ) → (best : ℕ × Pair) → List Pair → ℕ × Pair
fewest place best [] = best
fewest place best (q ∷ qs) =
    fewest (place + 1) (if ltb (files q) (files best.1) then (place, q) else best) qs

-- The candidates other than the one at a place: `p is not best_patch`.
unfoldable pub others : (place best : ℕ) → List Pair → List ℕ
others place best [] = []
others place best (q ∷ qs) =
    let rest = others (place + 1) best qs in
    if place == best then rest else q.0.candidate_index ∷ rest

abbrev pub range : (from count : ℕ) → List ℕ
range from zero = []
range from (suc n) = from ∷ range (from + 1) n

abbrev pub passing_of : List Pair → List Pair
passing_of pairs = select (λ pg. pg.1.overall_gate_pass) pairs

abbrev pub reasons_of : List GateRunnerResult → List (ℕ × List BlockReason)
reasons_of gates =
    map (λ g. (g.candidate_index, g.block_reasons)) (select (λ g. not g.overall_gate_pass) gates)

unfoldable pub select_from :
    (run_id : String)
    → List CandidatePatch
    → List GateRunnerResult
    → (passing : List Pair) → PatchSelectionRecord
unfolding fewest others
select_from run_id patches gates [] = record {
  run_id = run_id;
  candidates_evaluated = length patches;
  selected_candidate_index = none;
  rejected_candidates = range 0 (length patches);
  rejection_reasons = reasons_of gates;
}
select_from run_id patches gates (q ∷ qs) =
    let best = fewest 1 (0, q) qs in
    record {
      run_id = run_id;
      candidates_evaluated = length patches;
      selected_candidate_index = some best.1.0.candidate_index;
      rejected_candidates = others 0 best.0 (q ∷ qs);
      rejection_reasons = [];
    }

unfoldable pub select_patch :
    String → List CandidatePatch → List GateRunnerResult → Option PatchSelectionRecord
unfolding zip_strict select_from
select_patch run_id patches gates = elim (zip_strict patches gates) [
  | none ↦ none
  | some pairs ↦ some (select_from run_id patches gates (passing_of pairs))
]
