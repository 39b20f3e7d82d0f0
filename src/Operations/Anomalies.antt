-- ===== src/Operations/Anomalies.antt =====
-- src/llm_sca_tooling/operations/anomaly_detector.py: the patterns in the events of a run. The
-- description of a finding is left out.
use llm_sca_tooling.Prelude.{
  ℕ, String, ◌+◌, Bool, true, false, ◌&&◌, ◌||◌, Option, none, some, List, [], ◌∷◌, ◌++◌,
  if◌then◌else◌, map, select, length, take, str_eq, opt_str_eq, leb, ◌==◌, contains, distinct_texts,
}
use llm_sca_tooling.Prelude.Dict.{Dict, lookup, insert}
use llm_sca_tooling.Prelude.Text.{codes, lower, occurs}

-- An event, a dict with these keys at most.
pub record Event : Type 0 where
  pub type_name : Option String
  pub stage : Option String
  pub event_id : Option String
  pub policy_action : Option String

pub record AnomalyFinding : Type 0 where
  pub kind : String
  pub severity : String
  pub evidence : List String

pub record AnomalyReport : Type 0 where
  pub run_id : String
  pub findings : List AnomalyFinding

abbrev pub found : (kind severity : String) → List String → AnomalyFinding
found kind severity evidence = record { kind = kind; severity = severity; evidence = evidence }

-- `d.get(key, default)`, for a key that is given as an optional value.
abbrev get_or : String → Option String → String
get_or default none = default
get_or default (some v) = v

abbrev pub etype : Event → String
etype e = get_or "" e.type_name

abbrev pub id_of : Event → String
id_of e = get_or "" e.event_id

unfoldable pub has_anomalies : AnomalyReport → Bool
has_anomalies r = elim r.findings [ [] ↦ false | f ∷ fs ↦ true ]

abbrev pub is_error : AnomalyFinding → Bool
is_error f = str_eq f.severity "error"

unfoldable pub error_count : AnomalyReport → ℕ
error_count r = length (select is_error r.findings)

-- `counts.setdefault(key, []).append(id)`, for a key that is a pair.
unfoldable pub count_call :
    String
    → String
    → String
    → List (String × String × List String)
    → List (String × String × List String)
count_call t s id [] = (t, s, id ∷ []) ∷ []
count_call t s id ((u, v, ids) ∷ counts) =
    if str_eq u t && str_eq v s
    then (u, v, ids ++ id ∷ []) ∷ counts
    else (u, v, ids) ∷ count_call t s id counts

unfoldable pub count_calls :
    List Event → List (String × String × List String) → List (String × String × List String)
unfolding count_call
count_calls [] counts = counts
count_calls (e ∷ es) counts =
    count_calls es (count_call (etype e) (get_or "" e.stage) (id_of e) counts)

abbrev pub repeated : List (String × String × List String) → List AnomalyFinding
repeated [] = []
repeated ((t, s, ids) ∷ counts) =
    let rest = repeated counts in
    if leb 5 (length ids) then found "repeated_tool" "warning" (take 5 ids) ∷ rest else rest

-- The findings that a check adds to the report.
unfoldable pub check_repeated_tool_calls : List Event → List AnomalyFinding
unfolding count_calls
check_repeated_tool_calls es = repeated (count_calls es [])

abbrev pub is_denied : Event → Bool
is_denied e = opt_str_eq e.policy_action (some "deny")

-- The loop, from the number of denials in a row and their ids.
unfoldable pub denials_from : ℕ → List String → List Event → List AnomalyFinding
denials_from consecutive ids [] = []
denials_from consecutive ids (e ∷ es) =
    let more = denials_from (consecutive + 1) (ids ++ id_of e ∷ []) es in
    let fresh = denials_from 0 [] es in
    if is_denied e
    then (if leb 3 (consecutive + 1)
        then found "denial_storm" "error" (take 5 (ids ++ id_of e ∷ [])) ∷ fresh
        else more)
    else fresh

unfoldable pub check_denial_storm : List Event → List AnomalyFinding
unfolding denials_from
check_denial_storm es = denials_from 0 [] es

-- One finding for each event that passes a test.
abbrev pub each_event : (Event → Bool) → (Event → AnomalyFinding) → List Event → List AnomalyFinding
each_event test finding es = map finding (select test es)

unfoldable pub check_budget_exhaustion : List Event → List AnomalyFinding
check_budget_exhaustion es =
    each_event (λ e. contains ("budget_warning" ∷ "budget_hard_stop" ∷ []) (etype e))
      (λ e.
        found "budget_exhaustion"
          (if str_eq (etype e) "budget_hard_stop" then "error" else "warning") (id_of e ∷ []))
      es

unfoldable pub check_stale_index : List Event → List AnomalyFinding
unfolding occurs lower
check_stale_index es =
    each_event
      (λ e.
        occurs (codes "stale_index") (codes (etype e))
        || occurs (codes "dirty_worktree") (lower (codes (etype e))))
      (λ e. found "stale_index" "warning" (id_of e ∷ [])) es

unfoldable pub is_out_of_scope : Event → Bool
unfolding occurs
is_out_of_scope e =
    occurs (codes "out_of_scope") (codes (etype e))
    || occurs (codes "out-of-scope") (codes (etype e))

unfoldable pub check_out_of_scope_writes : List Event → List AnomalyFinding
unfolding is_out_of_scope
check_out_of_scope_writes es =
    each_event is_out_of_scope (λ e. found "out_of_scope_write" "error" (id_of e ∷ [])) es

abbrev is_load : Event → Bool
is_load e = str_eq (etype e) "context_load"

abbrev is_evidence : Event → Bool
is_evidence e = contains ("tool_result" ∷ "graph_query" ∷ "sarif_result" ∷ []) (etype e)

unfoldable pub check_context_growth_without_evidence : List Event → List AnomalyFinding
check_context_growth_without_evidence es =
    let loads = map id_of (select is_load es) in
    if leb 5 (length loads) && length (select is_evidence es) == 0
    then found "context_growth" "warning" (take 5 loads) ∷ []
    else []

unfoldable pub changes_code : Event → Bool
unfolding occurs
changes_code e =
    occurs (codes "code_change") (codes (etype e))
    || occurs (codes "diff_snapshot") (codes (etype e))

-- The loop, from whether code has changed and the failures of each gate since.
unfoldable pub gate_failures : List Event → Bool → Dict ℕ → Bool × Dict ℕ
unfolding changes_code
gate_failures [] changed failures = (changed, failures)
gate_failures (e ∷ es) changed failures =
    let gate = get_or "unknown" e.stage in
    let old : ℕ = elim (lookup gate failures) [ none ↦ 0 | some n ↦ n ] in
    let after_change = gate_failures es true [] in
    let after_failure = gate_failures es changed (insert gate (old + 1) failures) in
    let after = gate_failures es changed failures in
    if changes_code e
    then after_change
    else if str_eq (etype e) "gate_failed"
    then after_failure
    else after

unfoldable pub check_repeated_failing_gates : List Event → List AnomalyFinding
unfolding gate_failures
check_repeated_failing_gates es =
    let (changed, failures) = gate_failures es false [] in
    if changed
    then []
    else map (λ g. found "repeated_failing" "warning" []) (select (λ g. leb 3 g.1) failures)

unfoldable pub check_cumulative_risk : AnomalyReport → List AnomalyFinding
unfolding error_count
check_cumulative_risk r =
    let kinds = distinct_texts (map (λ f. f.kind) (select is_error r.findings)) in
    if leb 2 (error_count r) && leb 2 (length kinds)
    then found "cumulative_risk" "error" [] ∷ []
    else []

-- The findings of the checks before the last.
unfoldable pub checked : List Event → List AnomalyFinding
unfolding check_repeated_tool_calls check_denial_storm check_budget_exhaustion check_stale_index
    check_out_of_scope_writes check_context_growth_without_evidence check_repeated_failing_gates
checked es =
    check_repeated_tool_calls es
    ++ (check_denial_storm es
        ++ (check_budget_exhaustion es
            ++ (check_stale_index es
                ++ (check_out_of_scope_writes es
                    ++ (check_context_growth_without_evidence es
                        ++ check_repeated_failing_gates es)))))

unfoldable pub detect_run_anomalies : String → List Event → AnomalyReport
unfolding checked check_cumulative_risk
detect_run_anomalies run_id es =
    let report : AnomalyReport = record { run_id = run_id; findings = checked es } in
    record report { findings = report.findings ++ check_cumulative_risk report }
