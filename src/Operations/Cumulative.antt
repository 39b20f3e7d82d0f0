-- ===== src/Operations/Cumulative.antt =====
-- When operations/anomaly_detector.py reports a storm of denials, and when a cumulative risk.
use mathlib.Core.Path.{subst}
use llm_sca_tooling.Prelude.{
  ℕ, String, ◌+◌, Bool, true, false, ◌||◌, List, [], ◌∷◌, ◌≡◌, refl, arith, contains, length, any,
  All, distinct_texts, eq_iff, ◌∙◌, inl, sym, inr, ◌≤◌, map, ap, if◌then◌else◌, suc, select,
}
use llm_sca_tooling.Operations.Anomalies.{
  check_repeated_tool_calls, check_denial_storm, check_repeated_failing_gates, Event,
  AnomalyFinding, check_stale_index, checked, is_out_of_scope,
  check_context_growth_without_evidence, count_calls, check_cumulative_risk, error_count,
  detect_run_anomalies, AnomalyReport, found, is_error,
}
use llm_sca_tooling.Operations.Patterns.{
  IsTold, IsKnown, in_row, is_hard_stop, warnings-IsTold, map-warnings, repeated-warnings,
  context-warnings, failing-warnings, append-IsTold, denials_from-IsTold,
  check_budget_exhaustion-IsTold, check_out_of_scope_writes-IsTold, error_kinds, at_least_two,
  error_kinds-append, contains-append,
}

or_false : (b : Bool) → (b || false) ≡ b
or_false true = refl
or_false false = refl

retold :
    (fs : List AnomalyFinding) {a b c a' b' c' : Bool}
    → IsTold fs a b c
    → a ≡ a'
    → b ≡ b'
    → c ≡ c'
    → IsTold fs a' b' c'
retold fs t p q r = record {
  storm = t.storm ∙ p;
  budget = t.budget ∙ q;
  scope = t.scope ∙ r;
  known = t.known;
}

checked-IsTold :
    (es : List Event)
    → IsTold (checked es) (in_row 3 es) (any is_hard_stop es) (any is_out_of_scope es)
unfolding checked check_repeated_tool_calls check_denial_storm check_stale_index
checked-IsTold es =
    let quiet = λ (fs : List AnomalyFinding). warnings-IsTold fs in
    let stale = quiet (check_stale_index es) (map-warnings _ _ λ e. refl) in
    let calm = quiet (check_repeated_tool_calls es) (repeated-warnings (count_calls es [])) in
    let context = quiet (check_context_growth_without_evidence es) (context-warnings es) in
    let failing = quiet (check_repeated_failing_gates es) (failing-warnings es) in
    let all = append-IsTold _ _ calm (
      append-IsTold _ _ ((denials_from-IsTold es).0 []) (
        append-IsTold _ _ (check_budget_exhaustion-IsTold es) (
          append-IsTold _ _ stale (
            append-IsTold _ _ (check_out_of_scope_writes-IsTold es)
              (append-IsTold _ _ context failing))))) in
    retold (checked es) all (or_false (in_row 3 es)) (or_false (any is_hard_stop es))
      (or_false (any is_out_of_scope es))

-- One for each kind that a list of known kinds has.
ind : Bool → ℕ
ind true = 1
ind false = 0

contains-distinct_texts :
    (xs : List String) (s : String) → contains (distinct_texts xs) s ≡ contains xs s
contains-distinct_texts [] s = refl
contains-distinct_texts (x ∷ xs) s =
    ground (arith, eq_iff x s, contains-distinct_texts xs s, contains-distinct_texts xs x)

length-distinct_texts :
    (ks : List String)
    → All IsKnown ks
    → length (distinct_texts ks)
      ≡ ind (contains ks "denial_storm")
        + ind (contains ks "budget_exhaustion")
        + ind (contains ks "out_of_scope_write")
unfolding ind
length-distinct_texts [] a = omega arith
length-distinct_texts (k ∷ ks) a =
    let Goal : String → Type 0 = λ x.
      length (distinct_texts (x ∷ ks))
      ≡ ind (contains (x ∷ ks) "denial_storm")
        + ind (contains (x ∷ ks) "budget_exhaustion")
        + ind (contains (x ∷ ks) "out_of_scope_write") in
    let rest = length-distinct_texts ks a.1 in
    elim a.0 [
      | inl e ↦ subst Goal (sym e) (ground (arith, rest, contains-distinct_texts ks "denial_storm"))
      | inr (inl e) ↦
          subst Goal (sym e) (ground (arith, rest, contains-distinct_texts ks "budget_exhaustion"))
      | inr (inr e) ↦
          subst Goal (sym e) (ground (arith, rest, contains-distinct_texts ks "out_of_scope_write"))
    ]

length-distinct_texts-le : (xs : List String) → length (distinct_texts xs) ≤ length xs
length-distinct_texts-le [] = omega arith
length-distinct_texts-le (x ∷ xs) = ground (arith, length-distinct_texts-le xs)

length-map : {A B : Type 0} (g : A → B) (xs : List A) → length (map g xs) ≡ length xs
length-map g [] = refl
length-map g (x ∷ xs) = ap suc (length-map g xs)

known-not_cumulative : (ks : List String) → All IsKnown ks → contains ks "cumulative_risk" ≡ false
known-not_cumulative [] a = refl
known-not_cumulative (k ∷ ks) a =
    let Goal : String → Type 0 = λ x. contains (x ∷ ks) "cumulative_risk" ≡ false in
    let rest = known-not_cumulative ks a.1 in
    elim a.0 [
      | inl e ↦ subst Goal (sym e) rest
      | inr (inl e) ↦ subst Goal (sym e) rest
      | inr (inr e) ↦ subst Goal (sym e) rest
    ]

check_cumulative_risk_lem :
    (r : AnomalyReport) {a b c : Bool}
    → IsTold r.findings a b c
    → check_cumulative_risk r
      ≡ (if at_least_two a b c then found "cumulative_risk" "error" [] ∷ [] else [])
unfolding check_cumulative_risk error_count ind
check_cumulative_risk_lem r t =
    let kinds = error_kinds r.findings in
    ground (
      arith,
      t.storm,
      t.budget,
      t.scope,
      length-distinct_texts kinds t.known,
      length-distinct_texts-le kinds,
      length-map (λ (f : AnomalyFinding). f.kind) (select is_error r.findings),
    )

-- The report on a run has a denial storm among its errors exactly if three events in a row were
-- denied, and a cumulative risk exactly if at least two of these hold: three events in a row were
-- denied, some event is a hard stop of the budget, some event is a write out of scope.
pub detect_run_anomalies-errors :
    (run_id : String) (es : List Event)
    → let kinds = error_kinds (detect_run_anomalies run_id es).findings in
      let storm = in_row 3 es in
      (contains kinds "denial_storm" ≡ storm)
      × (contains kinds "cumulative_risk"
          ≡ at_least_two storm (any is_hard_stop es) (any is_out_of_scope es))
unfolding detect_run_anomalies
detect_run_anomalies-errors run_id es =
    let told = checked-IsTold es in
    let report : AnomalyReport = record { run_id = run_id; findings = checked es } in
    let cumulative = check_cumulative_risk_lem report told in
    let kinds = error_kinds (checked es) in
    let two = at_least_two (in_row 3 es) (any is_hard_stop es) (any is_out_of_scope es) in
    let joined = λ (k : String).
      ap (λ l. contains l k) (error_kinds-append (checked es) (check_cumulative_risk report))
      ∙ contains-append kinds (error_kinds (check_cumulative_risk report)) k
      ∙ ap (λ l. contains kinds k || contains (error_kinds l) k) cumulative in
    (
      joined "denial_storm" ∙ added_storm two (contains kinds "denial_storm") ∙ told.storm,
      joined "cumulative_risk"
          ∙ ap
              (λ b.
                b
                || contains
                    (error_kinds (if two then found "cumulative_risk" "error" [] ∷ [] else []))
                    "cumulative_risk")
              (known-not_cumulative kinds told.known)
          ∙ added_risk two,
    )
  where
    added_storm :
        (two b : Bool)
        → (b
            || contains
                (error_kinds (if two then found "cumulative_risk" "error" [] ∷ [] else []))
                "denial_storm")
          ≡ b
    added_storm true b = or_false b
    added_storm false b = or_false b

    added_risk :
        (two : Bool)
        → contains
            (error_kinds (if two then found "cumulative_risk" "error" [] ∷ [] else []))
            "cumulative_risk"
          ≡ two
    added_risk true = refl
    added_risk false = refl
