-- ===== src/Sarif/Tests.antt =====
-- Two runs: one alert stays, one moves, one goes and one comes.
use llm_sca_tooling.Prelude.{
  ℕ, String, ◌≡◌, refl, false, not, ◌&&◌, ◌||◌, some, List, [], ◌∷◌, contains, All,
}
use llm_sca_tooling.Prelude.Dict.{insert, lookup}
use llm_sca_tooling.Sarif.Delta.{
  NormalizedAlert, NormalizedSarifRun, medium, ids, compute_sarif_delta,
}
use llm_sca_tooling.Sarif.Partition.{
  before_ids, after_ids, IsChange, IsOnce, compute_sarif_delta-partition,
}

abbrev alert : (id rule message : String) → ℕ → NormalizedAlert
alert id rule message line = record {
  alert_id = id;
  rule_id = rule;
  normalized_severity = medium;
  message = message;
  file_path = some "src/a.py";
  start_line = some line;
  suppressed = false;
  fingerprint = id;
}

abbrev run : String → List NormalizedAlert → NormalizedSarifRun
run id alerts = record { run_id = id; repo_id = "r"; snapshot_id = "s"; alerts = alerts }

abbrev first_run : NormalizedSarifRun
first_run = run "1" (alert "a" "R1" "m" 10 ∷ alert "b" "R2" "m" 20 ∷ alert "c" "R3" "m" 30 ∷ [])

abbrev second_run : NormalizedSarifRun
second_run = run "2" (alert "a" "R1" "m" 10 ∷ alert "b2" "R2" "m" 23 ∷ alert "d" "R4" "m" 40 ∷ [])

abbrev in_order : List String → List String
in_order l = l

abbrev digest : (before after : String) → (appeared disappeared changed : List String) → String
digest before after appeared disappeared changed = "digest"

names_of_delta :
    let d = compute_sarif_delta in_order digest first_run second_run in
    ◌≡◌ {A = List (List String)}
      (ids d.unchanged ∷ ids d.disappeared ∷ ids d.appeared ∷ before_ids d.changed ∷ [])
      (("a" ∷ []) ∷ ("c" ∷ []) ∷ ("d" ∷ []) ∷ ("b" ∷ []) ∷ [])
unfolding compute_sarif_delta insert lookup
names_of_delta = refl

-- The same message 40 lines away is not matched, another message is.
far_message :
    let moved = run "2" (alert "x" "R1" "m" 50 ∷ alert "y" "R1" "n" 90 ∷ []) in
    let d = compute_sarif_delta in_order digest (run "1" (alert "a" "R1" "m" 10 ∷ [])) moved in
    after_ids d.changed ≡ "y" ∷ []
unfolding compute_sarif_delta insert lookup
far_message = refl

compute_sarif_delta-partition_example :
    let d = compute_sarif_delta in_order digest first_run second_run in
    ((id : String)
      → contains (ids d.disappeared) id ≡ (
          contains (ids first_run.alerts) id
          && not (contains (ids d.unchanged) id || contains (before_ids d.changed) id)))
    × ((id : String)
        → contains (ids d.appeared) id ≡ (
            contains (ids second_run.alerts) id
            && not (contains (ids d.unchanged) id || contains (after_ids d.changed) id)))
    × All IsChange d.changed
    × IsOnce (ids d.unchanged) d.changed
compute_sarif_delta-partition_example =
    compute_sarif_delta-partition in_order digest first_run second_run
