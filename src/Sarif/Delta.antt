-- ===== src/Sarif/Delta.antt =====
-- src/llm_sca_tooling/sarif/delta.py: the alerts that two runs share, and those that they do not.
use llm_sca_tooling.Prelude.{
  ℕ, ◌+◌, String, Bool, true, false, not, ◌&&◌, ◌||◌, Option, none, some, List, [], ◌∷◌, ◌++◌, map,
  if◌then◌else◌, leb, str_eq, opt_str_eq, select, contains,
}
use llm_sca_tooling.Prelude.Dict.{Dict, lookup, insert, keys}

pub data NormalizedSeverity : Type 0 where
  informational low medium high critical : NormalizedSeverity

unfoldable pub same_severity : NormalizedSeverity → NormalizedSeverity → Bool
same_severity informational informational = true
same_severity low low = true
same_severity medium medium = true
same_severity high high = true
same_severity critical critical = true
same_severity _ _ = false

-- The fields that the comparison reads.
pub record NormalizedAlert : Type 0 where
  pub alert_id : String
  pub rule_id : String
  pub normalized_severity : NormalizedSeverity
  pub message : String
  pub file_path : Option String
  pub start_line : Option ℕ
  pub suppressed : Bool
  pub fingerprint : String

pub record NormalizedSarifRun : Type 0 where
  pub run_id : String
  pub repo_id : String
  pub snapshot_id : String
  pub alerts : List NormalizedAlert

pub data ChangeType : Type 0 where
  severity_changed suppression_changed message_changed location_shifted : ChangeType

pub record AlertChange : Type 0 where
  pub before_alert : NormalizedAlert
  pub after_alert : NormalizedAlert
  pub change_type : ChangeType

pub record SarifDelta : Type 0 where
  pub delta_id : String
  pub before_run_id : String
  pub after_run_id : String
  pub repo_id : String
  pub before_snapshot_id : String
  pub after_snapshot_id : String
  pub appeared : List NormalizedAlert
  pub disappeared : List NormalizedAlert
  pub unchanged : List NormalizedAlert
  pub changed : List AlertChange
  pub suppressed_in_before : List NormalizedAlert
  pub suppressed_in_after : List NormalizedAlert

-- `{alert.fingerprint: alert for alert in alerts}`
unfoldable pub index_alerts : Dict NormalizedAlert → List NormalizedAlert → Dict NormalizedAlert
index_alerts d [] = d
index_alerts d (a ∷ alerts) = index_alerts (insert a.fingerprint a d) alerts

-- `start_line or 0`
abbrev pub line_of : Option ℕ → ℕ
line_of none = 0
line_of (some n) = n

-- `abs(a - b) <= 5`
abbrev pub is_near : ℕ → ℕ → Bool
is_near a b = leb a (b + 5) && leb b (a + 5)

unfoldable pub is_candidate : NormalizedAlert → NormalizedAlert → List String → Bool
is_candidate old c matched_after =
    not (contains matched_after c.alert_id)
    && str_eq old.rule_id c.rule_id
    && opt_str_eq old.file_path c.file_path
    && (is_near (line_of old.start_line) (line_of c.start_line)
        || not (str_eq old.message c.message))

unfoldable pub fuzzy_match :
    NormalizedAlert → List NormalizedAlert → List String → Option NormalizedAlert
unfolding is_candidate
fuzzy_match old [] matched_after = none
fuzzy_match old (c ∷ candidates) matched_after =
    if is_candidate old c matched_after then some c else fuzzy_match old candidates matched_after

unfoldable pub change_type_of : NormalizedAlert → NormalizedAlert → ChangeType
unfolding same_severity
change_type_of old new =
    if not (same_severity old.normalized_severity new.normalized_severity)
    then severity_changed
    else if (old.suppressed && not new.suppressed) || (not old.suppressed && new.suppressed)
    then suppression_changed
    else if not (str_eq old.message new.message)
    then message_changed
    else location_shifted

-- What the loop over the alerts of the first run changes.
pub record Matching : Type 0 where
  pub changed : List AlertChange
  pub matched_before : List String
  pub matched_after : List String

unfoldable pub match_alert : List NormalizedAlert → NormalizedAlert → Matching → Matching
unfolding fuzzy_match change_type_of
match_alert after old m =
    if contains m.matched_before old.alert_id
    then m
    else elim (fuzzy_match old after m.matched_after) [
      | none ↦ m
      | some c ↦ record {
        changed =
            m.changed
            ++ record { before_alert = old; after_alert = c; change_type = change_type_of old c }
              ∷ [];
        matched_before = old.alert_id ∷ m.matched_before;
        matched_after = c.alert_id ∷ m.matched_after;
      }
    ]

unfoldable pub match_alerts : List NormalizedAlert → List NormalizedAlert → Matching → Matching
unfolding match_alert
match_alerts after [] m = m
match_alerts after (old ∷ before) m = match_alerts after before (match_alert after old m)

abbrev pub ids : List NormalizedAlert → List String
ids alerts = map (λ a. a.alert_id) alerts

-- `[alert for alert in alerts if alert.alert_id not in matched]`
abbrev pub unmatched : List String → List NormalizedAlert → List NormalizedAlert
unmatched matched alerts = select (λ a. not (contains matched a.alert_id)) alerts

-- `[after_by_fp[fp] for fp in fps]`; each of them is a key.
unfoldable pub find_all : Dict NormalizedAlert → List String → List NormalizedAlert
find_all d [] = []
find_all d (fp ∷ fps) =
    let rest = find_all d fps in elim (lookup fp d) [ none ↦ rest | some a ↦ a ∷ rest ]

-- Python's `sorted`, and the digest of `_delta_id`.
module _ (sorted : List String → List String)
    (digest : (before after : String) → (appeared disappeared changed : List String) → String) where
  unfoldable pub unchanged_alerts : (before after : List NormalizedAlert) → List NormalizedAlert
  unfolding find_all index_alerts
  unchanged_alerts before after =
      let before_by_fp = index_alerts [] before in
      let after_by_fp = index_alerts [] after in
      find_all after_by_fp (sorted (select (contains (keys after_by_fp)) (keys before_by_fp)))

  unfoldable pub match_runs : (before after : List NormalizedAlert) → Matching
  unfolding unchanged_alerts match_alerts
  match_runs before after =
      let matched = ids (unchanged_alerts before after) in
      match_alerts after before
        (record { changed = []; matched_before = matched; matched_after = matched })

  unfoldable pub compute_sarif_delta : (before after : NormalizedSarifRun) → SarifDelta
  unfolding match_runs unchanged_alerts
  compute_sarif_delta before after =
      let m = match_runs before.alerts after.alerts in
      let disappeared = unmatched m.matched_before before.alerts in
      let appeared = unmatched m.matched_after after.alerts in
      record {
        delta_id =
            digest before.run_id after.run_id (sorted (ids appeared)) (sorted (ids disappeared))
              (sorted (map (λ c. c.after_alert.alert_id) m.changed));
        before_run_id = before.run_id;
        after_run_id = after.run_id;
        repo_id = after.repo_id;
        before_snapshot_id = before.snapshot_id;
        after_snapshot_id = after.snapshot_id;
        appeared = appeared;
        disappeared = disappeared;
        unchanged = unchanged_alerts before.alerts after.alerts;
        changed = m.changed;
        suppressed_in_before = select (λ a. a.suppressed) before.alerts;
        suppressed_in_after = select (λ a. a.suppressed) after.alerts;
      }
