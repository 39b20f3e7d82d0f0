-- ===== src/Sarif/Partition.antt =====
-- Each alert is accounted for once.
use mathlib.Core.Path.{subst}
use llm_sca_tooling.Prelude.{
  String, ◌≡◌, ap, inl, inr, refl, false, not, ◌&&◌, ◌||◌, some, List, [], ◌∷◌, ◌++◌, map, arith,
  str_eq, eq_iff, contains, All, All-append, Bool-cases, Option-cases, opt_str_eq_iff,
}
use llm_sca_tooling.Sarif.Delta.{
  NormalizedAlert, AlertChange, Matching, fuzzy_match, is_candidate, match_alert, ids, unmatched,
  change_type_of, match_alerts, compute_sarif_delta, match_runs, NormalizedSarifRun,
  unchanged_alerts,
}

abbrev pub before_ids : List AlertChange → List String
before_ids cs = map (λ c. c.before_alert.alert_id) cs

abbrev pub after_ids : List AlertChange → List String
after_ids cs = map (λ c. c.after_alert.alert_id) cs

contains-before_ids :
    (cs : List AlertChange) (c : AlertChange) (id : String)
    → contains (before_ids (cs ++ c ∷ [])) id
      ≡ (contains (before_ids cs) id || str_eq c.before_alert.alert_id id)
contains-before_ids [] c id = ground arith
contains-before_ids (x ∷ xs) c id = ground (arith, contains-before_ids xs c id)

contains-after_ids :
    (cs : List AlertChange) (c : AlertChange) (id : String)
    → contains (after_ids (cs ++ c ∷ [])) id
      ≡ (contains (after_ids cs) id || str_eq c.after_alert.alert_id id)
contains-after_ids [] c id = ground arith
contains-after_ids (x ∷ xs) c id = ground (arith, contains-after_ids xs c id)

contains-unmatched :
    (matched : List String) (alerts : List NormalizedAlert) (id : String)
    → contains (ids (unmatched matched alerts)) id
      ≡ (contains (ids alerts) id && not (contains matched id))
contains-unmatched matched [] id = refl
contains-unmatched matched (a ∷ alerts) id = elim (Bool-cases (str_eq a.alert_id id)) [
  | inl e ↦
      let same : contains matched a.alert_id ≡ contains matched id =
        ap (contains matched) ((eq_iff a.alert_id id).0 e) in
      ground (arith, contains-unmatched matched alerts id)
  | inr e ↦ ground (arith, contains-unmatched matched alerts id)
]

-- A pair that the loop may report.
pub record IsChange (c : AlertChange) : Type 0 where
  pub same_rule : c.before_alert.rule_id ≡ c.after_alert.rule_id
  pub same_file : c.before_alert.file_path ≡ c.after_alert.file_path

-- No alert of the second run is used twice.
abbrev pub IsOnce : List String → List AlertChange → Type 0
IsOnce used [] = Unit
IsOnce used (c ∷ cs) =
    (contains used c.after_alert.alert_id ≡ false) × IsOnce (c.after_alert.alert_id ∷ used) cs

-- The loop's two sets hold the names of the shared alerts and of those that were paired.
pub record IsMatched (shared : List String) (m : Matching) : Type 0 where
  pub before_side :
      (id : String)
      → contains m.matched_before id ≡ (contains shared id || contains (before_ids m.changed) id)
  pub after_side :
      (id : String)
      → contains m.matched_after id ≡ (contains shared id || contains (after_ids m.changed) id)
  pub changes : All IsChange m.changed
  pub once : IsOnce shared m.changed

IsOnce-snoc :
    (used : List String) (cs : List AlertChange) (c : AlertChange)
    → IsOnce used cs
    → contains used c.after_alert.alert_id ≡ false
    → contains (after_ids cs) c.after_alert.alert_id ≡ false
    → IsOnce used (cs ++ c ∷ [])
IsOnce-snoc used [] c o u f = (u, tt)
IsOnce-snoc used (x ∷ xs) c o u f =
    (o.0, IsOnce-snoc (x.after_alert.alert_id ∷ used) xs c o.1 (ground arith) (ground arith))

fuzzy_match-IsChange :
    (old : NormalizedAlert) (cs : List NormalizedAlert) (used : List String) {c : NormalizedAlert}
    → fuzzy_match old cs used ≡ some c
    → (old.rule_id ≡ c.rule_id) × (old.file_path ≡ c.file_path) × (contains used c.alert_id ≡ false)
unfolding fuzzy_match is_candidate
fuzzy_match-IsChange old [] used h = cc
fuzzy_match-IsChange old (x ∷ xs) used {c} h = elim (Bool-cases (is_candidate old x used)) [
  | inr other ↦ fuzzy_match-IsChange old xs used {c = c} (ground arith)
  | inl fits ↦
      let hit : x ≡ c = ground arith in
      subst
        (λ y.
          (old.rule_id ≡ y.rule_id)
          × (old.file_path ≡ y.file_path)
          × (contains used y.alert_id ≡ false))
        hit
        (
          ground (arith, eq_iff old.rule_id x.rule_id),
          ground (arith, opt_str_eq_iff old.file_path x.file_path),
          ground arith,
        )
]

match_alert-IsMatched :
    (shared : List String) (after : List NormalizedAlert) (old : NormalizedAlert) (m : Matching)
    → IsMatched shared m
    → IsMatched shared (match_alert after old m)
unfolding match_alert
match_alert-IsMatched shared after old m v =
    elim (Bool-cases (contains m.matched_before old.alert_id)) [
      | inl done ↦ rw (done, match_alert) v
      | inr new ↦ elim (Option-cases (fuzzy_match old after m.matched_after)) [
        | inl nothing ↦ rw (new, nothing, match_alert) v
        | inr (c, found) ↦
            let (rule, file, free) = fuzzy_match-IsChange old after m.matched_after found in
            let change : AlertChange = record {
              before_alert = old;
              after_alert = c;
              change_type = change_type_of old c;
            } in
            rw (new, found, match_alert)
              (record {
                before_side =
                    λ id. ground (arith, v.before_side id, contains-before_ids m.changed change id);
                after_side =
                    λ id. ground (arith, v.after_side id, contains-after_ids m.changed change id);
                changes =
                    All-append IsChange m.changed (change ∷ []) v.changes
                      (record { same_rule = rule; same_file = file }, tt);
                once =
                    IsOnce-snoc shared m.changed change v.once
                      (ground (arith, v.after_side c.alert_id))
                      (ground (arith, v.after_side c.alert_id));
              })
      ]
    ]

match_alerts-IsMatched :
    (shared : List String) (after before : List NormalizedAlert) (m : Matching)
    → IsMatched shared m
    → IsMatched shared (match_alerts after before m)
unfolding match_alerts
match_alerts-IsMatched shared after [] m v = v
match_alerts-IsMatched shared after (old ∷ before) m v =
    match_alerts-IsMatched shared after before (match_alert after old m)
      (match_alert-IsMatched shared after old m v)

module _ (sorted : List String → List String)
    (digest : (before after : String) → (appeared disappeared changed : List String) → String) where
  -- Whatever the order and the digest: a name of an alert of the first run is among the disappeared
  -- exactly if it is neither among the unchanged nor the first of a changed pair; a name of the second
  -- run is among the appeared exactly if it is neither among the unchanged nor the second of a pair.
  -- The alerts of a pair have one rule and one file, and no second alert is shared or paired twice.
  pub compute_sarif_delta-partition :
      (before after : NormalizedSarifRun)
      → let d = compute_sarif_delta sorted digest before after in
        ((id : String)
          → contains (ids d.disappeared) id ≡ (
              contains (ids before.alerts) id
              && not (contains (ids d.unchanged) id || contains (before_ids d.changed) id)))
        × ((id : String)
            → contains (ids d.appeared) id ≡ (
                contains (ids after.alerts) id
                && not (contains (ids d.unchanged) id || contains (after_ids d.changed) id)))
        × All IsChange d.changed
        × IsOnce (ids d.unchanged) d.changed
  unfolding compute_sarif_delta match_runs
  compute_sarif_delta-partition before after =
      let shared = ids (unchanged_alerts sorted digest before.alerts after.alerts) in
      let m = match_runs sorted digest before.alerts after.alerts in
      let v : IsMatched shared m =
        match_alerts-IsMatched shared after.alerts before.alerts
          (record { changed = []; matched_before = shared; matched_after = shared })
          (record {
            before_side = λ id. ground arith;
            after_side = λ id. ground arith;
            changes = tt;
            once = tt;
          }) in
      (
        λ id. rw (contains-unmatched m.matched_before before.alerts id, v.before_side id) refl,
        λ id. rw (contains-unmatched m.matched_after after.alerts id, v.after_side id) refl,
        v.changes,
        v.once,
      )
