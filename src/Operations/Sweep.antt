-- ===== src/Operations/Sweep.antt =====
-- The loop of operations/ledger_delete.py over the groups that it has collected.
use llm_sca_tooling.Prelude.Dict.{Dict}
use mathlib.Core.List.{append-nil, append_assoc}
use llm_sca_tooling.Prelude.{
  List, [], ◌∷◌, ◌++◌, Bool, true, false, not, ◌≡◌, refl, ◌+◌, ◌≤◌, arith, if◌then◌else◌, ℕ, String,
  Option, sym, select, ap, Bool-cases, ◌∙◌, All, inl, length, inr, length-append,
}
use llm_sca_tooling.Operations.Retention.{
  IsEquivalence, tally, flat, Respects, All-append-cases, tally-remove_all, tally-append,
  select-remove_all,
}
use llm_sca_tooling.Operations.Ledger.{
  LedgerDeleteTool, DeleteOutcome, DeleteAuditRecord, LedgerRecord, export_group, delete_groups,
  audit_of, deleted, remove_all,
}

-- The number of records that audits tell of.
abbrev pub audited : List DeleteAuditRecord → ℕ
audited [] = 0
audited (a ∷ more) = a.count + audited more

-- What a run over groups of due records does.
pub record IsSwept {P : Type 0} (same : P → P → Bool) (due : LedgerRecord P → Bool)
    (groups : Dict (List (LedgerRecord P))) (audits : List DeleteAuditRecord)
    (tool : LedgerDeleteTool P) (ran : LedgerDeleteTool P × DeleteOutcome) : Type 0 where
  pub left :
      (v : LedgerRecord P)
      → tally same v ran.0.store + tally same v (flat groups) ≡ tally same v tool.store
  pub kept : select (λ r. not (due r)) ran.0.store ≡ select (λ r. not (due r)) tool.store
  pub new : List DeleteAuditRecord
  pub answered : ran.1 ≡ deleted (audits ++ new)
  pub trail : ran.0.audit_trail ≡ tool.audit_trail ++ new
  pub counted : audited new ≡ length (flat groups)
  pub exported :
      flat ran.0.exports
      ≡ flat tool.exports ++ (if tool.policy.export_on_delete then flat groups else [])

module _ {P : Type 0} (same : P → P → Bool) where
  module _ (law : IsEquivalence same) where
    flat-append : (a b : Dict (List (LedgerRecord P))) → flat (a ++ b) ≡ flat a ++ flat b
    flat-append [] b = refl
    flat-append ((k, rs) ∷ a) b =
        ap (◌++◌ rs) (flat-append a b) ∙ sym (append_assoc rs (flat a) (flat b))

    nothing_more : (b : Bool) (xs : List (LedgerRecord P)) → xs ≡ xs ++ (if b then [] else [])
    nothing_more true xs = sym (append-nil xs)
    nothing_more false xs = sym (append-nil xs)

    exported_so :
        (temp : ℕ → String) (rs more : List (LedgerRecord P)) (tool : LedgerDeleteTool P)
        → flat (export_group temp false rs tool).exports
            ++ (if (export_group temp false rs tool).policy.export_on_delete then more else [])
          ≡ flat tool.exports ++ (if tool.policy.export_on_delete then rs ++ more else [])
    unfolding export_group
    exported_so temp rs more tool = elim (Bool-cases tool.policy.export_on_delete) [
      | inl e ↦ rw e (
          ap (λ l. l ++ more)
            (flat-append tool.exports ((temp (length tool.exports), rs) ∷ [])
              ∙ ap (◌++◌ (flat tool.exports)) (append-nil rs))
          ∙ append_assoc (flat tool.exports) rs more)
      | inr e ↦ rw e refl
    ]

    pub delete_groups-IsSwept :
        (due : LedgerRecord P → Bool) (temp : ℕ → String) (approved_by : Option String) (now : ℕ)
        (groups : Dict (List (LedgerRecord P))) (audits : List DeleteAuditRecord)
        (tool : LedgerDeleteTool P)
        → Respects same due
        → All (λ r. due r ≡ true) (flat groups)
        → ((v : LedgerRecord P) → tally same v (flat groups) ≤ tally same v tool.store)
        → IsSwept same due groups audits tool
            (delete_groups same temp approved_by false now groups audits tool)
    unfolding delete_groups audit_of
    delete_groups-IsSwept due temp approved_by now [] audits tool keep all_due enough = record {
      left = λ v. omega arith;
      kept = refl;
      new = [];
      answered = ap deleted (sym (append-nil audits));
      trail = sym (append-nil tool.audit_trail);
      counted = refl;
      exported = nothing_more tool.policy.export_on_delete (flat tool.exports);
    }
    delete_groups-IsSwept due temp approved_by now ((k, rs) ∷ groups) audits tool keep all_due
          enough =
        let parts = All-append-cases (λ r. due r ≡ true) rs (flat groups) all_due in
        let removal =
          tally-remove_all same law rs tool.store
            λ v. omega (arith, enough v, tally-append same v rs (flat groups)) in
        let audit = audit_of temp approved_by false now k rs tool in
        let next : LedgerDeleteTool P = record (export_group temp false rs tool) {
          store = (remove_all same rs tool.store).0;
          audit_trail = tool.audit_trail ++ audit ∷ [];
        } in
        let rest =
          delete_groups-IsSwept due temp approved_by now groups (audits ++ audit ∷ []) next keep
            parts.1
            λ v. omega (arith, enough v, tally-append same v rs (flat groups), removal.1 v) in
        rw removal.0 (record {
          left = λ v. omega (arith, rest.left v, removal.1 v, tally-append same v rs (flat groups));
          kept = rest.kept ∙ select-remove_all same law due rs tool.store keep parts.0;
          new = audit ∷ rest.new;
          answered = rest.answered ∙ ap deleted (append_assoc audits (audit ∷ []) rest.new);
          trail = rest.trail ∙ append_assoc tool.audit_trail (audit ∷ []) rest.new;
          counted = omega (arith, rest.counted, length-append rs (flat groups));
          exported = rest.exported ∙ exported_so temp rs (flat groups) tool;
        })

-- What a dry run over groups does.
pub record IsRehearsed {P : Type 0} (groups : Dict (List (LedgerRecord P)))
    (audits : List DeleteAuditRecord) (tool : LedgerDeleteTool P)
    (ran : LedgerDeleteTool P × DeleteOutcome) : Type 0 where
  pub kept : ran.0.store ≡ tool.store
  pub new : List DeleteAuditRecord
  pub answered : ran.1 ≡ deleted (audits ++ new)
  pub trail : ran.0.audit_trail ≡ tool.audit_trail ++ new
  pub counted : audited new ≡ length (flat groups)
  pub exported : ran.0.exports ≡ tool.exports

pub delete_groups-IsRehearsed :
    {P : Type 0} (same : P → P → Bool) (temp : ℕ → String) (approved_by : Option String) (now : ℕ)
    (groups : Dict (List (LedgerRecord P))) (audits : List DeleteAuditRecord)
    (tool : LedgerDeleteTool P)
    → IsRehearsed groups audits tool
        (delete_groups same temp approved_by true now groups audits tool)
unfolding delete_groups audit_of export_group
delete_groups-IsRehearsed same temp approved_by now [] audits tool = record {
  kept = refl;
  new = [];
  answered = ap deleted (sym (append-nil audits));
  trail = sym (append-nil tool.audit_trail);
  counted = refl;
  exported = refl;
}
delete_groups-IsRehearsed {P} same temp approved_by now ((k, rs) ∷ groups) audits tool =
    let audit = audit_of temp approved_by true now k rs tool in
    let next : LedgerDeleteTool P = record (export_group temp true rs tool) {
      store = tool.store;
      audit_trail = tool.audit_trail ++ audit ∷ [];
    } in
    let rest =
      delete_groups-IsRehearsed same temp approved_by now groups (audits ++ audit ∷ []) next in
    record {
      kept = rest.kept;
      new = audit ∷ rest.new;
      answered = rest.answered ∙ ap deleted (append_assoc audits (audit ∷ []) rest.new);
      trail = rest.trail ∙ append_assoc tool.audit_trail (audit ∷ []) rest.new;
      counted = omega (arith, rest.counted, length-append rs (flat groups));
      exported = rest.exported ∙ not_exported temp rs tool;
    }
  where
    not_exported :
        {P : Type 0} (temp : ℕ → String) (rs : List (LedgerRecord P)) (tool : LedgerDeleteTool P)
        → (export_group temp true rs tool).exports ≡ tool.exports
    not_exported temp rs tool = elim (Bool-cases tool.policy.export_on_delete) [
      | inl e ↦ rw (e, export_group) refl
      | inr e ↦ rw (e, export_group) refl
    ]
