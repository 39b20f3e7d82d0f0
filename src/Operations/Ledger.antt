-- ===== src/Operations/Ledger.antt =====
-- src/llm_sca_tooling/operations/ledger_delete.py and ledger_retention.py: the deletion of ledger
-- records past their retention. Times are in microseconds, and one reading of the clock stands for
-- those of a run; a negative number of days is `none`.
use llm_sca_tooling.Prelude.{
  ℕ, String, ◌+◌, ◌*◌, Bool, true, false, not, ◌&&◌, Option, none, some, List, [], ◌∷◌, ◌++◌,
  if◌then◌else◌, str_eq, opt_str_eq, ltb, length,
}
use llm_sca_tooling.Prelude.Dict.{Dict, lookup, insert}

pub record LedgerRetentionPolicy : Type 0 where
  pub workspace_id : String
  pub run_record_retention_days : Option ℕ
  pub incident_retention_days : Option ℕ
  pub budget_event_retention_days : Option ℕ
  pub monitor_alert_retention_days : Option ℕ
  pub promotion_record_retention_days : Option ℕ
  pub eval_run_retention_days : Option ℕ
  pub artefact_retention_days : Option ℕ
  pub export_on_delete : Bool
  pub delete_requires_approval : Bool

-- A ledger record, a dict: the keys that the tool reads, and the other ones.
pub record LedgerRecord (P : Type 0) : Type 0 where
  pub record_type : Option String
  pub ts : Option String
  pub created_at : Option String
  pub others : P

pub record DeleteAuditRecord : Type 0 where
  pub record_type : String
  pub count : ℕ
  pub approved_by : Option String
  pub exported_to : Option String
  pub at : ℕ

-- `exports` lists what was handed to the exporter, and under which file name.
pub record LedgerDeleteTool (P : Type 0) : Type 0 where
  pub policy : LedgerRetentionPolicy
  pub store : List (LedgerRecord P)
  pub audit_trail : List DeleteAuditRecord
  pub exports : List (String × List (LedgerRecord P))

-- `PermissionError`, the `ValueError` of `list.remove`, or the audit records of the run.
pub data DeleteOutcome : Type 0 where
  permission_error value_error : DeleteOutcome
  deleted : (audit : List DeleteAuditRecord) → DeleteOutcome

unfoldable pub retention_map : LedgerRetentionPolicy → Dict (Option ℕ)
retention_map p =
    ("run_record", p.run_record_retention_days)
    ∷ ("incident", p.incident_retention_days)
    ∷ ("budget_event", p.budget_event_retention_days)
    ∷ ("monitor_alert", p.monitor_alert_retention_days)
    ∷ ("promotion_record", p.promotion_record_retention_days)
    ∷ ("eval_run", p.eval_run_retention_days)
    ∷ ("artefact", p.artefact_retention_days)
    ∷ []

-- `_retention_map.get(rtype, -1)`
unfoldable pub retention_days : LedgerRetentionPolicy → String → Option ℕ
unfolding retention_map
retention_days p rtype = elim (lookup rtype (retention_map p)) [ none ↦ none | some days ↦ days ]

-- `a or b or ""`, where both are optional texts.
unfoldable pub first_text : Option String → Option String → String
first_text (some (String.◌∷◌ c s)) b = String.◌∷◌ c s
first_text none (some b) = b
first_text none none = ""
first_text (some String.[]) (some b) = b
first_text (some String.[]) none = ""

abbrev microseconds_a_day : ℕ
microseconds_a_day = 86400000000

-- `age > timedelta(days=...)`, where the time can be read and the days are not negative.
abbrev older : ℕ → Option ℕ → Option ℕ → Bool
older now (some ts) (some days) = ltb (ts + days * microseconds_a_day) now
older now none days = false
older now (some ts) none = false

-- `parse` is `datetime.fromisoformat`, a time without a zone taken as UTC, and `same` is the `==` of
-- the keys that the tool does not read.
module _ {P : Type 0} where
  unfoldable pub type_of : LedgerRecord P → String
  type_of r = elim r.record_type [ none ↦ "unknown" | some t ↦ t ]

  unfoldable pub is_due :
      (parse : String → Option ℕ) → LedgerRetentionPolicy → ℕ → LedgerRecord P → Bool
  unfolding retention_days first_text type_of
  is_due parse policy now r =
      let text = first_text r.ts r.created_at in
      if str_eq text "" then false else older now (parse text) (retention_days policy (type_of r))

  -- `to_delete.setdefault(rtype, []).append(record)`
  unfoldable pub add_due :
      LedgerRecord P → Dict (List (LedgerRecord P)) → Dict (List (LedgerRecord P))
  unfolding type_of
  add_due r groups =
      let old : List (LedgerRecord P) = elim (lookup (type_of r) groups) [
        | none ↦ []
        | some rs ↦ rs
      ] in
      insert (type_of r) (old ++ r ∷ []) groups

  unfoldable pub collect :
      (LedgerRecord P → Bool)
      → List (LedgerRecord P)
      → Dict (List (LedgerRecord P))
      → Dict (List (LedgerRecord P))
  unfolding add_due
  collect due [] groups = groups
  collect due (r ∷ rs) groups = collect due rs (if due r then add_due r groups else groups)

  -- The audit record of one group, which `temp` names a temporary file for.
  unfoldable pub audit_of :
      (temp : ℕ → String) (approved_by : Option String) (dry_run : Bool) (now : ℕ) (rtype : String)
      → List (LedgerRecord P)
      → LedgerDeleteTool P
      → DeleteAuditRecord
  audit_of temp approved_by dry_run now rtype rs tool = record {
    record_type = rtype;
    count = length rs;
    approved_by = approved_by;
    exported_to =
        if tool.policy.export_on_delete && not dry_run
        then some (temp (length tool.exports))
        else none;
    at = now;
  }

  -- `self._exporter.export(records, out)`, where the policy asks for it.
  unfoldable pub export_group :
      (temp : ℕ → String) (dry_run : Bool)
      → List (LedgerRecord P)
      → LedgerDeleteTool P
      → LedgerDeleteTool P
  export_group temp dry_run rs tool =
      if tool.policy.export_on_delete && not dry_run
      then record tool { exports = tool.exports ++ (temp (length tool.exports), rs) ∷ [] }
      else tool

  module _ (same : P → P → Bool) where
    unfoldable pub same_record : LedgerRecord P → LedgerRecord P → Bool
    same_record r s =
        opt_str_eq r.record_type s.record_type
        && opt_str_eq r.ts s.ts
        && opt_str_eq r.created_at s.created_at
        && same r.others s.others

    -- `store.remove(r)`: the first equal record; `false` where it raises.
    unfoldable pub remove_first :
        LedgerRecord P → List (LedgerRecord P) → List (LedgerRecord P) × Bool
    unfolding same_record
    remove_first r [] = ([], false)
    remove_first r (x ∷ xs) =
        let (rest, found) = remove_first r xs in
        if same_record x r then (xs, true) else (x ∷ rest, found)

    unfoldable pub remove_all :
        List (LedgerRecord P) → List (LedgerRecord P) → List (LedgerRecord P) × Bool
    unfolding remove_first
    remove_all [] xs = (xs, true)
    remove_all (r ∷ rs) xs =
        let (ys, found) = remove_first r xs in
        let rest = remove_all rs ys in if found then rest else (ys, false)

    -- The loop over `to_delete.items()`.
    unfoldable pub delete_groups :
        (temp : ℕ → String) (approved_by : Option String) (dry_run : Bool) (now : ℕ)
        → Dict (List (LedgerRecord P))
        → List DeleteAuditRecord
        → LedgerDeleteTool P
        → LedgerDeleteTool P × DeleteOutcome
    unfolding remove_all audit_of export_group
    delete_groups temp approved_by dry_run now [] audits tool = (tool, deleted audits)
    delete_groups temp approved_by dry_run now ((rtype, rs) ∷ groups) audits tool =
        let audit = audit_of temp approved_by dry_run now rtype rs tool in
        let (left, removed) = if dry_run then (tool.store, true) else remove_all rs tool.store in
        let cleared = record (export_group temp dry_run rs tool) { store = left } in
        let rest =
          delete_groups temp approved_by dry_run now groups (audits ++ audit ∷ [])
            (record cleared { audit_trail = tool.audit_trail ++ audit ∷ [] }) in
        if removed then rest else (cleared, value_error)

    unfoldable pub run :
        (parse : String → Option ℕ) (temp : ℕ → String) (now : ℕ) (approved_by : Option String)
        (dry_run : Bool)
        → LedgerDeleteTool P
        → LedgerDeleteTool P × DeleteOutcome
    unfolding delete_groups collect is_due
    run parse temp now approved_by dry_run tool =
        let unapproved : Bool = elim approved_by [ none ↦ true | some name ↦ false ] in
        if tool.policy.delete_requires_approval && unapproved
        then (tool, permission_error)
        else delete_groups temp approved_by dry_run now
            (collect (is_due parse tool.policy now) tool.store []) [] tool
