-- ===== src/Operations/Deletion.antt =====
-- The deletion tool of operations/ledger_delete.py: which records a run deletes, and when it
-- deletes none.
use llm_sca_tooling.Operations.Collected.{
  none_due, length-collect, tally-select-due, is_due-Respects, All-collect, tally-select,
}
use mathlib.Core.Path.{subst}
use llm_sca_tooling.Operations.Sweep.{
  IsSwept, audited, delete_groups-IsRehearsed, delete_groups-IsSwept,
}
use llm_sca_tooling.Prelude.{
  true, false, ℕ, String, ◌+◌, Bool, not, Option, List, [], ◌++◌, ◌≡◌, refl, arith, select, length,
  Bool-cases, length-append, inl, inr, if◌then◌else◌, sym, ◌∙◌, none, ◌⊎◌, ◌&&◌, ap, some, ◌≢◌,
}
use llm_sca_tooling.Operations.Ledger.{
  LedgerRecord, is_due, collect, LedgerDeleteTool, DeleteOutcome, run, permission_error,
  DeleteAuditRecord, deleted, delete_groups,
}
use llm_sca_tooling.Operations.Retention.{IsEquivalence, Respects, flat, tally-collect}

-- What a run that is not refused answers and leaves.
abbrev pub Deletes :
    {P : Type 0}
    → (due : LedgerRecord P → Bool) (dry_run : Bool) (tool : LedgerDeleteTool P)
    → LedgerDeleteTool P × DeleteOutcome
    → Type 0
Deletes due dry_run tool ran =
    (audit : List DeleteAuditRecord) × (ran.1 ≡ deleted audit)
    × (ran.0.audit_trail ≡ tool.audit_trail ++ audit)
    × (audited audit ≡ length (select due tool.store))
    × (ran.0.store ≡ (if dry_run then tool.store else select (λ r. not (due r)) tool.store))
    × (length (flat ran.0.exports)
        ≡ length (flat tool.exports)
          + (if tool.policy.export_on_delete && not dry_run
              then length (select due tool.store)
              else 0))

if_true : {A : Type 0} (b : Bool) (x y : A) → b ≡ true → (if b then x else y) ≡ x
if_true b x y e = rw e refl

if_false : {A : Type 0} (b : Bool) (x y : A) → b ≡ false → (if b then x else y) ≡ y
if_false b x y e = rw e refl

module _ {P : Type 0} where
  module _ (same : P → P → Bool) where
    swept_collected :
        (due : LedgerRecord P → Bool) (tool : LedgerDeleteTool P)
        (ran : LedgerDeleteTool P × DeleteOutcome)
        → IsEquivalence same
        → Respects same due
        → IsSwept same due (collect due tool.store []) [] tool ran
        → ran.0.store ≡ select (λ r. not (due r)) tool.store
    swept_collected due tool ran law keep swept =
        sym (
          none_due same law due ran.0.store λ v d. omega (
            arith,
            swept.left v,
            tally-collect same due v tool.store [],
            tally-select-due same due v tool.store keep d,
          ))
        ∙ swept.kept

    exported_count :
        (b : Bool) (old new after : List (LedgerRecord P)) (n : ℕ)
        → after ≡ old ++ (if b then new else [])
        → length new ≡ n
        → length after ≡ length old + (if b && true then n else 0)
    exported_count true old new after n e h =
        omega (arith, ap (λ l. length l) e, length-append old new, h)
    exported_count false old new after n e h =
        omega (arith, ap (λ l. length l) e, length-append old [])

    approved_run :
        (law : IsEquivalence same) (parse : String → Option ℕ) (temp : ℕ → String) (now : ℕ)
        (approved_by : Option String) (dry_run : Bool) (tool : LedgerDeleteTool P)
        → let due = is_due parse tool.policy now in
          let ran =
            delete_groups same temp approved_by dry_run now (collect due tool.store []) [] tool in
          Deletes due dry_run tool ran
    approved_run law parse temp now approved_by true tool =
        let due : LedgerRecord P → Bool = is_due parse tool.policy now in
        let groups = collect due tool.store [] in
        let r = delete_groups-IsRehearsed same temp approved_by now groups [] tool in
        (
          r.new,
          r.answered,
          r.trail,
          omega (arith, r.counted, length-collect due tool.store []),
          r.kept,
          ground (arith, ap (λ e. length (flat e)) r.exported),
        )
    approved_run law parse temp now approved_by false tool =
        let due : LedgerRecord P → Bool = is_due parse tool.policy now in
        let groups = collect due tool.store [] in
        let keep = is_due-Respects same parse tool.policy now in
        let s =
          delete_groups-IsSwept same law due temp approved_by now groups [] tool keep
            (All-collect due tool.store [] tt)
            λ v.
              omega (
                arith,
                tally-collect same due v tool.store [],
                tally-select same due v tool.store,
              ) in
        (
          s.new,
          s.answered,
          s.trail,
          omega (arith, s.counted, length-collect due tool.store []),
          swept_collected due tool _ law keep s,
          exported_count tool.policy.export_on_delete (flat tool.exports) (flat groups) _ _
              s.exported (omega (arith, length-collect due tool.store [])),
        )

    -- Where `==` on records is an equivalence, a run without an approval that the policy requires
    -- raises and changes nothing. Any other run returns audit records that it also appends to the
    -- trail and that count the records that are due: of a known type, with a time that can be read
    -- and that lies further back than the days of that type. A dry run deletes and exports nothing;
    -- another one leaves exactly the records that are not due, in order, and exports as many as it
    -- deletes if the policy says so.
    pub run-Deletes :
        (law : IsEquivalence same) (parse : String → Option ℕ) (temp : ℕ → String) (now : ℕ)
        (approved_by : Option String) (dry_run : Bool) (tool : LedgerDeleteTool P)
        → let due = is_due parse tool.policy now in
          let ran = run same parse temp now approved_by dry_run tool in
          ((tool.policy.delete_requires_approval ≡ true)
            × (approved_by ≡ none)
            × (ran ≡ (tool, permission_error)))
          ⊎ (((tool.policy.delete_requires_approval ≡ false) ⊎ (approved_by ≢ none))
              × Deletes due dry_run tool ran)
    unfolding run
    run-Deletes law parse temp now approved_by dry_run tool =
        let unapproved : Bool = elim approved_by [ none ↦ true | some name ↦ false ] in
        let refused = tool.policy.delete_requires_approval && unapproved in
        let due : LedgerRecord P → Bool = is_due parse tool.policy now in
        let ran =
          delete_groups same temp approved_by dry_run now (collect due tool.store []) [] tool in
        elim (Bool-cases refused) [
          | inl e ↦ inl (ground arith, ground arith, if_true refused (tool, permission_error) ran e)
          | inr e ↦ inr (
            ground arith,
            subst (Deletes due dry_run tool) (sym (if_false refused (tool, permission_error) ran e))
                (approved_run law parse temp now approved_by dry_run tool),
          )
        ]
