-- ===== src/Operations/Collected.antt =====
-- The records that operations/ledger_delete.py collects as due, and those that are not.
use llm_sca_tooling.Prelude.{
  true, ℕ, suc, String, ◌+◌, ◌≤◌, Bool, not, Option, List, [], ◌∷◌, ◌++◌, ◌≡◌, refl, arith, select,
  length, All, opt_str_eq_iff, Bool-cases, length-append, inl, inr, str_eq, All-append,
  if◌then◌else◌,
}
use llm_sca_tooling.Prelude.Dict.{Dict, lookup, insert}
use llm_sca_tooling.Operations.Ledger.{
  LedgerRecord, same_record, is_due, add_due, collect, type_of, LedgerRetentionPolicy,
}
use llm_sca_tooling.Operations.Retention.{
  IsEquivalence, tally, Respects, flat, tally-head, All-append-cases,
}

module _ {P : Type 0} where
  pub is_due-Respects :
      (same : P → P → Bool) (parse : String → Option ℕ) (policy : LedgerRetentionPolicy) (now : ℕ)
      → Respects same (is_due parse policy now)
  unfolding is_due type_of same_record
  is_due-Respects same parse policy now r s h =
      let types : r.record_type ≡ s.record_type =
        (opt_str_eq_iff r.record_type s.record_type).0 (ground arith) in
      let times : r.ts ≡ s.ts = (opt_str_eq_iff r.ts s.ts).0 (ground arith) in
      let made : r.created_at ≡ s.created_at =
        (opt_str_eq_iff r.created_at s.created_at).0 (ground arith) in
      cc

  add_due-nil : (r : LedgerRecord P) → add_due r [] ≡ (type_of r, r ∷ []) ∷ []
  unfolding add_due lookup insert
  add_due-nil r = refl

  add_due-cons :
      (r : LedgerRecord P) (k : String) (rs : List (LedgerRecord P))
      (groups : Dict (List (LedgerRecord P)))
      → add_due r ((k, rs) ∷ groups) ≡ (
          if str_eq k (type_of r)
          then (type_of r, rs ++ r ∷ []) ∷ groups
          else (k, rs) ∷ add_due r groups)
  unfolding add_due lookup insert
  add_due-cons r k rs groups = ground arith

  All-add_due :
      (Q : LedgerRecord P → Type 0) (r : LedgerRecord P) (groups : Dict (List (LedgerRecord P)))
      → Q r
      → All Q (flat groups)
      → All Q (flat (add_due r groups))
  All-add_due Q r [] q all = rw (add_due-nil r) (q, tt)
  All-add_due Q r ((k, rs) ∷ groups) q all =
      let (here, later) = All-append-cases Q rs (flat groups) all in
      rw (add_due-cons r k rs groups) (elim (Bool-cases (str_eq k (type_of r))) [
        | inl e ↦ rw e (
            All-append Q (rs ++ r ∷ []) (flat groups) (All-append Q rs (r ∷ []) here (q, tt)) later)
        | inr e ↦
            rw e (All-append Q rs (flat (add_due r groups)) here (All-add_due Q r groups q later))
      ])

  pub All-collect :
      (due : LedgerRecord P → Bool) (rs : List (LedgerRecord P))
      (groups : Dict (List (LedgerRecord P)))
      → All (λ r. due r ≡ true) (flat groups)
      → All (λ r. due r ≡ true) (flat (collect due rs groups))
  unfolding collect
  All-collect due [] groups all = all
  All-collect due (r ∷ rs) groups all = elim (Bool-cases (due r)) [
    | inl e ↦
        rw e
          (All-collect due rs (add_due r groups) (All-add_due (λ x. due x ≡ true) r groups e all))
    | inr e ↦ rw e (All-collect due rs groups all)
  ]

  length-add_due :
      (r : LedgerRecord P) (groups : Dict (List (LedgerRecord P)))
      → length (flat (add_due r groups)) ≡ suc (length (flat groups))
  unfolding add_due lookup insert
  length-add_due r [] = refl
  length-add_due r ((k, rs) ∷ groups) = ground (
    arith,
    length-append rs (r ∷ []),
    length-append (rs ++ r ∷ []) (flat groups),
    length-append rs (flat groups),
    length-append rs (flat (add_due r groups)),
    length-add_due r groups,
  )

  pub length-collect :
      (due : LedgerRecord P → Bool) (rs : List (LedgerRecord P))
      (groups : Dict (List (LedgerRecord P)))
      → length (flat (collect due rs groups)) ≡ length (select due rs) + length (flat groups)
  unfolding collect
  length-collect due [] groups = omega arith
  length-collect due (r ∷ rs) groups = ground (
    arith,
    length-collect due rs (add_due r groups),
    length-collect due rs groups,
    length-add_due r groups,
  )

  module _ (same : P → P → Bool) where
    pub tally-select :
        (due : LedgerRecord P → Bool) (v : LedgerRecord P) (xs : List (LedgerRecord P))
        → tally same v (select due xs) ≤ tally same v xs
    tally-select due v [] = omega arith
    tally-select due v (x ∷ xs) = ground (arith, tally-select due v xs)

    pub tally-select-due :
        (due : LedgerRecord P → Bool) (v : LedgerRecord P) (xs : List (LedgerRecord P))
        → Respects same due
        → due v ≡ true
        → tally same v (select due xs) ≡ tally same v xs
    tally-select-due due v [] keep h = refl
    tally-select-due due v (x ∷ xs) keep h =
        ground (arith, keep x v, tally-select-due due v xs keep h)

    pub none_due :
        (law : IsEquivalence same) (due : LedgerRecord P → Bool) (xs : List (LedgerRecord P))
        → ((v : LedgerRecord P) → due v ≡ true → tally same v xs ≡ 0)
        → select (λ r. not (due r)) xs ≡ xs
    none_due law due [] h = refl
    none_due law due (x ∷ xs) h =
        let rest = none_due law due xs λ v d. ground (arith, h v d) in
        ground (arith, h x, tally-head same law x, rest)
