-- ===== src/Operations/Retention.antt =====
-- What a run of the deletion tool in operations/ledger_delete.py leaves in the ledger.

use llm_sca_tooling.Prelude.Dict.{Dict, lookup, insert}
use llm_sca_tooling.Prelude.{
  String, Bool, true, Option, ◌≡◌, refl, arith, opt_str_eq, opt_str_eq_iff, List, ℕ, ◌++◌, select,
  ◌∷◌, if◌then◌else◌, ◌+◌, [], suc, ◌≤◌, not, All,
}
use llm_sca_tooling.Operations.Ledger.{
  same_record, LedgerRecord, add_due, collect, remove_first, remove_all,
}

-- The `==` of dicts is an equivalence.
pub record IsEquivalence {P : Type 0} (same : P → P → Bool) : Type 0 where
  pub same_refl : (a : P) → same a a ≡ true
  pub same_sym : (a b : P) → same a b ≡ true → same b a ≡ true
  pub same_trans : (a b c : P) → same a b ≡ true → same b c ≡ true → same a c ≡ true

module _ {P : Type 0} (same : P → P → Bool) (law : IsEquivalence same) where
  same_record-IsEquivalence : IsEquivalence (same_record same)
  unfolding same_record
  same_record-IsEquivalence = record {
    same_refl = λ r. ground (
      arith,
      opt_refl r.record_type,
      opt_refl r.ts,
      opt_refl r.created_at,
      law.same_refl r.others,
    );
    same_sym = λ r s h. ground (
      arith,
      opt_str_eq_iff r.record_type s.record_type,
      opt_str_eq_iff s.record_type r.record_type,
      opt_str_eq_iff r.ts s.ts,
      opt_str_eq_iff s.ts r.ts,
      opt_str_eq_iff r.created_at s.created_at,
      opt_str_eq_iff s.created_at r.created_at,
      law.same_sym r.others s.others,
      h,
    );
    same_trans = λ r s t h k. ground (
      arith,
      opt_str_eq_iff r.record_type s.record_type,
      opt_str_eq_iff s.record_type t.record_type,
      opt_str_eq_iff r.record_type t.record_type,
      opt_str_eq_iff r.ts s.ts,
      opt_str_eq_iff s.ts t.ts,
      opt_str_eq_iff r.ts t.ts,
      opt_str_eq_iff r.created_at s.created_at,
      opt_str_eq_iff s.created_at t.created_at,
      opt_str_eq_iff r.created_at t.created_at,
      law.same_trans r.others s.others t.others,
      h,
      k,
    );
  }
    where
      opt_refl : (o : Option String) → opt_str_eq o o ≡ true
      opt_refl o = (opt_str_eq_iff o o).1 refl

-- How many members of a list are equal to `v`.
abbrev pub tally : {P : Type 0} (same : P → P → Bool) → LedgerRecord P → List (LedgerRecord P) → ℕ
tally same v [] = 0
tally same v (x ∷ xs) = if same_record same x v then suc (tally same v xs) else tally same v xs

-- All records of the groups, in order.
abbrev pub flat : {P : Type 0} → Dict (List (LedgerRecord P)) → List (LedgerRecord P)
flat [] = []
flat ((k, rs) ∷ groups) = rs ++ flat groups

module _ {P : Type 0} (same : P → P → Bool) where
  pub tally-append :
      (v : LedgerRecord P) (xs ys : List (LedgerRecord P))
      → tally same v (xs ++ ys) ≡ tally same v xs + tally same v ys
  tally-append v [] ys = omega arith
  tally-append v (x ∷ xs) ys = ground (arith, tally-append v xs ys)

  tally-add_due :
      (v r : LedgerRecord P) (groups : Dict (List (LedgerRecord P)))
      → tally same v (flat (add_due r groups)) ≡ tally same v (r ∷ []) + tally same v (flat groups)
  unfolding add_due lookup insert
  tally-add_due v r [] = ground arith
  tally-add_due v r ((k, rs) ∷ groups) = ground (
    arith,
    tally-append v rs (r ∷ []),
    tally-append v (rs ++ r ∷ []) (flat groups),
    tally-append v rs (flat groups),
    tally-append v rs (flat (add_due r groups)),
    tally-add_due v r groups,
  )

  pub tally-collect :
      (due : LedgerRecord P → Bool) (v : LedgerRecord P) (rs : List (LedgerRecord P))
      (groups : Dict (List (LedgerRecord P)))
      → tally same v (flat (collect due rs groups))
        ≡ tally same v (select due rs) + tally same v (flat groups)
  unfolding collect
  tally-collect due v [] groups = omega arith
  tally-collect due v (r ∷ rs) groups = ground (
    arith,
    tally-collect due v rs (add_due r groups),
    tally-collect due v rs groups,
    tally-add_due v r groups,
  )

  -- Equal records are due alike.
  abbrev pub Respects : (LedgerRecord P → Bool) → Type 0
  Respects due = (r s : LedgerRecord P) → same_record same r s ≡ true → due r ≡ due s

  module _ (law : IsEquivalence same) where
    same_tally :
        (v x r : LedgerRecord P)
        → same_record same x r ≡ true
        → same_record same x v ≡ same_record same r v
    same_tally v x r h =
        let eq = same_record-IsEquivalence same law in
        ground (arith, eq.same_sym x r h, eq.same_trans r x v, eq.same_trans x r v h)

    tally-remove_first :
        (v r : LedgerRecord P) (xs : List (LedgerRecord P))
        → 1 ≤ tally same r xs
        → ((remove_first same r xs).1 ≡ true)
          × (tally same v (remove_first same r xs).0 + tally same v (r ∷ []) ≡ tally same v xs)
    unfolding remove_first
    tally-remove_first v r [] h = ground arith
    tally-remove_first v r (x ∷ xs) h = ground (arith, same_tally v x r, tally-remove_first v r xs)

    select-remove_first :
        (due : LedgerRecord P → Bool) (r : LedgerRecord P) (xs : List (LedgerRecord P))
        → Respects due
        → due r ≡ true
        → select (λ x. not (due x)) (remove_first same r xs).0 ≡ select (λ x. not (due x)) xs
    unfolding remove_first
    select-remove_first due r [] keep h = refl
    select-remove_first due r (x ∷ xs) keep h =
        ground (arith, keep x r, select-remove_first due r xs keep h)

    pub tally-head : (r : LedgerRecord P) → tally same r (r ∷ []) ≡ 1
    tally-head r = let eq = same_record-IsEquivalence same law in ground (arith, eq.same_refl r)

    pub tally-remove_all :
        (rs xs : List (LedgerRecord P))
        → ((v : LedgerRecord P) → tally same v rs ≤ tally same v xs)
        → ((remove_all same rs xs).1 ≡ true)
          × ((v : LedgerRecord P)
              → tally same v (remove_all same rs xs).0 + tally same v rs ≡ tally same v xs)
    unfolding remove_all
    tally-remove_all [] xs enough = (refl, λ v. omega arith)
    tally-remove_all (r ∷ rs) xs enough =
        let one : 1 ≤ tally same r xs =
          omega (arith, enough r, tally-head r, tally-append r (r ∷ []) rs) in
        let ys = (remove_first same r xs).0 in
        let cut = λ (v : LedgerRecord P). tally-remove_first v r xs one in
        let rest =
          tally-remove_all rs ys
            λ v. omega (arith, enough v, (cut v).1, tally-append v (r ∷ []) rs) in
        (
          ground (arith, (cut r).0, rest.0),
          λ v. ground (arith, (cut v).0, (cut v).1, rest.1 v, tally-append v (r ∷ []) rs),
        )

    pub select-remove_all :
        (due : LedgerRecord P → Bool) (rs xs : List (LedgerRecord P))
        → Respects due
        → All (λ r. due r ≡ true) rs
        → select (λ x. not (due x)) (remove_all same rs xs).0 ≡ select (λ x. not (due x)) xs
    unfolding remove_all
    select-remove_all due [] xs keep h = refl
    select-remove_all due (r ∷ rs) xs keep h =
        let ys = (remove_first same r xs).0 in
        ground (arith, select-remove_first due r xs keep h.0, select-remove_all due rs ys keep h.1)

pub All-append-cases :
    {A : Type 0} (Q : A → Type 0) (xs ys : List A) → All Q (xs ++ ys) → All Q xs × All Q ys
All-append-cases Q [] ys h = (tt, h)
All-append-cases Q (x ∷ xs) ys h =
    let rest = All-append-cases Q xs ys h.1 in ((h.0, rest.0), rest.1)
