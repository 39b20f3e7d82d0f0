-- ===== src/Operations/Patterns.antt =====
-- What the findings of operations/anomaly_detector.py say of the events of a run.
use mathlib.Core.Path.{subst}
use llm_sca_tooling.Prelude.{
  ℕ, zero, suc, String, Bool, true, false, ◌&&◌, ◌||◌, List, [], ◌∷◌, ◌++◌, ◌≡◌, refl, arith,
  contains, select, map, All, str_eq, ◌⊎◌, Bool-cases, ◌∙◌, All-append, inl, ap, inr, sym, take,
  any, leb, if◌then◌else◌, length, eq_iff,
}
use llm_sca_tooling.Operations.Anomalies.{
  check_budget_exhaustion, gate_failures, Event, AnomalyFinding, is_error, is_denied, etype,
  denials_from, found, id_of, check_out_of_scope_writes, repeated,
  check_context_growth_without_evidence, check_repeated_failing_gates, is_out_of_scope,
}

-- The first `n` events are denials.
abbrev pub leads : ℕ → List Event → Bool
leads zero es = true
leads (suc n) [] = false
leads (suc n) (e ∷ es) = is_denied e && leads n es

-- `n` events in a row are denials.
unfoldable pub in_row : ℕ → List Event → Bool
in_row n [] = leads n []
in_row n (e ∷ es) = leads n (e ∷ es) || in_row n es

abbrev pub at_least_two : Bool → Bool → Bool → Bool
at_least_two a b c = (a && b) || (a && c) || (b && c)

abbrev pub is_hard_stop : Event → Bool
is_hard_stop e = str_eq (etype e) "budget_hard_stop"

-- The kinds of the findings that are errors.
abbrev pub error_kinds : List AnomalyFinding → List String
error_kinds fs = map (λ f. f.kind) (select is_error fs)

abbrev pub IsKnown : String → Type 0
IsKnown k = (k ≡ "denial_storm") ⊎ (k ≡ "budget_exhaustion") ⊎ (k ≡ "out_of_scope_write")

-- Which errors a list of findings has, and that it has no other ones.
pub record IsTold (fs : List AnomalyFinding) (a b c : Bool) : Type 0 where
  pub storm : contains (error_kinds fs) "denial_storm" ≡ a
  pub budget : contains (error_kinds fs) "budget_exhaustion" ≡ b
  pub scope : contains (error_kinds fs) "out_of_scope_write" ≡ c
  pub known : All IsKnown (error_kinds fs)

pub contains-append :
    (xs ys : List String) (s : String) → contains (xs ++ ys) s ≡ (contains xs s || contains ys s)
contains-append [] ys s = refl
contains-append (x ∷ xs) ys s = ground (arith, contains-append xs ys s)

pub error_kinds-append :
    (fs gs : List AnomalyFinding) → error_kinds (fs ++ gs) ≡ error_kinds fs ++ error_kinds gs
error_kinds-append [] gs = refl
error_kinds-append (f ∷ fs) gs = elim (Bool-cases (is_error f)) [
  | inl e ↦ rw e (ap (◌∷◌ f.kind) (error_kinds-append fs gs))
  | inr e ↦ rw e (error_kinds-append fs gs)
]

or_path : {p q r s : Bool} → p ≡ q → r ≡ s → (p || r) ≡ (q || s)
or_path e h = cc

told_append :
    (fs gs : List AnomalyFinding) (k : String) {p q : Bool}
    → contains (error_kinds fs) k ≡ p
    → contains (error_kinds gs) k ≡ q
    → contains (error_kinds (fs ++ gs)) k ≡ (p || q)
told_append fs gs k e h =
    ap (λ l. contains l k) (error_kinds-append fs gs)
    ∙ contains-append (error_kinds fs) (error_kinds gs) k
    ∙ or_path e h

pub append-IsTold :
    (fs gs : List AnomalyFinding) {a b c a' b' c' : Bool}
    → IsTold fs a b c
    → IsTold gs a' b' c'
    → IsTold (fs ++ gs) (a || a') (b || b') (c || c')
append-IsTold fs gs {a} {b} {c} {a'} {b'} {c'} t u =
    let both = error_kinds-append fs gs in
    record {
      storm = told_append fs gs "denial_storm" t.storm u.storm;
      budget = told_append fs gs "budget_exhaustion" t.budget u.budget;
      scope = told_append fs gs "out_of_scope_write" t.scope u.scope;
      known =
          subst (All IsKnown) (sym both)
            (All-append IsKnown (error_kinds fs) (error_kinds gs) t.known u.known);
    }

warning_first :
    (f : AnomalyFinding) (fs : List AnomalyFinding) {a b c : Bool}
    → is_error f ≡ false
    → IsTold fs a b c
    → IsTold (f ∷ fs) a b c
warning_first f fs w t = record {
  storm = rw w t.storm;
  budget = rw w t.budget;
  scope = rw w t.scope;
  known = rw w t.known;
}

pub warnings-IsTold :
    (fs : List AnomalyFinding) → All (λ f. is_error f ≡ false) fs → IsTold fs false false false
warnings-IsTold [] w = record { storm = refl; budget = refl; scope = refl; known = tt }
warnings-IsTold (f ∷ fs) w = warning_first f fs w.0 (warnings-IsTold fs w.1)

storm_first :
    {a : Bool} (ids : List String) (fs : List AnomalyFinding)
    → IsTold fs a false false
    → IsTold (found "denial_storm" "error" ids ∷ fs) true false false
storm_first ids fs t = record {
  storm = refl;
  budget = t.budget;
  scope = t.scope;
  known = (inl refl, t.known);
}

shorter :
    (es : List Event) → (leads 1 es || (leads 2 es || in_row 3 es)) ≡ (leads 1 es || in_row 3 es)
shorter [] = refl
shorter (e ∷ es) = ground arith

-- What is found after no denial, after one and after two in a row.
pub denials_from-IsTold :
    (es : List Event)
    → ((ids : List String) → IsTold (denials_from 0 ids es) (in_row 3 es) false false)
      × ((ids : List String)
          → IsTold (denials_from 1 ids es) (leads 2 es || in_row 3 es) false false)
      × ((ids : List String)
          → IsTold (denials_from 2 ids es) (leads 1 es || in_row 3 es) false false)
unfolding denials_from in_row
denials_from-IsTold [] = (λ ids. nothing-IsTold, λ ids. nothing-IsTold, λ ids. nothing-IsTold)
  where
    nothing-IsTold : IsTold [] false false false
    nothing-IsTold = record { storm = refl; budget = refl; scope = refl; known = tt }
denials_from-IsTold (e ∷ es) =
    let (none_yet, one_yet, two_yet) = denials_from-IsTold es in
    elim (Bool-cases (is_denied e)) [
      | inl d ↦ rw d (
        λ ids. one_yet (ids ++ id_of e ∷ []),
        λ ids.
            subst (λ b. IsTold (denials_from 2 (ids ++ id_of e ∷ []) es) b false false)
              (sym (shorter es)) (two_yet (ids ++ id_of e ∷ [])),
        λ ids. storm_first (take 5 (ids ++ id_of e ∷ [])) (denials_from 0 [] es) (none_yet []),
      )
      | inr d ↦ rw d (λ ids. none_yet [], λ ids. none_yet [], λ ids. none_yet [])
    ]

pub check_budget_exhaustion-IsTold :
    (es : List Event) → IsTold (check_budget_exhaustion es) false (any is_hard_stop es) false
unfolding check_budget_exhaustion
check_budget_exhaustion-IsTold [] = record { storm = refl; budget = refl; scope = refl; known = tt }
check_budget_exhaustion-IsTold (e ∷ es) =
    let rest = check_budget_exhaustion-IsTold es in
    elim (Bool-cases (str_eq (etype e) "budget_hard_stop")) [
      | inl q ↦
          let stop : etype e ≡ "budget_hard_stop" = (eq_iff (etype e) "budget_hard_stop").0 q in
          let c = ap (contains ("budget_warning" ∷ "budget_hard_stop" ∷ [])) stop in
          rw (c, q)
            (record {
              storm = rest.storm;
              budget = refl;
              scope = rest.scope;
              known = (inr (inl refl), rest.known);
            })
      | inr q ↦
          elim (Bool-cases (contains ("budget_warning" ∷ "budget_hard_stop" ∷ []) (etype e))) [
            | inl c ↦ rw (c, q) (warning_first _ _ refl rest)
            | inr c ↦ rw (c, q) rest
          ]
    ]

pub check_out_of_scope_writes-IsTold :
    (es : List Event) → IsTold (check_out_of_scope_writes es) false false (any is_out_of_scope es)
unfolding check_out_of_scope_writes
check_out_of_scope_writes-IsTold [] = record {
  storm = refl;
  budget = refl;
  scope = refl;
  known = tt;
}
check_out_of_scope_writes-IsTold (e ∷ es) =
    let rest = check_out_of_scope_writes-IsTold es in
    elim (Bool-cases (is_out_of_scope e)) [
      | inl q ↦ rw q (record {
        storm = rest.storm;
        budget = rest.budget;
        scope = refl;
        known = (inr (inr refl), rest.known);
      })
      | inr q ↦ rw q rest
    ]

-- Findings made by one function for the selected members are warnings if it makes warnings.
pub map-warnings :
    {A : Type 0} (g : A → AnomalyFinding) (xs : List A)
    → ((x : A) → is_error (g x) ≡ false)
    → All (λ f. is_error f ≡ false) (map g xs)
map-warnings g [] h = tt
map-warnings g (x ∷ xs) h = (h x, map-warnings g xs h)

pub repeated-warnings :
    (counts : List (String × String × List String))
    → All (λ f. is_error f ≡ false) (repeated counts)
repeated-warnings [] = tt
repeated-warnings ((t, s, ids) ∷ counts) = elim (Bool-cases (leb 5 (length ids))) [
  | inl e ↦ rw e (refl, repeated-warnings counts)
  | inr e ↦ rw e (repeated-warnings counts)
]

pub context-warnings :
    (es : List Event) → All (λ f. is_error f ≡ false) (check_context_growth_without_evidence es)
unfolding check_context_growth_without_evidence
context-warnings es = one_warning _ (found "context_growth" "warning" _) refl
  where
    one_warning :
        (b : Bool) (f : AnomalyFinding)
        → is_error f ≡ false
        → All (λ f. is_error f ≡ false) (if b then f ∷ [] else [])
    one_warning true f h = (h, tt)
    one_warning false f h = tt

pub failing-warnings :
    (es : List Event) → All (λ f. is_error f ≡ false) (check_repeated_failing_gates es)
unfolding check_repeated_failing_gates
failing-warnings es =
    let (changed, failures) = gate_failures es false [] in
    let often = select (λ (g : String × ℕ). leb 3 g.1) failures in
    let warn = λ (g : String × ℕ). found "repeated_failing" "warning" [] in
    unless changed (map warn often) (map-warnings warn often λ g. refl)
  where
    unless :
        (b : Bool) (fs : List AnomalyFinding)
        → All (λ f. is_error f ≡ false) fs
        → All (λ f. is_error f ≡ false) (if b then [] else fs)
    unless true fs h = tt
    unless false fs h = h
