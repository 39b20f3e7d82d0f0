-- ===== src/Workflows/Choice.antt =====
-- The chosen candidate.
use mathlib.Core.Path.{subst}
use mathlib.Core.List.{Memᴰ}
use llm_sca_tooling.Prelude.{
  ◌∙◌, ℕ, ◌+◌, ◌≤◌, String, ◌≡◌, ◌⊎◌, ap, inl, inr, refl, true, none, some, List, [], ◌∷◌, arith,
  if◌then◌else◌, ltb, All, Bool-cases, List-cases, ltb→lt, sym,
}
use llm_sca_tooling.Workflows.Patches.{
  CandidatePatch, GateRunnerResult, Pair, PatchSelectionRecord, files, fewest, passing_of,
  select_from, select_patch, zip_strict,
}

-- The choice of a passing pair with the fewest changed files.
pub record IsBest (pairs : List Pair) (index : ℕ) : Type 0 where
  pub best : Pair
  pub candidate : Memᴰ best pairs
  pub passes : best.1.overall_gate_pass ≡ true
  pub chosen : best.0.candidate_index ≡ index
  pub least : All (λ q. q.1.overall_gate_pass ≡ true → files best ≤ files q) pairs

head_or_tail : {q x : Pair} {xs : List Pair} → Memᴰ q (x ∷ xs) → (q ≡ x) ⊎ Memᴰ q xs
head_or_tail (Memᴰ.head e) = inl e
head_or_tail (Memᴰ.tail m) = inr m

passing_member :
    (pairs : List Pair) {q : Pair}
    → Memᴰ q (passing_of pairs)
    → Memᴰ q pairs × (q.1.overall_gate_pass ≡ true)
passing_member [] h = elim h [ ]
passing_member (x ∷ xs) {q} h = elim (Bool-cases x.1.overall_gate_pass) [
  | inl ok ↦
      let e : passing_of (x ∷ xs) ≡ x ∷ passing_of xs = rw ok refl in
      elim (head_or_tail (subst (Memᴰ q) e h)) [
        | inl e ↦ (Memᴰ.head e, ap (λ y. y.1.overall_gate_pass) e ∙ ok)
        | inr m ↦ let (a, b) = passing_member xs m in (Memᴰ.tail a, b)
      ]
  | inr bad ↦
      let e : passing_of (x ∷ xs) ≡ passing_of xs = rw bad refl in
      let (a, b) = passing_member xs (subst (Memᴰ q) e h) in (Memᴰ.tail a, b)
]

skip_second : {q x y : Pair} {xs : List Pair} → Memᴰ q (x ∷ xs) → Memᴰ q (x ∷ y ∷ xs)
skip_second (Memᴰ.head e) = Memᴰ.head e
skip_second (Memᴰ.tail m) = Memᴰ.tail (Memᴰ.tail m)

fewest-member :
    (place : ℕ) (best : ℕ × Pair) (qs : List Pair) → Memᴰ (fewest place best qs).1 (best.1 ∷ qs)
unfolding fewest
fewest-member place best [] = Memᴰ.head refl
fewest-member place best (q ∷ qs) = elim (Bool-cases (ltb (files q) (files best.1))) [
  | inl less ↦ rw (less, fewest) (Memᴰ.tail (fewest-member (place + 1) (place, q) qs))
  | inr more ↦ rw (more, fewest) (skip_second (fewest-member (place + 1) best qs))
]

closer_le :
    (place : ℕ) (best : ℕ × Pair) (q : Pair)
    → let next = if ltb (files q) (files best.1) then (place, q) else best in
      (files next.1 ≤ files best.1) × (files next.1 ≤ files q)
closer_le place best q = elim (Bool-cases (ltb (files q) (files best.1))) [
  | inl less ↦
      let below = ltb→lt (files q) (files best.1) less in
      rw less (omega (arith, below), omega arith)
  | inr more ↦ let above : files best.1 ≤ files q = ground arith in rw more (omega arith, above)
]

fewest-least :
    (place : ℕ) (best : ℕ × Pair) (qs : List Pair)
    → (files (fewest place best qs).1 ≤ files best.1)
      × All (λ q. files (fewest place best qs).1 ≤ files q) qs
unfolding fewest
fewest-least place best [] = (omega arith, tt)
fewest-least place best (q ∷ qs) =
    let next = if ltb (files q) (files best.1) then (place, q) else best in
    let (low, rest) = fewest-least (place + 1) next qs in
    let (to_best, to_q) = closer_le place best q in
    (omega (arith, low, to_best), (omega (arith, low, to_q), rest))

-- A candidate is chosen exactly if some candidate passes its gates; the chosen one passes, and no
-- candidate that passes changes fewer files.
pub select_patch-IsBest :
    (run_id : String) (patches : List CandidatePatch) (gates : List GateRunnerResult)
    {pairs : List Pair}
    → zip_strict patches gates ≡ some pairs
    → (r : PatchSelectionRecord) × (select_patch run_id patches gates ≡ some r)
      × (((r.selected_candidate_index ≡ none) × (passing_of pairs ≡ []))
          ⊎ ((i : ℕ) × (r.selected_candidate_index ≡ some i) × IsBest pairs i))
unfolding select_patch select_from
select_patch-IsBest run_id patches gates {pairs} zipped = elim (List-cases (passing_of pairs)) [
  | inl e ↦ (select_from run_id patches gates [], rw (zipped, e, select_patch) refl, inl (refl, e))
  | inr (q, qs, e) ↦
      let b = fewest 1 (0, q) qs in
      let (cand, ok) =
        passing_member pairs (subst (Memᴰ b.1) (sym e) (fewest-member 1 (0, q) qs)) in
      let (low, rest) = fewest-least 1 (0, q) qs in
      (
        select_from run_id patches gates (q ∷ qs),
        rw (zipped, e, select_patch) refl,
        inr (
          b.1.0.candidate_index,
          refl,
          record {
            best = b.1;
            candidate = cand;
            passes = ok;
            chosen = refl;
            least =
                least_of pairs (files b.1)
                  (subst (All (λ x. files b.1 ≤ files x)) (sym e) (low, rest));
          },
        ),
      )
]
  where
    least_of :
        (l : List Pair) (n : ℕ)
        → All (λ x. n ≤ files x) (passing_of l)
        → All (λ x. x.1.overall_gate_pass ≡ true → n ≤ files x) l
    least_of [] n h = tt
    least_of (x ∷ xs) n h = elim (Bool-cases x.1.overall_gate_pass) [
      | inl ok ↦
          let e : passing_of (x ∷ xs) ≡ x ∷ passing_of xs = rw ok refl in
          let h' : (n ≤ files x) × All (λ y. n ≤ files y) (passing_of xs) =
            subst (All (λ y. n ≤ files y)) e h in
          ((λ _. h'.0), least_of xs n h'.1)
      | inr bad ↦
          let e : passing_of (x ∷ xs) ≡ passing_of xs = rw bad refl in
          let h' : All (λ y. n ≤ files y) (passing_of xs) = subst (All (λ y. n ≤ files y)) e h in
          ((λ ok. cc), least_of xs n h')
    ]
