-- ===== src/Hardening/Alerts.antt =====
-- Each pattern is reported once, and as soon as its threshold is reached.
use mathlib.Core.Path.{subst}
use llm_sca_tooling.Prelude.{
  ℕ, ◌≤◌, ◌<◌, String, ◌≡◌, sym, ap, ◌∙◌, inl, inr, refl, Bool, true, false, ◌&&◌, ◌||◌, List, [],
  ◌∷◌, ◌++◌, arith, leb, Bool-cases, Option-cases, none, ◌+◌,
}
use llm_sca_tooling.Hardening.Risk.{
  Pattern, denied_operation_storm, budget_exhaustion_pattern, repeated_failing_gate_no_change,
  repeated_identical_tool_calls, same_pattern, Action, Contribution, CumulativeRiskEvent,
  ToolCallRecord, Thresholds, Monitor, new_monitor, raised, emit, check_repeated_tool_calls,
  check_repeated_failing_gate, check_denied_storm, check_budget_exhaustion, check_all, denied_count,
  record_gate_result, record_budget_hard_stop, record_tool_call, find_repeated, count_calls,
  failing_run, reversed, GateRecord,
}

-- No pattern stands twice.
abbrev pub Single : List CumulativeRiskEvent → Type 0
Single [] = Unit
Single (e ∷ es) = (e.threshold_exceeded ≡ true) × (raised e.pattern_type es ≡ false) × Single es

same_pattern_comm : (p q : Pattern) → same_pattern p q ≡ same_pattern q p
unfolding same_pattern
same_pattern_comm p q = ground arith

raised-snoc :
    (q : Pattern) (es : List CumulativeRiskEvent) (e : CumulativeRiskEvent)
    → raised q (es ++ e ∷ [])
      ≡ (raised q es || (e.threshold_exceeded && same_pattern e.pattern_type q))
unfolding raised
raised-snoc q [] e = ground arith
raised-snoc q (x ∷ xs) e = ground (arith, raised-snoc q xs e)

Single-snoc :
    (es : List CumulativeRiskEvent) (e : CumulativeRiskEvent)
    → e.threshold_exceeded ≡ true
    → raised e.pattern_type es ≡ false
    → Single es
    → Single (es ++ e ∷ [])
unfolding raised
Single-snoc [] e t new s = (t, refl, tt)
Single-snoc (x ∷ xs) e t new s = (
  s.0,
  ground (arith, raised-snoc x.pattern_type xs e, same_pattern_comm e.pattern_type x.pattern_type),
  Single-snoc xs e t (ground arith) s.2,
)

-- A check changes the events alone: a pattern is raised after it if it was, or if the check fired.
record Effect (p : Pattern) (fired : Bool) (m m' : Monitor) : Type 0 where
  same_thresholds : m'.thresholds ≡ m.thresholds
  same_calls : m'.tool_calls ≡ m.tool_calls
  same_stops : m'.budget_hard_stops ≡ m.budget_hard_stops
  raises : (q : Pattern) → raised q m'.events ≡ (raised q m.events || (fired && same_pattern p q))
  single : Single m.events → Single m'.events

idle : (p : Pattern) (m : Monitor) → Effect p false m m
idle p m = record {
  same_thresholds = refl;
  same_calls = refl;
  same_stops = refl;
  raises = λ q. ground arith;
  single = λ s. s;
}

same_pattern_sound : (p q : Pattern) → same_pattern p q ≡ true → p ≡ q
unfolding same_pattern
same_pattern_sound p q h = ground arith

raised_already :
    (p q : Pattern) (es : List CumulativeRiskEvent)
    → raised p es ≡ true
    → raised q es ≡ (raised q es || same_pattern p q)
raised_already p q es old = elim (Bool-cases (same_pattern p q)) [
  | inl e ↦ ground (arith, ap (λ r. raised r es) (same_pattern_sound p q e))
  | inr e ↦ ground arith
]

emit-Effect :
    (p : Pattern) (c : Contribution) (s : ℕ × ℕ) (a : Action) (m : Monitor)
    → Effect p true m (emit p c s a m)
unfolding emit
emit-Effect p c s a m = elim (Bool-cases (raised p m.events)) [
  | inl old ↦
      rw (old, emit)
        (record {
          same_thresholds = refl;
          same_calls = refl;
          same_stops = refl;
          raises = λ q. raised_already p q m.events old;
          single = λ s. s;
        })
  | inr new ↦
      rw (new, emit)
        (record {
          same_thresholds = refl;
          same_calls = refl;
          same_stops = refl;
          raises = λ q. raised-snoc q m.events _;
          single = Single-snoc m.events _ refl new;
        })
]

repeated_tool_calls-Effect :
    (m : Monitor)
    → (fired : Bool) × Effect repeated_identical_tool_calls fired m (check_repeated_tool_calls m)
unfolding check_repeated_tool_calls
repeated_tool_calls-Effect m =
    elim (Option-cases (find_repeated m.thresholds.identical_calls (count_calls [] m.tool_calls))) [
      | inl none_found ↦
          (false, rw (none_found, check_repeated_tool_calls) (idle repeated_identical_tool_calls m))
      | inr ((key, count), found) ↦
          (true, rw (found, check_repeated_tool_calls) (emit-Effect _ _ _ _ m))
    ]

failing_gate-Effect :
    (m : Monitor)
    → (fired : Bool) × Effect repeated_failing_gate_no_change fired m
        (check_repeated_failing_gate m)
unfolding check_repeated_failing_gate
failing_gate-Effect m =
    elim (Bool-cases
      (leb m.thresholds.failing_gate (failing_run none 0 (reversed m.gate_records)).1)) [
        | inl enough ↦ (true, rw (enough, check_repeated_failing_gate) (emit-Effect _ _ _ _ m))
        | inr few ↦
            (false, rw (few, check_repeated_failing_gate) (idle repeated_failing_gate_no_change m))
      ]

denied_storm-Effect :
    (m : Monitor)
    → Effect denied_operation_storm
        (leb m.thresholds.denied_storm (denied_count m.tool_calls))
        m
        (check_denied_storm m)
unfolding check_denied_storm
denied_storm-Effect m =
    elim (Bool-cases (leb m.thresholds.denied_storm (denied_count m.tool_calls))) [
      | inl enough ↦ rw (enough, check_denied_storm) (emit-Effect _ _ _ _ m)
      | inr few ↦ rw (few, check_denied_storm) (idle denied_operation_storm m)
    ]

budget_exhaustion-Effect :
    (m : Monitor)
    → Effect budget_exhaustion_pattern
        (leb m.thresholds.budget_exhaustion m.budget_hard_stops)
        m
        (check_budget_exhaustion m)
unfolding check_budget_exhaustion
budget_exhaustion-Effect m =
    elim (Bool-cases (leb m.thresholds.budget_exhaustion m.budget_hard_stops)) [
      | inl enough ↦ rw (enough, check_budget_exhaustion) (emit-Effect _ _ _ _ m)
      | inr few ↦ rw (few, check_budget_exhaustion) (idle budget_exhaustion_pattern m)
    ]

-- What the four checks do together.
record AllChecked (m m' : Monitor) : Type 0 where
  same_thresholds : m'.thresholds ≡ m.thresholds
  same_calls : m'.tool_calls ≡ m.tool_calls
  same_stops : m'.budget_hard_stops ≡ m.budget_hard_stops
  denied : raised denied_operation_storm m'.events ≡ (
      raised denied_operation_storm m.events
      || leb m.thresholds.denied_storm (denied_count m.tool_calls))
  exhausted : raised budget_exhaustion_pattern m'.events ≡ (
      raised budget_exhaustion_pattern m.events
      || leb m.thresholds.budget_exhaustion m.budget_hard_stops)
  single : Single m.events → Single m'.events

check_all-AllChecked : (m : Monitor) → AllChecked m (check_all m)
unfolding check_all same_pattern
check_all-AllChecked m =
    let (f1, e1) = repeated_tool_calls-Effect m in
    let (f2, e2) = failing_gate-Effect (check_repeated_tool_calls m) in
    let m2 = check_repeated_failing_gate (check_repeated_tool_calls m) in
    let e3 = denied_storm-Effect m2 in
    let e4 = budget_exhaustion-Effect (check_denied_storm m2) in
    let thresholds2 = e2.same_thresholds ∙ e1.same_thresholds in
    let calls2 = e2.same_calls ∙ e1.same_calls in
    let fired3 : leb m2.thresholds.denied_storm (denied_count m2.tool_calls)
        ≡ leb m.thresholds.denied_storm (denied_count m.tool_calls) =
      rw (thresholds2, calls2) refl in
    let m3 = check_denied_storm m2 in
    let fired4 : leb m3.thresholds.budget_exhaustion m3.budget_hard_stops
        ≡ leb m.thresholds.budget_exhaustion m.budget_hard_stops =
      rw (e3.same_thresholds ∙ thresholds2, e3.same_stops ∙ e2.same_stops ∙ e1.same_stops) refl in
    record {
      same_thresholds =
          e4.same_thresholds ∙ e3.same_thresholds ∙ e2.same_thresholds ∙ e1.same_thresholds;
      same_calls = e4.same_calls ∙ e3.same_calls ∙ e2.same_calls ∙ e1.same_calls;
      same_stops = e4.same_stops ∙ e3.same_stops ∙ e2.same_stops ∙ e1.same_stops;
      denied = ground (
        arith,
        e1.raises denied_operation_storm,
        e2.raises denied_operation_storm,
        e3.raises denied_operation_storm,
        e4.raises denied_operation_storm,
        fired3,
      );
      exhausted = ground (
        arith,
        e1.raises budget_exhaustion_pattern,
        e2.raises budget_exhaustion_pattern,
        e3.raises budget_exhaustion_pattern,
        e4.raises budget_exhaustion_pattern,
        fired4,
      );
      single = λ s. e4.single (e3.single (e2.single (e1.single s)));
    }

-- The events say at every moment whether each threshold is reached.
pub record IsSound (m : Monitor) : Type 0 where
  denied :
      raised denied_operation_storm m.events
      ≡ leb m.thresholds.denied_storm (denied_count m.tool_calls)
  exhausted :
      raised budget_exhaustion_pattern m.events
      ≡ leb m.thresholds.budget_exhaustion m.budget_hard_stops
  single : Single m.events

pub data Session {A : Type 0} (hash_args : A → String) (run_id : String) (t : Thresholds)
    : Monitor → Type 0 where
  opened : Session hash_args run_id t (new_monitor run_id t)
  tool_call :
      {m : Monitor} (tool_name : String) (args : A) (succeeded denied : Bool)
      → Session hash_args run_id t m
      → Session hash_args run_id t (record_tool_call hash_args tool_name args succeeded denied m)
  gate_result :
      {m : Monitor} (gate_id : String) (passed evidence_changed : Bool)
      → Session hash_args run_id t m
      → Session hash_args run_id t (record_gate_result gate_id passed evidence_changed m)
  hard_stop :
      {m : Monitor}
      → Session hash_args run_id t m
      → Session hash_args run_id t (record_budget_hard_stop m)

denied_count-snoc :
    (rs : List ToolCallRecord) (r : ToolCallRecord) → denied_count rs ≤ denied_count (rs ++ r ∷ [])
unfolding denied_count
denied_count-snoc [] r = omega arith
denied_count-snoc (x ∷ xs) r = ground (arith, denied_count-snoc xs r)

latch : (t a b : ℕ) → a ≤ b → (leb t a || leb t b) ≡ leb t b
latch t a b h = ground arith

-- A change that lowers no count, followed by the checks, keeps the events sound.
checked-IsSound :
    (m n : Monitor)
    → n.thresholds ≡ m.thresholds
    → n.events ≡ m.events
    → denied_count m.tool_calls ≤ denied_count n.tool_calls
    → m.budget_hard_stops ≤ n.budget_hard_stops
    → IsSound m
    → IsSound (check_all n)
checked-IsSound m n same_t same_e more_d more_s s =
    let c = check_all-AllChecked n in
    record {
      denied =
          rw (c.same_thresholds, c.same_calls, c.denied, same_e, s.denied, same_t)
            (latch m.thresholds.denied_storm _ _ more_d);
      exhausted =
          rw (c.same_thresholds, c.same_stops, c.exhausted, same_e, s.exhausted, same_t)
            (latch m.thresholds.budget_exhaustion _ _ more_s);
      single = c.single (subst Single (sym same_e) s.single);
    }

-- With thresholds above 0, at every moment of a session: the storm of denied operations is reported
-- exactly if as many calls were denied as its threshold says, the exhaustion of the budget exactly if
-- as many hard stops were recorded as its threshold says, and no pattern is reported twice.
pub Session-IsSound :
    {A : Type 0} (hash_args : A → String) (run_id : String) (t : Thresholds) (m : Monitor)
    → 0 < t.denied_storm
    → 0 < t.budget_exhaustion
    → Session hash_args run_id t m
    → IsSound m
unfolding new_monitor record_tool_call record_gate_result record_budget_hard_stop
Session-IsSound hash_args run_id t m pos_d pos_s opened = record {
  denied = ground arith;
  exhausted = ground arith;
  single = tt;
}
Session-IsSound hash_args run_id t m pos_d pos_s (tool_call {m = n} tool args ok denied s) =
    let r : ToolCallRecord = record {
      tool_name = tool;
      args_hash = hash_args args;
      succeeded = ok;
      denied = denied;
    } in
    checked-IsSound n (record n { tool_calls = n.tool_calls ++ r ∷ [] }) refl refl
      (denied_count-snoc n.tool_calls r) (omega arith)
      (Session-IsSound hash_args run_id t n pos_d pos_s s)
Session-IsSound hash_args run_id t m pos_d pos_s (gate_result {m = n} gate passed changed s) =
    let g : GateRecord = record { gate_id = gate; passed = passed; evidence_changed = changed } in
    checked-IsSound n (record n { gate_records = n.gate_records ++ g ∷ [] }) refl refl (omega arith)
      (omega arith) (Session-IsSound hash_args run_id t n pos_d pos_s s)
Session-IsSound hash_args run_id t m pos_d pos_s (hard_stop {m = n} s) =
    checked-IsSound n (record n { budget_hard_stops = n.budget_hard_stops + 1 }) refl refl
      (omega arith) (omega arith) (Session-IsSound hash_args run_id t n pos_d pos_s s)
