-- ===== src/Hardening/Risk.antt =====
-- src/llm_sca_tooling/hardening/cumulative_risk.py: patterns over the operations of a session. The
-- digest of a call's arguments is a parameter; an event's random name and time are left out.
use Prim.Native.String.{◌++◌ as append}
use llm_sca_tooling.Prelude.{
  ℕ, ◌+◌, ◌*◌, min, String, Bool, true, false, not, ◌&&◌, Option, none, some, List, [], ◌∷◌, ◌++◌,
  if◌then◌else◌, leb, any, str_eq, select, length,
}
use llm_sca_tooling.Prelude.Dict.{Dict, lookup, insert}

pub data Pattern : Type 0 where
  repeated_identical_tool_calls repeated_failing_gate_no_change : Pattern
  denied_operation_storm budget_exhaustion_pattern : Pattern

unfoldable pub same_pattern : Pattern → Pattern → Bool
same_pattern repeated_identical_tool_calls repeated_identical_tool_calls = true
same_pattern repeated_failing_gate_no_change repeated_failing_gate_no_change = true
same_pattern denied_operation_storm denied_operation_storm = true
same_pattern budget_exhaustion_pattern budget_exhaustion_pattern = true
same_pattern _ _ = false

-- `warn` and `pause`, the two actions that are taken.
pub data Action : Type 0 where
  warn pause : Action

-- `f"{key} x{count}"` and the like, before they are put into words.
pub data Contribution : Type 0 where
  calls : (key : String) → (count : ℕ) → Contribution
  gate_runs : (gate_id : Option String) → (count : ℕ) → Contribution
  denied_ops : ℕ → Contribution
  hard_stops : ℕ → Contribution

-- `min(1.0, count / (threshold * 2))` is the quotient of the two numbers of the score.
pub record CumulativeRiskEvent : Type 0 where
  pub run_id : String
  pub pattern_type : Pattern
  pub contributing : Contribution
  pub risk_score : ℕ × ℕ
  pub threshold_exceeded : Bool
  pub action_taken : Action

pub record ToolCallRecord : Type 0 where
  pub tool_name : String
  pub args_hash : String
  pub succeeded : Bool
  pub denied : Bool

pub record GateRecord : Type 0 where
  pub gate_id : String
  pub passed : Bool
  pub evidence_changed : Bool

pub record Thresholds : Type 0 where
  pub identical_calls : ℕ
  pub failing_gate : ℕ
  pub denied_storm : ℕ
  pub budget_exhaustion : ℕ

abbrev pub default_thresholds : Thresholds
default_thresholds = record {
  identical_calls = 5;
  failing_gate = 3;
  denied_storm = 5;
  budget_exhaustion = 2;
}

pub record Monitor : Type 0 where
  pub run_id : String
  pub thresholds : Thresholds
  pub tool_calls : List ToolCallRecord
  pub gate_records : List GateRecord
  pub budget_hard_stops : ℕ
  pub events : List CumulativeRiskEvent

unfoldable pub new_monitor : String → Thresholds → Monitor
new_monitor run_id thresholds = record {
  run_id = run_id;
  thresholds = thresholds;
  tool_calls = [];
  gate_records = [];
  budget_hard_stops = 0;
  events = [];
}

-- `pattern_type in existing`
unfoldable pub raised : Pattern → List CumulativeRiskEvent → Bool
unfolding same_pattern
raised p es = any (λ e. e.threshold_exceeded && same_pattern e.pattern_type p) es

unfoldable pub score : (count threshold : ℕ) → ℕ × ℕ
score count threshold = (min count (threshold * 2), threshold * 2)

unfoldable pub emit : Pattern → Contribution → ℕ × ℕ → Action → Monitor → Monitor
unfolding raised
emit p contributing risk_score action m = if raised p m.events then m else record m {
  events =
      m.events
      ++ record {
        run_id = m.run_id;
        pattern_type = p;
        contributing = contributing;
        risk_score = risk_score;
        threshold_exceeded = true;
        action_taken = action;
      }
        ∷ [];
}

-- `counts[key] += 1`
unfoldable pub bump : String → Dict ℕ → Dict ℕ
bump key counts = insert key (elim (lookup key counts) [ none ↦ 1 | some n ↦ n + 1 ]) counts

unfoldable pub count_calls : Dict ℕ → List ToolCallRecord → Dict ℕ
unfolding bump
count_calls counts [] = counts
count_calls counts (r ∷ rs) =
    count_calls (bump (append r.tool_name (append ":" r.args_hash)) counts) rs

-- The first key that is called often enough.
unfoldable pub find_repeated : ℕ → Dict ℕ → Option (String × ℕ)
find_repeated threshold [] = none
find_repeated threshold ((key, count) ∷ counts) =
    if leb threshold count then some (key, count) else find_repeated threshold counts

unfoldable pub check_repeated_tool_calls : Monitor → Monitor
unfolding emit count_calls find_repeated score
check_repeated_tool_calls m =
    let threshold = m.thresholds.identical_calls in
    elim (find_repeated threshold (count_calls [] m.tool_calls)) [
      | none ↦ m
      | some (key, count) ↦
          emit repeated_identical_tool_calls (calls key count) (score count threshold) warn m
    ]

-- The loop over the gate records, the last one first, with `gate_id` and `consecutive`.
unfoldable pub failing_run : Option String → ℕ → List GateRecord → Option String × ℕ
failing_run gate consecutive [] = (gate, consecutive)
failing_run none consecutive (g ∷ gs) =
    let rest = failing_run (some g.gate_id) (consecutive + 1) gs in
    if not g.passed && not g.evidence_changed then rest else (none, consecutive)
failing_run (some id) consecutive (g ∷ gs) =
    let rest =
      failing_run (some id) (if str_eq g.gate_id id then consecutive + 1 else consecutive) gs in
    if not g.passed && not g.evidence_changed then rest else (some id, consecutive)

abbrev pub reversed : {A : Type 0} → List A → List A
reversed [] = []
reversed (x ∷ xs) = reversed xs ++ x ∷ []

unfoldable pub check_repeated_failing_gate : Monitor → Monitor
unfolding emit failing_run score
check_repeated_failing_gate m =
    let threshold = m.thresholds.failing_gate in
    let (gate, consecutive) = failing_run none 0 (reversed m.gate_records) in
    if leb threshold consecutive
    then emit repeated_failing_gate_no_change (gate_runs gate consecutive)
        (score consecutive threshold) warn m
    else m

unfoldable pub denied_count : List ToolCallRecord → ℕ
denied_count rs = length (select (λ r. r.denied) rs)

unfoldable pub check_denied_storm : Monitor → Monitor
unfolding emit score denied_count
check_denied_storm m =
    let threshold = m.thresholds.denied_storm in
    let denied = denied_count m.tool_calls in
    if leb threshold denied
    then emit denied_operation_storm (denied_ops denied) (score denied threshold) warn m
    else m

unfoldable pub check_budget_exhaustion : Monitor → Monitor
unfolding emit score
check_budget_exhaustion m =
    let threshold = m.thresholds.budget_exhaustion in
    let stops = m.budget_hard_stops in
    if leb threshold stops
    then emit budget_exhaustion_pattern (hard_stops stops) (score stops threshold) pause m
    else m

unfoldable pub check_all : Monitor → Monitor
unfolding check_repeated_tool_calls check_repeated_failing_gate check_denied_storm
    check_budget_exhaustion
check_all m =
    check_budget_exhaustion
      (check_denied_storm (check_repeated_failing_gate (check_repeated_tool_calls m)))

unfoldable pub record_gate_result : String → (passed evidence_changed : Bool) → Monitor → Monitor
unfolding check_all
record_gate_result gate_id passed evidence_changed m =
    let g : GateRecord = record {
      gate_id = gate_id;
      passed = passed;
      evidence_changed = evidence_changed;
    } in
    check_all (record m { gate_records = m.gate_records ++ g ∷ [] })

unfoldable pub record_budget_hard_stop : Monitor → Monitor
unfolding check_all
record_budget_hard_stop m = check_all (record m { budget_hard_stops = m.budget_hard_stops + 1 })

module _ {A : Type 0} (hash_args : A → String) where
  unfoldable pub record_tool_call : String → A → (succeeded denied : Bool) → Monitor → Monitor
  unfolding check_all
  record_tool_call tool_name args succeeded denied m =
      let r : ToolCallRecord = record {
        tool_name = tool_name;
        args_hash = hash_args args;
        succeeded = succeeded;
        denied = denied;
      } in
      check_all (record m { tool_calls = m.tool_calls ++ r ∷ [] })
