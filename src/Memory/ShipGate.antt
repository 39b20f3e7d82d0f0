-- ===== src/Memory/ShipGate.antt =====
-- src/llm_sca_tooling/memory/ship_gate.py: whether the memory does better than the baseline by three
-- points, and the weight that it has then.
use llm_sca_tooling.Prelude.{ℕ, String, Bool, if◌then◌else◌}
use llm_sca_tooling.Prelude.Floats.{Floats}

pub record MemoryShipGateResult (F : Type 0) : Type 0 where
  pub eval_run_id : String
  pub strategy_tested : String
  pub baseline_strategy : String
  pub pass_rate_strategy : F
  pub pass_rate_baseline : F
  pub delta_pp : F
  pub gate_passed : Bool
  pub context_budget_used : ℕ
  pub harness_condition_id : String
  pub computed_ts : String

module _ {F : Type 0} ⦃f : Floats F⦄ where
  open f use {leq, sub, quotient}

  -- `hcs` is the id of a new harness condition sheet.
  unfoldable pub evaluate_ship_gate :
      (hcs now run : String) (strategy baseline : F) (context_budget : ℕ) → MemoryShipGateResult F
  evaluate_ship_gate hcs now run strategy baseline context_budget =
      let delta = sub strategy baseline in
      record {
        eval_run_id = run;
        strategy_tested = "her_plus_eviction";
        baseline_strategy = "success_only";
        pass_rate_strategy = strategy;
        pass_rate_baseline = baseline;
        delta_pp = delta;
        gate_passed = leq (quotient 3 1) delta;
        context_budget_used = context_budget;
        harness_condition_id = hcs;
        computed_ts = now;
      }

  unfoldable pub memory_weight : MemoryShipGateResult F → F
  memory_weight gate = if gate.gate_passed then quotient 1 1 else quotient 0 1
