-- ===== src/Governance/Budget.antt =====
-- src/llm_sca_tooling/operations/budget.py: limits on a session. The clock counts microseconds, and
-- `limit * 0.80` is compared without rounding.
use llm_sca_tooling.Prelude.{
  ℕ, ◌+◌, ◌*◌, ◌-◌, ◌≤◌, ◌≡◌, Bool, false, Option, none, some, List, [], ◌∷◌, if◌then◌else◌, leb,
  any, ◌⊎◌,
}

-- `BudgetConfig`, the limits.
pub record BudgetConfig : Type 0 where
  pub max_tokens : Option ℕ
  pub max_tool_calls : Option ℕ
  pub max_wall_seconds : Option ℕ
  pub max_retries : Option ℕ

pub data Level : Type 0 where
  ok soft_warning hard_stop : Level

pub record BudgetStatus : Type 0 where
  pub tokens_used : ℕ
  pub tokens_limit : Option ℕ
  pub tool_calls_used : ℕ
  pub tool_calls_limit : Option ℕ
  pub wall_used : ℕ
  pub wall_seconds_limit : Option ℕ
  pub retries_used : ℕ
  pub retries_limit : Option ℕ
  pub status : Level

pub record BudgetMonitor : Type 0 where
  pub config : BudgetConfig
  pub tokens_used : ℕ
  pub tool_calls_used : ℕ
  pub retries_used : ℕ
  pub start_time : ℕ

-- `used >= limit`, and the limit is set; both are given in one unit.
unfoldable pub reaches : ℕ → Option ℕ → Bool
reaches used none = false
reaches used (some limit) = leb limit used

-- `used >= limit * _SOFT_WARNING_PCT`
unfoldable pub nears : ℕ → Option ℕ → Bool
nears used none = false
nears used (some limit) = leb (limit * 4) (used * 5)

abbrev pub in_microseconds : Option ℕ → Option ℕ
in_microseconds none = none
in_microseconds (some s) = some (s * 1000000)

abbrev pub pairs : ℕ → BudgetMonitor → List (ℕ × Option ℕ)
pairs wall m =
    (m.tokens_used, m.config.max_tokens)
    ∷ (m.tool_calls_used, m.config.max_tool_calls)
    ∷ (m.retries_used, m.config.max_retries)
    ∷ (wall, in_microseconds m.config.max_wall_seconds)
    ∷ []

unfoldable pub level_of : List (ℕ × Option ℕ) → Level
unfolding reaches nears
level_of ps =
    if any (λ p. reaches p.0 p.1) ps
    then hard_stop
    else if any (λ p. nears p.0 p.1) ps
    then soft_warning
    else ok

unfoldable pub compute_status : ℕ → BudgetMonitor → BudgetStatus
unfolding level_of
compute_status now m =
    let wall = now - m.start_time in
    record {
      tokens_used = m.tokens_used;
      tokens_limit = m.config.max_tokens;
      tool_calls_used = m.tool_calls_used;
      tool_calls_limit = m.config.max_tool_calls;
      wall_used = wall;
      wall_seconds_limit = m.config.max_wall_seconds;
      retries_used = m.retries_used;
      retries_limit = m.config.max_retries;
      status = level_of (pairs wall m);
    }

unfoldable pub record_tokens : ℕ → ℕ → BudgetMonitor → BudgetMonitor × BudgetStatus
unfolding compute_status
record_tokens count now m =
    let m' = record m { tokens_used = m.tokens_used + count } in (m', compute_status now m')

unfoldable pub record_tool_call : ℕ → BudgetMonitor → BudgetMonitor × BudgetStatus
unfolding compute_status
record_tool_call now m =
    let m' = record m { tool_calls_used = m.tool_calls_used + 1 } in (m', compute_status now m')

unfoldable pub record_retry : ℕ → BudgetMonitor → BudgetMonitor × BudgetStatus
unfolding compute_status
record_retry now m =
    let m' = record m { retries_used = m.retries_used + 1 } in (m', compute_status now m')

unfoldable pub check_wall_clock : ℕ → BudgetMonitor → BudgetStatus
unfolding compute_status
check_wall_clock now m = compute_status now m

unfoldable pub reset : ℕ → BudgetMonitor → BudgetMonitor
reset now m = record m { tokens_used = 0; tool_calls_used = 0; retries_used = 0; start_time = now }

-- A call of one of the recording methods, at a time.
pub data Use : Type 0 where
  tokens : (count now : ℕ) → Use
  tool_call : (now : ℕ) → Use
  retry : (now : ℕ) → Use

unfoldable pub use_budget : Use → BudgetMonitor → BudgetMonitor
unfolding record_tokens record_tool_call record_retry
use_budget (tokens count now) m = (record_tokens count now m).0
use_budget (tool_call now) m = (record_tool_call now m).0
use_budget (retry now) m = (record_retry now m).0

unfoldable pub use_all : List Use → BudgetMonitor → BudgetMonitor
unfolding use_budget
use_all [] m = m
use_all (u ∷ us) m = use_all us (use_budget u m)

-- One budget is used at least as much as another, under the same limits.
record Grown (m n : BudgetMonitor) : Type 0 where
  config : n.config ≡ m.config
  start : n.start_time ≡ m.start_time
  tokens_le : m.tokens_used ≤ n.tokens_used
  calls_le : m.tool_calls_used ≤ n.tool_calls_used
  retries_le : m.retries_used ≤ n.retries_used

-- A limit is set, and what is used has come up to it.
abbrev pub Spent : ℕ → Option ℕ → Type 0
Spent used limit = (l : ℕ) × (limit ≡ some l) × (l ≤ used)

-- A monitor has reached one of its limits, at a time on a clock that counts microseconds.
abbrev pub AtLimit : ℕ → BudgetMonitor → Type 0
AtLimit now m =
    Spent m.tokens_used m.config.max_tokens
    ⊎ Spent m.tool_calls_used m.config.max_tool_calls
    ⊎ Spent m.retries_used m.config.max_retries
    ⊎ ((seconds : ℕ) × (m.config.max_wall_seconds ≡ some seconds)
        × (seconds * 1000000 ≤ now - m.start_time))
