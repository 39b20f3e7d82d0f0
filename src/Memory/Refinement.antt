-- ===== src/Memory/Refinement.antt =====
-- The compaction of memory/eviction/compactor.py against a description of one trajectory: what its
-- loop of updates by id does to the table, and what a dry run leaves as it was.
use mathlib.Core.Option
use llm_sca_tooling.Memory.Store.{is_set}
use llm_sca_tooling.Prelude.{String, Bool, some, if◌then◌else◌, str_eq, true}
use llm_sca_tooling.Prelude.Dict.{Dict}
use llm_sca_tooling.Prelude.Floats.{Floats}
use llm_sca_tooling.Memory.Model.{TrajectoryRecord, EvictionPolicy}
use llm_sca_tooling.Memory.Compaction.{compute_utility_score, is_past}

-- Whether `all_trajectories` lists a trajectory for a repository.
unfoldable pub is_listed : String → TrajectoryRecord → Bool
is_listed repo t = if is_set (some repo) then str_eq t.repo_id repo else true

module _ {F : Type 0} ⦃f : Floats F⦄ where
  open f use {leq, less}

  -- What a compaction makes of one trajectory.
  unfoldable pub judged : String → EvictionPolicy F → TrajectoryRecord → TrajectoryRecord
  judged now policy t =
      let score = compute_utility_score t policy in
      if is_past now t.expiry_ts
      then record t { review_state = "expired" }
      else if leq policy.utility_threshold_keep score
      then record t { utility = "high" }
      else if less score policy.utility_threshold_demote
      then record t { utility = "low" }
      else t
