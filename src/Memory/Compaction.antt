-- ===== src/Memory/Compaction.antt =====
-- src/llm_sca_tooling/memory/eviction/compactor.py: a pass over the trajectories of a repository
-- that expires, promotes and demotes. A time is an ISO text, compared as a text.
use llm_sca_tooling.Prelude.{
  ℕ, String, ◌+◌, Bool, false, not, ◌&&◌, Option, none, some, List, [], ◌∷◌, if◌then◌else◌, map,
  select, length, str_eq, contains, distinct_texts,
}
use llm_sca_tooling.Prelude.Dict.{Dict, lookup, insert}
use llm_sca_tooling.Prelude.Text.{text_less, codes}
use llm_sca_tooling.Prelude.Floats.{Floats}
use llm_sca_tooling.Memory.Model.{TrajectoryRecord, EvictionPolicy, MemoryCompactionReport}
use llm_sca_tooling.Memory.Store.{MemoryStore, is_set, all_trajectories, update_trajectory}

-- `ts and ts < now`
unfoldable pub is_past : String → Option String → Bool
unfolding text_less is_set
is_past now none = false
is_past now (some ts) = is_set (some ts) && text_less (codes ts) (codes now)

abbrev count_utility : List TrajectoryRecord → Dict ℕ → Dict ℕ
count_utility [] dist = dist
count_utility (t ∷ ts) dist =
    let old : ℕ = elim (lookup t.utility dist) [ none ↦ 0 | some n ↦ n ] in
    count_utility ts (insert t.utility (old + 1) dist)

-- The store and the counters while the loop runs.
pub record Pass (J : Type 0) : Type 0 where
  pub store : MemoryStore J
  pub promoted : ℕ
  pub demoted : ℕ
  pub expired : ℕ

-- `store.update_trajectory(...)`, unless the run is dry.
unfoldable pub update_unless :
    {J : Type 0}
    → Bool
    → String
    → (TrajectoryRecord → TrajectoryRecord)
    → MemoryStore J
    → MemoryStore J
unfolding update_trajectory
update_unless dry tid change s = if dry then s else (update_trajectory tid change s).0

module _ {F : Type 0} ⦃f : Floats F⦄ where
  open f use {leq, less, add, sub, least, greatest, quotient}

  unfoldable pub utility_of : String → F
  utility_of u =
      if str_eq u "high"
      then quotient 1 1
      else if str_eq u "medium"
      then quotient 1 2
      else if str_eq u "low"
      then quotient 1 10
      else quotient 3 10

  unfoldable pub compute_utility_score : TrajectoryRecord → EvictionPolicy F → F
  unfolding utility_of
  compute_utility_score t policy =
      let bonus =
        if contains ("resolved" ∷ "resolved_with_risk" ∷ []) t.outcome
        then quotient 1 5
        else quotient 0 1 in
      let penalty = if t.relabelled then policy.relabelled_penalty else quotient 0 1 in
      greatest (quotient 0 1)
        (least (quotient 1 1) (sub (add (utility_of t.utility) bonus) penalty))

  module _ {J : Type 0} where
    -- The body of the loop.
    unfoldable pub compact_one :
        Bool → String → EvictionPolicy F → TrajectoryRecord → Pass J → Pass J
    unfolding is_past compute_utility_score update_unless
    compact_one dry now policy t p =
        let score = compute_utility_score t policy in
        let change : (TrajectoryRecord → TrajectoryRecord) → MemoryStore J =
          λ g. update_unless dry t.trajectory_id g p.store in
        if is_past now t.expiry_ts
        then record p {
          expired = p.expired + 1;
          store = change λ r. record r { review_state = "expired" };
        }
        else if leq policy.utility_threshold_keep score
        then (if not (str_eq t.utility "high")
            then record p {
              promoted = p.promoted + 1;
              store = change λ r. record r { utility = "high" };
            }
            else p)
        else if less score policy.utility_threshold_demote && not (str_eq t.utility "low")
        then record p { demoted = p.demoted + 1; store = change λ r. record r { utility = "low" } }
        else p

    unfoldable pub compact_all :
        Bool → String → EvictionPolicy F → List TrajectoryRecord → Pass J → Pass J
    unfolding compact_one
    compact_all dry now policy [] p = p
    compact_all dry now policy (t ∷ ts) p =
        compact_all dry now policy ts (compact_one dry now policy t p)

    -- `now` is read once for the loop and once, as `created`, for the report.
    unfoldable pub compact :
        (repo : String) (policy : EvictionPolicy F) (dry : Bool) (now created : String)
        → MemoryStore J
        → MemoryStore J × MemoryCompactionReport
    unfolding compact_all all_trajectories
    compact repo policy dry now created s =
        let trajectories = all_trajectories (some repo) s in
        let start : Pass J = record { store = s; promoted = 0; demoted = 0; expired = 0 } in
        let done = compact_all dry now policy trajectories start in
        let final = all_trajectories (some repo) done.store in
        (
          done.store,
          record {
            repo_id = repo;
            initial_count = length trajectories;
            promoted_count = done.promoted;
            demoted_count = done.demoted;
            expired_count = done.expired;
            final_count = length (select (λ t. not (str_eq t.review_state "expired")) final);
            utility_distribution = count_utility final [];
            outcome_diversity_achieved = length (distinct_texts (map (λ t. t.outcome) final));
            dry_run = dry;
            created_ts = created;
          },
        )
