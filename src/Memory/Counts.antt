-- ===== src/Memory/Counts.antt =====
-- The counters of the compaction report of memory/eviction/compactor.py, and its dry run.
use llm_sca_tooling.Memory.Store.{MemoryStore, all_trajectories}
use llm_sca_tooling.Prelude.{
  String, ◌+◌, ◌≤◌, Bool, true, List, [], ◌∷◌, ◌≡◌, refl, length, arith, ℕ, false, some,
}
use llm_sca_tooling.Prelude.Floats.{Floats}
use llm_sca_tooling.Memory.Model.{TrajectoryRecord, EvictionPolicy}
use llm_sca_tooling.Memory.Compaction.{Pass, compact_one, compact_all, update_unless, compact}

-- One pass has counted what another has.
record IsAgreed {J : Type 0} (p q : Pass J) : Type 0 where
  promoted : p.promoted ≡ q.promoted
  demoted : p.demoted ≡ q.demoted
  expired : p.expired ≡ q.expired

abbrev counted : {J : Type 0} → Pass J → ℕ
counted p = p.promoted + p.demoted + p.expired

module _ {F : Type 0} ⦃f : Floats F⦄ where
  open f use {leq, less}

  module _ {J : Type 0} where
    compact_one-IsAgreed :
        (a b : Bool) (now : String) (policy : EvictionPolicy F) (t : TrajectoryRecord)
        (p q : Pass J)
        → IsAgreed p q
        → IsAgreed (compact_one a now policy t p) (compact_one b now policy t q)
    unfolding compact_one
    compact_one-IsAgreed a b now policy t p q e = ground (arith, e)

    compact_all-IsAgreed :
        (a b : Bool) (now : String) (policy : EvictionPolicy F) (ts : List TrajectoryRecord)
        (p q : Pass J)
        → IsAgreed p q
        → IsAgreed (compact_all a now policy ts p) (compact_all b now policy ts q)
    unfolding compact_all
    compact_all-IsAgreed a b now policy [] p q e = e
    compact_all-IsAgreed a b now policy (t ∷ ts) p q e =
        compact_all-IsAgreed a b now policy ts (compact_one a now policy t p)
          (compact_one b now policy t q) (compact_one-IsAgreed a b now policy t p q e)

    counted-compact_one :
        (dry : Bool) (now : String) (policy : EvictionPolicy F) (t : TrajectoryRecord) (p : Pass J)
        → counted (compact_one dry now policy t p) ≤ counted p + 1
    unfolding compact_one
    counted-compact_one dry now policy t p = ground arith

    counted-compact_all :
        (dry : Bool) (now : String) (policy : EvictionPolicy F) (ts : List TrajectoryRecord)
        (p : Pass J)
        → counted (compact_all dry now policy ts p) ≤ counted p + length ts
    unfolding compact_all
    counted-compact_all dry now policy [] p = omega arith
    counted-compact_all dry now policy (t ∷ ts) p = omega (
      arith,
      counted-compact_all dry now policy ts (compact_one dry now policy t p),
      counted-compact_one dry now policy t p,
    )

    store-compact_all :
        (now : String) (policy : EvictionPolicy F) (ts : List TrajectoryRecord) (p : Pass J)
        → (compact_all true now policy ts p).store ≡ p.store
    unfolding compact_all compact_one update_unless
    store-compact_all now policy [] p = refl
    store-compact_all now policy (t ∷ ts) p =
        ground (arith, store-compact_all now policy ts (compact_one true now policy t p))

    -- A dry compaction leaves the store as it was; it counts what a real one of that store at that
    -- time promotes, demotes and expires; and together they are at most the trajectories listed.
    pub compact_dry-counts :
        (repo : String) (policy : EvictionPolicy F) (now created : String) (s : MemoryStore J)
        → let dry = compact repo policy true now created s in
          let real = compact repo policy false now created s in
          (dry.0 ≡ s)
          × (dry.1.promoted_count ≡ real.1.promoted_count)
          × (dry.1.demoted_count ≡ real.1.demoted_count)
          × (dry.1.expired_count ≡ real.1.expired_count)
          × (real.1.promoted_count + real.1.demoted_count + real.1.expired_count
              ≤ real.1.initial_count)
    unfolding compact
    compact_dry-counts repo policy now created s =
        let ts = all_trajectories (some repo) s in
        let start : Pass J = record { store = s; promoted = 0; demoted = 0; expired = 0 } in
        let agreed =
          compact_all-IsAgreed true false now policy ts start start
            (record { promoted = refl; demoted = refl; expired = refl }) in
        (
          store-compact_all now policy ts start,
          agreed.promoted,
          agreed.demoted,
          agreed.expired,
          omega (arith, counted-compact_all false now policy ts start),
        )
