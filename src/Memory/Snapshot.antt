-- ===== src/Memory/Snapshot.antt =====
-- The rows of the trajectory table of memory/store.py as a list, each under its own id.
use llm_sca_tooling.Prelude.{
  String, Bool, false, none, some, List, [], ◌∷◌, ◌≡◌, refl, map, select, contains, str_eq, eq_iff,
  arith,
}
use llm_sca_tooling.Prelude.Dict.{Dict, lookup, Each, Distinct, values}
use llm_sca_tooling.Memory.Model.{TrajectoryRecord}
use llm_sca_tooling.Memory.Store.{IsKeyed}

abbrev pub ids : List TrajectoryRecord → List String
ids ts = map (λ t. t.trajectory_id) ts

-- Different rows of a table, each under its own id.
abbrev pub IsSnapshot : Dict TrajectoryRecord → List TrajectoryRecord → Type 0
IsSnapshot d [] = Unit
IsSnapshot d (t ∷ ts) =
    (lookup t.trajectory_id d ≡ some t)
    × (contains (ids ts) t.trajectory_id ≡ false)
    × IsSnapshot d ts

cons-IsSnapshot :
    (k : String) (w : TrajectoryRecord) (d : Dict TrajectoryRecord) (ts : List TrajectoryRecord)
    → lookup k d ≡ none
    → IsSnapshot d ts
    → IsSnapshot ((k, w) ∷ d) ts
unfolding lookup
cons-IsSnapshot k w d [] h s = tt
cons-IsSnapshot k w d (t ∷ ts) h s =
    ground (arith, eq_iff k t.trajectory_id, cons-IsSnapshot k w d ts h)

values-absent :
    (k : String) (d : Dict TrajectoryRecord)
    → Each (λ j t. t.trajectory_id ≡ j) d
    → lookup k d ≡ none
    → contains (ids (values d)) k ≡ false
unfolding lookup
values-absent k [] e h = refl
values-absent k ((j, w) ∷ d) e h = ground (arith, values-absent k d)

pub values-IsSnapshot :
    (d : Dict TrajectoryRecord)
    → Distinct d
    → Each (λ j t. t.trajectory_id ≡ j) d
    → IsSnapshot d (values d)
unfolding lookup
values-IsSnapshot [] n e = tt
values-IsSnapshot ((j, w) ∷ d) n e =
    let rest = cons-IsSnapshot j w d (values d) n.0 (values-IsSnapshot d n.1 e.1) in
    ground (arith, values-absent j d e.1 n.0, eq_iff j j, rest)

select-absent :
    (p : TrajectoryRecord → Bool) (k : String) (ts : List TrajectoryRecord)
    → contains (ids ts) k ≡ false
    → contains (ids (select p ts)) k ≡ false
select-absent p k [] h = refl
select-absent p k (t ∷ ts) h = ground (arith, select-absent p k ts)

pub select-IsSnapshot :
    (p : TrajectoryRecord → Bool) (d : Dict TrajectoryRecord) (ts : List TrajectoryRecord)
    → IsSnapshot d ts
    → IsSnapshot d (select p ts)
select-IsSnapshot p d [] s = tt
select-IsSnapshot p d (t ∷ ts) s =
    ground (arith, select-IsSnapshot p d ts s.2, select-absent p t.trajectory_id ts s.1)

pub later-IsSnapshot :
    (k : String) (d d' : Dict TrajectoryRecord) (ts : List TrajectoryRecord)
    → ((j : String) → str_eq k j ≡ false → lookup j d' ≡ lookup j d)
    → contains (ids ts) k ≡ false
    → IsSnapshot d ts
    → IsSnapshot d' ts
later-IsSnapshot k d d' [] same absent s = tt
later-IsSnapshot k d d' (t ∷ ts) same absent s = ground (
  arith,
  eq_iff k t.trajectory_id,
  eq_iff t.trajectory_id k,
  same t.trajectory_id,
  later-IsSnapshot k d d' ts same,
)

pub contains-select :
    (p : TrajectoryRecord → Bool) (j : String) (d : Dict TrajectoryRecord)
    → IsKeyed (λ t. t.trajectory_id) d
    → contains (ids (select p (values d))) j
      ≡ (elim (lookup j d) as (λ _. Bool) [ none ↦ false | some t ↦ p t ])
unfolding lookup
contains-select p j [] k = refl
contains-select p j ((i, w) ∷ d) k =
    let rest = contains-select p j d (record { distinct = k.distinct.1; keyed = k.keyed.1 }) in
    ground (arith, eq_iff w.trajectory_id j, eq_iff i j, k.keyed.0, k.distinct.0, rest)
