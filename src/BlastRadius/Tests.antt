-- ===== src/BlastRadius/Tests.antt =====
-- A small call graph: a calls b and c, c calls d, and the edge from a to e is uncertain.
use llm_sca_tooling.BlastRadius.Termination.{IsClosed, traverse-total}
use llm_sca_tooling.BlastRadius.Invariant.{IsValid, traverse-IsValid}
use llm_sca_tooling.BlastRadius.Policy.{policy_for}
use mathlib.Core.Option
use llm_sca_tooling.Prelude.{
  ℕ, String, ◌≡◌, refl, true, none, some, List, [], ◌∷◌, arith, str_eq, if◌then◌else◌, contains,
  map, Bool-cases, inl, inr,
}
use llm_sca_tooling.BlastRadius.Graph.{
  DiGraph, EdgeData, TraversalPolicy, ChangeType, edge_type_of, confidence_of, node_type_of,
  infer_group,
}
use llm_sca_tooling.BlastRadius.Traversal.{
  Search, traverse, traverse_from, bfs_from, bfs_loop, round, visit_all, visit, impact, next_entry,
  follows,
}

program : Unit {0}
unfolding traverse traverse_from bfs_from bfs_loop round visit_all visit impact next_entry follows
    edge_type_of confidence_of node_type_of infer_group policy_for
program = tt

abbrev targets : String → List String
targets n = if str_eq n "a" then "b" ∷ "c" ∷ "e" ∷ [] else if str_eq n "c" then "d" ∷ [] else []

abbrev call : ℕ → EdgeData
call c = record { edge_type = some "calls"; type = none; confidence = some c }

abbrev graph : DiGraph
graph = record {
  has_node = contains ("a" ∷ "b" ∷ "c" ∷ "d" ∷ "e" ∷ []);
  successors = targets;
  edges = λ n m. if str_eq m "e" then call 300 else call 950;
  nodes = λ n. record { node_type = none; type = none };
}

abbrev policy : TraversalPolicy
policy = policy_for ChangeType.internal_implementation

final : Search
unfolding program
final = elim (traverse graph policy 700 8 ("a" ∷ [])) [
  | some s ↦ s
  | none ↦ record { confirmed = []; ambiguous = []; visited = []; queue = [] }
]

final_names :
    (map (λ r. r.node_id) final.confirmed ≡ "b" ∷ "c" ∷ "d" ∷ [])
    × (map (λ r. r.hop_distance) final.confirmed ≡ 1 ∷ 1 ∷ 2 ∷ [])
unfolding final
final_names = (refl, refl)

traverse-IsValid_example : IsValid graph policy 700 ("a" ∷ []) final
unfolding final
traverse-IsValid_example = traverse-IsValid graph policy 700 8 ("a" ∷ []) {s = final} refl

-- The edges of the graph, all of which lead to its nodes.
closed : IsClosed graph ("a" ∷ "b" ∷ "c" ∷ "d" ∷ "e" ∷ [])
closed n = elim (Bool-cases (str_eq n "a")) [
  | inl e ↦ rw e (refl, (refl, (refl, tt)))
  | inr e ↦ elim (Bool-cases (str_eq n "c")) [ inl f ↦ rw (e, f) (refl, tt) | inr f ↦ rw (e, f) tt ]
]

traverse-total_example : (s : Search) × (traverse graph policy 700 8 ("a" ∷ []) ≡ some s)
traverse-total_example =
    traverse-total graph policy 700 ("a" ∷ "b" ∷ "c" ∷ "d" ∷ "e" ∷ []) 8 ("a" ∷ []) closed
      (omega arith)

-- Two changed symbols, at most two hops: a reaches b and c, so that d, two hops from x by way of c, is
-- not looked for from x.
abbrev two_starts : DiGraph
two_starts = record graph {
  has_node = λ n. true;
  successors = λ n.
      if str_eq n "a"
      then "b" ∷ []
      else if str_eq n "b"
      then "c" ∷ []
      else if str_eq n "x"
      then "c" ∷ []
      else if str_eq n "c"
      then "d" ∷ []
      else [];
}

shadowed :
    Option.map
      (λ s. map (λ r. r.node_id) s.confirmed)
      (traverse two_starts (record policy { max_hops = 2 }) 700 8 ("a" ∷ "x" ∷ []))
    ≡ some ("b" ∷ "c" ∷ [])
unfolding program
shadowed = refl

alone :
    Option.map
      (λ s. map (λ r. r.node_id) s.confirmed)
      (traverse two_starts (record policy { max_hops = 2 }) 700 8 ("x" ∷ []))
    ≡ some ("c" ∷ "d" ∷ [])
unfolding program
alone = refl
