-- ===== src/BlastRadius/Traversal.antt =====
-- src/llm_sca_tooling/blast_radius/graph_traversal.py: `traverse` and `_bfs_from`. The two result
-- lists, `visited` and the queue, which the source mutates, are one record.
use llm_sca_tooling.Prelude.{
  ℕ, zero, suc, ◌+◌, String, Bool, true, not, Option, none, some, List, [], ◌∷◌, ◌++◌, ltb, leb,
  if◌then◌else◌, contains,
}
use llm_sca_tooling.BlastRadius.Graph.{
  DiGraph, TraversalPolicy, ImpactRecord, AmbiguousLinkRecord, analyser, heuristic, edge_type_of,
  confidence_of, node_type_of, infer_group,
}

-- An entry of the queue: a node, its hop, the path before it and the edge types along it.
pub record Entry : Type 0 where
  pub node : String
  pub hop : ℕ
  pub path : List String
  pub edges_used : List String

pub record Search : Type 0 where
  pub confirmed : List ImpactRecord
  pub ambiguous : List AmbiguousLinkRecord
  pub visited : List String
  pub queue : List Entry

-- An empty list of types follows every edge.
unfoldable pub follows : TraversalPolicy → String → Bool
follows p etype = elim p.follow_edge_types [ [] ↦ true | t ∷ ts ↦ contains (t ∷ ts) etype ]

module _ (g : DiGraph) (p : TraversalPolicy) (threshold : ℕ) where
  unfoldable pub impact : Entry → String → ImpactRecord
  impact e neighbor =
      let edge = g.edges e.node neighbor in
      let ntype = node_type_of (g.nodes neighbor) in
      record {
        group = infer_group ntype (edge_type_of edge);
        node_id = neighbor;
        node_type = ntype;
        path_from_changed_symbol = e.path ++ e.node ∷ [];
        hop_distance = e.hop + 1;
        confidence = if leb 900 (confidence_of edge) then analyser else heuristic;
        confirmed = true;
        edge_types_used = e.edges_used ++ edge_type_of edge ∷ [];
      }

  unfoldable pub next_entry : Entry → String → Entry
  next_entry e neighbor = record {
    node = neighbor;
    hop = e.hop + 1;
    path = e.path ++ e.node ∷ [];
    edges_used = e.edges_used ++ edge_type_of (g.edges e.node neighbor) ∷ [];
  }

  -- The body of the `for` loop.
  unfoldable pub visit : Entry → String → Search → Search
  unfolding impact next_entry
  visit e neighbor s =
      let edge = g.edges e.node neighbor in
      if contains s.visited neighbor
      then s
      else if ltb (confidence_of edge) threshold
      then record s {
        ambiguous =
            s.ambiguous
            ++ record {
              source_node_id = e.node;
              target_node_id = neighbor;
              edge_type = edge_type_of edge;
              confidence = confidence_of edge;
            }
              ∷ [];
      }
      else if not (follows p (edge_type_of edge))
      then s
      else record s {
        visited = neighbor ∷ s.visited;
        confirmed = s.confirmed ++ impact e neighbor ∷ [];
        queue = s.queue ++ next_entry e neighbor ∷ [];
      }

  unfoldable pub visit_all : Entry → List String → Search → Search
  visit_all e [] s = s
  visit_all e (n ∷ ns) s = visit_all e ns (visit e n s)

  -- One round of the `while` loop, after `queue.pop(0)`.
  unfoldable pub round : Entry → Search → Search
  round e s = if leb p.max_hops e.hop then s else visit_all e (g.successors e.node) s

  -- The `while` loop; `none` means that the fuel ran out.
  unfoldable pub bfs_loop : ℕ → Search → Option Search
  bfs_loop zero s = none
  bfs_loop (suc fuel) s = elim s.queue [
    | [] ↦ some s
    | e ∷ rest ↦ bfs_loop fuel (round e (record s { queue = rest }))
  ]

  unfoldable pub bfs_from : ℕ → String → Search → Option Search
  bfs_from fuel start s =
      bfs_loop fuel
        (record s { queue = record { node = start; hop = 0; path = []; edges_used = [] } ∷ [] })

  unfoldable pub traverse_from : ℕ → List String → Search → Option Search
  traverse_from fuel [] s = some s
  traverse_from fuel (start ∷ rest) s =
      if not (g.has_node start)
      then traverse_from fuel rest s
      else elim (bfs_from fuel start s) [ none ↦ none | some s' ↦ traverse_from fuel rest s' ]

  -- The two lists that `traverse` returns are `confirmed` and `ambiguous` of the final search.
  unfoldable pub traverse : ℕ → List String → Option Search
  traverse fuel changed =
      traverse_from fuel changed
        (record { confirmed = []; ambiguous = []; visited = changed; queue = [] })
