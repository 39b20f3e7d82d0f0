-- ===== src/Plugins/Tests.antt =====
-- Two plugins that each link the start to a node of their own.
use llm_sca_tooling.Prelude.{◌<◌, String, ◌≡◌, ◌⊎◌, refl, none, some, List, [], ◌∷◌, arith, length}
use mathlib.Core.Option
use llm_sca_tooling.Plugins.Traversal.{Link, Plugin, CrossLanguageTraversalResult, traverse_plugins}
use llm_sca_tooling.Plugins.Bounds.{traverse_plugins-total}

abbrev link : (target : String) → Link
link target = record {
  from_node_id = "a";
  to_node_id = target;
  via_interface_id = "i";
  edge_type = "calls";
  confidence = "parser";
}

abbrev plugins : List Plugin
plugins =
    record { plugin_id = "openapi"; links = λ n. link "b" ∷ link "c" ∷ [] }
    ∷ record { plugin_id = "grpc"; links = λ n. link "d" ∷ link "e" ∷ [] }
    ∷ []

-- A limit of one hop, and two hops: the second plugin is not stopped by the limit.
two_hops :
    Option.map (λ r. r.total_hops) (traverse_plugins 1 "heuristic" 5 "a" plugins none) ≡ some 2
unfolding traverse_plugins
two_hops = refl

traverse_plugins-total_example :
    (r : CrossLanguageTraversalResult) × (traverse_plugins 1 "heuristic" 5 "a" plugins none
      ≡ some r)
    × (r.total_hops ≡ length r.hops)
    × ((r.total_hops ≡ 0) ⊎ (r.total_hops < 3))
traverse_plugins-total_example =
    traverse_plugins-total 1 "heuristic" 5 "a" plugins none (omega arith)
