-- ===== src/Indexing/Tests.antt =====
-- Two backends that see one function, and one backend that sees two calls of it.
use llm_sca_tooling.Indexing.Facts.{GraphNode, GraphEdge, BackendResult}
use llm_sca_tooling.Prelude.Text.{text_less}
use llm_sca_tooling.Prelude.Dict.{lookup, insert}
use llm_sca_tooling.Prelude.{
  ℕ, String, some, List, [], ◌∷◌, ◌≡◌, refl, leb, ltb, min, max, ◌+◌, ◌-◌, ◌*◌, ◌/◌, length, map,
}
use llm_sca_tooling.Prelude.Floats.{Floats}
use llm_sca_tooling.Indexing.Reconciler.{
  reconcile, merge_nodes, merge_edges, sorted_items, group_facts, node_key, edge_key, add_facts,
  add_to, merge_group, max_by, min_of, annotate_edge, annotate_node, sorted_set, agreed,
}

abbrev milli : Floats ℕ
milli = record {
  leq = leb;
  less = ltb;
  add = λ a b. a + b;
  sub = λ a b. a - b;
  least = min;
  greatest = max;
  quotient = λ a b. 1000 * a / b;
  fixed = λ a. "0.90";
}

abbrev node : (confidence : ℕ) → GraphNode ℕ String String
node confidence = record {
  node_type = "function";
  label = "f";
  qualified_name = some "m.f";
  file_path = some "m.py";
  confidence = confidence;
  properties = [];
  others = "";
}

abbrev calls : (target : String) → GraphEdge ℕ String String
calls target = record {
  edge_type = "calls";
  source_id = "m.f";
  target_id = target;
  confidence = 900;
  properties = [];
  others = "";
}

abbrev tree_sitter : BackendResult ℕ String String
tree_sitter = record {
  backend_id = "tree_sitter";
  nodes = node 700 ∷ [];
  edges = calls "m.g" ∷ calls "m.h" ∷ [];
  diagnostics = [];
}

abbrev pyright : BackendResult ℕ String String
pyright = record { backend_id = "pyright"; nodes = node 950 ∷ []; edges = []; diagnostics = [] }

abbrev joined : List String → String
joined xs = "backends"

abbrev text : String → String
text s = s

-- Two calls by one function, of a single backend, are a conflict.
reconciled_once :
    let facts = reconcile ⦃f = milli⦄ joined text (tree_sitter ∷ []) in
    (length facts.nodes ≡ 1)
    × (length facts.edges ≡ 2)
    × (map (λ d. d.code) facts.diagnostics ≡ "CROSS_CHECK_CONFLICT" ∷ [])
unfolding reconcile merge_nodes merge_edges sorted_items group_facts node_key edge_key add_facts
    add_to lookup insert merge_group max_by min_of annotate_edge annotate_node sorted_set agreed
    text_less
reconciled_once = (refl, refl, refl)
