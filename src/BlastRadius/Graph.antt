-- ===== src/BlastRadius/Graph.antt =====
-- src/llm_sca_tooling/blast_radius/models.py and graph_traversal.py: records, and the graph that is
-- searched. The graph is a NetworkX object, so an interface. A confidence is in thousandths.
use llm_sca_tooling.Prelude.{
  ℕ, String, Bool, ◌||◌, Option, none, some, List, if◌then◌else◌, str_eq, contains, [], ◌∷◌,
}
use llm_sca_tooling.Prelude.Text.{codes, lower, occurs}

pub data ChangeType : Type 0 where
  internal_implementation public_api_change idl_schema_contract_change : ChangeType
  security_sensitive_change generated_file_change mixed unknown : ChangeType

pub data ImpactGroup : Type 0 where
  direct_callers downstream_behaviours tests interfaces services repositories : ImpactGroup
  sarif_reachability linked_docs_specs : ImpactGroup

-- The attributes of an edge, each of which may be missing.
pub record EdgeData : Type 0 where
  pub edge_type : Option String
  pub type : Option String
  pub confidence : Option ℕ

pub record NodeData : Type 0 where
  pub node_type : Option String
  pub type : Option String

-- `nx.DiGraph`, as far as the search reads it.
pub record DiGraph : Type 0 where
  pub has_node : String → Bool
  pub successors : String → List String
  pub edges : String → String → EdgeData
  pub nodes : String → NodeData

-- `depth_multiplier_security` is in tenths.
pub record TraversalPolicy : Type 0 where
  pub change_type : ChangeType
  pub max_hops : ℕ
  pub follow_edge_types : List String
  pub stop_at_interface_boundary : Bool
  pub include_cross_language : Bool
  pub include_cross_repo : Bool
  pub include_generated_files : Bool
  pub include_test_nodes : Bool
  pub include_sarif_reachability : Bool
  pub include_doc_spec_links : Bool
  pub depth_multiplier_security : ℕ
  pub confirmed_only : Bool

pub data Confidence : Type 0 where
  analyser heuristic : Confidence

pub record ImpactRecord : Type 0 where
  pub group : ImpactGroup
  pub node_id : String
  pub node_type : String
  pub path_from_changed_symbol : List String
  pub hop_distance : ℕ
  pub confidence : Confidence
  pub confirmed : Bool
  pub edge_types_used : List String

pub record AmbiguousLinkRecord : Type 0 where
  pub source_node_id : String
  pub target_node_id : String
  pub edge_type : String
  pub confidence : ℕ

abbrev or_else : Option String → String → String
or_else none d = d
or_else (some s) d = s

-- `edge_data.get("edge_type", edge_data.get("type", "calls"))`
unfoldable pub edge_type_of : EdgeData → String
edge_type_of e = or_else e.edge_type (or_else e.type "calls")

unfoldable pub confidence_of : EdgeData → ℕ
confidence_of e = elim e.confidence [ none ↦ 500 | some c ↦ c ]

unfoldable pub node_type_of : NodeData → String
node_type_of n = or_else n.node_type (or_else n.type "symbol")

unfoldable pub infer_group : (node_type edge_type : String) → ImpactGroup
unfolding lower occurs
infer_group node_type edge_type =
    let low = lower (codes node_type) in
    if str_eq node_type "test" || occurs (codes "test") low
    then ImpactGroup.tests
    else if contains ("exposes" ∷ "consumes" ∷ "ffi" ∷ "implements" ∷ []) edge_type
    then ImpactGroup.interfaces
    else if contains ("document" ∷ "design_clause" ∷ "intent_node" ∷ []) node_type
    then ImpactGroup.linked_docs_specs
    else if occurs (codes "sarif") low || str_eq edge_type "warns_by"
    then ImpactGroup.sarif_reachability
    else ImpactGroup.direct_callers
