-- ===== src/BlastRadius/Policy.antt =====
-- src/llm_sca_tooling/blast_radius/traversal_policy.py: the policy of each kind of change.
use llm_sca_tooling.Prelude.{ℕ, String, Bool, true, false, List, [], ◌∷◌, ◌++◌}
use llm_sca_tooling.BlastRadius.Graph.{
  ChangeType, internal_implementation, public_api_change, idl_schema_contract_change,
  security_sensitive_change, generated_file_change, mixed, unknown, TraversalPolicy,
}

abbrev pub common_edges : List String
common_edges = "calls" ∷ "dataflow" ∷ "tests" ∷ "exposes" ∷ "consumes" ∷ []

abbrev pub interface_edges : List String
interface_edges = "ffi" ∷ "implements" ∷ "exposes" ∷ "consumes" ∷ []

abbrev pub all_edges : List String
all_edges = common_edges ++ interface_edges ++ "warns_by" ∷ "documents" ∷ "satisfies" ∷ []

-- A policy whose other fields have the defaults of `TraversalPolicy`.
abbrev policy :
    ChangeType → ℕ → List String → (stop language repo sarif doc : Bool) → ℕ → TraversalPolicy
policy c hops edges stop language repo sarif doc multiplier = record {
  change_type = c;
  max_hops = hops;
  follow_edge_types = edges;
  stop_at_interface_boundary = stop;
  include_cross_language = language;
  include_cross_repo = repo;
  include_generated_files = true;
  include_test_nodes = true;
  include_sarif_reachability = sarif;
  include_doc_spec_links = doc;
  depth_multiplier_security = multiplier;
  confirmed_only = false;
}

unfoldable pub policy_for : ChangeType → TraversalPolicy
policy_for internal_implementation =
    policy internal_implementation 3 common_edges true false false false false 10
policy_for public_api_change =
    policy public_api_change 5 (common_edges ++ interface_edges) false true true false false 10
policy_for idl_schema_contract_change =
    policy idl_schema_contract_change 6 all_edges false true true true true 10
policy_for security_sensitive_change =
    policy security_sensitive_change 4 all_edges false true true true false 15
policy_for generated_file_change =
    policy generated_file_change 2 common_edges true false false false false 10
policy_for mixed = policy mixed 6 all_edges false true true true true 10
policy_for unknown = policy unknown 3 common_edges true false false false false 10
