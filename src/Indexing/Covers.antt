-- ===== src/Indexing/Covers.antt =====
-- The reconciliation of indexing/backends/fact_reconciler.py as a whole: every fact that a backend
-- gives is covered by one of the result.
use mathlib.Core.List.{Memᴰ}
use llm_sca_tooling.Indexing.Facts.{GraphNode, GraphEdge}
use llm_sca_tooling.Prelude.{false, List, ◌≡◌}
use llm_sca_tooling.Prelude.Floats.{Floats}
use llm_sca_tooling.Prelude.Dict.{Dict}
use llm_sca_tooling.Indexing.Reconciler.{node_key, edge_key}

module _ {F J R : Type 0} ⦃f : Floats F⦄ where
  open f use {less}

  -- A node of the same key, and of no smaller confidence.
  abbrev pub CoversNode : List (GraphNode F J R) → GraphNode F J R → Type 0
  CoversNode nodes n =
      (m : GraphNode F J R) × Memᴰ m nodes
      × (node_key m ≡ node_key n)
      × (less m.confidence n.confidence ≡ false)

  -- An edge of the same key and target, and of no smaller confidence.
  abbrev pub CoversEdge : List (GraphEdge F J R) → GraphEdge F J R → Type 0
  CoversEdge edges e =
      (m : GraphEdge F J R) × Memᴰ m edges
      × (edge_key m ≡ edge_key e)
      × (m.target_id ≡ e.target_id)
      × (less m.confidence e.confidence ≡ false)
