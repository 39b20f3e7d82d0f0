-- ===== src/Indexing/Facts.antt =====
-- src/llm_sca_tooling/schemas/graph.py, indexing/diagnostics.py and indexing/backends: the facts of a
-- backend and what the reconciler makes of them. The fields that it does not read are `others`; an
-- enumeration is its text.
use llm_sca_tooling.Prelude.{String, Option, List}
use llm_sca_tooling.Prelude.Dict.{Dict}

-- `confidence` is that of the provenance. `J` is the type of JSON values, `R` that of the other
-- fields.
pub record GraphNode (F J R : Type 0) : Type 0 where
  pub node_type : String
  pub label : String
  pub qualified_name : Option String
  pub file_path : Option String
  pub confidence : F
  pub properties : Dict J
  pub others : R

pub record GraphEdge (F J R : Type 0) : Type 0 where
  pub edge_type : String
  pub source_id : String
  pub target_id : String
  pub confidence : F
  pub properties : Dict J
  pub others : R

pub record IndexingDiagnostic : Type 0 where
  pub severity : String
  pub code : String
  pub message : String

pub record BackendResult (F J R : Type 0) : Type 0 where
  pub backend_id : String
  pub nodes : List (GraphNode F J R)
  pub edges : List (GraphEdge F J R)
  pub diagnostics : List IndexingDiagnostic

pub data AgreementState : Type 0 where
  confirmed candidate conflicting : AgreementState

pub record EvidenceAgreement (F : Type 0) : Type 0 where
  pub fact_id : String
  pub fact_type : String
  pub contributing_backends : List String
  pub agreement : AgreementState
  pub merged_confidence : F
  pub conflict_notes : List String

pub record ReconciledFacts (F J R : Type 0) : Type 0 where
  pub nodes : List (GraphNode F J R)
  pub edges : List (GraphEdge F J R)
  pub agreements : List (EvidenceAgreement F)
  pub diagnostics : List IndexingDiagnostic
