-- ===== src/Indexing/Reconciler.antt =====
-- src/llm_sca_tooling/indexing/backends/fact_reconciler.py: the facts of several backends, grouped by
-- key, with one node a key, and one edge a key unless the edges of the key differ in their target.
use Prim.Native.String.{◌++◌ as append}
use llm_sca_tooling.Indexing.Facts.{
  GraphNode, GraphEdge, IndexingDiagnostic, BackendResult, AgreementState, EvidenceAgreement,
  ReconciledFacts, confirmed, candidate, conflicting,
}
use llm_sca_tooling.Prelude.{
  String, Option, none, some, List, [], ◌∷◌, ◌++◌, if◌then◌else◌, map, str_eq, ltb, length,
}
use llm_sca_tooling.Prelude.Dict.{Dict, lookup, insert}
use llm_sca_tooling.Prelude.Text.{codes, text_less}
use llm_sca_tooling.Prelude.Floats.{Floats}

abbrev agreement_text : AgreementState → String
agreement_text confirmed = "confirmed"
agreement_text candidate = "candidate"
agreement_text conflicting = "conflicting"

-- Into a list of texts in order, unless it is there.
abbrev pub insert_text : String → List String → List String
insert_text s [] = s ∷ []
insert_text s (t ∷ ts) =
    if str_eq s t
    then t ∷ ts
    else if text_less (codes s) (codes t)
    then s ∷ t ∷ ts
    else t ∷ insert_text s ts

-- `sorted(set(xs))`
unfoldable pub sorted_set : List String → List String
sorted_set [] = []
sorted_set (x ∷ xs) = insert_text x (sorted_set xs)

-- `sorted(groups.items())`; the keys of a dict differ, so they decide the order.
abbrev pub insert_item : {V : Type 0} → String × V → Dict V → Dict V
insert_item e [] = e ∷ []
insert_item e (g ∷ gs) =
    if text_less (codes e.0) (codes g.0) then e ∷ g ∷ gs else g ∷ insert_item e gs

unfoldable pub sorted_items : {V : Type 0} → Dict V → Dict V
sorted_items [] = []
sorted_items (e ∷ d) = insert_item e (sorted_items d)

-- `groups.setdefault(key, []).append(item)`
unfoldable pub add_to : {V : Type 0} → String → V → Dict (List V) → Dict (List V)
add_to key v groups =
    let old : List _ = elim (lookup key groups) [ none ↦ [] | some vs ↦ vs ] in
    insert key (old ++ v ∷ []) groups

-- The loop over facts of one result.
unfoldable pub add_facts :
    {V : Type 0}
    → (V → String)
    → String
    → List V
    → Dict (List (String × V))
    → Dict (List (String × V))
unfolding add_to
add_facts key backend [] groups = groups
add_facts key backend (v ∷ vs) groups =
    add_facts key backend vs (add_to (key v) (backend, v) groups)

abbrev or_empty : Option String → String
or_empty none = ""
or_empty (some s) = s

-- `a or b`, for an optional text.
abbrev or_else : Option String → String → String
or_else (some (String.◌∷◌ c s)) b = String.◌∷◌ c s
or_else none b = b
or_else (some String.[]) b = b

-- The agreement of a fact without conflict.
unfoldable pub agreed : List String → AgreementState
agreed [] = candidate
agreed (b ∷ []) = candidate
agreed (b ∷ c ∷ bs) = confirmed

module _ {F J R : Type 0} where
  unfoldable pub node_key : GraphNode F J R → String
  node_key n =
      append n.node_type
        (append "|" (append (or_empty n.file_path) (append "|" (or_else n.qualified_name n.label))))

  unfoldable pub edge_key : GraphEdge F J R → String
  edge_key e = append e.edge_type (append "|" e.source_id)

  -- The loop over the results, for the facts of one sort.
  unfoldable pub group_facts :
      {V : Type 0}
      → (V → String)
      → (BackendResult F J R → List V)
      → List (BackendResult F J R)
      → Dict (List (String × V))
      → Dict (List (String × V))
  unfolding add_facts
  group_facts key facts [] groups = groups
  group_facts key facts (r ∷ rs) groups =
      group_facts key facts rs (add_facts key r.backend_id (facts r) groups)

  abbrev all_diagnostics : List (BackendResult F J R) → List IndexingDiagnostic
  all_diagnostics [] = []
  all_diagnostics (r ∷ rs) = r.diagnostics ++ all_diagnostics rs

-- The backends of a group, in order and once each.
abbrev pub contributors_of : {V : Type 0} → List (String × V) → List String
contributors_of group = sorted_set (map (λ e. e.0) group)

module _ {F : Type 0} ⦃f : Floats F⦄ where
  open f use {less}

  -- `max(items, key=...)`, the first greatest one, of a first item and the others.
  unfoldable pub max_by : {V : Type 0} → (V → F) → V → List V → V
  max_by key best [] = best
  max_by key best (v ∷ vs) = max_by key (if less (key best) (key v) then v else best) vs

  -- `min(...)`
  unfoldable pub min_of : F → List F → F
  min_of best [] = best
  min_of best (x ∷ xs) = min_of (if less x best then x else best) xs

abbrev annotated :
    {J : Type 0}
    → (texts : List String → J) (text : String → J) → Dict J
    → List String
    → AgreementState
    → Dict J
annotated texts text props backends agreement =
    insert "agreement" (text (agreement_text agreement))
      (insert "contributing_backends" (texts backends) props)

-- `texts` and `text` are the JSON values of a list of texts and of a text.
module _ {F J R : Type 0} ⦃f : Floats F⦄ (texts : List String → J) (text : String → J) where
  unfoldable pub annotate_node : GraphNode F J R → List String → GraphNode F J R
  unfolding agreed
  annotate_node n backends = record n {
    properties = annotated texts text n.properties backends (agreed backends);
  }

  unfoldable pub annotate_edge : GraphEdge F J R → List String → AgreementState → GraphEdge F J R
  annotate_edge e backends agreement = record e {
    properties = annotated texts text e.properties backends agreement;
  }

  -- The loop over the sorted groups of nodes; a group is never empty.
  unfoldable pub merge_nodes :
      Dict (List (String × GraphNode F J R)) → List (GraphNode F J R) × List (EvidenceAgreement F)
  unfolding max_by annotate_node sorted_set agreed
  merge_nodes [] = ([], [])
  merge_nodes ((key, []) ∷ groups) = merge_nodes groups
  merge_nodes ((key, b ∷ bs) ∷ groups) =
      let (nodes, agreements) = merge_nodes groups in
      let contributors = contributors_of (b ∷ bs) in
      let node = (max_by (λ e. e.1.confidence) b bs).1 in
      let evidence : EvidenceAgreement F = record {
        fact_id = key;
        fact_type = "node";
        contributing_backends = contributors;
        agreement = agreed contributors;
        merged_confidence = node.confidence;
        conflict_notes = [];
      } in
      (annotate_node node contributors ∷ nodes, evidence ∷ agreements)

  -- What a group of edges comes to: its edges, its agreement, and a warning on a conflict.
  unfoldable pub merge_group :
      String
      → String × GraphEdge F J R
      → List (String × GraphEdge F J R)
      → List (GraphEdge F J R) × EvidenceAgreement F × List IndexingDiagnostic
  unfolding max_by min_of annotate_edge sorted_set agreed
  merge_group key b bs =
      let contributors = contributors_of (b ∷ bs) in
      let target_ids = sorted_set (map (λ e. e.1.target_id) (b ∷ bs)) in
      let edge = (max_by (λ e. e.1.confidence) b bs).1 in
      let state = agreed contributors in
      let warning : IndexingDiagnostic = record {
        severity = "warning";
        code = "CROSS_CHECK_CONFLICT";
        message = append "conflicting edge targets for " key;
      } in
      if ltb 1 (length target_ids)
      then (
        map (λ e. annotate_edge e.1 contributors conflicting) (b ∷ bs),
        record {
          fact_id = key;
          fact_type = "edge";
          contributing_backends = contributors;
          agreement = conflicting;
          merged_confidence = min_of b.1.confidence (map (λ e. e.1.confidence) bs);
          conflict_notes = target_ids;
        },
        warning ∷ [],
      )
      else (
        annotate_edge edge contributors state ∷ [],
        record {
          fact_id = key;
          fact_type = "edge";
          contributing_backends = contributors;
          agreement = state;
          merged_confidence = edge.confidence;
          conflict_notes = [];
        },
        [],
      )

  -- The loop over the sorted groups of edges.
  unfoldable pub merge_edges :
      Dict (List (String × GraphEdge F J R))
      → List (GraphEdge F J R) × List (EvidenceAgreement F) × List IndexingDiagnostic
  unfolding merge_group
  merge_edges [] = ([], [], [])
  merge_edges ((key, []) ∷ groups) = merge_edges groups
  merge_edges ((key, b ∷ bs) ∷ groups) =
      let (edges, agreements, warnings) = merge_edges groups in
      let (here, evidence, warned) = merge_group key b bs in
      (here ++ edges, evidence ∷ agreements, warned ++ warnings)

  unfoldable pub reconcile : List (BackendResult F J R) → ReconciledFacts F J R
  unfolding merge_nodes merge_edges sorted_items group_facts node_key edge_key
  reconcile results =
      let (nodes, node_agreements) =
        merge_nodes (sorted_items (group_facts node_key (λ r. r.nodes) results [])) in
      let (edges, edge_agreements, warnings) =
        merge_edges (sorted_items (group_facts edge_key (λ r. r.edges) results [])) in
      record {
        nodes = nodes;
        edges = edges;
        agreements = node_agreements ++ edge_agreements;
        diagnostics = all_diagnostics results ++ warnings;
      }
