-- ===== src/Plugins/Traversal.antt =====
-- src/llm_sca_tooling/plugins/traversal.py: `CrossLanguageTraverser.traverse`. What a plugin gives for a
-- node is a parameter of the model.
use llm_sca_tooling.Prelude.{
  ℕ, zero, suc, ◌+◌, String, Bool, true, false, not, Option, none, some, List, [], ◌∷◌, ◌++◌,
  if◌then◌else◌, ltb, leb, length, str_eq, contains, select,
}

pub record Link : Type 0 where
  pub from_node_id : String
  pub to_node_id : String
  pub via_interface_id : String
  pub edge_type : String
  pub confidence : String

-- `plugin_id`, and `traverse(current, direction, workspace)` for a fixed direction and workspace.
pub record Plugin : Type 0 where
  pub plugin_id : String
  pub links : String → List Link

pub record TraversalHop : Type 0 where
  pub hop_number : ℕ
  pub from_node_id : String
  pub to_node_id : String
  pub via_interface_id : String
  pub plugin_id : String
  pub edge_type : String
  pub confidence : String

pub record AmbiguousCandidate : Type 0 where
  pub hop_number : ℕ
  pub from_node_id : String
  pub candidate_node_id : String
  pub plugin_id : String
  pub confidence : String

pub data TerminationReason : Type 0 where
  no_plugins max_hops no_more_links : TerminationReason

pub record CrossLanguageTraversalResult : Type 0 where
  pub hops : List TraversalHop
  pub total_hops : ℕ
  pub reached_node_ids : List String
  pub terminated_early : Bool
  pub termination_reason : TerminationReason
  pub ambiguous_candidates : List AmbiguousCandidate

-- `visited`, `queue`, `hops` and `ambiguous`.
pub record Walk : Type 0 where
  pub visited : List String
  pub queue : List String
  pub hops : List TraversalHop
  pub ambiguous : List AmbiguousCandidate

-- `_CONFIDENCE_ORDER.get(confidence, 0)`
unfoldable pub confidence_order : String → ℕ
confidence_order c = if str_eq c "analyser" then 1 else if str_eq c "parser" then 2 else 0

unfoldable pub target_of : String → Link → String
target_of current l = if str_eq l.from_node_id current then l.to_node_id else l.from_node_id

-- `plugins is None or plugin.plugin_id in plugins`
abbrev pub is_selected : Option (List String) → Plugin → Bool
is_selected none p = true
is_selected (some ids) p = contains ids p.plugin_id

abbrev pub no_plugins_result : CrossLanguageTraversalResult
no_plugins_result = record {
  hops = [];
  total_hops = 0;
  reached_node_ids = [];
  terminated_early = false;
  termination_reason = no_plugins;
  ambiguous_candidates = [];
}

module _ (limit : ℕ) (min_confidence : String) where
  unfoldable pub is_uncertain : Link → Bool
  unfolding confidence_order
  is_uncertain l = ltb (confidence_order l.confidence) (confidence_order min_confidence)

  abbrev pub add_ambiguous : (plugin current : String) → Link → Walk → Walk
  add_ambiguous plugin current l w = record w {
    ambiguous =
        w.ambiguous
        ++ record {
          hop_number = length w.hops + 1;
          from_node_id = current;
          candidate_node_id = target_of current l;
          plugin_id = plugin;
          confidence = l.confidence;
        }
          ∷ [];
  }

  abbrev pub add_hop : (plugin current : String) → Link → Walk → Walk
  add_hop plugin current l w = record w {
    visited = target_of current l ∷ w.visited;
    queue = w.queue ++ target_of current l ∷ [];
    hops =
        w.hops
        ++ record {
          hop_number = length w.hops + 1;
          from_node_id = current;
          to_node_id = target_of current l;
          via_interface_id = l.via_interface_id;
          plugin_id = plugin;
          edge_type = l.edge_type;
          confidence = l.confidence;
        }
          ∷ [];
  }

  -- The loop over the links of one plugin, which the limit breaks off.
  unfoldable pub follow_links : (plugin current : String) → List Link → Walk → Walk
  unfolding is_uncertain target_of
  follow_links plugin current [] w = w
  follow_links plugin current (l ∷ ls) w =
      let skipped = follow_links plugin current ls w in
      let unsure = follow_links plugin current ls (add_ambiguous plugin current l w) in
      let w' = add_hop plugin current l w in
      let followed = follow_links plugin current ls w' in
      if is_uncertain l
      then unsure
      else if contains w.visited (target_of current l)
      then skipped
      else if leb limit (length w'.hops)
      then w'
      else followed

  -- The loop over the plugins, which the limit does not break off.
  unfoldable pub follow_plugins : String → List Plugin → Walk → Walk
  unfolding follow_links
  follow_plugins current [] w = w
  follow_plugins current (p ∷ ps) w =
      follow_plugins current ps (follow_links p.plugin_id current (p.links current) w)

  -- The `while` loop; `none` means that the fuel ran out.
  unfoldable pub walk : ℕ → List Plugin → Walk → Option Walk
  unfolding follow_plugins
  walk zero selected w = none
  walk (suc fuel) selected w = elim w.queue [
    | [] ↦ some w
    | current ∷ rest ↦ elim (ltb (length w.hops) limit) [
      | true ↦ walk fuel selected (follow_plugins current selected (record w { queue = rest }))
      | false ↦ some w
    ]
  ]

  abbrev pub is_nonempty : {A : Type 0} → List A → Bool
  is_nonempty [] = false
  is_nonempty (x ∷ xs) = true

  -- `reached_node_ids` is `sorted(visited - {start})` up to its order.
  abbrev pub to_result : String → Walk → CrossLanguageTraversalResult
  to_result start w = record {
    hops = w.hops;
    total_hops = length w.hops;
    reached_node_ids = select (λ n. not (str_eq n start)) w.visited;
    terminated_early = is_nonempty w.queue;
    termination_reason = if is_nonempty w.queue then max_hops else no_more_links;
    ambiguous_candidates = w.ambiguous;
  }

  unfoldable pub traverse_plugins :
      ℕ
      → String
      → (available : List Plugin) → (wanted : Option (List String))
      → Option CrossLanguageTraversalResult
  unfolding walk
  traverse_plugins fuel start available wanted =
      let selected = select (is_selected wanted) available in
      elim selected [
        | [] ↦ some no_plugins_result
        | p ∷ ps ↦
            elim (walk fuel (p ∷ ps)
              (record { visited = start ∷ []; queue = start ∷ []; hops = []; ambiguous = [] })) [
                | none ↦ none
                | some w ↦ some (to_result start w)
              ]
      ]
