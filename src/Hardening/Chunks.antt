-- ===== src/Hardening/Chunks.antt =====
-- src/llm_sca_tooling/hardening/graph_chunker.py: a graph's nodes in chunks of bounded size. `max` is
-- `max_chunk_nodes`, at least 1 (`range` refuses a step of 0).
pub mod Partition
pub mod Registry
use llm_sca_tooling.Prelude.Dict.{Dict, insert, lookup, values}
use Prim.Native.String.{◌++◌ as append}
use mathlib.Core.Option
use llm_sca_tooling.Prelude.{
  ℕ, zero, suc, ◌+◌, ◌≤◌, ◌<◌, String, ◌≡◌, ◌≢◌, ap, ◌∙◌, sym, inl, inr, refl, Bool, true, false,
  not, Option, none, some, List, [], ◌∷◌, ◌++◌, arith, if◌then◌else◌, ltb, length, take, drop, All,
  All-append, length-append, length-take, length-drop, take-append-drop, Bool-cases, any, ◌==◌,
  contains, ◌&&◌, select,
}
use mathlib.Core.List.{Perm, perm_middle, append-nil, append_assoc}
use mathlib.Core.List.Perm
use llm_sca_tooling.Prelude.Text.{codes, before}
use llm_sca_tooling.Prelude.Decimal.{decimal, text_take}

pub record GraphChunk : Type 0 where
  pub chunk_id : String
  pub chunk_index : ℕ
  pub nodes : List String
  pub artefact_id : Option String

pub record ChunkManifest : Type 0 where
  pub repo_id : String
  pub git_sha : String
  pub total_nodes : ℕ
  pub chunk_count : ℕ
  pub chunks : List GraphChunk

-- The groups, in the order in which their prefixes first occur.
abbrev pub Groups : Type 0
Groups = List (List ℕ × List String)

-- Equality of texts by their code points.
unfoldable pub same_codes : List ℕ → List ℕ → Bool
same_codes [] [] = true
same_codes (a ∷ as') (b ∷ bs) = a == b && same_codes as' bs
same_codes _ _ = false

-- `node.split(".")[0] if "." in node else node.split("/")[0]`
unfoldable pub prefix_of : String → List ℕ
unfolding before
prefix_of node =
    if any (λ c. c == b'.') (codes node) then before b'.' (codes node) else before b'/' (codes node)

-- `groups.setdefault(prefix, []).append(node)`
unfoldable pub add_to_group : List ℕ → String → Groups → Groups
unfolding same_codes
add_to_group p n [] = (p, n ∷ []) ∷ []
add_to_group p n ((q, ns) ∷ gs) =
    if same_codes q p then (q, ns ++ n ∷ []) ∷ gs else (q, ns) ∷ add_to_group p n gs

unfoldable pub group_from : Groups → List String → Groups
group_from gs [] = gs
group_from gs (n ∷ ns) = group_from (add_to_group (prefix_of n) n gs) ns

unfoldable pub group_by_module : List String → Groups
unfolding group_from add_to_group prefix_of
group_by_module nodes = group_from [] nodes

-- `chunks` and `current`.
pub record Split : Type 0 where
  pub done : List (List String)
  pub current : List String

unfoldable pub add_batch : ℕ → List String → Split → Split
add_batch max batch s =
    if ltb max (length s.current + length batch)
    then record {
      done = elim s.current [ [] ↦ s.done | c ∷ cs ↦ s.done ++ (c ∷ cs) ∷ [] ];
      current = batch;
    }
    else record s { current = s.current ++ batch }

-- The inner loop over one group; the fuel is the group's length, and each round takes a node.
unfoldable pub add_group : ℕ → ℕ → List String → Split → Split
unfolding add_batch
add_group max zero ns s = add_batch max (take max ns) s
add_group max (suc fuel) ns s =
    let s' = add_batch max (take max ns) s in
    elim (drop max ns) [ [] ↦ s' | m ∷ ms ↦ add_group max fuel (m ∷ ms) s' ]

unfoldable pub add_groups : ℕ → Groups → Split → Split
unfolding add_group
add_groups max [] s = s
add_groups max ((p, ns) ∷ gs) s = add_groups max gs (add_group max (length ns) ns s)

unfoldable pub close : Split → List (List String)
close s = elim s.current [ [] ↦ s.done | c ∷ cs ↦ s.done ++ (c ∷ cs) ∷ [] ]

-- `chunks or [[]]`
unfoldable pub or_empty : List (List String) → List (List String)
or_empty [] = [] ∷ []
or_empty (c ∷ cs) = c ∷ cs

unfoldable pub split_groups : ℕ → Groups → List (List String)
unfolding add_groups close or_empty
split_groups max gs = or_empty (close (add_groups max gs (record { done = []; current = [] })))

-- `f"chunk:{repo_id}:{git_sha[:8]}:{i}"`
unfoldable pub chunk_name : (repo_id git_sha : String) → ℕ → String
unfolding text_take decimal
chunk_name repo_id git_sha i =
    append "chunk:"
      (append repo_id (append ":" (append (text_take 8 git_sha) (append ":" (decimal i)))))

-- `chunk_data`
pub record ChunkData : Type 0 where
  pub chunk_id : String
  pub repo_id : String
  pub git_sha : String
  pub chunk_index : ℕ
  pub nodes : List String

-- The registry gives the name of an artefact.
module _ (registry : Option (String → ChunkData → String)) where
  unfoldable pub number_chunks : String → String → ℕ → List (List String) → List GraphChunk
  unfolding chunk_name
  number_chunks repo_id git_sha i [] = []
  number_chunks repo_id git_sha i (c ∷ cs) =
      let chunk_id = chunk_name repo_id git_sha i in
      let data_of : ChunkData = record {
        chunk_id = chunk_id;
        repo_id = repo_id;
        git_sha = git_sha;
        chunk_index = i;
        nodes = c;
      } in
      record {
        chunk_id = chunk_id;
        chunk_index = i;
        nodes = c;
        artefact_id = Option.map (λ store. store chunk_id data_of) registry;
      }
      ∷ number_chunks repo_id git_sha (i + 1) cs

  unfoldable pub chunk : ℕ → String → String → List String → ChunkManifest
  unfolding number_chunks
  chunk max repo_id git_sha nodes =
      let chunks = number_chunks repo_id git_sha 0 (split_groups max (group_by_module nodes)) in
      record {
        repo_id = repo_id;
        git_sha = git_sha;
        total_nodes = length nodes;
        chunk_count = length chunks;
        chunks = chunks;
      }

-- `_chunks`, which every manifest adds to.
unfoldable pub store_chunks : List GraphChunk → Dict GraphChunk → Dict GraphChunk
store_chunks [] d = d
store_chunks (c ∷ cs) d = store_chunks cs (insert c.chunk_id c d)

unfoldable pub get_chunk : String → Dict GraphChunk → Option GraphChunk
get_chunk chunk_id d = lookup chunk_id d

unfoldable pub get_chunks_for_nodes : List String → Dict GraphChunk → List GraphChunk
get_chunks_for_nodes node_ids d = select (λ c. any (contains node_ids) c.nodes) (values d)
