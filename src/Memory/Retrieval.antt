-- ===== src/Memory/Retrieval.antt =====
-- src/llm_sca_tooling/memory/retrieval: the hints that past trajectories give for an issue, and the
-- guard that keeps some of them back. One reading of the clock stands for those of one call. Texts
-- are split at ASCII white space.
use Prim.Native.String.{◌++◌ as append}
use llm_sca_tooling.Prelude.{
  ◌++◌, ℕ, String, max, Bool, true, false, ◌&&◌, ◌||◌, Option, none, some, List, [], ◌∷◌,
  if◌then◌else◌, select, length, str_eq, leb, ◌==◌, take, not,
}
use llm_sca_tooling.Prelude.Text.{codes, lower}
use llm_sca_tooling.Prelude.Floats.{Floats}
use llm_sca_tooling.Memory.Model.{TrajectoryRecord, CoarseHint, FineHint}
use llm_sca_tooling.Memory.Compaction.{is_past}
use llm_sca_tooling.Memory.Store.{is_set, all_trajectories, MemoryStore}

abbrev is_space : ℕ → Bool
is_space c = c == 32 || (leb 9 c && leb c 13) || (leb 28 c && leb c 31)

-- A word in front of others, unless it is empty.
abbrev close_word : List ℕ → List (List ℕ) → List (List ℕ)
close_word [] ws = ws
close_word (c ∷ w) ws = (c ∷ w) ∷ ws

-- The word that begins a text, and the words behind it.
abbrev scan_words : List ℕ → List ℕ × List (List ℕ)
scan_words [] = ([], [])
scan_words (c ∷ s) =
    let (w, ws) = scan_words s in if is_space c then ([], close_word w ws) else (c ∷ w, ws)

-- `s.split()`
unfoldable pub split_words : List ℕ → List (List ℕ)
split_words s = let (w, ws) = scan_words s in close_word w ws

abbrev same_codes : List ℕ → List ℕ → Bool
same_codes [] [] = true
same_codes [] (y ∷ b) = false
same_codes (x ∷ a) [] = false
same_codes (x ∷ a) (y ∷ b) = x == y && same_codes a b

abbrev has_word : List (List ℕ) → List ℕ → Bool
has_word [] w = false
has_word (v ∷ vs) w = same_codes v w || has_word vs w

-- `set(words)`
abbrev word_set : List (List ℕ) → List (List ℕ)
word_set [] = []
word_set (w ∷ ws) = let rest = word_set ws in if has_word rest w then rest else w ∷ rest

unfoldable pub keywords_of : String → List (List ℕ)
unfolding split_words lower
keywords_of s = word_set (split_words (lower (codes s)))

-- `" ".join(xs)`
abbrev join_space : List String → String
join_space [] = ""
join_space (x ∷ []) = x
join_space (x ∷ y ∷ xs) = append x (append " " (join_space (y ∷ xs)))

unfoldable pub infer_hint_type : TrajectoryRecord → String
unfolding is_set
infer_hint_type t =
    if str_eq t.outcome "false_positive"
    then "rejection_reason"
    else if is_set t.patch_diff_hash
    then "patch_snippet"
    else "fl_decision"

unfoldable pub extract_snippet : TrajectoryRecord → String
unfolding is_set
extract_snippet t = elim t.fl_decisions [
  | d ∷ ds ↦ append "fl_suspect:" d
  | [] ↦
      if is_set t.patch_class
      then append "patch_class:" (elim t.patch_class [ none ↦ "" | some p ↦ p ])
      else "no_snippet"
]

-- The hints of a list of trajectories: the active and the rejected ones, each in the list's order.
unfoldable pub sift :
    {H : Type 0} → (H → Bool) → (TrajectoryRecord → H) → List TrajectoryRecord → List H × List H
sift rejected hint [] = ([], [])
sift rejected hint (t ∷ ts) =
    let (active, back) = sift rejected hint ts in
    let h = hint t in if rejected h then (active, h ∷ back) else (h ∷ active, back)

-- The list, sorted by a Boolean key that goes first where it holds; `sort` keeps the order of equal
-- keys, also in reverse.
abbrev pub true_first : {H : Type 0} → (H → Bool) → List H → List H
true_first key hs = select key hs ++ select (λ h. not (key h)) hs

module _ {F : Type 0} ⦃f : Floats F⦄ where
  open f use {leq, less, quotient, fixed}

  -- `len(keywords & words) / max(len(words), 1)`, and zero if there is no word.
  unfoldable pub overlap : (keywords words : List (List ℕ)) → F
  overlap keywords [] = quotient 0 1
  overlap keywords (w ∷ ws) =
      quotient (length (select (has_word keywords) (w ∷ ws))) (max (length (w ∷ ws)) 1)

  unfoldable pub issue_class_similarity : List (List ℕ) → String → F
  unfolding overlap keywords_of
  issue_class_similarity keywords class = overlap keywords (keywords_of class)

  unfoldable pub fl_similarity : List (List ℕ) → List String → F
  unfolding overlap keywords_of
  fl_similarity keywords [] = quotient 0 1
  fl_similarity keywords (d ∷ ds) = overlap keywords (keywords_of (join_space (d ∷ ds)))

  -- Whether a record is rejected, and why.
  unfoldable pub apply_misalignment_guard : String → TrajectoryRecord → F → Bool × Option String
  unfolding is_past
  apply_misalignment_guard now t similarity =
      if is_past now t.expiry_ts
      then (true, some "expired")
      else if str_eq t.review_state "unreviewed"
      then (true, some "unreviewed")
      else if str_eq t.review_state "superseded"
      then (true, some "superseded")
      else if leq (quotient 17 20) similarity && str_eq t.utility "low"
      then (true, some (append "high_similarity_low_utility:score=" (fixed similarity)))
      else (false, none)

  unfoldable pub build_coarse_hint : String → TrajectoryRecord → F → CoarseHint
  unfolding apply_misalignment_guard
  build_coarse_hint now t similarity =
      let guard = apply_misalignment_guard now t similarity in
      record {
        trajectory_id = t.trajectory_id;
        issue_class = t.issue_class;
        outcome = t.outcome;
        utility = t.utility;
        fl_class_match = false;
        confidence = "heuristic";
        rejected = guard.0;
        rejection_reason = guard.1;
      }

  -- Into a list in descending order of the score, behind those with an equal one.
  abbrev pub insert_by_score : FineHint F → List (FineHint F) → List (FineHint F)
  insert_by_score h [] = h ∷ []
  insert_by_score h (g ∷ gs) =
      if less g.similarity_score h.similarity_score then h ∷ g ∷ gs else g ∷ insert_by_score h gs

  abbrev pub sort_into : List (FineHint F) → List (FineHint F) → List (FineHint F)
  sort_into sorted [] = sorted
  sort_into sorted (h ∷ hs) = sort_into (insert_by_score h sorted) hs

  unfoldable pub fine_hint : String → List (List ℕ) → TrajectoryRecord → FineHint F
  unfolding apply_misalignment_guard fl_similarity infer_hint_type extract_snippet
  fine_hint now keywords t =
      let similarity = fl_similarity keywords t.fl_decisions in
      record {
        trajectory_id = t.trajectory_id;
        hint_type = infer_hint_type t;
        content_snippet = extract_snippet t;
        graph_node_ids = take 3 t.graph_node_ids;
        patch_class = t.patch_class;
        outcome = t.outcome;
        utility = t.utility;
        similarity_score = similarity;
        misalignment_flag = (apply_misalignment_guard now t similarity).0;
        confidence = "heuristic";
      }

  module _ {J : Type 0} where
    unfoldable pub retrieve_fine :
        (issue repo : String) (max_hints : ℕ) (now : String)
        → MemoryStore J
        → List (FineHint F) × List (FineHint F)
    unfolding sift fine_hint all_trajectories
    retrieve_fine issue repo max_hints now s =
        let (active, rejected) =
          sift (λ h. h.misalignment_flag) (fine_hint now (keywords_of issue))
            (all_trajectories (some repo) s) in
        (take max_hints (sort_into [] active), rejected)

module _ (F : Type 0) ⦃f : Floats F⦄ where
  unfoldable pub coarse_hint : String → List (List ℕ) → TrajectoryRecord → CoarseHint
  unfolding build_coarse_hint issue_class_similarity
  coarse_hint now keywords t =
      build_coarse_hint now t (issue_class_similarity {F = F} keywords t.issue_class)

  module _ {J : Type 0} where
    unfoldable pub retrieve_coarse :
        (issue repo : String) (max_hints : ℕ) (now : String)
        → MemoryStore J
        → List CoarseHint × List CoarseHint
    unfolding sift coarse_hint all_trajectories
    retrieve_coarse issue repo max_hints now s =
        let (active, rejected) =
          sift (λ h. h.rejected) (coarse_hint now (keywords_of issue))
            (all_trajectories (some repo) s) in
        (take max_hints (true_first (λ h. str_eq h.utility "high") active), rejected)
