-- ===== src/Hardening/Cache.antt =====
-- src/llm_sca_tooling/hardening/cache_invalidation.py: a cache whose entries are tied to a commit.
use Prim.Native.String.{◌++◌ as append}
use llm_sca_tooling.Prelude.{
  ℕ, String, ◌≡◌, ◌≢◌, ap, inl, inr, refl, Bool, true, false, not, ◌&&◌, ◌||◌, Option, none, some,
  List, [], ◌∷◌, map, arith, if◌then◌else◌, length, select, str_eq, any, ◌==◌, eq_iff, Bool-cases,
  ◌⊎◌,
}
use mathlib.Core.List.{Memᴰ}
use llm_sca_tooling.Prelude.Dict.{Dict, insert, values, map_values}
use llm_sca_tooling.Prelude.Text.{codes, occurs}

pub record CacheEntry (V : Type 0) : Type 0 where
  pub repo_id : String
  pub git_sha : String
  pub key : String
  pub value : V
  pub stale : Bool

-- `event_id` is random and left out.
pub record InvalidationEvent : Type 0 where
  pub repo_id : String
  pub git_sha : String
  pub affected_keys : List String
  pub ts : ℕ

pub record ConsistencyReport : Type 0 where
  pub repo_id : String
  pub total_entries : ℕ
  pub stale_entries : ℕ
  pub stale_keys : List String
  pub consistent : Bool

-- `_cache`, and the events that the ledger was given.
pub record Hardener (V : Type 0) : Type 0 where
  pub cache : Dict (CacheEntry V)
  pub has_ledger : Bool
  pub ledger : List InvalidationEvent

unfoldable pub composite : (repo_id git_sha key : String) → String
composite repo_id git_sha key = append repo_id (append ":" (append git_sha (append ":" key)))

module _ {V : Type 0} where
  unfoldable pub put : (repo_id git_sha key : String) → V → Hardener V → Hardener V
  unfolding composite
  put repo_id git_sha key value h = record h {
    cache =
        insert (composite repo_id git_sha key)
          (record { repo_id = repo_id; git_sha = git_sha; key = key; value = value; stale = false })
          h.cache;
  }

  abbrev pub is_for : (repo_id key : String) → CacheEntry V → Bool
  is_for repo_id key e = str_eq e.repo_id repo_id && str_eq e.key key

  -- The loop of `get`: the first entry for the repository and the key decides.
  unfoldable pub find_valid : (repo_id sha key : String) → List (CacheEntry V) → Option V
  find_valid repo_id sha key [] = none
  find_valid repo_id sha key (e ∷ es) =
      let rest = find_valid repo_id sha key es in
      if is_for repo_id key e
      then if str_eq e.git_sha sha && not e.stale then some e.value else none
      else rest

  -- `none` is `(None, False)`, and `some v` is `(v, True)`.
  unfoldable pub get : (repo_id sha key : String) → Hardener V → Option V
  unfolding find_valid
  get repo_id sha key h = find_valid repo_id sha key (values h.cache)

  unfoldable pub is_affected :
      (repo_id sha : String) → (changed_paths : List String) → CacheEntry V → Bool
  is_affected repo_id sha changed_paths e =
      str_eq e.repo_id repo_id
      && (not (str_eq e.git_sha sha) || any (λ p. occurs (codes p) (codes e.key)) changed_paths)

  unfoldable pub invalidate :
      (repo_id sha : String) → (changed_paths : List String) → CacheEntry V → CacheEntry V
  unfolding is_affected
  invalidate repo_id sha paths e =
      if is_affected repo_id sha paths e then record e { stale = true } else e

  unfoldable pub on_graph_update :
      (repo_id sha : String)
      → (changed_paths : List String) → ℕ
      → Hardener V
      → Hardener V × InvalidationEvent
  unfolding invalidate
  on_graph_update repo_id sha paths now h =
      let event : InvalidationEvent = record {
        repo_id = repo_id;
        git_sha = sha;
        affected_keys = map (λ e. e.key) (select (is_affected repo_id sha paths) (values h.cache));
        ts = now;
      } in
      (
        record h {
          cache = map_values (invalidate repo_id sha paths) h.cache;
          ledger = if h.has_ledger then event ∷ h.ledger else h.ledger;
        },
        event,
      )

  unfoldable pub verify_cache_consistency : String → Hardener V → ConsistencyReport
  verify_cache_consistency repo_id h =
      let entries = select (λ e. str_eq e.repo_id repo_id) (values h.cache) in
      let stale = map (λ e. e.key) (select (λ e. e.stale) entries) in
      record {
        repo_id = repo_id;
        total_entries = length entries;
        stale_entries = length stale;
        stale_keys = stale;
        consistent = length stale == 0;
      }

  -- What a hit is backed by.
  pub record IsBacked (repo_id sha key : String) (v : V) (es : List (CacheEntry V)) : Type 0 where
    pub entry : CacheEntry V
    pub stored : Memᴰ entry es
    pub of_repo : entry.repo_id ≡ repo_id
    pub of_key : entry.key ≡ key
    pub of_sha : entry.git_sha ≡ sha
    pub fresh : entry.stale ≡ false
    pub holds : entry.value ≡ v

  find_valid-IsBacked :
      (repo_id sha key : String) {v : V} (es : List (CacheEntry V))
      → find_valid repo_id sha key es ≡ some v
      → IsBacked repo_id sha key v es
  unfolding find_valid
  find_valid-IsBacked repo_id sha key [] h = cc
  find_valid-IsBacked repo_id sha key (e ∷ es) h = elim (Bool-cases (is_for repo_id key e)) [
    | inl mine ↦ record {
      entry = e;
      stored = Memᴰ.head refl;
      of_repo = ground (arith, eq_iff e.repo_id repo_id);
      of_key = ground (arith, eq_iff e.key key);
      of_sha = ground (arith, eq_iff e.git_sha sha);
      fresh = ground arith;
      holds = ground arith;
    }
    | inr other ↦
        let b = find_valid-IsBacked repo_id sha key es (ground arith) in
        record {
          entry = b.entry;
          stored = Memᴰ.tail b.stored;
          of_repo = b.of_repo;
          of_key = b.of_key;
          of_sha = b.of_sha;
          fresh = b.fresh;
          holds = b.holds;
        }
  ]

  -- A hit comes from a stored entry of the same repository, key and commit that is not stale.
  pub get-IsBacked :
      (repo_id sha key : String) {v : V} (h : Hardener V)
      → get repo_id sha key h ≡ some v
      → IsBacked repo_id sha key v (values h.cache)
  unfolding get
  get-IsBacked repo_id sha key h hit = find_valid-IsBacked repo_id sha key (values h.cache) hit

  find_valid-invalidated :
      (repo_id sha old key : String) (paths : List String) (m : Dict (CacheEntry V))
      → (old ≢ sha) ⊎ (any (λ p. occurs (codes p) (codes key)) paths ≡ true)
      → find_valid repo_id old key (values (map_values (invalidate repo_id sha paths) m)) ≡ none
  unfolding find_valid invalidate
  find_valid-invalidated repo_id sha old key paths [] other = refl
  find_valid-invalidated repo_id sha old key paths ((k, e) ∷ m) other =
      let rest = find_valid-invalidated repo_id sha old key paths m other in
      elim (Bool-cases (str_eq e.key key)) [
        | inr k ↦ ground (arith, rest)
        | inl k ↦
            let here : e.key ≡ key = (eq_iff e.key key).0 k in
            let touched : any (λ p. occurs (codes p) (codes e.key)) paths
                ≡ any (λ p. occurs (codes p) (codes key)) paths =
              ap (λ s. any (λ p. occurs (codes p) (codes s)) paths) here in
            ground (arith, rest, eq_iff e.git_sha sha, eq_iff e.git_sha old, touched)
      ]

  -- After an update of a repository to a commit, no read of that repository at another commit hits,
  -- and none of a key that contains a changed path hits at all.
  pub get-on_graph_update :
      (repo_id sha current key : String) (paths : List String) (now : ℕ) (h : Hardener V)
      → (current ≢ sha) ⊎ (any (λ p. occurs (codes p) (codes key)) paths ≡ true)
      → get repo_id current key (on_graph_update repo_id sha paths now h).0 ≡ none
  unfolding get on_graph_update
  get-on_graph_update repo_id sha current key paths now h other =
      find_valid-invalidated repo_id sha current key paths h.cache other
