-- ===== src/Hardening/Tests.antt =====
-- A cache, tasks, chunks, subscriptions and a monitor at work.
use llm_sca_tooling.Prelude.Decimal.{text_take, decimal}
use llm_sca_tooling.Hardening.Chunks.Registry.{get_chunk-chunk}
use llm_sca_tooling.Prelude.Text.{occurs, codes}
use llm_sca_tooling.Prelude.{
  ℕ, ◌≤◌, String, ◌≡◌, ◌≢◌, inr, refl, true, false, none, some, List, [], ◌∷◌, arith, length, All,
  contains, any,
}
use mathlib.Core.List.{Perm}
use llm_sca_tooling.Prelude.Dict.{lookup, values, Each, insert}
use llm_sca_tooling.Hardening.Cache.{
  Hardener, put, get, on_graph_update, IsBacked, get-IsBacked, get-on_graph_update,
}
use llm_sca_tooling.Hardening.TaskAuth.{
  AuthStore, AuthTask, ok, err, permission_error, running, create_task, get_task, complete_task,
  prune_expired, is_expired, prune_expired_lem, get_task-create_task, complete_task_lem, complete,
}
use llm_sca_tooling.Hardening.Chunks.{
  split_groups, group_by_module, chunk, get_chunk, store_chunks, chunk_name,
}
use llm_sca_tooling.Hardening.Chunks.Partition.{split_groups-perm, concat}
use llm_sca_tooling.Hardening.Recovery.{Manager, NotificationRecord, SubscriptionState}
use llm_sca_tooling.Hardening.Risk.{
  Monitor, new_monitor, default_thresholds, record_budget_hard_stop, record_tool_call,
}
use llm_sca_tooling.Hardening.Alerts.{IsSound, opened, tool_call, hard_stop, Session-IsSound}

abbrev empty : Hardener ℕ
empty = record { cache = []; has_ledger = true; ledger = [] }

abbrev warm : Hardener ℕ
warm = put "r" "sha1" "src/a.py" 7 empty

warm_hit : get "r" "sha1" "src/a.py" warm ≡ some 7
unfolding get put insert
warm_hit = refl

-- An entry of an older commit hides the one that was put after it.
hidden : get "r" "sha2" "src/a.py" (put "r" "sha2" "src/a.py" 8 warm) ≡ none
unfolding get put insert
hidden = refl

get-IsBacked_example : IsBacked "r" "sha1" "src/a.py" 7 (values warm.cache)
get-IsBacked_example = get-IsBacked "r" "sha1" "src/a.py" {v = 7} warm warm_hit

touched : any (λ p. occurs (codes p) (codes "src/a.py")) ("src/a" ∷ []) ≡ true
unfolding occurs
touched = refl

get-on_graph_update_example :
    get "r" "sha1" "src/a.py" (on_graph_update "r" "sha1" ("src/a" ∷ []) 5 warm).0 ≡ none
get-on_graph_update_example =
    get-on_graph_update "r" "sha1" "sha1" "src/a.py" ("src/a" ∷ []) 5 warm (inr touched)

abbrev digest : String → String
digest s = s

abbrev old_task : AuthTask ℕ
old_task = record {
  task_id = "t1";
  workflow = "w";
  status = running;
  created_at = 0;
  ttl_seconds = 1;
  authorization_context_hash = "alice";
  result = none;
  expires_at = 1000000;
}

abbrev store : AuthStore ℕ
store = record { max_ttl = 60; tasks = ("t1", old_task) ∷ [] }

stored : lookup "t1" store.tasks ≡ some old_task
unfolding lookup
stored = refl

prune_expired_lem_example :
    let r = prune_expired digest 2000000 store in
    Each (λ k u. is_expired digest 2000000 u ≡ false) r.0.tasks
    × (is_expired digest 2000000 old_task ≡ false → lookup "t1" r.0.tasks ≡ some old_task)
    × (is_expired digest 2000000 old_task ≡ true → contains r.1 "t1" ≡ true)
prune_expired_lem_example = prune_expired_lem digest 2000000 store "t1" {t = old_task} stored

get_task-create_task_example :
    let (s', t) = create_task digest "t2" "w" 90 "alice" 5 store in
    (get_task digest "t2" "alice" 1000 s' ≡ (s', ok t))
    × (t.ttl_seconds ≡ 60)
    × (digest "bob" ≢ digest "alice"
        → get_task digest "t2" "bob" 1000 s' ≡ (s', err permission_error))
get_task-create_task_example =
    get_task-create_task digest "t2" "w" "alice" "bob" 90 5 1000 store (omega arith)

-- The task has expired, and is completed all the same.
complete_task_lem_example :
    (u : AuthTask ℕ) × ((complete_task digest "t1" "alice" 42 9000000 store).1 ≡ ok u)
    × (lookup "t1" (complete_task digest "t1" "alice" 42 9000000 store).0.tasks ≡ some u)
    × (u.status ≡ complete)
    × (u.result ≡ some 42)
complete_task_lem_example =
    complete_task_lem digest "t1" "alice" 42 9000000 store {t = old_task} stored refl

abbrev nodes : List String
nodes = "a.x" ∷ "b.x" ∷ "a.y" ∷ "a.z" ∷ []

split_groups-perm_example :
    let chunks = split_groups 2 (group_by_module nodes) in
    Perm (concat chunks) nodes × All (λ c. length c ≤ 2) chunks
split_groups-perm_example = split_groups-perm 2 nodes (omega arith)

abbrev note : ℕ → NotificationRecord ℕ
note ts = record { resource_uri = "g://r"; ts = ts; payload = ts }

abbrev subscription : SubscriptionState
subscription = record { client_id = "c"; resource_uri = "g://r"; last_received_ts = none }

abbrev manager : Manager ℕ
manager = record {
  retention_window = 1;
  subscriptions = ("c", ("g://r", subscription) ∷ []) ∷ [];
  log = ("g://r", note 10 ∷ note 20 ∷ note 30 ∷ []) ∷ [];
}

abbrev watched : Monitor
watched =
    record_tool_call digest "grep" "x" false true
      (record_budget_hard_stop (record_budget_hard_stop (new_monitor "run" default_thresholds)))

Session-IsSound_example : IsSound watched
Session-IsSound_example =
    Session-IsSound digest "run" default_thresholds watched (omega arith) (omega arith)
      (tool_call "grep" "x" false true (hard_stop (hard_stop opened)))

get_chunk-chunk_example :
    let m = chunk none 2 "r" "sha" nodes in
    All (λ c. get_chunk c.chunk_id (store_chunks m.chunks []) ≡ some c) m.chunks
get_chunk-chunk_example = get_chunk-chunk none 2 "r" "sha" nodes []

named_once : chunk_name "r" "0123456789" 12 ≡ "chunk:r:01234567:12"
unfolding chunk_name text_take decimal
named_once = refl
