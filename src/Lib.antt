-- ===== src/Lib.antt =====
-- Verification library of llm-sca-tooling: models of the parts of src/llm_sca_tooling that
-- decide, guard and search, and what holds of them.
--
-- Prelude: the names that all modules share. Prelude.Dict is a Python dict with str keys, as
--   the list of its items in insertion order; Prelude.Text has the str methods, on code points;
--   Prelude.Decimal is `str` of a natural number and a slice from the start of a str;
--   Prelude.Floats is Python's float as an interface.
-- Tasks: src/llm_sca_tooling/mcp_server/tasks.py. Model has the data (TaskRecord, TaskStatus,
--   McpServerConfig), Ops the methods of TaskManager under their names; `_execute` is
--   execute_start and execute_finish, before and after its `await`. A method takes the time of
--   the call and gives back the manager and a value or an exception. Steps is the server's life
--   as a relation: calls, the two halves of a coroutine, and restarts from the file.
-- BlastRadius: src/llm_sca_tooling/blast_radius/graph_traversal.py (`traverse`, `_bfs_from`)
--   and traversal_policy.py beside it. The `while` loop runs on fuel, one unit a round; each
--   round but the first takes a node that was marked visited when it was queued, so two more than
--   the number of nodes suffice.
-- Sarif: src/llm_sca_tooling/sarif/delta.py (`compute_sarif_delta`, `_fuzzy_match`,
--   `_change_type`).
-- Plugins: src/llm_sca_tooling/plugins/traversal.py (`CrossLanguageTraverser.traverse`). Its
--   `while` loop runs on fuel, one unit a round; a round takes a node off the queue, each hop
--   puts one on it, and the limit bounds the hops, so the limit, the number of the plugins and
--   two more suffice.
-- PatchReview: src/llm_sca_tooling/patch_review/scope_audit.py (`audit_scope`) and
--   src/llm_sca_tooling/patch_review/risk_policy.py (`apply_deterministic_policy`).
-- ImplCheck: src/llm_sca_tooling/impl_check/aggregator.py (`aggregate_verdicts`) and
--   src/llm_sca_tooling/impl_check/verdict_matrix.py (`build_verdict_matrix`).
-- Governance: src/llm_sca_tooling/governance/permissions.py and policy.py
--   (`evaluate_tool_call`), the permission modes of
--   src/llm_sca_tooling/hardening/permission_profiles.py (Profiles) and
--   src/llm_sca_tooling/operations/budget.py (Budget).
-- Workflows: src/llm_sca_tooling/workflows/bug_resolve/gate_runner.py (`run_gates`) and
--   src/llm_sca_tooling/workflows/bug_resolve/patch_selection.py (`select_patch`).
-- Memory: src/llm_sca_tooling/memory. Store is store.py: three SQLite tables as dicts of
--   records, where `INSERT OR REPLACE` puts the row last; Compaction is eviction/compactor.py,
--   WritePath is write_path.py with policy.py, Promotion is promotion/pipeline.py and
--   relabelling/null_relabeller.py, Retrieval is retrieval/, ShipGate is ship_gate.py. Python's
--   float is the interface Prelude.Floats, so that no score is rounded otherwise than by the
--   code. A time is an ISO text here and is compared as one.
-- Operations: src/llm_sca_tooling/operations/ledger_delete.py with ledger_retention.py beside
--   it (Ledger; Retention counts equal records, Collected the choice of due ones, Sweep the loop
--   over the groups, Deletion the whole run), harness_stage.py (Stage), and anomaly_detector.py
--   (Anomalies; Patterns has the errors of each check, Cumulative those of a report).
-- Indexing: src/llm_sca_tooling/indexing/backends/fact_reconciler.py (Reconciler; Facts has the
--   data, Grouped is the grouping by key, Kept the choice in a group, Covers the whole
--   reconciliation).
-- Release: src/llm_sca_tooling/release/release_gate.py (`ReleaseGateEvaluator.evaluate`): Gate
--   has the gates, Decision what they add up to.
-- Hardening: in src/llm_sca_tooling/hardening, cache_invalidation.py (Cache),
--   task_authorization.py (TaskAuth), graph_chunker.py (Chunks), subscription_recovery.py
--   (Recovery, Replay) and cumulative_risk.py (Risk, Alerts).
--
-- The parts meet where the workflows call them one after another: the scope audit's verdict is an
-- input of the patch policy, the aggregated verdicts fill the matrix, and the release gate reads
-- the reports of the others. The memory's store is what compaction, promotion and retrieval read
-- and change. The two task stores are separate, each with its own lifetime and context.
--
-- Times are natural numbers of microseconds and are arguments, as are random names and digests.
-- Python's int is unbounded and is ℕ where it is never negative; confidences and probabilities
-- are in thousandths, but a value of the interface in Memory and Indexing. Log lines are left
-- out. The inner loop of the chunker runs on fuel, the length of the group, which is enough as
-- each round takes at least one node when chunks hold at least one.
--
-- Not modelled: storage, indexing, transport and the command line, which (the reconciler aside)
-- are calls of SQLite, of parsers and of the operating system; the parsing of SARIF and of
-- interface files; and the runs of the workflows and evaluation.
mod Prelude
pub mod Tasks
pub mod Workflows
pub mod BlastRadius
pub mod PatchReview
pub mod ImplCheck
pub mod Governance
pub mod Plugins
pub mod Sarif
pub mod Release
pub mod Hardening
pub mod Memory
pub mod Operations
pub mod Indexing
