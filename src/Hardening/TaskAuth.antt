-- ===== src/Hardening/TaskAuth.antt =====
-- src/llm_sca_tooling/hardening/task_authorization.py: tasks with a lifetime, each bound to the
-- context that made it. A time is a number of microseconds; the digest of a context is a parameter.
use llm_sca_tooling.Prelude.{
  ℕ, ◌+◌, ◌*◌, min, String, ◌≡◌, inl, inr, Bool, false, not, Option, none, some, List, [], ◌∷◌,
  arith, if◌then◌else◌, str_eq, ltb, Bool-cases, true, ◌≤◌, eq_iff, contains, ◌≢◌, eq_refl, ◌∙◌,
  refl,
}
use llm_sca_tooling.Prelude.Dict.{Dict, lookup, insert, modify, Each, lookup-insert, lookup-modify}

pub data Status : Type 0 where
  pending running complete expired : Status

pub record AuthTask (R : Type 0) : Type 0 where
  pub task_id : String
  pub workflow : String
  pub status : Status
  pub created_at : ℕ
  pub ttl_seconds : ℕ
  pub authorization_context_hash : String
  pub result : Option R
  pub expires_at : ℕ

pub data AuthError : Type 0 where
  key_error permission_error : AuthError

pub data AuthResult (A : Type 0) : Type 0 where
  ok : A → AuthResult A
  err : AuthError → AuthResult A

pub record AuthStore (R : Type 0) : Type 0 where
  pub max_ttl : ℕ
  pub tasks : Dict (AuthTask R)

abbrev pub default_max_ttl : ℕ
default_max_ttl = 86400

module _ {R : Type 0} (hash_context : String → String) where
  unfoldable pub is_expired : ℕ → AuthTask R → Bool
  is_expired now t = ltb t.expires_at now

  unfoldable pub create_task :
      (id workflow : String) (ttl_seconds : ℕ) (context : String)
      → ℕ
      → AuthStore R
      → AuthStore R × AuthTask R
  create_task id workflow ttl_seconds context now s =
      let ttl = min ttl_seconds s.max_ttl in
      let t : AuthTask R = record {
        task_id = id;
        workflow = workflow;
        status = pending;
        created_at = now;
        ttl_seconds = ttl;
        authorization_context_hash = hash_context context;
        result = none;
        expires_at = now + ttl * 1000000;
      } in
      (record s { tasks = insert id t s.tasks }, t)

  abbrev expire : AuthTask R → AuthTask R
  expire t = record t { status = expired }

  -- `get_task`, once the record is found.
  unfoldable pub get_found :
      (id context : String) → ℕ → AuthTask R → AuthStore R → AuthStore R × AuthResult (AuthTask R)
  unfolding is_expired
  get_found id context now t s =
      if not (str_eq t.authorization_context_hash (hash_context context))
      then (s, err permission_error)
      else if is_expired now t
      then (record s { tasks = modify id expire s.tasks }, ok (expire t))
      else (s, ok t)

  unfoldable pub get_task :
      (id context : String) → ℕ → AuthStore R → AuthStore R × AuthResult (AuthTask R)
  unfolding get_found
  get_task id context now s = elim (lookup id s.tasks) [
    | none ↦ (s, err key_error)
    | some t ↦ get_found id context now t s
  ]

  abbrev completed : R → AuthTask R → AuthTask R
  completed value t = record t { status = complete; result = some value }

  -- The rest of `complete_task`, after `get_task`.
  unfoldable pub complete_got :
      (id : String)
      → R
      → AuthStore R × AuthResult (AuthTask R)
      → AuthStore R × AuthResult (AuthTask R)
  complete_got id value (s, err e) = (s, err e)
  complete_got id value (s, ok t) =
      (record s { tasks = modify id (completed value) s.tasks }, ok (completed value t))

  unfoldable pub complete_task :
      (id context : String) → R → ℕ → AuthStore R → AuthStore R × AuthResult (AuthTask R)
  unfolding complete_got
  complete_task id context value now s = complete_got id value (get_task id context now s)

  -- The loop of `prune_expired` over a copy of the items: what is kept, and the names of the others.
  unfoldable pub prune_items : ℕ → Dict (AuthTask R) → Dict (AuthTask R) × List String
  unfolding is_expired
  prune_items now [] = ([], [])
  prune_items now ((k, t) ∷ m) =
      let (kept, pruned) = prune_items now m in
      if is_expired now t then (kept, k ∷ pruned) else ((k, t) ∷ kept, pruned)

  unfoldable pub prune_expired : ℕ → AuthStore R → AuthStore R × List String
  unfolding prune_items
  prune_expired now s =
      let (kept, pruned) = prune_items now s.tasks in (record s { tasks = kept }, pruned)

  unfoldable pub recover_after_restart : ℕ → AuthStore R → AuthStore R
  unfolding prune_expired
  recover_after_restart now s = (prune_expired now s).0

  prune_items-live :
      (now : ℕ) (m : Dict (AuthTask R))
      → Each (λ k t. is_expired now t ≡ false) (prune_items now m).0
  unfolding prune_items
  prune_items-live now [] = tt
  prune_items-live now ((k, t) ∷ m) = elim (Bool-cases (is_expired now t)) [
    | inl e ↦ rw e (prune_items-live now m)
    | inr e ↦ rw e (e, prune_items-live now m)
  ]

  prune_items-lookup :
      (now : ℕ) (id : String) (m : Dict (AuthTask R)) {t : AuthTask R}
      → lookup id m ≡ some t
      → is_expired now t ≡ false
      → lookup id (prune_items now m).0 ≡ some t
  unfolding prune_items lookup
  prune_items-lookup now id [] h live = cc
  prune_items-lookup now id ((k, u) ∷ m) {t} h live = elim (Bool-cases (str_eq k id)) [
    | inl e ↦ ground arith
    | inr e ↦
        let found : lookup id m ≡ some t = ground arith in
        ground (arith, prune_items-lookup now id m {t = t} found live)
  ]

  prune_items-pruned :
      (now : ℕ) (id : String) (m : Dict (AuthTask R)) {t : AuthTask R}
      → lookup id m ≡ some t
      → is_expired now t ≡ true
      → contains (prune_items now m).1 id ≡ true
  unfolding prune_items lookup
  prune_items-pruned now id [] h dead = cc
  prune_items-pruned now id ((k, u) ∷ m) {t} h dead = elim (Bool-cases (str_eq k id)) [
    | inl e ↦ ground arith
    | inr e ↦
        let found : lookup id m ≡ some t = ground arith in
        ground (arith, prune_items-pruned now id m {t = t} found dead)
  ]

  -- Pruning leaves no task that has expired, keeps every other one as it is stored, and reports the
  -- name of each task that it removes.
  pub prune_expired_lem :
      (now : ℕ) (s : AuthStore R) (id : String) {t : AuthTask R}
      → lookup id s.tasks ≡ some t
      → let r = prune_expired now s in
        Each (λ k u. is_expired now u ≡ false) r.0.tasks
        × (is_expired now t ≡ false → lookup id r.0.tasks ≡ some t)
        × (is_expired now t ≡ true → contains r.1 id ≡ true)
  unfolding prune_expired
  prune_expired_lem now s id h = (
    prune_items-live now s.tasks,
    prune_items-lookup now id s.tasks h,
    prune_items-pruned now id s.tasks h,
  )

  -- A task that was just made can be read until it expires from its own context, and from no context
  -- of another digest; its lifetime is the one that was asked for, cut to the store's limit.
  pub get_task-create_task :
      (id workflow context other : String) (ttl now later : ℕ) (s : AuthStore R)
      → later ≤ now + min ttl s.max_ttl * 1000000
      → let (s', t) = create_task id workflow ttl context now s in
        (get_task id context later s' ≡ (s', ok t))
        × (t.ttl_seconds ≡ min ttl s.max_ttl)
        × (hash_context other ≢ hash_context context
            → get_task id other later s' ≡ (s', err permission_error))
  unfolding create_task get_task
  get_task-create_task id workflow context other ttl now later s fresh =
      let n = (create_task id workflow ttl context now s).1 in
      let found : lookup id (insert id n s.tasks) ≡ some n =
        lookup-insert id id n s.tasks ∙ ground (arith, eq_refl id) in
      (
        ground (arith, found, eq_refl (hash_context context)),
        refl,
        λ h. ground (arith, found, eq_iff (hash_context context) (hash_context other)),
      )

  -- From its own context a task can be completed at any time, also when it has expired: the call
  -- succeeds, and the stored task is complete and holds the result.
  pub complete_task_lem :
      (id context : String) (value : R) (now : ℕ) (s : AuthStore R) {t : AuthTask R}
      → lookup id s.tasks ≡ some t
      → t.authorization_context_hash ≡ hash_context context
      → (u : AuthTask R) × ((complete_task id context value now s).1 ≡ ok u)
        × (lookup id (complete_task id context value now s).0.tasks ≡ some u)
        × (u.status ≡ complete)
        × (u.result ≡ some value)
  unfolding complete_task get_task
  complete_task_lem id context value now s {t} found mine = (
    completed value t,
    ground (arith, eq_iff t.authorization_context_hash (hash_context context)),
    ground (
      arith,
      eq_refl id,
      eq_iff t.authorization_context_hash (hash_context context),
      lookup-modify id id expire s.tasks,
      lookup-modify id id (completed value) s.tasks,
      lookup-modify id id (completed value) (modify id expire s.tasks),
    ),
    refl,
    refl,
  )
