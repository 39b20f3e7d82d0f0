-- ===== src/BlastRadius/Invariant.antt =====
-- What holds of the results of the search: each confirmed node is reached by a trail of allowed edges.
use mathlib.Core.Path.{subst}
use llm_sca_tooling.Prelude.{
  ℕ, zero, suc, ◌≤◌, ◌<◌, ◌≡◌, refl, sym, ap, ◌∙◌, inl, inr, String, true, false, some, List, [],
  ◌∷◌, ◌++◌, arith, contains, All, All-append, length, length-append, Bool-cases, eq_refl, ltb, leb,
  ltb→lt, List-cases, Option-cases,
}
use llm_sca_tooling.BlastRadius.Graph.{
  DiGraph, TraversalPolicy, ImpactRecord, edge_type_of, confidence_of,
}
use llm_sca_tooling.BlastRadius.Traversal.{
  Entry, Search, follows, impact, next_entry, visit, visit_all, round, bfs_loop, bfs_from,
  traverse_from, traverse,
}

-- `Trail n path types`: along `path`, by edges of the given types, a changed symbol leads to `n`.
-- Each edge is in the graph, reaches the threshold, and has a type that the policy follows.
pub data Trail (g : DiGraph) (p : TraversalPolicy) (threshold : ℕ) (changed : List String)
    : String → List String → List String → Type 0 where
  origin : {n : String} → contains changed n ≡ true → Trail g p threshold changed n [] []
  step :
      {n m t : String} {path types path' types' : List String}
      → Trail g p threshold changed n path types
      → contains (g.successors n) m ≡ true
      → threshold ≤ confidence_of (g.edges n m)
      → t ≡ edge_type_of (g.edges n m)
      → follows p t ≡ true
      → path' ≡ path ++ n ∷ []
      → types' ≡ types ++ t ∷ []
      → Trail g p threshold changed m path' types'

-- The names of the records, the last first, on top of `seen`.
abbrev pub names : List ImpactRecord → List String → List String
names [] seen = seen
names (r ∷ rs) seen = names rs (r.node_id ∷ seen)

-- Each record names a node that is neither in `seen` nor named by an earlier record.
abbrev pub AllNew : List ImpactRecord → List String → Type 0
AllNew [] seen = Unit
AllNew (r ∷ rs) seen = (contains seen r.node_id ≡ false) × AllNew rs (r.node_id ∷ seen)

names-snoc :
    (rs : List ImpactRecord) (r : ImpactRecord) (seen : List String)
    → names (rs ++ r ∷ []) seen ≡ r.node_id ∷ names rs seen
names-snoc [] r seen = refl
names-snoc (q ∷ rs) r seen = names-snoc rs r (q.node_id ∷ seen)

AllNew-snoc :
    (rs : List ImpactRecord) (r : ImpactRecord) (seen : List String)
    → AllNew rs seen
    → contains (names rs seen) r.node_id ≡ false
    → AllNew (rs ++ r ∷ []) seen
AllNew-snoc [] r seen h new = (new, tt)
AllNew-snoc (q ∷ rs) r seen h new = (h.0, AllNew-snoc rs r (q.node_id ∷ seen) h.1 new)

contains_more :
    (y : String) (ys xs : List String)
    → All (λ x. contains ys x ≡ true) xs
    → All (λ x. contains (y ∷ ys) x ≡ true) xs
contains_more y ys [] h = tt
contains_more y ys (x ∷ xs) h = (ground arith, contains_more y ys xs h.1)

contains-All : (xs : List String) → All (λ x. contains xs x ≡ true) xs
contains-All [] = tt
contains-All (x ∷ xs) = (ground (arith, eq_refl x), contains_more x xs xs (contains-All xs))

module _ (g : DiGraph) (p : TraversalPolicy) (threshold : ℕ) (changed : List String) where
  pub record IsSound (r : ImpactRecord) : Type 0 where
    pub trail : Trail g p threshold changed r.node_id r.path_from_changed_symbol r.edge_types_used
    pub hops : length r.path_from_changed_symbol ≡ r.hop_distance
    pub within : r.hop_distance ≤ p.max_hops

  pub record IsQueued (e : Entry) : Type 0 where
    pub trail : Trail g p threshold changed e.node e.path e.edges_used
    pub hops : length e.path ≡ e.hop

  pub record IsValid (s : Search) : Type 0 where
    pub sound : All IsSound s.confirmed
    pub new : AllNew s.confirmed changed
    pub visited_names : s.visited ≡ names s.confirmed changed
    pub uncertain : All (λ a. a.confidence < threshold) s.ambiguous
    pub queued : All IsQueued s.queue

  visit-IsValid :
      (e : Entry) (n : String) (s : Search)
      → IsQueued e
      → e.hop < p.max_hops
      → contains (g.successors e.node) n ≡ true
      → IsValid s
      → IsValid (visit g p threshold e n s)
  unfolding visit
  visit-IsValid e n s q room edge v = elim (Bool-cases (contains s.visited n)) [
    | inl seen ↦ rw seen v
    | inr fresh ↦ elim (Bool-cases (ltb (confidence_of (g.edges e.node n)) threshold)) [
      | inl low ↦
          rw (fresh, low)
            (record {
              sound = v.sound;
              new = v.new;
              visited_names = v.visited_names;
              uncertain =
                  All-append (λ a. a.confidence < threshold) s.ambiguous _ v.uncertain
                    (ltb→lt _ _ low, tt);
              queued = v.queued;
            })
      | inr high ↦ elim (Bool-cases (follows p (edge_type_of (g.edges e.node n)))) [
        | inr other ↦ rw (fresh, high, other) v
        | inl followed ↦
            let trail = Trail.step q.trail edge (ground arith) refl followed refl refl in
            rw (fresh, high, followed)
              (record {
                sound = All-append IsSound s.confirmed (impact g p threshold e n ∷ []) v.sound (
                  record {
                    trail = trail;
                    hops = omega (arith, length-append {0} e.path (e.node ∷ []), q.hops);
                    within = omega arith;
                  },
                  tt,
                );
                new =
                    AllNew-snoc s.confirmed (impact g p threshold e n) changed v.new
                      (rw (← v.visited_names) fresh);
                visited_names =
                    ap (◌∷◌ n) v.visited_names
                    ∙ sym (names-snoc s.confirmed (impact g p threshold e n) changed);
                uncertain = v.uncertain;
                queued = All-append IsQueued s.queue (next_entry g p threshold e n ∷ []) v.queued (
                  record {
                    trail = trail;
                    hops = omega (arith, length-append {0} e.path (e.node ∷ []), q.hops);
                  },
                  tt,
                );
              })
      ]
    ]
  ]

  visit_all-IsValid :
      (e : Entry) (ns : List String) (s : Search)
      → IsQueued e
      → e.hop < p.max_hops
      → All (λ n. contains (g.successors e.node) n ≡ true) ns
      → IsValid s
      → IsValid (visit_all g p threshold e ns s)
  unfolding visit_all
  visit_all-IsValid e [] s q room edges v = v
  visit_all-IsValid e (n ∷ ns) s q room edges v =
      visit_all-IsValid e ns (visit g p threshold e n s) q room edges.1
        (visit-IsValid e n s q room edges.0 v)

  round-IsValid :
      (e : Entry) (s : Search) → IsQueued e → IsValid s → IsValid (round g p threshold e s)
  unfolding round
  round-IsValid e s q v = elim (Bool-cases (leb p.max_hops e.hop)) [
    | inl far ↦ rw far v
    | inr near ↦ rw near (
        visit_all-IsValid e (g.successors e.node) s q (ground arith)
          (contains-All (g.successors e.node)) v)
  ]

  pop-IsValid :
      (s : Search) {e : Entry} {rest : List Entry}
      → s.queue ≡ e ∷ rest
      → IsValid s
      → IsQueued e × IsValid (record s { queue = rest })
  pop-IsValid s h v =
      let (q, qs) = subst (All IsQueued) h v.queued in
      (
        q,
        record {
          sound = v.sound;
          new = v.new;
          visited_names = v.visited_names;
          uncertain = v.uncertain;
          queued = qs;
        },
      )

  bfs_loop-IsValid :
      (fuel : ℕ) (s : Search) {s' : Search}
      → IsValid s
      → bfs_loop g p threshold fuel s ≡ some s'
      → IsValid s'
  unfolding bfs_loop
  bfs_loop-IsValid zero s v h = cc
  bfs_loop-IsValid (suc fuel) s {s'} v h = elim (List-cases s.queue) [
    | inl e ↦ let same : s ≡ s' = ground arith in subst IsValid same v
    | inr (x, rest, e) ↦
        let (q, v') = pop-IsValid s e v in
        bfs_loop-IsValid fuel (round g p threshold x (record s { queue = rest }))
          (round-IsValid x (record s { queue = rest }) q v') (ground arith)
  ]

  bfs_from-IsValid :
      (fuel : ℕ) (start : String) (s : Search) {s' : Search}
      → contains changed start ≡ true
      → IsValid s
      → bfs_from g p threshold fuel start s ≡ some s'
      → IsValid s'
  unfolding bfs_from
  bfs_from-IsValid fuel start s c v h =
      bfs_loop-IsValid fuel _
        (record {
          sound = v.sound;
          new = v.new;
          visited_names = v.visited_names;
          uncertain = v.uncertain;
          queued = (record { trail = Trail.origin c; hops = refl }, tt);
        })
        h

  traverse_from-IsValid :
      (fuel : ℕ) (starts : List String) (s : Search) {s' : Search}
      → All (λ n. contains changed n ≡ true) starts
      → IsValid s
      → traverse_from g p threshold fuel starts s ≡ some s'
      → IsValid s'
  unfolding traverse_from
  traverse_from-IsValid fuel [] s {s'} c v h =
      let same : s ≡ s' = ground arith in subst IsValid same v
  traverse_from-IsValid fuel (start ∷ rest) s c v h = elim (Bool-cases (g.has_node start)) [
    | inr out ↦ traverse_from-IsValid fuel rest s c.1 v (ground arith)
    | inl known ↦ elim (Option-cases (bfs_from g p threshold fuel start s)) [
      | inl none_left ↦ absurd (ground arith)
      | inr (t, e) ↦
          traverse_from-IsValid fuel rest t c.1 (bfs_from-IsValid fuel start s c.0 v e)
            (ground arith)
    ]
  ]

-- Whatever the graph, the policy and the threshold: each confirmed record is at the end of a trail
-- of known, followed edges at or above the threshold from a changed symbol, along the path and with
-- the edge types that it gives; its hop distance is the length of that path and within the policy's
-- limit; no confirmed node is a changed symbol or confirmed twice; and each ambiguous link is below
-- the threshold.
pub traverse-IsValid :
    (g : DiGraph) (p : TraversalPolicy) (threshold fuel : ℕ) (changed : List String) {s : Search}
    → traverse g p threshold fuel changed ≡ some s
    → IsValid g p threshold changed s
unfolding traverse
traverse-IsValid g p threshold fuel changed h =
    traverse_from-IsValid g p threshold changed fuel changed _ (contains-All changed)
      (record { sound = tt; new = tt; visited_names = refl; uncertain = tt; queued = tt }) h
