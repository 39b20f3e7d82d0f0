-- ===== src/BlastRadius/Termination.antt =====
-- The search ends: each node enters the queue once at most.
use llm_sca_tooling.Prelude.{
  ℕ, zero, suc, ◌+◌, ◌≤◌, ◌<◌, ◌≡◌, inl, inr, String, true, false, some, List, [], ◌∷◌, arith,
  contains, All, length, length-append, if◌then◌else◌, eq_iff, List-cases, eq_refl, Bool-cases,
  refl,
}
use llm_sca_tooling.BlastRadius.Graph.{DiGraph, TraversalPolicy}
use llm_sca_tooling.BlastRadius.Traversal.{
  Entry, Search, next_entry, visit, visit_all, round, bfs_loop, traverse_from, traverse, bfs_from,
}

abbrev pub unvisited : List String → List String → ℕ
unvisited [] visited = 0
unvisited (n ∷ ns) visited =
    if contains visited n then unvisited ns visited else suc (unvisited ns visited)

unvisited-cons-le :
    (ns visited : List String) (x : String) → unvisited ns (x ∷ visited) ≤ unvisited ns visited
unvisited-cons-le [] visited x = omega arith
unvisited-cons-le (n ∷ ns) visited x = ground (arith, unvisited-cons-le ns visited x)

unvisited-cons-lt :
    (ns visited : List String) (x : String)
    → contains ns x ≡ true
    → contains visited x ≡ false
    → unvisited ns (x ∷ visited) < unvisited ns visited
unvisited-cons-lt [] visited x h new = cc
unvisited-cons-lt (n ∷ ns) visited x h new = ground (
  arith,
  eq_iff n x,
  eq_iff x n,
  eq_refl x,
  unvisited-cons-le ns visited x,
  unvisited-cons-lt ns visited x,
)

unvisited-le-length : (ns visited : List String) → unvisited ns visited ≤ length ns
unvisited-le-length [] visited = omega arith
unvisited-le-length (n ∷ ns) visited = ground (arith, unvisited-le-length ns visited)

-- The search stays among finitely many nodes.
abbrev pub IsClosed : DiGraph → List String → Type 0
IsClosed g nodes = (n : String) → All (λ m. contains nodes m ≡ true) (g.successors n)

module _ (g : DiGraph) (p : TraversalPolicy) (threshold : ℕ) (nodes : List String) where
  abbrev work : Search → ℕ
  work s = length s.queue + unvisited nodes s.visited

  visit-work :
      (e : Entry) (n : String) (s : Search)
      → contains nodes n ≡ true
      → work (visit g p threshold e n s) ≤ work s
  unfolding visit
  visit-work e n s h = ground (
    arith,
    unvisited-cons-lt nodes s.visited n h,
    length-append {0} s.queue (next_entry g p threshold e n ∷ []),
  )

  visit_all-work :
      (e : Entry) (ns : List String) (s : Search)
      → All (λ n. contains nodes n ≡ true) ns
      → work (visit_all g p threshold e ns s) ≤ work s
  unfolding visit_all
  visit_all-work e [] s h = omega arith
  visit_all-work e (n ∷ ns) s h =
      omega (arith, visit-work e n s h.0, visit_all-work e ns (visit g p threshold e n s) h.1)

  module _ (closed : IsClosed g nodes) where
    round-work : (e : Entry) (s : Search) → work (round g p threshold e s) ≤ work s
    unfolding round
    round-work e s = ground (arith, visit_all-work e (g.successors e.node) s (closed e.node))

    bfs_loop-total :
        (fuel : ℕ) (s : Search)
        → work s < fuel
        → (s' : Search) × (bfs_loop g p threshold fuel s ≡ some s')
    unfolding bfs_loop
    bfs_loop-total zero s h = absurd (omega arith)
    bfs_loop-total (suc fuel) s h = elim (List-cases s.queue) [
      | inl e ↦ (s, ground arith)
      | inr (x, rest, e) ↦
          let popped = record s { queue = rest } in
          let less : work popped < work s = ground arith in
          let (s', done) =
            bfs_loop-total fuel (round g p threshold x popped)
              (omega (arith, round-work x popped, less)) in
          (s', ground arith)
    ]

    traverse_from-total :
        (fuel : ℕ) (starts : List String) (s : Search)
        → length nodes + 1 < fuel
        → (s' : Search) × (traverse_from g p threshold fuel starts s ≡ some s')
    unfolding traverse_from bfs_from
    traverse_from-total fuel [] s h = (s, refl)
    traverse_from-total fuel (x ∷ rest) s h = elim (Bool-cases (g.has_node x)) [
      | inr out ↦ let (s', done) = traverse_from-total fuel rest s h in (s', ground arith)
      | inl known ↦
          let (t, found) =
            bfs_loop-total fuel
              (record s { queue = record { node = x; hop = 0; path = []; edges_used = [] } ∷ [] })
              (omega (arith, unvisited-le-length nodes s.visited)) in
          let (s', done) = traverse_from-total fuel rest t h in (s', ground arith)
    ]

-- On a graph whose edges lead into a list of nodes, the search ends from any changed symbols as
-- soon as the fuel exceeds the number of nodes by two.
pub traverse-total :
    (g : DiGraph) (p : TraversalPolicy) (threshold : ℕ) (nodes : List String) (fuel : ℕ)
    (changed : List String)
    → IsClosed g nodes
    → length nodes + 1 < fuel
    → (s : Search) × (traverse g p threshold fuel changed ≡ some s)
unfolding traverse
traverse-total g p threshold nodes fuel changed closed h =
    traverse_from-total g p threshold nodes closed fuel changed _ h
