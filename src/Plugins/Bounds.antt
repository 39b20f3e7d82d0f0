-- ===== src/Plugins/Bounds.antt =====
-- How many hops a traversal makes, and that it ends.
use llm_sca_tooling.Prelude.{
  ℕ, zero, suc, ◌+◌, ◌-◌, ◌≤◌, ◌<◌, max, String, ◌≡◌, inl, inr, refl, some, List, [], ◌∷◌, arith,
  ltb, leb, length, length-append, contains, Bool-cases, List-cases, ap, Option, select, ◌⊎◌,
}
use llm_sca_tooling.Plugins.Traversal.{
  Link, Plugin, Walk, is_uncertain, target_of, add_ambiguous, add_hop, follow_links, follow_plugins,
  walk, traverse_plugins, is_selected, CrossLanguageTraversalResult, to_result, no_plugins_result,
}

-- As many entries of the queue were added as hops, and there are at most `top` hops.
record Grown (top : ℕ) (w r : Walk) : Type 0 where
  balance : length r.queue + length w.hops ≡ length w.queue + length r.hops
  more : length w.hops ≤ length r.hops
  few : length r.hops ≤ top

module _ (limit : ℕ) (min_confidence : String) where
  follow_links-Grown :
      (plugin current : String) (ls : List Link) (w : Walk)
      → Grown
          (max limit (length w.hops + 1))
          w
          (follow_links limit min_confidence plugin current ls w)
  unfolding follow_links
  follow_links-Grown plugin current [] w = record {
    balance = omega arith;
    more = omega arith;
    few = omega arith;
  }
  follow_links-Grown plugin current (l ∷ ls) w =
      let w' = add_hop limit min_confidence plugin current l w in
      let hops : length w'.hops ≡ length w.hops + 1 = length-append w.hops _ in
      let queue : length w'.queue ≡ length w.queue + 1 = length-append w.queue _ in
      elim (Bool-cases (is_uncertain limit min_confidence l)) [
        | inl unsure ↦
            let g =
              follow_links-Grown plugin current ls
                (add_ambiguous limit min_confidence plugin current l w) in
            rw (unsure, follow_links) (record { balance = g.balance; more = g.more; few = g.few })
        | inr sure ↦ elim (Bool-cases (contains w.visited (target_of current l))) [
          | inl old ↦
              let g = follow_links-Grown plugin current ls w in rw (sure, old, follow_links) g
          | inr new ↦ elim (Bool-cases (leb limit (length w'.hops))) [
            | inl full ↦
                rw (sure, new, full, follow_links)
                  (record {
                    balance = omega (arith, hops, queue);
                    more = omega (arith, hops);
                    few = omega (arith, hops);
                  })
            | inr room ↦
                let g = follow_links-Grown plugin current ls w' in
                let below : length w'.hops < limit = ground arith in
                rw (sure, new, room, follow_links)
                  (record {
                    balance = omega (arith, hops, queue, g.balance);
                    more = omega (arith, hops, g.more);
                    few = omega (arith, hops, below, g.few);
                  })
          ]
        ]
      ]

  follow_plugins-Grown :
      (current : String) (ps : List Plugin) (w : Walk)
      → Grown
          (max limit (length w.hops) + length ps)
          w
          (follow_plugins limit min_confidence current ps w)
  unfolding follow_plugins
  follow_plugins-Grown current [] w = record {
    balance = omega arith;
    more = omega arith;
    few = omega arith;
  }
  follow_plugins-Grown current (p ∷ ps) w =
      let w' = follow_links limit min_confidence p.plugin_id current (p.links current) w in
      let one = follow_links-Grown p.plugin_id current (p.links current) w in
      let rest = follow_plugins-Grown current ps w' in
      record {
        balance = omega (arith, one.balance, rest.balance);
        more = omega (arith, one.more, rest.more);
        few = omega (arith, one.few, rest.few);
      }

  -- A round under the limit ends with at most as many hops as the limit and the further plugins.
  round_few :
      (current : String) (p : Plugin) (ps : List Plugin) (w : Walk)
      → length w.hops < limit
      → length (follow_plugins limit min_confidence current (p ∷ ps) w).hops ≤ limit + length ps
  unfolding follow_plugins
  round_few current p ps w h =
      let w' = follow_links limit min_confidence p.plugin_id current (p.links current) w in
      let one = follow_links-Grown p.plugin_id current (p.links current) w in
      let rest = follow_plugins-Grown current ps w' in omega (arith, one.few, rest.few)

  walk-ends :
      (fuel : ℕ) (p : Plugin) (ps : List Plugin) (w : Walk)
      → length w.hops ≤ limit + length ps
      → length w.queue + (limit + length ps - length w.hops) < fuel
      → (r : Walk) × (walk limit min_confidence fuel (p ∷ ps) w ≡ some r)
        × (length r.hops ≤ limit + length ps)
  unfolding walk
  walk-ends zero p ps w b h = absurd (omega arith)
  walk-ends (suc fuel) p ps w b h = elim (List-cases w.queue) [
    | inl e ↦ (w, ground arith, b)
    | inr (current, rest, e) ↦ elim (Bool-cases (ltb (length w.hops) limit)) [
      | inr full ↦ (w, ground arith, b)
      | inl room ↦
          let v : Walk = record w { queue = rest } in
          let below : length w.hops < limit = ground arith in
          let next = follow_plugins limit min_confidence current (p ∷ ps) v in
          let g = follow_plugins-Grown current (p ∷ ps) v in
          let few = round_few current p ps v below in
          let (r, done, low) =
            walk-ends fuel p ps next few (omega (arith, g.balance, g.more, few, b, ap length e)) in
          (r, ground (arith, done), low)
    ]
  ]

  result_of :
      (fuel : ℕ) (start : String) (available : List Plugin) (wanted : Option (List String))
      (p : Plugin) (ps : List Plugin) (r : Walk)
      → select (is_selected wanted) available ≡ p ∷ ps
      → walk limit min_confidence fuel
          (p ∷ ps)
          (record { visited = start ∷ []; queue = start ∷ []; hops = []; ambiguous = [] })
        ≡ some r
      → traverse_plugins limit min_confidence fuel start available wanted
        ≡ some (to_result limit min_confidence start r)
  unfolding traverse_plugins
  result_of fuel start available wanted p ps r e done = rw (e, done, traverse_plugins) refl

  -- With fuel for the limit, the selected plugins and two rounds more, a traversal ends with a result,
  -- whatever the plugins give; its number of hops is below the limit plus the number of the selected
  -- plugins, or it is 0.
  pub traverse_plugins-total :
      (fuel : ℕ) (start : String) (available : List Plugin) (wanted : Option (List String))
      → let selected = select (is_selected wanted) available in
        limit + length selected + 1 < fuel
        → (r : CrossLanguageTraversalResult) × (traverse_plugins limit min_confidence fuel start
              available wanted
            ≡ some r)
          × (r.total_hops ≡ length r.hops)
          × ((r.total_hops ≡ 0) ⊎ (r.total_hops < limit + length selected))
  unfolding traverse_plugins
  traverse_plugins-total fuel start available wanted enough =
      elim (List-cases (select (is_selected wanted) available)) [
        | inl e ↦ (no_plugins_result, rw (e, traverse_plugins) refl, refl, inl refl)
        | inr (p, ps, e) ↦
            let w : Walk = record {
              visited = start ∷ [];
              queue = start ∷ [];
              hops = [];
              ambiguous = [];
            } in
            let (r, done, low) =
              walk-ends fuel p ps w (omega arith) (omega (arith, ap length e, enough)) in
            (
              to_result limit min_confidence start r,
              result_of fuel start available wanted p ps r e done,
              refl,
              inr (omega (arith, low, ap length e)),
            )
      ]
