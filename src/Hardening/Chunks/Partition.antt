-- ===== src/Hardening/Chunks/Partition.antt =====
-- Chunking loses no node and repeats none, and no chunk is too large.
use mathlib.Core.Path.{subst}
use mathlib.Core.List.{Perm, perm_middle, append-nil, append_assoc}
use mathlib.Core.List.Perm
use llm_sca_tooling.Prelude.{
  ℕ, zero, suc, ◌+◌, ◌≤◌, ◌<◌, String, ◌≡◌, ap, ◌∙◌, sym, inl, inr, refl, false, List, [], ◌∷◌,
  ◌++◌, arith, ltb, length, take, drop, All, All-append, length-append, length-take, length-drop,
  take-append-drop, Bool-cases, List-cases,
}
use llm_sca_tooling.Hardening.Chunks.{
  Groups, Split, add_to_group, group_from, group_by_module, add_batch, add_group, add_groups, close,
  or_empty, split_groups, same_codes, prefix_of,
}

-- All nodes of the groups, and of the chunks.
abbrev pub members : Groups → List String
members [] = []
members ((p, ns) ∷ gs) = ns ++ members gs

abbrev pub concat : List (List String) → List String
concat [] = []
concat (c ∷ cs) = c ++ concat cs

concat-snoc : (cs : List (List String)) (c : List String) → concat (cs ++ c ∷ []) ≡ concat cs ++ c
concat-snoc [] c = append-nil c
concat-snoc (d ∷ cs) c = ap (λ l. d ++ l) (concat-snoc cs c) ∙ sym (append_assoc d (concat cs) c)

-- The nodes placed so far, in order.
abbrev placed : Split → List String
placed s = concat s.done ++ s.current

add_batch-placed :
    (max : ℕ) (batch : List String) (s : Split) → placed (add_batch max batch s) ≡ placed s ++ batch
unfolding add_batch
add_batch-placed max batch s = elim (Bool-cases (ltb max (length s.current + length batch))) [
  | inr fits ↦ rw fits (sym (append_assoc (concat s.done) s.current batch))
  | inl full ↦ elim (List-cases s.current) [
    | inl e ↦ rw (full, e) (ap (λ l. l ++ batch) (sym (append-nil (concat s.done))))
    | inr (c, cs, e) ↦ rw (full, e) (ap (λ l. l ++ batch) (concat-snoc s.done (c ∷ cs)))
  ]
]

take-nil : (n : ℕ) → ◌≡◌ {A = List String} (take n []) []
take-nil zero = refl
take-nil (suc n) = refl

le_of_ltb : (a b : ℕ) → ltb a b ≡ false → b ≤ a
le_of_ltb a b h = ground arith

add_group-placed :
    (max fuel : ℕ) (ns : List String) (s : Split)
    → 0 < max
    → length ns ≤ fuel
    → placed (add_group max fuel ns s) ≡ placed s ++ ns
unfolding add_group
add_group-placed max zero [] s pos h =
    add_batch-placed max (take max []) s ∙ ap (λ l. placed s ++ l) (take-nil max)
add_group-placed max zero (n ∷ ns) s pos h = absurd (omega arith)
add_group-placed max (suc fuel) ns s pos h = elim (List-cases (drop max ns)) [
  | inl e ↦
      let whole : take max ns ≡ ns =
        sym (append-nil (take max ns))
        ∙ ap (λ l. take max ns ++ l) (sym e)
        ∙ take-append-drop max ns in
      rw (e, add_group) (add_batch-placed max (take max ns) s ∙ ap (λ l. placed s ++ l) whole)
  | inr (m, ms, e) ↦
      let whole : take max ns ++ m ∷ ms ≡ ns =
        ap (λ l. take max ns ++ l) (sym e) ∙ take-append-drop max ns in
      rw (e, add_group)
        (add_group-placed max fuel (m ∷ ms) (add_batch max (take max ns) s) pos
            (omega (arith, ap length e, length-drop {0} max ns))
          ∙ ap (λ l. l ++ m ∷ ms) (add_batch-placed max (take max ns) s)
          ∙ append_assoc (placed s) (take max ns) (m ∷ ms)
          ∙ ap (λ l. placed s ++ l) whole)
]

add_groups-placed :
    (max : ℕ) (gs : Groups) (s : Split)
    → 0 < max
    → placed (add_groups max gs s) ≡ placed s ++ members gs
unfolding add_groups
add_groups-placed max [] s pos = sym (append-nil (placed s))
add_groups-placed max ((p, ns) ∷ gs) s pos =
    add_groups-placed max gs (add_group max (length ns) ns s) pos
    ∙ ap (λ l. l ++ members gs) (add_group-placed max (length ns) ns s pos (omega arith))
    ∙ append_assoc (placed s) ns (members gs)

close-placed : (s : Split) → concat (or_empty (close s)) ≡ placed s
unfolding close or_empty
close-placed s = elim (List-cases s.current) [
  | inl e ↦ elim (List-cases s.done) [
    | inl d ↦ rw (e, d, close)
    | inr (c, cs, d) ↦ rw (e, d, close) (sym (append-nil (c ++ concat cs)))
  ]
  | inr (c, cs, e) ↦ elim (List-cases s.done) [
    | inl d ↦ rw (e, d, close) (append-nil (c ∷ cs))
    | inr (b, bs, d) ↦ rw (e, d, close) (concat-snoc (b ∷ bs) (c ∷ cs))
  ]
]

abbrev IsBounded : ℕ → Split → Type 0
IsBounded max s = All (λ c. length c ≤ max) s.done × (length s.current ≤ max)

add_batch-IsBounded :
    (max : ℕ) (batch : List String) (s : Split)
    → length batch ≤ max
    → IsBounded max s
    → IsBounded max (add_batch max batch s)
unfolding add_batch
add_batch-IsBounded max batch s small b =
    elim (Bool-cases (ltb max (length s.current + length batch))) [
      | inr fits ↦
          rw fits (b.0, omega (arith, length-append {0} s.current batch, le_of_ltb max _ fits))
      | inl full ↦ elim (List-cases s.current) [
        | inl e ↦ rw (full, e) (b.0, small)
        | inr (c, cs, e) ↦
            let low : length (c ∷ cs) ≤ max = omega (arith, ap length e, b.1) in
            rw (full, e)
              (All-append (λ d. length d ≤ max) s.done ((c ∷ cs) ∷ []) b.0 (low, tt), small)
      ]
    ]

add_group-IsBounded :
    (max fuel : ℕ) (ns : List String) (s : Split)
    → IsBounded max s
    → IsBounded max (add_group max fuel ns s)
unfolding add_group
add_group-IsBounded max zero ns s b =
    add_batch-IsBounded max (take max ns) s (omega (arith, length-take {0} max ns)) b
add_group-IsBounded max (suc fuel) ns s b =
    let next = add_batch-IsBounded max (take max ns) s (omega (arith, length-take {0} max ns)) b in
    elim (List-cases (drop max ns)) [
      | inl e ↦ rw (e, add_group) next
      | inr (m, ms, e) ↦
          rw (e, add_group)
            (add_group-IsBounded max fuel (m ∷ ms) (add_batch max (take max ns) s) next)
    ]

add_groups-IsBounded :
    (max : ℕ) (gs : Groups) (s : Split) → IsBounded max s → IsBounded max (add_groups max gs s)
unfolding add_groups
add_groups-IsBounded max [] s b = b
add_groups-IsBounded max ((p, ns) ∷ gs) s b =
    add_groups-IsBounded max gs _ (add_group-IsBounded max (length ns) ns s b)

close-IsBounded :
    (max : ℕ) (s : Split) → IsBounded max s → All (λ c. length c ≤ max) (or_empty (close s))
unfolding close or_empty
close-IsBounded max s b = elim (List-cases s.current) [
  | inl e ↦ elim (List-cases s.done) [
    | inl d ↦ rw (e, d, close) (omega arith, tt)
    | inr (c, cs, d) ↦ rw (e, d, close) (subst (All (λ x. length x ≤ max)) d b.0)
  ]
  | inr (c, cs, e) ↦
      let low : length (c ∷ cs) ≤ max = omega (arith, ap length e, b.1) in
      let all : All (λ x. length x ≤ max) (s.done ++ (c ∷ cs) ∷ []) =
        All-append (λ x. length x ≤ max) s.done ((c ∷ cs) ∷ []) b.0 (low, tt) in
      rw (e, close) (or_same (s.done ++ (c ∷ cs) ∷ []) all)
]
  where
    or_same :
        (l : List (List String))
        → All (λ x. length x ≤ max) l
        → All (λ x. length x ≤ max) (or_empty l)
    or_same [] h = (omega arith, tt)
    or_same (x ∷ xs) h = h

add_to_group-perm :
    (p : List ℕ) (n : String) (gs : Groups) → Perm (members (add_to_group p n gs)) (n ∷ members gs)
unfolding add_to_group
add_to_group-perm p n [] = Perm.refl (n ∷ [])
add_to_group-perm p n ((q, ns) ∷ gs) = elim (Bool-cases (same_codes q p)) [
  | inl e ↦ rw e (rw (append_assoc ns (n ∷ []) (members gs)) (perm_middle ns (members gs)))
  | inr e ↦
      rw e
        (Perm.trans (Perm.append_left ns (add_to_group-perm p n gs)) (perm_middle ns (members gs)))
]

group_from-perm :
    (gs : Groups) (nodes : List String) → Perm (members (group_from gs nodes)) (members gs ++ nodes)
unfolding group_from
group_from-perm gs [] = rw append-nil (Perm.refl (members gs))
group_from-perm gs (n ∷ ns) = Perm.trans (group_from-perm (add_to_group (prefix_of n) n gs) ns) (
    Perm.trans (Perm.append_right ns (add_to_group-perm (prefix_of n) n gs))
      (Perm.symm (perm_middle (members gs) ns)))

-- With chunks of at least one node, the chunks of a graph hold each node as often as it was given,
-- and no chunk has more than `max` nodes.
pub split_groups-perm :
    (max : ℕ) (nodes : List String)
    → 0 < max
    → let chunks = split_groups max (group_by_module nodes) in
      Perm (concat chunks) nodes × All (λ c. length c ≤ max) chunks
unfolding split_groups group_by_module
split_groups-perm max nodes pos =
    let start : Split = record { done = []; current = [] } in
    let s = add_groups max (group_from [] nodes) start in
    (
      rw (close-placed s ∙ add_groups-placed max (group_from [] nodes) start pos)
          (group_from-perm [] nodes),
      close-IsBounded max s
          (add_groups-IsBounded max (group_from [] nodes) start (tt, omega arith)),
    )
