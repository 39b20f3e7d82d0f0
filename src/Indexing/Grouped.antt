-- ===== src/Indexing/Grouped.antt =====
-- The grouping by key of indexing/backends/fact_reconciler.py: every fact stands in a group of facts
-- of its key, also after the sort.
use llm_sca_tooling.Prelude.Text.{text_less, codes}
use mathlib.Core.Path.{subst}
use mathlib.Core.List.{Memᴰ}
use llm_sca_tooling.Prelude.{
  String, List, [], ◌∷◌, ◌++◌, ◌≡◌, refl, All, arith, if◌then◌else◌, str_eq, ◌⊎◌, Bool-cases, inl,
  sym, inr, All-append, eq_iff,
}
use llm_sca_tooling.Prelude.Dict.{Dict, lookup, insert}
use llm_sca_tooling.Indexing.Reconciler.{add_to, add_facts, insert_item, sorted_items}

-- A fact of a backend stands in a group, all of whose facts have the key of the group.
pub record IsHeld {V : Type 0} (key : V → String) (e : String × V)
    (groups : Dict (List (String × V))) : Type 0 where
  pub group : String × List (String × V)
  pub listed : Memᴰ group groups
  pub member : Memᴰ e group.1
  pub filed : All (λ x. key x.1 ≡ group.0) group.1

pub mem-left : {A : Type 0} (x : A) (xs ys : List A) → Memᴰ x xs → Memᴰ x (xs ++ ys)
mem-left x [] ys m = elim m [ ]
mem-left x (y ∷ xs) ys (Memᴰ.head e) = Memᴰ.head e
mem-left x (y ∷ xs) ys (Memᴰ.tail m) = Memᴰ.tail (mem-left x xs ys m)

mem-last : {A : Type 0} (x : A) (xs : List A) → Memᴰ x (xs ++ x ∷ [])
mem-last x [] = Memᴰ.head refl
mem-last x (y ∷ xs) = Memᴰ.tail (mem-last x xs)

module _ {V : Type 0} where
  add_to-nil : (k : String) (v : V) → add_to k v [] ≡ (k, v ∷ []) ∷ []
  unfolding add_to lookup insert
  add_to-nil k v = refl

  add_to-cons :
      (k j : String) (v : V) (vs : List V) (groups : Dict (List V))
      → add_to k v ((j, vs) ∷ groups)
        ≡ (if str_eq j k then (k, vs ++ v ∷ []) ∷ groups else (j, vs) ∷ add_to k v groups)
  unfolding add_to lookup insert
  add_to-cons k j v vs groups = ground arith

module _ {V : Type 0} (key : V → String) where
  here :
      (e : String × V) (k : String) (es : List (String × V)) (gs : Dict (List (String × V)))
      → Memᴰ e es
      → All (λ x. key x.1 ≡ k) es
      → IsHeld key e ((k, es) ∷ gs)
  here e k es gs m a = record { group = (k, es); listed = Memᴰ.head refl; member = m; filed = a }

  later :
      (e : String × V) (g : String × List (String × V)) (gs : Dict (List (String × V)))
      → IsHeld key e gs
      → IsHeld key e (g ∷ gs)
  later e g gs h = record {
    group = h.group;
    listed = Memᴰ.tail h.listed;
    member = h.member;
    filed = h.filed;
  }

  -- In the first group, or in another one.
  pub IsHeld-cases :
      (e : String × V) (k : String) (es : List (String × V)) (gs : Dict (List (String × V)))
      → IsHeld key e ((k, es) ∷ gs)
      → (Memᴰ e es × All (λ x. key x.1 ≡ k) es) ⊎ IsHeld key e gs
  IsHeld-cases e k es gs h = split h.group h.listed h.member h.filed
    where
      split :
          (g : String × List (String × V))
          → Memᴰ g ((k, es) ∷ gs)
          → Memᴰ e g.1
          → All (λ x. key x.1 ≡ g.0) g.1
          → (Memᴰ e es × All (λ x. key x.1 ≡ k) es) ⊎ IsHeld key e gs
      split g (Memᴰ.head q) m a = inl (
          subst (λ (p : String × List (String × V)). Memᴰ e p.1 × All (λ x. key x.1 ≡ p.0) p.1) q
            (m, a))
      split g (Memᴰ.tail l) m a = inr (record { group = g; listed = l; member = m; filed = a })

  refiled :
      (j k : String) (es : List (String × V))
      → j ≡ k
      → All (λ x. key x.1 ≡ j) es
      → All (λ x. key x.1 ≡ k) es
  refiled j k es q a = subst (λ i. All (λ (x : String × V). key x.1 ≡ i) es) q a

  held-add_to :
      (e : String × V) (b : String) (v : V) (gs : Dict (List (String × V)))
      → IsHeld key e gs
      → IsHeld key e (add_to (key v) (b, v) gs)
  held-add_to e b v [] h = elim h.listed [ ]
  held-add_to e b v ((j, es) ∷ gs) h =
      rw (add_to-cons (key v) j (b, v) es gs) (elim (Bool-cases (str_eq j (key v))) [
        | inl q ↦ rw q (elim (IsHeld-cases e j es gs h) [
          | inl (m, a) ↦ here e (key v) (es ++ (b, v) ∷ []) gs (mem-left e es ((b, v) ∷ []) m) (
              All-append (λ (x : String × V). key x.1 ≡ key v) es ((b, v) ∷ [])
                (refiled j (key v) es ((eq_iff j (key v)).0 q) a) (refl, tt))
          | inr r ↦ later e (key v, es ++ (b, v) ∷ []) gs r
        ])
        | inr q ↦ rw q (elim (IsHeld-cases e j es gs h) [
          | inl (m, a) ↦ here e j es (add_to (key v) (b, v) gs) m a
          | inr r ↦ later e (j, es) (add_to (key v) (b, v) gs) (held-add_to e b v gs r)
        ])
      ])

  -- Every group holds facts of its key alone.
  abbrev pub IsFiled : Dict (List (String × V)) → Type 0
  IsFiled gs = All (λ g. All (λ x. key x.1 ≡ g.0) g.1) gs

  add_to-IsFiled :
      (b : String) (v : V) (gs : Dict (List (String × V)))
      → IsFiled gs
      → IsFiled (add_to (key v) (b, v) gs)
  add_to-IsFiled b v [] f = rw (add_to-nil {V = String × V} (key v) (b, v)) ((refl, tt), tt)
  add_to-IsFiled b v ((j, es) ∷ gs) f =
      rw (add_to-cons (key v) j (b, v) es gs) (elim (Bool-cases (str_eq j (key v))) [
        | inl q ↦ rw q (
          All-append (λ (x : String × V). key x.1 ≡ key v) es ((b, v) ∷ [])
              (refiled j (key v) es ((eq_iff j (key v)).0 q) f.0) (refl, tt),
          f.1,
        )
        | inr q ↦ rw q (f.0, add_to-IsFiled b v gs f.1)
      ])

  added-add_to :
      (b : String) (v : V) (gs : Dict (List (String × V)))
      → IsFiled gs
      → IsHeld key (b, v) (add_to (key v) (b, v) gs)
  added-add_to b v [] f =
      rw (add_to-nil {V = String × V} (key v) (b, v))
        (here (b, v) (key v) ((b, v) ∷ []) [] (Memᴰ.head refl) (refl, tt))
  added-add_to b v ((j, es) ∷ gs) f =
      rw (add_to-cons (key v) j (b, v) es gs) (elim (Bool-cases (str_eq j (key v))) [
        | inl q ↦ rw q (
            here (b, v) (key v) (es ++ (b, v) ∷ []) gs (mem-last (b, v) es)
              (All-append (λ (x : String × V). key x.1 ≡ key v) es ((b, v) ∷ [])
                (refiled j (key v) es ((eq_iff j (key v)).0 q) f.0) (refl, tt)))
        | inr q ↦ rw q (later (b, v) (j, es) (add_to (key v) (b, v) gs) (added-add_to b v gs f.1))
      ])

  pub add_facts-IsFiled :
      (b : String) (vs : List V) (gs : Dict (List (String × V)))
      → IsFiled gs
      → IsFiled (add_facts key b vs gs)
  unfolding add_facts
  add_facts-IsFiled b [] gs f = f
  add_facts-IsFiled b (v ∷ vs) gs f =
      add_facts-IsFiled b vs (add_to (key v) (b, v) gs) (add_to-IsFiled b v gs f)

  pub held-add_facts :
      (e : String × V) (b : String) (vs : List V) (gs : Dict (List (String × V)))
      → IsHeld key e gs
      → IsHeld key e (add_facts key b vs gs)
  unfolding add_facts
  held-add_facts e b [] gs h = h
  held-add_facts e b (v ∷ vs) gs h =
      held-add_facts e b vs (add_to (key v) (b, v) gs) (held-add_to e b v gs h)

  pub added-add_facts :
      (b : String) (u : V) (vs : List V) (gs : Dict (List (String × V)))
      → IsFiled gs
      → Memᴰ u vs
      → IsHeld key (b, u) (add_facts key b vs gs)
  unfolding add_facts
  added-add_facts b u [] gs f m = elim m [ ]
  added-add_facts b u (v ∷ vs) gs f (Memᴰ.head q) =
      subst (λ (w : V). IsHeld key (b, w) (add_facts key b vs (add_to (key v) (b, v) gs))) (sym q)
        (held-add_facts (b, v) b vs (add_to (key v) (b, v) gs) (added-add_to b v gs f))
  added-add_facts b u (v ∷ vs) gs f (Memᴰ.tail m) =
      added-add_facts b u vs (add_to (key v) (b, v) gs) (add_to-IsFiled b v gs f) m

  held-insert_item :
      (e : String × V) (g : String × List (String × V)) (gs : Dict (List (String × V)))
      → IsHeld key e (g ∷ gs)
      → IsHeld key e (insert_item g gs)
  held-insert_item e g [] h = h
  held-insert_item e (k, es) ((j, fs) ∷ gs) h = elim (Bool-cases (text_less (codes k) (codes j))) [
    | inl q ↦ rw q h
    | inr q ↦ rw q (elim (IsHeld-cases e k es ((j, fs) ∷ gs) h) [
      | inl (m, a) ↦
          later e (j, fs) (insert_item (k, es) gs)
            (held-insert_item e (k, es) gs (here e k es gs m a))
      | inr r ↦ elim (IsHeld-cases e j fs gs r) [
        | inl (m, a) ↦ here e j fs (insert_item (k, es) gs) m a
        | inr t ↦
            later e (j, fs) (insert_item (k, es) gs)
              (held-insert_item e (k, es) gs (later e (k, es) gs t))
      ]
    ])
  ]

  pub held-sorted_items :
      (e : String × V) (gs : Dict (List (String × V)))
      → IsHeld key e gs
      → IsHeld key e (sorted_items gs)
  unfolding sorted_items
  held-sorted_items e [] h = h
  held-sorted_items e ((k, es) ∷ gs) h = elim (IsHeld-cases e k es gs h) [
    | inl (m, a) ↦ held-insert_item e (k, es) (sorted_items gs) (here e k es (sorted_items gs) m a)
    | inr r ↦
        held-insert_item e (k, es) (sorted_items gs)
          (later e (k, es) (sorted_items gs) (held-sorted_items e gs r))
  ]
