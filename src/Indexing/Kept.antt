-- ===== src/Indexing/Kept.antt =====
-- What the reconciliation of indexing/backends/fact_reconciler.py keeps of the facts that it is
-- given.
use mathlib.Core.Path.{subst}
use mathlib.Core.List.{Memᴰ}
use llm_sca_tooling.Prelude.{
  String, true, false, List, [], ◌∷◌, ◌≡◌, refl, All, arith, Bool-cases, sym, inl, inr, contains,
  ltb, map, eq_iff, length, ap, str_eq, ◌||◌,
}
use llm_sca_tooling.Prelude.Floats.{Floats}
use llm_sca_tooling.Indexing.Reconciler.{max_by, sorted_set, insert_text}

-- The order of numbers, away from NaN.
pub record IsOrdered {F : Type 0} (f : Floats F) : Type 0 where
  pub less_asym : (a b : F) → f.less a b ≡ true → f.less b a ≡ false
  pub not_less_trans : (a b c : F) → f.less a b ≡ false → f.less b c ≡ false → f.less a c ≡ false

module _ {F : Type 0} ⦃f : Floats F⦄ (law : IsOrdered f) where
  open f use {less}

  pub less_irrefl : (a : F) → less a a ≡ false
  less_irrefl a = elim (Bool-cases (less a a)) [ inl e ↦ law.less_asym a a e | inr e ↦ e ]

  pub max_by-first :
      {V : Type 0} (key : V → F) (best : V) (vs : List V)
      → less (key (max_by key best vs)) (key best) ≡ false
  unfolding max_by
  max_by-first key best [] = elim (Bool-cases (less (key best) (key best))) [
    | inl e ↦ law.less_asym (key best) (key best) e
    | inr e ↦ e
  ]
  max_by-first key best (v ∷ vs) = elim (Bool-cases (less (key best) (key v))) [
    | inl e ↦
        rw (max_by, e)
          (law.not_less_trans _ (key v) (key best) (max_by-first key v vs)
            (law.less_asym (key best) (key v) e))
    | inr e ↦ rw (max_by, e) (max_by-first key best vs)
  ]

  max_by-others :
      {V : Type 0} (key : V → F) (x best : V) (vs : List V)
      → Memᴰ x vs
      → less (key (max_by key best vs)) (key x) ≡ false
  unfolding max_by
  max_by-others key x best [] m = elim m [ ]
  max_by-others key x best (v ∷ vs) (Memᴰ.head q) =
      subst (λ y. less (key (max_by key best (v ∷ vs))) (key y) ≡ false) (sym q)
        (elim (Bool-cases (less (key best) (key v))) [
          | inl e ↦ rw (max_by, e) (max_by-first key v vs)
          | inr e ↦
              rw (max_by, e) (law.not_less_trans _ (key best) (key v) (max_by-first key best vs) e)
        ])
  max_by-others key x best (v ∷ vs) (Memᴰ.tail m) = elim (Bool-cases (less (key best) (key v))) [
    | inl e ↦ rw (max_by, e) (max_by-others key x v vs m)
    | inr e ↦ rw (max_by, e) (max_by-others key x best vs m)
  ]

  pub max_by-greatest :
      {V : Type 0} (key : V → F) (x best : V) (vs : List V)
      → Memᴰ x (best ∷ vs)
      → less (key (max_by key best vs)) (key x) ≡ false
  max_by-greatest key x best vs (Memᴰ.head q) =
      subst (λ y. less (key (max_by key best vs)) (key y) ≡ false) (sym q)
        (max_by-first key best vs)
  max_by-greatest key x best vs (Memᴰ.tail m) = max_by-others key x best vs m

pub max_by-member :
    {F V : Type 0} ⦃f : Floats F⦄ (key : V → F) (best : V) (vs : List V)
    → Memᴰ (max_by key best vs) (best ∷ vs)
unfolding max_by
max_by-member key best [] = Memᴰ.head refl
max_by-member ⦃f⦄ key best (v ∷ vs) = elim (Bool-cases (f.less (key best) (key v))) [
  | inl e ↦ rw (max_by, e) (Memᴰ.tail (max_by-member key v vs))
  | inr e ↦ rw (max_by, e) (skip (max_by key best vs) best v vs (max_by-member key best vs))
]
  where
    skip : {V : Type 0} (x best v : V) (vs : List V) → Memᴰ x (best ∷ vs) → Memᴰ x (best ∷ v ∷ vs)
    skip x best v vs (Memᴰ.head q) = Memᴰ.head q
    skip x best v vs (Memᴰ.tail m) = Memᴰ.tail (Memᴰ.tail m)

pub All-mem : {A : Type 0} (P : A → Type 0) (x : A) (xs : List A) → Memᴰ x xs → All P xs → P x
All-mem P x [] m a = elim m [ ]
All-mem P x (y ∷ xs) (Memᴰ.head q) a = subst P (sym q) a.0
All-mem P x (y ∷ xs) (Memᴰ.tail m) a = All-mem P x xs m a.1

-- Texts of a set that has at most one member are equal.
insert_text-contains :
    (s t : String) (ts : List String)
    → contains (insert_text s ts) t ≡ (str_eq s t || contains ts t)
insert_text-contains s t [] = refl
insert_text-contains s t (u ∷ ts) =
    ground (arith, eq_iff s u, eq_iff s t, eq_iff u t, insert_text-contains s t ts)

pub sorted_set-contains :
    (x : String) (xs : List String) → Memᴰ x xs → contains (sorted_set xs) x ≡ true
unfolding sorted_set
sorted_set-contains x [] m = elim m [ ]
sorted_set-contains x (y ∷ xs) (Memᴰ.head q) =
    ground (arith, insert_text-contains y x (sorted_set xs), eq_iff y x, sym q)
sorted_set-contains x (y ∷ xs) (Memᴰ.tail m) =
    ground (arith, insert_text-contains y x (sorted_set xs), sorted_set-contains x xs m)

pub single :
    (x y : String) (ts : List String)
    → ltb 1 (length ts) ≡ false
    → contains ts x ≡ true
    → contains ts y ≡ true
    → x ≡ y
single x y [] s cx cy = cc
single x y (t ∷ []) s cx cy = ground (arith, eq_iff t x, eq_iff t y)
single x y (t ∷ u ∷ ts) s cx cy = ground arith

pub mem-map : {A B : Type 0} (g : A → B) (x : A) (xs : List A) → Memᴰ x xs → Memᴰ (g x) (map g xs)
mem-map g x [] m = elim m [ ]
mem-map g x (y ∷ xs) (Memᴰ.head q) = Memᴰ.head (ap g q)
mem-map g x (y ∷ xs) (Memᴰ.tail m) = Memᴰ.tail (mem-map g x xs m)
