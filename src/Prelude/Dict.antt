-- ===== src/Prelude/Dict.antt =====
-- A Python `dict` with `str` keys, as the list of its items in insertion order.
use Prim.Native.String.{String}
use mathlib.Core.Path.{◌≡◌, refl, subst₂}
use mathlib.Core.Logic.{inl, inr}
use mathlib.Core.Option
use mathlib.Core.Option.{Option, none, some}
use mathlib.Core.List.{List, [], ◌∷◌, ◌++◌, map}
use native.Mathlib.Omega.{arith}
use text.Mathlib.Text.{◌==◌ as str_eq}
use text.Mathlib.TextEquality.{eq_iff}
use llm_sca_tooling.Prelude.Tests.{if◌then◌else◌, Bool-cases}

abbrev pub Dict {ℓ} : Type ℓ → Type ℓ
Dict V = List (String × V)

module _ {ℓ} {V : Type ℓ} where
  unfoldable pub lookup : String → Dict V → Option V
  lookup k [] = none
  lookup k ((j, v) ∷ m) = if str_eq j k then some v else lookup k m

  -- `m[k] = v`: an old key keeps its place, a new one goes last.
  unfoldable pub insert : String → V → Dict V → Dict V
  insert k v [] = (k, v) ∷ []
  insert k v ((j, w) ∷ m) = if str_eq j k then (k, v) ∷ m else (j, w) ∷ insert k v m

  -- A change of the object that is stored under `k`.
  unfoldable pub modify : String → (V → V) → Dict V → Dict V
  modify k f [] = []
  modify k f ((j, w) ∷ m) = if str_eq j k then (j, f w) ∷ m else (j, w) ∷ modify k f m

  -- `m.pop(k, None)`; the keys of a dict differ, so removing every match removes one.
  unfoldable pub remove : String → Dict V → Dict V
  remove k [] = []
  remove k ((j, w) ∷ m) = if str_eq j k then remove k m else (j, w) ∷ remove k m

  abbrev pub keys : Dict V → List String
  keys m = map (λ e. e.0) m

  abbrev pub values : Dict V → List V
  values m = map (λ e. e.1) m

  pub lookup-insert :
      (key asked : String) (new : V) (d : Dict V)
      → lookup asked (insert key new d) ≡ (if str_eq key asked then some new else lookup asked d)
  unfolding lookup insert
  lookup-insert key asked new [] = refl
  lookup-insert key asked new ((first, old) ∷ d) =
      ground (
        arith,
        lookup-insert key asked new d,
        eq_iff first key,
        eq_iff first asked,
        eq_iff key asked,
      )

  pub lookup-modify :
      (k j : String) (f : V → V) (m : Dict V)
      → lookup j (modify k f m) ≡ (if str_eq k j then Option.map f (lookup j m) else lookup j m)
  unfolding lookup modify
  lookup-modify k j f [] = ground arith
  lookup-modify k j f ((i, w) ∷ m) =
      ground (arith, eq_iff k j, eq_iff i k, eq_iff i j, lookup-modify k j f m)

  pub lookup-remove :
      (k j : String) (m : Dict V)
      → lookup j (remove k m) ≡ (if str_eq k j then none else lookup j m)
  unfolding lookup remove
  lookup-remove k j [] = ground arith
  lookup-remove k j ((i, w) ∷ m) =
      ground (arith, eq_iff k j, eq_iff i k, eq_iff i j, lookup-remove k j m)

  -- A loop over `m.values()` that changes each object.
  abbrev pub map_values : (V → V) → Dict V → Dict V
  map_values f m = map (λ e. (e.0, f e.1)) m

  pub lookup-map_values :
      (k : String) (f : V → V) (m : Dict V) → lookup k (map_values f m) ≡ Option.map f (lookup k m)
  unfolding lookup
  lookup-map_values k f [] = refl
  lookup-map_values k f ((j, w) ∷ m) = ground (arith, lookup-map_values k f m)

  -- No key stands twice.
  abbrev pub Distinct : Dict V → Type ℓ
  Distinct [] = Unit
  Distinct ((k, v) ∷ m) = (lookup k m ≡ none) × Distinct m

  -- A property of every item.
  abbrev pub Each {κ} : (String → V → Type κ) → Dict V → Type κ
  Each P [] = Unit
  Each P ((k, v) ∷ m) = P k v × Each P m

  pub insert-Distinct : (k : String) (v : V) (m : Dict V) → Distinct m → Distinct (insert k v m)
  unfolding insert lookup
  insert-Distinct k v [] d = (refl, tt)
  insert-Distinct k v ((j, w) ∷ m) d =
      ground (arith, eq_iff j k, eq_iff k j, lookup-insert k j v m, insert-Distinct k v m d.1)

  pub modify-Distinct : (k : String) (f : V → V) (m : Dict V) → Distinct m → Distinct (modify k f m)
  unfolding modify lookup
  modify-Distinct k f [] d = tt
  modify-Distinct k f ((j, w) ∷ m) d =
      ground (arith, eq_iff j k, eq_iff k j, lookup-modify k j f m, modify-Distinct k f m d.1)

  pub map_values-Distinct : (f : V → V) (m : Dict V) → Distinct m → Distinct (map_values f m)
  map_values-Distinct f [] d = tt
  map_values-Distinct f ((j, w) ∷ m) d =
      ground (arith, lookup-map_values j f m, map_values-Distinct f m d.1)

  pub insert_new :
      (k : String) (v : V) (m : Dict V) → lookup k m ≡ none → insert k v m ≡ m ++ (k, v) ∷ []
  unfolding insert lookup
  insert_new k v [] h = refl
  insert_new k v ((j, w) ∷ m) h = ground (arith, insert_new k v m)

  pub insert-Each {κ} :
      (P : String → V → Type κ) (k : String) (v : V) (m : Dict V)
      → P k v
      → Each P m
      → Each P (insert k v m)
  unfolding insert
  insert-Each P k v [] p h = (p, tt)
  insert-Each P k v ((j, w) ∷ m) p h = elim (Bool-cases (str_eq j k)) [
    | inl e ↦ rw (e, insert) (p, h.1)
    | inr e ↦ rw (e, insert) (h.0, insert-Each P k v m p h.1)
  ]

  pub modify-Each {κ} :
      (P : String → V → Type κ) (k : String) (f : V → V) (m : Dict V)
      → ((j : String) (v : V) → P j v → P j (f v))
      → Each P m
      → Each P (modify k f m)
  unfolding modify
  modify-Each P k f [] keep h = tt
  modify-Each P k f ((j, w) ∷ m) keep h = elim (Bool-cases (str_eq j k)) [
    | inl e ↦ rw (e, modify) (keep j w h.0, h.1)
    | inr e ↦ rw (e, modify) (h.0, modify-Each P k f m keep h.1)
  ]

  pub map_values-Each {κ} :
      (P : String → V → Type κ) (f : V → V) (m : Dict V)
      → ((j : String) (v : V) → P j v → P j (f v))
      → Each P m
      → Each P (map_values f m)
  map_values-Each P f [] keep h = tt
  map_values-Each P f ((j, w) ∷ m) keep h = (keep j w h.0, map_values-Each P f m keep h.1)

  pub Each-lookup {κ} :
      (P : String → V → Type κ) (k : String) {v : V} (m : Dict V)
      → Each P m
      → lookup k m ≡ some v
      → P k v
  unfolding lookup
  Each-lookup P k [] h e = cc
  Each-lookup P k {v} ((j, w) ∷ m) h e = elim (Bool-cases (str_eq j k)) [
    | inl q ↦
        let same : j ≡ k = (eq_iff j k).0 q in
        let hit : w ≡ v = ground arith in subst₂ P same hit h.0
    | inr q ↦ Each-lookup P k m h.1 (ground arith)
  ]

  pub modify-modify :
      (k : String) (f g : V → V) (m : Dict V)
      → modify k g (modify k f m) ≡ modify k (λ v. g (f v)) m
  unfolding modify
  modify-modify k f g [] = refl
  modify-modify k f g ((j, w) ∷ m) = ground (arith, modify-modify k f g m)
