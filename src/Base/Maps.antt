-- ===== src/Base/Maps.antt =====
-- Go maps with string keys: association lists, the first entry of a key counts.
use mathlib.Core.Path.{◌≡◌, refl}
use mathlib.Core.Logic.{inl, inr}
use mathlib.Core.Bool.{Bool, true, false}
use mathlib.Core.Option.{Option, none, some}
use mathlib.Core.List.{List, [], ◌∷◌, map}
use native.Mathlib.Omega.{arith}
use devcontainer.Base.Tests.{if◌then◌else◌, Bool-cases}
use devcontainer.Base.Texts.{Text, contains, ◌==◌, eq_of_==, eq_iff}

abbrev pub Map {ℓ} : Type ℓ → Type ℓ
Map V = List (Text × V)

abbrev pub is_some {ℓ} : {A : Type ℓ} → Option A → Bool
is_some none = false
is_some (some a) = true

module _ {ℓ} {V : Type ℓ} where
  abbrev pub keys : Map V → List Text
  keys m = map (λ e. e.0) m

  -- `v, ok := m[k]`
  unfoldable pub lookup : Text → Map V → Option V
  lookup key [] = none
  lookup key (entry ∷ rest) = if entry.0 == key then some entry.1 else lookup key rest

  -- A key is present exactly when it is listed.
  pub lookup-keys : (k : Text) (m : Map V) → is_some (lookup k m) ≡ contains (keys m) k
  unfolding lookup contains
  lookup-keys k [] = refl
  lookup-keys k ((j, v) ∷ m) = ground (arith, lookup-keys k m)

  -- `m[k] = v`
  unfoldable pub insert : Text → V → Map V → Map V
  insert key new [] = (key, new) ∷ []
  insert key new (entry ∷ rest) =
      if entry.0 == key then (key, new) ∷ rest else entry ∷ insert key new rest

  pub lookup-insert :
      (key asked : Text) (new : V) (m : Map V)
      → lookup asked (insert key new m) ≡ (if key == asked then some new else lookup asked m)
  unfolding insert lookup
  lookup-insert key asked new [] = refl
  lookup-insert key asked new (entry ∷ rest) =
      let later = lookup-insert key asked new rest in
      ground (later, arith, eq_iff entry.0 asked, eq_iff entry.0 key, eq_iff key asked)

-- The first value that is there.
abbrev pub or_else {ℓ} : {A : Type ℓ} → Option A → Option A → Option A
or_else none o = o
or_else (some a) o = some a

abbrev pub map_found {ℓ κ} : {V : Type ℓ} {W : Type κ} → (V → W) → Option V → Option W
map_found g none = none
map_found g (some v) = some (g v)

-- No key stands twice, as in every Go map.
abbrev pub HasDistinctKeys {ℓ} : {V : Type ℓ} → Map V → Type 0
HasDistinctKeys [] = Unit {0}
HasDistinctKeys ((k, v) ∷ m) = (contains (keys m) k ≡ false) × HasDistinctKeys m

module _ {ℓ κ} {V : Type ℓ} {W : Type κ} where
  pub lookup-map :
      (g : Text → V → W) (k : Text) (m : Map V)
      → lookup k (map (λ e. (e.0, g e.0 e.1)) m) ≡ map_found (g k) (lookup k m)
  unfolding lookup
  lookup-map g k [] = refl
  lookup-map g k ((j, v) ∷ m) = elim (Bool-cases (j == k)) [
    | inl same ↦ rw (same, eq_of_== j k same)
    | inr other ↦ rw other (lookup-map g k m)
  ]

module _ {ℓ} {V : Type ℓ} where
  pub lookup_absent : (k : Text) (m : Map V) → contains (keys m) k ≡ false → lookup k m ≡ none
  lookup_absent k m h = ground (arith, lookup-keys k m, h)

pub or_else-none {ℓ} : {A : Type ℓ} (o : Option A) → or_else o none ≡ o
or_else-none none = refl
or_else-none (some a) = refl
