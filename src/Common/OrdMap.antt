-- ===== src/Common/OrdMap.antt =====
-- `BTreeMap<usize, V>` as an association list in ascending order of its keys.
pub mod Lookup
use Prim.Native.Nat.{ℕ, ◌<◌, ◌≤◌}
use mathlib.Core.Path.{◌≡◌, refl}
use mathlib.Core.Logic.{◌≢◌}
use mathlib.Core.Option.{Option, none, some}
use mathlib.Core.List.{List, [], ◌∷◌}
use native.Mathlib.Omega.{arith}
use redox_kernel.Common.Tests.{ltb, leb, ◌==◌, if◌then◌else◌}

abbrev pub OrdMap : Type 0 → Type 0
OrdMap V = List (ℕ × V)

module _ {V : Type 0} where
  unfoldable pub get : ℕ → OrdMap V → Option V
  get k [] = none
  get k ((j, v) ∷ m) = if j == k then some v else get k m

  unfoldable pub insert : ℕ → V → OrdMap V → OrdMap V
  insert k v [] = (k, v) ∷ []
  insert k v ((j, w) ∷ m) =
      if ltb k j then (k, v) ∷ (j, w) ∷ m else if j == k then (k, v) ∷ m else (j, w) ∷ insert k v m

  unfoldable pub remove : ℕ → OrdMap V → OrdMap V
  remove k [] = []
  remove k ((j, w) ∷ m) = if j == k then m else (j, w) ∷ remove k m

  -- `range(..k).next_back()`
  unfoldable pub last_below : ℕ → OrdMap V → Option (ℕ × V)
  last_below k [] = none
  last_below k ((j, v) ∷ m) = elim (last_below k m) [
    | some p ↦ some p
    | none ↦ if ltb j k then some (j, v) else none
  ]

  -- `range(k..)`
  unfoldable pub range_from : ℕ → OrdMap V → OrdMap V
  range_from k [] = []
  range_from k ((j, v) ∷ m) = if leb k j then (j, v) ∷ m else range_from k m

  -- Every key is at least `lo`.
  abbrev pub KeysFrom : ℕ → OrdMap V → Type 0
  KeysFrom lo [] = Unit
  KeysFrom lo ((j, v) ∷ m) = (lo ≤ j) × KeysFrom lo m

  pub KeysFrom-le : {lo lo' : ℕ} (m : OrdMap V) → lo' ≤ lo → KeysFrom lo m → KeysFrom lo' m
  KeysFrom-le [] h ks = tt
  KeysFrom-le ((j, v) ∷ m) h ks = (omega arith, KeysFrom-le m h ks.1)

  pub get-below : (k lo : ℕ) (m : OrdMap V) → k < lo → KeysFrom lo m → get k m ≡ none
  unfolding get
  get-below k lo [] h ks = refl
  get-below k lo ((j, v) ∷ m) h ks = ground (arith, get-below k lo m h ks.1)

  pub last_below-below : (k lo : ℕ) (m : OrdMap V) → k ≤ lo → KeysFrom lo m → last_below k m ≡ none
  unfolding last_below
  last_below-below k lo [] h ks = refl
  last_below-below k lo ((j, v) ∷ m) h ks = ground (arith, last_below-below k lo m h ks.1)

  pub last_below-KeysFrom :
      (k lo : ℕ) (m : OrdMap V) (j : ℕ) (v : V)
      → KeysFrom lo m
      → last_below k m ≡ some (j, v)
      → (lo ≤ j) × (j < k)
  unfolding last_below
  last_below-KeysFrom k lo [] j v ks h = cc
  last_below-KeysFrom k lo ((i, w) ∷ m) j v ks h =
      ground (arith, last_below-KeysFrom k lo m j v ks.1)

  -- Beyond the first entry the operations leave it in place.
  pub insert-cons :
      (k : ℕ) (v : V) (j : ℕ) (w : V) (m : OrdMap V)
      → j < k
      → insert k v ((j, w) ∷ m) ≡ (j, w) ∷ insert k v m
  unfolding insert
  insert-cons k v j w m h = ground arith

  pub insert-front :
      (k lo : ℕ) (v : V) (m : OrdMap V) → k < lo → KeysFrom lo m → insert k v m ≡ (k, v) ∷ m
  unfolding insert
  insert-front k lo v [] h ks = refl
  insert-front k lo v ((j, w) ∷ m) h ks = ground arith

  pub remove-absent : (k lo : ℕ) (m : OrdMap V) → k < lo → KeysFrom lo m → remove k m ≡ m
  unfolding remove
  remove-absent k lo [] h ks = refl
  remove-absent k lo ((j, w) ∷ m) h ks = ground (arith, remove-absent k lo m h ks.1)

  pub remove-KeysFrom : (k lo : ℕ) (m : OrdMap V) → KeysFrom lo m → KeysFrom lo (remove k m)
  unfolding remove
  remove-KeysFrom k lo [] ks = tt
  remove-KeysFrom k lo ((j, w) ∷ m) ks = ground (arith, remove-KeysFrom k lo m ks.1)

  pub get-cons : (k j : ℕ) (w : V) (m : OrdMap V) → j ≢ k → get k ((j, w) ∷ m) ≡ get k m
  unfolding get
  get-cons k j w m h = ground arith

  pub remove-cons :
      (k j : ℕ) (w : V) (m : OrdMap V) → j ≢ k → remove k ((j, w) ∷ m) ≡ (j, w) ∷ remove k m
  unfolding remove
  remove-cons k j w m h = ground arith
