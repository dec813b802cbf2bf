-- ===== src/Common/OrdMap/Lookup.antt =====
-- Lookups in an ordered map after an insertion or a removal.
use Prim.Native.Nat.{ℕ, ◌<◌, ◌≤◌, ◌+◌}
use mathlib.Core.Path.{◌≡◌, refl}
use mathlib.Core.Option.{none, some}
use mathlib.Core.List.{[], ◌∷◌}
use native.Mathlib.Omega.{arith}
use redox_kernel.Common.Tests.{◌==◌, if◌then◌else◌}
use redox_kernel.Common.OrdMap.{OrdMap, get, insert, remove}

module _ {V : Type 0} where
  -- The keys ascend, from `lo` on.
  abbrev pub Ascending : ℕ → OrdMap V → Type 0
  Ascending lo [] = Unit
  Ascending lo ((j, v) ∷ m) = (lo ≤ j) × Ascending (j + 1) m

  pub Ascending-le : (lo lo' : ℕ) (m : OrdMap V) → lo' ≤ lo → Ascending lo m → Ascending lo' m
  Ascending-le lo lo' [] h a = tt
  Ascending-le lo lo' ((j, v) ∷ m) h a = (omega arith, a.1)

  pub get-insert :
      (k j : ℕ) (v : V) (m : OrdMap V) → get j (insert k v m) ≡ (if j == k then some v else get j m)
  unfolding get insert
  get-insert k j v [] = ground arith
  get-insert k j v ((i, w) ∷ m) = ground (arith, get-insert k j v m)

  get-low : (k lo : ℕ) (m : OrdMap V) → k < lo → Ascending lo m → get k m ≡ none
  unfolding get
  get-low k lo [] h a = refl
  get-low k lo ((j, v) ∷ m) h a = ground (arith, get-low k (j + 1) m (omega arith) a.1)

  pub get-remove :
      (k j lo : ℕ) (m : OrdMap V)
      → Ascending lo m
      → get j (remove k m) ≡ (if j == k then none else get j m)
  unfolding get remove
  get-remove k j lo [] a = ground arith
  get-remove k j lo ((i, w) ∷ m) a =
      ground (arith, get-remove k j (i + 1) m a.1, get-low k (i + 1) m)

  pub insert-Ascending :
      (k lo : ℕ) (v : V) (m : OrdMap V) → lo ≤ k → Ascending lo m → Ascending lo (insert k v m)
  unfolding insert
  insert-Ascending k lo v [] h a = (h, tt)
  insert-Ascending k lo v ((j, w) ∷ m) h a = ground (arith, insert-Ascending k (j + 1) v m, a)

  pub remove-Ascending : (k lo : ℕ) (m : OrdMap V) → Ascending lo m → Ascending lo (remove k m)
  unfolding remove
  remove-Ascending k lo [] a = tt
  remove-Ascending k lo ((j, w) ∷ m) a =
      ground (arith, remove-Ascending k (j + 1) m a.1, Ascending-le (j + 1) lo m (omega arith) a.1)
