-- ===== src/Memory/Grants/Pages.antt =====
-- The grants of src/context/memory.rs as a map from pages: when grants are well-formed, and what a
-- page sees of the grant that holds it.
use redox_kernel.Common.{
  ℕ, ◌+◌, ◌-◌, ◌*◌, ◌≤◌, ◌<◌, ◌≡◌, refl, Option, none, some, [], ◌∷◌, Bool, true, false, ◌&&◌, leb,
  ltb, if◌then◌else◌, arith, usize_mod,
}
use redox_kernel.Common.OrdMap
use redox_kernel.Common.OrdMap.{KeysFrom}
use redox_kernel.Memory.Grants.{Provider, GrantInfo, Grant, advance_file}
use redox_kernel.Memory.Grants.Provider.{
  allocated, allocated_shared, phys_borrowed, external, fmap_borrowed,
}
use redox_kernel.Memory.Grants.Table.{Inner}

-- What one page sees of the grant that holds it: the flags, and what is mapped there. It leaves out
-- pins, whether the frames of the grant are contiguous, which is a property of the grant and treated in
-- Memory/Grants/Runs.antt, and of a grant of another address space the page in it.
pub record PageView : Type 0 where
  pub flags : ℕ
  pub mapped : Bool
  pub backing : Provider

-- The page is one of `count` at `base`.
abbrev pub in_span : ℕ → ℕ → ℕ → Bool
in_span base count p = leb base p && ltb p (base + count)

module _ (page_size : ℕ) where
  abbrev pub seen : ℕ → Provider → Provider
  seen k (allocated none c) = allocated none false
  seen k (allocated (some f) c) = allocated (some (advance_file page_size f k)) false
  seen k (allocated_shared pinned) = allocated_shared false
  seen k (phys_borrowed b) = phys_borrowed (b + k * page_size)
  seen k (external a s pinned) = external a 0 false
  seen k (fmap_borrowed f n) = fmap_borrowed (advance_file page_size f k) 0

  abbrev pub page_seen : ℕ → GrantInfo → PageView
  page_seen k i = record { flags = i.flags; mapped = i.mapped; backing = seen k i.provider }

  unfoldable pub page_view : Inner → ℕ → Option PageView
  page_view [] p = none
  page_view ((b, i) ∷ m) p =
      if in_span b i.page_count p then some (page_seen (p - b) i) else page_view m p

  -- Borrowed frames have addresses that are words.
  abbrev pub Fits : ℕ → Provider → Type 0
  Fits count (allocated c k) = Unit
  Fits count (allocated_shared pinned) = Unit
  Fits count (phys_borrowed b) = (0 < b) × (b + count * page_size < usize_mod)
  Fits count (external a s pinned) = Unit
  Fits count (fmap_borrowed f n) = Unit

  -- A mapped grant of at least one page, up to page `hi`.
  abbrev pub IsGrant : ℕ → ℕ → GrantInfo → Type 0
  IsGrant hi b i =
      (0 < i.page_count)
      × (b + i.page_count ≤ hi)
      × (i.mapped ≡ true)
      × Fits i.page_count i.provider

  -- Ascending, disjoint, and between pages `lo` and `hi`.
  abbrev pub IsGrants : ℕ → ℕ → Inner → Type 0
  IsGrants lo hi [] = Unit
  IsGrants lo hi ((b, i) ∷ m) = (lo ≤ b) × IsGrant hi b i × IsGrants (b + i.page_count) hi m

  pub IsGrants-KeysFrom : (lo hi : ℕ) (m : Inner) → IsGrants lo hi m → KeysFrom lo m
  IsGrants-KeysFrom lo hi [] w = tt
  IsGrants-KeysFrom lo hi ((b, i) ∷ m) w =
      (w.0, OrdMap.KeysFrom-le m (omega arith) (IsGrants-KeysFrom (b + i.page_count) hi m w.2))

  pub IsGrants-le : (lo lo' hi : ℕ) (m : Inner) → lo' ≤ lo → IsGrants lo hi m → IsGrants lo' hi m
  IsGrants-le lo lo' hi [] e w = tt
  IsGrants-le lo lo' hi ((b, i) ∷ m) e w = (omega arith, w.1, w.2)

  pub page_view-below :
      (lo hi : ℕ) (m : Inner) (p : ℕ) → IsGrants lo hi m → p < lo → page_view m p ≡ none
  unfolding page_view
  page_view-below lo hi [] p w h = refl
  page_view-below lo hi ((b, i) ∷ m) p w h =
      ground (arith, page_view-below (b + i.page_count) hi m p w.2)

  -- A grant that begins at or above the first free page stands first.
  pub get-view :
      (lo hi : ℕ) (m : Inner) (b p : ℕ) (i : GrantInfo)
      → IsGrants lo hi m
      → OrdMap.get b m ≡ some i
      → (lo ≤ b)
        × IsGrant hi b i
        × (in_span b i.page_count p ≡ true → page_view m p ≡ some (page_seen (p - b) i))
  unfolding page_view OrdMap.get
  get-view lo hi [] b p i w h = cc
  get-view lo hi ((c, j) ∷ m) b p i w h = ground (arith, get-view (c + j.page_count) hi m b p i w.2)

  pub remove-IsGrants :
      (lo hi : ℕ) (m : Inner) (b : ℕ) → IsGrants lo hi m → IsGrants lo hi (OrdMap.remove b m)
  unfolding OrdMap.remove
  remove-IsGrants lo hi [] b w = tt
  remove-IsGrants lo hi ((c, j) ∷ m) b w = ground (
    arith,
    remove-IsGrants (c + j.page_count) hi m b w.2,
    IsGrants-le (c + j.page_count) lo hi m (omega arith) w.2,
  )

  pub page_view-remove :
      (lo hi : ℕ) (m : Inner) (b p : ℕ) (i : GrantInfo)
      → IsGrants lo hi m
      → OrdMap.get b m ≡ some i
      → page_view (OrdMap.remove b m) p ≡ (if in_span b i.page_count p then none else page_view m p)
  unfolding page_view OrdMap.get OrdMap.remove
  page_view-remove lo hi [] b p i w h = cc
  page_view-remove lo hi ((c, j) ∷ m) b p i w h = ground (
    arith,
    page_view-remove (c + j.page_count) hi m b p i w.2,
    get-view (c + j.page_count) hi m b p i w.2,
    page_view-below (c + j.page_count) hi m p w.2,
  )

-- A grant of `count` pages at `base`, which see what they saw of the whole.
abbrev pub IsPart : (page_size hi : ℕ) → Grant → ℕ → ℕ → Grant → Type 0
IsPart page_size hi whole base count h =
    (h.base ≡ base)
    × (h.info.page_count ≡ count)
    × IsGrant page_size hi h.base h.info
    × ((p : ℕ)
        → in_span base count p ≡ true
        → page_seen page_size (p - base) h.info ≡ page_seen page_size (p - whole.base) whole.info)

-- No grant where there are no pages
abbrev pub IsPart? : (page_size hi : ℕ) → Grant → ℕ → ℕ → Option Grant → Type 0
IsPart? page_size hi whole base count none = count ≡ 0
IsPart? page_size hi whole base count (some h) = IsPart page_size hi whole base count h
