-- ===== src/Context/FdTbl/Fill.antt =====
-- `bulk_add_files_posix` and `bulk_insert_files_upper` of src/context/context.rs: many descriptors
-- into free slots of one table.
use redox_kernel.Common.{
  ℕ, zero, suc, ◌+◌, ◌-◌, ◌≤◌, ◌<◌, ◌≡◌, ◌⊎◌, inl, inr, refl, ap, ◌∙◌, Option, none, some, List, [],
  ◌∷◌, ltb, leb, ◌==◌, if◌then◌else◌, length, set, arith, length-set, Bool-cases, ok, lt→ltb,
  ltb→lt,
}
use redox_kernel.Context.FdTbl.{
  FileDescriptor, FdTbl, Table, context_max_files, resize, store_all, new_slots, free_slots,
  last_or, bulk_add_files_posix,
}
use redox_kernel.Context.FdTbl.Slots.{slot, used, used-set-some, slot-set, resize_lem}

-- Ascending indices from `lo` on, each of a free slot inside the table.
abbrev pub Free : Table → ℕ → List ℕ → Type 0
Free t lo [] = Unit
Free t lo (i ∷ is) = (lo ≤ i) × (i < length t) × (slot t i ≡ none) × Free t (i + 1) is

-- The file that is stored at an index.
abbrev pub stored : List ℕ → List FileDescriptor → ℕ → Option FileDescriptor
stored [] files j = none
stored (i ∷ is) [] j = none
stored (i ∷ is) (file ∷ files) j = if j == i then some file else stored is files j

abbrev pub or_else {ℓ} : {A : Type ℓ} → Option A → Option A → Option A
or_else none o = o
or_else (some a) o = some a

Free-set :
    (t : Table) (i lo : ℕ) (s : Option FileDescriptor) (is : List ℕ)
    → i < lo
    → i < length t
    → Free t lo is
    → Free (set t i s) lo is
Free-set t i lo s [] l u f = tt
Free-set t i lo s (j ∷ is) l u f = (
  f.0,
  omega (arith, length-set {0} t i s, f.1),
  ground (arith, slot-set t i j s u, f),
  Free-set t i (j + 1) s is (omega arith) u f.3,
)

stored-below :
    (t : Table) (lo j : ℕ) (is : List ℕ) (files : List FileDescriptor)
    → Free t lo is
    → j < lo
    → stored is files j ≡ none
stored-below t lo j [] files f h = refl
stored-below t lo j (i ∷ is) [] f h = refl
stored-below t lo j (i ∷ is) (file ∷ files) f h =
    ground (arith, stored-below t (i + 1) j is files f.3)

-- The files go to the free slots, one each; nothing else changes and no index is out of range.
pub store_all_lem :
    (t : Table) (lo : ℕ) (is : List ℕ) (files : List FileDescriptor)
    → Free t lo is
    → length is ≡ length files
    → (t' : Table) × (store_all t is files ≡ ok t')
      × (used t' ≡ used t + length files)
      × ((j : ℕ) → slot t' j ≡ or_else (stored is files j) (slot t j))
unfolding store_all
store_all_lem t lo [] [] f e = (t, refl, omega arith, λ j. refl)
store_all_lem t lo [] (file ∷ files) f e = absurd (omega arith)
store_all_lem t lo (i ∷ is) [] f e = absurd (omega arith)
store_all_lem t lo (i ∷ is) (file ∷ files) f e =
    let t1 = set t i (some file) in
    let f' : Free t1 (i + 1) is = Free-set t i (i + 1) (some file) is (omega arith) f.1 f.3 in
    let (t', done, count, read) = store_all_lem t1 (i + 1) is files f' (omega arith) in
    (
      t',
      ground (arith, lt→ltb i (length t) f.1, done),
      omega (arith, count, used-set-some t i file f.1 f.2),
      λ j.
          ground
            (arith, read j, slot-set t i j (some file) f.1, stored-below t1 (i + 1) j is files f'),
    )

-- The slots that `find_free_posix_slots` picks, where `r` is the rest of the table from `pos` on.
abbrev Picked : Table → ℕ → ℕ → List ℕ → Type 0
Picked r pos lo [] = Unit
Picked r pos lo (i ∷ is) = (lo ≤ i) × (slot r (i - pos) ≡ none) × Picked r pos (i + 1) is

Picked-le :
    (r : Table) (pos lo lo' : ℕ) (is : List ℕ) → lo' ≤ lo → Picked r pos lo is → Picked r pos lo' is
Picked-le r pos lo lo' [] h p = tt
Picked-le r pos lo lo' (i ∷ is) h p = (omega arith, p.1, p.2)

Picked-cons :
    (s : Option FileDescriptor) (r : Table) (pos lo : ℕ) (is : List ℕ)
    → pos + 1 ≤ lo
    → Picked r (pos + 1) lo is
    → Picked (s ∷ r) pos lo is
Picked-cons s r pos lo [] h p = tt
Picked-cons s r pos lo (i ∷ is) h p =
    let e : i - pos ≡ suc (i - (pos + 1)) = omega arith in
    (p.0, rw e p.1, Picked-cons s r pos (i + 1) is (omega arith) p.2)

new_slots-Picked : (pos current n lo : ℕ) → lo ≤ current → Picked [] pos lo (new_slots current n)
unfolding new_slots
new_slots-Picked pos current zero lo h = tt
new_slots-Picked pos current (suc n) lo h =
    (h, refl, new_slots-Picked pos (current + 1) n (current + 1) (omega arith))

free_slots-Picked : (pos n : ℕ) (r : Table) → Picked r pos pos (free_slots pos n r)
unfolding free_slots
free_slots-Picked pos zero r = tt
free_slots-Picked pos (suc n) [] = new_slots-Picked pos pos (suc n) pos (omega arith)
free_slots-Picked pos (suc n) (none ∷ r) =
    let e : pos - pos ≡ 0 = omega arith in
    (
      omega arith,
      rw e,
      Picked-cons none r pos (pos + 1) (free_slots (pos + 1) n r) (omega arith)
          (free_slots-Picked (pos + 1) n r),
    )
free_slots-Picked pos (suc n) (some file ∷ r) =
    let is = free_slots (pos + 1) (suc n) r in
    Picked-le (some file ∷ r) pos (pos + 1) pos is (omega arith) (
      Picked-cons (some file) r pos (pos + 1) is (omega arith)
        (free_slots-Picked (pos + 1) (suc n) r))

length-new_slots : (current n : ℕ) → length (new_slots current n) ≡ n
unfolding new_slots
length-new_slots current zero = refl
length-new_slots current (suc n) = ap suc (length-new_slots (current + 1) n)

length-free_slots : (pos n : ℕ) (r : Table) → length (free_slots pos n r) ≡ n
unfolding free_slots
length-free_slots pos zero r = refl
length-free_slots pos (suc n) [] = length-new_slots pos (suc n)
length-free_slots pos (suc n) (none ∷ r) = ap suc (length-free_slots (pos + 1) n r)
length-free_slots pos (suc n) (some file ∷ r) = length-free_slots (pos + 1) (suc n) r

le-last_or : (r : Table) (pos i : ℕ) (is : List ℕ) → Picked r pos (i + 1) is → i ≤ last_or i is
le-last_or r pos i [] p = omega arith
le-last_or r pos i (j ∷ is) p = omega (arith, le-last_or r pos j is p.2)

-- Slots that are free in a table are free in one that was grown to hold them.
Picked-Free :
    (t u : Table) (lo i : ℕ) (is : List ℕ)
    → Picked t 0 lo (i ∷ is)
    → ((k : ℕ) → slot u k ≡ slot t k)
    → last_or i is < length u
    → Free u lo (i ∷ is)
Picked-Free t u lo i [] p same h = (p.0, h, same i ∙ ap (slot t) (omega arith) ∙ p.1, tt)
Picked-Free t u lo i (j ∷ is) p same h = (
  p.0,
  omega (arith, le-last_or t 0 i (j ∷ is) p.2),
  same i ∙ ap (slot t) (omega arith) ∙ p.1,
  Picked-Free t u (i + 1) j is p.2 same h,
)

-- The indices are ascending, and free in the table.
abbrev pub FreeSlots : Table → List ℕ → Type 0
FreeSlots t is = Picked t 0 0 is

abbrev grow : Table → ℕ → Table
grow t top = if leb (length t) top then resize t (top + 1) else t

grow_lem :
    (t : Table) (top : ℕ)
    → (used (grow t top) ≡ used t)
      × ((i : ℕ) → slot (grow t top) i ≡ slot t i)
      × (top < length (grow t top))
grow_lem t top = elim (Bool-cases (leb (length t) top)) [
  | inl short ↦
      rw short (let r = resize_lem t (top + 1) (ground arith) in (r.0, r.1, omega (arith, r.2)))
  | inr long ↦ rw long (refl, λ k. refl, ground arith)
]

-- Storing into free slots of a grown table.
grown_store :
    (t : Table) (is : List ℕ) (file : FileDescriptor) (files : List FileDescriptor)
    → FreeSlots t is
    → length is ≡ suc (length files)
    → (t' : Table) × (store_all (grow t (last_or 0 is)) is (file ∷ files) ≡ ok t')
      × (used t' ≡ used t + length (file ∷ files))
      × ((j : ℕ) → slot t' j ≡ or_else (stored is (file ∷ files) j) (slot t j))
grown_store t [] file files p e = absurd (omega arith)
grown_store t (i ∷ is) file files p e =
    let g = grow_lem t (last_or i is) in
    let f = Picked-Free t (grow t (last_or i is)) 0 i is p g.1 g.2 in
    let (t', done, count, read) =
      store_all_lem (grow t (last_or i is)) 0 (i ∷ is) (file ∷ files) f e in
    (
      t',
      done,
      omega (arith, count, g.0),
      λ j. read j ∙ ap (or_else (stored (i ∷ is) (file ∷ files) j)) (g.1 j),
    )

-- `bulk_add_files_posix` refuses, changing nothing, if there are files and they would exceed the
-- maximum, and only then. Otherwise it puts the files into free slots of the POSIX table, one each in ascending order,
-- returns those, changes no other slot, and adds their number to the count; it never panics.
pub bulk_add_files_posix_lem :
    (t : FdTbl) (files : List FileDescriptor)
    → ((context_max_files < t.active_count + length files)
        × (0 < length files)
        × (bulk_add_files_posix t files ≡ ok (none, t)))
      ⊎ (((length files ≡ 0) ⊎ (t.active_count + length files ≤ context_max_files))
          × (handles : List ℕ) × (t' : FdTbl) × (bulk_add_files_posix t files
              ≡ ok (some handles, t'))
          × FreeSlots t.posix_fdtbl handles
          × (length handles ≡ length files)
          × ((j : ℕ)
              → slot t'.posix_fdtbl j ≡ or_else (stored handles files j) (slot t.posix_fdtbl j))
          × (t'.upper_fdtbl ≡ t.upper_fdtbl)
          × (t'.active_count ≡ t.active_count + length files)
          × (used t'.posix_fdtbl ≡ used t.posix_fdtbl + length files))
unfolding bulk_add_files_posix
bulk_add_files_posix_lem t [] =
    inr (inl refl, [], t, refl, tt, refl, λ j. refl, refl, omega arith, omega arith)
bulk_add_files_posix_lem t (file ∷ files) =
    let count = suc (length files) in
    let is = free_slots 0 count t.posix_fdtbl in
    let p = free_slots-Picked 0 count t.posix_fdtbl in
    let n = length-free_slots 0 count t.posix_fdtbl in
    let (table, done, more, read) = grown_store t.posix_fdtbl is file files p n in
    elim (Bool-cases (ltb context_max_files (t.active_count + count))) [
      | inl over ↦ inl (ltb→lt _ _ over, omega arith, ground (arith, over))
      | inr room ↦ inr (
        inr (ground (arith, room)),
        is,
        record t { posix_fdtbl = table; active_count = t.active_count + count },
        ground (arith, room, done),
        p,
        n,
        read,
        refl,
        refl,
        more,
      )
    ]
