-- ===== src/Context/FdTbl/Single.antt =====
-- `insert_file`, `remove_file` and `add_file_min` of src/context/context.rs as operations on the
-- map from handles to descriptors.
use redox_kernel.Common.{
  ℕ, ◌+◌, ◌<◌, ◌≡◌, inl, inr, refl, ap, ◌∙◌, sym, Option, none, some, Bool, true, false, ◌&&◌, not,
  ltb, leb, ◌==◌, if◌then◌else◌, length, set, is_some, arith, sub_usize, Bool-cases, Option-cases,
}
use redox_kernel.Context.FdTbl.{
  Table, FileDescriptor, FdTbl, context_max_files, resize, strip_tags, select_fdtbl, write_fdtbl,
  get, get_file, insert_file, remove_file,
}
use redox_kernel.Context.FdTbl.Slots.{
  IsTag, handle_unique, slot, used, slot-get_elem?, slot-set, resize_lem, slot-some-lt,
  get_elem?_of_lt,
}

module _ (tag : ℕ) (is_tag : IsTag tag) where
  pub get_file-slot :
      (t : FdTbl) (i : ℕ)
      → get_file tag t i ≡ slot (select_fdtbl tag t i).0 (select_fdtbl tag t i).1
  unfolding get_file get
  get_file-slot t i = sym (slot-get_elem? (select_fdtbl tag t i).0 (select_fdtbl tag t i).1)

  -- A write at one handle's slot is read back at that handle alone.
  pub get_file-write :
      (t : FdTbl) (i j : ℕ) (table : Table) (s : Option FileDescriptor)
      → ((k : ℕ)
          → slot table k
            ≡ (if k == (select_fdtbl tag t i).1 then s else slot (select_fdtbl tag t i).0 k))
      → get_file tag (write_fdtbl tag t i table) j ≡ (if j == i then s else get_file tag t j)
  unfolding write_fdtbl select_fdtbl
  get_file-write t i j table s h = ground (
    arith,
    get_file-slot t j,
    get_file-slot (write_fdtbl tag t i table) j,
    handle_unique tag j i is_tag,
    h j,
    h (strip_tags tag j),
  )

  -- The descriptors do not depend on the count.
  pub get_file-count :
      (t : FdTbl) (n j : ℕ) → get_file tag (record t { active_count = n }) j ≡ get_file tag t j
  unfolding get_file get select_fdtbl
  get_file-count t n j = refl

  -- The table after a removal of `file` at handle `i`.
  abbrev pub removed : FdTbl → ℕ → FdTbl
  removed t i =
      record (write_fdtbl tag t i (set (select_fdtbl tag t i).0 (select_fdtbl tag t i).1 none)) {
        active_count = sub_usize t.active_count 1;
      }

  pub remove_file-none :
      (t : FdTbl) (i : ℕ) → get_file tag t i ≡ none → remove_file tag t i ≡ (none, t)
  unfolding remove_file get_file get
  remove_file-none t i e = ground (arith, e)

  pub remove_file-some :
      (t : FdTbl) (i : ℕ) (file : FileDescriptor)
      → get_file tag t i ≡ some file
      → remove_file tag t i ≡ (some file, removed t i)
  unfolding remove_file get_file get
  remove_file-some t i file e = ground (arith, e)

  get_file-removed :
      (t : FdTbl) (i j : ℕ) (file : FileDescriptor)
      → get_file tag t i ≡ some file
      → get_file tag (removed t i) j ≡ (if j == i then none else get_file tag t j)
  get_file-removed t i j file e =
      let (table, k) = select_fdtbl tag t i in
      let inside = slot-some-lt table k (sym (get_file-slot t i) ∙ e) in
      get_file-count (write_fdtbl tag t i (set table k none)) (sub_usize t.active_count 1) j
      ∙ get_file-write t i j (set table k none) none (λ m. slot-set table k m none inside)

  -- For a tag of one bit above the maximum, `remove_file` returns the descriptor behind the handle,
  -- and forgets it and no other.
  pub remove_file_lem :
      (t : FdTbl) (i j : ℕ)
      → ((remove_file tag t i).0 ≡ get_file tag t i)
        × (get_file tag (remove_file tag t i).1 j ≡ (if j == i then none else get_file tag t j))
  remove_file_lem t i j = elim (Option-cases (get_file tag t i)) [
    | inl e ↦ rw (remove_file-none t i e) (
      sym e,
      elim (Bool-cases (j == i)) [
        | inl same ↦ let eq : j ≡ i = ground arith in rw (same, eq) e
        | inr other ↦ rw other
      ],
    )
    | inr (file, e) ↦ rw (remove_file-some t i file e) (sym e, get_file-removed t i j file e)
  ]

  -- What `insert_file` asks for.
  abbrev pub can_insert : FdTbl → ℕ → Bool
  can_insert t i =
      ltb t.active_count context_max_files
      && (ltb (strip_tags tag i) context_max_files && not (is_some (get_file tag t i)))

  -- The table that `insert_file` writes to, long enough for the index.
  abbrev pub grown : FdTbl → ℕ → Table
  grown t i =
      let (table, k) = select_fdtbl tag t i in
      if leb (length table) k then resize table (k + 1) else table

  abbrev pub inserted : FdTbl → ℕ → FileDescriptor → FdTbl
  inserted t i file =
      record (write_fdtbl tag t i (set (grown t i) (select_fdtbl tag t i).1 (some file))) {
        active_count = t.active_count + 1;
      }

  pub grown_lem :
      (t : FdTbl) (i : ℕ)
      → (used (grown t i) ≡ used (select_fdtbl tag t i).0)
        × ((k : ℕ) → slot (grown t i) k ≡ slot (select_fdtbl tag t i).0 k)
        × ((select_fdtbl tag t i).1 < length (grown t i))
  grown_lem t i =
      let (table, k) = select_fdtbl tag t i in
      elim (Bool-cases (leb (length table) k)) [
        | inl short ↦
            rw short
              (let r = resize_lem table (k + 1) (ground arith) in (r.0, r.1, omega (arith, r.2)))
        | inr long ↦ rw long (refl, λ m. refl, ground arith)
      ]

  pub select_index : (t : FdTbl) (i : ℕ) → (select_fdtbl tag t i).1 ≡ strip_tags tag i
  unfolding select_fdtbl
  select_index t i = ground arith

  pub insert_file_yes :
      (t : FdTbl) (i : ℕ) (file : FileDescriptor)
      → can_insert t i ≡ true
      → insert_file tag t i file ≡ (some i, inserted t i file)
  unfolding insert_file
  insert_file_yes t i file h = ground (
    arith,
    select_index t i,
    grown_lem t i,
    (grown_lem t i).1 (select_fdtbl tag t i).1,
    get_file-slot t i,
    get_elem?_of_lt (grown t i) (select_fdtbl tag t i).1,
  )

  write_same : (t : FdTbl) (i : ℕ) → write_fdtbl tag t i (select_fdtbl tag t i).0 ≡ t
  unfolding write_fdtbl select_fdtbl
  write_same t i = ground arith

  pub insert_file_no :
      (t : FdTbl) (i : ℕ) (file : FileDescriptor)
      → can_insert t i ≡ false
      → insert_file tag t i file ≡ (none, t)
  unfolding insert_file
  insert_file_no t i file h =
      let (table, k) = select_fdtbl tag t i in
      elim (Option-cases (get_file tag t i)) [
        | inl e ↦ ground (arith, e, select_index t i)
        | inr (old, e) ↦
            let here : slot table k ≡ some old = sym (get_file-slot t i) ∙ e in
            ground (arith, slot-some-lt table k here, get_elem?_of_lt table k, here, write_same t i)
      ]

  -- For a tag of one bit above the maximum, `insert_file` succeeds exactly if the context has fewer
  -- than the maximum of files, the index is below the maximum and the slot is free; it then adds
  -- the descriptor at the handle and changes no other handle, and otherwise it changes none.
  pub insert_file_lem :
      (t : FdTbl) (i j : ℕ) (file : FileDescriptor)
      → ((insert_file tag t i file).0 ≡ (if can_insert t i then some i else none))
        × (get_file tag (insert_file tag t i file).1 j
            ≡ (if can_insert t i && j == i then some file else get_file tag t j))
  insert_file_lem t i j file = elim (Bool-cases (can_insert t i)) [
    | inr e ↦ rw (insert_file_no t i file e, e) (refl, refl)
    | inl e ↦
        let (table, k) = select_fdtbl tag t i in
        let g = grown_lem t i in
        let w : (m : ℕ)
            → slot (set (grown t i) k (some file)) m
              ≡ (if m == k then some file else slot table m) =
          λ m.
            slot-set (grown t i) k m (some file) g.2
            ∙ ap (λ d. if m == k then some file else d) (g.1 m) in
        rw (insert_file_yes t i file e, e)
          (
            refl,
            get_file-count (write_fdtbl tag t i (set (grown t i) k (some file)))
                  (t.active_count + 1) j
                ∙ get_file-write t i j (set (grown t i) k (some file)) (some file) w,
          )
  ]
