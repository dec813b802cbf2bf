-- ===== src/Context/FdTbl/Bulk.antt =====
-- `bulk_get_files` and `bulk_remove_files` of src/context/context.rs: validation before any change.
use redox_kernel.Common.{
  ℕ, ◌≡◌, ◌⊎◌, inl, inr, refl, ap, ◌∙◌, Option, none, some, List, [], ◌∷◌, Bool, true, false, not,
  ltb, ◌==◌, if◌then◌else◌, is_some, arith, Result, ok, err, ◌>>◌, guard, Errno,
}
use redox_kernel.Context.FdTbl.{
  FileDescriptor, FdTbl, strip_tags, context_max_files, contains, get_file, validate_handles,
  get_all, bulk_get_files, remove_file, remove_all, bulk_remove_files,
}
use redox_kernel.Context.FdTbl.Slots.{IsTag}
use redox_kernel.Context.FdTbl.Single.{remove_file_lem}

is_some-some {ℓ} : {A : Type ℓ} (o : Option A) → is_some o ≡ true → (a : A) × (o ≡ some a)
is_some-some none e = cc
is_some-some (some a) e = (a, refl)

guard_cases :
    (b : Bool) (e : Errno) {m : Result (Unit {0})}
    → ((e' : Errno) × (m ≡ err e')) ⊎ (m ≡ ok tt)
    → ((e' : Errno) × ((guard b e >> m) ≡ err e')) ⊎ ((guard b e >> m) ≡ ok tt)
guard_cases true e r = r
guard_cases false e r = inl (e, refl)

module _ (tag : ℕ) where
  -- Different handles, with a descriptor behind each.
  abbrev Valid : FdTbl → List ℕ → Type 0
  Valid t [] = Unit
  Valid t (i ∷ is) =
      ((file : FileDescriptor) × (get_file tag t i ≡ some file))
      × (contains i is ≡ false)
      × Valid t is

  -- None of the handles is among those already checked.
  abbrev Apart : List ℕ → List ℕ → Type 0
  Apart checked [] = Unit
  Apart checked (i ∷ is) = (contains i checked ≡ false) × Apart checked is

  Apart-tail :
      (i : ℕ) (checked is : List ℕ)
      → Apart (i ∷ checked) is
      → Apart checked is × (contains i is ≡ false)
  Apart-tail i checked [] a = (tt, refl)
  Apart-tail i checked (j ∷ is) a = let r = Apart-tail i checked is a.1 in ground arith

  validate_handles-Valid :
      (t : FdTbl) (checked is : List ℕ)
      → validate_handles tag t checked is ≡ ok tt
      → Valid t is × Apart checked is
  unfolding validate_handles
  validate_handles-Valid t checked [] e = (tt, tt)
  validate_handles-Valid t checked (i ∷ is) e =
      let parts : (contains i checked ≡ false)
          × (is_some (get_file tag t i) ≡ true)
          × (validate_handles tag t (i ∷ checked) is ≡ ok tt) =
        ground arith in
      let r = validate_handles-Valid t (i ∷ checked) is parts.2 in
      let a = Apart-tail i checked is r.1 in
      ((is_some-some (get_file tag t i) parts.1, a.1, r.0), (parts.0, a.0))

  validate_cases :
      (t : FdTbl) (checked is : List ℕ)
      → ((e : Errno) × (validate_handles tag t checked is ≡ err e))
        ⊎ (validate_handles tag t checked is ≡ ok tt)
  unfolding validate_handles
  validate_cases t checked [] = inr refl
  validate_cases t checked (i ∷ is) =
      guard_cases (ltb (strip_tags tag i) context_max_files) Errno.emfile (
        guard_cases (not (contains i checked)) Errno.ebadf (
          guard_cases (is_some (get_file tag t i)) Errno.ebadf (validate_cases t (i ∷ checked) is)))

  module _ (is_tag : IsTag tag) where
    -- The other handles keep their descriptors.
    Valid-removed :
        (t : FdTbl) (i : ℕ) (is : List ℕ)
        → contains i is ≡ false
        → Valid t is
        → Valid (remove_file tag t i).1 is
          × (get_all tag (remove_file tag t i).1 is ≡ get_all tag t is)
    unfolding get_all
    Valid-removed t i [] c v = (tt, refl)
    Valid-removed t i (j ∷ is) c v =
        let rest = Valid-removed t i is (ground arith) v.2 in
        let other : (j == i) ≡ false = ground arith in
        let read =
          (remove_file_lem tag is_tag t i j).1
          ∙ ap (λ b. if b then none else get_file tag t j) other in
        ((((v.0).0, read ∙ (v.0).1), v.1, rest.0), rw (read, rest.1))

    -- Removing valid handles one by one finds every file, and forgets exactly those handles.
    remove_all-Valid :
        (t : FdTbl) (is : List ℕ)
        → Valid t is
        → (files : List FileDescriptor) × (t' : FdTbl) × (remove_all tag t is ≡ ok (files, t'))
          × (get_all tag t is ≡ ok files)
          × ((j : ℕ) → get_file tag t' j ≡ (if contains j is then none else get_file tag t j))
    unfolding remove_all get_all
    remove_all-Valid t [] v = ([], t, refl, refl, λ j. refl)
    remove_all-Valid t (i ∷ is) ((file, e), c, v) =
        let next = Valid-removed t i is c v in
        let t' = (remove_file tag t i).1 in
        let (files, u, done, got, read) = remove_all-Valid t' is next.0 in
        (
          file ∷ files,
          u,
          ground (arith, (remove_file_lem tag is_tag t i i).0, e, done),
          ground (arith, e, next.1, got),
          λ j. ground (arith, read j, (remove_file_lem tag is_tag t i j).1),
        )

    -- For a tag of one bit above the maximum, either `bulk_get_files` and `bulk_remove_files` both
    -- fail with the same error, or `bulk_get_files` returns the files behind the handles and `bulk_remove_files` returns the same
    -- files and forgets exactly those handles; neither panics.
    pub bulk_remove_files_lem :
        (t : FdTbl) (handles : List ℕ)
        → ((e : Errno) × (bulk_get_files tag t handles ≡ err e)
            × (bulk_remove_files tag t handles ≡ err e))
          ⊎ ((files : List FileDescriptor) × (t' : FdTbl) × (bulk_get_files tag t handles
                ≡ ok files)
              × (bulk_remove_files tag t handles ≡ ok (files, t'))
              × ((j : ℕ)
                  → get_file tag t' j ≡ (if contains j handles then none else get_file tag t j)))
    unfolding bulk_remove_files bulk_get_files
    bulk_remove_files_lem t handles = elim (validate_cases t [] handles) [
      | inl (e, fails) ↦ inl (e, rw fails, rw fails)
      | inr passes ↦
          let (files, t', done, got, read) =
            remove_all-Valid t handles (validate_handles-Valid t [] handles passes).0 in
          inr (files, t', rw passes got, rw passes done, read)
    ]
