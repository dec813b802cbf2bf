-- ===== src/Context/FdTbl/Count.antt =====
-- `active_count` of src/context/context.rs counts the open descriptors of both tables.
use redox_kernel.Common.{
  ℕ, ◌+◌, ◌≤◌, ◌<◌, ◌≡◌, inl, inr, ap, ◌∙◌, sym, bit_and, bit_or, none, some, List, [], ◌∷◌, ◌++◌,
  leb, length, set, arith, Bool-cases, Option-cases, ok, expect, >>=-ok,
}
use redox_kernel.Context.FdTbl.{
  FileDescriptor, FdTbl, Table, context_max_files, get_file, first_free, select_fdtbl, write_fdtbl,
  insert_file, add_file_min, remove_file, remove_all, bulk_remove_files, validate_handles,
}
use redox_kernel.Context.FdTbl.Slots.{IsTag, used, slot, used-set-some, used-set-none, used-append}
use redox_kernel.Context.FdTbl.Single.{
  get_file-slot, remove_file-none, remove_file-some, insert_file_yes, insert_file_no, can_insert,
  grown, grown_lem,
}
use redox_kernel.Context.FdTbl.Lowest.{
  first_free-some, add_file_min_full, add_file_min_reuse, add_file_min_push, add_file_min_insert,
}

-- The descriptors open in the two tables.
abbrev pub open_files : FdTbl → ℕ
open_files t = used t.posix_fdtbl + used t.upper_fdtbl

-- The count is exact, and bounded.
pub record IsCounted (t : FdTbl) : Type 0 where
  pub exact : t.active_count ≡ open_files t
  pub bounded : t.active_count ≤ context_max_files

module _ (tag : ℕ) where
  open_files-write :
      (t : FdTbl) (i : ℕ) (table : Table)
      → open_files (write_fdtbl tag t i table) + used (select_fdtbl tag t i).0
        ≡ open_files t + used table
  unfolding write_fdtbl select_fdtbl
  open_files-write t i table = ground arith

  -- One more descriptor in the table that handle `i` names.
  added-IsCounted :
      (t : FdTbl) (i : ℕ) (table : Table)
      → IsCounted t
      → t.active_count < context_max_files
      → used table ≡ used (select_fdtbl tag t i).0 + 1
      → IsCounted (record (write_fdtbl tag t i table) { active_count = t.active_count + 1 })
  added-IsCounted t i table v room e = record {
    exact = omega (arith, open_files-write t i table);
    bounded = omega arith;
  }

  module _ (is_tag : IsTag tag) where
    insert_file-IsCounted :
        (t : FdTbl) (i : ℕ) (file : FileDescriptor)
        → IsCounted t
        → IsCounted (insert_file tag t i file).1
    insert_file-IsCounted t i file v = elim (Bool-cases (can_insert tag is_tag t i)) [
      | inr no_room ↦ rw (insert_file_no tag is_tag t i file no_room) v
      | inl room ↦
          let (table, k) = select_fdtbl tag t i in
          let g = grown_lem tag is_tag t i in
          let free : slot (grown tag is_tag t i) k ≡ none =
            g.1 k ∙ sym (get_file-slot tag is_tag t i) ∙ ground arith in
          rw (insert_file_yes tag is_tag t i file room) (
            added-IsCounted t i (set (grown tag is_tag t i) k (some file)) v (ground arith)
              (omega (arith, used-set-some (grown tag is_tag t i) k file g.2 free, g.0)))
    ]

    remove_file-IsCounted : (t : FdTbl) (i : ℕ) → IsCounted t → IsCounted (remove_file tag t i).1
    remove_file-IsCounted t i v = elim (Option-cases (get_file tag t i)) [
      | inl e ↦ rw (remove_file-none tag is_tag t i e) v
      | inr (file, e) ↦
          let (table, k) = select_fdtbl tag t i in
          let less = used-set-none table k file (sym (get_file-slot tag is_tag t i) ∙ e) in
          let moved = open_files-write t i (set table k none) in
          rw (remove_file-some tag is_tag t i file e)
            (record { exact = omega (arith, less, moved); bounded = omega (arith, less, moved) })
    ]

    add_file_min-IsCounted :
        (t : FdTbl) (file : FileDescriptor) (min : ℕ)
        → IsCounted t
        → IsCounted (add_file_min tag t file min).1
    add_file_min-IsCounted t file min v =
        let (table, k) = select_fdtbl tag t min in
        elim (Bool-cases (leb context_max_files t.active_count)) [
          | inl full ↦ rw (add_file_min_full tag is_tag t file min full) v
          | inr room ↦
              let below : t.active_count < context_max_files = ground arith in
              elim (Option-cases (first_free 0 k table)) [
                | inr (pos, e) ↦
                    let f = first_free-some 0 k pos table e in
                    rw (add_file_min_reuse tag is_tag t file min room pos e) (
                      added-IsCounted t min (set table pos (some file)) v below (
                        used-set-some table pos file (omega arith)
                          (ap (slot table) (omega arith) ∙ f.3)))
                | inl e ↦ elim (Bool-cases (leb k (length table))) [
                  | inl reach ↦ rw (add_file_min_push tag is_tag t file min room e reach) (
                      added-IsCounted t min (table ++ some file ∷ []) v below
                        (omega (arith, used-append table (some file ∷ []))))
                  | inr gap ↦
                      rw (add_file_min_insert tag is_tag t file min room e gap)
                        (insert_file-IsCounted t (bit_or k (bit_and min tag)) file v)
                ]
              ]
        ]

    remove_all-IsCounted :
        (t t' : FdTbl) (is : List ℕ) (files : List FileDescriptor)
        → IsCounted t
        → remove_all tag t is ≡ ok (files, t')
        → IsCounted t'
    unfolding remove_all
    remove_all-IsCounted t t' [] files v e = ground arith
    remove_all-IsCounted t t' (i ∷ is) files v e =
        let (file, _, e') = >>=-ok (expect (remove_file tag t i).0) _ e in
        let ((rest, u), e'', last) = >>=-ok (remove_all tag (remove_file tag t i).1 is) _ e' in
        let same : u ≡ t' = cc in
        remove_all-IsCounted (remove_file tag t i).1 t' is rest (remove_file-IsCounted t i v)
          (e'' ∙ ap (λ w. ok (rest, w)) same)

    bulk_remove_files-IsCounted :
        (t t' : FdTbl) (handles : List ℕ) (files : List FileDescriptor)
        → IsCounted t
        → bulk_remove_files tag t handles ≡ ok (files, t')
        → IsCounted t'
    unfolding bulk_remove_files
    bulk_remove_files-IsCounted t t' handles files v e =
        let (_, _, e') = >>=-ok (validate_handles tag t [] handles) _ e in
        remove_all-IsCounted t t' handles files v e'

    -- For a tag of one bit above the maximum, each of `insert_file`, `add_file_min` and `remove_file` keeps the count of the open descriptors
    -- exact and at most the maximum, whether it succeeds or not.
    pub single-IsCounted :
        (t : FdTbl) (i : ℕ) (file : FileDescriptor)
        → IsCounted t
        → IsCounted (insert_file tag t i file).1
          × IsCounted (add_file_min tag t file i).1
          × IsCounted (remove_file tag t i).1
    single-IsCounted t i file v = (
      insert_file-IsCounted t i file v,
      add_file_min-IsCounted t file i v,
      remove_file-IsCounted t i v,
    )
