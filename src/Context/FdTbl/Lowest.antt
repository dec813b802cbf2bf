-- ===== src/Context/FdTbl/Lowest.antt =====
-- `add_file_min` of src/context/context.rs takes the lowest free handle from the minimum on.
use redox_kernel.Common.{
  ℕ, zero, suc, ◌+◌, ◌-◌, ◌≤◌, ◌<◌, ◌≡◌, inl, inr, refl, ap, subst, ◌∙◌, sym, bit_and, bit_or,
  Option, none, some, [], ◌∷◌, ◌++◌, true, false, leb, ◌==◌, if◌then◌else◌, length, set, is_some,
  arith, Bool-cases, Option-cases, bit_or-zero,
}
use redox_kernel.Context.FdTbl.{
  Table, FileDescriptor, FdTbl, context_max_files, is_posix, strip_tags, first_free, select_fdtbl,
  write_fdtbl, get_file, insert_file, add_file_min,
}
use redox_kernel.Context.FdTbl.Slots.{IsTag, tag_cases, tagged, slot, slot-set, slot-beyond}
use redox_kernel.Context.FdTbl.Single.{
  get_file-slot, get_file-write, get_file-count, select_index, insert_file_no, insert_file_yes,
  insert_file_lem, can_insert,
}

later_slot :
    (pos min k : ℕ) (s : Option FileDescriptor) (r : Table)
    → (pos + 1 ≤ k) × (min ≤ k) × (k < pos + 1 + length r) × (slot r (k - (pos + 1)) ≡ none)
    → (pos ≤ k) × (min ≤ k) × (k < pos + length (s ∷ r)) × (slot (s ∷ r) (k - pos) ≡ none)
later_slot pos min k s r h =
    let e : k - pos ≡ suc (k - (pos + 1)) = omega arith in (omega arith, h.1, omega arith, rw e h.3)

first_slot :
    {pos min k : ℕ} (r : Table)
    → k ≡ pos
    → min ≤ pos
    → (pos ≤ k)
      × (min ≤ k)
      × (k < pos + length {A = Option FileDescriptor} (none ∷ r))
      × (slot (none ∷ r) (k - pos) ≡ none)
first_slot {pos} {min} {k} r e h =
    let z : k - pos ≡ 0 = omega arith in (omega arith, omega arith, omega arith, rw z)

pub first_free-some :
    (pos min k : ℕ) (t : Table)
    → first_free pos min t ≡ some k
    → (pos ≤ k) × (min ≤ k) × (k < pos + length t) × (slot t (k - pos) ≡ none)
unfolding first_free
first_free-some pos min k [] e = cc
first_free-some pos min k (none ∷ r) e = elim (Bool-cases (leb min pos)) [
  | inl h ↦ first_slot r (ground arith) (ground arith)
  | inr h ↦ later_slot pos min k none r (first_free-some (pos + 1) min k r (ground arith))
]
first_free-some pos min k (some x ∷ r) e =
    later_slot pos min k (some x) r (first_free-some (pos + 1) min k r (ground arith))

-- Every slot that the search passes over is taken.
first_free-least :
    (pos min j k : ℕ) (t : Table)
    → first_free pos min t ≡ some k
    → min ≤ pos + j
    → pos + j < k
    → is_some (slot t j) ≡ true
unfolding first_free
first_free-least pos min j k [] e l u = cc
first_free-least pos min zero k (none ∷ r) e l u = ground arith
first_free-least pos min zero k (some x ∷ r) e l u = refl
first_free-least pos min (suc j) k (s ∷ r) e l u =
    ground (arith, first_free-least (pos + 1) min j k r)

first_free-none :
    (pos min j : ℕ) (t : Table)
    → first_free pos min t ≡ none
    → min ≤ pos + j
    → j < length t
    → is_some (slot t j) ≡ true
unfolding first_free
first_free-none pos min j [] e l u = absurd (omega arith)
first_free-none pos min zero (none ∷ r) e l u = ground arith
first_free-none pos min zero (some x ∷ r) e l u = refl
first_free-none pos min (suc j) (s ∷ r) e l u = ground (arith, first_free-none (pos + 1) min j r)

slot-push :
    (t : Table) (file : FileDescriptor) (k : ℕ)
    → slot (t ++ some file ∷ []) k ≡ (if k == length t then some file else slot t k)
slot-push [] file zero = refl
slot-push [] file (suc k) = ground arith
slot-push (s ∷ r) file zero = ground arith
slot-push (s ∷ r) file (suc k) = ground (arith, slot-push r file k)

-- The tables are no longer than the tag leaves room for.
pub record IsShort (tag : ℕ) (t : FdTbl) : Type 0 where
  pub posix : length t.posix_fdtbl < tag
  pub upper : length t.upper_fdtbl < tag

module _ (tag : ℕ) (is_tag : IsTag tag) where
  -- A position, tagged as `min` is, is a handle of the same table.
  placed :
      (t : FdTbl) (min pos : ℕ)
      → pos < tag
      → let h = bit_or pos (bit_and min tag) in
        (is_posix tag h ≡ is_posix tag min)
        × (strip_tags tag h ≡ pos)
        × (select_fdtbl tag t h ≡ ((select_fdtbl tag t min).0, pos))
        × ((table : Table) → write_fdtbl tag t h table ≡ write_fdtbl tag t min table)
  unfolding select_fdtbl write_fdtbl
  placed t min pos small = elim (tag_cases tag min is_tag) [
    | inl untagged ↦
        let e : bit_or pos (bit_and min tag) ≡ pos =
          rw untagged (bit_or-zero pos pos (omega arith)) in
        let low = (tagged tag pos is_tag small).1 in
        rw e (
          ground (arith, low),
          ground (arith, low),
          ground (arith, low),
          λ table. ground (arith, low),
        )
    | inr (is_upper, _) ↦
        let e : bit_or pos (bit_and min tag) ≡ pos + tag =
          rw is_upper (tagged tag pos is_tag small).0 in
        let high = (tagged tag pos is_tag small).2 in
        let positive = is_tag.above in
        rw e (
          ground (arith, high),
          ground (arith, high),
          ground (arith, high),
          λ table. ground (arith, high),
        )
  ]

  -- The handle `h` is the lowest free one from `min` on, in the table that `min` names.
  pub record IsLowest (t : FdTbl) (min h : ℕ) : Type 0 where
    pub same_table : is_posix tag h ≡ is_posix tag min
    pub from_min : strip_tags tag min ≤ strip_tags tag h
    pub free : get_file tag t h ≡ none
    pub lowest :
        (j : ℕ)
        → is_posix tag j ≡ is_posix tag min
        → strip_tags tag min ≤ strip_tags tag j
        → strip_tags tag j < strip_tags tag h
        → is_some (get_file tag t j) ≡ true

  same_table_slot :
      (t : FdTbl) (min j : ℕ)
      → is_posix tag j ≡ is_posix tag min
      → get_file tag t j ≡ slot (select_fdtbl tag t min).0 (strip_tags tag j)
  unfolding select_fdtbl
  same_table_slot t min j e = ground (arith, get_file-slot tag is_tag t j, e)

  -- Taking a free slot at position `pos` of the table that `min` names.
  taken :
      (t : FdTbl) (min pos n : ℕ) (table : Table) (file : FileDescriptor)
      → pos < tag
      → strip_tags tag min ≤ pos
      → slot (select_fdtbl tag t min).0 pos ≡ none
      → ((j : ℕ)
          → strip_tags tag min ≤ j
          → j < pos
          → is_some (slot (select_fdtbl tag t min).0 j) ≡ true)
      → ((k : ℕ)
          → slot table k ≡ (if k == pos then some file else slot (select_fdtbl tag t min).0 k))
      → let h = bit_or pos (bit_and min tag) in
        IsLowest t min h
        × ((j : ℕ)
            → get_file tag (record (write_fdtbl tag t min table) { active_count = n }) j
              ≡ (if j == h then some file else get_file tag t j))
  taken t min pos n table file small from free least w =
      let p = placed t min pos small in
      let h = bit_or pos (bit_and min tag) in
      let e = same_table_slot t min h p.0 in
      (
        record {
          same_table = p.0;
          from_min = rw p.1 from;
          free = e ∙ ap (slot (select_fdtbl tag t min).0) p.1 ∙ free;
          lowest = λ j same l u.
              rw (same_table_slot t min j same) (least (strip_tags tag j) l (rw p.1 at u));
        },
        λ j.
            get_file-count tag is_tag (write_fdtbl tag t min table) n j
            ∙ ap (λ u. get_file tag u j) (sym (p.3 table))
            ∙ get_file-write tag is_tag t h j table (some file) (rw p.2 w),
      )

  -- What a call that returns `out` has done.
  abbrev Placed : FdTbl → FileDescriptor → ℕ → Option ℕ × FdTbl → Type 0
  Placed t file min (none, t') = Unit
  Placed t file min (some h, t') =
      IsLowest t min h
      × ((j : ℕ) → get_file tag t' j ≡ (if j == h then some file else get_file tag t j))

  inserted-Placed :
      (t : FdTbl) (file : FileDescriptor) (min : ℕ)
      → strip_tags tag min < tag
      → Placed t file min (insert_file tag t (bit_or (strip_tags tag min) (bit_and min tag)) file)
  inserted-Placed t file min small =
      let h = bit_or (strip_tags tag min) (bit_and min tag) in
      let p = placed t min (strip_tags tag min) small in
      elim (Bool-cases (can_insert tag is_tag t h)) [
        | inr fails ↦ rw (insert_file_no tag is_tag t h file fails) tt
        | inl fits ↦
            let done = insert_file_yes tag is_tag t h file fits in
            rw done (
              record {
                same_table = p.0;
                from_min = omega (arith, p.1);
                free = ground arith;
                lowest = λ j same l u. absurd (omega (arith, p.1));
              },
              λ j.
                  ap (λ r. get_file tag r.1 j) (sym done)
                  ∙ (insert_file_lem tag is_tag t h j file).1
                  ∙ ground (arith, fits),
            )
      ]

  pub add_file_min_full :
      (t : FdTbl) (file : FileDescriptor) (min : ℕ)
      → leb context_max_files t.active_count ≡ true
      → add_file_min tag t file min ≡ (none, t)
  unfolding add_file_min
  add_file_min_full t file min h = rw h

  select-IsShort : (t : FdTbl) (i : ℕ) → IsShort tag t → length (select_fdtbl tag t i).0 < tag
  unfolding select_fdtbl
  select-IsShort t i short = ground arith

  -- The three ways through `add_file_min`.
  module _ (t : FdTbl) (file : FileDescriptor) (min : ℕ)
      (room : leb context_max_files t.active_count ≡ false) where
    pub add_file_min_reuse :
        (pos : ℕ)
        → first_free 0 (select_fdtbl tag t min).1 (select_fdtbl tag t min).0 ≡ some pos
        → add_file_min tag t file min ≡ (
          some (bit_or pos (bit_and min tag)),
          record (write_fdtbl tag t min (set (select_fdtbl tag t min).0 pos (some file))) {
            active_count = t.active_count + 1;
          },
        )
    unfolding add_file_min
    add_file_min_reuse pos e = ground (arith, e, room)

    pub add_file_min_push :
        first_free 0 (select_fdtbl tag t min).1 (select_fdtbl tag t min).0 ≡ none
        → leb (select_fdtbl tag t min).1 (length (select_fdtbl tag t min).0) ≡ true
        → add_file_min tag t file min ≡ (
          some (bit_or (length (select_fdtbl tag t min).0) (bit_and min tag)),
          record (write_fdtbl tag t min ((select_fdtbl tag t min).0 ++ some file ∷ [])) {
            active_count = t.active_count + 1;
          },
        )
    unfolding add_file_min
    add_file_min_push e h = ground (arith, e, room, h)

    pub add_file_min_insert :
        first_free 0 (select_fdtbl tag t min).1 (select_fdtbl tag t min).0 ≡ none
        → leb (select_fdtbl tag t min).1 (length (select_fdtbl tag t min).0) ≡ false
        → add_file_min tag t file min
          ≡ insert_file tag t (bit_or (select_fdtbl tag t min).1 (bit_and min tag)) file
    unfolding add_file_min
    add_file_min_insert e h = ground (arith, e, room, h)

  add_file_min-Placed :
      (t : FdTbl) (file : FileDescriptor) (min : ℕ)
      → IsShort tag t
      → strip_tags tag min < tag
      → Placed t file min (add_file_min tag t file min)
  add_file_min-Placed t file min short small =
      let (table, k) = select_fdtbl tag t min in
      let index : k ≡ strip_tags tag min = select_index tag is_tag t min in
      let long : length table < tag = select-IsShort t min short in
      elim (Bool-cases (leb context_max_files t.active_count)) [
        | inl full ↦ rw (add_file_min_full t file min full) tt
        | inr room ↦ elim (Option-cases (first_free 0 k table)) [
          | inr (pos, e) ↦
              let f = first_free-some 0 k pos table e in
              rw (add_file_min_reuse t file min room pos e) (
                taken t min pos (t.active_count + 1) (set table pos (some file)) file (omega arith)
                  (omega arith) (ap (slot table) (omega arith) ∙ f.3)
                  (λ j l u. first_free-least 0 k j pos table e (omega arith) (omega arith))
                  (λ m. slot-set table pos m (some file) (omega arith)))
          | inl e ↦ elim (Bool-cases (leb k (length table))) [
            | inl reach ↦ rw (add_file_min_push t file min room e reach) (
                taken t min (length table) (t.active_count + 1) (table ++ some file ∷ []) file long
                  (ground arith) (slot-beyond table (length table) (omega arith))
                  (λ j l u. first_free-none 0 k j table e (omega arith) u)
                  (λ m. slot-push table file m))
            | inr gap ↦
                rw (add_file_min_insert t file min room e gap, index)
                  (inserted-Placed t file min small)
          ]
        ]
      ]

  -- For a tag of one bit above the maximum, tables shorter than the tag and an index of the minimum
  -- below it: if `add_file_min` returns a handle, it is the lowest free one from the minimum on, the
  -- file is behind it, and no other handle changes.
  pub add_file_min_lem :
      (t t' : FdTbl) (file : FileDescriptor) (min h : ℕ)
      → IsShort tag t
      → strip_tags tag min < tag
      → add_file_min tag t file min ≡ (some h, t')
      → IsLowest t min h
        × ((j : ℕ) → get_file tag t' j ≡ (if j == h then some file else get_file tag t j))
  add_file_min_lem t t' file min h short small e =
      subst (Placed t file min) e (add_file_min-Placed t file min short small)
