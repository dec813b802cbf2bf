-- ===== src/Context/FdTbl.antt =====
-- src/context/context.rs, `FdTbl`: the file descriptors of a context, in a POSIX table and an
-- upper table; a handle with the tag bit set is an index into the upper one. The bit
-- (`UPPER_FDTBL_TAG` of redox_syscall) is a parameter.
pub mod Slots
pub mod Single
pub mod Lowest
pub mod Bulk
pub mod Count
pub mod Fill
mod Tests
use redox_kernel.Common.{
  ℕ, zero, suc, ◌+◌, ◌-◌, max, bit_and, bit_or, Option, none, some, List, [], ◌∷◌, ◌++◌, map, Bool,
  true, false, ◌&&◌, ◌||◌, not, ltb, leb, ◌==◌, if◌then◌else◌, and_not, sub_usize, length,
  get_elem?, set, replicate, is_some, Errno, Result, ok, err, panic, ◌>>=◌, ◌>>◌, guard, expect,
  ok_or,
}

-- src/context/mod.rs
abbrev pub context_max_files : ℕ
context_max_files = 65536

-- src/context/file.rs; an `Arc<RwLock<FileDescription>>` is the address of what it points to.
pub record FileDescriptor : Type 0 where
  pub description : ℕ
  pub cloexec : Bool

pub record FileDescription : Type 0 where
  pub offset : ℕ
  pub scheme : ℕ
  pub number : ℕ
  pub flags : ℕ
  pub internal_flags : ℕ

abbrev pub Table : Type 0
Table = List (Option FileDescriptor)

pub record FdTbl : Type 0 where
  pub posix_fdtbl : Table
  pub upper_fdtbl : Table
  pub active_count : ℕ

abbrev pub new : FdTbl
new = record { posix_fdtbl = []; upper_fdtbl = []; active_count = 0 }

-- `iter().enumerate().skip(min).find(is_none)`, from position `pos`
unfoldable pub first_free : ℕ → ℕ → Table → Option ℕ
first_free pos min [] = none
first_free pos min (slot ∷ r) =
    if leb min pos && not (is_some slot) then some pos else first_free (pos + 1) min r

-- `Vec::resize` to a greater length, with `None`
abbrev pub resize : Table → ℕ → Table
resize t n = t ++ replicate (n - length t) none

-- `fdtbl[index] = Some(file)`, which panics out of range
abbrev pub store : Table → ℕ → FileDescriptor → Result Table
store t i file = if ltb i (length t) then ok (set t i (some file)) else panic

-- A loop that stores files at the indices of a list.
unfoldable pub store_all : Table → List ℕ → List FileDescriptor → Result Table
store_all t [] files = ok t
store_all t (i ∷ is) [] = ok t
store_all t (i ∷ is) (file ∷ files) = store t i file >>= λ t'. store_all t' is files

-- `BTreeSet::contains`
abbrev pub contains : ℕ → List ℕ → Bool
contains i [] = false
contains i (j ∷ js) = j == i || contains i js

-- `find_free_posix_slots`: the loop over the table, `pos` the position and `count` the slots
-- still wanted, and then new slots at the end.
unfoldable pub new_slots : ℕ → ℕ → List ℕ
new_slots current_len zero = []
new_slots current_len (suc n) = current_len ∷ new_slots (current_len + 1) n

unfoldable pub free_slots : ℕ → ℕ → Table → List ℕ
free_slots pos zero t = []
free_slots pos (suc n) [] = new_slots pos (suc n)
free_slots pos (suc n) (none ∷ r) = pos ∷ free_slots (pos + 1) n r
free_slots pos (suc n) (some file ∷ r) = free_slots (pos + 1) (suc n) r

abbrev pub last_or : ℕ → List ℕ → ℕ
last_or d [] = d
last_or d (x ∷ xs) = last_or x xs

unfoldable pub bulk_add_files_posix : FdTbl → List FileDescriptor → Result (Option (List ℕ) × FdTbl)
unfolding store_all free_slots new_slots
bulk_add_files_posix t files =
    let count = length files in
    if count == 0
    then ok (some [], t)
    else if ltb context_max_files (t.active_count + count)
    then ok (none, t)
    else (do
      let handles = free_slots 0 count t.posix_fdtbl
      let max_index = last_or 0 handles
      let table =
          (if leb (length t.posix_fdtbl) max_index
            then resize t.posix_fdtbl (max_index + 1)
            else t.posix_fdtbl)
      table' ← store_all table handles files
      ok (some handles, record t { posix_fdtbl = table'; active_count = t.active_count + count }))

-- `find_free_upper_block`: the loop over the table with its two variables, which breaks once a
-- block of `len` slots is found.
unfoldable pub free_block : ℕ → ℕ → ℕ → ℕ → Table → ℕ × ℕ
free_block len i start count [] = (start, count)
free_block len i start count (some file ∷ r) = free_block len (i + 1) start 0 r
free_block len i start count (none ∷ r) =
    let start' = (if count == 0 then i else start) in
    let rest = free_block len (i + 1) start' (count + 1) r in
    if count + 1 == len then (start', count + 1) else rest

unfoldable pub find_free_upper_block : FdTbl → ℕ → ℕ × Table
unfolding free_block
find_free_upper_block t len =
    let (start, count) = free_block len 0 0 0 t.upper_fdtbl in
    let upper_len = length t.upper_fdtbl in
    if ltb count len
    then (if count == 0 then upper_len else start, resize t.upper_fdtbl (upper_len + (len - count)))
    else (start, t.upper_fdtbl)

-- `index, index + 1, ...`, `n` of them
abbrev pub indices : ℕ → ℕ → List ℕ
indices index zero = []
indices index (suc n) = index ∷ indices (index + 1) n

-- `iter().flatten()`: the descriptors of one table
unfoldable pub files_of : Table → List FileDescriptor
files_of [] = []
files_of (none ∷ r) = files_of r
files_of (some file ∷ r) = file ∷ files_of r

-- `.find(...)` by scheme and number; `read` is the description behind an `Arc`.
unfoldable pub find_description :
    (ℕ → FileDescription) → ℕ → ℕ → List FileDescriptor → Option FileDescriptor
find_description read scheme_id number [] = none
find_description read scheme_id number (file ∷ r) =
    let desc = read file.description in
    if desc.scheme == scheme_id && desc.number == number
    then some file
    else find_description read scheme_id number r

unfoldable pub find_by_scheme : (ℕ → FileDescription) → FdTbl → ℕ → ℕ → Result FileDescriptor
unfolding find_description files_of
find_by_scheme read t scheme_id number =
    ok_or
      (find_description read scheme_id number (files_of t.posix_fdtbl ++ files_of t.upper_fdtbl))
      Errno.ebadf

-- `slot.take()` for each slot
unfoldable pub clear : Table → Table
clear [] = []
clear (slot ∷ r) = none ∷ clear r

-- The closed descriptors, in order, and the table that is left.
unfoldable pub force_close_all : FdTbl → List FileDescriptor × FdTbl
unfolding clear files_of
force_close_all t = (
  files_of t.posix_fdtbl ++ files_of t.upper_fdtbl,
  record { posix_fdtbl = clear t.posix_fdtbl; upper_fdtbl = clear t.upper_fdtbl; active_count = 0 },
)

module _ (upper_fdtbl_tag : ℕ) where
  abbrev pub strip_tags : ℕ → ℕ
  strip_tags index = and_not index upper_fdtbl_tag

  abbrev pub is_posix : ℕ → Bool
  is_posix index = bit_and index upper_fdtbl_tag == 0

  unfoldable pub select_fdtbl : FdTbl → ℕ → Table × ℕ
  select_fdtbl t index =
      if is_posix index then (t.posix_fdtbl, index) else (t.upper_fdtbl, strip_tags index)

  -- A write through the table that `select_fdtbl_mut` lends.
  unfoldable pub write_fdtbl : FdTbl → ℕ → Table → FdTbl
  write_fdtbl t index table =
      if is_posix index then record t { posix_fdtbl = table } else record t { upper_fdtbl = table }

  unfoldable pub get : FdTbl → ℕ → Option (Option FileDescriptor)
  unfolding select_fdtbl
  get t index = let (table, real_index) = select_fdtbl t index in get_elem? table real_index

  unfoldable pub get_file : FdTbl → ℕ → Option FileDescriptor
  unfolding get
  get_file t i = elim (get t i) [ none ↦ none | some slot ↦ slot ]

  unfoldable pub validate_handles : FdTbl → List ℕ → List ℕ → Result (Unit {0})
  validate_handles t checked [] = ok tt
  validate_handles t checked (index ∷ handles) = do
    guard (ltb (strip_tags index) context_max_files) Errno.emfile
    guard (not (contains index checked)) Errno.ebadf
    guard (is_some (get_file t index)) Errno.ebadf
    validate_handles t (index ∷ checked) handles

  unfoldable pub validate_free_slots : FdTbl → List ℕ → List ℕ → Result (Unit {0})
  validate_free_slots t checked [] = ok tt
  validate_free_slots t checked (index ∷ handles) = do
    guard (ltb (strip_tags index) context_max_files) Errno.emfile
    guard (not (contains index checked)) Errno.einval
    guard (not (is_some (get_file t index))) Errno.eexist
    validate_free_slots t (index ∷ checked) handles

  unfoldable pub insert_file : FdTbl → ℕ → FileDescriptor → Option ℕ × FdTbl
  unfolding select_fdtbl write_fdtbl
  insert_file t i file =
      if leb context_max_files t.active_count
      then (none, t)
      else let (table, real_index) = select_fdtbl t i in
        if leb context_max_files real_index
        then (none, t)
        else let grown =
            (if leb (length table) real_index then resize table (real_index + 1) else table) in
          elim (get_elem? grown real_index) [
            | some none ↦
                let t' = write_fdtbl t i (set grown real_index (some file)) in
                (some i, record t' { active_count = t.active_count + 1 })
            | _ ↦ (none, write_fdtbl t i grown)
          ]

  unfoldable pub add_file_min : FdTbl → FileDescriptor → ℕ → Option ℕ × FdTbl
  unfolding select_fdtbl write_fdtbl insert_file first_free
  add_file_min t file min =
      if leb context_max_files t.active_count
      then (none, t)
      else let tag = bit_and min upper_fdtbl_tag in
        let (table, real_min) = select_fdtbl t min in
        elim (first_free 0 real_min table) [
          | some pos ↦
              let t' = write_fdtbl t min (set table pos (some file)) in
              (some (bit_or pos tag), record t' { active_count = t.active_count + 1 })
          | none ↦
              let len = length table in
              if leb real_min len
              then (let t' = write_fdtbl t min (table ++ some file ∷ []) in
                  (some (bit_or len tag), record t' { active_count = t.active_count + 1 }))
              else insert_file t (bit_or real_min tag) file
        ]

  unfoldable pub bulk_insert_files_upper :
      FdTbl → List FileDescriptor → Result (Option (List ℕ) × FdTbl)
  unfolding find_free_upper_block store_all
  bulk_insert_files_upper t files =
      let count = length files in
      if count == 0
      then ok (some [], t)
      else if ltb context_max_files (t.active_count + count)
      then ok (none, t)
      else (do
        let (start, table) = find_free_upper_block t count
        let index = strip_tags (bit_or start upper_fdtbl_tag)
        table' ← store_all table (indices index count) files
        ok (
          some (map (λ i. bit_or i upper_fdtbl_tag) (indices index count)),
          record t { upper_fdtbl = table'; active_count = t.active_count + count },
        ))

  -- `handles.iter().map(strip_tags).max().unwrap_or(0)`
  abbrev pub max_index : List ℕ → ℕ
  max_index [] = 0
  max_index (h ∷ hs) = max (strip_tags h) (max_index hs)

  unfoldable pub bulk_insert_files_upper_manual :
      FdTbl → List FileDescriptor → List ℕ → Result (FdTbl)
  unfolding validate_free_slots store_all
  bulk_insert_files_upper_manual t files handles =
      let count = length files in
      if length handles == count
      then (if count == 0
          then ok t
          else if ltb context_max_files (t.active_count + count)
          then err Errno.emfile
          else (do
            validate_free_slots t [] handles
            let top = max_index handles
            let table =
                (if leb (length t.upper_fdtbl) top
                  then resize t.upper_fdtbl (top + 1)
                  else t.upper_fdtbl)
            table' ← store_all table (map strip_tags handles) files
            ok (record t { upper_fdtbl = table'; active_count = t.active_count + count })))
      else err Errno.einval

  unfoldable pub remove_file : FdTbl → ℕ → Option FileDescriptor × FdTbl
  unfolding select_fdtbl write_fdtbl
  remove_file t i =
      let (table, real_index) = select_fdtbl t i in
      elim (get_elem? table real_index) [
        | some (some file) ↦
            let t' = write_fdtbl t i (set table real_index none) in
            (some file, record t' { active_count = sub_usize t.active_count 1 })
        | _ ↦ (none, t)
      ]

  -- `handles.iter().map(|&i| self.get_file(i).expect(..)).collect()`
  unfoldable pub get_all : FdTbl → List ℕ → Result (List FileDescriptor)
  get_all t [] = ok []
  get_all t (i ∷ is) = do file ← expect (get_file t i); files ← get_all t is; ok (file ∷ files)

  unfoldable pub bulk_get_files : FdTbl → List ℕ → Result (List FileDescriptor)
  unfolding validate_handles get_all
  bulk_get_files t handles = validate_handles t [] handles >> get_all t handles

  -- `handles.iter().map(|&i| self.remove_file(i).expect(..)).collect()`
  unfoldable pub remove_all : FdTbl → List ℕ → Result (List FileDescriptor × FdTbl)
  remove_all t [] = ok ([], t)
  remove_all t (i ∷ is) = do
    let (removed, t') = remove_file t i
    file ← expect removed
    (files, t'') ← remove_all t' is
    ok (file ∷ files, t'')

  unfoldable pub bulk_remove_files : FdTbl → List ℕ → Result (List FileDescriptor × FdTbl)
  unfolding validate_handles remove_all
  bulk_remove_files t handles = validate_handles t [] handles >> remove_all t handles
