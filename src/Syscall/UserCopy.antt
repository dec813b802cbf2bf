-- ===== src/Syscall/UserCopy.antt =====
-- src/syscall/usercopy.rs: slices of user memory and the copies to and from them, for the x86_64
-- layout of src/arch/x86_64/consts.rs. The copy routine is assembly that fails on a region that the
-- page tables refuse: user memory is its bytes and a test for each direction.
pub mod Slices
pub mod Copies
pub mod Integers
mod Tests
use redox_kernel.Common.{
  ℕ, zero, suc, ◌+◌, ◌-◌, ◌*◌, ◌/◌, ◌^◌, min, Option, none, some, List, [], ◌∷◌, Bool, true, false,
  ◌||◌, ltb, leb, ◌==◌, if◌then◌else◌, length, take, saturating_add, add_usize, sub_usize,
  mul_usize, Errno, Result, ok, err, panic, ◌>>=◌, ◌>>◌, expect, ok_or,
}

-- `256 * PML4_SIZE`
abbrev pub user_end_offset : ℕ
user_end_offset = 256 * 0x8000000000

pub record UserSlice : Type 0 where
  pub base : ℕ
  pub len : ℕ

pub record UserMemory : Type 0 where
  pub byte : ℕ → ℕ
  pub readable : ℕ → ℕ → Bool
  pub writable : ℕ → ℕ → Bool

unfoldable pub new : ℕ → ℕ → Result UserSlice
new base len =
    if leb user_end_offset base || leb user_end_offset (saturating_add base len)
    then err Errno.efault
    else ok (record { base = base; len = len })

unfoldable pub split_at : UserSlice → ℕ → Option (UserSlice × UserSlice)
split_at s idx =
    if ltb s.len idx
    then none
    else some (
      record { base = s.base; len = idx },
      record { base = add_usize s.base idx; len = sub_usize s.len idx },
    )

unfoldable pub advance : UserSlice → ℕ → Option UserSlice
unfolding split_at
advance s by = elim (split_at s by) [ none ↦ none | some (before, after) ↦ some after ]

unfoldable pub limit : UserSlice → ℕ → Option UserSlice
unfolding split_at
limit s to = elim (split_at s to) [ none ↦ none | some (before, after) ↦ some before ]

-- `none_if_null`
unfoldable pub none_if_null : UserSlice → Option UserSlice
none_if_null s = if s.base == 0 then none else some s

-- `start, start + step, ...`, `n` of them
abbrev pub progression : ℕ → ℕ → ℕ → List ℕ
progression start step zero = []
progression start step (suc n) = start ∷ progression (start + step) step n

-- `(0..len).step_by(step)`
abbrev pub step_by : ℕ → ℕ → List ℕ
step_by len step = progression 0 step ((len + step - 1) / step)

-- Each item of an iterator of `expect`s.
abbrev pub expect_all : List (Option UserSlice) → Result (List UserSlice)
expect_all [] = ok []
expect_all (o ∷ os) = do s ← expect o; rest ← expect_all os; ok (s ∷ rest)

abbrev pub advances : UserSlice → List ℕ → List (Option UserSlice)
advances s [] = []
advances s (i ∷ is) = advance s i ∷ advances s is

unfoldable pub in_variable_chunks : UserSlice → ℕ → Result (List UserSlice)
in_variable_chunks s chunk_size = expect_all (advances s (step_by s.len chunk_size))

unfoldable pub exact_chunk : UserSlice → ℕ → ℕ → Option UserSlice
exact_chunk s chunk_size i = elim (advance s (mul_usize i chunk_size)) [
  | none ↦ none
  | some rest ↦ limit rest chunk_size
]

abbrev pub exact_chunks : UserSlice → ℕ → List ℕ → List (Option UserSlice)
exact_chunks s chunk_size [] = []
exact_chunks s chunk_size (i ∷ is) = exact_chunk s chunk_size i ∷ exact_chunks s chunk_size is

unfoldable pub in_exact_chunks : UserSlice → ℕ → Result (List UserSlice)
unfolding exact_chunk
in_exact_chunks s chunk_size =
    expect_all (exact_chunks s chunk_size (progression 0 1 (s.len / chunk_size)))

-- The bytes of a region.
abbrev pub load : (ℕ → ℕ) → ℕ → ℕ → List ℕ
load byte base zero = []
load byte base (suc n) = byte base ∷ load byte (base + 1) n

-- The memory with new bytes in a region.
abbrev pub poke : (ℕ → ℕ) → ℕ → List ℕ → ℕ → ℕ
poke byte base [] = byte
poke byte base (x ∷ xs) = poke (λ a. if a == base then x else byte a) (base + 1) xs

-- Into a buffer of `n` bytes; the bytes are what the buffer holds after it.
unfoldable pub copy_to_slice : UserMemory → UserSlice → ℕ → Result (List ℕ)
copy_to_slice m s n =
    if s.len == n
    then (if m.readable s.base s.len then ok (load m.byte s.base s.len) else err Errno.efault)
    else err Errno.einval

-- Of a failed copy nothing is said: it may have written a part.
unfoldable pub copy_from_slice : UserMemory → UserSlice → List ℕ → Result UserMemory
copy_from_slice m s slice =
    if s.len == length slice
    then (if m.writable s.base s.len
        then ok (record m { byte = poke m.byte s.base slice })
        else err Errno.efault)
    else err Errno.einval

unfoldable pub copy_common_bytes_to_slice : UserMemory → UserSlice → ℕ → Result (List ℕ)
unfolding copy_to_slice limit
copy_common_bytes_to_slice m s n = do
  let common = min s.len n
  part ← expect (limit s common)
  copy_to_slice m part common

unfoldable pub copy_common_bytes_from_slice :
    UserMemory → UserSlice → List ℕ → Result (ℕ × UserMemory)
unfolding copy_from_slice limit
copy_common_bytes_from_slice m s slice = do
  let common = min s.len (length slice)
  part ← expect (limit s common)
  m' ← copy_from_slice m part (take common slice)
  ok (common, m')

unfoldable pub copy_exactly : UserMemory → UserSlice → List ℕ → Result UserMemory
unfolding copy_from_slice limit
copy_exactly m s slice = do
  part ← ok_or (limit s (length slice)) Errno.einval
  copy_from_slice m part slice
