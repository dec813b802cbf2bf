-- ===== src/Memory/PageInfo.antt =====
-- src/memory/mod.rs, `PageInfo` and `RefCount`: the reference count of a page of memory, in one
-- word with two flag bits, or the allocator's links if the page is free.
pub mod Words
pub mod Raw
pub mod Counting
mod Tests
use redox_kernel.Common.{
  ℕ, ◌+◌, ◌-◌, ◌^◌, Option, none, some, Bool, true, false, bit_and, bit_or, leb, ◌==◌, not,
  if◌then◌else◌, and_not, add_usize, sub_usize, Result, ok, panic, ◌>>=◌, ◌>>◌, expect, assert,
}

abbrev pub rc_used_not_free : ℕ
rc_used_not_free = 2 ^ 63

abbrev pub rc_shared_not_cow : ℕ
rc_shared_not_cow = 2 ^ 62

abbrev pub rc_max : ℕ
rc_max = 2 ^ 61

-- `word & RC_COUNT_MASK`
abbrev pub rc_count : ℕ → ℕ
rc_count word = and_not word (bit_or rc_used_not_free rc_shared_not_cow)

pub data RefKind : Type 0 where
  cow_kind shared_kind : RefKind

-- The numbers are `NonZeroUsize`.
pub data RefCount : Type 0 where
  one : RefCount
  shared cow : ℕ → RefCount

pub data AddRefError : Type 0 where
  cow_to_shared shared_to_cow rc_overflow : AddRefError

-- The two atomic words of a page, owned by one thread at a time.
pub record PageInfo : Type 0 where
  pub refcount : ℕ
  pub next : ℕ

unfoldable pub from_raw : ℕ → Option RefCount
from_raw raw =
    if bit_and raw rc_used_not_free == rc_used_not_free
    then (let refcount = and_not raw (bit_or rc_shared_not_cow rc_used_not_free) in
        if refcount == 0
        then none
        else if refcount == 1
        then some one
        else if bit_and raw rc_shared_not_cow == rc_shared_not_cow
        then some (shared refcount)
        else some (cow refcount))
    else none

unfoldable pub to_raw : RefCount → ℕ
to_raw one = bit_or 1 rc_used_not_free
to_raw (shared inner) = bit_or (bit_or inner rc_shared_not_cow) rc_used_not_free
to_raw (cow inner) = bit_or inner rc_used_not_free

unfoldable pub refcount : PageInfo → Option RefCount
refcount info = from_raw info.refcount

-- The links of a free page: what `PageInfoFree` points at.
unfoldable pub as_free : PageInfo → Option (ℕ × ℕ)
as_free info =
    if bit_and info.refcount rc_used_not_free == rc_used_not_free
    then none
    else some (info.refcount, info.next)

unfoldable pub make_free : ℕ → PageInfo → PageInfo
make_free order info = record { refcount = order; next = order }

unfoldable pub mark_used : PageInfo → PageInfo
mark_used info = record { refcount = rc_used_not_free; next = 0 }

-- `fetch_add`, and `fetch_sub` once the count turns out too high
unfoldable pub count_up : PageInfo → Option AddRefError × PageInfo
count_up info =
    let old = info.refcount in
    let new = add_usize old 1 in
    if leb rc_max (rc_count old)
    then (some rc_overflow, record info { refcount = sub_usize new 1 })
    else (none, record info { refcount = new })

-- `Ok(())` is `none`.
unfoldable pub add_counted : RefCount → RefKind → PageInfo → Option AddRefError × PageInfo
unfolding count_up
add_counted one cow_kind info = (none, record info { refcount = bit_or rc_used_not_free 2 })
add_counted one shared_kind info =
    (none, record info { refcount = bit_or (bit_or rc_used_not_free 2) rc_shared_not_cow })
add_counted (cow n) cow_kind info = count_up info
add_counted (shared n) shared_kind info = count_up info
add_counted (cow n) shared_kind info = (some cow_to_shared, info)
add_counted (shared n) cow_kind info = (some shared_to_cow, info)

unfoldable pub add_ref : RefKind → PageInfo → Result (Option AddRefError × PageInfo)
unfolding add_counted refcount
add_ref kind info = do r ← expect (refcount info); ok (add_counted r kind info)

-- `fetch_sub` with its two assertions
unfoldable pub count_down : PageInfo → Result (Option RefCount × PageInfo)
unfolding from_raw
count_down info = do
  let new_value = sub_usize info.refcount 1
  assert (not (new_value == rc_used_not_free - 1))
  assert (bit_and new_value rc_used_not_free == rc_used_not_free)
  ok (from_raw new_value, record info { refcount = new_value })

unfoldable pub remove_counted : Option RefCount → PageInfo → Result (Option RefCount × PageInfo)
unfolding count_down
remove_counted none info = panic
remove_counted (some one) info = ok (none, record info { refcount = rc_used_not_free })
remove_counted (some (cow n)) info = count_down info
remove_counted (some (shared n)) info = count_down info

unfoldable pub remove_ref : PageInfo → Result (Option RefCount × PageInfo)
unfolding remove_counted refcount
remove_ref info = remove_counted (refcount info) info

abbrev pub writable : RefCount → Bool
writable one = true
writable (cow n) = false
writable (shared n) = true

unfoldable pub allows_writable : PageInfo → Result Bool
unfolding refcount
allows_writable info = do r ← expect (refcount info); ok (writable r)
