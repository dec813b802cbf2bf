-- ===== src/Memory/Buddy.antt =====
-- src/memory/mod.rs, the physical frame allocator: blocks of `2 ^ order` frames, one doubly linked
-- list of free blocks per order, kept in the words of the pages' `PageInfo`. A `Frame` is the
-- number of its page, so its address is a multiple of `PAGE_SIZE`; the debug assertions are left
-- out.
pub mod P2Frame
pub mod Words
pub mod Siblings
pub mod Layout
pub mod Marks
pub mod Sizes
pub mod Unlink
pub mod Valid
pub mod Changes
pub mod Halves
pub mod Splits
pub mod Allocate
pub mod Mates
pub mod Merges
pub mod Merging
pub mod Pushing
pub mod RoundTrip
pub mod Deallocate
pub mod Lists
pub mod Heads
mod Tests
use redox_kernel.Common.{
  ℕ, zero, suc, ◌+◌, ◌-◌, ◌*◌, ◌/◌, ◌^◌, Option, none, some, Bool, true, false, bit_and, bit_or,
  bit_xor, and_not, leb, ltb, ◌==◌, if◌then◌else◌, add_usize, sub_usize, Result, ok, panic, ◌>>=◌,
  ◌>>◌, expect, assert,
}
use redox_kernel.Memory.Buddy.P2Frame
use redox_kernel.Memory.Buddy.P2Frame.{page_size, containing}
use redox_kernel.Memory.PageInfo.{PageInfo, as_free, make_free, mark_used, rc_used_not_free}

abbrev pub order_count : ℕ
order_count = 11

abbrev pub max_order : ℕ
max_order = order_count - 1

-- `Frame::next_by`
unfoldable pub next_by : ℕ → ℕ → Result ℕ
next_by n frame = if ltb (frame * page_size + n * page_size) (2 ^ 64) then ok (frame + n) else panic

-- The statics `FREELIST` and `ALLOCATOR_DATA`: the heads of the lists, what `get_page_info`
-- answers for each frame, and the count of used frames.
pub record Allocator : Type 0 where
  pub for_orders : ℕ → Option ℕ
  pub infos : ℕ → Option PageInfo
  pub used_frames : ℕ

-- One entry replaced.
unfoldable pub put : {A : Type 0} → (ℕ → A) → ℕ → A → ℕ → A
put f i a j = if j == i then a else f j

unfoldable pub write : ℕ → PageInfo → Allocator → Allocator
unfolding put
write frame info s = record s { infos = put s.infos frame (some info) }

unfoldable pub set_head : ℕ → Option ℕ → Allocator → Allocator
unfolding put
set_head order head s = record s { for_orders = put s.for_orders order head }

-- A write by `PageInfoFree::set_next`
unfoldable pub set_next : ℕ → PageInfo → PageInfo
set_next word info = record info { next = word }

-- A write by `PageInfoFree::set_prev`
unfoldable pub set_prev : ℕ → PageInfo → PageInfo
set_prev word info = record info { refcount = word }

unfoldable pub get_free_alloc_page_info : ℕ → Allocator → Result PageInfo
unfolding as_free
get_free_alloc_page_info frame s = do i ← expect (s.infos frame); words ← expect (as_free i); ok i

-- `get_free_alloc_page_info(frame)` and a write through it
unfoldable pub relink : ℕ → (PageInfo → PageInfo) → Allocator → Result Allocator
unfolding get_free_alloc_page_info write
relink frame f s = do i ← get_free_alloc_page_info frame s; ok (write frame (f i) s)

-- `if let Some(frame) = link { ... }`
unfoldable pub relink_if : Option ℕ → (PageInfo → PageInfo) → Allocator → Result Allocator
unfolding relink
relink_if none f s = ok s
relink_if (some frame) f s = relink frame f s

-- `for_orders.iter().enumerate().skip(order)`, with `count` lists to go
unfoldable pub find_block : ℕ → ℕ → (ℕ → Option ℕ) → Option (ℕ × ℕ)
find_block zero order heads = none
find_block (suc count) order heads = elim (heads order) [
  | some frame ↦ some (order, frame)
  | none ↦ find_block count (suc order) heads
]

-- One turn of the splitting loop: the upper half becomes the free list of its order.
unfoldable pub split_off : ℕ → ℕ → Allocator → Result Allocator
unfolding next_by write make_free set_next set_prev set_head P2Frame.new
split_off frame order s = do
  hi ← next_by (2 ^ order) frame
  hi_info ← expect (s.infos hi)
  let freed = make_free order hi_info
  let linked = set_prev (P2Frame.new none order) (set_next (P2Frame.new none order) freed)
  ok (set_head order (some hi) (write hi linked s))

-- `for order in (min_order..min_order + count).rev()`
unfoldable pub split : ℕ → ℕ → ℕ → Allocator → Result Allocator
unfolding split_off
split frame min_order zero s = ok s
split frame min_order (suc count) s =
    split_off frame (min_order + count) s >>= λ s1. split frame min_order count s1

-- `allocate_p2frame_complex` on the block that was found
unfoldable pub take_block : ℕ → ℕ → ℕ → Allocator → Result ((ℕ × ℕ) × Allocator)
unfolding as_free relink_if set_prev P2Frame.new P2Frame.frame set_head split write mark_used
take_block min_order frame_order frame s = do
  info ← expect (s.infos frame)
  words ← expect (as_free info)
  let next = P2Frame.frame words.1
  s1 ← relink_if next (set_prev (P2Frame.new none frame_order)) s
  s2 ← split frame min_order (frame_order - min_order) (set_head frame_order next s1)
  let used = add_usize s2.used_frames (2 ^ min_order)
  ok (
    (frame, page_size * 2 ^ min_order),
    write frame (mark_used info) (record s2 { used_frames = used }),
  )

unfoldable pub allocate_p2frame_complex : ℕ → Allocator → Result (Option (ℕ × ℕ) × Allocator)
unfolding find_block take_block
allocate_p2frame_complex min_order s =
    elim (find_block (order_count - min_order) min_order s.for_orders) [
      | none ↦ ok (none, s)
      | some (frame_order, frame) ↦
          take_block min_order frame_order frame s >>= λ taken. ok (some taken.0, taken.1)
    ]

-- `deallocate_p2frame` where a free sibling is taken out of its list
unfoldable pub unlink : ℕ → PageInfo → Allocator → Result Allocator
unfolding relink_if set_next set_prev P2Frame.frame set_head
unlink order info s =
    let next = P2Frame.frame info.next in
    elim (P2Frame.frame info.refcount) [
      | some prev ↦ relink_if (some prev) (set_next info.next) s
      | none ↦ ok (set_head order next s)
    ]
    >>= λ s1. relink_if next (set_prev info.refcount) s1

-- The frame at `current.base() ^ (PAGE_SIZE << order)`
unfoldable pub sibling : ℕ → ℕ → Option ℕ
unfolding containing
sibling order current = containing (bit_xor (current * page_size) (page_size * 2 ^ order))

-- The frame at `current.base() & !(PAGE_SIZE << order)`
unfoldable pub lower : ℕ → ℕ → Option ℕ
unfolding containing
lower order current = containing (and_not (current * page_size) (page_size * 2 ^ order))

-- The page info of the sibling if it can be merged at this order.
unfoldable pub mergeable : ℕ → Option PageInfo → Option PageInfo
unfolding as_free P2Frame.order
mergeable order none = none
mergeable order (some info) = elim (as_free info) [
  | none ↦ none
  | some (prev, next) ↦ if ltb (P2Frame.order next) order then none else some info
]

-- `for merge_order in order..order + count`: the frame and the order it ends at
unfoldable pub merge : ℕ → ℕ → ℕ → Allocator → Result ((ℕ × ℕ) × Allocator)
unfolding sibling lower unlink mergeable
merge zero order current s = ok ((current, order), s)
merge (suc count) order current s = do
  sib ← expect (sibling order current)
  cur_info ← expect (s.infos current)
  elim (mergeable order (s.infos sib)) [
    | none ↦ ok ((current, order), s)
    | some info ↦ unlink order info s >>= λ s1.
        expect (lower order current) >>= λ lo. merge count (suc order) lo s1
  ]

-- The links of the new head and of the old one.
unfoldable pub link_heads : ℕ → ℕ → Option ℕ → Allocator → Result Allocator
unfolding relink set_next set_prev P2Frame.new
link_heads order head none s = ok s
link_heads order head (some old) s = do
  old_info ← get_free_alloc_page_info old s
  s1 ←
      relink head
        (λ i. set_prev (P2Frame.new none order) (set_next (P2Frame.new (some old) order) i)) s
  relink old (set_prev (P2Frame.new (some head) order)) s1

-- `deallocate_p2frame` once nothing is left to merge
unfoldable pub push_block : ℕ → ℕ → Allocator → Result Allocator
unfolding write make_free set_head link_heads
push_block order current s = do
  info ← expect (s.infos current)
  assert (ltb order order_count)
  link_heads order current (s.for_orders order)
      (set_head order (some current) (write current (make_free order info) s))

unfoldable pub deallocate_p2frame : ℕ → ℕ → Allocator → Result Allocator
unfolding write merge push_block
deallocate_p2frame orig_frame order s = do
  initial_info ← expect (s.infos orig_frame)
  merged ←
      merge (max_order - order) order orig_frame
        (write orig_frame (record initial_info { refcount = 0 }) s)
  s2 ← push_block merged.0.1 merged.0.0 merged.1
  ok (record s2 { used_frames = sub_usize s2.used_frames (2 ^ order) })
