-- ===== src/Memory/Buddy/P2Frame.antt =====
-- `P2Frame` of src/memory/mod.rs: an optional frame and an order in one word.
use redox_kernel.Common.{
  ℕ, ◌-◌, ◌*◌, ◌/◌, ◌^◌, Option, none, some, bit_and, bit_or, and_not, ◌==◌, if◌then◌else◌,
}
use redox_kernel.Memory.PageInfo.{rc_used_not_free}

abbrev pub page_size : ℕ
page_size = 2 ^ 12

-- `Frame::containing`
unfoldable pub containing : ℕ → Option ℕ
containing address = if address / page_size == 0 then none else some (address / page_size)

unfoldable pub new : Option ℕ → ℕ → ℕ
new none order = bit_or 0 order
new (some frame) order = bit_or (frame * page_size) order

unfoldable pub frame : ℕ → Option ℕ
unfolding containing
frame word = containing (and_not (and_not word (page_size - 1)) rc_used_not_free)

unfoldable pub order : ℕ → ℕ
order word = bit_and word (page_size - 1)
