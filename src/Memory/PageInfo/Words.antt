-- ===== src/Memory/PageInfo/Words.antt =====
-- The flag bits and the count of a reference count word of src/memory/mod.rs.
use redox_kernel.Common.{
  ℕ, ◌+◌, ◌-◌, ◌*◌, ◌/◌, ◌%◌, ◌^◌, ◌<◌, ◌≡◌, ◌∙◌, ap, bit_and, bit_or, bit_and_field, bit_or_field,
  bit_and-one, bit_and_three,
}
use redox_kernel.Memory.PageInfo.{rc_used_not_free, rc_shared_not_cow, rc_count}

pub used_bit : (a : ℕ) → bit_and a rc_used_not_free ≡ a / 2 ^ 63 % 2 * 2 ^ 63
used_bit a = bit_and_field 63 a 1 ∙ ap (λ d. d * 2 ^ 63) (bit_and-one (a / 2 ^ 63))

pub shared_bit : (a : ℕ) → bit_and a rc_shared_not_cow ≡ a / 2 ^ 62 % 2 * 2 ^ 62
shared_bit a = bit_and_field 62 a 1 ∙ ap (λ d. d * 2 ^ 62) (bit_and-one (a / 2 ^ 62))

pub count_field : (a : ℕ) → rc_count a ≡ a - a / 2 ^ 62 % 4 * 2 ^ 62
count_field a =
    ap (λ b. a - b) (bit_and_field 62 a 3 ∙ ap (λ d. d * 2 ^ 62) (bit_and_three (a / 2 ^ 62)))

pub or_used : (a : ℕ) → a < 2 ^ 63 → bit_or a rc_used_not_free ≡ a + 2 ^ 63
or_used a h = bit_or_field 63 a 1 h

pub or_shared : (a : ℕ) → a < 2 ^ 62 → bit_or a rc_shared_not_cow ≡ a + 2 ^ 62
or_shared a h = bit_or_field 62 a 1 h
