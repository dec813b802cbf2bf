-- ===== src/Memory/PageInfo/Raw.antt =====
-- `RefCount::from_raw` and `RefCount::to_raw` of src/memory/mod.rs are inverse.
use redox_kernel.Common.{
  ℕ, ◌+◌, ◌-◌, ◌/◌, ◌^◌, ◌≤◌, ◌<◌, ◌≡◌, ◌⊎◌, inl, inr, ◌∙◌, ap, sym, bit_and, bit_or, arith, Option,
  none, some, if◌then◌else◌, ◌==◌, refl, Bool-cases,
}
use redox_kernel.Memory.PageInfo.{
  rc_used_not_free, rc_shared_not_cow, rc_count, RefCount, one, shared, cow, from_raw, to_raw,
}
use redox_kernel.Memory.PageInfo.Words.{used_bit, shared_bit, count_field, or_used, or_shared}

-- The counts that a word can hold beside its two flags.
abbrev pub IsValid : RefCount → Type 0
IsValid one = Unit
IsValid (cow n) = (2 ≤ n) × (n < 2 ^ 62)
IsValid (shared n) = (2 ≤ n) × (n < 2 ^ 62)

-- What a used page with count `n` says, where `many` is its kind.
abbrev pub counted : (ℕ → RefCount) → ℕ → Option RefCount
counted many n = if n == 0 then none else if n == 1 then some one else some (many n)

pub from_raw_free : (a : ℕ) → a < 2 ^ 63 → from_raw a ≡ none
unfolding from_raw
from_raw_free a h = ground (arith, used_bit a)

pub from_raw_cow : (n : ℕ) → n < 2 ^ 62 → from_raw (n + 2 ^ 63) ≡ counted cow n
unfolding from_raw
from_raw_cow n h =
    let used : bit_and (n + 2 ^ 63) rc_used_not_free ≡ 2 ^ 63 =
      omega (arith, used_bit (n + 2 ^ 63)) in
    let kind : bit_and (n + 2 ^ 63) rc_shared_not_cow ≡ 0 =
      omega (arith, shared_bit (n + 2 ^ 63)) in
    let count : rc_count (n + 2 ^ 63) ≡ n = omega (arith, count_field (n + 2 ^ 63)) in
    rw (used, kind, count) refl

pub from_raw_shared : (n : ℕ) → n < 2 ^ 62 → from_raw (n + 2 ^ 62 + 2 ^ 63) ≡ counted shared n
unfolding from_raw
from_raw_shared n h =
    let word : ℕ = n + 2 ^ 62 + 2 ^ 63 in
    let used : bit_and word rc_used_not_free ≡ 2 ^ 63 = omega (arith, used_bit word) in
    let kind : bit_and word rc_shared_not_cow ≡ 2 ^ 62 = omega (arith, shared_bit word) in
    let count : rc_count word ≡ n = omega (arith, count_field word) in rw (used, kind, count) refl

pub to_raw_one : to_raw one ≡ 1 + 2 ^ 63
unfolding to_raw
to_raw_one = refl

pub to_raw_cow : (n : ℕ) → n < 2 ^ 62 → to_raw (cow n) ≡ n + 2 ^ 63
unfolding to_raw
to_raw_cow n h = or_used n (omega arith)

pub to_raw_shared : (n : ℕ) → n < 2 ^ 62 → to_raw (shared n) ≡ n + 2 ^ 62 + 2 ^ 63
unfolding to_raw
to_raw_shared n h =
    ap (λ a. bit_or a rc_used_not_free) (or_shared n h) ∙ or_used (n + 2 ^ 62) (omega arith)

-- A count that fits beside the flags is read back as it was written.
pub from_raw-to_raw : (r : RefCount) → IsValid r → from_raw (to_raw r) ≡ some r
from_raw-to_raw one v = ap from_raw to_raw_one ∙ from_raw_cow 1 (omega arith)
from_raw-to_raw (cow n) v = ap from_raw (to_raw_cow n v.1) ∙ from_raw_cow n v.1 ∙ ground arith
from_raw-to_raw (shared n) v =
    ap from_raw (to_raw_shared n v.1) ∙ from_raw_shared n v.1 ∙ ground arith

-- The three shapes of a word.
pub word_cases :
    (a : ℕ)
    → a < 2 ^ 64
    → (a < 2 ^ 63) ⊎ ((n : ℕ) × (n < 2 ^ 62) × ((a ≡ n + 2 ^ 63) ⊎ (a ≡ n + 2 ^ 62 + 2 ^ 63)))
word_cases a h = elim (Bool-cases (a / 2 ^ 63 == 0)) [
  | inl free ↦ inl (ground arith)
  | inr used ↦ elim (Bool-cases (a / 2 ^ 62 == 2)) [
    | inl is_cow ↦ inr (a - 2 ^ 63, ground arith, inl (ground arith))
    | inr is_shared ↦ inr (a - 2 ^ 63 - 2 ^ 62, ground arith, inr (ground arith))
  ]
]

pub counted-some :
    (many : ℕ → RefCount) (n : ℕ) (r : RefCount)
    → counted many n ≡ some r
    → ((n ≡ 1) × (r ≡ one)) ⊎ ((2 ≤ n) × (r ≡ many n))
counted-some many n r e = ground arith

-- A word from which a count is read is the word of that count, which fits beside the flags; only a
-- count of one loses the flag for a shared page.
pub to_raw-from_raw :
    (a : ℕ) (r : RefCount)
    → a < 2 ^ 64
    → from_raw a ≡ some r
    → IsValid r × ((to_raw r ≡ a) ⊎ ((r ≡ one) × (to_raw r + rc_shared_not_cow ≡ a)))
to_raw-from_raw a r h e = elim (word_cases a h) [
  | inl free ↦ ground (arith, from_raw_free a free)
  | inr (n, small, inl flags) ↦
      elim (counted-some cow n r (sym (from_raw_cow n small) ∙ ap from_raw (sym flags) ∙ e)) [
        | inl (single, is_one) ↦ rw is_one (tt, inl (omega (arith, to_raw_one)))
        | inr (more, is_cow) ↦ rw is_cow ((more, small), inl (to_raw_cow n small ∙ sym flags))
      ]
  | inr (n, small, inr flags) ↦
      elim (counted-some shared n r (sym (from_raw_shared n small) ∙ ap from_raw (sym flags) ∙ e)) [
        | inl (single, is_one) ↦ rw is_one (tt, inr (refl, omega (arith, to_raw_one)))
        | inr (more, is_shared) ↦
            rw is_shared ((more, small), inl (to_raw_shared n small ∙ sym flags))
      ]
]
