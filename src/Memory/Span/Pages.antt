-- ===== src/Memory/Span/Pages.antt =====
-- The arithmetic of `PageSpan` in src/context/memory.rs on spans of pages whose addresses are words.
use native.Mathlib.Nat.{mul-le-mul_right, le-mul_of_pos_right, mul-div_left, mul-sub}
use redox_kernel.Common.{ℕ, ◌+◌, ◌-◌, ◌*◌, ◌≤◌, ◌<◌, ◌≡◌, min, max, usize_mod, ok, arith}
use redox_kernel.Memory.Span.{
  PageSpan, span, end, start_address, between, intersection, before, after, non_empty,
}

-- Pages up to `hi`, of which the addresses are words.
module _ (page_size hi : ℕ) (positive : 0 < page_size) (words : hi * page_size < usize_mod) where
  pub page_bound : (p : ℕ) → p ≤ hi → (p ≤ p * page_size) × (p * page_size < usize_mod)
  page_bound p h = (le-mul_of_pos_right p positive, omega (arith, mul-le-mul_right page_size h))

  pub end_lem : (s : PageSpan) → s.base + s.count ≤ hi → end s ≡ s.base + s.count
  end_lem s h = ground (arith, page_bound (s.base + s.count))

  start_address_lem : (p : ℕ) → p ≤ hi → start_address page_size p ≡ p * page_size
  start_address_lem p h = ground (arith, page_bound p)

  pub between_lem : (a b : ℕ) → a ≤ hi → b ≤ hi → between page_size a b ≡ span a (b - a)
  unfolding between
  between_lem a b ha hb =
      let distance : b * page_size - a * page_size ≡ (b - a) * page_size =
        omega (arith, mul-sub page_size b a) in
      rw (start_address_lem a ha, start_address_lem b hb, distance, mul-div_left (b - a) positive)

  pub intersection_lem :
      (s with : PageSpan)
      → s.base + s.count ≤ hi
      → with.base + with.count ≤ hi
      → intersection page_size s with
        ≡ span
            (max s.base with.base)
            (min (s.base + s.count) (with.base + with.count) - max s.base with.base)
  unfolding intersection
  intersection_lem s with hs hw =
      rw (end_lem s hs, end_lem with hw)
        (between_lem (max s.base with.base) (min (s.base + s.count) (with.base + with.count))
          (omega arith) (omega arith))

  pub before_lem :
      (s inner : PageSpan)
      → s.base + s.count ≤ hi
      → inner.base + inner.count ≤ hi
      → s.base ≤ inner.base
      → before page_size s inner ≡ ok (non_empty (span s.base (inner.base - s.base)))
  unfolding before
  before_lem s inner hs hi' h = ground (arith, between_lem s.base inner.base)

  pub after_lem :
      (s inner : PageSpan)
      → s.base + s.count ≤ hi
      → inner.base + inner.count ≤ s.base + s.count
      → after page_size s inner
        ≡ ok (
            non_empty
              (span (inner.base + inner.count) (s.base + s.count - (inner.base + inner.count))))
  unfolding after
  after_lem s inner hs h =
      rw (end_lem s hs, end_lem inner (omega arith))
        (ground (arith, between_lem (inner.base + inner.count) (s.base + s.count)))
