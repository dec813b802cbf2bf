-- ===== src/Memory/Buddy/Words.antt =====
-- What `P2Frame` puts into a word comes out of it: src/memory/mod.rs.
use redox_kernel.Common.{
  ℕ, ◌+◌, ◌-◌, ◌*◌, ◌/◌, ◌^◌, ◌<◌, ◌≡◌, ◌∙◌, Option, none, some, bit_and, and_not, arith,
  bit_and_mask, field-bit_or, ◌==◌, if◌then◌else◌,
}
use redox_kernel.Memory.PageInfo.{PageInfo, as_free, rc_used_not_free}
use redox_kernel.Memory.PageInfo.Words.{used_bit}
use redox_kernel.Memory.Buddy.P2Frame
use redox_kernel.Memory.Buddy.P2Frame.{page_size, containing}

-- A frame that a link can name
abbrev pub Linkable : Option ℕ → Type 0
Linkable none = Unit
Linkable (some p) = (0 < p) × (p < 2 ^ 51)

word_parts :
    (p o : ℕ)
    → o < page_size
    → p < 2 ^ 51
    → (bit_and (p * page_size + o) (page_size - 1) ≡ o)
      × (containing (and_not (and_not (p * page_size + o) (page_size - 1)) rc_used_not_free)
          ≡ (if p == 0 then none else some p))
unfolding containing
word_parts p o h l =
    let low = bit_and_mask 12 p o h in
    let high = used_bit (p * page_size) in
    let e : (p * page_size + o) - bit_and (p * page_size + o) (page_size - 1) ≡ p * page_size =
      omega (arith, low) in
    let f : (p * page_size) - bit_and (p * page_size) rc_used_not_free ≡ p * page_size =
      omega (arith, high) in
    let g : p * page_size / page_size ≡ p = omega arith in (low, rw (e, f, g))

pub order-new :
    (f : Option ℕ) (o : ℕ) → Linkable f → o < page_size → P2Frame.order (P2Frame.new f o) ≡ o
unfolding P2Frame.order P2Frame.new
order-new none o l h = rw (field-bit_or 12 o 0 h) (word_parts 0 o h (omega arith)).0
order-new (some p) o l h = rw (field-bit_or 12 o p h) (word_parts p o h l.1).0

pub frame-new :
    (f : Option ℕ) (o : ℕ) → Linkable f → o < page_size → P2Frame.frame (P2Frame.new f o) ≡ f
unfolding P2Frame.frame P2Frame.new
frame-new none o l h = rw (field-bit_or 12 o 0 h) (word_parts 0 o h (omega arith)).1
frame-new (some p) o l h = rw (field-bit_or 12 o p h) ((word_parts p o h l.1).1 ∙ ground arith)

-- The words of a free block between `prev` and `next`
abbrev pub free_info : Option ℕ → Option ℕ → ℕ → PageInfo
free_info prev next order = record {
  refcount = P2Frame.new prev order;
  next = P2Frame.new next order;
}

-- A link does not carry the bit that marks a used page.
pub as_free-free_info :
    (f n : Option ℕ) (o : ℕ)
    → Linkable f
    → o < page_size
    → as_free (free_info f n o) ≡ some (P2Frame.new f o, P2Frame.new n o)
unfolding P2Frame.new as_free
as_free-free_info none n o l h =
    rw (field-bit_or 12 o 0 h) ground (arith, used_bit (0 * page_size + o))
as_free-free_info (some p) n o l h =
    rw (field-bit_or 12 o p h) ground (arith, used_bit (p * page_size + o))
