-- ===== src/Memory/Buddy/Siblings.antt =====
-- The sibling of an aligned block and the block they merge into: src/memory/mod.rs,
-- `deallocate_p2frame`.
use redox_kernel.Common.{
  ℕ, suc, ◌+◌, ◌-◌, ◌*◌, ◌/◌, ◌%◌, ◌^◌, ◌≡◌, ap, ◌∙◌, none, some, bit_and, arith, bit_xor_field,
  bit_xor-one, bit_and_field, bit_and-one, ◌==◌, zero, refl, if◌then◌else◌, sym,
}
use native.Mathlib.Nat.{pow-suc, one-le-pow, mul-div_left}
use redox_kernel.Memory.Buddy.{sibling, lower}
use redox_kernel.Memory.Buddy.P2Frame.{page_size, containing}

-- The number of the block of `order` that a frame is in
unfoldable pub up : ℕ → ℕ → ℕ
up order frame = frame / 2 ^ order

containing_page : (p : ℕ) → containing (p * page_size) ≡ (if p == 0 then none else some p)
unfolding containing
containing_page p = let g : p * page_size / page_size ≡ p = omega arith in rw g

pow_shift : (m : ℕ) → 2 ^ (12 + m) ≡ 2 ^ m * page_size
pow_shift zero = refl
pow_shift (suc m) =
    let e : 2 ^ (12 + suc m) ≡ 2 ^ (12 + m) * 2 =
      ap (λ (k : ℕ). 2 ^ k) (omega arith) ∙ pow-suc 2 (12 + m) in
    omega (arith, pow-suc 2 m, e, pow_shift m)

address : (m u : ℕ) → u * 2 ^ m * page_size ≡ u * 2 ^ (12 + m)
address m u = rw (pow_shift m) (omega arith)

-- The number of the other half of the block that the block of number `u` is a half of
abbrev pub sibling_number : ℕ → ℕ
sibling_number u = u / 2 * 2 + (1 - u % 2)

pub sibling_lem :
    (m u : ℕ)
    → sibling m (u * 2 ^ m)
      ≡ (if sibling_number u * 2 ^ m == 0 then none else some (sibling_number u * 2 ^ m))
unfolding sibling
sibling_lem m u =
    let e : page_size * 2 ^ m ≡ 1 * 2 ^ (12 + m) = omega (arith, pow_shift m) in
    rw
      (
        address m u,
        e,
        bit_xor_field (12 + m) u 1,
        bit_xor-one u,
        sym (address m (sibling_number u)),
      )
      (containing_page (sibling_number u * 2 ^ m))

remove_bit : (u P Q : ℕ) → Q ≡ 2 * P → u * P - u % 2 * P ≡ u / 2 * Q
remove_bit u P Q e =
    let split : u ≡ u / 2 * 2 + u % 2 = omega arith in
    let spread : u * P ≡ u / 2 * 2 * P + u % 2 * P = ap (λ x. x * P) split ∙ omega arith in
    rw e (omega (arith, spread))

bit_cleared :
    (m u : ℕ)
    → u * 2 ^ m * page_size - bit_and (u * 2 ^ m * page_size) (page_size * 2 ^ m)
      ≡ u / 2 * 2 ^ suc m * page_size
bit_cleared m u =
    let e : page_size * 2 ^ m ≡ 1 * 2 ^ (12 + m) = omega (arith, pow_shift m) in
    let bit : bit_and (u * 2 ^ (12 + m)) (1 * 2 ^ (12 + m)) ≡ u % 2 * 2 ^ (12 + m) =
      bit_and_field (12 + m) (u * 2 ^ (12 + m)) 1
      ∙ rw (mul-div_left u (one-le-pow (12 + m) 2 (omega arith)))
          (ap (λ d. d * 2 ^ (12 + m)) (bit_and-one u)) in
    rw (e, address m u, bit)
      (remove_bit u (2 ^ (12 + m)) (2 ^ suc m * page_size) (omega (arith, pow_shift m, pow-suc 2 m))
        ∙ omega arith)

pub lower_lem :
    (m u : ℕ)
    → lower m (u * 2 ^ m) ≡ (if u / 2 * 2 ^ suc m == 0 then none else some (u / 2 * 2 ^ suc m))
unfolding lower
lower_lem m u = rw (bit_cleared m u) (containing_page (u / 2 * 2 ^ suc m))
