-- ===== src/Common/Bits.antt =====
-- Words of 64 bits, and what `&` and `|` do with a field of bits above position `k`.
use Prim.Native.Nat.{
  ℕ, zero, suc, ◌+◌, ◌-◌, ◌*◌, ◌/◌, ◌%◌, ◌^◌, ◌≤◌, ◌<◌, min, max, bit_and, bit_or, bit_xor,
  bit_and-bitwise, bit_or-bitwise, bit_xor-bitwise, differ, digits, bitwise,
}
use mathlib.Core.Path.{◌≡◌, refl, ap, ◌∙◌}
use native.Mathlib.Omega.{arith}
use native.Mathlib.Nat.{pow-suc, one-le-pow}

-- `usize::MAX + 1` on a 64-bit target
abbrev pub usize_mod : ℕ
usize_mod = 2 ^ 64

abbrev pub usize_max : ℕ
usize_max = 2 ^ 64 - 1

-- `usize::saturating_add`
abbrev pub saturating_add : ℕ → ℕ → ℕ
saturating_add a b = min (a + b) usize_max

-- `a & !b`: the bits of `a` that `b` lacks.
abbrev pub and_not : ℕ → ℕ → ℕ
and_not a b = a - bit_and a b

-- Counts of digits that cover the first number give the same result.
module _ (rest : ℕ → ℕ) (op : ℕ → ℕ → ℕ) where
  digits-enough : (a b n : ℕ) → a ≤ n → digits rest op n a b ≡ digits rest op a a b
  digits-enough a b n h = covered a a n b (omega arith) h
    where
      covered : (a n m b : ℕ) → a ≤ n → a ≤ m → digits rest op m a b ≡ digits rest op n a b
      covered zero (suc n) (suc m) b l h = refl
      covered (suc a) (suc n) (suc m) b l h =
          let half = covered (suc a / 2) n m (b / 2) (omega arith) (omega arith) in rw half
      covered zero zero (suc m) b l h = refl
      covered (suc a) zero m b l h = absurd (omega arith)
      covered zero zero zero b l h = refl
      covered zero (suc n) zero b l h = refl
      covered (suc a) n zero b l h = absurd (omega arith)

  bitwise-halves :
      (b a : ℕ)
      → bitwise rest op (suc a) b ≡ op (suc a % 2) (b % 2) + bitwise rest op (suc a / 2) (b / 2) * 2
  bitwise-halves b a =
      let half = digits-enough (suc a / 2) (b / 2) a (omega arith) in omega (arith, half)

bit_and-halves : (a b : ℕ) → bit_and a b ≡ bit_and (a / 2) (b / 2) * 2 + min (a % 2) (b % 2)
bit_and-halves zero b = simp bit_and-bitwise (omega arith)
bit_and-halves (suc a) b = simp bit_and-bitwise (omega (arith, bitwise-halves (λ y. 0) min b a))

bit_or-halves : (a b : ℕ) → bit_or a b ≡ bit_or (a / 2) (b / 2) * 2 + max (a % 2) (b % 2)
bit_or-halves zero b = simp bit_or-bitwise (omega arith)
bit_or-halves (suc a) b = simp bit_or-bitwise (omega (arith, bitwise-halves (λ y. y) max b a))

bit_and-zero : (n a : ℕ) → a ≤ n → bit_and a 0 ≡ 0
bit_and-zero zero a h = let e : a ≡ 0 = omega arith in rw e
bit_and-zero (suc n) a h = omega (arith, bit_and-halves a 0, bit_and-zero n (a / 2) (omega arith))

pub zero-bit_or : (b : ℕ) → bit_or 0 b ≡ b
zero-bit_or b = bit_or-bitwise 0 b

pub bit_or-zero : (n a : ℕ) → a ≤ n → bit_or a 0 ≡ a
bit_or-zero zero a h = let e : a ≡ 0 = omega arith in rw e
bit_or-zero (suc n) a h = omega (arith, bit_or-halves a 0, bit_or-zero n (a / 2) (omega arith))

pub bit_and-one : (a : ℕ) → bit_and a 1 ≡ a % 2
bit_and-one a = omega (arith, bit_and-halves a 1, bit_and-zero (a / 2) (a / 2) (omega arith))

pub bit_and_three : (a : ℕ) → bit_and a 3 ≡ a % 4
bit_and_three a = omega (arith, bit_and-halves a 3, bit_and-one (a / 2))

pub bit_or-one : (a : ℕ) → bit_or a 1 ≡ a / 2 * 2 + 1
bit_or-one a = omega (arith, bit_or-halves a 1, bit_or-zero (a / 2) (a / 2) (omega arith))

double_field : (m k : ℕ) → m * 2 ^ suc k ≡ 2 * (m * 2 ^ k)
double_field m k = omega (arith, ap (λ (t : ℕ). m * t) (pow-suc 2 k))

field_split : (k q r m : ℕ) → r < 2 ^ k → bit_and (q * 2 ^ k + r) (m * 2 ^ k) ≡ bit_and q m * 2 ^ k
field_split zero q r m h =
    let e : r ≡ 0 = omega arith in
    let u : (t : ℕ) → t * 2 ^ 0 ≡ t = λ t. omega arith in
    rw (e, u q, u m, u (bit_and q m)) (ap (λ t. bit_and t m) (omega arith))
field_split (suc k) q r m h = ground (
  arith,
  double_field m k,
  double_field q k,
  double_field (bit_and q m) k,
  bit_and-halves (q * 2 ^ suc k + r) (m * 2 ^ suc k),
  field_split k q (r / 2) m (omega (arith, pow-suc 2 k)),
)

-- `a & (m << k)`
pub bit_and_field : (k a m : ℕ) → bit_and a (m * 2 ^ k) ≡ bit_and (a / 2 ^ k) m * 2 ^ k
bit_and_field k a m = ground (arith, one-le-pow k 2, field_split k (a / 2 ^ k) (a % 2 ^ k) m)

-- `a | (m << k)` where `a` has only the bits below position `k`
pub bit_or_field : (k a m : ℕ) → a < 2 ^ k → bit_or a (m * 2 ^ k) ≡ a + m * 2 ^ k
bit_or_field zero a m h =
    let e : a ≡ 0 = omega arith in rw e (omega (arith, zero-bit_or (m * 2 ^ 0)))
bit_or_field (suc k) a m h = ground (
  arith,
  double_field m k,
  bit_or-halves a (m * 2 ^ suc k),
  pow-suc 2 k,
  bit_or_field k (a / 2) m (omega (arith, pow-suc 2 k)),
)

-- Arithmetic of `usize`, which wraps.
abbrev pub add_usize : ℕ → ℕ → ℕ
add_usize a b = (a + b) % usize_mod

abbrev pub sub_usize : ℕ → ℕ → ℕ
sub_usize a b = (a + usize_mod - b) % usize_mod

abbrev pub mul_usize : ℕ → ℕ → ℕ
mul_usize a b = a * b % usize_mod

bit_xor-halves : (a b : ℕ) → bit_xor a b ≡ bit_xor (a / 2) (b / 2) * 2 + differ (a % 2) (b % 2)
bit_xor-halves zero b = simp bit_xor-bitwise (omega arith)
bit_xor-halves (suc a) b = simp bit_xor-bitwise (omega (arith, bitwise-halves (λ y. y) differ b a))

differ-zero : (r : ℕ) → differ r 0 ≡ r
differ-zero zero = refl
differ-zero (suc r) = refl

differ-one : (r : ℕ) → r < 2 → differ r 1 ≡ 1 - r
differ-one zero h = refl
differ-one (suc zero) h = refl
differ-one (suc (suc r)) h = absurd (omega arith)

bit_xor-zero : (n a : ℕ) → a ≤ n → bit_xor a 0 ≡ a
bit_xor-zero zero a h = let e : a ≡ 0 = omega arith in rw e
bit_xor-zero (suc n) a h =
    omega (arith, bit_xor-halves a 0, bit_xor-zero n (a / 2) (omega arith), differ-zero (a % 2))

pub bit_xor-one : (a : ℕ) → bit_xor a 1 ≡ a / 2 * 2 + (1 - a % 2)
bit_xor-one a = omega (
  arith,
  bit_xor-halves a 1,
  bit_xor-zero (a / 2) (a / 2) (omega arith),
  differ-one (a % 2) (omega arith),
)

halves_xor : (a b c d : ℕ) → a ≡ 2 * c → b ≡ 2 * d → bit_xor a b ≡ 2 * bit_xor c d
halves_xor a b c d e f =
    let ha : a / 2 ≡ c = omega arith in
    let hb : b / 2 ≡ d = omega arith in
    let ra : a % 2 ≡ 0 = omega arith in
    let rb : b % 2 ≡ 0 = omega arith in bit_xor-halves a b ∙ rw (ha, hb, ra, rb) (omega arith)

-- `a ^ (m << k)` where `a` has no bit below position `k`
pub bit_xor_field : (k q m : ℕ) → bit_xor (q * 2 ^ k) (m * 2 ^ k) ≡ bit_xor q m * 2 ^ k
bit_xor_field zero q m =
    let u : (t : ℕ) → t * 2 ^ 0 ≡ t = λ t. omega arith in rw (u q, u m, u (bit_xor q m))
bit_xor_field (suc k) q m =
    let e = double_field m k in
    let f = double_field q k in
    omega (
      arith,
      double_field (bit_xor q m) k,
      bit_xor_field k q m,
      halves_xor (q * 2 ^ suc k) (m * 2 ^ suc k) (q * 2 ^ k) (m * 2 ^ k) f e,
    )

-- `(m << k) | a` where `a` has only the bits below position `k`
pub field-bit_or : (k a m : ℕ) → a < 2 ^ k → bit_or (m * 2 ^ k) a ≡ m * 2 ^ k + a
field-bit_or zero a m h =
    let e : a ≡ 0 = omega arith in
    rw e (bit_or-zero (m * 2 ^ 0) (m * 2 ^ 0) (omega arith) ∙ omega arith)
field-bit_or (suc k) a m h = ground (
  arith,
  double_field m k,
  bit_or-halves (m * 2 ^ suc k) a,
  pow-suc 2 k,
  field-bit_or k (a / 2) m (omega (arith, pow-suc 2 k)),
)

-- `word & ((1 << k) - 1)`
pub bit_and_mask : (k q r : ℕ) → r < 2 ^ k → bit_and (q * 2 ^ k + r) (2 ^ k - 1) ≡ r
bit_and_mask zero q r h =
    let e : r ≡ 0 = omega arith in rw e (bit_and-zero (q * 2 ^ 0 + 0) (q * 2 ^ 0 + 0) (omega arith))
bit_and_mask (suc k) q r h =
    let half : (2 ^ suc k - 1) / 2 ≡ 2 ^ k - 1 = omega (arith, pow-suc 2 k, one-le-pow k 2) in
    ground (
      arith,
      half,
      one-le-pow k 2,
      double_field q k,
      pow-suc 2 k,
      bit_and-halves (q * 2 ^ suc k + r) (2 ^ suc k - 1),
      bit_and_mask k q (r / 2) (omega (arith, pow-suc 2 k)),
    )
