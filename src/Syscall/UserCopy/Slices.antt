-- ===== src/Syscall/UserCopy/Slices.antt =====
-- The arithmetic of `UserSlice` in src/syscall/usercopy.rs: slices stay inside user memory.
use redox_kernel.Common.{
  ℕ, zero, suc, ◌+◌, ◌-◌, ◌*◌, ◌/◌, ◌^◌, ◌≤◌, ◌<◌, ◌≡◌, ◌⊎◌, inl, inr, refl, ap, ◌∙◌, arith, some,
  List, [], ◌∷◌, false, ltb, add_usize, sub_usize, mul_usize, Errno, ok, err, Bool-cases,
}
use redox_kernel.Syscall.UserCopy
use redox_kernel.Syscall.UserCopy.{
  UserSlice, user_end_offset, split_at, advance, limit, exact_chunk, exact_chunks, in_exact_chunks,
  expect_all, progression,
}

-- The end of the slice lies strictly below the end of user memory.
abbrev pub InUser : UserSlice → Type 0
InUser s = s.base + s.len < user_end_offset

-- For numbers of 64 bits, `new` accepts exactly the regions whose end, `base + len`, is strictly below
-- `USER_END_OFFSET`, and returns them unchanged; of each other region, also of one that ends exactly
-- at `USER_END_OFFSET`, it says `EFAULT`.
pub new_lem :
    (base len : ℕ)
    → base < 2 ^ 64
    → len < 2 ^ 64
    → ((base + len < user_end_offset)
        × (UserCopy.new base len ≡ ok (record { base = base; len = len })))
      ⊎ ((user_end_offset ≤ base + len) × (UserCopy.new base len ≡ err Errno.efault))
unfolding UserCopy.new
new_lem base len b l = elim (Bool-cases (ltb (base + len) user_end_offset)) [
  | inl low ↦ inl (ground arith, ground arith)
  | inr high ↦ inr (ground arith, ground arith)
]

pub split_at-some :
    (s : UserSlice) (idx : ℕ)
    → InUser s
    → idx ≤ s.len
    → split_at s idx
      ≡ some
          (record { base = s.base; len = idx }, record { base = s.base + idx; len = s.len - idx })
unfolding split_at
split_at-some s idx u h =
    let e1 : add_usize s.base idx ≡ s.base + idx = omega arith in
    let e2 : sub_usize s.len idx ≡ s.len - idx = omega arith in
    let e3 : ltb s.len idx ≡ false = ground arith in rw (e1, e2, e3) refl

pub advance-some :
    (s : UserSlice) (by : ℕ)
    → InUser s
    → by ≤ s.len
    → advance s by ≡ some (record { base = s.base + by; len = s.len - by })
unfolding advance
advance-some s by u h = ground (arith, split_at-some s by u h)

pub limit-some :
    (s : UserSlice) (to : ℕ)
    → InUser s
    → to ≤ s.len
    → limit s to ≡ some (record { base = s.base; len = to })
unfolding limit
limit-some s to u h = ground (arith, split_at-some s to u h)

-- `n` chunks of one size, one behind the other.
abbrev pub chunks_from : ℕ → ℕ → ℕ → List UserSlice
chunks_from base chunk_size zero = []
chunks_from base chunk_size (suc n) =
    record { base = base; len = chunk_size } ∷ chunks_from (base + chunk_size) chunk_size n

exact_chunk-some :
    (s : UserSlice) (chunk_size i : ℕ)
    → InUser s
    → i * chunk_size + chunk_size ≤ s.len
    → exact_chunk s chunk_size i
      ≡ some (record { base = s.base + i * chunk_size; len = chunk_size })
unfolding exact_chunk
exact_chunk-some s chunk_size i u h =
    let product : mul_usize i chunk_size ≡ i * chunk_size = omega arith in
    let rest : UserSlice = record {
      base = s.base + i * chunk_size;
      len = s.len - i * chunk_size;
    } in
    ground (
      arith,
      product,
      advance-some s (i * chunk_size) u (omega arith),
      limit-some rest chunk_size (omega arith) (omega arith),
    )

exact_chunks-from :
    (s : UserSlice) (chunk_size i n : ℕ)
    → InUser s
    → (i + n) * chunk_size ≤ s.len
    → expect_all (exact_chunks s chunk_size (progression i 1 n))
      ≡ ok (chunks_from (s.base + i * chunk_size) chunk_size n)
exact_chunks-from s chunk_size i zero u h = refl
exact_chunks-from s chunk_size i (suc n) u h =
    let here = exact_chunk-some s chunk_size i u (omega arith) in
    let next : s.base + (i + 1) * chunk_size ≡ s.base + i * chunk_size + chunk_size = omega arith in
    let rest = exact_chunks-from s chunk_size (i + 1) n u (omega arith) in
    ground (arith, here, rest, next)

-- `in_exact_chunks` cuts a slice of user memory into as many chunks of the given size, not 0, as
-- fit, one behind the other from its start; it does not panic.
pub in_exact_chunks_lem :
    (s : UserSlice) (chunk_size : ℕ)
    → InUser s
    → 0 < chunk_size
    → in_exact_chunks s chunk_size ≡ ok (chunks_from s.base chunk_size (s.len / chunk_size))
unfolding in_exact_chunks
in_exact_chunks_lem s chunk_size u h =
    let fit : (0 + s.len / chunk_size) * chunk_size ≤ s.len = grind arith in
    exact_chunks-from s chunk_size 0 (s.len / chunk_size) u fit
    ∙ ap (λ b. ok (chunks_from b chunk_size (s.len / chunk_size))) (omega arith)
