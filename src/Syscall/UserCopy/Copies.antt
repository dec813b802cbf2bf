-- ===== src/Syscall/UserCopy/Copies.antt =====
-- The copies of src/syscall/usercopy.rs: what is written to user memory is read back.
use redox_kernel.Common.{
  ℕ, zero, suc, ◌+◌, ◌≤◌, ◌<◌, ◌≡◌, ◌⊎◌, inl, inr, refl, ap, sym, ◌∙◌, arith, min, List, [], ◌∷◌,
  ◌++◌, true, false, ◌==◌, if◌then◌else◌, length, take, Errno, ok, err, Bool-cases, length-take,
}
use redox_kernel.Syscall.UserCopy.{
  UserSlice, UserMemory, load, poke, copy_to_slice, copy_from_slice, copy_common_bytes_to_slice,
  copy_common_bytes_from_slice,
}
use redox_kernel.Syscall.UserCopy.Slices.{InUser, limit-some}

-- Bytes outside the region stay.
pub poke_outside :
    (byte : ℕ → ℕ) (base a : ℕ) (xs : List ℕ)
    → (a < base) ⊎ (base + length xs ≤ a)
    → poke byte base xs a ≡ byte a
poke_outside byte base a [] h = refl
poke_outside byte base a (x ∷ xs) h =
    poke_outside (λ b. if b == base then x else byte b) (base + 1) a xs (ground arith)
    ∙ ground arith

load_same :
    (f g : ℕ → ℕ) (base n : ℕ) → ((a : ℕ) → base ≤ a → f a ≡ g a) → load f base n ≡ load g base n
load_same f g base zero h = refl
load_same f g base (suc n) h =
    rw (h base (omega arith), load_same f g (base + 1) n (λ a l. h a (omega arith))) refl

pub load-poke :
    (byte : ℕ → ℕ) (base : ℕ) (xs : List ℕ) → load (poke byte base xs) base (length xs) ≡ xs
load-poke byte base [] = refl
load-poke byte base (x ∷ xs) =
    let inner : ℕ → ℕ = λ b. if b == base then x else byte b in
    let first : poke inner (base + 1) xs base ≡ x =
      poke_outside inner (base + 1) base xs (omega arith) ∙ ground arith in
    rw (first, load-poke inner (base + 1) xs) refl

pub length-load : (byte : ℕ → ℕ) (base n : ℕ) → length (load byte base n) ≡ n
length-load byte base zero = refl
length-load byte base (suc n) = ap suc (length-load byte (base + 1) n)

pub poke-append :
    (byte : ℕ → ℕ) (base : ℕ) (xs ys : List ℕ)
    → poke (poke byte base xs) (base + length xs) ys ≡ poke byte base (xs ++ ys)
poke-append byte base [] ys = ap (λ b. poke byte b ys) (omega arith)
poke-append byte base (x ∷ xs) ys =
    let inner : ℕ → ℕ = λ b. if b == base then x else byte b in
    ap (λ b. poke (poke inner (base + 1) xs) b ys) (omega arith)
    ∙ poke-append inner (base + 1) xs ys

pub load-append :
    (byte : ℕ → ℕ) (base n k : ℕ)
    → load byte base n ++ load byte (base + n) k ≡ load byte base (n + k)
load-append byte base zero k =
    ap (λ b. load byte b k) (omega arith) ∙ ap (load byte base) (omega arith)
load-append byte base (suc n) k =
    let shift : base + suc n ≡ base + 1 + n = omega arith in
    let count : suc n + k ≡ suc (n + k) = omega arith in
    rw (shift, count) (ap (λ xs. byte base ∷ xs) (load-append byte (base + 1) n k))

pub copy_common_to_lem :
    (m : UserMemory) (s : UserSlice) (n : ℕ)
    → InUser s
    → copy_common_bytes_to_slice m s n ≡ (
        if m.readable s.base (min s.len n)
        then ok (load m.byte s.base (min s.len n))
        else err Errno.efault)
unfolding copy_common_bytes_to_slice copy_to_slice
copy_common_to_lem m s n u = ground (arith, limit-some s (min s.len n) u (omega arith))

pub copy_common_from_lem :
    (m : UserMemory) (s : UserSlice) (slice : List ℕ)
    → InUser s
    → copy_common_bytes_from_slice m s slice ≡ (
        if m.writable s.base (min s.len (length slice))
        then ok (
          min s.len (length slice),
          record m { byte = poke m.byte s.base (take (min s.len (length slice)) slice) },
        )
        else err Errno.efault)
unfolding copy_common_bytes_from_slice copy_from_slice
copy_common_from_lem m s slice u =
    let n = min s.len (length slice) in
    let fits : n ≡ length (take n slice) = omega (arith, length-take {0} n slice) in
    ground (arith, limit-some s n u (omega arith), fits)

-- `copy_common_bytes_from_slice` to a slice of user memory copies as many bytes as both sides have,
-- if, and only if, the page tables let it write them: `copy_common_bytes_to_slice`, where it may read, then returns the start
-- of the kernel's slice, and a byte `a` outside of the region is as before. If they do not, it
-- fails with `EFAULT`.
pub copy_common_bytes_lem :
    (m : UserMemory) (s : UserSlice) (slice : List ℕ) (a : ℕ)
    → InUser s
    → (a < s.base) ⊎ (s.base + min s.len (length slice) ≤ a)
    → let n = min s.len (length slice) in
      ((m.writable s.base n ≡ false) × (copy_common_bytes_from_slice m s slice ≡ err Errno.efault))
      ⊎ ((m.writable s.base n ≡ true)
          × (m' : UserMemory) × (copy_common_bytes_from_slice m s slice ≡ ok (n, m'))
          × (copy_common_bytes_to_slice m' s n
              ≡ (if m.readable s.base n then ok (take n slice) else err Errno.efault))
          × (m'.byte a ≡ m.byte a))
copy_common_bytes_lem m s slice a u outside =
    let n = min s.len (length slice) in
    let size : length (take n slice) ≡ n = omega (arith, length-take {0} n slice) in
    let done = copy_common_from_lem m s slice u in
    elim (Bool-cases (m.writable s.base n)) [
      | inr refused ↦ inl (refused, done ∙ rw refused refl)
      | inl granted ↦
          let m' : UserMemory = record m { byte = poke m.byte s.base (take n slice) } in
          let same : min s.len n ≡ n = omega arith in
          let back : load m'.byte s.base n ≡ take n slice =
            ap (load m'.byte s.base) (sym size) ∙ load-poke m.byte s.base (take n slice) in
          inr (
            granted,
            m',
            done ∙ rw granted refl,
            copy_common_to_lem m' s n u ∙ rw (same, back) refl,
            poke_outside m.byte s.base a (take n slice) (ground arith),
          )
    ]
