-- ===== src/Syscall/UserCopy/Integers.antt =====
-- The integers of src/syscall/usercopy.rs, in the byte order of x86_64, and `validate_region`.
use redox_kernel.Common.{
  ℕ, zero, suc, ◌+◌, ◌*◌, ◌/◌, ◌%◌, ◌^◌, ◌<◌, ◌≤◌, ◌≡◌, ◌∙◌, ap, sym, refl, ◌⊎◌, inl, inr, arith,
  List, [], ◌∷◌, true, false, ◌||◌, not, ltb, ◌==◌, if◌then◌else◌, length, saturating_add, Errno,
  Result, ok, err, panic, ◌>>=◌, ok_or, Option, none, some, Bool-cases,
}
use native.Mathlib.Nat.{pow-suc, div-add-mod', zero-div}
use redox_kernel.Memory.Span.{PageSpan, span, validate_nonempty}
use redox_kernel.Syscall.UserCopy.{
  UserSlice, UserMemory, user_end_offset, limit, split_at, load, poke, copy_to_slice,
  copy_from_slice, in_exact_chunks,
}
use redox_kernel.Syscall.UserCopy.Slices.{InUser, limit-some}
use redox_kernel.Syscall.UserCopy.Copies.{load-poke}

-- `to_ne_bytes`, the lowest byte first
abbrev pub to_ne_bytes : ℕ → ℕ → List ℕ
to_ne_bytes zero word = []
to_ne_bytes (suc n) word = word % 256 ∷ to_ne_bytes n (word / 256)

abbrev pub from_ne_bytes : List ℕ → ℕ
from_ne_bytes [] = 0
from_ne_bytes (b ∷ bs) = b + 256 * from_ne_bytes bs

-- `read_exact`, with the bytes of the value
unfoldable pub read_exact : ℕ → UserMemory → UserSlice → Result (List ℕ)
unfolding limit copy_to_slice
read_exact size m s = do part ← ok_or (limit s size) Errno.einval; copy_to_slice m part size

-- `read_usize` and `read_u64` with 8 bytes, `read_u32` with 4
unfoldable pub read_word : ℕ → UserMemory → UserSlice → Result ℕ
unfolding limit copy_to_slice
read_word size m s = do
  part ← ok_or (limit s size) Errno.einval
  ret ← copy_to_slice m part size
  ok (from_ne_bytes ret)

-- `write_usize` with 8 bytes, `write_u32` with 4
unfoldable pub write_word : ℕ → UserMemory → UserSlice → ℕ → Result UserMemory
unfolding limit copy_from_slice
write_word size m s word = do
  part ← ok_or (limit s size) Errno.einval
  copy_from_slice m part (to_ne_bytes size word)

abbrev pub read_each : UserMemory → List UserSlice → List (Result ℕ)
read_each m [] = []
read_each m (s ∷ ss) = read_word 8 m s ∷ read_each m ss

unfoldable pub usizes : UserMemory → UserSlice → Result (List (Result ℕ))
unfolding in_exact_chunks read_word
usizes m s = do chunks ← in_exact_chunks s 8; ok (read_each m chunks)

unfoldable pub validate_region : ℕ → ℕ → ℕ → Result PageSpan
validate_region page_size address size =
    if not (address % page_size == 0) || not (size % page_size == 0) || size == 0
    then err Errno.einval
    else if ltb user_end_offset (saturating_add address size)
    then err Errno.efault
    else ok (span (address / page_size) (size / page_size))

length-to_ne_bytes : (n word : ℕ) → length (to_ne_bytes n word) ≡ n
length-to_ne_bytes zero word = refl
length-to_ne_bytes (suc n) word = ap suc (length-to_ne_bytes n (word / 256))

from_ne_bytes-to_ne_bytes :
    (n word : ℕ) → word < 256 ^ n → from_ne_bytes (to_ne_bytes n word) ≡ word
from_ne_bytes-to_ne_bytes zero word h = omega arith
from_ne_bytes-to_ne_bytes (suc n) word h =
    let high = from_ne_bytes-to_ne_bytes n (word / 256) (omega (arith, pow-suc 256 n)) in
    rw high (omega arith)

limit-none : (s : UserSlice) (n : ℕ) → s.len < n → limit s n ≡ none
unfolding limit split_at
limit-none s n h = ground arith

read_word_lem :
    (size : ℕ) (m : UserMemory) (s : UserSlice)
    → InUser s
    → size ≤ s.len
    → read_word size m s ≡ (
        if m.readable s.base size
        then ok (from_ne_bytes (load m.byte s.base size))
        else err Errno.efault)
unfolding read_word copy_to_slice
read_word_lem size m s u h =
    let self : (size == size) ≡ true = ground arith in
    rw (limit-some s size u h, self)
      (elim (Bool-cases (m.readable s.base size)) [
        | inl yes_read ↦ rw yes_read refl
        | inr no_read ↦ rw no_read refl
      ])

write_word_lem :
    (size : ℕ) (m : UserMemory) (s : UserSlice) (word : ℕ)
    → InUser s
    → size ≤ s.len
    → write_word size m s word ≡ (
        if m.writable s.base size
        then ok (record m { byte = poke m.byte s.base (to_ne_bytes size word) })
        else err Errno.efault)
unfolding write_word copy_from_slice
write_word_lem size m s word u h =
    let self : (size == length (to_ne_bytes size word)) ≡ true =
      ground (arith, length-to_ne_bytes size word) in
    rw (limit-some s size u h, self) refl

-- An integer of `size` bytes in a slice of user memory: where the slice is too short, reading and
-- writing fail with `EINVAL`. Otherwise a write fails with `EFAULT` if the page tables refuse it;
-- if they grant it, it succeeds, and after it a read returns the integer where the page tables let it
-- read, and fails with `EFAULT` where not.
pub read_word-write_word :
    (size : ℕ) (m : UserMemory) (s : UserSlice) (word : ℕ)
    → InUser s
    → word < 256 ^ size
    → ((s.len < size)
        × (write_word size m s word ≡ err Errno.einval)
        × (read_word size m s ≡ err Errno.einval))
      ⊎ ((size ≤ s.len)
          × (m.writable s.base size ≡ false)
          × (write_word size m s word ≡ err Errno.efault))
      ⊎ ((size ≤ s.len)
          × (m.writable s.base size ≡ true)
          × (m' : UserMemory) × (write_word size m s word ≡ ok m')
          × (read_word size m' s ≡ (if m.readable s.base size then ok word else err Errno.efault)))
unfolding read_word write_word
read_word-write_word size m s word u fits = elim (Bool-cases (ltb s.len size)) [
  | inl short ↦
      let gone = limit-none s size (ground arith) in inl (ground arith, rw gone refl, rw gone refl)
  | inr long ↦
      let room : size ≤ s.len = ground arith in
      elim (Bool-cases (m.writable s.base size)) [
        | inr refused ↦
            inr (inl (room, refused, write_word_lem size m s word u room ∙ rw refused refl))
        | inl granted ↦
            let m' : UserMemory = record m { byte = poke m.byte s.base (to_ne_bytes size word) } in
            let back : load m'.byte s.base size ≡ to_ne_bytes size word =
              ap (load m'.byte s.base) (sym (length-to_ne_bytes size word))
              ∙ load-poke m.byte s.base (to_ne_bytes size word) in
            inr (
              inr (
                room,
                granted,
                m',
                write_word_lem size m s word u room ∙ rw granted refl,
                read_word_lem size m' s u room
                    ∙ rw (back, from_ne_bytes-to_ne_bytes size word fits) refl,
              ))
      ]
]

abbrev pub to_option : Result PageSpan → Option PageSpan
to_option panic = none
to_option (err e) = none
to_option (ok span) = some span

-- `validate_region` accepts what `PageSpan::validate_nonempty` accepts, with the same pages.
pub validate_region-validate_nonempty :
    (page_size address size : ℕ)
    → 0 < page_size
    → to_option (validate_region page_size address size)
      ≡ validate_nonempty page_size user_end_offset address size
unfolding validate_region validate_nonempty
validate_region-validate_nonempty page_size address size h =
    let whole = div-add-mod' size page_size in
    let no_pages : size ≡ 0 → size / page_size ≡ 0 = λ e. rw e (zero-div page_size) in
    let no_bytes : size / page_size ≡ 0 → size % page_size ≡ 0 → size ≡ 0 = λ e f.
      let none_left : size / page_size * page_size ≡ 0 = ap (λ d. d * page_size) e ∙ omega arith in
      omega (arith, whole, none_left) in
    elim (Bool-cases (address % page_size == 0)) [
      | inr odd ↦ rw (validate_region, validate_nonempty, odd) refl
      | inl even ↦ elim (Bool-cases (size % page_size == 0)) [
        | inr part ↦ rw (validate_region, validate_nonempty, even, part) refl
        | inl pages ↦
            let same : (size / page_size == 0) ≡ (size == 0) =
              ground (arith, no_pages, no_bytes, pages) in
            elim (Bool-cases (ltb user_end_offset (saturating_add address size))) [
              | inl far ↦ elim (Bool-cases (size == 0)) [
                | inl nothing ↦
                    rw (validate_region, validate_nonempty, even, pages, far, nothing) refl
                | inr some_bytes ↦
                    rw (validate_region, validate_nonempty, even, pages, far, some_bytes) refl
              ]
              | inr near ↦ elim (Bool-cases (size == 0)) [
                | inl nothing ↦
                    rw (validate_region, validate_nonempty, even, pages, near, same, nothing) refl
                | inr some_bytes ↦
                    rw (validate_region, validate_nonempty, even, pages, near, same, some_bytes)
                      refl
              ]
            ]
      ]
    ]
