-- ===== src/Sync/WaitQueue/Receive.antt =====
-- `receive_into_user` of src/sync/wait_queue.rs: whole elements go to the user's buffer.
use redox_kernel.Common.{
  ℕ, zero, suc, ◌+◌, ◌-◌, ◌*◌, ◌/◌, ◌≤◌, ◌<◌, ◌≡◌, ◌∙◌, ap, sym, refl, inl, inr, none, some, List,
  [], ◌∷◌, ◌++◌, Bool, true, leb, arith, Bool-cases, min, length, take, drop, length-append,
  take_parts, take-all, append_assoc, ltb, ok,
}
use mathlib.Core.List.{append-nil}
use native.Mathlib.Nat.{mul-div_left, mul-le-mul_right}
use redox_kernel.Syscall.UserCopy.{
  UserSlice, UserMemory, poke, advance, split_at, copy_common_bytes_from_slice,
}
use redox_kernel.Syscall.UserCopy.Slices.{InUser, advance-some}
use redox_kernel.Syscall.UserCopy.Copies.{poke-append, copy_common_from_lem}
use redox_kernel.Sync.WaitCondition.{Waiters}
use redox_kernel.Sync.WaitQueue.{
  finished, all_bytes, copy_two, copy_slices, drain, receive_into_user,
}

-- Every part of the buffer may be written.
unfoldable pub IsWritable : UserMemory → UserSlice → Type 0
IsWritable m s = (a n : ℕ) → s.base ≤ a → a + n ≤ s.base + s.len → m.writable a n ≡ true

min-product : (k l size : ℕ) → min (k * size) (l * size) ≡ min k l * size
min-product k l size = elim (Bool-cases (leb k l)) [
  | inl less ↦
      let e : min k l ≡ k = ground arith in
      let le : k * size ≤ l * size = mul-le-mul_right size (ground arith) in
      rw e (omega (arith, le))
  | inr more ↦
      let e : min k l ≡ l = ground arith in
      let le : l * size ≤ k * size = mul-le-mul_right size (ground arith) in
      rw e (omega (arith, le))
]

granted :
    (m : UserMemory) (s : UserSlice) (bytes : List ℕ)
    → InUser s
    → IsWritable m s
    → copy_common_bytes_from_slice m s bytes
      ≡ ok (
        min s.len (length bytes),
        record m { byte = poke m.byte s.base (take (min s.len (length bytes)) bytes) },
      )
unfolding IsWritable
granted m s bytes u w =
    copy_common_from_lem m s bytes u
    ∙ rw (w s.base (min s.len (length bytes)) (omega arith) (omega arith)) refl

copy_two-steps :
    (m m1 m2 : UserMemory) (s rest : UserSlice) (b1 b2 : List ℕ) (n1 n2 : ℕ)
    → copy_common_bytes_from_slice m s b1 ≡ ok (n1, m1)
    → advance s (length b1) ≡ some rest
    → copy_common_bytes_from_slice m1 rest b2 ≡ ok (n2, m2)
    → copy_two m s b1 b2 ≡ ok (n1 + n2, m2)
unfolding copy_two
copy_two-steps m m1 m2 s rest b1 b2 n1 n2 a b c = rw (a, b, c) refl

copy_two-short :
    (m m1 : UserMemory) (s : UserSlice) (b1 b2 : List ℕ) (n1 : ℕ)
    → copy_common_bytes_from_slice m s b1 ≡ ok (n1, m1)
    → advance s (length b1) ≡ none
    → copy_two m s b1 b2 ≡ ok (n1, m1)
unfolding copy_two
copy_two-short m m1 s b1 b2 n1 a b = rw (a, b) refl

advance-none : (s : UserSlice) (n : ℕ) → s.len < n → advance s n ≡ none
unfolding advance split_at
advance-none s n h = ground arith

-- The two copies are one copy of both parts.
copy_two_lem :
    (m : UserMemory) (s : UserSlice) (b1 b2 : List ℕ)
    → InUser s
    → IsWritable m s
    → let n = min s.len (length (b1 ++ b2)) in
      copy_two m s b1 b2 ≡ ok (n, record m { byte = poke m.byte s.base (take n (b1 ++ b2)) })
unfolding IsWritable
copy_two_lem m s b1 b2 u w =
    let total = length-append b1 b2 in
    elim (Bool-cases (ltb s.len (length b1))) [
      | inl short ↦
          let all : min s.len (length b1) ≡ min s.len (length (b1 ++ b2)) = ground (arith, total) in
          let same : take (min s.len (length b1)) b1
              ≡ take (min s.len (length (b1 ++ b2))) (b1 ++ b2) =
            sym (append-nil (take (min s.len (length b1)) b1))
            ∙ take_parts (min s.len (length b1)) 0 b1 b2 (omega arith) (inr refl)
            ∙ ap (λ n. take n (b1 ++ b2)) (ground (arith, total)) in
          copy_two-short m _ s b1 b2 (min s.len (length b1)) (granted m s b1 u w)
            (advance-none s (length b1) (ground arith))
          ∙ rw (same, all) refl
      | inr long ↦
          let n2 = min (s.len - length b1) (length b2) in
          let rest : UserSlice = record { base = s.base + length b1; len = s.len - length b1 } in
          let first : min s.len (length b1) ≡ length b1 = ground arith in
          let m1 : UserMemory = record m {
            byte = poke m.byte s.base (take (min s.len (length b1)) b1);
          } in
          let sum : min s.len (length b1) + n2 ≡ min s.len (length (b1 ++ b2)) =
            ground (arith, total) in
          let written : poke m1.byte (s.base + length b1) (take n2 b2)
              ≡ poke m.byte s.base (take (min s.len (length (b1 ++ b2))) (b1 ++ b2)) =
            let front : take (min s.len (length b1)) b1 ≡ b1 =
              take-all (min s.len (length b1)) b1 (ground arith) in
            ap (λ l. poke (poke m.byte s.base l) (s.base + length b1) (take n2 b2)) front
            ∙ poke-append m.byte s.base b1 (take n2 b2)
            ∙ ap (poke m.byte s.base) (
                sym (ap (λ l. l ++ take n2 b2) (take-all (length b1) b1 (omega arith)))
                ∙ take_parts (length b1) n2 b1 b2 (omega arith) (inl refl)
                ∙ ap (λ n. take n (b1 ++ b2)) (ground (arith, total, first))) in
          copy_two-steps m m1 _ s rest b1 b2 (min s.len (length b1)) n2 (granted m s b1 u w)
            (advance-some s (length b1) u (ground arith))
            (granted m1 rest b2 (ground arith) (λ a n l h. w a n (ground arith) (ground arith)))
          ∙ rw (sum, written) refl
    ]

module _ {A : Type 0} (bytes_of : A → List ℕ) (size : ℕ)
    (sized : (t : A) → length (bytes_of t) ≡ size) where
  bytes-append :
      (ts us : List A)
      → all_bytes bytes_of (ts ++ us) ≡ all_bytes bytes_of ts ++ all_bytes bytes_of us
  bytes-append [] us = refl
  bytes-append (t ∷ ts) us =
      ap (λ l. bytes_of t ++ l) (bytes-append ts us)
      ∙ sym (append_assoc (bytes_of t) (all_bytes bytes_of ts) (all_bytes bytes_of us))

  length-bytes : (ts : List A) → length (all_bytes bytes_of ts) ≡ length ts * size
  length-bytes [] = omega arith
  length-bytes (t ∷ ts) =
      omega (arith, length-append (bytes_of t) (all_bytes bytes_of ts), sized t, length-bytes ts)

  -- The first bytes are those of the first elements.
  take-bytes :
      (n : ℕ) (ts : List A)
      → take (n * size) (all_bytes bytes_of ts) ≡ all_bytes bytes_of (take n ts)
  take-bytes zero ts = let none_left : 0 * size ≡ 0 = omega arith in rw none_left refl
  take-bytes (suc n) [] = take-all (suc n * size) [] (omega arith)
  take-bytes (suc n) (t ∷ ts) =
      let more : suc n * size ≡ size + n * size = omega arith in
      let split =
        take_parts size (n * size) (bytes_of t) (all_bytes bytes_of ts) (omega (arith, sized t))
          (inl (sym (sized t))) in
      let first : take size (bytes_of t) ≡ bytes_of t =
        take-all size (bytes_of t) (omega (arith, sized t)) in
      rw (more, ← split, first, take-bytes n ts) refl

  module _ (as_slices : List A → List A × List A)
      (parts : (inner : List A) → (as_slices inner).0 ++ (as_slices inner).1 ≡ inner) where
    copy_slices_lem :
        (m : UserMemory) (s : UserSlice) (inner : List A)
        → InUser s
        → IsWritable m s
        → let n = min s.len (length (all_bytes bytes_of inner)) in
          copy_slices as_slices bytes_of size m s inner
          ≡ ok (n, record m { byte = poke m.byte s.base (take n (all_bytes bytes_of inner)) })
    unfolding copy_slices
    copy_slices_lem m s inner u w =
        let (s1, s2) = as_slices inner in
        let whole : all_bytes bytes_of s1 ++ all_bytes bytes_of s2 ≡ all_bytes bytes_of inner =
          sym (bytes-append s1 s2) ∙ ap (all_bytes bytes_of) (parts inner) in
        copy_two_lem m s (all_bytes bytes_of s1) (all_bytes bytes_of s2) u w
        ∙ ap
            (λ (l : List ℕ).
              let n = min s.len (length l) in
              ok (n, record m { byte = poke m.byte s.base (take n l) }))
            whole

    -- A buffer for `k` elements, all writable, receives the first `k` elements of a queue that is not
    -- empty, or as many as there are: their bytes, one after the other, are written, those elements
    -- leave the queue, and the number of bytes is returned.
    pub receive_into_user_lem :
        (m : UserMemory) (s : UserSlice) (current k : ℕ) (block pending : Bool) (t : A)
        (ts : List A) (condition : Waiters)
        → InUser s
        → IsWritable m s
        → s.len ≡ k * size
        → 0 < size
        → let inner = t ∷ ts in
          let j = min k (length inner) in
          receive_into_user as_slices bytes_of size m s current block pending
            (record { inner = inner; condition = condition })
          ≡ (
            finished (
                ok (
                  j * size,
                  record m { byte = poke m.byte s.base (all_bytes bytes_of (take j inner)) },
                )),
            record { inner = drop j inner; condition = condition },
          )
    unfolding receive_into_user drain
    receive_into_user_lem m s current k block pending t ts condition u w e pos =
        let inner = t ∷ ts in
        let j = min k (length inner) in
        let count : min s.len (length (all_bytes bytes_of inner)) ≡ j * size =
          rw (e, length-bytes inner) (min-product k (length inner) size) in
        let whole : j * size / size ≡ j = mul-div_left j pos in
        let enough : leb j (length inner) ≡ true = ground arith in
        rw (copy_slices_lem m s inner u w, count, whole, enough, take-bytes j inner) refl
