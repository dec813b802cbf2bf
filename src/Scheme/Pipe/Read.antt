-- ===== src/Scheme/Pipe/Read.antt =====
-- `kread` of src/scheme/pipe.rs takes bytes from the front of the queue, whatever the two slices of
-- the deque are.
use redox_kernel.Common.{
  ℕ, ◌+◌, ◌-◌, ◌≡◌, inl, inr, ap, sym, ◌∙◌, arith, min, List, ◌++◌, Bool, ◌&&◌, ◌||◌, not, ltb,
  ◌==◌, if◌then◌else◌, length, take, drop, Errno, ok, err, Bool-cases, length-take, length-append,
  take_parts,
}
use redox_kernel.Syscall.UserCopy.{UserSlice, UserMemory, poke, copy_from_slice}
use redox_kernel.Syscall.UserCopy.Slices.{InUser, split_at-some, limit-some}
use redox_kernel.Syscall.UserCopy.Copies.{poke-append}
use redox_kernel.Scheme.Pipe.{Pipe, Turn, returns, waits, read_slices, read_pass}

-- A copy of a whole kernel slice.
copy_from_whole :
    (m : UserMemory) (base n : ℕ) (slice : List ℕ)
    → n ≡ length slice
    → copy_from_slice m (record { base = base; len = n }) slice ≡ (
        if m.writable base n
        then ok (record m { byte = poke m.byte base slice })
        else err Errno.efault)
unfolding copy_from_slice
copy_from_whole m base n slice e = ground arith

module _ (as_slices : List ℕ → List ℕ × List ℕ)
    (parts : (vec : List ℕ) → (as_slices vec).0 ++ (as_slices vec).1 ≡ vec) where
  -- The page tables let both copies write.
  abbrev pub may_write : UserMemory → UserSlice → List ℕ → Bool
  may_write m s vec =
      let n1 = min s.len (length (as_slices vec).0) in
      m.writable s.base n1 && m.writable (s.base + n1) (min (s.len - n1) (length (as_slices vec).1))

  read_slices_lem :
      (m : UserMemory) (s : UserSlice) (vec : List ℕ)
      → InUser s
      → let n = min s.len (length vec) in
        read_slices as_slices m s vec ≡ (
          if may_write m s vec
          then ok (n, record m { byte = poke m.byte s.base (take n vec) })
          else err Errno.efault)
  unfolding read_slices
  read_slices_lem m s vec u =
      let (s1, s2) = as_slices vec in
      let n1 = min s.len (length s1) in
      let n2 = min (s.len - n1) (length s2) in
      let m1 : UserMemory = record m { byte = poke m.byte s.base (take n1 s1) } in
      let base2 = s.base + n1 in
      let rest : UserSlice = record { base = base2; len = s.len - n1 } in
      let whole : length s1 + length s2 ≡ length vec =
        sym (length-append {0} s1 s2) ∙ ap (λ l. length l) (parts vec) in
      let total : n1 + n2 ≡ min s.len (length vec) = omega arith in
      let size1 : n1 ≡ length (take n1 s1) = omega (arith, length-take {0} n1 s1) in
      let size2 : n2 ≡ length (take n2 s2) = omega (arith, length-take {0} n2 s2) in
      let bytes : poke (poke m.byte s.base (take n1 s1)) base2 (take n2 s2)
          ≡ poke m.byte s.base (take (min s.len (length vec)) vec) =
        ap (λ b. poke (poke m.byte s.base (take n1 s1)) b (take n2 s2)) (ap (λ k. s.base + k) size1)
        ∙ poke-append m.byte s.base (take n1 s1) (take n2 s2)
        ∙ ap (poke m.byte s.base) (
            take_parts n1 n2 s1 s2 (omega arith) (omega arith)
            ∙ ap (λ k. take k (s1 ++ s2)) total
            ∙ ap (take (min s.len (length vec))) (parts vec)) in
      let first = copy_from_whole m s.base n1 (take n1 s1) size1 in
      let second = copy_from_whole m1 base2 n2 (take n2 s2) size2 in
      let cut = split_at-some s n1 u (omega arith) in
      let tail = limit-some rest n2 (omega arith) (omega arith) in
      elim (Bool-cases (m.writable s.base n1)) [
        | inr refused ↦ ground (arith, cut, first, refused)
        | inl granted ↦ elim (Bool-cases (m.writable base2 n2)) [
          | inr refused ↦ ground (arith, cut, first, granted, tail, second, refused)
          | inl both ↦ ground (arith, cut, first, granted, tail, second, both, bytes, total)
        ]
      ]

  -- What a pass of `kread` does on a queue: the bytes at the front go to the buffer.
  abbrev pub reads : UserMemory → UserSlice → Bool → Pipe → Turn (ℕ × UserMemory × Pipe)
  reads m s nonblock p =
      let n = min s.len (length p.queue) in
      if may_write m s p.queue
      then (if ltb 0 n || (s.len == 0 || not p.writer_is_alive)
          then returns (
              ok (
                n,
                record m { byte = poke m.byte s.base (take n p.queue) },
                record p { queue = drop n p.queue },
              ))
          else if nonblock
          then returns (err Errno.eagain)
          else waits)
      else returns (err Errno.efault)

  -- Whatever two slices make up the deque, a pass of `kread` into a buffer in user memory moves as many bytes as the queue has and the
  -- buffer takes from the front of the queue to the start of the buffer. With no byte to move it
  -- returns 0 if the buffer is empty or the write end closed, and else fails with `EAGAIN` or waits.
  -- If the page tables refuse a part of the buffer it fails with `EFAULT` and takes nothing.
  pub read_pass_lem :
      (m : UserMemory) (s : UserSlice) (nonblock : Bool) (p : Pipe)
      → InUser s
      → read_pass as_slices m s nonblock p ≡ reads m s nonblock p
  unfolding read_pass
  read_pass_lem m s nonblock p u = ground (arith, read_slices_lem m s p.queue u)
