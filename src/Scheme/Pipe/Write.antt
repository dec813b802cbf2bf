-- ===== src/Scheme/Pipe/Write.antt =====
-- `kwrite` of src/scheme/pipe.rs appends to the queue what the user's buffer holds, chunk by chunk.
use redox_kernel.Common.{
  ℕ, zero, suc, ◌+◌, ◌-◌, ◌*◌, ◌/◌, ◌≤◌, ◌<◌, ◌≡◌, ◌⊎◌, inl, inr, refl, ap, subst, ◌∙◌, arith, min,
  List, [], ◌∷◌, ◌++◌, Bool, true, ◌||◌, not, ltb, ◌==◌, if◌then◌else◌, length, Errno, ok, err,
  ◌>>=◌, Bool-cases, append_assoc,
}
use redox_kernel.Syscall.UserCopy.{UserSlice, UserMemory, load, progression, step_by}
use redox_kernel.Syscall.UserCopy.Slices.{InUser, advance-some, limit-some}
use redox_kernel.Syscall.UserCopy.Copies.{copy_common_to_lem, load-append, length-load}
use redox_kernel.Scheme.Pipe.{Pipe, Turn, returns, waits, write_chunks, write_pass, max_queue_size}

append_nil : (xs : List ℕ) → xs ++ [] ≡ xs
append_nil [] = refl
append_nil (x ∷ xs) = rw (append_nil xs) refl

-- The bytes of a chunk and of what follows it.
chunk_then :
    (m : UserMemory) (base c k : ℕ) (vec : List ℕ)
    → (vec ++ load m.byte base c) ++ load m.byte (base + c) k ≡ vec ++ load m.byte base (c + k)
chunk_then m base c k vec =
    append_assoc vec (load m.byte base c) (load m.byte (base + c) k)
    ∙ ap (λ l. vec ++ l) (load-append m.byte base c k)

-- The chunk after a full one begins where that ends; after a short one there is none.
chunk_join :
    (m : UserMemory) (base i c k : ℕ) (vec : List ℕ)
    → (c ≡ 512) ⊎ (k ≡ 0)
    → (vec ++ load m.byte (base + i) c) ++ load m.byte (base + (i + 512)) k
      ≡ vec ++ load m.byte (base + i) (c + k)
chunk_join m base i c k vec (inl full) =
    ap (λ b. (vec ++ load m.byte (base + i) c) ++ load m.byte b k) (omega arith)
    ∙ chunk_then m (base + i) c k vec
chunk_join m base i c k vec (inr empty) =
    let here = chunk_then m (base + i) c k vec in
    rw empty (
      subst
        (λ z.
          (vec ++ load m.byte (base + i) c) ++ load m.byte (base + i + c) z
          ≡ vec ++ load m.byte (base + i) (c + z))
        empty here)

-- The page tables let every chunk be read.
abbrev pub Readable : UserMemory → UserSlice → Type 0
Readable m src = (i : ℕ) → i ≤ src.len → m.readable (src.base + i) (min (src.len - i) 512) ≡ true

module _ (m : UserMemory) (src : UserSlice) (u : InUser src) where
  -- One chunk of the loop: the copy, and what follows.
  write_chunk :
      (idx i : ℕ) (is vec : List ℕ)
      → i ≤ src.len
      → let c = min (src.len - i) 512 in
        write_chunks m src idx (i ∷ is) vec ≡ (
          if m.readable (src.base + i) c
          then (do
            (n, vec') ← write_chunks m src (idx + 1) is (vec ++ load m.byte (src.base + i) c)
            ok (c + n, vec'))
          else (if ltb 0 idx then ok (0, vec) else err Errno.efault))
  unfolding write_chunks
  write_chunk idx i is vec h =
      let chunk : UserSlice = record { base = src.base + i; len = src.len - i } in
      let c = min (src.len - i) 512 in
      let copy = copy_common_to_lem m chunk 512 (omega arith) in
      let size = length-load m.byte (src.base + i) c in
      elim (Bool-cases (m.readable (src.base + i) c)) [
        | inl granted ↦ ground (arith, advance-some src i u h, copy, granted, size)
        | inr refused ↦ ground (arith, advance-some src i u h, copy, refused)
      ]

  write_chunks_all :
      (i idx n : ℕ) (vec : List ℕ)
      → Readable m src
      → i + n * 512 < src.len + 512
      → let k = min (src.len - i) (n * 512) in
        write_chunks m src idx (progression i 512 n) vec
        ≡ ok (k, vec ++ load m.byte (src.base + i) k)
  unfolding write_chunks
  write_chunks_all i idx zero vec r h =
      let none_left : min (src.len - i) (0 * 512) ≡ 0 = omega arith in
      rw (none_left, append_nil vec) refl
  write_chunks_all i idx (suc n) vec r h =
      let c = min (src.len - i) 512 in
      let k = min (src.len - (i + 512)) (n * 512) in
      let here = write_chunk idx i (progression (i + 512) 512 n) vec (omega arith) in
      let rest =
        write_chunks_all (i + 512) (idx + 1) n (vec ++ load m.byte (src.base + i) c) r
          (omega arith) in
      let bytes = chunk_join m src.base i c k vec (omega arith) in
      let count : c + k ≡ min (src.len - i) (suc n * 512) = omega arith in
      here ∙ rw (r i (omega arith), rest, bytes, count) refl

  -- Whatever the page tables refuse, the loop adds a start of the buffer to the queue, or it fails
  -- at the first chunk.
  write_chunks_some :
      (i idx n : ℕ) (vec : List ℕ)
      → i + n * 512 < src.len + 512
      → (write_chunks m src idx (progression i 512 n) vec ≡ err Errno.efault)
        ⊎ ((k : ℕ) × (k ≤ src.len - i)
            × (write_chunks m src idx (progression i 512 n) vec
                ≡ ok (k, vec ++ load m.byte (src.base + i) k)))
  unfolding write_chunks
  write_chunks_some i idx zero vec h = inr (0, omega arith, rw (append_nil vec) refl)
  write_chunks_some i idx (suc n) vec h =
      let c = min (src.len - i) 512 in
      let here = write_chunk idx i (progression (i + 512) 512 n) vec (omega arith) in
      elim (Bool-cases (m.readable (src.base + i) c)) [
        | inr refused ↦ elim (Bool-cases (ltb 0 idx)) [
          | inl later ↦ inr (0, omega arith, here ∙ rw (refused, later, append_nil vec) refl)
          | inr first ↦ inl (here ∙ rw (refused, first) refl)
        ]
        | inl granted ↦
            elim (write_chunks_some (i + 512) (idx + 1) n (vec ++ load m.byte (src.base + i) c)
              (omega arith)) [
                | inl fails ↦ inl (here ∙ rw (granted, fails) refl)
                | inr (k, l, rest) ↦ inr (
                  c + k,
                  omega arith,
                  here ∙ rw (granted, rest, chunk_join m src.base i c k vec (omega arith)) refl,
                )
              ]
      ]

-- The part of the buffer that fits into the queue.
abbrev pub fitting : UserSlice → Pipe → UserSlice
fitting s p = record { base = s.base; len = min (max_queue_size - length p.queue) s.len }

all_chunks :
    (m : UserMemory) (src : UserSlice) (vec : List ℕ)
    → InUser src
    → Readable m src
    → write_chunks m src 0 (step_by src.len 512) vec
      ≡ ok (src.len, vec ++ load m.byte src.base src.len)
all_chunks m src vec u r =
    let q = (src.len + 512 - 1) / 512 in
    let k : min (src.len - 0) (q * 512) ≡ src.len = omega arith in
    let start : src.base + 0 ≡ src.base = omega arith in
    write_chunks_all m src u 0 0 q vec r (omega arith) ∙ rw (k, start) refl

some_chunks :
    (m : UserMemory) (src : UserSlice) (vec : List ℕ)
    → InUser src
    → (write_chunks m src 0 (step_by src.len 512) vec ≡ err Errno.efault)
      ⊎ ((k : ℕ) × (k ≤ src.len)
          × (write_chunks m src 0 (step_by src.len 512) vec
              ≡ ok (k, vec ++ load m.byte src.base k)))
some_chunks m src vec u =
    let q = (src.len + 512 - 1) / 512 in
    elim (write_chunks_some m src u 0 0 q vec (omega arith)) [
      | inl fails ↦ inl fails
      | inr (k, l, done) ↦
          inr (k, omega arith, done ∙ ap (λ b. ok (k, vec ++ load m.byte b k)) (omega arith))
    ]

-- What a pass of `kwrite` does if it may read the buffer.
abbrev pub writes : UserMemory → UserSlice → Bool → Pipe → Turn (ℕ × Pipe)
writes m s nonblock p =
    let n = min (max_queue_size - length p.queue) s.len in
    if not p.reader_is_alive
    then returns (err Errno.epipe)
    else if ltb 0 n || s.len == 0
    then returns (ok (n, record p { queue = p.queue ++ load m.byte s.base n }))
    else if nonblock
    then returns (err Errno.eagain)
    else waits

-- A pass of `kwrite` from a readable buffer in user memory moves as many bytes as fit under the
-- maximum from the start of the buffer to the end of the queue. With no byte to move it returns 0 if
-- the buffer is empty, and else fails with `EAGAIN` or waits; it fails with `EPIPE` if the read end
-- is closed. The chunks of 512 bytes do not show.
pub write_pass_lem :
    (m : UserMemory) (s : UserSlice) (nonblock : Bool) (p : Pipe)
    → InUser s
    → Readable m (fitting s p)
    → write_pass m s nonblock p ≡ writes m s nonblock p
unfolding write_pass
write_pass_lem m s nonblock p u r = ground (
  arith,
  limit-some s (fitting s p).len u (omega arith),
  all_chunks m (fitting s p) p.queue (omega arith) r,
)

-- A pass of `kwrite` that returns a number from a buffer in user memory has appended as many bytes
-- from the start of the buffer to the queue, at most as many as fit under the maximum, and changed
-- nothing else of the pipe.
pub write_pass-ok :
    (m : UserMemory) (s : UserSlice) (nonblock : Bool) (p p' : Pipe) (n : ℕ)
    → InUser s
    → write_pass m s nonblock p ≡ returns (ok (n, p'))
    → (n ≤ (fitting s p).len) × (p' ≡ record p { queue = p.queue ++ load m.byte s.base n })
unfolding write_pass
write_pass-ok m s nonblock p p' n u e =
    let cut = limit-some s (fitting s p).len u (omega arith) in
    elim (some_chunks m (fitting s p) p.queue (omega arith)) [
      | inl fails ↦ ground (arith, cut, fails)
      | inr (k, l, done) ↦ ground (arith, cut, done)
    ]
