-- ===== src/Scheme/Pipe.antt =====
-- src/scheme/pipe.rs: pipes, each a bounded queue of bytes between a read end and a write end. The
-- parameter is `VecDeque::as_slices`, of which the code uses that the two parts make up the queue.
pub mod Read
pub mod Write
pub mod Fifo
pub mod Ends
mod Tests
use redox_kernel.Common.{
  ℕ, zero, suc, ◌+◌, ◌-◌, min, Option, none, some, List, [], ◌∷◌, ◌++◌, Bool, true, false, ◌&&◌,
  ◌||◌, not, ltb, leb, ◌==◌, if◌then◌else◌, length, take, drop, bit_and, bit_or, and_not, add_usize,
  Errno, Result, ok, err, panic, ◌>>=◌, ◌>>◌, expect, guard, ok_or,
}
use redox_kernel.Common.OrdMap
use redox_kernel.Common.OrdMap.{OrdMap}
use redox_kernel.Syscall.UserCopy.{
  UserSlice, UserMemory, split_at, limit, step_by, advance, copy_from_slice,
  copy_common_bytes_to_slice,
}

abbrev pub max_queue_size : ℕ
max_queue_size = 65536

abbrev pub write_not_read_bit : ℕ
write_not_read_bit = 1

-- The wait conditions hold no state of a pipe: to notify one is a note.
pub record Pipe : Type 0 where
  pub queue : List ℕ
  pub reader_is_alive : Bool
  pub writer_is_alive : Bool
  pub has_run_dup : Bool

-- The two flags of `EventFlags` that a pipe uses.
pub record EventFlags : Type 0 where
  pub event_read : Bool
  pub event_write : Bool

-- What the outside is told: an event on an end, or the waiting readers or writers of a key.
pub data Note : Type 0 where
  read_event write_event : ℕ → Note
  readers_notified writers_notified : ℕ → Note

-- `PIPE_NEXT_ID` and `PIPES`, and the notes in order
pub record Pipes : Type 0 where
  pub next_id : ℕ
  pub pipes : OrdMap Pipe
  pub notes : List Note

unfoldable pub from_raw_id : ℕ → Bool × ℕ
from_raw_id id = (not (bit_and id write_not_read_bit == 0), and_not id write_not_read_bit)

abbrev pub fresh : Pipe
fresh = record { queue = []; reader_is_alive = true; writer_is_alive = true; has_run_dup = false }

unfoldable pub pipe : Pipes → (ℕ × ℕ) × Pipes
pipe s =
    let id = s.next_id in
    (
      (id, bit_or id write_not_read_bit),
      record s { next_id = add_usize id 2; pipes = OrdMap.insert id fresh s.pipes },
    )

-- `PIPES.read().get(&key).ok_or(EBADF)`
abbrev pub find : Pipes → ℕ → Result Pipe
find s key = ok_or (OrdMap.get key s.pipes) Errno.ebadf

-- A change of a pipe behind its `Arc`, and what is told of it.
abbrev pub update : Pipes → ℕ → Pipe → List Note → Pipes
update s key p notes = record s { pipes = OrdMap.insert key p s.pipes; notes = s.notes ++ notes }

unfoldable pub fevent : Pipes → ℕ → EventFlags → Result EventFlags
unfolding from_raw_id
fevent s id flags = do
  let (is_writer_not_reader, key) = from_raw_id id
  p ← find s key
  ok (record {
    event_read =
        not is_writer_not_reader
        && (flags.event_read && (ltb 0 (length p.queue) || not p.writer_is_alive));
    event_write =
        is_writer_not_reader
        && (flags.event_write && (leb (length p.queue) max_queue_size || not p.reader_is_alive));
  })

unfoldable pub close : Pipes → ℕ → Result Pipes
unfolding from_raw_id
close s id = do
  let (is_write_not_read, key) = from_raw_id id
  p ← find s key
  let s' =
      (if is_write_not_read
        then update s key (record p { writer_is_alive = false })
            (read_event key ∷ readers_notified key ∷ [])
        else update s key (record p { reader_is_alive = false })
            (write_event (bit_or key write_not_read_bit) ∷ writers_notified key ∷ []))
  let can_remove = not (if is_write_not_read then p.reader_is_alive else p.writer_is_alive)
  ok (if can_remove then record s' { pipes = OrdMap.remove key s'.pipes } else s')

-- `buf == *b"write"`
abbrev pub same_bytes : List ℕ → List ℕ → Bool
same_bytes [] [] = true
same_bytes [] (y ∷ ys) = false
same_bytes (x ∷ xs) [] = false
same_bytes (x ∷ xs) (y ∷ ys) = x == y && same_bytes xs ys

abbrev pub write_name : List ℕ
write_name = 119 ∷ 114 ∷ 105 ∷ 116 ∷ 101 ∷ []

-- `has_run_dup.swap(true)` and the handle of the write end; a second time it is an error, after
-- the flag was stored.
abbrev pub open_write_end : Pipes → ℕ → Result ℕ × Pipes
open_write_end s key = elim (OrdMap.get key s.pipes) [
  | none ↦ (err Errno.ebadf, s)
  | some p ↦
      let s' = update s key (record p { has_run_dup = true }) [] in
      (if p.has_run_dup then err Errno.ebadf else ok (bit_or key write_not_read_bit), s')
]

unfoldable pub kdup : UserMemory → Pipes → ℕ → UserSlice → Result ℕ × Pipes
unfolding from_raw_id copy_common_bytes_to_slice
kdup m s old_id user_buf =
    let (is_writer_not_reader, key) = from_raw_id old_id in
    if is_writer_not_reader
    then (err Errno.ebadf, s)
    else elim (copy_common_bytes_to_slice m user_buf 5) [
      | panic ↦ (panic, s)
      | err e ↦ (err e, s)
      | ok buf ↦
          if ltb (length buf) 5 || not (same_bytes buf write_name)
          then (err Errno.einval, s)
          else open_write_end s key
    ]

-- `path.trim_start_matches('/').is_empty()`
abbrev pub only_slashes : List ℕ → Bool
only_slashes [] = true
only_slashes (c ∷ cs) = c == 47 && only_slashes cs

unfoldable pub kopen : Pipes → List ℕ → Result ℕ × Pipes
unfolding pipe
kopen s path =
    if only_slashes path
    then (let ((read_id, write_id), s') = pipe s in (ok read_id, s'))
    else (err Errno.enoent, s)

-- `name` is `user_buf.as_str()`, nothing if that fails.
unfoldable pub kopenat : Pipes → ℕ → Option (List ℕ) → Result ℕ × Pipes
unfolding from_raw_id
kopenat s id none = (err Errno.einval, s)
kopenat s id (some name) =
    if same_bytes name write_name
    then (err Errno.einval, s)
    else open_write_end s (from_raw_id id).1

-- One pass of a blocking loop: it returns, or it waits on the condition of the pipe. The caller runs
-- it again once it is notified, and returns `EINTR` if it is interrupted.
pub data Turn {ℓ} (A : Type ℓ) : Type ℓ where
  returns : Result A → Turn A
  waits : Turn A

-- The loop of `kwrite` over the chunks of the buffer, from the chunk number `idx` on.
unfoldable pub write_chunks : UserMemory → UserSlice → ℕ → List ℕ → List ℕ → Result (ℕ × List ℕ)
unfolding advance copy_common_bytes_to_slice
write_chunks m src_buf idx [] vec = ok (0, vec)
write_chunks m src_buf idx (i ∷ is) vec = do
  chunk ← expect (advance src_buf i)
  elim (copy_common_bytes_to_slice m chunk 512) [
    | panic ↦ panic
    | err error ↦ if ltb 0 idx then ok (0, vec) else err error
    | ok tmp_buf ↦ (do
      (bytes_written, vec') ← write_chunks m src_buf (idx + 1) is (vec ++ tmp_buf)
      ok (length tmp_buf + bytes_written, vec'))
  ]

unfoldable pub write_pass : UserMemory → UserSlice → Bool → Pipe → Turn (ℕ × Pipe)
unfolding write_chunks limit
write_pass m user_buf nonblock p =
    if not p.reader_is_alive
    then returns (err Errno.epipe)
    else let bytes_to_write = min (max_queue_size - length p.queue) user_buf.len in
      let written : Result (ℕ × List ℕ) = (do
        src_buf ← expect (limit user_buf bytes_to_write)
        write_chunks m src_buf 0 (step_by src_buf.len 512) p.queue) in
      elim written [
        | panic ↦ returns panic
        | err error ↦ returns (err error)
        | ok (bytes_written, vec) ↦
            if ltb 0 bytes_written || user_buf.len == 0
            then returns (ok (bytes_written, record p { queue = vec }))
            else if nonblock
            then returns (err Errno.eagain)
            else waits
      ]

module _ (as_slices : List ℕ → List ℕ × List ℕ) where
  -- The two copies of `kread`.
  unfoldable pub read_slices : UserMemory → UserSlice → List ℕ → Result (ℕ × UserMemory)
  unfolding split_at limit copy_from_slice
  read_slices m user_buf vec = do
    let (s1, s2) = as_slices vec
    let s1_count = min user_buf.len (length s1)
    (s1_dst, s2_buf) ← expect (split_at user_buf s1_count)
    m1 ← copy_from_slice m s1_dst (take s1_count s1)
    let s2_count = min s2_buf.len (length s2)
    s2_dst ← expect (limit s2_buf s2_count)
    m2 ← copy_from_slice m1 s2_dst (take s2_count s2)
    ok (s1_count + s2_count, m2)

  unfoldable pub read_pass : UserMemory → UserSlice → Bool → Pipe → Turn (ℕ × UserMemory × Pipe)
  unfolding read_slices
  read_pass m user_buf nonblock p = elim (read_slices m user_buf p.queue) [
    | panic ↦ returns panic
    | err error ↦ returns (err error)
    | ok (bytes_read, m') ↦
        if ltb 0 bytes_read || (user_buf.len == 0 || not p.writer_is_alive)
        then returns (ok (bytes_read, m', record p { queue = drop bytes_read p.queue }))
        else if nonblock
        then returns (err Errno.eagain)
        else waits
  ]

  unfoldable pub kread : UserMemory → Pipes → ℕ → UserSlice → Bool → Turn (ℕ × UserMemory × Pipes)
  unfolding from_raw_id read_pass
  kread m s id user_buf nonblock =
      let (is_write_not_read, key) = from_raw_id id in
      if is_write_not_read then returns (err Errno.ebadf) else elim (find s key) [
        | panic ↦ returns panic
        | err error ↦ returns (err error)
        | ok p ↦ elim (read_pass m user_buf nonblock p) [
          | waits ↦ waits
          | returns panic ↦ returns panic
          | returns (err error) ↦ returns (err error)
          | returns (ok (n, m', p')) ↦
              let notes =
                (if ltb 0 n
                  then write_event (bit_or key write_not_read_bit) ∷ writers_notified key ∷ []
                  else []) in
              returns (ok (n, m', update s key p' notes))
        ]
      ]

unfoldable pub kwrite : UserMemory → Pipes → ℕ → UserSlice → Bool → Turn (ℕ × Pipes)
unfolding from_raw_id write_pass
kwrite m s id user_buf nonblock =
    let (is_write_not_read, key) = from_raw_id id in
    if is_write_not_read
    then elim (find s key) [
      | panic ↦ returns panic
      | err error ↦ returns (err error)
      | ok p ↦ elim (write_pass m user_buf nonblock p) [
        | waits ↦ waits
        | returns panic ↦ returns panic
        | returns (err error) ↦ returns (err error)
        | returns (ok (n, p')) ↦
            let notes = (if ltb 0 n then read_event key ∷ readers_notified key ∷ [] else []) in
            returns (ok (n, update s key p' notes))
      ]
    ]
    else returns (err Errno.ebadf)
