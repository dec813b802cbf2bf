-- ===== src/Scheme/Pipe/Ends.antt =====
-- The two ends of a pipe in src/scheme/pipe.rs: their handles, how they are closed, and the events
-- that they report.
use redox_kernel.Common.{
  ℕ, ◌*◌, ◌/◌, ◌%◌, ◌^◌, ◌<◌, ◌≡◌, ◌⊎◌, inl, inr, ap, ◌∙◌, arith, none, some, List, [], ◌∷◌, ◌++◌,
  Bool, true, false, ◌||◌, not, ltb, ◌==◌, if◌then◌else◌, length, bit_or, bit_and-one, bit_or-one,
  Errno, ok, err, ok_or, Option-cases,
}
use redox_kernel.Common.OrdMap
use redox_kernel.Common.OrdMap.Lookup.{Ascending, get-insert, get-remove, insert-Ascending}
use redox_kernel.Syscall.UserCopy.{UserSlice, UserMemory}
use redox_kernel.Syscall.UserCopy.Slices.{InUser}
use redox_kernel.Scheme.Pipe
use redox_kernel.Scheme.Pipe.{
  Pipes, EventFlags, Turn, returns, waits, from_raw_id, find, fresh, fevent, close, kopen,
  only_slashes, read_pass, write_pass, max_queue_size, update, read_event, write_event,
  readers_notified, writers_notified, write_not_read_bit,
}
use redox_kernel.Scheme.Pipe.Read.{may_write, reads, read_pass_lem}
use redox_kernel.Scheme.Pipe.Write.{write_pass_lem, Readable, fitting}

-- A handle is twice a number, with the lowest bit for the write end.
raw_id : (id : ℕ) → from_raw_id id ≡ (id % 2 == 1, id / 2 * 2)
unfolding from_raw_id
raw_id id = ground (arith, bit_and-one id)

-- The two handles of a new pipe name its two ends, if the next key is even and of 64 bits. The pipe is empty with both ends alive, and the next key is even again.
pub pipe_lem :
    (s : Pipes)
    → s.next_id % 2 ≡ 0
    → s.next_id < 2 ^ 64
    → let ((read_id, write_id), s') = Pipe.pipe s in
      (from_raw_id read_id ≡ (false, s.next_id))
      × (from_raw_id write_id ≡ (true, s.next_id))
      × (find s' s.next_id ≡ ok fresh)
      × (s'.next_id % 2 ≡ 0)
unfolding Pipe.pipe
pipe_lem s even small = (
  raw_id s.next_id ∙ ground arith,
  raw_id (bit_or s.next_id 1) ∙ ground (arith, bit_or-one s.next_id),
  ap (λ o. ok_or o Errno.ebadf) (get-insert s.next_id s.next_id fresh s.pipes) ∙ ground arith,
  omega arith,
)

-- The pipe with one end closed.
abbrev pub closed : Bool → Pipe.Pipe → Pipe.Pipe
closed is_writer p =
    if is_writer then record p { writer_is_alive = false } else record p { reader_is_alive = false }

abbrev pub other_is_alive : Bool → Pipe.Pipe → Bool
other_is_alive is_writer p = if is_writer then p.reader_is_alive else p.writer_is_alive

dropped :
    {V : Type 0} (key j : ℕ) (v : V) (m : OrdMap.OrdMap V)
    → Ascending 0 m
    → OrdMap.get j (OrdMap.remove key (OrdMap.insert key v m))
      ≡ (if j == key then none else OrdMap.get j m)
dropped key j v m a = ground (
  arith,
  get-remove key j 0 (OrdMap.insert key v m) (insert-Ascending key 0 v m (omega arith) a),
  get-insert key j v m,
)

-- What `close` leaves of the scheme.
abbrev close_end : Pipes → ℕ → Bool → Pipe.Pipe → Pipes
close_end s key is_writer p =
    let s' =
      (if is_writer
        then update s key (closed true p) (read_event key ∷ readers_notified key ∷ [])
        else update s key (closed false p)
            (write_event (bit_or key write_not_read_bit) ∷ writers_notified key ∷ [])) in
    if not (other_is_alive is_writer p)
    then record s' { pipes = OrdMap.remove key s'.pipes }
    else s'

get-close_end :
    (s : Pipes) (key j : ℕ) (is_writer : Bool) (p : Pipe.Pipe)
    → Ascending 0 s.pipes
    → OrdMap.get j (close_end s key is_writer p).pipes ≡ (
        if j == key
        then (if other_is_alive is_writer p then some (closed is_writer p) else none)
        else OrdMap.get j s.pipes)
get-close_end s key j true p a =
    ground
      (arith, get-insert key j (closed true p) s.pipes, dropped key j (closed true p) s.pipes a)
get-close_end s key j false p a =
    ground
      (arith, get-insert key j (closed false p) s.pipes, dropped key j (closed false p) s.pipes a)

-- Where the keys of the pipes ascend, `close` of a handle without a pipe fails with `EBADF`. Otherwise
-- it closes that end, and forgets the pipe if the other end is closed; no other pipe changes.
pub close_lem :
    (s : Pipes) (id j : ℕ)
    → Ascending 0 s.pipes
    → let (is_writer, key) = from_raw_id id in
      ((OrdMap.get key s.pipes ≡ none) × (close s id ≡ err Errno.ebadf))
      ⊎ ((p : Pipe.Pipe) × (s' : Pipes) × (OrdMap.get key s.pipes ≡ some p)
          × (close s id ≡ ok s')
          × (OrdMap.get j s'.pipes ≡ (
              if j == key
              then (if other_is_alive is_writer p then some (closed is_writer p) else none)
              else OrdMap.get j s.pipes)))
unfolding close
close_lem s id j a =
    let (is_writer, key) = from_raw_id id in
    elim (Option-cases (OrdMap.get key s.pipes)) [
      | inl missing ↦ inl (missing, ground (arith, missing))
      | inr (p, found) ↦ inr (
        p,
        close_end s key is_writer p,
        found,
        ground (arith, found),
        get-close_end s key j is_writer p a,
      )
    ]

abbrev pub is_waiting {ℓ} : {A : Type ℓ} → Turn A → Bool
is_waiting waits = true
is_waiting (returns r) = false

-- For the read end of a pipe, `fevent` reports `EVENT_READ` exactly if a blocking read does not have
-- to wait, where its buffer is not empty, in user memory and writable, and the two slices of the
-- deque make up the queue.
pub fevent_read_lem :
    (as_slices : List ℕ → List ℕ × List ℕ)
    (parts : (vec : List ℕ) → (as_slices vec).0 ++ (as_slices vec).1 ≡ vec) (m : UserMemory)
    (s : Pipes) (buf : UserSlice) (id : ℕ) (p : Pipe.Pipe)
    → InUser buf
    → 0 < buf.len
    → may_write as_slices parts m buf p.queue ≡ true
    → (from_raw_id id).0 ≡ false
    → find s (from_raw_id id).1 ≡ ok p
    → fevent s id (record { event_read = true; event_write = true })
      ≡ ok (record {
        event_read = not (is_waiting (read_pass as_slices m buf false p));
        event_write = false;
      })
unfolding fevent
fevent_read_lem as_slices parts m s buf id p u some_room granted is_reader found =
    let ready = ltb 0 (length p.queue) || not p.writer_is_alive in
    let pass : is_waiting (reads as_slices parts m buf false p) ≡ not ready = ground arith in
    rw (read_pass_lem as_slices parts m buf false p u, pass) (ground (arith, found, is_reader))

-- A full pipe whose read end is alive reports `EVENT_WRITE` on its write end, and yet a non-blocking
-- write of a readable buffer in user memory that is not empty fails with `EAGAIN` there.
pub fevent_full_lem :
    (m : UserMemory) (s : Pipes) (buf : UserSlice) (id : ℕ) (p : Pipe.Pipe)
    → InUser buf
    → 0 < buf.len
    → Readable m (fitting buf p)
    → (from_raw_id id).0 ≡ true
    → find s (from_raw_id id).1 ≡ ok p
    → length p.queue ≡ max_queue_size
    → p.reader_is_alive ≡ true
    → (fevent s id (record { event_read = true; event_write = true })
        ≡ ok (record { event_read = false; event_write = true }))
      × (write_pass m buf true p ≡ returns (err Errno.eagain))
unfolding fevent
fevent_full_lem m s buf id p u some_bytes r is_writer found full alive =
    (ground (arith, found, is_writer), write_pass_lem m buf true p u r ∙ ground arith)

-- With an even next key and ascending keys, `kopen` of a path of slashes returns a handle, and after a
-- `close` of that handle its pipe is still among the pipes, with the read end alone closed.
pub close-kopen :
    (s : Pipes) (path : List ℕ)
    → s.next_id % 2 ≡ 0
    → s.next_id < 2 ^ 64
    → only_slashes path ≡ true
    → Ascending 0 s.pipes
    → (id : ℕ) × (s1 : Pipes) × (s2 : Pipes) × (kopen s path ≡ (ok id, s1))
      × (close s1 id ≡ ok s2)
      × (OrdMap.get id s2.pipes ≡ some (closed false fresh))
unfolding kopen close Pipe.pipe
close-kopen s path even small root a =
    let key = s.next_id in
    let s1 = (Pipe.pipe s).1 in
    let (read_id, write_id, found, next) = pipe_lem s even small in
    let key' : from_raw_id key ≡ (false, key) = read_id in
    (
      key,
      s1,
      close_end s1 key false fresh,
      ground (arith, root),
      ground (arith, key', found),
      get-close_end s1 key key false fresh (insert-Ascending key 0 fresh s.pipes (omega arith) a)
          ∙ ground arith,
    )
