-- ===== src/Scheme/Pipe/Fifo.antt =====
-- Over any run of a pipe of src/scheme/pipe.rs, the bytes come out in the order in which they went in.
use redox_kernel.Common.{
  ℕ, ◌≤◌, ◌≡◌, refl, ap, sym, ◌∙◌, arith, min, List, [], ◌++◌, Bool, true, false, length, take,
  drop, ok, length-append, length-take, length-drop, take-append-drop, append_assoc,
}
use redox_kernel.Syscall.UserCopy.{UserSlice, UserMemory, load, poke}
use redox_kernel.Syscall.UserCopy.Slices.{InUser}
use redox_kernel.Syscall.UserCopy.Copies.{load-poke, length-load}
use redox_kernel.Scheme.Pipe.{Pipe, returns, fresh, read_pass, write_pass, max_queue_size}
use redox_kernel.Scheme.Pipe.Read.{reads, read_pass_lem}
use redox_kernel.Scheme.Pipe.Write.{write_pass-ok}

module _ (as_slices : List ℕ → List ℕ × List ℕ) where
  -- The steps of a pipe, with the bytes that the writes took from user memory and those that the
  -- reads left in it. A pass that fails or waits is no step: it changes nothing.
  pub data Run : Pipe → List ℕ → List ℕ → Type 0 where
    opened : Run fresh [] []
    wrote :
        {p p' : Pipe} {ins outs : List ℕ} (m : UserMemory) (s : UserSlice) (nonblock : Bool) (n : ℕ)
        → Run p ins outs
        → InUser s
        → write_pass m s nonblock p ≡ returns (ok (n, p'))
        → Run p' (ins ++ load m.byte s.base n) outs
    read :
        {p p' : Pipe} {ins outs : List ℕ} (m m' : UserMemory) (s : UserSlice) (nonblock : Bool)
        (n : ℕ)
        → Run p ins outs
        → InUser s
        → read_pass as_slices m s nonblock p ≡ returns (ok (n, m', p'))
        → Run p' ins (outs ++ load m'.byte s.base n)
    writer_closed :
        {p : Pipe} {ins outs : List ℕ}
        → Run p ins outs
        → Run (record p { writer_is_alive = false }) ins outs
    reader_closed :
        {p : Pipe} {ins outs : List ℕ}
        → Run p ins outs
        → Run (record p { reader_is_alive = false }) ins outs
    write_end_opened :
        {p : Pipe} {ins outs : List ℕ}
        → Run p ins outs
        → Run (record p { has_run_dup = true }) ins outs

  module _ (parts : (vec : List ℕ) → (as_slices vec).0 ++ (as_slices vec).1 ≡ vec) where
    reads-ok :
        (m m' : UserMemory) (s : UserSlice) (nonblock : Bool) (p p' : Pipe) (n : ℕ)
        → reads as_slices parts m s nonblock p ≡ returns (ok (n, m', p'))
        → let k = min s.len (length p.queue) in
          (n ≡ k) × (m'.byte ≡ poke m.byte s.base (take k p.queue)) × (p'.queue ≡ drop k p.queue)
    reads-ok m m' s nonblock p p' n e = ground arith

    -- A read that returns a number took that many bytes from the front, and they are in the buffer.
    read_pass-ok :
        (m m' : UserMemory) (s : UserSlice) (nonblock : Bool) (p p' : Pipe) (n : ℕ)
        → InUser s
        → read_pass as_slices m s nonblock p ≡ returns (ok (n, m', p'))
        → (load m'.byte s.base n ++ p'.queue ≡ p.queue) × (length p'.queue ≤ length p.queue)
    read_pass-ok m m' s nonblock p p' n u e =
        let shape : (n ≡ min s.len (length p.queue))
            × (m'.byte ≡ poke m.byte s.base (take (min s.len (length p.queue)) p.queue))
            × (p'.queue ≡ drop (min s.len (length p.queue)) p.queue) =
          reads-ok m m' s nonblock p p' n
            (sym (read_pass_lem as_slices parts m s nonblock p u) ∙ e) in
        let front = take (min s.len (length p.queue)) p.queue in
        let size : n ≡ length front =
          omega (arith, shape.0, length-take {0} (min s.len (length p.queue)) p.queue) in
        let bytes : load m'.byte s.base n ≡ front =
          ap (λ b. load b s.base n) shape.1
          ∙ ap (load (poke m.byte s.base front) s.base) size
          ∙ load-poke m.byte s.base front in
        (
          rw (bytes, shape.2) (take-append-drop (min s.len (length p.queue)) p.queue),
          rw shape.2 (omega (arith, length-drop {0} (min s.len (length p.queue)) p.queue)),
        )

    -- In every run of a pipe whose buffers lie in user memory, the bytes that were read followed by
    -- those in the queue are the bytes that were written, in order, and the queue is never longer
    -- than the maximum.
    pub fifo :
        {p : Pipe} {ins outs : List ℕ}
        → Run p ins outs
        → (outs ++ p.queue ≡ ins) × (length p.queue ≤ max_queue_size)
    fifo opened = (refl, omega arith)
    fifo (wrote {p = p} {p' = p'} {ins = ins} {outs = outs} m s nonblock n run u e) =
        let (order, bound) = fifo run in
        let (few, change) = write_pass-ok m s nonblock p p' n u e in
        let new = load m.byte s.base n in
        rw change (
          sym (append_assoc outs p.queue new) ∙ ap (λ l. l ++ new) order,
          omega (arith, length-append {0} p.queue new, length-load m.byte s.base n),
        )
    fifo (read {p = p} {p' = p'} {ins = ins} {outs = outs} m m' s nonblock n run u e) =
        let (order, bound) = fifo run in
        let (front, shorter) = read_pass-ok m m' s nonblock p p' n u e in
        (
          append_assoc outs (load m'.byte s.base n) p'.queue ∙ ap (λ l. outs ++ l) front ∙ order,
          omega arith,
        )
    fifo (writer_closed run) = fifo run
    fifo (reader_closed run) = fifo run
    fifo (write_end_opened run) = fifo run
