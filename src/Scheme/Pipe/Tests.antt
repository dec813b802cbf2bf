-- ===== src/Scheme/Pipe/Tests.antt =====
-- The pipes of src/scheme/pipe.rs on a concrete pipe, with a deque in one slice.
use redox_kernel.Common.{
  ℕ, zero, suc, ap, ◌%◌, ◌≤◌, ◌≡◌, ◌⊎◌, refl, arith, some, none, List, [], ◌∷◌, ◌++◌, true, ◌==◌,
  if◌then◌else◌, length, replicate, ok, err, Errno,
}
use redox_kernel.Common.OrdMap
use redox_kernel.Syscall.UserCopy.{UserSlice, UserMemory, load}
use redox_kernel.Scheme.Pipe
use redox_kernel.Scheme.Pipe.{
  Pipes, Turn, returns, waits, from_raw_id, find, fresh, fevent, close, kopen, read_pass,
  write_pass, max_queue_size,
}
use redox_kernel.Scheme.Pipe.Read.{reads, read_pass_lem}
use redox_kernel.Scheme.Pipe.Write.{writes, write_pass_lem}
use redox_kernel.Scheme.Pipe.Fifo.{opened, wrote, fifo}
use redox_kernel.Scheme.Pipe.Ends.{closed, other_is_alive, close_lem}

abbrev one_slice : List ℕ → List ℕ × List ℕ
one_slice vec = (vec, [])

append_nil : (xs : List ℕ) → xs ++ [] ≡ xs
append_nil [] = refl
append_nil (x ∷ xs) = rw (append_nil xs) refl

-- every byte is the low byte of its address
abbrev memory : UserMemory
memory = record { byte = λ a. a % 256; readable = λ a n. true; writable = λ a n. true }

abbrev buffer : UserSlice
buffer = record { base = 0x1001; len = 3 }

abbrev holding : Pipe.Pipe
holding = record fresh { queue = 9 ∷ 8 ∷ [] }

abbrev after_write : Pipe.Pipe
after_write = record fresh { queue = 9 ∷ 8 ∷ 1 ∷ 2 ∷ 3 ∷ [] }

writes_three : write_pass memory buffer true holding ≡ returns (ok (3, after_write))
unfolding write_pass Pipe.write_chunks
writes_three = refl

abbrev scheme : Pipes
scheme = record { next_id = 4; pipes = (2, holding) ∷ []; notes = [] }

read_pass_lem_example :
    read_pass one_slice memory buffer true holding
    ≡ reads one_slice append_nil memory buffer true holding
read_pass_lem_example = read_pass_lem one_slice append_nil memory buffer true holding (omega arith)

write_pass_lem_example : write_pass memory buffer true holding ≡ writes memory buffer true holding
write_pass_lem_example = write_pass_lem memory buffer true holding (omega arith) (λ i h. refl)

writes_first :
    write_pass memory buffer true fresh ≡ returns (ok (3, record fresh { queue = 1 ∷ 2 ∷ 3 ∷ [] }))
unfolding write_pass Pipe.write_chunks
writes_first = refl

fifo_example : ([] ++ (1 ∷ 2 ∷ 3 ∷ []) ≡ [] ++ load memory.byte 0x1001 3) × (3 ≤ max_queue_size)
fifo_example =
    fifo one_slice append_nil (wrote memory buffer true 3 opened (omega arith) writes_first)

close_lem_example :
    ((OrdMap.get 2 scheme.pipes ≡ none) × (close scheme 3 ≡ err Errno.ebadf))
    ⊎ ((p : Pipe.Pipe) × (s' : Pipes) × (OrdMap.get 2 scheme.pipes ≡ some p)
        × (close scheme 3 ≡ ok s')
        × (OrdMap.get 2 s'.pipes ≡ (
            if 2 == 2
            then (if other_is_alive true p then some (closed true p) else none)
            else OrdMap.get 2 scheme.pipes)))
unfolding from_raw_id
close_lem_example = close_lem scheme 3 2 (omega arith, tt)

abbrev full : Pipe.Pipe
full = record fresh { queue = replicate 65536 0 }

length-replicate : (n : ℕ) → length {A = ℕ} (replicate n 0) ≡ n
length-replicate zero = refl
length-replicate (suc n) = ap suc (length-replicate n)
