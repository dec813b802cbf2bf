-- ===== src/Syscall/UserCopy/Tests.antt =====
-- The slices of src/syscall/usercopy.rs on concrete regions.
use redox_kernel.Common.{◌+◌, ◌≤◌, ◌<◌, ◌≡◌, ◌⊎◌, inr, arith, [], ◌∷◌, true, false, ok, err, Errno}
use redox_kernel.Syscall.UserCopy
use redox_kernel.Syscall.UserCopy.{
  UserSlice, UserMemory, user_end_offset, in_exact_chunks, copy_common_bytes_to_slice,
  copy_common_bytes_from_slice,
}
use redox_kernel.Syscall.UserCopy.Slices.{new_lem}
use redox_kernel.Syscall.UserCopy.Copies.{copy_common_bytes_lem}
use redox_kernel.Syscall.UserCopy.Integers.{read_word, write_word, read_word-write_word}

abbrev pub zeros : UserMemory
zeros = record { byte = λ a. 0; readable = λ a n. true; writable = λ a n. true }

abbrev pub buffer : UserSlice
buffer = record { base = 0x1000; len = 20 }

new_lem_example :
    ((0x1000 + 20 < user_end_offset) × (UserCopy.new 0x1000 20 ≡ ok buffer))
    ⊎ ((user_end_offset ≤ 0x1000 + 20) × (UserCopy.new 0x1000 20 ≡ err Errno.efault))
new_lem_example = new_lem 0x1000 20 (omega arith) (omega arith)

copy_common_bytes_lem_example :
    ((zeros.writable 0x1000 3 ≡ false)
      × (copy_common_bytes_from_slice zeros buffer (7 ∷ 8 ∷ 9 ∷ []) ≡ err Errno.efault))
    ⊎ ((true ≡ true)
        × (m' : UserMemory) × (copy_common_bytes_from_slice zeros buffer (7 ∷ 8 ∷ 9 ∷ [])
            ≡ ok (3, m'))
        × (copy_common_bytes_to_slice m' buffer 3 ≡ ok (7 ∷ 8 ∷ 9 ∷ []))
        × (m'.byte 0x1003 ≡ 0))
copy_common_bytes_lem_example =
    copy_common_bytes_lem zeros buffer (7 ∷ 8 ∷ 9 ∷ []) 0x1003 (omega arith) (inr (omega arith))

read_word-write_word_example :
    ((20 < 8)
      × (write_word 8 zeros buffer 0x0123456789 ≡ err Errno.einval)
      × (read_word 8 zeros buffer ≡ err Errno.einval))
    ⊎ ((8 ≤ 20) × (true ≡ false) × (write_word 8 zeros buffer 0x0123456789 ≡ err Errno.efault))
    ⊎ ((8 ≤ 20)
        × (true ≡ true)
        × (m' : UserMemory) × (write_word 8 zeros buffer 0x0123456789 ≡ ok m')
        × (read_word 8 m' buffer ≡ ok 0x0123456789))
read_word-write_word_example =
    read_word-write_word 8 zeros buffer 0x0123456789 (omega arith) (omega arith)
