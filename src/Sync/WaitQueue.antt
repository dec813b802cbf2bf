-- ===== src/Sync/WaitQueue.antt =====
-- src/sync/wait_queue.rs: a queue whose receivers wait until something is sent. The parameters are
-- `VecDeque::as_slices`, of which the code uses that the two parts make up the queue, and the bytes
-- of an element.
pub mod Wakeup
pub mod Receive
use redox_kernel.Common.{
  ℕ, suc, ◌+◌, ◌-◌, ◌/◌, Option, none, some, List, [], ◌∷◌, ◌++◌, Bool, true, false, not, ltb, leb,
  ◌==◌, if◌then◌else◌, length, drop, Errno, Result, ok, err, panic, ◌>>=◌, ◌>>◌, assert,
}
use redox_kernel.Common.Errno.{eintr, eagain, einval}
use redox_kernel.Syscall.UserCopy.{UserSlice, UserMemory, advance, copy_common_bytes_from_slice}
use redox_kernel.Sync.WaitCondition.{Waiters, notify, wait, resumed}

-- The elements, and the condition
pub record WaitQueue (A : Type 0) : Type 0 where
  pub inner : List A
  pub condition : Waiters

-- One turn of a loop that may block: what it returns, or the switch to another context.
pub data Attempt (B : Type 0) : Type 0 where
  finished : Result B → Attempt B
  switches : Attempt B

-- The copies of the two parts, and how many bytes they copied
unfoldable pub copy_two : UserMemory → UserSlice → List ℕ → List ℕ → Result (ℕ × UserMemory)
unfolding copy_common_bytes_from_slice advance
copy_two m buf s1_bytes s2_bytes = do
  (bytes_copied, m1) ← copy_common_bytes_from_slice m buf s1_bytes
  elim (advance buf (length s1_bytes)) [
    | none ↦ ok (bytes_copied, m1)
    | some buf_for_s2 ↦ copy_common_bytes_from_slice m1 buf_for_s2 s2_bytes >>= λ copied.
        ok (bytes_copied + copied.0, copied.1)
  ]

module _ {A : Type 0} where
  unfoldable pub send : A → WaitQueue A → ℕ × WaitQueue A
  unfolding notify
  send value q =
      let inner = q.inner ++ value ∷ [] in
      (length inner, record { inner = inner; condition = (notify q.condition).1 })

  -- `self.condition.wait(inner, reason, token)` up to the switch
  unfoldable pub block_on : {B : Type 0} → ℕ → Bool → WaitQueue A → Attempt B × WaitQueue A
  unfolding wait
  block_on current pending q =
      let (waited, condition) = wait current pending q.condition in
      if waited
      then (switches, record q { condition = condition })
      else (finished (err eintr), record q { condition = condition })

  unfoldable pub receive : ℕ → Bool → Bool → WaitQueue A → Attempt A × WaitQueue A
  unfolding block_on
  receive current block pending q = elim q.inner [
    | t ∷ ts ↦ (finished (ok t), record q { inner = ts })
    | [] ↦ if block then block_on current pending q else (finished (err eagain), q)
  ]

  -- The loop goes on, or ends with EINTR, once the context runs again.
  unfoldable pub receive_again : ℕ → Bool → Bool → WaitQueue A → Attempt A × WaitQueue A
  unfolding receive resumed
  receive_again current block pending q =
      let (waited, condition) = resumed current q.condition in
      if waited
      then receive current block pending (record q { condition = condition })
      else (finished (err eintr), record q { condition = condition })

  abbrev pub all_bytes : (A → List ℕ) → List A → List ℕ
  all_bytes bytes_of [] = []
  all_bytes bytes_of (t ∷ ts) = bytes_of t ++ all_bytes bytes_of ts

  module _ (as_slices : List A → List A × List A) (bytes_of : A → List ℕ) (size : ℕ) where
    unfoldable pub copy_slices : UserMemory → UserSlice → List A → Result (ℕ × UserMemory)
    unfolding copy_two
    copy_slices m buf inner =
        let (s1, s2) = as_slices inner in
        copy_two m buf (all_bytes bytes_of s1) (all_bytes bytes_of s2)

    -- `drain(..bytes_copied / size_of::<T>())` where the copies went well
    unfoldable pub drain :
        Result (ℕ × UserMemory) → WaitQueue A → Attempt (ℕ × UserMemory) × WaitQueue A
    drain panic q = (finished panic, q)
    drain (err e) q = (finished (err e), q)
    drain (ok (bytes_copied, m)) q =
        if leb (bytes_copied / size) (length q.inner)
        then (
          finished (ok (bytes_copied, m)),
          record q { inner = drop (bytes_copied / size) q.inner },
        )
        else (finished panic, q)

    unfoldable pub receive_into_user :
        UserMemory
        → UserSlice
        → ℕ
        → Bool
        → Bool
        → WaitQueue A
        → Attempt (ℕ × UserMemory) × WaitQueue A
    unfolding block_on copy_slices drain
    receive_into_user m buf current block pending q = elim q.inner [
      | t ∷ ts ↦ drain (copy_slices m buf q.inner) q
      | [] ↦
          if block
          then block_on current pending q
          else if buf.len == 0
          then (finished (ok (0, m)), q)
          else if ltb buf.len size
          then (finished (err einval), q)
          else (finished (err eagain), q)
    ]
