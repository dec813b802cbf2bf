-- ===== src/Sync/Tests.antt =====
-- The wait conditions and queues of src/sync with two contexts and elements of two bytes.
use redox_kernel.Common.{
  ℕ, ◌*◌, ◌/◌, ◌%◌, ◌≡◌, refl, min, none, List, [], ◌∷◌, true, false, arith, ok,
}
use mathlib.Core.List.{append-nil}
use redox_kernel.Common.OrdMap
use redox_kernel.Context.Switch.{Context, Status, block}
use redox_kernel.Context.Switch.Status.{runnable, blocked}
use redox_kernel.Context.Switch.Wakeups.{Runs}
use redox_kernel.Syscall.UserCopy.{UserSlice, UserMemory, poke, copy_common_bytes_from_slice}
use redox_kernel.Sync.WaitCondition.{Waiters, notify, wait, resumed}
use redox_kernel.Sync.WaitCondition.Notify.{waits, OtherSteps, step, done, notify-wait}
use redox_kernel.Sync.WaitQueue
use redox_kernel.Sync.WaitQueue.{
  WaitQueue, Attempt, finished, switches, all_bytes, send, receive, receive_again,
  receive_into_user,
}
use redox_kernel.Sync.WaitQueue.Wakeup.{send-receive}
use redox_kernel.Sync.WaitQueue.Receive.{IsWritable, receive_into_user_lem}

abbrev context : Status → Context
context status = record {
  status = status;
  running = false;
  cpu_id = none;
  sched_affinity = λ c. true;
  wake = none;
  is_preemptable = true;
  cpu_time = 0;
  switch_time = 0;
}

abbrev fresh : Waiters
fresh = record { waiting = []; contexts = (1, context runnable) ∷ (2, context runnable) ∷ [] }

abbrev one_waits : Waiters
one_waits = record {
  waiting = 1 ∷ [];
  contexts = (1, context blocked) ∷ (2, context runnable) ∷ [];
}

-- Another context waits as well.
meanwhile : OtherSteps 1 one_waits (wait 2 false one_waits).1
meanwhile =
    step one_waits (wait 2 false one_waits).1 (wait 2 false one_waits).1
      (waits 2 false (λ e. ground arith) one_waits) (done (wait 2 false one_waits).1)

notify-wait_example :
    Runs 1 (notify (wait 2 false one_waits).1).1.contexts
    × (resumed 1 (notify (wait 2 false one_waits).1).1
        ≡ (true, (notify (wait 2 false one_waits).1).1))
unfolding wait block OrdMap.get OrdMap.insert
notify-wait_example =
    notify-wait 1 fresh one_waits (wait 2 false one_waits).1 (context runnable) refl refl refl
      meanwhile

abbrev empty_queue : WaitQueue ℕ
empty_queue = record { inner = []; condition = fresh }

abbrev awaited : WaitQueue ℕ
awaited = record { inner = []; condition = one_waits }

send-receive_example :
    Runs 1 (send 7 awaited).1.condition.contexts
    × ((receive_again 1 true false (send 7 awaited).1).0 ≡ finished (ok 7))
unfolding receive WaitQueue.block_on wait block OrdMap.get OrdMap.insert
send-receive_example =
    send-receive 1 false empty_queue awaited awaited (context runnable) 7 refl refl refl
      (done one_waits)

-- Two bytes for each element, the lower first
abbrev two_bytes : ℕ → List ℕ
two_bytes x = x % 256 ∷ x / 256 ∷ []

abbrev one_slice : List ℕ → List ℕ × List ℕ
one_slice inner = (inner, [])

abbrev memory : UserMemory
memory = record { byte = λ a. 0; readable = λ a n. true; writable = λ a n. true }

abbrev room_for_two : UserSlice
room_for_two = record { base = 0x1000; len = 4 }

memory-IsWritable : IsWritable memory room_for_two
unfolding IsWritable
memory-IsWritable a n h k = refl

abbrev three_sent : WaitQueue ℕ
three_sent = record { inner = 5 ∷ 6 ∷ 7 ∷ []; condition = fresh }

receive_into_user_example :
    receive_into_user one_slice two_bytes 2 memory room_for_two 1 false false three_sent ≡ (
      finished
          (ok (min 2 3 * 2, record memory { byte = poke memory.byte 0x1000 (5 ∷ 0 ∷ 6 ∷ 0 ∷ []) })),
      record { inner = 7 ∷ []; condition = fresh },
    )
receive_into_user_example =
    receive_into_user_lem two_bytes 2 (λ t. refl) one_slice append-nil memory room_for_two 1 2 false
      false 5 (6 ∷ 7 ∷ []) fresh (omega arith) memory-IsWritable refl (omega arith)

-- A buffer that ends in the middle of an element: its first byte is delivered, and the element stays.
split_element :
    (receive_into_user one_slice two_bytes 2 memory
      (record { base = 0x1000; len = 3 })
      1
      false
      false
      (record { inner = 5 ∷ 6 ∷ []; condition = fresh })).1.inner
    ≡ 6 ∷ []
unfolding receive_into_user WaitQueue.copy_slices WaitQueue.copy_two WaitQueue.drain
    copy_common_bytes_from_slice
split_element = refl
