-- ===== src/Event/Tests.antt =====
-- The registry of src/event.rs with two event queues that watch each other.
use redox_kernel.Common.{
  ok, err, Errno, none, Option, if◌then◌else◌, ◌==◌, ℕ, ◌≡◌, refl, some, List, [], ◌∷◌, true, arith,
}
use redox_kernel.Event
use redox_kernel.Event.{
  RegKey, QueueKey, Event, Registry, has, register, unregister_file, sync_flags, trigger_inner,
  passed_on, trigger,
}
use redox_kernel.Event.Write
use redox_kernel.Event.Write.{Written, IsIrreflexive, write, write-IsIrreflexive}
use redox_kernel.Event.Deliveries.{Spread}
use redox_kernel.Event.Trigger.{sent_for, trigger-sent_for}

abbrev reg : ℕ → ℕ → RegKey
reg s n = record { scheme = s; number = n }

abbrev queue : ℕ → QueueKey
queue q = record { queue = q; id = 3; payload = 0 }

-- File 5 of scheme 1 is watched by queue 10; queues 10 and 11, of the event scheme 9, by each other.
abbrev cycle : Registry
cycle =
    (reg 1 5, (queue 10, 2) ∷ [])
    ∷ (reg 9 10, (queue 11, 2) ∷ [])
    ∷ (reg 9 11, (queue 10, 2) ∷ [])
    ∷ []

registers :
    register
      (reg 9 11)
      (queue 10)
      2
      (register (reg 9 10) (queue 11) 2 (register (reg 1 5) (queue 10) 2 []))
    ≡ cycle
unfolding register
registers = refl

unregisters : unregister_file (reg 1 5) (register (reg 1 5) (queue 10) 2 []) ≡ []
unfolding register unregister_file
unregisters = refl

syncs : sync_flags (reg 1 5) cycle ≡ 2
unfolding sync_flags
syncs = refl

abbrev event : Event
event = record { id = 3; flags = 2; payload = 0 }

ends :
    trigger 9 2 (λ q. true) cycle 7 (reg 1 5) 2
    ≡ some ((10, event) ∷ (11, event) ∷ (10, event) ∷ [])
unfolding trigger Event.trigger_loop trigger_inner
ends = refl

trigger-sent_for_example :
    Spread
      (sent_for 9 2 (λ q. true) cycle (reg 1 5) 2)
      (λ q. sent_for 9 2 (λ q. true) cycle (reg 9 q) 2)
      (trigger 9 2 (λ q. true) cycle 7 (reg 1 5) 2)
trigger-sent_for_example = trigger-sent_for 9 2 (λ q. true) cycle 7 (reg 1 5) 2 (omega arith)

cycle-IsIrreflexive : IsIrreflexive 9 cycle
unfolding IsIrreflexive
cycle-IsIrreflexive q = ground arith

-- Descriptor 3 is file 5 of scheme 1, and descriptor 4 is queue 10.
abbrev files : ℕ → Option (ℕ × ℕ)
files id = if id == 3 then some (1, 5) else if id == 4 then some (9, 10) else none

abbrev wanted : List Event
wanted = record { id = 3; flags = 2; payload = 7 } ∷ record { id = 4; flags = 2; payload = 8 } ∷ []

-- Queue 10 cannot watch itself, but has been registered for the file before it.
refuses_itself : (write 9 files (λ key flags. ok 2) 10 wanted []).result ≡ err Errno.ebadf
unfolding write Write.write_loop Write.is_own Write.sync Write.trigger_if sync_flags register
refuses_itself = refl

write-IsIrreflexive_example :
    IsIrreflexive 9 (write 9 files (λ key flags. ok 2) 12 wanted cycle).registry
write-IsIrreflexive_example =
    write-IsIrreflexive 9 files (λ key flags. ok 2) 12 wanted cycle cycle-IsIrreflexive
