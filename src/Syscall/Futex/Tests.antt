-- ===== src/Syscall/Futex/Tests.antt =====
-- The futexes of src/syscall/futex.rs with two contexts.
use redox_kernel.Common.{
  ℕ, ◌+◌, ◌≡◌, refl, min, none, some, List, [], ◌∷◌, Bool, true, false, length, arith, ok,
}
use redox_kernel.Common.OrdMap
use redox_kernel.Context.Switch.{Context, Status, block, unblock_no_ipi}
use redox_kernel.Context.Switch.Status.{runnable, blocked}
use redox_kernel.Syscall.Futex
use redox_kernel.Syscall.Futex.{
  FutexEntry, Futexes, Width, matches, entries, keep, futex_wait, futex_wake,
  validate_and_translate_virt,
}
use redox_kernel.Syscall.Futex.Wake.{count, unblock_all, futex_wake_lem}
use redox_kernel.Syscall.Futex.Waiting.{futex_wake-futex_wait}
use redox_kernel.Context.Switch.Wakeups.{Runs}

abbrev context : Status → Context
context status = record {
  status = status;
  running = false;
  cpu_id = none;
  sched_affinity = λ c. true;
  wake = none;
  is_preemptable = true;
  cpu_time = 0;
  switch_time = 0;
}

abbrev entry : ℕ → FutexEntry
entry i = record { target_virtaddr = 0x1000; context = i; addr_space = 7 }

-- The wait of context 1 timed out; context 2 still waits.
abbrev stale : Futexes
stale = record {
  table = (0x5000, entry 1 ∷ entry 2 ∷ []) ∷ [];
  contexts = (1, context runnable) ∷ (2, context blocked) ∷ [];
}

-- A wake for one counts the context that timed out, and the one that waits stays blocked.
wakes_stale :
    futex_wake 0x1000 7 1 0x5000 stale
    ≡ some (1, record { table = (0x5000, entry 2 ∷ []) ∷ []; contexts = stale.contexts })
unfolding futex_wake Futex.wake_loop Futex.swap_remove unblock_no_ipi OrdMap.get OrdMap.insert
    OrdMap.remove
wakes_stale = refl

translates :
    validate_and_translate_virt 0x10000 4096 (λ page. some (page + 0x4000)) 0x1008 ≡ some 0x5008
unfolding validate_and_translate_virt
translates = refl

-- Nobody waits yet.
abbrev idle : Futexes
idle = record { table = []; contexts = (1, context runnable) ∷ [] }

abbrev one_waits : Futexes
one_waits = record { table = (0x5000, entry 1 ∷ []) ∷ []; contexts = (1, context blocked) ∷ [] }

waits :
    futex_wait (λ p. 3) (λ p. 3) Width.word32 idle 1 7 false 0x1000 0x5000 3 none
    ≡ (one_waits, ok tt)
unfolding futex_wait block OrdMap.get OrdMap.insert
waits = refl

futex_wake_lem_example :
    (rs : List FutexEntry) × (left : List FutexEntry) × (s' : Futexes) × (futex_wake 0x1000 7 1
        0x5000 stale
      ≡ some (length rs, s'))
    × (length rs ≡ min 1 (count (matches 0x1000 7) (entries (OrdMap.get 0x5000 stale.table))))
    × (count (matches 0x1000 7) rs ≡ length rs)
    × ((q : FutexEntry → Bool)
        → count q (entries (OrdMap.get 0x5000 stale.table)) ≡ count q rs + count q left)
    × (s'.contexts ≡ unblock_all rs stale.contexts)
    × (s'.table ≡ keep 0x5000 left stale.table)
futex_wake_lem_example = futex_wake_lem 0x1000 7 1 0x5000 stale

futex_wake-futex_wait_example :
    (woken : ℕ) × (s2 : Futexes) × (futex_wake 0x1000 7 1 0x5000 one_waits ≡ some (woken, s2))
    × Runs 1 s2.contexts
unfolding OrdMap.get
futex_wake-futex_wait_example =
    futex_wake-futex_wait (λ p. 3) (λ p. 3) Width.word32 idle 1 7 0x1000 0x5000 3 false none
      (context runnable) one_waits 1 refl refl waits (omega arith)
