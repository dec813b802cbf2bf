-- ===== src/Syscall/Futex.antt =====
-- src/syscall/futex.rs: waiting for a word of memory to change, and waking those who wait. A context
-- and an address space are numbers. The translation of the page tables, the loads from memory and
-- the read of the timeout are parameters.
pub mod Wake
pub mod Waiting
mod Tests
use redox_kernel.Common.{
  ℕ, zero, suc, ◌+◌, ◌-◌, ◌*◌, ◌/◌, ◌%◌, ◌^◌, Option, none, some, List, [], ◌∷◌, ◌++◌, Bool, true,
  false, ◌&&◌, ◌||◌, not, ltb, leb, ◌==◌, if◌then◌else◌, length, get_elem?, saturating_add, is_some,
  Errno, Result, ok, err, panic, ◌>>=◌, ◌>>◌, ok_or, guard,
}
use redox_kernel.Common.Errno.{efault, einval, eagain, eintr, etimedout}
use redox_kernel.Common.OrdMap
use redox_kernel.Common.OrdMap.{OrdMap}
use redox_kernel.Context.Switch.{Context, block, unblock, modify}
use redox_kernel.Context.Timeout.{nanos_per_sec}

pub record FutexEntry : Type 0 where
  pub target_virtaddr : ℕ
  pub context : ℕ
  pub addr_space : ℕ

-- `HashMap<PhysicalAddress, Vec<FutexEntry>>`
abbrev pub FutexList : Type 0
FutexList = OrdMap (List FutexEntry)

-- The table of futexes and the contexts
pub record Futexes : Type 0 where
  pub table : FutexList
  pub contexts : OrdMap Context

abbrev pub entries : Option (List FutexEntry) → List FutexEntry
entries none = []
entries (some es) = es

module _ (user_end page_size : ℕ) (translate : ℕ → Option ℕ) where
  -- `validate_and_translate_virt`; a `usize` has eight bytes.
  unfoldable pub validate_and_translate_virt : ℕ → Option ℕ
  validate_and_translate_virt addr =
      if leb user_end (saturating_add addr 8)
      then none
      else let page = addr / page_size in
        let off = addr - page * page_size in
        elim (translate (page * page_size)) [ none ↦ none | some frame ↦ some (frame + off) ]

-- `FUTEX_WAIT` or `FUTEX_WAIT64`: whether the address is aligned, and the value to compare
pub data Width : Type 0 where
  word32 word64 : Width

abbrev pub aligned : Width → ℕ → Bool
aligned word32 addr = addr % 4 == 0
aligned word64 addr = addr % 8 == 0

abbrev pub expected : Width → ℕ → ℕ
expected word32 val = val % 2 ^ 32
expected word64 val = val % 2 ^ 64

-- `fetched`: the 32-bit load goes through the physical address.
abbrev pub fetched : (load32 load64 : ℕ → ℕ) → Width → ℕ → ℕ → ℕ
fetched load32 load64 word32 addr phys = load32 phys
fetched load32 load64 word64 addr phys = load64 addr

-- The time of a `TimeSpec`, a `u128`
abbrev pub wake_time : Option (ℕ × ℕ) → Option ℕ
wake_time none = none
wake_time (some (tv_sec, tv_nsec)) = some ((tv_sec * nanos_per_sec + tv_nsec) % 2 ^ 128)

abbrev pub push_entry : ℕ → FutexEntry → FutexList → FutexList
push_entry phys e table = OrdMap.insert phys (entries (OrdMap.get phys table) ++ e ∷ []) table

-- The wait up to the switch to another context: the state it leaves, and the error if it does not
-- wait. `pending` is whether the context has a signal that is not blocked.
unfoldable pub futex_wait :
    (load32 load64 : ℕ → ℕ)
    → Width
    → Futexes
    → (current addr_space : ℕ) → Bool
    → (addr phys val : ℕ) → Option (ℕ × ℕ)
    → Futexes × Result (Unit {0})
futex_wait load32 load64 width s current addr_space pending addr phys val timeout =
    if not (aligned width addr)
    then (s, err einval)
    else if not (fetched load32 load64 width addr phys == expected width val)
    then (s, err eagain)
    else let waking = modify current (λ c. record c { wake = wake_time timeout }) s.contexts in
      if pending then (record s { contexts = waking }, err eintr) else (
        record {
          table =
              push_entry phys
                (record { target_virtaddr = addr; context = current; addr_space = addr_space })
                s.table;
          contexts = modify current (λ c. (block c).1) waking;
        },
        ok tt,
      )

-- What the wait returns once the context runs again.
unfoldable pub futex_resumed : Option (ℕ × ℕ) → Context → Result ℕ
futex_resumed timeout c = if not (is_some c.wake) && is_some timeout then err etimedout else ok 0

-- `Vec::swap_remove`: the last element takes the place of the one removed.
abbrev pub last_or : FutexEntry → List FutexEntry → FutexEntry
last_or x [] = x
last_or x (y ∷ ys) = last_or y ys

abbrev pub but_last : FutexEntry → List FutexEntry → List FutexEntry
but_last x [] = []
but_last x (y ∷ ys) = x ∷ but_last y ys

unfoldable pub swap_remove : ℕ → List FutexEntry → List FutexEntry
swap_remove i [] = []
swap_remove zero (x ∷ []) = []
swap_remove zero (x ∷ y ∷ ys) = last_or y ys ∷ but_last y ys
swap_remove (suc i) (x ∷ xs) = x ∷ swap_remove i xs

-- The entry waits at the address, in the address space.
abbrev pub matches : ℕ → ℕ → FutexEntry → Bool
matches addr addr_space e = (e.target_virtaddr == addr) && (e.addr_space == addr_space)

-- The entries that are left at the address; where there is none, the address is forgotten.
abbrev pub keep : ℕ → List FutexEntry → FutexList → FutexList
keep phys [] table = OrdMap.remove phys table
keep phys (e ∷ es) table = OrdMap.insert phys (e ∷ es) table

abbrev pub put_back : ℕ → FutexList → ℕ × List FutexEntry × OrdMap Context → ℕ × Futexes
put_back phys table (woken, left, m) =
    (woken, record { table = keep phys left table; contexts = m })

module _ (addr addr_space val : ℕ) where
  -- The loop of `FUTEX_WAKE`: how many were woken, the entries that are left, and the contexts; none
  -- where the fuel ends.
  unfoldable pub wake_loop :
      ℕ → ℕ → ℕ → List FutexEntry → OrdMap Context → Option (ℕ × List FutexEntry × OrdMap Context)
  unfolding swap_remove
  wake_loop zero i woken es m = none
  wake_loop (suc n) i woken es m = elim (get_elem? es i) [
    | none ↦ some (woken, es, m)
    | some e ↦
        let taken = wake_loop n i (suc woken) (swap_remove i es) (unblock e.context m) in
        let passed = wake_loop n (suc i) woken es m in
        if not (ltb woken val)
        then some (woken, es, m)
        else if matches addr addr_space e
        then taken
        else passed
  ]

  -- `FUTEX_WAKE`
  unfoldable pub futex_wake : ℕ → Futexes → Option (ℕ × Futexes)
  unfolding wake_loop
  futex_wake phys s = elim (OrdMap.get phys s.table) [
    | none ↦ some (0, s)
    | some es ↦ elim (wake_loop (suc (length es)) 0 0 es s.contexts) [
      | none ↦ none
      | some r ↦ some (put_back phys s.table r)
    ]
  ]
