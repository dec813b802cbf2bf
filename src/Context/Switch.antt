-- ===== src/Context/Switch.antt =====
-- src/context/switch.rs and the status of a context in src/context/context.rs: which context a
-- processor runs next. A context is named by its place in the order of `contexts`; one that was
-- dropped is not in the map. `now` is the reading of the monotonic clock.
pub mod Choice
pub mod Wakeups
pub mod RoundRobin
mod Tests
use redox_kernel.Common.{
  ℕ, ◌+◌, ◌-◌, Option, none, some, List, [], ◌∷◌, ◌++◌, Bool, true, false, ◌&&◌, not, ltb, leb,
  ◌==◌, if◌then◌else◌,
}
use redox_kernel.Common.OrdMap
use redox_kernel.Common.OrdMap.{OrdMap}

pub data Status : Type 0 where
  runnable blocked : Status
  hard_blocked dead : ℕ → Status

-- The fields that the scheduler reads or writes; `status_reason`, a text for debugging, is left out, and
-- `is_preemptable` is whether the count of locks on preemption is 0.
pub record Context : Type 0 where
  pub status : Status
  pub running : Bool
  pub cpu_id : Option ℕ
  pub sched_affinity : ℕ → Bool
  pub wake : Option ℕ
  pub is_preemptable : Bool
  pub cpu_time : ℕ
  pub switch_time : ℕ

abbrev pub is_runnable : Status → Bool
is_runnable runnable = true
is_runnable blocked = false
is_runnable (hard_blocked reason) = false
is_runnable (dead excp) = false

abbrev pub is_soft_blocked : Status → Bool
is_soft_blocked runnable = false
is_soft_blocked blocked = true
is_soft_blocked (hard_blocked reason) = false
is_soft_blocked (dead excp) = false

unfoldable pub block : Context → Bool × Context
block c = if is_runnable c.status then (true, record c { status = blocked }) else (false, c)

unfoldable pub hard_block : ℕ → Context → Bool × Context
hard_block reason c =
    if is_runnable c.status then (true, record c { status = hard_blocked reason }) else (false, c)

unfoldable pub unblock_no_ipi : Context → Bool × Context
unblock_no_ipi c =
    if is_soft_blocked c.status then (true, record c { status = runnable }) else (false, c)

-- Whether `wake` has come
abbrev pub wakes : ℕ → Option ℕ → Bool
wakes now none = false
wakes now (some wake) = leb wake now

unfoldable pub update_runnable : ℕ → ℕ → Context → Bool × Context
unfolding unblock_no_ipi
update_runnable cpu_id now c =
    if c.running
    then (false, c)
    else if not (c.sched_affinity cpu_id)
    then (false, c)
    else let c' =
        (if is_soft_blocked c.status && wakes now c.wake
          then (unblock_no_ipi (record c { wake = none })).1
          else c) in
      (is_runnable c'.status, c')

-- The contexts, and of one processor the current one and the idle one.
pub record Scheduler : Type 0 where
  pub contexts : OrdMap Context
  pub current : ℕ
  pub idle : ℕ

-- `range((Excluded(current), Unbounded))` and `range((Unbounded, Excluded(current)))`
abbrev pub above : ℕ → OrdMap Context → List ℕ
above current [] = []
above current ((i, c) ∷ m) = if ltb current i then i ∷ above current m else above current m

abbrev pub below : ℕ → OrdMap Context → List ℕ
below current [] = []
below current ((i, c) ∷ m) = if ltb i current then i ∷ below current m else below current m

abbrev pub candidates : Scheduler → List ℕ
candidates s = above s.current s.contexts ++ (below s.current s.contexts ++ s.idle ∷ [])

-- The loop over the candidates: the context that is taken, and the contexts with those that woke.
unfoldable pub choose : ℕ → ℕ → ℕ → Bool → List ℕ → OrdMap Context → Option ℕ × OrdMap Context
unfolding update_runnable
choose cpu_id now idle skip_idle [] m = (none, m)
choose cpu_id now idle skip_idle (i ∷ is) m =
    let past_idle = choose cpu_id now idle false is m in
    let past_dropped = choose cpu_id now idle skip_idle is m in
    if i == idle && skip_idle then past_idle else elim (OrdMap.get i m) [
      | none ↦ past_dropped
      | some c ↦
          let (can_switch, c') = update_runnable cpu_id now c in
          let past = choose cpu_id now idle skip_idle is (OrdMap.insert i c' m) in
          if can_switch then (some i, OrdMap.insert i c' m) else past
    ]

-- A change of one context.
abbrev pub modify : ℕ → (Context → Context) → OrdMap Context → OrdMap Context
modify i f m = elim (OrdMap.get i m) [ none ↦ m | some c ↦ OrdMap.insert i (f c) m ]

-- `unblock`, without the interrupt to another processor
abbrev pub unblock : ℕ → OrdMap Context → OrdMap Context
unblock i m = modify i (λ c. (unblock_no_ipi c).1) m

abbrev pub leave : ℕ → Context → Context
leave now c = record c { running = false; cpu_time = c.cpu_time + (now - c.switch_time) }

abbrev pub enter : ℕ → ℕ → Context → Context
enter cpu_id now c = record c { running = true; cpu_id = some cpu_id; switch_time = now }

-- True for `SwitchResult::Switched`
unfoldable pub switch : ℕ → ℕ → ℕ → Scheduler → Bool × Scheduler
switch cpu_id now switch_time s = elim (OrdMap.get s.current s.contexts) [
  | none ↦ (false, s)
  | some prev ↦
      if not prev.is_preemptable
      then (false, s)
      else let (chosen, m) = choose cpu_id now s.idle true (candidates s) s.contexts in
        elim chosen [
          | none ↦ (false, record s { contexts = m })
          | some next ↦ (
            true,
            record s {
              contexts =
                  modify next (enter cpu_id switch_time) (modify s.current (leave switch_time) m);
              current = next;
            },
          )
        ]
]
