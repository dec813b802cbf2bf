-- ===== src/Context/Timeout.antt =====
-- src/context/timeout.rs: the registry of timeouts, and the pass over it that fires those that have
-- elapsed. The two clock numbers of redox_syscall are parameters.
pub mod Trigger
mod Tests
use redox_kernel.Common.{
  ℕ, zero, suc, ◌+◌, ◌*◌, ◌-◌, ◌≤◌, List, [], ◌∷◌, ◌++◌, Option, none, some, Bool, true, false, leb,
  ◌==◌, if◌then◌else◌, length, get_elem?,
}

-- `struct Timeout`; the time is in nanoseconds.
pub record Timeout : Type 0 where
  pub scheme_id : ℕ
  pub event_id : ℕ
  pub clock : ℕ
  pub time : ℕ

abbrev pub Registry : Type 0
Registry = List Timeout

-- src/time.rs
abbrev pub nanos_per_sec : ℕ
nanos_per_sec = 1000000000

-- The sum is a `u128`.
unfoldable pub register : Registry → ℕ → ℕ → ℕ → ℕ → ℕ → Registry
register registry scheme_id event_id clock tv_sec tv_nsec =
    registry
    ++ record {
      scheme_id = scheme_id;
      event_id = event_id;
      clock = clock;
      time = tv_sec * nanos_per_sec + tv_nsec;
    }
      ∷ []

-- `VecDeque::remove`: the element and the rest
abbrev pub remove_at : ℕ → Registry → Option (Timeout × Registry)
remove_at i [] = none
remove_at zero (t ∷ r) = some (t, r)
remove_at (suc i) (t ∷ r) = elim (remove_at i r) [
  | none ↦ none
  | some (found, rest) ↦ some (found, t ∷ rest)
]

module _ (clock_monotonic clock_realtime mono real : ℕ) where
  abbrev pub should_trigger : Timeout → Bool
  should_trigger t =
      if t.clock == clock_monotonic
      then leb t.time mono
      else if t.clock == clock_realtime
      then leb t.time real
      else true

  -- `TriggerAction`, with the registry and the index after it
  pub data TriggerAction : Type 0 where
    fire : Timeout → Registry → TriggerAction
    skip done panics : TriggerAction

  -- One turn of the loop, under the lock.
  unfoldable pub check : ℕ → Registry → TriggerAction
  check i registry = if leb (length registry) i then done else elim (get_elem? registry i) [
    | none ↦ panics
    | some t ↦
        if should_trigger t
        then elim (remove_at i registry) [
          | none ↦ panics
          | some (timeout, rest) ↦ fire timeout rest
        ]
        else skip
  ]

  -- The loop, on fuel: the timeouts that fired, in order, and the registry that is left; nothing if the
  -- fuel runs out or a turn panics.
  unfoldable pub trigger_loop : ℕ → ℕ → Registry → Option (List Timeout × Registry)
  trigger_loop zero i registry = none
  trigger_loop (suc fuel) i registry = elim (check i registry) [
    | done ↦ some ([], registry)
    | panics ↦ none
    | skip ↦ trigger_loop fuel (i + 1) registry
    | fire timeout rest ↦ elim (trigger_loop fuel i rest) [
      | none ↦ none
      | some (fired, left) ↦ some (timeout ∷ fired, left)
    ]
  ]

  -- Each turn moves past an entry or removes one.
  unfoldable pub trigger : Registry → Option (List Timeout × Registry)
  unfolding trigger_loop
  trigger registry = trigger_loop (length registry + 1) 0 registry
