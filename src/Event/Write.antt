-- ===== src/Event/Write.antt =====
-- `EventQueue::write` of src/event.rs: a process tells its queue which files it wants events of. The
-- parameters are the files of the context, with the scheme and the number behind each, and the
-- answers of the schemes to `fevent`, with EBADF where there is no such scheme.
use redox_kernel.Common.{
  ℕ, ◌≡◌, sym, refl, subst, arith, Option, none, some, List, [], ◌∷◌, Bool, true, false, ◌&&◌, ◌||◌,
  ◌==◌, if◌then◌else◌, length, Bool-cases, Option-cases, inl, inr, Errno, Result, ok, err, panic,
  Result-cases,
}
use redox_kernel.Event.{
  RegKey, QueueKey, Event, QueueList, Registry, same_reg, same_queue, change, remove_queue,
  insert_queue, register, queues_for, sync_flags,
}

-- The registry after some events, the triggers in their order, and what is returned
pub record Written : Type 0 where
  pub registry : Registry
  pub triggers : List (RegKey × ℕ)
  pub result : Result ℕ

module _ (event_scheme : ℕ) (files : ℕ → Option (ℕ × ℕ)) (fevent : RegKey → ℕ → Result ℕ) where
  -- `sync`
  unfoldable pub sync : RegKey → Registry → Result ℕ
  unfolding sync_flags
  sync key registry = fevent key (sync_flags key registry)

  -- `queue_id` is the queue's own.
  unfoldable pub is_own : ℕ → ℕ × ℕ → Bool
  is_own queue_id (scheme, number) = (scheme == event_scheme) && (number == queue_id)

  unfoldable pub trigger_if : RegKey → ℕ → Written → Written
  trigger_if key flags w =
      if flags == 0 then w else record w { triggers = (key, flags) ∷ w.triggers }

  -- The loop over the events; `count` is how many there are in all.
  unfoldable pub write_loop : ℕ → ℕ → List Event → Registry → Written
  unfolding sync register is_own trigger_if
  write_loop queue_id count [] r = record { registry = r; triggers = []; result = ok count }
  write_loop queue_id count (event ∷ events) r = elim (files event.id) [
    | none ↦ record { registry = r; triggers = []; result = err Errno.ebadf }
    | some file ↦
        let key : RegKey = record { scheme = file.0; number = file.1 } in
        let queue_key : QueueKey = record {
          queue = queue_id;
          id = event.id;
          payload = event.payload;
        } in
        let r1 = register key queue_key event.flags r in
        let rest = write_loop queue_id count events r1 in
        if is_own queue_id file
        then record { registry = r; triggers = []; result = err Errno.ebadf }
        else elim (sync key r1) [
          | panic ↦ record { registry = r1; triggers = []; result = panic }
          | err e ↦ record { registry = r1; triggers = []; result = err e }
          | ok flags ↦ trigger_if key flags rest
        ]
  ]

  unfoldable pub write : ℕ → List Event → Registry → Written
  unfolding write_loop
  write queue_id events r = write_loop queue_id (length events) events r

-- The queue is in the list.
abbrev pub lists_queue : ℕ → QueueList → Bool
lists_queue q [] = false
lists_queue q ((k, f) ∷ l) = (k.queue == q) || lists_queue q l

-- No queue is registered for its own events.
unfoldable pub IsIrreflexive : ℕ → Registry → Type 0
IsIrreflexive event_scheme r =
    (q : ℕ) → lists_queue q (queues_for (record { scheme = event_scheme; number = q }) r) ≡ false

remove_lists :
    (q : ℕ) (k : QueueKey) (l : QueueList)
    → lists_queue q l ≡ false
    → lists_queue q (remove_queue k l) ≡ false
remove_lists q k [] h = refl
remove_lists q k ((j, f) ∷ l) h = elim (Bool-cases (same_queue j k)) [
  | inl same ↦ ground (arith, same, h)
  | inr other ↦ ground (arith, other, h, remove_lists q k l)
]

insert_lists :
    (q : ℕ) (k : QueueKey) (f : ℕ) (l : QueueList)
    → (k.queue == q) ≡ false
    → lists_queue q l ≡ false
    → lists_queue q (insert_queue k f l) ≡ false
insert_lists q k f [] n h = ground (arith, n)
insert_lists q k f ((j, g) ∷ l) n h = elim (Bool-cases (same_queue j k)) [
  | inl same ↦ ground (arith, same, h, n)
  | inr other ↦ ground (arith, other, h, insert_lists q k f l n)
]

change_lists :
    (q : ℕ) (k : QueueKey) (f : ℕ) (l : QueueList)
    → (k.queue == q) ≡ false
    → lists_queue q l ≡ false
    → lists_queue q (change k f l) ≡ false
change_lists q k f l n h = elim (Bool-cases (f == 0)) [
  | inl e ↦ rw e (remove_lists q k l h)
  | inr e ↦ rw e (insert_lists q k f l n h)
]

-- A change of one file's queues keeps a queue out of another list, and out of this one if it is
-- another queue.
register_lists :
    (q : ℕ) (key at : RegKey) (k : QueueKey) (f : ℕ) (r : Registry)
    → (same_reg at key ≡ true → (k.queue == q) ≡ false)
    → lists_queue q (queues_for key r) ≡ false
    → lists_queue q (queues_for key (register at k f r)) ≡ false
unfolding register
register_lists q key at k f [] n h = elim (Bool-cases (same_reg at key)) [
  | inl same ↦ rw same (change_lists q k f [] (n same) refl)
  | inr other ↦ rw other refl
]
register_lists q key at k f ((j, l) ∷ r) n h = elim (Bool-cases (same_reg j at)) [
  | inl here ↦ elim (Bool-cases (same_reg j key)) [
    | inl found ↦
        let same : same_reg at key ≡ true = ground (arith, here, found) in
        let listed : lists_queue q l ≡ false = ground (arith, h, found) in
        rw (here, found) (change_lists q k f l (n same) listed)
    | inr past ↦
        let rest : lists_queue q (queues_for key r) ≡ false = ground (arith, h, past) in
        rw (here, past) rest
  ]
  | inr elsewhere ↦ elim (Bool-cases (same_reg j key)) [
    | inl found ↦
        let listed : lists_queue q l ≡ false = ground (arith, h, found) in
        rw (elsewhere, found) listed
    | inr past ↦
        let rest : lists_queue q (queues_for key r) ≡ false = ground (arith, h, past) in
        rw (elsewhere, past) (register_lists q key at k f r n rest)
  ]
]

trigger_if_registry :
    (event_scheme : ℕ) (files : ℕ → Option (ℕ × ℕ)) (fevent : RegKey → ℕ → Result ℕ) (key : RegKey)
    (flags : ℕ) (w : Written)
    → (trigger_if event_scheme files fevent key flags w).registry ≡ w.registry
unfolding trigger_if
trigger_if_registry event_scheme files fevent key flags w = elim (Bool-cases (flags == 0)) [
  | inl e ↦ rw e refl
  | inr e ↦ rw e refl
]

module _ (event_scheme : ℕ) (files : ℕ → Option (ℕ × ℕ)) (fevent : RegKey → ℕ → Result ℕ) where
  register-IsIrreflexive :
      (queue_id flags : ℕ) (file : ℕ × ℕ) (k : QueueKey) (r : Registry)
      → k.queue ≡ queue_id
      → is_own event_scheme files fevent queue_id file ≡ false
      → IsIrreflexive event_scheme r
      → IsIrreflexive event_scheme
          (register (record { scheme = file.0; number = file.1 }) k flags r)
  unfolding IsIrreflexive is_own
  register-IsIrreflexive queue_id flags file k r e n h q =
      register_lists q (record { scheme = event_scheme; number = q })
        (record { scheme = file.0; number = file.1 }) k flags r (λ same. ground (arith, same, n, e))
        (h q)

  write_loop-IsIrreflexive :
      (queue_id count : ℕ) (events : List Event) (r : Registry)
      → IsIrreflexive event_scheme r
      → IsIrreflexive event_scheme
          (write_loop event_scheme files fevent queue_id count events r).registry
  unfolding write_loop
  write_loop-IsIrreflexive queue_id count [] r h = h
  write_loop-IsIrreflexive queue_id count (event ∷ events) r h =
      elim (Option-cases (files event.id)) [
        | inl e ↦ rw (write_loop, e) h
        | inr (file, e) ↦ elim (Bool-cases (is_own event_scheme files fevent queue_id file)) [
          | inl own ↦ rw (write_loop, e, own) h
          | inr other ↦
              let key : RegKey = record { scheme = file.0; number = file.1 } in
              let k : QueueKey = record {
                queue = queue_id;
                id = event.id;
                payload = event.payload;
              } in
              let r1 = register key k event.flags r in
              let after = register-IsIrreflexive queue_id event.flags file k r refl other h in
              elim (Result-cases (sync event_scheme files fevent key r1)) [
                | inl bad ↦ rw (write_loop, e, other, bad) after
                | inr (inl (error, bad)) ↦ rw (write_loop, e, other, bad) after
                | inr (inr (flags, good)) ↦
                    rw (write_loop, e, other, good)
                      (subst (IsIrreflexive event_scheme)
                        (sym (trigger_if_registry event_scheme files fevent key flags _))
                        (write_loop-IsIrreflexive queue_id count events r1 after))
              ]
        ]
      ]

  -- Where no queue is registered for its own events, this is so after a write to a queue, whatever
  -- events it asks for and whether it succeeds.
  pub write-IsIrreflexive :
      (queue_id : ℕ) (events : List Event) (r : Registry)
      → IsIrreflexive event_scheme r
      → IsIrreflexive event_scheme (write event_scheme files fevent queue_id events r).registry
  unfolding write
  write-IsIrreflexive queue_id events r h =
      write_loop-IsIrreflexive queue_id (length events) events r h
