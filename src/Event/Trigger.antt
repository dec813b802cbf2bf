-- ===== src/Event/Trigger.antt =====
-- `trigger` of src/event.rs: it ends, and asks every queue that an event reached once.
use redox_kernel.Common.{
  ℕ, zero, suc, ◌+◌, ◌≤◌, ◌<◌, ◌≡◌, refl, subst, Option, some, List, [], ◌∷◌, ◌++◌, Bool, true,
  false, ◌&&◌, ◌||◌, not, ◌==◌, if◌then◌else◌, length, arith, Bool-cases, inl, inr, ap, ◌∙◌,
  fun_ext,
}
use redox_kernel.Event.{
  RegKey, Event, QueueList, Registry, same_reg, queues_for, sends, push_all, has, trigger_inner,
  passed_on, trigger_loop, trigger,
}
use redox_kernel.Event.Deliveries.{
  Fresh, queue_ids, length-push_all, has-push_all, registered, deliveries, sends-deliveries,
  queues_for-registered, has-queue_ids, all_from, Spread, has-all_from,
}

length-sends :
    (live : ℕ → Bool) (flags : ℕ) (l : QueueList) → length (sends live flags l) ≤ length l
length-sends live flags [] = omega arith
length-sends live flags ((k, f) ∷ l) = ground (arith, length-sends live flags l)

-- How many registrations there are
abbrev pub registrations : Registry → ℕ
registrations [] = 0
registrations ((k, l) ∷ r) = length l + registrations r

-- How many of them are for queues that are not done
unfoldable pending : ℕ → List ℕ → Registry → ℕ
pending scheme done [] = 0
pending scheme done ((k, l) ∷ r) =
    (if (k.scheme == scheme) && not (has done k.number) then length l else 0)
    + pending scheme done r

pending-le : (scheme : ℕ) (done : List ℕ) (r : Registry) → pending scheme done r ≤ registrations r
unfolding pending
pending-le scheme done [] = omega arith
pending-le scheme done ((k, l) ∷ r) = ground (arith, pending-le scheme done r)

pending-more :
    (scheme q : ℕ) (done : List ℕ) (r : Registry)
    → pending scheme (q ∷ done) r ≤ pending scheme done r
unfolding pending
pending-more scheme q done [] = omega arith
pending-more scheme q done ((k, l) ∷ r) = ground (arith, pending-more scheme q done r)

pending-done :
    (scheme q : ℕ) (done : List ℕ) (r : Registry)
    → has done q ≡ false
    → pending scheme (q ∷ done) r + length (queues_for (record { scheme = scheme; number = q }) r)
      ≤ pending scheme done r
unfolding pending
pending-done scheme q done [] h = omega arith
pending-done scheme q done ((k, l) ∷ r) h =
    elim (Bool-cases (same_reg k (record { scheme = scheme; number = q }))) [
      | inl hit ↦
          let eq : k.number ≡ q = ground arith in
          ground (arith, hit, pending-more scheme q done r, eq, ap (has done) eq)
      | inr miss ↦ ground (arith, miss, pending-done scheme q done r h)
    ]

queues_for-le : (key : RegKey) (r : Registry) → length (queues_for key r) ≤ registrations r
queues_for-le key [] = omega arith
queues_for-le key ((k, l) ∷ r) = ground (arith, queues_for-le key r)

module _ (event_scheme event_read : ℕ) (live : ℕ → Bool) (registry : Registry) where
  -- The queues that are asked, from those that wait and those that are done.
  abbrev pub Asked : List ℕ → List ℕ → Option (List (ℕ × Event)) → Type 0
  Asked todo done result =
      (order : List ℕ) × (result
        ≡ some (all_from (passed_on event_scheme event_read live registry) order))
      × Fresh done order
      × ((q : ℕ) → has todo q ≡ true → (has done q || has order q) ≡ true)
      × ((p q : ℕ)
          → has order p ≡ true
          → has (queue_ids (passed_on event_scheme event_read live registry p)) q ≡ true
          → (has done q || has order q) ≡ true)
      × ((q : ℕ)
          → has order q ≡ true
          → (has todo q
              || has (queue_ids (all_from (passed_on event_scheme event_read live registry) order))
                  q)
            ≡ true)

  module _ (n q : ℕ) (todo done : List ℕ) where
    loop_skip :
        has done q ≡ true
        → trigger_loop event_scheme event_read live registry (suc n) (q ∷ todo) done
          ≡ trigger_loop event_scheme event_read live registry n todo done
    unfolding trigger_loop
    loop_skip h = rw (trigger_loop, h) refl

    loop_ask :
        (rest : List (ℕ × Event))
        → has done q ≡ false
        → trigger_loop event_scheme event_read live registry n
            (push_all (passed_on event_scheme event_read live registry q) todo)
            (q ∷ done)
          ≡ some rest
        → trigger_loop event_scheme event_read live registry (suc n) (q ∷ todo) done
          ≡ some (passed_on event_scheme event_read live registry q ++ rest)
    unfolding trigger_loop
    loop_ask rest h e = rw (trigger_loop, h) (rw e refl)

  passed_on-fewer :
      (q : ℕ)
      → length (passed_on event_scheme event_read live registry q)
        ≤ length (queues_for (record { scheme = event_scheme; number = q }) registry)
  unfolding trigger_inner
  passed_on-fewer q =
      length-sends live event_read
        (queues_for (record { scheme = event_scheme; number = q }) registry)

  first-fewer :
      (key : RegKey) (flags : ℕ)
      → length (trigger_inner event_scheme event_read live registry key flags)
        ≤ length (queues_for key registry)
  unfolding trigger_inner
  first-fewer key flags = length-sends live flags (queues_for key registry)

  trigger_loop_lem :
      (n : ℕ) (todo done : List ℕ)
      → length todo + pending event_scheme done registry < n
      → Asked todo done (trigger_loop event_scheme event_read live registry n todo done)
  unfolding trigger_loop
  trigger_loop_lem zero todo done h = absurd (omega arith)
  trigger_loop_lem (suc n) [] done h = ([], refl, tt, λ q e. cc, λ p q e f. cc, λ q e. cc)
  trigger_loop_lem (suc n) (q ∷ todo) done h = elim (Bool-cases (has done q)) [
    | inl again ↦
        let rest = trigger_loop_lem n todo done (omega arith) in
        (
          rest.0,
          loop_skip n q todo done again ∙ rest.1,
          rest.2,
          λ p e. elim (Bool-cases (q == p)) [
            | inl same ↦ let eq : q ≡ p = ground arith in ground (arith, again, ap (has done) eq)
            | inr other ↦ ground (arith, rest.3 p, e, other)
          ],
          rest.4,
          λ p e. ground (arith, rest.5 p, e),
        )
    | inr new ↦
        let mine = passed_on event_scheme event_read live registry q in
        let fewer = pending-done event_scheme q done registry new in
        let pushed = length-push_all mine todo in
        let short = passed_on-fewer q in
        let rest =
          trigger_loop_lem n (push_all mine todo) (q ∷ done)
            (omega (arith, fewer, pushed, short)) in
        (
          q ∷ rest.0,
          loop_ask n q todo done (all_from (passed_on event_scheme event_read live registry) rest.0)
              new rest.1,
          (new, rest.2),
          λ p e. ground (arith, rest.3 p, has-push_all mine todo p, e),
          λ p r e f. elim (Bool-cases (q == p)) [
            | inl same ↦
                let eq : p ≡ q = ground arith in
                let of_mine : has (queue_ids mine) r ≡ true =
                  subst
                    (λ x.
                      has (queue_ids (passed_on event_scheme event_read live registry x)) r ≡ true)
                    eq f in
                ground (arith, rest.3 r, has-push_all mine todo r, of_mine)
            | inr other ↦ ground (arith, rest.4 p r, e, f, other)
          ],
          λ p e. ground (
            arith,
            rest.5 p,
            e,
            has-push_all mine todo p,
            has-queue_ids mine (all_from (passed_on event_scheme event_read live registry) rest.0)
                p,
          ),
        )
  ]

  trigger-Spread :
      (n : ℕ) (key : RegKey) (flags : ℕ)
      → registrations registry + registrations registry < n
      → Spread
          (trigger_inner event_scheme event_read live registry key flags)
          (passed_on event_scheme event_read live registry)
          (trigger event_scheme event_read live registry n key flags)
  unfolding trigger
  trigger-Spread n key flags h =
      let first = trigger_inner event_scheme event_read live registry key flags in
      let next = passed_on event_scheme event_read live registry in
      let few : length first ≤ length (queues_for key registry) = first-fewer key flags in
      let rest = trigger_loop_lem n (push_all first []) [] (
        omega (
          arith,
          length-push_all first [],
          few,
          queues_for-le key registry,
          pending-le event_scheme [] registry,
        )) in
      (
        rest.0,
        rw (trigger, rest.1) refl,
        rest.2,
        λ q.
            let all = has-queue_ids first (all_from next rest.0) q in
            let pushed = has-push_all first [] q in
            elim (Bool-cases (has rest.0 q)) [
              | inl asked ↦ ground (arith, asked, rest.5 q, all, pushed)
              | inr never ↦ elim (Bool-cases (has (queue_ids (all_from next rest.0)) q)) [
                | inl passed ↦
                    let from = has-all_from next rest.0 q passed in
                    ground (arith, never, rest.4 from.0 q from.1 from.2)
                | inr none_passed ↦ ground (arith, never, none_passed, rest.3 q, all, pushed)
              ]
            ],
      )

  -- The events of a file, and those of a queue
  abbrev pub sent_for : RegKey → ℕ → List (ℕ × Event)
  sent_for key flags = deliveries live flags (registered key registry)

  trigger_inner-sent_for :
      (key : RegKey) (flags : ℕ)
      → trigger_inner event_scheme event_read live registry key flags ≡ sent_for key flags
  unfolding trigger_inner
  trigger_inner-sent_for key flags =
      sends-deliveries live flags (queues_for key registry)
      ∙ ap (deliveries live flags) (queues_for-registered key registry)

  -- With more fuel than twice the number of registrations, `trigger` ends. It first sends the events
  -- of the file: to each live queue that is registered for it and shares a flag with the event, in the
  -- order of the registrations, one with the id and payload of the registration and the common flags.
  -- It then asks queues, none twice, and exactly those that one of the events was sent to: a queue
  -- that is asked passes on, in the same way, the events of the file that it is itself.
  pub trigger-sent_for :
      (n : ℕ) (key : RegKey) (flags : ℕ)
      → registrations registry + registrations registry < n
      → Spread
          (sent_for key flags)
          (λ q. sent_for (record { scheme = event_scheme; number = q }) event_read)
          (trigger event_scheme event_read live registry n key flags)
  trigger-sent_for n key flags h =
      let next : passed_on event_scheme event_read live registry
          ≡ (λ q. sent_for (record { scheme = event_scheme; number = q }) event_read) =
        fun_ext
          (λ q. trigger_inner-sent_for (record { scheme = event_scheme; number = q }) event_read) in
      let done = trigger event_scheme event_read live registry n key flags in
      subst (λ f. Spread (sent_for key flags) f done) next
        (subst (λ l. Spread l (passed_on event_scheme event_read live registry) done)
          (trigger_inner-sent_for key flags) (trigger-Spread n key flags h))
