-- ===== src/Event/Deliveries.antt =====
-- What `trigger` of src/event.rs sends for a file, read off the registry, and how events spread from
-- queue to queue.
use redox_kernel.Common.{
  ℕ, ◌+◌, ◌≡◌, refl, Option, some, List, [], ◌∷◌, ◌++◌, Bool, true, false, ◌&&◌, ◌||◌, not, ◌==◌,
  if◌then◌else◌, length, arith, Bool-cases, inl, inr, map, bit_and,
}
use redox_kernel.Event.{
  RegKey, QueueKey, Event, QueueList, Registry, queues_for, sends, push_all, has,
}

-- Each queue is asked once, and none that is done.
abbrev pub Fresh : List ℕ → List ℕ → Type 0
Fresh done [] = Unit
Fresh done (q ∷ order) = (has done q ≡ false) × Fresh (q ∷ done) order

abbrev pub queue_ids : List (ℕ × Event) → List ℕ
queue_ids [] = []
queue_ids ((q, e) ∷ s) = q ∷ queue_ids s

pub length-push_all :
    (s : List (ℕ × Event)) (todo : List ℕ) → length (push_all s todo) ≡ length s + length todo
length-push_all [] todo = omega arith
length-push_all ((q, e) ∷ s) todo = omega (arith, length-push_all s (q ∷ todo))

pub has-push_all :
    (s : List (ℕ × Event)) (todo : List ℕ) (p : ℕ)
    → has (push_all s todo) p ≡ (has (queue_ids s) p || has todo p)
has-push_all [] todo p = refl
has-push_all ((q, e) ∷ s) todo p = ground (arith, has-push_all s (q ∷ todo) p)

-- The reference: the registrations of a file, which of them an event with some flags is for, and what
-- is sent to the queue.
abbrev pub registered : RegKey → Registry → QueueList
registered key [] = []
registered key ((k, l) ∷ r) =
    if (k.scheme == key.scheme) && (k.number == key.number) then l else registered key r

abbrev pub is_for : (ℕ → Bool) → ℕ → QueueKey × ℕ → Bool
is_for live flags (k, wanted) = live k.queue && not (bit_and flags wanted == 0)

abbrev pub event_for : ℕ → QueueKey × ℕ → ℕ × Event
event_for flags (k, wanted) =
    (k.queue, record { id = k.id; flags = bit_and flags wanted; payload = k.payload })

abbrev pub matching : (QueueKey × ℕ → Bool) → QueueList → QueueList
matching p [] = []
matching p (x ∷ l) = if p x then x ∷ matching p l else matching p l

abbrev pub deliveries : (ℕ → Bool) → ℕ → QueueList → List (ℕ × Event)
deliveries live flags l = map (event_for flags) (matching (is_for live flags) l)

pub sends-deliveries :
    (live : ℕ → Bool) (flags : ℕ) (l : QueueList) → sends live flags l ≡ deliveries live flags l
sends-deliveries live flags [] = refl
sends-deliveries live flags ((k, f) ∷ l) = ground (arith, sends-deliveries live flags l)

pub queues_for-registered : (key : RegKey) (r : Registry) → queues_for key r ≡ registered key r
queues_for-registered key [] = refl
queues_for-registered key ((k, l) ∷ r) = ground (arith, queues_for-registered key r)

pub has-queue_ids :
    (s t : List (ℕ × Event)) (q : ℕ)
    → has (queue_ids (s ++ t)) q ≡ (has (queue_ids s) q || has (queue_ids t) q)
has-queue_ids [] t q = refl
has-queue_ids ((p, e) ∷ s) t q = ground (arith, has-queue_ids s t q)

-- The events that the queues pass on, in the order in which they are asked
abbrev pub all_from : (ℕ → List (ℕ × Event)) → List ℕ → List (ℕ × Event)
all_from next [] = []
all_from next (q ∷ order) = next q ++ all_from next order

-- Some first events, and then those that queues pass on: no queue is asked twice, and exactly those
-- that one of the events was sent to are asked.
abbrev pub Spread : List (ℕ × Event) → (ℕ → List (ℕ × Event)) → Option (List (ℕ × Event)) → Type 0
Spread first next result =
    (order : List ℕ) × (result ≡ some (first ++ all_from next order))
    × Fresh [] order
    × ((q : ℕ) → has order q ≡ has (queue_ids (first ++ all_from next order)) q)

-- What a queue passes on is one of the events.
pub has-all_from :
    (next : ℕ → List (ℕ × Event)) (order : List ℕ) (q : ℕ)
    → has (queue_ids (all_from next order)) q ≡ true
    → (p : ℕ) × (has order p ≡ true) × (has (queue_ids (next p)) q ≡ true)
has-all_from next [] q h = cc
has-all_from next (p ∷ order) q h = elim (Bool-cases (has (queue_ids (next p)) q)) [
  | inl here ↦ (p, ground arith, here)
  | inr other ↦
      let rest =
        has-all_from next order q
          (ground (arith, h, other, has-queue_ids (next p) (all_from next order) q)) in
      (rest.0, ground (arith, rest.1), rest.2)
]
