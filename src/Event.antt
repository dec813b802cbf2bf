-- ===== src/Event.antt =====
-- src/event.rs: which event queues want to know of which files, and how an event is passed on. The
-- order of a hash map's entries is that of the list that stands for it. An event is sent to a queue
-- that is `live`, which is to say in QUEUES; what `send` of the queue does is left to its reader. The
-- number of the event scheme is a parameter. The field `data` of a key and of an event is `payload`.
pub mod Deliveries
pub mod Trigger
pub mod Write
mod Tests
use redox_kernel.Common.{
  ℕ, zero, suc, ◌+◌, Option, none, some, List, [], ◌∷◌, ◌++◌, Bool, true, false, ◌&&◌, not, ◌==◌,
  if◌then◌else◌, bit_and, bit_or,
}

pub record RegKey : Type 0 where
  pub scheme : ℕ
  pub number : ℕ

pub record QueueKey : Type 0 where
  pub queue : ℕ
  pub id : ℕ
  pub payload : ℕ

pub record Event : Type 0 where
  pub id : ℕ
  pub flags : ℕ
  pub payload : ℕ

abbrev pub same_reg : RegKey → RegKey → Bool
same_reg a b = (a.scheme == b.scheme) && (a.number == b.number)

abbrev pub same_queue : QueueKey → QueueKey → Bool
same_queue a b = (a.queue == b.queue) && ((a.id == b.id) && (a.payload == b.payload))

abbrev pub QueueList : Type 0
QueueList = List (QueueKey × ℕ)

abbrev pub Registry : Type 0
Registry = List (RegKey × QueueList)

abbrev pub remove_queue : QueueKey → QueueList → QueueList
remove_queue k [] = []
remove_queue k ((j, f) ∷ l) = if same_queue j k then l else (j, f) ∷ remove_queue k l

abbrev pub insert_queue : QueueKey → ℕ → QueueList → QueueList
insert_queue k f [] = (k, f) ∷ []
insert_queue k f ((j, g) ∷ l) = if same_queue j k then (k, f) ∷ l else (j, g) ∷ insert_queue k f l

abbrev pub change : QueueKey → ℕ → QueueList → QueueList
change queue_key flags l =
    if flags == 0 then remove_queue queue_key l else insert_queue queue_key flags l

-- `register`; `or_default` enters a file that was not there.
unfoldable pub register : RegKey → QueueKey → ℕ → Registry → Registry
register reg_key queue_key flags [] = (reg_key, change queue_key flags []) ∷ []
register reg_key queue_key flags ((k, l) ∷ r) =
    if same_reg k reg_key
    then (k, change queue_key flags l) ∷ r
    else (k, l) ∷ register reg_key queue_key flags r

unfoldable pub unregister_file : RegKey → Registry → Registry
unregister_file key [] = []
unregister_file key ((k, l) ∷ r) = if same_reg k key then r else (k, l) ∷ unregister_file key r

-- The queues that are registered for a file
abbrev pub queues_for : RegKey → Registry → QueueList
queues_for key [] = []
queues_for key ((k, l) ∷ r) = if same_reg k key then l else queues_for key r

-- What `sync` passes to `fevent`: the flags of all registered queues
abbrev pub all_flags : QueueList → ℕ → ℕ
all_flags [] flags = flags
all_flags ((k, f) ∷ l) flags = all_flags l (bit_or flags f)

unfoldable pub sync_flags : RegKey → Registry → ℕ
sync_flags key registry = all_flags (queues_for key registry) 0

-- The events that a list of queues is sent, with the queue
abbrev pub sends : (ℕ → Bool) → ℕ → QueueList → List (ℕ × Event)
sends live flags [] = []
sends live flags ((k, f) ∷ l) =
    let common_flags = bit_and flags f in
    if not (common_flags == 0) && live k.queue
    then (k.queue, record { id = k.id; flags = common_flags; payload = k.payload })
      ∷ sends live flags l
    else sends live flags l

-- `todo.push` for each event
abbrev pub push_all : List (ℕ × Event) → List ℕ → List ℕ
push_all [] todo = todo
push_all ((q, e) ∷ s) todo = push_all s (q ∷ todo)

abbrev pub has : List ℕ → ℕ → Bool
has [] q = false
has (p ∷ l) q = if p == q then true else has l q

module _ (event_scheme event_read : ℕ) (live : ℕ → Bool) (registry : Registry) where
  -- `trigger_inner`
  unfoldable pub trigger_inner : RegKey → ℕ → List (ℕ × Event)
  trigger_inner key flags = sends live flags (queues_for key registry)

  -- What a queue passes on to the queues that it is registered with
  abbrev pub passed_on : ℕ → List (ℕ × Event)
  passed_on q = trigger_inner (record { scheme = event_scheme; number = q }) event_read

  abbrev pub sent_first : List (ℕ × Event) → Option (List (ℕ × Event)) → Option (List (ℕ × Event))
  sent_first first none = none
  sent_first first (some rest) = some (first ++ rest)

  -- The loop of `trigger`, with the top of the stack `todo` first: the events in the order they are
  -- sent; none where the fuel ends.
  unfoldable pub trigger_loop : ℕ → List ℕ → List ℕ → Option (List (ℕ × Event))
  trigger_loop zero todo done = none
  trigger_loop (suc n) [] done = some []
  trigger_loop (suc n) (q ∷ todo) done =
      let skipped = trigger_loop n todo done in
      let handled = trigger_loop n (push_all (passed_on q) todo) (q ∷ done) in
      if has done q then skipped else sent_first (passed_on q) handled

  unfoldable pub trigger : ℕ → RegKey → ℕ → Option (List (ℕ × Event))
  unfolding trigger_loop
  trigger fuel key flags =
      let first = trigger_inner key flags in
      sent_first first (trigger_loop fuel (push_all first []) [])
