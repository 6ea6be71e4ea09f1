-- ===== src/Connection/MessageQueue.antt =====
-- The bounded message queue of server/src/connection.c. A message is an address, and 0 the null
-- pointer. What other threads do while a call waits on a condition variable is an argument.
pub mod Fifo
use chatweb.Base.{
  ℕ, zero, suc, ◌+◌, ◌-◌, ◌%◌, ◌≡◌, Bool, true, false, List, [], ◌∷◌, Option, none, some, ltb, leb,
  ◌==◌, if◌then◌else◌, get_or, set, replicate,
}

pub record MessageQueue : Type 0 where
  pub messages : List ℕ
  pub capacity : ℕ
  pub count : ℕ
  pub head : ℕ
  pub tail : ℕ

-- calloc leaves null pointers. The flags of the allocations and of the three initialisations.
unfoldable pub message_queue_create : Bool → ℕ → Option MessageQueue
message_queue_create false capacity = none
message_queue_create true capacity =
    some (record {
      messages = replicate capacity 0;
      capacity = capacity;
      count = 0;
      head = 0;
      tail = 0;
    })

-- How one wait on a condition variable ends: by the deadline, or with the queue as the thread finds
-- it when it holds the lock again.
pub data Wake : Type 0 where
  expired : Wake
  woken : MessageQueue → Wake

-- How a call ends: it returns a value with the queue, it gives up, or it waits still.
pub data Outcome {ℓ} (A : Type ℓ) : Type ℓ where
  returns : A → Outcome A
  gives_up : Outcome A
  waits : Outcome A

-- while (queue is not ready) wait: with no deadline (`timed` false) a wait cannot expire.
unfoldable pub await :
    Bool → (MessageQueue → Bool) → MessageQueue → List Wake → Outcome MessageQueue
await timed ready queue [] = if ready queue then returns queue else waits
await timed ready queue (expired ∷ wakes) =
    let rest = await timed ready queue wakes in
    if ready queue then returns queue else if timed then gives_up else rest
await timed ready queue (woken queue' ∷ wakes) =
    let rest = await timed ready queue' wakes in if ready queue then returns queue else rest

abbrev pub not_full : MessageQueue → Bool
not_full queue = ltb queue.count queue.capacity

abbrev pub not_empty : MessageQueue → Bool
not_empty queue = ltb 0 queue.count

unfoldable pub enqueue : MessageQueue → ℕ → MessageQueue
enqueue queue message = record queue {
  messages = set queue.messages queue.tail message;
  tail = (queue.tail + 1) % queue.capacity;
  count = queue.count + 1;
}

unfoldable pub dequeue : MessageQueue → ℕ × MessageQueue
dequeue queue = (
  get_or queue.messages queue.head 0,
  record queue { head = (queue.head + 1) % queue.capacity; count = queue.count - 1 },
)

-- 0, -1 and -2
pub data PushResult : Type 0 where
  pushed invalid timed_out : PushResult

-- A timeout that is not positive means none; it is given by the flag.
unfoldable pub message_queue_push :
    Bool → MessageQueue → ℕ → List Wake → Outcome (PushResult × MessageQueue)
message_queue_push timed queue message wakes =
    if message == 0 then returns (invalid, queue) else (elim (await timed not_full queue wakes) [
      | returns queue' ↦ returns (pushed, enqueue queue' message)
      | gives_up ↦ gives_up
      | waits ↦ waits
    ])

unfoldable pub message_queue_pop : Bool → MessageQueue → List Wake → Outcome (ℕ × MessageQueue)
message_queue_pop timed queue wakes = elim (await timed not_empty queue wakes) [
  | returns queue' ↦ returns (dequeue queue')
  | gives_up ↦ gives_up
  | waits ↦ waits
]

unfoldable pub message_queue_size : MessageQueue → ℕ
message_queue_size queue = queue.count

-- One round of the loop that frees: the messages freed so far, oldest first, and the array.
unfoldable pub clear_loop : ℕ → ℕ → ℕ → List ℕ → List ℕ × List ℕ
clear_loop zero capacity index messages = ([], messages)
clear_loop (suc n) capacity index messages =
    let (rest, messages') =
      clear_loop n capacity ((index + 1) % capacity)
        (if get_or messages index 0 == 0 then messages else set messages index 0) in
    (if get_or messages index 0 == 0 then rest else get_or messages index 0 ∷ rest, messages')

-- (head + i) % capacity goes up by one a round.
unfoldable pub message_queue_clear : MessageQueue → List ℕ × MessageQueue
unfolding clear_loop
message_queue_clear queue =
    let (freed, messages) =
      clear_loop queue.count queue.capacity (queue.head % queue.capacity) queue.messages in
    (freed, record queue { messages = messages; count = 0; head = 0; tail = 0 })
