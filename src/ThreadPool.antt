-- ===== src/ThreadPool.antt =====
-- The thread pool of server/src/threadpool.c: its configuration, its three task lists with the one
-- tail pointer, and their counters. The operations stand for what runs under queue_mutex. `none` is
-- a fault: a null or dangling pointer is followed.
pub mod Config
pub mod Accounting
pub mod Tail
use chatweb.Base.{
  ℕ, ◌+◌, ◌-◌, ◌/◌, ◌%◌, ◌≡◌, Bool, true, false, ◌&&◌, Option, none, some, ltb, leb, ◌==◌,
  if◌then◌else◌,
}
use chatweb.Base.Memory.{add_size, sub_size}

pub data State : Type 0 where
  created running stopping stopped error : State

pub data Priority : Type 0 where
  low normal high critical : Priority

-- threadpool_error_t, as far as the operations here return it
pub data Status : Type 0 where
  success invalid_arg memory shutdown queue_full : Status

-- `next` is the address of a task.
pub record Task : Type 0 where
  pub task_id : ℕ
  pub priority : Priority
  pub created_time : ℕ
  pub timeout_ms : ℕ
  pub next : Option ℕ

abbrev pub Heap : Type 0
Heap = ℕ → Option Task

pub record Pool : Type 0 where
  pub state : State
  pub heap : Heap
  pub task_queue_high : Option ℕ
  pub task_queue_normal : Option ℕ
  pub task_queue_low : Option ℕ
  pub task_queue_tail : Option ℕ
  pub queue_size : ℕ
  pub queue_length : ℕ
  pub max_queue_length : ℕ
  pub total_tasks_submitted : ℕ
  pub total_tasks_completed : ℕ
  pub total_execution_time : ℕ
  pub average_wait_time : ℕ
  pub task_counter : ℕ

abbrev pub is_running : State → Bool
is_running running = true
is_running s = false

abbrev pub update : Heap → ℕ → Option Task → Heap
update heap p t q = if p == q then t else heap q

abbrev pub same_address : Option ℕ → ℕ → Bool
same_address none p = false
same_address (some q) p = q == p

abbrev pub is_null : Option ℕ → Bool
is_null none = true
is_null (some p) = false

-- The list that a priority goes to.
abbrev pub queue_head : Pool → Priority → Option ℕ
queue_head pool low = pool.task_queue_low
queue_head pool normal = pool.task_queue_normal
queue_head pool high = pool.task_queue_high
queue_head pool critical = pool.task_queue_high

abbrev pub set_queue_head : Pool → Priority → Option ℕ → Pool
set_queue_head pool low p = record pool { task_queue_low = p }
set_queue_head pool normal p = record pool { task_queue_normal = p }
set_queue_head pool high p = record pool { task_queue_high = p }
set_queue_head pool critical p = record pool { task_queue_high = p }

-- A task is allocated at the address that is its identifier, which no other task has had.
abbrev pub new_task : Pool → Priority → ℕ → ℕ → Option ℕ → Task
new_task pool priority timeout_ms now next = record {
  task_id = pool.task_counter;
  priority = priority;
  created_time = now;
  timeout_ms = timeout_ms;
  next = next;
}

-- The new task goes behind the tail, if its list is not empty.
unfoldable pub link_task : Pool → Priority → Task → Option Pool
link_task pool priority task =
    let stored = record pool { heap = update pool.heap task.task_id (some task) } in
    if is_null (queue_head pool priority)
    then some (record (set_queue_head stored priority (some task.task_id)) {
      task_queue_tail = some task.task_id;
    })
    else (elim pool.task_queue_tail [
      | none ↦ none
      | some t ↦ elim (pool.heap t) [
        | none ↦ none
        | some last ↦ some (record stored {
          heap = update stored.heap t (some (record last { next = some task.task_id }));
          task_queue_tail = some task.task_id;
        })
      ]
    ])

abbrev pub count_submitted : Pool → Pool
count_submitted pool =
    let n = add_size pool.queue_length 1 in
    record pool {
      queue_length = n;
      total_tasks_submitted = add_size pool.total_tasks_submitted 1;
      max_queue_length = if ltb pool.max_queue_length n then n else pool.max_queue_length;
    }

abbrev pub next_id : Pool → Pool
next_id pool = record pool { task_counter = add_size pool.task_counter 1 }

abbrev pub is_full : Pool → Bool
is_full pool = ltb 0 pool.queue_size && leb pool.queue_size pool.queue_length

-- The flag says whether the task can be allocated.
unfoldable pub threadpool_add_task : Bool → Pool → Priority → ℕ → ℕ → Option (Status × Pool)
threadpool_add_task alloc_ok pool priority timeout_ms now =
    if is_running pool.state
    then (if is_full pool
        then some (queue_full, pool)
        else if alloc_ok
        then (elim (link_task (next_id pool) priority
            (new_task pool priority timeout_ms now none)) [
              | none ↦ none
              | some pool' ↦ some (success, count_submitted pool')
            ])
        else some (memory, next_id pool))
    else some (shutdown, pool)

-- An urgent task goes to the front of the high list, however long the queue is.
unfoldable pub threadpool_add_urgent_task : Bool → Pool → ℕ → Status × Pool
threadpool_add_urgent_task alloc_ok pool now =
    if is_running pool.state
    then (if alloc_ok
        then (let task = new_task pool critical 0 now pool.task_queue_high in
            (
              success,
              count_submitted (record (next_id pool) {
                heap = update pool.heap task.task_id (some task);
                task_queue_high = some task.task_id;
                task_queue_tail =
                    if is_null pool.task_queue_tail
                    then some task.task_id
                    else pool.task_queue_tail;
              }),
            ))
        else (memory, next_id pool))
    else (shutdown, pool)

-- The list that the next task is taken from.
unfoldable pub next_priority : Pool → Option Priority
next_priority pool =
    if is_null pool.task_queue_high
    then if is_null pool.task_queue_normal
      then if is_null pool.task_queue_low then none else some low
      else some normal
    else some high

-- The counters after a task that was created at `born` is taken.
abbrev pub count_completed : Pool → ℕ → ℕ → Pool
count_completed pool born now =
    let completed = add_size pool.total_tasks_completed 1 in
    let total = add_size pool.total_execution_time (sub_size now born) in
    record pool {
      queue_length = sub_size pool.queue_length 1;
      total_tasks_completed = completed;
      total_execution_time = total;
      average_wait_time = if ltb 0 completed then total / completed else pool.average_wait_time;
    }

-- The task that is taken, if there is one, by its address.
unfoldable pub get_next_task : Pool → ℕ → Option (Option ℕ × Pool)
get_next_task pool now = elim (next_priority pool) [
  | none ↦ some (none, pool)
  | some priority ↦ elim (queue_head pool priority) [
    | none ↦ some (none, pool)
    | some p ↦ elim (pool.heap p) [
      | none ↦ none
      | some task ↦ some (
        some p,
        count_completed
            (record (set_queue_head pool priority task.next) {
              task_queue_tail =
                  if same_address pool.task_queue_tail p then none else pool.task_queue_tail;
            })
            task.created_time now,
      )
    ]
  ]
]

-- The end of a round of the worker: the task is freed.
unfoldable pub destroy_task : Pool → ℕ → Pool
destroy_task pool p = record pool { heap = update pool.heap p none }

unfoldable pub threadpool_pause : Pool → Pool
threadpool_pause pool = record pool { state = stopping }

unfoldable pub threadpool_resume : Pool → Pool
threadpool_resume pool = record pool { state = running }

unfoldable pub threadpool_get_task_count : Pool → ℕ
threadpool_get_task_count pool = pool.queue_length
