-- ===== src/ThreadPool/Accounting.antt =====
-- The counters of the thread pool of server/src/threadpool.c, over every order of its operations.
use chatweb.Base.{
  ℕ, ◌+◌, ◌%◌, ◌^◌, ◌≡◌, refl, Bool, true, false, Option, none, some, arith, if◌then◌else◌,
  Bool-cases, inl, inr, subst,
}
use chatweb.ThreadPool.{
  Pool, Status, Priority, Task, threadpool_add_task, threadpool_add_urgent_task, get_next_task,
  destroy_task, threadpool_pause, threadpool_resume, link_task, next_id, new_task, count_submitted,
  count_completed, next_priority, queue_head, update, set_queue_head, is_running, is_full, is_null,
  same_address, success, low, normal, high, critical,
}

-- What was submitted and was not taken yet is in the queue.
abbrev pub Balanced : Pool → Type 0
Balanced pool =
    (pool.total_tasks_completed + pool.queue_length) % 2 ^ 64 ≡ pool.total_tasks_submitted % 2 ^ 64

-- One operation that runs under queue_mutex, on any arguments.
pub data Step : Pool → Pool → Type 0 where
  add :
      {pool pool' : Pool} {status : Status} (alloc_ok : Bool) (priority : Priority)
      (timeout_ms now : ℕ)
      → threadpool_add_task alloc_ok pool priority timeout_ms now ≡ some (status, pool')
      → Step pool pool'
  add_urgent :
      {pool : Pool} (alloc_ok : Bool) (now : ℕ)
      → Step pool (threadpool_add_urgent_task alloc_ok pool now).1
  take :
      {pool pool' : Pool} {p : Option ℕ} (now : ℕ)
      → get_next_task pool now ≡ some (p, pool')
      → Step pool pool'
  destroy : {pool : Pool} (p : ℕ) → Step pool (destroy_task pool p)
  pause : {pool : Pool} → Step pool (threadpool_pause pool)
  resume : {pool : Pool} → Step pool (threadpool_resume pool)

pub data Steps : Pool → Pool → Type 0 where
  done : {pool : Pool} → Steps pool pool
  and_then : {pool pool' pool'' : Pool} → Steps pool pool' → Step pool' pool'' → Steps pool pool''

count_submitted-Balanced :
    (pool pool' : Pool)
    → Balanced pool
    → pool'.total_tasks_completed ≡ pool.total_tasks_completed
    → pool'.queue_length ≡ pool.queue_length
    → pool'.total_tasks_submitted ≡ pool.total_tasks_submitted
    → Balanced (count_submitted pool')
count_submitted-Balanced pool pool' b e f g = omega arith

abbrev Holds : {A : Type 0} → (Pool → Type 0) → Option (A × Pool) → Type 0
Holds P none = Unit {0}
Holds P (some (a, pool)) = P pool

Holds-some :
    {A : Type 0} (P : Pool → Type 0) {r : Option (A × Pool)} {a : A} {pool : Pool}
    → r ≡ some (a, pool)
    → Holds P r
    → P pool
Holds-some P e h = subst (Holds P) e h

Holds-if :
    {A : Type 0} (P : Pool → Type 0) (b : Bool) (x y : Option (A × Pool))
    → Holds P x
    → Holds P y
    → Holds P (if b then x else y)
Holds-if P true x y h k = h
Holds-if P false x y h k = k

-- The three counters of `pool'` are those of `pool`.
abbrev SameCounts : Pool → Option Pool → Type 0
SameCounts pool none = Unit {0}
SameCounts pool (some pool') =
    (pool'.total_tasks_completed ≡ pool.total_tasks_completed)
    × (pool'.queue_length ≡ pool.queue_length)
    × (pool'.total_tasks_submitted ≡ pool.total_tasks_submitted)

SameCounts-if :
    (pool : Pool) (b : Bool) (x y : Option Pool)
    → SameCounts pool x
    → SameCounts pool y
    → SameCounts pool (if b then x else y)
SameCounts-if pool true x y h k = h
SameCounts-if pool false x y h k = k

SameCounts-elim :
    {A : Type 0} (pool : Pool) (o : Option A) (f : A → Option Pool)
    → ((a : A) → SameCounts pool (f a))
    → SameCounts pool (elim o [ none ↦ none | some a ↦ f a ])
SameCounts-elim pool none f h = tt
SameCounts-elim pool (some a) f h = h a

set_queue_head-SameCounts :
    (pool pool' : Pool) (priority : Priority) (p : Option ℕ)
    → SameCounts pool (some pool')
    → SameCounts pool (some (set_queue_head pool' priority p))
set_queue_head-SameCounts pool pool' low p h = h
set_queue_head-SameCounts pool pool' normal p h = h
set_queue_head-SameCounts pool pool' high p h = h
set_queue_head-SameCounts pool pool' critical p h = h

link_task-SameCounts :
    (pool : Pool) (priority : Priority) (task : Task)
    → SameCounts pool (link_task pool priority task)
unfolding link_task
link_task-SameCounts pool priority task =
    let stored = record pool { heap = update pool.heap task.task_id (some task) } in
    SameCounts-if pool (is_null (queue_head pool priority)) _ _
      (set_queue_head-SameCounts pool stored priority (some task.task_id) (refl, refl, refl))
      (SameCounts-elim pool pool.task_queue_tail _
        (λ t. SameCounts-elim pool (pool.heap t) _ (λ last. (refl, refl, refl))))

Holds-elim :
    {A B : Type 0} (P : Pool → Type 0) (o : Option B) (x : Option (A × Pool))
    (f : B → Option (A × Pool))
    → Holds P x
    → ((b : B) → Holds P (f b))
    → Holds P (elim o [ none ↦ x | some b ↦ f b ])
Holds-elim P none x f h k = h
Holds-elim P (some b) x f h k = k b

submitted-Balanced :
    (pool : Pool) (o : Option Pool)
    → Balanced pool
    → SameCounts pool o
    → Holds {A = Status} Balanced
        (elim o [ none ↦ none | some pool' ↦ some (success, count_submitted pool') ])
submitted-Balanced pool none b s = tt
submitted-Balanced pool (some pool') b s = count_submitted-Balanced pool pool' b s.0 s.1 s.2

threadpool_add_task-Balanced :
    (alloc_ok : Bool) (pool : Pool) (priority : Priority) (timeout_ms now : ℕ)
    → Balanced pool
    → Holds Balanced (threadpool_add_task alloc_ok pool priority timeout_ms now)
unfolding threadpool_add_task
threadpool_add_task-Balanced alloc_ok pool priority timeout_ms now b =
    Holds-if Balanced (is_running pool.state) _ _
      (Holds-if Balanced (is_full pool) _ _ b (
        Holds-if Balanced alloc_ok _ _
          (submitted-Balanced pool
            (link_task (next_id pool) priority (new_task pool priority timeout_ms now none)) b
            (link_task-SameCounts (next_id pool) priority
              (new_task pool priority timeout_ms now none)))
          b))
      b

threadpool_add_urgent_task-Balanced :
    (alloc_ok : Bool) (pool : Pool) (now : ℕ)
    → Balanced pool
    → Balanced (threadpool_add_urgent_task alloc_ok pool now).1
unfolding threadpool_add_urgent_task
threadpool_add_urgent_task-Balanced alloc_ok pool now b =
    elim (Bool-cases (is_running pool.state)) [
      | inl r ↦ elim (Bool-cases alloc_ok) [
        | inl e ↦ rw (r, e) (count_submitted-Balanced pool pool b refl refl refl)
        | inr e ↦ rw (r, e) b
      ]
      | inr r ↦ rw r b
    ]

count_completed-Balanced :
    (pool pool' : Pool) (born now : ℕ)
    → Balanced pool
    → SameCounts pool (some pool')
    → Balanced (count_completed pool' born now)
count_completed-Balanced pool pool' born now b (e, f, g) = omega arith

get_next_task-Balanced :
    (pool : Pool) (now : ℕ) → Balanced pool → Holds Balanced (get_next_task pool now)
unfolding get_next_task
get_next_task-Balanced pool now b = Holds-elim Balanced (next_priority pool) _ _ b (λ priority.
    Holds-elim Balanced (queue_head pool priority) _ _ b (λ p.
      Holds-elim Balanced (pool.heap p) _ _ tt (λ task.
        count_completed-Balanced pool (taken priority p task.next) task.created_time now b
          (set_queue_head-SameCounts pool pool priority task.next (refl, refl, refl)))))
  where
    taken : Priority → ℕ → Option ℕ → Pool
    taken priority p next = record (set_queue_head pool priority next) {
      task_queue_tail = if same_address pool.task_queue_tail p then none else pool.task_queue_tail;
    }

-- Every operation keeps the balance of the counters.
Step-Balanced : {pool pool' : Pool} → Balanced pool → Step pool pool' → Balanced pool'
unfolding destroy_task threadpool_pause threadpool_resume
Step-Balanced {pool} b (add alloc_ok priority timeout_ms now e) =
    Holds-some Balanced e (threadpool_add_task-Balanced alloc_ok pool priority timeout_ms now b)
Step-Balanced {pool} b (add_urgent alloc_ok now) =
    threadpool_add_urgent_task-Balanced alloc_ok pool now b
Step-Balanced {pool} b (take now e) = Holds-some Balanced e (get_next_task-Balanced pool now b)
Step-Balanced b (destroy p) = b
Step-Balanced b pause = b
Step-Balanced b resume = b

-- Whatever operations run, in any order, the tasks that were submitted are those that were taken
-- and those in the queue, counted up to the wrap of the counters: so it is after them if it is so
-- before, as in a new pool.
pub Steps-Balanced : {pool pool' : Pool} → Balanced pool → Steps pool pool' → Balanced pool'
Steps-Balanced b done = b
Steps-Balanced b (and_then r s) = Step-Balanced (Steps-Balanced b r) s
