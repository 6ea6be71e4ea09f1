-- ===== src/ThreadPool/Tail.antt =====
-- The one tail pointer of the three task lists of server/src/threadpool.c.
use chatweb.Base.{ℕ, ◌≡◌, refl, Bool, true, false, none, some, arith, ◌==◌}
use chatweb.ThreadPool.{
  Pool, State, threadpool_add_task, get_next_task, link_task, next_priority, Priority,
  count_completed,
}

same_id : (n : ℕ) → (n == n) ≡ true
same_id n = ground arith

-- A running pool without a limit on its queue, with no task in the high list and the task `p` first
-- in the normal list.
abbrev pub waiting_normal : Pool → ℕ → Pool
waiting_normal pool p = record pool {
  state = State.running;
  queue_size = 0;
  task_queue_high = none;
  task_queue_normal = some p;
}

-- Whether a high task can be added and the next task taken, and a normal task added then faults.
abbrev pub third_faults : Pool → ℕ → ℕ → Bool
third_faults pool timeout_ms now =
    elim (threadpool_add_task true pool Priority.high timeout_ms now) [
      | none ↦ false
      | some (status, pool') ↦ elim (get_next_task pool' now) [
        | none ↦ false
        | some (task, pool'') ↦
            elim (threadpool_add_task true pool'' Priority.normal timeout_ms now) [
              | none ↦ true
              | some r ↦ false
            ]
      ]
    ]

-- In a running pool without a limit on its queue, with a task in the normal list and none in the
-- high list: a task of high priority can be added, and the next task taken, but a task of normal
-- priority that is added after them ends in a fault.
threadpool_add_task-faults :
    (pool : Pool) (p timeout_ms now : ℕ)
    → third_faults (waiting_normal pool p) timeout_ms now ≡ true
unfolding threadpool_add_task get_next_task link_task next_priority
threadpool_add_task-faults pool p timeout_ms now =
    let e = same_id pool.task_counter in
    rw (e, third_faults, count_completed)
      (rw (e, threadpool_add_task, link_task, count_completed) refl)
