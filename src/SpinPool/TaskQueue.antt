-- ===== src/SpinPool/TaskQueue.antt =====
-- The linked queue of system-programming/threadpool/spinlock-version/threadpool.c: `__add_task` and
-- `__pop_task`, as each runs while it holds the spinlock.
pub mod Shape
pub mod Fifo
use c_language_learnning.Base.{ℕ, Option, none, some, List, [], ◌∷◌, ◌==◌, if◌then◌else◌}

-- Addresses of tasks; 0 is NULL.
abbrev pub Ptr : Type 0
Ptr = ℕ

-- What a `void **` of the queue points to: its field `head`, or the field `next` of a task.
pub data Loc : Type 0 where
  head_field : Loc
  next_of : Ptr → Loc

-- The fields of `task_queue_t` that the lock protects, and the field `next` of every task.
pub record Queue : Type 0 where
  pub head : Ptr
  pub tail : Loc
  pub next : Ptr → Ptr

abbrev pub update : (Ptr → Ptr) → Ptr → Ptr → Ptr → Ptr
update f p v q = if q == p then v else f q

-- *loc = v
unfoldable pub store : Queue → Loc → Ptr → Queue
store m head_field v = record m { head = v }
store m (next_of p) v = record m { next = update m.next p v }

-- `task_queue->head = NULL; task_queue->tail = &task_queue->head`, of `__task_queue_create`.
abbrev pub create : (Ptr → Ptr) → Queue
create next = record { head = 0; tail = head_field; next = next }

-- The task's first field is `next`, so `(void **)task` is where that field is.
unfoldable pub add_task : Ptr → Queue → Queue
unfolding store
add_task task m =
    let cleared = store m (next_of task) 0 in
    let linked = store cleared cleared.tail task in record linked { tail = next_of task }

unfoldable pub pop_task : Queue → Option Ptr × Queue
pop_task m = if m.head == 0 then (none, m) else (
  some m.head,
  (if m.next m.head == 0
      then record m { head = m.next m.head; tail = head_field }
      else record m { head = m.next m.head }),
)
