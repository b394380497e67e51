-- ===== src/SpinPool/Pool.antt =====
-- The workers and the clients of system-programming/threadpool/spinlock-version/threadpool.c, as steps
-- of any number of threads, on the linked queue of TaskQueue. What `__add_task` and `__pop_task` do while they
-- hold the spinlock, which Spinlock gives to one thread at a time, is one step. A step under the mutex is
-- one step too, and so are a store, a signal and a broadcast. The field `next` of a task that a client adds is
-- cleared in the step that links it: nobody else sees the task before.
pub mod Shutdown
pub mod Wakeup
pub mod Balance
pub mod Handled
use c_language_learnning.Base.{
  ℕ, zero, suc, ◌+◌, ◌-◌, ◌≢◌, ◌≡◌, Option, none, some, Bool, true, false, ◌==◌, if◌then◌else◌,
}
use c_language_learnning.SpinPool.TaskQueue.{Queue, create, add_task, pop_task}

-- Where a worker stands in `__thread_pool_worker` and `__get_task`.
pub data Pc : Type 0 where
  -- before it reads `quit`
  top : Pc
  -- before `__pop_task`
  popping : Pc
  -- behind a `__pop_task` that returned NULL, before the mutex
  empty : Pc
  -- in `pthread_cond_wait`
  asleep : Pc
  -- in the handler of this task
  running : ℕ → Pc
  exited : Pc

pub record Flags : Type 0 where
  pub block : Bool
  pub quit : Bool
  -- calls of `thread_pool_post` between the test of `quit` and the queue, and between the queue and the
  -- signal
  pub posting : ℕ
  pub signals : ℕ
  -- calls of `thread_pool_terminate` between the store and `__nonblock`, and in `__nonblock` between the
  -- mutex and the broadcast
  pub stopping : ℕ
  pub broadcasts : ℕ

-- One step of a worker: it sees the flags and works on the queue; `finish` is the return of a handler.
pub data Move (f : Flags) : Queue → Pc → Queue → Pc → Type 0 where
  enter : {m : Queue} → f.quit ≡ false → Move f m top m popping
  leave : {m : Queue} → f.quit ≡ true → Move f m top m exited
  pop_some : {m m' : Queue} {x : ℕ} → pop_task m ≡ (some x, m') → Move f m popping m' (running x)
  pop_null : {m m' : Queue} → pop_task m ≡ (none, m') → Move f m popping m' empty
  -- `block` is read under the mutex, which the wait gives back
  sleep : {m : Queue} → f.block ≡ true → Move f m empty m asleep
  give_up : {m : Queue} → f.block ≡ false → Move f m empty m exited
  -- a wait may return with no signal; nothing obliges it to
  spurious : {m : Queue} → Move f m asleep m popping
  finish : {m : Queue} {x : ℕ} → Move f m (running x) m top

-- One step of a client, or of a worker's handler that posts.
pub data Call : Flags → Queue → Flags → Queue → Type 0 where
  -- `thread_pool_post` finds `quit` 0
  admit :
      {b : Bool} {p s k c : ℕ} {t : Queue}
      → Call
          (record {
            block = b;
            quit = false;
            posting = p;
            signals = s;
            stopping = k;
            broadcasts = c;
          })
          t
          (record {
            block = b;
            quit = false;
            posting = suc p;
            signals = s;
            stopping = k;
            broadcasts = c;
          })
          t
  -- `__add_task` up to the spinlock's release
  post_task :
      {b u : Bool} {p s k c : ℕ} {m : Queue} (x : ℕ)
      → x ≢ 0
      → Call
          (record {
            block = b;
            quit = u;
            posting = suc p;
            signals = s;
            stopping = k;
            broadcasts = c;
          })
          m
          (record {
            block = b;
            quit = u;
            posting = p;
            signals = suc s;
            stopping = k;
            broadcasts = c;
          })
          (add_task x m)
  -- `thread_pool_terminate`: the store, then the mutex of `__nonblock`
  terminate :
      {b u : Bool} {p s k c : ℕ} {t : Queue}
      → Call
          (record { block = b; quit = u; posting = p; signals = s; stopping = k; broadcasts = c })
          t
          (record {
            block = b;
            quit = true;
            posting = p;
            signals = s;
            stopping = suc k;
            broadcasts = c;
          })
          t
  nonblock :
      {b u : Bool} {p s k c : ℕ} {t : Queue}
      → Call
          (record {
            block = b;
            quit = u;
            posting = p;
            signals = s;
            stopping = suc k;
            broadcasts = c;
          })
          t
          (record {
            block = false;
            quit = u;
            posting = p;
            signals = s;
            stopping = k;
            broadcasts = suc c;
          })
          t

abbrev pub Workers : Type 0
Workers = ℕ → Pc

abbrev pub update : Workers → ℕ → Pc → Workers
update w i p j = if j == i then p else w j

abbrev pub woken : Pc → Pc
woken asleep = popping
woken top = top
woken popping = popping
woken empty = empty
woken (running x) = running x
woken exited = exited

pub record State : Type 0 where
  pub flags : Flags
  pub tasks : Queue
  pub pc : Workers

-- What the two calls of the condition variable leave of their caller's pending call.
abbrev pub signalled : Flags → Flags
signalled f = record f { signals = f.signals - 1 }

abbrev pub broadcasted : Flags → Flags
broadcasted f = record f { broadcasts = f.broadcasts - 1 }

pub data Step (s : State) : State → Type 0 where
  worker :
      (i : ℕ) {t : Queue} {p : Pc}
      → Move s.flags s.tasks (s.pc i) t p
      → Step s (record { flags = s.flags; tasks = t; pc = update s.pc i p })
  client :
      {f : Flags} {t : Queue}
      → Call s.flags s.tasks f t
      → Step s (record { flags = f; tasks = t; pc = s.pc })
  -- `pthread_cond_signal` wakes one of the waiting workers, and none when none waits
  signal :
      (i : ℕ)
      → s.flags.signals ≢ 0
      → s.pc i ≡ asleep
      → Step s (record { flags = signalled s.flags; tasks = s.tasks; pc = update s.pc i popping })
  signal_none :
      s.flags.signals ≢ 0
      → ((i : ℕ) → s.pc i ≢ asleep)
      → Step s (record { flags = signalled s.flags; tasks = s.tasks; pc = s.pc })
  broadcast :
      s.flags.broadcasts ≢ 0
      → Step s (record { flags = broadcasted s.flags; tasks = s.tasks; pc = λ i. woken (s.pc i) })

-- After `thread_pool_create`.
abbrev pub init : State
init = record {
  flags = record {
    block = true;
    quit = false;
    posting = 0;
    signals = 0;
    stopping = 0;
    broadcasts = 0;
  };
  tasks = create (λ p. 0);
  pc = λ i. top;
}

pub data Reach : State → Type 0 where
  start : Reach init
  next : {s t : State} → Reach s → Step s t → Reach t
