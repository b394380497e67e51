-- ===== src/ServerPool/Tests.antt =====
-- A worker, a thread that appends one request, and one connection.
use Prim.Native.Nat.{◌<◌}
use c_language_learnning.Base.{
  ℕ, ◌≡◌, ◌≢◌, refl, ◌⊎◌, inl, inr, Bool, true, false, none, some, List, [], ◌∷◌, arith, ◌==◌,
  if◌then◌else◌, Bool-cases,
}
use c_language_learnning.Base.Threads.{update}
use c_language_learnning.ConnPool
use c_language_learnning.ServerPool.{
  Pool, handle, Request, Pc, waiting, woken, locked, popped, handling, processing, idle, appending,
  pushed, appended, wait, lock, pop, unlock_popped, connect, call, push, unlock_pushed, post, State,
  step, Reach, start, next,
}
use c_language_learnning.ServerPool.Queue.{Ordered}
use c_language_learnning.ServerPool.Fifo.{served_in_order}
use c_language_learnning.ServerPool.Wakeup.{Busy, never_stuck}

abbrev one : ConnPool.Pool
one = record {
  m_maxconn = 1;
  m_curconn = 0;
  m_freeconn = 1;
  lock = false;
  connlist = 7 ∷ [];
  reserve = 1;
}

one_made : ConnPool.init (some 7 ∷ []) ConnPool.connection_pool ≡ some one
unfolding ConnPool.init ConnPool.connect
one_made = refl

one_listed : one.connlist ≢ []
one_listed q = cc

abbrev blank : Request
blank = record { m_state = 0; improv = 0; timer_flag = 0 }

read_failed_run : handle 1 false true blank ≡ (record blank { improv = 1; timer_flag = 1 }, false)
unfolding handle
read_failed_run = refl

-- Thread 0 is a worker, the others append.
abbrev roles : ℕ → Pc
roles i = if i == 0 then waiting else idle

roles-either : (i : ℕ) → (roles i ≡ waiting) ⊎ (roles i ≡ idle)
roles-either i = elim (Bool-cases (i == 0)) [
  | inl here ↦ inl (rw here refl)
  | inr other ↦ inr (rw other refl)
]

abbrev queue_of : Bool → List ℕ → ℕ → List ℕ → List ℕ → Pool
queue_of b requests permits accepted taken = record {
  m_max_requests = 2;
  m_actor_model = 0;
  m_queuelocker = b;
  m_workqueue = requests;
  m_queuestat = permits;
  accepted = accepted;
  taken = taken;
}

abbrev requests_then : ℕ → Request
requests_then = update (λ i. blank) 5 blank

-- Request 5 is in the queue, and the worker waits.
abbrev queued : State
queued = record {
  shared = record {
    queue = queue_of true (5 ∷ []) 0 (5 ∷ []) [];
    conns = one;
    requests = requests_then;
  };
  pc = update (update roles 1 (appending 5 none)) 1 pushed;
}

queued-Reach : Reach 2 one queued
queued-Reach =
    next
      (next (start (some 7 ∷ []) 0 2 (λ i. blank) roles one_made roles-either)
        (step 1 (omega arith) (call 5 none)))
      (step 1 (omega arith) (push refl (omega arith)))

-- The worker has the mutex.
abbrev at_queue : State
at_queue = record {
  shared = record {
    queue = queue_of true (5 ∷ []) 0 (5 ∷ []) [];
    conns = one;
    requests = requests_then;
  };
  pc = update (update (update (update queued.pc 1 appended) 1 idle) 0 woken) 0 locked;
}

at_queue-Reach : Reach 2 one at_queue
at_queue-Reach =
    next
      (next
        (next (next queued-Reach (step 1 (omega arith) unlock_pushed)) (step 1 (omega arith) post))
        (step 0 (omega arith) (wait refl)))
      (step 0 (omega arith) (lock refl))

-- The worker is behind the test of the list of connections.
abbrev at_conns : State
at_conns = record {
  shared = record {
    queue = queue_of false [] 0 (5 ∷ []) (5 ∷ []);
    conns = one;
    requests = update requests_then 5 (handle 0 true true blank).0;
  };
  pc =
      update (update (update at_queue.pc 0 (popped 5)) 0 (handling 5)) 0
        (processing 5 ConnPool.checked);
}

processes : (handle 0 true true blank).1 ≡ true
unfolding handle
processes = refl

at_conns-Reach : Reach 2 one at_conns
at_conns-Reach =
    next
      (next (next at_queue-Reach (step 0 (omega arith) (pop refl)))
        (step 0 (omega arith) unlock_popped))
      (step 0 (omega arith) (connect true true (omega arith) processes (ConnPool.check one_listed)))

served_in_order_example :
    Ordered at_queue.shared.queue
    × ((i : ℕ) → i < 2 → at_queue.pc i ≡ locked → at_queue.shared.queue.m_workqueue ≢ [])
served_in_order_example = served_in_order at_queue-Reach

queued_left : queued.pc 0 ≡ waiting → queued.shared.queue.m_workqueue ≢ []
queued_left at q = cc

never_stuck_example : Busy 2 queued
never_stuck_example = never_stuck 0 queued-Reach (omega arith) (λ q. cc) queued_left
