-- ===== src/ServerPool.antt =====
-- The pool of worker threads of c-plus-plus-server/webserver/threadpool/threadpool.h, with the threads that append requests to its
-- queue, and with the pool of database connections that the workers use while they process a request. Any number of threads, one
-- access at a time; what a thread does to the queue while it has the mutex is one step. What `read_once` and `write` of a
-- request return is given.
pub mod Queue
pub mod Fifo
pub mod Goes
pub mod Wakeup
pub mod Conns
mod Tests
use c_language_learnning.Base.{
  ℕ, zero, suc, ◌+◌, ◌-◌, ◌≤◌, ◌<◌, ◌≡◌, ◌≢◌, ◌⊎◌, Bool, true, false, Option, none, some, List, [],
  ◌∷◌, ◌++◌, length, ◌==◌, if◌then◌else◌,
}
use c_language_learnning.Base.Threads.{update}
use c_language_learnning.ConnPool

-- The members of `T` that the pool uses.
pub record Request : Type 0 where
  pub m_state : ℕ
  pub improv : ℕ
  pub timer_flag : ℕ

-- `threadpool`; a request is its address, 0 for NULL. Behind the members: every request that was appended, and
-- every one that a worker took, in order.
pub record Pool : Type 0 where
  pub m_max_requests : ℕ
  pub m_actor_model : ℕ
  pub m_queuelocker : Bool
  pub m_workqueue : List ℕ
  pub m_queuestat : ℕ
  pub accepted : List ℕ
  pub taken : List ℕ

-- The constructor, once the threads are there.
abbrev pub threadpool : ℕ → ℕ → Pool
threadpool actor_model max_requests = record {
  m_max_requests = max_requests;
  m_actor_model = actor_model;
  m_queuelocker = false;
  m_workqueue = [];
  m_queuestat = 0;
  accepted = [];
  taken = [];
}

-- What a worker does with a request, and whether it processes it with a connection.
unfoldable pub handle : ℕ → Bool → Bool → Request → Request × Bool
handle actor_model read_ok write_ok r =
    if actor_model == 1
    then (if r.m_state == 0
        then (if read_ok
            then (record r { improv = 1 }, true)
            else (record r { improv = 1; timer_flag = 1 }, false))
        else (if write_ok
            then (record r { improv = 1 }, false)
            else (record r { improv = 1; timer_flag = 1 }, false)))
    else (r, true)

-- `append` sets the state of the request, `append_p` does not.
abbrev pub set_state : Option ℕ → Request → Request
set_state none r = r
set_state (some state) r = record r { m_state = state }

-- In `append` and `append_p`, behind the test of the size.
abbrev pub push_back : ℕ → Pool → Pool
push_back r q = record q {
  m_queuelocker = true;
  m_workqueue = q.m_workqueue ++ (r ∷ []);
  accepted = q.accepted ++ (r ∷ []);
}

-- In `run`, behind `front` of a queue with `rest` behind its front.
abbrev pub pop_front : ℕ → List ℕ → Pool → Pool
pop_front r rest q = record q { m_workqueue = rest; taken = q.taken ++ (r ∷ []) }

-- Where a thread stands.
pub data Pc : Type 0 where
  -- in `run`: before and behind the semaphore, behind the mutex, behind an empty queue, and behind the queue
  waiting woken locked found_empty : Pc
  popped : ℕ → Pc
  -- with a request, before and in the scope of `mysqlcon`
  handling : ℕ → Pc
  processing : ℕ → ConnPool.Pc → Pc
  -- outside of `append` and `append_p`, and in them: before the mutex, behind the test or the queue, and behind `unlock`
  idle : Pc
  appending : ℕ → Option ℕ → Pc
  refused pushed appended : Pc

-- What the threads share.
pub record Shared : Type 0 where
  pub queue : Pool
  pub conns : ConnPool.Pool
  pub requests : ℕ → Request

abbrev pub locks : Bool → Pool → Pool
locks b q = record q { m_queuelocker = b }

-- One access of a thread.
pub data Move : Shared → Pc → Shared → Pc → Type 0 where
  wait :
      {x : Shared} {k : ℕ}
      → x.queue.m_queuestat ≡ suc k
      → Move x waiting (record x { queue = record x.queue { m_queuestat = k } }) woken
  lock :
      {x : Shared}
      → x.queue.m_queuelocker ≡ false
      → Move x woken (record x { queue = locks true x.queue }) locked
  empty : {x : Shared} → x.queue.m_workqueue ≡ [] → Move x locked x found_empty
  unlock_empty :
      {x : Shared} → Move x found_empty (record x { queue = locks false x.queue }) waiting
  pop :
      {x : Shared} {r : ℕ} {rest : List ℕ}
      → x.queue.m_workqueue ≡ r ∷ rest
      → Move x locked (record x { queue = pop_front r rest x.queue }) (popped r)
  unlock_popped :
      {x : Shared} {r : ℕ}
      → Move x (popped r) (record x { queue = locks false x.queue }) (handling r)
  skip_null : {x : Shared} → Move x (handling 0) x waiting
  handled :
      {x : Shared} {r : ℕ}
      → (read_ok write_ok : Bool) → r ≢ 0
      → (handle x.queue.m_actor_model read_ok write_ok (x.requests r)).1 ≡ false
      → Move x
          (handling r)
          (record x {
            requests =
                update x.requests r
                  (handle x.queue.m_actor_model read_ok write_ok (x.requests r)).0;
          })
          waiting
  -- the constructor of `mysqlcon` begins
  connect :
      {x : Shared} {r : ℕ} {p : ConnPool.Pool} {c : ConnPool.Pc}
      → (read_ok write_ok : Bool) → r ≢ 0
      → (handle x.queue.m_actor_model read_ok write_ok (x.requests r)).1 ≡ true
      → ConnPool.Move x.conns ConnPool.outside p c
      → Move x
          (handling r)
          (record x {
            conns = p;
            requests =
                update x.requests r
                  (handle x.queue.m_actor_model read_ok write_ok (x.requests r)).0;
          })
          (processing r c)
  work :
      {x : Shared} {r : ℕ} {p : ConnPool.Pool} {c c' : ConnPool.Pc}
      → ConnPool.Move x.conns c p c'
      → c' ≢ ConnPool.outside
      → Move x (processing r c) (record x { conns = p }) (processing r c')
  -- its destructor is through
  disconnect :
      {x : Shared} {r : ℕ} {p : ConnPool.Pool} {c : ConnPool.Pc}
      → ConnPool.Move x.conns c p ConnPool.outside
      → Move x (processing r c) (record x { conns = p }) waiting
  call : {x : Shared} → (r : ℕ) (state : Option ℕ) → Move x idle x (appending r state)
  full :
      {x : Shared} {r : ℕ} {state : Option ℕ}
      → x.queue.m_queuelocker ≡ false
      → x.queue.m_max_requests ≤ length x.queue.m_workqueue
      → Move x (appending r state) (record x { queue = locks true x.queue }) refused
  unlock_full : {x : Shared} → Move x refused (record x { queue = locks false x.queue }) idle
  push :
      {x : Shared} {r : ℕ} {state : Option ℕ}
      → x.queue.m_queuelocker ≡ false
      → length x.queue.m_workqueue < x.queue.m_max_requests
      → Move x
          (appending r state)
          (record x {
            queue = push_back r x.queue;
            requests = update x.requests r (set_state state (x.requests r));
          })
          pushed
  unlock_pushed : {x : Shared} → Move x pushed (record x { queue = locks false x.queue }) appended
  post :
      {x : Shared}
      → Move x appended
          (record x { queue = record x.queue { m_queuestat = x.queue.m_queuestat + 1 } })
          idle

pub record State : Type 0 where
  pub shared : Shared
  pub pc : ℕ → Pc

pub data Step (n : ℕ) (s : State) : State → Type 0 where
  step :
      (i : ℕ)
      → i < n
      → {x : Shared} {c : Pc} → Move s.shared (s.pc i) x c
      → Step n s (record { shared = x; pc = update s.pc i c })

-- What `n` threads, each a worker or one that appends, reach from new pools.
pub data Reach (n : ℕ) (p0 : ConnPool.Pool) : State → Type 0 where
  start :
      (answers : List (Option ℕ)) (actor_model max_requests : ℕ) (requests : ℕ → Request)
      (pc : ℕ → Pc)
      → ConnPool.init answers ConnPool.connection_pool ≡ some p0
      → ((i : ℕ) → (pc i ≡ waiting) ⊎ (pc i ≡ idle))
      → Reach n p0 (record {
        shared = record {
          queue = threadpool actor_model max_requests;
          conns = p0;
          requests = requests;
        };
        pc = pc;
      })
  next : {s t : State} → Reach n p0 s → Step n s t → Reach n p0 t
