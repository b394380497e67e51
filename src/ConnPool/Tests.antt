-- ===== src/ConnPool/Tests.antt =====
-- Pools of one connection, with threads at work.
use c_language_learnning.Base.{◌≡◌, ◌≢◌, refl, true, false, none, some, [], ◌∷◌, arith}
use c_language_learnning.Base.Threads.{update}
use c_language_learnning.ConnPool.{
  Pool, connection_pool, connect, init, destroy_pool, destroy_list, outside, checked, admitted,
  locked, got, check, wait, lock_get, front, State, step, Reach, start, next,
}
use c_language_learnning.ConnPool.Counts.{count, has, Inv, pool_agrees}
use c_language_learnning.ConnPool.Exclusion.{exclusive}

-- A pool with connection 7.
abbrev one : Pool
one = record {
  m_maxconn = 1;
  m_curconn = 0;
  m_freeconn = 1;
  lock = false;
  connlist = 7 ∷ [];
  reserve = 1;
}

one_made : init (some 7 ∷ []) connection_pool ≡ some one
unfolding init connect
one_made = refl

failed_run : init (some 7 ∷ none ∷ []) connection_pool ≡ none
unfolding init connect
failed_run = refl

closed_run : destroy_pool one ≡ (7 ∷ [], record one { m_freeconn = 0; connlist = [] })
unfolding destroy_pool destroy_list
closed_run = refl

abbrev at_start : State
at_start = record { pool = one; pc = λ i. outside }

abbrev at_work : State
at_work = record {
  pool = record {
    m_maxconn = 1;
    m_curconn = 1;
    m_freeconn = 0;
    lock = true;
    connlist = [];
    reserve = 0;
  };
  pc =
      update
        (update (update (update (update (λ i. outside) 0 checked) 1 checked) 0 admitted) 0 locked) 0
        (got 7);
}

some_listed : one.connlist ≢ []
some_listed q = cc

abbrev at_lock : State
at_lock = record {
  pool = record one { reserve = 0; lock = true };
  pc = update (update (update (update (λ i. outside) 0 checked) 1 checked) 0 admitted) 0 locked;
}

-- Threads 0 and 1 see the connection, and thread 0 gets the mutex.
at_lock-Reach : Reach 2 one at_lock
at_lock-Reach =
    next
      (next
        (next (next (start (some 7 ∷ []) one_made) (step 0 (omega arith) (check some_listed)))
          (step 1 (omega arith) (check some_listed)))
        (step 0 (omega arith) (wait refl)))
      (step 0 (omega arith) (lock_get refl))

at_work-Reach : Reach 2 one at_work
at_work-Reach = next at_lock-Reach (step 0 (omega arith) (front refl))

had_once : count 7 one.connlist ≡ 1
unfolding count
had_once = refl

has_it : has 7 (at_work.pc 0) ≡ 1
unfolding has
has_it = refl

exclusive_example : (has 7 (at_work.pc 1) ≡ 0) × (count 7 at_work.pool.connlist ≡ 0)
exclusive_example =
    exclusive 7 0 1 at_work-Reach had_once (omega arith) (omega arith) (omega arith) has_it

pool_agrees_example : Inv 2 one at_work
pool_agrees_example = pool_agrees at_work-Reach
