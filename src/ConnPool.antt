-- ===== src/ConnPool.antt =====
-- The pool of database connections of c-plus-plus-server/webserver/CGImysql/sql_connection_pool.cpp, and the threads that use it
-- through `connectionRAII`: any number of threads, one access at a time. What a thread does to the list and the
-- counters while it has the mutex is one step, as nobody else looks at them then but for the size of the list.
pub mod Counts
pub mod Exclusion
pub mod Progress
mod Tests
use c_language_learnning.Base.{
  ℕ, zero, suc, ◌+◌, ◌-◌, ◌<◌, ◌≡◌, ◌≢◌, Bool, true, false, Option, none, some, List, [], ◌∷◌, ◌++◌,
}
use c_language_learnning.Base.Threads.{update}

-- The members of `connection_pool`; a connection is its address, and `lock` is whether its mutex is taken.
pub record Pool : Type 0 where
  pub m_maxconn : ℕ
  pub m_curconn : ℕ
  pub m_freeconn : ℕ
  pub lock : Bool
  pub connlist : List ℕ
  pub reserve : ℕ

-- The constructor.
abbrev pub connection_pool : Pool
connection_pool = record {
  m_maxconn = 0;
  m_curconn = 0;
  m_freeconn = 0;
  lock = false;
  connlist = [];
  reserve = 0;
}

-- The loop of `init`, given what mysql_init and mysql_real_connect lead to in each round. `none`: `exit`.
unfoldable pub connect : List (Option ℕ) → Pool → Option Pool
connect [] p = some p
connect (none ∷ answers) p = none
connect (some con ∷ answers) p =
    connect answers
      (record p { connlist = p.connlist ++ (con ∷ []); m_freeconn = p.m_freeconn + 1 })

abbrev pub set_reserve : Option Pool → Option Pool
set_reserve none = none
set_reserve (some p) = some (record p { reserve = p.m_freeconn; m_maxconn = p.m_freeconn })

unfoldable pub init : List (Option ℕ) → Pool → Option Pool
init answers p = set_reserve (connect answers p)

-- In `GetConnection`, behind `front` of a list with `rest` behind its front.
abbrev pub pop : List ℕ → Pool → Pool
pop rest p = record p {
  connlist = rest;
  m_freeconn = p.m_freeconn - 1;
  m_curconn = p.m_curconn + 1;
}

-- In `ReleaseConnection`.
abbrev pub push : ℕ → Pool → Pool
push con p = record p {
  connlist = p.connlist ++ (con ∷ []);
  m_freeconn = p.m_freeconn + 1;
  m_curconn = p.m_curconn - 1;
}

-- `DestroyPool`: the connections that are closed, and the pool.
unfoldable pub destroy_list : List ℕ → Pool → List ℕ × Pool
destroy_list [] p = ([], p)
destroy_list (con ∷ cons) p =
    (con ∷ cons, record p { m_curconn = 0; m_freeconn = 0; connlist = [] })

unfoldable pub destroy_pool : Pool → List ℕ × Pool
destroy_pool p = destroy_list p.connlist p

-- Where a thread stands.
pub data Pc : Type 0 where
  outside : Pc
  -- in `GetConnection`: behind the test of the size, behind the semaphore, behind the mutex, and behind the counters
  checked admitted locked : Pc
  got : ℕ → Pc
  -- between the constructor and the destructor of `connectionRAII`, with what `GetConnection` returned
  using : Option ℕ → Pc
  -- in `ReleaseConnection`: behind the mutex, behind the counters, and behind `unlock`
  giving : ℕ → Pc
  given unlocked : Pc

-- One access of a thread.
pub data Move : Pool → Pc → Pool → Pc → Type 0 where
  refuse : {p : Pool} → p.connlist ≡ [] → Move p outside p (using none)
  check : {p : Pool} → p.connlist ≢ [] → Move p outside p checked
  wait : {p : Pool} {r : ℕ} → p.reserve ≡ suc r → Move p checked (record p { reserve = r }) admitted
  lock_get : {p : Pool} → p.lock ≡ false → Move p admitted (record p { lock = true }) locked
  -- there is no front of an empty list
  front :
      {p : Pool} {con : ℕ} {rest : List ℕ}
      → p.connlist ≡ con ∷ rest
      → Move p locked (pop rest p) (got con)
  unlock_get :
      {p : Pool} {con : ℕ} → Move p (got con) (record p { lock = false }) (using (some con))
  release_null : {p : Pool} → Move p (using none) p outside
  lock_release :
      {p : Pool} {con : ℕ}
      → p.lock ≡ false
      → Move p (using (some con)) (record p { lock = true }) (giving con)
  push_back : {p : Pool} {con : ℕ} → Move p (giving con) (push con p) given
  unlock_release : {p : Pool} → Move p given (record p { lock = false }) unlocked
  post : {p : Pool} → Move p unlocked (record p { reserve = p.reserve + 1 }) outside

pub record State : Type 0 where
  pub pool : Pool
  pub pc : ℕ → Pc

pub data Step (n : ℕ) (s : State) : State → Type 0 where
  step :
      (i : ℕ)
      → i < n
      → {p : Pool} {c : Pc} → Move s.pool (s.pc i) p c
      → Step n s (record { pool = p; pc = update s.pc i c })

-- What `n` threads reach from a pool that `init` made.
pub data Reach (n : ℕ) (p0 : Pool) : State → Type 0 where
  start :
      (answers : List (Option ℕ))
      → init answers connection_pool ≡ some p0
      → Reach n p0 (record { pool = p0; pc = λ i. outside })
  next : {s t : State} → Reach n p0 s → Step n s t → Reach n p0 t
