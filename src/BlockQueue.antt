-- ===== src/BlockQueue.antt =====
-- The queue of c-plus-plus-server/webserver/log/block_queue.h: `block_queue`, a ring in an array. Each operation
-- runs under the mutex; what other threads do while `pop` waits is a parameter of `pop`.
pub mod Ring
pub mod Spec
pub mod Fifo
pub mod Front
mod Tests
use c_language_learnning.Base.{
  ℕ, zero, suc, ◌+◌, ◌-◌, ◌%◌, Option, none, some, Bool, true, false, List, [], ◌∷◌, leb, ◌==◌,
  if◌then◌else◌,
}
use c_language_learnning.Base.Int.{ℤ, pos, negsuc, neg}

pub record BlockQueue {ℓ} (T : Type ℓ) : Type ℓ where
  pub m_array : ℤ → T
  pub m_size : ℕ
  pub m_max_size : ℕ
  pub m_front : ℤ
  pub m_back : ℤ

-- (i + 1) % m_max_size
unfoldable pub next : ℕ → ℤ → ℤ
next max_size (pos i) = pos ((i + 1) % max_size)
next max_size (negsuc i) = neg (i % max_size)

-- m_array[i] = item
unfoldable pub put {ℓ} : {T : Type ℓ} → (ℤ → T) → ℤ → T → ℤ → T
put a (pos i) item (pos j) = if j == i then item else a (pos j)
put a (negsuc i) item (negsuc j) = if j == i then item else a (negsuc j)
put a i item j = a j

-- block_queue(max_size), where `a` is what `new T[max_size]` holds. `none`: exit.
unfoldable pub block_queue {ℓ} : {T : Type ℓ} → ℤ → (ℤ → T) → Option (BlockQueue T)
block_queue (negsuc n) a = none
block_queue (pos zero) a = none
block_queue (pos (suc n)) a =
    some (record {
      m_array = a;
      m_size = 0;
      m_max_size = suc n;
      m_front = negsuc 0;
      m_back = negsuc 0;
    })

unfoldable pub clear {ℓ} : {T : Type ℓ} → BlockQueue T → BlockQueue T
clear q = record q { m_size = 0; m_front = negsuc 0; m_back = negsuc 0 }

unfoldable pub full {ℓ} : {T : Type ℓ} → BlockQueue T → Bool
full q = leb q.m_max_size q.m_size

unfoldable pub is_empty {ℓ} : {T : Type ℓ} → BlockQueue T → Bool
is_empty q = 0 == q.m_size

unfoldable pub front {ℓ} : {T : Type ℓ} → BlockQueue T → Option T
front q = if 0 == q.m_size then none else some (q.m_array q.m_front)

unfoldable pub back {ℓ} : {T : Type ℓ} → BlockQueue T → Option T
back q = if 0 == q.m_size then none else some (q.m_array q.m_back)

unfoldable pub push {ℓ} : {T : Type ℓ} → T → BlockQueue T → Bool × BlockQueue T
push item q =
    let b = next q.m_max_size q.m_back in
    if leb q.m_max_size q.m_size
    then (false, q)
    else (true, record q { m_array = put q.m_array b item; m_size = q.m_size + 1; m_back = b })

-- The end of `pop`, once there is an item.
unfoldable pub take_front {ℓ} : {T : Type ℓ} → BlockQueue T → Option T × BlockQueue T
take_front q =
    let f = next q.m_max_size q.m_front in
    (some (q.m_array f), record q { m_size = q.m_size - 1; m_front = f })

-- pop(item), given how each wait ends: whether it failed, and the queue as the other threads have left
-- it. The outer `none`: it still waits.
unfoldable pub pop {ℓ} :
    {T : Type ℓ} → List (Bool × BlockQueue T) → BlockQueue T → Option (Option T × BlockQueue T)
pop [] q = if leb q.m_size 0 then none else some (take_front q)
pop ((failed, q') ∷ waits) q =
    let more = pop waits q' in
    if leb q.m_size 0 then (if failed then some (none, q') else more) else some (take_front q)

-- What pop(item, ms_timeout) does behind the wait.
unfoldable pub take_if {ℓ} : {T : Type ℓ} → BlockQueue T → Option T × BlockQueue T
take_if q = if leb q.m_size 0 then (none, q) else take_front q

-- pop(item, ms_timeout), given how its wait ends.
unfoldable pub pop_timeout {ℓ} :
    {T : Type ℓ} → Bool × BlockQueue T → BlockQueue T → Option T × BlockQueue T
pop_timeout (failed, q') q =
    if leb q.m_size 0 then (if failed then (none, q') else take_if q') else take_if q
