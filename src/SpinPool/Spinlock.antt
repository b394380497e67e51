-- ===== src/SpinPool/Spinlock.antt =====
-- The spinlock of system-programming/threadpool/spinlock-version/spinlock.h, as it is built with the atomics of
-- C 2011: any number of threads, one atomic access at a time.
pub mod Exclusion
use Prim.Native.Nat.{◌≤◌}
use c_language_learnning.Base.{ℕ, ◌≡◌, ◌≢◌, Bool, true, false, ◌==◌, if◌then◌else◌}

-- Where a thread stands.
pub data Pc : Type 0 where
  -- outside
  idle : Pc
  -- in `spinlock_lock`, before the exchange
  exchange : Pc
  -- in `spinlock_lock`, in the inner loop
  wait : Pc
  -- in `spinlock_trylock`, between the load and the exchange
  try : Pc
  -- behind a lock that was taken
  critical : Pc

abbrev pub Threads : Type 0
Threads = ℕ → Pc

abbrev pub update : Threads → ℕ → Pc → Threads
update f i p j = if j == i then p else f j

-- One access of one thread to the word `lock`: the word and the place before and after.
pub data Move : ℕ → Pc → ℕ → Pc → Type 0 where
  -- `spinlock_lock` is called
  enter : {w : ℕ} → Move w idle w exchange
  -- the exchange finds 0 and takes the lock, or finds it taken and stores 1 again
  take : {w : ℕ} → w ≡ 0 → Move w exchange 1 critical
  taken : {w : ℕ} → w ≢ 0 → Move w exchange 1 wait
  -- the relaxed load of the inner loop
  busy : {w : ℕ} → w ≢ 0 → Move w wait w wait
  free : {w : ℕ} → w ≡ 0 → Move w wait w exchange
  -- `spinlock_trylock`: the load, then the exchange
  try_busy : {w : ℕ} → w ≢ 0 → Move w idle w idle
  try_free : {w : ℕ} → w ≡ 0 → Move w idle w try
  try_take : {w : ℕ} → w ≡ 0 → Move w try 1 critical
  try_taken : {w : ℕ} → w ≢ 0 → Move w try 1 idle
  -- `spinlock_unlock`
  unlock : {w : ℕ} → Move w critical 0 idle

pub record State : Type 0 where
  pub lock : ℕ
  pub pc : Threads

-- `spinlock_init`, with no thread inside.
abbrev pub init : State
init = record { lock = 0; pc = λ i. idle }

pub data Step (s : State) : State → Type 0 where
  step :
      (i : ℕ) {w : ℕ} {p : Pc}
      → Move s.lock (s.pc i) w p
      → Step s (record { lock = w; pc = update s.pc i p })

pub data Reach : State → Type 0 where
  start : Reach init
  next : {s t : State} → Reach s → Step s t → Reach t
