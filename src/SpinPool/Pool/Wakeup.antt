-- ===== src/SpinPool/Pool/Wakeup.antt =====
-- A signal that comes between `__pop_task` and `pthread_cond_wait` wakes nobody.
use Prim.Native.Nat.{◌≤◌, ◌<◌}
use mathlib.Core.Path.{subst, sym}
use c_language_learnning.Base.{ℕ, zero, suc, ◌≡◌, ◌≢◌, refl, arith, [], ◌∷◌}
use c_language_learnning.SpinPool.TaskQueue.{Queue, add_task}
use c_language_learnning.SpinPool.TaskQueue.Shape.{Holds, add_task-Holds, pop_task-nil}
use c_language_learnning.SpinPool.Pool.{
  Flags, Pc, top, popping, popping, empty, asleep, Move, enter, pop_null, sleep, admit, post_task,
  Workers, update, State, init, worker, client, signal_none, Reach, start, next,
}

-- The first `n` workers have found the queue empty.
found_empty : ℕ → Workers
found_empty zero = λ i. top
found_empty (suc n) = update (update (found_empty n) n popping) n empty

found_empty-top : (n i : ℕ) → n ≤ i → found_empty n i ≡ top
unfolding found_empty
found_empty-top zero i h = refl
found_empty-top (suc n) i h = ground (arith, found_empty-top n i)

found_empty-empty : (n i : ℕ) → i < n → found_empty n i ≡ empty
unfolding found_empty
found_empty-empty zero i h = absurd (omega arith)
found_empty-empty (suc n) i h = ground (arith, found_empty-empty n i)

found_empty-awake : (n i : ℕ) → found_empty n i ≢ asleep
unfolding found_empty
found_empty-awake zero i h = cc
found_empty-awake (suc n) i h = ground (arith, found_empty-awake n i)

-- The first `k` of them sleep.
sleeping : ℕ → ℕ → Workers
sleeping n zero = found_empty n
sleeping n (suc k) = update (sleeping n k) k asleep

sleeping-empty : (n k i : ℕ) → k ≤ i → i < n → sleeping n k i ≡ empty
unfolding sleeping
sleeping-empty n zero i h l = found_empty-empty n i l
sleeping-empty n (suc k) i h l = ground (arith, sleeping-empty n k i)

sleeping-asleep : (n k i : ℕ) → i < k → sleeping n k i ≡ asleep
unfolding sleeping
sleeping-asleep n zero i h = absurd (omega arith)
sleeping-asleep n (suc k) i h = ground (arith, sleeping-asleep n k i)

worker_step :
    {f : Flags} {t t' : Queue} {p p' : Pc} (w : Workers) (i : ℕ)
    → w i ≡ p
    → Move f t p t' p'
    → Reach (record { flags = f; tasks = t; pc = w })
    → Reach (record { flags = f; tasks = t'; pc = update w i p' })
worker_step {f} {t} {t'} {p} {p'} w i e mv r =
    next r (worker i (subst (λ q. Move f t q t' p') (sym e) mv))

no_tasks-Holds : Holds init.tasks []
no_tasks-Holds = record { links = refl; tail = refl }

Reach-found_empty :
    (n : ℕ) → Reach (record { flags = init.flags; tasks = init.tasks; pc = found_empty n })
unfolding found_empty
Reach-found_empty zero = start
Reach-found_empty (suc n) =
    worker_step (update (found_empty n) n popping) n (ground arith)
      (pop_null (pop_task-nil init.tasks no_tasks-Holds))
      (worker_step (found_empty n) n (found_empty-top n n (omega arith)) (enter refl)
        (Reach-found_empty n))

abbrev posted : ℕ → Queue
posted x = add_task x init.tasks

Reach-sleeping :
    (x n k : ℕ)
    → x ≢ 0
    → k ≤ n
    → Reach (record { flags = init.flags; tasks = posted x; pc = sleeping n k })
unfolding sleeping
Reach-sleeping x n zero ne h =
    next (next (next (Reach-found_empty n) (client admit)) (client (post_task x ne)))
      (signal_none (omega arith) (found_empty-awake n))
Reach-sleeping x n (suc k) ne h =
    worker_step (sleeping n k) k (sleeping-empty n k k (omega arith) (omega arith)) (sleep refl)
      (Reach-sleeping x n k ne (omega arith))

-- With any number `n` of workers a state can be reached in which a posted task is in the queue, all of the
-- `n` workers wait, and the flags are as at the start: no signal and no broadcast is pending.
pub lost_wakeup :
    (n x : ℕ)
    → x ≢ 0
    → (s : State) × Reach s
      × Holds s.tasks (x ∷ [])
      × (s.flags ≡ init.flags)
      × ((i : ℕ) → i < n → s.pc i ≡ asleep)
lost_wakeup n x ne = (
  record { flags = init.flags; tasks = posted x; pc = sleeping n n },
  Reach-sleeping x n n ne (omega arith),
  add_task-Holds x init.tasks [] no_tasks-Holds ne refl,
  refl,
  sleeping-asleep n n,
)
