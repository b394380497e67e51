-- ===== src/SpinPool/TaskQueue/Fifo.antt =====
-- Any sequence of posts and takes behaves as on a first-in first-out list.
use c_language_learnning.Base.{◌≡◌, ◌≢◌, refl, ap, Option, none, some, false, List, [], ◌∷◌, ◌++◌}
use c_language_learnning.SpinPool.TaskQueue.{Ptr, Queue, add_task, pop_task}
use c_language_learnning.SpinPool.TaskQueue.Shape.{
  has, Holds, add_task-Holds, pop_task-nil, pop_task-cons,
}

pub data Op : Type 0 where
  post : Ptr → Op
  take : Op

-- The calls in the order in which they hold the lock, with what each take returns.
pub run : Queue → List Op → List (Option Ptr)
run m [] = []
run m (post t ∷ ops) = run (add_task t m) ops
run m (take ∷ ops) = (pop_task m).0 ∷ run (pop_task m).1 ops

-- The same on the list of the tasks, oldest first.
unfoldable pub fifo : List Ptr → List Op → List (Option Ptr)
fifo ts [] = []
fifo ts (post t ∷ ops) = fifo (ts ++ (t ∷ [])) ops
fifo [] (take ∷ ops) = none ∷ fifo [] ops
fifo (t ∷ ts) (take ∷ ops) = some t ∷ fifo ts ops

-- Each task that is posted is a task, and is not in the queue at that time.
abbrev pub Fresh : List Ptr → List Op → Type 0
Fresh ts [] = Unit
Fresh ts (post t ∷ ops) = (t ≢ 0) × (has t ts ≡ false) × Fresh (ts ++ (t ∷ [])) ops
Fresh [] (take ∷ ops) = Fresh [] ops
Fresh (t ∷ ts) (take ∷ ops) = Fresh ts ops

-- Whatever the order in which threads post and take, the takes return the tasks in the order in
-- which they were posted, each once, and NULL exactly when all have been taken.
pub run-fifo :
    (ops : List Op) (m : Queue) (ts : List Ptr)
    → Holds m ts
    → Fresh ts ops
    → run m ops ≡ fifo ts ops
unfolding run fifo
run-fifo [] m [] h f = refl
run-fifo [] m (t ∷ ts) h f = refl
run-fifo (post t ∷ ops) m [] h f =
    run-fifo ops (add_task t m) (t ∷ []) (add_task-Holds t m [] h f.0 f.1) f.2
run-fifo (post t ∷ ops) m (u ∷ ts) h f =
    run-fifo ops (add_task t m) (u ∷ (ts ++ (t ∷ []))) (add_task-Holds t m (u ∷ ts) h f.0 f.1) f.2
run-fifo (take ∷ ops) m [] h f = rw (pop_task-nil m h) (ap (λ r. none ∷ r) (run-fifo ops m [] h f))
run-fifo (take ∷ ops) m (t ∷ ts) h f =
    let (m', e, h', same) = pop_task-cons m t ts h in
    rw e (ap (λ r. some t ∷ r) (run-fifo ops m' ts h' f))
