-- ===== src/SpinPool/Pool/Balance.antt =====
-- No task is lost, taken twice or overtaken, with any number of workers and clients on the linked queue.
use c_language_learnning.Base.{ℕ, ◌≡◌, false, List, [], ◌∷◌, ◌++◌}
use c_language_learnning.SpinPool.TaskQueue.{Queue}
use c_language_learnning.SpinPool.TaskQueue.Shape.{has, Holds}
use c_language_learnning.SpinPool.Pool.{
  Flags, Pc, Move, enter, leave, pop_some, pop_null, sleep, give_up, spurious, finish, Call, admit,
  post_task, terminate, nonblock, State, worker, client, signal, signal_none, broadcast, Reach,
  start, next,
}

-- The task that a worker's step takes, the task that a client's step puts into the queue.
unfoldable pub taken_by : {f : Flags} {m m' : Queue} {p p' : Pc} → Move f m p m' p' → List ℕ
taken_by (pop_some {x} e) = x ∷ []
taken_by (enter e) = []
taken_by (leave e) = []
taken_by (pop_null e) = []
taken_by (sleep e) = []
taken_by (give_up e) = []
taken_by spurious = []
taken_by finish = []

unfoldable pub posted_by : {f f' : Flags} {m m' : Queue} → Call f m f' m' → List ℕ
posted_by (post_task x ne) = x ∷ []
posted_by admit = []
posted_by terminate = []
posted_by nonblock = []

-- All the tasks that were taken, and all that were put into the queue, in order.
unfoldable pub takes : {s : State} → Reach s → List ℕ
takes start = []
takes (next r (worker i mv)) = takes r ++ taken_by mv
takes (next r (client call)) = takes r
takes (next r (signal i n h)) = takes r
takes (next r (signal_none n h)) = takes r
takes (next r (broadcast n)) = takes r

unfoldable pub posts : {s : State} → Reach s → List ℕ
posts start = []
posts (next r (worker i mv)) = posts r
posts (next r (client call)) = posts r ++ posted_by call
posts (next r (signal i n h)) = posts r
posts (next r (signal_none n h)) = posts r
posts (next r (broadcast n)) = posts r

-- No task is in a list twice.
unfoldable pub IsApart : List ℕ → Type 0
IsApart [] = Unit
IsApart (x ∷ xs) = (has x xs ≡ false) × IsApart xs

-- The queue holds what was put into it and not yet taken.
pub record Balanced (m : Queue) (ts ps : List ℕ) : Type 0 where
  pub rest : List ℕ
  pub holds : Holds m rest
  pub sum : ts ++ rest ≡ ps
