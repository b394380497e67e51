-- ===== src/SpinPool/Tests.antt =====
-- Runs of system-programming/threadpool/spinlock-version at small inputs, and the theorems at such
-- inputs.
use c_language_learnning.Base.{
  ℕ, ◌≤◌, ◌<◌, ◌≡◌, ◌≢◌, refl, none, some, true, false, List, [], ◌∷◌, ◌++◌, arith,
}
use c_language_learnning.SpinPool.TaskQueue.{Queue, create, next_of, store, add_task, pop_task}
use c_language_learnning.SpinPool.TaskQueue.Shape.{Holds}
use c_language_learnning.SpinPool.TaskQueue.Fifo.{Op, post, take, run, fifo, run-fifo}
use c_language_learnning.SpinPool.Spinlock
use c_language_learnning.SpinPool.Spinlock.Exclusion.{mutual_exclusion}
use c_language_learnning.SpinPool.Pool
use c_language_learnning.SpinPool.Pool.Balance.{taken_by, takes}
use c_language_learnning.SpinPool.Pool.Handled.{takes_of, runs_of, in_hand, handled_in_order}
use c_language_learnning.SpinPool.Pool.Shutdown.{Stopped, rank, winds_down}
use c_language_learnning.SpinPool.Pool.Wakeup.{lost_wakeup}

abbrev no_tasks : Queue
no_tasks = create (λ p. 0)

no_tasks-Holds : Holds no_tasks []
no_tasks-Holds = record { links = refl; tail = refl }

abbrev one_task : Queue
one_task = record { head = 7; tail = next_of 7; next = λ p. 0 }

one_task-Holds : Holds one_task (7 ∷ [])
one_task-Holds = record { links = (refl, omega arith, refl, refl); tail = refl }

abbrev calls : List Op
calls = post 7 ∷ post 9 ∷ take ∷ take ∷ take ∷ []

fifo_runs : fifo [] calls ≡ some 7 ∷ some 9 ∷ none ∷ []
unfolding fifo
fifo_runs = refl

run-fifo_example : run no_tasks calls ≡ fifo [] calls
run-fifo_example =
    run-fifo calls no_tasks [] no_tasks-Holds (omega arith, refl, (omega arith, refl, tt))

-- Thread 0 takes the lock; thread 1 finds it taken.
abbrev taken_lock : Spinlock.State
taken_lock = record {
  lock = 1;
  pc = Spinlock.update (Spinlock.update Spinlock.init.pc 0 Spinlock.exchange) 0 Spinlock.critical;
}

taken_lock-Reach : Spinlock.Reach taken_lock
taken_lock-Reach =
    Spinlock.next (Spinlock.next Spinlock.start (Spinlock.step 0 Spinlock.enter))
      (Spinlock.step 0 (Spinlock.take refl))

mutual_exclusion_example : ◌≡◌ {A = ℕ} 0 0
mutual_exclusion_example = mutual_exclusion taken_lock-Reach 0 0 refl refl

-- `thread_pool_terminate` runs to its end before any worker starts.
abbrev ended : Pool.State
ended = record {
  flags = record {
    block = false;
    quit = true;
    posting = 0;
    signals = 0;
    stopping = 0;
    broadcasts = 0;
  };
  tasks = Pool.init.tasks;
  pc = λ i. Pool.top;
}

ended-Reach : Pool.Reach ended
ended-Reach =
    Pool.next
      (Pool.next (Pool.next Pool.start (Pool.client Pool.terminate)) (Pool.client Pool.nonblock))
      (Pool.broadcast (omega arith))

ended-Stopped : Stopped ended.flags
ended-Stopped = record { asked = refl; stored = refl; told = refl }

winds_down_example :
    (ended.pc 3 ≢ Pool.asleep)
    × (rank (ended.pc 3) ≤ 3)
    × (ended.pc 3 ≢ Pool.exited
        → (m : Queue) × (p : Pool.Pc) × Pool.Move ended.flags ended.tasks (ended.pc 3) m p)
    × ((m : Queue) (p : Pool.Pc)
        → Pool.Move ended.flags ended.tasks (ended.pc 3) m p
        → rank p < rank (ended.pc 3))
winds_down_example = winds_down ended-Reach ended-Stopped 3

lost_wakeup_example :
    (s : Pool.State) × Pool.Reach s
    × Holds s.tasks (5 ∷ [])
    × (s.flags ≡ Pool.init.flags)
    × ((i : ℕ) → i < 2 → s.pc i ≡ Pool.asleep)
lost_wakeup_example = lost_wakeup 2 5 (omega arith)

-- Tasks 5 and 6 are posted, and worker 1 takes the first of them.
abbrev two_tasks : Queue
two_tasks = add_task 6 (add_task 5 Pool.init.tasks)

abbrev left_task : Queue
left_task = record { head = 6; tail = next_of 6; next = two_tasks.next }

first_taken : pop_task two_tasks ≡ (some 5, left_task)
unfolding add_task pop_task store
first_taken = refl

abbrev working : Pool.State
working = record {
  flags = record {
    block = true;
    quit = false;
    posting = 0;
    signals = 2;
    stopping = 0;
    broadcasts = 0;
  };
  tasks = left_task;
  pc = Pool.update (Pool.update Pool.init.pc 1 Pool.popping) 1 (Pool.running 5);
}

abbrev working-Reach : Pool.Reach working
working-Reach =
    Pool.next
      (Pool.next
        (Pool.next
          (Pool.next
            (Pool.next (Pool.next Pool.start (Pool.client Pool.admit)) (Pool.client Pool.admit))
            (Pool.client (Pool.post_task 5 (omega arith))))
          (Pool.client (Pool.post_task 6 (omega arith))))
        (Pool.worker 1 (Pool.enter refl)))
      (Pool.worker 1 (Pool.pop_some first_taken))

takes_runs : takes working-Reach ≡ 5 ∷ []
unfolding takes taken_by
takes_runs = refl

handled_in_order_example :
    takes_of 1 working-Reach ≡ runs_of 1 working-Reach ++ in_hand (Pool.State.pc working 1)
handled_in_order_example = handled_in_order 1 working-Reach
