-- ===== src/ServerPool/Fifo.antt =====
-- Requests are taken in the order in which they were appended.
use Prim.Native.Nat.{◌<◌}
use c_language_learnning.Base.{ℕ, ◌≡◌, ◌≢◌, refl, [], arith, length}
use c_language_learnning.Base.Threads.{le_total}
use c_language_learnning.ConnPool
use c_language_learnning.ServerPool.{locked, State, Reach}
use c_language_learnning.ServerPool.Queue.{claims, Ordered, Reach-Inv}

-- In every state that the threads reach, the requests that were appended are those that workers took, and behind them those in the
-- queue, in this order; the queue holds m_max_requests at most; and a worker that has got the mutex finds a request.
pub served_in_order :
    {n : ℕ} {p0 : ConnPool.Pool} {s : State}
    → Reach n p0 s
    → Ordered s.shared.queue × ((i : ℕ) → i < n → s.pc i ≡ locked → s.shared.queue.m_workqueue ≢ [])
unfolding claims
served_in_order {n} {p0} {s} r =
    let v = Reach-Inv r in
    (
      v.order,
      λ i l at e.
          let here = le_total (λ j. claims (s.pc j)) i n l in
          let one : claims (s.pc i) ≡ 1 = rw at refl in
          let nothing : length s.shared.queue.m_workqueue ≡ 0 = rw e refl in
          omega (arith, v.permits, here, one, nothing),
    )
