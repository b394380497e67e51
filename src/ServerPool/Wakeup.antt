-- ===== src/ServerPool/Wakeup.antt =====
-- No request is left while every worker sleeps, and no thread waits for ever for another.
use Prim.Native.Nat.{◌<◌}
use c_language_learnning.Base.{
  ℕ, zero, suc, ◌≡◌, ◌≢◌, refl, true, false, List, [], ◌∷◌, ◌⊎◌, inl, inr, arith, length,
  Bool-cases,
}
use c_language_learnning.Base.Threads.{total-positive}
use c_language_learnning.ConnPool
use c_language_learnning.ConnPool.Progress.{not_stuck}
use c_language_learnning.ServerPool.{
  Pc, waiting, woken, locked, found_empty, popped, handling, processing, idle, appending, refused,
  pushed, appended, wait, State, Reach,
}
use c_language_learnning.ServerPool.Queue.{claims, critical, bit, Reach-Inv}
use c_language_learnning.ServerPool.Conns.{conn, Reach-view}
use c_language_learnning.ServerPool.Goes.{
  Goes, conn-Goes, critical-Goes, claims-Goes, appended-Goes, handling-Goes, appending-Goes,
  connecting-Goes, conn-cases,
}

-- Some thread among the `n` of a state is a worker or in a call, and can go on.
pub record Busy (n : ℕ) (s : State) : Type 0 where
  pub who : ℕ
  pub low : who < n
  pub inside : s.pc who ≢ idle
  pub goes : Goes s.shared (s.pc who)

zero-cases : (n : ℕ) → (n ≡ 0) ⊎ ((m : ℕ) × (n ≡ suc m))
zero-cases zero = inl refl
zero-cases (suc n) = inr (n, refl)

length-positive : (xs : List ℕ) → xs ≢ [] → 0 < length xs
length-positive [] h = absurd (h refl)
length-positive (x ∷ xs) h = omega arith

module _ {n : ℕ} {p0 : ConnPool.Pool} {s : State} (r : Reach n p0 s) where
  found : (j : ℕ) → j < n → (s.pc j ≢ idle) × Goes s.shared (s.pc j) → Busy n s
  found j l (ne, g) = record { who = j; low = l; inside = ne; goes = g }

  -- The thread that has the queue's mutex.
  owner : s.shared.queue.m_queuelocker ≡ true → Busy n s
  owner taken =
      let one : bit s.shared.queue.m_queuelocker ≡ 1 = rw taken refl in
      let (j, l, here) =
        total-positive (λ j. critical (s.pc j)) n (omega (arith, one, (Reach-Inv r).mutex)) in
      found j l (critical-Goes s.shared (s.pc j) here)

  -- A thread of the pool of connections.
  user : (i : ℕ) → i < n → conn (s.pc i) ≢ ConnPool.outside → Busy n s
  user i l ne =
      let w = not_stuck (Reach-view r) i l ne in
      found w.who w.low (conn-Goes s.shared (s.pc w.who) w.inside w.goes)

  -- While a request is queued: a worker, or a thread that owes or has taken the permit.
  waker :
      (i : ℕ)
      → i < n
      → s.pc i ≡ waiting
      → s.shared.queue.m_workqueue ≢ []
      → s.shared.queue.m_queuelocker ≡ false
      → Busy n s
  waker i l at some_left free = elim (zero-cases s.shared.queue.m_queuestat) [
    | inl used_up ↦
        let some_there = length-positive s.shared.queue.m_workqueue some_left in
        let (j, lj, here) =
          total-positive (λ j. claims (s.pc j)) n
            (omega (arith, (Reach-Inv r).permits, used_up, some_there)) in
        found j lj (claims-Goes s.shared (s.pc j) free here)
    | inr (m, left) ↦ found i l (
        rw at (
          λ q. cc,
          (record s.shared { queue = record s.shared.queue { m_queuestat = m } }, woken, wait left),
        ))
  ]

  free_busy :
      (i : ℕ) (c : Pc)
      → i < n
      → s.pc i ≡ c
      → c ≢ idle
      → (c ≡ waiting → s.shared.queue.m_workqueue ≢ [])
      → s.shared.queue.m_queuelocker ≡ false
      → Busy n s
  unfolding claims critical conn
  free_busy i waiting l at ne left free = waker i l at (left refl) free
  free_busy i woken l at ne left free =
      found i l (rw at (claims-Goes s.shared woken free (omega arith)))
  free_busy i locked l at ne left free =
      found i l (rw at (critical-Goes s.shared locked (omega arith)))
  free_busy i found_empty l at ne left free =
      found i l (rw at (critical-Goes s.shared found_empty (omega arith)))
  free_busy i (popped k) l at ne left free =
      found i l (rw at (critical-Goes s.shared (popped k) (omega arith)))
  free_busy i (handling k) l at ne left free = found i l (rw at (λ q. cc, handling-Goes s.shared k))
  free_busy i (processing k c) l at ne left free = elim (conn-cases c) [
    | inl out ↦
        found i l
          (rw at (rw out (λ q. cc, connecting-Goes s.shared k s.shared.conns.connlist refl)))
    | inr in_pool ↦ user i l (rw at in_pool)
  ]
  free_busy i idle l at ne left free = absurd (ne refl)
  free_busy i (appending k state) l at ne left free =
      found i l (rw at (λ q. cc, appending-Goes s.shared k state free))
  free_busy i refused l at ne left free =
      found i l (rw at (critical-Goes s.shared refused (omega arith)))
  free_busy i pushed l at ne left free =
      found i l (rw at (critical-Goes s.shared pushed (omega arith)))
  free_busy i appended l at ne left free = found i l (rw at (λ q. cc, appended-Goes s.shared))

-- In every state that the threads reach: if a thread is in `append` or `append_p`, or is a worker, one that waits for a request
-- only while one is queued, then some thread in a call or some worker can go on.
pub never_stuck :
    {n : ℕ} {p0 : ConnPool.Pool} {s : State} (i : ℕ)
    → Reach n p0 s
    → i < n
    → s.pc i ≢ idle
    → (s.pc i ≡ waiting → s.shared.queue.m_workqueue ≢ [])
    → Busy n s
never_stuck {n} {p0} {s} i r l ne left = elim (Bool-cases s.shared.queue.m_queuelocker) [
  | inl taken ↦ owner r taken
  | inr free ↦ free_busy r i (s.pc i) l refl ne left free
]
