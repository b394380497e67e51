-- ===== src/ConnPool/Exclusion.antt =====
-- No connection is given to two threads, and none is lost.
use Prim.Native.Nat.{◌≤◌, ◌<◌}
use c_language_learnning.Base.{
  ℕ, ◌+◌, ◌≡◌, ◌≢◌, refl, List, [], ◌∷◌, inl, inr, arith, length, ltb, Bool-cases,
}
use c_language_learnning.Base.Threads.{total, total-zero, le_total, two_le_total}
use c_language_learnning.ConnPool.{Pool, outside, locked, destroy_list, destroy_pool, State, Reach}
use c_language_learnning.ConnPool.Counts.{count, has, holds, claims, pool_agrees}

two_le_total_either : (f : ℕ → ℕ) (i j n : ℕ) → i ≢ j → i < n → j < n → f i + f j ≤ total f n
two_le_total_either f i j n ne hi hj = elim (Bool-cases (ltb i j)) [
  | inl low ↦ two_le_total f i j n (ground (arith, low)) hj
  | inr high ↦ let h = two_le_total f j i n (ground (arith, high)) hi in omega (arith, h)
]

-- A connection that `init` put into the list once, and that a thread has, is in the list no more, and no other
-- thread has it.
pub exclusive :
    {n : ℕ} {p0 : Pool} {s : State} (k i j : ℕ)
    → Reach n p0 s
    → count k p0.connlist ≡ 1
    → i < n
    → j < n
    → i ≢ j
    → has k (s.pc i) ≡ 1
    → (has k (s.pc j) ≡ 0) × (count k s.pool.connlist ≡ 0)
exclusive {n} {p0} {s} k i j r once hi hj ne mine =
    let e = (pool_agrees r).each k in
    let both = two_le_total_either (λ t. has k (s.pc t)) i j n ne hi hj in
    (omega (arith, e, once, both, mine), omega (arith, e, once, both, mine))

-- A thread that has got the mutex in `GetConnection` finds a connection in the list.
pub front_nonempty :
    {n : ℕ} {p0 : Pool} {s : State} (i : ℕ)
    → Reach n p0 s
    → i < n
    → s.pc i ≡ locked
    → s.pool.connlist ≢ []
unfolding claims
front_nonempty {n} {p0} {s} i r l at e =
    let v = pool_agrees r in
    let here = le_total (λ j. claims (s.pc j)) i n l in
    let one : claims (s.pc i) ≡ 1 = rw at refl in
    let none_left : length s.pool.connlist ≡ 0 = rw e refl in
    omega (arith, v.permits, here, one, none_left)

count-destroy_list : (k : ℕ) (xs : List ℕ) (p : Pool) → count k (destroy_list xs p).0 ≡ count k xs
unfolding destroy_list
count-destroy_list k [] p = refl
count-destroy_list k (x ∷ xs) p = refl

-- When no thread is inside, the semaphore and m_FreeConn are back at m_MaxConn, m_CurConn is 0, and `DestroyPool` closes each
-- connection as often as `init` made it.
pub all_back :
    {n : ℕ} {p0 : Pool} {s : State}
    → Reach n p0 s
    → ((i : ℕ) → i < n → s.pc i ≡ outside)
    → (s.pool.reserve ≡ s.pool.m_maxconn)
      × (s.pool.m_freeconn ≡ s.pool.m_maxconn)
      × (s.pool.m_curconn ≡ 0)
      × ((k : ℕ) → count k (destroy_pool s.pool).0 ≡ count k p0.connlist)
unfolding destroy_pool has holds claims
all_back {n} {p0} {s} r out =
    let v = pool_agrees r in
    let no_claims = total-zero (λ j. claims (s.pc j)) n (λ i l. rw (out i l) refl) in
    let no_holds = total-zero (λ j. holds (s.pc j)) n (λ i l. rw (out i l) refl) in
    (
      omega (arith, v.permits, v.held, v.most, no_claims, no_holds),
      omega (arith, v.free, v.held, v.most, no_holds),
      omega (arith, v.cur, no_holds),
      λ k.
          let each = v.each k in
          let none_has = total-zero (λ j. has k (s.pc j)) n (λ i l. rw (out i l) refl) in
          let closed = count-destroy_list k s.pool.connlist s.pool in
          omega (arith, each, none_has, closed),
    )
