-- ===== src/ConnPool/Progress.antt =====
-- The threads of a pool of connections do not block each other.
use Prim.Native.Nat.{◌≤◌, ◌<◌}
use c_language_learnning.Base.{
  ℕ, zero, suc, ◌+◌, ◌≡◌, ◌≢◌, refl, true, false, none, some, List, [], ◌∷◌, ◌⊎◌, inl, inr, arith,
  length, ◌==◌, Bool-cases,
}
use c_language_learnning.Base.Threads.{total, total-positive}
use c_language_learnning.ConnPool.{
  Pool, Pc, outside, checked, admitted, locked, got, using, giving, given, unlocked, pop, push,
  Move, refuse, check, wait, lock_get, front, unlock_get, release_null, lock_release, push_back,
  unlock_release, post, State, step, Reach, start, next,
}
use c_language_learnning.ConnPool.Counts.{holds, claims, critical, bit, pool_agrees}
use c_language_learnning.ConnPool.Exclusion.{front_nonempty}

-- That a thread can go on.
abbrev pub Goes : Pool → Pc → Type 0
Goes p c = (p' : Pool) × (c' : Pc) × Move p c p' c'

front-Goes : (p : Pool) (xs : List ℕ) → p.connlist ≡ xs → xs ≢ [] → Goes p locked
front-Goes p [] e some_left = absurd (some_left refl)
front-Goes p (con ∷ rest) e some_left = (pop rest p, got con, front e)

-- A thread that does not wait for the semaphore, when the mutex is free or its own.
busy-Goes :
    (p : Pool) (c : Pc)
    → c ≢ outside
    → c ≢ checked
    → (p.lock ≡ false) ⊎ (critical c ≡ 1)
    → (c ≡ locked → p.connlist ≢ [])
    → Goes p c
unfolding critical
busy-Goes p outside ne nc free left = absurd (ne refl)
busy-Goes p checked ne nc free left = absurd (nc refl)
busy-Goes p admitted ne nc (inl free) left = (record p { lock = true }, locked, lock_get free)
busy-Goes p admitted ne nc (inr mine) left = absurd (omega (arith, mine))
busy-Goes p locked ne nc free left = front-Goes p p.connlist refl (left refl)
busy-Goes p (got con) ne nc free left = (record p { lock = false }, using (some con), unlock_get)
busy-Goes p (using none) ne nc free left = (p, outside, release_null)
busy-Goes p (using (some con)) ne nc (inl free) left =
    (record p { lock = true }, giving con, lock_release free)
busy-Goes p (using (some con)) ne nc (inr mine) left = absurd (omega (arith, mine))
busy-Goes p (giving con) ne nc free left = (push con p, given, push_back)
busy-Goes p given ne nc free left = (record p { lock = false }, unlocked, unlock_release)
busy-Goes p unlocked ne nc free left = (record p { reserve = p.reserve + 1 }, outside, post)

-- A thread that waits for the semaphore has seen a connection in the list, so that there are some.
record Seen (p0 : Pool) (s : State) : Type 0 where
  some_there : (i : ℕ) → s.pc i ≡ checked → 0 < length p0.connlist

length-positive : (xs : List ℕ) → xs ≢ [] → 0 < length xs
length-positive [] h = absurd (h refl)
length-positive (x ∷ xs) h = omega arith

Move-Seen :
    {p p' : Pool} {c c' : Pc} {m : ℕ}
    → Move p c p' c'
    → length p.connlist ≤ m
    → c' ≡ checked
    → 0 < m
Move-Seen (refuse e) l q = cc
Move-Seen {p} (check e) l q =
    let some_left = length-positive p.connlist e in omega (arith, l, some_left)
Move-Seen (wait e) l q = cc
Move-Seen (lock_get e) l q = cc
Move-Seen (front e) l q = cc
Move-Seen unlock_get l q = cc
Move-Seen release_null l q = cc
Move-Seen (lock_release e) l q = cc
Move-Seen push_back l q = cc
Move-Seen unlock_release l q = cc
Move-Seen post l q = cc

Reach-Seen : {n : ℕ} {p0 : Pool} {s : State} → Reach n p0 s → Seen p0 s
Reach-Seen (start answers e) = record { some_there = λ i q. cc }
Reach-Seen {n} {p0} (next {s} r (step i l {p} {c} m)) = record {
  some_there = λ j q. elim (Bool-cases (j == i)) [
    | inl here ↦ Move-Seen m (omega (arith, (pool_agrees r).held)) (rw here at q)
    | inr other ↦ (Reach-Seen r).some_there j (rw other at q)
  ];
}

-- Some thread among the `n` of a state is not outside, and can go on.
pub record Someone (n : ℕ) (s : State) : Type 0 where
  pub who : ℕ
  pub low : who < n
  pub inside : s.pc who ≢ outside
  pub goes : Goes s.pool (s.pc who)

critical-busy : (c : Pc) → 0 < critical c → (c ≢ outside) × (c ≢ checked) × (critical c ≡ 1)
unfolding critical
critical-busy locked h = (λ q. cc, λ q. cc, refl)
critical-busy (got con) h = (λ q. cc, λ q. cc, refl)
critical-busy (giving con) h = (λ q. cc, λ q. cc, refl)
critical-busy given h = (λ q. cc, λ q. cc, refl)
critical-busy outside h = absurd (omega (arith, h))
critical-busy checked h = absurd (omega (arith, h))
critical-busy admitted h = absurd (omega (arith, h))
critical-busy (using o) h = absurd (omega (arith, h))
critical-busy unlocked h = absurd (omega (arith, h))

claims-busy : (c : Pc) → 0 < claims c → (c ≢ outside) × (c ≢ checked)
unfolding claims
claims-busy outside h = absurd (omega (arith, h))
claims-busy checked h = absurd (omega (arith, h))
claims-busy admitted h = (λ q. cc, λ q. cc)
claims-busy locked h = (λ q. cc, λ q. cc)
claims-busy (got con) h = (λ q. cc, λ q. cc)
claims-busy (using o) h = (λ q. cc, λ q. cc)
claims-busy (giving con) h = (λ q. cc, λ q. cc)
claims-busy given h = (λ q. cc, λ q. cc)
claims-busy unlocked h = (λ q. cc, λ q. cc)

holds-busy : (c : Pc) → 0 < holds c → (c ≢ outside) × (c ≢ checked)
unfolding holds
holds-busy outside h = absurd (omega (arith, h))
holds-busy checked h = absurd (omega (arith, h))
holds-busy admitted h = (λ q. cc, λ q. cc)
holds-busy locked h = (λ q. cc, λ q. cc)
holds-busy (got con) h = (λ q. cc, λ q. cc)
holds-busy (using o) h = (λ q. cc, λ q. cc)
holds-busy (giving con) h = (λ q. cc, λ q. cc)
holds-busy given h = (λ q. cc, λ q. cc)
holds-busy unlocked h = (λ q. cc, λ q. cc)

checked-cases : (c : Pc) → (c ≡ checked) ⊎ (c ≢ checked)
checked-cases outside = inr (λ q. cc)
checked-cases checked = inl refl
checked-cases admitted = inr (λ q. cc)
checked-cases locked = inr (λ q. cc)
checked-cases (got con) = inr (λ q. cc)
checked-cases (using o) = inr (λ q. cc)
checked-cases (giving con) = inr (λ q. cc)
checked-cases given = inr (λ q. cc)
checked-cases unlocked = inr (λ q. cc)

zero-cases : (n : ℕ) → (n ≡ 0) ⊎ ((m : ℕ) × (n ≡ suc m))
zero-cases zero = inl refl
zero-cases (suc n) = inr (n, refl)

module _ {n : ℕ} {p0 : Pool} {s : State} (r : Reach n p0 s) where
  busy :
      (j : ℕ)
      → j < n
      → s.pc j ≢ outside
      → s.pc j ≢ checked
      → (s.pool.lock ≡ false) ⊎ (critical (s.pc j) ≡ 1)
      → Someone n s
  busy j l ne nc free = record {
    who = j;
    low = l;
    inside = ne;
    goes = busy-Goes s.pool (s.pc j) ne nc free (front_nonempty j r l);
  }

  -- The thread that has the mutex.
  owner : s.pool.lock ≡ true → Someone n s
  owner taken =
      let one : bit s.pool.lock ≡ 1 = rw taken refl in
      let (j, l, here) =
        total-positive (λ j. critical (s.pc j)) n (omega (arith, one, (pool_agrees r).mutex)) in
      let (ne, nc, mine) = critical-busy (s.pc j) here in busy j l ne nc (inr mine)

  -- While no permit is left, a thread with a connection, or one that has taken or owes a permit.
  user : s.pool.lock ≡ false → s.pool.reserve ≡ 0 → 0 < length p0.connlist → Someone n s
  user free used_up some_there =
      let v = pool_agrees r in
      elim (zero-cases (total (λ j. claims (s.pc j)) n)) [
        | inl no_claims ↦
            let (j, l, here) =
              total-positive (λ j. holds (s.pc j)) n
                (omega (arith, v.permits, v.held, used_up, some_there, no_claims)) in
            let (ne, nc) = holds-busy (s.pc j) here in busy j l ne nc (inl free)
        | inr (m, some_claims) ↦
            let (j, l, here) =
              total-positive (λ j. claims (s.pc j)) n (omega (arith, some_claims)) in
            let (ne, nc) = claims-busy (s.pc j) here in busy j l ne nc (inl free)
      ]

  -- A thread at the semaphore.
  waiter : (i : ℕ) → i < n → s.pc i ≡ checked → s.pool.lock ≡ false → Someone n s
  waiter i l at free = elim (zero-cases s.pool.reserve) [
    | inl used_up ↦ user free used_up ((Reach-Seen r).some_there i at)
    | inr (m, left) ↦ record {
      who = i;
      low = l;
      inside = λ q. cc;
      goes = rw at (record s.pool { reserve = m }, admitted, wait left);
    }
  ]

  -- While any thread is inside, from the test of the list's size to the semaphore's post, some thread that is inside can go on: the
  -- threads never wait for each other in a circle.
  pub not_stuck : (i : ℕ) → i < n → s.pc i ≢ outside → Someone n s
  not_stuck i l ne = elim (Bool-cases s.pool.lock) [
    | inl taken ↦ owner taken
    | inr free ↦ elim (checked-cases (s.pc i)) [
      | inl at ↦ waiter i l at free
      | inr nc ↦ busy i l ne nc (inl free)
    ]
  ]
