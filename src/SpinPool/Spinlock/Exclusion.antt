-- ===== src/SpinPool/Spinlock/Exclusion.antt =====
-- Mutual exclusion, and that a free lock can be taken.
use c_language_learnning.Base.{ℕ, zero, suc, ◌≡◌, ◌≢◌, refl, ◌⊎◌, inl, inr, arith}
use c_language_learnning.SpinPool.Spinlock.{
  Pc, critical, Threads, update, Move, enter, take, taken, busy, free, try_busy, try_free, try_take,
  try_taken, unlock, State, init, Step, step, Reach, start, next,
}

-- Two threads inside are one thread, and the word is 1 while one is inside and 0 while none is.
record Inv (s : State) : Type 0 where
  alone : (i j : ℕ) → s.pc i ≡ critical → s.pc j ≡ critical → i ≡ j
  held : (i : ℕ) → s.pc i ≡ critical → s.lock ≡ 1
  owned : s.lock ≢ 0 → (i : ℕ) × (s.pc i ≡ critical)

abbrev Inside : Threads → Type 0
Inside f = (j : ℕ) × (f j ≡ critical)

module _ {w : ℕ} {pc : Threads} (v : Inv (record { lock = w; pc = pc })) (i : ℕ) where
  Move-alone :
      {p p' : Pc} {w' : ℕ}
      → Move w p w' p'
      → pc i ≡ p
      → (j k : ℕ) → update pc i p' j ≡ critical
      → update pc i p' k ≡ critical
      → j ≡ k
  Move-alone enter e j k hj hk = ground (arith, v.alone j k)
  Move-alone (take z) e j k hj hk = ground (arith, v.alone j k, v.held j, v.held k)
  Move-alone (taken z) e j k hj hk = ground (arith, v.alone j k)
  Move-alone (busy z) e j k hj hk = ground (arith, v.alone j k)
  Move-alone (free z) e j k hj hk = ground (arith, v.alone j k)
  Move-alone (try_busy z) e j k hj hk = ground (arith, v.alone j k)
  Move-alone (try_free z) e j k hj hk = ground (arith, v.alone j k)
  Move-alone (try_take z) e j k hj hk = ground (arith, v.alone j k, v.held j, v.held k)
  Move-alone (try_taken z) e j k hj hk = ground (arith, v.alone j k)
  Move-alone unlock e j k hj hk = ground (arith, v.alone j k)

  Move-held :
      {p p' : Pc} {w' : ℕ}
      → Move w p w' p'
      → pc i ≡ p
      → (j : ℕ) → update pc i p' j ≡ critical
      → w' ≡ 1
  Move-held enter e j hj = ground (arith, v.held j)
  Move-held (take z) e j hj = refl
  Move-held (taken z) e j hj = ground (arith, v.held j)
  Move-held (busy z) e j hj = ground (arith, v.held j)
  Move-held (free z) e j hj = ground (arith, v.held j)
  Move-held (try_busy z) e j hj = ground (arith, v.held j)
  Move-held (try_free z) e j hj = ground (arith, v.held j)
  Move-held (try_take z) e j hj = refl
  Move-held (try_taken z) e j hj = ground (arith, v.held j)
  Move-held unlock e j hj = ground (arith, v.alone i j)

  -- Whoever was inside still is, unless it is the thread that moved.
  stays : {p : Pc} (p' : Pc) → p ≢ critical → pc i ≡ p → Inside pc → Inside (update pc i p')
  stays {p} p' d e (j, hj) = (j, ground (arith))

  moved : Inside (update pc i critical)
  moved = (i, ground (arith))

  Move-owned : {p p' : Pc} {w' : ℕ} → Move w p w' p' → pc i ≡ p → w' ≢ 0 → Inside (update pc i p')
  Move-owned enter e n = stays _ (λ h. cc) e (v.owned n)
  Move-owned (take z) e n = moved
  Move-owned (taken z) e n = stays _ (λ h. cc) e (v.owned z)
  Move-owned (busy z) e n = stays _ (λ h. cc) e (v.owned n)
  Move-owned (free z) e n = stays _ (λ h. cc) e (v.owned n)
  Move-owned (try_busy z) e n = stays _ (λ h. cc) e (v.owned n)
  Move-owned (try_free z) e n = stays _ (λ h. cc) e (v.owned n)
  Move-owned (try_take z) e n = moved
  Move-owned (try_taken z) e n = stays _ (λ h. cc) e (v.owned z)
  Move-owned unlock e n = absurd (n refl)

zero-cases : (n : ℕ) → (n ≡ 0) ⊎ (n ≢ 0)
zero-cases zero = inl refl
zero-cases (suc n) = inr (omega arith)

Step-Inv : {s t : State} → Inv s → Step s t → Inv t
Step-Inv {s} v (step i mv) = record {
  alone = Move-alone v i mv refl;
  held = Move-held v i mv refl;
  owned = Move-owned v i mv refl;
}

init-Inv : Inv init
init-Inv = record { alone = λ i j h k. cc; held = λ i h. cc; owned = λ n. absurd (n refl) }

Reach-Inv : {s : State} → Reach s → Inv s
Reach-Inv start = init-Inv
Reach-Inv (next r st) = Step-Inv (Reach-Inv r) st

-- Whatever the threads do, and in whatever order, two threads that are behind a taken lock are one
-- thread.
pub mutual_exclusion :
    {s : State} → Reach s → (i j : ℕ) → s.pc i ≡ critical → s.pc j ≡ critical → i ≡ j
mutual_exclusion r = (Reach-Inv r).alone

-- The lock is never lost: in every reachable state in which nobody is inside, the word is 0, so that the
-- next exchange takes the lock.
pub free_for_all : {s : State} → Reach s → ((i : ℕ) → s.pc i ≢ critical) → s.lock ≡ 0
free_for_all {s} r none_inside = elim (zero-cases s.lock) [
  | inl e ↦ e
  | inr n ↦ (let (i, h) : Inside s.pc = (Reach-Inv r).owned n in absurd (none_inside i h))
]
