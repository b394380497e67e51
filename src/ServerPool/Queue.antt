-- ===== src/ServerPool/Queue.antt =====
-- What the queue, its mutex and its semaphore say of the threads.
use Prim.Native.Nat.{◌≤◌}
use c_language_learnning.Base.{
  ℕ, ◌+◌, ◌≡◌, refl, sym, ap, ◌∙◌, Bool, true, false, [], ◌∷◌, ◌++◌, arith, length, length-append,
  append_assoc, ◌⊎◌, inl, inr,
}
use c_language_learnning.Base.Threads.{total, total-update, total-zero, le_total}
use c_language_learnning.ConnPool
use c_language_learnning.ServerPool.{
  Pool, Pc, waiting, woken, locked, found_empty, popped, handling, processing, idle, appending,
  refused, pushed, appended, Shared, Move, wait, lock, empty, unlock_empty, pop, unlock_popped,
  skip_null, handled, connect, work, disconnect, call, full, unlock_full, push, unlock_pushed, post,
  State, Step, step, Reach, start, next,
}

-- Whether a request in the queue is not counted by the semaphore on account of this thread.
unfoldable pub claims : Pc → ℕ
claims waiting = 0
claims woken = 1
claims locked = 1
claims found_empty = 0
claims (popped r) = 0
claims (handling r) = 0
claims (processing r c) = 0
claims idle = 0
claims (appending r state) = 0
claims refused = 0
claims pushed = 1
claims appended = 1

-- Whether it has the queue's mutex.
unfoldable pub critical : Pc → ℕ
critical waiting = 0
critical woken = 0
critical locked = 1
critical found_empty = 1
critical (popped r) = 1
critical (handling r) = 0
critical (processing r c) = 0
critical idle = 0
critical (appending r state) = 0
critical refused = 1
critical pushed = 1
critical appended = 0

abbrev pub bit : Bool → ℕ
bit false = 0
bit true = 1

bit_full : (b : Bool) → 1 ≤ bit b → bit b + 0 ≡ 1
bit_full false h = absurd (omega (arith, h))
bit_full true h = refl

-- A queue that holds what was appended and not yet taken, in order, and no more than it may.
pub record Ordered (q : Pool) : Type 0 where
  pub fifo : q.accepted ≡ q.taken ++ q.m_workqueue
  pub bounded : length q.m_workqueue ≤ q.m_max_requests

-- What a step exchanges between the queue and the thread.
record Fair (q : Pool) (c : Pc) (q' : Pool) (c' : Pc) : Type 0 where
  permits :
      claims c ≤ length q.m_workqueue
      → q'.m_queuestat + claims c' + length q.m_workqueue
        ≡ q.m_queuestat + claims c + length q'.m_workqueue
  mutex :
      critical c ≤ bit q.m_queuelocker
      → bit q'.m_queuelocker + critical c ≡ bit q.m_queuelocker + critical c'
  order : Ordered q → Ordered q'

-- A step that leaves the list alone.
still :
    {q : Pool} {b : Bool} {k : ℕ} (c c' : Pc)
    → (claims c ≤ length q.m_workqueue → k + claims c' ≡ q.m_queuestat + claims c)
    → (critical c ≤ bit q.m_queuelocker → bit b + critical c ≡ bit q.m_queuelocker + critical c')
    → Fair q c (record q { m_queuelocker = b; m_queuestat = k }) c'
still {q} c c' permits mutex = record {
  permits = λ h. let e = permits h in omega (arith, e);
  mutex = mutex;
  order = λ o. record { fifo = o.fifo; bounded = o.bounded };
}

Move-Fair : {x x' : Shared} {c c' : Pc} → Move x c x' c' → Fair x.queue c x'.queue c'
unfolding claims critical
Move-Fair (wait e) = still waiting woken (λ h. omega (arith, e)) (λ h. refl)
Move-Fair (lock e) = still woken locked (λ h. refl) (λ h. rw e refl)
Move-Fair {x} (empty e) =
    let nothing : length x.queue.m_workqueue ≡ 0 = rw e refl in
    still locked found_empty (λ h. absurd (omega (arith, h, nothing))) (λ h. refl)
Move-Fair {x} unlock_empty =
    still found_empty waiting (λ h. refl) (λ h. sym (bit_full x.queue.m_queuelocker h))
Move-Fair {x} (pop {r} {rest} e) = record {
  permits = λ h. rw e omega arith;
  mutex = λ h. refl;
  order = λ o.
      let bound : length (r ∷ rest) ≤ x.queue.m_max_requests = rw e at o.bounded in
      record {
        fifo =
            o.fifo
            ∙ ap (λ l. x.queue.taken ++ l) e
            ∙ sym (append_assoc x.queue.taken (r ∷ []) rest);
        bounded = omega (arith, bound);
      };
}
Move-Fair {x} (unlock_popped {r}) =
    still (popped r) (handling r) (λ h. refl) (λ h. sym (bit_full x.queue.m_queuelocker h))
Move-Fair skip_null = still (handling 0) waiting (λ h. refl) (λ h. refl)
Move-Fair (handled {r} read_ok write_ok ne e) = still (handling r) waiting (λ h. refl) (λ h. refl)
Move-Fair (connect {r} {c} read_ok write_ok ne e m) =
    still (handling r) (processing r c) (λ h. refl) (λ h. refl)
Move-Fair (work {r} {c} {c'} m ne) =
    still (processing r c) (processing r c') (λ h. refl) (λ h. refl)
Move-Fair (disconnect {r} {c} m) = still (processing r c) waiting (λ h. refl) (λ h. refl)
Move-Fair (call r state) = still idle (appending r state) (λ h. refl) (λ h. refl)
Move-Fair (full {r} {state} e l) = still (appending r state) refused (λ h. refl) (λ h. rw e refl)
Move-Fair {x} unlock_full =
    still refused idle (λ h. refl) (λ h. sym (bit_full x.queue.m_queuelocker h))
Move-Fair {x} (push {r} e l) =
    let more = length-append x.queue.m_workqueue (r ∷ []) in
    record {
      permits = λ h. omega (arith, more);
      mutex = λ h. rw e refl;
      order = λ o. record {
        fifo =
            ap (λ l. l ++ (r ∷ [])) o.fifo
            ∙ append_assoc x.queue.taken x.queue.m_workqueue (r ∷ []);
        bounded = omega (arith, more, l);
      };
    }
Move-Fair {x} unlock_pushed =
    still pushed appended (λ h. refl) (λ h. sym (bit_full x.queue.m_queuelocker h))
Move-Fair post = still appended idle (λ h. omega arith) (λ h. refl)

pub record Inv (n : ℕ) (s : State) : Type 0 where
  pub permits :
      s.shared.queue.m_queuestat + total (λ j. claims (s.pc j)) n
      ≡ length s.shared.queue.m_workqueue
  pub mutex : bit s.shared.queue.m_queuelocker ≡ total (λ j. critical (s.pc j)) n
  pub order : Ordered s.shared.queue

Step-Inv : {n : ℕ} {s t : State} → Inv n s → Step n s t → Inv n t
Step-Inv {n} {s} v (step i l {x} {c} m) =
    let f = Move-Fair m in
    let claims_moved = total-update claims s.pc i c n l in
    let critical_moved = total-update critical s.pc i c n l in
    let claims_here = le_total (λ j. claims (s.pc j)) i n l in
    let critical_here = le_total (λ j. critical (s.pc j)) i n l in
    let permits = f.permits (omega (arith, v.permits, claims_here)) in
    let mutex = f.mutex (omega (arith, v.mutex, critical_here)) in
    record {
      permits = omega (arith, v.permits, permits, claims_moved);
      mutex = omega (arith, v.mutex, mutex, critical_moved);
      order = f.order v.order;
    }

outside_all : (c : Pc) → (c ≡ waiting) ⊎ (c ≡ idle) → (claims c ≡ 0) × (critical c ≡ 0)
unfolding claims critical
outside_all c (inl e) = rw e (refl, refl)
outside_all c (inr e) = rw e (refl, refl)

pub Reach-Inv : {n : ℕ} {p0 : ConnPool.Pool} {s : State} → Reach n p0 s → Inv n s
Reach-Inv {n} (start answers actor_model max_requests requests pc made out) =
    let no_claims = total-zero (λ j. claims (pc j)) n (λ i l. (outside_all (pc i) (out i)).0) in
    let no_critical = total-zero (λ j. critical (pc j)) n (λ i l. (outside_all (pc i) (out i)).1) in
    record {
      permits = omega (arith, no_claims);
      mutex = sym no_critical;
      order = record { fifo = refl; bounded = omega arith };
    }
Reach-Inv (next r st) = Step-Inv (Reach-Inv r) st
