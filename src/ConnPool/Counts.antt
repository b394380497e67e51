-- ===== src/ConnPool/Counts.antt =====
-- What the list, the counters and the semaphore of a pool of connections say of its threads.
use Prim.Native.Nat.{◌≤◌}
use c_language_learnning.Base.{
  ℕ, ◌+◌, ◌≡◌, refl, sym, ap, ◌∙◌, Bool, true, false, Option, none, some, List, [], ◌∷◌, ◌++◌,
  arith, length, length-append, ◌==◌, if◌then◌else◌, eq_of_some,
}
use c_language_learnning.Base.Threads.{total, total-update, total-zero, le_total}
use c_language_learnning.ConnPool.{
  Pool, connection_pool, connect, set_reserve, init, Pc, outside, checked, admitted, locked, got,
  using, giving, given, unlocked, Move, refuse, check, wait, lock_get, front, unlock_get,
  release_null, lock_release, push_back, unlock_release, post, State, Step, step, Reach, start,
  next,
}

-- How often a connection stands in a list.
unfoldable pub count : ℕ → List ℕ → ℕ
count c [] = 0
count c (x ∷ xs) = (if x == c then 1 else 0) + count c xs

pub count-append : (c : ℕ) (xs ys : List ℕ) → count c (xs ++ ys) ≡ count c xs + count c ys
unfolding count
count-append c [] ys = omega arith
count-append c (x ∷ xs) ys = let ih = count-append c xs ys in omega (arith, ih)

-- Whether a thread has connection `c`.
unfoldable pub has : ℕ → Pc → ℕ
has c outside = 0
has c checked = 0
has c admitted = 0
has c locked = 0
has c (got con) = if con == c then 1 else 0
has c (using none) = 0
has c (using (some con)) = if con == c then 1 else 0
has c (giving con) = if con == c then 1 else 0
has c given = 0
has c unlocked = 0

-- Whether it has one.
unfoldable pub holds : Pc → ℕ
holds outside = 0
holds checked = 0
holds admitted = 0
holds locked = 0
holds (got con) = 1
holds (using none) = 0
holds (using (some con)) = 1
holds (giving con) = 1
holds given = 0
holds unlocked = 0

-- Whether a connection in the list is not counted by the semaphore on account of this thread.
unfoldable pub claims : Pc → ℕ
claims outside = 0
claims checked = 0
claims admitted = 1
claims locked = 1
claims (got con) = 0
claims (using o) = 0
claims (giving con) = 0
claims given = 1
claims unlocked = 1

-- Whether it has the mutex.
unfoldable pub critical : Pc → ℕ
critical outside = 0
critical checked = 0
critical admitted = 0
critical locked = 1
critical (got con) = 1
critical (using o) = 0
critical (giving con) = 1
critical given = 1
critical unlocked = 0

abbrev pub bit : Bool → ℕ
bit false = 0
bit true = 1

bit_full : (b : Bool) → 1 ≤ bit b → bit b + 0 ≡ 1
bit_full false h = absurd (omega (arith, h))
bit_full true h = refl

-- What a step exchanges between the pool and the thread.
record Fair (p : Pool) (c : Pc) (p' : Pool) (c' : Pc) : Type 0 where
  permits : p'.reserve + claims c' + length p.connlist ≡ p.reserve + claims c + length p'.connlist
  mutex : critical c ≤ bit p.lock → bit p'.lock + critical c ≡ bit p.lock + critical c'
  held : length p'.connlist + holds c' ≡ length p.connlist + holds c
  each : (k : ℕ) → count k p'.connlist + has k c' ≡ count k p.connlist + has k c
  free : p.m_freeconn ≡ length p.connlist → p'.m_freeconn ≡ length p'.connlist
  cur : holds c ≤ p.m_curconn → p'.m_curconn + holds c ≡ p.m_curconn + holds c'
  most : p'.m_maxconn ≡ p.m_maxconn

-- A step that leaves the list alone.
still :
    {p : Pool} {l : Bool} {r : ℕ} (c c' : Pc)
    → r + claims c' ≡ p.reserve + claims c
    → (critical c ≤ bit p.lock → bit l + critical c ≡ bit p.lock + critical c')
    → holds c' ≡ holds c
    → ((k : ℕ) → has k c' ≡ has k c)
    → Fair p c (record p { lock = l; reserve = r }) c'
still {p} c c' permits mutex held each = record {
  permits = omega (arith, permits);
  mutex = mutex;
  held = omega (arith, held);
  each = λ k. let e = each k in omega (arith, e);
  free = λ h. h;
  cur = λ h. omega (arith, held);
  most = refl;
}

Move-Fair : {p p' : Pool} {c c' : Pc} → Move p c p' c' → Fair p c p' c'
unfolding count has holds claims critical
Move-Fair (refuse e) = still outside (using none) refl (λ l. refl) refl (λ k. refl)
Move-Fair (check e) = still outside checked refl (λ l. refl) refl (λ k. refl)
Move-Fair (wait e) = still checked admitted (omega (arith, e)) (λ l. refl) refl (λ k. refl)
Move-Fair (lock_get e) = still admitted locked refl (λ l. rw e refl) refl (λ k. refl)
Move-Fair {p} (front {con} {rest} e) = record {
  permits = rw e omega arith;
  mutex = λ l. refl;
  held = rw e omega arith;
  each = λ k. rw e omega arith;
  free = λ h. let h' : p.m_freeconn ≡ length (con ∷ rest) = h ∙ ap length e in omega (arith, h');
  cur = λ h. omega arith;
  most = refl;
}
Move-Fair {p} (unlock_get {con}) =
    still (got con) (using (some con)) refl (λ l. sym (bit_full p.lock l)) refl (λ k. refl)
Move-Fair release_null = still (using none) outside refl (λ l. refl) refl (λ k. refl)
Move-Fair (lock_release {con} e) =
    still (using (some con)) (giving con) refl (λ l. rw e refl) refl (λ k. refl)
Move-Fair {p} (push_back {con}) =
    let more = length-append p.connlist (con ∷ []) in
    record {
      permits = omega (arith, more);
      mutex = λ l. refl;
      held = omega (arith, more);
      each = λ k. let e = count-append k p.connlist (con ∷ []) in omega (arith, e);
      free = λ h. omega (arith, h, more);
      cur = λ h. omega (arith, h);
      most = refl;
    }
Move-Fair {p} unlock_release =
    still given unlocked refl (λ l. sym (bit_full p.lock l)) refl (λ k. refl)
Move-Fair post = still unlocked outside (omega arith) (λ l. refl) refl (λ k. refl)

-- The list, the counters and the semaphore against the threads: `p0` is the pool that `init` made.
pub record Inv (n : ℕ) (p0 : Pool) (s : State) : Type 0 where
  pub permits : s.pool.reserve + total (λ j. claims (s.pc j)) n ≡ length s.pool.connlist
  pub mutex : bit s.pool.lock ≡ total (λ j. critical (s.pc j)) n
  pub held : length s.pool.connlist + total (λ j. holds (s.pc j)) n ≡ length p0.connlist
  pub each : (k : ℕ) → count k s.pool.connlist + total (λ j. has k (s.pc j)) n ≡ count k p0.connlist
  pub free : s.pool.m_freeconn ≡ length s.pool.connlist
  pub cur : s.pool.m_curconn ≡ total (λ j. holds (s.pc j)) n
  pub most : s.pool.m_maxconn ≡ length p0.connlist

Step-Inv : {n : ℕ} {p0 : Pool} {s t : State} → Inv n p0 s → Step n s t → Inv n p0 t
Step-Inv {n} {p0} {s} v (step i l {p} {c} m) =
    let f = Move-Fair m in
    let claims_moved = total-update claims s.pc i c n l in
    let critical_moved = total-update critical s.pc i c n l in
    let holds_moved = total-update holds s.pc i c n l in
    let critical_here = le_total (λ j. critical (s.pc j)) i n l in
    let holds_here = le_total (λ j. holds (s.pc j)) i n l in
    let mutex = f.mutex (omega (arith, v.mutex, critical_here)) in
    let cur = f.cur (omega (arith, v.cur, holds_here)) in
    record {
      permits = omega (arith, v.permits, f.permits, claims_moved);
      mutex = omega (arith, v.mutex, mutex, critical_moved);
      held = omega (arith, v.held, f.held, holds_moved);
      each = λ k.
          let moved = total-update (has k) s.pc i c n l in
          let before = v.each k in let e = f.each k in omega (arith, before, e, moved);
      free = f.free v.free;
      cur = omega (arith, v.cur, cur, holds_moved);
      most = f.most ∙ v.most;
    }

-- A pool between the rounds of `init`.
record Unused (p : Pool) : Type 0 where
  counted : p.m_freeconn ≡ length p.connlist
  no_one : p.m_curconn ≡ 0
  unlocked_yet : p.lock ≡ false

connect-Unused :
    (answers : List (Option ℕ)) (p q : Pool) → Unused p → connect answers p ≡ some q → Unused q
unfolding connect
connect-Unused [] p q u e = let same = eq_of_some e in rw same at u
connect-Unused (none ∷ answers) p q u e = cc
connect-Unused (some con ∷ answers) p q u e =
    let more = length-append p.connlist (con ∷ []) in
    connect-Unused answers _ q
      (record {
        counted = omega (arith, u.counted, more);
        no_one = u.no_one;
        unlocked_yet = u.unlocked_yet;
      })
      e

-- A pool that `init` made.
record Ready (p : Pool) : Type 0 where
  unused : Unused p
  all_posted : p.reserve ≡ length p.connlist
  full : p.m_maxconn ≡ length p.connlist

set_reserve-Ready :
    (o : Option Pool) (p0 : Pool)
    → ((q : Pool) → o ≡ some q → Unused q)
    → set_reserve o ≡ some p0
    → Ready p0
set_reserve-Ready none p0 u e = cc
set_reserve-Ready (some q) p0 u e =
    let same = eq_of_some e in
    let v = u q refl in
    let r : Ready (record q { reserve = q.m_freeconn; m_maxconn = q.m_freeconn }) = record {
      unused = record { counted = v.counted; no_one = v.no_one; unlocked_yet = v.unlocked_yet };
      all_posted = v.counted;
      full = v.counted;
    } in
    rw same at r

init-Ready :
    (answers : List (Option ℕ)) (p0 : Pool) → init answers connection_pool ≡ some p0 → Ready p0
unfolding init
init-Ready answers p0 e =
    set_reserve-Ready (connect answers connection_pool) p0
      (λ q.
        connect-Unused answers connection_pool q
          (record { counted = refl; no_one = refl; unlocked_yet = refl }))
      e

start-Inv : (n : ℕ) (p0 : Pool) → Ready p0 → Inv n p0 (record { pool = p0; pc = λ i. outside })
unfolding has holds claims critical
start-Inv n p0 r =
    let nothing = total-zero (λ j. 0) n (λ i l. refl) in
    record {
      permits = omega (arith, r.all_posted, nothing);
      mutex = rw r.unused.unlocked_yet (sym nothing);
      held = omega (arith, nothing);
      each = λ k. omega (arith, nothing);
      free = r.unused.counted;
      cur = r.unused.no_one ∙ sym nothing;
      most = r.full;
    }

-- Whatever the threads of a pool that `init` made do, and in whatever order: the list and what threads have are together the
-- connections that `init` made, m_FreeConn counts the former and m_CurConn the latter, m_MaxConn counts both, the mutex is taken
-- while one thread is behind it, and the semaphore and the threads that have lowered it before `front`, or raise it after
-- `push_back`, count the list.
pub pool_agrees : {n : ℕ} {p0 : Pool} {s : State} → Reach n p0 s → Inv n p0 s
pool_agrees {n} {p0} (start answers e) = start-Inv n p0 (init-Ready answers p0 e)
pool_agrees (next r st) = Step-Inv (pool_agrees r) st
