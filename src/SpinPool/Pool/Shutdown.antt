-- ===== src/SpinPool/Pool/Shutdown.antt =====
-- `thread_pool_terminate` ends every worker.
use Prim.Native.Nat.{◌≤◌, ◌<◌}
use c_language_learnning.Base.{ℕ, ◌≡◌, ◌≢◌, refl, Option, none, some, true, false, arith}
use c_language_learnning.SpinPool.TaskQueue.{Queue, pop_task}
use c_language_learnning.SpinPool.Pool.{
  Flags, Pc, top, popping, empty, asleep, running, exited, Move, enter, leave, pop_some, pop_null,
  sleep, give_up, spurious, finish, Call, admit, post_task, terminate, nonblock, Workers, update,
  woken, signalled, broadcasted, State, Step, worker, client, signal, signal_none, broadcast, Reach,
  start, next,
}

-- What the flags say of the workers. A wait that began before `block` was cleared has a broadcast
-- coming; `quit` is set before anything else.
record Inv (f : Flags) (w : Workers) : Type 0 where
  coming : f.block ≡ false → f.broadcasts ≡ 0 → (i : ℕ) → w i ≢ asleep
  first : f.block ≡ false → f.quit ≡ true
  cleared : f.quit ≡ true → f.stopping ≡ 0 → f.block ≡ false
  begun : f.stopping ≢ 0 → f.quit ≡ true
  late : f.broadcasts ≢ 0 → f.block ≡ false
  ended : (i : ℕ) → w i ≡ exited → f.quit ≡ true

module _ {f : Flags} {w : Workers} (v : Inv f w) (i : ℕ) where
  -- A thread that moves to a place which is neither the wait nor the end.
  moved : (p : Pc) → p ≢ asleep → p ≢ exited → Inv f (update w i p)
  moved p na ne = record {
    coming = λ b c j. ground (arith, v.coming b c j);
    first = v.first;
    cleared = v.cleared;
    begun = v.begun;
    late = v.late;
    ended = λ j. ground (arith, v.ended j);
  }

  Move-Inv : {t t' : Queue} {p p' : Pc} → Move f t p t' p' → Inv f (update w i p')
  Move-Inv (enter e) = moved popping (λ h. cc) (λ h. cc)
  Move-Inv (leave e) = record {
    coming = λ b c j. ground (arith, v.coming b c j);
    first = v.first;
    cleared = v.cleared;
    begun = v.begun;
    late = v.late;
    ended = λ j h. e;
  }
  Move-Inv (pop_some {x} e) = moved (running x) (λ h. cc) (λ h. cc)
  Move-Inv (pop_null e) = moved empty (λ h. cc) (λ h. cc)
  Move-Inv (sleep e) = record {
    coming = λ b c j h. cc;
    first = v.first;
    cleared = v.cleared;
    begun = v.begun;
    late = v.late;
    ended = λ j. ground (arith, v.ended j);
  }
  Move-Inv (give_up e) = record {
    coming = λ b c j. ground (arith, v.coming b c j);
    first = v.first;
    cleared = v.cleared;
    begun = v.begun;
    late = v.late;
    ended = λ j h. v.first e;
  }
  Move-Inv spurious = moved popping (λ h. cc) (λ h. cc)
  Move-Inv finish = moved top (λ h. cc) (λ h. cc)

Call-Inv : {f f' : Flags} {t t' : Queue} {w : Workers} → Call f t f' t' → Inv f w → Inv f' w
Call-Inv admit v = record {
  coming = v.coming;
  first = v.first;
  cleared = v.cleared;
  begun = v.begun;
  late = v.late;
  ended = v.ended;
}
Call-Inv (post_task x ne) v = record {
  coming = v.coming;
  first = v.first;
  cleared = v.cleared;
  begun = v.begun;
  late = v.late;
  ended = v.ended;
}
Call-Inv terminate v = record {
  coming = v.coming;
  first = λ b. refl;
  cleared = λ q n. absurd (omega arith);
  begun = λ n. refl;
  late = v.late;
  ended = λ i h. refl;
}
Call-Inv nonblock v = record {
  coming = λ b n. absurd (omega arith);
  first = λ b. v.begun (omega arith);
  cleared = λ q n. refl;
  begun = λ n. v.begun (omega arith);
  late = λ n. refl;
  ended = v.ended;
}

woken_awake : (p : Pc) → woken p ≢ asleep
woken_awake top h = cc
woken_awake popping h = cc
woken_awake empty h = cc
woken_awake asleep h = cc
woken_awake (running x) h = cc
woken_awake exited h = cc

woken_exited : (p : Pc) → woken p ≡ exited → p ≡ exited
woken_exited top h = cc
woken_exited popping h = cc
woken_exited empty h = cc
woken_exited asleep h = cc
woken_exited (running x) h = cc
woken_exited exited h = refl

signalled-Inv : {f : Flags} {w : Workers} → Inv f w → Inv (signalled f) w
signalled-Inv v = record {
  coming = v.coming;
  first = v.first;
  cleared = v.cleared;
  begun = v.begun;
  late = v.late;
  ended = v.ended;
}

broadcasted-Inv : {f : Flags} {w : Workers} → Inv f w → Inv (broadcasted f) (λ i. woken (w i))
broadcasted-Inv {f} {w} v = record {
  coming = λ b n i. woken_awake (w i);
  first = v.first;
  cleared = v.cleared;
  begun = v.begun;
  late = λ n. v.late (omega arith);
  ended = λ i h. v.ended i (woken_exited (w i) h);
}

Step-Inv : {s t : State} → Inv s.flags s.pc → Step s t → Inv t.flags t.pc
Step-Inv v (worker i mv) = Move-Inv v i mv
Step-Inv v (client call) = Call-Inv call v
Step-Inv v (signal i n h) = signalled-Inv (moved v i popping (λ e. cc) (λ e. cc))
Step-Inv v (signal_none n h) = signalled-Inv v
Step-Inv v (broadcast n) = broadcasted-Inv v

Reach-Inv : {s : State} → Reach s → Inv s.flags s.pc
Reach-Inv start = record {
  coming = λ b n i h. cc;
  first = λ b. cc;
  cleared = λ q n. cc;
  begun = λ n. absurd (n refl);
  late = λ n. absurd (n refl);
  ended = λ i h. cc;
}
Reach-Inv (next r st) = Step-Inv (Reach-Inv r) st

-- `thread_pool_terminate` was called, and no call of it is under way.
pub record Stopped (f : Flags) : Type 0 where
  pub asked : f.quit ≡ true
  pub stored : f.stopping ≡ 0
  pub told : f.broadcasts ≡ 0

-- How many steps a worker can still make once `quit` is set and `block` is cleared.
pub rank : Pc → ℕ
rank asleep = 4
rank popping = 3
rank (running x) = 2
rank top = 1
rank empty = 1
rank exited = 0

rank-awake : (p : Pc) → p ≢ asleep → rank p ≤ 3
unfolding rank
rank-awake top na = omega arith
rank-awake popping na = omega arith
rank-awake empty na = omega arith
rank-awake asleep na = absurd (na refl)
rank-awake (running x) na = omega arith
rank-awake exited na = omega arith

Move-rank :
    {f : Flags} {t t' : Queue} {p p' : Pc}
    → f.quit ≡ true
    → f.block ≡ false
    → Move f t p t' p'
    → rank p' < rank p
unfolding rank
Move-rank q b (enter e) = cc
Move-rank q b (leave e) = omega arith
Move-rank q b (pop_some e) = omega arith
Move-rank q b (pop_null e) = omega arith
Move-rank q b (sleep e) = cc
Move-rank q b (give_up e) = omega arith
Move-rank q b spurious = omega arith
Move-rank q b finish = omega arith

abbrev Moves : Flags → Queue → Pc → Type 0
Moves f m p = (m' : Queue) × (p' : Pc) × Move f m p m' p'

popping-Moves : {f : Flags} (m : Queue) (r : Option ℕ × Queue) → pop_task m ≡ r → Moves f m popping
popping-Moves m (none, m') e = (_, _, pop_null e)
popping-Moves m (some x, m') e = (_, _, pop_some e)

-- A worker that does not sleep.
awake-Moves :
    {f : Flags} (m : Queue) (p : Pc)
    → f.quit ≡ true
    → f.block ≡ false
    → p ≢ asleep
    → p ≢ exited
    → Moves f m p
awake-Moves m top q b na n = (_, _, leave q)
awake-Moves m popping q b na n = popping-Moves m (pop_task m) refl
awake-Moves m empty q b na n = (_, _, give_up b)
awake-Moves m asleep q b na n = absurd (na refl)
awake-Moves m (running x) q b na n = (_, _, finish)
awake-Moves m exited q b na n = absurd (n refl)

-- The shutdown ends: once every call of `thread_pool_terminate` has returned, no worker waits for a task, so that none
-- needs to be woken; a worker that has not ended has a next step, whatever the queue holds; and each step that a
-- worker makes lowers `rank`, which is at most 3 for one that does not wait.
pub winds_down :
    {s : State}
    → Reach s
    → Stopped s.flags
    → (i : ℕ)
    → (s.pc i ≢ asleep)
      × (rank (s.pc i) ≤ 3)
      × (s.pc i ≢ exited → (m : Queue) × (p : Pc) × Move s.flags s.tasks (s.pc i) m p)
      × ((m : Queue) (p : Pc) → Move s.flags s.tasks (s.pc i) m p → rank p < rank (s.pc i))
winds_down {s} r d i =
    let v : Inv s.flags s.pc = Reach-Inv r in
    let b : s.flags.block ≡ false = v.cleared d.asked d.stored in
    let na : s.pc i ≢ asleep = v.coming b d.told i in
    (
      na,
      rank-awake (s.pc i) na,
      awake-Moves s.tasks (s.pc i) d.asked b na,
      λ m p mv. Move-rank d.asked b mv,
    )
