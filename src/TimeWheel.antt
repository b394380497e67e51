-- ===== src/TimeWheel.antt =====
-- The timers of network-programming/youshuang/timer/11-5tw_timer.h: `time_wheel`. A slot is the list of its
-- timers along `next`, from `slots[i]`, and a timer is known by its address. A callback is taken not to
-- change the wheel.
pub mod Slot
pub mod Due
pub mod Others
mod Tests
use c_language_learnning.Base.{
  ℕ, zero, suc, ◌+◌, ◌-◌, ◌/◌, ◌%◌, Option, none, some, Bool, true, false, List, [], ◌∷◌, ltb, ◌==◌,
  if◌then◌else◌,
}
use c_language_learnning.Base.Int.{ℤ, pos, negsuc}

-- `tw_timer`
pub record Timer : Type 0 where
  pub id : ℕ
  pub rotation : ℕ
  pub time_slot : ℕ

pub record Wheel : Type 0 where
  pub slots : ℕ → List Timer
  pub cur_slot : ℕ

abbrev pub put : (ℕ → List Timer) → ℕ → List Timer → ℕ → List Timer
put slots i l j = if j == i then l else slots j

-- The constructor of `time_wheel`.
abbrev pub empty_wheel : Wheel
empty_wheel = record { slots = λ i. []; cur_slot = 0 }

-- `ticks` of `add_timer`, with TI = 1.
unfoldable pub ticks_of : ℕ → ℕ
ticks_of timeout = if ltb timeout 1 then 1 else timeout / 1

-- The timer that `add_timer` makes at address `id`, with N = 60 slots.
unfoldable pub new_timer : ℕ → ℕ → ℕ → Timer
new_timer id ticks cur = record {
  id = id;
  rotation = ticks / 60;
  time_slot = (cur + ticks % 60) % 60;
}

-- A slot's list becomes its old list behind the new timer, also where it was empty.
unfoldable pub insert : Timer → Wheel → Wheel
insert t w = record w { slots = put w.slots t.time_slot (t ∷ w.slots t.time_slot) }

-- The timer that is returned, and the wheel.
unfoldable pub add_timer : ℤ → ℕ → Wheel → Option Timer × Wheel
add_timer (negsuc timeout) id w = (none, w)
add_timer (pos timeout) id w =
    let t = new_timer id (ticks_of timeout) w.cur_slot in (some t, insert t w)

-- A slot without the timer at `id`.
unfoldable pub remove : ℕ → List Timer → List Timer
remove id [] = []
remove id (t ∷ ts) = let rest = t ∷ remove id ts in if t.id == id then ts else rest

unfoldable pub del_timer : Timer → Wheel → Wheel
del_timer t w = record w { slots = put w.slots t.time_slot (remove t.id (w.slots t.time_slot)) }

-- The walk of `tick` over a slot: the timers whose callback is called, and those that stay.
unfoldable pub tick_slot : List Timer → List ℕ × List Timer
tick_slot [] = ([], [])
tick_slot (t ∷ ts) =
    let rest = tick_slot ts in
    if ltb 0 t.rotation
    then (rest.0, record t { rotation = t.rotation - 1 } ∷ rest.1)
    else (t.id ∷ rest.0, rest.1)

unfoldable pub tick : Wheel → List ℕ × Wheel
tick w =
    let done = tick_slot (w.slots w.cur_slot) in
    (done.0, record { slots = put w.slots w.cur_slot done.1; cur_slot = (w.cur_slot + 1) % 60 })

-- The wheel after `n` calls of `tick`, and the callbacks that the next call makes.
unfoldable pub after : ℕ → Wheel → Wheel
after zero w = w
after (suc n) w = after n (tick w).1

unfoldable pub fired : ℕ → Wheel → List ℕ
fired n w = (tick (after n w)).0
