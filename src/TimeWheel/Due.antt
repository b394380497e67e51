-- ===== src/TimeWheel/Due.antt =====
-- When a timer fires.
use c_language_learnning.Base.{ℕ, zero, suc, ◌+◌, ◌-◌, ◌*◌, ◌%◌, ◌≡◌, false, [], inl, inr}
use c_language_learnning.TimeWheel.{Wheel, tick, after, fired}
use c_language_learnning.TimeWheel.Slot.{dec_eq, has, rotations, Holds, tick-here, tick-elsewhere}

-- A timer that is nowhere is never called.
pub never : (id at n : ℕ) (w : Wheel) → Holds id at [] w → has id (fired n w) ≡ false
unfolding fired after
never id at zero w v = elim (dec_eq w.cur_slot at) [
  | inl e ↦ (tick-here id at [] w v e).0
  | inr ne ↦ (tick-elsewhere id at [] w v ne).0
]
never id at (suc n) w v = elim (dec_eq w.cur_slot at) [
  | inl e ↦ never id at n (tick w).1 (tick-here id at [] w v e).1
  | inr ne ↦ never id at n (tick w).1 (tick-elsewhere id at [] w v ne).1
]

-- The number of calls of `tick` before the one that calls a timer.
unfoldable pub wait : ℕ → ℕ → ℕ → ℕ
wait at r cur = (at + 60 - cur) % 60 + 60 * r

-- No timer of the wheel has this address.
abbrev pub Fresh : ℕ → Wheel → Type 0
Fresh id w = (i : ℕ) → rotations id (w.slots i) ≡ []
