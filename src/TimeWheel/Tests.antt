-- ===== src/TimeWheel/Tests.antt =====
-- The time wheel at small inputs.
use c_language_learnning.Base.{◌≡◌, refl, false, [], ◌∷◌, arith, ◌==◌, some}
use c_language_learnning.Base.Int.{pos}
use c_language_learnning.TimeWheel.{
  Timer, Wheel, empty_wheel, ticks_of, new_timer, insert, add_timer, tick_slot, tick, after, fired,
}
use c_language_learnning.TimeWheel.Slot.{rotations, Holds}

-- Timer 7 with a timeout of 61 in a wheel that stands at slot 59: rotation 1, slot 0.
abbrev late : Wheel
late = record empty_wheel { cur_slot = 59 }

abbrev seven : Timer
seven = record { id = 7; rotation = 1; time_slot = 0 }

add_timer_runs : (add_timer (pos 61) 7 late).0 ≡ some seven
unfolding add_timer new_timer ticks_of
add_timer_runs = refl

fired_runs : fired 61 (insert seven late) ≡ 7 ∷ []
unfolding fired after tick tick_slot insert
fired_runs = refl

-- The wheel in which timer 7 is alone.
seven-Holds : Holds 7 0 (1 ∷ []) (insert seven late)
unfolding insert rotations
seven-Holds = record {
  low = omega arith;
  cur_low = omega arith;
  here = refl;
  elsewhere = λ i ne. let miss : (i == 0) ≡ false = ground (arith, ne) in rw miss refl;
}
