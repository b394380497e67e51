-- ===== src/TimerList/Tests.antt =====
-- The list of timers at small inputs, where a timer expires at the number that is its address.
use c_language_learnning.Base.{
  ℕ, zero, suc, ◌≡◌, refl, Option, none, some, List, [], ◌∷◌, ◌==◌, if◌then◌else◌, arith,
}
use c_language_learnning.TimerList.{
  TimerList, append, link, insert_loop, insert, add_timer, unlink, drop_head, adjust_timer,
  del_timer, tick,
}
use c_language_learnning.TimerList.Chain.{first, last_or, IsChain, Holds, insort}
use c_language_learnning.TimerList.Add.{IsAscending, add_timer-Holds}
use c_language_learnning.TimerList.Tick.{Called, tick-Called}
use c_language_learnning.TimerList.Delete.{del_timer-Holds}
use c_language_learnning.TimerList.Adjust.{adjust_timer-Holds}

abbrev at_address : ℕ → ℕ
at_address t = t

-- The timers 3, 5 and 9.
abbrev three : TimerList
three = record {
  next = λ t. if t == 3 then 5 else if t == 5 then 9 else 0;
  prev = λ t. if t == 5 then 3 else if t == 9 then 5 else 0;
  head = 3;
  tail = 9;
}

three-Holds : Holds three (3 ∷ 5 ∷ 9 ∷ [])
unfolding IsChain first last_or
three-Holds = record {
  head_first = refl;
  tail_last = refl;
  chain = (
    omega arith,
    refl,
    refl,
    ((omega arith), ((omega arith), tt)),
    (omega arith, refl, refl, ((omega arith), tt), (omega arith, refl, refl, tt, tt)),
  );
}

three-IsAscending : IsAscending at_address (3 ∷ 5 ∷ 9 ∷ [])
unfolding IsAscending
three-IsAscending = ((omega arith, (omega arith, tt)), ((omega arith, tt), (tt, tt)))

-- What the list holds along `next`.
walk : ℕ → (ℕ → ℕ) → ℕ → List ℕ
walk zero next t = []
walk (suc n) next t = let rest = t ∷ walk n next (next t) in if t == 0 then [] else rest

held : Option TimerList → List ℕ
held none = []
held (some l) = walk 9 l.next l.head

add_timer_runs : held (add_timer at_address 3 7 three) ≡ 3 ∷ 5 ∷ 7 ∷ 9 ∷ []
unfolding add_timer insert insert_loop link append held walk
add_timer_runs = refl

-- Timer 3 now expires at 6.
adjust_timer_runs : held (adjust_timer (λ t. if t == 3 then 6 else t) 3 3 three) ≡ 5 ∷ 3 ∷ 9 ∷ []
unfolding adjust_timer drop_head insert insert_loop link append unlink held walk
adjust_timer_runs = refl

add_timer-Holds_example :
    (l' : TimerList) × (add_timer at_address 3 7 three ≡ some l')
    × Holds l' (insort at_address 7 (3 ∷ 5 ∷ 9 ∷ []))
    × IsAscending at_address (insort at_address 7 (3 ∷ 5 ∷ 9 ∷ []))
add_timer-Holds_example =
    add_timer-Holds 3 at_address 7 three (3 ∷ 5 ∷ 9 ∷ []) (omega arith) (omega arith)
      (omega arith, (omega arith, (omega arith, tt))) refl refl three-Holds three-IsAscending

tick-Called_example : Called at_address 5 (3 ∷ 5 ∷ 9 ∷ []) (tick at_address 5 4 three)
tick-Called_example =
    tick-Called 4 at_address 5 three (3 ∷ 5 ∷ 9 ∷ []) (omega arith) three-Holds three-IsAscending

del_timer-Holds_example : Holds (del_timer 5 three) (3 ∷ 9 ∷ [])
del_timer-Holds_example = del_timer-Holds three (3 ∷ []) 5 (9 ∷ []) three-Holds

adjust_timer-Holds_example :
    (l' : TimerList) × (adjust_timer (λ t. if t == 3 then 6 else t) 3 3 three ≡ some l')
    × Holds l' (insort (λ t. if t == 3 then 6 else t) 3 (5 ∷ 9 ∷ []))
adjust_timer-Holds_example =
    adjust_timer-Holds 3 (λ t. if t == 3 then 6 else t) three [] 3 (5 ∷ 9 ∷ []) (omega arith)
      three-Holds
