-- ===== src/TimeHeap/Tests.antt =====
-- The time heap at small inputs, where a timer expires at the number that is its address.
use c_language_learnning.Base.{
  ℕ, ◌≡◌, refl, true, [], ◌∷◌, arith, ◌==◌, if◌then◌else◌, some, none, Option,
}
use c_language_learnning.TimeHeap.{
  Array, Heap, percolate_up, least_child, sink, percolate_down, resize, insert, add_timer,
  del_timer, top, pop_timer, tick_loop, tick, heapify, heap_of,
}
use c_language_learnning.TimeHeap.Order.{total, is_null}
use c_language_learnning.TimeHeap.Up.{IsTimeHeap}
use c_language_learnning.TimeHeap.Calls.{Ticked, tick-Ticked}

abbrev at_address : ℕ → ℕ
at_address t = t

-- The timers 5 and 9, with no room for a third.
abbrev two : Heap
two = record {
  array = λ i. if i == 0 then 5 else if i == 1 then 9 else 0;
  capacity = 2;
  cur_size = 2;
}

abbrev three_timers : Array
three_timers = λ i. if i == 0 then 9 else if i == 1 then 4 else if i == 2 then 6 else 0

abbrev top_of : Option Heap → ℕ
top_of none = 0
top_of (some h) = h.array 0

add_timer_runs : top_of (add_timer at_address 3 two) ≡ 3
unfolding add_timer resize insert percolate_up
add_timer_runs = refl

heap_of_runs : top_of (heap_of at_address three_timers 3 3) ≡ 4
unfolding heap_of heapify percolate_down sink least_child
heap_of_runs = refl

tick_runs : (tick at_address (del_timer 5 (λ t. true)) 9 two).0 ≡ 9 ∷ []
unfolding tick tick_loop pop_timer percolate_down sink least_child del_timer
tick_runs = refl

top_runs : top (pop_timer at_address two) ≡ 9
unfolding top pop_timer percolate_down sink least_child
top_runs = refl

two-IsTimeHeap : IsTimeHeap at_address two
unfolding total is_null
two-IsTimeHeap = record {
  room = omega arith;
  some_room = omega arith;
  order = λ c p q r. let at : c ≡ 1 = omega arith in rw at (omega arith);
  entries = refl;
}

tick-Ticked_example :
    Ticked at_address
      (del_timer 9 (λ t. true))
      7
      0
      two
      (tick at_address (del_timer 9 (λ t. true)) 7 two)
tick-Ticked_example = tick-Ticked at_address (del_timer 9 (λ t. true)) 7 two two-IsTimeHeap
