-- ===== src/BlockQueue/Tests.antt =====
-- The queue at small inputs.
use c_language_learnning.Base.{
  ℕ, ◌+◌, ◌≡◌, refl, none, some, true, false, List, [], ◌∷◌, arith, map,
}
use c_language_learnning.Base.Int.{ℤ, pos, negsuc}
use c_language_learnning.BlockQueue.{
  BlockQueue, next, block_queue, full, is_empty, take_front, take_if, pop, back,
}
use c_language_learnning.BlockQueue.Ring.{first, contents, IsQueue}
use c_language_learnning.BlockQueue.Spec
use c_language_learnning.BlockQueue.Fifo.{
  Op, op_push, op_pop, pushed, popped, run, spec_run, view, view_pop, view_wait, run-refines,
  pop_refines,
}

abbrev junk : ℤ → ℕ
junk i = 99

-- Three pushes into a queue of two, the second item popped first to make room.
abbrev calls : List (Op ℕ)
calls = op_push 5 ∷ op_push 6 ∷ op_push 7 ∷ op_pop ∷ op_push 8 ∷ op_pop ∷ op_pop ∷ op_pop ∷ []

calls_run :
    (spec_run 2 calls []).0
    ≡ pushed true
      ∷ pushed true
      ∷ pushed false
      ∷ popped (some 5)
      ∷ pushed true
      ∷ popped (some 6)
      ∷ popped (some 8)
      ∷ popped none
      ∷ []
unfolding spec_run Spec.push Spec.take_if
calls_run = refl

run-refines_example :
    (q : BlockQueue ℕ) × (block_queue (pos 2) junk ≡ some q)
    × (view (run calls q) ≡ spec_run 2 calls [])
run-refines_example = run-refines 1 junk calls

abbrev two_slots : BlockQueue ℕ
two_slots = record {
  m_array = junk;
  m_size = 0;
  m_max_size = 2;
  m_front = negsuc 0;
  m_back = negsuc 0;
}

-- Items 5 and 6, in a ring of two.
abbrev two_items : BlockQueue ℕ
two_items = record {
  m_array = λ i. elim i [ pos k ↦ 5 + k | negsuc k ↦ 99 ];
  m_size = 2;
  m_max_size = 2;
  m_front = negsuc 0;
  m_back = pos 1;
}

state_runs : (full two_items ≡ true) × (is_empty two_items ≡ false) × (back two_items ≡ some 6)
unfolding full is_empty back
state_runs = (refl, refl, refl)

two_items-IsQueue : IsQueue two_items
unfolding first next
two_items-IsQueue = record {
  some_room = omega arith;
  room = omega arith;
  first_inside = omega arith;
  front_next = refl;
  back_next = refl;
}

two_slots-IsQueue : IsQueue two_slots
unfolding first next
two_slots-IsQueue = record {
  some_room = omega arith;
  room = omega arith;
  first_inside = omega arith;
  front_next = refl;
  back_next = refl;
}

-- A thread that waits twice, until another has pushed.
pop_refines_example :
    view_pop (pop ((false, two_slots) ∷ (false, two_items) ∷ []) two_slots)
    ≡ Spec.pop (map view_wait ((false, two_slots) ∷ (false, two_items) ∷ [])) (contents two_slots)
pop_refines_example =
    pop_refines ((false, two_slots) ∷ (false, two_items) ∷ []) two_slots
      (two_slots-IsQueue, (two_items-IsQueue, tt)) two_slots-IsQueue

stale_runs : (take_if two_items).0 ≡ some 5
unfolding take_if take_front next
stale_runs = refl
