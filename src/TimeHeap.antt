-- ===== src/TimeHeap.antt =====
-- The timers of network-programming/youshuang/timer/11-6time_heap.h: `time_heap`, a min-heap of pointers to
-- timers by the time at which they expire. A timer is its address, 0 being NULL; `expire` and `cb_func`
-- give its fields, `cb_func` as whether there is a callback. A callback is taken not to change the heap.
pub mod Order
pub mod Up
pub mod Down
pub mod Calls
mod Tests
use c_language_learnning.Base.{
  ℕ, zero, suc, ◌+◌, ◌-◌, ◌*◌, ◌/◌, Option, none, some, Bool, true, false, ◌&&◌, List, [], ◌∷◌, ltb,
  leb, ◌==◌, if◌then◌else◌,
}

abbrev pub Array : Type 0
Array = ℕ → ℕ

abbrev pub put : Array → ℕ → ℕ → Array
put a i t j = if j == i then t else a j

pub record Heap : Type 0 where
  pub array : Array
  pub capacity : ℕ
  pub cur_size : ℕ

-- time_heap(cap)
unfoldable pub new_heap : ℕ → Heap
new_heap cap = record { array = λ i. 0; capacity = cap; cur_size = 0 }

-- (hole - 1) / 2
abbrev pub parent : ℕ → ℕ
parent hole = (hole - 1) / 2

-- The loop of `add_timer`, and the write behind it; no more than `hole` rounds.
unfoldable pub percolate_up : (ℕ → ℕ) → ℕ → Array → ℕ → ℕ → Array
percolate_up expire zero a hole timer = put a hole timer
percolate_up expire (suc fuel) a hole timer =
    let up = percolate_up expire fuel (put a hole (a (parent hole))) (parent hole) timer in
    if hole == 0
    then put a hole timer
    else if leb (expire (a (parent hole))) (expire timer)
    then put a hole timer
    else up

-- The child that `percolate_down` compares with. `child < cur_size - 1` is `child + 1 < cur_size`.
unfoldable pub least_child : (ℕ → ℕ) → ℕ → Array → ℕ → ℕ
least_child expire size a hole =
    if ltb (hole * 2 + 1 + 1) size
      && ltb (expire (a (hole * 2 + 1 + 1))) (expire (a (hole * 2 + 1)))
    then hole * 2 + 1 + 1
    else hole * 2 + 1

-- The loop of `percolate_down`, and the write behind it; `temp` is the timer that sinks. No more than
-- `cur_size` rounds.
unfoldable pub sink : (ℕ → ℕ) → ℕ → ℕ → Array → ℕ → ℕ → Array
sink expire zero size a hole temp = put a hole temp
sink expire (suc fuel) size a hole temp =
    let child = least_child expire size a hole in
    let down = sink expire fuel size (put a hole (a child)) child temp in
    if ltb (hole * 2 + 1) size
    then (if ltb (expire (a child)) (expire temp) then down else put a hole temp)
    else put a hole temp

unfoldable pub percolate_down : (ℕ → ℕ) → ℕ → Array → ℕ → Array
percolate_down expire size a hole = sink expire size size a hole (a hole)

-- Twice the capacity, with NULL behind the old entries.
unfoldable pub resize : Heap → Heap
resize h = record h {
  array = λ i. if ltb i h.cur_size then h.array i else 0;
  capacity = 2 * h.capacity;
}

-- What `add_timer` does once there is room. `none`: a write behind the end of the array.
unfoldable pub insert : (ℕ → ℕ) → ℕ → Heap → Option Heap
insert expire timer h =
    if ltb h.cur_size h.capacity
    then some (record h {
      array = percolate_up expire h.cur_size h.array h.cur_size timer;
      cur_size = h.cur_size + 1;
    })
    else none

unfoldable pub add_timer : (ℕ → ℕ) → ℕ → Heap → Option Heap
add_timer expire timer h =
    if timer == 0
    then some h
    else insert expire timer (if leb h.capacity h.cur_size then resize h else h)

-- The field `cb_func` of every timer, once `del_timer` has cleared one.
unfoldable pub del_timer : ℕ → (ℕ → Bool) → ℕ → Bool
del_timer timer cb_func t =
    if timer == 0 then cb_func t else if t == timer then false else cb_func t

unfoldable pub top : Heap → ℕ
top h = if h.cur_size == 0 then 0 else h.array 0

unfoldable pub pop_timer : (ℕ → ℕ) → Heap → Heap
pop_timer expire h =
    if h.cur_size == 0
    then h
    else if h.array 0 == 0
    then h
    else (let last = h.cur_size - 1 in
        record h {
          array = percolate_down expire last (put h.array 0 (h.array last)) 0;
          cur_size = last;
        })

-- The timers whose callback is called, and the heap. Each round pops a timer, so `cur_size` rounds are enough.
unfoldable pub tick_loop : (ℕ → ℕ) → (ℕ → Bool) → ℕ → ℕ → Heap → List ℕ × Heap
tick_loop expire cb_func zero cur h = ([], h)
tick_loop expire cb_func (suc fuel) cur h =
    let rest = tick_loop expire cb_func fuel cur (pop_timer expire h) in
    if h.cur_size == 0
    then ([], h)
    else if h.array 0 == 0
    then ([], h)
    else if ltb cur (expire (h.array 0))
    then ([], h)
    else ((if cb_func (h.array 0) then h.array 0 ∷ rest.0 else rest.0), rest.1)

unfoldable pub tick : (ℕ → ℕ) → (ℕ → Bool) → ℕ → Heap → List ℕ × Heap
tick expire cb_func cur h = tick_loop expire cb_func h.cur_size cur h

-- The loop of the second constructor, which counts down.
unfoldable pub heapify : (ℕ → ℕ) → ℕ → ℕ → Array → Array
heapify expire size zero a = a
heapify expire size (suc i) a = heapify expire size i (percolate_down expire size a i)

-- time_heap(init_array, size, capacity). `none`: the exception.
unfoldable pub heap_of : (ℕ → ℕ) → Array → ℕ → ℕ → Option Heap
heap_of expire init_array size capacity =
    let a : Array = λ i. if ltb i size then init_array i else 0 in
    if ltb capacity size
    then none
    else some (record {
      array = if size == 0 then a else heapify expire size ((size - 1) / 2 + 1) a;
      capacity = capacity;
      cur_size = size;
    })
