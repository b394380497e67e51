-- ===== src/TimeHeap/Calls.antt =====
-- `pop_timer`, and the timers that `tick` calls.
use Prim.Native.Nat.{◌≤◌, ◌<◌}
use c_language_learnning.Base.{
  ℕ, zero, suc, ◌+◌, ◌-◌, ◌≡◌, refl, ap, ◌∙◌, Bool, true, false, arith, Bool-cases, inl, inr, ltb,
  ◌==◌, if◌then◌else◌, List, [], ◌∷◌,
}
use c_language_learnning.TimeHeap.{Array, put, Heap, pop_timer, tick_loop, tick}
use c_language_learnning.TimeHeap.Order.{total, total-put, is_null, root_least}
use c_language_learnning.TimeHeap.Up.{IsTimeHeap}
use c_language_learnning.TimeHeap.Down.{percolate_down-Sifted}

-- A timer at the root of a heap without NULL.
root_some : (n : ℕ) (a : Array) → total is_null n a ≡ 0 → 0 < n → (a 0 == 0) ≡ false
unfolding total is_null
root_some zero a v p = absurd (omega arith)
root_some (suc zero) a v p = ground arith
root_some (suc (suc n)) a v p = root_some (suc n) a (omega (arith, v)) (omega arith)

-- The last entry moved to the root: what is left of the old entries is all but the root.
last_moved :
    (f : ℕ → ℕ) (n : ℕ) (a : Array)
    → 0 < n
    → total f (n - 1) (put a 0 (a (n - 1))) + f (a 0) ≡ total f n a
unfolding total
last_moved f zero a p = absurd (omega arith)
last_moved f (suc zero) a p = refl
last_moved f (suc (suc n)) a p =
    let e : suc (suc n) - 1 ≡ suc n = omega arith in
    rw e (total-put f (suc n) 0 (a (suc n)) a (omega arith))

-- `pop_timer` on a heap with timers takes the one at the root.
record Popped (expire : ℕ → ℕ) (h h' : Heap) : Type 0 where
  valid : IsTimeHeap expire h'
  smaller : h'.cur_size + 1 ≡ h.cur_size
  taken : (f : ℕ → ℕ) → total f h'.cur_size h'.array + f (h.array 0) ≡ total f h.cur_size h.array

pop_timer-Popped :
    (expire : ℕ → ℕ) (h : Heap)
    → 0 < h.cur_size
    → IsTimeHeap expire h
    → Popped expire h (pop_timer expire h)
unfolding pop_timer
pop_timer-Popped expire h p v =
    let timers : (h.cur_size == 0) ≡ false = ground arith in
    let last = h.cur_size - 1 in
    let b : Array = put h.array 0 (h.array last) in
    let d = percolate_down-Sifted expire last b 0 (λ c q r s. ground (arith, v.order c)) in
    let taken =
      λ (f : ℕ → ℕ). ap (λ n. n + f (h.array 0)) (d.same f) ∙ last_moved f h.cur_size h.array p in
    rw (timers, root_some h.cur_size h.array v.entries p)
      (record {
        valid = record {
          room = omega (arith, v.room);
          some_room = v.some_room;
          order = d.order;
          entries = omega (arith, taken is_null, v.entries);
        };
        smaller = omega arith;
        taken = taken;
      })

-- The timers called, in their order: from `lo` on each expires no earlier than the one before it and no later
-- than `cur`, and has a callback.
unfoldable pub IsCalled : (ℕ → ℕ) → (ℕ → Bool) → ℕ → ℕ → List ℕ → Type 0
IsCalled expire cb_func cur lo [] = Unit
IsCalled expire cb_func cur lo (t ∷ ts) =
    (lo ≤ expire t)
    × (expire t ≤ cur)
    × (cb_func t ≡ true)
    × IsCalled expire cb_func cur (expire t) ts

unfoldable pub sum : (ℕ → ℕ) → List ℕ → ℕ
sum f [] = 0
sum f (t ∷ ts) = f t + sum f ts

IsCalled-lower :
    (expire : ℕ → ℕ) (cb_func : ℕ → Bool) (cur lo lo' : ℕ) (ts : List ℕ)
    → lo ≤ lo'
    → IsCalled expire cb_func cur lo' ts
    → IsCalled expire cb_func cur lo ts
unfolding IsCalled
IsCalled-lower expire cb_func cur lo lo' [] h v = tt
IsCalled-lower expire cb_func cur lo lo' (t ∷ ts) h v = (omega (arith, v.0), v.1, v.2, v.3)

-- The timers that expire before `lo`.
unfoldable early : (ℕ → ℕ) → ℕ → ℕ → ℕ
early expire lo t = if ltb (expire t) lo then 1 else 0

no_total : (f : ℕ → ℕ) (n : ℕ) (a : Array) → ((i : ℕ) → i < n → f (a i) ≡ 0) → total f n a ≡ 0
unfolding total
no_total f zero a h = refl
no_total f (suc n) a h =
    omega (arith, no_total f n a (λ i l. h i (omega (arith, l))), h n (omega arith))

root_total : (f : ℕ → ℕ) (n : ℕ) (a : Array) → total f n a ≡ 0 → 0 < n → f (a 0) ≡ 0
unfolding total
root_total f zero a h p = absurd (omega arith)
root_total f (suc zero) a h p = omega (arith, h)
root_total f (suc (suc n)) a h p = root_total f (suc n) a (omega (arith, h)) (omega arith)

-- The weight of the timers that have a callback.
unfoldable pub live : (ℕ → Bool) → (ℕ → ℕ) → ℕ → ℕ
live cb_func f t = if cb_func t then f t else 0

-- What `tick` promises of the timers it calls and of the heap it leaves.
pub record Ticked (expire : ℕ → ℕ) (cb_func : ℕ → Bool) (cur lo : ℕ) (h : Heap) (r : List ℕ × Heap)
    : Type 0 where
  pub valid : IsTimeHeap expire r.1
  pub called : IsCalled expire cb_func cur lo r.0
  pub later : (i : ℕ) → i < r.1.cur_size → cur < expire (r.1.array i)
  pub same :
      (f : ℕ → ℕ)
      → sum f r.0 + total (live cb_func f) r.1.cur_size r.1.array
        ≡ total (live cb_func f) h.cur_size h.array

-- A round that calls the timer at the root, or drops it when it has no callback.
round-Ticked :
    (expire : ℕ → ℕ) (cb_func : ℕ → Bool) (cur lo : ℕ) (h : Heap) (r : List ℕ × Heap)
    → lo ≤ expire (h.array 0)
    → expire (h.array 0) ≤ cur
    → Popped expire h (pop_timer expire h)
    → Ticked expire cb_func cur (expire (h.array 0)) (pop_timer expire h) r
    → Ticked expire cb_func cur lo h ((if cb_func (h.array 0) then h.array 0 ∷ r.0 else r.0), r.1)
unfolding IsCalled sum live
round-Ticked expire cb_func cur lo h r below due p v = elim (Bool-cases (cb_func (h.array 0))) [
  | inl calls ↦ rw calls (record {
    valid = v.valid;
    called = (below, due, calls, v.called);
    later = v.later;
    same = λ f.
        let counted : live cb_func f (h.array 0) ≡ f (h.array 0) = rw calls refl in
        omega (arith, v.same f, p.taken (live cb_func f), counted);
  })
  | inr silent ↦ rw silent (record {
    valid = v.valid;
    called = IsCalled-lower expire cb_func cur lo (expire (h.array 0)) r.0 below v.called;
    later = v.later;
    same = λ f.
        let counted : live cb_func f (h.array 0) ≡ 0 = rw silent refl in
        omega (arith, v.same f, p.taken (live cb_func f), counted);
  })
]

stopped-Ticked :
    (expire : ℕ → ℕ) (cb_func : ℕ → Bool) (cur lo : ℕ) (h : Heap)
    → IsTimeHeap expire h
    → ((i : ℕ) → i < h.cur_size → cur < expire (h.array i))
    → Ticked expire cb_func cur lo h ([], h)
unfolding IsCalled sum
stopped-Ticked expire cb_func cur lo h v later = record {
  valid = v;
  called = tt;
  later = later;
  same = λ f. omega arith;
}

root_late :
    (expire : ℕ → ℕ) (lo n : ℕ) (a : Array)
    → total (early expire lo) n a ≡ 0
    → 0 < n
    → lo ≤ expire (a 0)
unfolding early
root_late expire lo n a e p =
    let none_early = root_total (early expire lo) n a e p in ground (arith, none_early)

none_earlier :
    (expire : ℕ → ℕ) (h : Heap)
    → IsTimeHeap expire h
    → Popped expire h (pop_timer expire h)
    → total
        (early expire (expire (h.array 0)))
        (pop_timer expire h).cur_size
        (pop_timer expire h).array
      ≡ 0
unfolding early
none_earlier expire h v p =
    let lo = expire (h.array 0) in
    let before =
      no_total (early expire lo) h.cur_size h.array
        (λ i l. ground (arith, root_least expire h.cur_size h.array i v.order l)) in
    omega (arith, before, p.taken (early expire lo))

tick_loop-Ticked :
    (fuel : ℕ) (expire : ℕ → ℕ) (cb_func : ℕ → Bool) (cur lo : ℕ) (h : Heap)
    → h.cur_size ≤ fuel
    → total (early expire lo) h.cur_size h.array ≡ 0
    → IsTimeHeap expire h
    → Ticked expire cb_func cur lo h (tick_loop expire cb_func fuel cur h)
unfolding tick_loop
tick_loop-Ticked zero expire cb_func cur lo h l none_early v =
    stopped-Ticked expire cb_func cur lo h v (λ i k. absurd (omega (arith, l, k)))
tick_loop-Ticked (suc fuel) expire cb_func cur lo h l none_early v =
    elim (Bool-cases (h.cur_size == 0)) [
      | inl no_timers ↦
          rw no_timers (stopped-Ticked expire cb_func cur lo h v (λ i k. absurd (ground arith)))
      | inr timers ↦
          let pos : 0 < h.cur_size = ground arith in
          let named = root_some h.cur_size h.array v.entries pos in
          elim (Bool-cases (ltb cur (expire (h.array 0)))) [
            | inl late ↦
                rw (timers, named, late)
                  (stopped-Ticked expire cb_func cur lo h v
                    (λ i k. ground (arith, root_least expire h.cur_size h.array i v.order k)))
            | inr due ↦
                let p = pop_timer-Popped expire h pos v in
                rw (timers, named, due)
                  (round-Ticked expire cb_func cur lo h
                    (tick_loop expire cb_func fuel cur (pop_timer expire h))
                    (root_late expire lo h.cur_size h.array none_early pos) (ground arith) p
                    (tick_loop-Ticked fuel expire cb_func cur (expire (h.array 0))
                      (pop_timer expire h) (omega (arith, l, p.smaller)) (none_earlier expire h v p)
                      p.valid))
          ]
    ]

-- On a heap in order and without NULL, whose array has one entry at least and room for its timers, `tick`
-- calls timers that are due and have a callback, none before one that expires earlier, and leaves such a heap of
-- timers that all expire later; a timer with a callback stands in the heap before as often as it is called
-- and stands in the heap after, taken together.
pub tick-Ticked :
    (expire : ℕ → ℕ) (cb_func : ℕ → Bool) (cur : ℕ) (h : Heap)
    → IsTimeHeap expire h
    → Ticked expire cb_func cur 0 h (tick expire cb_func cur h)
unfolding tick early
tick-Ticked expire cb_func cur h v =
    tick_loop-Ticked h.cur_size expire cb_func cur 0 h (omega arith)
      (no_total (early expire 0) h.cur_size h.array (λ i l. ground arith)) v
