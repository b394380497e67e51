-- ===== src/TimeHeap/Down.antt =====
-- `percolate_down` puts the subtree below its hole in order.
use Prim.Native.Nat.{◌≤◌, ◌<◌}
use c_language_learnning.Base.{
  ℕ, zero, suc, ◌+◌, ◌-◌, ◌*◌, ◌/◌, ◌≡◌, ◌≢◌, refl, ap, ◌∙◌, false, none, some, arith, Bool-cases,
  inl, inr, ltb, ◌==◌, ◌&&◌, if◌then◌else◌,
}
use c_language_learnning.TimeHeap.{
  Array, put, Heap, parent, least_child, sink, percolate_down, heapify, heap_of,
}
use c_language_learnning.TimeHeap.Order.{
  total, total-moved, total_cong, IsHeapFrom, IsHeap, IsBridged, Sifted, Sifted-trans,
}

-- With the sinking timer in the hole, only the edges below the hole may be out of order.
record DownInv (expire : ℕ → ℕ) (lo size : ℕ) (a : Array) (i : ℕ) : Type 0 where
  past : lo ≤ i
  edges :
      (c : ℕ)
      → 0 < c
      → c < size
      → lo ≤ parent c
      → parent c ≢ i
      → expire (a (parent c)) ≤ expire (a c)
  bridged : IsBridged expire lo size a i

-- The child compared with is a child, and its sibling expires no earlier.
record IsLeast (expire : ℕ → ℕ) (size : ℕ) (a : Array) (hole child : ℕ) : Type 0 where
  below : parent child ≡ hole
  later : hole < child
  inside : child < size
  least : (c : ℕ) → 0 < c → c < size → parent c ≡ hole → expire (a child) ≤ expire (a c)

-- A bound on both children is a bound on every child.
on_children :
    (g : ℕ → ℕ) (size hole x : ℕ)
    → x ≤ g (hole * 2 + 1)
    → (hole * 2 + 1 + 1 < size → x ≤ g (hole * 2 + 1 + 1))
    → (c : ℕ) → 0 < c
    → c < size
    → parent c ≡ hole
    → x ≤ g c
on_children g size hole x l r c p q e = elim (Bool-cases (c == hole * 2 + 1)) [
  | inl left ↦ let at : c ≡ hole * 2 + 1 = ground arith in rw at l
  | inr right ↦
      let at : c ≡ hole * 2 + 1 + 1 = ground arith in
      let fits : hole * 2 + 1 + 1 < size = omega arith in rw at (r fits)
]

least_child-IsLeast :
    (expire : ℕ → ℕ) (size : ℕ) (a : Array) (hole : ℕ)
    → hole * 2 + 1 < size
    → IsLeast expire size a hole (least_child expire size a hole)
unfolding least_child
least_child-IsLeast expire size a hole l =
    let g : ℕ → ℕ = λ c. expire (a c) in
    elim (Bool-cases
      (ltb (hole * 2 + 1 + 1) size && ltb (g (hole * 2 + 1 + 1)) (g (hole * 2 + 1)))) [
        | inl right ↦ rw right (record {
          below = omega arith;
          later = omega arith;
          inside = ground arith;
          least = on_children g size hole (g (hole * 2 + 1 + 1)) (ground arith) (λ k. ground arith);
        })
        | inr left ↦ rw left (record {
          below = omega arith;
          later = omega arith;
          inside = omega arith;
          least = on_children g size hole (g (hole * 2 + 1)) (ground arith) (λ k. ground arith);
        })
      ]

-- The hole after the least child has moved up.
move-DownInv :
    (expire : ℕ → ℕ) (lo size : ℕ) (a : Array) (hole child temp : ℕ)
    → IsLeast expire size a hole child
    → DownInv expire lo size (put a hole temp) hole
    → expire (a child) < expire temp
    → DownInv expire lo size (put (put a hole (a child)) child temp) child
move-DownInv expire lo size a hole child temp k v below = record {
  past = omega (arith, v.past, k.later);
  edges = λ c p q r ne.
      ground (arith, v.edges c, k.least c, v.bridged child, k.below, k.later, k.inside);
  bridged = λ c p q e r l. ground (arith, v.edges c, k.below, k.later, k.inside);
}

sink-Sifted :
    (fuel : ℕ) (expire : ℕ → ℕ) (lo size : ℕ) (a : Array) (hole temp : ℕ)
    → size ≤ hole + fuel
    → DownInv expire lo size (put a hole temp) hole
    → Sifted expire lo size (put a hole temp) (sink expire fuel size a hole temp)
unfolding sink
sink-Sifted zero expire lo size a hole temp h v = record {
  order = λ c p q r. v.edges c p q r (omega arith);
  same = λ f. refl;
}
sink-Sifted (suc fuel) expire lo size a hole temp h v =
    elim (Bool-cases (ltb (hole * 2 + 1) size)) [
      | inr leaf ↦
          rw leaf (record { order = λ c p q r. v.edges c p q r (ground arith); same = λ f. refl })
      | inl inner ↦
          let child = least_child expire size a hole in
          let k = least_child-IsLeast expire size a hole (ground arith) in
          elim (Bool-cases (ltb (expire (a child)) (expire temp))) [
            | inr settled ↦
                rw (inner, settled)
                  (record {
                    order = λ c p q r. ground (arith, v.edges c, k.least c, k.later);
                    same = λ f. refl;
                  })
            | inl below ↦
                rw (inner, below)
                  (Sifted-trans expire lo size (put a hole temp)
                    (put (put a hole (a child)) child temp)
                    (sink expire fuel size (put a hole (a child)) child temp)
                    (λ f.
                      total-moved f size hole child temp a (omega (arith, k.later, k.inside))
                        k.inside (omega (arith, k.later)))
                    (sink-Sifted fuel expire lo size (put a hole (a child)) child temp
                      (omega (arith, h, k.later))
                      (move-DownInv expire lo size a hole child temp k v (ground arith))))
          ]
    ]

total-put_same :
    (f : ℕ → ℕ) (size i : ℕ) (a : Array) → total f size (put a i (a i)) ≡ total f size a
total-put_same f size i a = total_cong f size (put a i (a i)) a (λ j l. ground arith)

-- An array in order past `i` is in order from `i` once the timer at `i` has sunk.
pub percolate_down-Sifted :
    (expire : ℕ → ℕ) (size : ℕ) (a : Array) (i : ℕ)
    → IsHeapFrom expire (i + 1) size a
    → Sifted expire i size a (percolate_down expire size a i)
unfolding percolate_down
percolate_down-Sifted expire size a i v =
    Sifted-trans expire i size a (put a i (a i)) (sink expire size size a i (a i))
      (λ f. total-put_same f size i a)
      (sink-Sifted size expire i size a i (a i) (omega arith) (record {
        past = omega arith;
        edges = λ c p q r ne. ground (arith, v c);
        bridged = λ c p q e r l. ground arith;
      }))

heapify-Sifted :
    (expire : ℕ → ℕ) (size n : ℕ) (a : Array)
    → IsHeapFrom expire n size a
    → Sifted expire 0 size a (heapify expire size n a)
unfolding heapify
heapify-Sifted expire size zero a v = record { order = v; same = λ f. refl }
heapify-Sifted expire size (suc i) a v =
    let d = percolate_down-Sifted expire size a i (λ c p q r. v c p q (omega (arith, r))) in
    Sifted-trans expire 0 size a (percolate_down expire size a i)
      (heapify expire size i (percolate_down expire size a i)) d.same
      (heapify-Sifted expire size i (percolate_down expire size a i) d.order)

built-Sifted :
    (expire : ℕ → ℕ) (size : ℕ) (a : Array)
    → Sifted expire 0 size a (if size == 0 then a else heapify expire size ((size - 1) / 2 + 1) a)
built-Sifted expire size a = elim (Bool-cases (size == 0)) [
  | inl no_timers ↦
      rw no_timers (record { order = λ c p q r. absurd (ground arith); same = λ f. refl })
  | inr timers ↦
      rw timers (
        heapify-Sifted expire size ((size - 1) / 2 + 1) a (λ c p q r. absurd (omega (arith, q, r))))
]

-- The second constructor, given an array of `size` timers and at least `size` entries, makes a heap of
-- those timers that is in order.
pub heap_of-IsHeap :
    (expire : ℕ → ℕ) (init_array : Array) (size capacity : ℕ)
    → size ≤ capacity
    → (h : Heap) × (heap_of expire init_array size capacity ≡ some h)
      × (h.cur_size ≡ size)
      × (h.capacity ≡ capacity)
      × IsHeap expire size h.array
      × ((f : ℕ → ℕ) → total f size h.array ≡ total f size init_array)
unfolding heap_of
heap_of-IsHeap expire init_array size capacity room =
    let a : Array = λ i. if ltb i size then init_array i else 0 in
    let copied = λ (f : ℕ → ℕ). total_cong f size a init_array (λ i l. ground arith) in
    let fits : ltb capacity size ≡ false = ground arith in
    let s = built-Sifted expire size a in
    let h : Heap = record {
      array = if size == 0 then a else heapify expire size ((size - 1) / 2 + 1) a;
      capacity = capacity;
      cur_size = size;
    } in
    (h, ap (λ b. if b then none else some h) fits, refl, refl, s.order, λ f. s.same f ∙ copied f)
