-- ===== src/TimeHeap/Up.antt =====
-- `add_timer` keeps the order.
use Prim.Native.Nat.{◌≤◌, ◌<◌}
use c_language_learnning.Base.{
  ℕ, zero, suc, ◌+◌, ◌≡◌, ◌≢◌, refl, ap, ◌∙◌, true, false, none, some, arith, Bool-cases, inl, inr,
  leb, ltb, ◌==◌, if◌then◌else◌,
}
use c_language_learnning.TimeHeap.{
  Array, put, Heap, parent, percolate_up, resize, insert, add_timer,
}
use c_language_learnning.TimeHeap.Order.{
  total, total-put_above, total-moved, total_cong, is_null, IsHeap, IsBridged, Sifted, Sifted-trans,
}

-- With the timer in the hole, only the edge above the hole may be out of order.
record UpInv (expire : ℕ → ℕ) (size : ℕ) (a : Array) (i : ℕ) : Type 0 where
  inside : i < size
  edges : (c : ℕ) → 0 < c → c < size → c ≢ i → expire (a (parent c)) ≤ expire (a c)
  bridged : IsBridged expire 0 size a i

-- `a` with the timer in the hole, and after the hole has moved to its parent.
move-UpInv :
    (expire : ℕ → ℕ) (size : ℕ) (a : Array) (hole timer : ℕ)
    → UpInv expire size (put a hole timer) hole
    → 0 < hole
    → expire timer < expire (a (parent hole))
    → UpInv expire size (put (put a hole (a (parent hole))) (parent hole) timer) (parent hole)
move-UpInv expire size a hole timer v pos below = record {
  inside = omega (arith, v.inside);
  edges = λ c p q ne. ground (arith, v.edges c, v.bridged c);
  bridged = λ c p q e r l. ground (arith, v.edges c, v.edges (parent hole), v.bridged c);
}

percolate_up-Sifted :
    (fuel : ℕ) (expire : ℕ → ℕ) (size : ℕ) (a : Array) (hole timer : ℕ)
    → hole ≤ fuel
    → UpInv expire size (put a hole timer) hole
    → Sifted expire 0 size (put a hole timer) (percolate_up expire fuel a hole timer)
unfolding percolate_up
percolate_up-Sifted zero expire size a hole timer h v = record {
  order = λ c p q r. v.edges c p q (omega arith);
  same = λ f. refl;
}
percolate_up-Sifted (suc fuel) expire size a hole timer h v = elim (Bool-cases (hole == 0)) [
  | inl root ↦
      rw root (record { order = λ c p q r. v.edges c p q (ground arith); same = λ f. refl })
  | inr inner ↦ elim (Bool-cases (leb (expire (a (parent hole))) (expire timer))) [
    | inl settled ↦
        rw (inner, settled)
          (record { order = λ c p q r. ground (arith, v.edges c); same = λ f. refl })
    | inr below ↦
        let above : parent hole < size = omega (arith, v.inside) in
        let apart : hole ≢ parent hole = ground arith in
        rw (inner, below)
          (Sifted-trans expire 0 size (put a hole timer)
            (put (put a hole (a (parent hole))) (parent hole) timer)
            (percolate_up expire fuel (put a hole (a (parent hole))) (parent hole) timer)
            (λ f. total-moved f size hole (parent hole) timer a v.inside above apart)
            (percolate_up-Sifted fuel expire size (put a hole (a (parent hole))) (parent hole) timer
              (ground arith) (move-UpInv expire size a hole timer v (ground arith) (ground arith))))
  ]
]

-- What a heap promises: room for its entries, its order, and no NULL among its entries.
pub record IsTimeHeap (expire : ℕ → ℕ) (h : Heap) : Type 0 where
  pub room : h.cur_size ≤ h.capacity
  pub some_room : 0 < h.capacity
  pub order : IsHeap expire h.cur_size h.array
  pub entries : total is_null h.cur_size h.array ≡ 0

grown :
    (f : ℕ → ℕ) (n timer : ℕ) (a : Array) → total f (n + 1) (put a n timer) ≡ total f n a + f timer
unfolding total
grown f n timer a =
    let e : n + 1 ≡ suc n = omega arith in
    let hit : (n == n) ≡ true = ground arith in
    rw e (rw hit (omega (arith, total-put_above f n n timer a (omega arith))))

hole-UpInv :
    (expire : ℕ → ℕ) (timer n : ℕ) (a : Array)
    → IsHeap expire n a
    → UpInv expire (n + 1) (put a n timer) n
hole-UpInv expire timer n a v = record {
  inside = omega arith;
  edges = λ c p q ne. ground (arith, v c);
  bridged = λ c p q e r l. ground arith;
}

named : (t : ℕ) → t ≢ 0 → is_null t ≡ 0
unfolding is_null
named t ne = ground arith

resize-total :
    (f : ℕ → ℕ) (h : Heap)
    → total f (resize h).cur_size (resize h).array ≡ total f h.cur_size h.array
unfolding resize
resize-total f h = total_cong f h.cur_size (resize h).array h.array (λ i l. ground arith)

insert-IsTimeHeap :
    (expire : ℕ → ℕ) (timer : ℕ) (h : Heap)
    → timer ≢ 0
    → h.cur_size < h.capacity
    → IsTimeHeap expire h
    → (h' : Heap) × (insert expire timer h ≡ some h')
      × IsTimeHeap expire h'
      × ((f : ℕ → ℕ) → total f h'.cur_size h'.array ≡ total f h.cur_size h.array + f timer)
unfolding insert
insert-IsTimeHeap expire timer h ne room v =
    let fits : ltb h.cur_size h.capacity ≡ true = ground arith in
    let up =
      percolate_up-Sifted h.cur_size expire (h.cur_size + 1) h.array h.cur_size timer (omega arith)
        (hole-UpInv expire timer h.cur_size h.array v.order) in
    let held = λ (f : ℕ → ℕ). up.same f ∙ grown f h.cur_size timer h.array in
    let out : Heap = record h {
      array = percolate_up expire h.cur_size h.array h.cur_size timer;
      cur_size = h.cur_size + 1;
    } in
    (
      out,
      ap (λ b. if b then some out else none) fits,
      record {
        room = omega arith;
        some_room = v.some_room;
        order = up.order;
        entries = held is_null ∙ omega (arith, v.entries, named timer ne);
      },
      held,
    )

resize-IsTimeHeap : (expire : ℕ → ℕ) (h : Heap) → IsTimeHeap expire h → IsTimeHeap expire (resize h)
unfolding resize
resize-IsTimeHeap expire h v = record {
  room = omega (arith, v.room);
  some_room = omega (arith, v.some_room);
  order = λ c p q r. ground (arith, v.order c);
  entries = resize-total is_null h ∙ v.entries;
}

resized :
    (h : Heap)
    → 0 < h.capacity
    → h.cur_size ≡ h.capacity
    → (resize h).cur_size < (resize h).capacity
unfolding resize
resized h pos e = omega arith

-- On a heap in order and without NULL, whose array has one entry at least and room for its timers, `add_timer`
-- of a timer writes within the array, and leaves such a heap, with the old timers and the new one.
pub add_timer-IsTimeHeap :
    (expire : ℕ → ℕ) (timer : ℕ) (h : Heap)
    → timer ≢ 0
    → IsTimeHeap expire h
    → (h' : Heap) × (add_timer expire timer h ≡ some h')
      × IsTimeHeap expire h'
      × ((f : ℕ → ℕ) → total f h'.cur_size h'.array ≡ total f h.cur_size h.array + f timer)
unfolding add_timer
add_timer-IsTimeHeap expire timer h ne v =
    let named : (timer == 0) ≡ false = ground arith in
    elim (Bool-cases (leb h.capacity h.cur_size)) [
      | inl full ↦
          let r =
            insert-IsTimeHeap expire timer (resize h) ne
              (resized h v.some_room (ground (arith, v.room))) (resize-IsTimeHeap expire h v) in
          (
            r.0,
            ap
                  (λ b.
                    if b
                    then some h
                    else insert expire timer (if leb h.capacity h.cur_size then resize h else h))
                  named
                ∙ ap (λ b. insert expire timer (if b then resize h else h)) full
                ∙ r.1,
            r.2,
            λ f. r.3 f ∙ ap (λ n. n + f timer) (resize-total f h),
          )
      | inr room ↦
          let r = insert-IsTimeHeap expire timer h ne (ground arith) v in
          (
            r.0,
            ap
                  (λ b.
                    if b
                    then some h
                    else insert expire timer (if leb h.capacity h.cur_size then resize h else h))
                  named
                ∙ ap (λ b. insert expire timer (if b then resize h else h)) room
                ∙ r.1,
            r.2,
            r.3,
          )
    ]
