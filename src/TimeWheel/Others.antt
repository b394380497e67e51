-- ===== src/TimeWheel/Others.antt =====
-- What the calls for one timer leave of the others.
use c_language_learnning.Base.{
  ℕ, zero, suc, ◌+◌, ◌%◌, ◌≡◌, ◌≢◌, refl, sym, ap, ◌∙◌, true, false, List, [], ◌∷◌, arith, ◌==◌,
  Bool-cases, inl, inr,
}
use c_language_learnning.TimeWheel.{Timer, Wheel, insert, remove, del_timer, tick, after, fired}
use c_language_learnning.TimeWheel.Slot.{has, rotations, aged, due, tick_slot-Aged, Holds}
use c_language_learnning.TimeWheel.Due.{never}

-- Two wheels that agree on the timers at one address.
record Alike (id : ℕ) (w w' : Wheel) : Type 0 where
  cur : w.cur_slot ≡ w'.cur_slot
  same : (i : ℕ) → rotations id (w.slots i) ≡ rotations id (w'.slots i)

tick-Alike :
    (id : ℕ) (w w' : Wheel)
    → Alike id w w'
    → (has id (tick w).0 ≡ has id (tick w').0) × Alike id (tick w).1 (tick w').1
unfolding tick
tick-Alike id w w' v =
    let a = tick_slot-Aged id (w.slots w.cur_slot) in
    let b = tick_slot-Aged id (w'.slots w'.cur_slot) in
    let now : rotations id (w.slots w.cur_slot) ≡ rotations id (w'.slots w'.cur_slot) =
      v.same w.cur_slot ∙ ap (λ i. rotations id (w'.slots i)) v.cur in
    (
      a.called ∙ ap due now ∙ sym b.called,
      record {
        cur = ap (λ i. (i + 1) % 60) v.cur;
        same = λ i. elim (Bool-cases (i == w.cur_slot)) [
          | inl hit ↦
              let hit' : (i == w'.cur_slot) ≡ true = ground (arith, v.cur) in
              rw (hit, hit') (a.kept ∙ ap aged now ∙ sym b.kept)
          | inr miss ↦
              let miss' : (i == w'.cur_slot) ≡ false = ground (arith, v.cur) in
              rw (miss, miss') (v.same i)
        ];
      },
    )

fired-Alike : (n id : ℕ) (w w' : Wheel) → Alike id w w' → has id (fired n w) ≡ has id (fired n w')
unfolding fired after
fired-Alike zero id w w' v = (tick-Alike id w w' v).0
fired-Alike (suc n) id w w' v = fired-Alike n id (tick w).1 (tick w').1 (tick-Alike id w w' v).1

insert-Alike : (id : ℕ) (t : Timer) (w : Wheel) → t.id ≢ id → Alike id (insert t w) w
unfolding insert rotations
insert-Alike id t w ne =
    let other : (t.id == id) ≡ false = ground (arith, ne) in
    record {
      cur = refl;
      same = λ i. elim (Bool-cases (i == t.time_slot)) [
        | inl hit ↦ rw (hit, other) (ap (λ k. rotations id (w.slots k)) (ground arith))
        | inr miss ↦ rw miss refl
      ];
    }

rotations-remove :
    (id gone : ℕ) (ts : List Timer) → gone ≢ id → rotations id (remove gone ts) ≡ rotations id ts
unfolding rotations remove
rotations-remove id gone [] ne = refl
rotations-remove id gone (t ∷ ts) ne =
    let ih = rotations-remove id gone ts ne in
    elim (Bool-cases (t.id == gone)) [
      | inl hit ↦ let other : (t.id == id) ≡ false = ground (arith, ne) in rw (hit, other) refl
      | inr miss ↦ rw miss (rw ih refl)
    ]

del_timer-Alike : (id : ℕ) (t : Timer) (w : Wheel) → t.id ≢ id → Alike id (del_timer t w) w
unfolding del_timer
del_timer-Alike id t w ne = record {
  cur = refl;
  same = λ i. elim (Bool-cases (i == t.time_slot)) [
    | inl hit ↦ rw hit (
        rotations-remove id t.id (w.slots t.time_slot) ne
        ∙ ap (λ k. rotations id (w.slots k)) (ground arith))
    | inr miss ↦ rw miss refl
  ];
}

-- Another timer is called at the same ticks whether or not a timer is added, and whether or not a timer is
-- deleted.
pub fired_others :
    (n id : ℕ) (t : Timer) (w : Wheel)
    → t.id ≢ id
    → (has id (fired n (insert t w)) ≡ has id (fired n w))
      × (has id (fired n (del_timer t w)) ≡ has id (fired n w))
fired_others n id t w ne = (
  fired-Alike n id (insert t w) w (insert-Alike id t w ne),
  fired-Alike n id (del_timer t w) w (del_timer-Alike id t w ne),
)

rotations-removed :
    (id : ℕ) (ts : List Timer) (r : ℕ) → rotations id ts ≡ r ∷ [] → rotations id (remove id ts) ≡ []
unfolding rotations remove
rotations-removed id [] r e = refl
rotations-removed id (t ∷ ts) r e = elim (Bool-cases (t.id == id)) [
  | inl hit ↦ let e' : t.rotation ∷ rotations id ts ≡ r ∷ [] = rw hit at e in rw hit cc
  | inr miss ↦
      let e' : rotations id ts ≡ r ∷ [] = rw miss at e in
      rw miss (rw miss (rotations-removed id ts r e'))
]

del_timer-Holds :
    (t : Timer) (r : ℕ) (w : Wheel)
    → Holds t.id t.time_slot (r ∷ []) w
    → Holds t.id t.time_slot [] (del_timer t w)
unfolding del_timer
del_timer-Holds t r w v =
    let here : (t.time_slot == t.time_slot) ≡ true = ground arith in
    record {
      low = v.low;
      cur_low = v.cur_low;
      here = rw here (rotations-removed t.id (w.slots t.time_slot) r v.here);
      elsewhere = λ i ne.
          let miss : (i == t.time_slot) ≡ false = ground (arith, ne) in rw miss (v.elsewhere i ne);
    }

-- A timer that is in the wheel once and is deleted is not called any more.
pub fired-del_timer :
    (n : ℕ) (t : Timer) (r : ℕ) (w : Wheel)
    → Holds t.id t.time_slot (r ∷ []) w
    → has t.id (fired n (del_timer t w)) ≡ false
fired-del_timer n t r w v = never t.id t.time_slot n (del_timer t w) (del_timer-Holds t r w v)
