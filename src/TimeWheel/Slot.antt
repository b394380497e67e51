-- ===== src/TimeWheel/Slot.antt =====
-- What a tick makes of the timers of one address.
use Prim.Native.Nat.{◌<◌}
use c_language_learnning.Base.{
  ℕ, zero, suc, ◌-◌, ◌≡◌, ◌≢◌, refl, ap, ◌∙◌, Bool, true, false, ◌||◌, List, [], ◌∷◌, arith, ltb,
  ◌==◌, if◌then◌else◌, Bool-cases, ◌⊎◌, inl, inr,
}
use c_language_learnning.TimeWheel.{Timer, Wheel, tick_slot, tick}

pub dec_eq : (a b : ℕ) → (a ≡ b) ⊎ (a ≢ b)
dec_eq a b = elim (Bool-cases (a == b)) [ inl e ↦ inl (ground arith) | inr e ↦ inr (ground arith) ]

abbrev pub has : ℕ → List ℕ → Bool
has id [] = false
has id (x ∷ xs) = (x == id) || has id xs

-- The rotations of the timers at `id` in a slot.
unfoldable pub rotations : ℕ → List Timer → List ℕ
rotations id [] = []
rotations id (t ∷ ts) = let rest = rotations id ts in if t.id == id then t.rotation ∷ rest else rest

-- What a tick of the slot makes of them, and whether one of them is due.
abbrev pub aged : List ℕ → List ℕ
aged [] = []
aged (zero ∷ rs) = aged rs
aged (suc r ∷ rs) = r ∷ aged rs

abbrev pub due : List ℕ → Bool
due [] = false
due (zero ∷ rs) = true
due (suc r ∷ rs) = due rs

pub record Aged (id : ℕ) (ts : List Timer) : Type 0 where
  pub kept : rotations id (tick_slot ts).1 ≡ aged (rotations id ts)
  pub called : has id (tick_slot ts).0 ≡ due (rotations id ts)

pub cons-Aged :
    (id i r s : ℕ) (ts : List Timer)
    → Aged id ts
    → Aged id (record { id = i; rotation = r; time_slot = s } ∷ ts)
unfolding rotations tick_slot
cons-Aged id i zero s ts v = elim (Bool-cases (i == id)) [
  | inl same ↦ record { kept = rw same v.kept; called = rw same refl }
  | inr other ↦ record { kept = rw other v.kept; called = rw other v.called }
]
cons-Aged id i (suc r) s ts v =
    let more : ltb 0 (suc r) ≡ true = ground arith in
    let back : suc r - 1 ≡ r = omega arith in
    elim (Bool-cases (i == id)) [
      | inl same ↦ record {
        kept = rw (more, same, back) (ap (λ l. r ∷ l) v.kept);
        called = rw (more, same) v.called;
      }
      | inr other ↦ record { kept = rw (more, other) v.kept; called = rw (more, other) v.called }
    ]

pub tick_slot-Aged : (id : ℕ) (ts : List Timer) → Aged id ts
unfolding rotations tick_slot
tick_slot-Aged id [] = record { kept = refl; called = refl }
tick_slot-Aged id (t ∷ ts) = cons-Aged id t.id t.rotation t.time_slot ts (tick_slot-Aged id ts)

-- The timers at `id` are in slot `at` only, with these rotations.
pub record Holds (id at : ℕ) (rs : List ℕ) (w : Wheel) : Type 0 where
  pub low : at < 60
  pub cur_low : w.cur_slot < 60
  pub here : rotations id (w.slots at) ≡ rs
  pub elsewhere : (i : ℕ) → i ≢ at → rotations id (w.slots i) ≡ []

-- What a tick makes of this.
pub tick-here :
    (id at : ℕ) (rs : List ℕ) (w : Wheel)
    → Holds id at rs w
    → w.cur_slot ≡ at
    → (has id (tick w).0 ≡ due rs) × Holds id at (aged rs) (tick w).1
unfolding tick
tick-here id at rs w v e =
    let s = tick_slot-Aged id (w.slots w.cur_slot) in
    let now : rotations id (w.slots w.cur_slot) ≡ rs =
      ap (λ i. rotations id (w.slots i)) e ∙ v.here in
    let hit : (at == w.cur_slot) ≡ true = ground (arith, e) in
    (
      s.called ∙ ap due now,
      record {
        low = v.low;
        cur_low = omega (arith, v.cur_low);
        here = rw hit (s.kept ∙ ap aged now);
        elsewhere = λ i ne.
            let miss : (i == w.cur_slot) ≡ false = ground (arith, e) in rw miss (v.elsewhere i ne);
      },
    )

pub tick-elsewhere :
    (id at : ℕ) (rs : List ℕ) (w : Wheel)
    → Holds id at rs w
    → w.cur_slot ≢ at
    → (has id (tick w).0 ≡ false) × Holds id at rs (tick w).1
unfolding tick
tick-elsewhere id at rs w v ne =
    let s = tick_slot-Aged id (w.slots w.cur_slot) in
    let absent = v.elsewhere w.cur_slot ne in
    let miss : (at == w.cur_slot) ≡ false = ground (arith, ne) in
    (
      s.called ∙ ap due absent,
      record {
        low = v.low;
        cur_low = omega (arith, v.cur_low);
        here = rw miss v.here;
        elsewhere = λ i other. elim (Bool-cases (i == w.cur_slot)) [
          | inl now ↦ rw now (s.kept ∙ ap aged absent)
          | inr later ↦ rw later (v.elsewhere i other)
        ];
      },
    )
