-- ===== src/TimerList/Insert.antt =====
-- `add_timer` puts a timer in its place.
use Prim.Native.Nat.{◌<◌}
use c_language_learnning.Base.{
  ℕ, zero, suc, ◌≡◌, ◌≢◌, refl, sym, ◌∙◌, some, true, false, List, [], ◌∷◌, ltb, ◌==◌, arith,
  Bool-cases, inl, inr, length,
}
use c_language_learnning.TimerList.{TimerList, append, link, insert_loop}
use c_language_learnning.TimerList.Chain.{
  first, last_or, Apart, IsChain, IsSame, IsChain-same, apart_all, insort, Apart-insort,
}

-- What the loop makes of the timers behind `p`: `zs` in place of `ys`.
pub record Inserted (t : ℕ) (l : TimerList) (b p : ℕ) (ys zs : List ℕ) (l' : TimerList)
    : Type 0 where
  pub chain : IsChain l' b (p ∷ zs)
  pub same : (y : ℕ) → y ≢ t → y ≢ p → Apart y ys → IsSame l l' y
  pub head_same : l'.head ≡ l.head
  pub tail_last : l.tail ≡ last_or p ys → l'.tail ≡ last_or p zs

append-Inserted :
    (t : ℕ) (l : TimerList) (b p : ℕ)
    → t ≢ 0
    → t ≢ p
    → IsChain l b (p ∷ [])
    → Inserted t l b p [] (t ∷ []) (append l p t)
unfolding append IsChain first last_or
append-Inserted t l b p named ne v =
    let p_ne : (p == t) ≡ false = ground (arith, ne) in
    let hit : (t == t) ≡ true = ground arith in
    let hit_p : (p == p) ≡ true = ground arith in
    record {
      chain = (
        v.0,
        rw p_ne v.1,
        rw (p_ne, hit_p) refl,
        (λ e. ne e, tt),
        (named, rw hit refl, rw hit refl, tt, tt),
      );
      same = λ y y_t y_p h. record {
        next_same = ground (arith, y_t, y_p);
        prev_same = ground (arith, y_t);
      };
      head_same = refl;
      tail_last = λ e. refl;
    }

-- The timers behind `tmp` keep their links.
link-rest :
    (t : ℕ) (l : TimerList) (p y : ℕ) (ys : List ℕ)
    → Apart t ys
    → Apart p ys
    → Apart y ys
    → IsChain l y ys
    → IsChain (link l p t y) y ys
unfolding link
link-rest t l p y ys ht hp hy v =
    IsChain-same l (link l p t y) y ys
      (apart_all (IsSame l (link l p t y)) t p y ys
        (λ z z_t z_p z_y. record {
          next_same = ground (arith, z_t, z_p);
          prev_same = ground (arith, z_t, z_y);
        })
        ht hp hy)
      v

link-Inserted :
    (t : ℕ) (l : TimerList) (b p y : ℕ) (ys : List ℕ)
    → t ≢ 0
    → t ≢ p
    → Apart t (y ∷ ys)
    → IsChain l b (p ∷ y ∷ ys)
    → Inserted t l b p (y ∷ ys) (t ∷ y ∷ ys) (link l p t y)
unfolding link IsChain first last_or
link-Inserted t l b p y ys named ne apart v =
    let w = v.4 in
    record {
      chain = (
        v.0,
        ground (arith, ne, v.1, v.3.0),
        ground (arith, ne),
        (λ e. ne e, v.3),
        (
          named,
          ground arith,
          ground arith,
          apart,
          (
            w.0,
            ground (arith, apart.0),
            ground (arith, apart.0, v.3.0, w.2),
            w.3,
            link-rest t l p y ys apart.1 v.3.1 w.3 w.4,
          ),
        ),
      );
      same = λ z z_t z_p h. record {
        next_same = ground (arith, z_t, z_p);
        prev_same = ground (arith, z_t, h.0);
      };
      head_same = refl;
      tail_last = λ e. e;
    }

-- The timer is further back.
behind-Inserted :
    (t : ℕ) (l : TimerList) (b p y : ℕ) (ys zs : List ℕ) (l' : TimerList)
    → t ≢ p
    → Apart p zs
    → IsChain l b (p ∷ y ∷ ys)
    → Inserted t l p y ys zs l'
    → Inserted t l b p (y ∷ ys) (y ∷ zs) l'
unfolding IsChain first last_or
behind-Inserted t l b p y ys zs l' ne apart v r =
    let s = r.same p (λ e. ne (sym e)) (λ e. v.3.0 (sym e)) v.3.1 in
    record {
      chain = (v.0, s.prev_same ∙ v.1, s.next_same ∙ v.2, (v.3.0, apart), r.chain);
      same = λ z z_t z_p h. r.same z z_t (λ e. h.0 (sym e)) h.1;
      head_same = r.head_same;
      tail_last = r.tail_last;
    }

pub insort_early :
    (expire : ℕ → ℕ) (t y : ℕ) (ys : List ℕ)
    → ltb (expire t) (expire y) ≡ true
    → insort expire t (y ∷ ys) ≡ t ∷ y ∷ ys
unfolding insort
insort_early expire t y ys early = rw early refl

pub insort_late :
    (expire : ℕ → ℕ) (t y : ℕ) (ys : List ℕ)
    → ltb (expire t) (expire y) ≡ false
    → insort expire t (y ∷ ys) ≡ y ∷ insort expire t ys
unfolding insort
insort_late expire t y ys late = rw late refl

alone :
    (expire : ℕ → ℕ) (t : ℕ) (l : TimerList) (b p : ℕ)
    → Inserted t l b p [] (t ∷ []) (append l p t)
    → Inserted t l b p [] (insort expire t []) (append l p t)
unfolding insort
alone expire t l b p v = v

-- The loop finds the place, given more rounds than there are timers behind `p`.
pub insert_loop-Inserted :
    (fuel : ℕ) (expire : ℕ → ℕ) (t : ℕ) (l : TimerList) (b p : ℕ) (ys : List ℕ)
    → length ys < fuel
    → t ≢ 0
    → t ≢ p
    → Apart t ys
    → IsChain l b (p ∷ ys)
    → (l' : TimerList) × (insert_loop expire t fuel l p (first ys) ≡ some l')
      × Inserted t l b p ys (insort expire t ys) l'
unfolding insert_loop IsChain first
insert_loop-Inserted zero expire t l b p ys f named ne apart v = absurd (omega arith)
insert_loop-Inserted (suc fuel) expire t l b p [] f named ne apart v =
    (append l p t, refl, alone expire t l b p (append-Inserted t l b p named ne v))
insert_loop-Inserted (suc fuel) expire t l b p (y ∷ ys) f named ne apart v =
    let some_timer : (y == 0) ≡ false = ground (arith, v.4.0) in
    elim (Bool-cases (ltb (expire t) (expire y))) [
      | inl early ↦ (
        link l p t y,
        rw (some_timer, early) refl,
        rw (insort_early expire t y ys early) (link-Inserted t l b p y ys named ne apart v),
      )
      | inr late ↦
          let r =
            insert_loop-Inserted fuel expire t l p y ys (omega (arith, f)) named
              (λ e. apart.0 (sym e)) apart.1 v.4 in
          (
            r.0,
            rw (some_timer, late, v.4.2) r.1,
            rw (insort_late expire t y ys late) (
                behind-Inserted t l b p y ys (insort expire t ys) r.0 ne
                  (Apart-insort expire p t ys ne v.3.1) v r.2),
          )
    ]
