-- ===== src/TimerList/Add.antt =====
-- `add_timer`, and the order of the list.
use Prim.Native.Nat.{◌≤◌}
use c_language_learnning.Base.{
  ℕ, ◌≡◌, ◌≢◌, refl, sym, ap, ◌∙◌, some, true, false, List, [], ◌∷◌, ltb, ◌==◌, arith, All,
  Bool-cases, inl, inr, length,
}
use c_language_learnning.TimerList.{TimerList, insert_loop, insert, push_front, add_timer}
use c_language_learnning.TimerList.Chain.{
  first, last_or, Apart, IsChain, Holds, IsSame, IsChain-same, apart_all, insort,
}
use c_language_learnning.TimerList.Insert.{insert_loop-Inserted, insort_early, insort_late}

-- No timer expires before the one in front of it.
unfoldable pub IsAscending : (ℕ → ℕ) → List ℕ → Type 0
IsAscending expire [] = Unit
IsAscending expire (x ∷ xs) = All (λ y. expire x ≤ expire y) xs × IsAscending expire xs

All-insort :
    (P : ℕ → Type 0) (expire : ℕ → ℕ) (t : ℕ) (xs : List ℕ)
    → P t
    → All P xs
    → All P (insort expire t xs)
unfolding insort
All-insort P expire t [] p h = (p, tt)
All-insort P expire t (x ∷ xs) p h = elim (Bool-cases (ltb (expire t) (expire x))) [
  | inl early ↦ rw early ((p, h))
  | inr late ↦ rw late ((h.0, All-insort P expire t xs p h.1))
]

pub All-map : (P Q : ℕ → Type 0) (xs : List ℕ) → ((y : ℕ) → P y → Q y) → All P xs → All Q xs
All-map P Q [] f h = tt
All-map P Q (x ∷ xs) f h = (f x h.0, All-map P Q xs f h.1)

insort-IsAscending :
    (expire : ℕ → ℕ) (t : ℕ) (xs : List ℕ)
    → IsAscending expire xs
    → IsAscending expire (insort expire t xs)
unfolding insort IsAscending
insort-IsAscending expire t [] v = (tt, tt)
insort-IsAscending expire t (x ∷ xs) v = elim (Bool-cases (ltb (expire t) (expire x))) [
  | inl early ↦
      let first : expire t ≤ expire x = ground (arith, early) in
      rw early (
        (
          (
            first,
            All-map (λ y. expire x ≤ expire y) (λ y. expire t ≤ expire y) xs (λ y h. omega arith)
                v.0,
          ),
          v,
        ))
  | inr late ↦ rw late (
      (
        All-insort (λ y. expire x ≤ expire y) expire t xs (ground (arith, late)) v.0,
        insort-IsAscending expire t xs v.1,
      ))
]

push_front-Holds :
    (t : ℕ) (l : TimerList) (x : ℕ) (xs : List ℕ)
    → t ≢ 0
    → Apart t (x ∷ xs)
    → l.prev t ≡ 0
    → Holds l (x ∷ xs)
    → Holds (push_front t l) (t ∷ x ∷ xs)
unfolding push_front IsChain first last_or
push_front-Holds t l x xs named apart fresh v =
    let w = v.chain in
    record {
      head_first = refl;
      tail_last = v.tail_last;
      chain = (
        named,
        ground (arith, apart.0, v.head_first, fresh),
        ground (arith, v.head_first),
        apart,
        (
          w.0,
          ground (arith, v.head_first),
          ground (arith, apart.0, w.2),
          w.3,
          IsChain-same l (push_front t l) x xs
              (apart_all (IsSame l (push_front t l)) t x x xs
                (λ z z_t z_x y. record {
                  next_same = ground (arith, z_t);
                  prev_same = ground (arith, z_x, v.head_first);
                })
                apart.1 w.3 w.3)
              w.4,
        ),
      );
    }

insort_none : (expire : ℕ → ℕ) (t : ℕ) → insort expire t [] ≡ t ∷ []
unfolding insort
insort_none expire t = refl

-- The first timer of all.
single-Holds :
    (t : ℕ) (l : TimerList)
    → t ≢ 0
    → l.prev t ≡ 0
    → l.next t ≡ 0
    → Holds (record l { head = t; tail = t }) (t ∷ [])
unfolding IsChain first last_or
single-Holds t l named p n = record {
  head_first = refl;
  tail_last = refl;
  chain = (named, p, n, tt, tt);
}

-- With rounds for all timers, a timer that is not in the list and whose links are NULL, and a list in
-- ascending order, `add_timer` returns a list linked both ways of the old timers and the new one, which stands behind
-- those that expire no later; that is in ascending order too.
pub add_timer-Holds :
    (fuel : ℕ) (expire : ℕ → ℕ) (t : ℕ) (l : TimerList) (xs : List ℕ)
    → length xs ≤ fuel
    → t ≢ 0
    → Apart t xs
    → l.prev t ≡ 0
    → l.next t ≡ 0
    → Holds l xs
    → IsAscending expire xs
    → (l' : TimerList) × (add_timer expire fuel t l ≡ some l')
      × Holds l' (insort expire t xs)
      × IsAscending expire (insort expire t xs)
unfolding add_timer insert IsChain first last_or
add_timer-Holds fuel expire t l [] f named apart p n v o =
    let t_named : (t == 0) ≡ false = ground (arith, named) in
    let no_head : (l.head == 0) ≡ true = ground (arith, v.head_first) in
    (
      record l { head = t; tail = t },
      rw (t_named, no_head) refl,
      rw (insort_none expire t) (single-Holds t l named p n),
      insort-IsAscending expire t [] o,
    )
add_timer-Holds fuel expire t l (x ∷ xs) f named apart p n v o =
    let t_named : (t == 0) ≡ false = ground (arith, named) in
    let some_head : (l.head == 0) ≡ false = ground (arith, v.chain.0, v.head_first) in
    let same_test : ltb (expire t) (expire l.head) ≡ ltb (expire t) (expire x) =
      ap (λ h. ltb (expire t) (expire h)) v.head_first in
    elim (Bool-cases (ltb (expire t) (expire x))) [
      | inl early ↦ (
        push_front t l,
        rw (t_named, some_head, same_test ∙ early) refl,
        rw (insort_early expire t x xs early) (push_front-Holds t l x xs named apart p v),
        insort-IsAscending expire t (x ∷ xs) o,
      )
      | inr late ↦
          let r =
            insert_loop-Inserted fuel expire t l 0 x xs (omega (arith, f)) named
              (λ e. apart.0 (sym e)) apart.1 v.chain in
          (
            r.0,
            rw (t_named, some_head, same_test ∙ late)
                (ap (λ h. insert_loop expire t fuel l h (l.next h)) v.head_first
                  ∙ ap (λ n. insert_loop expire t fuel l x n) v.chain.2
                  ∙ r.1),
            rw (insort_late expire t x xs late) (record {
              head_first = r.2.head_same ∙ v.head_first;
              tail_last = r.2.tail_last v.tail_last;
              chain = r.2.chain;
            }),
            insort-IsAscending expire t (x ∷ xs) o,
          )
    ]
