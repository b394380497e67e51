-- ===== src/TimerList/Adjust.antt =====
-- `adjust_timer` moves a timer back whose time was put off.
use Prim.Native.Nat.{◌≤◌, ◌<◌}
use c_language_learnning.Base.{
  ℕ, ◌≡◌, ◌≢◌, refl, sym, ap, ◌∙◌, some, true, false, List, [], ◌∷◌, ◌++◌, ◌==◌, ltb, if◌then◌else◌,
  arith, All, Bool-cases, inl, inr, length, All-append,
}
use c_language_learnning.TimerList.{
  TimerList, put, drop_head, unlink, insert, insert_loop, adjust_timer,
}
use c_language_learnning.Base.Links.{All-at, last_or-append}
use c_language_learnning.TimerList.Chain.{
  first, last_or, Apart, IsChain, Holds, IsSame, IsChain-same, apart_all, insort, Apart-insort,
}
use c_language_learnning.TimerList.Insert.{insert_loop-Inserted, insort_early, insort_late}
use c_language_learnning.TimerList.Delete.{
  IsChain-Behind, chain_next, chain_prev, unlink-Holds, drop_head-Holds, unlink-rest,
}

All-front : (P : ℕ → Type 0) (ys zs : List ℕ) → All P (ys ++ zs) → All P ys
All-front P [] zs h = tt
All-front P (y ∷ ys) zs h = (h.0, All-front P ys zs h.1)

All-back : (P : ℕ → Type 0) (ys zs : List ℕ) → All P (ys ++ zs) → All P zs
All-back P [] zs h = h
All-back P (y ∷ ys) zs h = All-back P ys zs h.1

-- The timers in front of `t` are others.
front-Apart :
    (l : TimerList) (b : ℕ) (ys : List ℕ) (t : ℕ) (zs : List ℕ)
    → IsChain l b (ys ++ (t ∷ zs))
    → Apart t ys
unfolding IsChain
front-Apart l b [] t zs v = tt
front-Apart l b (y ∷ ys) t zs v =
    (λ e. All-at (λ a. a ≢ y) ys t zs v.3 (sym e), front-Apart l y ys t zs v.4)

-- What stands behind some timers is replaced by a chain with the same first timer.
IsChain-swap :
    (l l' : TimerList) (t b y : ℕ) (ys ts us : List ℕ)
    → first ts ≡ first us
    → ((a : ℕ) → a ≢ t → Apart a ts → IsSame l l' a × Apart a us)
    → Apart t (y ∷ ys)
    → IsChain l b (y ∷ ys ++ ts)
    → IsChain l' (last_or y ys) us
    → IsChain l' b (y ∷ ys ++ us)
unfolding IsChain last_or first
IsChain-swap l l' t b y [] ts us e f apart v w =
    let s = f y apart.0 v.3 in (v.0, s.0.prev_same ∙ v.1, s.0.next_same ∙ v.2 ∙ e, s.1, w)
IsChain-swap l l' t b y (x ∷ ys) ts us e f apart v w =
    let s = f y apart.0 (All-back (λ a. a ≢ y) (x ∷ ys) ts v.3) in
    (
      v.0,
      s.0.prev_same ∙ v.1,
      s.0.next_same ∙ v.2,
      All-append (λ a. a ≢ y) (x ∷ ys) us (All-front (λ a. a ≢ y) (x ∷ ys) ts v.3) s.1,
      IsChain-swap l l' t y x ys ts us e f apart.1 v.4 w,
    )

-- A timer put off that stands behind others.
inner :
    (fuel : ℕ) (expire : ℕ → ℕ) (l : TimerList) (y : ℕ) (ys : List ℕ) (t z : ℕ) (zs : List ℕ)
    → length zs < fuel
    → Holds l (y ∷ ys ++ (t ∷ z ∷ zs))
    → (l' : TimerList) × (insert expire fuel t (unlink t l) z ≡ some l')
      × Holds l' (y ∷ ys ++ (z ∷ insort expire t zs))
unfolding insert IsChain first last_or
inner fuel expire l y ys t z zs f v =
    let b = IsChain-Behind l 0 y ys t (z ∷ zs) v.chain in
    let before = chain_prev l (last_or y ys) t (z ∷ zs) b.chain in
    let after = chain_next l (last_or y ys) t z zs b.chain in
    let cut = unlink-Holds l y ys t z zs v in
    let rest = unlink-rest l (last_or y ys) t z zs before after b in
    let t_z : t ≢ z = λ e. b.chain.3.0 (sym e) in
    let r =
      insert_loop-Inserted fuel expire t (unlink t l) (last_or y ys) z zs f b.chain.0 t_z
        b.chain.3.1 rest in
    (
      r.0,
      ap (λ n. insert_loop expire t fuel (unlink t l) z n) rest.2 ∙ r.1,
      record {
        head_first = r.2.head_same ∙ cut.head_first;
        tail_last =
            r.2.tail_last (cut.tail_last ∙ last_or-append y ys z zs)
            ∙ sym (last_or-append y ys z (insort expire t zs));
        chain =
            IsChain-swap (unlink t l) r.0 t 0 y ys (z ∷ zs) (z ∷ insort expire t zs) refl
              (λ a a_t h. (
                r.2.same a a_t (λ e. h.0 (sym e)) h.1,
                (h.0, Apart-insort expire a t zs (λ e. a_t (sym e)) h.1),
              ))
              (front-Apart l 0 (y ∷ ys) t (z ∷ zs) v.chain) cut.chain r.2.chain;
      },
    )

-- The list without its head `t`, whose own link is cleared.
abbrev headless : TimerList → ℕ → TimerList
headless l t = record (drop_head l) { next = put (drop_head l).next t 0 }

headless-Holds :
    (l : TimerList) (t z : ℕ) (zs : List ℕ) → Holds l (t ∷ z ∷ zs) → Holds (headless l t) (z ∷ zs)
unfolding drop_head IsChain
headless-Holds l t z zs v =
    let d = drop_head-Holds l t z zs v in
    record {
      head_first = d.head_first;
      tail_last = d.tail_last;
      chain =
          IsChain-same (drop_head l) (headless l t) 0 (z ∷ zs)
            (apart_all (IsSame (drop_head l) (headless l t)) t t t (z ∷ zs)
              (λ a a_t b c. record { next_same = ground (arith, a_t); prev_same = refl }) v.chain.3
              v.chain.3 v.chain.3)
            d.chain;
    }

-- A timer put off that stands at the head.
outer :
    (fuel : ℕ) (expire : ℕ → ℕ) (l : TimerList) (t z : ℕ) (zs : List ℕ)
    → length zs < fuel
    → Holds l (t ∷ z ∷ zs)
    → (l' : TimerList) × (insert expire fuel t (headless l t) (drop_head l).head ≡ some l')
      × Holds l' (z ∷ insort expire t zs)
unfolding insert IsChain first last_or
outer fuel expire l t z zs f v =
    let d = headless-Holds l t z zs v in
    let r =
      insert_loop-Inserted fuel expire t (headless l t) 0 z zs f v.chain.0
        (λ e. v.chain.3.0 (sym e)) v.chain.3.1 d.chain in
    (
      r.0,
      ap (λ h. insert_loop expire t fuel (headless l t) h ((headless l t).next h)) d.head_first
          ∙ ap (λ n. insert_loop expire t fuel (headless l t) z n) d.chain.2
          ∙ r.1,
      record {
        head_first = r.2.head_same ∙ d.head_first;
        tail_last = r.2.tail_last d.tail_last;
        chain = r.2.chain;
      },
    )

-- The last branches of `adjust_timer`.
moved :
    (fuel : ℕ) (expire : ℕ → ℕ) (l : TimerList) (ys : List ℕ) (t z : ℕ) (zs : List ℕ)
    → length zs < fuel
    → Holds l (ys ++ (t ∷ z ∷ zs))
    → (l' : TimerList) × ((if t == l.head
          then insert expire fuel t (headless l t) (drop_head l).head
          else insert expire fuel t (unlink t l) ((unlink t l).next t))
        ≡ some l')
      × Holds l' (ys ++ (z ∷ insort expire t zs))
unfolding unlink first
moved fuel expire l [] t z zs f v =
    let at_head : (t == l.head) ≡ true = ground (arith, v.head_first) in
    let r = outer fuel expire l t z zs f v in (r.0, rw at_head r.1, r.2)
moved fuel expire l (y ∷ ys) t z zs f v =
    let b = IsChain-Behind l 0 y ys t (z ∷ zs) v.chain in
    let before = chain_prev l (last_or y ys) t (z ∷ zs) b.chain in
    let after = chain_next l (last_or y ys) t z zs b.chain in
    let ne = (front-Apart l 0 (y ∷ ys) t (z ∷ zs) v.chain).0 in
    let not_head : (t == l.head) ≡ false = ground (arith, v.head_first, ne) in
    let next_t : (unlink t l).next t ≡ z = ground (arith, before, after, b.apart.0) in
    let r = inner fuel expire l y ys t z zs f v in
    (r.0, rw not_head (ap (λ n. insert expire fuel t (unlink t l) n) next_t ∙ r.1), r.2)

chain_named :
    (l : TimerList) (b : ℕ) (ys : List ℕ) (t : ℕ) (zs : List ℕ)
    → IsChain l b (ys ++ (t ∷ zs))
    → t ≢ 0
unfolding IsChain
chain_named l b [] t zs v = v.0
chain_named l b (y ∷ ys) t zs v = chain_named l y ys t zs v.4

next-first :
    (l : TimerList) (b : ℕ) (ys : List ℕ) (t : ℕ) (zs : List ℕ)
    → IsChain l b (ys ++ (t ∷ zs))
    → l.next t ≡ first zs
unfolding IsChain
next-first l b [] t zs v = v.2
next-first l b (y ∷ ys) t zs v = next-first l y ys t zs v.4

next_named :
    (l : TimerList) (b : ℕ) (ys : List ℕ) (t z : ℕ) (zs : List ℕ)
    → IsChain l b (ys ++ (t ∷ z ∷ zs))
    → z ≢ 0
unfolding IsChain
next_named l b [] t z zs v = v.4.0
next_named l b (y ∷ ys) t z zs v = next_named l y ys t z zs v.4

-- With rounds for all timers, `adjust_timer` of a timer of the list returns a list linked both ways in which the
-- timer stands behind those that stood in front of it and, of those behind it, behind the ones that expire no later
-- than it does now.
pub adjust_timer-Holds :
    (fuel : ℕ) (expire : ℕ → ℕ) (l : TimerList) (ys : List ℕ) (t : ℕ) (zs : List ℕ)
    → length zs ≤ fuel
    → Holds l (ys ++ (t ∷ zs))
    → (l' : TimerList) × (adjust_timer expire fuel t l ≡ some l')
      × Holds l' (ys ++ insort expire t zs)
unfolding adjust_timer first insort
adjust_timer-Holds fuel expire l ys t [] f v =
    let named : (t == 0) ≡ false = ground (arith, chain_named l 0 ys t [] v.chain) in
    let at_end : (l.next t == 0) ≡ true = ground (arith, next-first l 0 ys t [] v.chain) in
    (l, rw (named, at_end) refl, v)
adjust_timer-Holds fuel expire l ys t (z ∷ zs) f v =
    let after : l.next t ≡ z = next-first l 0 ys t (z ∷ zs) v.chain in
    let named : (t == 0) ≡ false = ground (arith, chain_named l 0 ys t (z ∷ zs) v.chain) in
    let some_next : (l.next t == 0) ≡ false =
      ground (arith, after, next_named l 0 ys t z zs v.chain) in
    let same_test : ltb (expire t) (expire (l.next t)) ≡ ltb (expire t) (expire z) =
      ap (λ n. ltb (expire t) (expire n)) after in
    elim (Bool-cases (ltb (expire t) (expire z))) [
      | inl early ↦ (
        l,
        rw (named, some_next, same_test ∙ early) refl,
        rw (insort_early expire t z zs early) v,
      )
      | inr late ↦
          let r = moved fuel expire l ys t z zs (omega (arith, f)) v in
          (
            r.0,
            rw (named, some_next, same_test ∙ late) r.1,
            rw (insort_late expire t z zs late) r.2,
          )
    ]
