-- ===== src/TimerList/Delete.antt =====
-- `del_timer` takes a timer out, wherever it stands.
use mathlib.Core.Path.{subst}
use c_language_learnning.Base.{
  ℕ, ◌≡◌, ◌≢◌, refl, sym, ap, ◌∙◌, true, false, List, [], ◌∷◌, ◌++◌, append-nil, ◌==◌,
  if◌then◌else◌, arith,
}
use c_language_learnning.TimerList.{
  TimerList, put, tick_head, drop_head, cut_tail, unlink, del_timer,
}
use c_language_learnning.Base.Links.{
  All-at, All-without, All-last, last_or-append, first_other, All-behind,
}
use c_language_learnning.TimerList.Chain.{
  first, last_or, Apart, IsChain, Holds, IsSame, IsChain-same, apart_all,
}
use c_language_learnning.TimerList.Tick.{tick_head-Holds}

-- The chain from `t` on, behind `last_or y ys`.
pub record Behind (l : TimerList) (p t : ℕ) (zs : List ℕ) : Type 0 where
  pub named : p ≢ 0
  pub apart : Apart p (t ∷ zs)
  pub chain : IsChain l p (t ∷ zs)

pub IsChain-Behind :
    (l : TimerList) (b y : ℕ) (ys : List ℕ) (t : ℕ) (zs : List ℕ)
    → IsChain l b (y ∷ ys ++ (t ∷ zs))
    → Behind l (last_or y ys) t zs
unfolding IsChain last_or
IsChain-Behind l b y [] t zs v = record { named = v.0; apart = v.3; chain = v.4 }
IsChain-Behind l b y (x ∷ ys) t zs v = IsChain-Behind l y x ys t zs v.4

-- Once the timer in front of `t` points behind it, the chain goes on without `t`.
IsChain-cut :
    (l l' : TimerList) (b y : ℕ) (ys : List ℕ) (t : ℕ) (zs : List ℕ)
    → IsChain l b (y ∷ ys ++ (t ∷ zs))
    → ((a : ℕ) → a ≢ last_or y ys → l'.next a ≡ l.next a)
    → ((a : ℕ) → a ≢ first zs → l'.prev a ≡ l.prev a)
    → l'.next (last_or y ys) ≡ first zs
    → IsChain l' (last_or y ys) zs
    → IsChain l' b (y ∷ ys ++ zs)
unfolding IsChain last_or first
IsChain-cut l l' b y [] t zs v n p e rest =
    (v.0, p y (first_other y zs v.0 v.3.1) ∙ v.1, e, v.3.1, rest)
IsChain-cut l l' b y (x ∷ ys) t zs v n p e rest = (
  v.0,
  p y (first_other y zs v.0 (All-behind (λ a. a ≢ y) (x ∷ ys) t zs v.3)) ∙ v.1,
  n y (λ q. All-last (λ a. a ≢ y) x ys (t ∷ zs) v.3.0 v.3.1 (sym q)) ∙ v.2,
  All-without (λ a. a ≢ y) (x ∷ ys) t zs v.3,
  IsChain-cut l l' y x ys t zs v.4 n p e rest,
)

pub chain_prev : (l : TimerList) (b t : ℕ) (zs : List ℕ) → IsChain l b (t ∷ zs) → l.prev t ≡ b
unfolding IsChain
chain_prev l b t zs v = v.1

pub chain_next : (l : TimerList) (b t z : ℕ) (zs : List ℕ) → IsChain l b (t ∷ z ∷ zs) → l.next t ≡ z
unfolding IsChain first
chain_next l b t z zs v = v.2

none_behind : (l : TimerList) (b : ℕ) → IsChain l b []
unfolding IsChain
none_behind l b = tt

-- A timer in the middle.
pub unlink-rest :
    (l : TimerList) (p t z : ℕ) (zs : List ℕ)
    → l.prev t ≡ p
    → l.next t ≡ z
    → Behind l p t (z ∷ zs)
    → IsChain (unlink t l) p (z ∷ zs)
unfolding unlink IsChain first
unlink-rest l p t z zs before after v =
    let w = v.chain.4 in
    (
      w.0,
      ground (arith, v.apart.0, before, after),
      ground (arith, v.apart.1.0, before, w.2),
      w.3,
      IsChain-same l (unlink t l) z zs
          (apart_all (IsSame l (unlink t l)) p z z zs
            (λ a a_p a_z c. record {
              next_same = ground (arith, a_p, before);
              prev_same = ground (arith, a_z, before, after, v.apart.0);
            })
            v.apart.1.1 w.3 w.3)
          w.4,
    )

pub unlink-Holds :
    (l : TimerList) (y : ℕ) (ys : List ℕ) (t z : ℕ) (zs : List ℕ)
    → Holds l (y ∷ ys ++ (t ∷ z ∷ zs))
    → Holds (unlink t l) (y ∷ ys ++ (z ∷ zs))
unfolding unlink first last_or
unlink-Holds l y ys t z zs v =
    let b = IsChain-Behind l 0 y ys t (z ∷ zs) v.chain in
    let before : l.prev t ≡ last_or y ys = chain_prev l (last_or y ys) t (z ∷ zs) b.chain in
    let after : l.next t ≡ z = chain_next l (last_or y ys) t z zs b.chain in
    record {
      head_first = v.head_first;
      tail_last = v.tail_last ∙ last_or-append y ys t (z ∷ zs) ∙ sym (last_or-append y ys z zs);
      chain =
          IsChain-cut l (unlink t l) 0 y ys t (z ∷ zs) v.chain
            (λ a a_p. ground (arith, a_p, before))
            (λ a a_z. ground (arith, a_z, before, after, b.apart.0)) (ground (arith, before, after))
            (unlink-rest l (last_or y ys) t z zs before after b);
    }

-- The last timer, with others in front of it.
cut_tail-Holds :
    (l : TimerList) (y : ℕ) (ys : List ℕ) (t : ℕ)
    → Holds l (y ∷ ys ++ (t ∷ []))
    → Holds (cut_tail l) (y ∷ ys ++ [])
unfolding cut_tail first last_or
cut_tail-Holds l y ys t v =
    let b = IsChain-Behind l 0 y ys t [] v.chain in
    let last : l.tail ≡ t = v.tail_last ∙ last_or-append y ys t [] in
    let before : l.prev l.tail ≡ last_or y ys =
      ap l.prev last ∙ chain_prev l (last_or y ys) t [] b.chain in
    record {
      head_first = v.head_first;
      tail_last = before ∙ sym (ap (last_or y) (append-nil ys));
      chain =
          IsChain-cut l (cut_tail l) 0 y ys t [] v.chain (λ a a_p. ground (arith, a_p, before))
            (λ a a_z. refl) (ground (arith, before)) (none_behind (cut_tail l) (last_or y ys));
    }

second_named : (l : TimerList) (b t z : ℕ) (zs : List ℕ) → IsChain l b (t ∷ z ∷ zs) → z ≢ 0
unfolding IsChain
second_named l b t z zs v = v.4.0

pub drop_head-Holds :
    (l : TimerList) (t z : ℕ) (zs : List ℕ) → Holds l (t ∷ z ∷ zs) → Holds (drop_head l) (z ∷ zs)
unfolding drop_head tick_head first
drop_head-Holds l t z zs v =
    let after : l.next l.head ≡ z = ap l.next v.head_first ∙ chain_next l 0 t z zs v.chain in
    let some_next : (l.next l.head == 0) ≡ false =
      ground (arith, after, second_named l 0 t z zs v.chain) in
    subst
      (λ b.
        Holds
          (record l {
            head = l.next l.head;
            prev = if b then l.prev else put l.prev (l.next l.head) 0;
          })
          (z ∷ zs))
      some_next (tick_head-Holds l t (z ∷ zs) v)

-- A timer of the list, wherever it stands, is taken out by `del_timer`: the list then holds the others in their order,
-- linked both ways.
pub del_timer-Holds :
    (l : TimerList) (ys : List ℕ) (t : ℕ) (zs : List ℕ)
    → Holds l (ys ++ (t ∷ zs))
    → Holds (del_timer t l) (ys ++ zs)
unfolding del_timer IsChain first last_or
del_timer-Holds l [] t [] v =
    let named : (t == 0) ≡ false = ground (arith, v.chain.0) in
    let at_head : (t == l.head) ≡ true = ground (arith, v.head_first) in
    let at_tail : (t == l.tail) ≡ true = ground (arith, v.tail_last) in
    rw (named, at_head, at_tail) (record { head_first = refl; tail_last = refl; chain = tt })
del_timer-Holds l [] t (z ∷ zs) v =
    let named : (t == 0) ≡ false = ground (arith, v.chain.0) in
    let at_head : (t == l.head) ≡ true = ground (arith, v.head_first) in
    let other : last_or z zs ≢ t =
      All-last (λ a. a ≢ t) z zs [] v.chain.3.0 (rw (append-nil zs) v.chain.3.1) in
    let not_tail : (t == l.tail) ≡ false = ground (arith, v.tail_last, other) in
    rw (named, at_head, not_tail) (drop_head-Holds l t z zs v)
del_timer-Holds l (y ∷ ys) t [] v =
    let b = IsChain-Behind l 0 y ys t [] v.chain in
    let named : (t == 0) ≡ false = ground (arith, b.chain.0) in
    let not_head : (t == l.head) ≡ false =
      ground (arith, v.head_first, All-at (λ a. a ≢ y) ys t [] v.chain.3) in
    let at_tail : (t == l.tail) ≡ true = ground (arith, v.tail_last ∙ last_or-append y ys t []) in
    rw (named, not_head, at_tail) (cut_tail-Holds l y ys t v)
del_timer-Holds l (y ∷ ys) t (z ∷ zs) v =
    let b = IsChain-Behind l 0 y ys t (z ∷ zs) v.chain in
    let named : (t == 0) ≡ false = ground (arith, b.chain.0) in
    let not_head : (t == l.head) ≡ false =
      ground (arith, v.head_first, All-at (λ a. a ≢ y) ys t (z ∷ zs) v.chain.3) in
    let other : last_or z zs ≢ t =
      All-last (λ a. a ≢ t) z zs [] b.chain.3.0 (rw (append-nil zs) b.chain.3.1) in
    let not_tail : (t == l.tail) ≡ false =
      ground (arith, v.tail_last ∙ last_or-append y ys t (z ∷ zs), other) in
    rw (named, not_head, not_tail) (unlink-Holds l y ys t z zs v)
