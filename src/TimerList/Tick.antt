-- ===== src/TimerList/Tick.antt =====
-- The timers that `tick` calls.
use Prim.Native.Nat.{◌≤◌, ◌<◌}
use mathlib.Core.Path.{subst}
use c_language_learnning.Base.{
  ℕ, zero, suc, ◌≡◌, refl, sym, ap, ◌∙◌, Option, some, true, false, List, [], ◌∷◌, ◌++◌, ltb, ◌==◌,
  arith, All, Bool-cases, inl, inr, length,
}
use c_language_learnning.TimerList.{TimerList, tick_head, tick, called}
use c_language_learnning.TimerList.Chain.{
  first, last_or, IsChain, Holds, IsSame, IsChain-same, apart_all,
}
use c_language_learnning.TimerList.Add.{IsAscending, All-map}

-- A round leaves the timers behind the first.
pub tick_head-Holds :
    (l : TimerList) (x : ℕ) (xs : List ℕ) → Holds l (x ∷ xs) → Holds (tick_head l) xs
unfolding tick_head IsChain first last_or
tick_head-Holds l x [] v = record {
  head_first = ap l.next v.head_first ∙ v.chain.2;
  tail_last = refl;
  chain = tt;
}
tick_head-Holds l x (y ∷ ys) v =
    let w = v.chain.4 in
    let head_y : l.next l.head ≡ y = ap l.next v.head_first ∙ v.chain.2 in
    record {
      head_first = head_y;
      tail_last = v.tail_last;
      chain = (
        w.0,
        ground (arith, head_y, w.0),
        w.2,
        w.3,
        IsChain-same l (tick_head l) y ys
            (apart_all (IsSame l (tick_head l)) y y y ys
              (λ z z_y a b. record {
                next_same = refl;
                prev_same = ground (arith, head_y, z_y, w.0);
              })
              w.3 w.3 w.3)
            w.4,
      );
    }

-- The timers called, and those left.
pub record Called (expire : ℕ → ℕ) (cur : ℕ) (xs : List ℕ) (r : Option (List ℕ × TimerList))
    : Type 0 where
  pub due : List ℕ
  pub left : List ℕ
  pub after : TimerList
  pub returns : r ≡ some (due, after)
  pub parts : due ++ left ≡ xs
  pub due_now : All (λ t. expire t ≤ cur) due
  pub left_later : All (λ t. cur < expire t) left
  pub holds : Holds after left

stopped-Called :
    (expire : ℕ → ℕ) (cur : ℕ) (l : TimerList) (xs : List ℕ)
    → Holds l xs
    → All (λ t. cur < expire t) xs
    → Called expire cur xs (some ([], l))
stopped-Called expire cur l xs v later = record {
  due = [];
  left = xs;
  after = l;
  returns = refl;
  parts = refl;
  due_now = tt;
  left_later = later;
  holds = v;
}

called-Called :
    (expire : ℕ → ℕ) (cur x : ℕ) (xs : List ℕ) (r : Option (List ℕ × TimerList))
    → expire x ≤ cur
    → Called expire cur xs r
    → Called expire cur (x ∷ xs) (called x r)
unfolding called
called-Called expire cur x xs r now v = record {
  due = x ∷ v.due;
  left = v.left;
  after = v.after;
  returns = ap (called x) v.returns;
  parts = ap (λ ys. x ∷ ys) v.parts;
  due_now = (now, v.due_now);
  left_later = v.left_later;
  holds = v.holds;
}

-- With one round more than there are timers, on a list in ascending order, `tick` returns: it calls the timers at the
-- front that expire at `cur` or before, each once and in their order, and the list then holds the others, which
-- all expire later.
pub tick-Called :
    (fuel : ℕ) (expire : ℕ → ℕ) (cur : ℕ) (l : TimerList) (xs : List ℕ)
    → length xs < fuel
    → Holds l xs
    → IsAscending expire xs
    → Called expire cur xs (tick expire cur fuel l)
unfolding tick IsAscending IsChain first
tick-Called zero expire cur l xs f v o = absurd (omega arith)
tick-Called (suc fuel) expire cur l [] f v o =
    let no_head : (l.head == 0) ≡ true = ground (arith, v.head_first) in
    rw no_head (stopped-Called expire cur l [] v tt)
tick-Called (suc fuel) expire cur l (x ∷ xs) f v o =
    let some_head : (l.head == 0) ≡ false = ground (arith, v.chain.0, v.head_first) in
    let same_test : ltb cur (expire l.head) ≡ ltb cur (expire x) =
      ap (λ h. ltb cur (expire h)) v.head_first in
    elim (Bool-cases (ltb cur (expire x))) [
      | inl later ↦
          let x_later : cur < expire x = ground (arith, later) in
          rw (some_head, same_test ∙ later)
            (stopped-Called expire cur l (x ∷ xs) v (
              x_later,
              All-map (λ y. expire x ≤ expire y) (λ y. cur < expire y) xs (λ y h. omega arith) o.0,
            ))
      | inr now ↦
          rw (some_head, same_test ∙ now)
            (subst (λ h. Called expire cur (x ∷ xs) (called h (tick expire cur fuel (tick_head l))))
              (sym v.head_first)
              (called-Called expire cur x xs (tick expire cur fuel (tick_head l))
                (ground (arith, now))
                (tick-Called fuel expire cur (tick_head l) xs (omega (arith, f))
                  (tick_head-Holds l x xs v) o.1)))
    ]
