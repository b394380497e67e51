-- ===== src/TimeHeap/Order.antt =====
-- The order of the heap, and what it holds.
use Prim.Native.Nat.{◌≤◌, ◌<◌}
use c_language_learnning.Base.{
  ℕ, zero, suc, ◌+◌, ◌≡◌, ◌≢◌, refl, ap, ◌∙◌, false, arith, Bool-cases, inl, inr, ◌==◌,
  if◌then◌else◌,
}
use c_language_learnning.TimeHeap.{Array, put, parent}

-- The sum of a weight over the first `n` entries: two arrays for which all such sums agree hold the same
-- timers, each as often.
unfoldable pub total : (ℕ → ℕ) → ℕ → Array → ℕ
total f zero a = 0
total f (suc n) a = total f n a + f (a n)

pub total-put_above :
    (f : ℕ → ℕ) (n i t : ℕ) (a : Array) → n ≤ i → total f n (put a i t) ≡ total f n a
unfolding total
total-put_above f zero i t a h = refl
total-put_above f (suc n) i t a h =
    let miss : (n == i) ≡ false = ground arith in
    rw (miss, total-put_above f n i t a (omega arith)) refl

pub total-put :
    (f : ℕ → ℕ) (n i t : ℕ) (a : Array)
    → i < n
    → total f n (put a i t) + f (a i) ≡ total f n a + f t
unfolding total
total-put f zero i t a h = absurd (omega arith)
total-put f (suc n) i t a h = elim (Bool-cases (n == i)) [
  | inl last ↦
      let e : i ≡ n = ground arith in
      rw last (omega (arith, total-put_above f n i t a (omega arith), ap (λ k. f (a k)) e))
  | inr before ↦ rw before (omega (arith, total-put f n i t a (ground arith)))
]

-- A timer that moves to another place, and the one from there that takes its place.
pub total-moved :
    (f : ℕ → ℕ) (n i j t : ℕ) (a : Array)
    → i < n
    → j < n
    → i ≢ j
    → total f n (put (put a i (a j)) j t) ≡ total f n (put a i t)
total-moved f n i j t a hi hj ne =
    let b : Array = put a i (a j) in
    let kept : b j ≡ a j = ground arith in
    omega
      (arith, total-put f n j t b hj, total-put f n i (a j) a hi, total-put f n i t a hi, ap f kept)

pub total_cong :
    (f : ℕ → ℕ) (n : ℕ) (a b : Array) → ((i : ℕ) → i < n → a i ≡ b i) → total f n a ≡ total f n b
unfolding total
total_cong f zero a b h = refl
total_cong f (suc n) a b h =
    omega (arith, total_cong f n a b (λ i l. h i (omega (arith, l))), ap f (h n (omega arith)))

unfoldable pub is_null : ℕ → ℕ
is_null t = if t == 0 then 1 else 0

-- Every edge whose parent is at `lo` or later is in order.
abbrev pub IsHeapFrom : (ℕ → ℕ) → ℕ → ℕ → Array → Type 0
IsHeapFrom expire lo size a =
    (c : ℕ) → 0 < c → c < size → lo ≤ parent c → expire (a (parent c)) ≤ expire (a c)

abbrev pub IsHeap : (ℕ → ℕ) → ℕ → Array → Type 0
IsHeap expire size a = IsHeapFrom expire 0 size a

-- The edges past `i`, from its parent to its children, are in order.
abbrev pub IsBridged : (ℕ → ℕ) → ℕ → ℕ → Array → ℕ → Type 0
IsBridged expire lo size a i =
    (c : ℕ)
    → 0 < c
    → c < size
    → parent c ≡ i
    → 0 < i
    → lo ≤ parent i
    → expire (a (parent i)) ≤ expire (a c)

root_least_below :
    (fuel : ℕ) (expire : ℕ → ℕ) (size : ℕ) (a : Array) (i : ℕ)
    → IsHeap expire size a
    → i < fuel
    → i < size
    → expire (a 0) ≤ expire (a i)
root_least_below zero expire size a i h f l = absurd (omega arith)
root_least_below (suc fuel) expire size a zero h f l = omega arith
root_least_below (suc fuel) expire size a (suc i) h f l = omega (
  arith,
  h (suc i) (omega arith) l (omega arith),
  root_least_below fuel expire size a (parent (suc i)) h (omega arith) (omega arith),
)

-- No timer expires before the one at the root.
pub root_least :
    (expire : ℕ → ℕ) (size : ℕ) (a : Array) (i : ℕ)
    → IsHeap expire size a
    → i < size
    → expire (a 0) ≤ expire (a i)
root_least expire size a i h l = root_least_below (suc i) expire size a i h (omega arith) l

-- `out` holds the timers of `a`, in order from `lo`.
pub record Sifted (expire : ℕ → ℕ) (lo size : ℕ) (a out : Array) : Type 0 where
  pub order : IsHeapFrom expire lo size out
  pub same : (f : ℕ → ℕ) → total f size out ≡ total f size a

pub Sifted-trans :
    (expire : ℕ → ℕ) (lo size : ℕ) (a b out : Array)
    → ((f : ℕ → ℕ) → total f size b ≡ total f size a)
    → Sifted expire lo size b out
    → Sifted expire lo size a out
Sifted-trans expire lo size a b out e v = record { order = v.order; same = λ f. v.same f ∙ e f }
