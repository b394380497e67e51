-- ===== src/Base/Threads.antt =====
-- Numbers summed over the threads of a program, and a thread that moves.
use Prim.Native.Nat.{ℕ, zero, suc, ◌+◌, ◌≤◌, ◌<◌}
use mathlib.Core.Path.{◌≡◌, refl}
use mathlib.Core.Logic.{inl, inr}
use mathlib.Core.Bool.{false}
use native.Mathlib.Omega.{arith}
use c_language_learnning.Base.Tests.{◌==◌, if◌then◌else◌, Bool-cases}

abbrev pub update {ℓ} : {T : Type ℓ} → (ℕ → T) → ℕ → T → ℕ → T
update f i p j = if j == i then p else f j

unfoldable pub total : (ℕ → ℕ) → ℕ → ℕ
total f zero = 0
total f (suc n) = total f n + f n

pub total-update_high {ℓ} :
    {T : Type ℓ} (w : T → ℕ) (f : ℕ → T) (i : ℕ) (p : T) (n : ℕ)
    → n ≤ i
    → total (λ j. w (update f i p j)) n ≡ total (λ j. w (f j)) n
unfolding total
total-update_high w f i p zero h = refl
total-update_high w f i p (suc n) h =
    let other : (n == i) ≡ false = ground (arith, h) in
    let ih = total-update_high w f i p n (omega (arith, h)) in rw other omega (arith, ih)

-- When a thread moves, what it weighs is exchanged in the sum.
pub total-update {ℓ} :
    {T : Type ℓ} (w : T → ℕ) (f : ℕ → T) (i : ℕ) (p : T) (n : ℕ)
    → i < n
    → total (λ j. w (update f i p j)) n + w (f i) ≡ total (λ j. w (f j)) n + w p
unfolding total
total-update w f i p zero h = absurd (omega (arith, h))
total-update w f i p (suc n) h = elim (Bool-cases (n == i)) [
  | inl here ↦
      let same : n ≡ i = ground (arith, here) in
      let below = total-update_high w f i p n (omega (arith, same)) in
      let eq : w (f n) ≡ w (f i) = rw same refl in rw here omega (arith, below, eq)
  | inr other ↦
      let ih = total-update w f i p n (ground (arith, h, other)) in rw other omega (arith, ih)
]

pub le_total : (f : ℕ → ℕ) (i n : ℕ) → i < n → f i ≤ total f n
unfolding total
le_total f i zero h = absurd (omega (arith, h))
le_total f i (suc n) h = elim (Bool-cases (n == i)) [
  | inl here ↦ let same : n ≡ i = ground (arith, here) in rw same omega arith
  | inr other ↦ let ih = le_total f i n (ground (arith, h, other)) in omega (arith, ih)
]

pub two_le_total : (f : ℕ → ℕ) (i j n : ℕ) → i < j → j < n → f i + f j ≤ total f n
unfolding total
two_le_total f i j zero l h = absurd (omega (arith, h))
two_le_total f i j (suc n) l h = elim (Bool-cases (n == j)) [
  | inl here ↦
      let same : n ≡ j = ground (arith, here) in
      let below = le_total f i n (omega (arith, l, same)) in
      let eq : f n ≡ f j = rw same refl in omega (arith, below, eq)
  | inr other ↦ let ih = two_le_total f i j n l (ground (arith, h, other)) in omega (arith, ih)
]

pub total-positive : (f : ℕ → ℕ) (n : ℕ) → 0 < total f n → (i : ℕ) × (i < n) × (0 < f i)
unfolding total
total-positive f zero h = absurd (omega (arith, h))
total-positive f (suc n) h = elim (Bool-cases (f n == 0)) [
  | inl none_here ↦
      let (i, l, p) : (i : ℕ) × (i < n) × (0 < f i) =
        total-positive f n (ground (arith, h, none_here)) in
      (i, omega (arith, l), p)
  | inr here ↦ (n, omega arith, ground (arith, here))
]

pub total-zero : (f : ℕ → ℕ) (n : ℕ) → ((i : ℕ) → i < n → f i ≡ 0) → total f n ≡ 0
unfolding total
total-zero f zero h = refl
total-zero f (suc n) h =
    let ih = total-zero f n (λ i l. h i (omega (arith, l))) in
    let here = h n (omega arith) in omega (arith, ih, here)
