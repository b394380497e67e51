-- ===== src/Decimal/RoundTrip.antt =====
-- `atoi` reads what "%d" prints.
use c_language_learnning.Base.{
  ℕ, zero, suc, ◌+◌, ◌*◌, ◌/◌, ◌%◌, ◌^◌, ◌≤◌, ◌<◌, ◌≡◌, refl, ◌∙◌, ap, List, [], ◌∷◌, ◌++◌, arith,
  ltb, ltb→lt, lt→ltb, length, Bool-cases, inl, inr, All, ◌==◌, isdigit, isspace, true, false,
}
use native.Mathlib.Nat.{pow-suc}
use c_language_learnning.Decimal.{digits_from, decimal, digits_value, atoi}
use c_language_learnning.Base.Int.{pos}

digits_value-digit :
    (acc d : ℕ) (s : List ℕ)
    → d < 10
    → digits_value acc ((b'0' + d) ∷ s) ≡ digits_value (acc * 10 + d) s
unfolding digits_value
digits_value-digit acc d s h =
    let digit : isdigit (b'0' + d) ≡ true = ground arith in
    rw digit (ap (λ k. digits_value (acc * 10 + k) s) (omega arith))

digits_value-digits_from :
    (fuel n : ℕ) (acc : List ℕ)
    → n < fuel
    → digits_value 0 (digits_from fuel n acc) ≡ digits_value n acc
unfolding digits_from
digits_value-digits_from zero n acc h = absurd (omega arith)
digits_value-digits_from (suc fuel) n acc h = elim (Bool-cases (ltb n 10)) [
  | inl small ↦ rw small (
      digits_value-digit 0 (n % 10) acc (omega arith)
      ∙ ap (λ k. digits_value k acc) (omega (arith, ltb→lt n 10 small)))
  | inr large ↦ rw large (
      digits_value-digits_from fuel (n / 10) ((b'0' + n % 10) ∷ acc) (ground arith)
      ∙ (digits_value-digit (n / 10) (n % 10) acc (omega arith)
          ∙ ap (λ k. digits_value k acc) (omega arith)))
]

digits_from-append :
    (fuel n : ℕ) (acc rest : List ℕ)
    → digits_from fuel n acc ++ rest ≡ digits_from fuel n (acc ++ rest)
unfolding digits_from
digits_from-append zero n acc rest = refl
digits_from-append (suc fuel) n acc rest = elim (Bool-cases (ltb n 10)) [
  | inl small ↦ rw small
  | inr large ↦ rw large (digits_from-append fuel (n / 10) ((b'0' + n % 10) ∷ acc) rest)
]

atoi-digit :
    (d : ℕ) (s : List ℕ) → d < 10 → atoi ((b'0' + d) ∷ s) ≡ pos (digits_value 0 ((b'0' + d) ∷ s))
unfolding atoi
atoi-digit d s h =
    let other : isspace (b'0' + d) ≡ false = ground arith in
    let minus : (b'0' + d == b'-') ≡ false = ground arith in
    let plus : (b'0' + d == b'+') ≡ false = ground arith in rw (other, minus, plus)

-- Digits are no space, so `atoi` starts at the first of them.
atoi-digits_from :
    (fuel n : ℕ) (acc : List ℕ)
    → atoi (digits_from (suc fuel) n acc) ≡ pos (digits_value 0 (digits_from (suc fuel) n acc))
unfolding digits_from
atoi-digits_from zero n acc = elim (Bool-cases (ltb n 10)) [
  | inl small ↦ rw small (atoi-digit (n % 10) acc (omega arith))
  | inr large ↦ rw large (atoi-digit (n % 10) acc (omega arith))
]
atoi-digits_from (suc fuel) n acc = elim (Bool-cases (ltb n 10)) [
  | inl small ↦ rw small (atoi-digit (n % 10) acc (omega arith))
  | inr large ↦ rw large (atoi-digits_from fuel (n / 10) ((b'0' + n % 10) ∷ acc))
]

-- What stands behind a number: nothing, or a byte that is no digit.
abbrev pub EndsNumber : List ℕ → Type 0
EndsNumber [] = Unit
EndsNumber (c ∷ s) = isdigit c ≡ false

digits_value-EndsNumber : (n : ℕ) (rest : List ℕ) → EndsNumber rest → digits_value n rest ≡ n
unfolding digits_value
digits_value-EndsNumber n [] h = refl
digits_value-EndsNumber n (c ∷ s) h = rw h

-- `atoi` gives back the number that "%d" printed, also when a byte that is no digit follows it.
pub atoi-decimal : (n : ℕ) (rest : List ℕ) → EndsNumber rest → atoi (decimal n ++ rest) ≡ pos n
unfolding decimal
atoi-decimal n rest h = rw (digits_from-append (suc n) n [] rest) (
    atoi-digits_from n n rest
    ∙ ap pos
        (digits_value-digits_from (suc n) n rest (omega arith) ∙ digits_value-EndsNumber n rest h))

digits_from-le :
    (fuel n k : ℕ) (acc : List ℕ)
    → n < 10 ^ suc k
    → length (digits_from fuel n acc) ≤ suc k + length acc
unfolding digits_from
digits_from-le zero n k acc h = omega arith
digits_from-le (suc fuel) n zero acc h =
    let small : ltb n 10 ≡ true = lt→ltb n 10 h in rw small (omega arith)
digits_from-le (suc fuel) n (suc k) acc h = elim (Bool-cases (ltb n 10)) [
  | inl small ↦ rw small (omega arith)
  | inr large ↦ rw large (
      omega (
        arith,
        digits_from-le fuel (n / 10) k ((b'0' + n % 10) ∷ acc) (omega (arith, pow-suc 10 (suc k))),
      ))
]

-- A number below 10 ^ (k + 1) is printed with at most k + 1 digits.
pub length-decimal : (n k : ℕ) → n < 10 ^ suc k → length (decimal n) ≤ suc k
unfolding decimal
length-decimal n k h = omega (arith, digits_from-le (suc n) n k [] h)

digits_from-All :
    (fuel n : ℕ) (acc : List ℕ)
    → All (λ c. isdigit c ≡ true) acc
    → All (λ c. isdigit c ≡ true) (digits_from fuel n acc)
unfolding digits_from
digits_from-All zero n acc h = h
digits_from-All (suc fuel) n acc h =
    let digit : isdigit (b'0' + n % 10) ≡ true = ground arith in
    elim (Bool-cases (ltb n 10)) [
      | inl small ↦ rw small (digit, h)
      | inr large ↦ rw large (digits_from-All fuel (n / 10) ((b'0' + n % 10) ∷ acc) (digit, h))
    ]

-- A printed number holds digits only.
pub decimal-isdigit : (n : ℕ) → All (λ c. isdigit c ≡ true) (decimal n)
unfolding decimal
decimal-isdigit n = digits_from-All (suc n) n [] tt

All-weaken : {P Q : ℕ → Type 0} (s : List ℕ) → ((c : ℕ) → P c → Q c) → All P s → All Q s
All-weaken [] f h = tt
All-weaken (c ∷ s) f h = (f c h.0, All-weaken s f h.1)

-- So it holds no zero byte, and no end of a line.
pub decimal-All : (n : ℕ) → All (λ c. 0 < c) (decimal n)
decimal-All n = All-weaken (decimal n) (λ c h. ground arith) (decimal-isdigit n)

pub decimal-Inner : (n : ℕ) → All (λ c. ((c == b'\r') ≡ false) × ((c == b'\n') ≡ false)) (decimal n)
decimal-Inner n = All-weaken (decimal n) (λ c h. ground arith) (decimal-isdigit n)
