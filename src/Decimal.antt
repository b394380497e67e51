-- ===== src/Decimal.antt =====
-- Numbers as text: "%d" and "%ld" of `sprintf`, and `atoi`.
pub mod RoundTrip
mod Tests
use c_language_learnning.Base.{
  ℕ, zero, suc, ◌+◌, ◌-◌, ◌*◌, ◌/◌, ◌%◌, List, [], ◌∷◌, ltb, ◌==◌, if◌then◌else◌, isdigit, isspace,
}
use c_language_learnning.Base.Int.{ℤ, pos, negsuc, neg}

-- One round for each digit, the last digit first; `n + 1` rounds are more than enough.
digits_from : ℕ → ℕ → List ℕ → List ℕ
digits_from zero n acc = acc
digits_from (suc fuel) n acc =
    let more = digits_from fuel (n / 10) ((b'0' + n % 10) ∷ acc) in
    if ltb n 10 then (b'0' + n % 10) ∷ acc else more

unfoldable pub decimal : ℕ → List ℕ
unfolding digits_from
decimal n = digits_from (suc n) n []

-- The digits at the head of a text, after `acc`.
digits_value : ℕ → List ℕ → ℕ
digits_value acc [] = acc
digits_value acc (c ∷ s) =
    let more = digits_value (acc * 10 + (c - b'0')) s in if isdigit c then more else acc

-- An optional sign and digits.
signed_value : List ℕ → ℤ
signed_value [] = pos 0
signed_value (c ∷ s) =
    if c == b'-'
    then neg (digits_value 0 s)
    else if c == b'+'
    then pos (digits_value 0 s)
    else pos (digits_value 0 (c ∷ s))

-- `atoi`, for a value that fits an `int`.
unfoldable pub atoi : List ℕ → ℤ
unfolding digits_value signed_value
atoi [] = pos 0
atoi (c ∷ s) = if isspace c then atoi s else signed_value (c ∷ s)

-- "%d" of an integer.
unfoldable pub decimal_int : ℤ → List ℕ
unfolding decimal
decimal_int (pos n) = decimal n
decimal_int (negsuc n) = b'-' ∷ decimal (suc n)
