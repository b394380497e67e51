-- ===== src/Epollhttpd/Url/Alphabet.antt =====
-- Which bytes `encode_str` writes.
use c_language_learnning.Base.{
  ℕ, ◌+◌, ◌/◌, ◌%◌, ◌<◌, ◌≡◌, ◌≢◌, refl, ap, ◌⊎◌, inl, inr, true, false, List, [], ◌∷◌, arith,
  length, All, All-append, Bool-cases, ltb, ◌==◌, ==_iff, isalnum,
}
use c_language_learnning.Epollhttpd.Url.{is_plain, hex_digit, encode_char, encode_from, encode_str}

-- A letter, a digit, one of "/_.-~", or the '%' of an escape.
abbrev pub IsUrlByte : ℕ → Type 0
IsUrlByte c = (is_plain c ≡ true) ⊎ (c ≡ b'%')

is_plain_of_alnum : (c : ℕ) → isalnum c ≡ true → is_plain c ≡ true
unfolding is_plain
is_plain_of_alnum c h = rw h

hex_digit-isalnum : (d : ℕ) → d < 16 → isalnum (hex_digit d) ≡ true
unfolding hex_digit
hex_digit-isalnum d h = ground arith

encode_char-IsUrlByte : (c : ℕ) → c < 256 → All IsUrlByte (encode_char c)
unfolding encode_char
encode_char-IsUrlByte c h = elim (Bool-cases (is_plain c)) [
  | inl plain ↦ rw plain (inl plain, tt)
  | inr special ↦ rw special (
    inr refl,
    (
      inl (is_plain_of_alnum (hex_digit (c / 16)) (hex_digit-isalnum (c / 16) (omega arith))),
      (inl (is_plain_of_alnum (hex_digit (c % 16)) (hex_digit-isalnum (c % 16) (omega arith))), tt),
    ),
  )
]

encode_from-IsUrlByte :
    (tosize tolen : ℕ) (from : List ℕ)
    → All (λ c. c < 256) from
    → All IsUrlByte (encode_from tosize tolen from)
unfolding encode_from
encode_from-IsUrlByte tosize tolen [] h = tt
encode_from-IsUrlByte tosize tolen (c ∷ from) h = elim (Bool-cases (ltb (tolen + 4) tosize)) [
  | inl room ↦ rw room (
      All-append IsUrlByte (encode_char c)
        (encode_from tosize (tolen + length (encode_char c)) from) (encode_char-IsUrlByte c h.0)
        (encode_from-IsUrlByte tosize (tolen + length (encode_char c)) from h.1))
  | inr full ↦ rw full tt
]

-- `encode_str` writes only letters, digits, the bytes of "/_.-~" and '%', whatever the file name.
pub encode_str-IsUrlByte :
    (tosize : ℕ) (from : List ℕ) → All (λ c. c < 256) from → All IsUrlByte (encode_str tosize from)
unfolding encode_str
encode_str-IsUrlByte tosize from h = encode_from-IsUrlByte tosize 0 from h

-- A byte that is not plain and no '%' is none of them.
pub IsUrlByte-ne : (c x : ℕ) → IsUrlByte c → is_plain x ≡ false → x ≢ b'%' → (c == x) ≡ false
IsUrlByte-ne c x (inl plain) h ne = elim (Bool-cases (c == x)) [
  | inl e ↦ cc (ap is_plain ((==_iff c x).0 e))
  | inr other ↦ other
]
IsUrlByte-ne c x (inr percent) h ne = ground arith

pub not-is_plain-space : is_plain b' ' ≡ false
unfolding is_plain
not-is_plain-space = refl
