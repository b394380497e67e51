-- ===== src/Epollhttpd/Url/RoundTrip.antt =====
-- `decode_str` undoes `encode_str`.
use c_language_learnning.Base.{
  ℕ, suc, ◌+◌, ◌*◌, ◌/◌, ◌%◌, ◌≤◌, ◌<◌, ◌≡◌, refl, ap, ◌∙◌, inl, inr, true, false, List, [], ◌∷◌,
  ◌++◌, arith, length, Bool-cases, ltb, lt→ltb, ◌==◌, if◌then◌else◌, ==_iff, isxdigit, All, take,
}
use c_language_learnning.Epollhttpd.Url.{
  hexit, is_plain, hex_digit, encode_char, encode_from, encode_str, decode_str,
}

hex_digit-isxdigit : (d : ℕ) → d < 16 → isxdigit (hex_digit d) ≡ true
unfolding hex_digit
hex_digit-isxdigit d h = ground arith

hexit-hex_digit : (d : ℕ) → d < 16 → hexit (hex_digit d) ≡ d
unfolding hexit hex_digit
hexit-hex_digit d h = ground arith

not-is_plain-percent : is_plain b'%' ≡ false
unfolding is_plain
not-is_plain-percent = refl

is_plain→ne_percent : (c : ℕ) → is_plain c ≡ true → (c == b'%') ≡ false
is_plain→ne_percent c h = elim (Bool-cases (c == b'%')) [
  | inl e ↦ cc (ap is_plain ((==_iff c b'%').0 e), not-is_plain-percent)
  | inr ne ↦ ne
]

pub decode_str-nil : decode_str [] ≡ []
unfolding decode_str
decode_str-nil = refl

-- A byte that is no '%' stands for itself.
pub decode_str-miss :
    (c : ℕ) (s : List ℕ) → (c == b'%') ≡ false → decode_str (c ∷ s) ≡ c ∷ decode_str s
unfolding decode_str
decode_str-miss c [] h = refl
decode_str-miss c (a ∷ []) h = refl
decode_str-miss c (a ∷ b ∷ s) h = rw h

decode_str-hit :
    (a b : ℕ) (s : List ℕ)
    → isxdigit a ≡ true
    → isxdigit b ≡ true
    → decode_str (b'%' ∷ a ∷ b ∷ s) ≡ (hexit a * 16 + hexit b) ∷ decode_str s
unfolding decode_str
decode_str-hit a b s ha hb = rw (ha, hb)

-- Decoding what was written for one byte gives the byte back.
decode_str-encode_char :
    (c : ℕ) (s : List ℕ) → c < 256 → decode_str (encode_char c ++ s) ≡ c ∷ decode_str s
unfolding encode_char
decode_str-encode_char c s h = elim (Bool-cases (is_plain c)) [
  | inl plain ↦ rw plain (decode_str-miss c s (is_plain→ne_percent c plain))
  | inr special ↦ rw special (
      decode_str-hit (hex_digit (c / 16)) (hex_digit (c % 16)) s
        (hex_digit-isxdigit (c / 16) (omega arith)) (hex_digit-isxdigit (c % 16) (omega arith))
      ∙ ap (λ d. d ∷ decode_str s)
          (omega (arith, hexit-hex_digit (c / 16), hexit-hex_digit (c % 16))))
]

length-encode_char : (c : ℕ) → length (encode_char c) ≤ 3
unfolding encode_char
length-encode_char c = ground arith

-- The bytes that fit: how many rounds the loop of `encode_str` makes.
pub fitting : ℕ → ℕ → List ℕ → ℕ
fitting tosize tolen [] = 0
fitting tosize tolen (c ∷ from) =
    let more = suc (fitting tosize (tolen + length (encode_char c)) from) in
    if ltb (tolen + 4) tosize then more else 0

decode_str-encode_from :
    (tosize tolen : ℕ) (from : List ℕ)
    → All (λ c. c < 256) from
    → decode_str (encode_from tosize tolen from) ≡ take (fitting tosize tolen from) from
unfolding encode_from fitting
decode_str-encode_from tosize tolen [] h = unfold decode_str in refl
decode_str-encode_from tosize tolen (c ∷ from) h = elim (Bool-cases (ltb (tolen + 4) tosize)) [
  | inl room ↦
      rw (room, decode_str-encode_char c _ h.0)
        (ap (λ s. c ∷ s) (decode_str-encode_from tosize (tolen + length (encode_char c)) from h.1))
  | inr full ↦ rw full (unfold decode_str in refl)
]

fitting_all :
    (tosize tolen : ℕ) (from : List ℕ)
    → tolen + 3 * length from + 1 < tosize
    → take (fitting tosize tolen from) from ≡ from
unfolding fitting
fitting_all tosize tolen [] h = refl
fitting_all tosize tolen (c ∷ from) h = rw (lt→ltb (tolen + 4) tosize (omega arith)) (
    ap (λ s. c ∷ s)
      (fitting_all tosize (tolen + length (encode_char c)) from
        (omega (arith, length-encode_char c))))

-- Whatever the size of the buffer, `decode_str` gives back the bytes of the file name that fitted:
-- the first `fitting tosize 0 from` of them.
pub decode_str-encode_str-take :
    (tosize : ℕ) (from : List ℕ)
    → All (λ c. c < 256) from
    → decode_str (encode_str tosize from) ≡ take (fitting tosize 0 from) from
unfolding encode_str
decode_str-encode_str-take tosize from h = decode_str-encode_from tosize 0 from h

-- With a buffer of more than three times the length of the file name plus one byte, `decode_str`
-- gives back the whole file name that `encode_str` encoded, whatever bytes it holds.
pub decode_str-encode_str :
    (tosize : ℕ) (from : List ℕ)
    → All (λ c. c < 256) from
    → 3 * length from + 1 < tosize
    → decode_str (encode_str tosize from) ≡ from
decode_str-encode_str tosize from h room =
    decode_str-encode_str-take tosize from h ∙ fitting_all tosize 0 from (omega arith)
