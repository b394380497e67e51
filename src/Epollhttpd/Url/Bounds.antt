-- ===== src/Epollhttpd/Url/Bounds.antt =====
-- How much `encode_str` and `decode_str` write.
use c_language_learnning.Base.{
  ℕ, ◌+◌, ◌*◌, ◌≤◌, ◌<◌, List, [], ◌∷◌, arith, length, length-append, Bool-cases, inl, inr,
}
use c_language_learnning.Epollhttpd.Url.{
  encode_char, encode_from, encode_str, is_escape, decode_str,
}

length-encode_char : (c : ℕ) → (1 ≤ length (encode_char c)) × (length (encode_char c) ≤ 3)
unfolding encode_char
length-encode_char c = ground arith

encode_from-lt :
    (tosize tolen : ℕ) (from : List ℕ)
    → tolen < tosize
    → tolen + length (encode_from tosize tolen from) < tosize
unfolding encode_from
encode_from-lt tosize tolen [] h = omega arith
encode_from-lt tosize tolen (c ∷ from) h =
    let n = length (encode_char c) in
    ground (
      arith,
      length-encode_char c,
      length-append (encode_char c) (encode_from tosize (tolen + n) from),
      encode_from-lt tosize (tolen + n) from,
    )

encode_from-le :
    (tosize tolen : ℕ) (from : List ℕ) → length (encode_from tosize tolen from) ≤ 3 * length from
unfolding encode_from
encode_from-le tosize tolen [] = omega arith
encode_from-le tosize tolen (c ∷ from) =
    let n = length (encode_char c) in
    ground (
      arith,
      length-encode_char c,
      length-append (encode_char c) (encode_from tosize (tolen + n) from),
      encode_from-le tosize (tolen + n) from,
    )

-- `encode_str` writes at most three bytes for each that it reads.
pub length-encode_str_le :
    (tosize : ℕ) (from : List ℕ) → length (encode_str tosize from) ≤ 3 * length from
unfolding encode_str
length-encode_str_le tosize from = encode_from-le tosize 0 from

-- `encode_str` stays within a buffer of `tosize` bytes, at least one, its final zero included.
pub length-encode_str :
    (tosize : ℕ) (from : List ℕ) → 0 < tosize → length (encode_str tosize from) < tosize
unfolding encode_str
length-encode_str tosize from h = omega (arith, encode_from-lt tosize 0 from h)

-- `decode_str` writes no more bytes than it reads, so a buffer as large as the input is enough.
pub length-decode_str : (from : List ℕ) → length (decode_str from) ≤ length from
unfolding decode_str
length-decode_str [] = omega arith
length-decode_str (c ∷ []) = omega arith
length-decode_str (c ∷ a ∷ []) = omega arith
length-decode_str (c ∷ a ∷ b ∷ from) = elim (Bool-cases (is_escape c a b)) [
  | inl hit ↦ rw hit (omega (arith, length-decode_str from))
  | inr miss ↦ rw miss (omega (arith, length-decode_str (a ∷ b ∷ from)))
]
