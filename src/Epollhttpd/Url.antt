-- ===== src/Epollhttpd/Url.antt =====
-- Percent coding of file names: `hexit`, `encode_str` and `decode_str` of
-- network-programming/http/epollhttpd/epoll.c. A C string is the list of its bytes.
pub mod RoundTrip
pub mod Bounds
pub mod Alphabet
use c_language_learnning.Base.{
  ℕ, ◌+◌, ◌-◌, ◌*◌, ◌/◌, ◌%◌, Bool, ◌&&◌, ◌||◌, List, [], ◌∷◌, ◌++◌, leb, ltb, ◌==◌, if◌then◌else◌,
  length, isxdigit, isalnum, codes,
}

pub hexit : ℕ → ℕ
hexit c =
    if leb b'0' c && leb c b'9'
    then c - b'0'
    else if leb b'a' c && leb c b'f'
    then c - b'a' + 10
    else if leb b'A' c && leb c b'F'
    then c - b'A' + 10
    else 0

-- strchr(s, c) != NULL, for c != 0
has_char : List ℕ → ℕ → Bool
has_char [] c = Bool.false
has_char (x ∷ s) c = (x == c) || has_char s c

-- The bytes that are sent as they are.
pub is_plain : ℕ → Bool
unfolding has_char
is_plain c = isalnum c || has_char (codes "/_.-~") c

-- A digit that "%x" prints.
pub hex_digit : ℕ → ℕ
hex_digit d = if ltb d 10 then b'0' + d else b'a' + (d - 10)

-- What one round of the loop of `encode_str` writes: the byte, or "%%%02x" of it.
pub encode_char : ℕ → List ℕ
unfolding is_plain hex_digit
encode_char c = if is_plain c then c ∷ [] else b'%' ∷ hex_digit (c / 16) ∷ hex_digit (c % 16) ∷ []

-- The loop, with `tolen` bytes written so far.
encode_from : ℕ → ℕ → List ℕ → List ℕ
encode_from tosize tolen [] = []
encode_from tosize tolen (c ∷ from) =
    let out = encode_char c in
    let more = out ++ encode_from tosize (tolen + length out) from in
    if ltb (tolen + 4) tosize then more else []

-- The text that `encode_str` leaves in `to`, less the final zero.
unfoldable pub encode_str : ℕ → List ℕ → List ℕ
unfolding encode_from encode_char
encode_str tosize from = encode_from tosize 0 from

-- The test of `decode_str` for an escape.
pub is_escape : ℕ → ℕ → ℕ → Bool
is_escape c a b = (c == b'%') && (isxdigit a && isxdigit b)

-- The text that `decode_str` leaves in `to`. The two bytes after a '%' are read only where the
-- string goes on: the final zero is no digit.
unfoldable pub decode_str : List ℕ → List ℕ
unfolding hexit is_escape
decode_str [] = []
decode_str (c ∷ []) = c ∷ []
decode_str (c ∷ a ∷ []) = c ∷ decode_str (a ∷ [])
decode_str (c ∷ a ∷ b ∷ from) =
    let hit = (hexit a * 16 + hexit b) ∷ decode_str from in
    let miss = c ∷ decode_str (a ∷ b ∷ from) in if is_escape c a b then hit else miss
