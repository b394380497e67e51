-- ===== src/Epollhttpd/Server/Target.antt =====
-- From the request line to the file, and the reply for a regular file.
use c_language_learnning.Base.{
  ℕ, suc, ◌≤◌, ◌<◌, ◌≡◌, ◌≢◌, refl, ap, ◌∙◌, sym, false, List, [], ◌∷◌, ◌++◌, length, c_str,
  c_str-id, ◌==◌, arith, All,
}
use c_language_learnning.Effects.{fits-pure, pure}
use c_language_learnning.Epollhttpd.Url.{encode_str, decode_str}
use c_language_learnning.Epollhttpd.Url.Alphabet.{
  IsUrlByte, IsUrlByte-ne, encode_str-IsUrlByte, not-is_plain-space,
}
use c_language_learnning.Epollhttpd.Url.Bounds.{length-encode_str_le}
use c_language_learnning.Epollhttpd.Url.RoundTrip.{
  decode_str-encode_str, decode_str-miss, decode_str-nil,
}
use c_language_learnning.Epollhttpd.Server.{
  scan_word, skip_space, second_word, behind_slash, target,
}

-- A byte other than the space.
abbrev NoSpace : ℕ → Type 0
NoSpace c = (c == b' ') ≡ false

scan_word-append : (w s : List ℕ) → All NoSpace w → scan_word (w ++ (b' ' ∷ s)) ≡ (w, b' ' ∷ s)
unfolding scan_word
scan_word-append [] s h = refl
scan_word-append (c ∷ w) s h = rw (h.0, scan_word-append w s h.1)

All-NoSpace : (s : List ℕ) → All IsUrlByte s → All NoSpace s
All-NoSpace [] h = tt
All-NoSpace (c ∷ s) h =
    (IsUrlByte-ne c b' ' h.0 not-is_plain-space (omega arith), All-NoSpace s h.1)

skip_space-slash : (s : List ℕ) → skip_space (b' ' ∷ b'/' ∷ s) ≡ b'/' ∷ s
unfolding skip_space
skip_space-slash s = refl

second_word-cons :
    (method s : List ℕ) → method ≢ [] → second_word (method, s) ≡ (scan_word (skip_space s)).0
unfolding second_word
second_word-cons [] s ne = absurd (ne refl)
second_word-cons (c ∷ method) s ne = refl

behind_slash-cons : (c : ℕ) (s : List ℕ) → behind_slash (c ∷ s) ≡ pure (c_str s)
unfolding behind_slash
behind_slash-cons c s = refl

-- The name that `target` reads from a request line of a method, a '/', a path and the rest.
target_lem :
    (method rest : List ℕ) (p : ℕ) (path : List ℕ)
    → All NoSpace method
    → method ≢ []
    → length method < 12
    → All NoSpace (p ∷ path)
    → length path < 1022
    → target (method ++ (b' ' ∷ b'/' ∷ ((p ∷ path) ++ (b' ' ∷ rest))))
      ≡ pure (c_str (decode_str (p ∷ path)))
unfolding target
target_lem method rest p path hm some_method lm hp lp = rw (
  scan_word-append method (b'/' ∷ ((p ∷ path) ++ (b' ' ∷ rest))) hm,
  second_word-cons method (b' ' ∷ b'/' ∷ ((p ∷ path) ++ (b' ' ∷ rest))) some_method,
  skip_space-slash ((p ∷ path) ++ (b' ' ∷ rest)),
  scan_word-append (b'/' ∷ p ∷ path) rest (refl, hp),
  fits-pure (length method) 12 lm,
  fits-pure (suc (suc (length path))) 1024 (omega arith),
  decode_str-miss b'/' (p ∷ path) refl,
  behind_slash-cons b'/' (decode_str (p ∷ path)),
)

pure_name :
    (method rest path name : List ℕ)
    → All NoSpace method
    → method ≢ []
    → length method < 12
    → All NoSpace path
    → length path ≤ 1022
    → decode_str path ≡ name
    → name ≢ []
    → All (λ c. 0 < c) name
    → target (method ++ (b' ' ∷ b'/' ∷ (path ++ (b' ' ∷ rest)))) ≡ pure name
pure_name method rest [] name hm some_method lm hp lp e ne pos =
    absurd (ne (sym e ∙ decode_str-nil))
pure_name method rest (p ∷ path) name hm some_method lm hp lp e ne pos =
    target_lem method rest p path hm some_method lm hp (omega arith)
    ∙ ap (λ s. pure s) (ap c_str e ∙ c_str-id name pos)

All-bytes :
    (s : List ℕ) → All (λ c. (0 < c) × (c < 256)) s → All (λ c. 0 < c) s × All (λ c. c < 256) s
All-bytes [] h = (tt, tt)
All-bytes (c ∷ s) h = ((h.0.0, (All-bytes s h.1).0), (h.0.1, (All-bytes s h.1).1))

-- The link that a listing shows for a name, requested by a method of 1 to 11 bytes, names
-- that file again: the client gets the file whose link it follows, whatever bytes its name holds,
-- if the name has from 1 to 340 bytes.
pub target-encode_str :
    (method rest name : List ℕ)
    → All NoSpace method
    → method ≢ []
    → length method < 12
    → All (λ c. (0 < c) × (c < 256)) name
    → name ≢ []
    → length name ≤ 340
    → target (method ++ (b' ' ∷ b'/' ∷ (encode_str 1024 name ++ (b' ' ∷ rest)))) ≡ pure name
target-encode_str method rest name hm some_method lm bytes ne short =
    let (pos, small) = All-bytes name bytes in
    pure_name method rest (encode_str 1024 name) name hm some_method lm
      (All-NoSpace (encode_str 1024 name) (encode_str-IsUrlByte 1024 name small))
      (omega (arith, length-encode_str_le 1024 name))
      (decode_str-encode_str 1024 name small (omega arith)) ne pos
