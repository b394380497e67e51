-- ===== src/Line/Normal.antt =====
-- `get_line` against the whole text: it cuts the text with its line ends normalised.
use c_language_learnning.Base.{
  ℕ, zero, suc, ◌-◌, ◌≡◌, refl, ap, Option, some, Bool, true, false, sym, ◌∙◌, ◌⊎◌, List, [], ◌∷◌,
  ◌++◌, map, length, Bool-cases, inl, inr, ◌==◌, if◌then◌else◌,
}
use c_language_learnning.Socket.{Sock, got, recv}
use c_language_learnning.Line.Bounds.{IsLine, get_line-IsLine}
use c_language_learnning.Line.{skip_lf, line_char, line_round, line_loop, get_line}

-- Every "\r\n", and every other '\r', becomes '\n'.
pub normalize : List ℕ → List ℕ
normalize [] = []
normalize (c ∷ []) = (if c == b'\r' then b'\n' else c) ∷ []
normalize (c ∷ d ∷ s) =
    let pair = b'\n' ∷ normalize s in
    let lone = b'\n' ∷ normalize (d ∷ s) in
    let other = c ∷ normalize (d ∷ s) in
    if c == b'\r' then (if d == b'\n' then pair else lone) else other

-- One round takes the first byte of the normalised text.
record Next (bs : List ℕ) (r : Option ℕ × Sock) : Type 0 where
  c : ℕ
  rest : List ℕ
  byte : r ≡ (some c, map got rest)
  text : normalize bs ≡ c ∷ normalize rest

line_char-Next : (b : ℕ) (bs : List ℕ) → Next (b ∷ bs) (line_char (recv (map got (b ∷ bs))))
unfolding line_char skip_lf normalize
line_char-Next b [] = elim (Bool-cases (b == b'\r')) [
  | inl cr ↦ record { c = b'\n'; rest = []; byte = rw cr; text = rw cr }
  | inr ne ↦ record { c = b; rest = []; byte = rw ne; text = rw ne }
]
line_char-Next b (d ∷ bs) = elim (Bool-cases (b == b'\r')) [
  | inl cr ↦ elim (Bool-cases (d == b'\n')) [
    | inl lf ↦ record { c = b'\n'; rest = bs; byte = rw (cr, lf); text = rw (cr, lf) }
    | inr ne ↦ record { c = b'\n'; rest = d ∷ bs; byte = rw (cr, ne); text = rw (cr, ne) }
  ]
  | inr ne ↦ record { c = b; rest = d ∷ bs; byte = rw ne; text = rw ne }
]

abbrev pub ends_lf : List ℕ → Bool
ends_lf [] = false
ends_lf (c ∷ []) = c == b'\n'
ends_lf (c ∷ d ∷ l) = ends_lf (d ∷ l)

-- What a call that may store `room` bytes has done to the text `bs`.
pub record Cut (room : ℕ) (bs : List ℕ) (out : List ℕ × Sock) : Type 0 where
  pub rest : List ℕ
  pub socket : out.1 ≡ map got rest
  pub text : out.0 ++ normalize rest ≡ normalize bs
  pub why : (ends_lf out.0 ≡ true) ⊎ ((rest ≡ []) ⊎ (length out.0 ≡ room))

why-cons :
    (c room : ℕ) (l rest : List ℕ)
    → (ends_lf l ≡ true) ⊎ ((rest ≡ []) ⊎ (length l ≡ room))
    → (ends_lf (c ∷ l) ≡ true) ⊎ ((rest ≡ []) ⊎ (length (c ∷ l) ≡ suc room))
why-cons c room [] rest (inl e) = cc
why-cons c room (d ∷ l) rest (inl e) = inl e
why-cons c room l rest (inr (inl e)) = inr (inl e)
why-cons c room l rest (inr (inr e)) = inr (inr (ap suc e))

line_round-Cut :
    (room : ℕ) (more : Sock → List ℕ × Sock) (bs : List ℕ) (r : Option ℕ × Sock)
    → (n : Next bs r) → Cut room n.rest (more (map got n.rest))
    → Cut (suc room) bs (line_round more r)
unfolding line_round
line_round-Cut room more bs r n k = elim (Bool-cases (n.c == b'\n')) [
  | inl lf ↦
      rw (n.byte, lf) (record { rest = n.rest; socket = refl; text = sym n.text; why = inl lf })
  | inr other ↦
      rw (n.byte, other)
        (record {
          rest = k.rest;
          socket = k.socket;
          text = ap (λ l. n.c ∷ l) k.text ∙ sym n.text;
          why = why-cons n.c room (more (map got n.rest)).0 k.rest k.why;
        })
]

line_loop-Cut : (room : ℕ) (bs : List ℕ) → Cut room bs (line_loop room (map got bs))
unfolding line_loop
line_loop-Cut zero bs = record { rest = bs; socket = refl; text = refl; why = inr (inr refl) }
line_loop-Cut (suc room) [] =
    unfold line_round line_char in
    record { rest = []; socket = refl; text = refl; why = inr (inl refl) }
line_loop-Cut (suc room) (b ∷ bs) =
    let n = line_char-Next b bs in
    line_round-Cut room (line_loop room) (b ∷ bs) (line_char (recv (map got (b ∷ bs)))) n
      (line_loop-Cut room n.rest)

-- On a connection whose bytes are all there, one call of `get_line` stores the beginning of the
-- text with its line ends normalised, and leaves on the socket a text `rest` whose normal form is
-- what follows: nothing is lost or invented. It stops at the first '\n', at the end of the text, or when
-- it has stored `size - 1` bytes: no byte that it stores is a '\n' but the last, and none is a '\r'.
pub get_line-Cut :
    (size : ℕ) (bs : List ℕ)
    → Cut (size - 1) bs (get_line size (map got bs)) × IsLine (get_line size (map got bs)).0
unfolding get_line
get_line-Cut size bs = (line_loop-Cut (size - 1) bs, get_line-IsLine size (map got bs))
