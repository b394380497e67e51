-- ===== src/Line/Used.antt =====
-- Which outcomes of the socket `get_line` uses up.
use c_language_learnning.Base.{
  ℕ, zero, suc, ◌≡◌, ◌≢◌, refl, sym, ap, ◌∙◌, Option, none, some, List, [], ◌∷◌, ◌++◌, append_assoc,
  arith, length, Bool-cases, inl, inr, ◌==◌,
}
use c_language_learnning.Socket.{Poll, Sock, got, nothing, recv, peek}
use c_language_learnning.Line.{skip_lf, line_char, line_round, line_loop, get_line}

-- The outcomes that were used up, and what is left.
abbrev pub Used : Sock → Sock → Type 0
Used s s' = (used : List Poll) × (s ≡ used ++ s')

pub Used-Used : (s t u : Sock) → Used s t → Used t u → Used s u
Used-Used s t u (xs, e) (ys, d) = (xs ++ ys, e ∙ ap (λ l. xs ++ l) d ∙ sym (append_assoc xs ys u))

skip_lf-Used : (s : Sock) → Used s (skip_lf (peek s))
unfolding skip_lf
skip_lf-Used [] = ([], refl)
skip_lf-Used (nothing ∷ s) = (nothing ∷ [], refl)
skip_lf-Used (got c ∷ s) = elim (Bool-cases (c == b'\n')) [
  | inl lf ↦ rw lf (got c ∷ [], refl)
  | inr other ↦ rw other ([], refl)
]

line_char-Used : (s : Sock) → Used s (line_char (recv s)).1
unfolding line_char
line_char-Used [] = ([], refl)
line_char-Used (nothing ∷ s) = (nothing ∷ [], refl)
line_char-Used (got c ∷ s) = elim (Bool-cases (c == b'\r')) [
  | inl cr ↦ (let (xs, e) = skip_lf-Used s in rw cr (got c ∷ xs, ap (λ l. got c ∷ l) e))
  | inr other ↦ rw other (got c ∷ [], refl)
]

line_round-Used :
    (more : Sock → List ℕ × Sock) (r : Option ℕ × Sock)
    → Used r.1 (more r.1).1
    → Used r.1 (line_round more r).1
unfolding line_round
line_round-Used more (none, t) u = ([], refl)
line_round-Used more (some c, t) u = elim (Bool-cases (c == b'\n')) [
  | inl lf ↦ rw lf ([], refl)
  | inr other ↦ rw other u
]

line_loop-Used : (room : ℕ) (s : Sock) → Used s (line_loop room s).1
unfolding line_loop
line_loop-Used zero s = ([], refl)
line_loop-Used (suc room) s =
    let r = line_char (recv s) in
    Used-Used s r.1 (line_round (line_loop room) r).1 (line_char-Used s)
      (line_round-Used (line_loop room) r (line_loop-Used room r.1))

pub get_line-Used : (s : Sock) → Used s (get_line 1024 s).1
unfolding get_line
get_line-Used s = line_loop-Used 1023 s

-- A `recv` that gives no byte, and the socket behind it.
pub data Ends : Sock → Sock → Type 0 where
  at_end : Ends [] []
  no_byte : {s : Sock} → Ends (nothing ∷ s) s

line_round-nonempty :
    (more : Sock → List ℕ × Sock) (c : ℕ) (t : Sock) → length (line_round more (some c, t)).0 ≢ 0
unfolding line_round
line_round-nonempty more c t e = elim (Bool-cases (c == b'\n')) [
  | inl lf ↦ let e' : 1 ≡ 0 = rw lf at e in absurd (omega (arith, e'))
  | inr other ↦ let e' : suc (length (more t).0) ≡ 0 = rw other at e in absurd (omega (arith, e'))
]

-- It stores nothing only where the first `recv` gives no byte.
line_loop-Ends :
    (room : ℕ) (s : Sock)
    → length (line_loop (suc room) s).0 ≡ 0
    → Ends s (line_loop (suc room) s).1
unfolding line_loop line_char
line_loop-Ends room [] e = unfold line_round in at_end
line_loop-Ends room (nothing ∷ s) e = unfold line_round in no_byte
line_loop-Ends room (got c ∷ s) e = elim (Bool-cases (c == b'\r')) [
  | inl cr ↦ absurd (line_round-nonempty (line_loop room) b'\n' (skip_lf (peek s)) (rw cr at e))
  | inr other ↦ absurd (line_round-nonempty (line_loop room) c s (rw other at e))
]

pub get_line-Ends : (s : Sock) → length (get_line 1024 s).0 ≡ 0 → Ends s (get_line 1024 s).1
unfolding get_line
get_line-Ends s e = line_loop-Ends 1022 s e
