-- ===== src/Line/Bounds.antt =====
-- How much `get_line` stores, and that it makes progress.
use c_language_learnning.Base.{
  ℕ, zero, suc, ◌-◌, ◌≤◌, ◌<◌, ◌≡◌, ◌≢◌, refl, Option, none, some, List, [], ◌∷◌, arith, length,
  Bool-cases, inl, inr, ◌==◌,
}
use c_language_learnning.Socket.{Sock, got, nothing, recv, peek}
use c_language_learnning.Line.{skip_lf, line_char, line_round, line_loop, get_line}

length-skip_lf : (s : Sock) → length (skip_lf (peek s)) ≤ length s
unfolding skip_lf
length-skip_lf [] = omega arith
length-skip_lf (nothing ∷ s) = omega arith
length-skip_lf (got c ∷ s) = ground arith

-- A round uses up an outcome, if there is one.
length-line_char :
    (s : Sock)
    → (length (line_char (recv s)).1 ≤ length s)
      × ((line_char (recv s)).0 ≢ none → length (line_char (recv s)).1 < length s)
unfolding line_char
length-line_char [] = (omega arith, λ ne. absurd (ne refl))
length-line_char (nothing ∷ s) = (omega arith, λ ne. absurd (ne refl))
length-line_char (got c ∷ s) = ground (arith, length-skip_lf s)

-- What one call has done to the socket `s`, with room for `room` bytes.
record Took (room : ℕ) (s : Sock) (out : List ℕ × Sock) : Type 0 where
  fits : length out.0 ≤ room
  left : length out.1 ≤ length s
  progress : 0 < length out.0 → length out.1 < length s

line_round-Took :
    (room : ℕ) (more : Sock → List ℕ × Sock) (s : Sock) (r : Option ℕ × Sock)
    → length r.1 ≤ length s
    → (r.0 ≢ none → length r.1 < length s)
    → Took room r.1 (more r.1)
    → Took (suc room) s (line_round more r)
unfolding line_round
line_round-Took room more s (none, t) le lt ih = record {
  fits = omega arith;
  left = omega arith;
  progress = λ h. absurd (omega arith);
}
line_round-Took room more s (some c, t) le lt ih =
    let less : length t < length s = lt (λ e. cc) in
    elim (Bool-cases (c == b'\n')) [
      | inl stop ↦ rw stop (record { fits = omega arith; left = omega arith; progress = λ h. less })
      | inr go ↦ rw go (record {
        fits = omega (arith, ih.fits);
        left = omega (arith, ih.left);
        progress = λ h. omega (arith, ih.left);
      })
    ]

line_loop-Took : (room : ℕ) (s : Sock) → Took room s (line_loop room s)
unfolding line_loop
line_loop-Took zero s = record {
  fits = omega arith;
  left = omega arith;
  progress = λ h. absurd (omega arith);
}
line_loop-Took (suc room) s =
    line_round-Took room (line_loop room) s (line_char (recv s)) (length-line_char s).0
      (length-line_char s).1 (line_loop-Took room (line_char (recv s)).1)

-- Into a buffer of `size` bytes, at least one, `get_line` stores at most `size - 1` bytes, so its
-- final zero fits too; it never adds outcomes to the socket, and uses one up when it stores a byte.
pub get_line_bounds :
    (size : ℕ) (s : Sock)
    → 0 < size
    → (length (get_line size s).0 < size)
      × (length (get_line size s).1 ≤ length s)
      × (0 < length (get_line size s).0 → length (get_line size s).1 < length s)
unfolding get_line
get_line_bounds size s h = (omega (arith, t.fits), t.left, t.progress)
  where
    t : Took (size - 1) s (line_loop (size - 1) s)
    t = line_loop-Took (size - 1) s

-- A line as its callers see it: no '\r', and a '\n' only at the end.
abbrev pub IsLine : List ℕ → Type 0
IsLine [] = Unit
IsLine (c ∷ []) = c ≢ b'\r'
IsLine (c ∷ d ∷ l) = (c ≢ b'\r') × (c ≢ b'\n') × IsLine (d ∷ l)

line_char-ne : (r : Option ℕ × Sock) (c : ℕ) → (line_char r).0 ≡ some c → c ≢ b'\r'
unfolding line_char
line_char-ne (none, s) c h = ground arith
line_char-ne (some d, s) c h = ground arith

IsLine-cons : (c : ℕ) (l : List ℕ) → c ≢ b'\r' → c ≢ b'\n' → IsLine l → IsLine (c ∷ l)
IsLine-cons c [] h k i = h
IsLine-cons c (d ∷ l) h k i = (h, k, i)

line_round-IsLine :
    (more : Sock → List ℕ × Sock) (r : Option ℕ × Sock)
    → ((c : ℕ) → r.0 ≡ some c → c ≢ b'\r')
    → IsLine (more r.1).0
    → IsLine (line_round more r).0
unfolding line_round
line_round-IsLine more (none, t) ne ih = tt
line_round-IsLine more (some c, t) ne ih = elim (Bool-cases (c == b'\n')) [
  | inl stop ↦ rw stop (ne c refl)
  | inr go ↦ rw go (IsLine-cons c (more t).0 (ne c refl) (ground arith) ih)
]

line_loop-IsLine : (room : ℕ) (s : Sock) → IsLine (line_loop room s).0
unfolding line_loop
line_loop-IsLine zero s = tt
line_loop-IsLine (suc room) s =
    line_round-IsLine (line_loop room) (line_char (recv s)) (line_char-ne (recv s))
      (line_loop-IsLine room (line_char (recv s)).1)

-- What `get_line` stores has no '\r', and a '\n' only as its last byte.
pub get_line-IsLine : (size : ℕ) (s : Sock) → IsLine (get_line size s).0
unfolding get_line
get_line-IsLine size s = line_loop-IsLine (size - 1) s
