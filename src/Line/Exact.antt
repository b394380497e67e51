-- ===== src/Line/Exact.antt =====
-- `get_line` at a line that is all there and fits.
use c_language_learnning.Base.{
  ℕ, zero, suc, ◌+◌, ◌-◌, ◌<◌, ◌≡◌, refl, List, [], ◌∷◌, ◌++◌, map, arith, length, ◌==◌, Bool, true,
  false, not, ◌&&◌, All,
}
use c_language_learnning.Socket.{got}
use c_language_learnning.Line.{skip_lf, line_char, line_round, line_loop, get_line}

-- A byte of a line: neither '\r' nor '\n'.
abbrev pub Inner : ℕ → Type 0
Inner c = ((c == b'\r') ≡ false) × ((c == b'\n') ≡ false)

-- The same as a test.
abbrev pub inner_check : List ℕ → Bool
inner_check [] = true
inner_check (c ∷ s) = not (c == b'\r') && (not (c == b'\n') && inner_check s)

pub All-Inner : (s : List ℕ) → inner_check s ≡ true → All Inner s
All-Inner [] h = tt
All-Inner (c ∷ s) h = (ground arith, All-Inner s (ground arith))

-- The line as it comes over the connection, and what follows it.
abbrev pub wire : List ℕ → List ℕ → List ℕ
wire line rest = line ++ (b'\r' ∷ b'\n' ∷ rest)

line_loop-wire :
    (room : ℕ) (line rest : List ℕ)
    → All Inner line
    → length line < room
    → line_loop room (map got (wire line rest)) ≡ (line ++ (b'\n' ∷ []), map got rest)
unfolding line_loop line_round line_char skip_lf
line_loop-wire zero line rest h f = absurd (omega arith)
line_loop-wire (suc room) [] rest h f = refl
line_loop-wire (suc room) (c ∷ line) rest h f =
    rw (h.0.0, h.0.1, line_loop-wire room line rest h.1 (omega arith))

-- A line that fits, ended by "\r\n", is stored with a '\n' for its end, and is taken off the socket.
pub get_line-wire :
    (size : ℕ) (line rest : List ℕ)
    → All Inner line
    → length line + 1 < size
    → get_line size (map got (wire line rest)) ≡ (line ++ (b'\n' ∷ []), map got rest)
unfolding get_line
get_line-wire size line rest h f = line_loop-wire (size - 1) line rest h (omega arith)
