-- ===== src/Line.antt =====
-- `get_line` of network-programming/http/epollhttpd/epoll.c; network-programming/http/tinyhttpd/httpd.c
-- has the same text.
pub mod Bounds
pub mod Normal
pub mod Exact
pub mod Used
mod Tests
use c_language_learnning.Base.{
  ℕ, zero, suc, ◌-◌, Option, none, some, List, [], ◌∷◌, ◌==◌, if◌then◌else◌,
}
use c_language_learnning.Socket.{Sock, recv, peek}

-- After '\r': what is left once a '\n' behind it has been taken.
skip_lf : Option ℕ × Sock → Sock
skip_lf (none, s) = s
skip_lf (some c, s) = if c == b'\n' then (recv s).1 else s

-- The byte that one round of the loop stores, `none` where `recv` gives none.
line_char : Option ℕ × Sock → Option ℕ × Sock
unfolding skip_lf
line_char (none, s) = (none, s)
line_char (some c, s) = if c == b'\r' then (some b'\n', skip_lf (peek s)) else (some c, s)

-- One round of the loop, `more` being the rounds after it: a '\n' and a failed `recv` end it.
line_round : (Sock → List ℕ × Sock) → Option ℕ × Sock → List ℕ × Sock
line_round more (none, s) = ([], s)
line_round more (some c, s) =
    let rest = more s in if c == b'\n' then (c ∷ [], s) else (c ∷ rest.0, rest.1)

-- `room` is `size - 1 - i`: the loop runs while it is not 0.
line_loop : ℕ → Sock → List ℕ × Sock
unfolding line_char line_round
line_loop zero s = ([], s)
line_loop (suc room) s = line_round (line_loop room) (line_char (recv s))

-- The bytes stored before the final zero, and the socket; the value returned is their number.
unfoldable pub get_line : ℕ → Sock → List ℕ × Sock
unfolding line_loop
get_line size s = line_loop (size - 1) s
