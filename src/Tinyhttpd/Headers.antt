-- ===== src/Tinyhttpd/Headers.antt =====
-- The loops of network-programming/http/tinyhttpd/httpd.c that read the headers of a request.
pub mod Returns
pub mod Skips
pub mod Length
use c_language_learnning.Base.{
  ℕ, zero, suc, ◌+◌, ◌≤◌, ◌<◌, ◌≡◌, ◌≢◌, refl, ap, ◌∙◌, sym, Option, none, some, Bool, true, false,
  ◌&&◌, not, List, [], ◌∷◌, ◌++◌, length, drop, codes, arith, ltb, ◌==◌, if◌then◌else◌, c_str,
  str_eq, str_case_eq, Bool-cases, inl, inr, set,
}
use c_language_learnning.Socket.{Sock}
use c_language_learnning.Line
use c_language_learnning.Line.Bounds.{get_line_bounds}
use c_language_learnning.Decimal.{atoi}
use c_language_learnning.Base.Int.{ℤ, pos, negsuc}
use c_language_learnning.Tinyhttpd.Pages.{store}

-- `get_line` of this file: the text of the one that Line models.
unfoldable pub get_line : ℕ → Sock → List ℕ × Sock
get_line size s = Line.get_line size s

-- (numchars > 0) && strcmp("\n", buf), for a line as `get_line` stored it.
pub more_headers : List ℕ → Bool
more_headers line = ltb 0 (length line) && not (str_eq (codes "\n") (c_str line))

-- while (more_headers) numchars = get_line(client, buf, sizeof(buf)), from the line `line` on.
-- `none`: out of fuel.
discard_headers : ℕ → List ℕ → Sock → Option Sock
discard_headers zero line s = none
discard_headers (suc fuel) line s = elim (more_headers line) [
  | false ↦ some s
  | true ↦ discard_headers fuel (get_line 1024 s).0 (get_line 1024 s).1
]

-- The loop from `buf = "A"`. Each line but the last uses up an outcome of the socket.
pub skip_headers : List ℕ → Sock → Option Sock
unfolding discard_headers
skip_headers line s = discard_headers (suc (suc (length s))) line s

-- One header of a POST: `buf` as it stands after `buf[15] = '\0'`, and `content_length` before it.
pub content_length_of : List ℕ → ℤ → ℤ
content_length_of buf old =
    if str_case_eq (c_str buf) (codes "Content-Length:") then atoi (c_str (drop 16 buf)) else old

-- The loop over the headers of a POST. `line` is what the last `get_line` stored in `buf`.
post_headers : ℕ → List ℕ → List ℕ → ℤ → Sock → Option (ℤ × Sock)
post_headers zero line buf len s = none
post_headers (suc fuel) line buf len s =
    let cut = set buf 15 0 in
    let next = get_line 1024 s in
    elim (more_headers line) [
      | false ↦ some (len, s)
      | true ↦ post_headers fuel next.0 (store next.0 cut) (content_length_of cut len) next.1
    ]

-- `content_length` of the headers, -1 where none gives it.
pub read_content_length : List ℕ → Sock → Option (ℤ × Sock)
unfolding post_headers content_length_of
read_content_length buf s =
    let first = get_line 1024 s in
    post_headers (suc (suc (length s))) first.0 (store first.0 buf) (negsuc 0) first.1
