-- ===== src/Tinyhttpd/Headers/Returns.antt =====
-- The loops over the headers come to an end.
use c_language_learnning.Base.{
  ℕ, zero, suc, ◌+◌, ◌<◌, ◌≡◌, refl, true, some, List, arith, length, set, Bool-cases, inl, inr,
}
use c_language_learnning.Base.Int.{ℤ, negsuc}
use c_language_learnning.Socket.{Sock}
use c_language_learnning.Line.Bounds.{get_line_bounds}
use c_language_learnning.Tinyhttpd.Pages.{store}
use c_language_learnning.Tinyhttpd.Headers.{
  get_line, more_headers, discard_headers, skip_headers, content_length_of, post_headers,
  read_content_length,
}

more_headers-nonempty : (line : List ℕ) → more_headers line ≡ true → 0 < length line
unfolding more_headers
more_headers-nonempty line h = ground arith

-- Rounds enough for the line at hand and the outcomes of the socket.
Enough : ℕ → List ℕ → Sock → Type 0
Enough fuel line s = (0 < fuel) × (0 < length line → length s + 1 < fuel)

Enough-next :
    (fuel : ℕ) (line : List ℕ) (s : Sock)
    → Enough (suc fuel) line s
    → more_headers line ≡ true
    → Enough fuel (get_line 1024 s).0 (get_line 1024 s).1
unfolding Enough get_line
Enough-next fuel line s e more =
    let room = e.1 (more_headers-nonempty line more) in
    (omega arith, λ h. omega (arith, (get_line_bounds 1024 s (omega arith)).2 h))

discard_headers_returns :
    (fuel : ℕ) (line : List ℕ) (s : Sock)
    → Enough fuel line s
    → (s' : Sock) × (discard_headers fuel line s ≡ some s')
unfolding discard_headers
discard_headers_returns zero line s e = unfold Enough in absurd (omega (arith, e.0))
discard_headers_returns (suc fuel) line s e = elim (Bool-cases (more_headers line)) [
  | inl more ↦
      rw (more, discard_headers)
        (discard_headers_returns fuel (get_line 1024 s).0 (get_line 1024 s).1
          (Enough-next fuel line s e more))
  | inr done ↦ rw (done, discard_headers) (s, refl)
]

-- Whatever the client sends, the headers are read to an end: the loop that drops them returns.
pub skip_headers_returns :
    (line : List ℕ) (s : Sock) → (s' : Sock) × (skip_headers line s ≡ some s')
unfolding skip_headers
skip_headers_returns line s =
    discard_headers_returns (suc (suc (length s))) line s
      (unfold Enough in (omega arith, λ h. omega arith))

post_headers_returns :
    (fuel : ℕ) (line buf : List ℕ) (len : ℤ) (s : Sock)
    → Enough fuel line s
    → (r : ℤ × Sock) × (post_headers fuel line buf len s ≡ some r)
unfolding post_headers
post_headers_returns zero line buf len s e = unfold Enough in absurd (omega (arith, e.0))
post_headers_returns (suc fuel) line buf len s e = elim (Bool-cases (more_headers line)) [
  | inl more ↦
      rw (more, post_headers)
        (post_headers_returns fuel (get_line 1024 s).0 (store (get_line 1024 s).0 (set buf 15 0))
          (content_length_of (set buf 15 0) len) (get_line 1024 s).1
          (Enough-next fuel line s e more))
  | inr done ↦ rw (done, post_headers) ((len, s), refl)
]

-- Whatever the client sends, the loop that looks for the length of a POST returns.
pub read_content_length_returns :
    (buf : List ℕ) (s : Sock) → (r : ℤ × Sock) × (read_content_length buf s ≡ some r)
unfolding read_content_length
read_content_length_returns buf s =
    let n = (get_line_bounds 1024 s (omega arith)).1 in
    post_headers_returns (suc (suc (length s))) (get_line 1024 s).0 (store (get_line 1024 s).0 buf)
      (negsuc 0) (get_line 1024 s).1
      (unfold Enough get_line in (omega arith, λ h. omega (arith, n)))
