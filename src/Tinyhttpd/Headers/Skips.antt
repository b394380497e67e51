-- ===== src/Tinyhttpd/Headers/Skips.antt =====
-- What the loops over the headers take off the socket, and the length that a POST gives.
use c_language_learnning.Base.{
  ℕ, zero, suc, ◌+◌, ◌<◌, ◌≡◌, refl, ap, ◌∙◌, sym, none, some, true, false, List, [], ◌∷◌, ◌++◌,
  map, length, set, drop, codes, arith, All, All-append, c_str-append_zero,
}
use c_language_learnning.Base.Int.{ℤ, pos}
use c_language_learnning.Socket.{Sock, got}
use c_language_learnning.Line.Exact.{Inner, wire, get_line-wire}
use c_language_learnning.Decimal.{decimal}
use c_language_learnning.Decimal.RoundTrip.{atoi-decimal, decimal-All}
use c_language_learnning.Tinyhttpd.Pages.{store}
use c_language_learnning.Tinyhttpd.Headers.{
  get_line, more_headers, discard_headers, skip_headers, content_length_of,
}
use c_language_learnning.Tinyhttpd.Headers.Returns.{skip_headers_returns}

-- A header that fits the buffer, with at least one byte.
pub record IsHeader (h : List ℕ) : Type 0 where
  pub inner : All Inner h
  pub nonempty : 0 < length h
  pub short : length h + 1 < 1024

-- Headers, the blank line, and what follows.
unfoldable pub text : List (List ℕ) → List ℕ → List ℕ
text [] body = wire [] body
text (h ∷ hs) body = wire h (text hs body)

pub more_headers-line : (h : List ℕ) → IsHeader h → more_headers (h ++ (b'\n' ∷ [])) ≡ true
unfolding more_headers
more_headers-line [] i = absurd (omega (arith, i.nonempty))
more_headers-line (c ∷ h) i = let lf = i.inner.0.1 in ground (arith, lf)

pub more_headers-blank : more_headers (b'\n' ∷ []) ≡ false
unfolding more_headers
more_headers-blank = refl

pub tiny_line :
    (line rest : List ℕ)
    → All Inner line
    → length line + 1 < 1024
    → get_line 1024 (map got (wire line rest)) ≡ (line ++ (b'\n' ∷ []), map got rest)
unfolding get_line
tiny_line line rest h f = get_line-wire 1024 line rest h f

pub more_headers_start : more_headers (codes "A") ≡ true
unfolding more_headers
more_headers_start = refl

-- One round at a line that is all there.
discard_headers-more :
    (fuel : ℕ) (line next rest : List ℕ)
    → more_headers line ≡ true
    → All Inner next
    → length next + 1 < 1024
    → discard_headers (suc fuel) line (map got (wire next rest))
      ≡ discard_headers fuel (next ++ (b'\n' ∷ [])) (map got rest)
unfolding discard_headers
discard_headers-more fuel line next rest m h f = rw (m, tiny_line next rest h f, discard_headers)

discard_headers-done : (fuel : ℕ) (s : Sock) → discard_headers (suc fuel) (b'\n' ∷ []) s ≡ some s
unfolding discard_headers
discard_headers-done fuel s = rw (more_headers-blank, discard_headers)

discard_headers-zero : (line : List ℕ) (s : Sock) → discard_headers zero line s ≡ none
unfolding discard_headers
discard_headers-zero line s = refl

discard_headers-text :
    (fuel : ℕ) (line : List ℕ) (hs : List (List ℕ)) (body : List ℕ) (s' : Sock)
    → All IsHeader hs
    → more_headers line ≡ true
    → discard_headers fuel line (map got (text hs body)) ≡ some s'
    → s' ≡ map got body
unfolding text
discard_headers-text zero line hs body s' h m e =
    cc (discard_headers-zero line (map got (text hs body)))
discard_headers-text (suc zero) line [] body s' h m e = cc (
  discard_headers-more zero line [] body m tt (omega arith),
  discard_headers-zero (b'\n' ∷ []) (map got body),
)
discard_headers-text (suc (suc fuel)) line [] body s' h m e = cc (
  discard_headers-more (suc fuel) line [] body m tt (omega arith),
  discard_headers-done fuel (map got body),
)
discard_headers-text (suc fuel) line (hd ∷ hs) body s' h m e =
    discard_headers-text fuel (hd ++ (b'\n' ∷ [])) hs body s' h.1 (more_headers-line hd h.0)
      (sym (discard_headers-more fuel line hd (text hs body) m h.0.inner h.0.short) ∙ e)

-- Dropping the headers of a request takes the headers and the blank line off the socket, and not a
-- byte more: the body stays for the program that reads it.
pub skip_headers-text :
    (line : List ℕ) (hs : List (List ℕ)) (body : List ℕ)
    → All IsHeader hs
    → more_headers line ≡ true
    → skip_headers line (map got (text hs body)) ≡ some (map got body)
unfolding skip_headers
skip_headers-text line hs body h m =
    let (s', e) = skip_headers_returns line (map got (text hs body)) in
    e
    ∙ ap some
        (discard_headers-text (suc (suc (length (map got (text hs body))))) line hs body s' h m e)

-- Whatever the buffer held, the header "Content-Length: n" sets the length to n.
pub content_length_of-decimal :
    (n : ℕ) (buf : List ℕ) (old : ℤ)
    → content_length_of
        (set (store (codes "Content-Length: " ++ (decimal n ++ (b'\n' ∷ []))) buf) 15 0)
        old
      ≡ pos n
unfolding content_length_of store
content_length_of-decimal n buf old =
    let digits = decimal n ++ (b'\n' ∷ []) in
    let junk = drop (suc (length (codes "Content-Length: " ++ digits))) buf in
    let ok = All-append (λ c. 0 < c) (decimal n) (b'\n' ∷ []) (decimal-All n) (omega arith) in
    rw (c_str-append_zero digits junk ok) (atoi-decimal n (b'\n' ∷ []) refl)
