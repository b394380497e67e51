-- ===== src/Tinyhttpd/Headers/Length.antt =====
-- The length that the headers of a POST give.
use c_language_learnning.Base.{
  ℕ, zero, suc, ◌+◌, ◌^◌, ◌<◌, ◌≡◌, refl, ap, ◌∙◌, sym, none, some, true, List, [], ◌∷◌, ◌++◌, map,
  length, set, codes, eq_of_some, arith, All, All-append,
}
use c_language_learnning.Base.Int.{ℤ, pos, negsuc}
use c_language_learnning.Socket.{Sock, got}
use c_language_learnning.Line.Exact.{Inner, wire, All-Inner}
use c_language_learnning.Decimal.{decimal}
use c_language_learnning.Decimal.RoundTrip.{length-decimal, decimal-Inner}
use c_language_learnning.Tinyhttpd.Pages.{store}
use c_language_learnning.Tinyhttpd.Headers.{
  get_line, more_headers, content_length_of, post_headers, read_content_length,
}
use c_language_learnning.Tinyhttpd.Headers.Returns.{read_content_length_returns}
use c_language_learnning.Tinyhttpd.Headers.Skips.{
  IsHeader, text, tiny_line, more_headers-line, more_headers-blank, content_length_of-decimal,
}

pub length_header : ℕ → List ℕ
length_header n = codes "Content-Length: " ++ decimal n

length_header-IsHeader : (n : ℕ) → n < 2 ^ 31 → IsHeader (length_header n)
unfolding length_header
length_header-IsHeader n small = record {
  inner =
      All-append Inner (codes "Content-Length: ") (decimal n)
        (All-Inner (codes "Content-Length: ") refl) (decimal-Inner n);
  nonempty = omega arith;
  short = omega (arith, length-decimal n 18 (omega (arith, small)));
}

-- A line as the buffer holds it.
abbrev stored : List ℕ → List ℕ → List ℕ
stored line buf = store (line ++ (b'\n' ∷ [])) buf

post_headers-zero :
    (line buf : List ℕ) (len : ℤ) (s : Sock) → post_headers zero line buf len s ≡ none
unfolding post_headers
post_headers-zero line buf len s = refl

post_headers-done :
    (fuel : ℕ) (buf : List ℕ) (len : ℤ) (s : Sock)
    → post_headers (suc fuel) (b'\n' ∷ []) buf len s ≡ some (len, s)
unfolding post_headers
post_headers-done fuel buf len s = rw (more_headers-blank, post_headers)

post_headers-more :
    (fuel : ℕ) (line buf next rest : List ℕ) (len : ℤ)
    → more_headers line ≡ true
    → All Inner next
    → length next + 1 < 1024
    → post_headers (suc fuel) line buf len (map got (wire next rest))
      ≡ post_headers fuel
          (next ++ (b'\n' ∷ []))
          (stored next (set buf 15 0))
          (content_length_of (set buf 15 0) len)
          (map got rest)
unfolding post_headers
post_headers-more fuel line buf next rest len m h f = rw (m, tiny_line next rest h f, post_headers)

-- From the header that gives the length on.
post_headers-last :
    (fuel n : ℕ) (body buf : List ℕ) (len : ℤ) (r : ℤ × Sock)
    → n < 2 ^ 31
    → post_headers fuel
        (length_header n ++ (b'\n' ∷ []))
        (stored (length_header n) buf)
        len
        (map got (text [] body))
      ≡ some r
    → r ≡ (pos n, map got body)
unfolding text
post_headers-last zero n body buf len r small e = cc (
    post_headers-zero (length_header n ++ (b'\n' ∷ [])) (stored (length_header n) buf) len
      (map got (text [] body)))
post_headers-last (suc zero) n body buf len r small e = cc (
  post_headers-more zero (length_header n ++ (b'\n' ∷ [])) (stored (length_header n) buf) [] body
      len (more_headers-line (length_header n) (length_header-IsHeader n small)) tt (omega arith),
  post_headers-zero (b'\n' ∷ []) (stored [] (set (stored (length_header n) buf) 15 0))
      (content_length_of (set (stored (length_header n) buf) 15 0) len) (map got body),
)
post_headers-last (suc (suc fuel)) n body buf len r small e = eq_of_some (
    sym e
    ∙ (post_headers-more (suc fuel) (length_header n ++ (b'\n' ∷ [])) (stored (length_header n) buf)
          [] body len (more_headers-line (length_header n) (length_header-IsHeader n small)) tt
          (omega arith)
        ∙ (post_headers-done fuel (stored [] (set (stored (length_header n) buf) 15 0))
              (content_length_of (set (stored (length_header n) buf) 15 0) len) (map got body)
            ∙ ap (λ l. some (l, map got body)) (length_is_n buf len))))
  where
    length_is_n :
        (b : List ℕ) (old : ℤ)
        → content_length_of (set (stored (length_header n) b) 15 0) old ≡ pos n
    length_is_n b old = unfold length_header in content_length_of-decimal n b old

-- Each header before it is passed over, whatever it says.
post_headers-text :
    (fuel n : ℕ) (line : List ℕ) (hs : List (List ℕ)) (body buf : List ℕ) (len : ℤ) (r : ℤ × Sock)
    → All IsHeader hs
    → n < 2 ^ 31
    → more_headers line ≡ true
    → post_headers fuel line buf len (map got (text (hs ++ (length_header n ∷ [])) body)) ≡ some r
    → r ≡ (pos n, map got body)
unfolding text
post_headers-text zero n line hs body buf len r h small m e =
    cc (post_headers-zero line buf len (map got (text (hs ++ (length_header n ∷ [])) body)))
post_headers-text (suc fuel) n line [] body buf len r h small m e =
    let i = length_header-IsHeader n small in
    post_headers-last fuel n body (set buf 15 0) (content_length_of (set buf 15 0) len) r small (
      sym (post_headers-more fuel line buf (length_header n) (text [] body) len m i.inner i.short)
      ∙ e)
post_headers-text (suc fuel) n line (hd ∷ hs) body buf len r h small m e =
    post_headers-text fuel n (hd ++ (b'\n' ∷ [])) hs body (stored hd (set buf 15 0))
      (content_length_of (set buf 15 0) len) r h.1 small (more_headers-line hd h.0)
      (sym (
          post_headers-more fuel line buf hd (text (hs ++ (length_header n ∷ [])) body) len m
            h.0.inner h.0.short)
        ∙ e)

-- `read_content_length` once the first line has been read.
read_content_length-first :
    (buf line : List ℕ) (s rest : Sock)
    → get_line 1024 s ≡ (line, rest)
    → read_content_length buf s
      ≡ post_headers (suc (suc (length s))) line (store line buf) (negsuc 0) rest
unfolding read_content_length
read_content_length-first buf line s rest e = rw e

-- Of headers of which the last is "Content-Length: n" the loop returns n, and it takes no byte of
-- the body off the socket, for n an `int`.
pub read_content_length-text :
    (buf : List ℕ) (hs : List (List ℕ)) (n : ℕ) (body : List ℕ)
    → All IsHeader hs
    → n < 2 ^ 31
    → read_content_length buf (map got (text (hs ++ (length_header n ∷ [])) body))
      ≡ some (pos n, map got body)
unfolding text
read_content_length-text buf [] n body h small =
    let i = length_header-IsHeader n small in
    let s = map got (wire (length_header n) (text [] body)) in
    let (r, e) = read_content_length_returns buf s in
    let first =
      read_content_length-first buf (length_header n ++ (b'\n' ∷ [])) s (map got (text [] body))
        (tiny_line (length_header n) (text [] body) i.inner i.short) in
    e
    ∙ ap some
        (post_headers-last (suc (suc (length s))) n body buf (negsuc 0) r small (sym first ∙ e))
read_content_length-text buf (hd ∷ hs) n body h small =
    let rest = text (hs ++ (length_header n ∷ [])) body in
    let s = map got (wire hd rest) in
    let (r, e) = read_content_length_returns buf s in
    let first =
      read_content_length-first buf (hd ++ (b'\n' ∷ [])) s (map got rest)
        (tiny_line hd rest h.0.inner h.0.short) in
    e
    ∙ ap some (
        post_headers-text (suc (suc (length s))) n (hd ++ (b'\n' ∷ [])) hs body (stored hd buf)
          (negsuc 0) r h.1 small (more_headers-line hd h.0) (sym first ∙ e))
