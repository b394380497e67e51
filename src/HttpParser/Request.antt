-- ===== src/HttpParser/Request.antt =====
-- A request of the form that the parser is for.
use Prim.Native.Nat.{◌≤◌, ◌<◌}
use c_language_learnning.Base.{
  ℕ, zero, suc, ◌+◌, ◌-◌, ◌≡◌, ◌≢◌, refl, ap, ◌∙◌, none, some, true, false, List, [], ◌∷◌, ◌++◌,
  arith, length, length-append, All, ◌==◌, codes, c_str, c_str-append_zero,
}
use c_language_learnning.Line.Exact.{Inner, wire}
use c_language_learnning.HttpParser.{
  get_request, CheckState, request_line, header, Buffer, put, fill, State, is_url, parse_headers,
  stop_headers, parse_step, return_or, parse_lines, parse_content, answer, reply_or, replied, serve,
  start,
}
use c_language_learnning.HttpParser.Stream.{concat, serve-concat, serve-cons}
use c_language_learnning.HttpParser.Wire.{
  Stands, fill-Stands, Stands-put, Stands-behind, found, at_line, parse_lines-wire,
}
use c_language_learnning.HttpParser.RequestLine.{
  parse_step-first_line, first_line-Inner, first_line_positive, first_line, IsUrlByte,
}

-- A header: it has its own bytes, of which the first is not zero.
pub record IsHeader (h : List ℕ) : Type 0 where
  pub inner : All Inner h
  pub first : ℕ
  pub others : List ℕ
  pub split : h ≡ first ∷ others
  pub nonzero : 0 < first

-- A request line, headers and the blank line.
unfoldable pub headers : List (List ℕ) → List ℕ
headers [] = wire [] []
headers (h ∷ hs) = wire h (headers hs)

parse_step-header :
    (h junk : List ℕ) → IsHeader h → parse_step header (c_str (h ++ junk)) ≡ (none, header)
unfolding parse_step parse_headers stop_headers
parse_step-header h junk v =
    let e : (v.first == 0) ≡ false = ground (arith, v.nonzero) in rw v.split (rw e refl)

parse_step-blank : parse_step header (c_str (0 ∷ 0 ∷ [])) ≡ (some get_request, header)
unfolding parse_step parse_headers stop_headers
parse_step-blank = refl

length-wire : (line rest : List ℕ) → length (wire line rest) ≡ length line + 2 + length rest
length-wire line rest = omega (arith, length-append line (b'\r' ∷ b'\n' ∷ rest))

parse_lines-headers :
    (hs : List (List ℕ)) (fuel r : ℕ) (b : Buffer) (i : ℕ)
    → Stands b i (headers hs)
    → All IsHeader hs
    → i + length (headers hs) ≤ r
    → length hs < fuel
    → (t : State) × (parse_lines fuel r (at_line b i header) ≡ some (get_request, t))
unfolding headers return_or
parse_lines-headers hs zero r b i s v room f = absurd (omega arith)
parse_lines-headers [] (suc fuel) r b i s v room f = (
  at_line (found b i).1.0 (i + 2) header,
  rw (parse_lines-wire fuel r b i i header [] [] s tt (omega arith) (omega arith), parse_step-blank)
      refl,
)
parse_lines-headers (h ∷ hs) (suc fuel) r b i s v room f =
    let j : ℕ = i + length h in
    let size = length-wire h (headers hs) in
    let b' : Buffer = (found b j).1.0 in
    let rest : Stands b' (j + 2) (headers hs) =
      Stands-put (put b j 0) (j + 2) (j + 1) 0 (headers hs) (omega arith) (
        Stands-put b (j + 2) j 0 (headers hs) (omega arith)
          (Stands-behind b i j h (headers hs) s refl)) in
    let (t, e) =
      parse_lines-headers hs fuel r b' (j + 2) rest v.1 (omega (arith, size)) (omega arith) in
    (
      t,
      rw
          (
            parse_lines-wire fuel r b i j header h (headers hs) s v.0.inner refl
                (omega (arith, size)),
            parse_step-header h (0 ∷ 0 ∷ []) v.0,
          )
          e,
    )

-- The bytes of a whole request.
abbrev pub request : List ℕ → List (List ℕ) → List ℕ
request url hs = wire (first_line url) (headers hs)

length-headers : (hs : List (List ℕ)) → length hs + 2 ≤ length (headers hs)
unfolding headers
length-headers [] = omega arith
length-headers (h ∷ hs) = omega (arith, length-headers hs, length-wire h (headers hs))

parse_content-start :
    (n : ℕ) (b : Buffer) (state : CheckState)
    → parse_content n (at_line b 0 state) ≡ parse_lines (suc n) n (at_line b 0 state)
unfolding parse_content
parse_content-start n b state =
    ap (λ k. parse_lines (suc k) n (at_line b 0 state)) {x = n - 0} {y = n} (omega arith)

parse_content-request :
    (url : List ℕ) (hs : List (List ℕ)) (b : Buffer)
    → Stands b 0 (request url hs)
    → All IsUrlByte url
    → is_url url ≡ true
    → All IsHeader hs
    → (t : State) × (parse_content (length (request url hs)) (at_line b 0 request_line)
        ≡ some (get_request, t))
unfolding return_or
parse_content-request url hs b s hu e hh =
    let line : List ℕ = first_line url in
    let j : ℕ = length line in
    let n : ℕ = length (request url hs) in
    let size : n ≡ j + 2 + length (headers hs) = length-wire line (headers hs) in
    let b' : Buffer = (found b j).1.0 in
    let rest : Stands b' (j + 2) (headers hs) =
      Stands-put (put b j 0) (j + 2) (j + 1) 0 (headers hs) (omega arith) (
        Stands-put b (j + 2) j 0 (headers hs) (omega arith)
          (Stands-behind b 0 j line (headers hs) s (omega arith))) in
    let (t, run) =
      parse_lines-headers hs n n b' (j + 2) rest hh (omega (arith, size))
        (omega (arith, size, length-headers hs)) in
    (
      t,
      parse_content-start n b request_line
          ∙ parse_lines-wire n n b 0 j request_line line (headers hs) s (first_line-Inner url hu)
              (omega arith) (omega (arith, size))
          ∙ rw
              (
                c_str-append_zero line (0 ∷ []) (first_line_positive url hu),
                parse_step-first_line url hu e,
              )
              run,
    )

serve_whole :
    (url : List ℕ) (hs : List (List ℕ))
    → All IsUrlByte url
    → is_url url ≡ true
    → All IsHeader hs
    → length (request url hs) ≤ 4096
    → serve (request url hs ∷ []) 0 start ≡ some (some (codes "I get a correct result\n"))
unfolding replied answer reply_or
serve_whole url hs hu e hh fits =
    let all = request url hs in
    let (t, run) =
      parse_content-request url hs (fill start.buffer 0 all) (fill-Stands start.buffer 0 all) hu e
        hh in
    serve-cons all [] 0 start (λ h. cc) (omega (arith, fits))
    ∙ ap
        (λ k.
          replied (serve [] k) (parse_content k (at_line (fill start.buffer 0 all) 0 request_line)))
        {x = 0 + length all} {y = length all} (omega arith)
    ∙ ap (replied (serve [] (length all))) run

-- A GET for a path, or for a url "http://" with a '/' behind it, of HTTP/1.1, with any headers of which none is
-- empty or begins with a zero, is answered by "I get a correct result", however it is cut into pieces, if it
-- has at most 4096 bytes.
pub serve-request :
    (url : List ℕ) (hs : List (List ℕ)) (c : List ℕ) (chunks : List (List ℕ))
    → All IsUrlByte url
    → is_url url ≡ true
    → All IsHeader hs
    → c ++ concat chunks ≡ request url hs
    → c ≢ []
    → All (λ d. d ≢ []) chunks
    → length (request url hs) ≤ 4096
    → serve (c ∷ chunks) 0 start ≡ some (some (codes "I get a correct result\n"))
serve-request url hs c chunks hu e hh whole ne all fits =
    let size : length c + length (concat chunks) ≤ 4096 =
      omega (arith, length-append c (concat chunks), ap length whole, fits) in
    serve-concat c chunks ne all size
    ∙ ap (λ l. serve (l ∷ []) 0 start) whole
    ∙ serve_whole url hs hu e hh fits
