-- ===== src/HttpParser/Stream.antt =====
-- The answer does not depend on how the request is cut into pieces.
use Prim.Native.Nat.{◌≤◌, ◌<◌}
use c_language_learnning.Base.{
  ℕ, zero, suc, ◌+◌, ◌-◌, ◌≡◌, ◌≢◌, refl, sym, ap, ◌∙◌, Option, none, some, List, [], ◌∷◌, ◌++◌,
  arith, false, length, length-append, take, All, append_assoc, append-nil, leb,
}
use c_language_learnning.HttpParser.{
  LineStatus, line_ok, line_bad, line_open, HttpCode, no_request, get_request, bad_request,
  forbidden_request, internal_error, closed_connection, Buffer, parse_line, fill, State, parse_step,
  behind_line, line_text, return_or, parse_found, parse_lines, parse_content, answer, reply_or,
  replied, serve, start,
}
use c_language_learnning.HttpParser.Line.{Inside, parse_line-Inside, fill-append}
use c_language_learnning.HttpParser.Resume.{
  filled_state, filled_result, parse_content-filled, resumed, parse_content-resumed,
}

-- What a call has returned: the indices are in order and below `read_index`.
pub record Returned (r : ℕ) (s : State) (result : Option (HttpCode × State)) : Type 0 where
  pub code : HttpCode
  pub state : State
  pub run : result ≡ some (code, state)
  pub low : s.checked_index ≤ state.checked_index
  pub high : state.checked_index ≤ r
  pub ordered : s.start_line ≤ s.checked_index → state.start_line ≤ state.checked_index

return_or-Returned :
    (r : ℕ) (s t : State) (code : Option HttpCode) (more : Option (HttpCode × State))
    → s.checked_index ≤ t.checked_index
    → t.checked_index ≤ r
    → t.start_line ≤ t.checked_index
    → Returned r t more
    → Returned r s (return_or code t more)
unfolding return_or
return_or-Returned r s t (some code) more lo hi o v = record {
  code = code;
  state = t;
  run = refl;
  low = lo;
  high = hi;
  ordered = λ h. o;
}
return_or-Returned r s t none more lo hi o v = record {
  code = v.code;
  state = v.state;
  run = v.run;
  low = omega (arith, v.low);
  high = v.high;
  ordered = λ h. v.ordered o;
}

parse_found-Returned :
    (r n : ℕ) (s : State) (more : State → Option (HttpCode × State)) (l : LineStatus × (Buffer × ℕ))
    → s.checked_index + n ≡ r
    → Inside n s.checked_index l
    → ((t : State)
        → s.checked_index < t.checked_index
        → t.checked_index ≤ r
        → Returned r t (more t))
    → Returned r s (parse_found more s l)
unfolding parse_found
parse_found-Returned r n s more (line_open, l) e v ih = record {
  code = no_request;
  state = record s { buffer = l.0; checked_index = l.1 };
  run = refl;
  low = v.low;
  high = omega (arith, v.high);
  ordered = λ h. omega (arith, v.low);
}
parse_found-Returned r n s more (line_bad, l) e v ih = record {
  code = bad_request;
  state = record s { buffer = l.0; checked_index = l.1 };
  run = refl;
  low = v.low;
  high = omega (arith, v.high);
  ordered = λ h. omega (arith, v.low);
}
parse_found-Returned r n s more (line_ok, l) e v ih =
    let step = parse_step s.checkstate (line_text s l) in
    let t = behind_line s l step.1 in
    return_or-Returned r s t step.0 (more t) v.low (omega (arith, v.high)) (omega arith)
      (ih t (v.moves refl) (omega (arith, v.high)))

parse_lines-Returned :
    (fuel r : ℕ) (s : State)
    → s.checked_index ≤ r
    → r - s.checked_index < fuel
    → Returned r s (parse_lines fuel r s)
unfolding parse_lines
parse_lines-Returned zero r s c h = absurd (omega arith)
parse_lines-Returned (suc fuel) r s c h =
    let n : ℕ = r - s.checked_index in
    parse_found-Returned r n s (parse_lines fuel r) (parse_line n s.buffer s.checked_index)
      (omega arith) (parse_line-Inside n s.buffer s.checked_index)
      (λ t lo hi. parse_lines-Returned fuel r t hi (omega arith))

-- `parse_content` returns, whatever the buffer holds; `checked_index` only grows and stays within
-- `read_index`, and `start_line` stays within `checked_index`.
pub parse_content-Returned :
    (r : ℕ) (s : State) → s.checked_index ≤ r → Returned r s (parse_content r s)
unfolding parse_content
parse_content-Returned r s c = parse_lines-Returned (suc (r - s.checked_index)) r s c (omega arith)

take-all : (n : ℕ) (cs : List ℕ) → length cs ≤ n → take n cs ≡ cs
take-all zero [] h = refl
take-all zero (c ∷ cs) h = absurd (omega arith)
take-all (suc n) [] h = refl
take-all (suc n) (c ∷ cs) h = ap (λ l. c ∷ l) (take-all n cs (omega arith))

-- One round of `main` on a chunk that fits.
pub serve-cons :
    (chunk : List ℕ) (chunks : List (List ℕ)) (r : ℕ) (s : State)
    → chunk ≢ []
    → r + length chunk ≤ 4096
    → serve (chunk ∷ chunks) r s
      ≡ replied
          (serve chunks (r + length chunk))
          (parse_content (r + length chunk) (record s { buffer = fill s.buffer r chunk }))
unfolding serve
serve-cons [] chunks r s ne h = absurd (ne refl)
serve-cons (c ∷ cs) chunks r s ne h =
    let room : leb 4096 r ≡ false = ground arith in
    rw (take-all (4096 - r) (c ∷ cs) (omega arith), room) refl

-- A call on the longer text, from the result on the shorter one.
replied-resumed :
    (more next : State → Option (Option (List ℕ))) (r n : ℕ) (cs : List ℕ) (code : HttpCode)
    (t : State)
    → next t ≡ replied more (parse_content n (filled_state r cs t))
    → replied next (some (code, t)) ≡ replied more (resumed n (some (code, filled_state r cs t)))
unfolding replied reply_or answer
replied-resumed more next r n cs no_request t e = e
replied-resumed more next r n cs get_request t e = refl
replied-resumed more next r n cs bad_request t e = refl
replied-resumed more next r n cs forbidden_request t e = refl
replied-resumed more next r n cs internal_error t e = refl
replied-resumed more next r n cs closed_connection t e = refl

append-ne : (c d : List ℕ) → c ≢ [] → c ++ d ≢ []
append-ne [] d ne e = ne refl
append-ne (x ∷ c) d ne e = cc

-- Two pieces that come one after the other are as good as one.
serve_join :
    (c d : List ℕ) (chunks : List (List ℕ)) (r : ℕ) (s : State)
    → c ≢ []
    → d ≢ []
    → r + length c + length d ≤ 4096
    → s.checked_index ≤ r
    → serve (c ∷ d ∷ chunks) r s ≡ serve ((c ++ d) ∷ chunks) r s
serve_join c d chunks r s nc nd fits low =
    let n : ℕ = r + length c in
    let first : State = record s { buffer = fill s.buffer r c } in
    let v : Returned n first (parse_content n first) =
      parse_content-Returned n first (omega arith) in
    let more = serve chunks (n + length d) in
    let both : State = record s { buffer = fill s.buffer r (c ++ d) } in
    let whole : parse_content (n + length d) both
        ≡ resumed (n + length d) (some (v.code, filled_state n d v.state)) =
      ap (λ b. parse_content (n + length d) (record s { buffer = b })) (fill-append s.buffer r c d)
      ∙ parse_content-resumed (length d) n (filled_state n d first) (omega arith)
      ∙ ap (resumed (n + length d)) (
          parse_content-filled n n d first (omega arith) (omega arith)
          ∙ ap (filled_result n d) v.run) in
    let size : r + length (c ++ d) ≡ n + length d = omega (arith, length-append c d) in
    serve-cons c (d ∷ chunks) r s nc (omega arith)
    ∙ ap (replied (serve (d ∷ chunks) n)) v.run
    ∙ replied-resumed more (serve (d ∷ chunks) n) n (n + length d) d v.code v.state
        (serve-cons d chunks n v.state nd fits)
    ∙ ap (replied more) (sym whole)
    ∙ ap (λ k. replied (serve chunks k) (parse_content k both)) (sym size)
    ∙ sym (serve-cons (c ++ d) chunks r s (append-ne c d nc) (omega (arith, size)))

unfoldable pub concat : List (List ℕ) → List ℕ
concat [] = []
concat (c ∷ chunks) = c ++ concat chunks

serve_first :
    (chunks : List (List ℕ)) (c : List ℕ) (r : ℕ) (s : State)
    → c ≢ []
    → All (λ d. d ≢ []) chunks
    → r + length c + length (concat chunks) ≤ 4096
    → s.checked_index ≤ r
    → serve (c ∷ chunks) r s ≡ serve ((c ++ concat chunks) ∷ []) r s
unfolding concat
serve_first [] c r s nc all fits low = ap (λ l. serve (l ∷ []) r s) (sym (append-nil c))
serve_first (d ∷ chunks) c r s nc all fits low =
    let split = length-append d (concat chunks) in
    serve_join c d chunks r s nc all.0 (omega (arith, split)) low
    ∙ serve_first chunks (c ++ d) r s (append-ne c d nc) all.1
        (omega (arith, split, length-append c d)) low
    ∙ ap (λ l. serve (l ∷ []) r s) (append_assoc c d (concat chunks))

-- However the bytes of a client, at least one and at most 4096, are cut into the pieces that recv returns,
-- the server answers as if they had come at once.
pub serve-concat :
    (c : List ℕ) (chunks : List (List ℕ))
    → c ≢ []
    → All (λ d. d ≢ []) chunks
    → length c + length (concat chunks) ≤ 4096
    → serve (c ∷ chunks) 0 start ≡ serve ((c ++ concat chunks) ∷ []) 0 start
serve-concat c chunks nc all fits = serve_first chunks c 0 start nc all (omega arith) (omega arith)
