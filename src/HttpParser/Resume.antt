-- ===== src/HttpParser/Resume.antt =====
-- `parse_content` on a text that comes in two parts.
use Prim.Native.Nat.{◌≤◌, ◌<◌}
use c_language_learnning.Base.{
  ℕ, zero, suc, ◌+◌, ◌-◌, ◌≡◌, ◌≢◌, refl, sym, ap, ap₂, ◌∙◌, Option, none, some, List, arith, inl,
  inr, Bool-cases, leb,
}
use c_language_learnning.HttpParser.{
  LineStatus, line_ok, line_bad, line_open, HttpCode, no_request, get_request, bad_request,
  forbidden_request, internal_error, closed_connection, CheckState, request_line, header, content,
  Buffer, parse_line, slice, fill, State, parse_requestline, parse_headers, stop_requestline,
  stop_headers, parse_step, behind_line, line_text, return_or, parse_found, parse_lines,
  parse_content,
}
use c_language_learnning.HttpParser.Line.{
  Inside, parse_line-Inside, Resumes, parse_line-Resumes, filled, parse_line-filled, slice-fill,
}

abbrev pub filled_state : ℕ → List ℕ → State → State
filled_state r cs s = record s { buffer = fill s.buffer r cs }

abbrev pub filled_result : ℕ → List ℕ → Option (HttpCode × State) → Option (HttpCode × State)
filled_result r cs none = none
filled_result r cs (some (code, s)) = some (code, filled_state r cs s)

slice-upto :
    (b : Buffer) (i j r : ℕ) (cs : List ℕ)
    → j ≤ r
    → slice (fill b r cs) i (j - i) ≡ slice b i (j - i)
unfolding slice
slice-upto b i j r cs h = elim (Bool-cases (leb i j)) [
  | inl le ↦ slice-fill b i (j - i) r cs (ground arith)
  | inr more ↦ let none_left : j - i ≡ 0 = ground arith in rw none_left refl
]

return_or-filled :
    (r : ℕ) (cs : List ℕ) (code : Option HttpCode) (t : State)
    (more more' : Option (HttpCode × State))
    → more' ≡ filled_result r cs more
    → return_or code (filled_state r cs t) more' ≡ filled_result r cs (return_or code t more)
unfolding return_or
return_or-filled r cs (some code) t more more' e = refl
return_or-filled r cs none t more more' e = e

-- A round does not look behind `read_index`, if the rounds after it do not.
parse_found-filled :
    (n r : ℕ) (cs : List ℕ) (more : State → Option (HttpCode × State)) (s : State)
    (l : LineStatus × (Buffer × ℕ))
    → s.checked_index + n ≤ r
    → Inside n s.checked_index l
    → ((t : State)
        → t.checked_index ≤ s.checked_index + n
        → more (filled_state r cs t) ≡ filled_result r cs (more t))
    → parse_found more (filled_state r cs s) (filled r cs l)
      ≡ filled_result r cs (parse_found more s l)
unfolding parse_found
parse_found-filled n r cs more s (line_open, l) h v m = refl
parse_found-filled n r cs more s (line_bad, l) h v m = refl
parse_found-filled n r cs more s (line_ok, (b, j)) h v m =
    rw (slice-upto b s.start_line j r cs (omega (arith, v.high)))
      (return_or-filled r cs _ _ _ _ (m (behind_line s (b, j) _) v.high))

pub parse_lines-filled :
    (fuel n r : ℕ) (cs : List ℕ) (s : State)
    → s.checked_index ≤ n
    → n ≤ r
    → parse_lines fuel n (filled_state r cs s) ≡ filled_result r cs (parse_lines fuel n s)
unfolding parse_lines
parse_lines-filled zero n r cs s c h = refl
parse_lines-filled (suc fuel) n r cs s c h =
    let k : ℕ = n - s.checked_index in
    rw (parse_line-filled k s.buffer s.checked_index r cs (omega arith)) (
      parse_found-filled k r cs (parse_lines fuel n) s (parse_line k s.buffer s.checked_index)
        (omega arith) (parse_line-Inside k s.buffer s.checked_index)
        (λ t b. parse_lines-filled fuel n r cs t (omega (arith, b)) h))

-- The rounds after a line are at a later `checked_index`.
parse_found-more :
    (n : ℕ) (more more' : State → Option (HttpCode × State)) (s : State)
    (l : LineStatus × (Buffer × ℕ))
    → Inside n s.checked_index l
    → ((t : State)
        → s.checked_index < t.checked_index
        → t.checked_index ≤ s.checked_index + n
        → more t ≡ more' t)
    → parse_found more s l ≡ parse_found more' s l
unfolding parse_found
parse_found-more n more more' s (line_open, l) v m = refl
parse_found-more n more more' s (line_bad, l) v m = refl
parse_found-more n more more' s (line_ok, l) v m =
    let step = parse_step s.checkstate (line_text s l) in
    ap (return_or step.0 (behind_line s l step.1))
      (m (behind_line s l step.1) (v.moves refl) v.high)

-- One round more than the bytes that are left is enough: more fuel changes nothing.
pub parse_lines_fuel :
    (f g r : ℕ) (s : State)
    → s.checked_index ≤ r
    → r - s.checked_index < f
    → r - s.checked_index < g
    → parse_lines f r s ≡ parse_lines g r s
unfolding parse_lines
parse_lines_fuel zero g r s c h k = absurd (omega arith)
parse_lines_fuel (suc f) zero r s c h k = absurd (omega arith)
parse_lines_fuel (suc f) (suc g) r s c h k =
    let n : ℕ = r - s.checked_index in
    parse_found-more n (parse_lines f r) (parse_lines g r) s (parse_line n s.buffer s.checked_index)
      (parse_line-Inside n s.buffer s.checked_index)
      (λ t lo hi.
        parse_lines_fuel f g r t (omega (arith, hi)) (omega (arith, lo, hi))
          (omega (arith, lo, hi)))

-- What becomes of a result when more bytes have come.
abbrev pub resumed : ℕ → Option (HttpCode × State) → Option (HttpCode × State)
resumed r none = none
resumed r (some (no_request, t)) = parse_content r t
resumed r (some (get_request, t)) = some (get_request, t)
resumed r (some (bad_request, t)) = some (bad_request, t)
resumed r (some (forbidden_request, t)) = some (forbidden_request, t)
resumed r (some (internal_error, t)) = some (internal_error, t)
resumed r (some (closed_connection, t)) = some (closed_connection, t)

resumed-stop :
    (r : ℕ) (code : HttpCode) (t : State)
    → code ≢ no_request
    → resumed r (some (code, t)) ≡ some (code, t)
resumed-stop r no_request t ne = absurd (ne refl)
resumed-stop r get_request t ne = refl
resumed-stop r bad_request t ne = refl
resumed-stop r forbidden_request t ne = refl
resumed-stop r internal_error t ne = refl
resumed-stop r closed_connection t ne = refl

stop_requestline_stops : (code : HttpCode) → stop_requestline code ≢ some no_request
unfolding stop_requestline
stop_requestline_stops no_request e = cc
stop_requestline_stops get_request e = cc
stop_requestline_stops bad_request e = cc
stop_requestline_stops forbidden_request e = cc
stop_requestline_stops internal_error e = cc
stop_requestline_stops closed_connection e = cc

stop_headers_stops : (code : HttpCode) → stop_headers code ≢ some no_request
unfolding stop_headers
stop_headers_stops no_request e = cc
stop_headers_stops get_request e = cc
stop_headers_stops bad_request e = cc
stop_headers_stops forbidden_request e = cc
stop_headers_stops internal_error e = cc
stop_headers_stops closed_connection e = cc

-- No case of the switch returns NO_REQUEST.
parse_step_stops :
    (state : CheckState) (temp : List ℕ) → (parse_step state temp).0 ≢ some no_request
unfolding parse_step
parse_step_stops request_line temp e =
    stop_requestline_stops (parse_requestline temp request_line).0 e
parse_step_stops header temp e = stop_headers_stops (parse_headers temp) e
parse_step_stops content temp e = cc

resumed-return_or :
    (r : ℕ) (code : Option HttpCode) (t : State) (long short : Option (HttpCode × State))
    → code ≢ some no_request
    → long ≡ resumed r short
    → return_or code t long ≡ resumed r (return_or code t short)
unfolding return_or
resumed-return_or r none t long short ne e = e
resumed-return_or r (some code) t long short ne e =
    sym (resumed-stop r code t (λ h. ne (ap (λ c. some c) h)))

-- A round at an unfinished line, and the same round from where that stopped.
parse_found-again :
    (more : State → Option (HttpCode × State)) (s : State) (b : Buffer) (i : ℕ)
    (l : LineStatus × (Buffer × ℕ))
    → parse_found more s l ≡ parse_found more (record s { buffer = b; checked_index = i }) l
unfolding parse_found
parse_found-again more s b i (line_open, l) = refl
parse_found-again more s b i (line_bad, l) = refl
parse_found-again more s b i (line_ok, l) = refl

-- One round on the longer text, from what the round on the shorter text has found.
parse_found-resumed :
    (n m r : ℕ) (s : State) (more : State → Option (HttpCode × State))
    (short long : LineStatus × (Buffer × ℕ))
    → r ≡ s.checked_index + n
    → Inside n s.checked_index short
    → Inside (n + m) s.checked_index long
    → Resumes n m s.checked_index s.buffer short long
    → ((t : State)
        → s.checked_index < t.checked_index
        → t.checked_index ≤ r
        → parse_content (r + m) t ≡ resumed (r + m) (more t))
    → parse_found (parse_lines (n + m) (r + m)) s long ≡ resumed (r + m) (parse_found more s short)
unfolding parse_found parse_content parse_lines
parse_found-resumed n m r s more (line_ok, l) long e v w h ih =
    let step = parse_step s.checkstate (line_text s l) in
    let t = behind_line s l step.1 in
    rw h (
      resumed-return_or (r + m) step.0 t (parse_lines (n + m) (r + m) t) (more t)
        (parse_step_stops s.checkstate (line_text s l))
        (parse_lines_fuel (n + m) (suc (r + m - l.1)) (r + m) t (omega (arith, e, v.high))
            (omega (arith, e, v.moves refl, v.high)) (omega arith)
          ∙ ih t (v.moves refl) (omega (arith, e, v.high))))
parse_found-resumed n m r s more (line_bad, l) long e v w h ih = rw h refl
parse_found-resumed n m r s more (line_open, l) long e v w h ih =
    let k : ℕ = r + m - l.1 in
    let t = record s { buffer = l.0; checked_index = l.1 } in
    let same : s.checked_index + n - l.1 + m ≡ k = omega (arith, e, v.high) in
    let again : long ≡ parse_line k l.0 l.1 =
      h.1 ∙ ap₂ (λ q b. parse_line q b l.1) same (sym h.0) in
    parse_found-again (parse_lines (n + m) (r + m)) s l.0 l.1 long
    ∙ ap (parse_found (parse_lines (n + m) (r + m)) t) again
    ∙ parse_found-more k (parse_lines (n + m) (r + m)) (parse_lines k (r + m)) t
        (parse_line k l.0 l.1) (parse_line-Inside k l.0 l.1)
        (λ u lo hi.
          parse_lines_fuel (n + m) k (r + m) u (omega (arith, hi, e, v.high))
            (omega (arith, lo, e, v.low)) (omega (arith, lo, hi, e, v.high)))

parse_lines-resumed :
    (fuel m r : ℕ) (s : State)
    → s.checked_index ≤ r
    → r - s.checked_index < fuel
    → parse_content (r + m) s ≡ resumed (r + m) (parse_lines fuel r s)
unfolding parse_lines parse_content
parse_lines-resumed zero m r s c h = absurd (omega arith)
parse_lines-resumed (suc fuel) m r s c h =
    let n : ℕ = r - s.checked_index in
    let sum : r + m - s.checked_index ≡ n + m = omega arith in
    rw sum (
      parse_found-resumed n m r s (parse_lines fuel r) (parse_line n s.buffer s.checked_index)
        (parse_line (n + m) s.buffer s.checked_index) (omega arith)
        (parse_line-Inside n s.buffer s.checked_index)
        (parse_line-Inside (n + m) s.buffer s.checked_index)
        (parse_line-Resumes n m s.buffer s.checked_index)
        (λ t lo hi. parse_lines-resumed fuel m r t hi (omega arith)))

-- `parse_content` on `r + m` bytes gives what it gives on the first `r` of them, and where that is NO_REQUEST
-- what it gives when it is called again, on all of them, with what it has kept.
pub parse_content-resumed :
    (m r : ℕ) (s : State)
    → s.checked_index ≤ r
    → parse_content (r + m) s ≡ resumed (r + m) (parse_content r s)
unfolding parse_content
parse_content-resumed m r s c =
    parse_lines-resumed (suc (r - s.checked_index)) m r s c (omega arith)

pub parse_content-filled :
    (n r : ℕ) (cs : List ℕ) (s : State)
    → s.checked_index ≤ n
    → n ≤ r
    → parse_content n (filled_state r cs s) ≡ filled_result r cs (parse_content n s)
unfolding parse_content
parse_content-filled n r cs s c h = parse_lines-filled (suc (n - s.checked_index)) n r cs s c h
