-- ===== src/HttpParser.antt =====
-- network-programming/youshuang/8-3httpparser.cpp: a server that reads one request piece by piece and parses
-- it as it comes, with two state machines.
pub mod Line
pub mod Resume
pub mod Stream
pub mod Wire
pub mod RequestLine
pub mod Request
mod Tests
use c_language_learnning.Base.{
  ℕ, zero, suc, ◌+◌, ◌-◌, Option, none, some, Bool, true, false, ◌&&◌, ◌||◌, not, List, [], ◌∷◌,
  ◌++◌, length, take, drop, ltb, leb, ◌==◌, if◌then◌else◌, codes, c_str, tolower, str_case_eq,
}

pub data CheckState : Type 0 where
  request_line header content : CheckState

pub data LineStatus : Type 0 where
  line_ok line_bad line_open : LineStatus

pub data HttpCode : Type 0 where
  no_request get_request bad_request forbidden_request internal_error closed_connection : HttpCode

abbrev pub Buffer : Type 0
Buffer = ℕ → ℕ

-- buffer[i] = v
abbrev pub put : Buffer → ℕ → ℕ → Buffer
put b i v j = if j == i then v else b j

-- `parse_line` from `checked_index` on, where `n` is `read_index - checked_index`: the status, the
-- buffer and the new `checked_index`.
unfoldable pub parse_line : ℕ → Buffer → ℕ → LineStatus × (Buffer × ℕ)
parse_line zero b i = (line_open, (b, i))
parse_line (suc n) b i =
    let more = parse_line n b (i + 1) in
    if b i == b'\r'
    then (if n == 0
        then (line_open, (b, i))
        else if b (i + 1) == b'\n'
        then (line_ok, (put (put b i 0) (i + 1) 0, i + 2))
        else (line_bad, (b, i)))
    else if b i == b'\n'
    then (if ltb 1 i && (b (i - 1) == b'\r')
        then (line_ok, (put (put b (i - 1) 0) i 0, i + 1))
        else (line_bad, (b, i)))
    else more

-- The n bytes of the buffer from `i` on.
unfoldable pub slice : Buffer → ℕ → ℕ → List ℕ
slice b i zero = []
slice b i (suc n) = b i ∷ slice b (i + 1) n

-- strpbrk(s, " \t"): the bytes before the first blank, and the text from it on.
abbrev pub is_blank : ℕ → Bool
is_blank c = (c == b' ') || (c == b'\t')

unfoldable pub strpbrk : List ℕ → List ℕ × Option (List ℕ)
strpbrk [] = ([], none)
strpbrk (c ∷ s) =
    let rest = strpbrk s in if is_blank c then ([], some (c ∷ s)) else (c ∷ rest.0, rest.1)

-- s + strspn(s, " \t")
unfoldable pub skip_blanks : List ℕ → List ℕ
skip_blanks [] = []
skip_blanks (c ∷ s) = let rest = skip_blanks s in if is_blank c then rest else c ∷ s

-- strncasecmp(s, prefix, strlen(prefix)) == 0
unfoldable pub has_prefix : List ℕ → List ℕ → Bool
has_prefix [] s = true
has_prefix (p ∷ prefix) [] = false
has_prefix (p ∷ prefix) (c ∷ s) = (tolower p == tolower c) && has_prefix prefix s

-- strchr(s, '/')
unfoldable pub find_slash : List ℕ → Option (List ℕ)
find_slash [] = none
find_slash (c ∷ s) = let rest = find_slash s in if c == b'/' then some (c ∷ s) else rest

-- The tests on `szURL`, from "http://" on.
abbrev pub starts_slash : Option (List ℕ) → Bool
starts_slash none = false
starts_slash (some []) = false
starts_slash (some (c ∷ s)) = c == b'/'

unfoldable pub is_url : List ℕ → Bool
is_url url =
    starts_slash (if has_prefix (codes "http://") url then find_slash (drop 7 url) else some url)

-- `parse_requestline` from `szVersion` on, where `url` is `szURL`.
unfoldable pub read_version : CheckState → List ℕ → Option (List ℕ) → HttpCode × CheckState
read_version state url none = (bad_request, state)
read_version state url (some version) =
    if not (str_case_eq (skip_blanks (drop 1 version)) (codes "HTTP/1.1"))
    then (bad_request, state)
    else if not (is_url url)
    then (bad_request, state)
    else (no_request, header)

-- The same from the first test of `szURL` on, where `method` is `szMethod`.
unfoldable pub read_url : CheckState → List ℕ → Option (List ℕ) → HttpCode × CheckState
read_url state method none = (bad_request, state)
read_url state method (some rest) =
    let url = strpbrk (skip_blanks (drop 1 rest)) in
    if not (str_case_eq method (codes "GET"))
    then (bad_request, state)
    else read_version state url.0 url.1

-- `parse_requestline` on a line: its code, and `checkstate`. The zeros that it writes into the line are
-- behind `start_line` by then and not read again.
unfoldable pub parse_requestline : List ℕ → CheckState → HttpCode × CheckState
parse_requestline temp state = let method = strpbrk temp in read_url state method.0 method.1

-- The host that `parse_headers` prints changes nothing.
unfoldable pub parse_headers : List ℕ → HttpCode
parse_headers [] = get_request
parse_headers (c ∷ temp) = no_request

-- What `parse_content` keeps between calls, less `read_index`.
pub record State : Type 0 where
  pub buffer : Buffer
  pub checked_index : ℕ
  pub start_line : ℕ
  pub checkstate : CheckState

-- The codes for which the cases of the switch return.
unfoldable pub stop_requestline : HttpCode → Option HttpCode
stop_requestline bad_request = some bad_request
stop_requestline _ = none

unfoldable pub stop_headers : HttpCode → Option HttpCode
stop_headers bad_request = some bad_request
stop_headers get_request = some get_request
stop_headers _ = none

-- The switch on `checkstate` at a line: the code that is returned, if any, and the new `checkstate`.
unfoldable pub parse_step : CheckState → List ℕ → Option HttpCode × CheckState
parse_step request_line temp = (
  stop_requestline (parse_requestline temp request_line).0,
  (parse_requestline temp request_line).1,
)
parse_step header temp = (stop_headers (parse_headers temp), header)
parse_step content temp = (some internal_error, content)

-- The state behind a line that `parse_line` has found.
abbrev pub behind_line : State → Buffer × ℕ → CheckState → State
behind_line s l state = record {
  buffer = l.0;
  checked_index = l.1;
  start_line = l.1;
  checkstate = state;
}

-- `buffer + start_line`, as the C string that it is once `parse_line` has written the zeros.
abbrev pub line_text : State → Buffer × ℕ → List ℕ
line_text s l = c_str (slice l.0 s.start_line (l.1 - s.start_line))

-- A code ends the loop; `more` is what it gives otherwise.
unfoldable pub return_or :
    Option HttpCode → State → Option (HttpCode × State) → Option (HttpCode × State)
return_or (some code) s more = some (code, s)
return_or none s more = more

-- One round of `parse_content` with what `parse_line` has found, `more` being the rounds after it.
unfoldable pub parse_found :
    (State → Option (HttpCode × State))
    → State
    → LineStatus × (Buffer × ℕ)
    → Option (HttpCode × State)
parse_found more s (line_open, l) =
    some (no_request, record s { buffer = l.0; checked_index = l.1 })
parse_found more s (line_bad, l) =
    some (bad_request, record s { buffer = l.0; checked_index = l.1 })
parse_found more s (line_ok, l) =
    let step = parse_step s.checkstate (line_text s l) in
    return_or step.0 (behind_line s l step.1) (more (behind_line s l step.1))

-- The loop of `parse_content`, with `read_index` given. `none`: out of fuel.
unfoldable pub parse_lines : ℕ → ℕ → State → Option (HttpCode × State)
unfolding parse_found return_or
parse_lines zero r s = none
parse_lines (suc fuel) r s =
    parse_found (parse_lines fuel r) s (parse_line (r - s.checked_index) s.buffer s.checked_index)

-- Each line that is found moves `checked_index` on.
unfoldable pub parse_content : ℕ → State → Option (HttpCode × State)
parse_content r s = parse_lines (suc (r - s.checked_index)) r s

-- What recv puts into the buffer from `i` on.
unfoldable pub fill : Buffer → ℕ → List ℕ → Buffer
fill b i [] = b
fill b i (c ∷ cs) = fill (put b i c) (i + 1) cs

abbrev pub start : State
start = record { buffer = λ i. 0; checked_index = 0; start_line = 0; checkstate = request_line }

-- What `main` sends to the client, if anything.
unfoldable pub answer : HttpCode → Option (List ℕ)
answer no_request = none
answer get_request = some (codes "I get a correct result\n")
answer _ = some (codes "Something wrong\n")

-- What `main` does with a code, `more` being what follows NO_REQUEST. `some none` stands for a connection
-- that is closed without an answer.
unfoldable pub reply_or : Option (List ℕ) → Option (Option (List ℕ)) → Option (Option (List ℕ))
reply_or (some text) more = some (some text)
reply_or none more = more

unfoldable pub replied :
    (State → Option (Option (List ℕ))) → Option (HttpCode × State) → Option (Option (List ℕ))
replied more none = none
replied more (some (code, s)) = reply_or (answer code) (more s)

-- The loop of `main` over what each recv returns, `[]` standing for 0 and for -1. recv gives no more bytes than
-- there is room for in the 4096, and 0 where there is none. `none`: out of fuel.
unfoldable pub serve : List (List ℕ) → ℕ → State → Option (Option (List ℕ))
serve [] r s = some none
serve ([] ∷ chunks) r s = some none
serve ((c ∷ cs) ∷ chunks) r s =
    let chunk = take (4096 - r) (c ∷ cs) in
    let next =
      replied (serve chunks (r + length chunk))
        (parse_content (r + length chunk) (record s { buffer = fill s.buffer r chunk })) in
    if leb 4096 r then some none else next
