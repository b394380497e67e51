-- ===== src/HttpParser/RequestLine.antt =====
-- The request line that the parser is for.
use Prim.Native.Nat.{◌<◌}
use c_language_learnning.Base.{
  ℕ, ◌≡◌, refl, none, some, true, false, List, [], ◌∷◌, ◌++◌, arith, All, All-append, codes,
}
use c_language_learnning.Line.Exact.{Inner, All-Inner}
use c_language_learnning.HttpParser.{
  no_request, CheckState, request_line, header, is_blank, strpbrk, skip_blanks, is_url, has_prefix,
  read_url, read_version, parse_requestline, stop_requestline, parse_step,
}

-- The request line "GET url HTTP/1.1".
abbrev pub first_line : List ℕ → List ℕ
first_line url = codes "GET " ++ (url ++ codes " HTTP/1.1")

-- A byte of a url: no blank, no byte of a line end, not zero.
abbrev pub IsUrlByte : ℕ → Type 0
IsUrlByte c = Inner c × (is_blank c ≡ false) × (0 < c)

pub method_word : All IsUrlByte (codes "GET")
method_word = (
  ((refl, refl), refl, omega arith),
  (((refl, refl), refl, omega arith), (((refl, refl), refl, omega arith), tt)),
)

pub is_url-nil : is_url [] ≡ false
unfolding is_url has_prefix
is_url-nil = refl

pub strpbrk-word :
    (w rest : List ℕ) → All IsUrlByte w → strpbrk (w ++ (b' ' ∷ rest)) ≡ (w, some (b' ' ∷ rest))
unfolding strpbrk
strpbrk-word [] rest h = refl
strpbrk-word (c ∷ w) rest h = rw (h.0.1, strpbrk-word w rest h.1) refl

pub skip_blanks-word : (c : ℕ) (s : List ℕ) → is_blank c ≡ false → skip_blanks (c ∷ s) ≡ c ∷ s
unfolding skip_blanks
skip_blanks-word c s e = rw e refl

pub version_blanks : skip_blanks (codes "HTTP/1.1") ≡ codes "HTTP/1.1"
unfolding skip_blanks
version_blanks = refl

pub read_version_lem :
    (state : CheckState) (url : List ℕ)
    → is_url url ≡ true
    → read_version state url (some (codes " HTTP/1.1")) ≡ (no_request, header)
unfolding read_version
read_version_lem state url e = rw (version_blanks, e) refl

pub read_url_lem :
    (state : CheckState) (c : ℕ) (url : List ℕ)
    → All IsUrlByte (c ∷ url)
    → is_url (c ∷ url) ≡ true
    → read_url state (codes "GET") (some (codes " " ++ ((c ∷ url) ++ codes " HTTP/1.1")))
      ≡ (no_request, header)
unfolding read_url
read_url_lem state c url h e =
    rw
      (
        skip_blanks-word c (url ++ codes " HTTP/1.1") h.0.1,
        strpbrk-word (c ∷ url) (codes "HTTP/1.1") h,
      )
      (read_version_lem state (c ∷ url) e)

pub parse_requestline-first_line :
    (c : ℕ) (url : List ℕ)
    → All IsUrlByte (c ∷ url)
    → is_url (c ∷ url) ≡ true
    → parse_requestline (first_line (c ∷ url)) request_line ≡ (no_request, header)
unfolding parse_requestline
parse_requestline-first_line c url h e =
    let method : strpbrk (first_line (c ∷ url))
        ≡ (codes "GET", some (codes " " ++ ((c ∷ url) ++ codes " HTTP/1.1"))) =
      strpbrk-word (codes "GET") ((c ∷ url) ++ codes " HTTP/1.1") method_word in
    rw method (read_url_lem request_line c url h e)

pub parse_step-first_line :
    (url : List ℕ)
    → All IsUrlByte url
    → is_url url ≡ true
    → parse_step request_line (first_line url) ≡ (none, header)
unfolding parse_step stop_requestline
parse_step-first_line [] h e = cc (is_url-nil, e)
parse_step-first_line (c ∷ url) h e = rw (parse_requestline-first_line c url h e) refl

pub All-map : (P Q : ℕ → Type 0) (s : List ℕ) → ((c : ℕ) → P c → Q c) → All P s → All Q s
All-map P Q [] f h = tt
All-map P Q (c ∷ s) f h = (f c h.0, All-map P Q s f h.1)

pub first_line-Inner : (url : List ℕ) → All IsUrlByte url → All Inner (first_line url)
first_line-Inner url h =
    All-append Inner (codes "GET ") (url ++ codes " HTTP/1.1") (All-Inner (codes "GET ") refl) (
      All-append Inner url (codes " HTTP/1.1") (All-map IsUrlByte Inner url (λ c b. b.0) h)
        (All-Inner (codes " HTTP/1.1") refl))

pub first_line_positive : (url : List ℕ) → All IsUrlByte url → All (λ c. 0 < c) (first_line url)
first_line_positive url h =
    All-append (λ c. 0 < c) (codes "GET ") (url ++ codes " HTTP/1.1") (omega arith)
      (All-append (λ c. 0 < c) url (codes " HTTP/1.1")
        (All-map IsUrlByte (λ c. 0 < c) url (λ c b. b.2) h) (omega arith))
