-- ===== src/HttpParser/Tests.antt =====
-- The parser at small inputs.
use c_language_learnning.Base.{
  ℕ, ◌≤◌, ◌≡◌, refl, some, List, [], ◌∷◌, ◌++◌, arith, codes, length, true,
}
use c_language_learnning.Line.Exact.{All-Inner}
use c_language_learnning.HttpParser.{
  request_line, header, parse_requestline, read_url, read_version, strpbrk, skip_blanks, has_prefix,
  find_slash, is_url, parse_content, serve, start, bad_request, no_request,
}
use c_language_learnning.HttpParser.Stream.{Returned, parse_content-Returned, concat, serve-concat}
use c_language_learnning.HttpParser.Request.{IsHeader, headers, request, serve-request}

parse_requestline_runs :
    parse_requestline (codes "get  http://a/b HTTP/1.1") request_line ≡ (no_request, header)
unfolding parse_requestline read_url read_version strpbrk skip_blanks has_prefix find_slash is_url
parse_requestline_runs = refl

-- A url "http://" with no '/' behind it.
parse_requestline_refuses :
    parse_requestline (codes "GET http://a HTTP/1.1") request_line ≡ (bad_request, request_line)
unfolding parse_requestline read_url read_version strpbrk skip_blanks has_prefix find_slash is_url
parse_requestline_refuses = refl

parse_content-Returned_example : Returned 5 start (parse_content 5 start)
parse_content-Returned_example = parse_content-Returned 5 start (omega arith)

abbrev pieces : List (List ℕ)
pieces = codes "\n" ∷ codes "x" ∷ []

serve-concat_example :
    serve (codes "G \r" ∷ pieces) 0 start ≡ serve ((codes "G \r" ++ concat pieces) ∷ []) 0 start
unfolding concat
serve-concat_example =
    serve-concat (codes "G \r") pieces (λ e. cc) ((λ e. cc), ((λ e. cc), tt)) (omega arith)

abbrev host : List ℕ
host = codes "Host: a"

host-IsHeader : IsHeader host
host-IsHeader = record {
  inner = All-Inner host refl;
  first = b'H';
  others = codes "ost: a";
  split = refl;
  nonzero = omega arith;
}

slash_url : is_url (codes "/") ≡ true
unfolding is_url has_prefix
slash_url = refl

cut :
    codes "GET / HTTP/1.1\r\nHost: a\r\n" ++ concat (codes "\r\n" ∷ [])
    ≡ request (codes "/") (host ∷ [])
unfolding concat headers
cut = refl

short : length (request (codes "/") (host ∷ [])) ≤ 4096
unfolding headers
short = omega arith

-- The last two bytes come in a piece of their own.
serve-request_example :
    serve (codes "GET / HTTP/1.1\r\nHost: a\r\n" ∷ codes "\r\n" ∷ []) 0 start
    ≡ some (some (codes "I get a correct result\n"))
serve-request_example =
    serve-request (codes "/") (host ∷ []) (codes "GET / HTTP/1.1\r\nHost: a\r\n")
      (codes "\r\n" ∷ []) (((refl, refl), refl, omega arith), tt) slash_url (host-IsHeader, tt) cut
      (λ e. cc) ((λ e. cc), tt) short
