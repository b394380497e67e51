-- ===== src/Tinyhttpd/Parse.antt =====
-- The request line: the scanning of `accept_request` in network-programming/http/tinyhttpd/httpd.c.
pub mod Bounds
pub mod Get
use c_language_learnning.Base.{
  ℕ, zero, suc, ◌+◌, ◌≤◌, ◌<◌, Option, none, some, Bool, true, false, ◌||◌, ◌&&◌, not, List, [],
  ◌∷◌, ◌++◌, length, codes, ◌==◌, if◌then◌else◌, c_str, isspace, str_case_eq,
}
use c_language_learnning.Effects.{Run, pure, fits, ◌>>=◌, ◌>>◌}

-- while (!ISspace(buf[j]) && i < room): the bytes copied, and the buffer from `j` on.
unfoldable pub take_word : ℕ → List ℕ → List ℕ × List ℕ
take_word zero buf = ([], buf)
take_word (suc room) [] = ([], [])
take_word (suc room) (c ∷ buf) =
    let more = take_word room buf in if isspace c then ([], c ∷ buf) else (c ∷ more.0, more.1)

-- while (ISspace(buf[j]) && j < sizeof(buf)) j++
unfoldable pub skip_spaces : List ℕ → List ℕ
skip_spaces [] = []
skip_spaces (c ∷ buf) = let rest = skip_spaces buf in if isspace c then rest else c ∷ buf

-- The loop that looks for '?': the url before it, and the query behind it, if there is one.
unfoldable pub split_query : List ℕ → List ℕ × Option (List ℕ)
split_query [] = ([], none)
split_query (c ∷ url) =
    let rest = split_query url in if c == b'?' then ([], some url) else (c ∷ rest.0, rest.1)

abbrev pub is_get : List ℕ → Bool
is_get method = str_case_eq method (codes "GET")

abbrev pub is_post : List ℕ → Bool
is_post method = str_case_eq method (codes "POST")

-- `query_string` is `none` where it is NULL or at the end of `url`.
pub record Request : Type 0 where
  pub method : List ℕ
  pub url : List ℕ
  pub query_string : Option (List ℕ)
  pub cgi : Bool

-- What `accept_request` makes of the two words.
unfoldable pub request_of : List ℕ → List ℕ → Request
request_of method url =
    let split = split_query url in
    if is_get method
    then record {
      method = method;
      url = split.0;
      query_string = split.1;
      cgi = elim split.1 [ none ↦ is_post method | some q ↦ true ];
    }
    else record { method = method; url = url; query_string = none; cgi = is_post method }

-- `method` and `url` hold 255 bytes each; `buf` is the whole buffer, the line and what lies behind.
unfoldable pub parse : List ℕ → Request
parse buf =
    let word = take_word 254 buf in
    request_of (c_str word.0) (c_str (take_word 254 (skip_spaces word.1)).0)

-- path[strlen(path) - 1] == '/'
unfoldable pub ends_slash : List ℕ → Bool
ends_slash [] = false
ends_slash (c ∷ []) = c == b'/'
ends_slash (c ∷ d ∷ s) = ends_slash (d ∷ s)

-- `path` before `stat`.
unfoldable pub html_path : List ℕ → List ℕ
html_path url =
    let path = codes "htdocs" ++ url in if ends_slash path then path ++ codes "index.html" else path

-- `path` for a directory.
unfoldable pub directory_index : List ℕ → List ℕ
directory_index path = path ++ codes "/index.html"
