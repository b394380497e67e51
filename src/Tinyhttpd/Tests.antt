-- ===== src/Tinyhttpd/Tests.antt =====
-- Runs of network-programming/http/tinyhttpd at small inputs, and the theorems at such inputs.
use c_language_learnning.Base.{
  ℕ, ◌≡◌, refl, none, some, List, [], ◌∷◌, ◌++◌, map, length, codes, arith, All, true, false, ◌==◌,
  if◌then◌else◌,
}
use c_language_learnning.Effects.{Event, Run, ret, output, sent}
use c_language_learnning.Socket.{Sock, got, nothing}
use c_language_learnning.Line
use c_language_learnning.Line.Exact.{wire, All-Inner}
use c_language_learnning.Tinyhttpd.Pages.{store, headers}
use c_language_learnning.Tinyhttpd.Cat.{cat, Copied, cat-Copied}
use c_language_learnning.Tinyhttpd.Headers.{get_line}
use c_language_learnning.Tinyhttpd.Headers.Skips.{IsHeader, text}
use c_language_learnning.Tinyhttpd.Headers.Length.{length_header}
use c_language_learnning.Tinyhttpd.Parse.{
  take_word, request_of, ends_slash, is_get, is_post, parse, html_path,
}
use c_language_learnning.Tinyhttpd.Parse.Get.{IsWordByte}
use c_language_learnning.Tinyhttpd.Server.{Env, accept_request, execute_cgi, request, send_bytes}
use c_language_learnning.Tinyhttpd.Server.Replies.{request_line, accept_request-file}
use c_language_learnning.Tinyhttpd.Server.Post.{execute_cgi-post}

cat-Copied_example : Copied 4 (codes "ab\ncd") (cat 4 (codes "ab\ncd"))
cat-Copied_example = cat-Copied 4 (codes "ab\ncd") (omega arith)

abbrev host : List ℕ
host = codes "Host: a"

host-IsHeader : IsHeader host
host-IsHeader = record { inner = All-Inner host refl; nonempty = omega arith; short = omega arith }

abbrev noise : Sock
noise = got b'x' ∷ nothing ∷ got b'\n' ∷ []

abbrev words : List ℕ
words = codes "get / x"

get-IsWord : All IsWordByte (codes "get")
get-IsWord = ((refl, omega arith), ((refl, omega arith), ((refl, omega arith), tt)))

-- One readable file; the program at any path writes its input twice.
abbrev env : Env
env = record {
  stat = λ path.
      if length path == 8 then some (record { is_dir = false; executable = false }) else none;
  fopen = λ path. some (codes "hi\n");
  pipe_output = true;
  pipe_input = true;
  fork = true;
  program = λ path vars input. input ++ input;
}

abbrev put : Sock
put = map got (codes "PUT /a HTTP/1.0\r\n\r\n")

abbrev no_file : Env
no_file = record env { stat = λ path. none }

put_runs : (request [] put).method ≡ codes "PUT"
unfolding parse request_of take_word Line.get_line get_line store
put_runs = refl

put-is_get : is_get (request [] put).method ≡ false
put-is_get = rw put_runs

put-is_post : is_post (request [] put).method ≡ false
put-is_post = rw put_runs

a_found : env.stat (html_path (codes "/a")) ≡ some (record { is_dir = false; executable = false })
unfolding html_path ends_slash
a_found = refl

accept_request-file_example :
    (run : Run (Unit {0})) × (accept_request env 4 [] [] 0 (
        map got
          (wire (request_line (codes "GET") (codes "/a") (codes "HTTP/1.0")) (text (host ∷ []) [])))
      ≡ some run)
    × (sent run ≡ output (headers 4) ++ (codes "hi" ++ codes "\n"))
accept_request-file_example =
    accept_request-file env 4 [] [] 0 (codes "GET") (codes "/a") (codes "HTTP/1.0") (host ∷ []) []
      (codes "hi") refl ((refl, omega arith), ((refl, omega arith), ((refl, omega arith), tt)))
      (refl, (refl, tt)) ((refl, omega arith), ((refl, omega arith), tt)) (omega arith)
      (omega arith) (All-Inner (request_line (codes "GET") (codes "/a") (codes "HTTP/1.0")) refl)
      (omega arith) (host-IsHeader, tt) a_found refl (omega arith)

execute_cgi-post_example :
    execute_cgi env 4
      (codes "htdocs/a")
      (codes "POST")
      none
      []
      0
      (map got (text ((host ∷ []) ++ (length_header 2 ∷ [])) (codes "ab" ++ codes "c")))
    ≡ some (ret (Event.send 4 (codes "HTTP/1.0 200 OK\r\n") ∷ send_bytes 4 (codes "abab")) tt)
execute_cgi-post_example =
    execute_cgi-post env 4 (codes "htdocs/a") (codes "POST") none [] 0 (host ∷ []) (codes "ab")
      (codes "c") refl (host-IsHeader, tt) refl refl refl (omega arith)
