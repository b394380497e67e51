-- ===== src/Epollhttpd/Tests.antt =====
-- Runs of network-programming/http/epollhttpd at small inputs, and the theorems at such inputs.
use c_language_learnning.Base.{
  ℕ, ◌≡◌, refl, none, some, List, [], ◌∷◌, ◌++◌, codes, arith, map, true, if◌then◌else◌, str_eq,
  c_str,
}
use c_language_learnning.Effects.{Event, ret, output}
use c_language_learnning.Socket.{Sock, got}
use c_language_learnning.Line.{get_line}
use c_language_learnning.Epollhttpd.Url.{encode_str, decode_str}
use c_language_learnning.Epollhttpd.Url.RoundTrip.{decode_str-encode_str}
use c_language_learnning.Epollhttpd.Mime.{get_file_type}
use c_language_learnning.Epollhttpd.Server.{
  Env, reg, full_path, send_dir, answer, do_read, page_head, page_foot,
}
use c_language_learnning.Epollhttpd.Server.Listing.{Entry, Shown, rows, send_dir-rows}
use c_language_learnning.Epollhttpd.Server.Reading.{Drained, do_read-answer}

-- "a b%", whose space and percent sign are escaped.
abbrev odd_name : List ℕ
odd_name = codes "a b%"

encode_str_runs : encode_str 1024 odd_name ≡ codes "a%20b%25"
unfolding encode_str
encode_str_runs = refl

-- Seven bytes do not hold a second escape and its zero.
encode_str_full : encode_str 8 odd_name ≡ codes "a%20"
unfolding encode_str
encode_str_full = refl

decode_str_runs : decode_str (codes "/a%20b%25%zz") ≡ codes "/a b%%zz"
unfolding decode_str
decode_str_runs = refl

get_file_type_runs : get_file_type (codes "a.tar.PNG") ≡ codes "text/plain; charset=utf-8"
unfolding get_file_type
get_file_type_runs = refl

decode_str-encode_str_example : decode_str (encode_str 1024 odd_name) ≡ odd_name
decode_str-encode_str_example = decode_str-encode_str 1024 odd_name (omega arith) (omega arith)

-- A server with one directory, ".", which holds one file, "f", of 3 bytes.
abbrev one_file : Env
one_file = record {
  stat = λ p.
      if str_eq p (codes "f")
      then some (reg 3)
      else if str_eq p (codes "./f")
      then some (reg 3)
      else none;
  opendir = λ p. some (codes "f" ∷ []);
  open_file = λ p. some 9;
  epoll_ctl_del = λ epfd fd. true;
}

abbrev entries : List Entry
entries = (codes "f", reg 3) ∷ []

shown : Shown one_file (codes ".") (codes "f", reg 3)
unfolding full_path
shown = record { known = refl; short = omega arith; small = omega arith }

send_dir-rows_example :
    (es : List Event) × (send_dir one_file 7 (codes ".") ≡ ret es tt)
    × (output es ≡ page_head (codes ".") ++ (rows entries ++ page_foot))
send_dir-rows_example = send_dir-rows one_file 7 (codes ".") entries refl (shown, tt) (omega arith)

abbrev plain_request : Sock
plain_request = map got (codes "GET /f HTTP/1.1\r\n\r\n")

do_read-answer_example :
    (s' : Sock) × (do_read one_file 7 3 plain_request
      ≡ some (s', answer one_file (c_str (get_line 1024 plain_request).0) 7 3))
    × Drained plain_request s'
do_read-answer_example = do_read-answer one_file 7 3 plain_request
