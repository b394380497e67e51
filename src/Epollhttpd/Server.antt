-- ===== src/Epollhttpd/Server.antt =====
-- `do_read`, `http_get_request`, `send_dir`, `send_file`, `send_respond_head` and `disconnect` of
-- network-programming/http/epollhttpd/epoll.c. A text in a buffer is the list of its bytes without
-- the final zero; a text that does not fit its buffer is a `fault`.
pub mod Listing
pub mod Target
pub mod File
pub mod Reading
use c_language_learnning.Base.{
  ℕ, zero, suc, ◌+◌, Option, none, some, Bool, true, false, List, [], ◌∷◌, ◌++◌, length, take,
  codes, str_eq, str_case_eq, c_str, isspace, ltb, ◌==◌, ◌&&◌, if◌then◌else◌,
}
use c_language_learnning.Effects.{Event, Run, ret, emit, pure, exit, crash, fits, ◌>>=◌, ◌>>◌}
use c_language_learnning.Decimal.{decimal}
use c_language_learnning.Socket.{Sock}
use c_language_learnning.Line.{get_line}
use c_language_learnning.Epollhttpd.Url.{encode_str, decode_str}
use c_language_learnning.Epollhttpd.Mime.{get_file_type}

-- st_mode and st_size of `struct stat`.
pub data Stat : Type 0 where
  dir : ℕ → Stat
  reg : ℕ → Stat
  other : ℕ → Stat

-- What the system calls answer.
pub record Env : Type 0 where
  pub stat : List ℕ → Option Stat
  pub opendir : List ℕ → Option (List (List ℕ))
  pub open_file : List ℕ → Option ℕ
  pub epoll_ctl_del : ℕ → ℕ → Bool

-- "%[^ ]": the bytes before the first space, and what follows them.
unfoldable pub scan_word : List ℕ → List ℕ × List ℕ
scan_word [] = ([], [])
scan_word (c ∷ s) =
    let rest = scan_word s in if c == b' ' then ([], c ∷ s) else (c ∷ rest.0, rest.1)

-- The " " of a `scanf` format.
unfoldable pub skip_space : List ℕ → List ℕ
skip_space [] = []
skip_space (c ∷ s) = let rest = skip_space s in if isspace c then rest else c ∷ s

-- The name after the first byte of `destr`; where that is the final zero, the byte behind it was
-- never written.
unfoldable pub behind_slash : List ℕ → Run (List ℕ)
behind_slash [] = crash
behind_slash (c ∷ name) = pure (c_str name)

-- The rest of the format "%[^ ] %[^ ]" behind its first word: where that has no byte, the scan ends.
unfoldable pub second_word : List ℕ × List ℕ → List ℕ
second_word ([], s) = []
second_word (c ∷ word, s) = (scan_word (skip_space s)).0

-- From the request line to the name of the file: `method` holds 12 bytes, `res` and `destr` 1024.
unfoldable pub target : List ℕ → Run (List ℕ)
target line = do
  let method = (scan_word line).0
  let res = second_word (scan_word line)
  fits (length method) 12
  fits (length res) 1024
  file ← if str_eq res (codes "/") then pure (codes "./") else behind_slash (decode_str res)
  pure file

pub send_respond_head : ℕ → ℕ → List ℕ → List ℕ → ℕ → Run (Unit {0})
send_respond_head cfd status_no desp type len = do
  let status = codes "http/1.1 " ++ (decimal status_no ++ (b' ' ∷ desp ++ codes "\r\n"))
  fits (length status) 1024
  emit (Event.send cfd status)
  let fields =
      (codes "Content-Type:" ++ (type ++ codes "\r\n"))
      ++ (codes "Content-Length:" ++ (decimal len ++ codes "\r\n"))
  fits (length fields) 1024
  emit (Event.send cfd fields)
  emit (Event.send cfd (codes "\r\n"))

-- The two Chinese words of the page, in UTF-8: "directory name" and "current directory".
abbrev directory_name : List ℕ
directory_name = 0xE7 ∷ 0x9B ∷ 0xAE ∷ 0xE5 ∷ 0xBD ∷ 0x95 ∷ 0xE5 ∷ 0x90 ∷ 0x8D ∷ []

abbrev current_directory : List ℕ
current_directory =
    0xE5 ∷ 0xBD ∷ 0x93 ∷ 0xE5 ∷ 0x89 ∷ 0x8D ∷ 0xE7 ∷ 0x9B ∷ 0xAE ∷ 0xE5 ∷ 0xBD ∷ 0x95 ∷ []

pub page_head : List ℕ → List ℕ
page_head path =
    (codes "<html><head><title>"
      ++ (directory_name ++ (codes ": " ++ (path ++ codes "</title></head>"))))
    ++ (codes "<body><h1>" ++ (current_directory ++ (codes ": " ++ (path ++ codes "</h1><table>"))))

abbrev pub page_foot : List ℕ
page_foot = codes "</table></body></html>"

-- The row of the table for one name: a directory's link and name have a '/' behind them.
pub row : List ℕ → Stat → List ℕ
row name (reg size) =
    codes "<tr><td><a href=\""
    ++ (encode_str 1024 name
        ++ (codes "\">"
            ++ (name ++ (codes "</a></td><td>" ++ (decimal size ++ codes "</td></tr>")))))
row name (dir size) =
    codes "<tr><td><a href=\""
    ++ (encode_str 1024 name
        ++ (codes "/\">"
            ++ (name ++ (codes "/</a></td><td>" ++ (decimal size ++ codes "</td></tr>")))))
row name (other size) = []

-- `path` and `name` joined, as it stands in `file`.
unfoldable pub full_path : List ℕ → List ℕ → List ℕ
full_path path name = path ++ (b'/' ∷ name)

-- A call whose `NULL` or -1 is answered by `exit(1)`.
pub or_exit : {A : Type 0} → Option A → Run A
or_exit none = exit
or_exit (some a) = pure a

-- The loop over the entries; `buf` is what the next `send` will send. It is emptied by each.
send_rows : Env → ℕ → List ℕ → List (List ℕ) → List ℕ → Run (List ℕ)
send_rows env cfd path [] buf = pure buf
send_rows env cfd path (name ∷ names) buf = do
  fits (length (full_path path name)) 1024
  st ← or_exit (env.stat (full_path path name))
  fits (length (buf ++ row name st)) 4096
  emit (Event.send cfd (buf ++ row name st))
  send_rows env cfd path names []

pub send_dir : Env → ℕ → List ℕ → Run (Unit {0})
send_dir env cfd path = do
  fits (length (page_head path)) 4096
  names ← or_exit (env.opendir path)
  buf ← send_rows env cfd path names (page_head path)
  fits (length (buf ++ page_foot)) 4096
  emit (Event.send cfd (buf ++ page_foot))

pub send_file : Env → ℕ → List ℕ → Run (Unit {0})
send_file env cfd path = do fd ← or_exit (env.open_file path); emit (Event.close fd)

-- What `http_get_request` sends for a file that `stat` describes.
pub respond : Env → ℕ → List ℕ → Stat → Run (Unit {0})
respond env cfd file (dir size) = do
  send_respond_head cfd 200 (codes "OK") (get_file_type (codes ".html")) 100000
  send_dir env cfd file
respond env cfd file (reg size) = do
  send_respond_head cfd 200 (codes "OK") (get_file_type file) size
  send_file env cfd file
respond env cfd file (other size) = pure tt

pub http_get_request : Env → List ℕ → ℕ → Run (Unit {0})
http_get_request env line cfd = do
  file ← target line
  st ← or_exit (env.stat file)
  respond env cfd file st

pub disconnect : Env → ℕ → ℕ → Run (Unit {0})
disconnect env cfd epfd =
    if env.epoll_ctl_del epfd cfd
    then (do emit (Event.unwatch epfd cfd); emit (Event.close cfd))
    else exit

-- The rest of the request is read and dropped, up to a line of no bytes. `none`: out of fuel.
read_rest : ℕ → Sock → Option Sock
read_rest zero s = none
read_rest (suc fuel) s = elim (length (get_line 1024 s).0 == 0) [
  | true ↦ some (get_line 1024 s).1
  | false ↦ read_rest fuel (get_line 1024 s).1
]

-- What `do_read` does once the request has been read.
pub answer : Env → List ℕ → ℕ → ℕ → Run (Unit {0})
answer env line cfd efd =
    if str_case_eq (codes "get") (take 3 line)
    then (do http_get_request env line cfd; disconnect env cfd efd)
    else pure tt

-- What is left of the socket, and what is sent. `none` only where the reading ran out of fuel; each call of `get_line`
-- but the last uses up an outcome of the socket, so one round more than the outcomes is enough.
pub do_read : Env → ℕ → ℕ → Sock → Option (Sock × Run (Unit {0}))
unfolding read_rest answer
do_read env cfd efd s =
    let line = get_line 1024 s in
    let rest = read_rest (suc (length line.1)) line.1 in
    let reply = answer env (c_str line.0) cfd efd in
    if length line.0 == 0
    then some (line.1, reply)
    else elim rest [ none ↦ none | some s' ↦ some (s', reply) ]
