-- ===== src/Tinyhttpd/Server.antt =====
-- `serve_file`, `execute_cgi` and `accept_request` of network-programming/http/tinyhttpd/httpd.c.
pub mod Replies
pub mod Post
use c_language_learnning.Base.{
  ℕ, zero, suc, ◌+◌, ◌<◌, Option, none, some, Bool, true, false, ◌||◌, ◌&&◌, not, List, [], ◌∷◌,
  ◌++◌, length, codes, ◌==◌, if◌then◌else◌,
}
use c_language_learnning.Base.Int.{ℤ, pos, negsuc, rounds}
use c_language_learnning.Effects.{Event, Run, ret, emit, pure, crash, fits, ◌>>=◌, ◌>>◌}
use c_language_learnning.Decimal.{decimal_int}
use c_language_learnning.Socket.{Sock, recv}
use c_language_learnning.Tinyhttpd.Pages.{
  store, bad_request, cannot_execute, headers, not_found, unimplemented,
}
use c_language_learnning.Tinyhttpd.Cat.{cat}
use c_language_learnning.Tinyhttpd.Headers.{get_line, skip_headers, read_content_length}
use c_language_learnning.Tinyhttpd.Parse.{
  Request, parse, is_get, is_post, html_path, directory_index,
}

-- What `accept_request` asks of `struct stat`: a directory, and an execute bit.
pub record Stat : Type 0 where
  pub is_dir : Bool
  pub executable : Bool

-- What the system calls answer, and what the program at a path writes for its environment
-- variables and its input.
pub record Env : Type 0 where
  pub stat : List ℕ → Option Stat
  pub fopen : List ℕ → Option (List ℕ)
  pub pipe_output : Bool
  pub pipe_input : Bool
  pub fork : Bool
  pub program : List ℕ → List (List ℕ) → List ℕ → List ℕ

-- The request is read to its end before the file is opened; `fclose` of a null pointer is a fault.
unfoldable pub serve_file : Env → ℕ → List ℕ → Sock → Option (Run (Unit {0}))
serve_file env client filename s = elim (skip_headers (codes "A") s) [
  | none ↦ none
  | some s' ↦ elim (env.fopen filename) [
    | none ↦ some (ret (not_found client) tt >> crash)
    | some file ↦ elim (cat client file) [
      | none ↦ none
      | some es ↦ some (ret (headers client ++ es) tt)
    ]
  ]
]

-- `recv` and `write` for each byte of the body; where `recv` gives none, `c` is written again.
unfoldable pub read_body : ℕ → ℕ → Sock → List ℕ
read_body zero c s = []
read_body (suc n) c s = elim ((recv s).0) [
  | none ↦ c ∷ read_body n c (recv s).1
  | some d ↦ d ∷ read_body n d (recv s).1
]

-- The environment of the child: three buffers of 255 bytes.
unfoldable pub child_vars : List ℕ → Option (List ℕ) → ℤ → Run (List (List ℕ))
child_vars method query len = do
  let meth_env = codes "REQUEST_METHOD=" ++ method
  fits (length meth_env) 255
  let query_env = codes "QUERY_STRING=" ++ elim query [ none ↦ [] | some q ↦ q ]
  let length_env = codes "CONTENT_LENGTH=" ++ decimal_int len
  let second = if is_get method then query_env else length_env
  fits (length second) 255
  pure (meth_env ∷ second ∷ [])

-- send(client, &c, 1, 0) for each byte.
abbrev pub send_bytes : ℕ → List ℕ → List Event
send_bytes client [] = []
send_bytes client (c ∷ bytes) = Event.send client (c ∷ []) ∷ send_bytes client bytes

-- `execute_cgi` once the headers are read: `c` is what its variable `c` holds before it is set.
unfoldable pub run_program :
    Env → ℕ → List ℕ → List ℕ → Option (List ℕ) → ℤ → ℕ → Sock → Run (Unit {0})
run_program env client path method query len c s = do
  emit (Event.send client (codes "HTTP/1.0 200 OK\r\n"))
  if not (env.pipe_output && (env.pipe_input && env.fork))
      then ret (cannot_execute client) tt
      else (do
        vars ← child_vars method query len
        let input = if is_post method then read_body (rounds len) c s else []
        ret (send_bytes client (env.program path vars input)) tt)

-- -1 stands for a length that no header gave.
abbrev pub no_length : ℤ → Bool
no_length (pos n) = false
no_length (negsuc n) = n == 0

unfoldable pub execute_cgi :
    Env → ℕ → List ℕ → List ℕ → Option (List ℕ) → List ℕ → ℕ → Sock → Option (Run (Unit {0}))
execute_cgi env client path method query buf c s =
    if is_get method
    then elim (skip_headers (codes "A") s) [
      | none ↦ none
      | some s' ↦ some (run_program env client path method query (negsuc 0) c s')
    ]
    else elim (read_content_length (store (codes "A") buf) s) [
      | none ↦ none
      | some (len, s') ↦ some (
          if no_length len
          then ret (bad_request buf client) tt
          else run_program env client path method query len c s')
    ]

-- `accept_request` from `stat` on. `line` is the request line, `r` what was parsed of it.
unfoldable pub respond : Env → ℕ → List ℕ → Request → List ℕ → ℕ → Sock → Option (Run (Unit {0}))
respond env client line r buf c s = elim (env.stat (html_path r.url)) [
  | none ↦ elim (skip_headers line s) [ none ↦ none | some s' ↦ some (ret (not_found client) tt) ]
  | some st ↦
      let path = if st.is_dir then directory_index (html_path r.url) else html_path r.url in
      if r.cgi || st.executable
      then execute_cgi env client path r.method r.query_string buf c s
      else serve_file env client path s
]

-- The 501 page for a method that is neither GET nor POST. The function goes on behind it.
unfoldable pub refuse : ℕ → List ℕ → List Event
refuse client method = if is_get method || is_post method then [] else unimplemented client

-- What `accept_request` parses of the first line, in a buffer that held `junk`.
abbrev pub request : List ℕ → Sock → Request
request junk s = parse (store (get_line 1024 s).0 junk)

-- `junk` is what the buffer of the request line held, `buf` and `c` what the locals of
-- `execute_cgi` hold before they are set. `path` holds 512 bytes.
unfoldable pub accept_request : Env → ℕ → List ℕ → List ℕ → ℕ → Sock → Option (Run (Unit {0}))
accept_request env client junk buf c s =
    let line = get_line 1024 s in
    let r = request junk s in
    elim (respond env client line.0 r buf c line.1) [
      | none ↦ none
      | some run ↦ some (do
        ret (refuse client r.method) tt
        fits (length (directory_index (html_path r.url))) 512
        run
        emit (Event.close client))
    ]
