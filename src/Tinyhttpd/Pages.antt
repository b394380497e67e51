-- ===== src/Tinyhttpd/Pages.antt =====
-- The replies of network-programming/http/tinyhttpd/httpd.c: `bad_request`, `cannot_execute`,
-- `headers`, `not_found` and `unimplemented`.
use c_language_learnning.Base.{ℕ, suc, List, [], ◌∷◌, ◌++◌, length, drop, codes}
use c_language_learnning.Effects.{Event}

-- `sprintf(buf, text)`: the text and its zero, over what the buffer held.
unfoldable pub store : List ℕ → List ℕ → List ℕ
store text buf = text ++ (0 ∷ drop (suc (length text)) buf)

-- sprintf(buf, text); send(client, buf, strlen(buf), 0); for each text in turn.
abbrev pub send_texts : ℕ → List (List ℕ) → List Event
send_texts client [] = []
send_texts client (text ∷ texts) = Event.send client text ∷ send_texts client texts

-- The same with `sizeof(buf)` for `strlen(buf)`: the whole buffer is sent.
abbrev pub send_buffers : ℕ → List ℕ → List (List ℕ) → List Event
send_buffers client buf [] = []
send_buffers client buf (text ∷ texts) =
    Event.send client (store text buf) ∷ send_buffers client (store text buf) texts

abbrev pub server_string : List ℕ
server_string = codes "Server: jdbhttpd/0.1.0\r\n"

-- `buf` is what the stack held.
unfoldable pub bad_request : List ℕ → ℕ → List Event
bad_request buf client = send_buffers client buf (
    codes "HTTP/1.0 400 BAD REQUEST\r\n"
    ∷ codes "Content-type: text/html\r\n"
    ∷ codes "\r\n"
    ∷ codes "<P>Your browser sent a bad request, "
    ∷ codes "such as a POST without a Content-Length.\r\n"
    ∷ [])

unfoldable pub cannot_execute : ℕ → List Event
cannot_execute client = send_texts client (
    codes "HTTP/1.0 500 Internal Server Error\r\n"
    ∷ codes "Content-type: text/html\r\n"
    ∷ codes "\r\n"
    ∷ codes "<P>Error prohibited CGI execution.\r\n"
    ∷ [])

unfoldable pub headers : ℕ → List Event
headers client = send_texts client (
    codes "HTTP/1.0 200 OK\r\n"
    ∷ server_string
    ∷ codes "Content-Type: text/html\r\n"
    ∷ codes "\r\n"
    ∷ [])

unfoldable pub not_found : ℕ → List Event
not_found client = send_texts client (
    codes "HTTP/1.0 404 NOT FOUND\r\n"
    ∷ server_string
    ∷ codes "Content-Type: text/html\r\n"
    ∷ codes "\r\n"
    ∷ codes "<HTML><TITLE>Not Found</TITLE>\r\n"
    ∷ codes "<BODY><P>The server could not fulfill\r\n"
    ∷ codes "your request because the resource specified\r\n"
    ∷ codes "is unavailable or nonexistent.\r\n"
    ∷ codes "</BODY></HTML>\r\n"
    ∷ [])

unfoldable pub unimplemented : ℕ → List Event
unimplemented client = send_texts client (
    codes "HTTP/1.0 501 Method Not Implemented\r\n"
    ∷ server_string
    ∷ codes "Content-Type: text/html\r\n"
    ∷ codes "\r\n"
    ∷ codes "<HTML><HEAD><TITLE>Method Not Implemented\r\n"
    ∷ codes "</TITLE></HEAD>\r\n"
    ∷ codes "<BODY><P>HTTP request method not supported.\r\n"
    ∷ codes "</BODY></HTML>\r\n"
    ∷ [])
