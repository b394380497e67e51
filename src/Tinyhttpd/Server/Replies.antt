-- ===== src/Tinyhttpd/Server/Replies.antt =====
-- What `accept_request` answers.
use c_language_learnning.Base.{
  ℕ, suc, ◌+◌, ◌<◌, ◌≡◌, refl, ap, ◌∙◌, Option, none, some, true, false, ◌||◌, List, [], ◌∷◌, ◌++◌,
  map, length, drop, codes, arith, ◌==◌, if◌then◌else◌, All, append_assoc, append-nil, Bool-cases,
  Option-cases, inl, inr,
}
use c_language_learnning.Effects.{Event, Run, ret, fits-pure, sent, output, output-append}
use c_language_learnning.Socket.{Sock, got}
use c_language_learnning.Line.Exact.{Inner, wire}
use c_language_learnning.Tinyhttpd.Pages.{store, headers, not_found, unimplemented}
use c_language_learnning.Tinyhttpd.Cat.{cat, cat_returns, output-cat}
use c_language_learnning.Tinyhttpd.Headers.{get_line}
use c_language_learnning.Tinyhttpd.Headers.Returns.{
  skip_headers_returns, read_content_length_returns,
}
use c_language_learnning.Tinyhttpd.Headers.Skips.{
  IsHeader, text, skip_headers-text, tiny_line, more_headers_start,
}
use c_language_learnning.Tinyhttpd.Parse.{
  Request, parse, is_get, is_post, html_path, directory_index,
}
use c_language_learnning.Tinyhttpd.Parse.Bounds.{parse_bounds}
use c_language_learnning.Tinyhttpd.Parse.Get.{IsWordByte, with_query, has_query, parse-get}
use c_language_learnning.Tinyhttpd.Server.{
  Env, serve_file, execute_cgi, respond, refuse, request, accept_request,
}

-- The call returns: it does not run out of fuel.
abbrev Returns : Option (Run (Unit {0})) → Type 0
Returns r = (run : Run (Unit {0})) × (r ≡ some run)

serve_file-Returns :
    (env : Env) (client : ℕ) (filename : List ℕ) (s : Sock)
    → Returns (serve_file env client filename s)
unfolding serve_file
serve_file-Returns env client filename s =
    let (s', e) = skip_headers_returns (codes "A") s in
    elim (Option-cases (env.fopen filename)) [
      | inl missing ↦ rw (e, missing, serve_file) (_, refl)
      | inr found ↦
          let (es, c) = cat_returns client found.0 in rw (e, found.1, c, serve_file) (_, refl)
    ]

execute_cgi-Returns :
    (env : Env) (client : ℕ) (path method : List ℕ) (query : Option (List ℕ)) (buf : List ℕ) (c : ℕ)
    (s : Sock)
    → Returns (execute_cgi env client path method query buf c s)
unfolding execute_cgi
execute_cgi-Returns env client path method query buf c s =
    let (s', e) = skip_headers_returns (codes "A") s in
    let (r, e') = read_content_length_returns (store (codes "A") buf) s in
    elim (Bool-cases (is_get method)) [
      | inl get ↦ rw (get, e, execute_cgi) (_, refl)
      | inr other ↦ rw (other, e', execute_cgi) (_, refl)
    ]

respond-Returns :
    (env : Env) (client : ℕ) (line : List ℕ) (r : Request) (buf : List ℕ) (c : ℕ) (s : Sock)
    → Returns (respond env client line r buf c s)
unfolding respond
respond-Returns env client line r buf c s = elim (Option-cases (env.stat (html_path r.url))) [
  | inl missing ↦ let (s', e) = skip_headers_returns line s in rw (missing, e, respond) (_, refl)
  | inr (st, e) ↦
      let path = if st.is_dir then directory_index (html_path r.url) else html_path r.url in
      elim (Bool-cases (r.cgi || st.executable)) [
        | inl run ↦
            rw (e, run, respond)
              (execute_cgi-Returns env client path r.method r.query_string buf c s)
        | inr plain ↦ rw (e, plain, respond) (serve_file-Returns env client path s)
      ]
]

-- `accept_request` returns whatever the client sends and whatever the system calls answer: none of
-- its loops over the request or the file runs for ever.
pub accept_request_returns :
    (env : Env) (client : ℕ) (junk buf : List ℕ) (c : ℕ) (s : Sock)
    → (run : Run (Unit {0})) × (accept_request env client junk buf c s ≡ some run)
unfolding accept_request
accept_request_returns env client junk buf c s =
    let line = get_line 1024 s in
    let r = parse (store line.0 junk) in
    let (run, e) = respond-Returns env client line.0 r buf c line.1 in
    rw (e, accept_request) (_, refl)

path_fits : (buf : List ℕ) → length (directory_index (html_path (parse buf).url)) < 512
path_fits buf = omega (arith, (parse_bounds buf).2)

-- A request with a method that is neither GET nor POST, for a file that is not there, is answered
-- twice: the 501 page is followed by the 404 page, since the function does not return after the first.
pub accept_request-twice :
    (env : Env) (client : ℕ) (junk buf : List ℕ) (c : ℕ) (s : Sock)
    → is_get (request junk s).method ≡ false
    → is_post (request junk s).method ≡ false
    → env.stat (html_path (request junk s).url) ≡ none
    → accept_request env client junk buf c s
      ≡ some (ret (unimplemented client ++ (not_found client ++ (Event.close client ∷ []))) tt)
unfolding accept_request respond refuse
accept_request-twice env client junk buf c s get post missing =
    let line = get_line 1024 s in
    let (s', e) = skip_headers_returns line.0 line.1 in
    rw (
      missing,
      e,
      get,
      post,
      fits-pure _ 512 (path_fits (store line.0 junk)),
      respond,
      accept_request,
    )

-- The first line of a request.
abbrev pub request_line : List ℕ → List ℕ → List ℕ → List ℕ
request_line method url version = method ++ (b' ' ∷ (url ++ (b' ' ∷ version)))

store-request_line :
    (method url version junk : List ℕ)
    → (rest : List ℕ) × (store (request_line method url version ++ (b'\n' ∷ [])) junk
        ≡ method ++ (b' ' ∷ (url ++ (b' ' ∷ rest))))
unfolding store
store-request_line method url version junk = (
  version
      ++ (b'\n' ∷ 0 ∷ drop (suc (length (request_line method url version ++ (b'\n' ∷ [])))) junk),
  simp append_assoc,
)

module _ {method url : List ℕ} (version : List ℕ) (query : Option (List ℕ))
    (get : is_get method ≡ true) (hm : All IsWordByte method)
    (hq : All (λ c. (c == b'?') ≡ false) url) (hw : All IsWordByte (with_query url query))
    (pos : 0 < length (with_query url query)) (short : length (with_query url query) < 254)
    (inner : All Inner (request_line method (with_query url query) version))
    (fits_line : length (request_line method (with_query url query) version) + 1 < 1024) where
  -- The request that is read from such a line, whatever follows it.
  request-get :
      (junk rest : List ℕ)
      → request junk (map got (wire (request_line method (with_query url query) version) rest))
        ≡ record { method = method; url = url; query_string = query; cgi = has_query query }
  request-get junk rest =
      let (behind, e) = store-request_line method (with_query url query) version junk in
      rw (tiny_line (request_line method (with_query url query) version) rest inner fits_line)
        (ap parse e ∙ parse-get method url behind query get hm hq hw pos short)

-- The whole of `accept_request`, once it is known what `respond` does.
accept_request-respond :
    (env : Env) (client : ℕ) (junk buf : List ℕ) (c : ℕ) (s : Sock) (es : List Event)
    → respond env client (get_line 1024 s).0 (request junk s) buf c (get_line 1024 s).1
      ≡ some (ret es tt)
    → accept_request env client junk buf c s
      ≡ some (ret (refuse client (request junk s).method ++ (es ++ (Event.close client ∷ []))) tt)
unfolding accept_request
accept_request-respond env client junk buf c s es e =
    rw (e, fits-pure _ 512 (path_fits (store (get_line 1024 s).0 junk)), accept_request)

-- Likewise at a well-formed GET.
accept_request-get :
    (env : Env) (client : ℕ) (junk buf : List ℕ) (c : ℕ) (method line : List ℕ) (r : Request)
    (rest : Sock) (s : Sock) (es : List Event)
    → get_line 1024 s ≡ (line, rest)
    → request junk s ≡ r
    → is_get r.method ≡ true
    → respond env client line r buf c rest ≡ some (ret es tt)
    → accept_request env client junk buf c s ≡ some (ret (es ++ (Event.close client ∷ [])) tt)
accept_request-get env client junk buf c method line r rest s es read parsed get e =
    accept_request-respond env client junk buf c s es (
      ap (λ l. respond env client l.0 (request junk s) buf c l.1) read
      ∙ (ap (λ q. respond env client line q buf c rest) parsed ∙ e))
    ∙ ap (λ q. some (ret (q ++ (es ++ (Event.close client ∷ []))) tt))
        (ap (λ q. refuse client q.method) parsed ∙ no_refusal)
  where
    no_refusal : refuse client r.method ≡ []
    no_refusal = unfold refuse in rw (get, refuse)

respond-file :
    (env : Env) (client : ℕ) (line buf : List ℕ) (c : ℕ) (method url : List ℕ) (hs : List (List ℕ))
    (body file : List ℕ) (es : List Event)
    → All IsHeader hs
    → env.stat (html_path url) ≡ some (record { is_dir = false; executable = false })
    → env.fopen (html_path url) ≡ some file
    → cat client file ≡ some es
    → respond env client line
        (record { method = method; url = url; query_string = none; cgi = false })
        buf
        c
        (map got (text hs body))
      ≡ some (ret (headers client ++ es) tt)
unfolding respond serve_file
respond-file env client line buf c method url hs body file es ok found opened copied = rw (
  found,
  skip_headers-text (codes "A") hs body ok more_headers_start,
  opened,
  copied,
  respond,
  serve_file,
)

-- A GET, in any case, with a url of 1 to 253 bytes and no query, on a line of fewer than 1023 bytes, for a
-- file that is no directory, has no execute bits and no zero bytes and ends in a '\n', is answered by the
-- head and the whole file, and by nothing else, whatever headers that fit their buffer it has.
pub accept_request-file :
    (env : Env) (client : ℕ) (junk buf : List ℕ) (c : ℕ) (method url version : List ℕ)
    (hs : List (List ℕ)) (body lines : List ℕ)
    → is_get method ≡ true
    → All IsWordByte method
    → All (λ c. (c == b'?') ≡ false) url
    → All IsWordByte url
    → 0 < length url
    → length url < 254
    → All Inner (request_line method url version)
    → length (request_line method url version) + 1 < 1024
    → All IsHeader hs
    → env.stat (html_path url) ≡ some (record { is_dir = false; executable = false })
    → env.fopen (html_path url) ≡ some (lines ++ (b'\n' ∷ []))
    → All (λ c. 0 < c) lines
    → (run : Run (Unit {0})) × (accept_request env client junk buf c
          (map got (wire (request_line method url version) (text hs body)))
        ≡ some run)
      × (sent run ≡ output (headers client) ++ (lines ++ (b'\n' ∷ [])))
unfolding with_query
accept_request-file env client junk buf c method url version hs body lines get hm hq hw pos short
      inner fits_line headers_ok found opened text_file =
    let (es, copied, whole) = output-cat client lines text_file in
    let first = request_line method url version ++ (b'\n' ∷ []) in
    (
      ret ((headers client ++ es) ++ (Event.close client ∷ [])) tt,
      accept_request-get env client junk buf c method first
          (record { method = method; url = url; query_string = none; cgi = false })
          (map got (text hs body)) (map got (wire (request_line method url version) (text hs body)))
          (headers client ++ es)
          (tiny_line (request_line method url version) (text hs body) inner fits_line)
          (request-get version none get hm hq hw pos short inner fits_line junk (text hs body)) get
          (respond-file env client first buf c method url hs body (lines ++ (b'\n' ∷ [])) es
            headers_ok found opened copied),
      output-append (headers client ++ es) (Event.close client ∷ [])
          ∙ (append-nil (output (headers client ++ es))
              ∙ (output-append (headers client) es ∙ ap (λ t. output (headers client) ++ t) whole)),
    )
