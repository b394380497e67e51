-- ===== src/Tinyhttpd/Server/Post.antt =====
-- A POST: the length that its headers give, and the body that reaches the program.
use c_language_learnning.Base.{
  ℕ, ◌^◌, ◌<◌, ◌≡◌, refl, ap, Option, some, true, false, List, [], ◌∷◌, ◌++◌, map, length, codes,
  arith, All,
}
use c_language_learnning.Base.Int.{pos}
use c_language_learnning.Effects.{Event, ret, fits-pure, pure}
use c_language_learnning.Decimal.{decimal, decimal_int}
use c_language_learnning.Decimal.RoundTrip.{length-decimal}
use c_language_learnning.Socket.{got}
use c_language_learnning.Tinyhttpd.Pages.{store}
use c_language_learnning.Tinyhttpd.Headers.Skips.{IsHeader, text}
use c_language_learnning.Tinyhttpd.Headers.Length.{length_header, read_content_length-text}
use c_language_learnning.Tinyhttpd.Parse.{is_get, is_post}
use c_language_learnning.Tinyhttpd.Server.{
  Env, read_body, child_vars, send_bytes, run_program, execute_cgi,
}

-- The bytes that are there are read in order, and none behind them.
read_body-append :
    (c : ℕ) (input rest : List ℕ) → read_body (length input) c (map got (input ++ rest)) ≡ input
unfolding read_body
read_body-append c [] rest = refl
read_body-append c (d ∷ input) rest = ap (λ s. d ∷ s) (read_body-append d input rest)

is_post→not_get : (method : List ℕ) → is_post method ≡ true → is_get method ≡ false
is_post→not_get [] h = cc
is_post→not_get (c ∷ method) h = ground arith

length_of_post : (method : List ℕ) → is_post method ≡ true → length method ≡ 4
length_of_post [] h = cc
length_of_post (a ∷ []) h = ground arith
length_of_post (a ∷ b ∷ []) h = ground arith
length_of_post (a ∷ b ∷ c ∷ []) h = ground arith
length_of_post (a ∷ b ∷ c ∷ d ∷ []) h = refl
length_of_post (a ∷ b ∷ c ∷ d ∷ e ∷ method) h = ground arith

-- The environment that the program of a POST is given.
pub post_vars : List ℕ → ℕ → List (List ℕ)
post_vars method n =
    (codes "REQUEST_METHOD=" ++ method) ∷ (codes "CONTENT_LENGTH=" ++ decimal n) ∷ []

child_vars-post :
    (method : List ℕ) (query : Option (List ℕ)) (n : ℕ)
    → is_post method ≡ true
    → n < 2 ^ 31
    → child_vars method query (pos n) ≡ pure (post_vars method n)
unfolding child_vars post_vars decimal_int
child_vars-post method query n post small = rw (
  is_post→not_get method post,
  fits-pure (length (codes "REQUEST_METHOD=" ++ method)) 255
      (omega (arith, length_of_post method post)),
  fits-pure (length (codes "CONTENT_LENGTH=" ++ decimal n)) 255
      (omega (arith, length-decimal n 18 (omega (arith, small)))),
)

run_program-post :
    (env : Env) (client : ℕ) (path method : List ℕ) (query : Option (List ℕ)) (c : ℕ)
    (input rest : List ℕ)
    → is_post method ≡ true
    → env.pipe_output ≡ true
    → env.pipe_input ≡ true
    → env.fork ≡ true
    → length input < 2 ^ 31
    → run_program env client path method query (pos (length input)) c (map got (input ++ rest))
      ≡ ret
          (Event.send client (codes "HTTP/1.0 200 OK\r\n")
            ∷ send_bytes client (env.program path (post_vars method (length input)) input))
          tt
unfolding run_program
run_program-post env client path method query c input rest post out inp fork small = rw (
  out,
  inp,
  fork,
  child_vars-post method query (length input) post small,
  post,
  read_body-append c input rest,
)

-- A POST whose last header is "Content-Length: n", with n the length of the body that has been sent,
-- runs the program with exactly that body for its input and that length in its environment, and the
-- client gets the status line and what the program writes, if the pipes and the process can be made.
pub execute_cgi-post :
    (env : Env) (client : ℕ) (path method : List ℕ) (query : Option (List ℕ)) (buf : List ℕ) (c : ℕ)
    (hs : List (List ℕ)) (input rest : List ℕ)
    → is_post method ≡ true
    → All IsHeader hs
    → env.pipe_output ≡ true
    → env.pipe_input ≡ true
    → env.fork ≡ true
    → length input < 2 ^ 31
    → execute_cgi env client path method query buf c
        (map got (text (hs ++ (length_header (length input) ∷ [])) (input ++ rest)))
      ≡ some (
          ret
            (Event.send client (codes "HTTP/1.0 200 OK\r\n")
              ∷ send_bytes client (env.program path (post_vars method (length input)) input))
            tt)
unfolding execute_cgi
execute_cgi-post env client path method query buf c hs input rest post ok out inp fork small = rw (
  is_post→not_get method post,
  read_content_length-text (store (codes "A") buf) hs (length input) (input ++ rest) ok small,
  run_program-post env client path method query c input rest post out inp fork small,
  execute_cgi,
)
