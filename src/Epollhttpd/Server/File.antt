-- ===== src/Epollhttpd/Server/File.antt =====
-- The reply for a regular file.
use c_language_learnning.Base.{
  ℕ, ◌^◌, ◌≤◌, ◌<◌, ◌≡◌, refl, List, [], ◌∷◌, ◌++◌, length, length-append, codes, arith,
  append_assoc,
}
use c_language_learnning.Effects.{Event, ret, fits-pure, output}
use c_language_learnning.Decimal.{decimal}
use c_language_learnning.Decimal.RoundTrip.{length-decimal}
use c_language_learnning.Epollhttpd.Server.{send_respond_head}

-- The head of a reply with status 200.
pub head_text : List ℕ → ℕ → List ℕ
head_text type len =
    codes "http/1.1 200 OK\r\nContent-Type:"
    ++ (type ++ (codes "\r\nContent-Length:" ++ (decimal len ++ codes "\r\n\r\n")))

-- The three messages of the head.
pub head_events : ℕ → List ℕ → ℕ → List Event
head_events cfd type len =
    Event.send cfd (codes "http/1.1 200 OK\r\n")
    ∷ Event.send cfd (
        (codes "Content-Type:" ++ (type ++ codes "\r\n"))
        ++ (codes "Content-Length:" ++ (decimal len ++ codes "\r\n")))
    ∷ Event.send cfd (codes "\r\n")
    ∷ []

pub output-head_events :
    (cfd : ℕ) (type : List ℕ) (len : ℕ) → output (head_events cfd type len) ≡ head_text type len
unfolding head_events head_text
output-head_events cfd type len = simp append_assoc

decimal-200 : decimal 200 ≡ codes "200"
unfolding decimal
decimal-200 = refl

fields_fit :
    (type : List ℕ) (len : ℕ)
    → length type ≤ 40
    → len < 10 ^ 19
    → length (
        (codes "Content-Type:" ++ (type ++ codes "\r\n"))
        ++ (codes "Content-Length:" ++ (decimal len ++ codes "\r\n")))
      < 1024
fields_fit type len ht hl = omega (
  arith,
  length-append (codes "Content-Type:" ++ (type ++ codes "\r\n"))
      (codes "Content-Length:" ++ (decimal len ++ codes "\r\n")),
  length-append type (codes "\r\n"),
  length-append (decimal len) (codes "\r\n"),
  length-decimal len 18 hl,
)

pub send_respond_head-ret :
    (cfd : ℕ) (type : List ℕ) (len : ℕ)
    → length type ≤ 40
    → len < 10 ^ 19
    → send_respond_head cfd 200 (codes "OK") type len ≡ ret (head_events cfd type len) tt
unfolding send_respond_head head_events
send_respond_head-ret cfd type len ht hl =
    rw (decimal-200, fits-pure _ 1024 (fields_fit type len ht hl), fits-pure 17 1024 (omega arith))
