-- ===== src/Tinyhttpd/Parse/Get.antt =====
-- What `accept_request` reads from a well-formed request line.
use c_language_learnning.Base.{
  ℕ, zero, suc, ◌<◌, ◌≡◌, refl, ap, ◌∙◌, sym, Option, none, some, Bool, true, false, List, [], ◌∷◌,
  ◌++◌, length, arith, ◌==◌, c_str-id, isspace, All,
}
use mathlib.Core.Path.{subst}
use c_language_learnning.Tinyhttpd.Parse.{
  take_word, skip_spaces, split_query, request_of, parse, is_get, is_post,
}

is_get→not_post : (method : List ℕ) → is_get method ≡ true → is_post method ≡ false
is_get→not_post [] h = cc
is_get→not_post (c ∷ method) h = ground arith

length_of_get : (method : List ℕ) → is_get method ≡ true → length method ≡ 3
length_of_get [] h = cc
length_of_get (a ∷ []) h = ground arith
length_of_get (a ∷ b ∷ []) h = ground arith
length_of_get (a ∷ b ∷ c ∷ []) h = refl
length_of_get (a ∷ b ∷ c ∷ d ∷ method) h = ground arith

head_tail : (w : List ℕ) → 0 < length w → (c : ℕ) × ((r : List ℕ) × (w ≡ c ∷ r))
head_tail [] h = absurd (omega arith)
head_tail (c ∷ r) h = (c, (r, refl))

-- A byte of a word: no space, and not zero.
abbrev pub IsWordByte : ℕ → Type 0
IsWordByte c = (isspace c ≡ false) × (0 < c)

take_word-append :
    (room : ℕ) (w rest : List ℕ)
    → All IsWordByte w
    → length w < room
    → take_word room (w ++ (b' ' ∷ rest)) ≡ (w, b' ' ∷ rest)
unfolding take_word
take_word-append zero w rest h f = absurd (omega arith)
take_word-append (suc room) [] rest h f = refl
take_word-append (suc room) (c ∷ w) rest h f =
    rw (h.0.0, take_word-append room w rest h.1 (omega arith))

skip_spaces-word : (c : ℕ) (w : List ℕ) → isspace c ≡ false → skip_spaces (b' ' ∷ c ∷ w) ≡ c ∷ w
unfolding skip_spaces
skip_spaces-word c w h = rw h

split_query-none :
    (url : List ℕ) → All (λ c. (c == b'?') ≡ false) url → split_query url ≡ (url, none)
unfolding split_query
split_query-none [] h = refl
split_query-none (c ∷ url) h = rw (h.0, split_query-none url h.1)

split_query-some :
    (url query : List ℕ)
    → All (λ c. (c == b'?') ≡ false) url
    → split_query (url ++ (b'?' ∷ query)) ≡ (url, some query)
unfolding split_query
split_query-some [] query h = refl
split_query-some (c ∷ url) query h = rw (h.0, split_query-some url query h.1)

All-pos : (w : List ℕ) → All IsWordByte w → All (λ c. 0 < c) w
All-pos [] h = tt
All-pos (c ∷ w) h = (h.0.1, All-pos w h.1)

-- `parse` at a line of two words, with anything behind them.
parse-words :
    (method : List ℕ) (c : ℕ) (url rest : List ℕ)
    → All IsWordByte method
    → length method < 254
    → All IsWordByte (c ∷ url)
    → length (c ∷ url) < 254
    → parse (method ++ (b' ' ∷ ((c ∷ url) ++ (b' ' ∷ rest)))) ≡ request_of method (c ∷ url)
unfolding parse
parse-words method c url rest hm lm hu lu = rw (
  take_word-append 254 method ((c ∷ url) ++ (b' ' ∷ rest)) hm lm,
  skip_spaces-word c (url ++ (b' ' ∷ rest)) hu.0.0,
  take_word-append 254 (c ∷ url) rest hu lu,
  c_str-id method (All-pos method hm),
  c_str-id (c ∷ url) (All-pos (c ∷ url) hu),
)

-- A url with its query, as it stands in the request line.
unfoldable pub with_query : List ℕ → Option (List ℕ) → List ℕ
with_query url none = url
with_query url (some query) = url ++ (b'?' ∷ query)

abbrev pub has_query : Option (List ℕ) → Bool
has_query none = false
has_query (some query) = true

request_of-get :
    (method url : List ℕ) (query : Option (List ℕ))
    → is_get method ≡ true
    → All (λ c. (c == b'?') ≡ false) url
    → request_of method (with_query url query)
      ≡ record { method = method; url = url; query_string = query; cgi = has_query query }
unfolding request_of with_query
request_of-get method url none get h =
    let no_post : is_post method ≡ false = is_get→not_post method get in
    rw (get, split_query-none url h, no_post)
request_of-get method url (some query) get h = rw (get, split_query-some url query h)

-- Of a line of the method GET, spelled in any case, a url and an optional query of together fewer
-- than 254 bytes without spaces, and anything behind them, `accept_request` reads exactly the method,
-- the url and the query; the program is to be run if there is a query.
pub parse-get :
    (method url rest : List ℕ) (query : Option (List ℕ))
    → is_get method ≡ true
    → All IsWordByte method
    → All (λ c. (c == b'?') ≡ false) url
    → All IsWordByte (with_query url query)
    → 0 < length (with_query url query)
    → length (with_query url query) < 254
    → parse (method ++ (b' ' ∷ (with_query url query ++ (b' ' ∷ rest))))
      ≡ record { method = method; url = url; query_string = query; cgi = has_query query }
parse-get method url rest query get hm hq hw pos short =
    let (c, (w, e)) = head_tail (with_query url query) pos in
    (ap (λ u. parse (method ++ (b' ' ∷ (u ++ (b' ' ∷ rest))))) e
      ∙ parse-words method c w rest hm (omega (arith, length_of_get method get))
          (subst (All IsWordByte) e hw) (subst (λ u. length u < 254) e short))
    ∙ (ap (request_of method) (sym e) ∙ request_of-get method url query get hq)
