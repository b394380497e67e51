-- ===== src/Tinyhttpd/Parse/Bounds.antt =====
-- The buffers of `accept_request` are never overrun.
use c_language_learnning.Base.{
  ℕ, zero, suc, ◌+◌, ◌≤◌, ◌≡◌, refl, List, [], ◌∷◌, ◌++◌, length, length-append, codes, arith,
  c_str, isspace, Bool-cases, inl, inr,
}
use c_language_learnning.Tinyhttpd.Parse.{
  take_word, skip_spaces, split_query, request_of, parse, is_get, html_path, directory_index,
}

length-take_word : (room : ℕ) (buf : List ℕ) → length (take_word room buf).0 ≤ room
unfolding take_word
length-take_word zero buf = omega arith
length-take_word (suc room) [] = omega arith
length-take_word (suc room) (c ∷ buf) = elim (Bool-cases (isspace c)) [
  | inl space ↦ rw space (omega arith)
  | inr other ↦ rw other (omega (arith, length-take_word room buf))
]

length-c_str : (s : List ℕ) → length (c_str s) ≤ length s
length-c_str [] = omega arith
length-c_str (c ∷ s) = ground (arith, length-c_str s)

length-split_query : (url : List ℕ) → length (split_query url).0 ≤ length url
unfolding split_query
length-split_query [] = omega arith
length-split_query (c ∷ url) = ground (arith, length-split_query url)

length-html_path : (url : List ℕ) → length (html_path url) ≤ length url + 16
unfolding html_path
length-html_path url = ground (arith, length-append (codes "htdocs" ++ url) (codes "index.html"))

length-directory_index : (url : List ℕ) → length (directory_index (html_path url)) ≤ length url + 27
unfolding directory_index
length-directory_index url =
    omega (arith, length-append (html_path url) (codes "/index.html"), length-html_path url)

word : ℕ → List ℕ → List ℕ
word room buf = c_str (take_word room buf).0

length-word : (room : ℕ) (buf : List ℕ) → length (word room buf) ≤ room
unfolding word
length-word room buf = omega (arith, length-c_str (take_word room buf).0, length-take_word room buf)

request_of_bounds :
    (method url : List ℕ)
    → ((request_of method url).method ≡ method) × (length (request_of method url).url ≤ length url)
unfolding request_of
request_of_bounds method url = elim (Bool-cases (is_get method)) [
  | inl get ↦ rw (get, request_of) (refl, length-split_query url)
  | inr other ↦ rw (other, request_of) (refl, omega arith)
]

fields_bounds : (buf : List ℕ) → (length (parse buf).method ≤ 254) × (length (parse buf).url ≤ 254)
unfolding parse word
fields_bounds buf =
    let rest = skip_spaces (take_word 254 buf).1 in
    let (same, shorter) = request_of_bounds (word 254 buf) (word 254 rest) in
    (rw same (length-word 254 buf), omega (arith, shorter, length-word 254 rest))

-- Whatever the line, `method` and `url` get at most 254 bytes each, which leaves room for the zeros
-- of their buffers of 255, and the longest path made of them has at most 281 bytes, which fits the
-- 512 of `path`.
pub parse_bounds :
    (buf : List ℕ)
    → (length (parse buf).method ≤ 254)
      × (length (parse buf).url ≤ 254)
      × (length (directory_index (html_path (parse buf).url)) ≤ 281)
parse_bounds buf =
    let (method, url) = fields_bounds buf in
    (method, url, omega (arith, length-directory_index (parse buf).url))
