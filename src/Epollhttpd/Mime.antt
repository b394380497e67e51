-- ===== src/Epollhttpd/Mime.antt =====
-- `get_file_type` of network-programming/http/epollhttpd/epoll.c.
use c_language_learnning.Base.{
  ℕ, ◌≡◌, refl, Option, none, some, List, [], ◌∷◌, ◌++◌, Bool, true, false, ◌||◌, arith, codes,
  str_eq, ◌==◌, if◌then◌else◌, All, Bool-cases, Option-cases, length, ◌≤◌, inl, inr,
}

-- strrchr(s, c), for c != 0: the text from the last `c` on.
pub strrchr : List ℕ → ℕ → Option (List ℕ)
strrchr [] c = none
strrchr (x ∷ s) c = elim (strrchr s c) [
  | some t ↦ some t
  | none ↦ if x == c then some (x ∷ s) else none
]

abbrev pub plain : List ℕ
plain = codes "text/plain; charset=utf-8"

-- The chain of tests on the text from the last dot on.
pub type_of_dot : List ℕ → List ℕ
type_of_dot dot =
    if str_eq dot (codes ".html") || str_eq dot (codes ".htm")
    then codes "text/html; charset=utf-8"
    else if str_eq dot (codes ".jpg") || str_eq dot (codes ".jpeg")
    then codes "image/jpeg"
    else if str_eq dot (codes ".gif")
    then codes "image/gif"
    else if str_eq dot (codes ".png")
    then codes "image/png"
    else if str_eq dot (codes ".css")
    then codes "text/css"
    else if str_eq dot (codes ".au")
    then codes "audio/basic"
    else if str_eq dot (codes ".wav")
    then codes "audio/wav"
    else if str_eq dot (codes ".avi")
    then codes "video/x-msvideo"
    else if str_eq dot (codes ".mov") || str_eq dot (codes ".qt")
    then codes "video/quicktime"
    else if str_eq dot (codes ".mpeg") || str_eq dot (codes ".mpe")
    then codes "video/mpeg"
    else if str_eq dot (codes ".vrml") || str_eq dot (codes ".wrl")
    then codes "model/vrml"
    else if str_eq dot (codes ".midi") || str_eq dot (codes ".mid")
    then codes "audio/midi"
    else if str_eq dot (codes ".mp3")
    then codes "audio/mpeg"
    else if str_eq dot (codes ".ogg")
    then codes "application/ogg"
    else if str_eq dot (codes ".pac")
    then codes "application/x-ns-proxy-autoconfig"
    else plain

unfoldable pub get_file_type : List ℕ → List ℕ
unfolding strrchr type_of_dot
get_file_type name = elim (strrchr name b'.') [ none ↦ plain | some dot ↦ type_of_dot dot ]

strrchr-none : (c : ℕ) (s : List ℕ) → All (λ x. (x == c) ≡ false) s → strrchr s c ≡ none
unfolding strrchr
strrchr-none c [] h = refl
strrchr-none c (x ∷ s) h = rw (strrchr-none c s h.1, h.0)

strrchr-append :
    (c : ℕ) (stem ext : List ℕ)
    → All (λ x. (x == c) ≡ false) ext
    → strrchr (stem ++ (c ∷ ext)) c ≡ some (c ∷ ext)
unfolding strrchr
strrchr-append c [] ext h = rw (strrchr-none c ext h) (ground arith)
strrchr-append c (x ∷ stem) ext h = rw (strrchr-append c stem ext h)

-- The extensions of `get_file_type`, each with its type.
abbrev pub types : List (List ℕ × List ℕ)
types =
    (codes ".html", codes "text/html; charset=utf-8")
    ∷ (codes ".htm", codes "text/html; charset=utf-8")
    ∷ (codes ".jpg", codes "image/jpeg")
    ∷ (codes ".jpeg", codes "image/jpeg")
    ∷ (codes ".gif", codes "image/gif")
    ∷ (codes ".png", codes "image/png")
    ∷ (codes ".css", codes "text/css")
    ∷ (codes ".au", codes "audio/basic")
    ∷ (codes ".wav", codes "audio/wav")
    ∷ (codes ".avi", codes "video/x-msvideo")
    ∷ (codes ".mov", codes "video/quicktime")
    ∷ (codes ".qt", codes "video/quicktime")
    ∷ (codes ".mpeg", codes "video/mpeg")
    ∷ (codes ".mpe", codes "video/mpeg")
    ∷ (codes ".vrml", codes "model/vrml")
    ∷ (codes ".wrl", codes "model/vrml")
    ∷ (codes ".midi", codes "audio/midi")
    ∷ (codes ".mid", codes "audio/midi")
    ∷ (codes ".mp3", codes "audio/mpeg")
    ∷ (codes ".ogg", codes "application/ogg")
    ∷ (codes ".pac", codes "application/x-ns-proxy-autoconfig")
    ∷ []

pub find_type : List ℕ → List (List ℕ × List ℕ) → List ℕ
find_type dot [] = plain
find_type dot ((ext, type) ∷ rest) = if str_eq dot ext then type else find_type dot rest

if-or {ℓ} :
    {A : Type ℓ} (a b : Bool) (x y : A)
    → (if a || b then x else y) ≡ (if a then x else if b then x else y)
if-or true b x y = refl
if-or false b x y = refl

type_of_dot-find_type : (dot : List ℕ) → type_of_dot dot ≡ find_type dot types
unfolding type_of_dot find_type
type_of_dot-find_type dot = simp if-or

-- A file whose name ends in a dot and an extension without a dot has the type that the table
-- `types` gives for that extension, and `text/plain` where the table has none; what stands before
-- the last dot does not matter.
pub get_file_type-dot :
    (stem ext : List ℕ)
    → All (λ x. (x == b'.') ≡ false) ext
    → get_file_type (stem ++ (b'.' ∷ ext)) ≡ find_type (b'.' ∷ ext) types
unfolding get_file_type
get_file_type-dot stem ext h =
    rw (strrchr-append b'.' stem ext h, get_file_type) (type_of_dot-find_type (b'.' ∷ ext))

find_type-le :
    (dot : List ℕ) (table : List (List ℕ × List ℕ))
    → All (λ e. length e.1 ≤ 40) table
    → length (find_type dot table) ≤ 40
unfolding find_type
find_type-le dot [] h = omega arith
find_type-le dot ((ext, type) ∷ rest) h = elim (Bool-cases (str_eq dot ext)) [
  | inl same ↦ rw same h.0
  | inr differ ↦ rw differ (find_type-le dot rest h.1)
]

-- No type is longer than 40 bytes.
pub length-get_file_type : (name : List ℕ) → length (get_file_type name) ≤ 40
unfolding get_file_type
length-get_file_type name = elim (Option-cases (strrchr name b'.')) [
  | inl e ↦ rw (e, get_file_type) (omega arith)
  | inr found ↦
      rw (found.1, get_file_type, type_of_dot-find_type) (find_type-le found.0 types (omega arith))
]
