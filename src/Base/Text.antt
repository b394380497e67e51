-- ===== src/Base/Text.antt =====
-- C strings as lists of bytes, without their terminating zero.
use Prim.Native.Nat.{ℕ, ◌+◌, ◌<◌}
use Prim.Native.Char.{code}
use Prim.Native.String.{String}
use mathlib.Core.Path.{◌≡◌, refl, ap}
use mathlib.Core.Bool.{Bool, true, false, ◌&&◌, ◌||◌}
use mathlib.Core.List.{List, [], ◌∷◌, ◌++◌}
use native.Mathlib.Omega.{arith}
use c_language_learnning.Base.Lists.{All}
use c_language_learnning.Base.Tests.{leb, ◌==◌, if◌then◌else◌}

-- The bytes of a literal (ASCII).
abbrev pub codes : String → List ℕ
codes String.[] = []
codes (String.◌∷◌ c s) = code c ∷ codes s

-- strcmp(a, b) == 0
abbrev pub str_eq : List ℕ → List ℕ → Bool
str_eq [] [] = true
str_eq [] (y ∷ ys) = false
str_eq (x ∷ xs) [] = false
str_eq (x ∷ xs) (y ∷ ys) = (x == y) && str_eq xs ys

pub str_eq→eq : (a b : List ℕ) → str_eq a b ≡ true → a ≡ b
str_eq→eq [] [] h = refl
str_eq→eq [] (y ∷ ys) h = ground arith
str_eq→eq (x ∷ xs) [] h = ground arith
str_eq→eq (x ∷ xs) (y ∷ ys) h = ground (arith, str_eq→eq xs ys)

pub str_eq_refl : (a : List ℕ) → str_eq a a ≡ true
str_eq_refl [] = refl
str_eq_refl (x ∷ xs) = ground (arith, str_eq_refl xs)

-- The C string that starts at the head of an array: the bytes up to the first zero.
abbrev pub c_str : List ℕ → List ℕ
c_str [] = []
c_str (c ∷ s) = let rest = c ∷ c_str s in if c == 0 then [] else rest

-- <ctype.h> in the C locale.
abbrev pub isdigit : ℕ → Bool
isdigit c = leb b'0' c && leb c b'9'

abbrev pub islower : ℕ → Bool
islower c = leb b'a' c && leb c b'z'

abbrev pub isupper : ℕ → Bool
isupper c = leb b'A' c && leb c b'Z'

abbrev pub isalnum : ℕ → Bool
isalnum c = isdigit c || islower c || isupper c

abbrev pub isxdigit : ℕ → Bool
isxdigit c = isdigit c || leb b'a' c && leb c b'f' || leb b'A' c && leb c b'F'

-- Space, and tab to carriage return.
abbrev pub isspace : ℕ → Bool
isspace c = (c == 32) || leb 9 c && leb c 13

abbrev pub tolower : ℕ → ℕ
tolower c = if isupper c then c + 32 else c

-- strcasecmp(a, b) == 0
abbrev pub str_case_eq : List ℕ → List ℕ → Bool
str_case_eq [] [] = true
str_case_eq [] (y ∷ ys) = false
str_case_eq (x ∷ xs) [] = false
str_case_eq (x ∷ xs) (y ∷ ys) = (tolower x == tolower y) && str_case_eq xs ys

pub c_str-append_zero : (s junk : List ℕ) → All (λ c. 0 < c) s → c_str (s ++ (0 ∷ junk)) ≡ s
c_str-append_zero [] junk h = refl
c_str-append_zero (c ∷ s) junk h =
    let e : (c == 0) ≡ false = ground arith in rw e (ap (λ t. c ∷ t) (c_str-append_zero s junk h.1))

pub c_str-id : (s : List ℕ) → All (λ c. 0 < c) s → c_str s ≡ s
c_str-id [] h = refl
c_str-id (c ∷ s) h =
    let e : (c == 0) ≡ false = ground arith in rw e (ap (λ t. c ∷ t) (c_str-id s h.1))
