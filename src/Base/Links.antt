-- ===== src/Base/Links.antt =====
-- Addresses of linked cells, 0 being NULL, as a list.
use mathlib.Core.Path.{◌≡◌, refl, sym}
use mathlib.Core.Logic.{◌≢◌}
use mathlib.Core.List.{List, [], ◌∷◌, ◌++◌}
use Prim.Native.Nat.{ℕ}
use c_language_learnning.Base.Lists.{All}

-- The first of a list of addresses, NULL when there is none.
unfoldable pub first : List ℕ → ℕ
first [] = 0
first (x ∷ xs) = x

unfoldable pub last_or : ℕ → List ℕ → ℕ
last_or d [] = d
last_or d (x ∷ xs) = last_or x xs

abbrev pub Apart : ℕ → List ℕ → Type 0
Apart t xs = All (λ x. x ≢ t) xs

pub All-at : (P : ℕ → Type 0) (ys : List ℕ) (t : ℕ) (zs : List ℕ) → All P (ys ++ (t ∷ zs)) → P t
All-at P [] t zs h = h.0
All-at P (y ∷ ys) t zs h = All-at P ys t zs h.1

pub All-without :
    (P : ℕ → Type 0) (ys : List ℕ) (t : ℕ) (zs : List ℕ) → All P (ys ++ (t ∷ zs)) → All P (ys ++ zs)
All-without P [] t zs h = h.1
All-without P (y ∷ ys) t zs h = (h.0, All-without P ys t zs h.1)

pub All-last : (P : ℕ → Type 0) (y : ℕ) (ys zs : List ℕ) → P y → All P (ys ++ zs) → P (last_or y ys)
unfolding last_or
All-last P y [] zs p h = p
All-last P y (x ∷ ys) zs p h = All-last P x ys zs h.0 h.1

pub last_or-append :
    (d : ℕ) (ys : List ℕ) (t : ℕ) (zs : List ℕ) → last_or d (ys ++ (t ∷ zs)) ≡ last_or t zs
unfolding last_or
last_or-append d [] t zs = refl
last_or-append d (y ∷ ys) t zs = last_or-append y ys t zs

pub first_other : (y : ℕ) (zs : List ℕ) → y ≢ 0 → Apart y zs → y ≢ first zs
unfolding first
first_other y [] named h = named
first_other y (z ∷ zs) named h = λ e. h.0 (sym e)

pub All-behind :
    (P : ℕ → Type 0) (ys : List ℕ) (t : ℕ) (zs : List ℕ) → All P (ys ++ (t ∷ zs)) → All P zs
All-behind P [] t zs h = h.1
All-behind P (y ∷ ys) t zs h = All-behind P ys t zs h.1
