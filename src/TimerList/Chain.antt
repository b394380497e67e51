-- ===== src/TimerList/Chain.antt =====
-- The linked timers as the list of their addresses.
use c_language_learnning.Base.{
  ℕ, ◌≡◌, ◌≢◌, ◌∙◌, List, [], ◌∷◌, ltb, if◌then◌else◌, All, Bool-cases, inl, inr,
}
unfoldable pub use c_language_learnning.Base.Links.{first, last_or, Apart}
use c_language_learnning.TimerList.{TimerList}

-- The timers `xs` are linked both ways, behind the timer `b`, and are different timers.
unfoldable pub IsChain : TimerList → ℕ → List ℕ → Type 0
IsChain l b [] = Unit
IsChain l b (x ∷ xs) =
    (x ≢ 0) × (l.prev x ≡ b) × (l.next x ≡ first xs) × Apart x xs × IsChain l x xs

-- The list holds the timers `xs`.
pub record Holds (l : TimerList) (xs : List ℕ) : Type 0 where
  pub head_first : l.head ≡ first xs
  pub tail_last : l.tail ≡ last_or l.tail xs
  pub chain : IsChain l 0 xs

-- The fields of a timer are as before.
pub record IsSame (l l' : TimerList) (y : ℕ) : Type 0 where
  pub next_same : l'.next y ≡ l.next y
  pub prev_same : l'.prev y ≡ l.prev y

-- Timers whose fields are as before are linked as before.
pub IsChain-same :
    (l l' : TimerList) (b : ℕ) (xs : List ℕ)
    → All (λ y. IsSame l l' y) xs
    → IsChain l b xs
    → IsChain l' b xs
unfolding IsChain
IsChain-same l l' b [] h v = tt
IsChain-same l l' b (x ∷ xs) h v =
    (v.0, h.0.prev_same ∙ v.1, h.0.next_same ∙ v.2, v.3, IsChain-same l l' x xs h.1 v.4)

-- What holds of every timer apart from three holds of all that are apart from them.
pub apart_all :
    (P : ℕ → Type 0) (a b c : ℕ) (xs : List ℕ)
    → ((y : ℕ) → y ≢ a → y ≢ b → y ≢ c → P y)
    → Apart a xs
    → Apart b xs
    → Apart c xs
    → All P xs
apart_all P a b c [] h ha hb hc = tt
apart_all P a b c (x ∷ xs) h ha hb hc = (h x ha.0 hb.0 hc.0, apart_all P a b c xs h ha.1 hb.1 hc.1)

-- The timer in its place behind those that expire no later.
unfoldable pub insort : (ℕ → ℕ) → ℕ → List ℕ → List ℕ
insort expire t [] = t ∷ []
insort expire t (x ∷ xs) =
    let rest = x ∷ insort expire t xs in if ltb (expire t) (expire x) then t ∷ x ∷ xs else rest

pub Apart-insort :
    (expire : ℕ → ℕ) (a t : ℕ) (xs : List ℕ) → t ≢ a → Apart a xs → Apart a (insort expire t xs)
unfolding insort
Apart-insort expire a t [] ne h = (ne, tt)
Apart-insort expire a t (x ∷ xs) ne h = elim (Bool-cases (ltb (expire t) (expire x))) [
  | inl early ↦ rw early ((ne, h))
  | inr late ↦ rw late ((h.0, Apart-insort expire a t xs ne h.1))
]
