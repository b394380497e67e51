-- ===== src/UringCopy/Weights.antt =====
-- What the requests in the ring count for, in total.
use Prim.Native.Nat.{◌<◌}
use c_language_learnning.Base.{
  ℕ, ◌+◌, ◌≡◌, refl, ap, true, false, List, [], ◌∷◌, ◌++◌, if◌then◌else◌, arith, All, All-append,
  length, Bool-cases, inl, inr,
}
use c_language_learnning.UringCopy.{Data}

unfoldable pub total : (Data → ℕ) → List Data → ℕ
total f [] = 0
total f (d ∷ ds) = f d + total f ds

pub total-append : (f : Data → ℕ) (a b : List Data) → total f (a ++ b) ≡ total f a + total f b
unfolding total
total-append f [] b = omega arith
total-append f (d ∷ a) b = let ih = total-append f a b in omega arith

pub total-removed :
    (f : Data → ℕ) (ds a b : List Data) (d : Data)
    → ds ≡ a ++ (d ∷ b)
    → total f (a ++ b) + f d ≡ total f ds
unfolding total
total-removed f ds a b d e =
    omega (arith, ap (total f) e, total-append f a b, total-append f a (d ∷ b))

pub total-replaced :
    (f : Data → ℕ) (ds a b : List Data) (d d' : Data)
    → ds ≡ a ++ (d ∷ b)
    → total f (a ++ (b ++ (d' ∷ []))) + f d ≡ total f ds + f d'
unfolding total
total-replaced f ds a b d d' e = omega (
  arith,
  total-removed f ds a b d e,
  total-append f a (b ++ (d' ∷ [])),
  total-append f b (d' ∷ []),
  total-append f a b,
)

-- What a request counts for: as a read, as a write, and the bytes that it has still to bring.
unfoldable pub is_read : Data → ℕ
is_read d = if d.read then 1 else 0

unfoldable pub is_write : Data → ℕ
is_write d = if d.read then 0 else 1

unfoldable pub read_bytes : Data → ℕ
read_bytes d = if d.read then d.first_len else 0

unfoldable pub write_bytes : Data → ℕ
write_bytes d = if d.read then 0 else d.len

pub weights-read :
    (d : Data)
    → d.read ≡ true
    → (is_read d ≡ 1) × (is_write d ≡ 0) × (read_bytes d ≡ d.first_len) × (write_bytes d ≡ 0)
unfolding is_read is_write read_bytes write_bytes
weights-read d e = (rw e, rw e, rw e, rw e)

pub weights-write :
    (d : Data)
    → d.read ≡ false
    → (is_read d ≡ 0) × (is_write d ≡ 1) × (read_bytes d ≡ 0) × (write_bytes d ≡ d.len)
unfolding is_read is_write read_bytes write_bytes
weights-write d e = (rw e, rw e, rw e, rw e)

abbrev pub NotEmpty : Data → Type 0
NotEmpty d = 0 < d.first_len

pub All-removed :
    (a b : List Data) (d : Data) → All NotEmpty (a ++ (d ∷ b)) → NotEmpty d × All NotEmpty (a ++ b)
All-removed [] b d h = h
All-removed (x ∷ a) b d h = let (p, q) = All-removed a b d h.1 in (p, (h.0, q))

pub All-replaced :
    (a b : List Data) (d d' : Data)
    → NotEmpty d'
    → All NotEmpty (a ++ (d ∷ b))
    → All NotEmpty (a ++ (b ++ (d' ∷ [])))
All-replaced [] b d d' n h = All-append NotEmpty b (d' ∷ []) h.1 (n, tt)
All-replaced (x ∷ a) b d d' n h = (h.0, All-replaced a b d d' n h.1)

-- Every request is one or the other.
pub total-length : (ds : List Data) → total is_read ds + total is_write ds ≡ length ds
unfolding total
total-length [] = omega arith
total-length (d ∷ ds) = elim (Bool-cases d.read) [
  | inl reads ↦ omega (arith, weights-read d reads, total-length ds)
  | inr writes ↦ omega (arith, weights-write d writes, total-length ds)
]

pub no_writes : (ds : List Data) → total is_write ds ≡ 0 → total write_bytes ds ≡ 0
unfolding total
no_writes [] h = refl
no_writes (d ∷ ds) h = elim (Bool-cases d.read) [
  | inl reads ↦ omega (arith, weights-read d reads, no_writes ds (omega arith), h)
  | inr writes ↦ absurd (omega (arith, weights-write d writes, h))
]

pub no_reads : (ds : List Data) → All NotEmpty ds → total read_bytes ds ≡ 0 → total is_read ds ≡ 0
unfolding total
no_reads [] a h = refl
no_reads (d ∷ ds) a h = elim (Bool-cases d.read) [
  | inl reads ↦ absurd (omega (arith, weights-read d reads, a.0, h))
  | inr writes ↦ omega (arith, weights-write d writes, no_reads ds a.1 (omega arith), h)
]

pub none_of-length : (ds : List Data) → length ds ≡ 0 → ds ≡ []
none_of-length [] h = refl
none_of-length (d ∷ ds) h = absurd (omega (arith, h))
