-- ===== src/UringCat/Blocks.antt =====
-- The blocks of a file, and the array that takes them.
use Prim.Native.Nat.{◌≤◌, ◌<◌}
use c_language_learnning.Base.{
  ℕ, zero, suc, ◌+◌, ◌-◌, ◌/◌, ◌%◌, ◌^◌, ◌≡◌, ◌≢◌, refl, sym, ap, ◌∙◌, true, false, Option, some,
  List, [], ◌∷◌, ltb, leb, ◌==◌, if◌then◌else◌, arith, length, All, Bool-cases, inl, inr,
}
use c_language_learnning.Base.Int.{pos, rounds}
use c_language_learnning.UringCat.{
  block_sz, int32, divide, increment, blocks, Iovec, overrun, filled, behind, fill_block, to_read,
  fill,
}

-- How many blocks a file has.
abbrev pub needed : ℕ → ℕ
needed file_sz = (file_sz + 1023) / 1024

pub blocks-needed : (n : ℕ) → n % 2 ^ 32 < 2 ^ 31 → blocks n ≡ pos (needed (n % 2 ^ 32))
unfolding blocks int32 divide increment
blocks-needed n h =
    let low : ltb (n % 2 ^ 32) (2 ^ 31) ≡ true = ground (arith, h) in
    elim (Bool-cases (n % block_sz == 0)) [
      | inl whole ↦
          let e : n % 1024 ≡ 0 = ground (arith, whole) in
          rw (whole, low) (ap pos (omega (arith, e, h)))
      | inr cut ↦
          let e : n % 1024 ≢ 0 = ground (arith, cut) in rw (cut, low) (ap pos (omega (arith, e, h)))
    ]

-- The entries for the rest of a file from block `current` on, where block `i` has buffer `at i`.
unfoldable pub split : ℕ → (ℕ → ℕ) → ℕ → ℕ → List Iovec
split zero at current remaining = []
split (suc fuel) at current remaining =
    let rest = split fuel at (current + 1) (remaining - to_read remaining) in
    if remaining == 0
    then []
    else record { iov_base = at current; iov_len = to_read remaining } ∷ rest

unfoldable pub bytes_of : List Iovec → ℕ
bytes_of [] = 0
bytes_of (v ∷ vs) = v.iov_len + bytes_of vs

abbrev pub IsBlock : Iovec → Type 0
IsBlock v = (0 < v.iov_len) × (v.iov_len ≤ block_sz)

to_read-cases :
    (n : ℕ)
    → n ≢ 0
    → (0 < to_read n)
      × (to_read n ≤ block_sz)
      × (to_read n ≤ n)
      × (needed n ≡ needed (n - to_read n) + 1)
to_read-cases n ne = elim (Bool-cases (ltb block_sz n)) [
  | inl more ↦
      let h : 1024 < n = ground (arith, more) in
      rw more (omega arith, omega arith, omega (arith, h), omega (arith, h))
  | inr last ↦
      let h : n ≤ 1024 = ground (arith, last) in
      rw last (omega (arith, ne), omega (arith, h), omega arith, omega (arith, h, ne))
]

-- With buffers for every block and room for the blocks that are needed, the loop gives those entries.
pub fill-split :
    (fuel capacity current remaining : ℕ) (buffers : ℕ → Option ℕ) (at : ℕ → ℕ)
    → ((i : ℕ) → buffers i ≡ some (at i))
    → remaining < fuel
    → current + needed remaining ≤ capacity
    → fill fuel capacity buffers current remaining ≡ filled (split fuel at current remaining)
unfolding fill split fill_block behind
fill-split zero capacity current remaining buffers at given l room = absurd (omega (arith, l))
fill-split (suc fuel) capacity current remaining buffers at given l room =
    elim (Bool-cases (remaining == 0)) [
      | inl done ↦ rw done refl
      | inr some_left ↦
          let ne : remaining ≢ 0 = ground (arith, some_left) in
          let (some_read, few, fits, fewer) = to_read-cases remaining ne in
          let below : leb capacity current ≡ false = ground (arith, room, fewer) in
          let ih =
            fill-split fuel capacity (current + 1) (remaining - to_read remaining) buffers at given
              (omega (arith, l, some_read, fits)) (omega (arith, room, fewer)) in
          rw (some_left, below, given current, ih) refl
    ]

-- With less room it writes outside.
pub fill-overrun :
    (fuel capacity current remaining : ℕ) (buffers : ℕ → Option ℕ) (at : ℕ → ℕ)
    → ((i : ℕ) → buffers i ≡ some (at i))
    → remaining < fuel
    → current ≤ capacity
    → capacity < current + needed remaining
    → fill fuel capacity buffers current remaining ≡ overrun
unfolding fill fill_block behind
fill-overrun zero capacity current remaining buffers at given l low over = absurd (omega (arith, l))
fill-overrun (suc fuel) capacity current remaining buffers at given l low over =
    let ne : remaining ≢ 0 = λ e. omega (arith, e, low, over) in
    let some_left : (remaining == 0) ≡ false = ground (arith, ne) in
    let (some_read, few, fits, fewer) = to_read-cases remaining ne in
    elim (Bool-cases (leb capacity current)) [
      | inl full ↦ rw (some_left, full) refl
      | inr below ↦
          let ih =
            fill-overrun fuel capacity (current + 1) (remaining - to_read remaining) buffers at
              given (omega (arith, l, some_read, fits)) (ground (arith, below))
              (omega (arith, over, fewer)) in
          rw (some_left, below, given current, ih) refl
    ]

pub split-whole :
    (fuel remaining current : ℕ) (at : ℕ → ℕ)
    → remaining < fuel
    → let vs = split fuel at current remaining in
      (length vs ≡ needed remaining) × (bytes_of vs ≡ remaining) × All IsBlock vs
unfolding split bytes_of
split-whole zero remaining current at l = absurd (omega (arith, l))
split-whole (suc fuel) remaining current at l = elim (Bool-cases (remaining == 0)) [
  | inl done ↦ let e : remaining ≡ 0 = ground (arith, done) in rw done (omega (arith, e), sym e, tt)
  | inr some_left ↦
      let (some_read, few, fits, fewer) = to_read-cases remaining (ground (arith, some_left)) in
      let (count, sum, each) =
        split-whole fuel (remaining - to_read remaining) (current + 1) at
          (omega (arith, l, some_read, fits)) in
      rw some_left (omega (arith, count, fewer), omega (arith, sum, fits), ((some_read, few), each))
]

-- For a file below 2 GiB, with a buffer for each block, the loop of `submit_to_sq` fills exactly the array that was allocated: each
-- entry has a byte at least and a block at most, and together they have the bytes of the file.
pub fill_fits :
    (file_sz : ℕ) (buffers : ℕ → Option ℕ) (at : ℕ → ℕ)
    → file_sz < 2 ^ 31
    → ((i : ℕ) → buffers i ≡ some (at i))
    → (vs : List Iovec) × (fill (file_sz + 1) (rounds (blocks file_sz)) buffers 0 file_sz
        ≡ filled vs)
      × (blocks file_sz ≡ pos (length vs))
      × (bytes_of vs ≡ file_sz)
      × All IsBlock vs
fill_fits file_sz buffers at small given =
    let vs = split (file_sz + 1) at 0 file_sz in
    let (count, sum, each) = split-whole (file_sz + 1) file_sz 0 at (omega arith) in
    let same : file_sz % 2 ^ 32 ≡ file_sz = omega (arith, small) in
    let e : blocks file_sz ≡ pos (needed file_sz) =
      blocks-needed file_sz (omega (arith, small)) ∙ ap (λ n. pos (needed n)) same in
    (
      vs,
      rw e (
          fill-split (file_sz + 1) (needed file_sz) 0 file_sz buffers at given (omega arith)
            (omega arith)),
      e ∙ ap pos (sym count),
      sum,
      each,
    )

-- For a file of 4 GiB or more whose size has a remainder below 2 GiB by 4 GiB, with a buffer for each block, the loop writes outside the
-- array that was allocated.
pub fill_overruns :
    (file_sz : ℕ) (buffers : ℕ → Option ℕ) (at : ℕ → ℕ)
    → 2 ^ 32 ≤ file_sz
    → file_sz % 2 ^ 32 < 2 ^ 31
    → ((i : ℕ) → buffers i ≡ some (at i))
    → fill (file_sz + 1) (rounds (blocks file_sz)) buffers 0 file_sz ≡ overrun
fill_overruns file_sz buffers at large low given =
    let e = blocks-needed file_sz low in
    rw e (
      fill-overrun (file_sz + 1) (needed (file_sz % 2 ^ 32)) 0 file_sz buffers at given
        (omega arith) (omega arith) (omega (arith, large, low)))
