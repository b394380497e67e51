-- ===== src/HttpParser/Line.antt =====
-- `parse_line`: how far it goes, and that it does not look behind `read_index`.
use Prim.Native.Nat.{◌≤◌, ◌<◌}
use mathlib.Core.Path.{fun_ext}
use c_language_learnning.Base.{
  ℕ, zero, suc, ◌+◌, ◌-◌, ◌≡◌, ◌≢◌, refl, ap, ◌∙◌, false, List, [], ◌∷◌, ◌++◌, ◌&&◌, arith, length,
  ltb, ◌==◌, Bool-cases, inl, inr,
}
use c_language_learnning.HttpParser.{
  LineStatus, line_ok, line_bad, line_open, Buffer, put, parse_line, slice, fill,
}

-- The bytes that are looked at lie between the two indices, and a line takes at least one.
pub record Inside (n i : ℕ) (l : LineStatus × (Buffer × ℕ)) : Type 0 where
  pub low : i ≤ l.1.1
  pub high : l.1.1 ≤ i + n
  pub moves : l.0 ≡ line_ok → i < l.1.1

pub parse_line-Inside : (n : ℕ) (b : Buffer) (i : ℕ) → Inside n i (parse_line n b i)
unfolding parse_line
parse_line-Inside zero b i = record { low = omega arith; high = omega arith; moves = λ h. cc }
parse_line-Inside (suc n) b i =
    let ih = parse_line-Inside n b (i + 1) in
    record {
      low = ground (arith, ih.low);
      high = ground (arith, ih.high);
      moves = λ h. ground (arith, ih.moves);
    }

-- What a longer text gives, from what the text so far gave: a line or an error stays, and otherwise the
-- work goes on where it stopped, on the same buffer.
abbrev pub Resumes :
    ℕ → ℕ → ℕ → Buffer → LineStatus × (Buffer × ℕ) → LineStatus × (Buffer × ℕ) → Type 0
Resumes n m i b (line_ok, l) long = long ≡ (line_ok, l)
Resumes n m i b (line_bad, l) long = long ≡ (line_bad, l)
Resumes n m i b (line_open, l) long = (l.0 ≡ b) × (long ≡ parse_line (i + n - l.1 + m) b l.1)

Resumes-open :
    (n m i j : ℕ) (b : Buffer) (short long : LineStatus × (Buffer × ℕ))
    → short ≡ (line_open, (b, j))
    → long ≡ parse_line (i + n - j + m) b j
    → Resumes n m i b short long
Resumes-open n m i j b short long e h = rw e (refl, h)

Resumes-shift :
    (n m i : ℕ) (b : Buffer) (short long : LineStatus × (Buffer × ℕ))
    → Resumes n m (i + 1) b short long
    → Resumes (suc n) m i b short long
Resumes-shift n m i b (line_ok, l) long h = h
Resumes-shift n m i b (line_bad, l) long h = h
Resumes-shift n m i b (line_open, l) long h =
    let e : i + 1 + n ≡ i + suc n = omega arith in
    (h.0, h.1 ∙ ap (λ k. parse_line (k - l.1 + m) b l.1) e)

pub parse_line-Resumes :
    (n m : ℕ) (b : Buffer) (i : ℕ) → Resumes n m i b (parse_line n b i) (parse_line (n + m) b i)
unfolding parse_line
parse_line-Resumes zero m b i = (refl, ap (λ k. parse_line k b i) (omega arith))
parse_line-Resumes (suc n) m b i =
    let ih = parse_line-Resumes n m b (i + 1) in
    let e : suc n + m ≡ suc (n + m) = omega arith in
    rw e (elim (Bool-cases (b i == b'\r')) [
      | inl cr ↦ elim (Bool-cases (n == 0)) [
        | inl last ↦
            Resumes-open (suc n) m i i b (parse_line (suc n) b i) (parse_line (suc (n + m)) b i)
              (rw (cr, last) refl)
              (ap (λ k. parse_line k b i) {x = suc (n + m)} {y = i + suc n - i + m} (omega arith))
        | inr inner ↦
            let inner' : (n + m == 0) ≡ false = ground arith in
            elim (Bool-cases (b (i + 1) == b'\n')) [
              | inl lf ↦ rw (cr, inner, inner', lf) refl
              | inr other ↦ rw (cr, inner, inner', other) refl
            ]
      ]
      | inr plain ↦ elim (Bool-cases (b i == b'\n')) [
        | inl lf ↦ elim (Bool-cases (ltb 1 i && (b (i - 1) == b'\r'))) [
          | inl pair ↦ rw (plain, lf, pair) refl
          | inr lone ↦ rw (plain, lf, lone) refl
        ]
        | inr other ↦
            rw (plain, other)
              (Resumes-shift n m i b (parse_line n b (i + 1)) (parse_line (n + m) b (i + 1)) ih)
      ]
    ])

-- Bytes that recv puts behind what has been read.
pub fill-below : (b : Buffer) (r : ℕ) (cs : List ℕ) (j : ℕ) → j < r → fill b r cs j ≡ b j
unfolding fill
fill-below b r [] j h = refl
fill-below b r (c ∷ cs) j h = fill-below (put b r c) (r + 1) cs j (omega arith) ∙ ground arith

put_comm : (b : Buffer) (i j v w : ℕ) → i ≢ j → put (put b i v) j w ≡ put (put b j w) i v
put_comm b i j v w ne = fun_ext (λ k. ground arith)

pub fill-put :
    (b : Buffer) (r : ℕ) (cs : List ℕ) (i v : ℕ)
    → i < r
    → put (fill b r cs) i v ≡ fill (put b i v) r cs
unfolding fill
fill-put b r [] i v h = refl
fill-put b r (c ∷ cs) i v h =
    fill-put (put b r c) (r + 1) cs i v (omega arith)
    ∙ ap (λ a. fill a (r + 1) cs) (put_comm b r i c v (omega arith))

pub fill-append :
    (b : Buffer) (r : ℕ) (cs ds : List ℕ)
    → fill b r (cs ++ ds) ≡ fill (fill b r cs) (r + length cs) ds
unfolding fill
fill-append b r [] ds = ap (λ k. fill b k ds) (omega arith)
fill-append b r (c ∷ cs) ds =
    fill-append (put b r c) (r + 1) cs ds
    ∙ ap (λ k. fill (fill (put b r c) (r + 1) cs) k ds) (omega arith)

two_puts :
    (b : Buffer) (r : ℕ) (cs : List ℕ) (i j : ℕ)
    → i < r
    → j < r
    → put (put (fill b r cs) i 0) j 0 ≡ fill (put (put b i 0) j 0) r cs
two_puts b r cs i j hi hj =
    ap (λ a. put a j 0) (fill-put b r cs i 0 hi) ∙ fill-put (put b i 0) r cs j 0 hj

abbrev pub filled : ℕ → List ℕ → LineStatus × (Buffer × ℕ) → LineStatus × (Buffer × ℕ)
filled r cs l = (l.0, (fill l.1.0 r cs, l.1.1))

-- The bytes behind `read_index` play no part.
pub parse_line-filled :
    (n : ℕ) (b : Buffer) (i r : ℕ) (cs : List ℕ)
    → i + n ≤ r
    → parse_line n (fill b r cs) i ≡ filled r cs (parse_line n b i)
unfolding parse_line
parse_line-filled zero b i r cs h = refl
parse_line-filled (suc n) b i r cs h =
    let ih = parse_line-filled n b (i + 1) r cs (omega arith) in
    let here = fill-below b r cs i (omega arith) in
    let before = fill-below b r cs (i - 1) (omega arith) in
    elim (Bool-cases (b i == b'\r')) [
      | inl cr ↦ elim (Bool-cases (n == 0)) [
        | inl last ↦ rw (here, cr, last) refl
        | inr inner ↦
            let pair = two_puts b r cs i (i + 1) (omega arith) (ground arith) in
            let after = fill-below b r cs (i + 1) (ground arith) in
            elim (Bool-cases (b (i + 1) == b'\n')) [
              | inl lf ↦ rw (here, cr, inner, after, lf) (ap (λ a. (line_ok, (a, i + 2))) pair)
              | inr other ↦ rw (here, cr, inner, after, other) refl
            ]
      ]
      | inr plain ↦ elim (Bool-cases (b i == b'\n')) [
        | inl lf ↦
            let pair = two_puts b r cs (i - 1) i (omega arith) (omega arith) in
            elim (Bool-cases (ltb 1 i && (b (i - 1) == b'\r'))) [
              | inl both ↦ rw (here, before, plain, lf, both) (ap (λ a. (line_ok, (a, i + 1))) pair)
              | inr lone ↦ rw (here, before, plain, lf, lone) refl
            ]
        | inr other ↦ rw (here, plain, other) ih
      ]
    ]

-- So does the text of a line.
pub slice-fill :
    (b : Buffer) (i n r : ℕ) (cs : List ℕ) → i + n ≤ r → slice (fill b r cs) i n ≡ slice b i n
unfolding slice
slice-fill b i zero r cs h = refl
slice-fill b i (suc n) r cs h =
    rw (fill-below b r cs i (omega arith), slice-fill b (i + 1) n r cs (omega arith)) refl
