-- ===== src/HttpParser/Wire.antt =====
-- `parse_line` and a round of `parse_content` at a line that is all there.
use Prim.Native.Nat.{◌≤◌, ◌<◌}
use mathlib.Core.Path.{subst}
use c_language_learnning.Base.{
  ℕ, zero, suc, ◌+◌, ◌-◌, ◌≡◌, refl, ap, ◌∙◌, true, false, List, [], ◌∷◌, ◌++◌, arith, length, All,
  ◌==◌, c_str,
}
use c_language_learnning.Line.Exact.{Inner, wire}
use c_language_learnning.HttpParser.{
  LineStatus, line_ok, CheckState, Buffer, put, parse_line, slice, fill, State, parse_step,
  return_or, parse_found, parse_lines,
}
use c_language_learnning.HttpParser.Line.{fill-below}

-- The bytes of a text stand in the buffer from `i` on.
abbrev pub Stands : Buffer → ℕ → List ℕ → Type 0
Stands b i [] = Unit
Stands b i (c ∷ cs) = (b i ≡ c) × Stands b (i + 1) cs

pub fill-Stands : (b : Buffer) (i : ℕ) (cs : List ℕ) → Stands (fill b i cs) i cs
unfolding fill
fill-Stands b i [] = tt
fill-Stands b i (c ∷ cs) = (
  fill-below (put b i c) (i + 1) cs i (omega arith) ∙ ground arith,
  fill-Stands (put b i c) (i + 1) cs,
)

pub Stands-put :
    (b : Buffer) (i j v : ℕ) (cs : List ℕ) → j < i → Stands b i cs → Stands (put b j v) i cs
Stands-put b i j v [] h s = tt
Stands-put b i j v (c ∷ cs) h s = (ground arith, Stands-put b (i + 1) j v cs (omega arith) s.1)

-- What `parse_line` gives for a line that ends at `j`: zeros over its "\r\n".
abbrev pub found : Buffer → ℕ → LineStatus × (Buffer × ℕ)
found b j = (line_ok, (put (put b j 0) (j + 1) 0, j + 2))

parse_line-wire :
    (n : ℕ) (b : Buffer) (i j : ℕ) (line rest : List ℕ)
    → Stands b i (wire line rest)
    → All Inner line
    → length line + 2 ≤ n
    → j ≡ i + length line
    → parse_line n b i ≡ found b j
unfolding parse_line
parse_line-wire zero b i j line rest s h f e = absurd (omega arith)
parse_line-wire (suc n) b i j [] rest s h f e =
    let cr : (b i == b'\r') ≡ true = ground (arith, s.0) in
    let inner : (n == 0) ≡ false = ground arith in
    let lf : (b (i + 1) == b'\n') ≡ true = ground (arith, s.1.0) in
    let here : i ≡ j = omega (arith, e) in rw (cr, inner, lf) (ap (found b) here)
parse_line-wire (suc n) b i j (c ∷ line) rest s h f e =
    let cr : (b i == b'\r') ≡ false = ground (arith, s.0, h.0.0) in
    let lf : (b i == b'\n') ≡ false = ground (arith, s.0, h.0.1) in
    rw (cr, lf) (parse_line-wire n b (i + 1) j line rest s.1 h.1 (omega arith) (omega (arith, e)))

slice-line :
    (b : Buffer) (i j : ℕ) (line rest : List ℕ)
    → Stands b i (wire line rest)
    → j ≡ i + length line
    → slice (found b j).1.0 i (length line + 2) ≡ line ++ (0 ∷ 0 ∷ [])
unfolding slice
slice-line b i j [] rest s e =
    let first : put (put b j 0) (j + 1) 0 i ≡ 0 = ground (arith, e) in
    let second : put (put b j 0) (j + 1) 0 (i + 1) ≡ 0 = ground (arith, e) in
    rw (first, second) refl
slice-line b i j (c ∷ line) rest s e =
    let size : suc (length line) + 2 ≡ suc (length line + 2) = omega arith in
    let first : put (put b j 0) (j + 1) 0 i ≡ c = ground (arith, e, s.0) in
    rw (size, first) (ap (λ l. c ∷ l) (slice-line b (i + 1) j line rest s.1 (omega (arith, e))))

pub Stands-behind :
    (b : Buffer) (i j : ℕ) (line rest : List ℕ)
    → Stands b i (wire line rest)
    → j ≡ i + length line
    → Stands b (j + 2) rest
Stands-behind b i j [] rest s e =
    let here : i + 1 + 1 ≡ j + 2 = omega (arith, e) in subst (λ k. Stands b k rest) here s.1.1
Stands-behind b i j (c ∷ line) rest s e = Stands-behind b (i + 1) j line rest s.1 (omega (arith, e))

-- At the beginning of a line.
abbrev pub at_line : Buffer → ℕ → CheckState → State
at_line b i state = record { buffer = b; checked_index = i; start_line = i; checkstate = state }

-- One round of `parse_content` at a line that is all there.
pub parse_lines-wire :
    (fuel r : ℕ) (b : Buffer) (i j : ℕ) (state : CheckState) (line rest : List ℕ)
    → Stands b i (wire line rest)
    → All Inner line
    → j ≡ i + length line
    → j + 2 ≤ r
    → parse_lines (suc fuel) r (at_line b i state) ≡ (
        let step = parse_step state (c_str (line ++ (0 ∷ 0 ∷ []))) in
        return_or step.0
          (at_line (found b j).1.0 (j + 2) step.1)
          (parse_lines fuel r (at_line (found b j).1.0 (j + 2) step.1)))
unfolding parse_lines parse_found
parse_lines-wire fuel r b i j state line rest s h e room =
    let size : j + 2 - i ≡ length line + 2 = omega (arith, e) in
    rw
      (
        parse_line-wire (r - i) b i j line rest s h (omega (arith, e)) e,
        size,
        slice-line b i j line rest s e,
      )
      refl
