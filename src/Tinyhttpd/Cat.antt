-- ===== src/Tinyhttpd/Cat.antt =====
-- `cat` of network-programming/http/tinyhttpd/httpd.c, and what it sends of a file.
use c_language_learnning.Base.{
  ℕ, zero, suc, ◌≤◌, ◌<◌, ◌≡◌, ◌⊎◌, refl, ap, ◌∙◌, sym, Option, none, some, Bool, true, false, List,
  [], ◌∷◌, ◌++◌, length, length-append, append_assoc, append-nil, All-append, arith, ◌==◌,
  if◌then◌else◌, c_str, c_str-id, All, Bool-cases, inl, inr,
}
use c_language_learnning.Effects.{Event, output}
use c_language_learnning.Line.Normal.{ends_lf}

-- What `fgets` puts into a buffer with room for `room` bytes: the bytes up to a '\n', to the end of
-- the file, or as many as fit. `eof` is set where it has tried to read behind the end.
pub record Fgets : Type 0 where
  pub line : List ℕ
  pub rest : List ℕ
  pub eof : Bool

pub fgets : ℕ → List ℕ → Fgets
fgets zero file = record { line = []; rest = file; eof = false }
fgets (suc room) [] = record { line = []; rest = []; eof = true }
fgets (suc room) (c ∷ file) =
    let more = fgets room file in
    if c == b'\n'
    then record { line = c ∷ []; rest = file; eof = false }
    else record { line = c ∷ more.line; rest = more.rest; eof = more.eof }

-- fgets; while (!feof) { send; fgets; }, with `strlen` for the length. `none`: out of fuel.
cat_loop : ℕ → ℕ → List ℕ → Option (List Event)
cat_loop zero client file = none
cat_loop (suc fuel) client file = elim ((fgets 1023 file).eof) [
  | true ↦ some []
  | false ↦ elim (cat_loop fuel client (fgets 1023 file).rest) [
    | none ↦ none
    | some es ↦ some (Event.send client (c_str (fgets 1023 file).line) ∷ es)
  ]
]

-- A round that sends has read a byte, so the length of the file and one more rounds are enough.
pub cat : ℕ → List ℕ → Option (List Event)
unfolding cat_loop
cat client file = cat_loop (suc (length file)) client file

abbrev pub NoLf : ℕ → Type 0
NoLf c = (c == b'\n') ≡ false

-- No '\n' but as the last byte.
abbrev pub IsOneLine : List ℕ → Type 0
IsOneLine [] = Unit
IsOneLine (c ∷ []) = Unit
IsOneLine (c ∷ d ∷ l) = NoLf c × IsOneLine (d ∷ l)

-- A line that `fgets` ends with: it has its '\n', or it fills `room` bytes.
pub record IsFull (room : ℕ) (l : List ℕ) : Type 0 where
  pub one : IsOneLine l
  pub fits : length l ≤ room
  pub why : (ends_lf l ≡ true) ⊎ (length l ≡ room)

IsFull-cons : (room c : ℕ) (l : List ℕ) → NoLf c → IsFull room l → IsFull (suc room) (c ∷ l)
IsFull-cons room c [] n f = record { one = tt; fits = omega arith; why = f-why f.why }
  where
    f-why : (false ≡ true) ⊎ (0 ≡ room) → (ends_lf (c ∷ []) ≡ true) ⊎ (1 ≡ suc room)
    f-why (inl e) = cc
    f-why (inr e) = inr (ap suc e)
IsFull-cons room c (d ∷ l) n f =
    let size = f.fits in
    record {
      one = (n, f.one);
      fits = omega (arith, size);
      why = elim f.why [ inl e ↦ inl e | inr e ↦ inr (ap suc e) ];
    }

-- What one `fgets` has read.
record Read (room : ℕ) (file : List ℕ) (r : Fgets) : Type 0 where
  split : r.line ++ r.rest ≡ file
  at_end : r.eof ≡ true → (r.rest ≡ []) × All NoLf r.line × (length r.line < room)
  progress : r.eof ≡ false → 0 < room → 0 < length r.line
  full : r.eof ≡ false → IsFull room r.line

fgets-Read : (room : ℕ) (file : List ℕ) → Read room file (fgets room file)
unfolding fgets
fgets-Read zero file = record {
  split = refl;
  at_end = λ e. cc;
  progress = λ e h. absurd (omega arith);
  full = λ e. record { one = tt; fits = omega arith; why = inr refl };
}
fgets-Read (suc room) [] = record {
  split = refl;
  at_end = λ e. (refl, tt, omega arith);
  progress = λ e h. cc;
  full = λ e. cc;
}
fgets-Read (suc room) (c ∷ file) =
    let ih = fgets-Read room file in
    elim (Bool-cases (c == b'\n')) [
      | inl lf ↦ rw lf (record {
        split = refl;
        at_end = λ e. cc;
        progress = λ e h. omega arith;
        full = λ e. record { one = tt; fits = omega arith; why = inl lf };
      })
      | inr other ↦ rw other (record {
        split = ap (λ s. c ∷ s) ih.split;
        at_end = λ e. let (a, b, d) = ih.at_end e in (a, (other, b), omega arith);
        progress = λ e h. omega arith;
        full = λ e. IsFull-cons room c (fgets room file).line other (ih.full e);
      })
    ]

All-split {ℓ} :
    {A : Type ℓ} (P : A → Type 0) (xs ys : List A) → All P (xs ++ ys) → All P xs × All P ys
All-split P [] ys h = (tt, h)
All-split P (x ∷ xs) ys h = let (a, b) = All-split P xs ys h.1 in ((h.0, a), b)

-- A `send` of a line to the client.
pub record SendsFull (client : ℕ) (e : Event) : Type 0 where
  pub line : List ℕ
  pub event : e ≡ Event.send client line
  pub full : IsFull 1023 line

-- What `cat` has sent, and the end of the file that it has not.
pub record Copied (client : ℕ) (file : List ℕ) (r : Option (List Event)) : Type 0 where
  pub es : List Event
  pub tail : List ℕ
  pub run : r ≡ some es
  pub sent : All (SendsFull client) es
  pub split : output es ++ tail ≡ file
  pub partial : All NoLf tail
  pub short : length tail < 1023

cat_loop-Copied :
    (fuel client : ℕ) (file : List ℕ)
    → All (λ c. 0 < c) file
    → length file < fuel
    → Copied client file (cat_loop fuel client file)
unfolding cat_loop
cat_loop-Copied zero client file h f = absurd (omega arith)
cat_loop-Copied (suc fuel) client file h f =
    let r = fgets-Read 1023 file in
    let line = (fgets 1023 file).line in
    let rest = (fgets 1023 file).rest in
    let (pos, pos') = All-split (λ c. 0 < c) line rest (rw r.split h) in
    elim (Bool-cases (fgets 1023 file).eof) [
      | inl end ↦
          let (none_left, no_lf, short) = r.at_end end in
          rw (end, cat_loop)
            (record {
              es = [];
              tail = line;
              run = refl;
              sent = tt;
              split = sym (append-nil line) ∙ (ap (λ t. line ++ t) (sym none_left) ∙ r.split);
              partial = no_lf;
              short = short;
            })
      | inr more ↦
          let ih = cat_loop-Copied fuel client rest pos' (
            omega
              (arith, r.progress more (omega arith), length-append line rest, ap length r.split)) in
          rw (more, cat_loop)
            (record {
              es = Event.send client (c_str line) ∷ ih.es;
              tail = ih.tail;
              run = rw ih.run;
              sent = (
                record {
                  line = c_str line;
                  event = refl;
                  full = rw (c_str-id line pos) (r.full more);
                },
                ih.sent,
              );
              split = rw (c_str-id line pos, append_assoc) (ap (λ t. line ++ t) ih.split ∙ r.split);
              partial = ih.partial;
              short = ih.short;
            })
    ]

-- `cat` comes to an end for every file without zero bytes. It sends the file to the client line by line: each
-- `send` has one line with its '\n', or 1023 bytes of a longer one. What is left of the file behind these, fewer
-- than 1023 bytes with no '\n', is not sent.
pub cat-Copied :
    (client : ℕ) (file : List ℕ) → All (λ c. 0 < c) file → Copied client file (cat client file)
unfolding cat
cat-Copied client file h = cat_loop-Copied (suc (length file)) client file h (omega arith)

cat_loop_returns :
    (fuel client : ℕ) (file : List ℕ)
    → length file < fuel
    → (es : List Event) × (cat_loop fuel client file ≡ some es)
unfolding cat_loop
cat_loop_returns zero client file f = absurd (omega arith)
cat_loop_returns (suc fuel) client file f =
    let r = fgets-Read 1023 file in
    let line = (fgets 1023 file).line in
    let rest = (fgets 1023 file).rest in
    elim (Bool-cases (fgets 1023 file).eof) [
      | inl end ↦ rw (end, cat_loop) ([], refl)
      | inr more ↦
          let (es, e) = cat_loop_returns fuel client rest (
            omega
              (arith, r.progress more (omega arith), length-append line rest, ap length r.split)) in
          rw (more, e, cat_loop) (Event.send client (c_str line) ∷ es, refl)
    ]

-- `cat` comes to an end for every file.
pub cat_returns : (client : ℕ) (file : List ℕ) → (es : List Event) × (cat client file ≡ some es)
unfolding cat
cat_returns client file = cat_loop_returns (suc (length file)) client file (omega arith)

ends_lf-append : (a : List ℕ) (x : ℕ) (t : List ℕ) → ends_lf (a ++ (x ∷ t)) ≡ ends_lf (x ∷ t)
ends_lf-append [] x t = refl
ends_lf-append (y ∷ []) x t = refl
ends_lf-append (y ∷ z ∷ a) x t = ends_lf-append (z ∷ a) x t

not-ends_lf : (t : List ℕ) → All NoLf t → ends_lf t ≡ false
not-ends_lf [] h = refl
not-ends_lf (c ∷ []) h = h.0
not-ends_lf (c ∷ d ∷ t) h = not-ends_lf (d ∷ t) h.1

nothing_left :
    (a t lines : List ℕ) → a ++ t ≡ lines ++ (b'\n' ∷ []) → All NoLf t → a ≡ lines ++ (b'\n' ∷ [])
nothing_left a [] lines e h = sym (append-nil a) ∙ e
nothing_left a (x ∷ t) lines e h =
    cc (ends_lf-append a x t, not-ends_lf (x ∷ t) h, ends_lf-append lines b'\n' [], ap ends_lf e)

-- A file without zero bytes whose last byte is a '\n' is sent whole.
pub output-cat :
    (client : ℕ) (lines : List ℕ)
    → All (λ c. 0 < c) lines
    → (es : List Event) × (cat client (lines ++ (b'\n' ∷ [])) ≡ some es)
      × (output es ≡ lines ++ (b'\n' ∷ []))
output-cat client lines h =
    let file = lines ++ (b'\n' ∷ []) in
    let c = cat-Copied client file (All-append (λ c. 0 < c) lines (b'\n' ∷ []) h (omega arith)) in
    (c.es, c.run, nothing_left (output c.es) c.tail lines c.split c.partial)
