-- ===== src/UringCat/Tests.antt =====
-- A kernel that does what it is documented to do, with two files.
use Prim.Native.Nat.{◌≤◌}
use c_language_learnning.Base.{
  ◌*◌, Bool-cases, inl, inr, sym, leb, ℕ, zero, suc, ◌+◌, ◌≡◌, ◌≢◌, refl, ap, ap₂, ◌∙◌, true, false,
  some, List, [], ◌∷◌, ◌++◌, ◌==◌, if◌then◌else◌, arith, length, take, drop, replicate, All, codes,
}
use c_language_learnning.Base.Int.{ℤ, pos, negsuc, rounds}
use c_language_learnning.Base.Threads.{update}
use c_language_learnning.UringCat.{
  block_sz, blocks, int32, divide, increment, reg, Iovec, overrun, filled, fill, Submitter, Memory,
  output, Opened, Enter, cat,
}
use c_language_learnning.UringCat.Blocks.{bytes_of, IsBlock, fill_fits, fill_overruns}
use c_language_learnning.UringCat.Prints.{
  last, complete, Distinct, Serves, Uncut, iov_max, Idle, fd_of, Plain,
}
use c_language_learnning.UringCat.Files.{texts, cat_prints}

unfoldable scatter : List Iovec → List ℕ → (ℕ → List ℕ) → ℕ → List ℕ
scatter [] bytes bufs = bufs
scatter (v ∷ vs) bytes bufs =
    scatter vs (drop v.iov_len bytes) (update bufs v.iov_base (take v.iov_len bytes))

scatter_other :
    (vs : List Iovec) (bytes : List ℕ) (bufs : ℕ → List ℕ) (b : ℕ)
    → All (λ w. w.iov_base ≢ b) vs
    → scatter vs bytes bufs b ≡ bufs b
unfolding scatter
scatter_other [] bytes bufs b others = refl
scatter_other (v ∷ vs) bytes bufs b (ne, others) =
    let miss : (b == v.iov_base) ≡ false = ground (arith, ne) in
    scatter_other vs (drop v.iov_len bytes) (update bufs v.iov_base (take v.iov_len bytes)) b others
    ∙ rw miss refl

take-take : (n : ℕ) (xs : List ℕ) → take n (take n xs) ≡ take n xs
take-take zero xs = refl
take-take (suc n) [] = refl
take-take (suc n) (x ∷ xs) = ap (λ r. x ∷ r) (take-take n xs)

take-add : (m n : ℕ) (xs : List ℕ) → take m xs ++ take n (drop m xs) ≡ take (m + n) xs
take-add zero n xs = ap (λ k. take k xs) (omega arith)
take-add (suc m) zero [] = let e : suc m + 0 ≡ suc m = omega arith in rw e refl
take-add (suc m) (suc n) [] = let e : suc m + suc n ≡ suc (m + suc n) = omega arith in rw e refl
take-add (suc m) n (x ∷ xs) =
    let e : suc m + n ≡ suc (m + n) = omega arith in rw e (ap (λ r. x ∷ r) (take-add m n xs))

output-scatter :
    (vs : List Iovec) (bytes : List ℕ) (bufs : ℕ → List ℕ)
    → Distinct vs
    → output (scatter vs bytes bufs) vs (length vs) ≡ take (bytes_of vs) bytes
unfolding scatter output bytes_of
output-scatter [] bytes bufs d = refl
output-scatter (v ∷ vs) bytes bufs (others, d) =
    let n = v.iov_len in
    let next : ℕ → List ℕ = update bufs v.iov_base (take n bytes) in
    let here : (v.iov_base == v.iov_base) ≡ true = ground arith in
    let at : next v.iov_base ≡ take n bytes = rw here refl in
    let own : scatter vs (drop n bytes) next v.iov_base ≡ take n bytes =
      scatter_other vs (drop n bytes) next v.iov_base others ∙ at in
    let mine : take n (scatter vs (drop n bytes) next v.iov_base) ≡ take n bytes =
      ap (take n) own ∙ take-take n bytes in
    let rest = output-scatter vs (drop n bytes) next d in
    ap₂ (λ a b. a ++ b) mine rest ∙ take-add n (bytes_of vs) bytes

abbrev content : ℕ → List ℕ
content fd = if fd == 3 then codes "io" else replicate 5 10

abbrev then_memory : Submitter → Memory → Memory
then_memory s m = record m {
  buffers = scatter (m.infos (last s).user_data).iovecs (content (last s).fd) m.buffers;
}

-- All the bytes, or EINVAL where there are more entries than READV takes.
abbrev res_of : List Iovec → ℤ
res_of vs = if leb (length vs) iov_max then pos (bytes_of vs) else negsuc 21

abbrev kernel : Enter
kernel s m =
    some (complete (last s) (res_of (m.infos (last s).user_data).iovecs) s, then_memory s m)

res_of-pos : (vs : List Iovec) (n : ℕ) → res_of vs ≡ pos n → bytes_of vs ≡ n
res_of-pos vs n e = elim (Bool-cases (leb (length vs) iov_max)) [
  | inl few ↦ let e' : pos (bytes_of vs) ≡ pos n = rw few at e in cc
  | inr many ↦ let e' : negsuc 21 ≡ pos n = rw many at e in cc
]

abbrev serves : Serves kernel content
serves = record {
  after = then_memory;
  res = λ s m. res_of (m.infos (last s).user_data).iovecs;
  enters = λ s m drained. refl;
  keeps = λ s m. refl;
  reads = λ s m vs n at len distinct e.
      let sum : bytes_of vs ≡ n = res_of-pos vs n (ap res_of (sym at) ∙ e) in
      let loaded =
        ap (λ us. output (scatter us (content (last s).fd) m.buffers) vs (length vs)) at
        ∙ output-scatter vs (content (last s).fd) m.buffers distinct
        ∙ ap (λ t. take t (content (last s).fd)) sum in
      ap (take n) loaded ∙ take-take n (content (last s).fd);
}

uncut : Uncut serves
uncut = record {
  whole = λ s m vs at len few there.
      let small : leb (length vs) iov_max ≡ true = ground (arith, few) in
      ap res_of at ∙ rw small refl;
}

abbrev file : ℕ → ℕ → Opened
file fd size = record {
  file_fd = some fd;
  stat = reg size;
  malloc = λ n. some 50;
  posix_memalign = λ i. some (1000 + i);
}

file-Plain :
    (fd : ℕ)
    → length (content fd) ≤ iov_max * block_sz
    → Plain content (file fd (length (content fd)))
unfolding fd_of
file-Plain fd small = record {
  opened = refl;
  regular = refl;
  small = small;
  info = 50;
  allocated = λ n. refl;
  buffer = λ i. 1000 + i;
  given = λ i. refl;
  apart = λ i j l. omega (arith, l);
}

abbrev fresh : Submitter
fresh = record {
  sq_tail = 0;
  sq_mask = 0;
  array = λ i. 0;
  sqes = λ i. record { fd = 0; len = pos 0; user_data = 0 };
  cq_head = 0;
  cq_tail = 0;
  cq_mask = 1;
  cqes = λ i. record { user_data = 0; res = pos 0 };
}

abbrev memory : Memory
memory = record { buffers = λ i. []; infos = λ i. record { file_sz = 0; iovecs = [] } }

fresh-Idle : Idle fresh
fresh-Idle = record { drained = refl; cq_word = omega arith; sq_word = omega arith }

cat_prints_example :
    cat kernel (file 3 2 ∷ file 4 5 ∷ []) fresh memory
    ≡ (texts content (file 3 2 ∷ file 4 5 ∷ []), some 0)
cat_prints_example =
    cat_prints serves uncut (file 3 2 ∷ file 4 5 ∷ []) fresh memory
      (file-Plain 3 (omega arith), (file-Plain 4 (omega arith), tt)) fresh-Idle

fill_fits_example :
    (vs : List Iovec) × (fill (2500 + 1) (rounds (blocks 2500)) (λ i. some i) 0 2500 ≡ filled vs)
    × (blocks 2500 ≡ pos (length vs))
    × (bytes_of vs ≡ 2500)
    × All IsBlock vs
fill_fits_example = fill_fits 2500 (λ i. some i) (λ i. i) (omega arith) (λ i. refl)

fill_overruns_example :
    fill (4294968320 + 1) (rounds (blocks 4294968320)) (λ i. some i) 0 4294968320 ≡ overrun
fill_overruns_example =
    fill_overruns 4294968320 (λ i. some i) (λ i. i) (omega arith) (omega arith) (λ i. refl)

-- A file of 3 GiB has a negative number of blocks.
negative_run : blocks 3221225472 ≡ negsuc 1048575
unfolding blocks int32 divide increment
negative_run = refl
