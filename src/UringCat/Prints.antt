-- ===== src/UringCat/Prints.antt =====
-- One file on its way through the rings.
use Prim.Native.Nat.{◌<◌}
use c_language_learnning.Base.{
  length-append, ◌*◌, ◌≤◌, ℕ, zero, suc, ◌+◌, ◌-◌, ◌%◌, ◌^◌, ◌≡◌, ◌≢◌, refl, ap, true, false, none,
  some, List, [], ◌∷◌, ◌==◌, arith, length, take, All, append-nil, Bool-cases, inl, inr,
}
use c_language_learnning.Base.Int.{ℤ, pos}
use c_language_learnning.Base.Threads.{update}
use c_language_learnning.UringCat.{
  block_sz, reg, Iovec, to_read, Sqe, Submitter, Memory, next_index, push, output, print_cqe, reap,
  Opened, Enter,
}
use c_language_learnning.UringCat.Blocks.{split, bytes_of}

-- The entry behind which the tail of the submission queue stands.
abbrev pub last : Submitter → Sqe
last s = s.sqes (s.array ((s.sq_tail + 2 ^ 32 - 1) % 2 ^ 32 % (s.sq_mask + 1)))

-- The rings once the kernel has completed an entry.
abbrev pub complete : Sqe → ℤ → Submitter → Submitter
complete e res s = record s {
  cqes =
      update s.cqes (s.cq_tail % (s.cq_mask + 1)) (record { user_data = e.user_data; res = res });
  cq_tail = next_index s.cq_tail;
}

abbrev pub Distinct : List Iovec → Type 0
Distinct [] = Unit
Distinct (v ∷ vs) = All (λ w. w.iov_base ≢ v.iov_base) vs × Distinct vs

-- The number of entries that one READV takes at most.
abbrev pub iov_max : ℕ
iov_max = 1024

-- What `io_uring_enter` with one entry to submit and one completion to wait for is documented to do: it completes the entry. A result
-- that is not negative is a number of bytes: so many bytes of the file are spread over the buffers in order. It may be any number, or an
-- error.
pub record Serves (enter : Enter) (content : ℕ → List ℕ) : Type 0 where
  pub after : Submitter → Memory → Memory
  pub res : Submitter → Memory → ℤ
  pub enters :
      (s : Submitter) (m : Memory)
      → s.cq_head ≡ s.cq_tail
      → enter s m ≡ some (complete (last s) (res s m) s, after s m)
  pub keeps : (s : Submitter) (m : Memory) → (after s m).infos ≡ m.infos
  pub reads :
      (s : Submitter) (m : Memory) (vs : List Iovec) (n : ℕ)
      → (m.infos (last s).user_data).iovecs ≡ vs
      → (last s).len ≡ pos (length vs)
      → Distinct vs
      → res s m ≡ pos n
      → take n (output (after s m).buffers vs (length vs)) ≡ take n (content (last s).fd)

-- That no read is cut short: one with entries that READV takes, for bytes that the file has, gets them all.
pub record Uncut {enter : Enter} {content : ℕ → List ℕ} (k : Serves enter content) : Type 0 where
  pub whole :
      (s : Submitter) (m : Memory) (vs : List Iovec)
      → (m.infos (last s).user_data).iovecs ≡ vs
      → (last s).len ≡ pos (length vs)
      → length vs ≤ iov_max
      → bytes_of vs ≤ length (content (last s).fd)
      → k.res s m ≡ pos (bytes_of vs)

-- Both rings are empty, their indices unsigned numbers of 32 bits.
pub record Idle (s : Submitter) : Type 0 where
  pub drained : s.cq_head ≡ s.cq_tail
  pub cq_word : s.cq_tail < 2 ^ 32
  pub sq_word : s.sq_tail < 2 ^ 32

unfoldable pub fd_of : Opened → ℕ
fd_of o = elim o.file_fd [ none ↦ 0 | some fd ↦ fd ]

-- A regular file of at most 1 MiB, as much as fits the entries of one READV, that was opened, with memory for it.
pub record Plain (content : ℕ → List ℕ) (o : Opened) : Type 0 where
  pub opened : o.file_fd ≡ some (fd_of o)
  pub regular : o.stat ≡ reg (length (content (fd_of o)))
  pub small : length (content (fd_of o)) ≤ iov_max * block_sz
  pub info : ℕ
  pub allocated : (n : ℕ) → o.malloc n ≡ some info
  pub buffer : ℕ → ℕ
  pub given : (i : ℕ) → o.posix_memalign i ≡ some (buffer i)
  pub apart : (i j : ℕ) → i < j → buffer j ≢ buffer i

split-All :
    (fuel i current remaining : ℕ) (at : ℕ → ℕ)
    → ((i j : ℕ) → i < j → at j ≢ at i)
    → i < current
    → All (λ w. w.iov_base ≢ at i) (split fuel at current remaining)
unfolding split
split-All zero i current remaining at apart l = tt
split-All (suc fuel) i current remaining at apart l = elim (Bool-cases (remaining == 0)) [
  | inl done ↦ rw done tt
  | inr some_left ↦
      let ih =
        split-All fuel i (current + 1) (remaining - to_read remaining) at apart
          (omega (arith, l)) in
      rw some_left (apart i current l, ih)
]

pub split-Distinct :
    (fuel current remaining : ℕ) (at : ℕ → ℕ)
    → ((i j : ℕ) → i < j → at j ≢ at i)
    → Distinct (split fuel at current remaining)
unfolding split
split-Distinct zero current remaining at apart = tt
split-Distinct (suc fuel) current remaining at apart = elim (Bool-cases (remaining == 0)) [
  | inl done ↦ rw done tt
  | inr some_left ↦
      let others =
        split-All fuel current (current + 1) (remaining - to_read remaining) at apart
          (omega arith) in
      let ih = split-Distinct fuel (current + 1) (remaining - to_read remaining) at apart in
      rw some_left (others, ih)
]

pub take-all : (xs : List ℕ) → take (length xs) xs ≡ xs
take-all [] = refl
take-all (x ∷ xs) = ap (λ r. x ∷ r) (take-all xs)

length-take : (n : ℕ) (xs : List ℕ) → length (take n xs) ≤ n
length-take zero xs = omega arith
length-take (suc n) [] = omega arith
length-take (suc n) (x ∷ xs) = let ih = length-take n xs in omega (arith, ih)

pub length-output :
    (bufs : ℕ → List ℕ) (vs : List Iovec) → length (output bufs vs (length vs)) ≤ bytes_of vs
unfolding output bytes_of
length-output bufs [] = omega arith
length-output bufs (v ∷ vs) =
    let ih = length-output bufs vs in
    let own = length-take v.iov_len (bufs v.iov_base) in
    let both = length-append (take v.iov_len (bufs v.iov_base)) (output bufs vs (length vs)) in
    omega (arith, ih, own, both)

pub take-short : (n : ℕ) (xs : List ℕ) → length xs ≤ n → take n xs ≡ xs
take-short zero [] l = refl
take-short zero (x ∷ xs) l = absurd (omega (arith, l))
take-short (suc n) [] l = refl
take-short (suc n) (x ∷ xs) l = ap (λ r. x ∷ r) (take-short n xs (omega (arith, l)))

pub last-push : (q : Sqe) (s : Submitter) → s.sq_tail < 2 ^ 32 → last (push q s) ≡ q
unfolding push
last-push q s l =
    let back : (next_index s.sq_tail + 2 ^ 32 - 1) % 2 ^ 32 ≡ s.sq_tail = omega (arith, l) in
    let here : (s.sq_tail % (s.sq_mask + 1) == s.sq_tail % (s.sq_mask + 1)) ≡ true = ground arith in
    rw (back, here, here) refl

pub reap-one :
    (s : Submitter) (m : Memory) (head : ℕ)
    → head < 2 ^ 32
    → s.cq_tail ≡ next_index head
    → reap 2 s m head ≡ (print_cqe m (s.cqes (head % (s.cq_mask + 1))), next_index head)
unfolding reap
reap-one s m head l e =
    let more : (head == s.cq_tail) ≡ false = ground (arith, l, e) in
    let done : (next_index head == s.cq_tail) ≡ true = ground (arith, e) in
    rw (more, done) (ap (λ r. (r, next_index head)) (append-nil _))
