-- ===== src/UringCat/Files.antt =====
-- Files that are printed one after another.
use c_language_learnning.Base.{
  ◌≤◌, ℕ, ◌+◌, ◌%◌, ◌^◌, ◌≡◌, refl, sym, ap, ◌∙◌, true, some, List, [], ◌∷◌, ◌++◌, ◌==◌, arith,
  length, take, All,
}
use c_language_learnning.Base.Int.{pos, rounds}
use c_language_learnning.Base.Threads.{update}
use c_language_learnning.UringCat.{
  blocks, get_file_size, Iovec, FileInfo, filled, fill, Sqe, Submitter, Memory, next_index, push,
  output, print_cqe, reap, read_from_cq, Opened, allocate, ready, placed, with_info, with_size,
  with_file, prepare, Enter, unread, returned_0, entered, submit, submit_to_sq, proceed, print_then,
  cat,
}
use c_language_learnning.UringCat.Blocks.{
  needed, split, bytes_of, split-whole, fill-split, blocks-needed,
}
use c_language_learnning.UringCat.Prints.{
  last, complete, Serves, Idle, fd_of, Plain, split-Distinct, take-all, take-short, length-output,
  iov_max, Uncut, last-push, reap-one,
}

module _ {content : ℕ → List ℕ} {o : Opened} (p : Plain content o) where
  abbrev size : ℕ
  size = length (content (fd_of o))

  abbrev vecs : List Iovec
  vecs = split (size + 1) p.buffer 0 size

  abbrev entry : Sqe
  entry = record { fd = fd_of o; len = pos (length vecs); user_data = p.info }

  abbrev info_of : FileInfo
  info_of = record { file_sz = size; iovecs = vecs }

  blocks-Plain : blocks size ≡ pos (needed size)
  blocks-Plain =
      let h = p.small in
      let same : size % 2 ^ 32 ≡ size = omega (arith, h) in
      blocks-needed size (omega (arith, h)) ∙ ap (λ n. pos (needed n)) same

  length-vecs : length vecs ≡ needed size
  length-vecs = (split-whole (size + 1) size 0 p.buffer (omega arith)).0

  prepare-Plain : prepare o ≡ ready entry info_of
  unfolding prepare with_file with_size with_info get_file_size allocate placed
  prepare-Plain =
      let array_made : allocate o.malloc (blocks size) ≡ some p.info =
        ap (allocate o.malloc) blocks-Plain ∙ p.allocated (needed size) in
      let full : fill (size + 1) (rounds (blocks size)) o.posix_memalign 0 size ≡ filled vecs =
        ap (λ n. fill (size + 1) (rounds n) o.posix_memalign 0 size) blocks-Plain
        ∙ fill-split (size + 1) (needed size) 0 size o.posix_memalign p.buffer p.given (omega arith)
            (omega arith) in
      let len : blocks size ≡ pos (length vecs) = blocks-Plain ∙ ap pos (sym length-vecs) in
      ap (with_file o) p.opened
      ∙ ap (λ t. with_size o (fd_of o) (get_file_size t)) p.regular
      ∙ ap (with_info o (fd_of o) size) array_made
      ∙ ap (placed (fd_of o) size p.info) full
      ∙ ap (λ n. ready (record { fd = fd_of o; len = n; user_data = p.info }) info_of) len

  module _ {enter : Enter} (k : Serves enter content) (u : Uncut k) (s : Submitter) (m : Memory)
      (v : Idle s) where
    abbrev s1 : Submitter
    s1 = push entry s

    abbrev m1 : Memory
    m1 = record m { infos = update m.infos p.info info_of }

    abbrev m2 : Memory
    m2 = k.after s1 m1

    abbrev s2 : Submitter
    s2 = complete entry (k.res s1 m1) s1

    drained_push : s1.cq_head ≡ s1.cq_tail
    unfolding push
    drained_push = v.drained

    submitted : submit_to_sq enter o s m ≡ returned_0 s2 m2
    unfolding submit_to_sq submit entered
    submitted =
        let same : last s1 ≡ entry = last-push entry s v.sq_word in
        ap (λ r. submit enter r s m) prepare-Plain
        ∙ ap entered (k.enters s1 m1 drained_push)
        ∙ ap (λ e. returned_0 (complete e (k.res s1 m1) s1) m2) same

    info_there : m2.infos p.info ≡ info_of
    info_there =
        let here : (p.info == p.info) ≡ true = ground arith in
        ap (λ f. f p.info) (k.keeps s1 m1) ∙ rw here refl

    loaded : output m2.buffers vecs (length vecs) ≡ content (fd_of o)
    loaded =
        let same : last s1 ≡ entry = last-push entry s v.sq_word in
        let here : (p.info == p.info) ≡ true = ground arith in
        let at_info : (m1.infos (last s1).user_data).iovecs ≡ vecs =
          ap (λ e. (m1.infos e.user_data).iovecs) same ∙ rw here refl in
        let sum : bytes_of vecs ≡ size = (split-whole (size + 1) size 0 p.buffer (omega arith)).1 in
        let len : (last s1).len ≡ pos (length vecs) = ap (λ e. e.len) same in
        let fd : content (last s1).fd ≡ content (fd_of o) = ap (λ e. content e.fd) same in
        let few : length vecs ≤ iov_max = (let h = p.small in omega (arith, h, length-vecs)) in
        let there : bytes_of vecs ≤ length (content (last s1).fd) =
          (let e = ap length fd in omega (arith, sum, e)) in
        let all_read : k.res s1 m1 ≡ pos size =
          u.whole s1 m1 vecs at_info len few there ∙ ap pos sum in
        let whole : take size (output m2.buffers vecs (length vecs))
            ≡ output m2.buffers vecs (length vecs) =
          take-short size _ (let l = length-output m2.buffers vecs in omega (arith, l, sum)) in
        sym whole
        ∙ k.reads s1 m1 vecs size at_info len (split-Distinct (size + 1) 0 size p.buffer p.apart)
            all_read
        ∙ ap (take size) fd
        ∙ take-all (content (fd_of o))

    abbrev s3 : Submitter
    s3 = record s2 { cq_head = next_index s.cq_tail }

    one_unread : unread s2 ≡ 1
    unfolding push
    one_unread = let e = v.drained in let w = v.cq_word in omega (arith, e, w)

    printed_cqe : print_cqe m2 (s2.cqes (s.cq_tail % (s.cq_mask + 1))) ≡ content (fd_of o)
    unfolding print_cqe push
    printed_cqe =
        let here : (s.cq_tail % (s.cq_mask + 1) == s.cq_tail % (s.cq_mask + 1)) ≡ true =
          ground arith in
        let all : rounds (blocks size) ≡ length vecs = ap rounds blocks-Plain ∙ sym length-vecs in
        let at_info = info_there in
        let whole : output m2.buffers vecs (rounds (blocks size)) ≡ content (fd_of o) =
          ap (output m2.buffers vecs) all ∙ loaded in
        let at : s2.cqes (s.cq_tail % (s.cq_mask + 1))
            ≡ record { user_data = p.info; res = k.res s1 m1 } =
          rw here refl in
        ap (print_cqe m2) at
        ∙ ap (λ i. output m2.buffers i.iovecs (rounds (blocks i.file_sz))) at_info
        ∙ whole

    read_back : read_from_cq (unread s2 + 1) s2 m2 ≡ (content (fd_of o), s3)
    unfolding read_from_cq push
    read_back =
        let one = reap-one s2 m2 s.cq_tail v.cq_word refl in
        let head : reap (unread s2 + 1) s2 m2 s2.cq_head ≡ reap 2 s2 m2 s.cq_tail =
          ap (λ n. reap (n + 1) s2 m2 s.cq_head) one_unread ∙ ap (reap 2 s2 m2) v.drained in
        ap (λ r. (r.0, record s2 { cq_head = r.1 }))
          (head ∙ one ∙ ap (λ t. (t, next_index s.cq_tail)) printed_cqe)

    s3-Idle : Idle s3
    unfolding push
    s3-Idle = record { drained = refl; cq_word = omega arith; sq_word = omega arith }

unfoldable pub texts : (ℕ → List ℕ) → List Opened → List ℕ
texts content [] = []
texts content (o ∷ os) = content (fd_of o) ++ texts content os

-- With a kernel that does what is documented and cuts no read short, and with the rings empty at first: regular files of at most 1 MiB, as
-- much as the entries of one READV take, that can be opened, for which malloc and posix_memalign succeed, the latter with another buffer for
-- each block, are printed whole and one after another, and the program returns 0.
pub cat_prints :
    {enter : Enter} {content : ℕ → List ℕ} (k : Serves enter content) (u : Uncut k)
    (os : List Opened) (s : Submitter) (m : Memory)
    → All (Plain content) os
    → Idle s
    → cat enter os s m ≡ (texts content os, some 0)
unfolding cat texts proceed
cat_prints k u [] s m ps v = refl
cat_prints {enter} {content} k u (o ∷ os) s m (p, ps) v =
    let back = read_back p k u s m v in
    let rest = cat_prints k u os (s3 p k u s m v) (m2 p k u s m v) ps (s3-Idle p k u s m v) in
    ap
      (λ r. proceed r (λ s' m'.
        let r = read_from_cq (unread s' + 1) s' m' in print_then r.0 (cat enter os r.1 m')))
      (submitted p k u s m v)
    ∙ ap (λ r. print_then r.0 (cat enter os r.1 (m2 p k u s m v))) back
    ∙ ap (print_then (content (fd_of o))) rest
