-- ===== src/UringCat.antt =====
-- liburing-learnning/use-io_uring-cat.c: files printed through the two rings that the program shares with the kernel.
-- The kernel, `malloc` and `posix_memalign` are given. A buffer is an object with its bytes, and a mask, one less than a power of two,
-- is applied as a remainder.
pub mod Blocks
pub mod Prints
pub mod Files
mod Tests
use c_language_learnning.Base.{
  ℕ, zero, suc, ◌+◌, ◌-◌, ◌*◌, ◌/◌, ◌%◌, ◌^◌, Bool, true, false, Option, none, some, List, [], ◌∷◌,
  ◌++◌, ltb, leb, ◌==◌, if◌then◌else◌, take, get_elem?, length,
}
use c_language_learnning.Base.Int.{ℤ, pos, negsuc, neg, rounds}
use c_language_learnning.Base.Threads.{update}

abbrev pub block_sz : ℕ
block_sz = 1024

-- The conversion of an `off_t` to `int`.
unfoldable pub int32 : ℕ → ℤ
int32 n = if ltb (n % 2 ^ 32) (2 ^ 31) then pos (n % 2 ^ 32) else neg (2 ^ 32 - n % 2 ^ 32)

-- Division of an `int` by a positive number cuts towards 0.
unfoldable pub divide : ℤ → ℕ → ℤ
divide (pos n) d = pos (n / d)
divide (negsuc n) d = neg (suc n / d)

unfoldable pub increment : ℤ → ℤ
increment (pos n) = pos (n + 1)
increment (negsuc n) = neg n

-- The number of blocks of a file, as an `int`.
unfoldable pub blocks : ℕ → ℤ
blocks file_sz =
    let b = divide (int32 file_sz) block_sz in if file_sz % block_sz == 0 then b else increment b

-- What `fstat` finds: nothing, a block device with what `ioctl` answers, a regular file, or something else.
pub data Stat : Type 0 where
  no_stat other : Stat
  blk : Option ℕ → Stat
  reg : ℕ → Stat

-- `none` stands for -1.
unfoldable pub get_file_size : Stat → Option ℕ
get_file_size no_stat = none
get_file_size other = none
get_file_size (blk answer) = answer
get_file_size (reg st_size) = some st_size

pub record Iovec : Type 0 where
  pub iov_base : ℕ
  pub iov_len : ℕ

-- `file_info`, with the entries of `iovecs` that were written.
pub record FileInfo : Type 0 where
  pub file_sz : ℕ
  pub iovecs : List Iovec

-- What the loop over the blocks ends with: `posix_memalign` fails, it writes outside the array, or the array is filled.
pub data Filled : Type 0 where
  no_buffer overrun : Filled
  filled : List Iovec → Filled

unfoldable pub behind : Iovec → Filled → Filled
behind v no_buffer = no_buffer
behind v overrun = overrun
behind v (filled vs) = filled (v ∷ vs)

-- A round: the entry `current` of an array of `capacity`, with the buffer that posix_memalign gives.
unfoldable pub fill_block : ℕ → ℕ → Option ℕ → ℕ → Filled → Filled
fill_block capacity current buffer bytes_to_read rest =
    if leb capacity current then overrun else elim buffer [
      | none ↦ no_buffer
      | some buf ↦ behind (record { iov_base = buf; iov_len = bytes_to_read }) rest
    ]

abbrev pub to_read : ℕ → ℕ
to_read bytes_remaining = if ltb block_sz bytes_remaining then block_sz else bytes_remaining

-- The loop over the blocks; the first number bounds its rounds.
unfoldable pub fill : ℕ → ℕ → (ℕ → Option ℕ) → ℕ → ℕ → Filled
fill zero capacity buffers current bytes_remaining = filled []
fill (suc fuel) capacity buffers current bytes_remaining =
    let n = to_read bytes_remaining in
    let rest = fill fuel capacity buffers (current + 1) (bytes_remaining - n) in
    if bytes_remaining == 0 then filled [] else fill_block capacity current (buffers current) n rest

-- One entry of the submission queue; its operation is READV, its `len` the number of blocks and its `addr` the entries
-- of the `file_info` at `user_data`.
pub record Sqe : Type 0 where
  pub fd : ℕ
  pub len : ℤ
  pub user_data : ℕ

pub record Cqe : Type 0 where
  pub user_data : ℕ
  pub res : ℤ

-- `submitter`: what it points to in the two rings.
pub record Submitter : Type 0 where
  pub sq_tail : ℕ
  pub sq_mask : ℕ
  pub array : ℕ → ℕ
  pub sqes : ℕ → Sqe
  pub cq_head : ℕ
  pub cq_tail : ℕ
  pub cq_mask : ℕ
  pub cqes : ℕ → Cqe

-- The bytes of each buffer, and each `file_info`.
pub record Memory : Type 0 where
  pub buffers : ℕ → List ℕ
  pub infos : ℕ → FileInfo

abbrev pub next_index : ℕ → ℕ
next_index n = (n + 1) % 2 ^ 32

-- The part of `submit_to_sq` that puts the entry behind the tail.
unfoldable pub push : Sqe → Submitter → Submitter
push sqe s =
    let index = s.sq_tail % (s.sq_mask + 1) in
    record s {
      sqes = update s.sqes index sqe;
      array = update s.array index index;
      sq_tail = next_index s.sq_tail;
    }

-- `output_to_console` for the entries of a file: those below `blocks`.
unfoldable pub output : (ℕ → List ℕ) → List Iovec → ℕ → List ℕ
output bufs vs zero = []
output bufs [] (suc n) = []
output bufs (v ∷ vs) (suc n) = take v.iov_len (bufs v.iov_base) ++ output bufs vs n

unfoldable pub print_cqe : Memory → Cqe → List ℕ
print_cqe m cqe =
    let fi = m.infos cqe.user_data in output m.buffers fi.iovecs (rounds (blocks fi.file_sz))

-- The loop of `read_from_cq`: what it prints, and the head it ends with.
unfoldable pub reap : ℕ → Submitter → Memory → ℕ → List ℕ × ℕ
reap zero s m head = ([], head)
reap (suc fuel) s m head =
    let rest = reap fuel s m (next_index head) in
    if head == s.cq_tail
    then ([], head)
    else (print_cqe m (s.cqes (head % (s.cq_mask + 1))) ++ rest.0, rest.1)

unfoldable pub read_from_cq : ℕ → Submitter → Memory → List ℕ × Submitter
read_from_cq fuel s m = let r = reap fuel s m s.cq_head in (r.0, record s { cq_head = r.1 })

-- What the calls for one file return: `open`, `fstat` with `ioctl`, `malloc` for an array of so many blocks, and `posix_memalign` for each
-- block.
pub record Opened : Type 0 where
  pub file_fd : Option ℕ
  pub stat : Stat
  pub malloc : ℕ → Option ℕ
  pub posix_memalign : ℕ → Option ℕ

-- A negative number of blocks makes a size above PTRDIFF_MAX, which malloc refuses.
unfoldable pub allocate : (ℕ → Option ℕ) → ℤ → Option ℕ
allocate malloc (pos n) = malloc n
allocate malloc (negsuc n) = none

-- What `submit_to_sq` has before it touches the ring; `corrupt` when it has written outside an array.
pub data Prepared : Type 0 where
  failed corrupt : Prepared
  ready : Sqe → FileInfo → Prepared

unfoldable pub placed : ℕ → ℕ → ℕ → Filled → Prepared
placed fd size fi no_buffer = failed
placed fd size fi overrun = corrupt
placed fd size fi (filled vs) =
    ready (record { fd = fd; len = blocks size; user_data = fi })
      (record { file_sz = size; iovecs = vs })

-- Behind `malloc`, `get_file_size`, and `open`.
unfoldable pub with_info : Opened → ℕ → ℕ → Option ℕ → Prepared
with_info o fd size none = failed
with_info o fd size (some fi) =
    placed fd size fi (fill (size + 1) (rounds (blocks size)) o.posix_memalign 0 size)

unfoldable pub with_size : Opened → ℕ → Option ℕ → Prepared
with_size o fd none = failed
with_size o fd (some size) = with_info o fd size (allocate o.malloc (blocks size))

unfoldable pub with_file : Opened → Option ℕ → Prepared
with_file o none = failed
with_file o (some fd) = with_size o fd (get_file_size o.stat)

unfoldable pub prepare : Opened → Prepared
prepare o = with_file o o.file_fd

-- The kernel in `io_uring_enter`, with `none` for a negative answer.
abbrev pub Enter : Type 0
Enter = Submitter → Memory → Option (Submitter × Memory)

pub data Submitted : Type 0 where
  overran returned_1 : Submitted
  returned_0 : Submitter → Memory → Submitted

unfoldable pub entered : Option (Submitter × Memory) → Submitted
entered none = returned_1
entered (some (s, m)) = returned_0 s m

unfoldable pub submit : Enter → Prepared → Submitter → Memory → Submitted
submit enter failed s m = returned_1
submit enter corrupt s m = overran
submit enter (ready sqe fi) s m =
    entered (enter (push sqe s) (record m { infos = update m.infos sqe.user_data fi }))

unfoldable pub submit_to_sq : Enter → Opened → Submitter → Memory → Submitted
submit_to_sq enter o s m = submit enter (prepare o) s m

-- The entries that wait in the completion queue.
abbrev pub unread : Submitter → ℕ
unread s = (s.cq_tail + 2 ^ 32 - s.cq_head) % 2 ^ 32

-- What `main` does with the answer of `submit_to_sq`: what is printed, and the exit status, `none` once memory is overrun.
unfoldable pub proceed : Submitted → (Submitter → Memory → List ℕ × Option ℕ) → List ℕ × Option ℕ
proceed overran go = ([], none)
proceed returned_1 go = ([], some 1)
proceed (returned_0 s m) go = go s m

abbrev pub print_then : List ℕ → List ℕ × Option ℕ → List ℕ × Option ℕ
print_then bytes (more, status) = (bytes ++ more, status)

-- The loop of `main`.
unfoldable pub cat : Enter → List Opened → Submitter → Memory → List ℕ × Option ℕ
cat enter [] s m = ([], some 0)
cat enter (o ∷ os) s m =
    proceed (submit_to_sq enter o s m)
      (λ s' m'. let r = read_from_cq (unread s' + 1) s' m' in print_then r.0 (cat enter os r.1 m'))
