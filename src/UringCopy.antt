-- ===== src/UringCopy.antt =====
-- `copy_file` of liburing-learnning/io_uring-cp.c as steps of the program and of the kernel, with
-- `queue_read`, `queue_write` and `queue_prepped`. `io_uring_submit` is taken to succeed.
pub mod Weights
pub mod Invariant
pub mod Bytes
mod Tests
use Prim.Native.Nat.{◌≤◌, ◌<◌}
use c_language_learnning.Base.{
  ℕ, zero, suc, ◌+◌, ◌-◌, ◌*◌, ◌≡◌, ◌≢◌, ◌⊎◌, Bool, true, false, List, [], ◌∷◌, ◌++◌, ltb,
  if◌then◌else◌,
}

-- QD and BS
abbrev pub queue_depth : ℕ
queue_depth = 64

abbrev pub block_size : ℕ
block_size = 32 * 1024

-- `struct io_data`: `len` is `iov.iov_len`, and `iov.iov_base` is as far into the buffer as `offset` is
-- behind `first_offset`.
pub record Data : Type 0 where
  pub read : Bool
  pub first_offset : ℕ
  pub offset : ℕ
  pub first_len : ℕ
  pub len : ℕ

-- The data of `queue_read`.
abbrev pub queue_read : ℕ → ℕ → Data
queue_read size offset = record {
  read = true;
  first_offset = offset;
  offset = offset;
  first_len = size;
  len = size;
}

-- What `queue_write` makes of it.
abbrev pub queue_write : Data → Data
queue_write d = record d { read = false; offset = d.first_offset; len = d.first_len }

-- After a transfer of `res` bytes that was not the whole.
abbrev pub advance : ℕ → Data → Data
advance res d = record d { len = d.len - res; offset = d.offset + res }

-- Where `copy_file` stands: in the loop that queues reads, in the loop over completions, with `got_comp`,
-- in the loop after both, and behind its `return`.
pub data Phase : Type 0 where
  queueing : Phase
  completing : Bool → Phase
  draining : Phase
  returned : ℕ → Phase

-- The variables, the requests that are in the ring in any state, and two counts that the program does not
-- keep: the bytes that were written, and those of writes that the last loop took for done.
pub record State : Type 0 where
  pub phase : Phase
  pub insize : ℕ
  pub offset : ℕ
  pub write_left : ℕ
  pub reads : ℕ
  pub writes : ℕ
  pub queued : List Data
  pub written : ℕ
  pub lost : ℕ

abbrev pub init : ℕ → State
init size = record {
  phase = queueing;
  insize = size;
  offset = 0;
  write_left = size;
  reads = 0;
  writes = 0;
  queued = [];
  written = 0;
  lost = 0;
}

abbrev pub this_size : ℕ → ℕ
this_size insize = if ltb block_size insize then block_size else insize

-- A completion is of any request `d` that is in the ring: those before and behind it stay.
pub data Step (s : State) : State → Type 0 where
  read_next :
      s.phase ≡ queueing
      → s.insize ≢ 0
      → s.reads + s.writes < queue_depth
      → Step s (record s {
        insize = s.insize - this_size s.insize;
        offset = s.offset + this_size s.insize;
        reads = s.reads + 1;
        queued = s.queued ++ (queue_read (this_size s.insize) s.offset ∷ []);
      })
  -- nothing left to read, a full ring, or a `queue_read` that found no memory
  read_stop : s.phase ≡ queueing → Step s (record s { phase = completing false })
  -- -EAGAIN
  again :
      {got : Bool}
      → s.phase ≡ completing got
      → s.write_left ≢ 0
      → Step s (record s { phase = completing true })
  short :
      {got : Bool} (a b : List Data) (d : Data) (res : ℕ)
      → s.phase ≡ completing got
      → s.write_left ≢ 0
      → s.queued ≡ a ++ (d ∷ b)
      → res < d.len
      → Step s (record s {
        phase = completing true;
        queued = a ++ (b ++ (advance res d ∷ []));
        written = s.written + (if d.read then 0 else res);
      })
  read_done :
      {got : Bool} (a b : List Data) (d : Data)
      → s.phase ≡ completing got
      → s.write_left ≢ 0
      → s.queued ≡ a ++ (d ∷ b)
      → d.read ≡ true
      → Step s (record s {
        phase = completing true;
        write_left = s.write_left - d.first_len;
        reads = s.reads - 1;
        writes = s.writes + 1;
        queued = a ++ (b ++ (queue_write d ∷ []));
      })
  write_done :
      {got : Bool} (a b : List Data) (d : Data)
      → s.phase ≡ completing got
      → s.write_left ≢ 0
      → s.queued ≡ a ++ (d ∷ b)
      → d.read ≡ false
      → Step s (record s {
        phase = completing true;
        writes = s.writes - 1;
        queued = a ++ b;
        written = s.written + d.len;
      })
  -- a failed completion; and `io_uring_peek_cqe` that finds none, whose -EAGAIN is still in `ret`
  failed :
      {got : Bool}
      → s.phase ≡ completing got
      → s.write_left ≢ 0
      → Step s (record s { phase = returned 1 })
  -- the loop over completions ends, and with it the outer loop
  all_read :
      {got : Bool}
      → s.phase ≡ completing got
      → s.write_left ≡ 0
      → s.insize ≡ 0
      → Step s (record s { phase = draining })
  not_all_read :
      {got : Bool}
      → s.phase ≡ completing got
      → s.write_left ≡ 0
      → s.insize ≢ 0
      → Step s (record s { phase = queueing })
  -- the last loop does not look at how much was written
  drain :
      (a b : List Data) (d : Data) (res : ℕ)
      → s.phase ≡ draining
      → s.writes ≢ 0
      → s.queued ≡ a ++ (d ∷ b)
      → res ≤ d.len
      → Step s (record s {
        writes = s.writes - 1;
        queued = a ++ b;
        written = s.written + res;
        lost = s.lost + (d.len - res);
      })
  drain_failed : s.phase ≡ draining → s.writes ≢ 0 → Step s (record s { phase = returned 1 })
  drained : s.phase ≡ draining → s.writes ≡ 0 → Step s (record s { phase = returned 0 })

pub data Reach (size : ℕ) : State → Type 0 where
  start : Reach size (init size)
  next : {s t : State} → Reach size s → Step s t → Reach size t
