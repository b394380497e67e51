-- ===== src/UringCopy/Tests.antt =====
-- A run of `copy_file` on a file of 10 bytes.
use c_language_learnning.Base.{◌+◌, ◌≤◌, ◌≡◌, refl, true, [], ◌∷◌, arith, length}
use c_language_learnning.UringCopy.{
  State, completing, returned, queue_depth, queue_read, queue_write, read_next, read_stop,
  read_done, all_read, drain, drained, Reach, start, next,
}
use c_language_learnning.UringCopy.Weights.{total, write_bytes}
use c_language_learnning.UringCopy.Bytes.{copy_file_accounts}

-- The read is done, and the write is in the ring.
abbrev half : State
half = record {
  phase = completing true;
  insize = 0;
  offset = 10;
  write_left = 0;
  reads = 0;
  writes = 1;
  queued = queue_write (queue_read 10 0) ∷ [];
  written = 0;
  lost = 0;
}

half-Reach : Reach 10 half
half-Reach =
    let queued : Reach 10 _ =
      next (next start (read_next refl (omega arith) (omega arith))) (read_stop refl) in
    next queued (read_done [] [] (queue_read 10 0) refl (omega arith) refl refl)

-- The write stops after 4 bytes, and `copy_file` returns 0.
abbrev cut_short : State
cut_short = record {
  phase = returned 0;
  insize = 0;
  offset = 10;
  write_left = 0;
  reads = 0;
  writes = 0;
  queued = [];
  written = 4;
  lost = 6;
}

cut_short-Reach : Reach 10 cut_short
cut_short-Reach =
    next
      (next (next half-Reach (all_read refl refl refl))
        (drain [] [] (queue_write (queue_read 10 0)) 4 refl (omega arith) refl (omega arith)))
      (drained refl refl)

copy_file_accounts_example :
    (length half.queued ≡ 0 + 1)
    × (0 + 1 ≤ queue_depth)
    × (half.written + half.lost + total write_bytes half.queued + half.write_left ≡ 10)
copy_file_accounts_example = copy_file_accounts half-Reach
