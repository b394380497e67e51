-- ===== src/UringCopy/Bytes.antt =====
-- What becomes of the bytes of the file.
use Prim.Native.Nat.{◌≤◌}
use c_language_learnning.Base.{ℕ, ◌+◌, ◌≡◌, ◌∙◌, [], arith, length}
use c_language_learnning.UringCopy.{queue_depth, returned, State, Reach}
use c_language_learnning.UringCopy.Weights.{
  total, is_read, is_write, write_bytes, total-length, no_writes, no_reads, none_of-length,
}
use c_language_learnning.UringCopy.Invariant.{Inv, Reach-Inv}

-- At every time the ring holds exactly the requests that `reads` and `writes` count, which are at most QD,
-- so `queue_prepped` finds a free entry for what it puts back; and the bytes that were
-- written, those that the last loop dropped, those of the writes in the ring and `write_left` are together
-- the size of the file.
pub copy_file_accounts :
    {size : ℕ} {s : State}
    → Reach size s
    → (length s.queued ≡ s.reads + s.writes)
      × (s.reads + s.writes ≤ queue_depth)
      × (s.written + s.lost + total write_bytes s.queued + s.write_left ≡ size)
copy_file_accounts {size} {s} r =
    let v : Inv size s = Reach-Inv size r in
    (omega (arith, total-length s.queued, v.reads, v.writes), v.depth, v.sum)

-- When `copy_file` returns 0, every byte of the file has been written but for those that short writes
-- of the last loop have left out, and no request is left in the ring.
pub copy_file_returns_0 :
    {size : ℕ} {s : State}
    → Reach size s
    → s.phase ≡ returned 0
    → (s.written + s.lost ≡ size) × (s.queued ≡ [])
copy_file_returns_0 {size} {s} r e =
    let v : Inv size s = Reach-Inv size r in
    let d : (s.writes ≡ 0) × (s.write_left ≡ 0) = v.done e in
    let none_left : total is_write s.queued ≡ 0 = v.writes ∙ d.0 in
    let no_read : total is_read s.queued ≡ 0 =
      no_reads s.queued v.full (omega (arith, v.left, d)) in
    (
      omega (arith, no_writes s.queued none_left, v.sum, d),
      none_of-length s.queued (omega (arith, total-length s.queued, none_left, no_read)),
    )
