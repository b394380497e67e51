-- ===== src/UringCopy/Invariant.antt =====
-- What the variables of `copy_file` count, in every reachable state.
use Prim.Native.Nat.{◌≤◌, ◌<◌}
use mathlib.Core.Path.{subst}
use c_language_learnning.Base.{
  ℕ, ◌+◌, ◌-◌, ◌≡◌, ◌≢◌, refl, true, false, List, [], ◌∷◌, ◌++◌, if◌then◌else◌, arith, All,
  All-append, Bool-cases, inl, inr,
}
use c_language_learnning.UringCopy.{
  Data, queue_depth, queue_read, queue_write, advance, Phase, queueing, completing, draining,
  returned, State, this_size, Step, read_next, read_stop, again, short, read_done, write_done,
  failed, all_read, not_all_read, drain, drain_failed, drained, Reach, start, next,
}
use c_language_learnning.UringCopy.Weights.{
  total, total-append, total-removed, total-replaced, is_read, is_write, read_bytes, write_bytes,
  weights-read, weights-write, NotEmpty, All-removed, All-replaced,
}

pub record Inv (size : ℕ) (s : State) : Type 0 where
  pub reads : total is_read s.queued ≡ s.reads
  pub writes : total is_write s.queued ≡ s.writes
  pub depth : s.reads + s.writes ≤ queue_depth
  pub left : s.write_left ≡ s.insize + total read_bytes s.queued
  pub sum : s.written + s.lost + total write_bytes s.queued + s.write_left ≡ size
  pub full : All NotEmpty s.queued
  pub last : s.phase ≡ draining → (s.insize ≡ 0) × (s.write_left ≡ 0)
  pub done : s.phase ≡ returned 0 → (s.writes ≡ 0) × (s.write_left ≡ 0)

-- A step that changes the phase only.
turned :
    (size : ℕ) (s : State) (p : Phase)
    → (p ≡ draining → (s.insize ≡ 0) × (s.write_left ≡ 0))
    → (p ≡ returned 0 → (s.writes ≡ 0) × (s.write_left ≡ 0))
    → Inv size s
    → Inv size (record s { phase = p })
turned size s p l d v = record {
  reads = v.reads;
  writes = v.writes;
  depth = v.depth;
  left = v.left;
  sum = v.sum;
  full = v.full;
  last = l;
  done = d;
}

read_next-Inv :
    (size : ℕ) (s : State)
    → s.phase ≡ queueing
    → s.insize ≢ 0
    → s.reads + s.writes < queue_depth
    → Inv size s
    → Inv size (record s {
      insize = s.insize - this_size s.insize;
      offset = s.offset + this_size s.insize;
      reads = s.reads + 1;
      queued = s.queued ++ (queue_read (this_size s.insize) s.offset ∷ []);
    })
unfolding total is_read is_write read_bytes write_bytes
read_next-Inv size s ph ne room v =
    let d : Data = queue_read (this_size s.insize) s.offset in
    let added : (f : Data → ℕ)
        → total f (s.queued ++ (d ∷ [])) ≡ total f s.queued + total f (d ∷ []) =
      λ f. total-append f s.queued (d ∷ []) in
    let fits : this_size s.insize ≤ s.insize = ground arith in
    let some_bytes : 0 < this_size s.insize = ground arith in
    record {
      reads = omega (arith, added is_read, v.reads);
      writes = omega (arith, added is_write, v.writes);
      depth = omega (arith, room);
      left = omega (arith, added read_bytes, v.left);
      sum = omega (arith, added write_bytes, v.sum);
      full = All-append NotEmpty s.queued (d ∷ []) v.full (some_bytes, tt);
      last = λ e. cc;
      done = λ e. cc;
    }

short-Inv :
    (size : ℕ) (s : State) (a b : List Data) (d : Data) (res : ℕ)
    → s.queued ≡ a ++ (d ∷ b)
    → res < d.len
    → Inv size s
    → Inv size (record s {
      phase = completing true;
      queued = a ++ (b ++ (advance res d ∷ []));
      written = s.written + (if d.read then 0 else res);
    })
short-Inv size s a b d res e l v =
    let swap : (f : Data → ℕ)
        → total f (a ++ (b ++ (advance res d ∷ []))) + f d ≡ total f s.queued + f (advance res d) =
      λ f. total-replaced f s.queued a b d (advance res d) e in
    let full : NotEmpty d × All NotEmpty (a ++ b) =
      All-removed a b d (subst (All NotEmpty) e v.full) in
    let all : All NotEmpty (a ++ (b ++ (advance res d ∷ []))) =
      All-replaced a b d (advance res d) full.0 (subst (All NotEmpty) e v.full) in
    elim (Bool-cases d.read) [
      | inl reads ↦
          let w = weights-read d reads in
          let w' = weights-read (advance res d) reads in
          let none_written : (if d.read then 0 else res) ≡ 0 = rw reads in
          record {
            reads = omega (arith, swap is_read, w, w', v.reads);
            writes = omega (arith, swap is_write, w, w', v.writes);
            depth = v.depth;
            left = omega (arith, swap read_bytes, w, w', v.left);
            sum = omega (arith, swap write_bytes, w, w', v.sum, none_written);
            full = all;
            last = λ h. cc;
            done = λ h. cc;
          }
      | inr writes ↦
          let w = weights-write d writes in
          let w' = weights-write (advance res d) writes in
          let some_written : (if d.read then 0 else res) ≡ res = rw writes in
          record {
            reads = omega (arith, swap is_read, w, w', v.reads);
            writes = omega (arith, swap is_write, w, w', v.writes);
            depth = v.depth;
            left = omega (arith, swap read_bytes, w, w', v.left);
            sum = omega (arith, swap write_bytes, w, w', v.sum, some_written);
            full = all;
            last = λ h. cc;
            done = λ h. cc;
          }
    ]

read_done-Inv :
    (size : ℕ) (s : State) (a b : List Data) (d : Data)
    → s.queued ≡ a ++ (d ∷ b)
    → d.read ≡ true
    → Inv size s
    → Inv size (record s {
      phase = completing true;
      write_left = s.write_left - d.first_len;
      reads = s.reads - 1;
      writes = s.writes + 1;
      queued = a ++ (b ++ (queue_write d ∷ []));
    })
read_done-Inv size s a b d e is v =
    let swap : (f : Data → ℕ)
        → total f (a ++ (b ++ (queue_write d ∷ []))) + f d ≡ total f s.queued + f (queue_write d) =
      λ f. total-replaced f s.queued a b d (queue_write d) e in
    let gone : (f : Data → ℕ) → total f (a ++ b) + f d ≡ total f s.queued =
      λ f. total-removed f s.queued a b d e in
    let full : NotEmpty d × All NotEmpty (a ++ b) =
      All-removed a b d (subst (All NotEmpty) e v.full) in
    let w = weights-read d is in
    let w' = weights-write (queue_write d) refl in
    record {
      reads = omega (arith, swap is_read, w, w', v.reads);
      writes = omega (arith, swap is_write, w, w', v.writes);
      depth = omega (arith, gone is_read, w, v.reads, v.depth);
      left = omega (arith, swap read_bytes, w, w', v.left);
      sum = omega (arith, swap write_bytes, gone read_bytes, w, w', v.left, v.sum);
      full = All-replaced a b d (queue_write d) full.0 (subst (All NotEmpty) e v.full);
      last = λ h. cc;
      done = λ h. cc;
    }

write_done-Inv :
    (size : ℕ) (s : State) (a b : List Data) (d : Data)
    → s.queued ≡ a ++ (d ∷ b)
    → d.read ≡ false
    → Inv size s
    → Inv size (record s {
      phase = completing true;
      writes = s.writes - 1;
      queued = a ++ b;
      written = s.written + d.len;
    })
write_done-Inv size s a b d e is v =
    let gone : (f : Data → ℕ) → total f (a ++ b) + f d ≡ total f s.queued =
      λ f. total-removed f s.queued a b d e in
    let full : NotEmpty d × All NotEmpty (a ++ b) =
      All-removed a b d (subst (All NotEmpty) e v.full) in
    let w = weights-write d is in
    record {
      reads = omega (arith, gone is_read, w, v.reads);
      writes = omega (arith, gone is_write, w, v.writes);
      depth = omega (arith, v.depth);
      left = omega (arith, gone read_bytes, w, v.left);
      sum = omega (arith, gone write_bytes, w, v.sum);
      full = full.1;
      last = λ h. cc;
      done = λ h. cc;
    }

drain-Inv :
    (size : ℕ) (s : State) (a b : List Data) (d : Data) (res : ℕ)
    → s.phase ≡ draining
    → s.queued ≡ a ++ (d ∷ b)
    → res ≤ d.len
    → Inv size s
    → Inv size (record s {
      writes = s.writes - 1;
      queued = a ++ b;
      written = s.written + res;
      lost = s.lost + (d.len - res);
    })
drain-Inv size s a b d res ph e l v =
    let gone : (f : Data → ℕ) → total f (a ++ b) + f d ≡ total f s.queued =
      λ f. total-removed f s.queued a b d e in
    let full : NotEmpty d × All NotEmpty (a ++ b) =
      All-removed a b d (subst (All NotEmpty) e v.full) in
    elim (Bool-cases d.read) [
      | inl reads ↦
          let w = weights-read d reads in
          absurd (omega (arith, gone read_bytes, w, v.left, v.last ph, full.0))
      | inr writes ↦
          let w = weights-write d writes in
          record {
            reads = omega (arith, gone is_read, w, v.reads);
            writes = omega (arith, gone is_write, w, v.writes);
            depth = omega (arith, v.depth);
            left = omega (arith, gone read_bytes, w, v.left);
            sum = omega (arith, gone write_bytes, w, v.sum);
            full = full.1;
            last = λ h. v.last ph;
            done = λ h. cc;
          }
    ]

Step-Inv : (size : ℕ) {s t : State} → Inv size s → Step s t → Inv size t
Step-Inv size v (read_next ph ne room) = read_next-Inv size _ ph ne room v
Step-Inv size v (read_stop ph) = turned size _ (completing false) (λ h. cc) (λ h. cc) v
Step-Inv size v (again ph n) = turned size _ (completing true) (λ h. cc) (λ h. cc) v
Step-Inv size v (short a b d res ph n e l) = short-Inv size _ a b d res e l v
Step-Inv size v (read_done a b d ph n e is) = read_done-Inv size _ a b d e is v
Step-Inv size v (write_done a b d ph n e is) = write_done-Inv size _ a b d e is v
Step-Inv size v (failed ph n) = turned size _ (returned 1) (λ h. cc) (λ h. cc) v
Step-Inv size v (all_read ph z i) = turned size _ draining (λ h. (i, z)) (λ h. cc) v
Step-Inv size v (not_all_read ph z i) = turned size _ queueing (λ h. cc) (λ h. cc) v
Step-Inv size v (drain a b d res ph n e l) = drain-Inv size _ a b d res ph e l v
Step-Inv size v (drain_failed ph n) = turned size _ (returned 1) (λ h. cc) (λ h. cc) v
Step-Inv size v (drained ph z) = turned size _ (returned 0) (λ h. cc) (λ h. (z, (v.last ph).1)) v

pub Reach-Inv : (size : ℕ) {s : State} → Reach size s → Inv size s
unfolding total
Reach-Inv size start = record {
  reads = refl;
  writes = refl;
  depth = omega arith;
  left = omega arith;
  sum = omega arith;
  full = tt;
  last = λ h. cc;
  done = λ h. cc;
}
Reach-Inv size (next r st) = Step-Inv size (Reach-Inv size r) st
