-- ===== src/UringEcho/Once.antt =====
-- A connection after its first bytes.
use Prim.Native.Nat.{◌≤◌}
use c_language_learnning.Base.{
  ℕ, zero, suc, ◌≡◌, ◌≢◌, ◌⊎◌, refl, sym, ap, ◌∙◌, Bool, true, false, List, [], ◌∷◌, ◌++◌, ◌==◌,
  if◌then◌else◌, arith, Bool-cases, inl, inr,
}
use c_language_learnning.Base.Int.{ℤ, pos, negsuc}
use c_language_learnning.Base.Threads.{update}
use c_language_learnning.UringEcho.{
  EventType, read, write, accept, Request, set_write_event, IsNegative, on_accept, on_read,
  on_write, on_type, on_cqe, State, init, close_all, Step, connected, completed, Run, here, onward,
}
use c_language_learnning.UringEcho.Pending.{
  tally, tally-append, tally-moved, le_tally, is_fd, on_connection, reading, bit, of_type, Inv,
  one_request_each,
}

-- A connection from which nothing is to be read, and which is open.
pub record Stuck (fd : ℕ) (s : State) : Type 0 where
  pub never_read : tally (reading fd) s.pending ≡ 0
  pub still_open : s.opened fd ≡ true

-- To close another descriptor leaves this one open.
closes_other :
    (c : ℤ) (fd : ℕ) (opened : ℕ → Bool)
    → ◌≡◌ {A = ℕ} (if is_fd c fd then 1 else 0) 0
    → close_all (c ∷ []) opened fd ≡ opened fd
unfolding close_all
closes_other (negsuc n) fd opened z = refl
closes_other (pos c) fd opened z = elim (Bool-cases (c == fd)) [
  | inl same ↦ let z' : ◌≡◌ {A = ℕ} 1 0 = rw same at z in absurd (omega (arith, z'))
  | inr other ↦ let e : (fd == c) ≡ false = ground (arith, other) in rw e refl
]

other_completed :
    (ty : EventType) (listenfd c : ℤ) (len fd : ℕ) (res : ℤ) (opened : ℕ → Bool)
    → (ty ≢ accept) ⊎ IsNegative res
    → reading fd (of_type ty c len) ≡ 0
    → (tally (reading fd) (on_type ty listenfd c res).1 ≡ 0)
      × (close_all (on_type ty listenfd c res).0 opened fd ≡ opened fd)
unfolding tally reading on_type on_accept on_read on_write close_all
other_completed accept listenfd c len fd (pos k) opened (inl ne) z = absurd (ne refl)
other_completed accept listenfd c len fd (pos k) opened (inr (n, e)) z = cc
other_completed accept listenfd c len fd (negsuc k) opened ok z = (omega arith, refl)
other_completed read listenfd c len fd (pos zero) opened ok z = (refl, closes_other c fd opened z)
other_completed read listenfd c len fd (pos (suc n)) opened ok z = (omega arith, refl)
other_completed read listenfd c len fd (negsuc n) opened ok z = (refl, closes_other c fd opened z)
other_completed write listenfd c len fd res opened ok z = (omega arith, refl)

other_connected :
    (listenfd : ℤ) (r : Request) (fd k : ℕ) (opened : ℕ → Bool)
    → r.info.type ≡ accept
    → k ≢ fd
    → (tally (reading fd) (on_cqe listenfd r.info (pos k)).1 ≡ 0)
      × (close_all (on_cqe listenfd r.info (pos k)).0 (update opened k true) fd ≡ opened fd)
unfolding tally reading on_cqe on_type on_accept close_all
other_connected listenfd r fd k opened at ne =
    let e : (k == fd) ≡ false = ground (arith, ne) in
    let e' : (fd == k) ≡ false = ground (arith, ne) in
    (
      ap (λ t. tally (reading fd) (on_type t listenfd r.info.connectionfd (pos k)).1) at
          ∙ rw e refl,
      ap
            (λ t.
              close_all (on_type t listenfd r.info.connectionfd (pos k)).0 (update opened k true)
                fd)
            at
          ∙ rw e' refl,
    )

Step-Stuck : {listenfd : ℤ} {fd : ℕ} {s t : State} → Stuck fd s → Step listenfd s t → Stuck fd t
unfolding on_cqe
Step-Stuck {listenfd} {fd} {s} v (connected before r behind k e at new) =
    let ne : k ≢ fd = λ q. let q' : false ≡ true = sym new ∙ ap s.opened q ∙ v.still_open in cc in
    let (no_read, same) = other_connected listenfd r fd k s.opened at ne in
    let moved =
      tally-moved (reading fd) s.pending before r behind (on_cqe listenfd r.info (pos k)).1 e in
    let w = v.never_read in
    record { never_read = omega (arith, moved, no_read, w); still_open = same ∙ v.still_open }
Step-Stuck {listenfd} {fd} {s} v (completed before r behind res e ok) =
    let there = le_tally (reading fd) s.pending before r behind e in
    let w = v.never_read in
    let (no_read, same) =
      other_completed r.info.type listenfd r.info.connectionfd r.len fd res s.opened ok
        (omega (arith, there, w)) in
    let moved =
      tally-moved (reading fd) s.pending before r behind (on_cqe listenfd r.info res).1 e in
    record { never_read = omega (arith, moved, no_read, w); still_open = same ∙ v.still_open }

Run-Stuck : {listenfd : ℤ} {fd : ℕ} {s t : State} → Stuck fd s → Run listenfd s t → Stuck fd t
Run-Stuck v here = v
Run-Stuck v (onward r st) = Step-Stuck (Run-Stuck v r) st

-- A request to read from a connection, or to write to it, is one on the connection.
reads_or_writes : (fd : ℕ) (r : Request) → reading fd r ≤ on_connection fd r
unfolding reading on_connection
reads_or_writes fd r =
    elim r.info.type
      as (λ t.
        reading fd (of_type t r.info.connectionfd r.len)
        ≤ on_connection fd (of_type t r.info.connectionfd r.len)) [
          | accept ↦ omega arith
          | read ↦ omega arith
          | write ↦ omega arith
        ]

tally-reads_or_writes :
    (fd : ℕ) (rs : List Request) → tally (reading fd) rs ≤ tally (on_connection fd) rs
unfolding tally
tally-reads_or_writes fd [] = omega arith
tally-reads_or_writes fd (r ∷ rs) =
    let ih = tally-reads_or_writes fd rs in
    let first = reads_or_writes fd r in omega (arith, ih, first)

opened_full : (b : Bool) → 1 ≤ bit b → b ≡ true
opened_full true l = refl
opened_full false l = absurd (omega (arith, l))

bit_few : (b : Bool) → bit b ≤ 1
bit_few true = omega arith
bit_few false = omega arith

writing-Stuck :
    (fd len : ℕ) {s : State} (before behind : List Request)
    → Inv s
    → s.pending ≡ before ++ (set_write_event (pos fd) len ∷ behind)
    → Stuck fd s
unfolding tally reading on_connection
writing-Stuck fd len {s} before behind v e =
    let same : (fd == fd) ≡ true = ground arith in
    let each = v.one_each fd in
    let few = bit_few (s.opened fd) in
    let all =
      ap (tally (on_connection fd)) e
      ∙ tally-append (on_connection fd) before (set_write_event (pos fd) len ∷ behind) in
    let reads =
      ap (tally (reading fd)) e
      ∙ tally-append (reading fd) before (set_write_event (pos fd) len ∷ behind) in
    let own : ◌≡◌ {A = ℕ} (if fd == fd then 1 else 0) 1 = rw same refl in
    let front = tally-reads_or_writes fd before in
    let back = tally-reads_or_writes fd behind in
    record {
      never_read = omega (arith, all, reads, own, front, back, each, few);
      still_open = opened_full (s.opened fd) (omega (arith, all, own, each));
    }

-- Once a request to write to a client is pending, the server reads from this client no more, whatever the kernel completes, and never closes
-- its connection.
pub echoes_once :
    {listenfd : ℤ} {s t : State} (fd len : ℕ) (before behind : List Request)
    → Run listenfd (init listenfd) s
    → s.pending ≡ before ++ (set_write_event (pos fd) len ∷ behind)
    → Run listenfd s t
    → Stuck fd t
echoes_once fd len before behind r e later =
    Run-Stuck (writing-Stuck fd len before behind (one_request_each r) e) later
