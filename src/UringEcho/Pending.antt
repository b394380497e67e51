-- ===== src/UringEcho/Pending.antt =====
-- Which requests are pending.
use Prim.Native.Nat.{◌≤◌}
use c_language_learnning.Base.{
  ℕ, zero, suc, ◌+◌, ◌≡◌, ◌≢◌, ◌⊎◌, refl, ap, ◌∙◌, Bool, true, false, List, [], ◌∷◌, ◌++◌, ◌==◌,
  if◌then◌else◌, arith, Bool-cases, inl, inr,
}
use c_language_learnning.Base.Int.{ℤ, pos, negsuc}
use c_language_learnning.Base.Threads.{update}
use c_language_learnning.UringEcho.{
  EventType, read, write, accept, Request, IsNegative, on_accept, on_read, on_write, on_type,
  on_cqe, State, init, close_all, Step, connected, completed, Run, here, onward,
}

unfoldable pub tally : (Request → ℕ) → List Request → ℕ
tally w [] = 0
tally w (r ∷ rs) = w r + tally w rs

pub tally-append :
    (w : Request → ℕ) (xs ys : List Request) → tally w (xs ++ ys) ≡ tally w xs + tally w ys
unfolding tally
tally-append w [] ys = omega arith
tally-append w (x ∷ xs) ys = let ih = tally-append w xs ys in omega (arith, ih)

-- A request leaves the list and others come in behind.
pub tally-moved :
    (w : Request → ℕ) (pending before : List Request) (r : Request) (behind sets : List Request)
    → pending ≡ before ++ (r ∷ behind)
    → tally w ((before ++ behind) ++ sets) + w r ≡ tally w pending + tally w sets
unfolding tally
tally-moved w pending before r behind sets e =
    let all = ap (tally w) e ∙ tally-append w before (r ∷ behind) in
    let parted = tally-append w (before ++ behind) sets in
    let left = tally-append w before behind in omega (arith, all, parted, left)

-- A request to accept; a request on connection `fd`; a request to read from it.
unfoldable pub accepting : Request → ℕ
accepting r = elim r.info.type [ accept ↦ 1 | read ↦ 0 | write ↦ 0 ]

abbrev pub is_fd : ℤ → ℕ → Bool
is_fd (pos c) fd = c == fd
is_fd (negsuc n) fd = false

unfoldable pub on_connection : ℕ → Request → ℕ
on_connection fd r = elim r.info.type [
  | accept ↦ 0
  | read ↦ if is_fd r.info.connectionfd fd then 1 else 0
  | write ↦ if is_fd r.info.connectionfd fd then 1 else 0
]

unfoldable pub reading : ℕ → Request → ℕ
reading fd r = elim r.info.type [
  | accept ↦ 0
  | read ↦ if is_fd r.info.connectionfd fd then 1 else 0
  | write ↦ 0
]

abbrev pub bit : Bool → ℕ
bit false = 0
bit true = 1

abbrev pub of_type : EventType → ℤ → ℕ → Request
of_type ty c len = record { info = record { connectionfd = c; type = ty }; len = len }

-- One accept is set for each that completes, none for another request.
accepts :
    (ty : EventType) (listenfd c : ℤ) (len : ℕ) (res : ℤ)
    → tally accepting (on_type ty listenfd c res).1 ≡ accepting (of_type ty c len)
unfolding tally accepting on_type on_accept on_read on_write
accepts accept listenfd c len res = refl
accepts read listenfd c len (pos zero) = refl
accepts read listenfd c len (pos (suc n)) = refl
accepts read listenfd c len (negsuc n) = refl
accepts write listenfd c len res = refl

pub bit_full : (b : Bool) → 1 ≤ bit b → bit b ≡ 1
bit_full false l = absurd (omega (arith, l))
bit_full true l = refl

-- A connection keeps its one request, or is closed.
closes_fair :
    (c : ℤ) (fd : ℕ) (opened : ℕ → Bool)
    → (if is_fd c fd then 1 else 0) ≤ bit (opened fd)
    → bit (opened fd) ≡ (if is_fd c fd then 1 else 0) + bit (close_all (c ∷ []) opened fd)
unfolding close_all
closes_fair (negsuc n) fd opened l = omega arith
closes_fair (pos c) fd opened l = elim (Bool-cases (c == fd)) [
  | inl same ↦
      let e : (fd == c) ≡ true = ground (arith, same) in
      let l' : 1 ≤ bit (opened fd) = rw same at l in
      let full = bit_full (opened fd) l' in rw (same, e) full
  | inr other ↦ let e : (fd == c) ≡ false = ground (arith, other) in rw (other, e) omega arith
]

fair :
    (ty : EventType) (listenfd c : ℤ) (len fd : ℕ) (res : ℤ) (opened : ℕ → Bool)
    → (ty ≢ accept) ⊎ IsNegative res
    → on_connection fd (of_type ty c len) ≤ bit (opened fd)
    → tally (on_connection fd) (on_type ty listenfd c res).1 + bit (opened fd)
      ≡ on_connection fd (of_type ty c len)
        + bit (close_all (on_type ty listenfd c res).0 opened fd)
unfolding tally on_connection on_type on_accept on_read on_write close_all
fair accept listenfd c len fd (pos k) opened (inl ne) l = absurd (ne refl)
fair accept listenfd c len fd (pos k) opened (inr (n, e)) l = cc
fair accept listenfd c len fd (negsuc k) opened ok l = omega arith
fair read listenfd c len fd (pos zero) opened ok l =
    let e = closes_fair c fd opened l in omega (arith, e)
fair read listenfd c len fd (pos (suc n)) opened ok l = omega arith
fair read listenfd c len fd (negsuc n) opened ok l =
    let e = closes_fair c fd opened l in omega (arith, e)
fair write listenfd c len fd res opened ok l = omega arith

-- A connection that is accepted gets one request.
welcomed :
    (listenfd : ℤ) (fd k : ℕ) (opened : ℕ → Bool)
    → opened k ≡ false
    → tally (on_connection fd) (on_accept listenfd (pos k)).1 + bit (opened fd)
      ≡ bit (close_all (on_accept listenfd (pos k)).0 (update opened k true) fd)
unfolding tally on_connection on_accept close_all
welcomed listenfd fd k opened new = elim (Bool-cases (k == fd)) [
  | inl same ↦
      let e : (fd == k) ≡ true = ground (arith, same) in
      let at : fd ≡ k = ground (arith, same) in
      let closed : opened fd ≡ false = ap opened at ∙ new in rw (same, e, closed) refl
  | inr other ↦ let e : (fd == k) ≡ false = ground (arith, other) in rw (other, e) omega arith
]

connected-welcomed :
    (listenfd : ℤ) (k : ℕ) (r : Request) (opened : ℕ → Bool) (fd : ℕ)
    → r.info.type ≡ accept
    → opened k ≡ false
    → tally (on_connection fd) (on_cqe listenfd r.info (pos k)).1 + bit (opened fd)
      ≡ on_connection fd r
        + bit (close_all (on_cqe listenfd r.info (pos k)).0 (update opened k true) fd)
unfolding on_cqe on_connection on_type
connected-welcomed listenfd k r opened fd at new =
    let none_of_it : on_connection fd r ≡ 0 =
      ap (λ t. on_connection fd (of_type t r.info.connectionfd r.len)) at in
    let sets =
      ap (λ t. tally (on_connection fd) (on_type t listenfd r.info.connectionfd (pos k)).1) at in
    let closes =
      ap
        (λ t.
          bit (
            close_all (on_type t listenfd r.info.connectionfd (pos k)).0 (update opened k true) fd))
        at in
    let sum = welcomed listenfd fd k opened new in omega (arith, sum, none_of_it, sets, closes)

pub le_tally :
    (w : Request → ℕ) (pending before : List Request) (r : Request) (behind : List Request)
    → pending ≡ before ++ (r ∷ behind)
    → w r ≤ tally w pending
unfolding tally
le_tally w pending before r behind e =
    let all = ap (tally w) e ∙ tally-append w before (r ∷ behind) in omega (arith, all)

-- One request to accept is pending, and on each descriptor that is an open connection one request, on any other none.
pub record Inv (s : State) : Type 0 where
  pub one_accept : tally accepting s.pending ≡ 1
  pub one_each : (fd : ℕ) → tally (on_connection fd) s.pending ≡ bit (s.opened fd)

Step-Inv : {listenfd : ℤ} {s t : State} → Inv s → Step listenfd s t → Inv t
unfolding on_cqe
Step-Inv {listenfd} {s} v (connected before r behind k e at new) =
    let sets = (on_cqe listenfd r.info (pos k)).1 in
    record {
      one_accept =
          let moved = tally-moved accepting s.pending before r behind sets e in
          let again = accepts r.info.type listenfd r.info.connectionfd r.len (pos k) in
          let w = v.one_accept in omega (arith, moved, again, w);
      one_each = λ fd.
          let moved = tally-moved (on_connection fd) s.pending before r behind sets e in
          let sum = connected-welcomed listenfd k r s.opened fd at new in
          let w = v.one_each fd in omega (arith, moved, sum, w);
    }
Step-Inv {listenfd} {s} v (completed before r behind res e ok) =
    let sets = (on_cqe listenfd r.info res).1 in
    record {
      one_accept =
          let moved = tally-moved accepting s.pending before r behind sets e in
          let again = accepts r.info.type listenfd r.info.connectionfd r.len res in
          let w = v.one_accept in omega (arith, moved, again, w);
      one_each = λ fd.
          let moved = tally-moved (on_connection fd) s.pending before r behind sets e in
          let w = v.one_each fd in
          let there = le_tally (on_connection fd) s.pending before r behind e in
          let sum =
            fair r.info.type listenfd r.info.connectionfd r.len fd res s.opened ok
              (omega (arith, there, w)) in
          omega (arith, moved, sum, w);
    }

Run-Inv : {listenfd : ℤ} {s t : State} → Inv s → Run listenfd s t → Inv t
Run-Inv v here = v
Run-Inv v (onward r st) = Step-Inv (Run-Inv v r) st

-- Whatever the kernel completes, in whatever order and with whatever results, failures of accept included: one request to
-- accept is pending, one request on each descriptor that is an open connection, and none on any other descriptor from 0 on.
pub one_request_each : {listenfd : ℤ} {s : State} → Run listenfd (init listenfd) s → Inv s
unfolding tally accepting on_connection
one_request_each r = Run-Inv (record { one_accept = omega arith; one_each = λ fd. omega arith }) r
