-- ===== src/UringEcho.antt =====
-- The echo server of liburing-learnning/tcp_server_iouring.c: the requests that it sets, as the kernel completes them one after
-- another in any order. A connection's buffer is its row of buffer_table; the bytes in the buffers are not modelled, so that a
-- descriptor with no row, which makes the program use memory outside the table, is one like the others here.
pub mod Pending
pub mod Once
mod Tests
use c_language_learnning.Base.{
  ℕ, zero, suc, ◌+◌, ◌≡◌, ◌≢◌, ◌⊎◌, Bool, true, false, List, [], ◌∷◌, ◌++◌, ltb, ◌==◌,
  if◌then◌else◌,
}
use c_language_learnning.Base.Int.{ℤ, pos, negsuc}
use c_language_learnning.Base.Threads.{update}

pub data EventType : Type 0 where
  read write accept : EventType

-- `connection_information`
pub record Info : Type 0 where
  pub connectionfd : ℤ
  pub type : EventType

-- A request in the ring: what it carries in `user_data`, and the length of its buffer.
pub record Request : Type 0 where
  pub info : Info
  pub len : ℕ

abbrev pub set_read_event : ℤ → ℕ → Request
set_read_event fd len = record { info = record { connectionfd = fd; type = read }; len = len }

abbrev pub set_write_event : ℤ → ℕ → Request
set_write_event fd len = record { info = record { connectionfd = fd; type = write }; len = len }

abbrev pub set_accept_event : ℤ → Request
set_accept_event fd = record { info = record { connectionfd = fd; type = accept }; len = 0 }

-- What the loop of `main` does with a completion: the descriptors that it closes, and the requests that it sets.
abbrev pub Outcome : Type 0
Outcome = List ℤ × List Request

-- The result of accept is not looked at: after a failure it is a negative number, and a request on that is set.
unfoldable pub on_accept : ℤ → ℤ → Outcome
on_accept listenfd res = ([], set_read_event res 1024 ∷ set_accept_event listenfd ∷ [])

unfoldable pub on_read : ℤ → ℤ → Outcome
on_read fd (pos zero) = (fd ∷ [], [])
on_read fd (negsuc n) = (fd ∷ [], [])
on_read fd (pos (suc n)) = ([], set_write_event fd (suc n) ∷ [])

unfoldable pub on_write : ℤ → Outcome
on_write fd = ([], set_write_event fd 1024 ∷ [])

unfoldable pub on_type : EventType → ℤ → ℤ → ℤ → Outcome
on_type accept listenfd fd res = on_accept listenfd res
on_type read listenfd fd res = on_read fd res
on_type write listenfd fd res = on_write fd

unfoldable pub on_cqe : ℤ → Info → ℤ → Outcome
on_cqe listenfd info res = on_type info.type listenfd info.connectionfd res

-- The requests that are set and not completed, and which descriptors are open connections.
pub record State : Type 0 where
  pub pending : List Request
  pub opened : ℕ → Bool

-- Before the loop.
abbrev pub init : ℤ → State
init listenfd = record { pending = set_accept_event listenfd ∷ []; opened = λ fd. false }

-- To close a negative number does nothing.
unfoldable pub close_all : List ℤ → (ℕ → Bool) → ℕ → Bool
close_all [] opened = opened
close_all (pos fd ∷ fds) opened = close_all fds (update opened fd false)
close_all (negsuc n ∷ fds) opened = close_all fds opened

abbrev pub IsNegative : ℤ → Type 0
IsNegative res = (n : ℕ) × (res ≡ negsuc n)

-- One completion, with any result. An `accept` that succeeds gives a descriptor that is no open connection.
pub data Step (listenfd : ℤ) (s : State) : State → Type 0 where
  connected :
      (before : List Request) (r : Request) (behind : List Request) (fd : ℕ)
      → s.pending ≡ before ++ (r ∷ behind)
      → r.info.type ≡ accept
      → s.opened fd ≡ false
      → Step listenfd s (record {
        pending = (before ++ behind) ++ (on_cqe listenfd r.info (pos fd)).1;
        opened = close_all (on_cqe listenfd r.info (pos fd)).0 (update s.opened fd true);
      })
  completed :
      (before : List Request) (r : Request) (behind : List Request) (res : ℤ)
      → s.pending ≡ before ++ (r ∷ behind)
      → (r.info.type ≢ accept) ⊎ IsNegative res
      → Step listenfd s (record {
        pending = (before ++ behind) ++ (on_cqe listenfd r.info res).1;
        opened = close_all (on_cqe listenfd r.info res).0 s.opened;
      })

-- What is reached from a state.
pub data Run (listenfd : ℤ) (s : State) : State → Type 0 where
  here : Run listenfd s s
  onward : {t u : State} → Run listenfd s t → Step listenfd t u → Run listenfd s u
