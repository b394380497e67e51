-- ===== src/TalkServer/System.antt =====
-- What the parent and the kernel do, and what should hold of the parent's table.
use Prim.Native.Nat.{◌≤◌, ◌<◌}
use c_language_learnning.Base.{ℕ, ◌≡◌, Option, none, some, List, [], ◌∷◌, ◌⊎◌}
use c_language_learnning.Base.Int.{pos}
use c_language_learnning.TalkServer.{
  user_limit, Client, Server, put, start, Connection, on_connection, Signal, sigchld, sigterm,
  other, on_signal,
}

-- The children that `waitpid` has not returned yet: the number that each was started with, by its process.
abbrev pub Children : Type 0
Children = ℕ → Option ℕ

-- A child that there is: its place in the table, where both directions of the map agree.
pub record Placed (s : Server) (pid idx : ℕ) : Type 0 where
  pub place : ℕ
  pub low : place < s.user_count
  pub there : (s.users place).pid ≡ pid
  pub mapped : s.sub_process pid ≡ pos place
  pub idx_low : idx < user_limit

-- A place of the table: its child, and the way back to the place.
pub record Filled (s : Server) (live : Children) (j : ℕ) : Type 0 where
  pub idx : ℕ
  pub alive : live (s.users j).pid ≡ some idx
  pub back : s.sub_process (s.users j).pid ≡ pos j

pub record Inv (s : Server) (live : Children) : Type 0 where
  pub few : s.user_count ≤ user_limit
  pub placed : (pid idx : ℕ) → live pid ≡ some idx → Placed s pid idx
  pub filled : (j : ℕ) → j < s.user_count → Filled s live j

-- The children that `waitpid` returns one after another, and those that there are then.
pub data Exits : Children → List ℕ → Children → Type 0 where
  no_more : {live : Children} → Exits live [] live
  exits :
      {live live' : Children} {pids : List ℕ}
      → (pid idx : ℕ) → live pid ≡ some idx
      → Exits (put live pid none) pids live'
      → Exits live (pid ∷ pids) live'

-- What the parent and the kernel do. `fork` returns a process that is none of the children, `waitpid` a child; the
-- number that a child is started with is its place then.
pub data Step : Server → Children → Server → Children → Type 0 where
  turned_away :
      {s : Server} {live : Children}
      → (c : Option Connection) → user_limit ≤ s.user_count
      → Step s live (on_connection c s).0 live
  not_forked :
      {s : Server} {live : Children}
      → (c : Connection) → c.forked ≡ none
      → Step s live (on_connection (some c) s).0 live
  connected :
      {s : Server} {live : Children}
      → (c : Connection) → (pid : ℕ) → c.forked ≡ some pid
      → live pid ≡ none
      → s.user_count < user_limit
      → Step s live (on_connection (some c) s).0 (put live pid (some s.user_count))
  exited :
      {s : Server} {live live' : Children}
      → (pids : List ℕ) → Exits live pids live'
      → Step s live (on_signal (sigchld pids) s).0 live'
  signalled :
      {s : Server} {live : Children}
      → (sig : Signal) → sig ≡ sigterm ⊎ sig ≡ other
      → Step s live (on_signal sig s).0 live

-- The states that the server reaches from its start.
pub data Reach : Server → Children → Type 0 where
  begin : (users : ℕ → Client) → Reach (start users) (λ pid. none)
  onward :
      {s s' : Server} {live live' : Children} → Reach s live → Step s live s' live' → Reach s' live'
