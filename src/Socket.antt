-- ===== src/Socket.antt =====
-- What the programs see of a connected socket when they read: the outcomes of the attempts to come.
use c_language_learnning.Base.{ℕ, Option, none, some, List, [], ◌∷◌}

-- `nothing` is an attempt that returns 0 or -1. After the last one every attempt does.
pub data Poll : Type 0 where
  got : ℕ → Poll
  nothing : Poll

abbrev pub Sock : Type 0
Sock = List Poll

-- recv(sock, &c, 1, 0)
abbrev pub recv : Sock → Option ℕ × Sock
recv [] = (none, [])
recv (nothing ∷ s) = (none, s)
recv (got c ∷ s) = (some c, s)

-- recv(sock, &c, 1, MSG_PEEK): the byte stays
abbrev pub peek : Sock → Option ℕ × Sock
peek [] = (none, [])
peek (nothing ∷ s) = (none, s)
peek (got c ∷ s) = (some c, got c ∷ s)
