-- ===== src/TalkServer/Tests.antt =====
-- The server with a few clients.
use Prim.Native.Nat.{◌<◌}
use c_language_learnning.Base.{
  ℕ, ◌+◌, ◌-◌, ◌*◌, ◌≡◌, ◌≢◌, refl, none, some, true, false, [], ◌∷◌, ◌++◌, map, arith, codes,
  length, inl,
}
use c_language_learnning.TalkServer.{
  buffer_size, Client, kills, notify, sends, Server, put, start, Connection, enter, on_connection,
  on_sigchld, kill_from, on_sigterm, sigterm, on_signal, notify_from, on_child, received, load,
  child_client, child_pipe,
}
use c_language_learnning.TalkServer.System.{
  Children, Inv, no_more, exits, connected, signalled, Reach, begin, onward,
}
use c_language_learnning.TalkServer.Reachable.{Reach-Inv}
use c_language_learnning.TalkServer.Buffers.{left, Share, left-Share}
use c_language_learnning.TalkServer.Relay.{others, zeros, relayed}
use c_language_learnning.TalkServer.Shutdown.{on_sigchld_stops}

abbrev nobody : Client
nobody = record { address = 0; connfd = 0; pid = 0; pipe0 = 0; pipe1 = 0 }

-- The client whose child is process `pid`.
abbrev from : ℕ → Connection
from pid = record {
  address = pid;
  connfd = 100 + pid;
  pipe0 = 200 + pid;
  pipe1 = 300 + pid;
  forked = some pid;
}

abbrev with_one : Server
with_one = (on_connection (some (from 11)) (start (λ j. nobody))).0

abbrev with_two : Server
with_two = (on_connection (some (from 12)) with_one).0

abbrev no_children : Children
no_children = λ pid. none

abbrev two_children : Children
two_children = put (put no_children 11 (some 0)) 12 (some 1)

with_two-Reach : Reach with_two two_children
unfolding on_connection enter start
with_two-Reach =
    onward (onward (begin (λ j. nobody)) (connected (from 11) 11 refl refl (omega arith)))
      (connected (from 12) 12 refl refl (omega arith))

two_users_more : 0 + 1 < with_two.user_count
unfolding on_connection enter start
two_users_more = omega arith

last_own :
    two_children (with_two.users (with_two.user_count - 1)).pid ≡ some (with_two.user_count - 1)
unfolding on_connection enter start
last_own = refl

two_pipes :
    (i : ℕ) → i < with_two.user_count → i ≢ 0 → (with_two.users i).pipe0 ≢ (with_two.users 0).pipe0
unfolding on_connection enter start
two_pipes i l ne = let at : i ≡ 1 = omega (arith, l) in rw at (omega arith)

-- The same after SIGTERM.
abbrev told : Server
told = (on_sigterm with_two).0

told-Reach : Reach told two_children
unfolding on_signal
told-Reach = onward with_two-Reach (signalled sigterm (inl refl))

told-Inv : Inv told two_children
told-Inv = Reach-Inv told two_children told-Reach

all_gone : (pid : ℕ) → put (put two_children 11 none) 12 none pid ≡ none
all_gone pid = ground arith

told_flag : told.terminate ≡ true
unfolding on_sigterm on_connection enter start
told_flag = refl

notices_run : on_child 211 0 with_two ≡ notify 212 0 ∷ []
unfolding on_child notify_from on_connection enter start
notices_run = refl

kills_run : (on_sigterm with_two).1 ≡ kills 11 ∷ kills 12 ∷ []
unfolding on_sigterm kill_from on_connection enter start
kills_run = refl

child_runs :
    (child_pipe 7 (received 1) (child_client 1 9 (received (codes "hi")) (λ i. 0)).0).0 ≡ false
unfolding child_pipe
child_runs = refl

Reach-Inv_example : Inv with_two two_children
Reach-Inv_example = Reach-Inv with_two two_children with_two-Reach

left-Share_example :
    (live' : Children) × Reach (on_connection (some (from 13)) (left with_two 0)).0 live'
    × Share live' (with_two.users (with_two.user_count - 1)).pid 13 (with_two.user_count - 1)
left-Share_example =
    left-Share with_two two_children 0 (from 13) 13 with_two-Reach two_users_more last_own refl refl

relayed_example :
    let (mem', stop, actions) = child_client 0 9 (received (codes "hi")) (λ i. 0) in
    (actions ≡ notify 9 0 ∷ [])
    × (on_child (with_two.users 0).pipe0 0 with_two
        ≡ map (λ i. notify (with_two.users i).pipe0 0) (others 0 0 with_two.user_count))
    × (child_pipe 7 (received 0) mem'
        ≡ (false, sends 7 (codes "hi" ++ zeros (buffer_size - length (codes "hi"))) ∷ []))
    × (load mem' (1 * buffer_size) buffer_size ≡ load (λ i. 0) (1 * buffer_size) buffer_size)
relayed_example =
    relayed with_two 0 0 1 9 7 (codes "hi") (λ i. 0) (omega arith) (omega arith) two_pipes

on_sigchld_stops_example : (on_sigchld (11 ∷ 12 ∷ []) told).0.stop_server ≡ true
on_sigchld_stops_example =
    on_sigchld_stops told two_children (put (put two_children 11 none) 12 none) (11 ∷ 12 ∷ [])
      told-Inv told_flag (exits 11 0 refl (exits 12 1 refl no_more)) all_gone
