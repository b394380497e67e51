-- ===== src/TalkServer/Buffers.antt =====
-- The buffers of the children after one of them has left.
use Prim.Native.Nat.{◌<◌}
use c_language_learnning.Base.{
  ℕ, ◌+◌, ◌-◌, ◌≡◌, ◌≢◌, ap, ◌∙◌, none, some, true, false, [], ◌∷◌, ◌==◌, arith,
}
use c_language_learnning.TalkServer.{
  user_limit, Server, put, Connection, on_connection, reap_all, on_signal, sigchld,
}
use c_language_learnning.TalkServer.System.{
  Children, Inv, no_more, exits, connected, exited, Reach, onward,
}
use c_language_learnning.TalkServer.Table.{place_unique, reap-moved}
use c_language_learnning.TalkServer.Reachable.{Reach-Inv, sigchld-IsSame}

-- The parent once the child at place `d` has left.
abbrev pub left : Server → ℕ → Server
left s d = (on_signal (sigchld ((s.users d).pid ∷ [])) s).0

left-count :
    (s : Server) (live : Children) (d : ℕ)
    → Inv s live
    → d < s.user_count
    → (left s d).user_count ≡ s.user_count - 1
unfolding on_signal reap_all
left-count s live d v low =
    (sigchld-IsSame ((s.users d).pid ∷ []) s).count_same
    ∙ ap (λ t. t.user_count)
        (reap-moved (s.users d).pid d s (v.filled d low).back (omega (arith, low, v.few)))

-- Two processes that are children with the same number read from their clients into the same bytes.
pub record Share (live : Children) (p q idx : ℕ) : Type 0 where
  pub apart : p ≢ q
  pub one : live p ≡ some idx
  pub another : live q ≡ some idx

-- When a client leaves that is not in the last place, and the child in the last place was started there, then the
-- child of the next client that is let in is started with the number of that child: both are there, and
-- their clients' data go into one buffer.
pub left-Share :
    (s : Server) (live : Children) (d : ℕ) (c : Connection) (pid : ℕ)
    → Reach s live
    → d + 1 < s.user_count
    → live (s.users (s.user_count - 1)).pid ≡ some (s.user_count - 1)
    → c.forked ≡ some pid
    → live pid ≡ none
    → (live' : Children) × Reach (on_connection (some c) (left s d)).0 live'
      × Share live' (s.users (s.user_count - 1)).pid pid (s.user_count - 1)
left-Share s live d c pid r low own forked fresh =
    let v = Reach-Inv s live r in
    let gone = (s.users d).pid in
    let last = (s.users (s.user_count - 1)).pid in
    let w = v.filled d (omega (arith, low)) in
    let live1 : Children = put live gone none in
    let count = left-count s live d v (omega (arith, low)) in
    let last_ne : last ≢ gone = λ q. absurd (
      omega (
        arith,
        low,
        place_unique s live v (s.user_count - 1) d (omega (arith, low)) (omega (arith, low)) q,
      )) in
    let new_ne : last ≢ pid = ground (arith, own, fresh) in
    let fresh1 : live1 pid ≡ none = ground (arith, fresh) in
    let one : Reach (left s d) live1 =
      onward r (exited (gone ∷ []) (exits gone w.idx w.alive no_more)) in
    let room : (left s d).user_count < user_limit = omega (arith, count, v.few, low) in
    let miss : (last == pid) ≡ false = ground (arith, new_ne) in
    let miss_gone : (last == gone) ≡ false = ground (arith, last_ne) in
    let hit : (pid == pid) ≡ true = ground arith in
    (
      put live1 pid (some (left s d).user_count),
      onward one (connected c pid forked fresh1 room),
      record { apart = new_ne; one = rw miss (rw miss_gone own); another = rw hit (ap some count) },
    )
