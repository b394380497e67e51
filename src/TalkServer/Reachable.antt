-- ===== src/TalkServer/Reachable.antt =====
-- Every step keeps the table right.
use Prim.Native.Nat.{◌≤◌, ◌<◌}
use mathlib.Core.Path.{subst}
use c_language_learnning.Base.{
  ℕ, ◌≡◌, refl, sym, ap, ◌∙◌, Option, none, some, true, false, List, leb, ◌&&◌, ◌==◌, arith,
  Bool-cases, ◌⊎◌, inl, inr,
}
use c_language_learnning.TalkServer.{
  user_limit, Server, put, Connection, enter, on_connection, reap_all, on_sigchld, on_sigterm,
  Signal, sigchld, sigterm, other, on_signal,
}
use c_language_learnning.TalkServer.System.{
  Children, Inv, Step, turned_away, not_forked, connected, exited, signalled, Reach, begin, onward,
}
use c_language_learnning.TalkServer.Table.{start-Inv, enter-Inv, reap_all-Inv}

-- What the invariant reads of the parent.
pub record IsSame (s s' : Server) : Type 0 where
  pub count_same : s'.user_count ≡ s.user_count
  pub map_same : s'.sub_process ≡ s.sub_process
  pub users_same : (j : ℕ) → j < s.user_count → s'.users j ≡ s.users j

Inv-same : (s s' : Server) (live : Children) → IsSame s s' → Inv s live → Inv s' live
Inv-same s s' live e v = record {
  few = omega (arith, e.count_same, v.few);
  placed = λ p idx q.
      let w = v.placed p idx q in
      record {
        place = w.place;
        low = omega (arith, e.count_same, w.low);
        there = ap (λ c. c.pid) (e.users_same w.place w.low) ∙ w.there;
        mapped = ap (λ f. f p) e.map_same ∙ w.mapped;
        idx_low = w.idx_low;
      };
  filled = λ j l.
      let low : j < s.user_count = omega (arith, e.count_same, l) in
      let w = v.filled j low in
      let same_pid : (s'.users j).pid ≡ (s.users j).pid = ap (λ c. c.pid) (e.users_same j low) in
      record {
        idx = w.idx;
        alive = ap live same_pid ∙ w.alive;
        back = ap s'.sub_process same_pid ∙ ap (λ f. f (s.users j).pid) e.map_same ∙ w.back;
      };
}

pub sigchld-IsSame : (pids : List ℕ) (s : Server) → IsSame (reap_all pids s).0 (on_sigchld pids s).0
unfolding on_sigchld
sigchld-IsSame pids s =
    let r = (reap_all pids s).0 in
    elim (Bool-cases (r.terminate && (r.user_count == 0))) [
      | inl stops ↦
          rw stops (record { count_same = refl; map_same = refl; users_same = λ j l. refl })
      | inr goes_on ↦
          rw goes_on (record { count_same = refl; map_same = refl; users_same = λ j l. refl })
    ]

sigterm-IsSame : (s : Server) → IsSame s (on_sigterm s).0
unfolding on_sigterm
sigterm-IsSame s = elim (Bool-cases (s.user_count == 0)) [
  | inl idle ↦ rw idle (record { count_same = refl; map_same = refl; users_same = λ j l. refl })
  | inr busy ↦ rw busy (record { count_same = refl; map_same = refl; users_same = λ j l. refl })
]

signal-IsSame :
    (sig : Signal) (s : Server) → sig ≡ sigterm ⊎ sig ≡ other → IsSame s (on_signal sig s).0
unfolding on_signal
signal-IsSame (sigchld pids) s e = absurd (elim e [ inl q ↦ cc | inr q ↦ cc ])
signal-IsSame sigterm s e = sigterm-IsSame s
signal-IsSame other s e = record { count_same = refl; map_same = refl; users_same = λ j l. refl }

-- `fork` fails: the entry behind the last user is written, which nothing reads.
not_forked-IsSame : (c : Connection) (s : Server) → IsSame s (enter c none s).0
unfolding enter
not_forked-IsSame c s = record {
  count_same = refl;
  map_same = refl;
  users_same = λ j l. let miss : (j == s.user_count) ≡ false = ground (arith, l) in rw miss refl;
}

connection-full :
    (c : Option Connection) (s : Server) → user_limit ≤ s.user_count → (on_connection c s).0 ≡ s
unfolding on_connection
connection-full none s full = refl
connection-full (some c) s full =
    let e : leb user_limit s.user_count ≡ true = ground arith in rw e refl

connection-room :
    (c : Connection) (s : Server)
    → s.user_count < user_limit
    → (on_connection (some c) s).0 ≡ (enter c c.forked s).0
unfolding on_connection
connection-room c s room = let e : leb user_limit s.user_count ≡ false = ground arith in rw e refl

not_forked-Inv :
    (c : Connection) (s : Server) (live : Children)
    → c.forked ≡ none
    → Inv s live
    → Inv (on_connection (some c) s).0 live
not_forked-Inv c s live e v = elim (Bool-cases (leb user_limit s.user_count)) [
  | inl full ↦ subst (λ t. Inv t live) (sym (connection-full (some c) s (ground (arith, full)))) v
  | inr room ↦
      subst (λ t. Inv t live)
        (sym (connection-room c s (ground (arith, room)) ∙ ap (λ f. (enter c f s).0) e))
        (Inv-same s (enter c none s).0 live (not_forked-IsSame c s) v)
]

Step-Inv :
    (s : Server) (live : Children) (s' : Server) (live' : Children)
    → Step s live s' live'
    → Inv s live
    → Inv s' live'
unfolding on_signal
Step-Inv s live _ _ (turned_away c full) v =
    subst (λ t. Inv t live) (sym (connection-full c s full)) v
Step-Inv s live _ _ (not_forked c e) v = not_forked-Inv c s live e v
Step-Inv s live _ _ (connected c pid e fresh room) v =
    subst (λ t. Inv t (put live pid (some s.user_count)))
      (sym (connection-room c s room ∙ ap (λ f. (enter c f s).0) e))
      (enter-Inv c pid s live fresh room v)
Step-Inv s live _ live' (exited pids e) v =
    Inv-same (reap_all pids s).0 (on_sigchld pids s).0 live' (sigchld-IsSame pids s)
      (reap_all-Inv s live live' pids e v)
Step-Inv s live _ _ (signalled sig e) v =
    Inv-same s (on_signal sig s).0 live (signal-IsSame sig s e) v

-- In every state that the server reaches there are at most five users, the users are the children that there are,
-- each once, `sub_process` maps the process of each to its place, and each child was started with a number below
-- five, so that its buffer lies within the shared memory.
pub Reach-Inv : (s : Server) (live : Children) → Reach s live → Inv s live
Reach-Inv _ _ (begin users) = start-Inv users
Reach-Inv s' live' (onward {s = s} {live = live} r step) =
    Step-Inv s live s' live' step (Reach-Inv s live r)
