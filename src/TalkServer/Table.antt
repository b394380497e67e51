-- ===== src/TalkServer/Table.antt =====
-- The parent's table against the children that there are.
use Prim.Native.Nat.{◌≤◌, ◌<◌}
use mathlib.Core.Path.{subst}
use c_language_learnning.Base.{
  ℕ, ◌+◌, ◌-◌, ◌≡◌, ◌≢◌, refl, sym, ap, ◌∙◌, none, some, true, false, List, ltb, ◌==◌, arith,
  Bool-cases, inl, inr,
}
use c_language_learnning.Base.Int.{pos, negsuc}
use c_language_learnning.TalkServer.{
  user_limit, Client, Server, put, start, Connection, enter, delete, reap, reap_all,
}
use c_language_learnning.TalkServer.System.{Children, Placed, Filled, Inv, Exits, no_more, exits}

pub start-Inv : (users : ℕ → Client) → Inv (start users) (λ pid. none)
unfolding start
start-Inv users = record {
  few = omega arith;
  placed = λ pid idx e. absurd (cc);
  filled = λ j l. absurd (omega (arith, l));
}

enter-Placed :
    (c : Connection) (pid : ℕ) (s : Server) (live : Children)
    → s.user_count < user_limit
    → Inv s live
    → (p idx : ℕ) → put live pid (some s.user_count) p ≡ some idx
    → Placed (enter c (some pid) s).0 p idx
unfolding enter
enter-Placed c pid s live room v p idx e = elim (Bool-cases (p == pid)) [
  | inl new ↦ record {
    place = s.user_count;
    low = omega arith;
    there = ground (arith, new);
    mapped = rw new refl;
    idx_low = ground (arith, new, e);
  }
  | inr old ↦
      let w = v.placed p idx (rw old at e) in
      record {
        place = w.place;
        low = omega (arith, w.low);
        there = ground (arith, w.low, w.there);
        mapped = rw old w.mapped;
        idx_low = w.idx_low;
      }
]

enter-Filled :
    (c : Connection) (pid : ℕ) (s : Server) (live : Children)
    → live pid ≡ none
    → Inv s live
    → (j : ℕ) → j < s.user_count + 1
    → Filled (enter c (some pid) s).0 (put live pid (some s.user_count)) j
unfolding enter
enter-Filled c pid s live fresh v j l = elim (Bool-cases (j == s.user_count)) [
  | inl new ↦
      let hit : (pid == pid) ≡ true = ground arith in
      let at : j ≡ s.user_count = ground (arith, new) in
      record {
        idx = s.user_count;
        alive = rw new (rw hit refl);
        back = rw new (rw hit (ap pos (sym at)));
      }
  | inr old ↦
      let w = v.filled j (ground (arith, old)) in
      let other_pid : ((s.users j).pid == pid) ≡ false = ground (arith, fresh, w.alive) in
      record {
        idx = w.idx;
        alive = rw old (rw other_pid w.alive);
        back = rw old (rw other_pid w.back);
      }
]

pub enter-Inv :
    (c : Connection) (pid : ℕ) (s : Server) (live : Children)
    → live pid ≡ none
    → s.user_count < user_limit
    → Inv s live
    → Inv (enter c (some pid) s).0 (put live pid (some s.user_count))
unfolding enter
enter-Inv c pid s live fresh room v = record {
  few = omega arith;
  placed = enter-Placed c pid s live room v;
  filled = enter-Filled c pid s live fresh v;
}

-- The parent once the child at place `d` is gone: the last user takes its place.
abbrev moved : Server → ℕ → ℕ → Server
moved s pid d = record s {
  users = put s.users d (s.users (s.user_count - 1));
  user_count = s.user_count - 1;
  sub_process = put (put s.sub_process pid (negsuc 0)) (s.users (s.user_count - 1)).pid (pos d);
}

pub reap-moved :
    (pid d : ℕ) (s : Server)
    → s.sub_process pid ≡ pos d
    → d ≤ user_limit
    → (reap pid s).0 ≡ moved s pid d
unfolding reap delete
reap-moved pid d s e low =
    let inside : ltb user_limit d ≡ false = ground arith in rw (e, inside) refl

pos_eq : (i j : ℕ) → pos i ≡ pos j → i ≡ j
pos_eq i j e = cc

-- Two places of the table have different children.
pub place_unique :
    (s : Server) (live : Children)
    → Inv s live
    → (i j : ℕ) → i < s.user_count
    → j < s.user_count
    → (s.users i).pid ≡ (s.users j).pid
    → i ≡ j
place_unique s live v i j hi hj e =
    let a = (v.filled i hi).back in
    let b = (v.filled j hj).back in pos_eq i j (sym a ∙ ap s.sub_process e ∙ b)

-- A child that stays, at its place before: the last place becomes `d`.
moved-Placed-at :
    (s : Server) (live : Children) (pid d : ℕ)
    → Inv s live
    → d < s.user_count
    → (s.users d).pid ≡ pid
    → (p idx : ℕ) → p ≢ pid
    → Placed s p idx
    → Placed (moved s pid d) p idx
moved-Placed-at s live pid d v low at p idx ne w = elim (Bool-cases (w.place == s.user_count - 1)) [
  | inl last ↦
      let place_last : w.place ≡ s.user_count - 1 = ground (arith, last) in
      let last_pid : (s.users (s.user_count - 1)).pid ≡ p =
        ap (λ i. (s.users i).pid) (sym place_last) ∙ w.there in
      let d_ne : d ≢ s.user_count - 1 =
        λ q. ne (sym last_pid ∙ ap (λ i. (s.users i).pid) (sym q) ∙ at) in
      let hit : (p == (s.users (s.user_count - 1)).pid) ≡ true = ground (arith, last_pid) in
      let at_d : (d == d) ≡ true = ground arith in
      record {
        place = d;
        low = omega (arith, low, d_ne);
        there = rw at_d last_pid;
        mapped = rw hit refl;
        idx_low = w.idx_low;
      }
  | inr before ↦
      let place_ne : w.place ≢ s.user_count - 1 = ground (arith, before) in
      let d_ne : w.place ≢ d = λ q. ne (sym w.there ∙ ap (λ i. (s.users i).pid) q ∙ at) in
      let miss_d : (w.place == d) ≡ false = ground (arith, d_ne) in
      let other : p ≢ (s.users (s.user_count - 1)).pid = λ q. place_ne (
        place_unique s live v w.place (s.user_count - 1) w.low (omega (arith, low))
          (w.there ∙ q)) in
      let miss_last : (p == (s.users (s.user_count - 1)).pid) ≡ false = ground (arith, other) in
      let miss : (p == pid) ≡ false = ground (arith, ne) in
      record {
        place = w.place;
        low = omega (arith, w.low, place_ne);
        there = rw miss_d w.there;
        mapped = rw miss_last (rw miss w.mapped);
        idx_low = w.idx_low;
      }
]

-- A place that stays: the child there is the one from before, or the last one.
moved-Filled :
    (s : Server) (live : Children) (pid d : ℕ)
    → Inv s live
    → d < s.user_count
    → (s.users d).pid ≡ pid
    → (j : ℕ) → j < s.user_count - 1
    → Filled (moved s pid d) (put live pid none) j
moved-Filled s live pid d v low at j l =
    let last = s.user_count - 1 in
    let last_low : last < s.user_count = omega (arith, low) in
    elim (Bool-cases (j == d)) [
      | inl here ↦
          let w = v.filled last last_low in
          let j_d : j ≡ d = ground (arith, here) in
          let other : (s.users last).pid ≢ pid = λ q.
            absurd
              (omega (arith, l, j_d, place_unique s live v last d last_low low (q ∙ sym at))) in
          let miss : ((s.users last).pid == pid) ≡ false = ground (arith, other) in
          let hit : ((s.users last).pid == (s.users last).pid) ≡ true = ground arith in
          record {
            idx = w.idx;
            alive = rw here (rw miss w.alive);
            back = rw here (rw hit (ap pos (sym j_d)));
          }
      | inr there ↦
          let j_low : j < s.user_count = omega (arith, l) in
          let w = v.filled j j_low in
          let j_ne : j ≢ d = ground (arith, there) in
          let other : (s.users j).pid ≢ pid =
            λ q. j_ne (place_unique s live v j d j_low low (q ∙ sym at)) in
          let other_last : (s.users j).pid ≢ (s.users last).pid =
            λ q. absurd (omega (arith, l, place_unique s live v j last j_low last_low q)) in
          let miss : ((s.users j).pid == pid) ≡ false = ground (arith, other) in
          let miss_last : ((s.users j).pid == (s.users last).pid) ≡ false =
            ground (arith, other_last) in
          record {
            idx = w.idx;
            alive = rw there (rw miss w.alive);
            back = rw there (rw miss_last (rw miss w.back));
          }
    ]

reap-Inv :
    (pid idx : ℕ) (s : Server) (live : Children)
    → live pid ≡ some idx
    → Inv s live
    → Inv (reap pid s).0 (put live pid none)
reap-Inv pid idx s live e v =
    let w = v.placed pid idx e in
    let inv : Inv (moved s pid w.place) (put live pid none) = record {
      few = omega (arith, v.few);
      placed = λ p i q.
          let ne : p ≢ pid = ground (arith, q) in
          let miss : (p == pid) ≡ false = ground (arith, ne) in
          moved-Placed-at s live pid w.place v w.low w.there p i ne (v.placed p i (rw miss at q));
      filled = moved-Filled s live pid w.place v w.low w.there;
    } in
    subst (λ t. Inv t (put live pid none))
      (sym (reap-moved pid w.place s w.mapped (omega (arith, w.low, v.few)))) inv

pub reap_all-Inv :
    (s : Server) (live live' : Children) (pids : List ℕ)
    → Exits live pids live'
    → Inv s live
    → Inv (reap_all pids s).0 live'
unfolding reap_all
reap_all-Inv s live live' pids no_more v = v
reap_all-Inv s live live' _ (exits {pids = pids} pid idx e rest) v =
    reap_all-Inv (reap pid s).0 (put live pid none) live' pids rest (reap-Inv pid idx s live e v)
