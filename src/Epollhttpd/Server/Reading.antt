-- ===== src/Epollhttpd/Server/Reading.antt =====
-- What `do_read` reads, and that it gets to its answer.
use c_language_learnning.Base.{
  ℕ, zero, suc, ◌<◌, ◌≡◌, ◌≢◌, ◌⊎◌, refl, sym, ap, ◌∙◌, some, List, [], ◌∷◌, ◌++◌, append_assoc,
  arith, length, Bool-cases, inl, inr, ◌==◌, c_str,
}
use c_language_learnning.Socket.{Poll, Sock, nothing}
use c_language_learnning.Line.{get_line}
use c_language_learnning.Line.Bounds.{get_line_bounds}
use c_language_learnning.Line.Used.{get_line-Used, Ends, at_end, no_byte, get_line-Ends}
use c_language_learnning.Epollhttpd.Server.{Env, read_rest, answer, do_read}

-- Lines are taken off the socket one after another, up to a `recv` at the beginning of a line that gives no byte.
pub data ReadOff : Sock → Sock → Type 0 where
  done : {s s' : Sock} → Ends s s' → ReadOff s s'
  line :
      {s s' : Sock} → length (get_line 1024 s).0 ≢ 0 → ReadOff (get_line 1024 s).1 s' → ReadOff s s'

-- That with the outcomes that were used up: they are the first of the socket, and the last of them gave no byte unless the
-- socket is at its end.
pub record Drained (s s' : Sock) : Type 0 where
  pub lines : ReadOff s s'
  pub used : List Poll
  pub split : s ≡ used ++ s'
  pub stop : (s' ≡ []) ⊎ ((before : List Poll) × (used ≡ before ++ (nothing ∷ [])))

Ends-Drained : (s s' : Sock) → Ends s s' → Drained s s'
Ends-Drained s s' at_end = record { lines = done at_end; used = []; split = refl; stop = inl refl }
Ends-Drained s s' no_byte = record {
  lines = done no_byte;
  used = nothing ∷ [];
  split = refl;
  stop = inr ([], refl);
}

line-Drained :
    (s s' : Sock) → length (get_line 1024 s).0 ≢ 0 → Drained (get_line 1024 s).1 s' → Drained s s'
line-Drained s s' ne d =
    let (xs, e) = get_line-Used s in
    record {
      lines = line ne d.lines;
      used = xs ++ d.used;
      split = e ∙ ap (λ l. xs ++ l) d.split ∙ sym (append_assoc xs d.used s');
      stop = elim d.stop [
        | inl all ↦ inl all
        | inr (before, last) ↦
            inr (xs ++ before, ap (λ l. xs ++ l) last ∙ sym (append_assoc xs before (nothing ∷ [])))
      ];
    }

read_rest-Drained :
    (fuel : ℕ) (s : Sock)
    → length s < fuel
    → (s' : Sock) × (read_rest fuel s ≡ some s') × Drained s s'
unfolding read_rest
read_rest-Drained zero s h = absurd (omega arith)
read_rest-Drained (suc fuel) s h = elim (Bool-cases (length (get_line 1024 s).0 == 0)) [
  | inl stop ↦
      let e : length (get_line 1024 s).0 ≡ 0 = ground (arith, stop) in
      let d = Ends-Drained s (get_line 1024 s).1 (get_line-Ends s e) in
      rw (stop, read_rest) ((get_line 1024 s).1, refl, d)
  | inr more ↦
      let ne : length (get_line 1024 s).0 ≢ 0 = ground (arith, more) in
      let (s', e, d) =
        read_rest-Drained fuel (get_line 1024 s).1
          (ground (arith, (get_line_bounds 1024 s (omega arith)).2)) in
      rw (more, read_rest) (s', e, line-Drained s s' ne d)
]

-- `do_read` never reads for ever: whatever the client sends, it takes line after line off the socket, up to a `recv` at the
-- beginning of a line that gives no byte, and then answers the first line. The socket that it leaves is what follows.
pub do_read-answer :
    (env : Env) (cfd efd : ℕ) (s : Sock)
    → (s' : Sock) × (do_read env cfd efd s
        ≡ some (s', answer env (c_str (get_line 1024 s).0) cfd efd))
      × Drained s s'
unfolding do_read
do_read-answer env cfd efd s = elim (Bool-cases (length (get_line 1024 s).0 == 0)) [
  | inl stop ↦
      let e : length (get_line 1024 s).0 ≡ 0 = ground (arith, stop) in
      let d = Ends-Drained s (get_line 1024 s).1 (get_line-Ends s e) in
      rw stop ((get_line 1024 s).1, refl, d)
  | inr more ↦
      let ne : length (get_line 1024 s).0 ≢ 0 = ground (arith, more) in
      let (s', e, d) =
        read_rest-Drained (suc (length (get_line 1024 s).1)) (get_line 1024 s).1 (omega arith) in
      rw (more, e) (s', refl, line-Drained s s' ne d)
]
