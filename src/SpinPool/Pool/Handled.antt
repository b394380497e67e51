-- ===== src/SpinPool/Pool/Handled.antt =====
-- Every task that a worker takes is run by it.
use c_language_learnning.Base.{
  ℕ, ◌≡◌, refl, sym, ap, ◌∙◌, List, [], ◌∷◌, ◌++◌, append-nil, ◌==◌, if◌then◌else◌, arith,
  Bool-cases, inl, inr,
}
use c_language_learnning.SpinPool.TaskQueue.{Queue}
use c_language_learnning.SpinPool.Pool.{
  Flags, Pc, top, popping, empty, asleep, running, exited, Move, enter, leave, pop_some, pop_null,
  sleep, give_up, spurious, finish, State, woken, worker, client, signal, signal_none, broadcast,
  Reach, start, next,
}
use c_language_learnning.SpinPool.Pool.Balance.{taken_by}

-- The task whose handler returns in a step.
unfoldable pub run_by : {f : Flags} {m m' : Queue} {p p' : Pc} → Move f m p m' p' → List ℕ
run_by (finish {x}) = x ∷ []
run_by (pop_some e) = []
run_by (enter e) = []
run_by (leave e) = []
run_by (pop_null e) = []
run_by (sleep e) = []
run_by (give_up e) = []
run_by spurious = []

-- The tasks that worker `i` took, and those that it has run, in order.
unfoldable pub takes_of : {s : State} → ℕ → Reach s → List ℕ
takes_of i start = []
takes_of i (next r (worker j mv)) = takes_of i r ++ (if i == j then taken_by mv else [])
takes_of i (next r (client call)) = takes_of i r
takes_of i (next r (signal j n h)) = takes_of i r
takes_of i (next r (signal_none n h)) = takes_of i r
takes_of i (next r (broadcast n)) = takes_of i r

unfoldable pub runs_of : {s : State} → ℕ → Reach s → List ℕ
runs_of i start = []
runs_of i (next r (worker j mv)) = runs_of i r ++ (if i == j then run_by mv else [])
runs_of i (next r (client call)) = runs_of i r
runs_of i (next r (signal j n h)) = runs_of i r
runs_of i (next r (signal_none n h)) = runs_of i r
runs_of i (next r (broadcast n)) = runs_of i r

-- The task whose handler a worker is in.
unfoldable pub in_hand : Pc → List ℕ
in_hand (running x) = x ∷ []
in_hand top = []
in_hand popping = []
in_hand empty = []
in_hand asleep = []
in_hand exited = []

Move-in_hand :
    {f : Flags} {m m' : Queue} {p p' : Pc} (ts rs : List ℕ) (mv : Move f m p m' p')
    → ts ≡ rs ++ in_hand p
    → ts ++ taken_by mv ≡ (rs ++ run_by mv) ++ in_hand p'
unfolding taken_by run_by in_hand
Move-in_hand ts rs (pop_some {x} e) h = ap (λ l. l ++ (x ∷ [])) h
Move-in_hand ts rs (finish {x = x}) h = append-nil ts ∙ h ∙ sym (append-nil (rs ++ (x ∷ [])))
Move-in_hand ts rs (enter e) h = ap (λ l. l ++ []) h
Move-in_hand ts rs (leave e) h = ap (λ l. l ++ []) h
Move-in_hand ts rs (pop_null e) h = ap (λ l. l ++ []) h
Move-in_hand ts rs (sleep e) h = ap (λ l. l ++ []) h
Move-in_hand ts rs (give_up e) h = ap (λ l. l ++ []) h
Move-in_hand ts rs spurious h = ap (λ l. l ++ []) h

in_hand-woken : (p : Pc) → in_hand (woken p) ≡ in_hand p
unfolding in_hand
in_hand-woken top = refl
in_hand-woken popping = refl
in_hand-woken empty = refl
in_hand-woken asleep = refl
in_hand-woken (running x) = refl
in_hand-woken exited = refl

-- Whatever the threads do, and in whatever order: the tasks that a worker took, in order, are those whose handlers it has run, and behind them
-- the one whose handler it is in, if it is in one.
pub handled_in_order :
    {s : State} (i : ℕ) (r : Reach s) → takes_of i r ≡ runs_of i r ++ in_hand (s.pc i)
unfolding takes_of runs_of in_hand
handled_in_order i start = refl
handled_in_order i (next {s} r (worker j mv)) = elim (Bool-cases (i == j)) [
  | inl same ↦
      let at : i ≡ j = ground (arith, same) in
      let ih : takes_of i r ≡ runs_of i r ++ in_hand (s.pc j) =
        handled_in_order i r ∙ ap (λ k. runs_of i r ++ in_hand (s.pc k)) at in
      rw same (Move-in_hand (takes_of i r) (runs_of i r) mv ih)
  | inr other ↦ rw other (
      append-nil (takes_of i r)
      ∙ handled_in_order i r
      ∙ ap (λ l. l ++ in_hand (s.pc i)) (sym (append-nil (runs_of i r))))
]
handled_in_order i (next r (client call)) = handled_in_order i r
handled_in_order i (next {s} r (signal j n h)) = elim (Bool-cases (i == j)) [
  | inl same ↦
      let at : i ≡ j = ground (arith, same) in
      let none_held : in_hand (s.pc i) ≡ [] = ap (λ k. in_hand (s.pc k)) at ∙ ap in_hand h in
      rw same (handled_in_order i r ∙ ap (λ l. runs_of i r ++ l) none_held)
  | inr other ↦ rw other (handled_in_order i r)
]
handled_in_order i (next r (signal_none n h)) = handled_in_order i r
handled_in_order i (next {s} r (broadcast n)) =
    handled_in_order i r ∙ ap (λ l. runs_of i r ++ l) (sym (in_hand-woken (s.pc i)))
