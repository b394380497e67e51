-- ===== src/ServerPool/Conns.antt =====
-- The workers use the pool of connections as its threads do.
use mathlib.Core.Path.{subst}
use c_language_learnning.Base.{
  ℕ, ◌<◌, ◌≡◌, refl, sym, ap, ◌∙◌, fun_ext, ◌⊎◌, inl, inr, ◌==◌, Bool-cases, arith,
}
use c_language_learnning.Base.Threads.{update}
use c_language_learnning.ConnPool
use c_language_learnning.ServerPool.{
  Pc, waiting, woken, locked, found_empty, popped, handling, processing, idle, appending, refused,
  pushed, appended, Shared, Move, wait, lock, empty, unlock_empty, pop, unlock_popped, skip_null,
  handled, connect, work, disconnect, call, full, unlock_full, push, unlock_pushed, post, State,
  step, Reach, start, next,
}

-- Where a thread stands in the pool of connections.
unfoldable pub conn : Pc → ConnPool.Pc
conn waiting = ConnPool.outside
conn woken = ConnPool.outside
conn locked = ConnPool.outside
conn found_empty = ConnPool.outside
conn (popped r) = ConnPool.outside
conn (handling r) = ConnPool.outside
conn (processing r c) = c
conn idle = ConnPool.outside
conn (appending r state) = ConnPool.outside
conn refused = ConnPool.outside
conn pushed = ConnPool.outside
conn appended = ConnPool.outside

abbrev pub view : Shared → (ℕ → Pc) → ConnPool.State
view x pc = record { pool = x.conns; pc = λ j. conn (pc j) }

-- What a step of a thread is to the pool of connections: nothing, or a step.
data Seen (x : Shared) (c : Pc) (x' : Shared) (c' : Pc) : Type 0 where
  nothing : x'.conns ≡ x.conns → conn c' ≡ conn c → Seen x c x' c'
  moved : ConnPool.Move x.conns (conn c) x'.conns (conn c') → Seen x c x' c'

Move-Seen : {x x' : Shared} {c c' : Pc} → Move x c x' c' → Seen x c x' c'
unfolding conn
Move-Seen (wait e) = nothing refl refl
Move-Seen (lock e) = nothing refl refl
Move-Seen (empty e) = nothing refl refl
Move-Seen unlock_empty = nothing refl refl
Move-Seen (pop e) = nothing refl refl
Move-Seen unlock_popped = nothing refl refl
Move-Seen skip_null = nothing refl refl
Move-Seen (handled read_ok write_ok ne e) = nothing refl refl
Move-Seen (connect read_ok write_ok ne e m) = moved m
Move-Seen (work m ne) = moved m
Move-Seen (disconnect m) = moved m
Move-Seen (call r state) = nothing refl refl
Move-Seen (full e l) = nothing refl refl
Move-Seen unlock_full = nothing refl refl
Move-Seen (push e l) = nothing refl refl
Move-Seen unlock_pushed = nothing refl refl
Move-Seen post = nothing refl refl

update-conn :
    (pc : ℕ → Pc) (i : ℕ) (c : Pc)
    → (λ j. conn (update pc i c j)) ≡ update (λ j. conn (pc j)) i (conn c)
update-conn pc i c =
    fun_ext
      (λ j. elim (Bool-cases (j == i)) [ inl here ↦ rw here refl | inr other ↦ rw other refl ])

update_same {ℓ} : {T : Type ℓ} (f : ℕ → T) (i : ℕ) (c : T) → c ≡ f i → update f i c ≡ f
update_same f i c e = fun_ext (λ j. elim (Bool-cases (j == i)) [
  | inl here ↦ let same : j ≡ i = ground (arith, here) in rw here (e ∙ ap f (sym same))
  | inr other ↦ rw other refl
])

Step-Reach :
    {n : ℕ} {p0 : ConnPool.Pool} (x : Shared) (pc : ℕ → Pc) (i : ℕ) {x' : Shared} {c' : Pc}
    → i < n
    → Seen x (pc i) x' c'
    → ConnPool.Reach n p0 (view x pc)
    → ConnPool.Reach n p0 (view x' (update pc i c'))
Step-Reach {n} {p0} x pc i {x'} {c'} l (nothing same_pool same_pc) r =
    let same : view x' (update pc i c') ≡ view x pc = λ t. record {
      pool = same_pool t;
      pc = (update-conn pc i c' ∙ update_same (λ j. conn (pc j)) i (conn c') same_pc) t;
    } in
    subst (λ s. ConnPool.Reach n p0 s) (sym same) r
Step-Reach {n} {p0} x pc i {x'} {c'} l (moved m) r =
    subst (λ f. ConnPool.Reach n p0 (record { pool = x'.conns; pc = f }))
      (sym (update-conn pc i c')) (ConnPool.next r (ConnPool.step i l m))

abbrev nowhere : ℕ → ConnPool.Pc
nowhere j = ConnPool.outside

conn-outside : (c : Pc) → (c ≡ waiting) ⊎ (c ≡ idle) → conn c ≡ ConnPool.outside
unfolding conn
conn-outside c (inl e) = rw e refl
conn-outside c (inr e) = rw e refl

-- Every state that the worker threads reach shows, at the places that they have in `connectionRAII`, a state that the pool of
-- connections reaches with as many threads.
pub Reach-view :
    {n : ℕ} {p0 : ConnPool.Pool} {s : State}
    → Reach n p0 s
    → ConnPool.Reach n p0 (view s.shared s.pc)
unfolding conn
Reach-view {n} {p0} (start answers actor_model max_requests requests pc made out) =
    let away : (λ j. conn (pc j)) ≡ nowhere = fun_ext (λ j. conn-outside (pc j) (out j)) in
    subst (λ f. ConnPool.Reach n p0 (record { pool = p0; pc = f })) (sym away)
      (ConnPool.start answers made)
Reach-view (next {s} r (step i l m)) = Step-Reach s.shared s.pc i l (Move-Seen m) (Reach-view r)
