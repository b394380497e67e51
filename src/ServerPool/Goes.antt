-- ===== src/ServerPool/Goes.antt =====
-- Where a thread of the server can go on.
use Prim.Native.Nat.{◌<◌}
use c_language_learnning.Base.{
  ℕ, zero, suc, ◌+◌, ◌≡◌, ◌≢◌, refl, sym, ◌∙◌, true, false, Option, none, List, [], ◌∷◌, ◌⊎◌, inl,
  inr, arith, length, leb, Bool-cases,
}
use c_language_learnning.Base.Threads.{update}
use c_language_learnning.ConnPool
use c_language_learnning.ServerPool.{
  locks, push_back, pop_front, set_state, handle, Pc, waiting, woken, locked, found_empty, popped,
  handling, processing, idle, appending, refused, pushed, appended, Shared, Move, lock, empty,
  unlock_empty, pop, unlock_popped, skip_null, handled, connect, work, disconnect, full,
  unlock_full, push, unlock_pushed, post,
}
use c_language_learnning.ServerPool.Queue.{claims, critical}
use c_language_learnning.ServerPool.Conns.{conn}

abbrev pub Goes : Shared → Pc → Type 0
Goes x c = (x' : Shared) × (c' : Pc) × Move x c x' c'

locked-Goes : (x : Shared) (xs : List ℕ) → x.queue.m_workqueue ≡ xs → Goes x locked
locked-Goes x [] e = (x, found_empty, empty e)
locked-Goes x (r ∷ rest) e = (record x { queue = pop_front r rest x.queue }, popped r, pop e)

connect-Goes :
    (x : Shared) (r : ℕ) (xs : List ℕ)
    → r ≢ 0
    → x.conns.connlist ≡ xs
    → (handle x.queue.m_actor_model true true (x.requests r)).1 ≡ true
    → Goes x (handling r)
connect-Goes x r [] ne e h = (
  record x {
    requests = update x.requests r (handle x.queue.m_actor_model true true (x.requests r)).0;
  },
  processing r (ConnPool.using none),
  connect true true ne h (ConnPool.refuse e),
)
connect-Goes x r (con ∷ rest) ne e h = (
  record x {
    requests = update x.requests r (handle x.queue.m_actor_model true true (x.requests r)).0;
  },
  processing r ConnPool.checked,
  connect true true ne h (ConnPool.check (λ q. let e' : con ∷ rest ≡ [] = sym e ∙ q in cc)),
)

pub handling-Goes : (x : Shared) (r : ℕ) → Goes x (handling r)
handling-Goes x zero = (x, waiting, skip_null)
handling-Goes x (suc r) =
    let h = handle x.queue.m_actor_model true true (x.requests (suc r)) in
    elim (Bool-cases h.1) [
      | inl processes ↦ connect-Goes x (suc r) x.conns.connlist (omega arith) refl processes
      | inr ends ↦ (
        record x { requests = update x.requests (suc r) h.0 },
        waiting,
        handled true true (omega arith) ends,
      )
    ]

pub appending-Goes :
    (x : Shared) (r : ℕ) (state : Option ℕ)
    → x.queue.m_queuelocker ≡ false
    → Goes x (appending r state)
appending-Goes x r state free =
    elim (Bool-cases (leb x.queue.m_max_requests (length x.queue.m_workqueue))) [
      | inl over ↦
          (record x { queue = locks true x.queue }, refused, full free (ground (arith, over)))
      | inr room ↦ (
        record x {
          queue = push_back r x.queue;
          requests = update x.requests r (set_state state (x.requests r));
        },
        pushed,
        push free (ground (arith, room)),
      )
    ]

pub conn-cases : (c : ConnPool.Pc) → (c ≡ ConnPool.outside) ⊎ (c ≢ ConnPool.outside)
conn-cases ConnPool.outside = inl refl
conn-cases ConnPool.checked = inr (λ q. cc)
conn-cases ConnPool.admitted = inr (λ q. cc)
conn-cases ConnPool.locked = inr (λ q. cc)
conn-cases (ConnPool.got con) = inr (λ q. cc)
conn-cases (ConnPool.using o) = inr (λ q. cc)
conn-cases (ConnPool.giving con) = inr (λ q. cc)
conn-cases ConnPool.given = inr (λ q. cc)
conn-cases ConnPool.unlocked = inr (λ q. cc)

processing-Goes :
    (x : Shared) (r : ℕ) (c c' : ConnPool.Pc) (p : ConnPool.Pool)
    → ConnPool.Move x.conns c p c'
    → Goes x (processing r c)
processing-Goes x r c c' p m = elim (conn-cases c') [
  | inl e ↦ (record x { conns = p }, waiting, disconnect (rw e at m))
  | inr ne ↦ (record x { conns = p }, processing r c', work m ne)
]

pub connecting-Goes :
    (x : Shared) (r : ℕ) (xs : List ℕ)
    → x.conns.connlist ≡ xs
    → Goes x (processing r ConnPool.outside)
connecting-Goes x r [] e =
    processing-Goes x r ConnPool.outside (ConnPool.using none) x.conns (ConnPool.refuse e)
connecting-Goes x r (con ∷ rest) e =
    processing-Goes x r ConnPool.outside ConnPool.checked x.conns
      (ConnPool.check (λ q. let e' : con ∷ rest ≡ [] = sym e ∙ q in cc))

-- A thread that is in the pool of connections and can go on there.
pub conn-Goes :
    (x : Shared) (c : Pc)
    → conn c ≢ ConnPool.outside
    → ((p : ConnPool.Pool) × (c' : ConnPool.Pc) × ConnPool.Move x.conns (conn c) p c')
    → (c ≢ idle) × Goes x c
unfolding conn
conn-Goes x waiting ne g = absurd (ne refl)
conn-Goes x woken ne g = absurd (ne refl)
conn-Goes x locked ne g = absurd (ne refl)
conn-Goes x found_empty ne g = absurd (ne refl)
conn-Goes x (popped r) ne g = absurd (ne refl)
conn-Goes x (handling r) ne g = absurd (ne refl)
conn-Goes x (processing r c) ne (p, c', m) = (λ q. cc, processing-Goes x r c c' p m)
conn-Goes x idle ne g = absurd (ne refl)
conn-Goes x (appending r state) ne g = absurd (ne refl)
conn-Goes x refused ne g = absurd (ne refl)
conn-Goes x pushed ne g = absurd (ne refl)
conn-Goes x appended ne g = absurd (ne refl)

pub critical-Goes : (x : Shared) (c : Pc) → 0 < critical c → (c ≢ idle) × Goes x c
unfolding critical
critical-Goes x locked h = (λ q. cc, locked-Goes x x.queue.m_workqueue refl)
critical-Goes x found_empty h =
    (λ q. cc, (record x { queue = locks false x.queue }, waiting, unlock_empty))
critical-Goes x (popped r) h =
    (λ q. cc, (record x { queue = locks false x.queue }, handling r, unlock_popped))
critical-Goes x refused h = (λ q. cc, (record x { queue = locks false x.queue }, idle, unlock_full))
critical-Goes x pushed h =
    (λ q. cc, (record x { queue = locks false x.queue }, appended, unlock_pushed))
critical-Goes x waiting h = absurd (omega (arith, h))
critical-Goes x woken h = absurd (omega (arith, h))
critical-Goes x (handling r) h = absurd (omega (arith, h))
critical-Goes x (processing r c) h = absurd (omega (arith, h))
critical-Goes x idle h = absurd (omega (arith, h))
critical-Goes x (appending r state) h = absurd (omega (arith, h))
critical-Goes x appended h = absurd (omega (arith, h))

pub appended-Goes : (x : Shared) → Goes x appended
appended-Goes x =
    (record x { queue = record x.queue { m_queuestat = x.queue.m_queuestat + 1 } }, idle, post)

-- A thread that owes or has taken a permit, while the mutex is free.
pub claims-Goes :
    (x : Shared) (c : Pc) → x.queue.m_queuelocker ≡ false → 0 < claims c → (c ≢ idle) × Goes x c
unfolding claims critical
claims-Goes x woken free h = (λ q. cc, (record x { queue = locks true x.queue }, locked, lock free))
claims-Goes x locked free h = critical-Goes x locked (omega arith)
claims-Goes x pushed free h = critical-Goes x pushed (omega arith)
claims-Goes x appended free h = (λ q. cc, appended-Goes x)
claims-Goes x waiting free h = absurd (omega (arith, h))
claims-Goes x found_empty free h = absurd (omega (arith, h))
claims-Goes x (popped r) free h = absurd (omega (arith, h))
claims-Goes x (handling r) free h = absurd (omega (arith, h))
claims-Goes x (processing r c) free h = absurd (omega (arith, h))
claims-Goes x idle free h = absurd (omega (arith, h))
claims-Goes x (appending r state) free h = absurd (omega (arith, h))
claims-Goes x refused free h = absurd (omega (arith, h))
