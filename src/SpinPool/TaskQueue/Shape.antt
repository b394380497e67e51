-- ===== src/SpinPool/TaskQueue/Shape.antt =====
-- Which memory holds which tasks, and that the operations keep this.
use c_language_learnning.Base.{
  ◌≡◌, ◌≢◌, refl, none, some, Bool, true, false, ◌||◌, List, [], ◌∷◌, ◌++◌, arith, ◌==◌, Bool-cases,
  inl, inr, ap, sym, ◌∙◌, ==_iff,
}
use mathlib.Core.Path.{subst}
use c_language_learnning.SpinPool.TaskQueue.{
  Ptr, Loc, head_field, next_of, Queue, update, store, add_task, pop_task,
}

abbrev pub has : Ptr → List Ptr → Bool
has t [] = false
has t (u ∷ ts) = (t == u) || has t ts

-- From `p` the `next` fields lead through the distinct tasks `ts` to NULL.
abbrev pub Links : (Ptr → Ptr) → Ptr → List Ptr → Type 0
Links next p [] = p ≡ 0
Links next p (t ∷ ts) = (p ≡ t) × (t ≢ 0) × (has t ts ≡ false) × Links next (next t) ts

-- Where the NULL at the end stands.
abbrev pub last_loc : List Ptr → Loc
last_loc [] = head_field
last_loc (t ∷ []) = next_of t
last_loc (t ∷ u ∷ ts) = last_loc (u ∷ ts)

pub record Holds (m : Queue) (ts : List Ptr) : Type 0 where
  pub links : Links m.next m.head ts
  pub tail : m.tail ≡ last_loc ts

-- A write to a task outside the queue changes nothing.
Links-update :
    (next : Ptr → Ptr) (p t v : Ptr) (ts : List Ptr)
    → has t ts ≡ false
    → Links next p ts
    → Links (update next t v) p ts
Links-update next p t v [] h l = l
Links-update next p t v (u ∷ ts) h l =
    let ih = Links-update next (next u) t v ts (ground arith) l.3 in ground (arith, ih)

-- The last of the tasks `t ∷ ts`.
last : Ptr → List Ptr → Ptr
last t [] = t
last t (u ∷ ts) = last u ts

last_loc-last : (t : Ptr) (ts : List Ptr) → last_loc (t ∷ ts) ≡ next_of (last t ts)
unfolding last
last_loc-last t [] = refl
last_loc-last t (u ∷ ts) = last_loc-last u ts

has-last : (t : Ptr) (ts : List Ptr) → has (last t ts) (t ∷ ts) ≡ true
unfolding last
has-last t [] = ground arith
has-last t (u ∷ ts) = let ih = has-last u ts in ground (arith, ih)

has-ne : (a b : Ptr) (ts : List Ptr) → has a ts ≡ true → has b ts ≡ false → (b == a) ≡ false
has-ne a b ts h k = elim (Bool-cases (b == a)) [
  | inl e ↦ cc (ap (λ q. has q ts) ((==_iff b a).0 e))
  | inr ne ↦ ne
]

has-append : (a : Ptr) (xs : List Ptr) (t : Ptr) → has a (xs ++ (t ∷ [])) ≡ (has a xs || (a == t))
has-append a [] t = ground arith
has-append a (x ∷ xs) t = let ih = has-append a xs t in ground (arith, ih)

==_comm : (a b : Ptr) → (a == b) ≡ (b == a)
==_comm a b = ground arith

last_loc-append : (ts : List Ptr) (t : Ptr) → last_loc (ts ++ (t ∷ [])) ≡ next_of t
last_loc-append [] t = refl
last_loc-append (u ∷ []) t = refl
last_loc-append (u ∷ v ∷ ts) t = last_loc-append (v ∷ ts) t

-- The write of `task` over the NULL at the end.
Links-link :
    (next : Ptr → Ptr) (task p u : Ptr) (us : List Ptr)
    → Links next p (u ∷ us)
    → has task (u ∷ us) ≡ false
    → task ≢ 0
    → next task ≡ 0
    → Links (update next (last u us) task) p (u ∷ (us ++ (task ∷ [])))
unfolding last
Links-link next task p u [] l out ne clear =
    let differ : (task == u) ≡ false = ground arith in
    (l.0, l.1, ground arith, (ground arith, ne, refl, ground arith))
Links-link next task p u (w ∷ ws) l out ne clear =
    let ih = Links-link next task (next u) w ws l.3 (ground arith) ne clear in
    let apart = has-ne (last w ws) u (w ∷ ws) (has-last w ws) l.2 in
    let same : update next (last w ws) task u ≡ next u = rw apart in
    (
      l.0,
      l.1,
      has-append u (w ∷ ws) task ∙ ground arith,
      subst (λ q. Links (update next (last w ws) task) q (w ∷ (ws ++ (task ∷ [])))) (sym same) ih,
    )

add_task-head :
    (task : Ptr) (m : Queue)
    → m.tail ≡ head_field
    → add_task task m ≡ record { head = task; tail = next_of task; next = update m.next task 0 }
unfolding add_task
add_task-head task m e = rw (e, store)

add_task-next :
    (task l : Ptr) (m : Queue)
    → m.tail ≡ next_of l
    → add_task task m
      ≡ record { head = m.head; tail = next_of task; next = update (update m.next task 0) l task }
unfolding add_task
add_task-next task l m e = rw (e, store)

-- `__add_task` puts a task that is not in the queue behind all that are, and the tail where the
-- next one will be linked.
pub add_task-Holds :
    (task : Ptr) (m : Queue) (ts : List Ptr)
    → Holds m ts
    → task ≢ 0
    → has task ts ≡ false
    → Holds (add_task task m) (ts ++ (task ∷ []))
add_task-Holds task m [] h ne out =
    rw (add_task-head task m h.tail)
      (record { links = (refl, ne, refl, ground arith); tail = refl })
add_task-Holds task m (u ∷ us) h ne out =
    rw (add_task-next task (last u us) m (h.tail ∙ last_loc-last u us)) (record {
      links =
          Links-link (update m.next task 0) task m.head u us
            (Links-update m.next m.head task 0 (u ∷ us) out h.links) out ne (ground arith);
      tail = sym (last_loc-append (u ∷ us) task);
    })

-- On an empty queue `__pop_task` returns NULL and changes nothing.
pub pop_task-nil : (m : Queue) → Holds m [] → pop_task m ≡ (none, m)
unfolding pop_task
pop_task-nil m h = rw (h.links, pop_task)

pop-cons :
    (head : Ptr) (tail : Loc) (next : Ptr → Ptr) (t : Ptr) (ts : List Ptr)
    → Holds (record { head = head; tail = tail; next = next }) (t ∷ ts)
    → (m' : Queue) × (pop_task (record { head = head; tail = tail; next = next }) ≡ (some t, m'))
      × Holds m' ts
      × (m'.next ≡ next)
unfolding pop_task
pop-cons head tail next t [] h = (
  record { head = 0; tail = head_field; next = next },
  ground arith,
  record { links = refl; tail = refl },
  refl,
)
pop-cons head tail next t (u ∷ ts) h = (
  record { head = u; tail = tail; next = next },
  ground arith,
  record { links = (refl, h.links.3.1, h.links.3.2, h.links.3.3); tail = h.tail },
  refl,
)

-- From a queue that is not empty `__pop_task` returns the first task, leaves the rest of the queue in order, and writes to no task.
pub pop_task-cons :
    (m : Queue) (t : Ptr) (ts : List Ptr)
    → Holds m (t ∷ ts)
    → (m' : Queue) × (pop_task m ≡ (some t, m')) × Holds m' ts × (m'.next ≡ m.next)
pop_task-cons m t ts h = pop-cons m.head m.tail m.next t ts h
