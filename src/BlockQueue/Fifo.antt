-- ===== src/BlockQueue/Fifo.antt =====
-- `block_queue` is the list of Spec: first in, first out, and no more than its size.
use Prim.Native.Nat.{◌<◌}
use c_language_learnning.Base.{
  ℕ, suc, ◌≡◌, refl, sym, ap, ap₂, ◌∙◌, Option, none, some, Bool, true, false, List, [], ◌∷◌, leb,
  if◌then◌else◌, arith, length, Bool-cases, inl, inr, All, map,
}
use c_language_learnning.Base.Int.{ℤ, pos, negsuc}
use c_language_learnning.BlockQueue.{
  BlockQueue, block_queue, clear, push, take_front, take_if, pop, pop_timeout,
}
use c_language_learnning.BlockQueue.Ring.{
  contents, IsQueue, push-Pushed, take_front-Popped, length-contents, empty-IsQueue,
}
use c_language_learnning.BlockQueue.Spec

-- A result with the queue as the list that it holds.
abbrev pub view {ℓ ℓ'} : {T : Type ℓ} {R : Type ℓ'} → R × BlockQueue T → R × List T
view (r, q) = (r, contents q)

abbrev pub view_wait {ℓ} : {T : Type ℓ} → Bool × BlockQueue T → Bool × List T
view_wait (failed, q) = (failed, contents q)

abbrev pub view_pop {ℓ} :
    {T : Type ℓ} → Option (Option T × BlockQueue T) → Option (Option T × List T)
view_pop none = none
view_pop (some (item, q)) = some (item, contents q)

-- What an operation on a queue does, against what it does to the list.
record Refines {ℓ ℓ'} {T : Type ℓ} {R : Type ℓ'} (q : BlockQueue T) (r : R × BlockQueue T)
    (s : R × List T) : Type (ℓ ⊔ ℓ') where
  valid : IsQueue r.1
  result : r.0 ≡ s.0
  holds : contents r.1 ≡ s.1
  max_same : r.1.m_max_size ≡ q.m_max_size

push-Refines {ℓ} :
    {T : Type ℓ} (item : T) (q : BlockQueue T)
    → IsQueue q
    → Refines q (push item q) (Spec.push q.m_max_size item (contents q))
unfolding Spec.push push
push-Refines item q v = elim (Bool-cases (leb q.m_max_size q.m_size)) [
  | inl no_room ↦
      rw (length-contents q, no_room)
        (record { valid = v; result = refl; holds = refl; max_same = refl })
  | inr room ↦
      let p = push-Pushed item q v (ground arith) in
      let full : leb q.m_max_size (length (contents q)) ≡ false = rw (length-contents q) room in
      rw full (record { valid = p.valid; result = p.ok; holds = p.adds; max_same = p.max_same })
]

nothing {ℓ} : {T : Type ℓ} (xs : List T) → length xs ≡ 0 → xs ≡ []
nothing [] e = refl
nothing (x ∷ xs) e = absurd (omega (arith, e))

take_front-Refines {ℓ} :
    {T : Type ℓ} (q : BlockQueue T)
    → IsQueue q
    → 0 < q.m_size
    → Refines q (take_front q) (Spec.take_if (contents q))
unfolding Spec.take_if
take_front-Refines q v some_item =
    let p = take_front-Popped q v some_item in
    rw p.takes (record { valid = p.valid; result = p.given; holds = refl; max_same = p.max_same })

take_if-Refines {ℓ} :
    {T : Type ℓ} (q : BlockQueue T) → IsQueue q → Refines q (take_if q) (Spec.take_if (contents q))
unfolding take_if Spec.take_if
take_if-Refines q v = elim (Bool-cases (leb q.m_size 0)) [
  | inl no_item ↦
      let e = nothing (contents q) (length-contents q ∙ ground arith) in
      rw no_item (record {
        valid = v;
        result = sym (ap (λ xs. (Spec.take_if xs).0) e);
        holds = e ∙ sym (ap (λ xs. (Spec.take_if xs).1) e);
        max_same = refl;
      })
  | inr item ↦ rw item (take_front-Refines q v (ground arith))
]

some_front {ℓ} :
    {T : Type ℓ} (q : BlockQueue T)
    → IsQueue q
    → 0 < q.m_size
    → (item : T) × (xs : List T) × (contents q ≡ item ∷ xs)
      × (view_pop (some (take_front q)) ≡ some (some item, xs))
some_front q v some_item =
    let p = take_front-Popped q v some_item in
    (
      p.item,
      contents (take_front q).1,
      p.takes,
      ap (λ o. some (o, contents (take_front q).1)) p.given,
    )

waited {ℓ} :
    {T : Type ℓ} (failed : Bool) (q : BlockQueue T) (more : Option (Option T × BlockQueue T))
    (s : Option (Option T × List T))
    → view_pop more ≡ s
    → view_pop (if failed then some (none, q) else more)
      ≡ (if failed then some (none, contents q) else s)
waited true q more s e = refl
waited false q more s e = e

-- Whatever other threads do while it waits, `pop` does what the list does: while that is empty it waits, a wait that
-- fails ends it, and as soon as there is an item it takes the first.
pub pop_refines {ℓ} :
    {T : Type ℓ} (waits : List (Bool × BlockQueue T)) (q : BlockQueue T)
    → All (λ w. IsQueue w.1) waits
    → IsQueue q
    → view_pop (pop waits q) ≡ Spec.pop (map view_wait waits) (contents q)
unfolding pop Spec.pop
pop_refines [] q vs v = elim (Bool-cases (leb q.m_size 0)) [
  | inl no_item ↦ rw (no_item, nothing (contents q) (length-contents q ∙ ground arith)) refl
  | inr item ↦ let p = some_front q v (ground arith) in rw (item, p.2) p.3
]
pop_refines ((failed, q') ∷ waits) q vs v = elim (Bool-cases (leb q.m_size 0)) [
  | inl no_item ↦
      rw (no_item, nothing (contents q) (length-contents q ∙ ground arith))
        (waited failed q' (pop waits q') (Spec.pop (map view_wait waits) (contents q'))
          (pop_refines waits q' vs.1 vs.0))
  | inr item ↦ let p = some_front q v (ground arith) in rw (item, p.2) p.3
]

-- A call, and what it returns.
pub data Op {ℓ} (T : Type ℓ) : Type ℓ where
  op_push : T → Op T
  op_pop op_clear : Op T

pub data Returns {ℓ} (T : Type ℓ) : Type ℓ where
  pushed : Bool → Returns T
  popped : Option T → Returns T
  cleared : Returns T

-- One call after another. A `pop` is the one with a timeout, which runs out with the queue as it was.
unfoldable pub run {ℓ} : {T : Type ℓ} → List (Op T) → BlockQueue T → List (Returns T) × BlockQueue T
run [] q = ([], q)
run (op_push item ∷ ops) q =
    let r = push item q in let rest = run ops r.1 in (pushed r.0 ∷ rest.0, rest.1)
run (op_pop ∷ ops) q =
    let r = pop_timeout (true, q) q in let rest = run ops r.1 in (popped r.0 ∷ rest.0, rest.1)
run (op_clear ∷ ops) q = let rest = run ops (clear q) in (cleared ∷ rest.0, rest.1)

-- The same calls on a list.
unfoldable pub spec_run {ℓ} : {T : Type ℓ} → ℕ → List (Op T) → List T → List (Returns T) × List T
spec_run max [] xs = ([], xs)
spec_run max (op_push item ∷ ops) xs =
    let r = Spec.push max item xs in
    let rest = spec_run max ops r.1 in (pushed r.0 ∷ rest.0, rest.1)
spec_run max (op_pop ∷ ops) xs =
    let r = Spec.take_if xs in let rest = spec_run max ops r.1 in (popped r.0 ∷ rest.0, rest.1)
spec_run max (op_clear ∷ ops) xs = let rest = spec_run max ops [] in (cleared ∷ rest.0, rest.1)

pop_timeout-Refines {ℓ} :
    {T : Type ℓ} (q : BlockQueue T)
    → IsQueue q
    → Refines q (pop_timeout (true, q) q) (Spec.take_if (contents q))
unfolding pop_timeout take_if
pop_timeout-Refines q v = elim (Bool-cases (leb q.m_size 0)) [
  | inl no_item ↦ rw no_item (rw no_item at (take_if-Refines q v))
  | inr item ↦ rw item (take_front-Refines q v (ground arith))
]

clear-Refines {ℓ} :
    {T : Type ℓ} (q : BlockQueue T) → IsQueue q → IsQueue (clear q) × (contents (clear q) ≡ [])
unfolding clear
clear-Refines q v =
    let e = empty-IsQueue q v.some_room in
    (e, nothing (contents (clear q)) (length-contents (clear q)))

-- The first call, and the calls after it.
call-run {ℓ ℓ'} :
    {T : Type ℓ} {R : Type ℓ'} (f : R → Returns T) (ops : List (Op T)) (q : BlockQueue T)
    (r : R × BlockQueue T) (s : R × List T)
    → Refines q r s
    → view (run ops r.1) ≡ spec_run r.1.m_max_size ops (contents r.1)
    → view (f r.0 ∷ (run ops r.1).0, (run ops r.1).1)
      ≡ (f s.0 ∷ (spec_run q.m_max_size ops s.1).0, (spec_run q.m_max_size ops s.1).1)
call-run f ops q r s v e =
    ap₂ (λ o x. (o ∷ x.0, x.1)) (ap f v.result)
      (e ∙ ap₂ (λ max xs. spec_run max ops xs) v.max_same v.holds)

max_cleared {ℓ} : {T : Type ℓ} (q : BlockQueue T) → (clear q).m_max_size ≡ q.m_max_size
unfolding clear
max_cleared q = refl

run-spec_run {ℓ} :
    {T : Type ℓ} (ops : List (Op T)) (q : BlockQueue T)
    → IsQueue q
    → view (run ops q) ≡ spec_run q.m_max_size ops (contents q)
unfolding run spec_run
run-spec_run [] q v = refl
run-spec_run (op_push item ∷ ops) q v =
    let r = push-Refines item q v in
    call-run pushed ops q (push item q) (Spec.push q.m_max_size item (contents q)) r
      (run-spec_run ops (push item q).1 r.valid)
run-spec_run (op_pop ∷ ops) q v =
    let r = pop_timeout-Refines q v in
    call-run popped ops q (pop_timeout (true, q) q) (Spec.take_if (contents q)) r
      (run-spec_run ops (pop_timeout (true, q) q).1 r.valid)
run-spec_run (op_clear ∷ ops) q v =
    let c = clear-Refines q v in
    ap (λ x. (cleared ∷ x.0, x.1))
      (run-spec_run ops (clear q) c.0 ∙ ap₂ (λ max xs. spec_run max ops xs) (max_cleared q) c.1)

-- A queue made for one item or more returns, call after call, what the list of Spec returns, and then holds what that
-- list holds, whatever its array held before.
pub run-refines {ℓ} :
    {T : Type ℓ} (n : ℕ) (a : ℤ → T) (ops : List (Op T))
    → (q : BlockQueue T) × (block_queue (pos (suc n)) a ≡ some q)
      × (view (run ops q) ≡ spec_run (suc n) ops [])
unfolding block_queue clear
run-refines n a ops =
    let q : BlockQueue _ = record {
      m_array = a;
      m_size = 0;
      m_max_size = suc n;
      m_front = negsuc 0;
      m_back = negsuc 0;
    } in
    let v = empty-IsQueue q (omega arith) in
    (
      q,
      refl,
      run-spec_run ops q v
          ∙ ap (λ xs. spec_run (suc n) ops xs) (nothing (contents q) (length-contents q)),
    )
