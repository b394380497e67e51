-- ===== src/BlockQueue/Front.antt =====
-- What `front` and `back` give.
use Prim.Native.Nat.{◌<◌}
use c_language_learnning.Base.{◌+◌, ◌-◌, ◌%◌, ◌≡◌, refl, some, true, false, leb, ◌==◌, arith}
use c_language_learnning.BlockQueue.{BlockQueue, put, push, take_front, take_if, front, back}
use c_language_learnning.BlockQueue.Ring.{first, IsQueue}

-- With two items or more, after a `pop` that need not wait `front` gives the item that was popped, which
-- is no longer in the queue.
pub front-take_if {ℓ} :
    {T : Type ℓ} (q : BlockQueue T) → 1 < q.m_size → front (take_if q).1 ≡ (take_if q).0
unfolding front take_if take_front
front-take_if q more =
    let item : leb q.m_size 0 ≡ false = ground arith in
    let left : (0 == q.m_size - 1) ≡ false = ground arith in rw item (rw left refl)

-- After a `push` into a queue with room, `back` gives the item.
pub back-push {ℓ} :
    {T : Type ℓ} (item : T) (q : BlockQueue T)
    → IsQueue q
    → q.m_size < q.m_max_size
    → back (push item q).1 ≡ some item
unfolding back push put
back-push item q v room =
    let has_room : leb q.m_max_size q.m_size ≡ false = ground arith in
    let i = (first q + q.m_size) % q.m_max_size in
    let hit : (i == i) ≡ true = ground arith in
    let filled : (0 == q.m_size + 1) ≡ false = ground arith in
    rw (has_room, v.back_next, filled, hit) refl
