-- ===== src/BlockQueue/Ring.antt =====
-- The ring against the list of its items, the one that is popped next first.
use Prim.Native.Nat.{◌≤◌, ◌<◌}
use native.Mathlib.Nat.{mod-add-mod, mod-eq_of_lt, mod-eq-sub-mod, mod-lt}
use c_language_learnning.Base.{
  ℕ, zero, suc, ◌+◌, ◌-◌, ◌%◌, ◌≡◌, ◌≢◌, refl, sym, ap, ap₂, ◌∙◌, Option, some, Bool, true, false,
  List, [], ◌∷◌, ◌++◌, leb, ltb, Bool-cases, inl, inr, ◌==◌, arith, length,
}
use c_language_learnning.Base.Int.{ℤ, pos, negsuc, neg}
use c_language_learnning.BlockQueue.{BlockQueue, next, put, clear, push, take_front}

-- The `n` items from index `i` on, round the end of the array.
unfoldable pub window {ℓ} : {T : Type ℓ} → (ℤ → T) → ℕ → ℕ → ℕ → List T
window a max i zero = []
window a max i (suc n) = a (pos i) ∷ window a max ((i + 1) % max) n

-- The index of the item that is popped next.
unfoldable pub first {ℓ} : {T : Type ℓ} → BlockQueue T → ℕ
first q = elim (next q.m_max_size q.m_front) [ pos i ↦ i | negsuc i ↦ 0 ]

unfoldable pub contents {ℓ} : {T : Type ℓ} → BlockQueue T → List T
contents q = window q.m_array q.m_max_size (first q) q.m_size

-- Both indices are where the items are.
pub record IsQueue {ℓ} {T : Type ℓ} (q : BlockQueue T) : Type ℓ where
  pub some_room : 0 < q.m_max_size
  pub room : q.m_size ≤ q.m_max_size
  pub first_inside : first q < q.m_max_size
  pub front_next : next q.m_max_size q.m_front ≡ pos (first q)
  pub back_next : next q.m_max_size q.m_back ≡ pos ((first q + q.m_size) % q.m_max_size)

length-window {ℓ} : {T : Type ℓ} (a : ℤ → T) (max i n : ℕ) → length (window a max i n) ≡ n
unfolding window
length-window a max i zero = refl
length-window a max i (suc n) = ap suc (length-window a max ((i + 1) % max) n)

-- An index some steps ahead, but not once round, is another one.
ahead : (max i steps : ℕ) → i < max → 0 < steps → steps < max → (i + steps) % max ≢ i
ahead max i steps inside some_steps few =
    let end = i + steps in
    elim (Bool-cases (ltb end max)) [
      | inl before ↦
          let same : end % max ≡ end = mod-eq_of_lt (ground (arith, before)) in omega (arith, same)
      | inr behind ↦
          let past : max ≤ end = ground (arith, behind) in
          let wrapped : end % max ≡ (end - max) % max = mod-eq-sub-mod past in
          let low : (end - max) % max ≡ end - max = mod-eq_of_lt (omega arith) in
          omega (arith, past, wrapped, low)
    ]

window-put {ℓ} :
    {T : Type ℓ} (a : ℤ → T) (max x i b : ℕ) (item : T)
    → i < max
    → x < max
    → b ≡ (i + x) % max
    → window (put a (pos b) item) max i (suc x) ≡ window a max i x ++ (item ∷ [])
unfolding window put
window-put a max zero i b item hi hx e =
    let at : b ≡ i = e ∙ ap (λ k. k % max) (omega arith) ∙ mod-eq_of_lt hi in
    let hit : (i == b) ≡ true = ground (arith, at) in rw hit refl
window-put a max (suc x) i b item hi hx e =
    let ne : b ≢ i = rw e (ahead max i (suc x) hi (omega arith) hx) in
    let miss : (i == b) ≡ false = ground (arith, ne) in
    let shift : (i + suc x) % max ≡ ((i + 1) % max + x) % max =
      rw mod-add-mod (ap (λ k. k % max) (omega arith)) in
    ap₂ ◌∷◌ (rw miss refl)
      (window-put a max x ((i + 1) % max) b item (omega arith) (omega arith) (e ∙ shift))

-- The queue that `push` leaves where there is room, written at index `b`.
abbrev pushed {ℓ} : {T : Type ℓ} → T → BlockQueue T → ℤ → BlockQueue T
pushed item q b = record q { m_array = put q.m_array b item; m_size = q.m_size + 1; m_back = b }

pushed-IsQueue {ℓ} :
    {T : Type ℓ} (item : T) (q : BlockQueue T) (b : ℕ)
    → IsQueue q
    → q.m_size < q.m_max_size
    → b ≡ (first q + q.m_size) % q.m_max_size
    → IsQueue (pushed item q (pos b))
unfolding next first
pushed-IsQueue item q b v room e = record {
  some_room = v.some_room;
  room = omega arith;
  first_inside = v.first_inside;
  front_next = v.front_next;
  back_next = ap pos (
      ap (λ k. (k + 1) % q.m_max_size) e
      ∙ mod-add-mod (first q + q.m_size) q.m_max_size 1
      ∙ ap (λ k. k % q.m_max_size) (omega arith));
}

pushed-contents {ℓ} :
    {T : Type ℓ} (item : T) (q : BlockQueue T) (b : ℕ)
    → IsQueue q
    → q.m_size < q.m_max_size
    → b ≡ (first q + q.m_size) % q.m_max_size
    → contents (pushed item q (pos b)) ≡ contents q ++ (item ∷ [])
unfolding first contents
pushed-contents item q b v room e =
    ap (λ k. window (put q.m_array (pos b) item) q.m_max_size (first q) k) {x = q.m_size + 1}
      {y = suc q.m_size} (omega arith)
    ∙ window-put q.m_array q.m_max_size q.m_size (first q) b item v.first_inside room e

-- What a push does to a queue with room.
pub record Pushed {ℓ} {T : Type ℓ} (item : T) (q : BlockQueue T) (r : Bool × BlockQueue T)
    : Type ℓ where
  pub ok : r.0 ≡ true
  pub valid : IsQueue r.1
  pub adds : contents r.1 ≡ contents q ++ (item ∷ [])
  pub max_same : r.1.m_max_size ≡ q.m_max_size

pub push-Pushed {ℓ} :
    {T : Type ℓ} (item : T) (q : BlockQueue T)
    → IsQueue q
    → q.m_size < q.m_max_size
    → Pushed item q (push item q)
unfolding push
push-Pushed item q v room =
    let has_room : leb q.m_max_size q.m_size ≡ false = ground arith in
    rw (has_room, v.back_next)
      (record {
        ok = refl;
        valid = pushed-IsQueue item q ((first q + q.m_size) % q.m_max_size) v room refl;
        adds = pushed-contents item q ((first q + q.m_size) % q.m_max_size) v room refl;
        max_same = refl;
      })

-- The queue that a pop leaves, with the front at index `f`.
abbrev popped {ℓ} : {T : Type ℓ} → BlockQueue T → ℤ → BlockQueue T
popped q f = record q { m_size = q.m_size - 1; m_front = f }

popped-IsQueue {ℓ} :
    {T : Type ℓ} (q : BlockQueue T) → IsQueue q → 0 < q.m_size → IsQueue (popped q (pos (first q)))
unfolding next first
popped-IsQueue q v some_item = record {
  some_room = v.some_room;
  room = omega (arith, v.room);
  first_inside = mod-lt (first q + 1) v.some_room;
  front_next = refl;
  back_next =
      v.back_next
      ∙ ap pos (
          ap (λ k. k % q.m_max_size) {x = first q + q.m_size} {y = first q + 1 + (q.m_size - 1)}
            (omega arith)
          ∙ sym (mod-add-mod (first q + 1) q.m_max_size (q.m_size - 1)));
}

popped-contents {ℓ} :
    {T : Type ℓ} (q : BlockQueue T)
    → 0 < q.m_size
    → contents q ≡ q.m_array (pos (first q)) ∷ contents (popped q (pos (first q)))
unfolding first contents next window
popped-contents q some_item =
    ap (λ k. window q.m_array q.m_max_size (first q) k) {x = q.m_size} {y = suc (q.m_size - 1)}
      (omega arith)

-- What a pop does to a queue with items.
pub record Popped {ℓ} {T : Type ℓ} (q : BlockQueue T) (r : Option T × BlockQueue T) : Type ℓ where
  pub item : T
  pub given : r.0 ≡ some item
  pub valid : IsQueue r.1
  pub takes : contents q ≡ item ∷ contents r.1
  pub max_same : r.1.m_max_size ≡ q.m_max_size

pub take_front-Popped {ℓ} :
    {T : Type ℓ} (q : BlockQueue T) → IsQueue q → 0 < q.m_size → Popped q (take_front q)
unfolding take_front
take_front-Popped q v some_item = rw v.front_next (record {
  item = q.m_array (pos (first q));
  given = refl;
  valid = popped-IsQueue q v some_item;
  takes = popped-contents q some_item;
  max_same = refl;
})

pub length-contents {ℓ} : {T : Type ℓ} (q : BlockQueue T) → length (contents q) ≡ q.m_size
unfolding contents
length-contents q = length-window q.m_array q.m_max_size (first q) q.m_size

-- An empty queue: both indices are -1.
pub empty-IsQueue {ℓ} : {T : Type ℓ} (q : BlockQueue T) → 0 < q.m_max_size → IsQueue (clear q)
unfolding clear next first
empty-IsQueue q some_room =
    let round : next q.m_max_size (negsuc 0) ≡ pos 0 = ap neg (mod-eq_of_lt some_room) in
    let none_taken : first (clear q) ≡ 0 = ap (λ z. elim z [ pos i ↦ i | negsuc i ↦ 0 ]) round in
    record {
      some_room = some_room;
      room = omega arith;
      first_inside = omega (arith, none_taken, some_room);
      front_next = round ∙ ap pos (sym none_taken);
      back_next =
          round
          ∙ ap pos (
              sym (mod-eq_of_lt some_room)
              ∙ ap (λ k. k % q.m_max_size) {x = 0} {y = first (clear q) + 0}
                  (omega (arith, none_taken)));
    }
