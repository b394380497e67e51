-- ===== src/LinkedList.antt =====
-- The list of c-data-struct-learnning/linklist/linkedlist.c: nodes linked by `next`, known by their addresses, 0
-- being NULL. `next` and `value` are the fields of all nodes.
pub mod Add
pub mod TakeOut
pub mod Remove
mod Tests
use c_language_learnning.Base.{
  ℕ, zero, suc, ◌+◌, ◌-◌, ◌%◌, ◌^◌, Option, none, some, List, [], ◌∷◌, ◌==◌, if◌then◌else◌,
}
use c_language_learnning.Base.Int.{ℤ, int_eq}

-- `List`, with the nodes
pub record LinkedList : Type 0 where
  pub next : ℕ → ℕ
  pub value : ℕ → ℤ
  pub head : ℕ
  pub tail : ℕ
  pub len : ℕ

abbrev pub put {ℓ} : {A : Type ℓ} → (ℕ → A) → ℕ → A → ℕ → A
put field i v j = if j == i then v else field j

-- The fields of the new node.
abbrev pub new_node : ℕ → ℤ → LinkedList → LinkedList
new_node node value l = record l { next = put l.next node 0; value = put l.value node value }

-- `add_node`, where malloc returns `node`; `len` is an unsigned int.
unfoldable pub add_node : ℕ → ℤ → LinkedList → LinkedList
add_node node value l =
    let n = new_node node value l in
    if l.tail == 0
    then record n { head = node; tail = node; len = (l.len + 1) % 2 ^ 32 }
    else record n { next = put n.next l.tail node; tail = node; len = (l.len + 1) % 2 ^ 32 }

-- The branch of `remove_node` that takes `cursor` out.
unfoldable pub take_out : LinkedList → ℕ → ℕ → LinkedList
take_out l prev cursor = record l {
  next = if prev == 0 then l.next else put l.next prev (l.next cursor);
  head = if prev == 0 then l.next cursor else l.head;
  tail = if l.tail == cursor then prev else l.tail;
  len = (l.len + (2 ^ 32 - 1)) % 2 ^ 32;
}

-- The loop of `remove_node`. `none`: out of fuel.
unfoldable pub remove_loop : ℤ → ℕ → LinkedList → ℕ → ℕ → Option LinkedList
remove_loop value zero l prev cursor = none
remove_loop value (suc fuel) l prev cursor =
    let rest = remove_loop value fuel l cursor (l.next cursor) in
    if cursor == 0
    then some l
    else if int_eq (l.value cursor) value
    then some (take_out l prev cursor)
    else rest

unfoldable pub remove_node : ℤ → ℕ → LinkedList → Option LinkedList
remove_node value fuel l = remove_loop value fuel l 0 l.head

-- The values that `iterate_list` prints. `none`: out of fuel.
unfoldable pub printed : ℤ → Option (List ℤ) → Option (List ℤ)
printed v none = none
printed v (some vs) = some (v ∷ vs)

unfoldable pub iterate_from : ℕ → LinkedList → ℕ → Option (List ℤ)
iterate_from zero l cursor = none
iterate_from (suc fuel) l cursor =
    let rest = printed (l.value cursor) (iterate_from fuel l (l.next cursor)) in
    if cursor == 0 then some [] else rest

unfoldable pub iterate_list : ℕ → LinkedList → Option (List ℤ)
iterate_list fuel l = iterate_from fuel l l.head
