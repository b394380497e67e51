-- ===== src/LinkedList/Add.antt =====
-- What the nodes hold, and `add_node`.
use Prim.Native.Nat.{◌<◌}
use c_language_learnning.Base.{
  ℕ, zero, suc, ◌+◌, ◌%◌, ◌^◌, ◌≡◌, ◌≢◌, refl, sym, ap, ap₂, ◌∙◌, some, true, false, List, [], ◌∷◌,
  ◌++◌, map, append-nil, ◌==◌, arith, Bool-cases, inl, inr, length, length-append, All-append,
}
use c_language_learnning.Base.Int.{ℤ}
use c_language_learnning.Base.Links.{first, last_or, Apart, All-last, last_or-append}
use c_language_learnning.LinkedList.{LinkedList, put, add_node, iterate_from, iterate_list, printed}

-- The nodes `ns` are linked, the last one to `end`, and are different nodes.
unfoldable pub IsLinked : (ℕ → ℕ) → List ℕ → Type 0
IsLinked next [] = Unit
IsLinked next (n ∷ ns) = (n ≢ 0) × (next n ≡ first ns) × Apart n ns × IsLinked next ns

-- The list has the nodes `ns`.
pub record Holds (l : LinkedList) (ns : List ℕ) : Type 0 where
  pub head_first : l.head ≡ first ns
  pub tail_last : l.tail ≡ last_or 0 ns
  pub linked : IsLinked l.next ns
  pub counted : l.len ≡ length ns % 2 ^ 32

iterate_from_lem :
    (fuel : ℕ) (l : LinkedList) (ns : List ℕ)
    → length ns < fuel
    → IsLinked l.next ns
    → iterate_from fuel l (first ns) ≡ some (map l.value ns)
unfolding iterate_from IsLinked first printed
iterate_from_lem zero l ns f v = absurd (omega arith)
iterate_from_lem (suc fuel) l [] f v = refl
iterate_from_lem (suc fuel) l (n ∷ ns) f v =
    let node : (n == 0) ≡ false = ground (arith, v.0) in
    rw node (
      ap (λ c. printed (l.value n) (iterate_from fuel l c)) v.1
      ∙ ap (printed (l.value n)) (iterate_from_lem fuel l ns (omega (arith, f)) v.3))

-- With one round more than there are nodes, `iterate_list` prints the values of all nodes in their order.
pub iterate_list_lem :
    (fuel : ℕ) (l : LinkedList) (ns : List ℕ)
    → length ns < fuel
    → Holds l ns
    → iterate_list fuel l ≡ some (map l.value ns)
unfolding iterate_list
iterate_list_lem fuel l ns f v =
    ap (iterate_from fuel l) v.head_first ∙ iterate_from_lem fuel l ns f v.linked

-- A new node behind the last.
IsLinked-append :
    (next next' : ℕ → ℕ) (n : ℕ) (ns : List ℕ) (m : ℕ)
    → m ≢ 0
    → Apart m (n ∷ ns)
    → next' m ≡ 0
    → next' (last_or n ns) ≡ m
    → ((a : ℕ) → a ≢ m → a ≢ last_or n ns → next' a ≡ next a)
    → IsLinked next (n ∷ ns)
    → IsLinked next' (n ∷ ns ++ (m ∷ []))
unfolding IsLinked first last_or
IsLinked-append next next' n [] m named apart end at same v =
    (v.0, at, (λ e. apart.0 (sym e), tt), (named, end, tt, tt))
IsLinked-append next next' n (x ∷ ns) m named apart end at same v = (
  v.0,
  same n apart.0 (λ e. All-last (λ a. a ≢ n) x ns [] v.2.0 (rw (append-nil ns) v.2.1) (sym e))
      ∙ v.1,
  All-append (λ a. a ≢ n) (x ∷ ns) (m ∷ []) v.2 (λ e. apart.0 (sym e), tt),
  IsLinked-append next next' x ns m named apart.1 end at same v.3,
)

put_at : (f : ℕ → ℕ) (i v j : ℕ) → j ≡ i → put f i v j ≡ v
put_at f i v j e = ground (arith, e)

put_end : (next : ℕ → ℕ) (m t v : ℕ) → m ≢ t → put (put next m 0) t v m ≡ 0
put_end next m t v ne = ground (arith, ne)

put_twice : (next : ℕ → ℕ) (m t v a : ℕ) → a ≢ m → a ≢ t → put (put next m 0) t v a ≡ next a
put_twice next m t v a a_m a_t = ground (arith, a_m, a_t)

pub linked_named : (next : ℕ → ℕ) (n : ℕ) (ns : List ℕ) → IsLinked next (n ∷ ns) → last_or n ns ≢ 0
unfolding IsLinked last_or
linked_named next n [] v = v.0
linked_named next n (x ∷ ns) v = linked_named next x ns v.3

add_node-Holds :
    (node : ℕ) (value : ℤ) (l : LinkedList) (ns : List ℕ)
    → node ≢ 0
    → Apart node ns
    → Holds l ns
    → Holds (add_node node value l) (ns ++ (node ∷ []))
unfolding add_node IsLinked first last_or
add_node-Holds node value l [] named apart v =
    let no_tail : (l.tail == 0) ≡ true = ground (arith, v.tail_last) in
    rw no_tail (record {
      head_first = refl;
      tail_last = refl;
      linked = (named, ground arith, tt, tt);
      counted = omega (arith, v.counted);
    })
add_node-Holds node value l (n ∷ ns) named apart v =
    let last = last_or n ns in
    let last_named : last ≢ 0 = linked_named l.next n ns v.linked in
    let some_tail : (l.tail == 0) ≡ false = ground (arith, v.tail_last, last_named) in
    let last_ne : last ≢ node =
      All-last (λ a. a ≢ node) n ns [] apart.0 (rw (append-nil ns) apart.1) in
    rw some_tail (record {
      head_first = v.head_first;
      tail_last = sym (last_or-append n ns node []);
      linked =
          IsLinked-append l.next (put (put l.next node 0) l.tail node) n ns node named apart
            (put_end l.next node l.tail node (λ e. last_ne (sym (e ∙ v.tail_last))))
            (put_at (put l.next node 0) l.tail node last (sym v.tail_last))
            (λ a a_m a_l. put_twice l.next node l.tail node a a_m (λ e. a_l (e ∙ v.tail_last)))
            v.linked;
      counted = omega (arith, v.counted, length-append ns (node ∷ []));
    })

Apart-value :
    (node : ℕ) (value : ℤ) (l : LinkedList) (ns : List ℕ)
    → Apart node ns
    → map (put l.value node value) ns ≡ map l.value ns
Apart-value node value l [] h = refl
Apart-value node value l (n ∷ ns) h =
    let miss : (n == node) ≡ false = ground (arith, h.0) in
    ap₂ ◌∷◌ (rw miss refl) (Apart-value node value l ns h.1)

added_value :
    (node : ℕ) (value : ℤ) (l : LinkedList) → (add_node node value l).value ≡ put l.value node value
unfolding add_node
added_value node value l = elim (Bool-cases (l.tail == 0)) [
  | inl no_tail ↦ rw no_tail refl
  | inr some_tail ↦ rw some_tail refl
]

map_append : (f : ℕ → ℤ) (ns : List ℕ) (m : ℕ) → map f (ns ++ (m ∷ [])) ≡ map f ns ++ (f m ∷ [])
map_append f [] m = refl
map_append f (n ∷ ns) m = ap (λ vs. f n ∷ vs) (map_append f ns m)

-- After `add_node` with a new node, `iterate_list`, with two rounds more than there were nodes, prints the values of the
-- old nodes in their order and then the new one, and the nodes are linked up to the tail and counted.
pub iterate_list-add_node :
    (fuel node : ℕ) (value : ℤ) (l : LinkedList) (ns : List ℕ)
    → length ns + 1 < fuel
    → node ≢ 0
    → Apart node ns
    → Holds l ns
    → Holds (add_node node value l) (ns ++ (node ∷ []))
      × (iterate_list fuel (add_node node value l) ≡ some (map l.value ns ++ (value ∷ [])))
iterate_list-add_node fuel node value l ns f named apart v =
    let h = add_node-Holds node value l ns named apart v in
    let hit : (node == node) ≡ true = ground arith in
    let new : put l.value node value node ≡ value = rw hit refl in
    let more : length (ns ++ (node ∷ [])) < fuel = omega (arith, f, length-append ns (node ∷ [])) in
    (
      h,
      iterate_list_lem fuel (add_node node value l) (ns ++ (node ∷ [])) more h
          ∙ ap (λ g. some (map g (ns ++ (node ∷ [])))) (added_value node value l)
          ∙ ap some (
              map_append (put l.value node value) ns node
              ∙ ap₂ (λ vs x. vs ++ (x ∷ [])) (Apart-value node value l ns apart) new),
    )
