-- ===== src/LinkedList/Remove.antt =====
-- `remove_node` takes out the first node with the value.
use Prim.Native.Nat.{◌≤◌, ◌<◌}
use mathlib.Core.Path.{subst}
use c_language_learnning.Base.{
  ℕ, zero, suc, ◌≡◌, refl, sym, ap, ◌∙◌, Option, some, true, false, List, [], ◌∷◌, ◌++◌,
  append_assoc, ◌==◌, if◌then◌else◌, arith, Bool-cases, inl, inr, length, map,
}
use c_language_learnning.Base.Int.{ℤ, int_eq}
use c_language_learnning.Base.Links.{first, last_or, last_or-append}
use c_language_learnning.LinkedList.{LinkedList, take_out, remove_loop, remove_node, iterate_list}
use c_language_learnning.LinkedList.Add.{IsLinked, Holds, iterate_list_lem}
use c_language_learnning.LinkedList.TakeOut.{IsLinked-at, take_out-Holds}

-- The nodes without the first that has the value.
unfoldable pub without : (ℕ → ℤ) → ℤ → List ℕ → List ℕ
without value v [] = []
without value v (n ∷ ns) =
    let rest = n ∷ without value v ns in if int_eq (value n) v then ns else rest

without_hit :
    (value : ℕ → ℤ) (v : ℤ) (n : ℕ) (ns : List ℕ)
    → int_eq (value n) v ≡ true
    → without value v (n ∷ ns) ≡ ns
unfolding without
without_hit value v n ns e = rw e refl

without_miss :
    (value : ℕ → ℤ) (v : ℤ) (n : ℕ) (ns : List ℕ)
    → int_eq (value n) v ≡ false
    → without value v (n ∷ ns) ≡ n ∷ without value v ns
unfolding without
without_miss value v n ns e = rw e refl

-- What the loop makes of the nodes from `cursor` on.
record Removed (l : LinkedList) (ns : List ℕ) (r : Option LinkedList) : Type 0 where
  after : LinkedList
  returns : r ≡ some after
  holds : Holds after ns
  value_same : after.value ≡ l.value

IsLinked-after :
    (next : ℕ → ℕ) (ys : List ℕ) (z : ℕ) (zs : List ℕ)
    → IsLinked next (ys ++ (z ∷ zs))
    → IsLinked next (z ∷ zs)
unfolding IsLinked
IsLinked-after next [] z zs v = v
IsLinked-after next (y ∷ ys) z zs v = IsLinked-after next ys z zs v.3

linked_node : (next : ℕ → ℕ) (z : ℕ) (zs : List ℕ) → IsLinked next (z ∷ zs) → (z == 0) ≡ false
unfolding IsLinked
linked_node next z zs v = ground (arith, v.0)

out_value : (l : LinkedList) (p z : ℕ) → (take_out l p z).value ≡ l.value
unfolding take_out
out_value l p z = refl

none_left :
    (fuel : ℕ) (v : ℤ) (l : LinkedList) (ys : List ℕ)
    → Holds l (ys ++ [])
    → Removed l (ys ++ without l.value v []) (some l)
unfolding without
none_left fuel v l ys h = record { after = l; returns = refl; holds = h; value_same = refl }

remove_loop-Removed :
    (fuel : ℕ) (v : ℤ) (l : LinkedList) (ys zs : List ℕ)
    → length zs < fuel
    → Holds l (ys ++ zs)
    → Removed l (ys ++ without l.value v zs) (remove_loop v fuel l (last_or 0 ys) (first zs))
unfolding remove_loop first last_or
remove_loop-Removed zero v l ys zs f h = absurd (omega arith)
remove_loop-Removed (suc fuel) v l ys [] f h = none_left (suc fuel) v l ys h
remove_loop-Removed (suc fuel) v l ys (z ∷ zs) f h =
    let w = IsLinked-after l.next ys z zs h.linked in
    let node = linked_node l.next z zs w in
    elim (Bool-cases (int_eq (l.value z) v)) [
      | inl hit ↦
          rw (without_hit l.value v z zs hit, node, hit)
            (record {
              after = take_out l (last_or 0 ys) z;
              returns = refl;
              holds = take_out-Holds l ys z zs h;
              value_same = out_value l (last_or 0 ys) z;
            })
      | inr miss ↦
          let join : (ys ++ (z ∷ [])) ++ zs ≡ ys ++ (z ∷ zs) = append_assoc ys (z ∷ []) zs in
          let join' : (ys ++ (z ∷ [])) ++ without l.value v zs ≡ ys ++ (z ∷ without l.value v zs) =
            append_assoc ys (z ∷ []) (without l.value v zs) in
          let r =
            remove_loop-Removed fuel v l (ys ++ (z ∷ [])) zs (omega (arith, f))
              (subst (Holds l) (sym join) h) in
          rw (without_miss l.value v z zs miss, node, miss)
            (record {
              after = r.after;
              returns =
                  ap (λ c. remove_loop v fuel l z c) (IsLinked-at l.next z zs w)
                  ∙ ap (λ p. remove_loop v fuel l p (first zs)) (sym (last_or-append 0 ys z []))
                  ∙ r.returns;
              holds = subst (Holds r.after) join' r.holds;
              value_same = r.value_same;
            })
    ]

-- The values without the first that is `v`.
unfoldable pub remove_first : ℤ → List ℤ → List ℤ
remove_first v [] = []
remove_first v (x ∷ xs) = let rest = x ∷ remove_first v xs in if int_eq x v then xs else rest

map-without :
    (value : ℕ → ℤ) (v : ℤ) (ns : List ℕ)
    → map value (without value v ns) ≡ remove_first v (map value ns)
unfolding without remove_first
map-without value v [] = refl
map-without value v (n ∷ ns) = elim (Bool-cases (int_eq (value n) v)) [
  | inl hit ↦ rw hit refl
  | inr miss ↦ rw miss (ap (λ vs. value n ∷ vs) (map-without value v ns))
]

length-without : (value : ℕ → ℤ) (v : ℤ) (ns : List ℕ) → length (without value v ns) ≤ length ns
unfolding without
length-without value v [] = omega arith
length-without value v (n ∷ ns) = elim (Bool-cases (int_eq (value n) v)) [
  | inl hit ↦ rw hit (omega arith)
  | inr miss ↦ rw miss (omega (arith, length-without value v ns))
]

-- With one round more than there are nodes, `remove_node` returns a list of the other nodes, linked up to the tail and
-- counted, from which the first with the value is taken, if there is one, and `iterate_list` then prints the
-- values without the first that is this one.
pub iterate_list-remove_node :
    (fuel : ℕ) (v : ℤ) (l : LinkedList) (ns : List ℕ)
    → length ns < fuel
    → Holds l ns
    → (l' : LinkedList) × (remove_node v fuel l ≡ some l')
      × Holds l' (without l.value v ns)
      × (iterate_list fuel l' ≡ some (remove_first v (map l.value ns)))
unfolding remove_node last_or
iterate_list-remove_node fuel v l ns f h =
    let r = remove_loop-Removed fuel v l [] ns f h in
    (
      r.after,
      ap (λ c. remove_loop v fuel l 0 c) h.head_first ∙ r.returns,
      r.holds,
      iterate_list_lem fuel r.after (without l.value v ns)
            (omega (arith, f, length-without l.value v ns)) r.holds
          ∙ ap (λ g. some (map g (without l.value v ns))) r.value_same
          ∙ ap some (map-without l.value v ns),
    )
