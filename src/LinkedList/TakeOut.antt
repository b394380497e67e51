-- ===== src/LinkedList/TakeOut.antt =====
-- A node that is taken out, wherever it stands.
use c_language_learnning.Base.{
  ℕ, ◌+◌, ◌-◌, ◌%◌, ◌^◌, ◌≡◌, ◌≢◌, refl, sym, ap, ◌∙◌, true, false, List, [], ◌∷◌, ◌++◌, append-nil,
  ◌==◌, if◌then◌else◌, arith, length,
}
use c_language_learnning.Base.Links.{first, last_or, Apart, All-without, All-last, last_or-append}
use c_language_learnning.LinkedList.{LinkedList, put, take_out}
use c_language_learnning.LinkedList.Add.{IsLinked, Holds}

IsLinked-cut :
    (next next' : ℕ → ℕ) (y : ℕ) (ys : List ℕ) (z : ℕ) (zs : List ℕ)
    → next' (last_or y ys) ≡ first zs
    → ((a : ℕ) → a ≢ last_or y ys → next' a ≡ next a)
    → IsLinked next' zs
    → IsLinked next (y ∷ ys ++ (z ∷ zs))
    → IsLinked next' (y ∷ ys ++ zs)
unfolding IsLinked first last_or
IsLinked-cut next next' y [] z zs at same rest v = (v.0, at, v.2.1, rest)
IsLinked-cut next next' y (x ∷ ys) z zs at same rest v = (
  v.0,
  same y (λ e. All-last (λ a. a ≢ y) x ys (z ∷ zs) v.2.0 v.2.1 (sym e)) ∙ v.1,
  All-without (λ a. a ≢ y) (x ∷ ys) z zs v.2,
  IsLinked-cut next next' x ys z zs at same rest v.3,
)

-- The nodes from `z` on, behind `p`.
record Behind (next : ℕ → ℕ) (p z : ℕ) (zs : List ℕ) : Type 0 where
  apart : Apart p (z ∷ zs)
  linked : IsLinked next (z ∷ zs)

IsLinked-Behind :
    (next : ℕ → ℕ) (y : ℕ) (ys : List ℕ) (z : ℕ) (zs : List ℕ)
    → IsLinked next (y ∷ ys ++ (z ∷ zs))
    → Behind next (last_or y ys) z zs
unfolding IsLinked last_or
IsLinked-Behind next y [] z zs v = record { apart = v.2; linked = v.3 }
IsLinked-Behind next y (x ∷ ys) z zs v = IsLinked-Behind next x ys z zs v.3

IsLinked-same :
    (next next' : ℕ → ℕ) (p : ℕ) (ns : List ℕ)
    → ((a : ℕ) → a ≢ p → next' a ≡ next a)
    → Apart p ns
    → IsLinked next ns
    → IsLinked next' ns
unfolding IsLinked
IsLinked-same next next' p [] same h v = tt
IsLinked-same next next' p (n ∷ ns) same h v =
    (v.0, same n h.0 ∙ v.1, v.2, IsLinked-same next next' p ns same h.1 v.3)

pub IsLinked-at : (next : ℕ → ℕ) (z : ℕ) (zs : List ℕ) → IsLinked next (z ∷ zs) → next z ≡ first zs
unfolding IsLinked
IsLinked-at next z zs v = v.1

put_at : (f : ℕ → ℕ) (i v : ℕ) → put f i v i ≡ v
put_at f i v = let hit : (i == i) ≡ true = ground arith in rw hit refl

put_other : (f : ℕ → ℕ) (i v j : ℕ) → j ≢ i → put f i v j ≡ f j
put_other f i v j ne = let miss : (j == i) ≡ false = ground (arith, ne) in rw miss refl

-- The tail behind which nothing stands moves back.
tail_moved :
    (p z : ℕ) (zs : List ℕ)
    → Apart z zs
    → (if last_or z zs == z then p else last_or z zs) ≡ last_or p zs
unfolding last_or
tail_moved p z [] h = let hit : (z == z) ≡ true = ground arith in rw hit refl
tail_moved p z (x ∷ xs) h =
    let other : last_or x xs ≢ z = All-last (λ a. a ≢ z) x xs [] h.0 (rw (append-nil xs) h.1) in
    let miss : (last_or x xs == z) ≡ false = ground (arith, other) in rw miss refl

last_or-join : (d : ℕ) (ys zs : List ℕ) → last_or d (ys ++ zs) ≡ last_or (last_or d ys) zs
unfolding last_or
last_or-join d [] zs = refl
last_or-join d (y ∷ ys) zs = last_or-join y ys zs

counted_down : (len n : ℕ) → len ≡ (n + 1) % 2 ^ 32 → (len + (2 ^ 32 - 1)) % 2 ^ 32 ≡ n % 2 ^ 32
counted_down len n e = omega (arith, e)

length-join : (ys : List ℕ) (z : ℕ) (zs : List ℕ) → length (ys ++ (z ∷ zs)) ≡ length (ys ++ zs) + 1
length-join [] z zs = omega arith
length-join (y ∷ ys) z zs = omega (arith, length-join ys z zs)

IsLinked-Apart : (next : ℕ → ℕ) (z : ℕ) (zs : List ℕ) → IsLinked next (z ∷ zs) → Apart z zs
unfolding IsLinked
IsLinked-Apart next z zs v = v.2

IsLinked-rest : (next : ℕ → ℕ) (z : ℕ) (zs : List ℕ) → IsLinked next (z ∷ zs) → IsLinked next zs
unfolding IsLinked
IsLinked-rest next z zs v = v.3

front_named :
    (next : ℕ → ℕ) (y : ℕ) (ys : List ℕ) (z : ℕ) (zs : List ℕ)
    → IsLinked next (y ∷ ys ++ (z ∷ zs))
    → last_or y ys ≢ 0
unfolding IsLinked last_or
front_named next y [] z zs v = v.0
front_named next y (x ∷ ys) z zs v = front_named next x ys z zs v.3

pub take_out-Holds :
    (l : LinkedList) (ys : List ℕ) (z : ℕ) (zs : List ℕ)
    → Holds l (ys ++ (z ∷ zs))
    → Holds (take_out l (last_or 0 ys) z) (ys ++ zs)
unfolding take_out last_or first
take_out-Holds l [] z zs v = record {
  head_first = IsLinked-at l.next z zs v.linked;
  tail_last =
      ap (λ t. if t == z then 0 else t) v.tail_last
      ∙ tail_moved 0 z zs (IsLinked-Apart l.next z zs v.linked);
  linked = IsLinked-rest l.next z zs v.linked;
  counted = counted_down l.len (length zs) (v.counted ∙ ap (λ n. n % 2 ^ 32) (length-join [] z zs));
}
take_out-Holds l (y ∷ ys) z zs v =
    let p = last_or y ys in
    let b = IsLinked-Behind l.next y ys z zs v.linked in
    let p_named : (p == 0) ≡ false = ground (arith, front_named l.next y ys z zs v.linked) in
    let after : l.next z ≡ first zs = IsLinked-at l.next z zs b.linked in
    rw p_named (record {
      head_first = v.head_first;
      tail_last =
          ap (λ t. if t == z then p else t) (v.tail_last ∙ last_or-append y ys z zs)
          ∙ tail_moved p z zs (IsLinked-Apart l.next z zs b.linked)
          ∙ sym (last_or-join y ys zs);
      linked =
          IsLinked-cut l.next (put l.next p (l.next z)) y ys z zs
            (put_at l.next p (l.next z) ∙ after) (λ a ne. put_other l.next p (l.next z) a ne)
            (IsLinked-same l.next (put l.next p (l.next z)) p zs
              (λ a ne. put_other l.next p (l.next z) a ne) b.apart.1
              (IsLinked-rest l.next z zs b.linked))
            v.linked;
      counted =
          counted_down l.len (length (y ∷ ys ++ zs))
            (v.counted ∙ ap (λ n. n % 2 ^ 32) (length-join (y ∷ ys) z zs));
    })
