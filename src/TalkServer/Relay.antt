-- ===== src/TalkServer/Relay.antt =====
-- How what one client says gets to the others.
use Prim.Native.Nat.{◌≤◌, ◌<◌}
use c_language_learnning.Base.{
  ℕ, zero, suc, ◌+◌, ◌-◌, ◌*◌, ◌≡◌, ◌≢◌, refl, sym, ap, ap₂, ◌∙◌, true, false, List, [], ◌∷◌, ◌++◌,
  map, ltb, ◌==◌, if◌then◌else◌, arith, length, Bool-cases, inl, inr, ◌⊎◌,
}
use c_language_learnning.TalkServer.{
  buffer_size, Client, notify, sends, Server, put, notify_from, on_child, received, clear, store,
  load, child_client, child_pipe,
}

unfoldable pub zeros : ℕ → List ℕ
zeros zero = []
zeros (suc n) = 0 ∷ zeros n

load_same :
    (mem mem' : ℕ → ℕ) (i n : ℕ)
    → ((j : ℕ) → i ≤ j → j < i + n → mem' j ≡ mem j)
    → load mem' i n ≡ load mem i n
unfolding load
load_same mem mem' i zero e = refl
load_same mem mem' i (suc n) e =
    ap₂ ◌∷◌ (e i (omega arith) (omega arith))
      (load_same mem mem' (i + 1) n (λ j l h. e j (omega arith) (omega arith)))

-- What the store leaves alone.
store_outside :
    (mem : ℕ → ℕ) (i : ℕ) (cs : List ℕ) (j : ℕ)
    → j < i ⊎ i + length cs ≤ j
    → store mem i cs j ≡ mem j
unfolding store
store_outside mem i [] j h = refl
store_outside mem i (c ∷ cs) j h =
    let out : (j == i) ≡ false = elim h [ inl b ↦ ground (arith, b) | inr a ↦ ground (arith, a) ] in
    store_outside (put mem i c) (i + 1) cs j
      (elim h [ inl b ↦ inl (omega (arith, b)) | inr a ↦ inr (omega (arith, a)) ])
    ∙ rw out refl

load-zeros :
    (mem : ℕ → ℕ) (i n : ℕ) → ((j : ℕ) → i ≤ j → j < i + n → mem j ≡ 0) → load mem i n ≡ zeros n
unfolding load zeros
load-zeros mem i zero e = refl
load-zeros mem i (suc n) e =
    ap₂ ◌∷◌ (e i (omega arith) (omega arith))
      (load-zeros mem (i + 1) n (λ j l h. e j (omega arith) (omega arith)))

-- What is stored is loaded, and then what was there.
load-store :
    (mem : ℕ → ℕ) (i : ℕ) (cs : List ℕ) (n : ℕ)
    → load (store mem i cs) i (length cs + n) ≡ cs ++ load mem (i + length cs) n
unfolding load store
load-store mem i [] n =
    let at : i ≡ i + length {A = ℕ} [] = omega arith in
    let long : length {A = ℕ} [] + n ≡ n = omega arith in ap₂ (λ k m. load mem k m) at long
load-store mem i (c ∷ cs) n =
    let e : suc (length cs) + n ≡ suc (length cs + n) = omega arith in
    let at_end : i + 1 + length cs ≡ i + suc (length cs) = omega arith in
    let hit : (i == i) ≡ true = ground arith in
    let kept : put mem i c i ≡ c = rw hit refl in
    rw e (
      ap₂ ◌∷◌ (store_outside (put mem i c) (i + 1) cs i (inl (omega arith)) ∙ kept) (
        load-store (put mem i c) (i + 1) cs n
        ∙ ap (λ r. cs ++ r)
            (load_same mem (put mem i c) (i + 1 + length cs) n (λ j l h. ground arith)
              ∙ ap (λ k. load mem k n) at_end)))

-- The numbers from `j` on, `n` of them, but for `k`.
unfoldable pub others : ℕ → ℕ → ℕ → List ℕ
others k j zero = []
others k j (suc n) = let rest = others k (j + 1) n in if j == k then rest else j ∷ rest

notify_from-others :
    (users : ℕ → Client) (k child n j : ℕ)
    → ((i : ℕ) → i < j + n → i ≢ k → (users i).pipe0 ≢ (users k).pipe0)
    → notify_from users (users k).pipe0 child j n
      ≡ map (λ i. notify (users i).pipe0 child) (others k j n)
unfolding notify_from others
notify_from-others users k child zero j apart = refl
notify_from-others users k child (suc n) j apart =
    let rest = notify_from-others users k child n (j + 1) (λ i l. apart i (omega (arith, l))) in
    elim (Bool-cases (j == k)) [
      | inl same ↦
          let at : (users j).pipe0 ≡ (users k).pipe0 =
            ap (λ i. (users i).pipe0) (ground (arith, same)) in
          let hit : ((users j).pipe0 == (users k).pipe0) ≡ true = ground (arith, at) in
          rw same (rw hit rest)
      | inr other ↦
          let ne : (users j).pipe0 ≢ (users k).pipe0 =
            apart j (omega arith) (ground (arith, other)) in
          let miss : ((users j).pipe0 == (users k).pipe0) ≡ false = ground (arith, ne) in
          rw other (rw miss (ap (λ r. notify (users j).pipe0 child ∷ r) rest))
    ]

clear_inside : (mem : ℕ → ℕ) (i n j : ℕ) → i ≤ j → j < i + n → clear mem i n j ≡ 0
unfolding clear
clear_inside mem i n j a b = ground arith

clear_outside : (mem : ℕ → ℕ) (i n j : ℕ) → j < i ⊎ i + n ≤ j → clear mem i n j ≡ mem j
unfolding clear
clear_outside mem i n j (inl h) = ground arith
clear_outside mem i n j (inr h) = ground arith

-- The buffer of the child, after its client's data.
loaded :
    (idx : ℕ) (cs : List ℕ) (mem : ℕ → ℕ)
    → length cs < buffer_size
    → load
        (store (clear mem (idx * buffer_size) buffer_size) (idx * buffer_size) cs)
        (idx * buffer_size)
        buffer_size
      ≡ cs ++ zeros (buffer_size - length cs)
loaded idx cs mem fits =
    let i = idx * buffer_size in
    let long : length cs + (buffer_size - length cs) ≡ buffer_size = omega arith in
    ap (λ n. load (store (clear mem i buffer_size) i cs) i n) (sym long)
    ∙ load-store (clear mem i buffer_size) i cs (buffer_size - length cs)
    ∙ ap (λ r. cs ++ r)
        (load-zeros (clear mem i buffer_size) (i + length cs) (buffer_size - length cs)
          (λ j l h. clear_inside mem i buffer_size j (omega (arith, l)) (omega (arith, h, fits))))

-- No other buffer changes.
buffer-kept :
    (idx idx' : ℕ) (cs : List ℕ) (mem : ℕ → ℕ)
    → length cs < buffer_size
    → idx ≢ idx'
    → load
        (store (clear mem (idx * buffer_size) buffer_size) (idx * buffer_size) cs)
        (idx' * buffer_size)
        buffer_size
      ≡ load mem (idx' * buffer_size) buffer_size
buffer-kept idx idx' cs mem fits ne =
    let i = idx * buffer_size in
    load_same mem (store (clear mem i buffer_size) i cs) (idx' * buffer_size) buffer_size (λ j l h.
      elim (Bool-cases (ltb j i)) [
        | inl before ↦
            let b : j < i = ground (arith, before) in
            store_outside (clear mem i buffer_size) i cs j (inl b)
            ∙ clear_outside mem i buffer_size j (inl b)
        | inr behind ↦
            let a : i ≤ j = ground (arith, behind) in
            let past : i + buffer_size ≤ j = omega (arith, a, l, h, ne) in
            store_outside (clear mem i buffer_size) i cs j (inr (omega (arith, past, fits)))
            ∙ clear_outside mem i buffer_size j (inr past)
      ])

-- A client's data, fewer bytes than a buffer has, where no other user has the pipe of this one's place: the child
-- tells the parent its number, the parent sends that number to each other user's child and to none else, each of these then
-- sends its client the data and zeros up to the size of a buffer, and the buffer of another number is as before.
pub relayed :
    (s : Server) (k idx idx' pipefd connfd : ℕ) (cs : List ℕ) (mem : ℕ → ℕ)
    → length cs < buffer_size
    → idx ≢ idx'
    → ((i : ℕ) → i < s.user_count → i ≢ k → (s.users i).pipe0 ≢ (s.users k).pipe0)
    → let (mem', stop, actions) = child_client idx pipefd (received cs) mem in
      (actions ≡ notify pipefd idx ∷ [])
      × (on_child (s.users k).pipe0 idx s
          ≡ map (λ i. notify (s.users i).pipe0 idx) (others k 0 s.user_count))
      × (child_pipe connfd (received idx) mem'
          ≡ (false, sends connfd (cs ++ zeros (buffer_size - length cs)) ∷ []))
      × (load mem' (idx' * buffer_size) buffer_size ≡ load mem (idx' * buffer_size) buffer_size)
unfolding child_client child_pipe on_child
relayed s k idx idx' pipefd connfd cs mem fits ne apart = (
  refl,
  notify_from-others s.users k idx s.user_count 0 (λ i l. apart i (omega (arith, l))),
  ap (λ r. (false, sends connfd r ∷ [])) (loaded idx cs mem fits),
  buffer-kept idx idx' cs mem fits ne,
)
