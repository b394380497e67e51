-- ===== src/ChatServer/Leave.antt =====
-- What the table holds once a client has left.
use Prim.Native.Nat.{◌≤◌, ◌<◌}
use c_language_learnning.Base.{
  ℕ, zero, suc, ◌+◌, ◌-◌, ◌≡◌, ◌≢◌, ◌==◌, if◌then◌else◌, refl, ◌∙◌, arith, ap, ap₂, Bool-cases, inl,
  inr, leb,
}
use c_language_learnning.ChatServer.{Clients, put, shift, remove, leave}

shift-before : (rounds i : ℕ) (socks : ℕ → ℕ) (j : ℕ) → j ≤ i → shift rounds i socks j ≡ socks j
unfolding shift
shift-before zero i socks j h = refl
shift-before (suc rounds) i socks j h =
    shift-before rounds (i + 1) (put socks (i + 1) (socks (i + 2))) j (omega arith) ∙ ground arith

-- Behind entry `i`, `rounds` entries are replaced by the ones behind them.
shift-inside :
    (rounds i : ℕ) (socks : ℕ → ℕ) (j : ℕ)
    → i < j
    → j ≤ i + rounds
    → shift rounds i socks j ≡ socks (j + 1)
unfolding shift
shift-inside zero i socks j h l = absurd (omega arith)
shift-inside (suc rounds) i socks j h l =
    let socks' : ℕ → ℕ = put socks (i + 1) (socks (i + 2)) in
    elim (Bool-cases (leb j (i + 1))) [
      | inl first ↦ shift-before rounds (i + 1) socks' j (ground arith) ∙ ground arith
      | inr later ↦ shift-inside rounds (i + 1) socks' j (ground arith) (omega arith) ∙ ground arith
    ]

-- The search stops at the first entry of the client.
remove-found :
    (rounds i k : ℕ) (sock : ℕ) (socks : ℕ → ℕ)
    → i ≤ k
    → k < i + rounds
    → socks k ≡ sock
    → ((j : ℕ) → j < k → socks j ≢ sock)
    → remove rounds i sock socks ≡ shift (i + rounds - 1 - k) k socks
unfolding remove
remove-found zero i k sock socks h l e new = absurd (omega arith)
remove-found (suc rounds) i k sock socks h l e new = elim (Bool-cases (sock == socks i)) [
  | inl found ↦
      let here : i ≡ k = ground (arith, new i) in
      rw found
        (ap₂ (λ r q. shift r q socks) {x = rounds} {y = i + suc rounds - 1 - k} (omega arith) here)
  | inr other ↦
      let behind : i < k = ground arith in
      rw other (
        remove-found rounds (i + 1) k sock socks (omega arith) (omega arith) e new
        ∙ ap (λ r. shift r k socks) {x = i + 1 + rounds - 1 - k} {y = i + suc rounds - 1 - k}
            (omega arith))
]

-- A client that stands first at entry `k` leaves: of the entries that still count, those up to `k` are as
-- they were, and those behind it have moved up by one. So it is the entry behind `k` that is
-- gone, and `k` itself only if it was the last.
pub leave-client_socks :
    (sock : ℕ) (c : Clients) (k j : ℕ)
    → k < c.client_count
    → c.client_socks k ≡ sock
    → ((i : ℕ) → i < k → c.client_socks i ≢ sock)
    → j < (leave sock c).client_count
    → (leave sock c).client_socks j ≡ (if leb j k then c.client_socks j else c.client_socks (j + 1))
unfolding leave
leave-client_socks sock c k j l e new h =
    rw (remove-found c.client_count 0 k sock c.client_socks (omega arith) (omega arith) e new)
      (elim (Bool-cases (leb j k)) [
        | inl kept ↦
            rw kept (shift-before (0 + c.client_count - 1 - k) k c.client_socks j (ground arith))
        | inr moved ↦ rw moved (
            shift-inside (0 + c.client_count - 1 - k) k c.client_socks j (ground arith)
              (ground arith))
      ])

-- A client that stands first at entry `k` and leaves while another entry is behind it is still at `k`
-- afterwards, in the part of the table that counts.
pub leave_keeps :
    (sock : ℕ) (c : Clients) (k : ℕ)
    → k + 1 < c.client_count
    → c.client_socks k ≡ sock
    → ((i : ℕ) → i < k → c.client_socks i ≢ sock)
    → (k < (leave sock c).client_count) × ((leave sock c).client_socks k ≡ sock)
unfolding leave
leave_keeps sock c k l e new = (
  omega arith,
  leave-client_socks sock c k k (omega arith) e new (omega arith) ∙ ground (arith, e),
)
