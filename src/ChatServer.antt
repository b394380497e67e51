-- ===== src/ChatServer.antt =====
-- The table of clients of network-programming/yinshengyu/chat_server.c: each function as it runs while
-- it holds the mutex.
pub mod Leave
mod Tests
use c_language_learnning.Base.{ℕ, zero, suc, ◌+◌, ◌-◌, ◌==◌, if◌then◌else◌, List, [], ◌∷◌}
use c_language_learnning.Effects.{Event}

-- `client_socks` and `client_count`.
pub record Clients : Type 0 where
  pub client_socks : ℕ → ℕ
  pub client_count : ℕ

abbrev pub put : (ℕ → ℕ) → ℕ → ℕ → ℕ → ℕ
put socks i v j = if j == i then v else socks j

-- The new client of `main`. The source does not test for the end of the array.
unfoldable pub join : ℕ → Clients → Clients
join sock c = record {
  client_socks = put c.client_socks c.client_count sock;
  client_count = c.client_count + 1;
}

-- while (i++ < client_count - 1) client_socks[i] = client_socks[i + 1]; for as many rounds as are left.
unfoldable pub shift : ℕ → ℕ → (ℕ → ℕ) → ℕ → ℕ
shift zero i socks = socks
shift (suc rounds) i socks = shift rounds (i + 1) (put socks (i + 1) (socks (i + 2)))

-- for (i = 0; i < client_count; i++) with the test and the `break`: `rounds` is client_count - i.
unfoldable pub remove : ℕ → ℕ → ℕ → (ℕ → ℕ) → ℕ → ℕ
unfolding shift
remove zero i sock socks = socks
remove (suc rounds) i sock socks =
    let more = remove rounds (i + 1) sock socks in
    if sock == socks i then shift rounds i socks else more

-- The end of `handle_client`. The count is at least 1: a client that leaves has joined.
unfoldable pub leave : ℕ → Clients → Clients
unfolding remove
leave sock c = record {
  client_socks = remove c.client_count 0 sock c.client_socks;
  client_count = c.client_count - 1;
}

-- The loop of `send_message` from `i` on.
unfoldable pub send_from : ℕ → ℕ → (ℕ → ℕ) → List ℕ → List Event
send_from zero i socks msg = []
send_from (suc rounds) i socks msg = Event.send (socks i) msg ∷ send_from rounds (i + 1) socks msg

unfoldable pub send_message : Clients → List ℕ → List Event
unfolding send_from
send_message c msg = send_from c.client_count 0 c.client_socks msg
