-- ===== src/ChatServer/Tests.antt =====
-- The table of clients at small inputs.
use c_language_learnning.Base.{◌≡◌, refl, ◌==◌, if◌then◌else◌, [], ◌∷◌}
use c_language_learnning.Effects.{Event}
use c_language_learnning.ChatServer.{Clients, leave, send_message}

-- Clients 5, 6 and 7, in this order.
abbrev three : Clients
three = record {
  client_socks = λ j. if j == 0 then 5 else if j == 1 then 6 else if j == 2 then 7 else 0;
  client_count = 3;
}

-- 5 has left, and 6 gets no message any more.
send_message_runs :
    send_message (leave 5 three) (1 ∷ []) ≡ Event.send 5 (1 ∷ []) ∷ Event.send 7 (1 ∷ []) ∷ []
unfolding send_message leave
send_message_runs = refl
