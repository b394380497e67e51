-- ===== src/UringEcho/Tests.antt =====
-- One client, which sends four bytes.
use c_language_learnning.Base.{◌≡◌, refl, true, false, List, [], ◌∷◌, ◌++◌, inl, inr}
use c_language_learnning.Base.Int.{pos, negsuc}
use c_language_learnning.Base.Threads.{update}
use c_language_learnning.UringEcho.{
  Request, set_read_event, set_write_event, set_accept_event, on_accept, on_read, on_write, on_type,
  on_cqe, State, init, close_all, connected, completed, Run, here, onward,
}
use c_language_learnning.UringEcho.Pending.{Inv, one_request_each}
use c_language_learnning.UringEcho.Once.{Stuck, echoes_once}

failed_run :
    (on_cqe (pos 3) (set_accept_event (pos 3)).info (negsuc 23)).1
    ≡ set_read_event (negsuc 23) 1024 ∷ set_accept_event (pos 3) ∷ []
unfolding on_cqe on_type on_accept
failed_run = refl

end_run : on_cqe (pos 3) (set_read_event (pos 5) 1024).info (pos 0) ≡ (pos 5 ∷ [], [])
unfolding on_cqe on_type on_read
end_run = refl

abbrev accepts_again : List Request
accepts_again = set_accept_event (pos 3) ∷ []

abbrev has_sent : State
has_sent = record {
  pending = (accepts_again ++ []) ++ (set_write_event (pos 5) 4 ∷ []);
  opened = close_all [] (close_all [] (update (init (pos 3)).opened 5 true));
}

has_sent-Run : Run (pos 3) (init (pos 3)) has_sent
unfolding on_cqe on_type on_accept on_read
has_sent-Run =
    onward (onward here (connected [] (set_accept_event (pos 3)) [] 5 refl refl refl))
      (completed [] (set_read_event (pos 5) 1024) accepts_again (pos 4) refl (inl (λ q. cc)))

abbrev echoed : State
echoed = record {
  pending = (accepts_again ++ []) ++ (set_write_event (pos 5) 1024 ∷ []);
  opened = close_all [] has_sent.opened;
}

echoed-Run : Run (pos 3) has_sent echoed
unfolding on_cqe on_type on_write
echoed-Run =
    onward here
      (completed accepts_again (set_write_event (pos 5) 4) [] (pos 4) refl (inl (λ q. cc)))

-- An accept fails at first.
abbrev refused : State
refused = record { pending = set_read_event (negsuc 23) 1024 ∷ accepts_again; opened = λ fd. false }

refused-Run : Run (pos 3) (init (pos 3)) refused
unfolding on_cqe on_type on_accept close_all
refused-Run =
    onward here (completed [] (set_accept_event (pos 3)) [] (negsuc 23) refl (inr (23, refl)))

one_request_each_example : Inv refused
one_request_each_example = one_request_each refused-Run

echoes_once_example : Stuck 5 echoed
echoes_once_example = echoes_once 5 4 accepts_again [] has_sent-Run refl echoed-Run
