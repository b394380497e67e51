-- ===== src/TalkServer/Shutdown.antt =====
-- How the server stops.
use c_language_learnning.Base.{
  ℕ, ◌≡◌, refl, ◌∙◌, none, true, List, [], ◌∷◌, ltb, ◌==◌, arith, Bool-cases, inl, inr,
}
use c_language_learnning.Base.Int.{ℤ, pos, negsuc}
use c_language_learnning.TalkServer.{user_limit, Server, put, delete, reap, reap_all, on_sigchld}
use c_language_learnning.TalkServer.System.{Children, Inv, Exits}
use c_language_learnning.TalkServer.Table.{reap_all-Inv}

terminate-delete : (d : ℤ) (s : Server) → (delete d s).0.terminate ≡ s.terminate
unfolding delete
terminate-delete (negsuc n) s = refl
terminate-delete (pos d) s = elim (Bool-cases (ltb user_limit d)) [
  | inl outside ↦ rw outside refl
  | inr inside ↦ rw inside refl
]

terminate-reap_all : (pids : List ℕ) (s : Server) → (reap_all pids s).0.terminate ≡ s.terminate
unfolding reap_all reap
terminate-reap_all [] s = refl
terminate-reap_all (pid ∷ pids) s =
    terminate-reap_all pids (reap pid s).0
    ∙ terminate-delete (s.sub_process pid)
        (record s { sub_process = put s.sub_process pid (negsuc 0) })

-- Once the server was told to terminate, and while its table and map agree with its children, the SIGCHLD after which no child is left
-- stops it.
pub on_sigchld_stops :
    (s : Server) (live live' : Children) (pids : List ℕ)
    → Inv s live
    → s.terminate ≡ true
    → Exits live pids live'
    → ((pid : ℕ) → live' pid ≡ none)
    → (on_sigchld pids s).0.stop_server ≡ true
unfolding on_sigchld
on_sigchld_stops s live live' pids v told gone all_gone =
    let r = (reap_all pids s).0 in
    let w = reap_all-Inv s live live' pids gone v in
    elim (Bool-cases (r.user_count == 0)) [
      | inl idle ↦ rw (terminate-reap_all pids s ∙ told, idle) refl
      | inr busy ↦
          let f = w.filled 0 (ground (arith, busy)) in
          absurd (ground (arith, f.alive, all_gone (r.users 0).pid))
    ]
