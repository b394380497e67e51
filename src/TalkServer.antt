-- ===== src/TalkServer.antt =====
-- The chat server of network-programming/youshuang/13-4shm_talk_server.cpp: a parent with a table of clients, and for
-- each client a child that shares one memory with the others. The kernel's part is given: what `accept`,
-- `socketpair`, `fork`, `waitpid` and `recv` return.
pub mod System
pub mod Table
pub mod Reachable
pub mod Buffers
pub mod Relay
pub mod Shutdown
mod Tests
use c_language_learnning.Base.{
  ℕ, zero, suc, ◌+◌, ◌-◌, ◌*◌, Option, none, some, Bool, true, false, ◌&&◌, List, [], ◌∷◌, ◌++◌,
  ltb, leb, ◌==◌, if◌then◌else◌,
}
use c_language_learnning.Base.Int.{ℤ, pos, negsuc}

abbrev pub user_limit : ℕ
user_limit = 5

abbrev pub buffer_size : ℕ
buffer_size = 1024

-- `client_data`
pub record Client : Type 0 where
  pub address : ℕ
  pub connfd : ℕ
  pub pid : ℕ
  pub pipe0 : ℕ
  pub pipe1 : ℕ

-- What the handlers of the parent and of a child do but for changing their state.
pub data Action : Type 0 where
  refuse closes watches unwatches kills : ℕ → Action
  -- the number of a client, sent down a pipe
  notify : ℕ → ℕ → Action
  sends : ℕ → List ℕ → Action
  -- run_child, for the client of this number
  runs_child : ℕ → Action

-- The parent's globals and the flags of `main`.
pub record Server : Type 0 where
  pub users : ℕ → Client
  pub sub_process : ℕ → ℤ
  pub user_count : ℕ
  pub stop_server : Bool
  pub terminate : Bool

abbrev pub put {ℓ} : {A : Type ℓ} → (ℕ → A) → ℕ → A → ℕ → A
put f i v j = if j == i then v else f j

-- The clients' numbers by process are all -1 at first; `users` is what `new` left.
unfoldable pub start : (ℕ → Client) → Server
start users = record {
  users = users;
  sub_process = λ pid. negsuc 0;
  user_count = 0;
  stop_server = false;
  terminate = false;
}

-- What a connection gets from the kernel, with `none` where fork fails.
pub record Connection : Type 0 where
  pub address : ℕ
  pub connfd : ℕ
  pub pipe0 : ℕ
  pub pipe1 : ℕ
  pub forked : Option ℕ

-- The entry of the table as it is before `fork`: its `pid` is the old one.
abbrev pub entry : Connection → Client → Client
entry c old = record {
  address = c.address;
  connfd = c.connfd;
  pid = old.pid;
  pipe0 = c.pipe0;
  pipe1 = c.pipe1;
}

-- The branches behind `fork`, in the parent.
unfoldable pub enter : Connection → Option ℕ → Server → Server × List Action
enter c none s = (
  record s { users = put s.users s.user_count (entry c (s.users s.user_count)) },
  closes c.connfd ∷ [],
)
enter c (some pid) s = (
  record s {
    users = put s.users s.user_count (record (entry c (s.users s.user_count)) { pid = pid });
    sub_process = put s.sub_process pid (pos s.user_count);
    user_count = s.user_count + 1;
  },
  runs_child s.user_count ∷ closes c.connfd ∷ closes c.pipe1 ∷ watches c.pipe0 ∷ [],
)

-- The branch of `main` for a new connection. `none`: `accept` fails.
unfoldable pub on_connection : Option Connection → Server → Server × List Action
on_connection none s = (s, [])
on_connection (some c) s =
    if leb user_limit s.user_count
    then (s, refuse c.connfd ∷ closes c.connfd ∷ [])
    else enter c c.forked s

-- The round of the loop around `waitpid` behind `sub_process[pid] = -1`, with `del_user` given.
unfoldable pub delete : ℤ → Server → Server × List Action
delete (negsuc n) s = (s, [])
delete (pos d) s =
    let last = s.users (s.user_count - 1) in
    if ltb user_limit d then (s, []) else (
      record s {
        users = put s.users d last;
        user_count = s.user_count - 1;
        sub_process = put s.sub_process last.pid (pos d);
      },
      unwatches (s.users d).pipe0 ∷ closes (s.users d).pipe0 ∷ [],
    )

unfoldable pub reap : ℕ → Server → Server × List Action
reap pid s =
    delete (s.sub_process pid) (record s { sub_process = put s.sub_process pid (negsuc 0) })

-- The loop around `waitpid`, for the children that it returns.
unfoldable pub reap_all : List ℕ → Server → Server × List Action
reap_all [] s = (s, [])
reap_all (pid ∷ pids) s =
    let r = reap pid s in let rest = reap_all pids r.0 in (rest.0, r.1 ++ rest.1)

unfoldable pub on_sigchld : List ℕ → Server → Server × List Action
on_sigchld pids s =
    let r = reap_all pids s in
    (
      (if r.0.terminate && (r.0.user_count == 0) then record r.0 { stop_server = true } else r.0),
      r.1,
    )

-- The loop that kills the children, from client `i` on.
unfoldable pub kill_from : (ℕ → Client) → ℕ → ℕ → List Action
kill_from users i zero = []
kill_from users i (suc n) = kills (users i).pid ∷ kill_from users (i + 1) n

unfoldable pub on_sigterm : Server → Server × List Action
on_sigterm s =
    if s.user_count == 0
    then (record s { stop_server = true }, [])
    else (record s { terminate = true }, kill_from s.users 0 s.user_count)

pub data Signal : Type 0 where
  sigchld : List ℕ → Signal
  sigterm other : Signal

unfoldable pub on_signal : Signal → Server → Server × List Action
on_signal (sigchld pids) s = on_sigchld pids s
on_signal sigterm s = on_sigterm s
on_signal other s = (s, [])

-- The loop over the users when a child has data, from client `j` on.
unfoldable pub notify_from : (ℕ → Client) → ℕ → ℕ → ℕ → ℕ → List Action
notify_from users sockfd child j zero = []
notify_from users sockfd child j (suc n) =
    let rest = notify_from users sockfd child (j + 1) n in
    if (users j).pipe0 == sockfd then rest else notify (users j).pipe0 child ∷ rest

unfoldable pub on_child : ℕ → ℕ → Server → List Action
on_child sockfd child s = notify_from s.users sockfd child 0 s.user_count

-- What a `recv` of a child returns; `again` stands for EAGAIN.
pub data Recv (A : Type 0) : Type 0 where
  again failed closed : Recv A
  received : A → Recv A

-- memset and recv on the shared memory, from index `i` on.
unfoldable pub clear : (ℕ → ℕ) → ℕ → ℕ → ℕ → ℕ
clear mem i n j = if leb i j && ltb j (i + n) then 0 else mem j

unfoldable pub store : (ℕ → ℕ) → ℕ → List ℕ → ℕ → ℕ
store mem i [] = mem
store mem i (c ∷ cs) = store (put mem i c) (i + 1) cs

unfoldable pub load : (ℕ → ℕ) → ℕ → ℕ → List ℕ
load mem i zero = []
load mem i (suc n) = mem i ∷ load mem (i + 1) n

-- The branch of `run_child` for data of its client: the shared memory, `stop_child` and what is sent.
unfoldable pub child_client : ℕ → ℕ → Recv (List ℕ) → (ℕ → ℕ) → (ℕ → ℕ) × Bool × List Action
child_client idx pipefd again mem = (clear mem (idx * buffer_size) buffer_size, false, [])
child_client idx pipefd failed mem = (clear mem (idx * buffer_size) buffer_size, true, [])
child_client idx pipefd closed mem = (clear mem (idx * buffer_size) buffer_size, true, [])
child_client idx pipefd (received cs) mem = (
  store (clear mem (idx * buffer_size) buffer_size) (idx * buffer_size) cs,
  false,
  notify pipefd idx ∷ [],
)

-- The branch for a number that the parent has sent: `stop_child` and what is sent.
unfoldable pub child_pipe : ℕ → Recv ℕ → (ℕ → ℕ) → Bool × List Action
child_pipe connfd again mem = (false, [])
child_pipe connfd failed mem = (true, [])
child_pipe connfd closed mem = (true, [])
child_pipe connfd (received client) mem =
    (false, sends connfd (load mem (client * buffer_size) buffer_size) ∷ [])
