-- ===== src/Lib.antt =====
-- A verification library for programs of this repository, which collects C programs on network
-- and system programming. Modelled are the programs with logic of their own:
--
-- * network-programming/http/epollhttpd/epoll.c, an HTTP server on epoll, in Epollhttpd. Url has
--   `encode_str`, `decode_str` and `hexit`; Mime has `get_file_type`; Server has `do_read`,
--   `http_get_request`, `send_dir`, `send_file`, `send_respond_head` and `disconnect`. `do_read` reads
--   the request by `get_line` (Line), answers its first line by `http_get_request`, which decodes the name
--   of the file and sends a directory's page or a file's head, and disconnects.
-- * network-programming/http/tinyhttpd/httpd.c, a server that runs programs, in Tinyhttpd. Parse has
--   the scanning of the request line in `accept_request`; Headers has the loops that read headers; Cat
--   has `cat`; Pages has the fixed replies; Server has `serve_file`, `execute_cgi` and
--   `accept_request`. Its `get_line` is the text of the other server's, so both use Line.
-- * system-programming/threadpool/spinlock-version, a thread pool, in SpinPool. TaskQueue has
--   `__add_task` and `__pop_task` of threadpool.c on the linked tasks; Spinlock has the functions of
--   spinlock.h, one atomic access at a time; Pool has the workers, `thread_pool_post` and
--   `thread_pool_terminate` as steps of any number of threads, on the linked queue of TaskQueue.
-- * liburing-learnning/io_uring-cp.c, a copy of a file, in UringCopy: `copy_file` as steps of the program
--   and of the kernel, with `queue_read` and `queue_write`, and the kernel free to complete any request in
--   the ring, wholly or in part.
-- * liburing-learnning/use-io_uring-cat.c, which prints files, in UringCat: `submit_to_sq` with the blocks of a file and the
--   conversions of its size, `read_from_cq`, and the loop of `main`, over the two rings and a given kernel.
-- * liburing-learnning/tcp_server_iouring.c, an echo server, in UringEcho: the requests that it sets, and what its loop does with each
--   completion.
-- * network-programming/yinshengyu/chat_server.c in ChatServer: the table of clients, in `main`,
--   `handle_client` and `send_message`.
-- * the chat server of network-programming/youshuang/13-4shm_talk_server.cpp, in TalkServer: the parent's handlers of
--   connections, signals and pipes in `main`, and the two branches of `run_child`, which each process of a client runs, on the
--   memory that they share.
-- * network-programming/youshuang/8-3httpparser.cpp, a parser fed piece by piece, in HttpParser:
--   `parse_line`, `parse_requestline`, `parse_headers`, `parse_content`, and the loop of `main` as `serve`,
--   over what each recv returns.
-- * the timers of network-programming/youshuang/timer, with 11-2lst_timer.h, a sorted list of timers, in TimerList, on the links
--   themselves; 11-5tw_timer.h, a wheel of timers, in TimeWheel; 11-6time_heap.h, a heap of timers, in
--   TimeHeap. A timer is its address, and a callback is taken not to change the timers.
-- * the two pools of c-plus-plus-server/webserver: CGImysql/sql_connection_pool.cpp, connections to a data base, in ConnPool, and
--   threadpool/threadpool.h, worker threads that take requests from a queue and use those connections, in ServerPool. Both are
--   steps of any number of threads; the places of a worker that processes a request are those of a thread of ConnPool.
-- * c-plus-plus-server/webserver/log/block_queue.h, the queue between a server and its log, in BlockQueue. What other
--   threads do to the queue while `pop` waits is given with each wait.
-- * c-data-struct-learnning/linklist/linkedlist.c, a list of values, in LinkedList, on the links themselves.
--
-- Shared: Base (tests on numbers, lists, C strings, chains of addresses, sums over threads), Socket (a connection as
-- the outcomes of the reads to come), Effects (what a server sends and closes, with `exit` and faults), Decimal (`%d` and
-- `atoi`).
--
-- Bytes are numbers below 256 where they come from a text, and a C string is the list of its bytes without
-- the final zero; a text that does not fit its buffer is a `fault`. Numbers of the programs
-- are natural numbers where the code only counts up, so wrap-around does not arise; `atoi` is meant for
-- values that fit an `int`.
--
-- Fuel: the loops that read a socket get one or two rounds more than the socket has outcomes left, since each
-- round but the last uses up one; `cat` gets one round more than the file has bytes. `parse_content`
-- gets one round more than there are bytes to
-- read, since each line that is found has one at least; the loops of the heap get as many rounds as it has timers, or
-- as the hole's index. The loops of the two linked lists take the rounds as an argument, and the theorems ask for as many
-- as there are cells, or one more. The loop over the blocks of a file in UringCat gets one round more than the file has bytes, and the loop over the
-- completion queue one more than there are entries.
--
-- Not modelled: the calls that open sockets, `epoll_wait` and the accept loop (they only call the
-- kernel), failures of `malloc` and `new` except in `queue_read` and in UringCat, an `io_uring_submit` that fails, the other samples
-- of the repository, and sds, a copy of the string library of Redis. The system calls are
-- parameters: records of what they answer. The program that `execute_cgi` runs is a function from its environment and input to
-- its output, and pipes do not block.
pub mod Base
pub mod BlockQueue
pub mod ChatServer
pub mod ConnPool
pub mod Decimal
pub mod Effects
pub mod Epollhttpd
pub mod HttpParser
pub mod Line
pub mod LinkedList
pub mod ServerPool
pub mod Socket
pub mod SpinPool
pub mod TalkServer
pub mod TimeHeap
pub mod TimeWheel
pub mod TimerList
pub mod Tinyhttpd
pub mod UringCat
pub mod UringCopy
pub mod UringEcho
