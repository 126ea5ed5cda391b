-- ===== src/Lib.antt =====
-- A file server in C: clients connect over TCP, client threads turn the lines they receive into
-- tasks, worker threads take the tasks from a queue, carry them out on the users' files and
-- accounts, and send the responses back.
--
-- The parts and their files (paths from the repository's root):
--   src/queue.c             Heap (the sift loops heapify_up and heapify_down), Queue (queue_push,
--                           queue_pop and the others); Queue/History has the orders in which
--                           threads can push, pop and close, Queue/Threads the threads that
--                           sleep on not_empty and are woken, Queue/Bag the queue as a multiset
--   src/task.c, priority.c  Task (task_create, task_compare_priority), Priority; TaskQueue puts the
--                           comparison of tasks into the queue
--   src/crypto.c            Crypto (xor_cipher, encode_data, decode_data)
--   src/fs.c                Fs (fs_upload, fs_download_path, fs_delete, fs_list), over Disk, the
--                           files by their path
--   src/user_db.c           Users (user_store_create, user_store_signup, user_store_login,
--                           user_store_lock_user), over Sql, the SQLite that the source calls;
--                           Users/Calls has the calls that each operation makes on mutexes,
--                           memory and handles, also those of user_store_destroy,
--                           user_store_unlock_user and execute_sql; Users/Held has what the
--                           libraries ask of these calls; Users/Lifetime puts them in order
--   src/user.c              OldUsers (an earlier store of accounts, which is not compiled), with the same
--                           answers as Users; OldUsers/Destroy has its user_store_destroy
--   src/worker.c            Responses (send_response, and from src/main.c the registration and
--                           deregistration of clients), Worker (the handlers of the six commands;
--                           Worker/Requests: what they call on the user store);
--                           Responses/Pointers: the pointer to an entry that a worker holds
--                           behind the mutex of the map
--   src/config.c            Config (config_init, trim_whitespace)
--   src/client.c            Client: Line (recv_line), Command (the parser of a line), Wait (the wait for
--                           a response and the reply), Session (client_thread_main for a connection), Thread (its
--                           loop over the connections)
--   src/main.c              Server (the start of main, on_sigint, the accept loop, the
--                           shutdown), Server/Main (main as the calls of the main thread, with
--                           tcp_listen, the start and the join of the threads), over Server/Parts,
--                           what each call asks of the parts of the server
--   src/client_program.c    ClientProgram: Commands (the lines that it sends), Connection
--                           (send_command, receive_response, signup, login, delete, list), Upload,
--                           Download, Interactive (interactive_mode) and Program
--                           (connect_to_server and main)
-- System puts the server's parts together, in any order of the steps of the accept loop, the client
-- threads and the workers. A worker carries out a task in one step; that the entry of its client can be
-- freed between the two critical sections of send_response is in Responses/Pointers, so what is shown
-- over System holds where no client's entry is freed in between; System/Refinement takes the response map as a finite map,
-- System/Files has what tasks do to the stored files of others, and System/Login follows a login from
-- the program to the accounts and back. Scan has what the sources use of sscanf.
-- Prelude has what they share: C strings as lists of bytes, arrays, decimal digits, results.
--
-- Numbers are natural numbers; the source's counters and sizes stay far below 2 ^ 64. A call of the C
-- library that can fail has its outcome as a parameter (`Calls`, `allocated`, `made`). An operation
-- under one mutex is one function of the state, and threads are orders of such operations.
--
-- Fuel: heapify_up has one round for each index down to the root, heapify_down one for each entry,
-- the copy loops one for each byte of the file, and the loop over popped tasks one for each entry, and
-- one more each. For the sift loops more fuel changes nothing, the copy loop of src/fs.c ends in a
-- success or an error of a call, and the loop over tasks takes every entry. The loops over input, wakes
-- and reads recur on the list of what comes.
--
-- What a peer sends is a list of bytes, all that still comes; a client of src/client_program.c gets it
-- in reads of given sizes. What other threads do during a wait is given with each wake.
--
-- A file is known by the text of its path, so what is said of the files of several users asks for
-- absolute paths without `.`, `..` and links (System/Files).
--
-- Not modelled: the log output, the sizes of allocations, and the memory of tasks and
-- responses. A write to a socket is what is written.
pub mod Prelude
pub mod Priority
pub mod Crypto
pub mod Disk
pub mod Fs
pub mod Sql
pub mod Config
pub mod OldUsers
pub mod Users
pub mod Task
pub mod Heap
pub mod Queue
pub mod TaskQueue
pub mod Scan
pub mod Responses
pub mod Worker
pub mod Client
pub mod Server
pub mod System
pub mod ClientProgram
