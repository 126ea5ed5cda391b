-- ===== src/System/Tests.antt =====
-- The server from its start, with one client that was accepted.
use mathlib.Core.List.{Nodup-nil, not-mem-nil}
use os_lab.Prelude.{
  some, ◌++◌, ◌≡◌, refl, length, str_eq, true, false, [], ◌∷◌, ℤ, pos, codes, arith, none, Perm,
}
use os_lab.Task.{ClientInfo}
use os_lab.Queue.{queue_init}
use os_lab.Responses.{ResponseQueueEntry}
use os_lab.Users.Tests.{lists, in_memory, nothing, ann, secret_word}
use os_lab.Responses.Tests.{ties}
use os_lab.Server.{Connection, started, accept_client}
use os_lab.Config.{config_init}
use os_lab.Server.Start.{Start, port_of, start_up}
use os_lab.Server.Ids.{Fresh}
use os_lab.Server.Main
use os_lab.System.{System, with_server, server_of, Step, accepts, Reach, here, next}
use os_lab.Priority.{normal}
use os_lab.Task.{Task, login}
use os_lab.TaskQueue.Tests.{task}
use os_lab.Users.{
  user_store_login, user_store_lock_user, locked_memory, login_memory, find_user, user_store_create,
}
use os_lab.Users.Login.{CanLogin}
use os_lab.Responses.{Response}
use os_lab.Worker.{login_result}
use os_lab.Worker.Tests.{smooth, world}
use os_lab.Client.Command.{starts_with}
use os_lab.Client.Wait.{reply_text}
use os_lab.ClientProgram.Commands.{command}
use os_lab.ClientProgram.Commands as Commands
use os_lab.ClientProgram.Commands.RoundTrip.{meant}
use os_lab.ClientProgram.Connection.{ClientState, log_in, exchange, send_command, receive_response}
use os_lab.ClientProgram.Connection.Replies.{Answers}
use os_lab.System.Login.{response_to, LoggedIn, log_in-password}
use os_lab.TaskQueue.{task_inhabited}
use os_lab.Queue.History.{held}
use os_lab.System.Tasks.{all_taken, all_pushed, Reach-tasks}
use os_lab.System.Refinement.Runs.{Changes, Reach-view}
use os_lab.System.Isolation.{Isolated, Reach-Isolated}

abbrev pub entries_tie : ResponseQueueEntry → ResponseQueueEntry → ℤ
entries_tie a b = pos 0

abbrev pub clients_tie : ClientInfo → ClientInfo → ℤ
clients_tie a b = pos 0

abbrev pub system : System lists ties entries_tie clients_tie
system = record {
  server = started;
  world = record { user_store = in_memory; disk = nothing; resp_queues = queue_init; wire = [] };
  serving = [];
  replies = [];
}

abbrev arrival : Connection
arrival = record { cfd = 5; allocated = true; grows_map = true; grows_clients = true }

abbrev accepted : System lists ties entries_tie clients_tie
accepted = with_server lists ties entries_tie clients_tie system (
    accept_client entries_tie clients_tie arrival
      (server_of lists ties entries_tie clients_tie system))

none_given : Fresh [] 1
none_given = record { once = Nodup-nil; below = λ id m. absurd (not-mem-nil m) }

at_start : Isolated lists ties entries_tie clients_tie system
at_start = record { entries = none_given; clients = none_given; addressed = tt; replied = tt }

accepting : Step lists ties entries_tie clients_tie system accepted
accepting = accepts arrival refl

reached : Reach lists ties entries_tie clients_tie system accepted
reached = next here accepting

Reach-Isolated_example : Isolated lists ties entries_tie clients_tie accepted
Reach-Isolated_example = Reach-Isolated lists ties entries_tie clients_tie at_start reached

Reach-view_example : Changes lists ties entries_tie clients_tie accepting
Reach-view_example = Reach-view lists ties entries_tie clients_tie at_start here accepting

Reach-tasks_example :
    Perm
      (all_taken lists ties entries_tie clients_tie reached ++ held accepted.server.task_queue)
      (all_pushed lists ties entries_tie clients_tie reached)
Reach-tasks_example = Reach-tasks lists ties entries_tie clients_tie refl reached

abbrev created : Task
created = task login normal 1

abbrev reply_to_ann : Response
reply_to_ann =
    response_to 1
      (login_result lists ties smooth world (meant (Commands.login ann secret_word) created))

abbrev expecting : ClientState
expecting = record {
  username = [];
  logged_in = false;
  sent = [];
  stream = reply_text reply_to_ann ++ [];
  sizes = length (reply_text reply_to_ann) ∷ [];
}

abbrev arrives : Answers expecting reply_to_ann
arrives = record { rest = []; sizes = []; stream = refl; in_one = refl }

ann_logged_in :
    (log_in (length (command (Commands.login ann secret_word))) expecting ann secret_word).1 ≡ true
unfolding log_in exchange send_command receive_response starts_with command user_store_login
    user_store_lock_user locked_memory login_memory find_user str_eq
ann_logged_in = refl

log_in-password_example :
    LoggedIn lists ties smooth world created expecting ann secret_word [] (codes "LIST ann\n")
unfolding CanLogin
log_in-password_example =
    log_in-password lists ties smooth world created expecting ann secret_word []
      (codes "LIST ann\n") arrives
      ((omega arith, (refl, (refl, (refl, tt)))), (omega arith, (refl, (refl, tt))))
      (refl, (refl, (refl, tt))) (refl, (refl, tt)) (omega arith) refl tt ann_logged_in

abbrev start : Start
start = record {
  config_text = λ file. some (codes "use_persistent_storage=false\n");
  atoi = λ text. pos 70000;
  storage_exists = true;
  storage_made = false;
  allocates_server = true;
  allocates_store = true;
  root_made = false;
}

-- Without memory for the user store there is no server.
start_fails : start_up lists (record start { allocates_store = false }) [] nothing ≡ (nothing, none)
unfolding start_up config_init user_store_create str_eq
start_fails = refl

-- A port of more than 16 bits wraps around.
port_wraps : port_of start (codes "70000" ∷ []) ≡ 4464
port_wraps = refl
