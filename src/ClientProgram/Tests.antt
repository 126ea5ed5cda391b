-- ===== src/ClientProgram/Tests.antt =====
-- Runs of src/client_program.c, and its theorems at commands of a user ann.
use os_lab.Prelude.{
  ◌<◌, ◌≡◌, ◌==◌, pos, refl, true, false, List, [], ◌∷◌, ◌++◌, some, Bytes, codes, arith, length,
  str_eq, decimal,
}
use os_lab.Priority.{normal}
use os_lab.Disk.{Disk, read, write}
use os_lab.Task as Task
use os_lab.Responses.{Response, resp_ok, response}
use os_lab.TaskQueue.Tests.{task}
use os_lab.Worker.{file_header}
use os_lab.Scan.Words.{IsWord}
use os_lab.Client.Line.{recv_line, c_string}
use os_lab.Client.Line.Laws.{Without}
use os_lab.Client.Command.{parse, pushes}
use os_lab.Client.Wait.{reply_text}
use os_lab.ClientProgram.Commands.{Request, login, command}
use os_lab.ClientProgram.Commands.RoundTrip.{meant, parse-command}
use os_lab.ClientProgram.Connection.{ClientState}
use os_lab.ClientProgram.Connection.Replies.{Answers}
use os_lab.ClientProgram.Download.{Local, receive_file_data, receive_data, output_filename}
use os_lab.ClientProgram.Download.Receive.{
  FileFollows, Fetched, receive_file_data-Fetched, receive_data-joined,
}
use os_lab.ClientProgram.Upload.{Files, tmpfile}
use os_lab.ClientProgram.Upload.Copy.{Smooth, Offered, upload_file-Offered}
use os_lab.ClientProgram.Interactive.{Outcomes, Buffers}
use os_lab.ClientProgram.Program.{Network, opens, closes, connect_to_server, main}
use os_lab.ClientProgram.Program.Laws.{Ran, main-Ran}

abbrev asked : Request
asked = login (codes "ann") (codes "pw")

ann_IsWord : IsWord 63 (codes "ann")
ann_IsWord = (omega arith, (refl, (refl, (refl, tt))))

pw_IsWord : IsWord 63 (codes "pw")
pw_IsWord = (omega arith, (refl, (refl, tt)))

ann_clear : Without 0 (codes "ann")
ann_clear = (refl, (refl, (refl, tt)))

parse-command_example :
    (parse
        (task Task.login normal 1)
        (c_string (recv_line 512 [] (command asked ++ codes "LIST")).0)
      ≡ pushes (meant asked (task Task.login normal 1)))
    × ((recv_line 512 [] (command asked ++ codes "LIST")).2 ≡ codes "LIST")
parse-command_example =
    parse-command asked (task Task.login normal 1) [] (codes "LIST") (ann_IsWord, pw_IsWord)
      (ann_clear, ((refl, (refl, tt)), tt)) (omega arith)

abbrev files : Disk
files = record { files = (codes "a.txt", codes "hello") ∷ []; dirs = [] }

abbrev fresh : ClientState
fresh = record { username = []; logged_in = false; sent = []; stream = []; sizes = [] }

abbrev ok_reply : Response
ok_reply = response 1 resp_ok (some (codes "logged_in"))

abbrev answered : ClientState
answered = record fresh {
  stream = reply_text ok_reply ++ [];
  sizes = length (reply_text ok_reply) ∷ [];
}

abbrev answers : Answers answered ok_reply
answers = record { rest = []; sizes = []; stream = refl; in_one = refl }

abbrev smooth : Files
smooth = record {
  now = 7;
  stat_finds = true;
  opens_source = true;
  opens_tmpfile = true;
  reads = λ n. true;
  writes = λ n. true;
  unlinks = true;
}

abbrev outcomes : Outcomes
outcomes = record { accepted = 5; opens_output = true; files = smooth; meanwhile = λ (d : Disk). d }

abbrev empty_buffers : Buffers
empty_buffers = record { command = []; arg1 = []; arg2 = []; arg3 = [] }

abbrev local : Local
local = record { client = fresh; disk = files }

abbrev typed : List (Outcomes × Bytes)
typed = (outcomes, codes "list\n") ∷ (outcomes, codes "quit\n") ∷ []

apart : str_eq (tmpfile (codes "a.txt") 7) (codes "a.txt") ≡ false
unfolding str_eq decimal
apart = refl

source : read files (codes "a.txt") ≡ some (codes "hello")
unfolding read str_eq
source = refl

all_well : Smooth smooth
all_well = record {
  stat_finds = refl;
  opens_source = refl;
  opens_tmpfile = refl;
  reads = λ n. refl;
  writes = λ n. refl;
}

upload_file-Offered_example :
    Offered smooth all_well
      (codes "a.txt")
      (tmpfile (codes "a.txt") 7)
      (codes "hello")
      apart
      local
      (λ d. d)
      30
upload_file-Offered_example =
    upload_file-Offered smooth all_well local (codes "a.txt") (codes "hello") apart (λ d. d) 30
      source

abbrev header : Bytes
header = file_header (codes "a.txt") 2

abbrev fetching : Local
fetching = record {
  client = record fresh {
    stream = reply_text ok_reply ++ (header ++ codes "hi" ++ []);
    sizes = length (reply_text ok_reply) ∷ length header ∷ 1 ∷ 1 ∷ [];
  };
  disk = files;
}

abbrev ok_first : Answers fetching.client ok_reply
ok_first = record {
  rest = header ++ codes "hi" ++ [];
  sizes = length header ∷ 1 ∷ 1 ∷ [];
  stream = refl;
  in_one = refl;
}

name_IsWord : IsWord 255 (codes "a.txt")
name_IsWord = (omega arith, (refl, (refl, (refl, (refl, (refl, tt))))))

name_clear : Without 0 (codes "a.txt")
name_clear = (refl, (refl, (refl, (refl, (refl, tt)))))

length-header : length header < 1024
unfolding decimal
length-header = omega arith

follows : FileFollows fetching (codes "a.txt") (codes "hi") [] ok_reply ok_first (1 ∷ 1 ∷ [])
follows = record {
  status = refl;
  message = omega arith;
  word = name_IsWord;
  string = name_clear;
  size_fits = omega arith;
  header_fits = length-header;
  stream = refl;
  in_one = refl;
  sized = (omega arith, (omega arith, tt));
  calls = omega arith;
}

receive_file_data-Fetched_example :
    Fetched fetching
      (codes "a.txt")
      (codes "hi")
      []
      (receive_file_data true fetching (codes "a.txt"))
receive_file_data-Fetched_example =
    receive_file_data-Fetched fetching (codes "a.txt") (codes "a.txt") (codes "hi") [] ok_reply
      ok_first (1 ∷ 1 ∷ []) follows

receive_data-joined_example :
    ((receive_data local (codes "a.txt") (file_header (codes "a.txt") 2 ++ codes "hi") 2).1 ≡ false)
    × ((receive_data local (codes "a.txt") (file_header (codes "a.txt") 2 ++ codes "hi") 2).0.disk
        ≡ write files (output_filename (codes "a.txt")) [])
receive_data-joined_example =
    receive_data-joined local (codes "a.txt") (codes "a.txt") (codes "hi") name_clear
      (refl, (refl, tt)) (omega arith) refl

abbrev network : Network
network = record {
  socket = some 3;
  is_address = λ host. true;
  connects = λ host port. port == 4464;
  atoi = λ text. pos 70000;
  stream = [];
  sizes = [];
}

main-Ran_example :
    Ran network
      (codes "::1" ∷ codes "70000" ∷ [])
      files
      (main network (codes "::1" ∷ codes "70000" ∷ []) files typed empty_buffers)
main-Ran_example = main-Ran network (codes "::1" ∷ codes "70000" ∷ []) files typed empty_buffers

-- With no other argument the port is 9090, where nothing listens here.
main_refused : (main network [] files typed empty_buffers).calls ≡ opens 3 ∷ closes 3 ∷ []
unfolding main connect_to_server
main_refused = refl
