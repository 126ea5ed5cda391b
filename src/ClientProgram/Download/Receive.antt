-- ===== src/ClientProgram/Download/Receive.antt =====
-- What receive_file_data of src/client_program.c makes of what send_file_data of src/worker.c writes.
use mathlib.Core.List.{append_assoc, append-nil}
use os_lab.Prelude.{
  ℕ, ◌-◌, ◌^◌, ◌≤◌, ◌<◌, ◌≡◌, refl, sym, ap, ◌∙◌, Bool, true, false, List, [], ◌∷◌, ◌++◌, some,
  Bytes, codes, decimal, length, length-append, take, drop, take-append, drop-append, drop_all, All,
  All-append, arith, ◌==◌,
}
use os_lab.ClientProgram.Download.Loop.{receive_loop-all, starved}
use os_lab.Disk.{Disk, write}
use os_lab.Responses.{Response}
use os_lab.Worker.{file_header}
use os_lab.Scan.{scan_words}
use os_lab.Scan.Words.{IsWord, scan_words-spaced}
use os_lab.Scan.Numbers.{scan_long-decimal}
use os_lab.Client.Command.{starts_with}
use os_lab.Client.Line.{c_string}
use os_lab.Client.Line.Laws.{Without, lacks, lacks-Without, decimal-Without, c_string_whole}
use os_lab.Client.Wait.{reply_text}
use os_lab.ClientProgram.Connection.{ClientState, is_ok}
use os_lab.ClientProgram.Connection.Replies.{
  Answers, is_resp_ok, read_block, received_reply, reply_is_ok,
}
use os_lab.ClientProgram.Download.{
  Local, scan_header, size_in, output_filename, receive_data, with_header, after_response,
  receive_file_data,
}

-- The server's header gives the size, and what follows it does not matter.
scan_header-file_header :
    (name : Bytes) (n : ℕ) (rest : Bytes)
    → IsWord 255 name
    → n < 2 ^ 63
    → scan_header (file_header name n ++ rest) ≡ some n
unfolding scan_header starts_with
scan_header-file_header name n rest word fits =
    let size = 32 ∷ decimal n ++ b'\n' ∷ rest in
    let flat : (name ++ codes " " ++ decimal n ++ codes "\n") ++ rest ≡ name ++ size =
      simp append_assoc in
    let named = scan_words-spaced (255 ∷ []) (name ∷ []) size (word, tt) refl in
    ap (λ text. size_in (scan_words (255 ∷ []) (32 ∷ text))) flat
    ∙ ap size_in named
    ∙ scan_long-decimal n (b'\n' ∷ rest) fits refl

header-Without : (name : Bytes) (n : ℕ) → Without 0 name → Without 0 (file_header name n)
unfolding lacks
header-Without name n clear =
    let start = codes "FILE_DATA " in
    let space = codes " " in
    let digits = decimal n in
    let named = Without-append start name (lacks-Without 0 start refl) clear in
    let spaced = Without-append (start ++ name) space named (lacks-Without 0 space refl) in
    let sized =
      Without-append (start ++ name ++ space) digits spaced (decimal-Without 0 n (omega arith)) in
    Without-append (start ++ name ++ space ++ digits) (codes "\n") sized
      (lacks-Without 0 (codes "\n") refl)
  where
    Without-append : (a b : Bytes) → Without 0 a → Without 0 b → Without 0 (a ++ b)
    Without-append a b = All-append (λ c. c == 0 ≡ false) a b

-- The server's reply is OK, and behind it comes the header in one read and then the bytes of the
-- file, of which every further read gets at least one.
pub record FileFollows (l : Local) (name bytes rest : Bytes) (r : Response) (a : Answers l.client r)
    (sizes : List ℕ) : Type 0 where
  pub status : is_resp_ok r.status ≡ true
  pub message : length r.message < 512
  pub word : IsWord 255 name
  pub string : Without 0 name
  pub size_fits : length bytes < 2 ^ 63
  pub header_fits : length (file_header name (length bytes)) < 1024
  pub stream : a.rest ≡ file_header name (length bytes) ++ bytes ++ rest
  pub in_one : a.sizes ≡ length (file_header name (length bytes)) ∷ sizes
  pub sized : All (λ size. 0 < size) sizes
  pub calls : length bytes ≤ length sizes

-- The output file has the bytes, and nothing but the file was taken from the stream.
pub record Fetched (l : Local) (filename bytes rest : Bytes) (result : Local × Bool) : Type 0 where
  pub done : result.1 ≡ true
  pub disk : result.0.disk ≡ write l.disk (output_filename filename) bytes
  pub left : result.0.client.stream ≡ rest

receive_data-alone :
    (l : Local) (filename bytes rest header : Bytes)
    → Without 0 header
    → l.client.stream ≡ bytes ++ rest
    → All (λ size. 0 < size) l.client.sizes
    → length bytes ≤ length l.client.sizes
    → Fetched l filename bytes rest (receive_data l filename header (length bytes))
receive_data-alone l filename bytes rest header clear stream sized calls =
    let nothing : drop (length (c_string header)) header ≡ [] =
      rw (c_string_whole header clear) (drop_all (length header) header (omega arith)) in
    let there : length bytes ≤ length l.client.stream =
      omega (arith, ap length stream, length-append bytes rest) in
    let (left, written, done) =
      receive_loop-all l.client.sizes l.client.stream (length bytes) [] sized calls there in
    let same = take-append (length bytes) bytes rest refl in
    let others = drop-append (length bytes) bytes rest refl in
    let whole : length bytes - 0 ≡ length bytes = omega arith in
    rw (nothing, whole)
      (record {
        done = done;
        disk =
            ap (write l.disk (output_filename filename))
              (written ∙ ap (take (length bytes)) stream ∙ same);
        left = left ∙ ap (drop (length bytes)) stream ∙ others;
      })

with_header-alone :
    (l : Local) (filename bytes rest header : Bytes)
    → Without 0 header
    → scan_header (c_string header) ≡ some (length bytes)
    → l.client.stream ≡ bytes ++ rest
    → All (λ size. 0 < size) l.client.sizes
    → length bytes ≤ length l.client.sizes
    → Fetched l filename bytes rest
        (with_header true l filename header (scan_header (c_string header)))
with_header-alone l filename bytes rest header clear is stream sized calls =
    rw is (receive_data-alone l filename bytes rest header clear stream sized calls)

after_response-follows :
    (d : Disk) (client : ClientState) (filename reply bytes rest header : Bytes) (sizes : List ℕ)
    → is_ok reply ≡ true
    → Without 0 header
    → 0 < length header
    → length header ≤ 1023
    → scan_header header ≡ some (length bytes)
    → client.stream ≡ header ++ bytes ++ rest
    → client.sizes ≡ length header ∷ sizes
    → All (λ size. 0 < size) sizes
    → length bytes ≤ length sizes
    → Fetched
        (record { client = client; disk = d })
        filename
        bytes
        rest
        (after_response true d filename (client, some reply))
after_response-follows d client filename reply bytes rest header sizes ok clear some_header short is
      stream in_one sized calls =
    let (read, left) =
      read_block 1023 client header (bytes ++ rest) sizes short
        (stream ∙ append_assoc header bytes rest) in_one in
    let next : Local = record {
      client = record client { stream = bytes ++ rest; sizes = sizes };
      disk = d;
    } in
    let string = c_string_whole header clear in
    let fetched =
      with_header-alone next filename bytes rest header clear (ap scan_header string ∙ is) refl
        sized calls in
    let more : length header == 0 ≡ false = ground arith in
    let done : Fetched next filename bytes rest
        (with_header true next filename header (scan_header (c_string header))) =
      fetched in
    rw (ok, read, left, more) (record { done = done.done; disk = done.disk; left = done.left })

header_positive : (name : Bytes) (n : ℕ) → 0 < length (file_header name n)
header_positive name n =
    omega (arith, length-append (codes "FILE_DATA " ++ name ++ codes " " ++ decimal n) (codes "\n"))

-- The server's OK reply, its header in one read, and the bytes of the file, however they are cut,
-- where the output file can be opened, the name is a word without NULs of at most 255 bytes, the
-- header fits in the read, and the file has less than 2 ^ 63 bytes: the program then writes
-- exactly these bytes to the output file, reports success, and leaves what follows in the stream.
pub receive_file_data-Fetched :
    (l : Local) (filename name bytes rest : Bytes) (r : Response) (a : Answers l.client r)
    (sizes : List ℕ)
    → FileFollows l name bytes rest r a sizes
    → Fetched l filename bytes rest (receive_file_data true l filename)
unfolding receive_file_data
receive_file_data-Fetched l filename name bytes rest r a sizes f =
    let header = file_header name (length bytes) in
    let client : ClientState = record l.client { stream = a.rest; sizes = a.sizes } in
    let ok = reply_is_ok r f.message ∙ f.status in
    let is =
      ap scan_header (sym (append-nil header))
      ∙ scan_header-file_header name (length bytes) [] f.word f.size_fits in
    let fetched =
      after_response-follows l.disk client filename (reply_text r) bytes rest header sizes ok
        (header-Without name (length bytes) f.string) (header_positive name (length bytes))
        (omega (arith, f.header_fits)) is f.stream f.in_one f.sized f.calls in
    rw (received_reply l.client r a f.message)
      (record { done = fetched.done; disk = fetched.disk; left = fetched.left })

-- If the bytes of the file come in the same read as the header, have no NUL among them or in the
-- name, and nothing follows, they are lost: the output file is empty, and the program reports a
-- failure. The file must have a byte.
pub receive_data-joined :
    (l : Local) (filename name bytes : Bytes)
    → Without 0 name
    → Without 0 bytes
    → 0 < length bytes
    → l.client.stream ≡ []
    → ((receive_data l filename (file_header name (length bytes) ++ bytes) (length bytes)).1
        ≡ false)
      × ((receive_data l filename (file_header name (length bytes) ++ bytes) (length bytes)).0.disk
          ≡ write l.disk (output_filename filename) [])
receive_data-joined l filename name bytes clear_name clear more nothing =
    let buffer = file_header name (length bytes) ++ bytes in
    let string =
      All-append (λ c. c == 0 ≡ false) (file_header name (length bytes)) bytes
        (header-Without name (length bytes) clear_name) clear in
    let no_first : drop (length (c_string buffer)) buffer ≡ [] =
      rw (c_string_whole buffer string) (drop_all (length buffer) buffer (omega arith)) in
    let whole : length bytes - 0 ≡ length bytes = omega arith in
    let (fails, empty) = starved l.client.sizes (length bytes) more in
    rw (no_first, whole, nothing) (fails, ap (write l.disk (output_filename filename)) empty)
