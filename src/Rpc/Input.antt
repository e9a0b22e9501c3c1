-- ===== src/Rpc/Input.antt =====
-- include/lsp/JsonRpc.h: `sendMessage` and `readJson`, on the bytes of the input. The JSON library and
-- `std::stoi` are parameters.
use slang_server_verilator.Prelude.{
  ℕ, zero, suc, Bool, true, false, List, [], ◌∷◌, ◌++◌, Option, none, some, if◌then◌else◌, ◌==◌,
  ltb, Bytes, length, take, drop, replicate,
}
use slang_server_verilator.Rpc.Types.{Request}
use slang_server_verilator.Snippet.Types.{to_string}
use slang_server_verilator.Text.{codes, starts_with}

-- `std::stoi`, which throws on text that starts with no number of an `int`; what the JSON library reads
-- as a request, and whether it reads a response
pub record Json : Type 0 where
  pub stoi : Bytes → Option ℕ
  pub request : Bytes → Option Request
  pub is_response : Bytes → Bool
  -- whether the error reply, which quotes the text, can be written
  pub can_report : Bytes → Bool

-- What is left of `std::cin`, and whether its end was met
pub record Stream : Type 0 where
  pub bytes : Bytes
  pub eof : Bool

-- The stream, `line` and `content`, and the texts answered by a parse error, the last one first
pub record Input : Type 0 where
  pub stream : Stream
  pub line : Bytes
  pub content : Bytes
  pub errors : List Bytes

-- `sendMessage` of a message that is written as `body`
unfoldable pub send_message : Bytes → Bytes
send_message body =
    codes "Content-Length: " ++ (to_string (length body) ++ (b'\r' ∷ b'\n' ∷ b'\r' ∷ b'\n' ∷ body))

-- The front up to a line feed, and what is behind it if there is one
unfoldable pub split_line : Bytes → Bytes × Option Bytes
split_line [] = ([], none)
split_line (c ∷ s) =
    let rest = split_line s in if c == b'\n' then ([], some s) else (c ∷ rest.0, rest.1)

-- What `std::getline` leaves: the line, the stream, and whether it succeeded
pub record Got : Type 0 where
  pub line : Bytes
  pub stream : Stream
  pub ok : Bool

unfoldable pub got_line : Bytes → Option Bytes → Got
got_line line none = record {
  line = line;
  stream = record { bytes = []; eof = true };
  ok = ltb 0 (length line);
}
got_line line (some rest) = record {
  line = line;
  stream = record { bytes = rest; eof = false };
  ok = true;
}

-- `std::getline`; at the end of the stream it leaves the line as it was.
unfoldable pub get_line : Bytes → Stream → Got
get_line old s =
    let split = split_line s.bytes in
    if s.eof then record { line = old; stream = s; ok = false } else got_line split.0 split.1

-- The `do` loop over the other header lines; without fuel it goes on.
unfoldable pub skip_headers : ℕ → Bytes → Stream → Option (Bytes × Stream)
skip_headers zero line s = none
skip_headers (suc f) line s =
    let got = get_line line s in
    let rest = skip_headers f got.line got.stream in
    if ltb 1 (length got.line) then rest else some (got.line, got.stream)

-- `content.resize(n)`
unfoldable pub resize : ℕ → Bytes → Bytes
resize n content = take n (content ++ replicate n 0)

-- `std::cin.read(&content[0], n)`: bytes that are not there stay as they were.
unfoldable pub read_content : ℕ → Bytes → Stream → Bytes × Stream
read_content n content s =
    let taken = take n s.bytes in
    if s.eof then (content, s) else (
      taken ++ drop (length taken) content,
      record { bytes = drop n s.bytes; eof = ltb (length s.bytes) n },
    )

-- A result of `readJson`: a request, the end of the input, or an exception; `endless` when
-- the fuel is spent
pub data ReadResult : Type 0 where
  message : Request → Input → ReadResult
  closed throws : Input → ReadResult
  endless : ReadResult

-- One turn of the outer loop ends it, or leads to the next.
pub data Turn : Type 0 where
  returns : ReadResult → Turn
  continues : Input → Turn

unfoldable pub parse_content : Json → Input → Option Request → Turn
parse_content json i (some request) = returns (message request i)
parse_content json i none =
    if json.is_response i.content
    then continues i
    else if json.can_report i.content
    then continues (record i { errors = i.content ∷ i.errors })
    else returns (throws i)

unfoldable pub read_body : Json → ℕ → Input → Option (Bytes × Stream) → Turn
read_body json n i none = returns endless
read_body json n i (some (line, stream)) =
    let (content, rest) = read_content n (resize n i.content) stream in
    parse_content json (record i { stream = rest; line = line; content = content })
      (json.request content)

unfoldable pub read_message : Json → Input → Option ℕ → Turn
read_message json i none = returns (throws i)
read_message json i (some n) =
    read_body json n i (skip_headers (suc (suc (length i.stream.bytes))) i.line i.stream)

-- One turn, from the line that `getline` gave
unfoldable pub turn : Json → Input → Got → Turn
turn json i got =
    let next = record i { stream = got.stream; line = got.line } in
    if got.ok
    then (if starts_with got.line (codes "Content-Length: ")
        then read_message json next (json.stoi (drop 16 got.line))
        else continues next)
    else returns (closed next)

unfoldable pub after_turn : (Input → ReadResult) → Turn → ReadResult
after_turn more (returns r) = r
after_turn more (continues i) = more i

unfoldable pub read_from : Json → ℕ → Input → ReadResult
read_from json zero i = endless
read_from json (suc f) i = after_turn (read_from json f) (turn json i (get_line i.line i.stream))

-- `readJson`; a turn that continues takes a byte at least, or meets the end of the stream.
unfoldable pub read_json : Json → Input → ReadResult
unfolding read_from after_turn
read_json json i = read_from json (suc (suc (length i.stream.bytes))) i
