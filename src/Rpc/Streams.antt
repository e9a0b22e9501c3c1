-- ===== src/Rpc/Streams.antt =====
-- Runs of the reader of messages on short inputs, and of the worker.
use slang_server_verilator.Prelude.{
  ◌≢◌, true, false, [], ◌∷◌, ◌++◌, ◌≡◌, refl, arith, none, some, if◌then◌else◌, Bytes, ap, list_eqb,
  map, List,
}
use slang_server_verilator.Rpc.Accepted.{
  after_initialize, through_shutdown, without_cancellations, requests_of, read_events-accepted,
}
use slang_server_verilator.Rpc.Process.{returns}
use slang_server_verilator.Rpc.Reader.{
  received, initializing, malformed, Handlers, has_method, read_events,
}
use slang_server_verilator.Rpc.Ends.{read_json-ends}
use slang_server_verilator.Rpc.Feeds.{ends_line}
use slang_server_verilator.Rpc.Framing.{is_line, ReadsLengths}
use slang_server_verilator.Rpc.Input.{
  turn, get_line, got_line, split_line, read_from, after_turn, read_message, read_body,
  skip_headers, endless, read_json, Json, Input, send_message, message,
}
use slang_server_verilator.Rpc.Received.{Skips, nothing, stray_line, read_json-Skips}
use slang_server_verilator.Rpc.Steps.{start_server}
use slang_server_verilator.Rpc.Types.{Request, Context, taken, Routes, Server}
use slang_server_verilator.Snippet.Decimal.{read_number, read_number-to_string}
use slang_server_verilator.Text.{codes, is_digit, starts_with}

-- A reader of numbers, and of the one request `ping`
abbrev ping : Request
ping = record { id = none; method = codes "ping"; params = none }

abbrev json : Json
json = record {
  stoi = λ s. some ((read_number 0 s).0);
  request = λ s. if list_eqb s (codes "ping") then some ping else none;
  is_response = λ s. false;
  can_report = λ s. true;
}

json-ReadsLengths : ReadsLengths json
unfolding is_digit
json-ReadsLengths n h = ap (λ p. some p.0) (read_number-to_string n b'\r' [] refl)

abbrev input : Bytes → Input
input bytes = record {
  stream = record { bytes = bytes; eof = false };
  line = [];
  content = codes "old";
  errors = [];
}

-- A stray line and a malformed text in front
abbrev noise : Bytes
noise = codes "hello" ++ b'\n' ∷ (send_message (codes "pong") ++ [])

noise-Skips : Skips json noise (codes "pong" ∷ [])
unfolding is_line starts_with list_eqb
noise-Skips =
    stray_line (codes "hello") (send_message (codes "pong") ++ []) (codes "pong" ∷ []) refl refl
      (Skips.malformed (codes "pong") [] [] (omega arith) refl refl refl nothing)

ping-read : json.request (codes "ping") ≡ some ping
unfolding list_eqb
ping-read = refl

read_json-Skips_example :
    read_json json (input (noise ++ (send_message (codes "ping") ++ codes "rest")))
    ≡ message ping (record {
      stream = record { bytes = codes "rest"; eof = false };
      line = b'\r' ∷ [];
      content = codes "ping";
      errors = codes "pong" ∷ [];
    })
read_json-Skips_example =
    read_json-Skips json json-ReadsLengths (codes "ping") (codes "rest") ping (omega arith)
      ping-read (input []) noise (codes "pong" ∷ []) noise-Skips

cut_off : ends_line (input (codes "Content-Length: 4\n")).stream.bytes ≡ true
unfolding ends_line
cut_off = refl

read_json-ends_example : read_json json (input (codes "Content-Length: 4\n")) ≢ endless
read_json-ends_example = read_json-ends json (input (codes "Content-Length: 4\n")) cut_off

abbrev routes : Routes
routes = record {
  has_request = λ m. true;
  has_notification = λ m. true;
  cancellable = λ m. false;
  change_uri = λ p. none;
  can_write = λ v. true;
}

abbrev ping_context : Context
ping_context = record { serial = 1; method = codes "ping"; rpc_id = none; supports = false }

abbrev queued : Server
queued = record start_server { queue = (ping, ping_context) ∷ [] }

abbrev in_hand : Server
in_hand = record queued { queue = []; worker = taken ping ping_context }

abbrev call : Bytes → Request
call method = record { id = none; method = method; params = none }

abbrev handlers : Handlers
handlers = record { initialize = λ r. returns []; cancel_target = λ r. malformed [] }

abbrev session : List Request
session =
    ping
    ∷ call (codes "initialize")
    ∷ ping
    ∷ call (codes "$/cancelRequest")
    ∷ call (codes "shutdown")
    ∷ ping
    ∷ call (codes "exit")
    ∷ []

-- One `ping` and `shutdown` are queued.
session-accepted :
    without_cancellations (through_shutdown (after_initialize session))
    ≡ ping ∷ call (codes "shutdown") ∷ []
unfolding without_cancellations through_shutdown after_initialize has_method list_eqb
session-accepted = refl

read_events-accepted_example :
    requests_of
      (read_events routes handlers (map (λ r. received r) session) initializing start_server).1
    ≡ requests_of start_server
      ++ without_cancellations (through_shutdown (after_initialize session))
read_events-accepted_example = read_events-accepted routes handlers session start_server

-- An input that ends in a header line without a line feed is read for ever.
endless_header : read_json json (input (codes "Content-Length: 4")) ≡ endless
unfolding read_json read_from after_turn turn get_line got_line split_line starts_with read_message
    read_body skip_headers
endless_header = refl
