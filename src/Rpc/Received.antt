-- ===== src/Rpc/Received.antt =====
-- include/lsp/JsonRpc.h: `readJson` finds the next request behind what is not one.
use slang_server_verilator.Prelude.{
  ℕ, zero, suc, ◌≤◌, ◌<◌, true, false, List, [], ◌∷◌, ◌++◌, append_assoc, ◌≡◌, refl, ◌∙◌, arith,
  none, some, Bytes, length, length-append,
}
use slang_server_verilator.Rpc.Framing.{is_line, ReadsLengths, after, frame-turn, get_line-append}
use slang_server_verilator.Rpc.Input.{
  Json, Input, send_message, get_line, ReadResult, message, returns, continues, parse_content, turn,
  after_turn, read_from, read_json,
}
use slang_server_verilator.Rpc.Types.{Request}
use slang_server_verilator.Text.{codes, starts_with}

-- What `readJson` passes over, and the texts that it answers with an error, the last first: lines that
-- are no header, responses, and framed texts that are neither a request nor a response
pub data Skips (json : Json) : Bytes → List Bytes → Type 0 where
  nothing : Skips json [] []
  stray_line :
      (line : Bytes) (noise : Bytes) (errors : List Bytes)
      → is_line line ≡ true
      → starts_with line (codes "Content-Length: ") ≡ false
      → Skips json noise errors
      → Skips json (line ++ b'\n' ∷ noise) errors
  skipped_response :
      (body noise : Bytes) (errors : List Bytes)
      → length body < 2147483648
      → json.request body ≡ none
      → json.is_response body ≡ true
      → Skips json noise errors
      → Skips json (send_message body ++ noise) errors
  malformed :
      (body noise : Bytes) (errors : List Bytes)
      → length body < 2147483648
      → json.request body ≡ none
      → json.is_response body ≡ false
      → json.can_report body ≡ true
      → Skips json noise errors
      → Skips json (send_message body ++ noise) (errors ++ body ∷ [])

abbrev at_bytes : Input → Bytes → Input
at_bytes i bytes = record i { stream = record { bytes = bytes; eof = false } }

-- A turn that continues leads to what the next ones give.
read_from-continues :
    (json : Json) (f : ℕ) (i j : Input)
    → turn json i (get_line i.line i.stream) ≡ continues j
    → read_from json (suc f) i ≡ read_from json f j
unfolding read_from after_turn
read_from-continues json f i j h = rw h refl

read_from-returns :
    (json : Json) (f : ℕ) (i : Input) (r : ReadResult)
    → turn json i (get_line i.line i.stream) ≡ returns r
    → read_from json (suc f) i ≡ r
unfolding read_from after_turn
read_from-returns json f i r h = rw h refl

send_message-length : (body s : Bytes) → length s < length (send_message body ++ s)
unfolding send_message
send_message-length body s = omega (arith, length-append (send_message body) s, nonempty)
  where
    nonempty : 0 < length (send_message body)
    nonempty = omega arith

parse-request :
    (json : Json) (i : Input) (request : Request)
    → json.request i.content ≡ some request
    → parse_content json i (json.request i.content) ≡ returns (message request i)
unfolding parse_content
parse-request json i request h = rw h refl

parse-response :
    (json : Json) (i : Input)
    → json.request i.content ≡ none
    → json.is_response i.content ≡ true
    → parse_content json i (json.request i.content) ≡ continues i
unfolding parse_content
parse-response json i h k = rw (h, k) refl

parse-malformed :
    (json : Json) (i : Input)
    → json.request i.content ≡ none
    → json.is_response i.content ≡ false
    → json.can_report i.content ≡ true
    → parse_content json i (json.request i.content)
      ≡ continues (record i { errors = i.content ∷ i.errors })
unfolding parse_content
parse-malformed json i h k r = rw (h, k, r) refl

stray-turn :
    (json : Json) (i : Input) (line rest : Bytes)
    → is_line line ≡ true
    → starts_with line (codes "Content-Length: ") ≡ false
    → turn json i (get_line i.line (record { bytes = line ++ b'\n' ∷ rest; eof = false }))
      ≡ continues (record i { stream = record { bytes = rest; eof = false }; line = line })
unfolding turn
stray-turn json i line rest l s = rw (get_line-append i.line line rest l, s) refl

module _ (json : Json) (reads : ReadsLengths json) (body rest : Bytes) (request : Request)
    (small : length body < 2147483648) (parsed : json.request body ≡ some request) where
  abbrev found : List Bytes → ReadResult
  found errors = message request (record {
    stream = record { bytes = rest; eof = false };
    line = b'\r' ∷ [];
    content = body;
    errors = errors;
  })

  read_from-Skips :
      (f : ℕ) (i : Input) {noise : Bytes} {errors : List Bytes}
      → Skips json noise errors
      → length noise ≤ f
      → read_from json (suc f) (at_bytes i (noise ++ (send_message body ++ rest)))
        ≡ found (errors ++ i.errors)
  read_from-Skips f i nothing h =
      read_from-returns json f (at_bytes i (send_message body ++ rest)) (found i.errors) (
        frame-turn json (at_bytes i (send_message body ++ rest)) body rest reads small
        ∙ parse-request json (after i body rest) request parsed)
  read_from-Skips zero i (stray_line line noise errors l s k) h =
      absurd (omega (arith, h, length-append line (b'\n' ∷ noise)))
  read_from-Skips (suc f) i (stray_line line noise errors l s k) h =
      rw (append_assoc line (b'\n' ∷ noise) (send_message body ++ rest)) (
        read_from-continues json (suc f)
          (at_bytes i (line ++ b'\n' ∷ (noise ++ (send_message body ++ rest))))
          (record i {
            stream = record { bytes = noise ++ (send_message body ++ rest); eof = false };
            line = line;
          })
          (stray-turn json (at_bytes i (line ++ b'\n' ∷ (noise ++ (send_message body ++ rest))))
            line (noise ++ (send_message body ++ rest)) l s)
        ∙ read_from-Skips f (record i { line = line }) k
            (omega (arith, h, length-append line (b'\n' ∷ noise))))
  read_from-Skips zero i (skipped_response other noise errors l p r k) h =
      absurd (omega (arith, h, send_message-length other noise))
  read_from-Skips (suc f) i (skipped_response other noise errors l p r k) h =
      rw (append_assoc (send_message other) noise (send_message body ++ rest)) (
        read_from-continues json (suc f)
          (at_bytes i (send_message other ++ (noise ++ (send_message body ++ rest))))
          (after i other (noise ++ (send_message body ++ rest)))
          (frame-turn json
              (at_bytes i (send_message other ++ (noise ++ (send_message body ++ rest)))) other
              (noise ++ (send_message body ++ rest)) reads l
            ∙ parse-response json (after i other (noise ++ (send_message body ++ rest))) p r)
        ∙ read_from-Skips f (after i other []) k
            (omega (arith, h, send_message-length other noise)))
  read_from-Skips zero i (malformed other noise errors l p r c k) h =
      absurd (omega (arith, h, send_message-length other noise))
  read_from-Skips (suc f) i (malformed other noise errors l p r c k) h =
      rw
        (
          append_assoc (send_message other) noise (send_message body ++ rest),
          append_assoc errors (other ∷ []) i.errors,
        )
        (read_from-continues json (suc f)
            (at_bytes i (send_message other ++ (noise ++ (send_message body ++ rest))))
            (record (after i other (noise ++ (send_message body ++ rest))) {
              errors = other ∷ i.errors;
            })
            (frame-turn json
                (at_bytes i (send_message other ++ (noise ++ (send_message body ++ rest)))) other
                (noise ++ (send_message body ++ rest)) reads l
              ∙ parse-malformed json (after i other (noise ++ (send_message body ++ rest))) p r c)
          ∙ read_from-Skips f (record (after i other []) { errors = other ∷ i.errors }) k
              (omega (arith, h, send_message-length other noise)))

  -- When `stoi` reads lengths back, a body below 2 GiB is read as a request, and it is framed by
  -- `sendMessage` behind lines that are no header, framed responses and framed malformed texts, then
  -- `readJson` returns that request with the input behind it, and it has answered the malformed texts
  -- by errors, in order.
  pub read_json-Skips :
      (i : Input) (noise : Bytes) (errors : List Bytes)
      → Skips json noise errors
      → read_json json (record i {
        stream = record { bytes = noise ++ (send_message body ++ rest); eof = false };
      })
        ≡ message request (record {
          stream = record { bytes = rest; eof = false };
          line = b'\r' ∷ [];
          content = body;
          errors = errors ++ i.errors;
        })
  unfolding read_json
  read_json-Skips i noise errors k =
      read_from-Skips (suc (length (noise ++ (send_message body ++ rest)))) i k
        (omega (arith, length-append noise (send_message body ++ rest)))
