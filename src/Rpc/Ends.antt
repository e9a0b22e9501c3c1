-- ===== src/Rpc/Ends.antt =====
-- include/lsp/JsonRpc.h: `readJson` ends on an input whose last byte is a line feed.
use slang_server_verilator.Prelude.{
  ℕ, zero, suc, ◌≤◌, ◌<◌, ◌≢◌, Bool, true, false, [], ◌∷◌, ◌≡◌, refl, ap, arith, Option, none, some,
  if◌then◌else◌, ltb, Bytes, length, length-drop, drop, Bool-cases, inl, inr,
}
use slang_server_verilator.Rpc.Input.{
  Json, Stream, Input, split_line, got_line, get_line, skip_headers, resize, read_content,
  ReadResult, message, closed, throws, endless, Turn, returns, continues, parse_content, read_body,
  read_message, turn, after_turn, read_from, read_json,
}
use slang_server_verilator.Rpc.Types.{Request}
use slang_server_verilator.Text.{codes, starts_with}
use slang_server_verilator.Rpc.Feeds.{ends_line, ends_line-drop, good_split, line-Front}

-- What the loop over headers gives: not the end of its fuel, and no more of the text than before
data Skipped (n : ℕ) : Option (Bytes × Stream) → Type 0 where
  skipped :
      (line : Bytes) (s : Stream)
      → ends_line s.bytes ≡ true
      → length s.bytes ≤ n
      → Skipped n (some (line, s))

Skipped-longer : (n m : ℕ) (o : Option (Bytes × Stream)) → n ≤ m → Skipped n o → Skipped m o
Skipped-longer n m _ h (skipped line s e k) = skipped line s e (omega arith)

if-Skipped :
    (n : ℕ) (b : Bool) (o p : Option (Bytes × Stream))
    → Skipped n o
    → Skipped n p
    → Skipped n (if b then o else p)
if-Skipped n true o p h k = h
if-Skipped n false o p h k = k

skip_headers-Skipped :
    (f : ℕ) (line bytes : Bytes)
    → ends_line bytes ≡ true
    → length bytes < f
    → Skipped (length bytes) (skip_headers f line (record { bytes = bytes; eof = false }))
unfolding skip_headers get_line got_line split_line
skip_headers-Skipped zero line bytes e h = absurd (omega arith)
skip_headers-Skipped (suc f) line [] e h =
    skipped [] (record { bytes = []; eof = true }) e (omega arith)
skip_headers-Skipped (suc f) line (c ∷ s) e h =
    let front = line-Front (c ∷ s) (split_line (c ∷ s)) (good_split c s e) in
    rw front.split (
      if-Skipped (suc (length s)) (ltb 1 (length front.line)) _ _
        (Skipped-longer (length front.rest) (suc (length s)) _ (omega (arith, front.shorter)) (
          skip_headers-Skipped f front.line front.rest front.ends
            (omega (arith, front.shorter, h))))
        (skipped front.line (record { bytes = front.rest; eof = false }) front.ends
          (omega (arith, front.shorter))))

-- What a turn gives: a result that is not the end of the fuel, or a shorter text
data Progress (n : ℕ) : Turn → Type 0 where
  stops : (r : ReadResult) → r ≢ endless → Progress n (returns r)
  goes_on :
      (i : Input)
      → ends_line i.stream.bytes ≡ true
      → length i.stream.bytes < n
      → Progress n (continues i)

not-throws : (i : Input) → throws i ≢ endless
not-throws i = λ k. ground (arith, k)

not-closed : (i : Input) → closed i ≢ endless
not-closed i = λ k. ground (arith, k)

not-message : (r : Request) (i : Input) → message r i ≢ endless
not-message r i = λ k. ground (arith, k)

if-Progress :
    (n : ℕ) (b : Bool) (s t : Turn) → Progress n s → Progress n t → Progress n (if b then s else t)
if-Progress n true s t h k = h
if-Progress n false s t h k = k

parse_content-Progress :
    (json : Json) (n : ℕ) (i : Input) (o : Option Request)
    → ends_line i.stream.bytes ≡ true
    → length i.stream.bytes < n
    → Progress n (parse_content json i o)
unfolding parse_content
parse_content-Progress json n i (some request) e h = stops _ (not-message request i)
parse_content-Progress json n i none e h =
    if-Progress n (json.is_response i.content) _ _ (goes_on i e h) (
      if-Progress n (json.can_report i.content) _ _
        (goes_on (record i { errors = i.content ∷ i.errors }) e h) (stops _ (not-throws i)))

read_content-ends :
    (n : ℕ) (content : Bytes) (s : Stream)
    → ends_line s.bytes ≡ true
    → (ends_line (read_content n content s).1.bytes ≡ true)
      × (length (read_content n content s).1.bytes ≤ length s.bytes)
unfolding read_content
read_content-ends n content s e = elim (Bool-cases s.eof) [
  | inl h ↦ rw h (e, omega arith)
  | inr h ↦ rw h (ends_line-drop n s.bytes e, omega (arith, length-drop n s.bytes))
]

read_body-Progress :
    (json : Json) (n k count : ℕ) (i : Input) (o : Option (Bytes × Stream))
    → Skipped k o
    → k < n
    → Progress n (read_body json count i o)
unfolding read_body
read_body-Progress json n k count i _ (skipped line s e l) h =
    let read = read_content-ends count (resize count i.content) s e in
    parse_content-Progress json n _ _ read.0 (omega (arith, read.1, l, h))

open_stream : (s : Stream) → s.eof ≡ false → s ≡ record { bytes = s.bytes; eof = false }
open_stream s f = ap (λ b. record { bytes = s.bytes; eof = b }) f

read_message-Progress :
    (json : Json) (n : ℕ) (i : Input) (o : Option ℕ)
    → i.stream.eof ≡ false
    → ends_line i.stream.bytes ≡ true
    → length i.stream.bytes < n
    → Progress n (read_message json i o)
unfolding read_message
read_message-Progress json n i none f e h = stops _ (not-throws i)
read_message-Progress json n i (some count) f e h =
    read_body-Progress json n (length i.stream.bytes) count i _ (skips i.stream f e) h
  where
    skips :
        (s : Stream)
        → s.eof ≡ false
        → ends_line s.bytes ≡ true
        → Skipped (length s.bytes) (skip_headers (suc (suc (length s.bytes))) i.line s)
    skips s f e =
        rw (open_stream s f)
          (skip_headers-Skipped (suc (suc (length s.bytes))) i.line s.bytes e (omega arith))

turn-open :
    (json : Json) (i : Input) (bytes : Bytes)
    → ends_line bytes ≡ true
    → Progress
        (length bytes)
        (turn json i (get_line i.line (record { bytes = bytes; eof = false })))
unfolding turn get_line got_line split_line
turn-open json i [] e = stops _ (not-closed _)
turn-open json i (c ∷ s) e =
    let front = line-Front (c ∷ s) (split_line (c ∷ s)) (good_split c s e) in
    rw front.split (
      if-Progress (suc (length s)) (starts_with front.line (codes "Content-Length: ")) _ _
        (read_message-Progress json (suc (length s))
          (record i { stream = record { bytes = front.rest; eof = false }; line = front.line })
          (json.stoi (drop 16 front.line)) refl front.ends (omega (arith, front.shorter)))
        (goes_on _ front.ends (omega (arith, front.shorter))))

turn-shut :
    (json : Json) (i : Input) (s : Stream) (n : ℕ)
    → s.eof ≡ true
    → Progress n (turn json i (get_line i.line s))
unfolding turn get_line
turn-shut json i s n h = rw h (stops _ (not-closed _))

turn-Progress :
    (json : Json) (i : Input) (s : Stream)
    → ends_line s.bytes ≡ true
    → Progress (length s.bytes) (turn json i (get_line i.line s))
turn-Progress json i s e = elim (Bool-cases s.eof) [
  | inl h ↦ turn-shut json i s _ h
  | inr h ↦ rw (open_stream s h) (turn-open json i s.bytes e)
]

after_turn-ends :
    (n : ℕ) (t : Turn) (more : Input → ReadResult)
    → Progress n t
    → ((j : Input) → ends_line j.stream.bytes ≡ true → length j.stream.bytes < n → more j ≢ endless)
    → after_turn more t ≢ endless
unfolding after_turn
after_turn-ends n _ more (stops r h) k = h
after_turn-ends n _ more (goes_on j e l) k = k j e l

read_from-ends :
    (json : Json) (f : ℕ) (i : Input)
    → ends_line i.stream.bytes ≡ true
    → length i.stream.bytes < f
    → read_from json f i ≢ endless
unfolding read_from
read_from-ends json zero i e h = absurd (omega arith)
read_from-ends json (suc f) i e h =
    after_turn-ends (length i.stream.bytes) (turn json i (get_line i.line i.stream))
      (read_from json f) (turn-Progress json i i.stream e)
      (λ j k l. read_from-ends json f j k (omega (arith, h, l)))

-- When what is left of the input is empty or ends with a line feed, `readJson` ends: it returns a
-- request, finds the input closed or throws, whatever the texts are.
pub read_json-ends :
    (json : Json) (i : Input) → ends_line i.stream.bytes ≡ true → read_json json i ≢ endless
unfolding read_json
read_json-ends json i e = read_from-ends json (suc (suc (length i.stream.bytes))) i e (omega arith)
