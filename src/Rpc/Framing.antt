-- ===== src/Rpc/Framing.antt =====
-- include/lsp/JsonRpc.h: what `sendMessage` writes is what `readJson` reads.
use slang_server_verilator.Prelude.{
  ℕ, zero, suc, ◌+◌, ◌/◌, ◌%◌, ◌≤◌, ◌<◌, Bool, true, false, [], ◌∷◌, ◌++◌, append_assoc, append-nil,
  ◌≡◌, refl, arith, some, if◌then◌else◌, ◌==◌, ltb, Bytes, length, length-append, length-take, take,
  drop, replicate, take-append, drop-append,
}
use slang_server_verilator.Rpc.Input.{
  Json, Input, send_message, split_line, got_line, get_line, skip_headers, resize, read_content,
  parse_content, read_body, read_message, turn,
}
use slang_server_verilator.Snippet.Types.{digits, to_string}
use slang_server_verilator.Text.{codes, starts_with}

-- The text has no line feed.
unfoldable pub is_line : Bytes → Bool
is_line [] = true
is_line (c ∷ s) = if c == b'\n' then false else is_line s

is_line-append : (a b : Bytes) → is_line a ≡ true → is_line b ≡ true → is_line (a ++ b) ≡ true
unfolding is_line
is_line-append [] b h k = k
is_line-append (c ∷ a) b h k = ground (arith, h, is_line-append a b (ground (arith, h)) k)

is_line-digits : (k n : ℕ) → is_line (digits k n) ≡ true
unfolding is_line digits
is_line-digits zero n = refl
is_line-digits (suc k) n = ground (
  arith,
  is_line-append (digits k (n / 10)) ((b'0' + n % 10) ∷ []) (is_line-digits k (n / 10))
      (ground arith),
)

no-feed : (c : ℕ) (s : Bytes) → is_line (c ∷ s) ≡ true → ((c == b'\n') ≡ false) × (is_line s ≡ true)
unfolding is_line
no-feed c s h = ground (arith, h)

split_line-append : (a b : Bytes) → is_line a ≡ true → split_line (a ++ b'\n' ∷ b) ≡ (a, some b)
unfolding split_line
split_line-append [] b h = refl
split_line-append (c ∷ a) b h = rw ((no-feed c a h).0, split_line-append a b (no-feed c a h).1) refl

-- A line is read up to its line feed.
pub get_line-append :
    (old a b : Bytes)
    → is_line a ≡ true
    → get_line old (record { bytes = a ++ b'\n' ∷ b; eof = false })
      ≡ record { line = a; stream = record { bytes = b; eof = false }; ok = true }
unfolding get_line got_line
get_line-append old a b h = rw (split_line-append a b h) refl

starts_with-append : (p s : Bytes) → starts_with (p ++ s) p ≡ true
unfolding starts_with
starts_with-append [] s = refl
starts_with-append (c ∷ p) s = rw (starts_with-append p s) (ground arith)

-- `int` holds the length, and its digits and a carriage return are read as it.
abbrev pub ReadsLengths : Json → Type 0
ReadsLengths json = (n : ℕ) → n < 2147483648 → json.stoi (to_string n ++ b'\r' ∷ []) ≡ some n

header : Bytes → Bytes
header body = codes "Content-Length: " ++ (to_string (length body) ++ b'\r' ∷ [])

header-is_line : (body : Bytes) → is_line (header body) ≡ true
unfolding header is_line to_string
header-is_line body =
    is_line-append (digits (suc (length body)) (length body)) (b'\r' ∷ []) (is_line-digits _ _) refl

send_message-header :
    (body rest : Bytes)
    → send_message body ++ rest ≡ header body ++ b'\n' ∷ b'\r' ∷ b'\n' ∷ (body ++ rest)
unfolding send_message header
send_message-header body rest =
    rw
      (
        append_assoc (to_string (length body)) (b'\r' ∷ b'\n' ∷ b'\r' ∷ b'\n' ∷ body) rest,
        append_assoc (to_string (length body)) (b'\r' ∷ [])
            (b'\n' ∷ b'\r' ∷ b'\n' ∷ (body ++ rest)),
      )
      refl

drop-short : (n : ℕ) (s : Bytes) → length s ≤ n → drop n s ≡ []
drop-short zero [] h = refl
drop-short zero (c ∷ s) h = absurd (omega arith)
drop-short (suc n) [] h = refl
drop-short (suc n) (c ∷ s) h = drop-short n s (omega arith)

read_content-body :
    (content body rest : Bytes)
    → read_content
        (length body)
        (resize (length body) content)
        (record { bytes = body ++ rest; eof = false })
      ≡ (body, record { bytes = rest; eof = false })
unfolding read_content resize
read_content-body content body rest =
    rw
      (
        take-append body rest (length body) refl,
        drop-append body rest (length body) refl,
        drop-short (length body) (take (length body) (content ++ replicate (length body) 0)) short,
        append-nil body,
        whole (length (body ++ rest)) (length body) (omega (arith, length-append body rest)),
      )
      refl
  where
    short : length (take (length body) (content ++ replicate (length body) 0)) ≤ length body
    short = omega (arith, length-take (length body) (content ++ replicate (length body) 0))

    whole : (a b : ℕ) → b ≤ a → ltb a b ≡ false
    whole a b h = ground (arith, h)

skip_headers-blank :
    (f : ℕ) (line rest : Bytes)
    → skip_headers (suc f) line (record { bytes = b'\r' ∷ b'\n' ∷ rest; eof = false })
      ≡ some (b'\r' ∷ [], record { bytes = rest; eof = false })
unfolding skip_headers is_line
skip_headers-blank f line rest = rw (get_line-append line (b'\r' ∷ []) rest refl) refl

-- The state once a message is read
abbrev pub after : Input → Bytes → Bytes → Input
after i body rest = record i {
  stream = record { bytes = rest; eof = false };
  line = b'\r' ∷ [];
  content = body;
}

pub frame-turn :
    (json : Json) (i : Input) (body rest : Bytes)
    → ReadsLengths json
    → length body < 2147483648
    → turn json i (get_line i.line (record { bytes = send_message body ++ rest; eof = false }))
      ≡ parse_content json (after i body rest) (json.request body)
unfolding turn read_message read_body header
frame-turn json i body rest r small =
    rw
      (
        send_message-header body rest,
        get_line-append i.line (header body) (b'\r' ∷ b'\n' ∷ (body ++ rest)) (header-is_line body),
        starts_with-append (codes "Content-Length: ") (to_string (length body) ++ b'\r' ∷ []),
        r (length body) small,
      )
      (rw
        (
          skip_headers-blank (suc (length (b'\r' ∷ b'\n' ∷ (body ++ rest)))) (header body)
              (body ++ rest),
          read_content-body i.content body rest,
        )
        refl)
