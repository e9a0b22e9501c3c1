-- ===== src/Position/Sequence.antt =====
-- What the loops of util/Converters.cpp step over: not nothing, not past the text, and the same in
-- a longer text.
use slang_server_verilator.Position.Columns.{sequence, word}
use slang_server_verilator.Position.Utf8.{Utf8, IsDecoder, valid_sequence_length}
use slang_server_verilator.Prelude.{
  ℕ, suc, ◌%◌, ◌≤◌, ◌<◌, ◌++◌, ◌≡◌, arith, Bytes, length, length-append,
}

pub sequence-bounds :
    (u : Utf8)
    → IsDecoder u
    → (c : ℕ) (s : Bytes)
    → (let q = sequence u c s in (0 < q.0) × (q.0 ≤ suc (length s)) × (0 < q.1) × (q.1 ≤ q.0))
unfolding sequence valid_sequence_length
sequence-bounds u d c s = ground (arith, d.decoded_len c s, d.at_most_four c)

-- A sequence that lies in the front part of a text is the same in the text.
pub sequence-append :
    (u : Utf8)
    → IsDecoder u
    → (c : ℕ) (s t : Bytes) → (sequence u c (s ++ t)).0 ≤ suc (length s)
    → sequence u c (s ++ t) ≡ sequence u c s
unfolding sequence valid_sequence_length
sequence-append u d c s t h = ground (
  arith,
  d.decoded_len c s,
  d.decoded_len c (s ++ t),
  d.fails_local c s t,
  d.at_most_four c,
  length-append s t,
)

-- A count below 4 GiB does not wrap around.
pub mod-word : (n : ℕ) → n < word → n % word ≡ n
mod-word n h = omega arith
