-- ===== src/Tokens/Examples.antt =====
-- Runs of the encoding on a text of two lines.
use slang_server_verilator.Position.Columns.{sequence, length_from, utf16_length}
use slang_server_verilator.Position.Decoder.{decoder}
use slang_server_verilator.Position.Offsets.{is_terminator}
use slang_server_verilator.Prelude.{ℕ, false, List, [], ◌∷◌, ◌≡◌, none, some, refl, Bytes, arith}
use slang_server_verilator.Text.{codes}
use slang_server_verilator.Tokens.Decode.{
  NeverCancelled, AllInside, none_left, and_inside, encode_semantic_tokens-decode,
}
use slang_server_verilator.Tokens.Encode.{
  Cancellation, encoded, place, has_terminator, encode_semantic_tokens, encode_from, push,
  push_five, place_on, upper_bound, is_outside, next_line,
}
use slang_server_verilator.Tokens.Inactive.{
  DisabledRange, is_inactive, any_contains, IsOrdered, no_ranges, then_range,
  is_inactive-any_contains,
}
use slang_server_verilator.Tokens.Reads.{emitted, decode}
use slang_server_verilator.Tokens.Types.{SemanticToken, class, port, net, type_index}

-- A module of one port, on two lines
abbrev text : Bytes
text = codes "mod m\n in a;"

abbrev lines : Bytes → List ℕ
lines s = 0 ∷ 6 ∷ []

abbrev name_token : SemanticToken
name_token = record { offset = 4; token_length = 1; token_type = class; modifiers = 1 }

abbrev port_token : SemanticToken
port_token = record { offset = 10; token_length = 1; token_type = port; modifiers = 0 }

abbrev both : SemanticToken
both = record { offset = 4; token_length = 4; token_type = net; modifiers = 0 }

abbrev never : Cancellation
never = record { at_token = λ n. false; at_end = false }

abbrev tokens : List SemanticToken
tokens = name_token ∷ both ∷ port_token ∷ []

-- The token of two lines is left out.
encode_example :
    encode_semantic_tokens decoder lines text tokens none never
    ≡ encoded (0 ∷ 4 ∷ 1 ∷ 1 ∷ 1 ∷ 1 ∷ 4 ∷ 1 ∷ 15 ∷ 0 ∷ [])
unfolding encode_semantic_tokens encode_from push place has_terminator is_terminator upper_bound
    place_on is_outside push_five utf16_length type_index next_line length_from sequence
encode_example = refl

tokens-AllInside : AllInside text tokens
tokens-AllInside =
    and_inside name_token _ (omega arith)
      (and_inside both _ (omega arith) (and_inside port_token _ (omega arith) none_left))

never-NeverCancelled : NeverCancelled never
never-NeverCancelled = record { during = λ n. refl; behind = refl }

encode_semantic_tokens-decode_example :
    (numbers : List ℕ) × (encode_semantic_tokens decoder lines text tokens none never
      ≡ encoded numbers)
    × (decode 0 0 numbers ≡ some (emitted decoder (0 ∷ 6 ∷ []) text none tokens))
encode_semantic_tokens-decode_example =
    encode_semantic_tokens-decode decoder lines (6 ∷ []) text none never tokens refl (omega arith)
      never-NeverCancelled tokens-AllInside

one_line : has_terminator (codes "a") ≡ false
unfolding has_terminator is_terminator
one_line = refl

abbrev regions : List DisabledRange
regions = record { start = 2; end = 5 } ∷ record { start = 9; end = 12 } ∷ []

regions-IsOrdered : IsOrdered 0 regions
regions-IsOrdered =
    then_range 0 _ _ (omega arith) (omega arith)
      (then_range 5 _ _ (omega arith) (omega arith) (no_ranges 12))

is_inactive-any_contains_example : is_inactive regions 10 ≡ any_contains regions 10
is_inactive-any_contains_example = is_inactive-any_contains 0 regions 10 regions-IsOrdered
