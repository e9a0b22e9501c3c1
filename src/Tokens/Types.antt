-- ===== src/Tokens/Types.antt =====
-- The types of document/SemanticTokens.h, and the order of positions and of token types.
use slang_server_verilator.Diag.Types.{Position}
use slang_server_verilator.Prelude.{ℕ, ◌^◌, Bool, not, if◌then◌else◌, ◌==◌, ltb}

pub data SemanticTokenType : Type 0 where
  namespace class interface enum enum_member struct type_name type_parameter parameter variable :
      SemanticTokenType
  property function macro label net port instantiation modport count : SemanticTokenType

-- The index that the declaration order gives
unfoldable pub type_index : SemanticTokenType → ℕ
type_index namespace = 0
type_index class = 1
type_index interface = 2
type_index enum = 3
type_index enum_member = 4
type_index struct = 5
type_index type_name = 6
type_index type_parameter = 7
type_index parameter = 8
type_index variable = 9
type_index property = 10
type_index function = 11
type_index macro = 12
type_index label = 13
type_index net = 14
type_index port = 15
type_index instantiation = 16
type_index modport = 17
type_index count = 18

pub data SemanticTokenModifier : Type 0 where
  declaration definition read_only default_library : SemanticTokenModifier

modifier_index : SemanticTokenModifier → ℕ
modifier_index declaration = 0
modifier_index definition = 1
modifier_index read_only = 2
modifier_index default_library = 3

-- `modifierBit`
unfoldable pub modifier_bit : SemanticTokenModifier → ℕ
unfolding modifier_index
modifier_bit m = 2 ^ modifier_index m

-- `SemanticToken`: byte offset and length in the text
pub record SemanticToken : Type 0 where
  pub offset : ℕ
  pub token_length : ℕ
  pub token_type : SemanticTokenType
  pub modifiers : ℕ

-- `tokenTypePriority`
unfoldable pub token_type_priority : SemanticTokenType → ℕ
token_type_priority port = 0
token_type_priority modport = 1
token_type_priority net = 2
token_type_priority variable = 3
token_type_priority parameter = 4
token_type_priority enum_member = 5
token_type_priority property = 6
token_type_priority type_parameter = 7
token_type_priority type_name = 8
token_type_priority enum = 8
token_type_priority struct = 8
token_type_priority class = 8
token_type_priority interface = 8
token_type_priority namespace = 8
token_type_priority function = 9
token_type_priority instantiation = 10
token_type_priority label = 11
token_type_priority macro = 11
token_type_priority count = 12

-- `positionLess`
unfoldable pub position_less : Position → Position → Bool
position_less left right =
    if not (left.line == right.line)
    then ltb left.line right.line
    else ltb left.character right.character
