-- ===== src/Markup/Examples.antt =====
-- Comments and code as hovers show them.
use slang_server_verilator.Markup.Code.{code_span}
use slang_server_verilator.Markup.CodeSpan.{on_one_line, rendered, rendered-code_span}
use slang_server_verilator.Prelude.{List, [], ◌∷◌, ◌≡◌, refl, nat_eq, some, Bytes}
use slang_server_verilator.Text.{codes, all_of}

abbrev comment : Bytes
comment = codes "1. `clk` *must* be <b>fast</b> & a\\b"

rendered-code_span_example : rendered (code_span (codes "`A``B ")) ≡ some (codes "`A``B ")
unfolding on_one_line all_of
rendered-code_span_example = rendered-code_span b'`' (codes "A``B ") refl refl

abbrev paragraphs : List Bytes
paragraphs = codes "**top**" ∷ [] ∷ codes "A module" ∷ []
