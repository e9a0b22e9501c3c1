-- ===== src/Format/Examples.antt =====
-- Layouts of source text and of comments.
use slang_server_verilator.Format.Case.{to_camel_case, lower_run, to_lower}
use slang_server_verilator.Format.DocComment.{
  TriviaKind, end_of_line, line_comment, other_trivia, find_leading_doc_comment_start,
  find_boundary, reverse,
}
use slang_server_verilator.Format.Leading.{is_comment, find_leading_doc_comment_start_lem}
use slang_server_verilator.Prelude.{
  true, List, [], ◌∷◌, ◌≡◌, refl, nat_eq, list_eq, Bytes, get_elem?,
}
use slang_server_verilator.Text.{codes, is_upper}

abbrev printed : Bytes
printed = codes "\n\n   \n  wire   [3:0]  x;\n"

abbrev trivia : List TriviaKind
trivia = end_of_line ∷ line_comment ∷ end_of_line ∷ line_comment ∷ end_of_line ∷ other_trivia ∷ []

find_leading_example : is_comment (get_elem? trivia 1) ≡ true
unfolding find_leading_doc_comment_start find_boundary reverse
find_leading_example = find_leading_doc_comment_start_lem trivia 1 refl

-- An acronym in front is made lower up to the word behind it.
camel_example : to_camel_case (codes "JSONParser") ≡ codes "jsonParser"
unfolding to_camel_case lower_run to_lower is_upper
camel_example = refl
