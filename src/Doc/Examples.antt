-- ===== src/Doc/Examples.antt =====
-- Runs of the changes on a document of two lines.
use slang_server_verilator.Diag.Types.{Range}
use slang_server_verilator.Doc.Addresses.{Addresses, in_line}
use slang_server_verilator.Doc.Change.{
  partial, whole_document, SlangDoc, ends_with_null, on_change, text_matches,
}
use slang_server_verilator.Doc.Rejected.{no_start_line, on_change-Invalid}
use slang_server_verilator.Doc.Splice.{
  held, Applies, splice, replaced, AppliesAll, unchanged, changed, on_change-AppliesAll,
}
use slang_server_verilator.Doc.Terminated.{on_change-terminated}
use slang_server_verilator.Position.Boundary.{at_start, behind}
use slang_server_verilator.Position.Columns.{sequence, length_from, utf16_length}
use slang_server_verilator.Position.Decoder.{decoder, decoder-IsDecoder}
use slang_server_verilator.Position.Offsets.{is_terminator}
use slang_server_verilator.Position.Utf8.{valid_sequence_length, four_bytes}
use slang_server_verilator.Prelude.{
  ℕ, suc, true, false, ◌++◌, List, [], ◌∷◌, ◌≡◌, refl, Bytes, list_eqb, arith, if◌then◌else◌, ◌==◌,
}
use slang_server_verilator.Text.{codes, all_of}

-- The offsets behind the line feeds
abbrev line_feeds : ℕ → Bytes → List ℕ
line_feeds i [] = []
line_feeds i (c ∷ s) = let rest = line_feeds (suc i) s in if c == b'\n' then suc i ∷ rest else rest

abbrev lines : Bytes → List ℕ
lines s = 0 ∷ line_feeds 0 s

-- `ab` and `cd`, and the document that holds them
abbrev ab_cd : Bytes
ab_cd = b'a' ∷ b'b' ∷ b'\n' ∷ b'c' ∷ b'd' ∷ []

abbrev document : SlangDoc
document = record { text = held ab_cd; tree = true; analysis = true; include_compilation = false }

-- From behind `a` to behind `c`
abbrev across : Range
across = record {
  start = record { line = 0; character = 1 };
  end = record { line = 1; character = 1 };
}

abbrev away : Range
away = record {
  start = record { line = 7; character = 0 };
  end = record { line = 7; character = 1 };
}

at_a : Addresses decoder (lines (held ab_cd)) (held ab_cd) across.start 1
unfolding is_terminator all_of utf16_length length_from sequence valid_sequence_length four_bytes
at_a =
    in_line [] (b'a' ∷ []) (b'b' ∷ []) (b'\n' ∷ []) (b'c' ∷ b'd' ∷ 0 ∷ []) _ refl refl refl
      (omega arith) refl refl (behind b'a' [] [] _ refl at_start) (omega arith) refl refl

at_c : Addresses decoder (lines (held ab_cd)) (held ab_cd) across.end 4
unfolding is_terminator all_of utf16_length length_from sequence valid_sequence_length four_bytes
at_c =
    in_line (b'a' ∷ b'b' ∷ b'\n' ∷ []) (b'c' ∷ []) (b'd' ∷ 0 ∷ []) [] [] _ refl refl refl
      (omega arith) refl refl (behind b'c' [] [] _ refl at_start) (omega arith) refl refl

splice_example : Applies decoder lines ab_cd (partial across (codes "xy")) (codes "axyd")
splice_example =
    splice (b'a' ∷ []) (b'b' ∷ b'\n' ∷ b'c' ∷ []) (b'd' ∷ []) (codes "xy") across at_a at_c

two_changes :
    AppliesAll decoder lines ab_cd
      (whole_document ab_cd ∷ partial across (codes "xy") ∷ [])
      (codes "axyd")
unfolding ends_with_null
two_changes =
    changed ab_cd ab_cd (codes "axyd") _ _ (replaced ab_cd ab_cd refl)
      (changed ab_cd (codes "axyd") (codes "axyd") _ _ splice_example (unchanged (codes "axyd")))

on_change-AppliesAll_example :
    on_change decoder lines document (whole_document ab_cd ∷ partial across (codes "xy") ∷ [])
    ≡ record {
      text = held (codes "axyd");
      tree = false;
      analysis = false;
      include_compilation = false;
    }
on_change-AppliesAll_example =
    on_change-AppliesAll decoder lines decoder-IsDecoder document ab_cd (codes "axyd")
      (whole_document ab_cd ∷ partial across (codes "xy") ∷ []) refl two_changes (omega arith)

terminated_example : ends_with_null document.text ≡ true
unfolding ends_with_null
terminated_example = refl

on_change-terminated_example :
    ends_with_null (on_change decoder lines document (partial across (codes "xy") ∷ [])).text ≡ true
on_change-terminated_example =
    on_change-terminated decoder lines document (partial across (codes "xy") ∷ [])
      terminated_example

on_change-Invalid_example :
    on_change decoder lines document
      ((partial across (codes "xy") ∷ []) ++ partial away [] ∷ whole_document [] ∷ [])
    ≡ document
on_change-Invalid_example =
    on_change-Invalid decoder lines decoder-IsDecoder document ab_cd (codes "axyd")
      (partial across (codes "xy") ∷ []) (whole_document [] ∷ []) away [] refl
      (changed ab_cd (codes "axyd") (codes "axyd") _ _ splice_example (unchanged (codes "axyd")))
      (no_start_line (omega arith))

text_matches_example : text_matches document ab_cd ≡ true
unfolding text_matches list_eqb
text_matches_example = refl
