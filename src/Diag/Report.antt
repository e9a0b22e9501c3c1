-- ===== src/Diag/Report.antt =====
-- src/ServerDiagClient.cpp: `convertSeverity`, `isUnusedCode` and `report`. The source manager,
-- the diagnostic engine of slang and the conversions of positions are parameters (`Services`).
use slang_server_verilator.Assoc.{find, assign}
use slang_server_verilator.Diag.Publish.{show_warning, show_error, DiagClient, send, mark}
use slang_server_verilator.Diag.Types.{
  Location, RelatedInformation, Diagnostic, SlangSeverity, LspSeverity, CodeName, DiagCode,
  SourceLocation, SourceRange, Note, ReportedDiagnostic, DiagnosticTag,
}
use slang_server_verilator.Prelude.{
  Bool, true, false, List, [], ◌∷◌, ◌++◌, Option, none, some, if◌then◌else◌, ltb, ◌==◌, Bytes,
  list_eq,
}
use slang_server_verilator.Text.{codes}

unfoldable pub convert_severity : SlangSeverity → LspSeverity
convert_severity SlangSeverity.ignored = LspSeverity.hint
convert_severity SlangSeverity.note = LspSeverity.information
convert_severity SlangSeverity.warning = LspSeverity.warning
convert_severity SlangSeverity.error = LspSeverity.error
convert_severity SlangSeverity.fatal = LspSeverity.error

unused_name : CodeName → Bool
unused_name CodeName.no_top_modules = false
unused_name CodeName.command_line_warning = false
unused_name CodeName.command_line_error = false
unused_name (CodeName.other n) = false
unused_name _ = true

unfoldable pub is_unused_code : DiagCode → Bool
unfolding unused_name
is_unused_code c = if c.is_analysis then unused_name c.name else false

-- What `report` asks of slang and of util/Converters.
pub record Services : Type 0 where
  pub no_location : SourceLocation
  pub map_source_ranges : SourceLocation → List SourceRange → List SourceRange
  pub fully_original_loc : SourceLocation → SourceLocation
  pub to_location : SourceLocation → Location
  pub to_range_location : SourceRange → Location
  pub format_message : Note → Bytes
  pub show_note_with_no_location : DiagCode → Bool
  pub option_name : DiagCode → Bytes

-- `SourceLocation::operator<`: by the buffer first
abbrev pub before : SourceLocation → SourceLocation → Bool
before a b =
    if ltb a.buffer b.buffer
    then true
    else if a.buffer == b.buffer
    then ltb a.offset b.offset
    else false

-- `std::min` and `std::max`
abbrev pub min_loc : SourceLocation → SourceLocation → SourceLocation
min_loc a b = if before b a then b else a

abbrev pub max_loc : SourceLocation → SourceLocation → SourceLocation
max_loc a b = if before a b then b else a

-- One round of the loop below: a range in another buffer is logged and skipped.
unfoldable pub widen : SourceRange → SourceRange → SourceRange
widen t r =
    if r.start.buffer == t.start.buffer
    then record { start = min_loc t.start r.start; end = max_loc t.end r.end }
    else t

-- The loop that collapses the ranges into one
unfoldable pub collapse : SourceRange → List SourceRange → SourceRange
collapse t [] = t
collapse t (r ∷ rs) = collapse (widen t r) rs

-- The location joins the range, if it has one and stands in the same buffer.
unfoldable pub include_location : Services → SourceLocation → SourceRange → SourceRange
include_location sv loc t =
    if loc.buffer == sv.no_location.buffer
    then t
    else if loc.buffer == t.start.buffer
    then record { start = min_loc t.start loc; end = max_loc t.end loc }
    else t

-- The lambda `getLocation`
unfoldable pub get_location : Services → SourceLocation → List SourceRange → Option Location
get_location sv loc [] =
    if loc.buffer == sv.no_location.buffer then none else some (sv.to_location loc)
get_location sv loc (r ∷ rs) = some (sv.to_range_location (include_location sv loc (collapse r rs)))

-- The loop over the expansion locations, the last first: `locs` is the reversed list.
unfoldable pub expansion_notes :
    Services → ReportedDiagnostic → List SourceLocation → List RelatedInformation
expansion_notes sv d [] = []
expansion_notes sv d (loc ∷ locs) =
    let rest = expansion_notes sv d locs in
    elim (get_location sv (sv.fully_original_loc loc) (sv.map_source_ranges loc d.ranges)) [
      | some l ↦ record { location = l; message = d.formatted_message } ∷ rest
      | none ↦ rest
    ]

-- The loop over the notes; a note with no location is shown at the main one, or only logged.
unfoldable pub attached_notes : Services → Location → List Note → List RelatedInformation
attached_notes sv main [] = []
attached_notes sv main (n ∷ ns) =
    let rest = attached_notes sv main ns in
    elim n.location [
      | none ↦
          if sv.show_note_with_no_location n.code
          then record { location = main; message = sv.format_message n } ∷ rest
          else rest
      | some loc ↦ record { location = sv.to_location loc; message = sv.format_message n } ∷ rest
    ]

abbrev related_option : List RelatedInformation → Option (List RelatedInformation)
related_option [] = none
related_option (x ∷ xs) = some (x ∷ xs)

abbrev href : Bytes → Bytes
href name = codes "https://sv-lang.com/warning-ref.html#" ++ name

-- The link to the documentation of the warning option, and the tag of unused code
unfoldable pub link_code : Services → DiagCode → Diagnostic → Diagnostic
link_code sv code d = elim (sv.option_name code) [
  | [] ↦ d
  | c ∷ cs ↦ record d {
    code = some (c ∷ cs);
    code_href = some (href (c ∷ cs));
    tags = if is_unused_code code then some (DiagnosticTag.unnecessary ∷ []) else d.tags;
  }
]

unfoldable pub stored : Bytes → DiagClient → List Diagnostic
stored u c = elim (find u c.diagnostics) [ some ds ↦ ds | none ↦ [] ]

-- `m_diagnostics[uri].push_back(diag)`
unfoldable pub store : Bytes → Diagnostic → DiagClient → DiagClient
store u d c = record c { diagnostics = assign u (stored u c ++ d ∷ []) c.diagnostics }

abbrev reverse_onto : List SourceLocation → List SourceLocation → List SourceLocation
reverse_onto acc [] = acc
reverse_onto acc (x ∷ xs) = reverse_onto (x ∷ acc) xs

-- The `lsp::Diagnostic` of a report that has a main location
unfoldable pub make_diagnostic : Services → ReportedDiagnostic → Location → Diagnostic
make_diagnostic sv d main = link_code sv d.code (record {
  range = main.range;
  severity = convert_severity d.severity;
  message = d.formatted_message;
  related =
      related_option
        (expansion_notes sv d (reverse_onto [] d.expansion_locs) ++ attached_notes sv main d.notes);
  code = none;
  code_href = none;
  tags = none;
})

unfoldable pub main_location : Services → ReportedDiagnostic → Option Location
main_location sv d = get_location sv d.location (sv.map_source_ranges d.location d.ranges)

-- The part of `report` behind the early returns
unfoldable pub report_located : Services → ReportedDiagnostic → DiagClient → DiagClient
report_located sv d c = elim (main_location sv d) [
  | none ↦ c
  | some main ↦ store main.uri (make_diagnostic sv d main) (mark main.uri c)
]

report_code : CodeName → Services → ReportedDiagnostic → DiagClient → DiagClient
report_code CodeName.command_line_warning sv d c = send (show_warning d.formatted_message) c
report_code CodeName.command_line_error sv d c = send (show_error d.formatted_message) c
report_code _ sv d c = report_located sv d c

report_severity : SlangSeverity → Services → ReportedDiagnostic → DiagClient → DiagClient
report_severity SlangSeverity.note sv d c = c
report_severity SlangSeverity.ignored sv d c = report_code d.code.name sv d c
report_severity _ sv d c = report_code d.code.name sv d c

is_no_top : CodeName → Bool
is_no_top CodeName.no_top_modules = true
is_no_top _ = false

unfoldable pub report : Services → ReportedDiagnostic → DiagClient → DiagClient
unfolding report_code report_severity is_no_top
report sv d c = if is_no_top d.code.name then c else report_severity d.severity sv d c
