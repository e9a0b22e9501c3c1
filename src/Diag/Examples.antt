-- ===== src/Diag/Examples.antt =====
-- The diagnostic client at concrete inputs.
use slang_server_verilator.Diag.History.{
  Call, reports, clears_uri, pushes, step, run, empty, run-refines,
}
use slang_server_verilator.Diag.Hull.{IsHull, with_location, get_location-IsHull}
use slang_server_verilator.Diag.Publish.{DiagClient, push_diags}
use slang_server_verilator.Diag.Report.{Services, get_location, make_diagnostic, main_location}
use slang_server_verilator.Diag.Sync.{view}
use slang_server_verilator.Diag.Types.{
  Location, SlangSeverity, CodeName, SourceLocation, SourceRange, ReportedDiagnostic,
}
use slang_server_verilator.Prelude.{ℕ, List, [], ◌∷◌, ◌≡◌, refl, some, true, list_eq}
use slang_server_verilator.Diag.Report.{include_location, collapse, widen}
use slang_server_verilator.Prelude.{list_eqb}
use slang_server_verilator.Text.{codes}

abbrev at : ℕ → SourceLocation
at n = record { buffer = 1; offset = n }

abbrev span : ℕ → ℕ → SourceRange
span a b = record { start = at a; end = at b }

-- One line a buffer; the name of a document is the number of its buffer.
abbrev place : ℕ → ℕ → ℕ → Location
place b i j = record {
  uri = b ∷ [];
  range = record {
    start = record { line = 0; character = i };
    end = record { line = 0; character = j };
  };
}

abbrev services : Services
services = record {
  no_location = record { buffer = 0; offset = 0 };
  map_source_ranges = λ loc rs. rs;
  fully_original_loc = λ loc. loc;
  to_location = λ loc. place loc.buffer loc.offset loc.offset;
  to_range_location = λ r. place r.start.buffer r.start.offset r.end.offset;
  format_message = λ n. codes "note";
  show_note_with_no_location = λ c. true;
  option_name = λ c. codes "unused-net";
}

abbrev finding : ReportedDiagnostic
finding = record {
  code = record { is_analysis = true; name = CodeName.unused_net };
  severity = SlangSeverity.warning;
  formatted_message = codes "unused net";
  location = at 7;
  ranges = span 4 6 ∷ span 5 9 ∷ [];
  expansion_locs = [];
  notes = [];
}

abbrev history : List Call
history = reports finding ∷ pushes ∷ reports finding ∷ clears_uri (2 ∷ []) ∷ []

abbrev shown : DiagClient
shown = step services empty (reports finding)

report_location : main_location services finding ≡ some (place 1 4 9)
unfolding main_location get_location include_location collapse widen list_eqb
report_location = refl

run-refines_example :
    view (1 ∷ []) (push_diags (run services empty history)).sent
    ≡ make_diagnostic services finding (place 1 4 9)
      ∷ make_diagnostic services finding (place 1 4 9)
      ∷ []
unfolding main_location get_location include_location collapse widen list_eqb
run-refines_example = run-refines services history (1 ∷ [])

get_location_example :
    (t : SourceRange) × (get_location services (at 7) (span 4 6 ∷ span 5 9 ∷ [])
      ≡ some (services.to_range_location t))
    × IsHull t (span 4 6) (with_location services (at 7) (span 5 9 ∷ []))
get_location_example = get_location-IsHull services (at 7) (span 4 6) (span 5 9 ∷ [])
