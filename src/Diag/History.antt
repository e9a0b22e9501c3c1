-- ===== src/Diag/History.antt =====
-- src/ServerDiagClient.cpp: any history of calls, against what a document's diagnostics should be.
use slang_server_verilator.Assoc.{find, find-assign, find-erase}
use slang_server_verilator.Diag.Publish.{
  show_warning, show_error, DiagClient, send, mark, clear_uri, clear, clear_and_push, push_diags,
  push_first,
}
use slang_server_verilator.Diag.Report.{
  Services, stored, store, report, report_located, main_location, make_diagnostic,
}
use slang_server_verilator.Diag.Sync.{
  view, IsSynced, push_diags_total, push_first_total, clear_and_push_total, clear_uri-IsSynced,
  clear-IsSynced, push_diags-IsSynced, clear_and_push-IsSynced, push_first-IsSynced,
  report_located-IsSynced,
}
use slang_server_verilator.Diag.Types.{
  Diagnostic, ReportedDiagnostic, CodeName, SlangSeverity, Location,
}
use slang_server_verilator.Prelude.{
  Bool, true, false, ◌&&◌, List, [], ◌∷◌, ◌++◌, ◌≡◌, refl, sym, ap, ◌∙◌, ◌⊎◌, subst, fun_ext,
  Option, none, some, arith, if◌then◌else◌, Option-cases, inl, inr, Bytes, list_eq, list_eqb,
  list_eqb_iff,
}

-- A call of a method of the client; the driver makes them in any order.
pub data Call : Type 0 where
  reports : ReportedDiagnostic → Call
  clears_uri pushes_first : Bytes → Call
  clears pushes clears_and_pushes : Call

unfoldable pub step : Services → DiagClient → Call → DiagClient
step sv c (reports d) = report sv d c
step sv c (clears_uri u) = clear_uri u c
step sv c (pushes_first u) = push_first u c
step sv c clears = clear c
step sv c pushes = push_diags c
step sv c clears_and_pushes = clear_and_push c

unfoldable pub run : Services → DiagClient → List Call → DiagClient
run sv c [] = c
run sv c (k ∷ ks) = run sv (step sv c k) ks

abbrev pub empty : DiagClient
empty = record { diagnostics = []; dirty = []; sent = [] }

-- Diagnostics of the command line become pop-ups, notes belong to other diagnostics, and a design
-- with no top module is no error; all else is for a document.
abbrev is_for_name : CodeName → Bool
is_for_name CodeName.no_top_modules = false
is_for_name CodeName.command_line_warning = false
is_for_name CodeName.command_line_error = false
is_for_name _ = true

abbrev is_not_note : SlangSeverity → Bool
is_not_note SlangSeverity.note = false
is_not_note _ = true

abbrev pub is_for_document : ReportedDiagnostic → Bool
is_for_document d = is_not_note d.severity && is_for_name d.code.name

-- The abstract state: the diagnostics of each document.
abbrev pub Held : Type 0
Held = Bytes → List Diagnostic

abbrev at_document : Services → ReportedDiagnostic → Option Location → Held → Held
at_document sv d none h u = h u
at_document sv d (some l) h u = if list_eqb l.uri u then h u ++ make_diagnostic sv d l ∷ [] else h u

abbrev pub spec_step : Services → Held → Call → Held
spec_step sv h (reports d) u =
    if is_for_document d then at_document sv d (main_location sv d) h u else h u
spec_step sv h (clears_uri v) u = if list_eqb v u then [] else h u
spec_step sv h (pushes_first v) u = h u
spec_step sv h clears u = []
spec_step sv h pushes u = h u
spec_step sv h clears_and_pushes u = []

abbrev pub spec_run : Services → Held → List Call → Held
spec_run sv h [] = h
spec_run sv h (k ∷ ks) = spec_run sv (spec_step sv h k) ks

-- `report` either passes the diagnostic on for its document, or changes no diagnostic at all.
abbrev Other : ReportedDiagnostic → DiagClient → DiagClient → Type 0
Other d c c' =
    (c' ≡ c)
    ⊎ ((c' ≡ send (show_warning d.formatted_message) c)
        ⊎ (c' ≡ send (show_error d.formatted_message) c))

report_cases :
    (sv : Services) (d : ReportedDiagnostic) (c : DiagClient)
    → ((is_for_document d ≡ false) × Other d c (report sv d c))
      ⊎ ((is_for_document d ≡ true) × (report sv d c ≡ report_located sv d c))
unfolding report
report_cases sv d c = ground arith

Other-IsSynced :
    (d : ReportedDiagnostic) (c c' : DiagClient) → Other d c c' → IsSynced c → IsSynced c'
unfolding stored
Other-IsSynced d c c' o s u h = ground (arith, s u)

Other-stored :
    (d : ReportedDiagnostic) (c c' : DiagClient) (u : Bytes)
    → Other d c c'
    → stored u c' ≡ stored u c
unfolding stored
Other-stored d c c' u o = ground arith

report-IsSynced :
    (sv : Services) (d : ReportedDiagnostic) (c : DiagClient)
    → IsSynced c
    → IsSynced (report sv d c)
report-IsSynced sv d c s = elim (report_cases sv d c) [
  | inl (_, o) ↦ Other-IsSynced d c (report sv d c) o s
  | inr (_, e) ↦ subst IsSynced (sym e) (report_located-IsSynced sv d c s)
]

-- Every call keeps the editor in step with the server, but for the dirty documents.
pub step-IsSynced :
    (sv : Services) (c : DiagClient) (k : Call) → IsSynced c → IsSynced (step sv c k)
unfolding step
step-IsSynced sv c (reports d) s = report-IsSynced sv d c s
step-IsSynced sv c (clears_uri u) s = clear_uri-IsSynced u c s
step-IsSynced sv c (pushes_first u) s = push_first-IsSynced u c s
step-IsSynced sv c clears s = clear-IsSynced c s
step-IsSynced sv c pushes s = push_diags-IsSynced c s
step-IsSynced sv c clears_and_pushes s = clear_and_push-IsSynced c s

located-stored :
    (sv : Services) (d : ReportedDiagnostic) (c : DiagClient) (u : Bytes)
    → stored u (report_located sv d c) ≡ at_document sv d (main_location sv d) (λ v. stored v c) u
unfolding report_located store stored
located-stored sv d c u = elim (Option-cases (main_location sv d)) [
  | inl e ↦ rw (e, report_located)
  | inr (l, e) ↦
      rw (e, report_located)
        (ground (
          arith,
          list_eqb_iff l.uri u,
          find-assign l.uri u (stored l.uri (mark l.uri c) ++ make_diagnostic sv d l ∷ [])
              c.diagnostics,
        ))
]

-- One call does to the stored diagnostics what the abstract step does.
step-refines :
    (sv : Services) (c : DiagClient) (k : Call) (u : Bytes)
    → IsSynced c
    → stored u (step sv c k) ≡ spec_step sv (λ v. stored v c) k u
unfolding step
step-refines sv c (reports d) u s = elim (report_cases sv d c) [
  | inl (e, o) ↦ rw e (Other-stored d c (report sv d c) u o)
  | inr (e, r) ↦ rw e (ap (stored u) r ∙ located-stored sv d c u)
]
step-refines sv c (clears_uri v) u s =
    unfold clear_uri stored in ground (arith, find-erase v u c.diagnostics)
step-refines sv c (pushes_first v) u s = (push_first_total v c s u).1
step-refines sv c clears u s = unfold clear stored find in refl
step-refines sv c pushes u s = (push_diags_total c s u).1
step-refines sv c clears_and_pushes u s = (clear_and_push_total c s u).1

run-stored :
    (sv : Services) (c : DiagClient) (ks : List Call) (u : Bytes)
    → IsSynced c
    → stored u (run sv c ks) ≡ spec_run sv (λ v. stored v c) ks u
unfolding run
run-stored sv c [] u s = refl
run-stored sv c (k ∷ ks) u s =
    run-stored sv (step sv c k) ks u (step-IsSynced sv c k s)
    ∙ ap (λ h. spec_run sv h ks u) (fun_ext (λ v. step-refines sv c k v s))

pub run-IsSynced :
    (sv : Services) (c : DiagClient) (ks : List Call) → IsSynced c → IsSynced (run sv c ks)
unfolding run
run-IsSynced sv c [] s = s
run-IsSynced sv c (k ∷ ks) s = run-IsSynced sv (step sv c k) ks (step-IsSynced sv c k s)

pub empty-IsSynced : IsSynced empty
unfolding stored find
empty-IsSynced u h = refl

-- After any history of calls and one `pushDiags`, the editor shows for every document exactly the
-- diagnostics that the history of reports and clears leaves it, in the order of the reports.
pub run-refines :
    (sv : Services) (ks : List Call) (u : Bytes)
    → view u (push_diags (run sv empty ks)).sent ≡ spec_run sv (λ _. []) ks u
unfolding stored find
run-refines sv ks u =
    (push_diags_total (run sv empty ks) (run-IsSynced sv empty ks empty-IsSynced) u).0
    ∙ run-stored sv empty ks u empty-IsSynced
