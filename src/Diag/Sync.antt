-- ===== src/Diag/Sync.antt =====
-- src/ServerDiagClient.cpp: what the editor shows, against what the server holds.
use slang_server_verilator.Assoc.{
  find, keys, contains, remove, find-assign, find-erase, contains-add, contains-remove,
  find-none_of_keys,
}
use slang_server_verilator.Diag.Publish.{
  Message, publish, show_warning, show_error, DiagClient, send, mark, clear_uri, mark_all, clear,
  send_empty, clear_and_push, push_one, push_each, push_diags, push_priority, push_first,
}
use slang_server_verilator.Diag.Report.{
  Services, stored, store, report_located, main_location, make_diagnostic,
}
use slang_server_verilator.Diag.Types.{Diagnostic, ReportedDiagnostic}
use slang_server_verilator.Prelude.{
  false, ◌||◌, List, [], ◌∷◌, ◌++◌, ◌≡◌, refl, sym, ◌∙◌, arith, if◌then◌else◌, Bool-cases,
  Option-cases, inl, inr, Bytes, list_eq, list_eqb, list_eqb_iff,
}

-- The diagnostics that the editor shows for a document: those of the last publication.
abbrev pub view : Bytes → List Message → List Diagnostic
view u [] = []
view u (publish v ds ∷ s) = if list_eqb v u then ds else view u s
view u (show_warning t ∷ s) = view u s
view u (show_error t ∷ s) = view u s

-- The editor shows what the server holds, but for the documents that are dirty.
abbrev pub IsSynced : DiagClient → Type 0
IsSynced c = (u : Bytes) → contains u c.dirty ≡ false → view u c.sent ≡ stored u c

mark_all-keeps :
    (us : List Bytes) (c : DiagClient)
    → ((mark_all us c).diagnostics ≡ c.diagnostics) × ((mark_all us c).sent ≡ c.sent)
unfolding mark_all
mark_all-keeps [] c = (refl, refl)
mark_all-keeps (u ∷ us) c = mark_all-keeps us (mark u c)

mark_all-dirty :
    (us : List Bytes) (c : DiagClient) (u : Bytes)
    → contains u (mark_all us c).dirty ≡ (contains u us || contains u c.dirty)
unfolding mark_all contains
mark_all-dirty [] c u = refl
mark_all-dirty (v ∷ us) c u =
    ground (arith, mark_all-dirty us (mark v c) u, contains-add v u c.dirty)

send_empty-view :
    (us : List Bytes) (c : DiagClient) (u : Bytes)
    → view u (send_empty us c).sent ≡ (if contains u us then [] else view u c.sent)
unfolding send_empty contains
send_empty-view [] c u = refl
send_empty-view (v ∷ us) c u = ground (arith, send_empty-view us (send (publish v []) c) u)

push_one_lem :
    (v : Bytes) (c : DiagClient) (u : Bytes)
    → ((push_one v c).diagnostics ≡ c.diagnostics)
      × ((push_one v c).dirty ≡ c.dirty)
      × (view u (push_one v c).sent ≡ (if list_eqb v u then stored v c else view u c.sent))
unfolding push_one stored
push_one_lem v c u = ground arith

pub push_each-diagnostics :
    (us : List Bytes) (c : DiagClient) → (push_each us c).diagnostics ≡ c.diagnostics
unfolding push_each
push_each-diagnostics [] c = refl
push_each-diagnostics (v ∷ us) c = push_each-diagnostics us (push_one v c) ∙ (push_one_lem v c v).0

pub stored_cong :
    (u : Bytes) (c c' : DiagClient) → c.diagnostics ≡ c'.diagnostics → stored u c ≡ stored u c'
unfolding stored
stored_cong u c c' h = ground arith

push_each-view :
    (us : List Bytes) (c : DiagClient) (u : Bytes)
    → view u (push_each us c).sent ≡ (if contains u us then stored u c else view u c.sent)
unfolding push_each contains
push_each-view [] c u = refl
push_each-view (v ∷ us) c u = ground (
  arith,
  push_each-view us (push_one v c) u,
  push_one_lem v c u,
  list_eqb_iff v u,
  stored_cong u (push_one v c) c,
)

-- After `pushDiags` nothing is dirty, the stored diagnostics are as they were, and the editor
-- shows, for every document, exactly the stored diagnostics.
pub push_diags_total :
    (c : DiagClient)
    → IsSynced c
    → (u : Bytes)
    → (view u (push_diags c).sent ≡ stored u c)
      × (stored u (push_diags c) ≡ stored u c)
      × ((push_diags c).dirty ≡ [])
unfolding push_diags
push_diags_total c s u =
    (view-eq, stored_cong u (push_diags c) c (push_each-diagnostics c.dirty c), refl)
  where
    view-eq : view u (push_diags c).sent ≡ stored u c
    view-eq = elim (Bool-cases (contains u c.dirty)) [
      | inl d ↦ push_each-view c.dirty c u ∙ rw d
      | inr d ↦ push_each-view c.dirty c u ∙ rw d (s u d)
    ]

pub push_diags-IsSynced : (c : DiagClient) → IsSynced c → IsSynced (push_diags c)
push_diags-IsSynced c s u _ = (push_diags_total c s u).0 ∙ sym (push_diags_total c s u).1

pub clear_uri-IsSynced : (v : Bytes) (c : DiagClient) → IsSynced c → IsSynced (clear_uri v c)
unfolding clear_uri stored
clear_uri-IsSynced v c s u h =
    ground (arith, s u, contains-add v u c.dirty, find-erase v u c.diagnostics)

pub clear-IsSynced : (c : DiagClient) → IsSynced c → IsSynced (clear c)
unfolding clear stored find
clear-IsSynced c s u h = ground (
  arith,
  s u,
  mark_all-dirty (keys c.diagnostics) c u,
  mark_all-keeps (keys c.diagnostics) c,
  find-none_of_keys u c.diagnostics,
)

-- After `clearAndPush` the editor shows nothing for any document, and the server holds nothing.
pub clear_and_push_total :
    (c : DiagClient)
    → IsSynced c
    → (u : Bytes) → (view u (clear_and_push c).sent ≡ []) × (stored u (clear_and_push c) ≡ [])
unfolding clear_and_push stored find
clear_and_push_total c s u = ground (
  arith,
  s u,
  send_empty-view c.dirty (send_empty (keys c.diagnostics) c) u,
  send_empty-view (keys c.diagnostics) c u,
  find-none_of_keys u c.diagnostics,
)

pub clear_and_push-IsSynced : (c : DiagClient) → IsSynced c → IsSynced (clear_and_push c)
clear_and_push-IsSynced c s u _ =
    (clear_and_push_total c s u).0 ∙ sym (clear_and_push_total c s u).1

push_priority-IsSynced : (v : Bytes) (c : DiagClient) → IsSynced c → IsSynced (push_priority v c)
unfolding push_priority stored
push_priority-IsSynced v c s u h = ground (arith, s u, list_eqb_iff v u)

pub push_priority_lem :
    (v : Bytes) (c : DiagClient)
    → IsSynced c
    → ((push_priority v c).diagnostics ≡ c.diagnostics)
      × (view v (push_priority v c).sent ≡ stored v c)
unfolding push_priority stored
push_priority_lem v c s = ground (arith, s v, list_eqb_iff v v)

push_first-rest :
    (v : Bytes) (c : DiagClient)
    → IsSynced c
    → IsSynced (record (push_priority v c) { dirty = remove v (push_priority v c).dirty })
unfolding stored
push_first-rest v c s u h = ground (
  arith,
  push_priority-IsSynced v c s u,
  push_priority_lem v c s,
  list_eqb_iff v u,
  contains-remove v u (push_priority v c).dirty,
  stored_cong v (push_priority v c) c,
)

-- `pushDiags` with a document to tell first leaves the editor as plain `pushDiags` does.
pub push_first_total :
    (v : Bytes) (c : DiagClient)
    → IsSynced c
    → (u : Bytes)
    → (view u (push_first v c).sent ≡ stored u c)
      × (stored u (push_first v c) ≡ stored u c)
      × ((push_first v c).dirty ≡ [])
unfolding push_first
push_first_total v c s u =
    let told = record (push_priority v c) { dirty = remove v (push_priority v c).dirty } in
    let (seen, kept, clean) = push_diags_total told (push_first-rest v c s) u in
    let same = stored_cong u told c (push_priority_lem v c s).0 in (seen ∙ same, kept ∙ same, clean)

pub push_first-IsSynced : (v : Bytes) (c : DiagClient) → IsSynced c → IsSynced (push_first v c)
push_first-IsSynced v c s u _ = (push_first_total v c s u).0 ∙ sym (push_first_total v c s u).1

store-IsSynced :
    (v : Bytes) (d : Diagnostic) (c : DiagClient) → IsSynced c → IsSynced (store v d (mark v c))
unfolding store stored
store-IsSynced v d c s u h = ground (
  arith,
  s u,
  contains-add v u c.dirty,
  find-assign v u (stored v (mark v c) ++ d ∷ []) c.diagnostics,
)

pub report_located-IsSynced :
    (sv : Services) (d : ReportedDiagnostic) (c : DiagClient)
    → IsSynced c
    → IsSynced (report_located sv d c)
unfolding report_located
report_located-IsSynced sv d c s = elim (Option-cases (main_location sv d)) [
  | inl e ↦ rw (e, report_located) s
  | inr (l, e) ↦ rw (e, report_located) (store-IsSynced l.uri (make_diagnostic sv d l) c s)
]
