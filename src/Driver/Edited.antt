-- ===== src/Driver/Edited.antt =====
-- src/ServerDriver.cpp: `onDocDidChange` leaves the document with the client's next text.
use slang_server_verilator.Assoc.{find, assign}
use slang_server_verilator.Doc.Change.{ContentChange, later_changes}
use slang_server_verilator.Doc.Splice.{held, AppliesAll, later_changes-AppliesAll, held-terminated}
use slang_server_verilator.Doc.Terminated.{first_change-next_change}
use slang_server_verilator.Driver.Changes.{
  changed_text, replace_all, change_text, change_kept, on_doc_did_change,
}
use slang_server_verilator.Driver.Kept.{put_fresh, get_document, get_found}
use slang_server_verilator.Driver.Gentle.{analyze-Gentle}
use slang_server_verilator.Driver.Laws.{IsManager, place, IsAnalysis}
use slang_server_verilator.Driver.Mirror.{Editor, Shows, Holds, Holds-gentle, Changes, Holds-assign}
use slang_server_verilator.Driver.Opened.{put_fresh-Changes, put_fresh-Shows}
use slang_server_verilator.Driver.Tree.{analyze}
use slang_server_verilator.Driver.Types.{
  Manager, Document, Driver, Analysis, returned, threw, state_of,
}
use slang_server_verilator.Position.Utf8.{Utf8, IsDecoder}
use slang_server_verilator.Prelude.{
  ℕ, ◌<◌, Bool, true, false, List, [], ◌∷◌, append-nil, ◌≡◌, refl, ◌∙◌, subst, some, arith,
  if◌then◌else◌, Bytes, length, list_eq,
}

module _ (u8 : Utf8) (lines : Bytes → List ℕ) (decodes : IsDecoder u8) where
  all_later :
      {x y : Bytes} (cs : List ContentChange)
      → AppliesAll u8 lines x cs y
      → later_changes u8 lines (held x) cs ≡ some (held y)
  unfolding later_changes
  all_later {x} {y} cs h =
      subst (λ z. later_changes u8 lines (held x) z ≡ some (held y)) (append-nil cs)
        (later_changes-AppliesAll u8 lines decodes [] h)

  changed_text-AppliesAll :
      {Buffer Files : Type 0} (m : Manager Buffer Files) (a : Analysis Buffer Files) {x y : Bytes}
      (c : ContentChange) (cs : List ContentChange)
      → AppliesAll u8 lines x (c ∷ cs) y
      → changed_text m a u8 lines (held x) c cs ≡ some (held y)
  unfolding changed_text later_changes
  changed_text-AppliesAll m a {x} {y} c cs h =
      rw (first_change-next_change u8 lines (held x) c (held-terminated u8 lines x))
        (all_later (c ∷ cs) h)

  module _ {Buffer Files : Type 0} (m : Manager Buffer Files) (a : Analysis Buffer Files)
      (n : Bytes → Type 0) (l : IsManager m) (k : IsAnalysis m a n) where
    get_document-kept :
        (u : Bytes) (d : Document Buffer) (w : Driver Buffer Files)
        → find u w.docs ≡ some d
        → get_document m a u w ≡ returned w
    unfolding get_document get_found
    get_document-kept u d w e = rw (e) refl

    replaced : Bytes → Document Buffer → Bytes → Driver Buffer Files → Driver Buffer Files
    replaced u d t w = put_fresh m a u (m.replace d.buffer t w.files) w

    change_kept-replaced :
        (u : Bytes) {x y : Bytes} (w : Driver Buffer Files) (cs : List ContentChange)
        → (s : Shows m a n w u x) → AppliesAll u8 lines x cs y
        → 0 < length cs
        → change_kept m a u8 lines u (some s.document) cs w
          ≡ returned (replaced u s.document (held y) w)
    unfolding change_kept change_text replace_all replaced
    change_kept-replaced u w [] s h n = absurd (omega arith)
    change_kept-replaced u w (c ∷ cs) s h n =
        rw (s.has_text, changed_text-AppliesAll m a c cs h) refl

    replaced-Changes :
        (u : Bytes) {x : Bytes} (y : Bytes) (w : Driver Buffer Files)
        → n u
        → (s : Shows m a n w u x)
        → Changes m a n u w (replaced u s.document (held y) w)
          × Shows m a n (replaced u s.document (held y) w) u y
    unfolding replaced
    replaced-Changes u y w i s =
        let b = s.document.buffer in
        let at_place = l.latest_path w.files (place m a u) b s.is_latest in
        let made = m.replace b (held y) w.files in
        let there : m.latest made.1 (place m a u) ≡ some made.0 =
          subst (λ q. m.latest made.1 q ≡ some made.0) at_place
            (l.replace_new b (held y) w.files) in
        (
          put_fresh-Changes m a n l k u made.0 made.1 w i there
              (λ q d. l.replace_same b (held y) q w.files (λ x. d (x ∙ at_place))),
          put_fresh-Shows m a n l k u y made.0 made.1 w there (l.replace_held b (held y) w.files),
        )

    -- What `onDocDidChange` leaves, whether or not it throws at a cancellation
    pub record Edited (u y : Bytes) (w w' : Driver Buffer Files) : Type 0 where
      pub edited_holds : (e : Editor) → Holds m a n w e → Holds m a n w' (assign u y e)
      pub edited_list : w'.open_docs ≡ w.open_docs

    finish-Edited :
        (cancelled : Bool) (u y : Bytes) (w w' : Driver Buffer Files)
        → Changes m a n u w w'
        → Shows m a n w' u y
        → Edited u y w (state_of (if cancelled then threw w' else returned (analyze m a u w')))
    finish-Edited true u y w w' c s = record {
      edited_holds = λ e h. Holds-assign m a n u y w w' e c s h;
      edited_list = c.open_still;
    }
    finish-Edited false u y w w' c s =
        let g = analyze-Gentle m a n l k u w' in
        record {
          edited_holds = λ e h.
              Holds-gentle m a n w' (analyze m a u w') (assign u y e) g
                (Holds-assign m a n u y w w' e c s h);
          edited_list = g.still_open ∙ c.open_still;
        }

    pub on_doc_did_change-Edited :
        (u : Bytes) {x y : Bytes} (w : Driver Buffer Files) (cs : List ContentChange)
        (cancelled : Bool)
        → n u
        → Shows m a n w u x
        → AppliesAll u8 lines x cs y
        → 0 < length cs
        → Edited u y w (state_of (on_doc_did_change m a u8 lines u cs cancelled w))
    unfolding on_doc_did_change
    on_doc_did_change-Edited u {x} {y} w cs cancelled i s h q =
        let (c, shown) = replaced-Changes u y w i s in
        rw
          (get_document-kept u s.document w s.is_kept, s.is_kept, change_kept-replaced u w cs s h q)
          (finish-Edited cancelled u y w (replaced u s.document (held y) w) c shown)
