-- ===== src/Driver/Saved.antt =====
-- src/SlangServer.cpp and src/ServerDriver.cpp: after a save the server has the saved text.
use slang_server_verilator.Assoc.{find, assign, contains, contains-add, find-assign}
use slang_server_verilator.Diag.Publish.{clear}
use slang_server_verilator.Doc.Change.{ends_with_null, text_matches}
use slang_server_verilator.Driver.Notified.{Mirrors-gentle, Mirrors-if}
use slang_server_verilator.Driver.Documents.{put_text, open_text, open_found, open_document}
use slang_server_verilator.Driver.Kept.{as_doc, get_document, get_found}
use slang_server_verilator.Driver.Gentle.{
  analyze-Gentle, refresh_compilation-Gentle, update_index-Gentle,
}
use slang_server_verilator.Driver.Laws.{IsManager, place, IsAnalysis}
use slang_server_verilator.Driver.Made.{Same-refl, text_matches-held, from_text_total}
use slang_server_verilator.Driver.Mirror.{
  Holds-named, Editor, is_open, Shows, Holds, Mirrors, Aside, Holds-assign, Shows-aside,
}
use slang_server_verilator.Driver.Opened.{Opened, Changes-refl, open_document-Opened}
use slang_server_verilator.Driver.Save.{
  is_affected, analyze_others, analyze_saved, save_document, matches_kept, check_text,
  on_doc_did_save,
}
use slang_server_verilator.Driver.Tree.{analyze, update_index}
use slang_server_verilator.Driver.Types.{Manager, Document, Driver, Analysis, returned}
use slang_server_verilator.Prelude.{
  true, false, not, ◌||◌, List, [], ◌∷◌, ◌≡◌, refl, ◌∙◌, ap, subst, inl, inr, some, arith, Bytes,
  Bool-cases, list_eq, list_eqb, list_eqb_iff,
}

module _ {Buffer Files : Type 0} (m : Manager Buffer Files) (a : Analysis Buffer Files)
    (n : Bytes → Type 0) (l : IsManager m) (k : IsAnalysis m a n) where
  pub Opened-Mirrors :
      (u t : Bytes) (w w' : Driver Buffer Files) (e : Editor)
      → Opened m a n l k u t w w'
      → Mirrors m a n w e
      → Mirrors m a n w' (assign u t e)
  Opened-Mirrors u t w w' e o h = record {
    holds = o.opened_holds e h.holds;
    opens = λ v.
        ap (contains v) o.opened_list
        ∙ (contains-add u v w.open_docs ∙ ground (arith, h.opens v, find-assign u v t e));
  }

  -- A change of a document that is open already
  pub Mirrors-assign :
      (u x t : Bytes) (w w' : Driver Buffer Files) (e : Editor)
      → find u e ≡ some x
      → w'.open_docs ≡ w.open_docs
      → Holds m a n w' (assign u t e)
      → Mirrors m a n w e
      → Mirrors m a n w' (assign u t e)
  Mirrors-assign u x t w w' e f o g h = record {
    holds = g;
    opens = λ v. ap (contains v) o ∙ (h.opens v ∙ still_is v);
  }
    where
      still_is : (v : Bytes) → is_open (find v e) ≡ is_open (find v (assign u t e))
      still_is v = elim (Bool-cases (list_eqb u v)) [
        | inl y ↦
            subst (λ z. is_open (find z e) ≡ is_open (find z (assign u t e)))
              ((list_eqb_iff u v).0 y) (ground (arith, f, find-assign u u t e, list_eqb_iff u u))
        | inr y ↦ ground (arith, find-assign u v t e, y)
      ]

  analyze_others-Mirrors :
      (u : Bytes) (vs : List Bytes) (w : Driver Buffer Files) (e : Editor)
      → Mirrors m a n w e
      → Mirrors m a n (analyze_others m a u vs w) e
  unfolding analyze_others
  analyze_others-Mirrors u [] w e h = h
  analyze_others-Mirrors u (v ∷ vs) w e h = analyze_others-Mirrors u vs _ e (
      Mirrors-if m a n l k
        (list_eqb v u || not (is_affected m a (find v w.docs) (find u w.docs) w.files)) w
        (analyze m a v w) e h (Mirrors-gentle m a n l k w _ e (analyze-Gentle m a n l k v w) h))

  cleared-Mirrors :
      (w : Driver Buffer Files) (e : Editor)
      → Mirrors m a n w e
      → Mirrors m a n (record w { client = clear w.client }) e
  cleared-Mirrors w e h = record {
    holds = record {
      shows = λ u t f. Shows-aside m a n w _ u t ((Changes-aside u)) (h.holds.shows u t f);
      placed = record { placed = h.holds.placed.placed; named = h.holds.placed.named };
    };
    opens = h.opens;
  }
    where
      Changes-aside : (u : Bytes) → Aside m a n w (record w { client = clear w.client }) u
      Changes-aside u = record {
        same_doc = refl;
        same_files = Same-refl m a l (place m a u) w.files;
      }

  save_document-Mirrors :
      (u : Bytes) (w : Driver Buffer Files) (e : Editor)
      → Mirrors m a n w e
      → Mirrors m a n (save_document m a u w) e
  unfolding save_document analyze_saved
  save_document-Mirrors u w e h =
      let indexed = Mirrors-gentle m a n l k w _ e (update_index-Gentle m a n l k u w) h in
      Mirrors-if m a n l k (update_index m a u w).has_comp _ _ e
        (Mirrors-gentle m a n l k _ _ e (refresh_compilation-Gentle m a n l k u _)
          (cleared-Mirrors _ e indexed))
        (analyze_others-Mirrors u _ _ e
          (Mirrors-gentle m a n l k _ _ e (analyze-Gentle m a n l k u _) indexed))

  get_document-open :
      (u t : Bytes) (w : Driver Buffer Files)
      → Shows m a n w u t
      → get_document m a u w ≡ returned w
  unfolding get_document get_found
  get_document-open u t w s = rw (s.is_kept) refl

  -- A document that is kept is opened without a read of the disk.
  pub open_document_total :
      (u t : Bytes) (d : Document Buffer) (w : Driver Buffer Files)
      → find u w.docs ≡ some d
      → (w' : Driver Buffer Files) × (open_document m a u t w ≡ returned w')
  unfolding open_document open_found open_text put_text
  open_document_total u t d w f = elim (Bool-cases (text_matches (as_doc m a w.files d) t)) [
    | inl y ↦ rw (f, y) (_, refl)
    | inr y ↦ rw (f, y, (from_text_total m a l u t w.files).1) (_, refl)
  ]

  check_text-Mirrors :
      (u x t : Bytes) (w : Driver Buffer Files) (e : Editor)
      → ends_with_null t ≡ false
      → find u e ≡ some x
      → Mirrors m a n w e
      → (w' : Driver Buffer Files) × (check_text m a u (some t) w ≡ returned w')
        × Mirrors m a n w' (assign u t e)
  unfolding check_text matches_kept
  check_text-Mirrors u x t w e z f h =
      let s = h.holds.shows u x f in
      elim (Bool-cases (text_matches (as_doc m a w.files s.document) t)) [
        | inl y ↦ (
          w,
          rw (s.is_kept, y) refl,
          Mirrors-assign u x t w w e f refl
              (Holds-assign m a n u t w w e (Changes-refl m a n l k u w)
                (record {
                  document = s.document;
                  is_kept = s.is_kept;
                  is_latest = s.is_latest;
                  has_text = unfold as_doc in text_matches-held (as_doc m a w.files s.document) t y;
                })
                h.holds)
              h,
        )
        | inr y ↦
            let (w', opened) = open_document_total u t s.document w s.is_kept in
            let after =
              Opened-Mirrors u t w w' e
                (open_document-Opened m a n l k u t w w' (Holds-named m a n w e u x h.holds f) z
                  h.holds.placed opened)
                h in
            let found : find u (assign u t e) ≡ some t =
              ground (arith, find-assign u u t e, list_eqb_iff u u) in
            (
              w',
              rw (s.is_kept, y, opened) (get_document-open u t w' (after.holds.shows u t found)),
              after,
            )
      ]

  -- What `onDocDidSave` leaves of a document that is open
  pub on_doc_did_save-Mirrors :
      (u x t : Bytes) (w : Driver Buffer Files) (e : Editor)
      → ends_with_null t ≡ false
      → find u e ≡ some x
      → Mirrors m a n w e
      → (w' : Driver Buffer Files) × (on_doc_did_save m a u (some t) w ≡ returned w')
        × Mirrors m a n w' (assign u t e)
  unfolding on_doc_did_save
  on_doc_did_save-Mirrors u x t w e z f h =
      let (w', checked, after) = check_text-Mirrors u x t w e z f h in
      let opened : contains u w.open_docs ≡ true = ground (arith, h.opens u, f) in
      (
        save_document m a u w',
        rw (opened, get_document-open u x w (h.holds.shows u x f), checked) refl,
        save_document-Mirrors u w' (assign u t e) after,
      )
