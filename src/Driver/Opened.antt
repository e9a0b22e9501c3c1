-- ===== src/Driver/Opened.antt =====
-- src/ServerDriver.cpp: an opened document shows the client's text, and the others stay.
use slang_server_verilator.Assoc.{find, assign, contains, add, find-assign}
use slang_server_verilator.Doc.Change.{ends_with_null, text_matches}
use slang_server_verilator.Doc.Splice.{held}
use slang_server_verilator.Driver.Documents.{
  put_text, note_open, show_open, open_text, open_source, open_found, open_document,
}
use slang_server_verilator.Driver.Gentle.{analyze-Gentle, publish_inactive-Gentle}
use slang_server_verilator.Driver.Kept.{as_doc, fresh, put, put_fresh}
use slang_server_verilator.Driver.Laws.{Same, IsManager, place, IsPlaced, IsGentle, IsAnalysis}
use slang_server_verilator.Driver.Made.{
  Same-refl, Same-trans, text_matches-held, from_text-IsMade, from_text_total,
}
use slang_server_verilator.Driver.Mirror.{Editor, Shows, Holds, Holds-gentle, Changes, Holds-assign}
use slang_server_verilator.Driver.Tree.{analyze, publish_inactive}
use slang_server_verilator.Driver.Types.{Manager, Document, Driver, Analysis, returned, state_of}
use slang_server_verilator.Prelude.{
  Bool, true, false, ◌&&◌, List, ◌≡◌, ◌≢◌, refl, sym, ◌∙◌, ap, subst, inl, inr, Option, none, some,
  arith, if◌then◌else◌, Bytes, Bool-cases, list_eq, list_eqb, list_eqb_iff,
}

module _ {Buffer Files : Type 0} (m : Manager Buffer Files) (a : Analysis Buffer Files)
    (n : Bytes → Type 0) (l : IsManager m) (k : IsAnalysis m a n) where
  differs : (u v : Bytes) → v ≢ u → list_eqb u v ≡ false
  differs u v d = elim (Bool-cases (list_eqb u v)) [
    | inl y ↦ absurd (d (sym ((list_eqb_iff u v).0 y)))
    | inr y ↦ y
  ]

  buffer_of : Option (Document Buffer) → Option Buffer
  buffer_of none = none
  buffer_of (some d) = some d.buffer

  assigned_latest :
      (u : Bytes) (b : Buffer) (s : Files) (w : Driver Buffer Files)
      → n u
      → m.latest s (place m a u) ≡ some b
      → ((q : Bytes) → q ≢ place m a u → Same m q w.files s)
      → IsPlaced m a n w
      → (v : Bytes) (d : Document Buffer) → find v (assign u (fresh m a b) w.docs) ≡ some d
      → m.latest s (place m a v) ≡ some d.buffer
  unfolding fresh buffer_of
  assigned_latest u b s w i e h p v d f = elim (Bool-cases (list_eqb u v)) [
    | inl y ↦
        let there : some (fresh m a b) ≡ some d =
          ground (arith, f, find-assign u v (fresh m a b) w.docs, y) in
        subst (λ z. m.latest s (place m a z) ≡ some d.buffer) ((list_eqb_iff u v).0 y)
          (e ∙ ap buffer_of there)
    | inr y ↦
        let apart : v ≢ u = λ x. ground (arith, y, list_eqb_iff u v, x) in
        let old : find v w.docs ≡ some d =
          ground (arith, f, find-assign u v (fresh m a b) w.docs, y) in
        (h (place m a v) (λ x. apart (k.one_name v u (p.named v d old) i x))).same_latest
        ∙ p.placed v d old
  ]

  assigned_named :
      (u : Bytes) (b : Buffer) (w : Driver Buffer Files)
      → n u
      → IsPlaced m a n w
      → (v : Bytes) (d : Document Buffer) → find v (assign u (fresh m a b) w.docs) ≡ some d
      → n v
  assigned_named u b w i p v d f = elim (Bool-cases (list_eqb u v)) [
    | inl y ↦ subst n ((list_eqb_iff u v).0 y) i
    | inr y ↦ p.named v d (ground (arith, f, find-assign u v (fresh m a b) w.docs, y))
  ]

  -- A document that is put on the latest buffer of its path, the other paths left as they are
  pub put_fresh-Changes :
      (u : Bytes) (b : Buffer) (s : Files) (w : Driver Buffer Files)
      → n u
      → m.latest s (place m a u) ≡ some b
      → ((q : Bytes) → q ≢ place m a u → Same m q w.files s)
      → Changes m a n u w (put_fresh m a u (b, s) w)
  unfolding put_fresh put
  put_fresh-Changes u b s w i e h = record {
    others = λ v o d. record {
      same_doc = ground (arith, find-assign u v (fresh m a b) w.docs, differs u v d);
      same_files = h (place m a v) (λ x. d (k.one_name v u o i x));
    };
    placed_still =
        λ p. record { placed = assigned_latest u b s w i e h p; named = assigned_named u b w i p };
    open_still = refl;
  }

  pub put_fresh-Shows :
      (u t : Bytes) (b : Buffer) (s : Files) (w : Driver Buffer Files)
      → m.latest s (place m a u) ≡ some b
      → m.text s b ≡ held t
      → Shows m a n (put_fresh m a u (b, s) w) u t
  unfolding put_fresh put fresh
  put_fresh-Shows u t b s w e h = record {
    document = fresh m a b;
    is_kept = ground (arith, find-assign u u (fresh m a b) w.docs, list_eqb_iff u u);
    is_latest = e;
    has_text = h;
  }

  -- What `openDocument` leaves when it returns
  pub record Opened (u t : Bytes) (w w' : Driver Buffer Files) : Type 0 where
    pub opened_holds : (e : Editor) → Holds m a n w e → Holds m a n w' (assign u t e)
    pub opened_list : w'.open_docs ≡ add u w.open_docs

  Holds-list :
      (w : Driver Buffer Files) (us : List Bytes) (e : Editor)
      → Holds m a n w e
      → Holds m a n (record w { open_docs = us }) e
  Holds-list w us e h = record {
    shows = λ u t f.
        let s = h.shows u t f in
        record {
          document = s.document;
          is_kept = s.is_kept;
          is_latest = s.is_latest;
          has_text = s.has_text;
        };
    placed = record { placed = h.placed.placed; named = h.placed.named };
  }

  IsGentle-if :
      (b : Bool) (u : Bytes) (w : Driver Buffer Files)
      → IsGentle m a n w (if b then publish_inactive m a u w else analyze m a u w)
  IsGentle-if true u w = publish_inactive-Gentle m a n l k u w
  IsGentle-if false u w = analyze-Gentle m a n l k u w

  show_open-Opened :
      (b : Bool) (u t : Bytes) (w w' : Driver Buffer Files)
      → Shows m a n w' u t
      → Changes m a n u w w'
      → Opened u t w (show_open m a b u w')
  unfolding show_open note_open
  show_open-Opened b u t w w' s c =
      let g = IsGentle-if (w'.has_comp && b) u w' in
      record {
        opened_holds = λ e h.
            Holds-list _ _ _
              (Holds-gentle m a n w' _ (assign u t e) g (Holds-assign m a n u t w w' e c s h));
        opened_list = ap (add u) (g.still_open ∙ c.open_still);
      }

  returned_same : {w w' : Driver Buffer Files} → returned w ≡ returned w' → w ≡ w'
  returned_same e = ap state_of e

  open_text-Opened :
      (u t : Bytes) (w : Driver Buffer Files) (s : Files) (w' : Driver Buffer Files)
      → n u
      → ends_with_null t ≡ false
      → ((q : Bytes) → q ≢ place m a u → Same m q w.files s)
      → open_text m a u t (record w { files = s }) ≡ returned w'
      → Opened u t w w'
  unfolding open_text put_text put_fresh
  open_text-Opened u t w s w' i z h e =
      let (made, f) = from_text_total m a l u t s in
      let is_made = from_text-IsMade m a l u t s z made f in
      subst (Opened u t w) (returned_same (rw (f) at e)) (
        show_open-Opened false u t w (put_fresh m a u made w)
          (put_fresh-Shows u t made.0 made.1 w is_made.made_latest is_made.made_held)
          (put_fresh-Changes u made.0 made.1 w i is_made.made_latest
            (λ q d. Same-trans m a l q w.files s made.1 (h q d) (is_made.made_same q d))))

  read-Same :
      (u : Bytes) (w : Driver Buffer Files) (r : Option Buffer × Files)
      → m.read (a.path u) w.files ≡ r
      → (q : Bytes) → q ≢ place m a u
      → Same m q w.files r.1
  read-Same u w r e q d = subst (λ x. Same m q w.files x.1) e (l.read_same (a.path u) q w.files d)

  read-latest :
      (u : Bytes) (w : Driver Buffer Files) (b : Buffer) (s : Files)
      → m.read (a.path u) w.files ≡ (some b, s)
      → m.latest s (place m a u) ≡ some b
  read-latest u w b s e =
      subst (λ x. m.latest x.1 (place m a u) ≡ some b) e
        (l.read_new (a.path u) w.files b (ap (λ x. x.0) e))

  open_source-Opened :
      (u t : Bytes) (w : Driver Buffer Files) (r : Option Buffer × Files) (w' : Driver Buffer Files)
      → n u
      → ends_with_null t ≡ false
      → m.read (a.path u) w.files ≡ r
      → open_source m a u t r w ≡ returned w'
      → Opened u t w w'
  unfolding open_source as_doc fresh
  open_source-Opened u t w (none, s) w' i z q e = absurd (ground (arith, e))
  open_source-Opened u t w (some b, s) w' i z q e =
      elim (Bool-cases (text_matches (as_doc m a s (fresh m a b)) t)) [
        | inl y ↦ subst (Opened u t w) (returned_same (rw (y) at e)) (
            show_open-Opened true u t w (put_fresh m a u (b, s) w)
              (put_fresh-Shows u t b s w (read-latest u w b s q)
                (text_matches-held (as_doc m a s (fresh m a b)) t y))
              (put_fresh-Changes u b s w i (read-latest u w b s q) (read-Same u w (some b, s) q)))
        | inr y ↦ open_text-Opened u t w s w' i z (read-Same u w (some b, s) q) (rw (y) at e)
      ]

  pub Changes-refl : (u : Bytes) (w : Driver Buffer Files) → Changes m a n u w w
  Changes-refl u w = record {
    others =
        λ v o d. record { same_doc = refl; same_files = Same-refl m a l (place m a v) w.files };
    placed_still = λ p. p;
    open_still = refl;
  }

  open_found-Opened :
      (u t : Bytes) (o : Option (Document Buffer)) (w w' : Driver Buffer Files)
      → n u
      → ends_with_null t ≡ false
      → find u w.docs ≡ o
      → IsPlaced m a n w
      → open_found m a u t o w ≡ returned w'
      → Opened u t w w'
  unfolding open_found as_doc
  open_found-Opened u t none w w' i z f p e = elim (Bool-cases (contains u w.build_sources)) [
    | inl y ↦ open_source-Opened u t w (m.read (a.path u) w.files) w' i z refl (rw (y) at e)
    | inr y ↦ open_text-Opened u t w w.files w' i z (λ q d. Same-refl m a l q w.files) (rw (y) at e)
  ]
  open_found-Opened u t (some d) w w' i z f p e =
      elim (Bool-cases (text_matches (as_doc m a w.files d) t)) [
        | inl y ↦ subst (Opened u t w) (returned_same (rw (y) at e)) (
            show_open-Opened (contains u w.build_sources) u t w w
              (record {
                document = d;
                is_kept = f;
                is_latest = p.placed u d f;
                has_text = text_matches-held (as_doc m a w.files d) t y;
              })
              (Changes-refl u w))
        | inr y ↦
            open_text-Opened u t w w.files w' i z (λ q x. Same-refl m a l q w.files) (rw (y) at e)
      ]

  pub open_document-Opened :
      (u t : Bytes) (w w' : Driver Buffer Files)
      → n u
      → ends_with_null t ≡ false
      → IsPlaced m a n w
      → open_document m a u t w ≡ returned w'
      → Opened u t w w'
  unfolding open_document
  open_document-Opened u t w w' i z p e = open_found-Opened u t (find u w.docs) w w' i z refl p e
