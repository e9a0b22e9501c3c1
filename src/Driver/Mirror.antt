-- ===== src/Driver/Mirror.antt =====
-- src/ServerDriver.cpp: what it is for the documents to mirror the texts that the client has open.
use slang_server_verilator.Assoc.{find, assign, erase, contains, find-assign, find-erase}
use slang_server_verilator.Doc.Splice.{held}
use slang_server_verilator.Driver.Laws.{Same, place, IsPlaced, IsGentle}
use slang_server_verilator.Driver.Types.{Manager, Document, Driver, Analysis}
use slang_server_verilator.Prelude.{
  Bool, true, false, List, ◌≡◌, ◌≢◌, sym, ◌∙◌, ap, subst, inl, inr, Option, none, some, arith,
  Bytes, Bool-cases, list_eq, list_eqb, list_eqb_iff,
}

-- The documents that the client has open, with their texts
abbrev pub Editor : Type 0
Editor = List (Bytes × Bytes)

abbrev pub is_open : Option Bytes → Bool
is_open none = false
is_open (some t) = true

module _ {Buffer Files : Type 0} (m : Manager Buffer Files) (a : Analysis Buffer Files)
    (n : Bytes → Type 0) where
  -- The document of a URI is on the latest buffer of its path, which holds the text.
  pub record Shows (w : Driver Buffer Files) (u t : Bytes) : Type 0 where
    pub document : Document Buffer
    pub is_kept : find u w.docs ≡ some document
    pub is_latest : m.latest w.files (place m a u) ≡ some document.buffer
    pub has_text : m.text w.files document.buffer ≡ held t

  pub record Holds (w : Driver Buffer Files) (e : Editor) : Type 0 where
    pub shows : (u t : Bytes) → find u e ≡ some t → Shows w u t
    pub placed : IsPlaced m a n w

  -- The server has open what the client has open, with the texts that the client has.
  pub record Mirrors (w : Driver Buffer Files) (e : Editor) : Type 0 where
    pub holds : Holds w e
    pub opens : (u : Bytes) → contains u w.open_docs ≡ is_open (find u e)

  Shows-gentle :
      (w w' : Driver Buffer Files) (u t : Bytes) → IsGentle m a n w w' → Shows w u t → Shows w' u t
  Shows-gentle w w' u t g h =
      let (d, kept, same) = g.still_kept u h.document h.is_kept h.is_latest in
      let files = g.still_cached (place m a u) h.document.buffer h.is_latest in
      record {
        document = d;
        is_kept = kept;
        is_latest = files.same_latest ∙ (h.is_latest ∙ ap some (sym same));
        has_text =
            ap (m.text w'.files) same
            ∙ (files.same_text h.document.buffer h.is_latest ∙ h.has_text);
      }

  pub Holds-gentle :
      (w w' : Driver Buffer Files) (e : Editor) → IsGentle m a n w w' → Holds w e → Holds w' e
  Holds-gentle w w' e g h = record {
    shows = λ u t f. Shows-gentle w w' u t g (h.shows u t f);
    placed = g.still_placed h.placed;
  }

  -- The document of a URI is as it was.
  pub record Aside (w w' : Driver Buffer Files) (u : Bytes) : Type 0 where
    pub same_doc : find u w'.docs ≡ find u w.docs
    pub same_files : Same m (place m a u) w.files w'.files

  pub Shows-aside :
      (w w' : Driver Buffer Files) (u t : Bytes) → Aside w w' u → Shows w u t → Shows w' u t
  Shows-aside w w' u t s h = record {
    document = h.document;
    is_kept = s.same_doc ∙ h.is_kept;
    is_latest = s.same_files.same_latest ∙ h.is_latest;
    has_text = s.same_files.same_text h.document.buffer h.is_latest ∙ h.has_text;
  }

  -- A change of one document
  pub record Changes (v : Bytes) (w w' : Driver Buffer Files) : Type 0 where
    pub others : (u : Bytes) → n u → u ≢ v → Aside w w' u
    pub placed_still : IsPlaced m a n w → IsPlaced m a n w'
    pub open_still : w'.open_docs ≡ w.open_docs

  pub Holds-named :
      (w : Driver Buffer Files) (e : Editor) (u t : Bytes) → Holds w e → find u e ≡ some t → n u
  Holds-named w e u t h f = let s = h.shows u t f in h.placed.named u s.document s.is_kept

  pub Holds-assign :
      (v t : Bytes) (w w' : Driver Buffer Files) (e : Editor)
      → Changes v w w'
      → Shows w' v t
      → Holds w e
      → Holds w' (assign v t e)
  Holds-assign v t w w' e c s h = record {
    shows = λ u x f. elim (Bool-cases (list_eqb v u)) [
      | inl y ↦
          let same = (list_eqb_iff v u).0 y in
          subst (λ z. Shows w' u z) (ground (arith, f, find-assign v u t e, y))
            (subst (λ z. Shows w' z t) same s)
      | inr y ↦
          Shows-aside w w' u x
            (c.others u (Holds-named w e u x h (ground (arith, f, find-assign v u t e, y)))
              (λ z. ground (arith, z, y, list_eqb_iff v u)))
            (h.shows u x (ground (arith, f, find-assign v u t e, y)))
    ];
    placed = c.placed_still h.placed;
  }

  -- A change of a document that is not open
  pub Holds-unopened :
      (v : Bytes) (w w' : Driver Buffer Files) (e : Editor)
      → Changes v w w'
      → find v e ≡ none
      → Holds w e
      → Holds w' e
  Holds-unopened v w w' e c n h = record {
    shows = λ u x f.
        Shows-aside w w' u x
          (c.others u (Holds-named w e u x h f)
            (λ z. absurd (ground (arith, f, n, ap (λ y. find y e) z))))
          (h.shows u x f);
    placed = c.placed_still h.placed;
  }

  pub Holds-erase :
      (v : Bytes) (w : Driver Buffer Files) (e : Editor) → Holds w e → Holds w (erase v e)
  Holds-erase v w e h = record {
    shows = λ u t f. h.shows u t (ground (arith, f, find-erase v u e));
    placed = h.placed;
  }
