-- ===== src/Driver/Made.antt =====
-- src/document/SlangDoc.cpp: the buffer that a document is made on holds the client's text.
use slang_server_verilator.Doc.Change.{
  SlangDoc, ends_with_null, ensure_null_terminated, text_matches,
}
use slang_server_verilator.Doc.Splice.{held}
use slang_server_verilator.Driver.Documents.{replace_text, text_at, from_text}
use slang_server_verilator.Driver.Kept.{as_doc, fresh}
use slang_server_verilator.Driver.Laws.{Same, IsManager, place}
use slang_server_verilator.Driver.Types.{Manager, Analysis}
use slang_server_verilator.Prelude.{
  true, false, ◌≡◌, ◌≢◌, refl, sym, ◌∙◌, subst, inl, inr, Option, none, some, arith, Bytes,
  Bool-cases, Option-cases, list_eqb_iff,
}

pub text_matches-held : (d : SlangDoc) (t : Bytes) → text_matches d t ≡ true → d.text ≡ held t
unfolding text_matches
text_matches-held d t h = ground (arith, h, list_eqb_iff d.text (held t))

ensure-held : (t : Bytes) → ends_with_null t ≡ false → ensure_null_terminated t ≡ held t
unfolding ensure_null_terminated
ensure-held t h = rw (h) refl

module _ {Buffer Files : Type 0} (m : Manager Buffer Files) (a : Analysis Buffer Files)
    (l : IsManager m) where
  -- A buffer of a path, the latest one, with the client's text, and no other path touched
  pub record IsMade (p text : Bytes) (s : Files) (made : Buffer × Files) : Type 0 where
    pub made_latest : m.latest made.1 p ≡ some made.0
    pub made_held : m.text made.1 made.0 ≡ held text
    pub made_same : (q : Bytes) → q ≢ p → Same m q s made.1

  pub Same-refl : (q : Bytes) (s : Files) → Same m q s s
  Same-refl q s = record { same_latest = refl; same_text = λ b e. refl }

  pub Same-trans : (q : Bytes) (s t v : Files) → Same m q s t → Same m q t v → Same m q s v
  Same-trans q s t v x y = record {
    same_latest = y.same_latest ∙ x.same_latest;
    same_text = λ b e. y.same_text b (x.same_latest ∙ e) ∙ x.same_text b e;
  }

  replace_text-IsMade :
      (p text : Bytes) (b : Buffer) (s : Files)
      → m.latest s p ≡ some b
      → ends_with_null text ≡ false
      → (made : Buffer × Files) → replace_text m a p (some b, s) text ≡ some made
      → IsMade p text s made
  unfolding replace_text as_doc fresh
  replace_text-IsMade p text b s e n made h =
      elim (Bool-cases (text_matches (as_doc m a s (fresh m a b)) text)) [
        | inl y ↦ subst (IsMade p text s) (kept y) (record {
          made_latest = e;
          made_held = text_matches-held (as_doc m a s (fresh m a b)) text y;
          made_same = λ q d. Same-refl q s;
        })
        | inr y ↦ subst (IsMade p text s) (renewed y) (record {
          made_latest =
              subst
                (λ q. m.latest (m.replace b (held text) s).1 q ≡ some (m.replace b (held text) s).0)
                (l.latest_path s p b e) (l.replace_new b (held text) s);
          made_held = l.replace_held b (held text) s;
          made_same = λ q d. l.replace_same b (held text) q s (λ x. d (x ∙ l.latest_path s p b e));
        })
      ]
    where
      kept : text_matches (as_doc m a s (fresh m a b)) text ≡ true → (b, s) ≡ made
      kept y = ground (arith, h, y)

      renewed :
          text_matches (as_doc m a s (fresh m a b)) text ≡ false → m.replace b (held text) s ≡ made
      renewed y = ground (arith, h, y, ensure-held text n)

  text_at-IsMade :
      (p text : Bytes) (o : Option Buffer) (s : Files)
      → m.canonical p ≡ p
      → m.latest s p ≡ o
      → ends_with_null text ≡ false
      → (made : Buffer × Files) → text_at m a p o text s ≡ some made
      → IsMade p text s made
  unfolding text_at
  text_at-IsMade p text none s c e n made h = subst (IsMade p text s) (some_same h) (record {
    made_latest = l.assign_new p text s;
    made_held = l.assign_held p text s;
    made_same = λ q d. l.assign_same p q text s d;
  })
    where
      some_same : some (m.assign_text p text s) ≡ some made → m.assign_text p text s ≡ made
      some_same h = ground (arith, h)
  text_at-IsMade p text (some b) s c e n made h = replace_text-IsMade p text b s e n made (
      subst (λ x. replace_text m a p x text ≡ some made)
        (l.read_cached p s b (subst (λ q. m.latest s q ≡ some b) (sym c) e)) h)

  pub from_text-IsMade :
      (u text : Bytes) (s : Files)
      → ends_with_null text ≡ false
      → (made : Buffer × Files) → from_text m a u text s ≡ some made
      → IsMade (place m a u) text s made
  unfolding from_text
  from_text-IsMade u text s n made h =
      text_at-IsMade (place m a u) text (m.latest s (place m a u)) s (l.canonical_again (a.path u))
        refl n made h

  -- `fromText` throws nowhere.
  pub from_text_total :
      (u text : Bytes) (s : Files) → (made : Buffer × Files) × (from_text m a u text s ≡ some made)
  unfolding from_text text_at replace_text
  from_text_total u text s = elim (Option-cases (m.latest s (place m a u))) [
    | inl e ↦ rw (e) (m.assign_text (place m a u) text s, refl)
    | inr (b, e) ↦
        rw (e, l.read_cached (place m a u) s b (rw (l.canonical_again (a.path u)) e)) (_, refl)
  ]
