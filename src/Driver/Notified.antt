-- ===== src/Driver/Notified.antt =====
-- src/ServerDriver.cpp: a notification on watched files leaves the open documents as they are.
use slang_server_verilator.Assoc.{find, contains}
use slang_server_verilator.Driver.Changes.{
  file_event, watched_one, watched_all, analyze_all, is_stale, analyze_stale, on_watched_files,
}
use slang_server_verilator.Driver.Disk.{file_event-Changes}
use slang_server_verilator.Driver.Gentle.{analyze-Gentle}
use slang_server_verilator.Driver.Laws.{AllOf, IsManager, IsGentle, IsAnalysis}
use slang_server_verilator.Driver.Mirror.{Editor, is_open, Mirrors, Holds-gentle, Holds-unopened}
use slang_server_verilator.Driver.Tree.{analyze}
use slang_server_verilator.Driver.Types.{Manager, Driver, Analysis, FileEvent}
use slang_server_verilator.Prelude.{
  list_eq, Bool, true, false, List, [], ◌∷◌, ◌≡◌, refl, sym, ◌∙◌, ap, subst, inl, inr, Option, none,
  some, arith, if◌then◌else◌, Bytes, Bool-cases,
}

abbrev pub uris : List FileEvent → List Bytes
uris [] = []
uris (c ∷ cs) = c.uri ∷ uris cs

module _ {Buffer Files : Type 0} (m : Manager Buffer Files) (a : Analysis Buffer Files)
    (n : Bytes → Type 0) (l : IsManager m) (k : IsAnalysis m a n) where
  pub Mirrors-gentle :
      (w w' : Driver Buffer Files) (e : Editor)
      → IsGentle m a n w w'
      → Mirrors m a n w e
      → Mirrors m a n w' e
  Mirrors-gentle w w' e g h = record {
    holds = Holds-gentle m a n w w' e g h.holds;
    opens = λ u. ap (contains u) g.still_open ∙ h.opens u;
  }

  closed_none : (o : Option Bytes) → is_open o ≡ false → o ≡ none
  closed_none none h = refl
  closed_none (some t) h = absurd (ground (arith, h))

  watched_one-Mirrors :
      (c : FileEvent) (w : Driver Buffer Files) (e : Editor)
      → n c.uri
      → Mirrors m a n w e
      → Mirrors m a n (watched_one m a c w).1 e
  unfolding watched_one
  watched_one-Mirrors c w e i h = elim (Bool-cases (contains c.uri w.open_docs)) [
    | inl y ↦
        subst (λ r. Mirrors m a n r e)
          (sym (ap (λ b. (if b then ([], w) else file_event m a c.type c.uri w).1) y)) h
    | inr y ↦
        let ch = file_event-Changes m a n l k c.type c.uri w i y h.holds.placed in
        subst (λ r. Mirrors m a n r e)
          (sym (ap (λ b. (if b then ([], w) else file_event m a c.type c.uri w).1) y))
          (record {
            holds =
                Holds-unopened m a n c.uri w _ e ch
                  (closed_none (find c.uri e) (sym (h.opens c.uri) ∙ y)) h.holds;
            opens = λ u. ap (contains u) ch.open_still ∙ h.opens u;
          })
  ]

  watched_all-Mirrors :
      (cs : List FileEvent) (w : Driver Buffer Files) (e : Editor)
      → AllOf n (uris cs)
      → Mirrors m a n w e
      → Mirrors m a n (watched_all m a cs w).1 e
  unfolding watched_all
  watched_all-Mirrors [] w e i h = h
  watched_all-Mirrors (c ∷ cs) w e (i, is) h =
      watched_all-Mirrors cs (watched_one m a c w).1 e is (watched_one-Mirrors c w e i h)

  analyze_all-Mirrors :
      (us : List Bytes) (w : Driver Buffer Files) (e : Editor)
      → Mirrors m a n w e
      → Mirrors m a n (analyze_all m a us w) e
  unfolding analyze_all
  analyze_all-Mirrors [] w e h = h
  analyze_all-Mirrors (u ∷ us) w e h =
      analyze_all-Mirrors us (analyze m a u w) e
        (Mirrors-gentle w _ e (analyze-Gentle m a n l k u w) h)

  pub Mirrors-if :
      (b : Bool) (w w' : Driver Buffer Files) (e : Editor)
      → Mirrors m a n w e
      → Mirrors m a n w' e
      → Mirrors m a n (if b then w else w') e
  Mirrors-if true w w' e h g = h
  Mirrors-if false w w' e h g = g

  analyze_stale-Mirrors :
      (us : List Bytes) (w : Driver Buffer Files) (e : Editor)
      → Mirrors m a n w e
      → Mirrors m a n (analyze_stale m a us w) e
  unfolding analyze_stale
  analyze_stale-Mirrors [] w e h = h
  analyze_stale-Mirrors (u ∷ us) w e h = analyze_stale-Mirrors us _ e (
      Mirrors-if (is_stale m a (find u w.docs) w.files) (analyze m a u w) w e
        (Mirrors-gentle w _ e (analyze-Gentle m a n l k u w) h) h)

  pub on_watched_files-Mirrors :
      (cs : List FileEvent) (w : Driver Buffer Files) (e : Editor)
      → AllOf n (uris cs)
      → Mirrors m a n w e
      → Mirrors m a n (on_watched_files m a cs w) e
  unfolding on_watched_files
  on_watched_files-Mirrors cs w e i h =
      analyze_stale-Mirrors _ _ e
        (analyze_all-Mirrors (watched_all m a cs w).0 _ e (watched_all-Mirrors cs w e i h))
