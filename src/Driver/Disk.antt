-- ===== src/Driver/Disk.antt =====
-- src/ServerDriver.cpp: a changed file changes what the driver keeps of that file only.
use slang_server_verilator.Assoc.{find, contains, remove}
use slang_server_verilator.Diag.Publish.{clear_uri}
use slang_server_verilator.Driver.Changes.{
  put_reloaded, reload_buffer, reload_header, reload_cached, disk_changed, file_event,
}
use slang_server_verilator.Driver.Documents.{close_document}
use slang_server_verilator.Driver.Laws.{Same, IsManager, place, IsPlaced, IsAnalysis}
use slang_server_verilator.Driver.Made.{Same-refl}
use slang_server_verilator.Driver.Mirror.{Editor, Holds, Changes, Shows-aside}
use slang_server_verilator.Driver.Opened.{put_fresh-Changes}
use slang_server_verilator.Driver.Types.{
  Manager, Document, Driver, Analysis, FileChangeType, created, changed, deleted,
}
use slang_server_verilator.Prelude.{
  list_eq, Bool, false, List, [], ◌∷◌, ◌≡◌, ◌≢◌, refl, sym, ◌∙◌, ap, subst, inl, inr, Option, none,
  some, arith, if◌then◌else◌, Bytes, Bool-cases,
}

remove_absent : (u : Bytes) (us : List Bytes) → contains u us ≡ false → remove u us ≡ us
unfolding contains remove
remove_absent u [] h = refl
remove_absent u (v ∷ us) h = ground (arith, h, remove_absent u us)

module _ {Buffer Files : Type 0} (m : Manager Buffer Files) (a : Analysis Buffer Files)
    (n : Bytes → Type 0) (l : IsManager m) (k : IsAnalysis m a n) where
  -- The files of other paths change nothing for a document.
  files-Changes :
      (u : Bytes) (s : Files) (w : Driver Buffer Files)
      → ((v : Bytes) (d : Document Buffer)
          → find v w.docs ≡ some d
          → Same m (place m a v) w.files s)
      → ((v : Bytes) → n v → v ≢ u → Same m (place m a v) w.files s)
      → Changes m a n u w (record w { files = s })
  files-Changes u s w h g = record {
    others = λ v o d. record { same_doc = refl; same_files = g v o d };
    placed_still =
        λ p. record { placed = λ v d f. (h v d f).same_latest ∙ p.placed v d f; named = p.named };
    open_still = refl;
  }

  put_reloaded-Changes :
      (u : Bytes) (d : Document Buffer) (w : Driver Buffer Files) (r : Option Buffer × Files)
      → n u
      → m.reload d.buffer w.files ≡ r
      → find u w.docs ≡ some d
      → IsPlaced m a n w
      → Changes m a n u w (put_reloaded m a u d r w).1
  unfolding put_reloaded
  put_reloaded-Changes u d w (none, s) i e f p =
      let same = λ (q : Bytes).
        subst (λ x. Same m q w.files x.1) e
          (l.reload_failed d.buffer q w.files (ap (λ x. x.0) e)) in
      files-Changes u s w (λ v x y. same (place m a v)) (λ v x y. same (place m a v))
  put_reloaded-Changes u d w (some b, s) i e f p =
      let at_place = l.latest_path w.files (place m a u) d.buffer (p.placed u d f) in
      put_fresh-Changes m a n l k u b s w i
        (subst (λ x. m.latest x.1 (place m a u) ≡ some b) e
          (subst (λ q. m.latest (m.reload d.buffer w.files).1 q ≡ some b) at_place
            (l.reload_new d.buffer b w.files (ap (λ x. x.0) e))))
        (λ q x.
          subst (λ y. Same m q w.files y.1) e
            (l.reload_same d.buffer q w.files (λ z. x (z ∙ at_place))))

  reload_cached-Same :
      (u : Bytes) (o : Option Buffer) (w : Driver Buffer Files)
      → m.latest w.files (place m a u) ≡ o
      → (q : Bytes) → q ≢ place m a u
      → Same m q w.files (reload_cached m a (a.path u) o w.files)
  unfolding reload_cached reload_header
  reload_cached-Same u none w e q d = Same-refl m a l q w.files
  reload_cached-Same u (some b) w e q d =
      rw (l.read_cached (a.path u) w.files b e)
        (l.reload_same b q w.files (λ z. d (z ∙ l.latest_path w.files (place m a u) b e)))

  disk_changed-Changes :
      (u : Bytes) (o : Option (Document Buffer)) (w : Driver Buffer Files)
      → n u
      → find u w.docs ≡ o
      → IsPlaced m a n w
      → Changes m a n u w (disk_changed m a u o w).1
  unfolding disk_changed reload_buffer
  disk_changed-Changes u none w i f p =
      let apart = λ (v : Bytes) (o : n v) (x : v ≢ u).
        reload_cached-Same u (m.latest w.files (place m a u)) w refl (place m a v)
          (λ y. x (k.one_name v u o i y)) in
      files-Changes u _ w
        (λ v d g.
          apart v (p.named v d g) (λ y. absurd (ground (arith, f, g, ap (λ z. find z w.docs) y))))
        apart
  disk_changed-Changes u (some d) w i f p =
      put_reloaded-Changes u d w (m.reload d.buffer w.files) i refl f p

  pub close_document-fields :
      (u : Bytes) (w : Driver Buffer Files)
      → ((close_document m a u w).docs ≡ w.docs)
        × ((close_document m a u w).files ≡ w.files)
        × ((close_document m a u w).open_docs ≡ remove u w.open_docs)
  unfolding close_document
  close_document-fields u w = elim (Bool-cases w.has_comp) [
    | inl e ↦ (
      ap (λ b. (chosen b).docs) e,
      ap (λ b. (chosen b).files) e,
      ap (λ b. (chosen b).open_docs) e,
    )
    | inr e ↦ (
      ap (λ b. (chosen b).docs) e,
      ap (λ b. (chosen b).files) e,
      ap (λ b. (chosen b).open_docs) e,
    )
  ]
    where
      chosen : Bool → Driver Buffer Files
      chosen b =
          if b
          then record w { open_docs = remove u w.open_docs }
          else record w { open_docs = remove u w.open_docs; client = clear_uri u w.client }

  -- A state with the same documents and files
  pub Changes-same :
      (u : Bytes) (w w' : Driver Buffer Files)
      → w'.docs ≡ w.docs
      → w'.files ≡ w.files
      → w'.open_docs ≡ w.open_docs
      → Changes m a n u w w'
  Changes-same u w w' d f o = record {
    others = λ v i x. record {
      same_doc = ap (find v) d;
      same_files =
          subst (λ s. Same m (place m a v) w.files s) (sym f)
            (Same-refl m a l (place m a v) w.files);
    };
    placed_still = λ p. record {
      placed =
          λ v e g. ap (λ s. m.latest s (place m a v)) f ∙ p.placed v e (sym (ap (find v) d) ∙ g);
      named = λ v e g. p.named v e (sym (ap (find v) d) ∙ g);
    };
    open_still = o;
  }

  pub Holds-same :
      (w w' : Driver Buffer Files) (e : Editor)
      → w'.docs ≡ w.docs
      → w'.files ≡ w.files
      → Holds m a n w e
      → Holds m a n w' e
  Holds-same w w' e d f h = record {
    shows = λ u t q.
        Shows-aside m a n w w' u t
          (record {
            same_doc = ap (find u) d;
            same_files =
                subst (λ s. Same m (place m a u) w.files s) (sym f)
                  (Same-refl m a l (place m a u) w.files);
          })
          (h.shows u t q);
    placed = record {
      placed = λ u x q.
          ap (λ s. m.latest s (place m a u)) f ∙ h.placed.placed u x (sym (ap (find u) d) ∙ q);
      named = λ u x q. h.placed.named u x (sym (ap (find u) d) ∙ q);
    };
  }

  close_document-Changes :
      (u : Bytes) (w : Driver Buffer Files)
      → contains u w.open_docs ≡ false
      → Changes m a n u w (close_document m a u w)
  close_document-Changes u w h =
      let (d, f, o) = close_document-fields u w in
      Changes-same u w _ d f (o ∙ remove_absent u w.open_docs h)

  pub file_event-Changes :
      (t : FileChangeType) (u : Bytes) (w : Driver Buffer Files)
      → n u
      → contains u w.open_docs ≡ false
      → IsPlaced m a n w
      → Changes m a n u w (file_event m a t u w).1
  unfolding file_event
  file_event-Changes deleted u w i h p = close_document-Changes u w h
  file_event-Changes created u w i h p = disk_changed-Changes u (find u w.docs) w i refl p
  file_event-Changes changed u w i h p = disk_changed-Changes u (find u w.docs) w i refl p
