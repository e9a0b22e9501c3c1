-- ===== src/Driver/Gentle.antt =====
-- src/document/SlangDoc.cpp: a document that is on the latest buffer of its path keeps it when trees
-- are asked for, where no indexed file includes it.
use slang_server_verilator.Assoc.{find, find-assign}
use slang_server_verilator.Driver.Kept.{
  fresh, put, put_fresh, opened_from_disk, get_found, get_document,
}
use slang_server_verilator.Driver.Laws.{
  Same, IsManager, place, AllOf, IsPlaced, IsGentle, IsAnalysis,
}
use slang_server_verilator.Driver.Made.{Same-refl, Same-trans}
use slang_server_verilator.Driver.Tree.{
  include_contexts, leave_context, parse_on, parse_again, own_tree, tree_in, get_syntax_tree,
  tree_kept, note_analysis, visit, visit_all, perform, analyze, publish_inactive,
  refresh_compilation, update_index,
}
use slang_server_verilator.Driver.Types.{
  Manager, Document, Driver, Task, analyzing, publishing, refreshing, indexing, Analysis, Outcome,
  returned, threw, then_do, state_of,
}
use slang_server_verilator.Prelude.{
  Bool, true, false, List, [], ◌∷◌, ◌≡◌, refl, sym, ◌∙◌, ap, subst, ◌⊎◌, inl, inr, Option, none,
  some, arith, if◌then◌else◌, Bytes, Bool-cases, Option-cases, list_eq, list_eqb, list_eqb_iff,
}

module _ {Buffer Files : Type 0} (m : Manager Buffer Files) (a : Analysis Buffer Files)
    (n : Bytes → Type 0) (l : IsManager m) (k : IsAnalysis m a n) where
  Gentle-trans :
      {u v w : Driver Buffer Files} → IsGentle m a n u v → IsGentle m a n v w → IsGentle m a n u w
  Gentle-trans {u} {v} {w} g h = record {
    still_open = h.still_open ∙ g.still_open;
    still_cached = λ p b e.
        let first = g.still_cached p b e in
        Same-trans m a l p u.files v.files w.files first
          (h.still_cached p b (first.same_latest ∙ e));
    still_kept = λ q d f e.
        let (d', f', same) = g.still_kept q d f e in
        let there =
          (g.still_cached (place m a q) d.buffer e).same_latest ∙ (e ∙ ap some (sym same)) in
        let (d'', f'', same') = h.still_kept q d' f' there in (d'', f'', same' ∙ same);
    still_placed = λ p. h.still_placed (g.still_placed p);
  }

  files-Gentle :
      (s : Files) (w : Driver Buffer Files)
      → ((p : Bytes) (b : Buffer) → m.latest w.files p ≡ some b → Same m p w.files s)
      → IsGentle m a n w (record w { files = s })
  files-Gentle s w h = record {
    still_open = refl;
    still_cached = h;
    still_kept = λ u d f e. (d, f, refl);
    still_placed = λ p. record {
      placed = λ u d f. (h (place m a u) d.buffer (p.placed u d f)).same_latest ∙ p.placed u d f;
      named = p.named;
    };
  }

  Gentle-refl : (w : Driver Buffer Files) → IsGentle m a n w w
  Gentle-refl w = record {
    still_open = refl;
    still_cached = λ p b e. Same-refl m a l p w.files;
    still_kept = λ u d f e. (d, f, refl);
    still_placed = λ p. p;
  }

  client-Gentle :
      (t : Task) (u : Bytes) (w : Driver Buffer Files)
      → IsGentle m a n w (record w { client = a.publish t u w })
  client-Gentle t u w = record {
    still_open = refl;
    still_cached = λ p b e. Same-refl m a l p w.files;
    still_kept = λ v d f e. (d, f, refl);
    still_placed = λ p. record { placed = p.placed; named = p.named };
  }

  -- A document that is put on the latest buffer, where its buffer was that already
  put-Gentle :
      (u : Bytes) (e : Document Buffer) (w : Driver Buffer Files)
      → ((d : Document Buffer)
          → find u w.docs ≡ some d
          → m.latest w.files (place m a u) ≡ some d.buffer
          → e.buffer ≡ d.buffer)
      → (IsPlaced m a n w → n u × (m.latest w.files (place m a u) ≡ some e.buffer))
      → IsGentle m a n w (put m a u e w)
  unfolding put
  put-Gentle u e w same there = record {
    still_open = refl;
    still_cached = λ p b q. Same-refl m a l p w.files;
    still_kept = λ v d f q. elim (Bool-cases (list_eqb u v)) [
      | inl y ↦
          let one = (list_eqb_iff u v).0 y in
          (
            e,
            ground (arith, find-assign u v e w.docs, y),
            same d (subst (λ z. find z w.docs ≡ some d) (sym one) f)
                (subst (λ z. m.latest w.files (place m a z) ≡ some d.buffer) (sym one) q),
          )
      | inr y ↦ (d, ground (arith, find-assign u v e w.docs, y, f), refl)
    ];
    still_placed = λ p. record {
      placed = λ v d f. elim (Bool-cases (list_eqb u v)) [
        | inl y ↦
            let it : some e ≡ some d = ground (arith, f, find-assign u v e w.docs, y) in
            subst (λ z. m.latest w.files (place m a z) ≡ some d.buffer) ((list_eqb_iff u v).0 y)
              ((there p).1 ∙ ap (buffer_of) it)
        | inr y ↦ p.placed v d (ground (arith, f, find-assign u v e w.docs, y))
      ];
      named = λ v d f. elim (Bool-cases (list_eqb u v)) [
        | inl y ↦ subst n ((list_eqb_iff u v).0 y) (there p).0
        | inr y ↦ p.named v d (ground (arith, f, find-assign u v e w.docs, y))
      ];
    };
  }
    where
      buffer_of : Option (Document Buffer) → Option Buffer
      buffer_of none = none
      buffer_of (some d) = some d.buffer

  -- Two documents of one URI are the same.
  kept_once :
      (u : Bytes) (d e : Document Buffer) (w : Driver Buffer Files)
      → find u w.docs ≡ some d
      → find u w.docs ≡ some e
      → d ≡ e
  kept_once u d e w f g = let both : some d ≡ some e = sym f ∙ g in ground (arith, both)

  put_same-Gentle :
      (u : Bytes) (d e : Document Buffer) (w : Driver Buffer Files)
      → find u w.docs ≡ some d
      → e.buffer ≡ d.buffer
      → IsGentle m a n w (put m a u e w)
  put_same-Gentle u d e w f s =
      put-Gentle u e w (λ x g q. s ∙ ap (λ z. z.buffer) (kept_once u d x w f g))
        (λ p. (p.named u d f, p.placed u d f ∙ ap some (sym s)))

  read-Gentle :
      (u : Bytes) (w : Driver Buffer Files)
      → IsGentle m a n w (record w { files = (m.read (a.path u) w.files).1 })
  read-Gentle u w = files-Gentle _ w (λ p b e. elim (Bool-cases (list_eqb p (place m a u))) [
    | inl y ↦
        let at =
          l.read_cached (a.path u) w.files b
            (subst (λ z. m.latest w.files z ≡ some b) ((list_eqb_iff p (place m a u)).0 y) e) in
        subst (λ r. Same m p w.files r.1) (sym at) (Same-refl m a l p w.files)
    | inr y ↦
        l.read_same (a.path u) p w.files (λ z. ground (arith, y, z, list_eqb_iff p (place m a u)))
  ])

  parse_on-Gentle :
      (u : Bytes) (c d : Document Buffer) (b : Buffer) (w : Driver Buffer Files)
      → find u w.docs ≡ some d
      → (b ≡ d.buffer) ⊎ (m.latest w.files (place m a u) ≡ some b)
      → IsGentle m a n w (parse_on m a u c b w)
  unfolding parse_on
  parse_on-Gentle u c d b w f (inl s) =
      Gentle-trans (files-Gentle (a.parse b w.files) w (k.parse_same b w.files))
        (put_same-Gentle u d _ _ f s)
  parse_on-Gentle u c d b w f (inr e) =
      let there = (k.parse_same b w.files (place m a u) b e).same_latest ∙ e in
      Gentle-trans (files-Gentle (a.parse b w.files) w (k.parse_same b w.files)) (
        put-Gentle u _ _
          (λ x g q. let both : some b ≡ some x.buffer = sym there ∙ q in ground (arith, both))
          (λ p. (p.named u d f, there)))

  parse_again-Gentle :
      (u : Bytes) (c d : Document Buffer) (r : Option Buffer × Files) (w : Driver Buffer Files)
      → m.read (a.path u) w.files ≡ r
      → find u w.docs ≡ some d
      → IsGentle m a n w (state_of (parse_again m a u c r w))
  unfolding parse_again
  parse_again-Gentle u c d (none, s) w e f =
      subst (λ r. IsGentle m a n w (record w { files = r.1 })) e (read-Gentle u w)
  parse_again-Gentle u c d (some b, s) w e f =
      Gentle-trans (subst (λ r. IsGentle m a n w (record w { files = r.1 })) e (read-Gentle u w)) (
        parse_on-Gentle u c d b _ f (
          inr (
            subst (λ r. m.latest r.1 (place m a u) ≡ some b) e
              (l.read_new (a.path u) w.files b (ap (λ r. r.0) e)))))

  either-Gentle :
      (b : Bool) (x y : Outcome (Driver Buffer Files)) (w : Driver Buffer Files)
      → IsGentle m a n w (state_of x)
      → IsGentle m a n w (state_of y)
      → IsGentle m a n w (state_of (if b then x else y))
  either-Gentle true x y w g h = g
  either-Gentle false x y w g h = h

  own_tree-Gentle :
      (u : Bytes) (c d : Document Buffer) (w : Driver Buffer Files)
      → find u w.docs ≡ some d
      → c.buffer ≡ d.buffer
      → IsGentle m a n w (state_of (own_tree m a u c w))
  unfolding own_tree
  own_tree-Gentle u c d w f s =
      let again = parse_again-Gentle u c d _ w refl f in
      either-Gentle c.tree _ _ w
        (either-Gentle (a.has_valid_buffers c w.files) _ _ w (put_same-Gentle u d c w f s) again)
        (either-Gentle (m.is_latest w.files c.buffer) _ _ w
          (parse_on-Gentle u c d c.buffer w f (inl s)) again)

  leave_context-buffer : (d : Document Buffer) → (leave_context m a d).buffer ≡ d.buffer
  unfolding leave_context fresh
  leave_context-buffer d = elim (Bool-cases d.include_compilation) [
    | inl y ↦ rw (y) refl
    | inr y ↦ rw (y) refl
  ]

  get_syntax_tree-Gentle :
      (u : Bytes) (d : Document Buffer) (w : Driver Buffer Files)
      → find u w.docs ≡ some d
      → IsGentle m a n w (state_of (get_syntax_tree m a u d w))
  unfolding get_syntax_tree include_contexts tree_in
  get_syntax_tree-Gentle u d w f =
      rw (k.no_includers (m.canonical (m.full_path d.buffer)) w)
        (own_tree-Gentle u (leave_context m a d) d w f (leave_context-buffer d))

  tree_kept-Gentle :
      (u : Bytes) (o : Option (Document Buffer)) (w : Driver Buffer Files)
      → find u w.docs ≡ o
      → IsGentle m a n w (state_of (tree_kept m a u o w))
  unfolding tree_kept
  tree_kept-Gentle u none w f = Gentle-refl w
  tree_kept-Gentle u (some d) w f = get_syntax_tree-Gentle u d w f

  note_analysis-Gentle :
      (b : Bool) (u : Bytes) (o : Option (Document Buffer)) (w : Driver Buffer Files)
      → find u w.docs ≡ o
      → IsGentle m a n w (note_analysis m a b u o w)
  unfolding note_analysis
  note_analysis-Gentle b u none w f = Gentle-refl w
  note_analysis-Gentle b u (some d) w f = put_same-Gentle u d _ w f refl

  opened-Gentle :
      (u : Bytes) (r : Option Buffer × Files) (w : Driver Buffer Files)
      → n u
      → m.read (a.path u) w.files ≡ r
      → find u w.docs ≡ none
      → IsGentle m a n w (state_of (opened_from_disk m a u r w))
  unfolding opened_from_disk put_fresh fresh
  opened-Gentle u (none, s) w i e f =
      subst (λ r. IsGentle m a n w (record w { files = r.1 })) e (read-Gentle u w)
  opened-Gentle u (some b, s) w i e f =
      let there =
        subst (λ r. m.latest r.1 (place m a u) ≡ some b) e
          (l.read_new (a.path u) w.files b (ap (λ r. r.0) e)) in
      Gentle-trans (subst (λ r. IsGentle m a n w (record w { files = r.1 })) e (read-Gentle u w)) (
        put-Gentle u _ _
          (λ x g q. absurd (let both : none ≡ some x = sym f ∙ g in ground (arith, both)))
          (λ p. (i, there)))

  get_document-Gentle :
      (u : Bytes) (w : Driver Buffer Files)
      → n u
      → IsGentle m a n w (state_of (get_document m a u w))
  unfolding get_document get_found
  get_document-Gentle u w i = elim (Option-cases (find u w.docs)) [
    | inl e ↦ rw (e) (opened-Gentle u _ w i refl e)
    | inr (d, e) ↦ rw (e) (Gentle-refl w)
  ]

  then_do-Gentle :
      (o : Outcome (Driver Buffer Files)) (f : Driver Buffer Files → Outcome (Driver Buffer Files))
      (w : Driver Buffer Files)
      → IsGentle m a n w (state_of o)
      → ((v : Driver Buffer Files) → IsGentle m a n v (state_of (f v)))
      → IsGentle m a n w (state_of (then_do o f))
  then_do-Gentle (returned v) f w g h = Gentle-trans g (h v)
  then_do-Gentle (threw v) f w g h = g

  visit-Gentle :
      (b : Bool) (u : Bytes) (w : Driver Buffer Files)
      → n u
      → IsGentle m a n w (state_of (visit m a b u w))
  unfolding visit
  visit-Gentle b u w i = then_do-Gentle (get_document m a u w) _ w (get_document-Gentle u w i) (λ v.
      then_do-Gentle (tree_kept m a u (find u v.docs) v) _ v (tree_kept-Gentle u _ v refl)
        (λ x. note_analysis-Gentle b u _ x refl))

  visit_all-Gentle :
      (t : Task) (us : List Bytes) (w : Driver Buffer Files)
      → AllOf n us
      → IsGentle m a n w (state_of (visit_all m a t us w))
  unfolding visit_all
  visit_all-Gentle t [] w h = Gentle-refl w
  visit_all-Gentle t (u ∷ us) w (i, h) =
      then_do-Gentle (visit m a (a.is_analyzed t u) u w) _ w (visit-Gentle _ u w i)
        (λ v. visit_all-Gentle t us v h)

  perform-Gentle :
      (t : Task) (u : Bytes) (w : Driver Buffer Files) → IsGentle m a n w (perform m a t u w)
  unfolding perform
  perform-Gentle t u w =
      Gentle-trans (visit_all-Gentle t (a.visits t u w) w (k.visits_named t u w))
        (client-Gentle t u _)

  pub analyze-Gentle : (u : Bytes) (w : Driver Buffer Files) → IsGentle m a n w (analyze m a u w)
  unfolding analyze
  analyze-Gentle u w = perform-Gentle analyzing u w

  pub publish_inactive-Gentle :
      (u : Bytes) (w : Driver Buffer Files) → IsGentle m a n w (publish_inactive m a u w)
  unfolding publish_inactive
  publish_inactive-Gentle u w = perform-Gentle publishing u w

  pub refresh_compilation-Gentle :
      (u : Bytes) (w : Driver Buffer Files) → IsGentle m a n w (refresh_compilation m a u w)
  unfolding refresh_compilation
  refresh_compilation-Gentle u w = perform-Gentle refreshing u w

  pub update_index-Gentle :
      (u : Bytes) (w : Driver Buffer Files) → IsGentle m a n w (update_index m a u w)
  unfolding update_index
  update_index-Gentle u w = perform-Gentle indexing u w
